-- ===== src/Stores/Tasks/Armed.antt =====
-- Each task has the job that it asks for.
use mathlib.Core.List.{map-append}
use private_deploy.Base.{
  ◌≡◌, refl, ◌∙◌, subst, Bool, true, false, ◌||◌, inl, inr, Option, none, some, List, [], ◌∷◌, ◌++◌,
  map, All, String, str_eq, str_eq_sym, one_of, Distinct, Distinct-append, Disjoint, All-append,
  arith, eq_iff, Bool-cases, if◌then◌else◌,
}
use private_deploy.Base.Dict.{Dict, lookup, insert, erase, lookup-insert, lookup-erase}
use private_deploy.Stores.Lists.Changes.{with_first}
use private_deploy.Stores.Tasks.{ScheduledTask, CronJob, job, stopped, stop, is_task}

abbrev pub id_of : ScheduledTask → String
id_of t = t.id

abbrev pub job_of : ScheduledTask → Option CronJob
job_of t = if t.disabled then none else some (job t.cron)

abbrev pub Armed : Dict CronJob → ScheduledTask → Type 0
Armed jobs t = lookup t.id jobs ≡ job_of t

-- The ids are distinct, an enabled task has a running job with its pattern, and a disabled one has none.
pub record IsArmed (tasks : List ScheduledTask) (jobs : Dict CronJob) : Type 0 where
  pub distinct : Distinct (map id_of tasks)
  pub armed : All (Armed jobs) tasks

-- The jobs differ in that of the id at most.
abbrev pub Away : String → Dict CronJob → Dict CronJob → Type 0
Away id jobs next = (j : String) → str_eq id j ≡ false → lookup j next ≡ lookup j jobs

pub insert-Away :
    (id : String) (x : CronJob) (jobs : Dict CronJob) → Away id jobs (insert id x jobs)
insert-Away id x jobs j e = lookup-insert id j x jobs ∙ rw e refl

pub erase-Away : (id : String) (jobs : Dict CronJob) → Away id jobs (erase id jobs)
erase-Away id jobs j e = lookup-erase id j jobs ∙ rw e refl

pub stop-Away : (id : String) (jobs : Dict CronJob) → Away id jobs (stop id jobs)
unfolding stop
stop-Away id jobs = any_stopped (lookup id jobs)
  where
    any_stopped : (o : Option CronJob) → Away id jobs (stopped id o jobs)
    any_stopped none j e = refl
    any_stopped (some x) j e = insert-Away id _ jobs j e

pub trans-Away : (id : String) (a b c : Dict CronJob) → Away id a b → Away id b c → Away id a c
trans-Away id a b c f g j e = g j e ∙ f j e

-- Tasks with other ids stay armed.
pub others :
    (id : String) (ts : List ScheduledTask) (jobs next : Dict CronJob)
    → Away id jobs next
    → one_of id (map id_of ts) ≡ false
    → All (Armed jobs) ts
    → All (Armed next) ts
others id [] jobs next h e a = tt
others id (t ∷ ts) jobs next h e a =
    let (d, r) = split (str_eq id t.id) (one_of id (map id_of ts)) e in
    (h t.id d ∙ a.0, others id ts jobs next h r a.1)
  where
    split : (x y : Bool) → (x || y) ≡ false → (x ≡ false) × (y ≡ false)
    split x y h = ground arith

same_task : (id : String) (t : ScheduledTask) → is_task id t ≡ true → t.id ≡ id
same_task id t e = (eq_iff t.id id).0 e

other_task : (id : String) (t : ScheduledTask) → is_task id t ≡ false → str_eq id t.id ≡ false
other_task id t e = str_eq_sym id t.id ∙ e

-- The first task with the id removed.
one_of-without :
    (x id : String) (ts : List ScheduledTask)
    → one_of x (map id_of ts) ≡ false
    → one_of x (map id_of (with_first (is_task id) [] ts)) ≡ false
one_of-without x id [] h = refl
one_of-without x id (t ∷ ts) h = ground (arith, one_of-without x id ts)

pub without-IsArmed :
    (id : String) (ts : List ScheduledTask) (jobs next : Dict CronJob)
    → Away id jobs next
    → IsArmed ts jobs
    → IsArmed (with_first (is_task id) [] ts) next
without-IsArmed id [] jobs next h a = record { distinct = tt; armed = tt }
without-IsArmed id (t ∷ ts) jobs next h a =
    let tail =
      without-IsArmed id ts jobs next h (record { distinct = a.distinct.1; armed = a.armed.1 }) in
    elim (Bool-cases (is_task id t)) [
      | inl e ↦ rw e (record {
        distinct = a.distinct.1;
        armed =
            others id ts jobs next h
              (subst (λ x. one_of x (map id_of ts) ≡ false) (same_task id t e) a.distinct.0)
              a.armed.1;
      })
      | inr e ↦ rw e (record {
        distinct = (one_of-without t.id id ts a.distinct.0, tail.distinct);
        armed = (h t.id (other_task id t e) ∙ a.armed.0, tail.armed);
      })
    ]

-- The first task with the id replaced by one with the same id.
pub ids_kept :
    (new : ScheduledTask) (ts : List ScheduledTask)
    → map id_of (with_first (is_task new.id) (new ∷ []) ts) ≡ map id_of ts
ids_kept new [] = refl
ids_kept new (t ∷ ts) = ground (arith, eq_iff t.id new.id, ids_kept new ts)

pub over-IsArmed :
    (new : ScheduledTask) (ts : List ScheduledTask) (jobs next : Dict CronJob)
    → Away new.id jobs next
    → Armed next new
    → IsArmed ts jobs
    → All (Armed next) (with_first (is_task new.id) (new ∷ []) ts)
over-IsArmed new [] jobs next h n a = tt
over-IsArmed new (t ∷ ts) jobs next h n a = elim (Bool-cases (is_task new.id t)) [
  | inl e ↦ rw e (
    n,
    others new.id ts jobs next h
        (subst (λ x. one_of x (map id_of ts) ≡ false) (same_task new.id t e) a.distinct.0)
        a.armed.1,
  )
  | inr e ↦ rw e (
    h t.id (other_task new.id t e) ∙ a.armed.0,
    over-IsArmed new ts jobs next h n (record { distinct = a.distinct.1; armed = a.armed.1 }),
  )
]

-- A task behind the others.
pub pushed-Armed :
    (new : ScheduledTask) (ts : List ScheduledTask) (jobs next : Dict CronJob)
    → Away new.id jobs next
    → one_of new.id (map id_of ts) ≡ false
    → Armed next new
    → IsArmed ts jobs
    → IsArmed (ts ++ (new ∷ [])) next
pushed-Armed new ts jobs next h f n a = record {
  distinct =
      rw (map-append id_of ts (new ∷ []))
        (Distinct-append (map id_of ts) (new.id ∷ []) a.distinct (refl, tt) (apart ts f));
  armed = All-append (Armed next) ts (new ∷ []) (others new.id ts jobs next h f a.armed) (n, tt);
}
  where
    apart :
        (ts : List ScheduledTask)
        → one_of new.id (map id_of ts) ≡ false
        → Disjoint (map id_of ts) (new.id ∷ [])
    apart [] f = tt
    apart (t ∷ ts) f = (ground (arith, str_eq_sym new.id t.id), apart ts (ground arith))
