-- ===== src/Stores/Tasks/Steps.antt =====
-- The tasks and their jobs over the calls of the store.
use private_deploy.Base.{
  ℕ, ◌≡◌, refl, sym, ◌∙◌, subst, false, inl, inr, Option, none, some, List, [], ◌∷◌, ◌++◌, map,
  String, one_of, Outcome, ok, threw, eq_refl, Bool-cases,
}
use private_deploy.Base.Dict.{Dict, lookup, insert, erase, lookup-insert, lookup-erase}
use private_deploy.Stores.Lists.{find_index, splice_out, splice_over, put_in, put_over}
use private_deploy.Stores.Lists.Changes.{with_first, IsCut, find_index-IsCut, pop-append}
use private_deploy.Stores.Tasks.{
  ScheduledTask, CronJob, TaskStore, TaskDeps, Done, job, stop, is_task, not_added, added,
  add_pushed, add_scheduled_task, deleted, delete_at, delete_scheduled_task, edited, edit_at,
  edit_scheduled_task,
}
use private_deploy.Stores.Tasks.Armed.{
  id_of, Armed, IsArmed, Away, insert-Away, erase-Away, stop-Away, trans-Away, others,
  without-IsArmed, ids_kept, over-IsArmed, pushed-Armed,
}

pub data TaskChange : Type 0 where
  add : ScheduledTask → TaskChange
  delete : String → TaskChange
  edit : String → ScheduledTask → TaskChange

abbrev pub run_change : {W : Type 0} → TaskDeps W → TaskChange → TaskStore W → Done W
run_change deps (add t) s = add_scheduled_task deps t s
run_change deps (delete id) s = delete_scheduled_task deps id s
run_change deps (edit id t) s = edit_scheduled_task deps id t s

-- A new task has a new id and is enabled; an edited one keeps its id, and its pattern can be read.
abbrev pub Fits : {W : Type 0} → TaskDeps W → List ScheduledTask → TaskChange → Type 0
Fits deps tasks (add t) = (one_of t.id (map id_of tasks) ≡ false) × (t.disabled ≡ false)
Fits deps tasks (delete id) = Unit
Fits deps tasks (edit id t) = (t.id ≡ id) × (deps.pattern_error t.cron ≡ none)

abbrev pub StoreIsArmed : {W : Type 0} → TaskStore W → Type 0
StoreIsArmed s = IsArmed s.tasks s.jobs

forgotten : (id : String) (jobs : Dict CronJob) → Away id jobs (erase id (stop id jobs))
forgotten id jobs =
    trans-Away id jobs (stop id jobs) _ (stop-Away id jobs) (erase-Away id (stop id jobs))

lookup-job :
    (id pattern : String) (jobs : Dict CronJob)
    → lookup id (insert id (job pattern) jobs) ≡ some (job pattern)
lookup-job id pattern jobs = lookup-insert id id (job pattern) jobs ∙ rw (eq_refl id) refl

lookup-forgotten : (id : String) (jobs : Dict CronJob) → lookup id (erase id jobs) ≡ none
lookup-forgotten id jobs = lookup-erase id id jobs ∙ rw (eq_refl id) refl

module _ {W : Type 0} (deps : TaskDeps W) (s : TaskStore W) (armed : StoreIsArmed s) where
  not_added-IsArmed :
      (t : ScheduledTask) (e : String) (jobs : Dict CronJob) (w : W)
      → one_of t.id (map id_of s.tasks) ≡ false
      → Away t.id s.jobs jobs
      → StoreIsArmed
          (not_added deps e t (record { tasks = s.tasks ++ (t ∷ []); jobs = jobs; world = w })).1
  not_added-IsArmed t e jobs w f h = rw (pop-append s.tasks t) (record {
    distinct = armed.distinct;
    armed =
        others t.id s.tasks s.jobs _ (trans-Away t.id s.jobs jobs _ h (forgotten t.id jobs)) f
          armed.armed;
  })

  added-IsArmed :
      (t : ScheduledTask) (r : Outcome (Unit {0}) × W)
      → one_of t.id (map id_of s.tasks) ≡ false
      → t.disabled ≡ false
      → StoreIsArmed
          (added deps t
            (record {
              tasks = s.tasks ++ (t ∷ []);
              jobs = insert t.id (job t.cron) s.jobs;
              world = s.world;
            })
            r).1
  added-IsArmed t (ok u, w) f d =
      pushed-Armed t s.tasks s.jobs _ (insert-Away t.id (job t.cron) s.jobs) f
        (lookup-job t.id t.cron s.jobs ∙ rw d refl) armed
  added-IsArmed t (threw e, w) f d =
      not_added-IsArmed t e _ w f (insert-Away t.id (job t.cron) s.jobs)

  add_pushed-IsArmed :
      (t : ScheduledTask) (o : Option String)
      → one_of t.id (map id_of s.tasks) ≡ false
      → t.disabled ≡ false
      → StoreIsArmed (add_pushed deps t o (record s { tasks = s.tasks ++ (t ∷ []) })).1
  add_pushed-IsArmed t none f d = added-IsArmed t (deps.save (s.tasks ++ (t ∷ [])) s.world) f d
  add_pushed-IsArmed t (some e) f d = not_added-IsArmed t e s.jobs s.world f (λ j q. refl)

  deleted-IsArmed :
      (id : String) (undo : List ScheduledTask → List ScheduledTask) (rest : List ScheduledTask)
      (r : Outcome (Unit {0}) × W)
      → rest ≡ with_first (is_task id) [] s.tasks
      → undo rest ≡ s.tasks
      → StoreIsArmed (deleted deps id undo (record s { tasks = rest }) r).1
  deleted-IsArmed id undo rest (ok u, w) e back =
      subst (λ ts. IsArmed ts (erase id (stop id s.jobs))) (sym e)
        (without-IsArmed id s.tasks s.jobs _ (forgotten id s.jobs) armed)
  deleted-IsArmed id undo rest (threw x, w) e back =
      subst (λ ts. IsArmed ts s.jobs) (sym back) armed

  delete_at-IsArmed :
      (id : String) (o : Option ℕ)
      → IsCut (is_task id) s.tasks o
      → StoreIsArmed (delete_at deps id o s).1
  delete_at-IsArmed id none h = armed
  delete_at-IsArmed id (some i) h =
      deleted-IsArmed id (put_in i (splice_out i s.tasks).1) (splice_out i s.tasks).0
        (deps.save (splice_out i s.tasks).0 s.world) h.0 h.1

  -- The edited task under its job.
  rearmed :
      (t : ScheduledTask) (changed : List ScheduledTask) (next : Dict CronJob)
      → changed ≡ with_first (is_task t.id) (t ∷ []) s.tasks
      → Away t.id s.jobs next
      → Armed next t
      → IsArmed changed next
  rearmed t changed next e h a =
      subst (λ ts. IsArmed ts next) (sym e)
        (record {
          distinct = rw (ids_kept t s.tasks) armed.distinct;
          armed = over-IsArmed t s.tasks s.jobs next h a armed;
        })

  edited-IsArmed :
      (t : ScheduledTask) (undo : List ScheduledTask → List ScheduledTask)
      (changed : List ScheduledTask) (r : Outcome (Unit {0}) × W)
      → deps.pattern_error t.cron ≡ none
      → changed ≡ with_first (is_task t.id) (t ∷ []) s.tasks
      → undo changed ≡ s.tasks
      → StoreIsArmed (edited deps t.id t undo (record s { tasks = changed }) r).1
  edited-IsArmed t undo changed (threw x, w) p e back =
      subst (λ ts. IsArmed ts s.jobs) (sym back) armed
  edited-IsArmed t undo changed (ok u, w) p e back = elim (Bool-cases t.disabled) [
    | inl d ↦ rw d (
        rearmed t changed _ e (forgotten t.id s.jobs)
          (lookup-forgotten t.id (stop t.id s.jobs) ∙ rw d refl))
    | inr d ↦
        rw (d, p)
          (rearmed t changed _ e
            (trans-Away t.id s.jobs (stop t.id s.jobs) _ (stop-Away t.id s.jobs)
              (insert-Away t.id (job t.cron) (stop t.id s.jobs)))
            (lookup-job t.id t.cron (stop t.id s.jobs) ∙ rw d refl))
  ]

  edit_at-IsArmed :
      (t : ScheduledTask) (o : Option ℕ)
      → deps.pattern_error t.cron ≡ none
      → IsCut (is_task t.id) s.tasks o
      → StoreIsArmed (edit_at deps t.id o t s).1
  edit_at-IsArmed t none p h = armed
  edit_at-IsArmed t (some i) p h =
      edited-IsArmed t (put_over i (splice_over i t s.tasks).1) (splice_over i t s.tasks).0
        (deps.save (splice_over i t s.tasks).0 s.world) p (h.2 t).0 (h.2 t).1

  -- Adding an enabled task with a new id, deleting a task, and editing one that keeps its id and has a
  -- pattern that can be read keep the ids distinct and leave each enabled task with a running job of
  -- its pattern and each disabled one without a job, whether or not the save or the pattern of a new
  -- task fails.
  pub run_change-IsArmed :
      (c : TaskChange) → Fits deps s.tasks c → StoreIsArmed (run_change deps c s).1
  unfolding add_scheduled_task delete_scheduled_task edit_scheduled_task
  run_change-IsArmed (add t) h = add_pushed-IsArmed t (deps.pattern_error t.cron) h.0 h.1
  run_change-IsArmed (delete id) h =
      delete_at-IsArmed id (find_index (is_task id) s.tasks) (find_index-IsCut (is_task id) s.tasks)
  run_change-IsArmed (edit id t) h =
      subst (λ k. StoreIsArmed (edit_at deps k (find_index (is_task k) s.tasks) t s).1) h.0
        (edit_at-IsArmed t (find_index (is_task t.id) s.tasks) h.1
          (find_index-IsCut (is_task t.id) s.tasks))
