-- ===== src/Stores/Tasks/Invalid.antt =====
-- The job of a task that was added, and an edit whose pattern cannot be read.
use private_deploy.Base.{
  ℕ, ◌≡◌, refl, ap, ◌∙◌, true, false, Option, none, some, is_some, List, [], ◌∷◌, ◌++◌, map, String,
  str_eq_sym, one_of, Outcome, ok, threw, arith, eq_refl,
}
use private_deploy.Base.Dict.{Dict, lookup, insert, erase, lookup-insert, lookup-erase}
use private_deploy.Stores.Lists.{next_index, find_index, splice_over, put_over}
use private_deploy.Stores.Lists.Changes.{with_first, IsCut, find_index-IsCut}
use private_deploy.Stores.Tasks.{
  ScheduledTask, CronJob, TaskStore, TaskDeps, Done, job, stop, is_task, added, add_pushed,
  add_scheduled_task, edited, edit_at, edit_scheduled_task,
}
use private_deploy.Stores.Tasks.Armed.{id_of}

-- The id has a running job with the pattern where the call returned, and none where it threw.
abbrev pub HasJob : {W : Type 0} → ScheduledTask → Done W → Type 0
HasJob t (ok u, s) = lookup t.id s.jobs ≡ some (job t.cron)
HasJob t (threw e, s) = lookup t.id s.jobs ≡ none

lookup-erased : (id : String) (jobs : Dict CronJob) → lookup id (erase id jobs) ≡ none
lookup-erased id jobs = lookup-erase id id jobs ∙ rw (eq_refl id) refl

-- After a task was added, disabled or not, its id has a running job of its pattern; where the call
-- threw, whether for the pattern or for the save, it has none.
pub add_scheduled_task-HasJob :
    {W : Type 0} (deps : TaskDeps W) (t : ScheduledTask) (s : TaskStore W)
    → HasJob t (add_scheduled_task deps t s)
unfolding add_scheduled_task
add_scheduled_task-HasJob deps t s =
    by_pattern (deps.pattern_error t.cron) (record s { tasks = s.tasks ++ (t ∷ []) })
  where
    by_save :
        (s : TaskStore _) (r : Outcome (Unit {0}) × _)
        → HasJob t (added deps t (record s { jobs = insert t.id (job t.cron) s.jobs }) r)
    by_save s (ok u, w) = lookup-insert t.id t.id (job t.cron) s.jobs ∙ rw (eq_refl t.id) refl
    by_save s (threw e, w) = lookup-erased t.id _

    by_pattern : (o : Option String) (s : TaskStore _) → HasJob t (add_pushed deps t o s)
    by_pattern none s = by_save s (deps.save s.tasks s.world)
    by_pattern (some e) s = lookup-erased t.id _

next_index-is_some : (o : Option ℕ) → is_some (next_index o) ≡ is_some o
next_index-is_some none = refl
next_index-is_some (some i) = refl

find_index-is_some :
    (id : String) (ts : List ScheduledTask)
    → is_some (find_index (is_task id) ts) ≡ one_of id (map id_of ts)
unfolding find_index
find_index-is_some id [] = refl
find_index-is_some id (t ∷ ts) = ground (
  arith,
  find_index-is_some id ts,
  next_index-is_some (find_index (is_task id) ts),
  str_eq_sym id t.id,
)

-- The store after an edit that was saved and whose pattern cannot be read.
abbrev pub half_edited : {W : Type 0} → String → String → W → TaskStore W → TaskStore W
half_edited id pattern w s = record s {
  jobs = insert id (record { pattern = pattern; running = false }) s.jobs;
  world = w;
}

module _ {W : Type 0} (deps : TaskDeps W) (s : TaskStore W) (id : String) (t : ScheduledTask) where
  edited-invalid :
      (undo : List ScheduledTask → List ScheduledTask) (changed : List ScheduledTask)
      (e pattern : String) (w : W)
      → undo changed ≡ s.tasks
      → t.disabled ≡ false
      → deps.pattern_error t.cron ≡ some e
      → lookup id s.jobs ≡ some (job pattern)
      → edited deps id t undo (record s { tasks = changed }) (ok tt, w)
        ≡ (threw e, half_edited id pattern w s)
  unfolding stop
  edited-invalid undo changed e pattern w back d p j = rw (d, p, j, back) refl

  edit_at-invalid :
      (o : Option ℕ) (e pattern : String) (w : W)
      → is_some o ≡ true
      → IsCut (is_task id) s.tasks o
      → t.disabled ≡ false
      → deps.pattern_error t.cron ≡ some e
      → lookup id s.jobs ≡ some (job pattern)
      → deps.save (with_first (is_task id) (t ∷ []) s.tasks) s.world ≡ (ok tt, w)
      → edit_at deps id o t s ≡ (threw e, half_edited id pattern w s)
  edit_at-invalid none e pattern w q h d p j k = cc
  edit_at-invalid (some i) e pattern w q h d p j k =
      let (changed, backup) = splice_over i t s.tasks in
      ap (edited deps id t (put_over i backup) (record s { tasks = changed }))
        (ap (λ ts. deps.save ts s.world) (h.2 t).0 ∙ k)
      ∙ edited-invalid (put_over i backup) changed e pattern w (h.2 t).1 d p j

  -- Editing an enabled task with a job so that its pattern cannot be read, where the save returns,
  -- throws and leaves the tasks in memory as they were; but the edited list was saved, and the job of
  -- the task has been stopped.
  pub edit_scheduled_task-invalid :
      (e pattern : String) (w : W)
      → one_of id (map id_of s.tasks) ≡ true
      → t.disabled ≡ false
      → deps.pattern_error t.cron ≡ some e
      → lookup id s.jobs ≡ some (job pattern)
      → deps.save (with_first (is_task id) (t ∷ []) s.tasks) s.world ≡ (ok tt, w)
      → edit_scheduled_task deps id t s ≡ (threw e, half_edited id pattern w s)
  unfolding edit_scheduled_task
  edit_scheduled_task-invalid e pattern w h d p j k =
      edit_at-invalid (find_index (is_task id) s.tasks) e pattern w
        (find_index-is_some id s.tasks ∙ h) (find_index-IsCut (is_task id) s.tasks) d p j k
