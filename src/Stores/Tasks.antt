-- ===== src/Stores/Tasks.antt =====
-- The scheduled tasks and their jobs: frontend/src/stores/scheduledtasks.ts.
use private_deploy.Base.{
  ℕ, Bool, true, false, Option, none, some, List, [], ◌∷◌, ◌++◌, map, String, str_eq, Outcome, ok,
  threw, Action, if◌then◌else◌,
}
use private_deploy.Base.Dict.{Dict, lookup, insert, erase}
use private_deploy.Stores.Lists.{
  find_index, splice_out, splice_in, splice_over, pop, put_in, put_over,
}
pub mod Armed
pub mod Steps
pub mod Invalid
mod Tests

pub data ScheduledTasksType : Type 0 where
  update_subscription : ScheduledTasksType
  update_ruleset : ScheduledTasksType
  update_plugin : ScheduledTasksType
  run_plugin : ScheduledTasksType
  run_script : ScheduledTasksType

pub record ScheduledTask : Type 0 where
  pub id : String
  pub name : String
  pub type : ScheduledTasksType
  pub subscriptions : List String
  pub rulesets : List String
  pub plugins : List String
  pub script : String
  pub cron : String
  pub notification : Bool
  pub disabled : Bool
  pub last_time : ℕ

-- A `Cron` by its pattern, and whether it still runs: `stop()` ends it.
pub record CronJob : Type 0 where
  pub pattern : String
  pub running : Bool

pub record TaskStore (W : Type 0) : Type 0 where
  pub tasks : List ScheduledTask
  pub jobs : Dict CronJob
  pub world : W

-- The constructor of `Cron` throws an error for a pattern that it cannot read.
pub record TaskDeps (W : Type 0) : Type 0 where
  pub pattern_error : String → Option String
  pub read_tasks : W → List ScheduledTask
  pub save : List ScheduledTask → Action W (Unit {0})

abbrev pub Done : Type 0 → Type 0
Done W = Outcome (Unit {0}) × TaskStore W

abbrev pub job : String → CronJob
job pattern = record { pattern = pattern; running = true }

-- `cronJobsMap[id]?.stop()`
abbrev pub stopped : String → Option CronJob → Dict CronJob → Dict CronJob
stopped id none jobs = jobs
stopped id (some j) jobs = insert id (record j { running = false }) jobs

unfoldable pub stop : String → Dict CronJob → Dict CronJob
stop id jobs = stopped id (lookup id jobs) jobs

abbrev pub is_task : String → ScheduledTask → Bool
is_task id t = str_eq t.id id

module _ {W : Type 0} (deps : TaskDeps W) where
  -- The job of a task that was read; a pattern that cannot be read leaves it without one.
  abbrev set_job : ScheduledTask → Option String → Dict CronJob → Dict CronJob
  set_job t none jobs = insert t.id (job t.cron) jobs
  set_job t (some e) jobs = jobs

  abbrev set_jobs : List ScheduledTask → Dict CronJob → Dict CronJob
  set_jobs [] jobs = jobs
  set_jobs (t ∷ ts) jobs =
      set_jobs ts (if t.disabled then jobs else set_job t (deps.pattern_error t.cron) jobs)

  unfoldable pub setup_scheduled_tasks : TaskStore W → TaskStore W
  setup_scheduled_tasks s =
      let tasks = deps.read_tasks s.world in
      record s { tasks = tasks; jobs = set_jobs tasks s.jobs }

  -- `catch (error)` of `addScheduledTask`; the task that was pushed is the last one.
  abbrev pub not_added : String → ScheduledTask → TaskStore W → Done W
  not_added e t s =
      (threw e, record s { tasks = pop s.tasks; jobs = erase t.id (stop t.id s.jobs) })

  abbrev pub added : ScheduledTask → TaskStore W → Outcome (Unit {0}) × W → Done W
  added t s (ok u, w) = (ok u, record s { world = w })
  added t s (threw e, w) = not_added e t (record s { world = w })

  -- The job is made whether or not the task is disabled.
  abbrev pub add_pushed : ScheduledTask → Option String → TaskStore W → Done W
  add_pushed t (some e) s = not_added e t s
  add_pushed t none s =
      added t (record s { jobs = insert t.id (job t.cron) s.jobs }) (deps.save s.tasks s.world)

  unfoldable pub add_scheduled_task : ScheduledTask → TaskStore W → Done W
  unfolding pop stop
  add_scheduled_task t s =
      add_pushed t (deps.pattern_error t.cron) (record s { tasks = s.tasks ++ (t ∷ []) })

  abbrev pub deleted :
      String
      → (List ScheduledTask → List ScheduledTask)
      → TaskStore W
      → Outcome (Unit {0}) × W
      → Done W
  deleted id undo s (ok u, w) = (ok u, record s { jobs = erase id (stop id s.jobs); world = w })
  deleted id undo s (threw e, w) = (threw e, record s { tasks = undo s.tasks; world = w })

  abbrev pub delete_at : String → Option ℕ → TaskStore W → Done W
  delete_at id none s = (ok tt, s)
  delete_at id (some i) s =
      let (rest, backup) = splice_out i s.tasks in
      deleted id (put_in i backup) (record s { tasks = rest }) (deps.save rest s.world)

  unfoldable pub delete_scheduled_task : String → TaskStore W → Done W
  unfolding find_index splice_out splice_in stop
  delete_scheduled_task id s = delete_at id (find_index (is_task id) s.tasks) s

  -- A new job for the edited task, whose old one was stopped.
  abbrev pub restarted :
      String
      → ScheduledTask
      → (List ScheduledTask → List ScheduledTask)
      → Option String
      → TaskStore W
      → Done W
  restarted id t undo none s = (ok tt, record s { jobs = insert id (job t.cron) s.jobs })
  restarted id t undo (some e) s = (threw e, record s { tasks = undo s.tasks })

  abbrev pub edited :
      String
      → ScheduledTask
      → (List ScheduledTask → List ScheduledTask)
      → TaskStore W
      → Outcome (Unit {0}) × W
      → Done W
  edited id t undo s (ok u, w) =
      let stopped = record s { jobs = stop id s.jobs; world = w } in
      if t.disabled
      then (ok tt, record stopped { jobs = erase id stopped.jobs })
      else restarted id t undo (deps.pattern_error t.cron) stopped
  edited id t undo s (threw e, w) = (threw e, record s { tasks = undo s.tasks; world = w })

  abbrev pub edit_at : String → Option ℕ → ScheduledTask → TaskStore W → Done W
  edit_at id none t s = (ok tt, s)
  edit_at id (some i) t s =
      let (changed, backup) = splice_over i t s.tasks in
      edited id t (put_over i backup) (record s { tasks = changed }) (deps.save changed s.world)

  unfoldable pub edit_scheduled_task : String → ScheduledTask → TaskStore W → Done W
  unfolding find_index splice_over stop
  edit_scheduled_task id t s = edit_at id (find_index (is_task id) s.tasks) t s
