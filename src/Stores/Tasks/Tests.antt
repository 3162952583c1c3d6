-- ===== src/Stores/Tasks/Tests.antt =====
-- A disk that takes every list, and patterns that can be read unless they are "bad".
use private_deploy.Base.{
  ◌≡◌, refl, Bool, true, false, none, some, List, [], ◌∷◌, String, str_eq, ok, if◌then◌else◌,
}
use private_deploy.Base.Dict.{lookup, insert}
use private_deploy.Stores.Tasks.{
  run_script, ScheduledTask, TaskStore, TaskDeps, job, setup_scheduled_tasks,
}
use private_deploy.Stores.Tasks.Steps.{edit, run_change, StoreIsArmed, run_change-IsArmed}

abbrev task : String → String → Bool → ScheduledTask
task id cron disabled = record {
  id = id;
  name = id;
  type = run_script;
  subscriptions = [];
  rulesets = [];
  plugins = [];
  script = "return 1";
  cron = cron;
  notification = false;
  disabled = disabled;
  last_time = 0;
}

abbrev deps : TaskDeps (List ScheduledTask)
deps = record {
  pattern_error = λ p. if str_eq p "bad" then some "CronPattern: invalid" else none;
  read_tasks = λ file. file;
  save = λ ts file. (ok tt, ts);
}

abbrev written : List ScheduledTask
written = task "a" "0 * * * *" false ∷ task "b" "5 * * * *" true ∷ []

abbrev start : TaskStore (List ScheduledTask)
start = record { tasks = written; jobs = ("a", job "0 * * * *") ∷ []; world = written }

set_up : setup_scheduled_tasks deps (record { tasks = []; jobs = []; world = written }) ≡ start
unfolding setup_scheduled_tasks insert
set_up = refl

start-IsArmed : StoreIsArmed start
unfolding lookup
start-IsArmed = record { distinct = (refl, (refl, tt)); armed = (refl, (refl, tt)) }

run_change-IsArmed_example :
    StoreIsArmed (run_change deps (edit "b" (task "b" "7 * * * *" false)) start).1
run_change-IsArmed_example =
    run_change-IsArmed deps start start-IsArmed (edit "b" (task "b" "7 * * * *" false)) (refl, refl)
