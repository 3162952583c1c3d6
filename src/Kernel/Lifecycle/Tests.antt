-- ===== src/Kernel/Lifecycle/Tests.antt =====
-- A kernel on a small machine, whose world is the file with the process id and the name of the
-- process that runs under it.
use private_deploy.Base.{
  ℕ, ◌≡◌, refl, Bool, true, false, none, String, ok, threw, Action, done, trim, starts_with,
}
use private_deploy.Cloud.Address.{to_number}
use private_deploy.Kernel.Lifecycle.{
  Pid, absent, pid, Core, Machine, LifecycleDeps, set_core, read_disk_pid, process_name, when,
  on_core_stopped, core_stopped_promise, core_gone, kill_core, stop_core, core_crashed, on_drift,
  compare_core, observe_core, health_task,
}
use private_deploy.Kernel.Lifecycle.Quiet.{Quiet}
use private_deploy.Kernel.Lifecycle.Stop.{gone_core, Stops, stop_core-Stops}
use private_deploy.Kernel.Lifecycle.Health.{Agrees, health_task-Agrees}

record Host : Type 0 where
  pid_file : String
  process : String

abbrev unit : Action (Machine Host) (Unit {0})
unit = done tt

abbrev set_world : (Host → Host) → Machine Host → Machine Host
set_world f s = record s { world = f s.world }

abbrev exit_seen : Action (Machine Host) (Unit {0})
exit_seen s = (ok tt, set_core gone_core s)

abbrev deps : LifecycleDeps ℕ Host
deps = record {
  read_pid_file = λ s. (ok s.world.pid_file, s);
  process_info = λ _ s. (ok s.world.process, s);
  write_pid_file = λ _ s. (ok tt, set_world (λ h. record h { pid_file = "7" }) s);
  remove_pid_file = λ s. (ok tt, set_world (λ h. record h { pid_file = "" }) s);
  kill_process = λ _ s. (ok tt, set_world (λ h. record h { process = "" }) s);
  refresh_config = λ s. (threw "offline", s);
  refresh_provider_proxies = unit;
  start_core = λ _ _ s. (threw "no profile", s);
  get_runtime_profile = λ _. none;
  is_auto_start_kernel_enabled = λ _. false;
  is_auto_set_system_proxy_enabled = λ _. true;
  restore_system_proxy_after_unexpected_exit = unit;
  update_system_proxy_status = unit;
  set_system_proxy_if_safe = done true;
  restore_previous_system_proxy = unit;
  on_before_core_stop_trigger = unit;
  on_core_started_trigger = unit;
  on_core_stopped_trigger = unit;
  start_core_websockets = λ s. s;
  stop_core_websockets = λ s. s;
  show = λ _ s. s;
  until_core_stopped = exit_seen;
  join_health_check = unit;
}

quiet : Quiet deps
quiet = record {
  read_pid_file = λ _. refl;
  process_info = λ _ _. refl;
  write_pid_file = λ _ _. refl;
  remove_pid_file = λ _. refl;
  kill_process = λ _ _. refl;
  refresh_config = λ _. refl;
  refresh_provider_proxies = λ _. refl;
  restore_after_exit = λ _. refl;
  set_system_proxy_if_safe = λ _. refl;
  restore_previous = λ _. refl;
  on_before_core_stop_trigger = λ _. refl;
  on_core_started_trigger = λ _. refl;
  on_core_stopped_trigger = λ _. refl;
  start_core_websockets = λ _. refl;
  stop_core_websockets = λ _. refl;
  show = λ _ _. refl;
}

abbrev core_of : Pid → Bool → Core
core_of p b = record {
  core_pid = p;
  running = b;
  stopping = false;
  restarting = false;
  core_state_loading = false;
  is_core_started_by_this_instance = b;
  core_stopped_resolved = false;
  health_check_in_flight = false;
}

abbrev up : Machine Host
up = record { core = core_of (pid 7) true; world = record { pid_file = "7"; process = "sing-box" } }

abbrev crashed : Machine Host
crashed = record { core = core_of (pid 7) true; world = record { pid_file = "7"; process = "" } }

abbrev down : Machine Host
down = record { core = core_of absent false; world = record { pid_file = ""; process = "" } }

-- The core of this instance has exited, another one was started outside and seen.
abbrev taken_over : Machine Host
taken_over = record {
  core = record (core_of (pid 7) true) { core_stopped_resolved = true };
  world = record { pid_file = "7"; process = "sing-box" };
}

stop_core-Stops_example : Stops deps taken_over (stop_core deps taken_over)
stop_core-Stops_example = stop_core-Stops deps quiet taken_over refl

stops_and_runs :
    ((stop_core deps taken_over).0 ≡ ok tt) × ((stop_core deps taken_over).1.core.running ≡ true)
unfolding stop_core kill_core core_gone core_stopped_promise
stops_and_runs = (refl, refl)

health_task-Agrees_example : Agrees (pid 7) false (health_task deps crashed).1.core
unfolding read_disk_pid process_name health_task observe_core compare_core on_drift core_crashed
    on_core_stopped when to_number trim starts_with
health_task-Agrees_example =
    health_task-Agrees deps quiet (λ _. refl) crashed (pid 7) "" refl refl refl refl
