-- ===== src/Kernel/Lifecycle.antt =====
-- The life of the kernel process: frontend/src/stores/kernelApiLifecycle.ts. A handler is an action
-- over the store's own fields (`Core`) and the rest of the world. What other handlers do while one
-- waits is part of the call that it waits for.
pub mod Quiet
pub mod Stop
pub mod Start
pub mod Health
mod Tests
use private_deploy.Base.{
  ℕ, Bool, true, false, not, ◌&&◌, ◌||◌, Option, none, some, String, ◌==◌, if◌then◌else◌,
  starts_with, Outcome, ok, threw, Action, ◌>>=◌, ◌>>◌, done, ignored,
}
pub use private_deploy.Kernel.Machine.{
  Pid, absent, pid, not_a_number, unbounded, other, pid_eq, Core, Machine, LifecycleDeps, set_core,
  put, run, quietly, finally, promise_all, pid_of, name_of, same_flag, is_core_name,
}

module _ {P W : Type 0} (deps : LifecycleDeps P W) where
  unfoldable pub read_disk_pid : Action (Machine W) Pid
  read_disk_pid s = let (r, s') = deps.read_pid_file s in (ok (pid_of r), s')

  unfoldable pub process_name : Pid → Action (Machine W) String
  process_name absent s = (ok "", s)
  process_name p s = let (r, s') = deps.process_info p s in (ok (name_of r), s')

  -- What the user is told about the system proxy; an error is shown.
  unfoldable pub after_apply : Outcome Bool × Machine W → Outcome (Unit {0}) × Machine W
  after_apply (ok true, s) = (ok tt, s)
  after_apply (ok false, s) = (ok tt, deps.show "settings.systemProxy.autoSkippedExisting" s)
  after_apply (threw e, s) = (ok tt, deps.show e s)

  unfoldable pub apply_system_proxy : Action (Machine W) (Unit {0})
  unfolding after_apply
  apply_system_proxy s = after_apply (deps.set_system_proxy_if_safe s)

  unfoldable pub when :
      (Machine W → Bool) → Action (Machine W) (Unit {0}) → Action (Machine W) (Unit {0})
  when test m s = if test s then m s else (ok tt, s)

  unfoldable pub on_core_started : ℕ → Action (Machine W) (Unit {0})
  on_core_started n = do
    deps.write_pid_file n
    put (λ c. record c {
      core_pid = pid n;
      running = true;
      is_core_started_by_this_instance = true;
      core_stopped_resolved = false;
    })
    promise_all deps.refresh_config deps.refresh_provider_proxies
    when deps.is_auto_set_system_proxy_enabled apply_system_proxy
    deps.on_core_started_trigger
    run deps.start_core_websockets

  unfoldable pub on_core_stopped : Action (Machine W) (Unit {0})
  on_core_stopped = do
    deps.remove_pid_file
    put (λ c. record c { core_pid = absent; running = false })
    when deps.is_auto_set_system_proxy_enabled (quietly deps.restore_previous_system_proxy)
    deps.on_core_stopped_trigger
    put (λ c. record c { core_stopped_resolved = true })
    run deps.stop_core_websockets

  -- `await coreStoppedPromise`: a promise that was resolved before is there at once.
  unfoldable pub core_stopped_promise : Action (Machine W) (Unit {0})
  core_stopped_promise s =
      if s.core.core_stopped_resolved then (ok tt, s) else deps.until_core_stopped s

  -- The end of `stopCore`'s `try` block: what it waits for.
  unfoldable pub core_gone : Action (Machine W) (Unit {0})
  unfolding core_stopped_promise on_core_stopped
  core_gone s =
      if s.core.is_core_started_by_this_instance then core_stopped_promise s else on_core_stopped s

  unfoldable pub kill_core : Action (Machine W) (Unit {0})
  kill_core s = deps.kill_process s.core.core_pid s

  unfoldable pub stop_core : Action (Machine W) (Unit {0})
  stop_core s =
      if not s.core.running
      then (threw "The core is not running", s)
      else finally (do deps.on_before_core_stop_trigger; kill_core; core_gone)
          (λ c. record c { stopping = false }) (set_core (λ c. record c { stopping = true }) s)

  unfoldable pub stop_if_running : Action (Machine W) (Unit {0})
  stop_if_running s = if s.core.running then stop_core s else (ok tt, s)

  unfoldable pub start_again : Bool → Action (Machine W) (Unit {0})
  start_again keep s = deps.start_core (if keep then deps.get_runtime_profile s else none) true s

  unfoldable pub restart_core : Action (Machine W) (Unit {0}) → Bool → Action (Machine W) (Unit {0})
  restart_core cleanup keep s =
      finally (do stop_if_running; cleanup; start_again keep) (λ c. record c { restarting = false })
        (set_core (λ c. record c { restarting = true }) s)

  unfoldable pub refresh_all : Action (Machine W) (Unit {0})
  refresh_all = do
    run deps.start_core_websockets
    promise_all deps.refresh_config deps.refresh_provider_proxies

  unfoldable pub start_silently : Action (Machine W) (Unit {0})
  start_silently = deps.start_core none false

  -- The branches of `updateCoreState` behind the observation.
  unfoldable pub settle_core_state : Action (Machine W) (Unit {0})
  unfolding refresh_all start_silently
  settle_core_state s =
      if s.core.running
      then refresh_all s
      else if deps.is_auto_start_kernel_enabled s
      then (do quietly deps.restore_system_proxy_after_unexpected_exit; start_silently) s
      else quietly deps.restore_system_proxy_after_unexpected_exit s

  unfoldable pub update_core_state : Action (Machine W) (Unit {0})
  unfolding read_disk_pid process_name settle_core_state
  update_core_state = do
    p ← read_disk_pid
    put (λ c. record c { core_pid = p })
    name ← process_name p
    put (λ c. record c { running = is_core_name name; core_state_loading = false })
    settle_core_state
    quietly deps.update_system_proxy_status

  -- The core exited without our knowledge.
  unfoldable pub core_crashed : Action (Machine W) (Unit {0})
  unfolding on_core_stopped start_silently
  core_crashed = do on_core_stopped; when deps.is_auto_start_kernel_enabled (quietly start_silently)

  -- The branches of the check, on the running flag, the observation and the two process ids.
  unfoldable pub on_drift : Bool → Bool → Pid → Pid → Action (Machine W) (Unit {0})
  unfolding core_crashed refresh_all
  on_drift true false was_pid disk_pid s = core_crashed s
  on_drift false true was_pid disk_pid s =
      (do put (λ c. record c { core_pid = disk_pid; running = true }); refresh_all) s
  on_drift true true was_pid disk_pid s =
      if not (pid_eq was_pid disk_pid)
      then (do put (λ c. record c { core_pid = disk_pid }); refresh_all) s
      else (ok tt, s)
  on_drift false false was_pid disk_pid s = (ok tt, s)

  unfoldable pub compare_core : Pid → Bool → Action (Machine W) (Unit {0})
  unfolding on_drift
  compare_core disk_pid observed s =
      if same_flag s.core.running observed && pid_eq s.core.core_pid disk_pid
      then (ok tt, s)
      else on_drift s.core.running observed s.core.core_pid disk_pid s

  -- The body of the task.
  unfoldable pub observe_core : Action (Machine W) (Unit {0})
  unfolding read_disk_pid process_name compare_core
  observe_core = do
    disk_pid ← read_disk_pid
    name ← process_name disk_pid
    compare_core disk_pid (is_core_name name)

  unfoldable pub health_task : Action (Machine W) (Unit {0})
  unfolding observe_core
  health_task s =
      if s.core.core_state_loading
      then (ok tt, s)
      else if s.core.stopping || s.core.restarting
      then (ok tt, s)
      else observe_core s

  unfoldable pub check_core_health : Action (Machine W) (Unit {0})
  unfolding health_task
  check_core_health s =
      if s.core.health_check_in_flight
      then deps.join_health_check s
      else finally health_task (λ c. record c { health_check_in_flight = false })
          (set_core (λ c. record c { health_check_in_flight = true }) s)
