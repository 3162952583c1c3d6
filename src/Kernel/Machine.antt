-- ===== src/Kernel/Machine.antt =====
-- The refs of frontend/src/stores/kernelApiLifecycle.ts and the calls that its manager is given.
use private_deploy.Base.{
  ℕ, zero, suc, Bool, true, false, not, ◌&&◌, Option, String, ◌==◌, starts_with, Outcome, ok, threw,
  Action, ignored,
}
use private_deploy.Cloud.Address.{Numeral, nan, infinite, decimal, to_number}

-- A process id: -1, a natural number, NaN, or another number (see Numeral).
pub data Pid : Type 0 where
  absent : Pid
  pid : ℕ → Pid
  not_a_number : Pid
  unbounded : Bool → Pid
  other : Bool → ℕ → ℕ → Pid

abbrev pub same_flag : Bool → Bool → Bool
same_flag true b = b
same_flag false b = not b

-- `===`
abbrev pub pid_eq : Pid → Pid → Bool
pid_eq absent absent = true
pid_eq (pid m) (pid n) = m == n
pid_eq (unbounded a) (unbounded b) = same_flag a b
pid_eq (other a m k) (other b n l) = same_flag a b && (m == n && k == l)
pid_eq _ _ = false

pub record Core : Type 0 where
  pub core_pid : Pid
  pub running : Bool
  pub stopping : Bool
  pub restarting : Bool
  pub core_state_loading : Bool
  pub is_core_started_by_this_instance : Bool
  pub core_stopped_resolved : Bool
  pub health_check_in_flight : Bool

-- The store and the rest of the world.
pub record Machine (W : Type 0) : Type 0 where
  pub core : Core
  pub world : W

-- What the manager is given or calls; `P` is the type of profiles.
pub record LifecycleDeps (P W : Type 0) : Type 0 where
  pub read_pid_file : Action (Machine W) String
  pub process_info : Pid → Action (Machine W) String
  pub write_pid_file : ℕ → Action (Machine W) (Unit {0})
  pub remove_pid_file : Action (Machine W) (Unit {0})
  pub kill_process : Pid → Action (Machine W) (Unit {0})
  pub refresh_config : Action (Machine W) (Unit {0})
  pub refresh_provider_proxies : Action (Machine W) (Unit {0})
  -- The profile, and `promptSystemProxy`, which is true where it is left out.
  pub start_core : Option P → Bool → Action (Machine W) (Unit {0})
  pub get_runtime_profile : Machine W → Option P
  pub is_auto_start_kernel_enabled : Machine W → Bool
  pub is_auto_set_system_proxy_enabled : Machine W → Bool
  pub restore_system_proxy_after_unexpected_exit : Action (Machine W) (Unit {0})
  pub update_system_proxy_status : Action (Machine W) (Unit {0})
  pub set_system_proxy_if_safe : Action (Machine W) Bool
  pub restore_previous_system_proxy : Action (Machine W) (Unit {0})
  pub on_before_core_stop_trigger : Action (Machine W) (Unit {0})
  pub on_core_started_trigger : Action (Machine W) (Unit {0})
  pub on_core_stopped_trigger : Action (Machine W) (Unit {0})
  pub start_core_websockets : Machine W → Machine W
  pub stop_core_websockets : Machine W → Machine W
  pub show : String → Machine W → Machine W
  -- What happens until `onCoreStopped` resolves the promise that a stop waits for.
  pub until_core_stopped : Action (Machine W) (Unit {0})
  -- Until the check that is under way has ended.
  pub join_health_check : Action (Machine W) (Unit {0})

abbrev both_ok : Outcome (Unit {0}) → Outcome (Unit {0}) → Outcome (Unit {0})
both_ok (ok _) r = r
both_ok (threw e) r = threw e

module _ {W : Type 0} where
  abbrev pub set_core : (Core → Core) → Machine W → Machine W
  set_core f s = record s { core = f s.core }

  abbrev pub put : (Core → Core) → Action (Machine W) (Unit {0})
  put f s = (ok tt, set_core f s)

  abbrev pub run : (Machine W → Machine W) → Action (Machine W) (Unit {0})
  run f s = (ok tt, f s)

  abbrev pub quietly : {A : Type 0} → Action (Machine W) A → Action (Machine W) (Unit {0})
  quietly m s = (ok tt, ignored m s)

  -- `try { … } finally { … }`
  abbrev pub finally : {A : Type 0} → Action (Machine W) A → (Core → Core) → Action (Machine W) A
  finally m f s = let (r, s') = m s in (r, set_core f s')

  -- `Promise.all` of two calls, one after the other: both are made, and an error of one is thrown.
  abbrev pub promise_all :
      Action (Machine W) (Unit {0}) → Action (Machine W) (Unit {0}) → Action (Machine W) (Unit {0})
  promise_all a b s = let (r, s') = a s in let (r', s'') = b s' in (both_ok r r', s'')

-- `Number(await ReadFile(…).catch(() => -1))`
abbrev number_pid : Numeral → Pid
number_pid nan = not_a_number
number_pid (infinite negative) = unbounded negative
number_pid (decimal false digits zero) = pid digits
number_pid (decimal true zero zero) = pid 0
number_pid (decimal true (suc zero) zero) = absent
number_pid (decimal negative digits places) = other negative digits places

abbrev pub pid_of : Outcome String → Pid
pid_of (ok text) = number_pid (to_number text)
pid_of (threw e) = absent

-- `.catch(() => '')`
abbrev pub name_of : Outcome String → String
name_of (ok name) = name
name_of (threw e) = ""

-- `running.value = processName.startsWith('sing-box')`
abbrev pub is_core_name : String → Bool
is_core_name name = starts_with name "sing-box"
