-- ===== src/Kernel/Lifecycle/Quiet.antt =====
-- Calls that leave the store's own fields alone.
use private_deploy.Base.{
  ℕ, ◌≡◌, refl, ◌∙◌, Bool, true, false, String, Outcome, ok, threw, Action, continue, Bool-cases,
  inl, inr,
}
use private_deploy.Kernel.Lifecycle.{
  Pid, absent, pid, not_a_number, unbounded, other, Core, Machine, LifecycleDeps, promise_all,
  after_apply, apply_system_proxy, when, refresh_all, read_disk_pid, process_name,
}

-- All that the manager calls but starting the core and waiting for others.
pub record Quiet {P W : Type 0} (deps : LifecycleDeps P W) : Type 0 where
  pub read_pid_file : (s : Machine W) → (deps.read_pid_file s).1.core ≡ s.core
  pub process_info : (p : Pid) (s : Machine W) → (deps.process_info p s).1.core ≡ s.core
  pub write_pid_file : (n : ℕ) (s : Machine W) → (deps.write_pid_file n s).1.core ≡ s.core
  pub remove_pid_file : (s : Machine W) → (deps.remove_pid_file s).1.core ≡ s.core
  pub kill_process : (p : Pid) (s : Machine W) → (deps.kill_process p s).1.core ≡ s.core
  pub refresh_config : (s : Machine W) → (deps.refresh_config s).1.core ≡ s.core
  pub refresh_provider_proxies : (s : Machine W) → (deps.refresh_provider_proxies s).1.core ≡ s.core
  pub restore_after_exit :
      (s : Machine W) → (deps.restore_system_proxy_after_unexpected_exit s).1.core ≡ s.core
  pub set_system_proxy_if_safe : (s : Machine W) → (deps.set_system_proxy_if_safe s).1.core ≡ s.core
  pub restore_previous : (s : Machine W) → (deps.restore_previous_system_proxy s).1.core ≡ s.core
  pub on_before_core_stop_trigger :
      (s : Machine W) → (deps.on_before_core_stop_trigger s).1.core ≡ s.core
  pub on_core_started_trigger : (s : Machine W) → (deps.on_core_started_trigger s).1.core ≡ s.core
  pub on_core_stopped_trigger : (s : Machine W) → (deps.on_core_stopped_trigger s).1.core ≡ s.core
  pub start_core_websockets : (s : Machine W) → (deps.start_core_websockets s).core ≡ s.core
  pub stop_core_websockets : (s : Machine W) → (deps.stop_core_websockets s).core ≡ s.core
  pub show : (t : String) (s : Machine W) → (deps.show t s).core ≡ s.core

-- In a chain whose parts keep the core, the chain keeps it.
pub continue-core :
    {W A B : Type 0} (f : A → Action (Machine W) B) (r : Outcome A × Machine W) (c : Core)
    → r.1.core ≡ c
    → ((a : A) (s : Machine W) → s.core ≡ c → (f a s).1.core ≡ c)
    → (continue f r).1.core ≡ c
continue-core f (ok a, s) c h k = k a s h
continue-core f (threw e, s) c h k = h

module _ {P W : Type 0} (deps : LifecycleDeps P W) (q : Quiet deps) where
  pub refresh-core :
      (s : Machine W)
      → (promise_all deps.refresh_config deps.refresh_provider_proxies s).1.core ≡ s.core
  refresh-core s = q.refresh_provider_proxies _ ∙ q.refresh_config s

  pub refresh_all-core : (s : Machine W) → (refresh_all deps s).1.core ≡ s.core
  unfolding refresh_all
  refresh_all-core s = refresh-core (deps.start_core_websockets s) ∙ q.start_core_websockets s

  after_apply-core : (x : Outcome Bool × Machine W) → (after_apply deps x).1.core ≡ x.1.core
  unfolding after_apply
  after_apply-core (ok true, s) = refl
  after_apply-core (ok false, s) = q.show _ s
  after_apply-core (threw e, s) = q.show e s

  pub apply_system_proxy-core : (s : Machine W) → (apply_system_proxy deps s).1.core ≡ s.core
  unfolding apply_system_proxy
  apply_system_proxy-core s = after_apply-core _ ∙ q.set_system_proxy_if_safe s

  pub when-core :
      (test : Machine W → Bool) (m : Action (Machine W) (Unit {0})) (s : Machine W)
      → (m s).1.core ≡ s.core
      → (when deps test m s).1.core ≡ s.core
  unfolding when
  when-core test m s h = elim (Bool-cases (test s)) [ inl e ↦ rw e h | inr e ↦ rw e refl ]

  pub read_disk_pid-core : (s : Machine W) → (read_disk_pid deps s).1.core ≡ s.core
  unfolding read_disk_pid
  read_disk_pid-core s = q.read_pid_file s

  pub process_name-core : (p : Pid) (s : Machine W) → (process_name deps p s).1.core ≡ s.core
  unfolding process_name
  process_name-core absent s = refl
  process_name-core (pid n) s = q.process_info (pid n) s
  process_name-core (unbounded b) s = q.process_info (unbounded b) s
  process_name-core (other b m k) s = q.process_info (other b m k) s
  process_name-core not_a_number s = q.process_info not_a_number s
