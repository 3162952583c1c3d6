-- ===== src/Kernel/Lifecycle/Start.antt =====
-- What the start of the kernel leaves in the store.
use private_deploy.Base.{ℕ, ◌≡◌, ◌∙◌, ap, true, false, Outcome, ok, threw, Action, continue}
use private_deploy.Kernel.Lifecycle.{
  pid, Core, Machine, LifecycleDeps, set_core, promise_all, apply_system_proxy, when,
  on_core_started,
}
use private_deploy.Kernel.Lifecycle.Quiet.{
  Quiet, continue-core, refresh-core, apply_system_proxy-core, when-core,
}

abbrev pub started_core : ℕ → Core → Core
started_core n c = record c {
  core_pid = pid n;
  running = true;
  is_core_started_by_this_instance = true;
  core_stopped_resolved = false;
}

module _ {P W : Type 0} (deps : LifecycleDeps P W) (q : Quiet deps) (n : ℕ) (s : Machine W) where
  after_write :
      (x : Outcome (Unit {0}) × Machine W)
      → x.1.core ≡ s.core
      → x.0 ≡ ok tt
      → (f : Unit {0} → Action (Machine W) (Unit {0}))
      → ((u : Unit {0}) (t : Machine W) → t.core ≡ s.core → (f u t).1.core ≡ started_core n s.core)
      → (continue f x).1.core ≡ started_core n s.core
  after_write (ok u, t) h e f k = k u t h
  after_write (threw e, t) h p f k = cc

  -- Where the calls made leave the store's own refs alone: once the file with the process id is
  -- written, the store shows the kernel as running under that
  -- id, whatever fails of the refreshes, the system proxy and the triggers behind it.
  pub on_core_started-core :
      (deps.write_pid_file n s).0 ≡ ok tt
      → (on_core_started deps n s).1.core ≡ started_core n s.core
  unfolding on_core_started
  on_core_started-core h = after_write (deps.write_pid_file n s) (q.write_pid_file n s) h _ λ _ t e.
      continue-core _
        (promise_all deps.refresh_config deps.refresh_provider_proxies
          (set_core (started_core n) t))
        (started_core n s.core)
        (refresh-core deps q (set_core (started_core n) t) ∙ ap (started_core n) e)
        λ _ t1 e1.
          continue-core _
            (when deps deps.is_auto_set_system_proxy_enabled (apply_system_proxy deps) t1)
            (started_core n s.core)
            (when-core deps q deps.is_auto_set_system_proxy_enabled (apply_system_proxy deps) t1
                (apply_system_proxy-core deps q t1)
              ∙ e1)
            λ _ t2 e2.
              continue-core _ (deps.on_core_started_trigger t2) (started_core n s.core)
                (q.on_core_started_trigger t2 ∙ e2) λ _ t3 e3. q.start_core_websockets t3 ∙ e3
