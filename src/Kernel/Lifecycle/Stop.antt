-- ===== src/Kernel/Lifecycle/Stop.antt =====
-- What stopping and restarting the kernel leave in the store.
use private_deploy.Base.{
  ◌≡◌, refl, ◌∙◌, ap, sym, subst, Bool, true, false, not, false≢true, if◌then◌else◌, String,
  Outcome, ok, threw, Action, ◌>>◌, continue, if_cases,
}
use private_deploy.Kernel.Lifecycle.{
  absent, Core, Machine, LifecycleDeps, set_core, quietly, when, on_core_stopped,
  core_stopped_promise, core_gone, kill_core, stop_core, stop_if_running, restart_core,
}
use private_deploy.Kernel.Lifecycle.Quiet.{Quiet, when-core}

-- A chain that succeeds, on a first step that leaves `c`.
pub continue-success :
    {W A B : Type 0} (f : A → Action (Machine W) B) (r : Outcome A × Machine W) {b : B} (c d : Core)
    → (continue f r).0 ≡ ok b
    → r.1.core ≡ c
    → ((a : A) (s : Machine W) → s.core ≡ c → (f a s).0 ≡ ok b → (f a s).1.core ≡ d)
    → (continue f r).1.core ≡ d
continue-success f (ok a, s) c d h e k = k a s e h
continue-success f (threw e', s) c d h e k = cc

abbrev pub no_core : Core → Core
no_core c = record c { core_pid = absent; running = false }

abbrev resolved_core : Core → Core
resolved_core c = record c { core_stopped_resolved = true }

abbrev pub gone_core : Core → Core
gone_core c = record c { core_pid = absent; running = false; core_stopped_resolved = true }

abbrev pub restarting_core : Core → Core
restarting_core c = record c { restarting = true }

abbrev pub restarted_core : Core → Core
restarted_core c = record c { restarting = false }

-- No core.
abbrev pub IsGone : Core → Type 0
IsGone c = (c.core_pid ≡ absent) × (c.running ≡ false)

abbrev pub stopping_core : Bool → Core → Core
stopping_core b c = record c { stopping = b }

-- What the `try` block of a stop that returned leaves where the core was `c`, by whether this instance
-- started it and whether the promise was resolved before.
abbrev Ends : {P W : Type 0} → LifecycleDeps P W → Bool → Bool → Core → Core → Type 0
Ends deps false resolved c d = IsGone d
Ends deps true true c d = d ≡ c
Ends deps true false c d =
    (t : Machine _) × ((t.core ≡ c) × (d ≡ (deps.until_core_stopped t).1.core))

abbrev Tried :
    {P W : Type 0}
    → LifecycleDeps P W
    → Bool
    → Bool
    → Core
    → Outcome (Unit {0}) × Machine W
    → Type 0
Tried deps started resolved c (threw e, t) = Unit
Tried deps started resolved c (ok u, t) = Ends deps started resolved c t.core

-- The same for the whole stop, with `stopping` reset.
abbrev pub Left : {P W : Type 0} → LifecycleDeps P W → Bool → Bool → Core → Core → Type 0
Left deps false resolved c d = IsGone d
Left deps true true c d = d ≡ stopping_core false c
Left deps true false c d =
    (t : Machine _) × ((t.core ≡ stopping_core true c)
      × (d ≡ stopping_core false (deps.until_core_stopped t).1.core))

abbrev pub Stops :
    {P W : Type 0} → LifecycleDeps P W → Machine W → Outcome (Unit {0}) × Machine W → Type 0
Stops deps s (threw e, t) = t.core.stopping ≡ false
Stops deps s (ok u, t) =
    (t.core.stopping ≡ false)
    × Left deps s.core.is_core_started_by_this_instance s.core.core_stopped_resolved s.core t.core

module _ {P W : Type 0} (deps : LifecycleDeps P W) (q : Quiet deps) where
  pub on_core_stopped-core :
      (s : Machine W)
      → (on_core_stopped deps s).0 ≡ ok tt
      → (on_core_stopped deps s).1.core ≡ gone_core s.core
  unfolding on_core_stopped
  on_core_stopped-core s h =
      continue-success _ (deps.remove_pid_file s) s.core (gone_core s.core) h (q.remove_pid_file s)
        λ _ t e k.
          continue-success _
            (when deps deps.is_auto_set_system_proxy_enabled
              (quietly deps.restore_previous_system_proxy) (set_core no_core t))
            (no_core s.core) (gone_core s.core) k
            (when-core deps q deps.is_auto_set_system_proxy_enabled
                (quietly deps.restore_previous_system_proxy) (set_core no_core t)
                (q.restore_previous (set_core no_core t))
              ∙ ap no_core e)
            λ _ t1 e1 k1.
              continue-success _ (deps.on_core_stopped_trigger t1) (no_core s.core)
                (gone_core s.core) k1 (q.on_core_stopped_trigger t1 ∙ e1)
                λ _ t2 e2 k2.
                  q.stop_core_websockets (set_core resolved_core t2) ∙ ap resolved_core e2

  stopped-Tried :
      (resolved : Bool) (c : Core) (r : Outcome (Unit {0}) × Machine W)
      → (r.0 ≡ ok tt → IsGone r.1.core)
      → Tried deps false resolved c r
  stopped-Tried resolved c (ok u, t) h = h refl
  stopped-Tried resolved c (threw e, t) h = tt

  awaited-Tried :
      (s : Machine W) (r : Outcome (Unit {0}) × Machine W)
      → deps.until_core_stopped s ≡ r
      → Tried deps true false s.core r
  awaited-Tried s (ok u, t) e = (s, (refl, ap (λ x. x.1.core) (sym e)))
  awaited-Tried s (threw x, t) e = tt

  core_gone-Tried :
      (s : Machine W)
      → Tried deps s.core.is_core_started_by_this_instance s.core.core_stopped_resolved s.core
          (core_gone deps s)
  unfolding core_gone core_stopped_promise
  core_gone-Tried s = by_flags s.core.is_core_started_by_this_instance s.core.core_stopped_resolved
    where
      by_flags :
          (started resolved : Bool)
          → Tried deps started resolved s.core (
              if started
              then (if resolved then (ok tt, s) else deps.until_core_stopped s)
              else on_core_stopped deps s)
      by_flags true true = refl
      by_flags true false = awaited-Tried s (deps.until_core_stopped s) refl
      by_flags false resolved =
          stopped-Tried resolved s.core (on_core_stopped deps s)
            λ k. let g = on_core_stopped-core s k in (ap Core.core_pid g, ap Core.running g)

  killed-Tried :
      (c : Core) (r : Outcome (Unit {0}) × Machine W)
      → r.1.core ≡ c
      → Tried deps c.is_core_started_by_this_instance c.core_stopped_resolved c
          (continue (λ _. core_gone deps) r)
  killed-Tried c (ok u, t) e =
      subst
        (λ d.
          Tried deps d.is_core_started_by_this_instance d.core_stopped_resolved d
            (core_gone deps t))
        e (core_gone-Tried t)
  killed-Tried c (threw x, t) e = tt

  triggered-Tried :
      (c : Core) (r : Outcome (Unit {0}) × Machine W)
      → r.1.core ≡ c
      → Tried deps c.is_core_started_by_this_instance c.core_stopped_resolved c
          (continue (λ _. do kill_core deps; core_gone deps) r)
  unfolding kill_core
  triggered-Tried c (ok u, t) e =
      killed-Tried c (kill_core deps t) (q.kill_process t.core.core_pid t ∙ e)
  triggered-Tried c (threw x, t) e = tt

  settled-Stops :
      (s : Machine W) (r : Outcome (Unit {0}) × Machine W)
      → Tried deps s.core.is_core_started_by_this_instance s.core.core_stopped_resolved
          (stopping_core true s.core)
          r
      → Stops deps s (r.0, set_core (stopping_core false) r.1)
  settled-Stops s (ok u, t) h = (refl, unset _ _ h)
    where
      unset :
          (started resolved : Bool)
          → Ends deps started resolved (stopping_core true s.core) t.core
          → Left deps started resolved s.core (stopping_core false t.core)
      unset false resolved k = k
      unset true true k = ap (stopping_core false) k
      unset true false (u, (e, d)) = (u, (e, ap (stopping_core false) d))
  settled-Stops s (threw x, t) h = refl

  -- Where the calls made leave the store's own refs alone, a stop of a running core resets `stopping`
  -- whatever happens. One that returns leaves no core, if this instance did not start the core. If it
  -- did and the promise of the stopped core was not resolved, it leaves what the wait for that left.
  -- If the promise was resolved before, by an earlier exit, it leaves the core as running as before.
  pub stop_core-Stops : (s : Machine W) → s.core.running ≡ true → Stops deps s (stop_core deps s)
  unfolding stop_core
  stop_core-Stops s e =
      if_cases (not s.core.running) (λ (r : Outcome (Unit {0}) × Machine W). Stops deps s r)
        (λ k. absurd (false≢true (sym (ap not e) ∙ k)))
        λ _. settled-Stops s _ (
          triggered-Tried (stopping_core true s.core)
            (deps.on_before_core_stop_trigger (set_core (stopping_core true) s))
            (q.on_before_core_stop_trigger (set_core (stopping_core true) s)))

module _ {P W : Type 0} (deps : LifecycleDeps P W) where
  -- A restart resets its flag whatever happens, and an error of the stop is thrown on without the
  -- core being started again.
  pub restart_core-restarting :
      (cleanup : Action (Machine W) (Unit {0})) (keep : Bool) (s : Machine W)
      → ((restart_core deps cleanup keep s).1.core.restarting ≡ false)
        × ((e : String) (t : Machine W)
            → stop_if_running deps (set_core restarting_core s) ≡ (threw e, t)
            → restart_core deps cleanup keep s ≡ (threw e, set_core restarted_core t))
  unfolding restart_core
  restart_core-restarting cleanup keep s = (refl, λ e t h. rw h refl)
