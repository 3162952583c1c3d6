-- ===== src/Cloud/LoadBalance/Start.antt =====
-- What a start of the load balancer leaves, on every path.
use private_deploy.Base.{
  ℕ, suc, ◌-◌, ltb, ◌≡◌, refl, ◌∙◌, ap, [], Bool, true, false, inl, inr, ◌⊎◌, List, length, Outcome,
  ok, threw, Action, continue, arith, if_cases,
}
use private_deploy.Cloud.LoadBalance.{
  Balancer, BalancerDeps, register_config_write_hook, unregister_config_write_hook, set_enabled,
  give_up, run_kernel, after_start, start_balancer, start_load_balance, stop_load_balance,
}

one_less : (n : ℕ) → suc n - 1 ≡ n
one_less n = omega arith

module _ {W : Type 0} where
  -- The switch and the number of registrations.
  abbrev pub Shows : Bool → ℕ → Balancer W → Type 0
  Shows b k s = (s.load_balance_enabled ≡ b) × (s.hooks ≡ k)

  -- After a start from `k` registrations: it runs, it gave up, or a call threw.
  abbrev pub Started : ℕ → Outcome (Unit {0}) × Balancer W → Type 0
  Started k (ok u, s) = Shows true (suc k) s ⊎ Shows false k s
  Started k (threw e, s) = Shows true (suc k) s

  give_up-Shows : (k : ℕ) (s : Balancer W) → Shows true (suc k) s → Started k (give_up s)
  unfolding unregister_config_write_hook
  give_up-Shows k s h = inr (refl, ap (λ n. n - 1) h.1 ∙ one_less k)

  reset-Shows :
      (b : Bool) (k : ℕ) (r : Outcome (Unit {0}) × Balancer W)
      → Shows b k r.1
      → Shows b k
          (continue
            (λ _ t. (ok tt, record t { load_balance_listen_port = 0; load_balance_ports = [] }))
            r).1
  reset-Shows b k (ok u, s) h = h
  reset-Shows b k (threw e, s) h = h

  continue-Started :
      {A : Type 0} (k : ℕ) (f : A → Action (Balancer W) (Unit {0})) (r : Outcome A × Balancer W)
      → Shows true (suc k) r.1
      → ((a : A) (s : Balancer W) → Shows true (suc k) s → Started k (f a s))
      → Started k (continue f r)
  continue-Started k f (ok a, s) h g = g a s h
  continue-Started k f (threw e, s) h g = h

-- The calls leave the switch and the registrations alone.
pub record Steady {W : Type 0} (deps : BalancerDeps W) : Type 0 where
  pub restart_core :
      (b : Bool) (k : ℕ) (s : Balancer W) → Shows b k s → Shows b k (deps.restart_core s).1
  pub start_core :
      (b : Bool) (k : ℕ) (s : Balancer W) → Shows b k s → Shows b k (deps.start_core s).1
  pub sleep : (b : Bool) (k n : ℕ) (s : Balancer W) → Shows b k s → Shows b k (deps.sleep n s)
  pub get_available_port :
      (b : Bool) (k : ℕ) (s : Balancer W) → Shows b k s → Shows b k (deps.get_available_port s).1
  pub start_load_balancer :
      (b : Bool) (k p : ℕ) (ps : List ℕ) (s : Balancer W)
      → Shows b k s
      → Shows b k (deps.start_load_balancer p ps s).1
  pub stop_load_balancer :
      (b : Bool) (k : ℕ) (s : Balancer W) → Shows b k s → Shows b k (deps.stop_load_balancer s).1

module _ {W : Type 0} (deps : BalancerDeps W) (q : Steady deps) where
  start_balancer-Started :
      (k : ℕ) (s : Balancer W) → Shows true (suc k) s → Started k (start_balancer deps s)
  unfolding start_balancer
  start_balancer-Started k s h =
      if_cases (ltb (length s.load_balance_ports) 2) (Started k) (λ _. give_up-Shows k s h)
        λ _.
          continue-Started k _ (deps.get_available_port s) (q.get_available_port true (suc k) s h)
            λ port t h1.
              continue-Started k (after_start deps port)
                (deps.start_load_balancer port t.load_balance_ports t)
                (q.start_load_balancer true (suc k) port t.load_balance_ports t h1)
                (answered k port)
    where
      answered :
          (k port : ℕ) (flag : Bool) (s : Balancer W)
          → Shows true (suc k) s
          → Started k (after_start deps port flag s)
      answered k port true s h = inl h
      answered k port false s h = give_up-Shows k s h

  -- Where the calls made leave the switch and the registrations alone: a start that returns has the
  -- balancer switched on and its hook registered once more, or switched off and registered as often
  -- as before, and a start that throws leaves it switched on with its hook registered once more. From
  -- a state that is on and has one registration more than before the start, a stop leads to one that
  -- is off and has as many as before, whether or not it throws.
  pub start_load_balance-Started :
      (s : Balancer W)
      → Started s.hooks (start_load_balance deps s)
        × ((t : Balancer W)
            → Shows true (suc s.hooks) t
            → Shows false s.hooks (stop_load_balance deps t).1)
  unfolding start_load_balance stop_load_balance register_config_write_hook
      unregister_config_write_hook
  start_load_balance-Started s =
      let t0 : Balancer W = register_config_write_hook (set_enabled true s) in
      (
        continue-Started s.hooks _ (run_kernel deps t0)
            (if_cases (deps.is_running t0)
              (λ (r : Outcome (Unit {0}) × Balancer W). Shows true (suc s.hooks) r.1)
              (λ _. q.restart_core true (suc s.hooks) t0 (refl, refl))
              λ _. q.start_core true (suc s.hooks) t0 (refl, refl))
            (λ _ t h.
              start_balancer-Started s.hooks (deps.sleep 3000 t)
                (q.sleep true (suc s.hooks) 3000 t h)),
        λ t h.
            reset-Shows false s.hooks
              (deps.stop_load_balancer (unregister_config_write_hook (set_enabled false t)))
              (q.stop_load_balancer false s.hooks
                (unregister_config_write_hook (set_enabled false t))
                (refl, ap (λ n. n - 1) h.1 ∙ one_less s.hooks)),
      )
