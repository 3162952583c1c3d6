-- ===== src/Cloud/LoadBalance.antt =====
-- Starting and stopping the load balancer: frontend/src/stores/cloud/loadBalance.ts, with the
-- registration of hooks of frontend/src/stores/kernelApi.ts.
pub mod Start
mod Tests
use private_deploy.Base.{
  ℕ, zero, suc, ◌-◌, ltb, Bool, true, false, List, [], ◌∷◌, length, String, Outcome, ok, threw,
  Action, ◌>>=◌, ◌>>◌, continue, if◌then◌else◌,
}

-- The refs, how often the hook is registered, and the rest of the world.
pub record Balancer (W : Type 0) : Type 0 where
  pub load_balance_enabled : Bool
  pub load_balance_ports : List ℕ
  pub load_balance_listen_port : ℕ
  pub hooks : ℕ
  pub world : W

-- What the store calls. A restart or a start of the kernel writes the configuration, and with it
-- runs the registered hooks.
pub record BalancerDeps (W : Type 0) : Type 0 where
  pub is_running : Balancer W → Bool
  pub restart_core : Action (Balancer W) (Unit {0})
  pub start_core : Action (Balancer W) (Unit {0})
  pub sleep : ℕ → Balancer W → Balancer W
  pub get_available_port : Action (Balancer W) ℕ
  -- `flag` of the answer.
  pub start_load_balancer : ℕ → List ℕ → Action (Balancer W) Bool
  pub stop_load_balancer : Action (Balancer W) (Unit {0})

module _ {W : Type 0} where
  -- `_configWriteHooks.push(hook)`
  unfoldable pub register_config_write_hook : Balancer W → Balancer W
  register_config_write_hook s = record s { hooks = suc s.hooks }

  -- Takes out the first registration, if there is one.
  unfoldable pub unregister_config_write_hook : Balancer W → Balancer W
  unregister_config_write_hook s = record s { hooks = s.hooks - 1 }

  abbrev pub set_enabled : Bool → Balancer W → Balancer W
  set_enabled b s = record s { load_balance_enabled = b }

  -- The way back where the balancer cannot run.
  abbrev pub give_up : Balancer W → Outcome (Unit {0}) × Balancer W
  give_up s = (ok tt, unregister_config_write_hook (set_enabled false s))

module _ {W : Type 0} (deps : BalancerDeps W) where
  abbrev pub run_kernel : Action (Balancer W) (Unit {0})
  run_kernel s = if deps.is_running s then deps.restart_core s else deps.start_core s

  abbrev pub after_start : ℕ → Bool → Action (Balancer W) (Unit {0})
  after_start port true s = (ok tt, record s { load_balance_listen_port = port })
  after_start port false s = give_up s

  -- Once the kernel runs and three seconds have passed.
  unfoldable pub start_balancer : Action (Balancer W) (Unit {0})
  start_balancer s =
      if ltb (length s.load_balance_ports) 2
      then give_up s
      else (do
        port ← deps.get_available_port
        flag ← (λ t. deps.start_load_balancer port t.load_balance_ports t)
        after_start port flag)
          s

  unfoldable pub start_load_balance : Action (Balancer W) (Unit {0})
  unfolding register_config_write_hook start_balancer
  start_load_balance s =
      continue (λ _ t. start_balancer (deps.sleep 3000 t))
        (run_kernel (register_config_write_hook (set_enabled true s)))

  unfoldable pub stop_load_balance : Action (Balancer W) (Unit {0})
  unfolding unregister_config_write_hook
  stop_load_balance s =
      continue (λ _ t. (ok tt, record t { load_balance_listen_port = 0; load_balance_ports = [] }))
        (deps.stop_load_balancer (unregister_config_write_hook (set_enabled false s)))
