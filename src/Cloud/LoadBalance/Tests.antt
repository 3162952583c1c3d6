-- ===== src/Cloud/LoadBalance/Tests.antt =====
-- A kernel whose restart offers two ports, the first time.
use private_deploy.Base.{◌≡◌, refl, true, false, Bool, [], ◌∷◌, Outcome, ok, threw}
use private_deploy.Cloud.LoadBalance.{
  Balancer, BalancerDeps, register_config_write_hook, start_balancer, start_load_balance,
  stop_load_balance,
}
use private_deploy.Cloud.LoadBalance.Start.{Shows, Started, Steady, start_load_balance-Started}

abbrev deps : BalancerDeps Bool
deps = record {
  is_running = λ _. true;
  restart_core = λ s. (if_fails s.world, record s { load_balance_ports = 1080 ∷ 1081 ∷ [] });
  start_core = λ s. (ok tt, s);
  sleep = λ _ s. s;
  get_available_port = λ s. (ok 1090, s);
  start_load_balancer = λ _ _ s. (ok true, s);
  stop_load_balancer = λ s. (ok tt, s);
}
  where
    if_fails : Bool → Outcome (Unit {0})
    if_fails true = threw "no kernel"
    if_fails false = ok tt

steady : Steady deps
steady = record {
  restart_core = λ b k s h. h;
  start_core = λ b k s h. h;
  sleep = λ b k n s h. h;
  get_available_port = λ b k s h. h;
  start_load_balancer = λ b k p ps s h. h;
  stop_load_balancer = λ b k s h. h;
}

abbrev off : Bool → Balancer Bool
off fails = record {
  load_balance_enabled = false;
  load_balance_ports = [];
  load_balance_listen_port = 0;
  hooks = 0;
  world = fails;
}

runs : (start_load_balance deps (off false)).1.load_balance_listen_port ≡ 1090
unfolding start_load_balance start_balancer register_config_write_hook
runs = refl

-- A restart that throws leaves the hook registered, and a second start registers it again.
registered_twice : (start_load_balance deps (start_load_balance deps (off true)).1).1.hooks ≡ 2
unfolding start_load_balance start_balancer register_config_write_hook
registered_twice = refl

start_load_balance-Started_example :
    Started 0 (start_load_balance deps (off true))
    × ((t : Balancer Bool) → Shows true 1 t → Shows false 0 (stop_load_balance deps t).1)
start_load_balance-Started_example = start_load_balance-Started deps steady (off true)
