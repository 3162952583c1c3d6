-- ===== src/Kernel/StartRunner/Tests.antt =====
-- A kernel on a small machine: the world counts writes and milliseconds, and holds the errors that
-- the process will give, the next one first.
use private_deploy.Base.{
  ℕ, ◌+◌, ◌*◌, ◌≤◌, ◌≡◌, refl, ◌≢◌, true, false, Option, some, List, [], ◌∷◌, String, ok, threw,
  arith, Outcome, eq_iff, lower_includes,
}
use private_deploy.Kernel.StartRunner.{
  StartDeps, run_kernel_start_attempts, attempts, settle, rethrow, recover, attempt_once, wait,
  started, reset_cache, prune, prune_or_throw, after_reassign, adjust_ports, is_cache_error,
  is_port_conflict, is_missing_subscription,
}
use private_deploy.Kernel.StartRunner.Cost.{Costs, cost-run_kernel_start_attempts}
use private_deploy.Kernel.StartRunner.Errors.{DepsThrow}

record Machine : Type 0 where
  writes : ℕ
  slept : ℕ
  errors : List String

abbrev process : List String → Machine → Outcome (Option ℕ) × Machine
process [] m = (ok (some 77), m)
process (e ∷ es) m = (threw e, record m { errors = es })

abbrev machine : StartDeps Machine
machine = record {
  kill_orphan_cores = λ m. (ok [], m);
  write_config = λ m. (ok tt, record m { writes = m.writes + 1 });
  run_core_process = λ m. process m.errors m;
  on_core_started = λ _ m. (ok tt, m);
  remove_cache_file = λ m. (threw "locked", m);
  reassign_ports = λ m. (ok (true, ("mixed", 20122) ∷ []), m);
  on_ports_adjusted = λ _ m. (ok tt, m);
  prune_missing = λ m. (ok false, m);
  warn = λ _ m. m;
  sleep = λ ms m. record m { slept = m.slept + ms };
}

abbrev on : List String → Machine
on es = record { writes = 0; slept = 0; errors = es }

abbrev cache : String
cache = "FATAL: initialize cache-file: timeout"

abbrev port : String
port = "listen tcp: BIND: Address already in use"

runner : Unit {0}
unfolding run_kernel_start_attempts attempts settle rethrow recover attempt_once wait started
    reset_cache prune prune_or_throw after_reassign adjust_ports is_cache_error is_port_conflict
    is_missing_subscription lower_includes
runner = tt

repaired : run_kernel_start_attempts machine (on (cache ∷ port ∷ [])) ≡ (
  ok (record { missing_cloud_subscriptions_pruned = false; ports_adjusted = true }),
  record { writes = 3; slept = 1500; errors = [] },
)
unfolding runner
repaired = refl

given_up :
    run_kernel_start_attempts machine (on (cache ∷ cache ∷ cache ∷ cache ∷ cache ∷ cache ∷ []))
    ≡ (threw cache, record { writes = 5; slept = 6500; errors = cache ∷ [] })
unfolding runner
given_up = refl

abbrev cost : Machine → ℕ
cost m = m.writes * 10000 + m.slept

process_writes : (es : List String) (m : Machine) → cost (process es m).1 ≡ cost m
process_writes [] m = refl
process_writes (e ∷ es) m = refl

machine-Costs : Costs cost 10000 1 machine
machine-Costs = record {
  kill_orphan_cores = λ m. omega arith;
  write_config = λ m. omega arith;
  run_core_process = λ m. omega (arith, process_writes m.errors m);
  on_core_started = λ _ m. omega arith;
  remove_cache_file = λ m. omega arith;
  reassign_ports = λ m. omega arith;
  on_ports_adjusted = λ _ m. omega arith;
  prune_missing = λ m. omega arith;
  warn = λ _ m. omega arith;
  sleep = λ ms m. omega arith;
}

cost-run_kernel_start_attempts_example :
    cost (run_kernel_start_attempts machine (on (cache ∷ port ∷ []))).1 ≤ 0 + 5 * 10000 + 6500 * 1
cost-run_kernel_start_attempts_example =
    cost-run_kernel_start_attempts cost 10000 1 machine machine-Costs (on (cache ∷ port ∷ []))

-- An error that is not the sentinel behind the loop.
abbrev IsReal : String → Type 0
IsReal e = e ≢ "kernel-start-unreachable"

-- The same machine with one error that no repair helps against.
abbrev broken : StartDeps Machine
broken = record machine { run_core_process = λ m. (threw "exit status 1", m) }

broken-DepsThrow : DepsThrow IsReal broken
broken-DepsThrow = record {
  write_config = λ _. tt;
  run_core_process = λ _. (tt, ground (arith, eq_iff "exit status 1" "kernel-start-unreachable"));
  on_core_started = λ _ _. tt;
  reassign_ports = λ _. tt;
  on_ports_adjusted = λ _ _. tt;
  prune_missing = λ _. tt;
}
