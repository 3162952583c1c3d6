-- ===== src/Kernel/StartRunner/Cost.antt =====
-- How often a start writes the configuration, and how long it waits.
use private_deploy.Base.{
  ℕ, zero, suc, ◌+◌, ◌*◌, ◌≤◌, String, Leaves-of_world, world_of_Leaves, arith,
}
use private_deploy.Base.Dict.{Dict}
use private_deploy.Kernel.StartRunner.{
  StartDeps, run_kernel_start_attempts, wait, backoff_delay, max_attempts,
}
use private_deploy.Kernel.StartRunner.Rules.{Keeps, run-Leaves}

-- A measure of the world that writing the configuration raises by at most `a`, that a delay raises
-- by at most `b` a millisecond, and that no other call raises.
pub record Costs {W : Type 0} (cost : W → ℕ) (a b : ℕ) (deps : StartDeps W) : Type 0 where
  pub kill_orphan_cores : (w : W) → cost (deps.kill_orphan_cores w).1 ≤ cost w
  pub write_config : (w : W) → cost (deps.write_config w).1 ≤ cost w + a
  pub run_core_process : (w : W) → cost (deps.run_core_process w).1 ≤ cost w
  pub on_core_started : (n : ℕ) (w : W) → cost (deps.on_core_started n w).1 ≤ cost w
  pub remove_cache_file : (w : W) → cost (deps.remove_cache_file w).1 ≤ cost w
  pub reassign_ports : (w : W) → cost (deps.reassign_ports w).1 ≤ cost w
  pub on_ports_adjusted : (d : Dict ℕ) (w : W) → cost (deps.on_ports_adjusted d w).1 ≤ cost w
  pub prune_missing : (w : W) → cost (deps.prune_missing w).1 ≤ cost w
  pub warn : (s : String) (w : W) → cost (deps.warn s w) ≤ cost w
  pub sleep : (ms : ℕ) (w : W) → cost (deps.sleep ms w) ≤ cost w + ms * b

-- The delays up to and with the one before attempt `k`.
abbrev total_delay : ℕ → ℕ
total_delay zero = 0
total_delay (suc k) = total_delay k + backoff_delay (suc k)

module _ {W : Type 0} (cost : W → ℕ) (a b : ℕ) (deps : StartDeps W) (h : Costs cost a b deps)
    (c : ℕ) where
  abbrev Before : ℕ → W → Type 0
  Before k w = cost w + a ≤ c + k * a + total_delay k * b

  abbrev After : ℕ → W → Type 0
  After k w = cost w ≤ c + k * a + total_delay k * b

  cost-wait : (k : ℕ) (w : W) → cost (wait deps k w) ≤ cost w + backoff_delay k * b
  unfolding wait
  cost-wait k w = ground (arith, h.sleep (backoff_delay k) w)

  delay_ok : (k : ℕ) (w : W) → After k w → Before (suc k) (wait deps (suc k) w)
  delay_ok k w m = grind (arith, cost-wait (suc k) w)

  last_ok : (k : ℕ) (w : W) → k ≤ max_attempts → After k w → After max_attempts w
  last_ok zero w l m = omega arith
  last_ok (suc zero) w l m = omega arith
  last_ok (suc (suc zero)) w l m = omega arith
  last_ok (suc (suc (suc zero))) w l m = omega arith
  last_ok (suc (suc (suc (suc zero)))) w l m = omega arith
  last_ok (suc (suc (suc (suc (suc zero))))) w l m = m
  last_ok (suc (suc (suc (suc (suc (suc k)))))) w l m = absurd (omega arith)

  Costs-Keeps : Keeps Before After (λ _. Unit {0}) deps
  Costs-Keeps = record {
    kill_orphan_cores = λ w m. omega (arith, h.kill_orphan_cores w);
    write_config =
        λ k w m. Leaves-of_world (After k) (deps.write_config w) (omega (arith, h.write_config w));
    run_core_process = λ k w m.
        Leaves-of_world (After k) (deps.run_core_process w) (omega (arith, h.run_core_process w));
    on_core_started = λ k n w m.
        Leaves-of_world (After k) (deps.on_core_started n w) (omega (arith, h.on_core_started n w));
    remove_cache_file = λ k w m. omega (arith, h.remove_cache_file w);
    reassign_ports = λ k w m.
        Leaves-of_world (After k) (deps.reassign_ports w) (omega (arith, h.reassign_ports w));
    on_ports_adjusted = λ k d w m.
        Leaves-of_world (After k) (deps.on_ports_adjusted d w)
          (omega (arith, h.on_ports_adjusted d w));
    prune_missing = λ k w m.
        Leaves-of_world (After k) (deps.prune_missing w) (omega (arith, h.prune_missing w));
    warn = λ k s w m. omega (arith, h.warn s w);
    delay = delay_ok;
    last = last_ok;
  }

-- A start, successful or not, writes the configuration at most five times and waits at most 6.5
-- seconds in all: a measure that a write raises by at most `a` and a millisecond of delay by at
-- most `b` grows by at most `5 * a + 6500 * b`.
pub cost-run_kernel_start_attempts :
    {W : Type 0} (cost : W → ℕ) (a b : ℕ) (deps : StartDeps W)
    → Costs cost a b deps
    → (w : W) → cost (run_kernel_start_attempts deps w).1 ≤ cost w + 5 * a + 6500 * b
cost-run_kernel_start_attempts cost a b deps h w =
    world_of_Leaves (After cost a b deps h (cost w) 5) (λ _. Unit {0})
      (run_kernel_start_attempts deps w)
      (run-Leaves deps (Costs-Keeps cost a b deps h (cost w)) w (omega arith))
