-- ===== src/Kernel/StartRunner/Errors.antt =====
-- The errors that a start can end with.
use private_deploy.Base.{ℕ, ◌≡◌, String, threw, Leaves, error_of_Leaves}
use private_deploy.Base.Dict.{Dict}
use private_deploy.Kernel.StartRunner.{StartDeps, run_kernel_start_attempts}
use private_deploy.Kernel.StartRunner.Rules.{Keeps, run-Leaves}

-- The calls whose errors reach the caller throw errors with `P` only.
pub record DepsThrow {W : Type 0} (P : String → Type 0) (deps : StartDeps W) : Type 0 where
  pub write_config : (w : W) → Leaves (λ _. Unit {0}) P (deps.write_config w)
  pub run_core_process : (w : W) → Leaves (λ _. Unit {0}) P (deps.run_core_process w)
  pub on_core_started : (n : ℕ) (w : W) → Leaves (λ _. Unit {0}) P (deps.on_core_started n w)
  pub reassign_ports : (w : W) → Leaves (λ _. Unit {0}) P (deps.reassign_ports w)
  pub on_ports_adjusted :
      (d : Dict ℕ) (w : W) → Leaves (λ _. Unit {0}) P (deps.on_ports_adjusted d w)
  pub prune_missing : (w : W) → Leaves (λ _. Unit {0}) P (deps.prune_missing w)

DepsThrow-Keeps :
    {W : Type 0} {P : String → Type 0} (deps : StartDeps W)
    → DepsThrow P deps
    → Keeps (λ _ _. Unit {0}) (λ _ _. Unit {0}) P deps
DepsThrow-Keeps deps h = record {
  kill_orphan_cores = λ _ _. tt;
  write_config = λ _ w _. h.write_config w;
  run_core_process = λ _ w _. h.run_core_process w;
  on_core_started = λ _ n w _. h.on_core_started n w;
  remove_cache_file = λ _ _ _. tt;
  reassign_ports = λ _ w _. h.reassign_ports w;
  on_ports_adjusted = λ _ d w _. h.on_ports_adjusted d w;
  prune_missing = λ _ w _. h.prune_missing w;
  warn = λ _ _ _ _. tt;
  delay = λ _ _ _. tt;
  last = λ _ _ _ _. tt;
}

-- A start that fails ends with an error that one of its calls threw: any property that the errors
-- of the calls share holds of it. So the text "kernel-start-unreachable" behind the loop is never
-- what the caller gets, unless a call throws that text.
pub run_kernel_start_attempts-throws :
    {W : Type 0} {P : String → Type 0} (deps : StartDeps W)
    → DepsThrow P deps
    → (w : W) (e : String) → (run_kernel_start_attempts deps w).0 ≡ threw e
    → P e
run_kernel_start_attempts-throws {P} deps h w e =
    error_of_Leaves (λ _. Unit {0}) P (run_kernel_start_attempts deps w) e
      (run-Leaves deps (DepsThrow-Keeps deps h) w tt)
