-- ===== src/Kernel/StartRunner.antt =====
-- The attempts to start the kernel: frontend/src/stores/kernelApiStartRunner.ts.
pub mod Rules
pub mod Cost
pub mod Errors
pub mod Recovery
mod Tests
use private_deploy.Base.{
  ℕ, zero, suc, ◌≡◌, Bool, true, false, ◌&&◌, ◌||◌, Option, none, some, List, [], ◌∷◌, String, ltb,
  if◌then◌else◌, lower_includes, Outcome, ok, threw, Action, ◌>>=◌, ◌>>◌, done, ignored,
}
use private_deploy.Base.Dict.{Dict}

-- What `runKernelStartAttempts` calls. The world `W` holds the profile, the files, the processes
-- and the clock; the log lines are left out.
pub record StartDeps (W : Type 0) : Type 0 where
  pub kill_orphan_cores : Action W (List ℕ)
  pub write_config : Action W (Unit {0})
  pub run_core_process : Action W (Option ℕ)
  pub on_core_started : ℕ → Action W (Unit {0})
  pub remove_cache_file : Action W (Unit {0})
  pub reassign_ports : Action W (Bool × Dict ℕ)
  pub on_ports_adjusted : Dict ℕ → Action W (Unit {0})
  pub prune_missing : Action W Bool
  pub warn : String → W → W
  pub sleep : ℕ → W → W

-- What a successful start reports.
pub record StartReport : Type 0 where
  pub missing_cloud_subscriptions_pruned : Bool
  pub ports_adjusted : Bool

abbrev pub max_attempts : ℕ
max_attempts = 5

-- `backoffDelays[attempt - 1]`
abbrev pub backoff_delay : ℕ → ℕ
backoff_delay (suc (suc zero)) = 500
backoff_delay (suc (suc (suc zero))) = 1000
backoff_delay (suc (suc (suc (suc zero)))) = 2000
backoff_delay (suc (suc (suc (suc (suc zero))))) = 3000
backoff_delay _ = 0

unfoldable pub is_cache_error : String → Bool
is_cache_error e = lower_includes e "initialize cache-file" || lower_includes e "cache-file"

unfoldable pub is_port_conflict : String → Bool
is_port_conflict e =
    lower_includes e "address already in use" || lower_includes e "bind: address already in use"

unfoldable pub is_missing_subscription : String → Bool
is_missing_subscription e =
    (lower_includes e "no such file or directory"
      || lower_includes e "the system cannot find the file specified"
      || lower_includes e "the system cannot find the path specified")
    && lower_includes e "data/subscribes/cloud-"

module _ {W : Type 0} (deps : StartDeps W) where
  -- `if (pid) await onCoreStarted(pid)`
  pub started : Option ℕ → Action W (Unit {0})
  started none = done tt
  started (some zero) = done tt
  started (some (suc n)) = deps.on_core_started (suc n)

  -- The `try` block of one attempt.
  pub attempt_once : Action W (Unit {0})
  attempt_once = do deps.write_config; pid ← deps.run_core_process; started pid

  -- The delay before an attempt after the first.
  pub wait : ℕ → W → W
  wait k w = if ltb 0 (backoff_delay k) then deps.sleep (backoff_delay k) w else w

  abbrev warned : {A : Type 0} → String → A → Action W A
  warned s a w = (ok a, deps.warn s w)

  -- What follows the removal of the cache file, whether or not that failed.
  pub reset_cache : StartReport → Action W (Option StartReport)
  reset_cache report w =
      warned "kernel.errors.cacheResetting" (some report) (ignored deps.remove_cache_file w)

  -- The branch of an error that names a missing subscription file.
  pub prune : StartReport → Action W (Option StartReport)
  prune report = do
    changed ← deps.prune_missing
    done (
        if changed
        then some (record report { missing_cloud_subscriptions_pruned = true })
        else none)

  pub prune_or_throw : ℕ → String → StartReport → Action W (Option StartReport)
  prune_or_throw k e report =
      if is_missing_subscription e && ltb k max_attempts then prune report else done none

  pub after_reassign : ℕ → String → StartReport → Bool × Dict ℕ → Action W (Option StartReport)
  after_reassign k e report (true, ports) = do
    deps.on_ports_adjusted ports
    warned "kernel.errors.portResetting" (some (record report { ports_adjusted = true }))
  after_reassign k e report (false, ports) = prune_or_throw k e report

  pub adjust_ports : ℕ → String → StartReport → Action W (Option StartReport)
  adjust_ports k e report = do result ← deps.reassign_ports; after_reassign k e report result

  -- The `catch` block: the report to go on with (`continue`), or `none` where the error is thrown.
  pub recover : ℕ → String → StartReport → Action W (Option StartReport)
  recover k e report =
      if is_cache_error e && ltb k max_attempts
      then reset_cache report
      else if is_port_conflict e && ltb k max_attempts
      then adjust_ports k e report
      else prune_or_throw k e report

  -- After the `catch` block of an attempt that failed with `e`.
  pub rethrow :
      (StartReport → Action W StartReport)
      → String
      → Outcome (Option StartReport) × W
      → Outcome StartReport × W
  rethrow next e (ok none, w) = (threw e, w)
  rethrow next e (ok (some report), w) = next report w
  rethrow next e (threw e', w) = (threw e', w)

  pub settle :
      (StartReport → Action W StartReport)
      → ℕ
      → StartReport
      → Outcome (Unit {0}) × W
      → Outcome StartReport × W
  settle next k report (ok _, w) = (ok report, w)
  settle next k report (threw e, w) = rethrow next e (recover k e report w)

  -- The `for` loop: `k` is the number of the attempt, and `left` counts the rounds.
  pub attempts : ℕ → ℕ → StartReport → Action W StartReport
  attempts zero k report w = (threw "kernel-start-unreachable", w)
  attempts (suc left) k report w = settle (attempts left (suc k)) k report (attempt_once (wait k w))

  pub run_kernel_start_attempts : Action W StartReport
  run_kernel_start_attempts w =
      attempts max_attempts 1
        (record { missing_cloud_subscriptions_pruned = false; ports_adjusted = false })
        (ignored deps.kill_orphan_cores w)
