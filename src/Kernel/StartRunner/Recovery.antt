-- ===== src/Kernel/StartRunner/Recovery.antt =====
-- What a start does on each kind of error.
use private_deploy.Base.{◌≡◌, true, false, String, ok, threw, ignored}
use private_deploy.Kernel.StartRunner.{
  StartDeps, StartReport, attempt_once, wait, reset_cache, prune_or_throw, recover, rethrow, settle,
  attempts, run_kernel_start_attempts, is_cache_error, is_port_conflict, is_missing_subscription,
}

abbrev pub plain_report : StartReport
plain_report = record { missing_cloud_subscriptions_pruned = false; ports_adjusted = false }

module _ {W : Type 0} (deps : StartDeps W) (w : W) where
  -- An error of no known kind is thrown on after the first attempt, and nothing else is called.
  pub run_kernel_start_attempts-unknown_error :
      (e : String) (w' : W)
      → attempt_once deps (ignored deps.kill_orphan_cores w) ≡ (threw e, w')
      → is_cache_error e ≡ false
      → is_port_conflict e ≡ false
      → is_missing_subscription e ≡ false
      → run_kernel_start_attempts deps w ≡ (threw e, w')
  unfolding run_kernel_start_attempts attempts wait settle rethrow recover prune_or_throw
  run_kernel_start_attempts-unknown_error e w' h c p m = rw (h, settle) (rw (c, p, m))

  -- After an error about the cache file, the file is removed, the user is warned, half a second
  -- passes and the start is tried again; if that succeeds, the start has succeeded and reports no
  -- other repair.
  pub run_kernel_start_attempts-cache_error :
      (e : String) (w' w'' : W)
      → attempt_once deps (ignored deps.kill_orphan_cores w) ≡ (threw e, w')
      → is_cache_error e ≡ true
      → attempt_once deps (
          deps.sleep 500
            (deps.warn "kernel.errors.cacheResetting" (ignored deps.remove_cache_file w')))
        ≡ (ok tt, w'')
      → run_kernel_start_attempts deps w ≡ (ok plain_report, w'')
  unfolding run_kernel_start_attempts attempts wait settle rethrow recover reset_cache
  run_kernel_start_attempts-cache_error e w' w'' h c k = rw (h, settle) (rw (c) (rw (k, settle)))
