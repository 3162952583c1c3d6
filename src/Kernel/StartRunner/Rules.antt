-- ===== src/Kernel/StartRunner/Rules.antt =====
-- A rule for the whole of `runKernelStartAttempts`: an invariant that depends on the number of the
-- attempt, and a property of the errors.
use private_deploy.Base.{
  ℕ, zero, suc, ◌+◌, ◌≤◌, ◌≡◌, refl, Bool, true, false, ◌&&◌, Option, none, some, String, Outcome,
  ok, threw, Action, arith, Bool-cases, inl, inr, ltb, Leaves, continue-Leaves,
}
use private_deploy.Base.Dict.{Dict}
use private_deploy.Kernel.StartRunner.{
  StartDeps, StartReport, started, attempt_once, wait, reset_cache, prune, prune_or_throw,
  after_reassign, adjust_ports, recover, rethrow, settle, attempts, run_kernel_start_attempts,
  max_attempts, is_cache_error, is_port_conflict, is_missing_subscription,
}

-- `Inv k` holds of the world before the configuration of attempt `k` is written. Every call keeps
-- it but `write_config`, which leads to `Mid k`, and the end of the delay.
pub record Keeps {W : Type 0} (Inv : ℕ → W → Type 0) (Mid : ℕ → W → Type 0) (P : String → Type 0)
    (deps : StartDeps W) : Type 0 where
  pub kill_orphan_cores : (w : W) → Inv 1 w → Inv 1 (deps.kill_orphan_cores w).1
  pub write_config : (k : ℕ) (w : W) → Inv k w → Leaves (Mid k) P (deps.write_config w)
  pub run_core_process : (k : ℕ) (w : W) → Mid k w → Leaves (Mid k) P (deps.run_core_process w)
  pub on_core_started : (k n : ℕ) (w : W) → Mid k w → Leaves (Mid k) P (deps.on_core_started n w)
  pub remove_cache_file : (k : ℕ) (w : W) → Mid k w → Mid k (deps.remove_cache_file w).1
  pub reassign_ports : (k : ℕ) (w : W) → Mid k w → Leaves (Mid k) P (deps.reassign_ports w)
  pub on_ports_adjusted :
      (k : ℕ) (d : Dict ℕ) (w : W) → Mid k w → Leaves (Mid k) P (deps.on_ports_adjusted d w)
  pub prune_missing : (k : ℕ) (w : W) → Mid k w → Leaves (Mid k) P (deps.prune_missing w)
  pub warn : (k : ℕ) (s : String) (w : W) → Mid k w → Mid k (deps.warn s w)
  pub delay : (k : ℕ) (w : W) → Mid k w → Inv (suc k) (wait deps (suc k) w)
  pub last : (k : ℕ) (w : W) → k ≤ max_attempts → Mid k w → Mid max_attempts w

module _ {W : Type 0} {Inv Mid : ℕ → W → Type 0} {P : String → Type 0} (deps : StartDeps W)
    (h : Keeps Inv Mid P deps) where
  started-Leaves :
      (k : ℕ) (pid : Option ℕ) (w : W) → Mid k w → Leaves (Mid k) P (started deps pid w)
  unfolding started
  started-Leaves k none w m = m
  started-Leaves k (some zero) w m = m
  started-Leaves k (some (suc n)) w m = h.on_core_started k (suc n) w m

  attempt_once-Leaves : (k : ℕ) (w : W) → Inv k w → Leaves (Mid k) P (attempt_once deps w)
  unfolding attempt_once
  attempt_once-Leaves k w m =
      continue-Leaves (Mid k) P _ (deps.write_config w) (h.write_config k w m) λ _ w1 m1.
        continue-Leaves (Mid k) P _ (deps.run_core_process w1) (h.run_core_process k w1 m1)
          λ pid w2 m2. started-Leaves k pid w2 m2

  prune-Leaves : (k : ℕ) (r : StartReport) (w : W) → Mid k w → Leaves (Mid k) P (prune deps r w)
  unfolding prune
  prune-Leaves k r w m =
      continue-Leaves (Mid k) P _ (deps.prune_missing w) (h.prune_missing k w m) λ _ w1 m1. m1

  prune_or_throw-Leaves :
      (k : ℕ) (e : String) (r : StartReport) (w : W)
      → Mid k w
      → Leaves (Mid k) P (prune_or_throw deps k e r w)
  unfolding prune_or_throw
  prune_or_throw-Leaves k e r w m =
      elim (Bool-cases (is_missing_subscription e && ltb k max_attempts)) [
        | inl c ↦ rw c (prune-Leaves k r w m)
        | inr c ↦ rw c m
      ]

  after_reassign-Leaves :
      (k : ℕ) (e : String) (r : StartReport) (x : Bool × Dict ℕ) (w : W)
      → Mid k w
      → Leaves (Mid k) P (after_reassign deps k e r x w)
  unfolding after_reassign
  after_reassign-Leaves k e r (true, ports) w m =
      continue-Leaves (Mid k) P _ (deps.on_ports_adjusted ports w) (h.on_ports_adjusted k ports w m)
        λ _ w1 m1. h.warn k "kernel.errors.portResetting" w1 m1
  after_reassign-Leaves k e r (false, ports) w m = prune_or_throw-Leaves k e r w m

  recover-Leaves :
      (k : ℕ) (e : String) (r : StartReport) (w : W)
      → Mid k w
      → Leaves (Mid k) P (recover deps k e r w)
  unfolding recover reset_cache adjust_ports
  recover-Leaves k e r w m = elim (Bool-cases (is_cache_error e && ltb k max_attempts)) [
    | inl c ↦ rw c (h.warn k "kernel.errors.cacheResetting" _ (h.remove_cache_file k w m))
    | inr c ↦ rw c (elim (Bool-cases (is_port_conflict e && ltb k max_attempts)) [
      | inl d ↦ rw d (
          continue-Leaves (Mid k) P _ (deps.reassign_ports w) (h.reassign_ports k w m)
            λ x w1 m1. after_reassign-Leaves k e r x w1 m1)
      | inr d ↦ rw d (prune_or_throw-Leaves k e r w m)
    ])
  ]

  -- The last attempt does not go on.
  recover_last :
      (e : String) (r : StartReport) (w : W) → recover deps max_attempts e r w ≡ (ok none, w)
  unfolding recover prune_or_throw
  recover_last e r w = ground arith

  -- A failed attempt: what `recover` decides, and the attempts that follow.
  rethrow-Leaves :
      (k : ℕ) (next : StartReport → Action W StartReport) (e : String)
      (x : Outcome (Option StartReport) × W)
      → k ≤ max_attempts
      → P e
      → ((r : StartReport) (w : W)
          → x ≡ (ok (some r), w)
          → Mid k w
          → Leaves (Mid max_attempts) P (next r w))
      → Leaves (Mid k) P x
      → Leaves (Mid max_attempts) P (rethrow deps next e x)
  unfolding rethrow
  rethrow-Leaves k next e (ok none, w) b p go m = (h.last k w b m, p)
  rethrow-Leaves k next e (ok (some r), w) b p go m = go r w refl m
  rethrow-Leaves k next e (threw e', w) b p go (m, q) = (h.last k w b m, q)

  settle-Leaves :
      (k : ℕ) (next : StartReport → Action W StartReport) (r : StartReport)
      (x : Outcome (Unit {0}) × W)
      → k ≤ max_attempts
      → ((e : String) (r' : StartReport) (w w' : W)
          → recover deps k e r w ≡ (ok (some r'), w')
          → Mid k w'
          → Leaves (Mid max_attempts) P (next r' w'))
      → Leaves (Mid k) P x
      → Leaves (Mid max_attempts) P (settle deps next k r x)
  unfolding settle
  settle-Leaves k next r (ok _, w) b go m = h.last k w b m
  settle-Leaves k next r (threw e, w) b go (m, p) =
      rethrow-Leaves k next e (recover deps k e r w) b p (λ r' w' q. go e r' w w' q)
        (recover-Leaves k e r w m)

  attempts-Leaves :
      (left k : ℕ) (r : StartReport) (w : W)
      → left + k ≡ max_attempts
      → Inv k (wait deps k w)
      → Leaves (Mid max_attempts) P (attempts deps (suc left) k r w)
  unfolding attempts
  attempts-Leaves zero k r w b i =
      settle-Leaves k _ r _ (omega arith)
        (λ e r' w1 w2 q _. absurd (stops k (omega arith) e r w1 r' w2 q))
        (attempt_once-Leaves k (wait deps k w) i)
    where
      stops :
          (k : ℕ)
          → k ≡ max_attempts
          → (e : String) (r : StartReport) (w1 : W) (r' : StartReport) (w2 : W)
          → ¬ (recover deps k e r w1 ≡ (ok (some r'), w2))
      stops k b e r w1 r' w2 q = cc (recover_last e r w1, q, b)
  attempts-Leaves (suc left) k r w b i =
      settle-Leaves k _ r _ (omega arith)
        (λ e r' w1 w2 _ m. attempts-Leaves left (suc k) r' w2 (omega arith) (h.delay k w2 m))
        (attempt_once-Leaves k (wait deps k w) i)

  pub run-Leaves :
      (w : W) → Inv 1 w → Leaves (Mid max_attempts) P (run_kernel_start_attempts deps w)
  unfolding run_kernel_start_attempts wait
  run-Leaves w i = attempts-Leaves 4 1 _ _ refl (h.kill_orphan_cores w i)
