-- ===== src/Utils/ErrorRecovery/Runs.antt =====
-- A retried call against a relation that says what a run is, and the bounds of a run.
use private_deploy.Base.{
  ℕ, zero, suc, ◌+◌, ◌*◌, ◌-◌, ◌≤◌, ◌<◌, ◌≡◌, refl, sym, ◌∙◌, ◌⊎◌, inl, inr, true, false, String,
  ◌==◌, ==_iff, Outcome, ok, threw, Action, arith, Bool-cases, subst, ap, ◌↔◌,
}
use private_deploy.Utils.ErrorRecovery.{
  RetryOptions, delay, after_attempt, attempts, retry_with_backoff,
}

module _ {W T : Type 0} (sleep : ℕ → W → W) (fn : Action W T) (opts : RetryOptions) where
  -- `Run k w r`: from attempt `k` in the world `w`, the call ends with `r`.
  pub data Run : ℕ → W → Outcome T × W → Type 0 where
    succeed : {k : ℕ} {w : W} (x : T) (w' : W) → fn w ≡ (ok x, w') → Run k w (ok x, w')
    give_up :
        {k : ℕ} {w : W} (e : String) (w' : W)
        → fn w ≡ (threw e, w')
        → (opts.should_retry e k ≡ false) ⊎ (k ≡ opts.max_attempts)
        → Run k w (threw e, w')
    again :
        {k : ℕ} {w : W} {r : Outcome T × W} (e : String) (w' : W)
        → fn w ≡ (threw e, w')
        → opts.should_retry e k ≡ true
        → k < opts.max_attempts
        → Run (suc k) (sleep (delay opts k) w') r
        → Run k w r

  after_attempt-Run :
      (next : String → Action W T) (k : ℕ) (w : W) (x : Outcome T × W)
      → fn w ≡ x
      → k ≤ opts.max_attempts
      → ((e : String) (w' : W) → k < opts.max_attempts → Run (suc k) w' (next e w'))
      → Run k w (after_attempt sleep fn opts next k x)
  unfolding after_attempt
  after_attempt-Run next k w (ok x, w') e b go = succeed x w' e
  after_attempt-Run next k w (threw err, w') e b go = elim (Bool-cases (opts.should_retry err k)) [
    | inr stop ↦ rw stop (give_up err w' e (inl stop))
    | inl retry ↦ rw retry (elim (Bool-cases (k == opts.max_attempts)) [
      | inl last ↦ rw last (give_up err w' e (inr ((==_iff k opts.max_attempts).0 last)))
      | inr more ↦
          let lt : k < opts.max_attempts = ground arith in
          rw more (again err w' e retry lt (go err _ lt))
    ])
  ]

  attempts-Run :
      (left k : ℕ) (last : String) (w : W)
      → left + k ≡ opts.max_attempts
      → Run k w (attempts sleep fn opts (suc left) k last w)
  unfolding attempts
  attempts-Run zero k last w b =
      after_attempt-Run _ k w (fn w) refl (omega arith) (λ e w' lt. absurd (omega arith))
  attempts-Run (suc left) k last w b =
      after_attempt-Run _ k w (fn w) refl (omega arith)
        (λ e w' lt. attempts-Run left (suc k) e w' (omega arith))

  attempts_of_Run :
      (left : ℕ) (last : String) {k : ℕ} {w : W} {r : Outcome T × W}
      → left + k ≡ opts.max_attempts
      → Run k w r
      → attempts sleep fn opts (suc left) k last w ≡ r
  unfolding attempts after_attempt
  attempts_of_Run left last b (succeed x w' e) = rw (e, after_attempt) refl
  attempts_of_Run left last b (give_up err w' e (inl stop)) = rw (e, after_attempt) (rw stop refl)
  attempts_of_Run left last {k} b (give_up err w' e (inr full)) =
      rw (e, after_attempt) (ground arith)
  attempts_of_Run zero last b (again err w' e retry lt r) = absurd (omega arith)
  attempts_of_Run (suc left) last {k} b (again err w' e retry lt r) =
      rw (e, after_attempt) (rw (retry, attempts_of_Run left err (omega arith) r) (ground arith))

-- With at least one attempt allowed, a retried call ends exactly as `Run` says: it returns the first
-- success, or throws the first error that must not be retried, or the error of the last attempt,
-- with the delay of each attempt in between.
pub retry_with_backoff-Run :
    {W T : Type 0} (sleep : ℕ → W → W) (fn : Action W T) (opts : RetryOptions)
    → 0 < opts.max_attempts
    → (w : W) (r : Outcome T × W)
    → (retry_with_backoff sleep fn opts w ≡ r) ↔ Run sleep fn opts 1 w r
unfolding retry_with_backoff
retry_with_backoff-Run sleep fn opts h w r =
    let e : opts.max_attempts ≡ suc (opts.max_attempts - 1) = omega arith in
    (
      λ q. subst (Run sleep fn opts 1 w) q (
          subst (λ n. Run sleep fn opts 1 w (attempts sleep fn opts n 1 "undefined" w)) (sym e)
            (attempts-Run sleep fn opts (opts.max_attempts - 1) 1 "undefined" w (omega arith))),
      λ q.
          ap (λ n. attempts sleep fn opts n 1 "undefined" w) e
          ∙ attempts_of_Run sleep fn opts (opts.max_attempts - 1) "undefined" (omega arith) q,
    )

-- A delay is at most `max_delay`, if delays grow.
pub delay-le-max_delay :
    (opts : RetryOptions) (k : ℕ) → opts.exponential_backoff ≡ true → delay opts k ≤ opts.max_delay
unfolding delay
delay-le-max_delay opts k h = rw h (omega arith)

module _ {W T : Type 0} (sleep : ℕ → W → W) (fn : Action W T) (opts : RetryOptions) (cost : W → ℕ)
    (a b : ℕ) (call : (w : W) → cost (fn w).1 ≤ cost w + a)
    (pause : (ms : ℕ) (w : W) → cost (sleep ms w) ≤ cost w + ms * b)
    (grows : opts.exponential_backoff ≡ true) where
  delay_mono : (k : ℕ) → delay opts k * b ≤ opts.max_delay * b
  delay_mono k = grind (arith, delay-le-max_delay opts k grows)

  Run-cost :
      (left : ℕ) {k : ℕ} {w : W} {r : Outcome T × W}
      → left + k ≡ opts.max_attempts
      → Run sleep fn opts k w r
      → cost r.1 ≤ cost w + suc left * a + left * (opts.max_delay * b)
  Run-cost left {w} e (succeed x w' q) = grind (arith, call w, ap (λ p. cost p.1) q)
  Run-cost left {w} e (give_up err w' q s) = grind (arith, call w, ap (λ p. cost p.1) q)
  Run-cost zero e (again err w' q s lt r) = absurd (omega arith)
  Run-cost (suc left) {k} {w} e (again err w' q s lt r) = omega (
    arith,
    call w,
    ap (λ p. cost p.1) q,
    pause (delay opts k) w',
    delay_mono k,
    Run-cost left (omega arith) r,
  )

-- A retried call makes at most `max_attempts` calls and waits at most `max_delay` between two: a
-- measure that a call raises by at most `a`, and a millisecond of delay by at most `b`, grows by at
-- most that much.
pub cost-retry_with_backoff :
    {W T : Type 0} (sleep : ℕ → W → W) (fn : Action W T) (opts : RetryOptions) (cost : W → ℕ)
    (a b : ℕ)
    → ((w : W) → cost (fn w).1 ≤ cost w + a)
    → ((ms : ℕ) (w : W) → cost (sleep ms w) ≤ cost w + ms * b)
    → opts.exponential_backoff ≡ true
    → (n : ℕ) → opts.max_attempts ≡ suc n
    → (w : W)
    → cost (retry_with_backoff sleep fn opts w).1 ≤ cost w + suc n * a + n * (opts.max_delay * b)
cost-retry_with_backoff sleep fn opts cost a b call pause grows n e w =
    Run-cost sleep fn opts cost a b call pause grows n (omega arith)
      ((retry_with_backoff-Run sleep fn opts (omega arith) w _).0 refl)
