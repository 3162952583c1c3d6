-- ===== src/Utils/ErrorRecovery/Strategy.antt =====
-- Which errors the API strategy retries.
use private_deploy.Base.{
  ℕ, suc, ◌+◌, ◌≡◌, refl, true, false, String, threw, Action, arith, if◌then◌else◌, ◌==◌, ◌⊎◌, inl,
  inr, Bool-cases,
}
use private_deploy.Utils.ErrorRecovery.{
  delay, after_attempt, attempts, retry_with_backoff, is_auth_error, is_network_error,
  is_rate_limit_error, api_should_retry, api_retry_strategy,
}

-- How often the strategy calls for an error that comes each time.
abbrev pub calls_for : String → ℕ
calls_for e =
    if is_auth_error e
    then 1
    else if is_network_error e
    then 3
    else if is_rate_limit_error e
    then 3
    else 2

module _ {W T : Type 0} (count : W → ℕ) (e : String) (fn : Action W T) (sleep : ℕ → W → W)
    (fails : (w : W) → (fn w).0 ≡ threw e) (counted : (w : W) → count (fn w).1 ≡ count w + 1)
    (quiet : (ms : ℕ) (w : W) → count (sleep ms w) ≡ count w) where
  fn_eq : (w : W) → fn w ≡ (threw e, (fn w).1)
  fn_eq w = λ i. (fails w i, (fn w).1)

  -- A failing round, and what it counts, once the rest of the loop is known.
  round :
      (left k n : ℕ) (last : String) (w : W)
      → api_should_retry e k ≡ true
      → (k == 3) ≡ false
      → ((w' : W)
          → ((attempts sleep fn api_retry_strategy left (suc k) e w').0 ≡ threw e)
            × (count (attempts sleep fn api_retry_strategy left (suc k) e w').1 ≡ count w' + n))
      → ((attempts sleep fn api_retry_strategy (suc left) k last w).0 ≡ threw e)
        × (count (attempts sleep fn api_retry_strategy (suc left) k last w).1 ≡ count w + (n + 1))
  unfolding attempts after_attempt
  round left k n last w s more rest =
      rw (fn_eq w, after_attempt)
        (rw (s) (
          rw (more) (
            (rest (sleep (delay api_retry_strategy k) (fn w).1)).0,
            omega (
              arith,
              (rest (sleep (delay api_retry_strategy k) (fn w).1)).1,
              quiet (delay api_retry_strategy k) (fn w).1,
              counted w,
            ),
          )))

  last_round :
      (left k : ℕ) (last : String) (w : W)
      → (api_should_retry e k ≡ false) ⊎ ((k == 3) ≡ true)
      → ((attempts sleep fn api_retry_strategy (suc left) k last w).0 ≡ threw e)
        × (count (attempts sleep fn api_retry_strategy (suc left) k last w).1 ≡ count w + 1)
  unfolding attempts after_attempt
  last_round left k last w s = rw (fn_eq w, after_attempt) (ground (arith, counted w))

  -- The strategy calls once for an authentication error, three times for a network or a rate limit
  -- error and twice for any other, if the error comes each time, and then throws the error.
  pub retry_with_backoff-calls_for :
      (w : W)
      → ((retry_with_backoff sleep fn api_retry_strategy w).0 ≡ threw e)
        × (count (retry_with_backoff sleep fn api_retry_strategy w).1 ≡ count w + calls_for e)
  unfolding retry_with_backoff api_should_retry
  retry_with_backoff-calls_for w = elim (Bool-cases (is_auth_error e)) [
    | inl auth ↦ rw auth (last_round 2 1 "undefined" w (inl (rw auth)))
    | inr not_auth ↦ rw not_auth (elim (Bool-cases (is_network_error e)) [
      | inl net ↦ rw net (
          round 2 1 2 "undefined" w (rw (not_auth, net)) refl
            λ w1. round 1 2 1 e w1 (rw (not_auth, net)) refl λ w2. last_round 0 3 e w2 (inr refl))
      | inr other ↦ rw other (elim (Bool-cases (is_rate_limit_error e)) [
        | inl rate ↦ rw rate (
            round 2 1 2 "undefined" w (rw (not_auth, other, rate)) refl λ w1.
              round 1 2 1 e w1 (rw (not_auth, other, rate)) refl
                λ w2. last_round 0 3 e w2 (inr refl))
        | inr plain ↦ rw plain (
            round 2 1 1 "undefined" w (rw (not_auth, other, plain)) refl
              λ w1. last_round 1 2 e w1 (inl (rw (not_auth, other, plain))))
      ])
    ])
  ]
