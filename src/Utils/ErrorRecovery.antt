-- ===== src/Utils/ErrorRecovery.antt =====
-- Retries with backoff: frontend/src/utils/errorRecovery.ts.
pub mod Runs
pub mod Strategy
mod Tests
use private_deploy.Base.{
  ℕ, zero, suc, ◌*◌, ◌-◌, ◌^◌, min, Bool, true, false, not, ◌||◌, String, List, [], ◌∷◌, ltb, ◌==◌,
  if◌then◌else◌, lower_includes, Outcome, ok, threw, Action,
}

-- `Required<RetryOptions>`
pub record RetryOptions : Type 0 where
  pub max_attempts : ℕ
  pub base_delay : ℕ
  pub max_delay : ℕ
  pub exponential_backoff : Bool
  pub should_retry : String → ℕ → Bool

abbrev pub default_options : RetryOptions
default_options = record {
  max_attempts = 3;
  base_delay = 1000;
  max_delay = 30000;
  exponential_backoff = true;
  should_retry = λ _ _. true;
}

-- The delay after attempt `attempt` failed.
unfoldable pub delay : RetryOptions → ℕ → ℕ
delay opts attempt =
    if opts.exponential_backoff
    then min (opts.base_delay * 2 ^ (attempt - 1)) opts.max_delay
    else opts.base_delay

module _ {W T : Type 0} (sleep : ℕ → W → W) (fn : Action W T) (opts : RetryOptions) where
  -- The `catch` block; `next` is the rest of the loop, which remembers the error.
  unfoldable pub after_attempt : (String → Action W T) → ℕ → Outcome T × W → Outcome T × W
  after_attempt next attempt (ok result, w) = (ok result, w)
  after_attempt next attempt (threw error, w) =
      if not (opts.should_retry error attempt)
      then (threw error, w)
      else if attempt == opts.max_attempts
      then (threw error, w)
      else next error (sleep (delay opts attempt) w)

  -- The loop, with the rounds that are left; behind it the last error is thrown.
  unfoldable pub attempts : ℕ → ℕ → String → Action W T
  attempts zero attempt last_error w = (threw last_error, w)
  attempts (suc left) attempt last_error w =
      after_attempt (λ e. attempts left (suc attempt) e) attempt (fn w)

  unfoldable pub retry_with_backoff : Action W T
  retry_with_backoff = attempts opts.max_attempts 1 "undefined"

unfoldable pub is_network_error : String → Bool
unfolding lower_includes
is_network_error e =
    lower_includes e "network"
    || lower_includes e "timeout"
    || lower_includes e "connection"
    || lower_includes e "fetch"
    || lower_includes e "econnrefused"

unfoldable pub is_rate_limit_error : String → Bool
unfolding lower_includes
is_rate_limit_error e =
    lower_includes e "rate limit" || lower_includes e "429" || lower_includes e "too many requests"

unfoldable pub is_auth_error : String → Bool
unfolding lower_includes
is_auth_error e =
    lower_includes e "unauthorized"
    || lower_includes e "401"
    || lower_includes e "403"
    || lower_includes e "forbidden"
    || lower_includes e "invalid api key"
    || lower_includes e "authentication"

-- `apiRetryStrategy.shouldRetry`
unfoldable pub api_should_retry : String → ℕ → Bool
api_should_retry error attempt =
    if is_auth_error error
    then false
    else if is_network_error error
    then true
    else if is_rate_limit_error error
    then ltb attempt 3
    else ltb attempt 2

-- `apiRetryStrategy` over the defaults.
abbrev pub api_retry_strategy : RetryOptions
api_retry_strategy = record {
  max_attempts = 3;
  base_delay = 2000;
  max_delay = 30000;
  exponential_backoff = true;
  should_retry = api_should_retry;
}
