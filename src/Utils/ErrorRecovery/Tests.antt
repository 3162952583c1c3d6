-- ===== src/Utils/ErrorRecovery/Tests.antt =====
-- A flaky service: the world holds the errors still to come, the calls made and the time waited.
use private_deploy.Base.{
  ℕ, ◌+◌, ◌*◌, ◌≡◌, ◌↔◌, refl, List, [], ◌∷◌, String, Outcome, ok, threw, arith,
}
use private_deploy.Utils.ErrorRecovery.{
  default_options, delay, after_attempt, attempts, retry_with_backoff, is_auth_error,
  is_network_error, is_rate_limit_error,
}
use private_deploy.Utils.ErrorRecovery.Runs.{Run, retry_with_backoff-Run}
use private_deploy.Utils.ErrorRecovery.Strategy.{calls_for}

record Service : Type 0 where
  calls : ℕ
  waited : ℕ
  errors : List String

abbrev answer : List String → Service → Outcome ℕ × Service
answer [] s = (ok 7, s)
answer (e ∷ es) s = (threw e, record s { errors = es })

abbrev call : Service → Outcome ℕ × Service
call s = answer s.errors (record s { calls = s.calls + 1 })

abbrev pause : ℕ → Service → Service
pause ms s = record s { waited = s.waited + ms }

abbrev with_errors : List String → Service
with_errors es = record { calls = 0; waited = 0; errors = es }

recovers :
    retry_with_backoff pause call default_options (with_errors ("a" ∷ "b" ∷ []))
    ≡ (ok 7, record { calls = 3; waited = 3000; errors = [] })
unfolding retry_with_backoff attempts after_attempt delay
recovers = refl

retry_with_backoff-Run_example :
    (retry_with_backoff pause call default_options (with_errors ("a" ∷ []))
      ≡ (ok 7, record { calls = 2; waited = 1000; errors = [] }))
    ↔ Run pause call default_options 1
        (with_errors ("a" ∷ []))
        (ok 7, record { calls = 2; waited = 1000; errors = [] })
retry_with_backoff-Run_example =
    retry_with_backoff-Run pause call default_options (omega arith) (with_errors ("a" ∷ []))
      (ok 7, record { calls = 2; waited = 1000; errors = [] })

abbrev cost : Service → ℕ
cost s = s.calls * 100000 + s.waited

cost-answer : (es : List String) (s : Service) → cost (answer es s).1 ≡ cost s
cost-answer [] s = refl
cost-answer (e ∷ es) s = refl

-- A service that always refuses the key.
abbrev refuse : Service → Outcome ℕ × Service
refuse s = (threw "401 Unauthorized", record s { calls = s.calls + 1 })

classes :
    (calls_for "401 Unauthorized" ≡ 1)
    × (calls_for "ECONNREFUSED" ≡ 3)
    × (calls_for "HTTP 429" ≡ 3)
    × (calls_for "disk full" ≡ 2)
unfolding is_auth_error is_network_error is_rate_limit_error
classes = (refl, refl, refl, refl)
