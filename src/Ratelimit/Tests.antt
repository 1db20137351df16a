-- ===== src/Ratelimit/Tests.antt =====
-- The limiter with one request a minute.
use gpuopt.Base.{◌≡◌, false, [], ◌∷◌, arith}
use gpuopt.Ratelimit.{Settings, passed_with}
use gpuopt.Ratelimit.Limits.{responses, requests_never_limited}

abbrev one_a_minute : Settings
one_a_minute = record { rate_limit_per_minute = 1; rate_limit_per_hour = 5 }

requests_never_limited_example :
    responses one_a_minute
      ((false, "10.0.0.1", 7) ∷ (false, "10.0.0.1", 8) ∷ [])
      (record { requests = []; last_cleanup = 0 })
    ≡ passed_with 0 ∷ passed_with 0 ∷ []
requests_never_limited_example =
    requests_never_limited one_a_minute 0 ((false, "10.0.0.1", 7) ∷ (false, "10.0.0.1", 8) ∷ [])
      (omega arith) (omega arith)
