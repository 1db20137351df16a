-- ===== src/Ratelimit.antt =====
-- `RateLimitMiddleware` of src/gpuopt/ratelimit.py: the times of the requests of each client, the
-- test of the limits, and the handling of a request. Times are in seconds.
pub mod Limits
mod Tests
use gpuopt.Base.{
  ℕ, zero, suc, ◌+◌, ◌-◌, String, Bool, true, false, Option, none, some, List, [], ◌∷◌, filter,
  length, ◌==◌, string_eq, if◌then◌else◌, ltb, leb,
}
use gpuopt.Base.Dict.{Dict, lookup, insert}

pub record Settings : Type 0 where
  pub rate_limit_per_minute : ℕ
  pub rate_limit_per_hour : ℕ

pub record Limiter : Type 0 where
  pub requests : Dict String (List ℕ)
  pub last_cleanup : ℕ

abbrev pub or_empty : Option (List ℕ) → List ℕ
or_empty none = []
or_empty (some ts) = ts

-- `[t for t in ts if t > now - width]`
abbrev pub within : ℕ → ℕ → List ℕ → List ℕ
within width now ts = filter (λ t. ltb now (t + width)) ts

unfoldable pub keep_recent : ℕ → Dict String (List ℕ) → Dict String (List ℕ)
keep_recent now [] = []
keep_recent now ((ip, ts) ∷ rows) =
    let rest = keep_recent now rows in
    elim (within 3600 now ts) [ [] ↦ rest | t ∷ more ↦ (ip, t ∷ more) ∷ rest ]

unfoldable pub cleanup_old_entries : ℕ → Limiter → Limiter
unfolding keep_recent
cleanup_old_entries now l =
    if ltb now (l.last_cleanup + 300)
    then l
    else record { requests = keep_recent now l.requests; last_cleanup = now }

-- `min(ts)`, which raises on an empty list
unfoldable pub min_of : List ℕ → Option ℕ
min_of [] = none
min_of (t ∷ ts) = elim (min_of ts) [ none ↦ some t | some m ↦ some (if ltb m t then m else t) ]

-- The answer of the test: within the limits with a number of requests left, limited with a wait,
-- or the `ValueError` of `min`.
pub data Verdict : Type 0 where
  allowed : ℕ → Verdict
  limited : ℕ → Verdict
  raised : Verdict

abbrev pub wait : Option ℕ → ℕ → ℕ → Verdict
wait none width now = raised
wait (some oldest) width now = limited (oldest + width - now + 1)

unfoldable pub judge : Settings → ℕ → List ℕ → Verdict
unfolding min_of
judge settings now recent =
    if leb settings.rate_limit_per_minute (length (within 60 now recent))
    then wait (min_of (within 60 now recent)) 60 now
    else if leb settings.rate_limit_per_hour (length (within 3600 now recent))
    then wait (min_of (within 3600 now recent)) 3600 now
    else allowed (settings.rate_limit_per_minute - length (within 60 now recent))

unfoldable pub is_rate_limited : Settings → String → ℕ → Limiter → Verdict × Limiter
is_rate_limited settings ip now l =
    let recent = within 3600 now (or_empty (lookup ip l.requests)) in
    (judge settings now recent, record l { requests = insert ip recent l.requests })

-- `dispatch`; `skipped` says whether the path is exempt.
pub data Response : Type 0 where
  passed : Response
  passed_with : ℕ → Response
  too_many_requests : ℕ → Response
  server_error : Response

abbrev pub respond : Verdict → Response
respond (allowed remaining) = passed_with (remaining - 1)
respond (limited retry_after) = too_many_requests retry_after
respond raised = server_error

unfoldable pub dispatch : Settings → Bool → String → ℕ → Limiter → Response × Limiter
dispatch settings skipped ip now l =
    if skipped
    then (passed, l)
    else (let (verdict, l') = is_rate_limited settings ip now (cleanup_old_entries now l) in
        (respond verdict, l'))
