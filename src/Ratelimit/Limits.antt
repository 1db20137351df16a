-- ===== src/Ratelimit/Limits.antt =====
-- When the limiter limits: its test on recorded requests, and its behaviour from the start.
use gpuopt.Base.{
  ℕ, ◌≤◌, ◌+◌, ◌-◌, String, Bool, true, false, ◌≡◌, refl, ap, some, List, [], ◌∷◌, ◌||◌, map, All,
  length, ltb, leb, ◌==◌, string_eq, if◌then◌else◌, arith, Bool-cases, Option-cases, inl, inr,
}
use gpuopt.Base.Dict.{Dict, lookup, insert}
use gpuopt.Ratelimit.{
  Settings, Limiter, or_empty, within, keep_recent, cleanup_old_entries, min_of, Verdict, limited,
  wait, judge, is_rate_limited, Response, passed, passed_with, dispatch,
}

-- One request after another, each with its path's exemption, its client and its time.
unfoldable pub responses : Settings → List (Bool × String × ℕ) → Limiter → List Response
responses settings [] l = []
responses settings ((skipped, ip, now) ∷ rest) l =
    let (r, l') = dispatch settings skipped ip now l in r ∷ responses settings rest l'

-- No request of any client is recorded.
abbrev IsBlank : Dict String (List ℕ) → Type 0
IsBlank rows = All (λ (row : String × List ℕ). row.1 ≡ []) rows

insert-IsBlank :
    (ip : String) (rows : Dict String (List ℕ)) → IsBlank rows → IsBlank (insert ip [] rows)
insert-IsBlank ip [] blank = (refl, tt)
insert-IsBlank ip ((j, ts) ∷ rows) (at, blank) = elim (Bool-cases (j == ip)) [
  | inl hit ↦ rw (hit, insert) (refl, blank)
  | inr miss ↦ rw (miss, insert) (at, insert-IsBlank ip rows blank)
]

lookup-IsBlank :
    (ip : String) (rows : Dict String (List ℕ)) → IsBlank rows → or_empty (lookup ip rows) ≡ []
lookup-IsBlank ip [] blank = refl
lookup-IsBlank ip ((j, ts) ∷ rows) (at, blank) = elim (Bool-cases (j == ip)) [
  | inl hit ↦ rw (hit, lookup) at
  | inr miss ↦ rw (miss, lookup) (lookup-IsBlank ip rows blank)
]

keep_recent-IsBlank :
    (now : ℕ) (rows : Dict String (List ℕ)) → IsBlank rows → keep_recent now rows ≡ []
unfolding keep_recent
keep_recent-IsBlank now [] blank = refl
keep_recent-IsBlank now ((j, ts) ∷ rows) (at, blank) =
    rw (at, keep_recent) (keep_recent-IsBlank now rows blank)

cleanup-IsBlank :
    (now : ℕ) (l : Limiter) → IsBlank l.requests → IsBlank (cleanup_old_entries now l).requests
unfolding cleanup_old_entries
cleanup-IsBlank now l blank = elim (Bool-cases (ltb now (l.last_cleanup + 300))) [
  | inl soon ↦ rw (soon) blank
  | inr due ↦ rw (due) (rw (keep_recent-IsBlank now l.requests blank) tt)
]

-- With positive limits a blank limiter lets every client through, and stays blank.
dispatch-IsBlank :
    (settings : Settings) (skipped : Bool) (ip : String) (now : ℕ) (l : Limiter)
    → 1 ≤ settings.rate_limit_per_minute
    → 1 ≤ settings.rate_limit_per_hour
    → IsBlank l.requests
    → ((dispatch settings skipped ip now l).0
        ≡ (if skipped then passed else passed_with (settings.rate_limit_per_minute - 1)))
      × IsBlank (dispatch settings skipped ip now l).1.requests
unfolding dispatch is_rate_limited judge
dispatch-IsBlank settings true ip now l m h blank = (refl, blank)
dispatch-IsBlank settings false ip now l m h blank =
    let clean = cleanup-IsBlank now l blank in
    let minute : leb settings.rate_limit_per_minute 0 ≡ false = ground arith in
    let hour : leb settings.rate_limit_per_hour 0 ≡ false = ground arith in
    let left : settings.rate_limit_per_minute - 0 - 1 ≡ settings.rate_limit_per_minute - 1 =
      omega arith in
    rw (lookup-IsBlank ip (cleanup_old_entries now l).requests clean) (
      rw (minute) (
        rw (hour)
          (ap passed_with left, insert-IsBlank ip (cleanup_old_entries now l).requests clean)))

-- The answer of a request that is not limited.
abbrev pub unlimited : Settings → Bool × String × ℕ → Response
unlimited settings (skipped, ip, now) =
    if skipped then passed else passed_with (settings.rate_limit_per_minute - 1)

responses-IsBlank :
    (settings : Settings) (calls : List (Bool × String × ℕ)) (l : Limiter)
    → 1 ≤ settings.rate_limit_per_minute
    → 1 ≤ settings.rate_limit_per_hour
    → IsBlank l.requests
    → responses settings calls l ≡ map (unlimited settings) calls
unfolding responses
responses-IsBlank settings [] l m h blank = refl
responses-IsBlank settings ((skipped, ip, now) ∷ rest) l m h blank =
    let (r, blank') = dispatch-IsBlank settings skipped ip now l m h blank in
    rw (r)
      (rw (responses-IsBlank settings rest (dispatch settings skipped ip now l).1 m h blank') refl)

-- From the start, with positive limits, no sequence of requests is ever limited: the handler
-- records no request, so that each one passes with the full allowance left.
pub requests_never_limited :
    (settings : Settings) (started : ℕ) (calls : List (Bool × String × ℕ))
    → 1 ≤ settings.rate_limit_per_minute
    → 1 ≤ settings.rate_limit_per_hour
    → responses settings calls (record { requests = []; last_cleanup = started })
      ≡ map (unlimited settings) calls
requests_never_limited settings started calls m h =
    responses-IsBlank settings calls (record { requests = []; last_cleanup = started }) m h tt

-- The least time of a list that has one.
min_of-some : (t : ℕ) (ts : List ℕ) → (m : ℕ) × (min_of (t ∷ ts) ≡ some m)
unfolding min_of
min_of-some t ts = elim (Option-cases (min_of ts)) [
  | inl e ↦ (t, rw (e, min_of) refl)
  | inr (m, e) ↦ ((if ltb m t then m else t), rw (e, min_of) refl)
]

abbrev pub is_limited : Verdict → Bool
is_limited (limited n) = true
is_limited _ = false

waits :
    (ts : List ℕ) (width now : ℕ) → 1 ≤ length ts → is_limited (wait (min_of ts) width now) ≡ true
waits [] width now h = absurd (omega arith)
waits (t ∷ ts) width now h = let (m, e) = min_of-some t ts in rw (e) refl

-- With positive limits the test limits a client exactly when its requests of the last minute reach
-- the limit of a minute or those of the last hour the limit of an hour.
pub judge_exact :
    (settings : Settings) (now : ℕ) (recent : List ℕ)
    → 1 ≤ settings.rate_limit_per_minute
    → 1 ≤ settings.rate_limit_per_hour
    → is_limited (judge settings now recent) ≡ (
        leb settings.rate_limit_per_minute (length (within 60 now recent))
        || leb settings.rate_limit_per_hour (length (within 3600 now recent)))
unfolding judge
judge_exact settings now recent m h =
    elim (Bool-cases (leb settings.rate_limit_per_minute (length (within 60 now recent)))) [
      | inl full ↦ rw (full) (waits (within 60 now recent) 60 now (ground arith))
      | inr free ↦
          elim (Bool-cases (leb settings.rate_limit_per_hour (length (within 3600 now recent)))) [
            | inl full ↦
                rw (free) (rw (full) (waits (within 3600 now recent) 3600 now (ground arith)))
            | inr room ↦ rw (free) (rw (room) refl)
          ]
    ]
