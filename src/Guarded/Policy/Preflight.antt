-- ===== src/Guarded/Policy/Preflight.antt =====
-- The pre-flight check against its specification: evaluate every considered policy, in order.
use mathlib.Core.List.{append_assoc, append-nil}
use gpuopt.Base.{
  ◌+◌, Bool, true, false, ◌&&◌, ◌||◌, not, ◌≡◌, ◌↔◌, refl, sym, ap, subst, ◌∙◌, Option, none, some,
  List, [], ◌∷◌, ◌++◌, any, all, count, All, arith, length, ◌==◌, string_eq, nat_eq, if◌then◌else◌,
  Bool-cases, Option-cases, inl, inr, is_none,
}
use gpuopt.Guarded.Policy.{
  PolicyRule, Context, PolicyEvaluationResult, PreFlightCheckResult, is_block, is_warn, blocks,
  considered, evaluate_policy, pre_flight_loop, check_pre_flight,
}
use gpuopt.Guarded.Policy.Rules.{passes}
use gpuopt.Guarded.Policy.Results.{
  IsHonest, evaluate_policy-IsHonest, misdated, evaluate_policy-misdated,
}

-- The specification of the loop: the results of the considered policies, in order.
consed :
    PolicyEvaluationResult
    → Option (List PolicyEvaluationResult)
    → Option (List PolicyEvaluationResult)
consed r none = none
consed r (some rs) = some (r ∷ rs)

outcomes : Context → List PolicyRule → Option (List PolicyEvaluationResult)
unfolding consed
outcomes ctx [] = some []
outcomes ctx (p ∷ rest) =
    let later = outcomes ctx rest in
    if considered ctx p
    then elim (evaluate_policy p ctx) [ none ↦ none | some r ↦ consed r later ]
    else later

honest_counts :
    (rs : List PolicyEvaluationResult)
    → All IsHonest rs
    → (count (λ r. r.passed) rs + count (λ r. not r.passed && is_block r.action) rs ≡ length rs)
      × (count (λ r. not r.passed && is_warn r.action) rs ≡ 0)
      × ((count (λ r. not r.passed && is_block r.action) rs == 0) ≡ all (λ r. r.passed) rs)
      × (any blocks rs ≡ not (all (λ r. r.passed) rs))
honest_counts [] h = (refl, refl, refl, refl)
honest_counts (r ∷ rs) h = ground (arith, honest_counts rs h.1)

-- What the loop leaves, of the results that are still to come.
extended :
    List PolicyEvaluationResult
    → Bool
    → Option (List PolicyEvaluationResult)
    → Option (List PolicyEvaluationResult × Bool)
extended acc requires none = none
extended acc requires (some rs) = some (acc ++ rs, requires || any blocks rs)

extended-consed :
    (acc : List PolicyEvaluationResult) (requires : Bool) (r : PolicyEvaluationResult)
    (o : Option (List PolicyEvaluationResult))
    → extended (acc ++ (r ∷ [])) (if blocks r then true else requires) o
      ≡ extended acc requires (consed r o)
unfolding extended consed
extended-consed acc requires r none = refl
extended-consed acc requires r (some rs) =
    let either : ((if blocks r then true else requires) || any blocks rs)
        ≡ (requires || (blocks r || any blocks rs)) =
      ground arith in
    ap (λ l. some (l, (if blocks r then true else requires) || any blocks rs))
      (append_assoc acc (r ∷ []) rs)
    ∙ ap (λ b. some (acc ++ (r ∷ rs), b)) either

pre_flight_loop-outcomes :
    (ctx : Context) (ps : List PolicyRule) (acc : List PolicyEvaluationResult) (requires : Bool)
    → pre_flight_loop ctx ps acc requires ≡ extended acc requires (outcomes ctx ps)
unfolding pre_flight_loop outcomes extended
pre_flight_loop-outcomes ctx [] acc requires =
    let same : requires ≡ (requires || false) = ground arith in
    ap (λ l. some (l, requires)) (sym (append-nil acc)) ∙ ap (λ b. some (acc ++ [], b)) same
pre_flight_loop-outcomes ctx (p ∷ ps) acc requires = elim (Bool-cases (considered ctx p)) [
  | inl c ↦ elim (Option-cases (evaluate_policy p ctx)) [
    | inl bad ↦ rw (c, pre_flight_loop) (rw (bad) refl)
    | inr (r, good) ↦
        rw (c, pre_flight_loop)
          (rw (good) (
            pre_flight_loop-outcomes ctx ps (acc ++ (r ∷ [])) (if blocks r then true else requires)
            ∙ extended-consed acc requires r (outcomes ctx ps)))
  ]
  | inr n ↦ rw (n, pre_flight_loop) (pre_flight_loop-outcomes ctx ps acc requires)
]

-- A considered policy raises, or every considered policy has a result.
abbrev Answers : Context → List PolicyRule → Option (List PolicyEvaluationResult) → Type 0
Answers ctx ps none = any (λ p. considered ctx p && misdated ctx p) ps ≡ true
Answers ctx ps (some rs) =
    (any (λ p. considered ctx p && misdated ctx p) ps ≡ false)
    × All IsHonest rs
    × (all (λ r. r.passed) rs ≡ all (λ p. not (considered ctx p) || passes p ctx) ps)

Answers-consed :
    (ctx : Context) (ps : List PolicyRule) (p : PolicyRule) (r : PolicyEvaluationResult)
    (o : Option (List PolicyEvaluationResult))
    → evaluate_policy p ctx ≡ some r
    → considered ctx p ≡ true
    → Answers ctx ps o
    → Answers ctx (p ∷ ps) (consed r o)
unfolding consed
Answers-consed ctx ps p r none good c h =
    let mis : misdated ctx p ≡ false = sym (evaluate_policy-misdated p ctx) ∙ ap is_none good in
    rw (c, mis) h
Answers-consed ctx ps p r (some rs) good c (fine, honest, same) =
    let mis : misdated ctx p ≡ false = sym (evaluate_policy-misdated p ctx) ∙ ap is_none good in
    (
      rw (c) (rw (mis) fine),
      (evaluate_policy-IsHonest p ctx r good, honest),
      rw (c) (rw (good, passes) (ap (λ b. r.passed && b) same)),
    )

Answers-skipped :
    (ctx : Context) (ps : List PolicyRule) (p : PolicyRule)
    (o : Option (List PolicyEvaluationResult))
    → considered ctx p ≡ false
    → Answers ctx ps o
    → Answers ctx (p ∷ ps) o
Answers-skipped ctx ps p none n h = rw (n) h
Answers-skipped ctx ps p (some rs) n (fine, honest, same) = (rw (n) fine, honest, rw (n) same)

outcomes-Answers : (ctx : Context) (ps : List PolicyRule) → Answers ctx ps (outcomes ctx ps)
unfolding outcomes consed
outcomes-Answers ctx [] = (refl, tt, refl)
outcomes-Answers ctx (p ∷ ps) = elim (Bool-cases (considered ctx p)) [
  | inr n ↦
      rw (n, outcomes) (Answers-skipped ctx ps p (outcomes ctx ps) n (outcomes-Answers ctx ps))
  | inl c ↦ elim (Option-cases (evaluate_policy p ctx)) [
    | inl bad ↦
        let mis : misdated ctx p ≡ true = sym (evaluate_policy-misdated p ctx) ∙ ap is_none bad in
        rw (c, outcomes) (rw (bad) (rw (c, mis) refl))
    | inr (r, good) ↦
        rw (c, outcomes)
          (rw (good) (Answers-consed ctx ps p r (outcomes ctx ps) good c (outcomes-Answers ctx ps)))
  ]
]

-- The check raises exactly when some policy that is enabled and in scope is a `time_window` rule
-- that does not allow the day and lists an allowed day without a name, below -7 or above 6. When it
-- returns, it passes exactly when every policy that is enabled and in scope passes, and it asks for
-- approval exactly when it does not pass.
pub preflight_verdict :
    (ps : List PolicyRule) (ctx : Context)
    → ((check_pre_flight ps ctx ≡ none) ↔ (any (λ p. considered ctx p && misdated ctx p) ps ≡ true))
      × ((r : PreFlightCheckResult)
          → check_pre_flight ps ctx ≡ some r
          → (r.overall_passed ≡ all (λ p. not (considered ctx p) || passes p ctx) ps)
            × (r.requires_approval ≡ not r.overall_passed))
unfolding check_pre_flight extended
preflight_verdict ps ctx =
    let answers = outcomes-Answers ctx ps in
    let loop = pre_flight_loop-outcomes ctx ps [] false in
    elim (Option-cases (outcomes ctx ps)) [
      | inl bad ↦
          let raised : any (λ p. considered ctx p && misdated ctx p) ps ≡ true =
            subst (Answers ctx ps) bad answers in
          rw (loop, check_pre_flight) (rw (bad) ((λ h. raised), (λ h. refl)), (λ r h. absurd cc))
      | inr (rs, good) ↦
          let (fine, honest, same) = subst (Answers ctx ps) good answers in
          let counts = honest_counts rs honest in
          rw (loop, check_pre_flight)
            (rw (good) (
              ((λ h. absurd cc), (λ h. absurd cc)),
              (λ r h.
                  let passed : r.overall_passed
                      ≡ (count (λ r. not r.passed && is_block r.action) rs == 0) =
                    cc in
                  let asks : r.requires_approval ≡ any blocks rs = cc in
                  (
                    passed ∙ counts.2 ∙ same,
                    asks ∙ counts.3 ∙ ap not (sym counts.2) ∙ ap not (sym passed),
                  )),
            ))
    ]
