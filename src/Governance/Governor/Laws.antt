-- ===== src/Governance/Governor/Laws.antt =====
-- The governor: what `predict` answers and records, and whom `set_champion` promotes.
use gpuopt.Base.{
  ℕ, ◌*◌, ◌+◌, ◌≤◌, Bool, true, false, ◌&&◌, ◌≡◌, ◌≢◌, ◌↔◌, ◌⊎◌, refl, sym, subst, Option, none,
  some, List, [], ◌∷◌, any, All, ltb, string_eq, if◌then◌else◌, arith, is_none, Bool-cases,
  Option-cases, inl, inr,
}
use gpuopt.Base.Dict.{lookup}
use gpuopt.Governance.Models.{
  Uuid, action_class_eq, champion, ModelVersion, FallbackConfig, GovernanceConfig,
}
use gpuopt.Governance.Registry.{get, get_champion, get_challenger, promote_challenger}
use gpuopt.Governance.Registry.Laws.{IsSound}
use gpuopt.Governance.Registry.Promotion.{with_status, challenger_at, promote_challenger_effect}
use gpuopt.Governance.Approval.{requires_approval}
use gpuopt.Governance.Fallback.{
  Starts, Reason, low_confidence, drift, stale_data, forced_recovery_check, no_reason, is_stale,
  overdue, should_fallback,
}
use gpuopt.Governance.Governor.{Governor, is_expired, set_champion}

-- The version may be made champion: it is approved if it has to be, and not expired.
abbrev pub MayLead : GovernanceConfig → ℕ → ModelVersion → Type 0
MayLead config now u =
    ((requires_approval config u ≡ true) → u.approved_by ≢ none)
    × ((t : ℕ) → u.certified_until ≡ some t → now ≤ t)

lacks_iff :
    {A : Type 0} (b : Bool) (o : Option A) → ((b && is_none o) ≡ false) ↔ ((b ≡ true) → o ≢ none)
lacks_iff false o = ((λ h e. absurd cc), (λ h. refl))
lacks_iff true none = ((λ h. absurd cc), (λ h. absurd (h refl refl)))
lacks_iff true (some a) = ((λ h e q. cc), (λ h. refl))

is_expired_iff :
    (o : Option ℕ) (now : ℕ) → (is_expired o now ≡ false) ↔ ((t : ℕ) → o ≡ some t → now ≤ t)
is_expired_iff none now = ((λ h t e. absurd cc), (λ h. refl))
is_expired_iff (some u) now = (
  (λ h t e. let same : u ≡ t = cc in subst (λ z. now ≤ z) same (ground arith)),
  (λ h. let bound = h u refl in ground arith),
)

-- What a promotion finds: a version under the id that may lead, and a challenger of its class.
abbrev pub Promotable : GovernanceConfig → Uuid → ℕ → Governor → ModelVersion → Type 0
Promotable config vid now g v =
    (u : ModelVersion) × (get vid g.registry ≡ some u)
    × MayLead config now u
    × (get_challenger u.action_class g.registry ≡ some v)

module _ (config : GovernanceConfig) (vid : Uuid) (now : ℕ) (g : Governor) where
  -- Whatever the guards find, the call promotes a challenger or changes nothing.
  promotes_or_refuses :
      IsSound g.registry
      → ((set_champion config vid now g ≡ (none, g))
          × ((v : ModelVersion) → ¬ Promotable config vid now g v))
        ⊎ ((v : ModelVersion) × Promotable config vid now g v
            × ((set_champion config vid now g).0 ≡ some (with_status champion now v))
            × (get_champion v.action_class (set_champion config vid now g).1.registry
                ≡ some (with_status champion now v)))
  unfolding set_champion promote_challenger
  promotes_or_refuses h = elim (Option-cases (get vid g.registry)) [
    | inl gone ↦ inl (rw (gone, set_champion) refl, (λ v (u, e, m, c). absurd cc))
    | inr (u, found) ↦
        let lacks = lacks_iff (requires_approval config u) u.approved_by in
        let old = is_expired_iff u.certified_until now in
        elim (Bool-cases (requires_approval config u && is_none u.approved_by)) [
          | inl no_approval ↦ inl (
            rw (found, set_champion) (rw (no_approval) refl),
            (λ v (w, e, m, c).
                let same : w ≡ u = cc in
                let p = lacks.1 (subst (λ z. MayLead config now z) same m).0 in absurd cc),
          )
          | inr ok ↦ elim (Bool-cases (is_expired u.certified_until now)) [
            | inl out ↦ inl (
              rw (found, set_champion) (rw (ok) (rw (out) refl)),
              (λ v (w, e, m, c).
                  let same : w ≡ u = cc in
                  let p = old.1 (subst (λ z. MayLead config now z) same m).1 in absurd cc),
            )
            | inr valid ↦ elim (Option-cases (get_challenger u.action_class g.registry)) [
              | inl nobody ↦ inl (
                rw (found, set_champion)
                    (rw (ok) (rw (valid) (rw (nobody, promote_challenger) refl))),
                (λ v (w, e, m, c).
                    let same : w ≡ u = cc in
                    let c' =
                      subst
                        (λ (z : ModelVersion). get_challenger z.action_class g.registry ≡ some v)
                        same c in
                    absurd cc),
              )
              | inr (v, chal) ↦
                  let (a, b, d, f) =
                    promote_challenger_effect u.action_class now g.registry v h chal in
                  let class = (challenger_at u.action_class g.registry v h chal).2 in
                  let leads : get_champion v.action_class
                        (promote_challenger u.action_class now g.registry).1
                      ≡ some (with_status champion now v) =
                    subst
                      (λ k.
                        get_champion k (promote_challenger u.action_class now g.registry).1
                        ≡ some (with_status champion now v))
                      (sym class) b in
                  inr (
                    v,
                    (u, found, (lacks.0 ok, old.0 valid), chal),
                    rw (found, set_champion) (rw (ok) (rw (valid) a)),
                    rw (found, set_champion) (rw (ok) (rw (valid) leads)),
                  )
            ]
          ]
        ]
  ]

  one_challenger :
      (v w : ModelVersion) → Promotable config vid now g v → Promotable config vid now g w → v ≡ w
  one_challenger v w (u, e, m, c) (u', e', m', c') =
      let same : u' ≡ u = cc in
      let c'' =
        subst (λ (z : ModelVersion). get_challenger z.action_class g.registry ≡ some w) same c' in
      cc

  -- In a sound registry, a call of `set_champion` for a stored version that is approved, if its
  -- class needs that, and whose certificate has not run out promotes the challenger of the class,
  -- if there is one, whether or not the challenger itself is approved or certified: the challenger
  -- is answered as champion and is the class's champion afterwards. Any other call is refused and
  -- changes nothing.
  pub set_champion_exact :
      IsSound g.registry
      → ((v : ModelVersion)
          → Promotable config vid now g v
          → ((set_champion config vid now g).0 ≡ some (with_status champion now v))
            × (get_champion v.action_class (set_champion config vid now g).1.registry
                ≡ some (with_status champion now v)))
        × (((v : ModelVersion) → ¬ Promotable config vid now g v)
            → set_champion config vid now g ≡ (none, g))
  set_champion_exact h = elim (promotes_or_refuses h) [
    | inl (refused, nobody) ↦ ((λ v p. absurd (nobody v p)), (λ n. refused))
    | inr (w, found, answered, leads) ↦ (
      (λ v p.
          let same = one_challenger w v found p in
          subst
            (λ (z : ModelVersion).
              ((set_champion config vid now g).0 ≡ some (with_status champion now z))
              × (get_champion z.action_class (set_champion config vid now g).1.registry
                  ≡ some (with_status champion now z)))
            same (answered, leads)),
      (λ n. absurd (n w found)),
    )
  ]

-- A version that needs an approval and has none, or whose certificate has run out, is refused and
-- changes nothing.
pub set_champion_refuses :
    (config : GovernanceConfig) (vid : Uuid) (now : ℕ) (g : Governor) (u : ModelVersion)
    → get vid g.registry ≡ some u
    → ((requires_approval config u ≡ true) × (u.approved_by ≡ none))
      ⊎ (is_expired u.certified_until now ≡ true)
    → set_champion config vid now g ≡ (none, g)
unfolding set_champion
set_champion_refuses config vid now g u e (inl (needs, lacks)) =
    rw (e, set_champion) (rw (needs) (rw (lacks) refl))
set_champion_refuses config vid now g u e (inr old) =
    rw (e, set_champion)
      (elim (Bool-cases (requires_approval config u && is_none u.approved_by)) [
        | inl b ↦ rw (b) refl
        | inr b ↦ rw (b) (rw (old) refl)
      ])

-- The version is to be trusted with this confidence and these drift scores.
abbrev pub IsFit : FallbackConfig → ModelVersion → ℕ → List ℕ → ℕ → Type 0
IsFit config v confidence drift_scores now =
    (config.confidence_threshold ≤ confidence)
    × All (λ s. s ≤ config.drift_score_threshold) drift_scores
    × ((t : ℕ) → v.training_data_window_end ≡ some t → now ≤ t + config.max_data_stale_hours * 3600)

any_above :
    (limit : ℕ) (scores : List ℕ)
    → (any (λ s. ltb limit s) scores ≡ false) ↔ All (λ s. s ≤ limit) scores
any_above limit [] = ((λ h. tt), (λ h. refl))
any_above limit (s ∷ scores) = (
  (λ h. ((let b : s ≤ limit = ground arith in b), (any_above limit scores).0 (ground arith))),
  (λ (h : (s ≤ limit) × All (λ s. s ≤ limit) scores).
      let rest = (any_above limit scores).1 h.1 in let here = h.0 in ground arith),
)

stale_iff :
    (o : Option ℕ) (now hours : ℕ)
    → (is_stale o now hours ≡ false) ↔ ((t : ℕ) → o ≡ some t → now ≤ t + hours * 3600)
stale_iff none now hours = ((λ h t e. absurd cc), (λ h. refl))
stale_iff (some u) now hours = (
  (λ h t e. let same : u ≡ t = cc in subst (λ z. now ≤ z + hours * 3600) same (ground arith)),
  (λ h. let bound = h u refl in ground arith),
)

-- The verdict of a chain of three tests, whatever is left after them.
verdict : Bool → Bool → Bool → Bool × Reason → Bool × Reason
verdict a b c rest =
    if a
    then (true, low_confidence)
    else if b
    then (true, drift)
    else if c
    then (true, stale_data)
    else rest

verdict_iff :
    (a b c : Bool) (rest : Bool × Reason)
    → rest.0 ≡ false
    → ((verdict a b c rest).0 ≡ false) ↔ ((a ≡ false) × (b ≡ false) × (c ≡ false))
unfolding verdict
verdict_iff true b c rest h = ((λ e. absurd cc), (λ (e, f, g). absurd cc))
verdict_iff false true c rest h = ((λ e. absurd cc), (λ (e, f, g). absurd cc))
verdict_iff false false true rest h = ((λ e. absurd cc), (λ (e, f, g). absurd cc))
verdict_iff false false false rest h = ((λ e. (refl, refl, refl)), (λ e. h))

tail_of : Bool → Bool × Reason
tail_of overdue = if overdue then (false, forced_recovery_check) else (false, no_reason)

tail_of-false : (b : Bool) → (tail_of b).0 ≡ false
unfolding tail_of
tail_of-false true = refl
tail_of-false false = refl

-- Without the switch there is never a reason to fall back, and with it there is none exactly for a
-- fit champion.
pub should_fallback_iff :
    (config : FallbackConfig) (v : ModelVersion) (confidence : ℕ) (drift_scores : List ℕ) (now : ℕ)
    (starts : Starts)
    → ((should_fallback config v confidence drift_scores now starts).0 ≡ false)
      ↔ ((config.enabled ≡ true) → IsFit config v confidence drift_scores now)
unfolding should_fallback verdict tail_of
should_fallback_iff config v confidence drift_scores now starts = elim (Bool-cases config.enabled) [
  | inl on ↦
      let low = ltb confidence config.confidence_threshold in
      let drifted = any (λ s. ltb config.drift_score_threshold s) drift_scores in
      let stale = is_stale v.training_data_window_end now config.max_data_stale_hours in
      let rest = overdue (lookup v.action_class starts) now config.max_fallback_duration_hours in
      let parts = verdict_iff low drifted stale (tail_of rest) (tail_of-false rest) in
      rw (on, should_fallback)
        (
          (λ h e.
              let (a, b, c) = parts.0 h in
              (
                ground arith,
                (any_above config.drift_score_threshold drift_scores).0 b,
                (stale_iff v.training_data_window_end now config.max_data_stale_hours).0 c,
              )),
          (λ h.
              let (a, b, c) = h refl in
              parts.1 (
                ground arith,
                (any_above config.drift_score_threshold drift_scores).1 b,
                (stale_iff v.training_data_window_end now config.max_data_stale_hours).1 c,
              )),
        )
  | inr off ↦ rw (off, should_fallback) ((λ h e. absurd cc), (λ h. refl))
]
