-- ===== src/Remediation/Matching.antt =====
-- Which rule an evaluation runs, and the cooldown between two runs of a rule.
use gpuopt.Base.{
  ℕ, ◌≤◌, ◌+◌, ◌*◌, Bool, true, false, ◌&&◌, ◌||◌, not, ◌≡◌, refl, sym, ap, subst, ◌∙◌, Option,
  none, some, List, [], ◌∷◌, any, ◌==◌, string_eq, codes_eq, if◌then◌else◌, arith, Bool-cases, inl,
  inr, ◌⊎◌, eq_iff,
}
use gpuopt.Base.Dict.{Dict, lookup, values, lookup-insert_same}
use gpuopt.Remediation.{
  Ident, alert_severity_eq, policy_severity_eq, PolicySeverity, RemediationRule, RemediationRun,
  RemediationEngine, AlertRecord, TriggerType, Services, run_key, cooling, is_empty, alert_matches,
  policy_matches, first_matching, run_first, execute_rule, evaluate_alert, evaluate_policy, seeded,
}

-- The rule is one of the list.
abbrev pub Among : RemediationRule → List RemediationRule → Type 0
Among rule [] = ⊥
Among rule (r ∷ rules) = (r ≡ rule) ⊎ Among rule rules

first_matching-some :
    (p : RemediationRule → Bool) (rules : List RemediationRule) (rule : RemediationRule)
    → first_matching p rules ≡ some rule
    → Among rule rules × (p rule ≡ true)
unfolding first_matching
first_matching-some p [] rule e = absurd cc
first_matching-some p (r ∷ rules) rule e = elim (Bool-cases (p r)) [
  | inl hit ↦ let same : r ≡ rule = at (p r) hit e in (inl same, subst (λ z. p z ≡ true) same hit)
  | inr miss ↦
      let (among, holds) = first_matching-some p rules rule (later (p r) miss e) in
      (inr among, holds)
]
  where
    at :
        (b : Bool)
        → b ≡ true
        → (if b then some r else first_matching p rules) ≡ some rule
        → r ≡ rule
    at true h f = cc
    at false h f = absurd cc

    later :
        (b : Bool)
        → b ≡ false
        → (if b then some r else first_matching p rules) ≡ some rule
        → first_matching p rules ≡ some rule
    later true h f = absurd cc
    later false h f = f

first_matching-none :
    (p : RemediationRule → Bool) (rules : List RemediationRule) (rule : RemediationRule)
    → first_matching p rules ≡ none
    → Among rule rules
    → p rule ≡ false
unfolding first_matching
first_matching-none p [] rule e among = absurd among
first_matching-none p (r ∷ rules) rule e among = elim (Bool-cases (p r)) [
  | inl hit ↦ absurd (found (p r) hit e)
  | inr miss ↦ elim among [
    | inl same ↦ subst (λ z. p z ≡ false) same miss
    | inr further ↦ first_matching-none p rules rule (later (p r) miss e) further
  ]
]
  where
    found : (b : Bool) → b ≡ true → (if b then some r else first_matching p rules) ≡ none → ⊥
    found true h f = cc
    found false h f = cc

    later :
        (b : Bool)
        → b ≡ false
        → (if b then some r else first_matching p rules) ≡ none
        → first_matching p rules ≡ none
    later true h f = absurd cc
    later false h f = f

-- The conditions under which a rule answers an alert.
abbrev pub Answers : AlertRecord → ℕ → Dict Ident ℕ → RemediationRule → Type 0
Answers a now last_run rule =
    (rule.enabled ≡ true)
    × (any (λ s. a.severity == s) rule.trigger_alert_severity ≡ true)
    × ((is_empty rule.trigger_condition_types
          || any (λ t. a.condition_type == t) rule.trigger_condition_types)
        ≡ true)
    × ((last : ℕ)
        → lookup (run_key rule.id a.cluster_id) last_run ≡ some last
        → last + rule.cooldown_minutes * 60 ≤ now)

cooling_iff :
    (o : Option ℕ) (now minutes : ℕ)
    → cooling o now minutes ≡ false
    → (last : ℕ) → o ≡ some last
    → last + minutes * 60 ≤ now
cooling_iff none now minutes h last e = absurd cc
cooling_iff (some t) now minutes h last e =
    let same : t ≡ last = cc in subst (λ z. z + minutes * 60 ≤ now) same (ground arith)

alert_matches-Answers :
    (a : AlertRecord) (now : ℕ) (last_run : Dict Ident ℕ) (rule : RemediationRule)
    → alert_matches a now last_run rule ≡ true
    → Answers a now last_run rule
unfolding alert_matches
alert_matches-Answers a now last_run rule h =
    let cold = cooling (lookup (run_key rule.id a.cluster_id) last_run) now rule.cooldown_minutes in
    let (x, y, z, w) =
      parts rule.enabled (any (λ s. a.severity == s) rule.trigger_alert_severity)
        (is_empty rule.trigger_condition_types)
        (any (λ t. a.condition_type == t) rule.trigger_condition_types) cold h in
    (
      x,
      y,
      z,
      cooling_iff (lookup (run_key rule.id a.cluster_id) last_run) now rule.cooldown_minutes w,
    )
  where
    parts :
        (on sev empty cond cold : Bool)
        → (if not on
            then false
            else if not sev
            then false
            else if not empty && not cond
            then false
            else not cold)
          ≡ true
        → (on ≡ true) × (sev ≡ true) × ((empty || cond) ≡ true) × (cold ≡ false)
    parts on sev empty cond cold e = (ground arith, ground arith, ground arith, ground arith)

run_first_inv :
    (services : Services) (fresh : Ident) (now : ℕ) (trigger : TriggerType)
    (trigger_id cluster : Ident) (e : RemediationEngine) (o : Option RemediationRule)
    (run : RemediationRun)
    → (run_first services fresh now trigger trigger_id cluster e o).0 ≡ some run
    → (rule : RemediationRule) × (o ≡ some rule)
      × (run.rule_id ≡ rule.id)
      × (run.cluster_id ≡ cluster)
      × (lookup
            (run_key rule.id cluster)
            (run_first services fresh now trigger trigger_id cluster e o).1.last_run
          ≡ some now)
      × ((run_first services fresh now trigger trigger_id cluster e o).1.rules ≡ e.rules)
unfolding run_first execute_rule
run_first_inv services fresh now trigger trigger_id cluster e none run h = absurd cc
run_first_inv services fresh now trigger trigger_id cluster e (some rule) run h =
    let made = (execute_rule services fresh now rule trigger trigger_id cluster e).0 in
    let same : made ≡ run = cc in
    (
      rule,
      refl,
      ap (λ (r : RemediationRun). r.rule_id) (sym same),
      ap (λ (r : RemediationRun). r.cluster_id) (sym same),
      lookup-insert_same (run_key rule.id cluster) now e.last_run,
      refl,
    )

evaluate_alert_fires :
    (services : Services) (fresh : Ident) (now : ℕ) (a : AlertRecord) (e : RemediationEngine)
    (run : RemediationRun)
    → (evaluate_alert services fresh now a e).0 ≡ some run
    → (a.status ≡ "firing")
      × (evaluate_alert services fresh now a e
          ≡ run_first services fresh now TriggerType.alert a.id a.cluster_id e
              (first_matching (alert_matches a now e.last_run) (values e.rules)))
unfolding evaluate_alert
evaluate_alert_fires services fresh now a e run h = elim (Bool-cases (a.status == "firing")) [
  | inl firing ↦ ((eq_iff a.status "firing").0 firing, rw (firing, evaluate_alert) refl)
  | inr quiet ↦ absurd (silent (a.status == "firing") quiet _ h)
]
  where
    silent :
        (b : Bool)
        → b ≡ false
        → (o : Option RemediationRun × RemediationEngine)
        → (if b then o else (none, e)).0 ≡ some run
        → ⊥
    silent true q o f = cc
    silent false q o f = cc

-- A run that an alert starts is the run of one of the engine's rules, for the alert's cluster; the
-- alert fires, and the rule is enabled, has the alert's severity and condition, and is not in its
-- cooldown for the cluster. The run's time is recorded, and the rules stay as they are.
pub evaluate_alert_sound :
    (services : Services) (fresh : Ident) (now : ℕ) (a : AlertRecord) (e : RemediationEngine)
    (run : RemediationRun)
    → (evaluate_alert services fresh now a e).0 ≡ some run
    → (rule : RemediationRule) × Among rule (values e.rules)
      × (a.status ≡ "firing")
      × Answers a now e.last_run rule
      × (run.rule_id ≡ rule.id)
      × (run.cluster_id ≡ a.cluster_id)
      × (lookup (run_key rule.id a.cluster_id) (evaluate_alert services fresh now a e).1.last_run
          ≡ some now)
      × ((evaluate_alert services fresh now a e).1.rules ≡ e.rules)
evaluate_alert_sound services fresh now a e run h =
    let (firing, same) = evaluate_alert_fires services fresh now a e run h in
    let o = first_matching (alert_matches a now e.last_run) (values e.rules) in
    let (rule, found, ids, clusters, stamped, kept) =
      run_first_inv services fresh now TriggerType.alert a.id a.cluster_id e o run
        (sym (ap (λ p. p.0) same) ∙ h) in
    let (among, holds) =
      first_matching-some (alert_matches a now e.last_run) (values e.rules) rule found in
    (
      rule,
      among,
      firing,
      alert_matches-Answers a now e.last_run rule holds,
      ids,
      clusters,
      subst (λ p. lookup (run_key rule.id a.cluster_id) p.1.last_run ≡ some now) (sym same) stamped,
      subst (λ p. p.1.rules ≡ e.rules) (sym same) kept,
    )

-- Two runs of one rule for one cluster, by one alert evaluation right after the other, are at least
-- the rule's cooldown apart.
pub runs_are_spaced :
    (services : Services) (fresh fresh' : Ident) (now later : ℕ) (a a' : AlertRecord)
    (e : RemediationEngine) (run run' : RemediationRun)
    → (evaluate_alert services fresh now a e).0 ≡ some run
    → (evaluate_alert services fresh' later a' (evaluate_alert services fresh now a e).1).0
      ≡ some run'
    → run.rule_id ≡ run'.rule_id
    → a.cluster_id ≡ a'.cluster_id
    → (rule : RemediationRule) × Among rule (values e.rules)
      × (rule.id ≡ run'.rule_id)
      × (now + rule.cooldown_minutes * 60 ≤ later)
runs_are_spaced services fresh fresh' now later a a' e run run' h h' same_rule same_cluster =
    let e' = (evaluate_alert services fresh now a e).1 in
    let (rule, among, f, answers, ids, c, stamped, kept) =
      evaluate_alert_sound services fresh now a e run h in
    let (rule', among', f', answers', ids', c', s', k') =
      evaluate_alert_sound services fresh' later a' e' run' h' in
    let (on, sev, cond, cold) = answers' in
    let same_key : run_key rule.id a.cluster_id ≡ run_key rule'.id a'.cluster_id =
      ap (λ z. run_key z a.cluster_id) (sym ids ∙ same_rule ∙ ids')
      ∙ ap (λ z. run_key rule'.id z) same_cluster in
    (
      rule',
      subst (λ z. Among rule' (values z)) kept among',
      sym ids',
      cold now (subst (λ z. lookup z e'.last_run ≡ some now) same_key stamped),
    )

-- In the engine with the default rules, a policy of any severity for any cluster starts the rule
-- that actuates the best recommendation, which is meant for critical GPU alerts.
pub any_policy_actuates :
    (services : Services) (a b c fresh : Ident) (now : ℕ) (policy_id : Ident)
    (severity : PolicySeverity) (cluster : Ident)
    → (a == b) ≡ false
    → (a == c) ≡ false
    → (run : RemediationRun) × ((evaluate_policy services fresh now policy_id severity cluster
          (seeded a b c)).0
        ≡ some run)
      × (run.rule_id ≡ a)
unfolding evaluate_policy seeded policy_matches first_matching run_first execute_rule
any_policy_actuates services a b c fresh now policy_id severity cluster ab ac =
    rw (ab) (rw (ac) (_, refl, refl))
