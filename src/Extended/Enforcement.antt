-- ===== src/Extended/Enforcement.antt =====
-- When a policy envelope refuses.
use gpuopt.Base.{
  nat_eq, String, true, false, not, some, List, [], ◌∷◌, All, ◌≡◌, ◌≢◌, ◌↔◌, ◌⊎◌, inl, inr, refl,
  subst, ◌∙◌, sym, ◌==◌, string_eq, filter, Bool-cases, Option-cases, eq_iff,
}
use gpuopt.Base.Dict.{Dict, lookup, values}
use gpuopt.Extended.Envelopes.{
  Value, Rule, PolicyEnvelope, Envelopes, evaluate_value, evaluate_rule, is_empty, evaluate,
  list_envelopes, allowed, first_refusal, enforce_policy,
}
use gpuopt.Extended.Operators.{Meets, Meets-evaluate_value}

-- The context has a value of the rule's field, and it meets the rule.
abbrev pub Satisfied : Dict String Value → Rule → Type 0
Satisfied context r = (v : Value) × (lookup r.field context ≡ some v) × Meets v r.operator r.value

Satisfied-evaluate_rule :
    (context : Dict String Value) (r : Rule)
    → (evaluate_rule (lookup r.field context) r.operator r.value ≡ true) ↔ Satisfied context r
unfolding evaluate_rule
Satisfied-evaluate_rule context r = elim (Option-cases (lookup r.field context)) [
  | inl gone ↦
      let is : evaluate_rule (lookup r.field context) r.operator r.value ≡ false = rw (gone) refl in
      ((λ h. absurd cc), (λ (v, found, meets). absurd cc))
  | inr (v, found) ↦
      let iff = Meets-evaluate_value v r.operator r.value in
      let is : evaluate_rule (lookup r.field context) r.operator r.value
          ≡ evaluate_value v r.operator r.value =
        rw (found) refl in
      (
        (λ h. (v, found, iff.0 (sym is ∙ h))),
        (λ (w, found', meets).
            let same : w ≡ v = cc in
            is ∙ iff.1 (subst (λ x. Meets x r.operator r.value) same meets)),
      )
]

passed_iff :
    (context : Dict String Value) (rules : List Rule)
    → (is_empty (
          filter
            (λ (r : Rule). not (evaluate_rule (lookup r.field context) r.operator r.value))
            rules)
        ≡ true)
      ↔ All (Satisfied context) rules
passed_iff context [] = ((λ h. tt), (λ h. refl))
passed_iff context (r ∷ rules) =
    let ih = passed_iff context rules in
    let iff = Satisfied-evaluate_rule context r in
    elim (Bool-cases (evaluate_rule (lookup r.field context) r.operator r.value)) [
      | inl e ↦ rw (e) ((λ h. (iff.0 e, ih.0 h)), (λ (at, all). ih.1 all))
      | inr e ↦ rw (e) ((λ h. absurd cc), (λ (at, all). let p = iff.1 at in absurd cc))
    ]

-- The envelope is off, or every rule of it is satisfied.
abbrev pub Passes : Dict String Value → PolicyEnvelope → Type 0
Passes context env = (env.enabled ≡ true) → All (Satisfied context) env.rules

first_refusal_iff :
    (context : Dict String Value) (envs : List PolicyEnvelope)
    → (first_refusal context envs ≡ allowed) ↔ All (Passes context) envs
unfolding first_refusal evaluate
first_refusal_iff context [] = ((λ h. tt), (λ h. refl))
first_refusal_iff context (env ∷ envs) =
    let ih = first_refusal_iff context envs in
    let iff = passed_iff context env.rules in
    elim (Bool-cases env.enabled) [
      | inl on ↦ elim (Bool-cases (evaluate env context).passed) [
        | inl good ↦
            rw (on, first_refusal)
              (rw (good) ((λ h. ((λ x. iff.0 good), ih.0 h)), (λ (at, all). ih.1 all)))
        | inr bad ↦
            rw (on, first_refusal)
              (rw (bad) ((λ h. absurd cc), (λ (at, all). let p = iff.1 (at refl) in absurd cc)))
      ]
      | inr off ↦
          rw (off, first_refusal) ((λ h. ((λ x. absurd cc), ih.0 h)), (λ (at, all). ih.1 all))
    ]

-- The envelopes that are asked: those of the domain, or all of them without one.
abbrev pub InDomain : String → PolicyEnvelope → Type 0
InDomain domain env = (domain ≡ "") ⊎ (env.domain ≡ domain)

filter_iff :
    (P : PolicyEnvelope → Type 0) (domain : String) (envs : List PolicyEnvelope)
    → domain ≢ ""
    → All P (filter (λ (e : PolicyEnvelope). e.domain == domain) envs)
      ↔ All (λ e. InDomain domain e → P e) envs
filter_iff P domain [] some_domain = ((λ h. tt), (λ h. tt))
filter_iff P domain (env ∷ envs) some_domain =
    let ih = filter_iff P domain envs some_domain in
    elim (Bool-cases (env.domain == domain)) [
      | inl e ↦ rw (e) (
        (λ (at, all). ((λ x. at), ih.0 all)),
        (λ (at, all). (at (inr ((eq_iff env.domain domain).0 e)), ih.1 all)),
      )
      | inr e ↦ rw (e) (
        (λ h. (
          (λ x. elim x [
            | inl q ↦ absurd (some_domain q)
            | inr q ↦ (let b = (eq_iff env.domain domain).1 q in absurd cc)
          ]),
          ih.0 h,
        )),
        (λ (at, all). ih.1 all),
      )
    ]

without_domain :
    (P : PolicyEnvelope → Type 0) (domain : String) (envs : List PolicyEnvelope)
    → domain ≡ ""
    → All P envs ↔ All (λ e. InDomain domain e → P e) envs
without_domain P domain [] none_given = ((λ h. tt), (λ h. tt))
without_domain P domain (env ∷ envs) none_given =
    let ih = without_domain P domain envs none_given in
    ((λ (at, all). ((λ x. at), ih.0 all)), (λ (at, all). (at (inl none_given), ih.1 all)))

-- An action is allowed exactly when every rule of every enabled envelope of its domain is satisfied:
-- the context has the rule's field with a value that meets the rule. With no domain all envelopes
-- count. The envelope's own action, block or other, makes no difference.
pub enforce_policy_exact :
    (domain : String) (context : Dict String Value) (envelopes : Envelopes)
    → (enforce_policy domain context envelopes ≡ allowed)
      ↔ All (λ e. InDomain domain e → Passes context e) (values envelopes)
unfolding enforce_policy list_envelopes
enforce_policy_exact domain context envelopes = elim (Bool-cases (domain == "")) [
  | inl e ↦
      let iff = first_refusal_iff context (values envelopes) in
      let all =
        without_domain (Passes context) domain (values envelopes) ((eq_iff domain "").0 e) in
      rw (e) ((λ h. all.0 (iff.0 h)), (λ h. iff.1 (all.1 h)))
  | inr e ↦
      let iff =
        first_refusal_iff context
          (filter (λ (x : PolicyEnvelope). x.domain == domain) (values envelopes)) in
      let all =
        filter_iff (Passes context) domain (values envelopes)
          (λ q. let b = (eq_iff domain "").1 q in cc) in
      rw (e) ((λ h. all.0 (iff.0 h)), (λ h. iff.1 (all.1 h)))
]
