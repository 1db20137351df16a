-- ===== src/Extended/Envelopes.antt =====
-- `PolicyEnforcer` and `ExtendedGovernanceService.enforce_policy`. A value of a context is a natural
-- number or a text, and a rule's value may be a list of these or missing; values of other types are
-- left out.
use gpuopt.Base.{
  ℕ, String, Bool, true, false, not, Option, none, some, List, [], ◌∷◌, ◌==◌, string_eq, nat_eq,
  if◌then◌else◌, filter, any, ltb,
}
use gpuopt.Base.Dict.{Dict, lookup, insert, values}
use gpuopt.Base.Text.{contains}
use Prim.Native.Nat.{Ordering}
use Prim.Native.String.{compare}

pub data Value : Type 0 where
  number : ℕ → Value
  text : String → Value

pub data RuleValue : Type 0 where
  missing : RuleValue
  one : Value → RuleValue
  many : List Value → RuleValue

pub data Operator : Type 0 where
  eq : Operator
  neq : Operator
  gt : Operator
  gte : Operator
  lt : Operator
  lte : Operator
  is_in : Operator
  not_in : Operator
  other : String → Operator

pub record Rule : Type 0 where
  pub field : String
  pub operator : Operator
  pub value : RuleValue

pub record PolicyEnvelope : Type 0 where
  pub policy_id : String
  pub name : String
  pub domain : String
  pub rules : List Rule
  pub action : String
  pub enabled : Bool

abbrev pub Envelopes : Type 0
Envelopes = Dict String PolicyEnvelope

abbrev pub value_beq : Value → Value → Bool
value_beq (number m) (number n) = m == n
value_beq (number m) (text t) = false
value_beq (text s) (number n) = false
value_beq (text s) (text t) = s == t

abbrev pub is_lt : Ordering → Bool
is_lt Ordering.lt = true
is_lt Ordering.eq = false
is_lt Ordering.gt = false

-- Texts are compared by their code points.
abbrev pub text_before : String → String → Bool
text_before a b = is_lt (compare a b)

-- `a < b`, where a comparison of a number with a text is a TypeError, which the code takes for a
-- failed rule.
abbrev pub less : Value → Value → Bool
less (number m) (number n) = ltb m n
less (number m) (text t) = false
less (text s) (number n) = false
less (text s) (text t) = text_before s t

abbrev pub comparable : Value → Value → Bool
comparable (number m) (number n) = true
comparable (number m) (text t) = false
comparable (text s) (number n) = false
comparable (text s) (text t) = true

-- `context_val == value`
unfoldable pub equals : Value → RuleValue → Bool
equals v missing = false
equals v (one w) = value_beq v w
equals v (many ws) = false

-- `context_val > value`, `<` and the two others; a list or a missing value is a TypeError.
unfoldable pub compares : (Value → Value → Bool) → Value → RuleValue → Bool
compares test v missing = false
compares test v (one w) = test v w
compares test v (many ws) = false

abbrev pub at_least : Value → Value → Bool
at_least v w = if comparable v w then not (less v w) else false

-- `context_val in (value or [])`; `none` is a TypeError. In a text a text is looked for.
unfoldable pub member : Value → RuleValue → Option Bool
member v missing = some false
member v (many ws) = some (any (value_beq v) ws)
member v (one (number n)) = if n == 0 then some false else none
member (text s) (one (text t)) = if t == "" then some false else some (contains s t)
member (number m) (one (text t)) = if t == "" then some false else none

abbrev pub or_false : Option Bool → Bool
or_false none = false
or_false (some b) = b

abbrev pub negated : Option Bool → Option Bool
negated none = none
negated (some b) = some (not b)

-- `_evaluate_rule`, of a value that is there.
unfoldable pub evaluate_value : Value → Operator → RuleValue → Bool
unfolding equals compares member
evaluate_value v eq value = equals v value
evaluate_value v neq value = not (equals v value)
evaluate_value v gt value = compares (λ a b. less b a) v value
evaluate_value v gte value = compares at_least v value
evaluate_value v lt value = compares less v value
evaluate_value v lte value = compares (λ a b. at_least b a) v value
evaluate_value v is_in value = or_false (member v value)
evaluate_value v not_in value = or_false (negated (member v value))
evaluate_value v (other o) value = false

-- `_evaluate_rule`
unfoldable pub evaluate_rule : Option Value → Operator → RuleValue → Bool
unfolding evaluate_value
evaluate_rule none op value = false
evaluate_rule (some v) op value = evaluate_value v op value

pub record Evaluation : Type 0 where
  pub passed : Bool
  pub failed_rules : List Rule
  pub action : String

abbrev pub is_empty {ℓ} : {A : Type ℓ} → List A → Bool
is_empty [] = true
is_empty (x ∷ xs) = false

-- `evaluate`
unfoldable pub evaluate : PolicyEnvelope → Dict String Value → Evaluation
unfolding evaluate_rule
evaluate env context =
    let failed =
      filter (λ (r : Rule). not (evaluate_rule (lookup r.field context) r.operator r.value))
        env.rules in
    record {
      passed = is_empty failed;
      failed_rules = failed;
      action = if is_empty failed then "allow" else env.action;
    }

-- `create_envelope`
unfoldable pub create_envelope :
    String → String → String → List Rule → String → Envelopes → PolicyEnvelope × Envelopes
create_envelope fresh name domain rules action envelopes =
    let env : PolicyEnvelope = record {
      policy_id = fresh;
      name = name;
      domain = domain;
      rules = rules;
      action = action;
      enabled = true;
    } in
    (env, insert fresh env envelopes)

-- `list_envelopes`; "" stands for no domain.
unfoldable pub list_envelopes : String → Envelopes → List PolicyEnvelope
list_envelopes domain envelopes =
    if domain == ""
    then values envelopes
    else filter (λ (e : PolicyEnvelope). e.domain == domain) (values envelopes)

-- `enable` and `disable`
unfoldable pub set_enabled : Bool → String → Envelopes → Bool × Envelopes
set_enabled on policy_id envelopes = elim (lookup policy_id envelopes) [
  | none ↦ (false, envelopes)
  | some e ↦ (
    true,
    insert policy_id
        (record {
          policy_id = e.policy_id;
          name = e.name;
          domain = e.domain;
          rules = e.rules;
          action = e.action;
          enabled = on;
        })
        envelopes,
  )
]

-- What is answered: allowed, or the envelope that refuses with its evaluation.
pub data Verdict : Type 0 where
  allowed : Verdict
  refused : PolicyEnvelope → Evaluation → Verdict

unfoldable pub first_refusal : Dict String Value → List PolicyEnvelope → Verdict
unfolding evaluate
first_refusal context [] = allowed
first_refusal context (env ∷ envs) =
    let rest = first_refusal context envs in
    let result = evaluate env context in
    if env.enabled then (if result.passed then rest else refused env result) else rest

-- `enforce_policy`
unfoldable pub enforce_policy : String → Dict String Value → Envelopes → Verdict
unfolding list_envelopes first_refusal
enforce_policy domain context envelopes = first_refusal context (list_envelopes domain envelopes)
