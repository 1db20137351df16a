-- ===== src/Extended/Operators.antt =====
-- What the operators of a rule ask of a value, `_evaluate_rule` of src/gpuopt/governance_extended.py.
use Prim.Native.Nat.{Ordering}
use Prim.Native.String.{compare}
use gpuopt.Base.Text.{contains}
use gpuopt.Base.{
  ℕ, ◌<◌, ◌≤◌, arith, none, any, if◌then◌else◌, nat_eq, Bool, true, false, not, some, List, [], ◌∷◌,
  ◌≡◌, ◌≢◌, ◌↔◌, ◌⊎◌, inl, inr, refl, ap, subst, sym, ◌==◌, string_eq, nat_beq_iff, Bool-cases,
  eq_iff,
}
use gpuopt.Extended.Envelopes.{
  Value, number, text, RuleValue, missing, one, many, Operator, eq, neq, gt, gte, lt, lte, is_in,
  not_in, other, value_beq, equals, evaluate_value, less, at_least, is_lt, compares, member,
  or_false, negated,
}

value_beq_iff : (v w : Value) → (value_beq v w ≡ true) ↔ (v ≡ w)
value_beq_iff (number m) (number n) =
    ((λ h. ap number ((nat_beq_iff m n).0 h)), (λ e. (nat_beq_iff m n).1 (cc)))
value_beq_iff (number m) (text t) = ((λ h. cc), (λ e. cc))
value_beq_iff (text s) (number n) = ((λ h. cc), (λ e. cc))
value_beq_iff (text s) (text t) = ((λ h. ap text ((eq_iff s t).0 h)), (λ e. (eq_iff s t).1 (cc)))

equals_iff : (v : Value) (value : RuleValue) → (equals v value ≡ true) ↔ (value ≡ one v)
unfolding equals
equals_iff v missing = ((λ h. cc), (λ e. cc))
equals_iff v (one w) =
    let iff = value_beq_iff v w in ((λ h. ap one (sym (iff.0 h))), (λ e. iff.1 (cc)))
equals_iff v (many ws) = ((λ h. cc), (λ e. cc))

-- The orders: numbers with numbers, texts with texts, and no number with a text.
abbrev pub Below : Value → Value → Type 0
Below (number m) (number n) = m < n
Below (number m) (text t) = ⊥
Below (text s) (number n) = ⊥
Below (text s) (text t) = compare s t ≡ Ordering.lt

abbrev pub AtMost : Value → Value → Type 0
AtMost (number m) (number n) = m ≤ n
AtMost (number m) (text t) = ⊥
AtMost (text s) (number n) = ⊥
AtMost (text s) (text t) = compare t s ≢ Ordering.lt

abbrev pub Occurs : Value → List Value → Type 0
Occurs v [] = ⊥
Occurs v (w ∷ ws) = (v ≡ w) ⊎ Occurs v ws

-- A value occurs in a list, and a text in another that is not empty.
abbrev pub Within : Value → RuleValue → Type 0
Within v missing = ⊥
Within v (many ws) = Occurs v ws
Within v (one (number n)) = ⊥
Within (text s) (one (text t)) = (t ≢ "") × (contains s t ≡ true)
Within (number m) (one (text t)) = ⊥

-- A search that is no TypeError: in a list, in an empty value, or for a text in a text.
abbrev pub Searchable : Value → RuleValue → Type 0
Searchable v missing = Unit
Searchable v (many ws) = Unit
Searchable v (one (number n)) = n ≡ 0
Searchable (text s) (one (text t)) = Unit
Searchable (number m) (one (text t)) = t ≡ ""

-- What an operator asks of a value.
abbrev pub Meets : Value → Operator → RuleValue → Type 0
Meets v eq value = value ≡ one v
Meets v neq value = value ≢ one v
Meets v gt value = (w : Value) × (value ≡ one w) × Below w v
Meets v gte value = (w : Value) × (value ≡ one w) × AtMost w v
Meets v lt value = (w : Value) × (value ≡ one w) × Below v w
Meets v lte value = (w : Value) × (value ≡ one w) × AtMost v w
Meets v is_in value = Within v value
Meets v not_in value = Searchable v value × (¬ Within v value)
Meets v (other o) value = ⊥

not_iff : {P : Type 0} (b : Bool) → (b ≡ true) ↔ P → (not b ≡ true) ↔ (¬ P)
not_iff true p = ((λ h. absurd cc), (λ h. absurd (h (p.0 refl))))
not_iff false p = ((λ h x. let e = p.1 x in cc), (λ h. refl))

lt_iff : (o : Ordering) → (is_lt o ≡ true) ↔ (o ≡ Ordering.lt)
lt_iff Ordering.lt = ((λ h. refl), (λ e. refl))
lt_iff Ordering.eq = ((λ h. cc), (λ e. cc))
lt_iff Ordering.gt = ((λ h. cc), (λ e. cc))

Below-less : (v w : Value) → (less v w ≡ true) ↔ Below v w
Below-less (number m) (number n) = ground arith
Below-less (number m) (text t) = ((λ h. cc), (λ h. absurd h))
Below-less (text s) (number n) = ((λ h. cc), (λ h. absurd h))
Below-less (text s) (text t) = lt_iff (compare s t)

AtMost-at_least : (v w : Value) → (at_least v w ≡ true) ↔ AtMost w v
AtMost-at_least (number m) (number n) = ground arith
AtMost-at_least (number m) (text t) = ((λ h. cc), (λ h. absurd h))
AtMost-at_least (text s) (number n) = ((λ h. cc), (λ h. absurd h))
AtMost-at_least (text s) (text t) = not_iff (is_lt (compare s t)) (lt_iff (compare s t))

-- A comparison holds where the rule has one value and the order has the two.
compares_iff :
    (Test : Value → Value → Type 0) (test : Value → Value → Bool)
    → ((v w : Value) → (test v w ≡ true) ↔ Test v w)
    → (v : Value) (value : RuleValue)
    → (compares test v value ≡ true) ↔ ((w : Value) × (value ≡ one w) × Test v w)
unfolding compares
compares_iff Test test iff v missing = ((λ h. cc), (λ (w, e, t). cc))
compares_iff Test test iff v (one u) = (
  (λ h. (u, refl, (iff v u).0 h)),
  (λ (w, e, t). let same : w ≡ u = cc in (iff v u).1 (subst (λ z. Test v z) same t)),
)
compares_iff Test test iff v (many ws) = ((λ h. cc), (λ (w, e, t). cc))

Occurs-any : (v : Value) (ws : List Value) → (any (value_beq v) ws ≡ true) ↔ Occurs v ws
Occurs-any v [] = ((λ h. cc), (λ h. absurd h))
Occurs-any v (w ∷ ws) =
    let ih = Occurs-any v ws in
    let iff = value_beq_iff v w in
    elim (Bool-cases (value_beq v w)) [
      | inl e ↦ rw (e) ((λ h. inl (iff.0 e)), (λ h. refl))
      | inr e ↦ rw (e) (
        (λ h. inr (ih.0 h)),
        (λ h. elim h [ inl q ↦ (let p = iff.1 q in absurd cc) | inr q ↦ ih.1 q ]),
      )
    ]

within_number :
    (n : ℕ)
    → ((or_false (if n == 0 then some false else none) ≡ true) ↔ ⊥)
      × ((or_false (negated (if n == 0 then some false else none)) ≡ true) ↔ ((n ≡ 0) × (¬ ⊥)))
within_number n = elim (Bool-cases (n == 0)) [
  | inl e ↦
      rw (e) (((λ h. cc), (λ h. absurd h)), ((λ h. ((nat_beq_iff n 0).0 e, (λ x. x))), (λ h. refl)))
  | inr e ↦ rw (e) (
    ((λ h. cc), (λ h. absurd h)),
    ((λ h. cc), (λ (is, h). let p = (nat_beq_iff n 0).1 is in absurd cc)),
  )
]

-- What a search answers.
Within-member :
    (v : Value) (value : RuleValue)
    → ((or_false (member v value) ≡ true) ↔ Within v value)
      × ((or_false (negated (member v value)) ≡ true) ↔ (Searchable v value × (¬ Within v value)))
unfolding member
Within-member v missing = (((λ h. cc), (λ h. absurd h)), ((λ h. (tt, (λ x. x))), (λ h. refl)))
Within-member v (many ws) =
    let iff = Occurs-any v ws in
    let un = not_iff (any (value_beq v) ws) iff in (iff, ((λ h. (tt, un.0 h)), (λ (s, h). un.1 h)))
Within-member (number m) (one (number n)) = within_number n
Within-member (text s) (one (number n)) = within_number n
Within-member (text s) (one (text t)) = elim (Bool-cases (t == "")) [
  | inl e ↦
      let is = (eq_iff t "").0 e in
      rw (e) (
        ((λ h. cc), (λ (some_text, h). absurd (some_text is))),
        ((λ h. (tt, (λ (some_text, x). some_text is))), (λ h. refl)),
      )
  | inr e ↦
      let full : t ≢ "" = λ q. (let p = (eq_iff t "").1 q in cc) in
      let un = not_iff (contains s t) ((λ h. (full, h)), (λ (f, h). h)) in
      rw (e) (((λ h. (full, h)), (λ (f, h). h)), ((λ h. (tt, un.0 h)), (λ (u, h). un.1 h)))
]
Within-member (number m) (one (text t)) = elim (Bool-cases (t == "")) [
  | inl e ↦
      rw (e) (((λ h. cc), (λ h. absurd h)), ((λ h. ((eq_iff t "").0 e, (λ x. x))), (λ h. refl)))
  | inr e ↦ rw (e) (
    ((λ h. cc), (λ h. absurd h)),
    ((λ h. cc), (λ (is, h). let p = (eq_iff t "").1 is in absurd cc)),
  )
]

pub Meets-evaluate_value :
    (v : Value) (op : Operator) (value : RuleValue)
    → (evaluate_value v op value ≡ true) ↔ Meets v op value
unfolding evaluate_value
Meets-evaluate_value v eq value = equals_iff v value
Meets-evaluate_value v neq value = not_iff (equals v value) (equals_iff v value)
Meets-evaluate_value v gt value =
    compares_iff (λ a b. Below b a) (λ a b. less b a) (λ a b. Below-less b a) v value
Meets-evaluate_value v gte value = compares_iff (λ a b. AtMost b a) at_least AtMost-at_least v value
Meets-evaluate_value v lt value = compares_iff Below less Below-less v value
Meets-evaluate_value v lte value =
    compares_iff AtMost (λ a b. at_least b a) (λ a b. AtMost-at_least b a) v value
Meets-evaluate_value v is_in value = (Within-member v value).0
Meets-evaluate_value v not_in value = (Within-member v value).1
Meets-evaluate_value v (other o) value = ((λ h. cc), (λ h. absurd h))
