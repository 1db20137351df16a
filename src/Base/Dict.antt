-- ===== src/Base/Dict.antt =====
-- Python's `dict` as an association list in insertion order, over any key with equality.
use mathlib.Core.Path.{◌≡◌, refl, sym, subst, ◌∙◌}
use mathlib.Core.Logic.{◌≢◌, inl, inr}
use mathlib.Core.Bool.{Bool, true, false}
use mathlib.Core.Option.{Option, none, some}
use mathlib.Core.List.{List, [], ◌∷◌}
use native.Mathlib.Omega.{arith}
use gpuopt.Base.Tests.{if◌then◌else◌, is_some, Bool-cases}
use gpuopt.Base.Equality.{Eq, ◌==◌, beq_refl}

abbrev pub Dict {ℓ κ} : Type ℓ → Type κ → Type (ℓ ⊔ κ)
Dict K V = List (K × V)

module _ {ℓ κ} {K : Type ℓ} ⦃e : Eq K⦄ {V : Type κ} where
  -- `d.get(k)`
  abbrev pub lookup : K → Dict K V → Option V
  lookup k [] = none
  lookup k ((j, v) ∷ d) = if j == k then some v else lookup k d

  -- `k in d`
  abbrev pub has_key : K → Dict K V → Bool
  has_key k d = is_some (lookup k d)

  -- `d[k] = v`: a present key keeps its place, a new one goes to the end
  abbrev pub insert : K → V → Dict K V → Dict K V
  insert k v [] = (k, v) ∷ []
  insert k v ((j, w) ∷ d) = if j == k then (j, v) ∷ d else (j, w) ∷ insert k v d

  -- `del d[k]` and `d.pop(k, None)`
  abbrev pub erase : K → Dict K V → Dict K V
  erase k [] = []
  erase k ((j, w) ∷ d) = let rest = erase k d in if j == k then rest else (j, w) ∷ rest

  -- `d.values()`
  abbrev pub values : Dict K V → List V
  values [] = []
  values ((j, w) ∷ d) = w ∷ values d

  abbrev pub keys : Dict K V → List K
  keys [] = []
  keys ((j, w) ∷ d) = j ∷ keys d

  pub lookup-insert :
      (k j : K) (v : V) (d : Dict K V)
      → lookup j (insert k v d) ≡ (if k == j then some v else lookup j d)
  lookup-insert k j v [] = refl
  lookup-insert k j v ((i, w) ∷ d) =
      ground (arith, e.beq_iff k j, e.beq_iff i k, e.beq_iff i j, lookup-insert k j v d)

  pub lookup-erase :
      (k j : K) (d : Dict K V) → lookup j (erase k d) ≡ (if k == j then none else lookup j d)
  lookup-erase k j [] = ground arith
  lookup-erase k j ((i, w) ∷ d) =
      ground (arith, e.beq_iff k j, e.beq_iff i k, e.beq_iff i j, lookup-erase k j d)

  pub lookup-insert_same : (k : K) (v : V) (d : Dict K V) → lookup k (insert k v d) ≡ some v
  lookup-insert_same k v d = rw (lookup-insert k k v d) (rw (beq_refl k) refl)

  pub lookup-insert_other :
      (k j : K) (v : V) (d : Dict K V) → j ≢ k → lookup j (insert k v d) ≡ lookup j d
  lookup-insert_other k j v d other = elim (Bool-cases (k == j)) [
    | inl hit ↦ absurd (other (sym ((e.beq_iff k j).0 hit)))
    | inr miss ↦ rw (lookup-insert k j v d) (rw (miss) refl)
  ]

  pub lookup-erase_same : (k : K) (d : Dict K V) → lookup k (erase k d) ≡ none
  lookup-erase_same k d = rw (lookup-erase k k d) (rw (beq_refl k) refl)

-- A property of every row, and the operations that keep it.
module _ {ℓ κ μ} {K : Type ℓ} ⦃e : Eq K⦄ {V : Type κ} (P : K → V → Type μ) where
  abbrev pub Rows : Dict K V → Type (ℓ ⊔ κ ⊔ μ)
  Rows d = (k : K) (v : V) → lookup k d ≡ some v → P k v

  rows_if :
      (k0 k : K) (v0 v : V) (o : Option V) (b : Bool)
      → (b ≡ true → k0 ≡ k)
      → P k0 v0
      → (o ≡ some v → P k v)
      → (if b then some v0 else o) ≡ some v
      → P k v
  rows_if k0 k v0 v o true same h rest found =
      let q : v0 ≡ v = cc in subst (λ x. P k x) q (subst (λ x. P x v0) (same refl) h)
  rows_if k0 k v0 v o false same h rest found = rest found

  pub Rows-insert : (k0 : K) (v0 : V) (d : Dict K V) → P k0 v0 → Rows d → Rows (insert k0 v0 d)
  Rows-insert k0 v0 d h rows k v found =
      rows_if k0 k v0 v (lookup k d) (k0 == k) ((e.beq_iff k0 k).0) h (rows k v)
        (sym (lookup-insert k0 k v0 d) ∙ found)

  rows_unless :
      (k : K) (v : V) (o : Option V) (b : Bool)
      → (o ≡ some v → P k v)
      → (if b then none else o) ≡ some v
      → P k v
  rows_unless k v o true rest found = cc
  rows_unless k v o false rest found = rest found

  pub Rows-erase : (k0 : K) (d : Dict K V) → Rows d → Rows (erase k0 d)
  Rows-erase k0 d rows k v found =
      rows_unless k v (lookup k d) (k0 == k) (rows k v) (sym (lookup-erase k0 k d) ∙ found)
