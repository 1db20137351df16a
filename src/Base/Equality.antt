-- ===== src/Base/Equality.antt =====
-- Decidable equality as an interface, for the numbers, the texts and the program's own enums.
use Prim.Native.Nat.{ℕ}
use Prim.Native.String.{String}
use mathlib.Core.Path.{◌≡◌, refl, subst}
use mathlib.Core.List.{List, [], ◌∷◌}
use mathlib.Core.Logic.{◌↔◌}
use mathlib.Core.Bool.{Bool, true, false, ◌&&◌}
use text.Mathlib.Text.{◌==◌ as str_eq}
use text.Mathlib.TextEquality.{eq_iff}
use gpuopt.Base.Tests.{nat_beq, nat_beq_iff}
use native.Mathlib.Omega.{arith}

pub record Eq {ℓ} (A : Type ℓ) : Type ℓ where
  pub beq : A → A → Bool
  pub beq_iff : (a b : A) → (beq a b ≡ true) ↔ (a ≡ b)

-- Of an enum with decidable equality.
abbrev pub dec_beq {ℓ} : {A : Type ℓ} → Discrete A → A → A → Bool
dec_beq dec a b = elim (dec a b) [ yes p ↦ true | no p ↦ false ]

dec_beq_aux {ℓ} :
    {A : Type ℓ} (a b : A) (d : Dec (a ≡ b))
    → (elim d [ yes p ↦ true | no p ↦ false ] ≡ true) ↔ (a ≡ b)
dec_beq_aux a b (yes p) = ((λ _. p), (λ _. refl))
dec_beq_aux a b (no p) = ((λ h. cc), (λ e. absurd (p e)))

pub dec_beq_iff {ℓ} : {A : Type ℓ} (dec : Discrete A) (a b : A) → (dec_beq dec a b ≡ true) ↔ (a ≡ b)
dec_beq_iff dec a b = dec_beq_aux a b (dec a b)

instance abbrev pub string_eq : Eq String
string_eq = record { beq = str_eq; beq_iff = eq_iff }

-- Texts whose characters the program cuts: lists of code points.
abbrev pub list_beq : List ℕ → List ℕ → Bool
list_beq [] [] = true
list_beq [] (y ∷ ys) = false
list_beq (x ∷ xs) [] = false
list_beq (x ∷ xs) (y ∷ ys) = nat_beq x y && list_beq xs ys

list_beq_sound : (xs ys : List ℕ) → list_beq xs ys ≡ true → xs ≡ ys
list_beq_sound [] [] h = refl
list_beq_sound [] (y ∷ ys) h = cc
list_beq_sound (x ∷ xs) [] h = cc
list_beq_sound (x ∷ xs) (y ∷ ys) h = ground (arith, list_beq_sound xs ys)

list_beq_refl : (xs : List ℕ) → list_beq xs xs ≡ true
list_beq_refl [] = refl
list_beq_refl (x ∷ xs) = ground (arith, list_beq_refl xs)

pub list_beq_iff : (xs ys : List ℕ) → (list_beq xs ys ≡ true) ↔ (xs ≡ ys)
list_beq_iff xs ys =
    (list_beq_sound xs ys, (λ e. subst (λ z. list_beq xs z ≡ true) e (list_beq_refl xs)))

instance abbrev pub codes_eq : Eq (List ℕ)
codes_eq = record { beq = list_beq; beq_iff = list_beq_iff }

instance abbrev pub nat_eq : Eq ℕ
nat_eq = record { beq = nat_beq; beq_iff = nat_beq_iff }

-- `==`, at every type with an equality.
infix 50 ◌==◌
abbrev pub ◌==◌ {ℓ} : {A : Type ℓ} ⦃e : Eq A⦄ → A → A → Bool
◌==◌ ⦃e⦄ = e.beq

pub beq_refl {ℓ} : {K : Type ℓ} ⦃e : Eq K⦄ (k : K) → (k == k) ≡ true
beq_refl ⦃e⦄ k = (e.beq_iff k k).1 refl
