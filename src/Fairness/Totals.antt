-- ===== src/Fairness/Totals.antt =====
-- The sum of an allocation, and what the two rounds do to it.
use gpuopt.Base.{
  ℕ, ◌+◌, ◌-◌, ◌≤◌, String, Bool, true, false, Option, some, List, [], ◌∷◌, count, is_some, ◌≡◌,
  refl, ap, ◌∙◌, ◌==◌, string_eq, if◌then◌else◌, ltb, arith, Bool-cases, inl, inr, beq_refl,
}
use gpuopt.Base.Dict.{Dict, lookup, insert, lookup-insert}
use gpuopt.Base.Floats.{Floats}
use gpuopt.Fairness.{
  FairShareAllocation, get_or, entitled, first_round, extra_for, top_up, second_round,
}

-- `sum(allocation.values())`, and what a tenant has.
abbrev pub total : Dict String ℕ → ℕ
total [] = 0
total ((k, n) ∷ d) = n + total d

abbrev pub given : String → Dict String ℕ → ℕ
given id d = get_or 0 (lookup id d)

total-insert :
    (k : String) (n : ℕ) (d : Dict String ℕ) → total (insert k n d) + given k d ≡ total d + n
total-insert k n [] = omega arith
total-insert k n ((j, m) ∷ d) = ground (arith, total-insert k n d)

given_if :
    (b : Bool) (n : ℕ) (o : Option ℕ)
    → get_or 0 (if b then some n else o) ≡ (if b then n else get_or 0 o)
given_if true n o = refl
given_if false n o = refl

pub given-insert :
    (k j : String) (n : ℕ) (d : Dict String ℕ)
    → given j (insert k n d) ≡ (if k == j then n else given j d)
given-insert k j n d = ap (get_or 0) (lookup-insert k j n d) ∙ given_if (k == j) n (lookup j d)

-- Whether a tenant has an allocation.
abbrev pub present : String → Dict String ℕ → ℕ
present id d = if is_some (lookup id d) then 1 else 0

module _ {F : Type 0} where
  -- How often a tenant is listed.
  abbrev pub listed : String → List (FairShareAllocation F) → ℕ
  listed id xs = count (λ (a : FairShareAllocation F). a.tenant_id == id) xs

module _ {F : Type 0} (fl : Floats F) where
  entitled_le : (n r : ℕ) (a : FairShareAllocation F) → entitled fl n r a ≤ r
  unfolding entitled
  entitled_le n r a = ground arith

  pub entitled_quota : (n r : ℕ) (a : FairShareAllocation F) → entitled fl n r a ≤ a.gpu_quota
  unfolding entitled
  entitled_quota n r a = ground arith

  -- The tenants to come are listed once and have nothing yet.
  abbrev pub Apart : List (FairShareAllocation F) → Dict String ℕ → Type 0
  Apart xs d = (id : String) → listed id xs + present id d ≤ 1

  Apart-insert :
      (a : FairShareAllocation F) (xs : List (FairShareAllocation F)) (n : ℕ) (d : Dict String ℕ)
      → Apart (a ∷ xs) d
      → Apart xs (insert a.tenant_id n d)
  Apart-insert a xs n d apart id = ground (arith, apart id, lookup-insert a.tenant_id id n d)

  Apart-given :
      (a : FairShareAllocation F) (xs : List (FairShareAllocation F)) (d : Dict String ℕ)
      → Apart (a ∷ xs) d
      → given a.tenant_id d ≡ 0
  Apart-given a xs d apart = ground (arith, apart a.tenant_id, beq_refl a.tenant_id)

  -- What is given and what remains make up the GPUs of the cluster.
  abbrev pub Conserved : ℕ → Dict String ℕ × ℕ → Type 0
  Conserved n (d, r) = total d + r ≡ n

  pub first_round-Conserved :
      (n m : ℕ) (xs : List (FairShareAllocation F)) (d : Dict String ℕ) (r : ℕ)
      → Apart xs d
      → Conserved n (d, r)
      → Conserved n (first_round fl m xs (d, r))
  unfolding first_round
  first_round-Conserved n m [] d r apart h = h
  first_round-Conserved n m (a ∷ xs) d r apart h =
      let v = entitled fl m r a in
      first_round-Conserved n m xs (insert a.tenant_id v d) (r - v) (Apart-insert a xs v d apart) (
        omega (arith, entitled_le m r a, total-insert a.tenant_id v d, Apart-given a xs d apart, h))

module _ {F : Type 0} where
  extra_le : (d : Dict String ℕ) (r : ℕ) (a : FairShareAllocation F) → extra_for d r a ≤ r
  unfolding extra_for
  extra_le d r a = ground arith

  top_up-Conserved :
      (n : ℕ) (a : FairShareAllocation F) (d : Dict String ℕ) (r : ℕ)
      → total d + r ≡ n
      → let (d', r') = top_up a (d, r) in total d' + r' ≡ n
  unfolding top_up
  top_up-Conserved n a d r h =
      let extra = extra_for d r a in
      elim (Bool-cases (ltb 0 extra)) [
        | inl more ↦ rw (more) (
            omega
              (arith, extra_le d r a, total-insert a.tenant_id (given a.tenant_id d + extra) d, h))
        | inr nothing ↦ rw (nothing) h
      ]

  pub second_round-Conserved :
      (n : ℕ) (xs : List (FairShareAllocation F)) (s : Dict String ℕ × ℕ)
      → total s.0 + s.1 ≡ n
      → let (d', r') = second_round xs s in total d' + r' ≡ n
  unfolding second_round
  second_round-Conserved n [] s h = h
  second_round-Conserved n (a ∷ xs) s h =
      second_round-Conserved n xs (top_up a s) (top_up-Conserved n a (s.0) (s.1) h)
