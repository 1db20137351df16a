-- ===== src/Fairness/Conservation.antt =====
-- No GPU is given twice, no tenant has more than its quota, and none is left while a tenant could
-- take it.
use gpuopt.Base.{
  ℕ, ◌+◌, ◌-◌, ◌≤◌, String, true, List, [], ◌∷◌, All, count, map, ◌≡◌, ◌⊎◌, refl, sym, subst, ◌==◌,
  string_eq, ltb, arith, Bool-cases, inl, inr,
}
use gpuopt.Base.Dict.{Dict, insert}
use gpuopt.Base.Floats.{Floats}
use gpuopt.Base.Sorting.{sorted, sorted-count, sorted-All, All-sorted}
use gpuopt.Fairness.{
  Tenant, FairShareAllocation, get_or, entitled, first_round, second_round, allocation_of,
  sum_weights, by_share, by_priority, by_dominance, compute, schedule,
}
use gpuopt.Fairness.Totals.{
  total, given, listed, entitled_quota, first_round-Conserved, second_round-Conserved,
}
use gpuopt.Fairness.Quotas.{
  Bounded, Bounded-insert, Quotas, second_round-Bounded, Full, second_round-Full,
}

module _ {F : Type 0} (fl : Floats F) where
  first_round-Bounded :
      (q : String → ℕ) (m : ℕ) (xs : List (FairShareAllocation F)) (d : Dict String ℕ) (r : ℕ)
      → Quotas q xs
      → Bounded q d
      → Bounded q (first_round fl m xs (d, r)).0
  unfolding first_round
  first_round-Bounded q m [] d r own h = h
  first_round-Bounded q m (a ∷ xs) d r (at, own) h =
      let v = entitled fl m r a in
      first_round-Bounded q m xs (insert a.tenant_id v d) (r - v) own
        (Bounded-insert q a.tenant_id v d (omega (arith, at, entitled_quota fl m r a)) h)

  -- The quotas, and what holds of each tenant of the dict.
  rows-Quotas :
      (q : String → ℕ) (n : ℕ) (w : F) (rows : Dict String (Tenant F))
      → All (λ (row : String × Tenant F). get_or n row.1.quota ≡ q row.0) rows
      → Quotas q (map (allocation_of fl n w) rows)
  unfolding allocation_of
  rows-Quotas q n w [] h = tt
  rows-Quotas q n w ((k, t) ∷ rows) (at, h) = (at, rows-Quotas q n w rows h)

  rows-listed :
      (n : ℕ) (w : F) (rows : Dict String (Tenant F)) (id : String)
      → listed id (map (allocation_of fl n w) rows)
        ≡ count (λ (row : String × Tenant F). row.0 == id) rows
  unfolding allocation_of
  rows-listed n w [] id = refl
  rows-listed n w ((k, t) ∷ rows) id = ground (arith, rows-listed n w rows id)

  rows-given :
      (q : String → ℕ) (n : ℕ) (w : F) (out : Dict String ℕ) (rows : Dict String (Tenant F))
      → All (λ (row : String × Tenant F). get_or n row.1.quota ≡ q row.0) rows
      → All
          (λ (a : FairShareAllocation F). a.gpu_quota ≤ given a.tenant_id out)
          (map (allocation_of fl n w) rows)
      → All (λ (row : String × Tenant F). q row.0 ≤ given row.0 out) rows
  unfolding allocation_of
  rows-given q n w out [] h all = tt
  rows-given q n w out ((k, t) ∷ rows) (at, h) (fits, all) =
      (omega arith, rows-given q n w out rows h all)

  Full-quotas :
      (s : Dict String ℕ × ℕ) (xs : List (FairShareAllocation F))
      → ltb 0 s.1 ≡ true
      → All (λ a. Full a s) xs
      → All (λ (a : FairShareAllocation F). a.gpu_quota ≤ given a.tenant_id s.0) xs
  Full-quotas s [] left h = tt
  Full-quotas s (a ∷ xs) left (at, h) = (
    elim at [ inl nothing ↦ absurd (ground (arith, left, nothing)) | inr quota ↦ quota ],
    Full-quotas s xs left h,
  )

  -- The state after the two rounds.
  abbrev rounds : ℕ → List (FairShareAllocation F) → Dict String ℕ × ℕ
  rounds n xs =
      second_round (sorted (by_dominance fl) xs)
        (first_round fl n (sorted (by_priority fl) xs) ([], n))

  -- What each of the two rounds gives, for the allocations of `compute`.
  rounds-Conserved :
      (n : ℕ) (xs : List (FairShareAllocation F))
      → ((id : String) → listed id xs ≤ 1)
      → total (rounds n xs).0 + (rounds n xs).1 ≡ n
  rounds-Conserved n xs once = second_round-Conserved n (sorted (by_dominance fl) xs) _ (
      first_round-Conserved fl n n (sorted (by_priority fl) xs) [] n
        (λ id.
          let same =
            sorted-count (by_priority fl) (λ (a : FairShareAllocation F). a.tenant_id == id) xs in
          omega (arith, once id))
        (omega arith))

  rounds-Bounded :
      (q : String → ℕ) (n : ℕ) (xs : List (FairShareAllocation F))
      → Quotas q xs
      → Bounded q (rounds n xs).0
  rounds-Bounded q n xs own =
      second_round-Bounded q (sorted (by_dominance fl) xs) _
        (sorted-All (by_dominance fl) (λ (a : FairShareAllocation F). a.gpu_quota ≡ q a.tenant_id)
          xs own)
        (first_round-Bounded q n (sorted (by_priority fl) xs) [] n
          (sorted-All (by_priority fl) (λ (a : FairShareAllocation F). a.gpu_quota ≡ q a.tenant_id)
            xs own)
          (λ id. omega arith))

  -- Each tenant has its quota.
  abbrev pub Sated : (String → ℕ) → Dict String (Tenant F) → Dict String ℕ → Type 0
  Sated q tenants out = All (λ (row : String × Tenant F). q row.0 ≤ given row.0 out) tenants

  abbrev pub Allocates : (String → ℕ) → Dict String (Tenant F) → ℕ → Dict String ℕ → Type 0
  Allocates q tenants n out =
      (total out ≤ n) × Bounded q out × ((total out ≡ n) ⊎ Sated q tenants out)

  rounds_allocate :
      (q : String → ℕ) (tenants : Dict String (Tenant F)) (n : ℕ) (w : F)
      → ((id : String) → count (λ (row : String × Tenant F). row.0 == id) tenants ≤ 1)
      → All (λ (row : String × Tenant F). get_or n row.1.quota ≡ q row.0) tenants
      → Allocates q tenants n
          (rounds n (sorted (by_share fl) (map (allocation_of fl n w) tenants))).0
  rounds_allocate q tenants n w once own =
      let raw = map (allocation_of fl n w) tenants in
      let xs = sorted (by_share fl) raw in
      let quotas : Quotas q xs =
        sorted-All (by_share fl) (λ (a : FairShareAllocation F). a.gpu_quota ≡ q a.tenant_id) raw
          (rows-Quotas q n w tenants own) in
      let once' : (id : String) → listed id xs ≤ 1 = λ id.
        let same =
          sorted-count (by_share fl) (λ (a : FairShareAllocation F). a.tenant_id == id) raw in
        let rows = rows-listed n w tenants id in omega (arith, once id) in
      let kept = rounds-Conserved n xs once' in
      let s = rounds n xs in
      let full : All (λ a. Full a s) (sorted (by_dominance fl) xs) =
        second_round-Full (sorted (by_dominance fl) xs)
          (first_round fl n (sorted (by_priority fl) xs) ([], n)) in
      (
        omega arith,
        rounds-Bounded q n xs quotas,
        elim (Bool-cases (ltb 0 s.1)) [
          | inl left ↦ inr (
              rows-given q n w (s.0) tenants own (
                All-sorted (by_share fl)
                  (λ (a : FairShareAllocation F). a.gpu_quota ≤ given a.tenant_id s.0) raw
                  (All-sorted (by_dominance fl)
                    (λ (a : FairShareAllocation F). a.gpu_quota ≤ given a.tenant_id s.0) xs
                    (Full-quotas s (sorted (by_dominance fl) xs) left full))))
          | inr spent ↦ inl (ground (arith, spent, kept))
        ],
      )

  -- The keys of the tenants are distinct, and `q` gives each its quota, by default all GPUs. Then
  -- the allocation gives out no more GPUs than there are and no tenant more than its quota, and it
  -- gives out all of them unless each tenant has its quota.
  pub schedule-Allocates :
      (q : String → ℕ) (tenants : Dict String (Tenant F)) (n : ℕ)
      → ((id : String) → count (λ (row : String × Tenant F). row.0 == id) tenants ≤ 1)
      → All (λ (row : String × Tenant F). get_or n row.1.quota ≡ q row.0) tenants
      → Allocates q tenants n (schedule fl tenants n)
  unfolding schedule compute sorted first_round second_round
  schedule-Allocates q tenants n once own =
      let w = sum_weights fl (fl.of_nat 0) tenants in
      elim (Bool-cases (ltb 0 n)) [
        | inl some_gpus ↦
            let is : compute fl tenants n
                ≡ sorted (by_share fl) (map (allocation_of fl n w) tenants) =
              rw (some_gpus, compute) refl in
            subst (λ c. Allocates q tenants n (rounds n c).0) (sym is)
              (rounds_allocate q tenants n w once own)
        | inr no_gpus ↦
            let is : compute fl tenants n ≡ [] = rw (no_gpus, compute) refl in
            let zero_gpus : 0 ≡ n = ground (arith, no_gpus) in
            subst (λ c. Allocates q tenants n (rounds n c).0) (sym is)
              (omega arith, (λ id. omega arith), inl zero_gpus)
      ]
