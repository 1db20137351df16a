-- ===== src/Fairness/Quotas.antt =====
-- What the two rounds give each tenant.
use gpuopt.Base.{
  ℕ, ◌+◌, ◌-◌, ◌≤◌, String, List, [], ◌∷◌, All, ◌≡◌, ◌⊎◌, refl, sym, ap, subst, ◌∙◌, ◌==◌,
  string_eq, ltb, arith, Bool-cases, inl, inr, eq_iff, beq_refl,
}
use gpuopt.Base.Dict.{Dict, insert}
use gpuopt.Fairness.{FairShareAllocation, extra_for, top_up, second_round}
use gpuopt.Fairness.Totals.{given, given-insert}

-- No tenant has more than its quota.
abbrev pub Bounded : (String → ℕ) → Dict String ℕ → Type 0
Bounded q d = (id : String) → given id d ≤ q id

pub Bounded-insert :
    (q : String → ℕ) (k : String) (v : ℕ) (d : Dict String ℕ)
    → v ≤ q k
    → Bounded q d
    → Bounded q (insert k v d)
Bounded-insert q k v d fits h id = elim (Bool-cases (k == id)) [
  | inl e ↦
      let same = ap q ((eq_iff k id).0 e) in
      let is : given id (insert k v d) ≡ v = given-insert k id v d ∙ rw (e) refl in omega arith
  | inr e ↦
      let is : given id (insert k v d) ≡ given id d = given-insert k id v d ∙ rw (e) refl in
      omega (arith, h id)
]

module _ {F : Type 0} where
  abbrev pub Quotas : (String → ℕ) → List (FairShareAllocation F) → Type 0
  Quotas q xs = All (λ (a : FairShareAllocation F). a.gpu_quota ≡ q a.tenant_id) xs

  extra_quota :
      (d : Dict String ℕ) (r : ℕ) (a : FairShareAllocation F)
      → given a.tenant_id d ≤ a.gpu_quota
      → given a.tenant_id d + extra_for d r a ≤ a.gpu_quota
  unfolding extra_for
  extra_quota d r a h = ground (arith, h)

  top_up-Bounded :
      (q : String → ℕ) (a : FairShareAllocation F) (d : Dict String ℕ) (r : ℕ)
      → a.gpu_quota ≡ q a.tenant_id
      → Bounded q d
      → Bounded q (top_up a (d, r)).0
  unfolding top_up
  top_up-Bounded q a d r own h =
      let extra = extra_for d r a in
      elim (Bool-cases (ltb 0 extra)) [
        | inl more ↦ rw (more) (
            Bounded-insert q a.tenant_id (given a.tenant_id d + extra) d
              (omega
                (arith, own, h a.tenant_id, extra_quota d r a (omega (arith, own, h a.tenant_id))))
              h)
        | inr nothing ↦ rw (nothing) h
      ]

  pub second_round-Bounded :
      (q : String → ℕ) (xs : List (FairShareAllocation F)) (s : Dict String ℕ × ℕ)
      → Quotas q xs
      → Bounded q s.0
      → Bounded q (second_round xs s).0
  unfolding second_round
  second_round-Bounded q [] s own h = h
  second_round-Bounded q (a ∷ xs) s (at, own) h =
      second_round-Bounded q xs (top_up a s) own (top_up-Bounded q a (s.0) (s.1) at h)

  -- A top-up takes nothing away, and it leaves no GPU or fills the quota.
  top_up-given :
      (a : FairShareAllocation F) (d : Dict String ℕ) (r : ℕ) (id : String)
      → given id d ≤ given id (top_up a (d, r)).0
  unfolding top_up
  top_up-given a d r id =
      let extra = extra_for d r a in
      elim (Bool-cases (ltb 0 extra)) [
        | inl more ↦ rw (more) (elim (Bool-cases (a.tenant_id == id)) [
          | inl e ↦
              let same = ap (λ k. given k d) ((eq_iff a.tenant_id id).0 e) in
              let is : given id (insert a.tenant_id (given a.tenant_id d + extra) d)
                  ≡ given a.tenant_id d + extra =
                given-insert a.tenant_id id _ d ∙ rw (e) refl in
              omega arith
          | inr e ↦
              let is : given id (insert a.tenant_id (given a.tenant_id d + extra) d) ≡ given id d =
                given-insert a.tenant_id id _ d ∙ rw (e) refl in
              omega arith
        ])
        | inr nothing ↦ rw (nothing) (omega arith)
      ]

  second_round-given :
      (xs : List (FairShareAllocation F)) (s : Dict String ℕ × ℕ) (id : String)
      → given id s.0 ≤ given id (second_round xs s).0
  unfolding second_round
  second_round-given [] s id = omega arith
  second_round-given (a ∷ xs) s id =
      omega (arith, top_up-given a (s.0) (s.1) id, second_round-given xs (top_up a s) id)

  extra_cases :
      (d : Dict String ℕ) (r : ℕ) (a : FairShareAllocation F)
      → (extra_for d r a ≡ r) ⊎ (a.gpu_quota ≤ given a.tenant_id d + extra_for d r a)
  unfolding extra_for
  extra_cases d r a = ground arith

  -- Nothing remains, or the tenant has its quota.
  abbrev pub Full : FairShareAllocation F → Dict String ℕ × ℕ → Type 0
  Full a (d, r) = (r ≡ 0) ⊎ (a.gpu_quota ≤ given a.tenant_id d)

  top_up-Full : (a : FairShareAllocation F) (d : Dict String ℕ) (r : ℕ) → Full a (top_up a (d, r))
  unfolding top_up
  top_up-Full a d r =
      let extra = extra_for d r a in
      elim (Bool-cases (ltb 0 extra)) [
        | inl more ↦
            let is : top_up a (d, r)
                ≡ (insert a.tenant_id (given a.tenant_id d + extra) d, r - extra) =
              rw (more, top_up) refl in
            subst (λ z. Full a z) (sym is)
              (elim (extra_cases d r a) [
                | inl all ↦ inl (omega arith)
                | inr quota ↦
                    let has : given a.tenant_id (insert a.tenant_id (given a.tenant_id d + extra) d)
                        ≡ given a.tenant_id d + extra =
                      given-insert a.tenant_id a.tenant_id _ d ∙ rw (beq_refl a.tenant_id) refl in
                    inr (omega arith)
              ])
        | inr nothing ↦
            let none_extra : extra ≡ 0 = ground (arith, nothing) in
            let is : top_up a (d, r) ≡ (d, r) = rw (nothing, top_up) refl in
            subst (λ z. Full a z) (sym is)
              (elim (extra_cases d r a) [
                | inl all ↦ inl (omega arith)
                | inr quota ↦ inr (omega arith)
              ])
      ]

  top_up-remaining :
      (a : FairShareAllocation F) (d : Dict String ℕ) (r : ℕ) → (top_up a (d, r)).1 ≤ r
  unfolding top_up
  top_up-remaining a d r = elim (Bool-cases (ltb 0 (extra_for d r a))) [
    | inl more ↦ rw (more, top_up) (omega arith)
    | inr nothing ↦ rw (nothing, top_up) (omega arith)
  ]

  second_round-remaining :
      (xs : List (FairShareAllocation F)) (s : Dict String ℕ × ℕ) → (second_round xs s).1 ≤ s.1
  unfolding second_round
  second_round-remaining [] s = omega arith
  second_round-remaining (a ∷ xs) s =
      omega (arith, top_up-remaining a (s.0) (s.1), second_round-remaining xs (top_up a s))

  pub second_round-Full :
      (xs : List (FairShareAllocation F)) (s : Dict String ℕ × ℕ)
      → All (λ a. Full a (second_round xs s)) xs
  unfolding second_round
  second_round-Full [] s = tt
  second_round-Full (a ∷ xs) s = (
    elim (top_up-Full a (s.0) (s.1)) [
      | inl nothing ↦ inl (omega (arith, nothing, second_round-remaining xs (top_up a s)))
      | inr quota ↦ inr (omega (arith, quota, second_round-given xs (top_up a s) a.tenant_id))
    ],
    second_round-Full xs (top_up a s),
  )
