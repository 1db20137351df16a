-- ===== src/Federation/Choice.antt =====
-- Which cluster is chosen.
use gpuopt.Base.{
  ℕ, ◌≤◌, String, Bool, true, false, ◌&&◌, ◌||◌, not, none, some, List, [], ◌∷◌, All, ◌≡◌, ◌≢◌, ◌↔◌,
  ◌⊎◌, inl, inr, refl, subst, ◌==◌, string_eq, arith, Bool-cases, any, ltb, eq_iff,
}
use gpuopt.Base.Dict.{values}
use gpuopt.Base.Sorting.{IsOrder, first-All, sorted, sorted-All, sorted-empty, sorted-IsFirst}
use gpuopt.Base.Floats.{Floats}
use gpuopt.Federation.{FederatedCluster, Registry, online, draining, health_eq, role_eq}
use gpuopt.Federation.Scheduler.{Wish, eligible, score, candidates, before, find_best_cluster}

-- Tests and what they decide.
and_iff : {P Q : Type 0} (a b : Bool) → (a ≡ true) ↔ P → (b ≡ true) ↔ Q → (a && b ≡ true) ↔ (P × Q)
and_iff true b p q = ((λ h. (p.0 refl, q.0 h)), (λ (x, y). q.1 y))
and_iff false b p q = ((λ h. absurd cc), (λ (x, y). p.1 x))

or_iff : {P Q : Type 0} (a b : Bool) → (a ≡ true) ↔ P → (b ≡ true) ↔ Q → (a || b ≡ true) ↔ (P ⊎ Q)
or_iff true b p q = ((λ h. inl (p.0 refl)), (λ h. refl))
or_iff false b p q =
    ((λ h. inr (q.0 h)), (λ h. elim h [ inl x ↦ (let e = p.1 x in absurd cc) | inr y ↦ q.1 y ]))

not_iff : {P : Type 0} (a : Bool) → (a ≡ true) ↔ P → (not a ≡ true) ↔ (¬ P)
not_iff true p = ((λ h. absurd cc), (λ h. absurd (h (p.0 refl))))
not_iff false p = ((λ h x. let e = p.1 x in cc), (λ h. refl))

covers_iff : (a b : ℕ) → (not (ltb a b) ≡ true) ↔ (b ≤ a)
covers_iff a b = ground arith

-- The text is one of the list.
abbrev pub Among : String → List String → Type 0
Among s [] = ⊥
Among s (m ∷ ms) = (m ≡ s) ⊎ Among s ms

any-Among : (s : String) (ms : List String) → (any (λ m. m == s) ms ≡ true) ↔ Among s ms
any-Among s [] = ((λ h. cc), (λ h. absurd h))
any-Among s (m ∷ ms) =
    let ih = any-Among s ms in
    elim (Bool-cases (m == s)) [
      | inl e ↦ rw (e) ((λ h. inl ((eq_iff m s).0 e)), (λ h. refl))
      | inr e ↦ rw (e) (
        (λ h. inr (ih.0 h)),
        (λ h. elim h [ inl q ↦ (let p = (eq_iff m s).1 q in absurd cc) | inr q ↦ ih.1 q ]),
      )
    ]

module _ {F : Type 0} where
  -- A cluster that can take the workload.
  abbrev pub Eligible : Wish → FederatedCluster F → Type 0
  Eligible w c =
      (c.health ≡ online)
      × (c.role ≢ draining)
      × ((w.region ≡ "") ⊎ (c.region ≡ w.region))
      × (w.required_gpus ≤ c.free_gpus)
      × ((w.gpu_model ≡ "") ⊎ Among w.gpu_model c.gpu_models)

  eligible-Eligible : (w : Wish) (c : FederatedCluster F) → (eligible w c ≡ true) ↔ Eligible w c
  unfolding eligible
  eligible-Eligible w c =
      let all = and_iff _ _ (health_eq.beq_iff c.health online) (
        and_iff _ _ (not_iff _ (role_eq.beq_iff c.role draining)) (
          and_iff _ _
            (or_iff (w.region == "") (c.region == w.region) (eq_iff w.region "")
              (eq_iff c.region w.region))
            (and_iff _ _ (covers_iff c.free_gpus w.required_gpus) (
              or_iff (w.gpu_model == "") _ (eq_iff w.gpu_model "")
                (any-Among w.gpu_model c.gpu_models))))) in
      (
        (λ e. let (h, (r, (g, (f, m)))) = all.0 e in (h, r, g, f, m)),
        (λ (h, r, g, f, m). all.1 (h, (r, (g, (f, m))))),
      )

  -- No eligible cluster among those, and the eligible ones that the code keeps.
  candidates-none :
      (w : Wish) (cs : List (FederatedCluster F))
      → (candidates w cs ≡ []) ↔ All (λ c. ¬ Eligible w c) cs
  unfolding candidates
  candidates-none w [] = ((λ h. tt), (λ h. refl))
  candidates-none w (c ∷ cs) =
      let ih = candidates-none w cs in
      let test = eligible-Eligible w c in
      elim (Bool-cases (eligible w c)) [
        | inl e ↦ rw (e) ((λ h. absurd cc), (λ (at, rest). absurd (at (test.0 e))))
        | inr e ↦
            rw (e)
              ((λ h. ((λ x. let p = test.1 x in absurd cc), ih.0 h)), (λ (at, rest). ih.1 rest))
      ]

  pub candidates-All :
      (w : Wish) (cs : List (FederatedCluster F)) → All (λ c. Eligible w c) (candidates w cs)
  unfolding candidates
  candidates-All w [] = tt
  candidates-All w (c ∷ cs) = elim (Bool-cases (eligible w c)) [
    | inl e ↦ rw (e, candidates) ((eligible-Eligible w c).0 e, candidates-All w cs)
    | inr e ↦ rw (e, candidates) (candidates-All w cs)
  ]

  -- What holds of the candidates holds of the eligible clusters.
  All-candidates :
      (P : FederatedCluster F → Type 0) (w : Wish) (cs : List (FederatedCluster F))
      → All P (candidates w cs)
      → All (λ c. Eligible w c → P c) cs
  unfolding candidates
  All-candidates P w [] h = tt
  All-candidates P w (c ∷ cs) h = elim (Bool-cases (eligible w c)) [
    | inl e ↦
        let q : candidates w (c ∷ cs) ≡ c ∷ candidates w cs = rw (e, candidates) refl in
        let h' : P c × All P (candidates w cs) = subst (λ z. All P z) q h in
        ((λ x. h'.0), All-candidates P w cs h'.1)
    | inr e ↦
        let q : candidates w (c ∷ cs) ≡ candidates w cs = rw (e, candidates) refl in
        let h' : All P (candidates w cs) = subst (λ z. All P z) q h in
        ((λ x. let p = (eligible-Eligible w c).1 x in absurd cc), All-candidates P w cs h')
  ]

  abbrev pub Stored : FederatedCluster F → List (FederatedCluster F) → Type 0
  Stored c [] = ⊥
  Stored c (b ∷ bs) = (b ≡ c) ⊎ Stored c bs

  candidates-Stored :
      (P : FederatedCluster F → Type 0) (w : Wish) (cs : List (FederatedCluster F))
      → ((c : FederatedCluster F) → Stored c cs → P c)
      → All P (candidates w cs)
  unfolding candidates
  candidates-Stored P w [] h = tt
  candidates-Stored P w (c ∷ cs) h =
      let rest = candidates-Stored P w cs (λ b m. h b (inr m)) in
      elim (Bool-cases (eligible w c)) [
        | inl e ↦ rw (e, candidates) (h c (inl refl), rest)
        | inr e ↦ rw (e, candidates) rest
      ]

  IsOrder-before : (fl : Floats F) (w : Wish) → IsOrder (fl.less) → IsOrder (before fl w)
  unfolding before
  IsOrder-before fl w o = record {
    asym = λ a b. o.asym (fl.negate (score fl w a)) (fl.negate (score fl w b));
    trans = λ a b c.
        o.trans (fl.negate (score fl w a)) (fl.negate (score fl w b)) (fl.negate (score fl w c));
  }

  -- No cluster is chosen exactly when none of the registry is eligible: online, not draining, in the
  -- wished region, with enough free GPUs and the wished model. A cluster that is chosen is one of the
  -- registry, is eligible, and no eligible one comes before it by the negated score, where the
  -- comparison of floats is an order.
  pub find_best_cluster_exact :
      (fl : Floats F) (w : Wish) (d : Registry F)
      → IsOrder (fl.less)
      → ((find_best_cluster fl w d ≡ none) ↔ All (λ c. ¬ Eligible w c) (values d))
        × ((c : FederatedCluster F)
            → find_best_cluster fl w d ≡ some c
            → Stored c (values d)
              × Eligible w c
              × All
                  (λ b.
                    Eligible w b
                    → fl.less (fl.negate (score fl w b)) (fl.negate (score fl w c)) ≡ false)
                  (values d))
  unfolding find_best_cluster before sorted
  find_best_cluster_exact fl w d o =
      let cs = candidates w (values d) in
      let ordered = IsOrder-before fl w o in
      (
        (
          (λ h. (candidates-none w (values d)).0 (sorted-empty (before fl w) ordered cs h)),
          (λ h.
              let q : cs ≡ [] = (candidates-none w (values d)).1 h in
              rw (q, find_best_cluster) refl),
        ),
        (λ c h. (
          first-All (λ x. Stored x (values d)) (sorted (before fl w) cs) c
              (sorted-All (before fl w) (λ x. Stored x (values d)) cs
                (candidates-Stored (λ x. Stored x (values d)) w (values d) (λ x m. m)))
              h,
          first-All (λ x. Eligible w x) (sorted (before fl w) cs) c
              (sorted-All (before fl w) (λ x. Eligible w x) cs (candidates-All w (values d))) h,
          All-candidates (λ b. before fl w b c ≡ false) w (values d)
              (sorted-IsFirst (before fl w) ordered cs c h),
        )),
      )
