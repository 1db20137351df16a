-- ===== src/Federation/Workloads.antt =====
-- Where a workload goes once a cluster is chosen, when the scheduler takes the best known node.
use gpuopt.Base.{
  ℕ, zero, suc, ◌+◌, ◌-◌, ◌*◌, ◌/◌, ◌≤◌, ◌<◌, String, Bool, true, false, none, some, List, [], ◌∷◌,
  ◌≡◌, inl, inr, refl, sym, ap, subst, ◌∙◌, ◌==◌, string_eq, nat_eq, if◌then◌else◌, arith,
  Bool-cases, Option-cases, length, leb, ltb,
}
use gpuopt.Base.Dict.{Dict, lookup, lookup-insert_same, values}
use gpuopt.Base.Sorting.{first-All, sorted, sorted-All}
use gpuopt.Base.Floats.{Floats, max}
use gpuopt.Federation.{FederatedCluster, Registry}
use gpuopt.Federation.Scheduler.{
  Wish, before, candidates, find_best_cluster, Job, RlNode, eligible_actions, exploit, at, greatest,
  choose_action, Placement, placed, index_error, place_at, place_among, rl_schedule, pending,
  FederatedWorkload, Answer, index_raised, division_raised, zero_division, most, max_gpus,
  scheduled, cluster_nodes, assign, schedule_across_clusters,
}
use gpuopt.Federation.Choice.{Eligible, candidates-All}

abbrev range : ℕ → ℕ → List ℕ
range i zero = []
range i (suc n) = i ∷ range (i + 1) n

at-some : {A : Type 0} (xs : List A) (i : ℕ) → i < length xs → (a : A) × (at xs i ≡ some a)
unfolding at
at-some [] i h = absurd (omega arith)
at-some (x ∷ xs) zero h = (x, refl)
at-some (x ∷ xs) (suc i) h = at-some xs i (omega arith)

at-none : {A : Type 0} (xs : List A) (i : ℕ) → length xs ≤ i → at xs i ≡ none
unfolding at
at-none [] i h = refl
at-none (x ∷ xs) zero h = absurd (omega arith)
at-none (x ∷ xs) (suc i) h = at-none xs i (omega arith)

node_count :
    (total : ℕ)
    → (48 ≤ total → 5 < max 1 (total / 8))
      × (total < 48 → max 1 (total / 8) ≤ 5)
      × (0 < max 1 (total / 8))
node_count total = ground arith

module _ {F : Type 0} where
  -- Every node of the cluster is eligible, since each shows all its free GPUs.
  eligible_actions-range :
      (job : Job) (c : FederatedCluster F) (w : Wish) (memory i n : ℕ)
      → job.required_gpus ≤ c.free_gpus
      → eligible_actions job i (cluster_nodes c w memory i n) ≡ range i n
  unfolding eligible_actions cluster_nodes
  eligible_actions-range job c w memory i zero h = refl
  eligible_actions-range job c w memory i (suc n) h =
      let enough : leb job.required_gpus c.free_gpus ≡ true = ground (arith, h) in
      let roomy : ltb 0 (max 64 (memory * 2)) ≡ true = ground arith in
      rw (enough) (rw (roomy) (ap (λ l. i ∷ l) (eligible_actions-range job c w memory (i + 1) n h)))

  at-cluster_nodes :
      (c : FederatedCluster F) (w : Wish) (memory i n a : ℕ)
      → a < n
      → (node : RlNode) × (at (cluster_nodes c w memory i n) a ≡ some node)
        × (node.id ≡ (c.name, i + a))
  unfolding at cluster_nodes
  at-cluster_nodes c w memory i zero a h = absurd (omega arith)
  at-cluster_nodes c w memory i (suc n) zero h = (_, refl, ap (λ k. (c.name, k)) (omega arith))
  at-cluster_nodes c w memory i (suc n) (suc a) h =
      let (node, e, name) = at-cluster_nodes c w memory (i + 1) n a (omega arith) in
      (node, e, name ∙ ap (λ k. (c.name, k)) (omega arith))

  -- The best of a run of nodes whose values are all in the row, and of one that goes beyond it.
  greatest-range :
      (less : F → F → Bool) (row : List F) (i n b : ℕ) (q : F)
      → i + n ≤ length row
      → b < i
      → (a : ℕ) × (greatest less row (b, q) (range i n) ≡ some a) × (a < i + n)
  unfolding greatest
  greatest-range less row i zero b q fits low = (b, refl, omega arith)
  greatest-range less row i (suc n) b q fits low =
      let (p, e) = at-some row i (omega arith) in
      elim (Bool-cases (less q p)) [
        | inl better ↦
            let (a, is, lt) = greatest-range less row (i + 1) n i p (omega arith) (omega arith) in
            (a, rw (e, greatest) (rw (better) is), omega arith)
        | inr worse ↦
            let (a, is, lt) = greatest-range less row (i + 1) n b q (omega arith) (omega arith) in
            (a, rw (e, greatest) (rw (worse) is), omega arith)
      ]

  greatest-beyond :
      (less : F → F → Bool) (row : List F) (i n : ℕ) (best : ℕ × F)
      → i ≤ length row
      → length row < i + n
      → greatest less row best (range i n) ≡ none
  unfolding greatest
  greatest-beyond less row i zero best h over = absurd (omega arith)
  greatest-beyond less row i (suc n) (b, q) h over = elim (Option-cases (at row i)) [
    | inl gone ↦ rw (gone, greatest) refl
    | inr (p, e) ↦ elim (Bool-cases (ltb i (length row))) [
      | inl inside ↦
          rw (e, greatest)
            (greatest-beyond less row (i + 1) n (if less q p then (i, p) else (b, q))
              (ground (arith, inside)) (omega arith))
      | inr outside ↦ let gone = at-none row i (ground (arith, outside)) in absurd cc
    ]
  ]

  abbrev placed_by : (F → F → Bool) → List F → Job → FederatedCluster F → Wish → ℕ → ℕ → Placement
  placed_by less row job c w memory n =
      rl_schedule less row exploit job (cluster_nodes c w memory 0 n)

  -- Each node shows the GPUs of the whole cluster.
  most-cluster_nodes :
      (c : FederatedCluster F) (w : Wish) (memory i n : ℕ)
      → most c.total_gpus (cluster_nodes c w memory i n) ≡ c.total_gpus
  unfolding most cluster_nodes
  most-cluster_nodes c w memory i zero = refl
  most-cluster_nodes c w memory i (suc n) =
      let same : max c.total_gpus c.total_gpus ≡ c.total_gpus = ground arith in
      rw (same, most) (most-cluster_nodes c w memory (i + 1) n)

  rl_schedule-empty :
      (less : F → F → Bool) (row : List F) (job : Job) (c : FederatedCluster F) (w : Wish)
      (memory m : ℕ)
      → c.total_gpus ≡ 0
      → placed_by less row job c w memory (suc m) ≡ zero_division
  unfolding rl_schedule max_gpus cluster_nodes
  rl_schedule-empty less row job c w memory m none_at_all =
      let test : (most c.total_gpus (cluster_nodes c w memory 1 m) == 0) ≡ true =
        ap (λ k. k == 0) (most-cluster_nodes c w memory 1 m ∙ none_at_all) in
      rw (test) refl

  rl_schedule-range :
      (less : F → F → Bool) (row : List F) (job : Job) (c : FederatedCluster F) (w : Wish)
      (memory m : ℕ)
      → 0 < c.total_gpus
      → job.required_gpus ≤ c.free_gpus
      → placed_by less row job c w memory (suc m)
        ≡ place_at row
            (cluster_nodes c w memory 0 (suc m))
            (choose_action less row exploit (range 0 (suc m)))
  unfolding rl_schedule place_among max_gpus cluster_nodes
  rl_schedule-range less row job c w memory m some_gpus h =
      let test : (most c.total_gpus (cluster_nodes c w memory 1 m) == 0) ≡ false =
        ap (λ k. k == 0) (most-cluster_nodes c w memory 1 m) ∙ ground (arith, some_gpus) in
      rw (test) (rw (eligible_actions-range job c w memory 0 (suc m) h) refl)

  placed_within :
      (less : F → F → Bool) (row : List F) (job : Job) (c : FederatedCluster F) (w : Wish)
      (memory m : ℕ)
      → 0 < c.total_gpus
      → job.required_gpus ≤ c.free_gpus
      → suc m ≤ length row
      → (node : RlNode) × (i : ℕ) × (placed_by less row job c w memory (suc m) ≡ placed node)
        × (node.id ≡ (c.name, i))
        × (i < suc m)
  unfolding place_at choose_action
  placed_within less row job c w memory m gpus h fits =
      let (q, e) = at-some row 0 (omega arith) in
      let (a, is, lt) = greatest-range less row 1 m 0 q (omega arith) (omega arith) in
      let (p, e') = at-some row a (omega arith) in
      let (node, found, name) = at-cluster_nodes c w memory 0 (suc m) a (omega arith) in
      (
        node,
        a,
        rl_schedule-range less row job c w memory m gpus h
            ∙ rw (e, choose_action) (rw (is) (rw (found, place_at) (rw (e') refl))),
        name ∙ ap (λ k. (c.name, k)) (omega arith),
        omega arith,
      )

  placed_beyond :
      (less : F → F → Bool) (row : List F) (job : Job) (c : FederatedCluster F) (w : Wish)
      (memory m : ℕ)
      → 0 < c.total_gpus
      → job.required_gpus ≤ c.free_gpus
      → 0 < length row
      → length row < suc m
      → placed_by less row job c w memory (suc m) ≡ index_error
  unfolding place_at choose_action
  placed_beyond less row job c w memory m gpus h some_row over =
      let (q, e) = at-some row 0 some_row in
      rl_schedule-range less row job c w memory m gpus h
      ∙ rw (e, choose_action)
          (rw (greatest-beyond less row 1 m (0, q) (omega arith) (omega arith)) refl)

  chosen-Eligible :
      (fl : Floats F) (w : Wish) (d : Registry F) (c : FederatedCluster F)
      → find_best_cluster fl w d ≡ some c
      → Eligible w c
  unfolding find_best_cluster
  chosen-Eligible fl w d c h =
      first-All (λ x. Eligible w x) (sorted (before fl w) (candidates w (values d))) c
        (sorted-All (before fl w) (λ x. Eligible w x) (candidates w (values d))
          (candidates-All w (values d)))
        h

  -- The workload is stored as pending on a node of the cluster, and the answer names both.
  abbrev pub Assigned :
      String → FederatedCluster F → Answer × Dict String FederatedWorkload → Type 0
  Assigned fresh c (answer, workloads) =
      (i : ℕ) × (workload : FederatedWorkload) × (answer ≡ scheduled c.name (c.name, i) fresh)
      × (i < max 1 (c.total_gpus / 8))
      × (lookup fresh workloads ≡ some workload)
      × (workload.state ≡ pending)
      × (workload.assigned_cluster ≡ c.name)

  -- When a cluster is chosen and the best known node is taken, from a row of five values as the
  -- scheduler has by default: on a cluster of 48 GPUs or more an IndexError is raised and nothing is
  -- stored, on one whose total is given as 0 a ZeroDivisionError is raised and nothing is stored, and
  -- on any other the workload is stored as pending on a node of the cluster.
  pub schedule_across_clusters_exact :
      (fl : Floats F) (row : List F) (fresh name : String) (w : Wish) (memory : ℕ) (d : Registry F)
      (workloads : Dict String FederatedWorkload) (c : FederatedCluster F)
      → find_best_cluster fl w d ≡ some c
      → length row ≡ 5
      → let out = schedule_across_clusters fl row exploit fresh name w memory d workloads in
        (48 ≤ c.total_gpus → out ≡ (index_raised, workloads))
        × (c.total_gpus ≡ 0 → out ≡ (division_raised, workloads))
        × (0 < c.total_gpus → c.total_gpus < 48 → Assigned fresh c out)
  unfolding schedule_across_clusters assign
  schedule_across_clusters_exact fl row fresh name w memory d workloads c found five =
      let enough = (chosen-Eligible fl w d c found).3 in
      let job : Job = record {
        required_gpus = w.required_gpus;
        priority = w.priority;
        memory_gb = memory;
      } in
      let m = max 1 (c.total_gpus / 8) - 1 in
      let sizes = node_count c.total_gpus in
      let count : max 1 (c.total_gpus / 8) ≡ suc m = omega (arith, sizes.2) in
      let out : schedule_across_clusters fl row exploit fresh name w memory d workloads
          ≡ assign fresh name w memory c.name workloads
              (placed_by fl.less row job c w memory (suc m)) =
        rw (found, schedule_across_clusters)
          (ap
            (λ n.
              assign fresh name w memory c.name workloads (placed_by fl.less row job c w memory n))
            count) in
      (
        (λ large.
            let over : length row < suc m = omega (arith, sizes.0 large) in
            out
            ∙ ap (assign fresh name w memory c.name workloads) (
                placed_beyond fl.less row job c w memory m (omega (arith, large)) enough
                  (omega arith) over)),
        (λ no_gpus.
            out
            ∙ ap (assign fresh name w memory c.name workloads)
                (rl_schedule-empty fl.less row job c w memory m no_gpus)),
        (λ some_gpus small.
            let fits : suc m ≤ length row = omega (arith, sizes.1 small) in
            let (node, i, is, id, lt) =
              placed_within fl.less row job c w memory m some_gpus enough fits in
            subst (λ z. Assigned fresh c z)
              (sym (out ∙ ap (assign fresh name w memory c.name workloads) is))
              (
                i,
                _,
                ap (λ z. scheduled c.name z fresh) id,
                omega (arith, count),
                lookup-insert_same fresh _ workloads,
                refl,
                refl,
              )),
      )
