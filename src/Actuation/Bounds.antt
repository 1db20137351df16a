-- ===== src/Actuation/Bounds.antt =====
-- What applying a recommendation does to the nodes of a twin.
use native.Mathlib.Nat.{zero-div, div-one, div-mul-le_self, le-div_iff_mul-le, mul_left_comm}
use gpuopt.Base.Int.{ℤ, pos, negsuc, pos_part, neg_part}
use gpuopt.Base.{
  ℕ, zero, suc, ◌<◌, sym, ap, ◌∙◌, ◌*◌, ◌/◌, ◌≤◌, String, Bool, true, false, Option, none, some, [],
  ◌∷◌, ◌≡◌, refl, subst, if◌then◌else◌, arith, Option-cases, inl, inr,
}
use gpuopt.Base.Dict.{Dict}
use gpuopt.Actuation.{Quantity, absent, number, decimal, malformed, TwinNode, Recommendation}
use gpuopt.Actuation.Twin.{
  Applied, power_of_ten, minus, over, nine_times, one_less, reduced_memory, fewer_pods, with_memory,
  with_pods, replace_first, reduce_first, remove_pods, reported, mentions, apply_rec_to_twin,
}

-- The whole part of a value, above 0 and below 0: an absent value is read as 0.
abbrev pub above_zero : Quantity → ℕ
above_zero absent = 0
above_zero (number z) = pos_part z
above_zero (decimal z k) = pos_part z / power_of_ten (suc k)
above_zero malformed = 0

abbrev pub below_zero : Quantity → ℕ
below_zero absent = 0
below_zero (number z) = neg_part z
below_zero (decimal z k) = neg_part z / power_of_ten (suc k)
below_zero malformed = 0

-- The second value is the first one or nearer to 0, and not on the other side of it.
abbrev pub Nearer : Quantity → Quantity → Type 0
Nearer q q' = (above_zero q' ≤ above_zero q) × (below_zero q' ≤ below_zero q)

Nearer-same : (q : Quantity) → Nearer q q
Nearer-same q = (omega arith, omega arith)

minus_parts : (n : ℕ) → (pos_part (minus n) ≡ 0) × (neg_part (minus n) ≡ n)
minus_parts zero = (refl, refl)
minus_parts (suc n) = (refl, refl)

over_parts :
    (z : ℤ) (n : ℕ)
    → (pos_part (over z n) ≡ pos_part z / n) × (neg_part (over z n) ≡ neg_part z / n)
over_parts (pos m) n = (refl, sym (zero-div n))
over_parts (negsuc m) n =
    let parts = minus_parts (suc m / n) in (parts.0 ∙ sym (zero-div n), parts.1)

nine_parts :
    (z : ℤ)
    → (pos_part (nine_times z) ≡ pos_part z * 9) × (neg_part (nine_times z) ≡ neg_part z * 9)
nine_parts (pos m) = (refl, refl)
nine_parts (negsuc m) = minus_parts (suc m * 9)

power_of_ten-pos : (k : ℕ) → 0 < power_of_ten k
power_of_ten-pos zero = omega arith
power_of_ten-pos (suc k) = omega (arith, power_of_ten-pos k)

-- Nine tenths of a number over n are at most the number over n.
nine_tenths_le : (m n : ℕ) → 0 < n → m * 9 / (10 * n) ≤ m / n
nine_tenths_le m n h =
    let q = m * 9 / (10 * n) in
    let below : q * (10 * n) ≤ m * 9 = div-mul-le_self (m * 9) (10 * n) in
    let same : q * (10 * n) ≡ 10 * (q * n) = mul_left_comm q 10 n in
    (le-div_iff_mul-le h).1 (omega (arith, below, same))

reduced_le :
    (z : ℤ) (n : ℕ)
    → 0 < n
    → (pos_part (over (nine_times z) (10 * n)) ≤ pos_part z / n)
      × (neg_part (over (nine_times z) (10 * n)) ≤ neg_part z / n)
reduced_le z n h =
    let parts = over_parts (nine_times z) (10 * n) in
    let nine = nine_parts z in
    (
      subst (λ k. k ≤ pos_part z / n) (sym (parts.0 ∙ ap (λ k. k / (10 * n)) (nine.0)))
          (nine_tenths_le (pos_part z) n h),
      subst (λ k. k ≤ neg_part z / n) (sym (parts.1 ∙ ap (λ k. k / (10 * n)) (nine.1)))
          (nine_tenths_le (neg_part z) n h),
    )

-- The second nodes are the first ones, in the same order, with memory and pods nearer
-- to 0 or as they were.
abbrev pub Shrunk : Dict String TwinNode → Dict String TwinNode → Type 0
Shrunk [] [] = Unit
Shrunk [] (q ∷ e) = ⊥
Shrunk (p ∷ d) [] = ⊥
Shrunk ((k, m) ∷ d) ((l, n) ∷ e) =
    (k ≡ l)
    × (m.name ≡ n.name)
    × Nearer m.allocatable_gpu_memory n.allocatable_gpu_memory
    × Nearer m.pod_count n.pod_count
    × Shrunk d e

Shrunk-same : (d : Dict String TwinNode) → Shrunk d d
Shrunk-same [] = tt
Shrunk-same ((k, n) ∷ d) =
    (refl, refl, Nearer-same n.allocatable_gpu_memory, Nearer-same n.pod_count, Shrunk-same d)

reduced_memory-Nearer : (q q' : Quantity) → reduced_memory q ≡ some q' → Nearer q q'
unfolding reduced_memory
reduced_memory-Nearer absent q' h =
    let e : number (pos 0) ≡ q' = cc in subst (Nearer absent) e (omega arith, omega arith)
reduced_memory-Nearer (number z) q' h =
    let e : number (over (nine_times z) 10) ≡ q' = cc in
    let (up, down) = reduced_le z 1 (omega arith) in
    subst (Nearer (number z)) e
      (omega (arith, up, div-one (pos_part z)), omega (arith, down, div-one (neg_part z)))
reduced_memory-Nearer (decimal z k) q' h =
    let e : number (over (nine_times z) (power_of_ten (suc (suc k)))) ≡ q' = cc in
    subst (Nearer (decimal z k)) e (reduced_le z (power_of_ten (suc k)) (power_of_ten-pos (suc k)))
reduced_memory-Nearer malformed q' h = absurd cc

one_less_parts :
    (z : ℤ) → (pos_part (one_less z) ≤ pos_part z) × (neg_part (one_less z) ≤ neg_part z)
one_less_parts (pos n) = (omega arith, omega arith)
one_less_parts (negsuc n) = (omega arith, omega arith)

fewer_pods-Nearer : (q q' : Quantity) → fewer_pods q ≡ some q' → Nearer q q'
unfolding fewer_pods
fewer_pods-Nearer absent q' h =
    let e : number (pos 0) ≡ q' = cc in subst (Nearer absent) e (omega arith, omega arith)
fewer_pods-Nearer (number z) q' h =
    let e : number (one_less z) ≡ q' = cc in subst (Nearer (number z)) e (one_less_parts z)
fewer_pods-Nearer (decimal z k) q' h = absurd cc
fewer_pods-Nearer malformed q' h = absurd cc

reduce_first-Shrunk : (d d' : Dict String TwinNode) → reduce_first d ≡ some d' → Shrunk d d'
unfolding reduce_first replace_first with_memory
reduce_first-Shrunk [] d' h = let e : [] ≡ d' = cc in subst (λ z. Shrunk [] z) e tt
reduce_first-Shrunk ((k, n) ∷ d) d' h =
    elim (Option-cases (reduced_memory n.allocatable_gpu_memory)) [
      | inl bad ↦
          let is : reduce_first ((k, n) ∷ d) ≡ none = rw (bad, reduce_first) refl in absurd cc
      | inr (q, good) ↦
          let n' : TwinNode = record {
            name = n.name;
            allocatable_gpu_memory = q;
            pod_count = n.pod_count;
          } in
          let is : reduce_first ((k, n) ∷ d) ≡ some ((k, n') ∷ d) = rw (good, reduce_first) refl in
          let e : (k, n') ∷ d ≡ d' = cc in
          subst (λ z. Shrunk ((k, n) ∷ d) z) e
            (
              refl,
              refl,
              reduced_memory-Nearer n.allocatable_gpu_memory q good,
              Nearer-same n.pod_count,
              Shrunk-same d,
            )
    ]

remove_pods-Shrunk : (d d' : Dict String TwinNode) → remove_pods d ≡ some d' → Shrunk d d'
unfolding remove_pods replace_first with_pods
remove_pods-Shrunk [] d' h = let e : [] ≡ d' = cc in subst (λ z. Shrunk [] z) e tt
remove_pods-Shrunk ((k, n) ∷ d) d' h =
    let ih = remove_pods-Shrunk d in
    elim (Option-cases (remove_pods d)) [
      | inl bad ↦ let is : remove_pods ((k, n) ∷ d) ≡ none = rw (bad, remove_pods) refl in absurd cc
      | inr (rest, down) ↦ elim (Option-cases (fewer_pods n.pod_count)) [
        | inl bad ↦
            let is : remove_pods ((k, n) ∷ d) ≡ none = rw (down, remove_pods) (rw (bad) refl) in
            absurd cc
        | inr (q, good) ↦
            let n' : TwinNode = record {
              name = n.name;
              allocatable_gpu_memory = n.allocatable_gpu_memory;
              pod_count = q;
            } in
            let is : remove_pods ((k, n) ∷ d) ≡ some ((k, n') ∷ rest) =
              rw (down, remove_pods) (rw (good) refl) in
            let e : (k, n') ∷ rest ≡ d' = cc in
            subst (λ z. Shrunk ((k, n) ∷ d) z) e
              (
                refl,
                refl,
                Nearer-same n.allocatable_gpu_memory,
                fewer_pods-Nearer n.pod_count q good,
                ih rest down,
              )
      ]
    ]

reported-Shrunk :
    (d : Dict String TwinNode) (a : Applied) (o : Option (Dict String TwinNode)) (b : Applied)
    (d' : Dict String TwinNode)
    → ((e : Dict String TwinNode) → o ≡ some e → Shrunk d e)
    → reported a o ≡ some (b, d')
    → Shrunk d d'
unfolding reported
reported-Shrunk d a none b d' small h = absurd cc
reported-Shrunk d a (some e) b d' small h = small d' (cc)

some-Shrunk : (d e : Dict String TwinNode) → some d ≡ some e → Shrunk d e
some-Shrunk d e h = let q : d ≡ e = cc in subst (λ z. Shrunk d z) q (Shrunk-same d)

either_branch :
    {A : Type 0} (b : Bool) (x y z : A) (P : Type 0)
    → (x ≡ z → P)
    → (y ≡ z → P)
    → (if b then x else y) ≡ z
    → P
either_branch true x y z P yes_case no_case h = yes_case h
either_branch false x y z P yes_case no_case h = no_case h

-- Applying a recommendation adds, removes and renames no node of the twin and keeps their order. It
-- moves neither the GPU memory nor the pod count of a node away from 0, by their whole parts: a
-- value of 0 or more does not grow and stays 0 or more, and a negative value does not fall and stays
-- 0 or less.
pub apply_rec_shrinks :
    (rec : Recommendation) (node_map node_map' : Dict String TwinNode) (a : Applied)
    → apply_rec_to_twin rec node_map ≡ some (a, node_map')
    → Shrunk node_map node_map'
unfolding apply_rec_to_twin
apply_rec_shrinks rec d d' a =
    let same : (e : Dict String TwinNode) → some d ≡ some e → Shrunk d e =
      λ e h. some-Shrunk d e h in
    either_branch (mentions "gpu" rec) _ _ (some (a, d')) (Shrunk d d')
      (reported-Shrunk d _ (reduce_first d) a d' (reduce_first-Shrunk d))
      (either_branch (mentions "node" rec) _ _ (some (a, d')) (Shrunk d d')
        (reported-Shrunk d _ (some d) a d' same)
        (either_branch (mentions "pod" rec) _ _ (some (a, d')) (Shrunk d d')
          (reported-Shrunk d _ (remove_pods d) a d' (remove_pods-Shrunk d))
          (reported-Shrunk d _ (some d) a d' same)))
