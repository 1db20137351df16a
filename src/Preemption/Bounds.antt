-- ===== src/Preemption/Bounds.antt =====
-- How many workloads a cycle preempts, and which.
use gpuopt.Base.{
  ℕ, zero, suc, ◌≤◌, ◌<◌, ◌+◌, Bool, true, false, ◌≡◌, ◌≢◌, ◌⊎◌, refl, sym, ap, ◌∙◌, subst, List,
  [], ◌∷◌, ◌++◌, length, All, leb, if◌then◌else◌, arith, Bool-cases, inl, inr,
}
use gpuopt.Preemption.{
  PreemptionPolicy, never, preempt_lower_priority, PriorityClass, batch, interactive, production,
  critical, priority_sort, Workload, PreemptionAction, PreemptionPolicyConfig, insert_workload,
  sort_workloads, collides, below, pairs, detect_collisions, preempt, preempt_pairs, cycle,
}

abbrev pub Member : Workload → List Workload → Type 0
Member w [] = ⊥
Member w (v ∷ vs) = (v ≡ w) ⊎ Member w vs

-- The action is on a listed workload that some listed workload outranks by the delta.
abbrev pub IsJustified : ℕ → List Workload → PreemptionAction → Type 0
IsJustified delta workloads act =
    (high : Workload) × (low : Workload) × Member high workloads
    × Member low workloads
    × (act.workload_name ≡ low.workload_name)
    × (act.namespace ≡ low.namespace)
    × (act.priority ≡ low.priority)
    × (priority_sort low.priority + delta ≤ priority_sort high.priority)

-- A pair of listed workloads that collide.
abbrev IsPair : ℕ → List Workload → Workload × Workload → Type 0
IsPair delta ws (high, low) =
    Member high ws
    × Member low ws
    × (priority_sort low.priority + delta ≤ priority_sort high.priority)

module _ {A : Type 0} (P : A → Type 0) where
  All-append : (xs ys : List A) → All P xs → All P ys → All P (xs ++ ys)
  All-append [] ys a b = b
  All-append (x ∷ xs) ys (at, rest) b = (at, All-append xs ys rest b)

All-weaken :
    {A : Type 0} (P Q : A → Type 0) (xs : List A) → ((x : A) → P x → Q x) → All P xs → All Q xs
All-weaken P Q [] f a = tt
All-weaken P Q (x ∷ xs) f (at, rest) = (f x at, All-weaken P Q xs f rest)

below-IsPair :
    (delta : ℕ) (ws rest : List Workload) (high : Workload)
    → Member high ws
    → ((w : Workload) → Member w rest → Member w ws)
    → All (IsPair delta ws) (below delta high rest)
unfolding below
below-IsPair delta ws [] high m sub = tt
below-IsPair delta ws (low ∷ rest) high m sub =
    let more = below-IsPair delta ws rest high m (λ w n. sub w (inr n)) in
    elim (Bool-cases (collides delta high low)) [
      | inl hit ↦ rw (hit, below) ((m, sub low (inl refl), ground arith), more)
      | inr miss ↦ rw (miss, below) more
    ]

pairs-IsPair :
    (delta : ℕ) (ws rest : List Workload)
    → ((w : Workload) → Member w rest → Member w ws)
    → All (IsPair delta ws) (pairs delta rest)
unfolding pairs
pairs-IsPair delta ws [] sub = tt
pairs-IsPair delta ws (high ∷ rest) sub =
    All-append (IsPair delta ws) (below delta high rest) (pairs delta rest)
      (below-IsPair delta ws rest high (sub high (inl refl)) (λ w n. sub w (inr n)))
      (pairs-IsPair delta ws rest (λ w n. sub w (inr n)))

insert_if :
    (w v : Workload) (vs rest : List Workload) (x : Workload) (b : Bool)
    → (Member x rest → (w ≡ x) ⊎ Member x vs)
    → Member x (if b then w ∷ v ∷ vs else v ∷ rest)
    → (w ≡ x) ⊎ Member x (v ∷ vs)
insert_if w v vs rest x true ih m = m
insert_if w v vs rest x false ih (inl e) = inr (inl e)
insert_if w v vs rest x false ih (inr n) = elim (ih n) [ inl e ↦ inl e | inr k ↦ inr (inr k) ]

insert_workload-Member :
    (w : Workload) (vs : List Workload) (x : Workload)
    → Member x (insert_workload w vs)
    → (w ≡ x) ⊎ Member x vs
unfolding insert_workload
insert_workload-Member w [] x (inl e) = inl e
insert_workload-Member w [] x (inr n) = absurd n
insert_workload-Member w (v ∷ vs) x m =
    insert_if w v vs (insert_workload w vs) x
      (leb (priority_sort v.priority) (priority_sort w.priority)) (insert_workload-Member w vs x) m

sort_workloads-Member :
    (ws : List Workload) (x : Workload) → Member x (sort_workloads ws) → Member x ws
unfolding sort_workloads
sort_workloads-Member [] x m = m
sort_workloads-Member (w ∷ ws) x m = elim (insert_workload-Member w (sort_workloads ws) x m) [
  | inl e ↦ inl e
  | inr n ↦ inr (sort_workloads-Member ws x n)
]

detect_collisions-IsPair :
    (delta : ℕ) (ws : List Workload) → All (IsPair delta ws) (detect_collisions delta ws)
unfolding detect_collisions
detect_collisions-IsPair delta ws =
    pairs-IsPair delta ws (sort_workloads ws) (sort_workloads-Member ws)

All-if :
    {A : Type 0} (P : A → Type 0) (b : Bool) (xs : List A) → All P xs → All P (if b then [] else xs)
All-if P true xs a = tt
All-if P false xs a = a

preempt_pairs-IsJustified :
    (delta : ℕ) (ws : List Workload) (evicts : Workload → Bool) (limit n : ℕ)
    (ps : List (Workload × Workload))
    → All (IsPair delta ws) ps
    → All (IsJustified delta ws) (preempt_pairs evicts limit n ps)
unfolding preempt_pairs preempt
preempt_pairs-IsJustified delta ws evicts limit n [] a = tt
preempt_pairs-IsJustified delta ws evicts limit n ((high, low) ∷ ps) ((mh, ml, gap), a) = (
  (high, low, mh, ml, refl, refl, refl, gap),
  All-if (IsJustified delta ws) (leb limit (suc n)) (preempt_pairs evicts limit (suc n) ps)
      (preempt_pairs-IsJustified delta ws evicts limit (suc n) ps a),
)

-- Every action of a cycle is on a discovered workload that another discovered one outranks by at
-- least the delta.
pub cycle-IsJustified :
    (config : PreemptionPolicyConfig) (evicts : Workload → Bool) (ws : List Workload)
    (history : List PreemptionAction)
    → All (IsJustified config.min_priority_delta ws) (cycle config evicts ws history).0
unfolding cycle
cycle-IsJustified config evicts ws history = by_policy config.policy refl
  where
    by_policy :
        (p : PreemptionPolicy)
        → config.policy ≡ p
        → All (IsJustified config.min_priority_delta ws) (cycle config evicts ws history).0
    by_policy never e = rw (e, cycle) tt
    by_policy preempt_lower_priority e =
        rw (e, cycle)
          (preempt_pairs-IsJustified config.min_priority_delta ws evicts
            config.max_preemptions_per_cycle 0 (detect_collisions config.min_priority_delta ws)
            (detect_collisions-IsPair config.min_priority_delta ws))

priority_sort_le : (p : PriorityClass) → priority_sort p ≤ 1000
priority_sort_le batch = omega arith
priority_sort_le interactive = omega arith
priority_sort_le production = omega arith
priority_sort_le critical = omega arith

-- With a positive delta no cycle preempts a critical workload.
pub critical_never_preempted :
    (config : PreemptionPolicyConfig) (evicts : Workload → Bool) (ws : List Workload)
    (history : List PreemptionAction)
    → 1 ≤ config.min_priority_delta
    → All (λ (act : PreemptionAction). act.priority ≢ critical) (cycle config evicts ws history).0
critical_never_preempted config evicts ws history positive =
    All-weaken (IsJustified config.min_priority_delta ws)
      (λ (act : PreemptionAction). act.priority ≢ critical) (cycle config evicts ws history).0
      (λ act why. not_critical act why) (cycle-IsJustified config evicts ws history)
  where
    not_critical :
        (act : PreemptionAction)
        → IsJustified config.min_priority_delta ws act
        → act.priority ≢ critical
    not_critical act (high, low, mh, ml, n, s, p, gap) e =
        let top : low.priority ≡ critical = sym p ∙ e in
        let gap' =
          subst (λ z. priority_sort z + config.min_priority_delta ≤ priority_sort high.priority) top
            gap in
        omega (arith, priority_sort_le high.priority)

-- The limit, which one action precedes even when it is 0.
abbrev pub cap : ℕ → ℕ
cap zero = 1
cap (suc n) = suc n

preempt_pairs-bounded :
    (evicts : Workload → Bool) (limit n : ℕ) (ps : List (Workload × Workload))
    → n < cap limit
    → length (preempt_pairs evicts limit n ps) + n ≤ cap limit
unfolding preempt_pairs
preempt_pairs-bounded evicts limit n [] h = omega arith
preempt_pairs-bounded evicts limit n ((high, low) ∷ ps) h = elim (Bool-cases (leb limit (suc n))) [
  | inl full ↦ rw (full, preempt_pairs) (omega arith)
  | inr room ↦
      let more = preempt_pairs-bounded evicts limit (suc n) ps (room_left limit (ground arith)) in
      rw (room, preempt_pairs) (omega arith)
]
  where
    room_left : (m : ℕ) → suc n < m → suc n < cap m
    room_left zero k = absurd (omega arith)
    room_left (suc m) k = k

-- A cycle makes at most as many actions as its limit, or one when the limit is 0, and appends them
-- to the history.
pub cycle_bounded :
    (config : PreemptionPolicyConfig) (evicts : Workload → Bool) (ws : List Workload)
    (history : List PreemptionAction)
    → (length (cycle config evicts ws history).0 ≤ cap config.max_preemptions_per_cycle)
      × ((cycle config evicts ws history).1 ≡ history ++ (cycle config evicts ws history).0)
unfolding cycle
cycle_bounded config evicts ws history = by_policy config.policy refl
  where
    some_room : (m : ℕ) → 0 < cap m
    some_room zero = omega arith
    some_room (suc m) = omega arith

    right_unit : (h : List PreemptionAction) → h ≡ h ++ []
    right_unit [] = refl
    right_unit (a ∷ h) = ap (λ z. a ∷ z) (right_unit h)

    by_policy :
        (p : PreemptionPolicy)
        → config.policy ≡ p
        → (length (cycle config evicts ws history).0 ≤ cap config.max_preemptions_per_cycle)
          × ((cycle config evicts ws history).1 ≡ history ++ (cycle config evicts ws history).0)
    by_policy never e = rw (e, cycle) (omega arith, right_unit history)
    by_policy preempt_lower_priority e =
        let bound =
          preempt_pairs-bounded evicts config.max_preemptions_per_cycle 0
            (detect_collisions config.min_priority_delta ws)
            (some_room config.max_preemptions_per_cycle) in
        rw (e, cycle) (omega arith, refl)
