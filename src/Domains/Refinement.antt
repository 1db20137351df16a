-- ===== src/Domains/Refinement.antt =====
-- A bounded store holds the newest entries of what was added to it.
use gpuopt.Base.{
  ℕ, zero, suc, true, false, ◌+◌, ◌-◌, ◌≤◌, ◌≡◌, refl, sym, ap, ◌∙◌, List, [], ◌∷◌, ◌++◌, length,
  drop, ltb, if◌then◌else◌, arith, Bool-cases, inl, inr, length-append, length-drop,
}
use gpuopt.Domains.{RingStore, add, clear}

-- What is asked of a store.
pub data StoreOp (T : Type 0) : Type 0 where
  add_item : T → StoreOp T
  clear_all : StoreOp T

module _ {T : Type 0} where
  abbrev pub run : List (StoreOp T) → RingStore T → RingStore T
  run [] s = s
  run (add_item x ∷ ops) s = run ops (add x s)
  run (clear_all ∷ ops) s = run ops (clear s)

  -- The unbounded store: everything that was added since the last clearing.
  abbrev pub history : List (StoreOp T) → List T → List T
  history [] h = h
  history (add_item x ∷ ops) h = history ops (h ++ (x ∷ []))
  history (clear_all ∷ ops) h = history ops []

  -- The last `n` elements, none for 0.
  abbrev pub newest : ℕ → List T → List T
  newest n xs = drop (length xs - n) xs

  -- The store stands for the history.
  abbrev pub Keeps : ℕ → RingStore T → List T → Type 0
  Keeps n s h = (s.max ≡ n) × (s.entries ≡ newest n h)

  pub drop-append : (n : ℕ) (xs ys : List T) → n ≤ length xs → drop n (xs ++ ys) ≡ drop n xs ++ ys
  drop-append zero xs ys h = refl
  drop-append (suc n) [] ys h = absurd (omega arith)
  drop-append (suc n) (x ∷ xs) ys h = drop-append n xs ys (omega arith)

  drop-drop : (n : ℕ) (xs : List T) → drop 1 (drop n xs) ≡ drop (suc n) xs
  drop-drop zero xs = refl
  drop-drop (suc n) [] = refl
  drop-drop (suc n) (x ∷ xs) = drop-drop n xs

  add-newest :
      (n : ℕ) (x : T) (h : List T)
      → (let appended = newest n h ++ (x ∷ []) in
          if ltb n (length appended) then drop 1 appended else appended)
        ≡ newest n (h ++ (x ∷ []))
  add-newest n x h =
      let end : List T = x ∷ [] in
      let size : length (h ++ end) ≡ length h + 1 = length-append h end in
      let kept : length (newest n h ++ end) ≡ (length h - (length h - n)) + 1 =
        omega (arith, length-append (newest n h) end, length-drop (length h - n) h) in
      elim (Bool-cases (ltb (length h) n)) [
        | inl short ↦
            let same : length h - n ≡ 0 = ground (arith, short) in
            let same' : length (h ++ end) - n ≡ 0 = ground (arith, short, size) in
            let fits : ltb n (length (newest n h ++ end)) ≡ false = ground (arith, short, kept) in
            rw (fits) (ap (λ k. drop k h ++ end) same ∙ sym (ap (λ k. drop k (h ++ end)) same'))
        | inr long ↦
            let k = length h - n in
            let next : suc k ≡ length (h ++ end) - n = ground (arith, long, size) in
            let over : ltb n (length (newest n h ++ end)) ≡ true = ground (arith, long, kept) in
            rw (over) (
              ap (λ l. drop 1 l) (sym (drop-append k h end (omega arith)))
              ∙ drop-drop k (h ++ end)
              ∙ ap (λ j. drop j (h ++ end)) next)
      ]

  newest_none : (n : ℕ) → ◌≡◌ {A = List T} (newest n []) []
  newest_none n = let z : 0 - n ≡ 0 = omega arith in rw (z) refl

  add-Keeps :
      (n : ℕ) (x : T) (s : RingStore T) (h : List T)
      → Keeps n s h
      → Keeps n (add x s) (h ++ (x ∷ []))
  unfolding add
  add-Keeps n x s h (m, e) = (m, rw (m) (rw (e) (add-newest n x h)))

  clear-Keeps : (n : ℕ) (s : RingStore T) (h : List T) → Keeps n s h → Keeps n (clear s) []
  unfolding clear
  clear-Keeps n s h (m, e) = (m, sym (newest_none n))

  run-Keeps :
      (n : ℕ) (ops : List (StoreOp T)) (s : RingStore T) (h : List T)
      → Keeps n s h
      → Keeps n (run ops s) (history ops h)
  run-Keeps n [] s h k = k
  run-Keeps n (add_item x ∷ ops) s h k =
      run-Keeps n ops (add x s) (h ++ (x ∷ [])) (add-Keeps n x s h k)
  run-Keeps n (clear_all ∷ ops) s h k = run-Keeps n ops (clear s) [] (clear-Keeps n s h k)

  -- After any additions and clearings a new store holds the newest of the items added since the
  -- last clearing, as many as its bound allows and in their order, and so never more than its bound.
  pub store_refines :
      (n : ℕ) (ops : List (StoreOp T))
      → let s = run ops (record { entries = []; max = n }) in
        (s.entries ≡ newest n (history ops [])) × (length s.entries ≤ n)
  store_refines n ops =
      let k = run-Keeps n ops (record { entries = []; max = n }) [] (refl, sym (newest_none n)) in
      (k.1, rw (k.1) (omega (arith, length-drop (length (history ops []) - n) (history ops []))))
