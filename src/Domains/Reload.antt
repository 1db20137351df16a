-- ===== src/Domains/Reload.antt =====
-- What a persistent store holds after `reload`.
use gpuopt.Base.{
  ℕ, zero, suc, ◌-◌, ◌≤◌, ◌<◌, String, true, ◌≡◌, refl, sym, ap, ◌∙◌, List, [], ◌∷◌, ◌++◌, map,
  length, take, drop, ltb, ◌==◌, string_eq, arith, Bool-cases, inl, inr, length-append, beq_refl,
}
use gpuopt.Domains.{
  PersistentStore, EventRow, Loaded, loaded, add_persistent, persist, newest_first, load_rows, cut,
  reload, add,
}
use gpuopt.Domains.Refinement.{drop-append}

append_none : {A : Type 0} (xs : List A) → xs ++ [] ≡ xs
append_none [] = refl
append_none (x ∷ xs) = ap (λ l. x ∷ l) (append_none xs)

take-all : {A : Type 0} (n : ℕ) (xs : List A) → length xs ≤ n → take n xs ≡ xs
take-all zero [] h = refl
take-all zero (x ∷ xs) h = absurd (omega arith)
take-all (suc n) [] h = refl
take-all (suc n) (x ∷ xs) h = ap (λ l. x ∷ l) (take-all n xs (omega arith))

newest_first-snoc :
    (domain payload : String) (rows : List EventRow)
    → newest_first domain (rows ++ (record { domain = domain; payload = payload } ∷ []))
      ≡ payload ∷ newest_first domain rows
unfolding newest_first
newest_first-snoc domain payload [] = rw (beq_refl domain) refl
newest_first-snoc domain payload (row ∷ rows) = elim (Bool-cases (row.domain == domain)) [
  | inl e ↦ rw (e, newest_first-snoc domain payload rows) refl
  | inr e ↦ rw (e, newest_first-snoc domain payload rows) refl
]

module _ {T : Type 0} where
  abbrev pub reverse : List T → List T
  reverse [] = []
  reverse (x ∷ xs) = reverse xs ++ (x ∷ [])

  -- Items added one after the other, each of which the database stores.
  abbrev pub add_all :
      (T → String) → List T → PersistentStore T → List EventRow → PersistentStore T × List EventRow
  add_all dump [] s rows = (s, rows)
  add_all dump (x ∷ xs) s rows =
      let (s', rows') = add_persistent dump true x s rows in add_all dump xs s' rows'

  append_assoc : (xs ys zs : List T) → (xs ++ ys) ++ zs ≡ xs ++ (ys ++ zs)
  append_assoc [] ys zs = refl
  append_assoc (x ∷ xs) ys zs = ap (λ l. x ∷ l) (append_assoc xs ys zs)

  length-reverse : (xs : List T) → length (reverse xs) ≡ length xs
  length-reverse [] = refl
  length-reverse (x ∷ xs) = omega (arith, length-append (reverse xs) (x ∷ []), length-reverse xs)

  length-map : (f : T → String) (ys : List T) → length (map f ys) ≡ length ys
  length-map f [] = refl
  length-map f (y ∷ ys) = omega (arith, length-map f ys)

  drop-all : (n : ℕ) (xs : List T) → length xs ≤ n → drop n xs ≡ []
  drop-all zero [] h = refl
  drop-all zero (x ∷ xs) h = absurd (omega arith)
  drop-all (suc n) [] h = refl
  drop-all (suc n) (x ∷ xs) h = drop-all n xs (omega arith)

  -- The end of the reversed list is the reversed start of the list.
  drop-reverse : (n : ℕ) (xs : List T) → drop (length xs - n) (reverse xs) ≡ reverse (take n xs)
  drop-reverse zero xs = drop-all (length xs - 0) (reverse xs) (omega (arith, length-reverse xs))
  drop-reverse (suc n) [] = let z : 0 - suc n ≡ 0 = omega arith in rw (z) refl
  drop-reverse (suc n) (x ∷ xs) =
      let back : drop (length xs - n) (reverse xs ++ (x ∷ []))
          ≡ drop (length xs - n) (reverse xs) ++ (x ∷ []) =
        drop-append (length xs - n) (reverse xs) (x ∷ []) (omega (arith, length-reverse xs)) in
      let step : suc (length xs) - suc n ≡ length xs - n = omega arith in
      rw (step) (back ∙ ap (λ l. l ++ (x ∷ [])) (drop-reverse n xs))

  load_rows-all :
      (dump : T → String) (read : String → Loaded T)
      → ((x : T) → read (dump x) ≡ loaded x)
      → (got xs : List T) → load_rows read got (map dump xs) ≡ (got ++ xs, true)
  unfolding load_rows
  load_rows-all dump read trip got [] = ap (λ l. (l, true)) (sym (append_none got))
  load_rows-all dump read trip got (x ∷ xs) = rw (trip x) (
      load_rows-all dump read trip (got ++ (x ∷ [])) xs
      ∙ ap (λ l. (l, true)) (append_assoc got (x ∷ []) xs))

  map-snoc :
      (f : T → String) (xs : List T) (x : T) (ps : List String)
      → map f (xs ++ (x ∷ [])) ++ ps ≡ map f xs ++ (f x ∷ ps)
  map-snoc f [] x ps = refl
  map-snoc f (y ∷ ys) x ps = ap (λ l. f y ∷ l) (map-snoc f ys x ps)

  -- A store that writes to the table, and what its additions leave as it was.
  abbrev pub Writes : PersistentStore T → Type 0
  Writes s = (s.persistence_enabled ≡ true) × (s.connected ≡ true)

  stored_rows :
      (dump : T → String) (xs : List T) (s : PersistentStore T) (rows : List EventRow)
      → Writes s
      → let (s', rows') = add_all dump xs s rows in
        (newest_first s'.domain rows' ≡ map dump (reverse xs) ++ newest_first s.domain rows)
        × Writes s'
        × (s'.ring.max ≡ s.ring.max)
        × (s'.domain ≡ s.domain)
  unfolding add_persistent persist add
  stored_rows dump [] s rows w = (refl, w, refl, refl)
  stored_rows dump (x ∷ xs) s rows w =
      let (s', rows') = add_persistent dump true x s rows in
      let (first, w', m, d) = stored_rows dump xs s' rows' w in
      let new : newest_first s.domain rows' ≡ dump x ∷ newest_first s.domain rows =
        rw (w.0, w.1) (newest_first-snoc s.domain (dump x) rows) in
      (
        first
            ∙ ap (λ l. map dump (reverse xs) ++ l) new
            ∙ sym (map-snoc dump (reverse xs) x (newest_first s.domain rows)),
        w',
        m,
        d,
      )

  cut-reverse : (n : ℕ) (xs : List T) → 0 < n → cut n (reverse xs, true) ≡ reverse (take n xs)
  unfolding cut
  cut-reverse zero xs h = absurd (omega arith)
  cut-reverse (suc n) xs h =
      let size = length-reverse xs in
      elim (Bool-cases (ltb (suc n) (length (reverse xs)))) [
        | inl over ↦
            rw (over) (ap (λ k. drop (k - suc n) (reverse xs)) size ∙ drop-reverse (suc n) xs)
        | inr fits ↦ rw (fits) (ap reverse (sym (take-all (suc n) xs (ground (arith, fits, size)))))
      ]

  -- Items are added to a store whose bound is above 0 and that writes to the database, where its
  -- domain has no rows yet, and the database stores each of them. A payload reads back as the item it was written for, and the
  -- limit of the reload covers all of them. Then the store holds after the reload the oldest of the
  -- items, as many as its bound allows, the latest of these first.
  pub reload_reverses :
      (dump : T → String) (read : String → String → Loaded T) (limit : ℕ) (xs : List T)
      (s : PersistentStore T) (rows : List EventRow)
      → ((x : T) → read s.domain (dump x) ≡ loaded x)
      → Writes s
      → newest_first s.domain rows ≡ []
      → 0 < s.ring.max
      → length xs ≤ limit
      → let (s', rows') = add_all dump xs s rows in
        (reload read true limit rows' s').ring.entries ≡ reverse (take s.ring.max xs)
  unfolding reload
  reload_reverses dump read limit xs s rows trip w fresh bound covers =
      let (s', rows') = add_all dump xs s rows in
      let (all, w', m, d) = stored_rows dump xs s rows w in
      let payloads : newest_first s'.domain rows' ≡ map dump (reverse xs) =
        all ∙ ap (λ l. map dump (reverse xs) ++ l) fresh ∙ append_none (map dump (reverse xs)) in
      let few : length (map dump (reverse xs)) ≤ limit =
        omega (arith, length-map dump (reverse xs), length-reverse xs) in
      let got : load_rows (read s'.domain) [] (take limit (newest_first s'.domain rows'))
          ≡ (reverse xs, true) =
        ap (λ l. load_rows (read s'.domain) [] (take limit l)) payloads
        ∙ ap (λ l. load_rows (read s'.domain) [] l) (take-all limit (map dump (reverse xs)) few)
        ∙ ap (λ e. load_rows (read e) [] (map dump (reverse xs))) d
        ∙ load_rows-all dump (read s.domain) trip [] (reverse xs) in
      rw (w'.1) (
        ap (λ l. cut s'.ring.max l) got
        ∙ ap (λ k. cut k (reverse xs, true)) m
        ∙ cut-reverse s.ring.max xs bound)
