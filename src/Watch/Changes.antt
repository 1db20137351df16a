-- ===== src/Watch/Changes.antt =====
-- What `get_changes_since` tells a watcher.
use gpuopt.Base.{
  ℕ, zero, suc, ◌≤◌, ◌<◌, ◌+◌, ◌-◌, Bool, true, false, ◌&&◌, ◌≡◌, refl, sym, ap, subst, ◌∙◌, some,
  List, [], ◌∷◌, ◌++◌, All, count, ltb, if◌then◌else◌, arith, Bool-cases, inl, inr, length, drop,
  last, length-append, codes_eq, nat_eq, ◌==◌, beq_refl,
}
use gpuopt.Base.Dict.{Dict, lookup, insert, has_key, lookup-insert_same}
use gpuopt.Watch.{
  Text, updated, WatchEvent, ResourceCache, prefix, key_of, starts_with, history, cut, set, delete,
  events_of, events_since, get_changes_since,
}
use gpuopt.Watch.Sorting.{Sorted, sort_events-Sorted, sort_events-All, sort_events-count}

starts_with_append : (p rest : Text) → starts_with p (p ++ rest) ≡ true
unfolding starts_with
starts_with_append [] rest = refl
starts_with_append (c ∷ p) rest = rw (beq_refl c) (starts_with_append p rest)

drop_append : (p rest : Text) → drop (length p) (p ++ rest) ≡ rest
drop_append [] rest = refl
drop_append (c ∷ p) rest = drop_append p rest

module _ {D : Type 0} where
  -- An update of a resource of the type, later than the version.
  abbrev pub IsChange : Text → ℕ → WatchEvent D → Type 0
  IsChange rtype since e =
      (e.event_type ≡ updated) × (e.resource_type ≡ rtype) × (since < e.resource_version)

  All-append :
      (P : WatchEvent D → Type 0) (es fs : List (WatchEvent D))
      → All P es
      → All P fs
      → All P (es ++ fs)
  All-append P [] fs a b = b
  All-append P (e ∷ es) fs (at, rest) b = (at, All-append P es fs rest b)

  events_of-IsChange :
      (rtype rid : Text) (since : ℕ) (h : List (ℕ × D))
      → All (IsChange rtype since) (events_of rtype rid since h)
  unfolding events_of
  events_of-IsChange rtype rid since [] = tt
  events_of-IsChange rtype rid since ((v, x) ∷ h) = elim (Bool-cases (ltb since v)) [
    | inl later ↦
        rw (later, events_of) ((refl, refl, ground arith), events_of-IsChange rtype rid since h)
    | inr older ↦ rw (older, events_of) (events_of-IsChange rtype rid since h)
  ]

  events_since-IsChange :
      (rtype : Text) (since : ℕ) (rows : Dict Text (List (ℕ × D)))
      → All (IsChange rtype since) (events_since rtype since rows)
  unfolding events_since
  events_since-IsChange rtype since [] = tt
  events_since-IsChange rtype since ((k, h) ∷ rows) =
      elim (Bool-cases (starts_with (prefix rtype) k)) [
        | inl own ↦
            rw (own, events_since)
              (All-append (IsChange rtype since)
                (events_of rtype (drop (length (prefix rtype)) k) since h)
                (events_since rtype since rows)
                (events_of-IsChange rtype (drop (length (prefix rtype)) k) since h)
                (events_since-IsChange rtype since rows))
        | inr other ↦ rw (other, events_since) (events_since-IsChange rtype since rows)
      ]

  -- The events come in the order of their versions, and each is an update of a resource of the
  -- asked type, later than the asked version.
  pub changes_ordered :
      (rtype : Text) (since : ℕ) (c : ResourceCache D)
      → Sorted 0 (get_changes_since rtype since c)
        × All (IsChange rtype since) (get_changes_since rtype since c)
  unfolding get_changes_since
  changes_ordered rtype since c = (
    sort_events-Sorted (events_since rtype since c.versions),
    sort_events-All (IsChange rtype since) (events_since rtype since c.versions)
        (events_since-IsChange rtype since c.versions),
  )

  -- Deletion tells a watcher nothing: the changes since any version are those of before.
  pub delete_untold :
      (rtype rid : Text) (c : ResourceCache D) (asked : Text) (since : ℕ)
      → get_changes_since asked since (delete rtype rid c).1 ≡ get_changes_since asked since c
  unfolding delete get_changes_since
  delete_untold rtype rid c asked since = elim (Bool-cases (has_key (key_of rtype rid) c.cache)) [
    | inl here ↦ rw (here) refl
    | inr gone ↦ rw (gone) refl
  ]

  -- The event that `set` makes.
  abbrev pub is_event : ℕ → Text → WatchEvent D → Bool
  is_event v rid e = e.resource_version == v && e.resource_id == rid

  count_append :
      (p : WatchEvent D → Bool) (es fs : List (WatchEvent D))
      → count p (es ++ fs) ≡ count p es + count p fs
  count_append p [] fs = omega arith
  count_append p (e ∷ es) fs = ground (arith, count_append p es fs)

  events_of_found :
      (rtype rid : Text) (since v : ℕ) (x : D) (h : List (ℕ × D))
      → since < v
      → 1 ≤ count (is_event v rid) (events_of rtype rid since (h ++ ((v, x) ∷ [])))
  unfolding events_of
  events_of_found rtype rid since v x [] later =
      let b : ltb since v ≡ true = ground arith in
      rw (b, events_of) (rw (beq_refl v) (rw (beq_refl rid) (omega arith)))
  events_of_found rtype rid since v x ((w, y) ∷ h) later = elim (Bool-cases (ltb since w)) [
    | inl b ↦ rw (b, events_of) (ground (arith, events_of_found rtype rid since v x h later))
    | inr b ↦ rw (b, events_of) (events_of_found rtype rid since v x h later)
  ]

  events_since_found :
      (p : WatchEvent D → Bool) (n : ℕ) (rtype rid : Text) (since : ℕ) (h : List (ℕ × D))
      (rows : Dict Text (List (ℕ × D)))
      → lookup (key_of rtype rid) rows ≡ some h
      → n ≤ count p (events_of rtype rid since h)
      → n ≤ count p (events_since rtype since rows)
  unfolding events_since
  events_since_found p n rtype rid since h [] e most = absurd cc
  events_since_found p n rtype rid since h ((k, g) ∷ rows) e most =
      elim (Bool-cases (k == key_of rtype rid)) [
        | inl hit ↦ at_key hit
        | inr miss ↦ further (
            events_since_found p n rtype rid since h rows
              (found_later (k == key_of rtype rid) miss e) most)
      ]
    where
      rest : Bool → List (WatchEvent D)
      rest own =
          if own
          then events_of rtype (drop (length (prefix rtype)) k) since g
            ++ events_since rtype since rows
          else events_since rtype since rows

      found_here :
          (b : Bool)
          → b ≡ true
          → (if b then some g else lookup (key_of rtype rid) rows) ≡ some h
          → g ≡ h
      found_here true t f = cc
      found_here false t f = absurd cc

      found_later :
          (b : Bool)
          → b ≡ false
          → (if b then some g else lookup (key_of rtype rid) rows) ≡ some h
          → lookup (key_of rtype rid) rows ≡ some h
      found_later true t f = absurd cc
      found_later false t f = f

      at_key : (k == key_of rtype rid) ≡ true → n ≤ count p (rest (starts_with (prefix rtype) k))
      at_key hit =
          let same : k ≡ key_of rtype rid = (codes_eq.beq_iff k (key_of rtype rid)).0 hit in
          let own : starts_with (prefix rtype) k ≡ true =
            subst (λ z. starts_with (prefix rtype) z ≡ true) (sym same)
              (starts_with_append (prefix rtype) rid) in
          let id_of : drop (length (prefix rtype)) k ≡ rid =
            ap (λ z. drop (length (prefix rtype)) z) same ∙ drop_append (prefix rtype) rid in
          let same_h = found_here (k == key_of rtype rid) hit e in
          rw (own) (
            rw (id_of) (
              rw (same_h) (
                omega (
                  arith,
                  count_append p (events_of rtype rid since h) (events_since rtype since rows),
                ))))

      further :
          n ≤ count p (events_since rtype since rows)
          → n ≤ count p (rest (starts_with (prefix rtype) k))
      further more = elim (Bool-cases (starts_with (prefix rtype) k)) [
        | inl own ↦ rw (own) (
            omega (
              arith,
              count_append p (events_of rtype (drop (length (prefix rtype)) k) since g)
                  (events_since rtype since rows),
            ))
        | inr other ↦ rw (other) more
      ]

  drop_keeps_last :
      (n : ℕ) (y : ℕ × D) (h : List (ℕ × D))
      → n ≤ length h
      → drop n (h ++ (y ∷ [])) ≡ drop n h ++ (y ∷ [])
  drop_keeps_last zero y h le = refl
  drop_keeps_last (suc n) y [] le = absurd (omega arith)
  drop_keeps_last (suc n) y (z ∷ h) le = drop_keeps_last n y h (omega arith)

  cut_keeps_last :
      (limit : ℕ) (y : ℕ × D) (h : List (ℕ × D))
      → (g : List (ℕ × D)) × (cut limit (h ++ (y ∷ [])) ≡ g ++ (y ∷ []))
  cut_keeps_last limit y h = elim (Bool-cases (ltb limit (length (h ++ (y ∷ []))))) [
    | inl long ↦ rw (long) (last_keeps limit)
    | inr short ↦ rw (short) (h, refl)
  ]
    where
      last_keeps : (m : ℕ) → (g : List (ℕ × D)) × (last m (h ++ (y ∷ [])) ≡ g ++ (y ∷ []))
      last_keeps zero = (h, refl)
      last_keeps (suc m) =
          let n = length (h ++ (y ∷ [])) - suc m in
          (drop n h, drop_keeps_last n y h (omega (arith, length-append h (y ∷ []))))

  -- A watcher that asks for the changes since a version before a `set` is told of that `set`,
  -- whatever the histories' maximum.
  pub set_is_told :
      (rtype rid : Text) (x : D) (c : ResourceCache D) (since : ℕ)
      → since ≤ c.current_version
      → 1
        ≤ count
            (is_event (c.current_version + 1) rid)
            (get_changes_since rtype since (set rtype rid x c).1)
  unfolding set get_changes_since
  set_is_told rtype rid x c since le =
      let v = c.current_version + 1 in
      let key = key_of rtype rid in
      let (g, kept) = cut_keeps_last c.max_versions (v, x) (history key c) in
      let rows = insert key (cut c.max_versions (history key c ++ ((v, x) ∷ []))) c.versions in
      let stored : lookup key rows ≡ some (g ++ ((v, x) ∷ [])) =
        lookup-insert_same key (cut c.max_versions (history key c ++ ((v, x) ∷ []))) c.versions
        ∙ ap (λ h. some h) kept in
      let told =
        events_since_found (is_event v rid) 1 rtype rid since (g ++ ((v, x) ∷ [])) rows stored
          (events_of_found rtype rid since v x g (omega arith)) in
      omega (arith, told, sort_events-count (is_event v rid) (events_since rtype since rows))
