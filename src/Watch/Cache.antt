-- ===== src/Watch/Cache.antt =====
-- The resource cache: versions, histories and what a watcher is told.
use gpuopt.Base.{
  ℕ, zero, suc, ◌≤◌, ◌<◌, ◌+◌, ◌-◌, ◌≡◌, refl, sym, subst, Option, none, some, List, [], ◌∷◌, ◌++◌,
  ltb, arith, Bool-cases, inl, inr, length, drop, last, codes_eq, nat_eq, length-last_le,
}
use gpuopt.Base.Dict.{lookup, has_key, Rows, Rows-insert}
use gpuopt.Watch.{
  Text, ResourceCache, key_of, or_empty, history, cut, new_cache, set, delete, resync,
}

module _ {D : Type 0} where
  -- Versions rise strictly, from above `lo` to at most `hi`.
  abbrev Rising : ℕ → ℕ → List (ℕ × D) → Type 0
  Rising lo hi [] = lo ≤ hi
  Rising lo hi ((v, x) ∷ h) = (lo < v) × Rising v hi h

  Rising-bounds : (lo hi : ℕ) (h : List (ℕ × D)) → Rising lo hi h → lo ≤ hi
  Rising-bounds lo hi [] r = r
  Rising-bounds lo hi ((v, x) ∷ h) (at, rest) = omega (arith, Rising-bounds v hi h rest)

  Rising-weaken :
      (lo lo' hi hi' : ℕ) (h : List (ℕ × D))
      → lo' ≤ lo
      → hi ≤ hi'
      → Rising lo hi h
      → Rising lo' hi' h
  Rising-weaken lo lo' hi hi' [] a b r = omega arith
  Rising-weaken lo lo' hi hi' ((v, x) ∷ h) a b (at, rest) =
      (omega arith, Rising-weaken v v hi hi' h (omega arith) b rest)

  Rising-append :
      (lo hi : ℕ) (x : D) (h : List (ℕ × D))
      → Rising lo hi h
      → Rising lo (hi + 1) (h ++ ((hi + 1, x) ∷ []))
  Rising-append lo hi x [] r = (omega arith, omega arith)
  Rising-append lo hi x ((v, y) ∷ h) (at, rest) = (at, Rising-append v hi x h rest)

  Rising-drop : (n lo hi : ℕ) (h : List (ℕ × D)) → Rising lo hi h → Rising lo hi (drop n h)
  Rising-drop zero lo hi h r = r
  Rising-drop (suc n) lo hi [] r = r
  Rising-drop (suc n) lo hi ((v, x) ∷ h) (at, rest) =
      Rising-weaken v lo hi hi (drop n h) (omega arith) (omega arith) (Rising-drop n v hi h rest)

  Rising-last : (n lo hi : ℕ) (h : List (ℕ × D)) → Rising lo hi h → Rising lo hi (last n h)
  Rising-last zero lo hi h r = r
  Rising-last (suc n) lo hi h r = Rising-drop (length h - suc n) lo hi h r

  Rising-cut : (limit lo hi : ℕ) (h : List (ℕ × D)) → Rising lo hi h → Rising lo hi (cut limit h)
  Rising-cut limit lo hi h r = elim (Bool-cases (ltb limit (length h))) [
    | inl long ↦ rw (long) (Rising-last limit lo hi h r)
    | inr short ↦ rw (short) r
  ]

  length-cut : (n : ℕ) (h : List (ℕ × D)) → length (cut (suc n) h) ≤ suc n
  length-cut n h = elim (Bool-cases (ltb (suc n) (length h))) [
    | inl long ↦ rw (long) (length-last_le n h)
    | inr short ↦ rw (short) (ground arith)
  ]

  -- Every history rises to at most the current version, and is no longer than a positive maximum.
  abbrev IsHistory : ℕ → ℕ → List (ℕ × D) → Type 0
  IsHistory limit hi h = Rising 0 hi h × ((n : ℕ) → limit ≡ suc n → length h ≤ limit)

  unfoldable pub IsSound : ResourceCache D → Type 0
  IsSound c =
      Rows (λ (k : Text) (h : List (ℕ × D)). IsHistory c.max_versions c.current_version h)
        c.versions

  or_empty-Rising :
      (hi : ℕ) (o : Option (List (ℕ × D)))
      → ((h : List (ℕ × D)) → o ≡ some h → Rising 0 hi h)
      → Rising 0 hi (or_empty o)
  or_empty-Rising hi none r = omega arith
  or_empty-Rising hi (some h) r = r h refl

  history-Rising :
      (key : Text) (c : ResourceCache D) → IsSound c → Rising 0 c.current_version (history key c)
  unfolding IsSound
  history-Rising key c sound =
      or_empty-Rising c.current_version (lookup key c.versions) (λ h e. (sound key h e).0)

  IsHistory-later :
      (c : ResourceCache D) (k : Text) (h : List (ℕ × D))
      → IsSound c
      → lookup k c.versions ≡ some h
      → IsHistory c.max_versions (c.current_version + 1) h
  unfolding IsSound
  IsHistory-later c k h sound e =
      let (r, n) = sound k h e in
      (
        Rising-weaken 0 0 c.current_version (c.current_version + 1) h (omega arith) (omega arith) r,
        n,
      )

  set-IsSound :
      (rtype rid : Text) (x : D) (c : ResourceCache D) → IsSound c → IsSound (set rtype rid x c).1
  unfolding IsSound set
  set-IsSound rtype rid x c sound =
      let key = key_of rtype rid in
      let longer = history key c ++ ((c.current_version + 1, x) ∷ []) in
      Rows-insert (λ k h. IsHistory c.max_versions (c.current_version + 1) h) key
        (cut c.max_versions longer) c.versions
        (
          Rising-cut c.max_versions 0 (c.current_version + 1) longer
              (Rising-append 0 c.current_version x (history key c) (history-Rising key c sound)),
          (λ n e. subst (λ m. length (cut m longer) ≤ m) (sym e) (length-cut n longer)),
        )
        (λ k h e. IsHistory-later c k h sound e)

  delete-IsSound :
      (rtype rid : Text) (c : ResourceCache D) → IsSound c → IsSound (delete rtype rid c).1
  unfolding IsSound delete
  delete-IsSound rtype rid c sound = elim (Bool-cases (has_key (key_of rtype rid) c.cache)) [
    | inl here ↦ rw (here) (λ k h e. IsHistory-later c k h sound e)
    | inr gone ↦ rw (gone) sound
  ]

-- The caches that sets, deletions and resyncs reach from an empty cache.
pub data ReachableCache (D : Type 0) (limit : ℕ) : ResourceCache D → Type 0 where
  start : ReachableCache D limit (new_cache limit)
  sets :
      (rtype rid : Text) (x : D) {c : ResourceCache D}
      → ReachableCache D limit c
      → ReachableCache D limit (set rtype rid x c).1
  deletes :
      (rtype rid : Text) {c : ResourceCache D}
      → ReachableCache D limit c
      → ReachableCache D limit (delete rtype rid c).1
  resyncs :
      (items : List (Text × Text × D)) {c : ResourceCache D}
      → ReachableCache D limit c
      → ReachableCache D limit (resync items c).1

module _ {D : Type 0} where
  resync-IsSound :
      (items : List (Text × Text × D)) (c : ResourceCache D)
      → IsSound c
      → IsSound (resync items c).1
  unfolding resync
  resync-IsSound [] c sound = sound
  resync-IsSound ((rtype, rid, x) ∷ items) c sound =
      resync-IsSound items (set rtype rid x c).1 (set-IsSound rtype rid x c sound)

  -- In every cache that sets, deletions and resyncs reach, each history's versions rise strictly, up
  -- to the current version, and a history is no longer than a positive maximum.
  pub ReachableCache-IsSound :
      (limit : ℕ) {c : ResourceCache D} → ReachableCache D limit c → IsSound c
  unfolding IsSound
  ReachableCache-IsSound limit start = λ k h e. absurd cc
  ReachableCache-IsSound limit (sets rtype rid x run) =
      set-IsSound rtype rid x _ (ReachableCache-IsSound limit run)
  ReachableCache-IsSound limit (deletes rtype rid run) =
      delete-IsSound rtype rid _ (ReachableCache-IsSound limit run)
  ReachableCache-IsSound limit (resyncs items run) =
      resync-IsSound items _ (ReachableCache-IsSound limit run)
