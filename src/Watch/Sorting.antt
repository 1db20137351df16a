-- ===== src/Watch/Sorting.antt =====
-- `sort_events` sorts and keeps the events.
use gpuopt.Base.{
  ℕ, ◌≤◌, Bool, ◌≡◌, refl, List, [], ◌∷◌, All, count, leb, arith, Bool-cases, inl, inr,
}
use gpuopt.Watch.{WatchEvent, insert_event, sort_events}

module _ {D : Type 0} where
  -- Versions never fall.
  abbrev pub Sorted : ℕ → List (WatchEvent D) → Type 0
  Sorted lo [] = Unit
  Sorted lo (e ∷ es) = (lo ≤ e.resource_version) × Sorted e.resource_version es

  insert_event-Sorted :
      (lo : ℕ) (e : WatchEvent D) (es : List (WatchEvent D))
      → lo ≤ e.resource_version
      → Sorted lo es
      → Sorted lo (insert_event e es)
  unfolding insert_event
  insert_event-Sorted lo e [] low h = (low, tt)
  insert_event-Sorted lo e (f ∷ es) low (at, rest) =
      elim (Bool-cases (leb e.resource_version f.resource_version)) [
        | inl le ↦ rw (le, insert_event) (low, (ground arith, rest))
        | inr gt ↦
            rw (gt, insert_event)
              (at, insert_event-Sorted f.resource_version e es (ground arith) rest)
      ]

  pub sort_events-Sorted : (es : List (WatchEvent D)) → Sorted 0 (sort_events es)
  unfolding sort_events
  sort_events-Sorted [] = tt
  sort_events-Sorted (e ∷ es) =
      insert_event-Sorted 0 e (sort_events es) (omega arith) (sort_events-Sorted es)

  -- A property of every event, before and after.
  insert_event-All :
      (P : WatchEvent D → Type 0) (e : WatchEvent D) (es : List (WatchEvent D))
      → P e
      → All P es
      → All P (insert_event e es)
  unfolding insert_event
  insert_event-All P e [] h all = (h, tt)
  insert_event-All P e (f ∷ es) h (at, rest) =
      elim (Bool-cases (leb e.resource_version f.resource_version)) [
        | inl le ↦ rw (le, insert_event) (h, (at, rest))
        | inr gt ↦ rw (gt, insert_event) (at, insert_event-All P e es h rest)
      ]

  pub sort_events-All :
      (P : WatchEvent D → Type 0) (es : List (WatchEvent D)) → All P es → All P (sort_events es)
  unfolding sort_events
  sort_events-All P [] all = tt
  sort_events-All P (e ∷ es) (at, rest) =
      insert_event-All P e (sort_events es) at (sort_events-All P es rest)

  -- How many events pass a test.
  insert_event-count :
      (p : WatchEvent D → Bool) (e : WatchEvent D) (es : List (WatchEvent D))
      → count p (insert_event e es) ≡ count p (e ∷ es)
  unfolding insert_event
  insert_event-count p e [] = refl
  insert_event-count p e (f ∷ es) = ground (arith, insert_event-count p e es)

  pub sort_events-count :
      (p : WatchEvent D → Bool) (es : List (WatchEvent D)) → count p (sort_events es) ≡ count p es
  unfolding sort_events
  sort_events-count p [] = refl
  sort_events-count p (e ∷ es) =
      ground (arith, insert_event-count p e (sort_events es), sort_events-count p es)
