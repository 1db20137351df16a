-- ===== src/Federation/Updates.antt =====
-- What the loop of `register` does to the map by name.
use gpuopt.Base.{
  String, true, false, Option, none, some, [], ◌∷◌, ◌≡◌, refl, sym, ap, ◌∙◌, ◌==◌, string_eq,
  if◌then◌else◌, Bool-cases, inl, inr, ◌⊎◌, eq_iff,
}
use gpuopt.Base.Dict.{lookup}
use gpuopt.Federation.{FederatedCluster, Registry, update_named, get_by_name}
use gpuopt.Federation.ByName.{apart, Named, Keeps}

module _ {F : Type 0} where
  -- What the loop of `register` finds.
  abbrev pub Updated :
      String
      → (FederatedCluster F → FederatedCluster F)
      → Registry F
      → FederatedCluster F
      → Registry F
      → Type 0
  Updated name f d c d' =
      (update_named name f d ≡ some (f c, d'))
      × (get_by_name name d ≡ some c)
      × ((j : String) → get_by_name j d' ≡ (if name == j then some (f c) else get_by_name j d))
      × ((k : String) → lookup k d ≡ none → lookup k d' ≡ none)
      × Named d'

  view_hit :
      (j name : String) (b c : FederatedCluster F) (o : Option (FederatedCluster F))
      → c.name ≡ b.name
      → b.name == name ≡ true
      → (if c.name == j then some c else o)
        ≡ (if name == j then some c else (if b.name == j then some b else o))
  view_hit j name b c o kept hit =
      let same : b.name == j ≡ (name == j) = ap (λ x. x == j) ((eq_iff b.name name).0 hit) in
      let same' : c.name == j ≡ (name == j) = ap (λ x. x == j) kept ∙ same in
      elim (Bool-cases (name == j)) [
        | inl e ↦ rw (same') (rw (e) refl)
        | inr e ↦ rw (same') (rw (e) (rw (same) (rw (e) refl)))
      ]

  view_miss :
      (j name : String) (b c : FederatedCluster F) (o o' : Option (FederatedCluster F))
      → b.name == name ≡ false
      → o' ≡ (if name == j then some c else o)
      → (if b.name == j then some b else o')
        ≡ (if name == j then some c else (if b.name == j then some b else o))
  view_miss j name b c o o' miss h = elim (Bool-cases (b.name == j)) [
    | inl named ↦
        let other : name == j ≡ false =
          ap (λ x. name == x) (sym ((eq_iff b.name j).0 named)) ∙ apart b.name name miss in
        rw (named) (rw (other) refl)
    | inr unnamed ↦ rw (unnamed) h
  ]

  lookup_here :
      (i k : String) (b c : FederatedCluster F) (d : Registry F)
      → lookup i ((k, b) ∷ d) ≡ none
      → lookup i ((k, c) ∷ d) ≡ none
  lookup_here i k b c d absent = elim (Bool-cases (k == i)) [
    | inl hit ↦ let is : lookup i ((k, b) ∷ d) ≡ some b = rw (hit) refl in absurd cc
    | inr miss ↦ rw (miss) (sym (rw (miss) refl) ∙ absent)
  ]

  lookup_behind :
      (i k : String) (b : FederatedCluster F) (d d' : Registry F)
      → ((x : String) → lookup x d ≡ none → lookup x d' ≡ none)
      → lookup i ((k, b) ∷ d) ≡ none
      → lookup i ((k, b) ∷ d') ≡ none
  lookup_behind i k b d d' absent gone = elim (Bool-cases (k == i)) [
    | inl hit ↦ let is : lookup i ((k, b) ∷ d) ≡ some b = rw (hit) refl in absurd cc
    | inr miss ↦ rw (miss) (absent i (sym (rw (miss) refl) ∙ gone))
  ]

  pub update_named-cases :
      (name : String) (f : FederatedCluster F → FederatedCluster F) (d : Registry F)
      → Keeps f
      → Named d
      → ((update_named name f d ≡ none) × (get_by_name name d ≡ none))
        ⊎ ((c : FederatedCluster F) × (d' : Registry F) × Updated name f d c d')
  unfolding update_named get_by_name
  update_named-cases name f [] keeps n = inl (refl, refl)
  update_named-cases name f ((k, b) ∷ d) keeps (own, alone, once, rest) =
      elim (Bool-cases (b.name == name)) [
        | inl hit ↦ inr (
          b,
          (k, f b) ∷ d,
          (
            rw (hit, update_named) refl,
            rw (hit, get_by_name) refl,
            (λ j. view_hit j name b (f b) (get_by_name j d) ((keeps b).0) hit),
            (λ i absent. lookup_here i k b (f b) d absent),
            ((keeps b).1 ∙ own, ap (λ x. get_by_name x d) ((keeps b).0) ∙ alone, once, rest),
          ),
        )
        | inr miss ↦ elim (update_named-cases name f d keeps rest) [
          | inl (nothing, free) ↦
              inl (rw (miss, update_named) (rw (nothing) refl), rw (miss, get_by_name) free)
          | inr (c, d', (is, found, view, absent, n)) ↦ inr (
            c,
            (k, b) ∷ d',
            (
              rw (miss, update_named) (rw (is) refl),
              rw (miss, get_by_name) found,
              (λ j. view_miss j name b (f c) (get_by_name j d) (get_by_name j d') miss (view j)),
              (λ i gone. lookup_behind i k b d d' absent gone),
              (own, view b.name ∙ rw (apart b.name name miss) alone, absent k once, n),
            ),
          )
        ]
      ]
