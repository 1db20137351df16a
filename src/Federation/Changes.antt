-- ===== src/Federation/Changes.antt =====
-- What removing, changing and adding a row does to the map by name.
use gpuopt.Base.{
  String, true, Option, none, some, [], ◌∷◌, ◌≡◌, refl, sym, ap, ◌∙◌, ◌==◌, string_eq,
  if◌then◌else◌, Bool-cases, inl, inr, eq_iff,
}
use gpuopt.Base.Dict.{lookup, insert, erase, lookup-erase, lookup-insert}
use gpuopt.Federation.{FederatedCluster, Registry, get_by_name}
use gpuopt.Federation.ByName.{apart, forget, change_at, Named, Keeps, or_else}

module _ {F : Type 0} where
  pub get_by_name-erase :
      (id j : String) (d : Registry F)
      → Named d
      → get_by_name j (erase id d) ≡ forget id (get_by_name j d)
  unfolding get_by_name
  get_by_name-erase id j [] n = refl
  get_by_name-erase id j ((k, c) ∷ d) (own, alone, once, rest) =
      let ih = get_by_name-erase id j d rest in
      elim (Bool-cases (k == id)) [
        | inl hit ↦ elim (Bool-cases (c.name == j)) [
          | inl named ↦
              let gone : get_by_name j d ≡ none =
                ap (λ x. get_by_name x d) (sym ((eq_iff c.name j).0 named)) ∙ alone in
              rw (hit) (rw (named) (rw (own) (rw (hit) (ih ∙ ap (forget id) gone))))
          | inr other ↦ rw (hit) (rw (other) ih)
        ]
        | inr miss ↦ elim (Bool-cases (c.name == j)) [
          | inl named ↦ rw (miss) (rw (named) (rw (own) (rw (miss) refl)))
          | inr other ↦ rw (miss) (rw (other) ih)
        ]
      ]

  pub Named-erase : (id : String) (d : Registry F) → Named d → Named (erase id d)
  Named-erase id [] n = tt
  Named-erase id ((k, c) ∷ d) (own, alone, once, rest) =
      let ih = Named-erase id d rest in
      elim (Bool-cases (k == id)) [
        | inl hit ↦ rw (hit) ih
        | inr miss ↦ rw (miss) (
          own,
          get_by_name-erase id c.name d rest ∙ ap (forget id) alone,
          lookup-erase id k d ∙ rw (apart k id miss) once,
          ih,
        )
      ]

  -- A cluster whose id is not stored is not found by any name.
  pub change_at-absent :
      (id j : String) (f : FederatedCluster F → FederatedCluster F) (d : Registry F)
      → Named d
      → lookup id d ≡ none
      → change_at id f (get_by_name j d) ≡ get_by_name j d
  unfolding get_by_name
  change_at-absent id j f [] n gone = refl
  change_at-absent id j f ((k, c) ∷ d) (own, alone, once, rest) gone = elim (Bool-cases (k == id)) [
    | inl hit ↦ let e : lookup id ((k, c) ∷ d) ≡ some c = rw (hit) refl in absurd cc
    | inr miss ↦
        let ih = change_at-absent id j f d rest (sym (rw (miss) refl) ∙ gone) in
        elim (Bool-cases (c.name == j)) [
          | inl named ↦ rw (named) (rw (own) (rw (miss) refl))
          | inr other ↦ rw (other) ih
        ]
  ]

  changed_here :
      (id j k : String) (f : FederatedCluster F → FederatedCluster F) (b : FederatedCluster F)
      (d : Registry F) (c : FederatedCluster F)
      → b ≡ c
      → Keeps f
      → b.id ≡ k
      → k == id ≡ true
      → lookup id d ≡ none
      → Named d
      → get_by_name j ((k, f c) ∷ d) ≡ change_at id f (get_by_name j ((k, b) ∷ d))
  unfolding get_by_name
  changed_here id j k f b d c same keeps own hit absent rest =
      let named_as : (f c).name == j ≡ (b.name == j) =
        ap (λ x. x == j) ((keeps c).0 ∙ sym (ap (λ (x : FederatedCluster F). x.name) same)) in
      let here : b.id == id ≡ true = ap (λ x. x == id) own ∙ hit in
      elim (Bool-cases (b.name == j)) [
        | inl named ↦
            let l : (if (f c).name == j then some (f c) else get_by_name j d) ≡ some (f c) =
              rw (named_as) (rw (named) refl) in
            let r : change_at id f (if b.name == j then some b else get_by_name j d) ≡ some (f b) =
              rw (named) (rw (here) refl) in
            l ∙ ap (λ x. some (f x)) (sym same) ∙ sym r
        | inr other ↦
            let l : (if (f c).name == j then some (f c) else get_by_name j d) ≡ get_by_name j d =
              rw (named_as) (rw (other) refl) in
            let r : change_at id f (if b.name == j then some b else get_by_name j d)
                ≡ change_at id f (get_by_name j d) =
              rw (other) refl in
            l ∙ sym (change_at-absent id j f d rest absent) ∙ sym r
      ]

  pub get_by_name-change :
      (id j : String) (f : FederatedCluster F → FederatedCluster F) (d : Registry F)
      (c : FederatedCluster F)
      → Keeps f
      → Named d
      → lookup id d ≡ some c
      → get_by_name j (insert id (f c) d) ≡ change_at id f (get_by_name j d)
  unfolding get_by_name
  get_by_name-change id j f [] c keeps n found = absurd cc
  get_by_name-change id j f ((k, b) ∷ d) c keeps (own, alone, once, rest) found =
      elim (Bool-cases (k == id)) [
        | inl hit ↦
            let is : lookup id ((k, b) ∷ d) ≡ some b = rw (hit) refl in
            let same : b ≡ c = cc in
            let absent : lookup id d ≡ none =
              ap (λ x. lookup x d) (sym ((eq_iff k id).0 hit)) ∙ once in
            rw (hit) (changed_here id j k f b d c same keeps own hit absent rest)
        | inr miss ↦
            let ih = get_by_name-change id j f d c keeps rest (sym (rw (miss) refl) ∙ found) in
            elim (Bool-cases (b.name == j)) [
              | inl named ↦ rw (miss) (rw (named) (rw (own) (rw (miss) refl)))
              | inr other ↦ rw (miss) (rw (other) ih)
            ]
      ]

  -- A changed row leaves every name found or not found as it was.
  none-change :
      (id : String) (f : FederatedCluster F → FederatedCluster F) (o : Option (FederatedCluster F))
      → o ≡ none
      → change_at id f o ≡ none
  none-change id f none h = refl
  none-change id f (some c) h = absurd cc

  pub Named-change :
      (id : String) (f : FederatedCluster F → FederatedCluster F) (d : Registry F)
      (c : FederatedCluster F)
      → Keeps f
      → Named d
      → lookup id d ≡ some c
      → Named (insert id (f c) d)
  Named-change id f [] c keeps n found = absurd cc
  Named-change id f ((k, b) ∷ d) c keeps (own, alone, once, rest) found =
      elim (Bool-cases (k == id)) [
        | inl hit ↦
            let is : lookup id ((k, b) ∷ d) ≡ some b = rw (hit) refl in
            let same : b ≡ c = cc in
            rw (hit) (
              (keeps c).1 ∙ sym (ap (λ (x : FederatedCluster F). x.id) same) ∙ own,
              ap (λ x. get_by_name x d)
                    ((keeps c).0 ∙ sym (ap (λ (x : FederatedCluster F). x.name) same))
                  ∙ alone,
              once,
              rest,
            )
        | inr miss ↦
            let there : lookup id d ≡ some c = sym (rw (miss) refl) ∙ found in
            rw (miss) (
              own,
              get_by_name-change id b.name f d c keeps rest there
                  ∙ none-change id f (get_by_name b.name d) alone,
              lookup-insert id k (f c) d ∙ rw (apart k id miss) once,
              Named-change id f d c keeps rest there,
            )
      ]

  pub or_else-none : (o : Option (FederatedCluster F)) → or_else o none ≡ o
  or_else-none none = refl
  or_else-none (some c) = refl

  pub get_by_name-insert :
      (id j : String) (c : FederatedCluster F) (d : Registry F)
      → lookup id d ≡ none
      → get_by_name j (insert id c d)
        ≡ or_else (get_by_name j d) (if c.name == j then some c else none)
  unfolding get_by_name
  get_by_name-insert id j c [] absent = refl
  get_by_name-insert id j c ((k, b) ∷ d) absent = elim (Bool-cases (k == id)) [
    | inl hit ↦ let is : lookup id ((k, b) ∷ d) ≡ some b = rw (hit) refl in absurd cc
    | inr miss ↦
        let ih = get_by_name-insert id j c d (sym (rw (miss) refl) ∙ absent) in
        elim (Bool-cases (b.name == j)) [
          | inl named ↦ rw (miss) (rw (named) refl)
          | inr other ↦ rw (miss) (rw (other) ih)
        ]
  ]

  pub Named-insert :
      (id : String) (c : FederatedCluster F) (d : Registry F)
      → c.id ≡ id
      → lookup id d ≡ none
      → get_by_name c.name d ≡ none
      → Named d
      → Named (insert id c d)
  unfolding get_by_name
  Named-insert id c [] own absent new n = (own, refl, refl, tt)
  Named-insert id c ((k, b) ∷ d) own absent new (own', alone, once, rest) =
      elim (Bool-cases (k == id)) [
        | inl hit ↦ let is : lookup id ((k, b) ∷ d) ≡ some b = rw (hit) refl in absurd cc
        | inr miss ↦ elim (Bool-cases (b.name == c.name)) [
          | inl taken ↦
              let is : get_by_name c.name ((k, b) ∷ d) ≡ some b = rw (taken, get_by_name) refl in
              absurd cc
          | inr free ↦
              let absent' : lookup id d ≡ none = sym (rw (miss) refl) ∙ absent in
              let new' : get_by_name c.name d ≡ none = sym (rw (free) refl) ∙ new in
              rw (miss) (
                own',
                get_by_name-insert id b.name c d absent'
                    ∙ ap (λ o. or_else o (if c.name == b.name then some c else none)) alone
                    ∙ rw (apart b.name c.name free) refl,
                lookup-insert id k c d ∙ rw (apart k id miss) once,
                Named-insert id c d own absent' new' rest,
              )
        ]
      ]
