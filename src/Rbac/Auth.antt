-- ===== src/Rbac/Auth.antt =====
-- Authentication by API key: who gets in, and what rotation, deletion and a second user do to it.
use gpuopt.Base.{
  ℕ, String, true, ◌≡◌, ◌≢◌, refl, sym, ap, ◌∙◌, subst, none, some, List, [], ◌∷◌, arith, ◌==◌,
  string_eq, codes_eq, eq_iff, beq_refl, Bool-cases, Option-cases, inl, inr,
}
use gpuopt.Base.Dict.{
  lookup, insert, erase, values, lookup-insert, lookup-erase, Rows, Rows-insert, Rows-erase,
}
use gpuopt.Rbac.Roles.{RoleType}
use gpuopt.Rbac.{
  Uuid, ApiKey, Digest, User, Rbac, Fresh, generate_api_key, key_prefix, new_user, add_user,
  create_user, get_user_by_api_key, rotate_api_key, delete_user, first_of_type, Update, set_attr,
  set_attrs, update_user,
}

-- Every user stands under its id.
pub record IsSound (s : Rbac) : Type 0 where
  pub keyed : Rows (λ (k : Uuid) (u : User). u.id ≡ k) s.users

set_attrs_id : (ups : List Update) (u : User) → (set_attrs ups u).id ≡ u.id
unfolding set_attrs set_attr
set_attrs_id [] u = refl
set_attrs_id (Update.username v ∷ ups) u = set_attrs_id ups _
set_attrs_id (Update.email v ∷ ups) u = set_attrs_id ups _
set_attrs_id (Update.role_ids v ∷ ups) u = set_attrs_id ups _
set_attrs_id (Update.api_key_prefix v ∷ ups) u = set_attrs_id ups _
set_attrs_id (Update.enabled v ∷ ups) u = set_attrs_id ups _
set_attrs_id (Update.last_login v ∷ ups) u = set_attrs_id ups _
set_attrs_id (Update.other ∷ ups) u = set_attrs_id ups u

pub update_user-IsSound :
    (uid : Uuid) (ups : List Update) (s : Rbac) → IsSound s → IsSound (update_user uid ups s).1
unfolding update_user
update_user-IsSound uid ups s h = elim (Option-cases (lookup uid s.users)) [
  | inl e ↦ rw (e, update_user) h
  | inr (u, e) ↦
      rw (e, update_user)
        (record {
          keyed =
              Rows-insert (λ k v. v.id ≡ k) uid (set_attrs ups u) s.users
                (set_attrs_id ups u ∙ h.keyed uid u e) h.keyed;
        })
]

pub delete_user-IsSound : (uid : Uuid) (s : Rbac) → IsSound s → IsSound (delete_user uid s).1
unfolding delete_user
delete_user-IsSound uid s h = elim (Option-cases (lookup uid s.users)) [
  | inl e ↦ rw (e, delete_user) h
  | inr (u, e) ↦
      rw (e, delete_user) (record { keyed = Rows-erase (λ k v. v.id ≡ k) uid s.users h.keyed })
]

deleted_gone : (uid : Uuid) (s : Rbac) (v : User) → lookup uid (delete_user uid s).1.users ≢ some v
unfolding delete_user
deleted_gone uid s v = elim (Option-cases (lookup uid s.users)) [
  | inl e ↦ λ f. ground arith
  | inr (u, e) ↦ rw (e, delete_user) (λ f. gone f)
]
  where
    gone : lookup uid (erase uid s.users) ≡ some v → ⊥
    gone f = let g = sym (lookup-erase uid uid s.users) ∙ f in grind (arith, beq_refl uid)

module _ (hash : ApiKey → Digest) where
  -- Whoever is authenticated by a key is a stored, enabled user whose digest is the key's, reached
  -- through the key's prefix.
  pub authentication_sound :
      (key : ApiKey) (s : Rbac) (u : User)
      → get_user_by_api_key hash key s ≡ some u
      → (uid : Uuid) × (lookup (key_prefix key) s.api_key_to_user ≡ some uid)
        × (lookup uid s.users ≡ some u)
        × (u.enabled ≡ true)
        × (u.api_key_hash ≡ hash key)
  unfolding get_user_by_api_key
  authentication_sound key s u h = elim (Option-cases (lookup (key_prefix key) s.api_key_to_user)) [
    | inl e ↦ ground arith
    | inr (uid, e) ↦ elim (Option-cases (lookup uid s.users)) [
      | inl f ↦ ground arith
      | inr (v, f) ↦ (
        uid,
        ground arith,
        ground arith,
        ground arith,
        ground (arith, eq_iff v.api_key_hash (hash key)),
      )
    ]
  ]

  -- The other direction: these facts suffice.
  authentication_complete :
      (key : ApiKey) (s : Rbac) (u : User) (uid : Uuid)
      → lookup (key_prefix key) s.api_key_to_user ≡ some uid
      → lookup uid s.users ≡ some u
      → u.enabled ≡ true
      → u.api_key_hash ≡ hash key
      → get_user_by_api_key hash key s ≡ some u
  unfolding get_user_by_api_key
  authentication_complete key s u uid e f on d =
      rw (e, get_user_by_api_key)
        (rw (f, get_user_by_api_key) (ground (arith, eq_iff u.api_key_hash (hash key))))

  authentication_refused :
      (key : ApiKey) (s : Rbac) (u : User) (uid : Uuid)
      → lookup (key_prefix key) s.api_key_to_user ≡ some uid
      → lookup uid s.users ≡ some u
      → u.api_key_hash ≢ hash key
      → get_user_by_api_key hash key s ≡ none
  unfolding get_user_by_api_key
  authentication_refused key s u uid e f d =
      rw (e, get_user_by_api_key)
        (rw (f, get_user_by_api_key) (ground (arith, eq_iff u.api_key_hash (hash key))))

  lookup-add_user_key :
      (u : User) (s : Rbac)
      → lookup u.api_key_prefix (add_user hash u s).api_key_to_user ≡ some u.id
  unfolding add_user
  lookup-add_user_key u s =
      rw (lookup-insert u.api_key_prefix u.api_key_prefix u.id s.api_key_to_user)
        (rw (beq_refl u.api_key_prefix))

  lookup-add_user : (u : User) (s : Rbac) → lookup u.id (add_user hash u s).users ≡ some u
  unfolding add_user
  lookup-add_user u s = rw (lookup-insert u.id u.id u s.users) (rw (beq_refl u.id))

  add_user-authenticate :
      (u : User) (key : ApiKey) (s : Rbac)
      → u.api_key_prefix ≡ key_prefix key
      → u.enabled ≡ true
      → u.api_key_hash ≡ hash key
      → get_user_by_api_key hash key (add_user hash u s) ≡ some u
  add_user-authenticate u key s p on d =
      authentication_complete key (add_user hash u s) u u.id
        (subst (λ z. lookup z (add_user hash u s).api_key_to_user ≡ some u.id) p
          (lookup-add_user_key u s))
        (lookup-add_user u s) on d

  created_parts :
      (fresh : Fresh) (name mail : String) (t : RoleType) (s s' : Rbac) (u : User) (key : ApiKey)
      → create_user hash fresh name mail t s ≡ some ((u, key), s')
      → (role_id : Uuid) × (new_user hash fresh name mail role_id ≡ u)
        × (generate_api_key fresh.token_hex ≡ key)
        × (add_user hash (new_user hash fresh name mail role_id) s ≡ s')
  unfolding create_user
  created_parts fresh name mail t s s' u key h =
      elim (Option-cases (first_of_type t (values s.roles))) [
        | inl e ↦ absurd (ground arith)
        | inr (role, e) ↦ (role.id, ground arith, ground arith, ground arith)
      ]

  -- The key that `create_user` hands out authenticates the new user.
  pub create_user-authenticate :
      (fresh : Fresh) (name mail : String) (t : RoleType) (s s' : Rbac) (u : User) (key : ApiKey)
      → create_user hash fresh name mail t s ≡ some ((u, key), s')
      → get_user_by_api_key hash key s' ≡ some u
  create_user-authenticate fresh name mail t s s' u key h =
      let (role_id, eu, ek, es) = created_parts fresh name mail t s s' u key h in
      rw (← eu, ← ek, ← es)
        (add_user-authenticate (new_user hash fresh name mail role_id)
          (generate_api_key fresh.token_hex) s refl refl refl)

  same_prefix :
      (d : ℕ) (t1 t2 : List ℕ)
      → key_prefix (generate_api_key (d ∷ t1)) ≡ key_prefix (generate_api_key (d ∷ t2))
  unfolding generate_api_key
  same_prefix d t1 t2 = refl

  -- The prefix that indexes the keys holds one random digit. A second user whose key begins with
  -- the same digit, and has another digest, takes the first user's place: the key that the first
  -- user was given is refused from then on.
  pub second_user_locks_out :
      (f1 f2 : Fresh) (n1 n2 m1 m2 : String) (r1 r2 : RoleType) (d : ℕ) (t1 t2 : List ℕ)
      (s s1 s2 : Rbac) (u v : User) (key key2 : ApiKey)
      → create_user hash f1 n1 m1 r1 s ≡ some ((u, key), s1)
      → create_user hash f2 n2 m2 r2 s1 ≡ some ((v, key2), s2)
      → f1.token_hex ≡ d ∷ t1
      → f2.token_hex ≡ d ∷ t2
      → hash key2 ≢ hash key
      → get_user_by_api_key hash key s2 ≡ none
  second_user_locks_out f1 f2 n1 n2 m1 m2 r1 r2 d t1 t2 s s1 s2 u v key key2 h1 h2 e1 e2 ne =
      let (role1, eu1, ek1, es1) = created_parts f1 n1 m1 r1 s s1 u key h1 in
      let (role2, eu2, ek2, es2) = created_parts f2 n2 m2 r2 s1 s2 v key2 h2 in
      let w = new_user hash f2 n2 m2 role2 in
      let p : w.api_key_prefix ≡ key_prefix key =
        ap (λ z. key_prefix (generate_api_key z)) e2
        ∙ same_prefix d t2 t1
        ∙ ap (λ z. key_prefix (generate_api_key z)) (sym e1)
        ∙ ap key_prefix ek1 in
      rw (← es2) (
        authentication_refused key (add_user hash w s1) w w.id
          (subst (λ z. lookup z (add_user hash w s1).api_key_to_user ≡ some w.id) p
            (lookup-add_user_key w s1))
          (lookup-add_user w s1) (λ q. ne (ap hash (sym ek2) ∙ q)))

  authentication_unknown :
      (key : ApiKey) (s : Rbac)
      → lookup (key_prefix key) s.api_key_to_user ≡ none
      → get_user_by_api_key hash key s ≡ none
  unfolding get_user_by_api_key
  authentication_unknown key s e = rw (e, get_user_by_api_key)

  abbrev rekeyed : Fresh → User → User
  rekeyed fresh u = record u {
    api_key_hash = hash (generate_api_key fresh.token_hex);
    api_key_prefix = key_prefix (generate_api_key fresh.token_hex);
  }

  abbrev rotated : Fresh → Uuid → Rbac → User → Rbac
  rotated fresh uid s u = record s {
    users = insert uid (rekeyed fresh u) s.users;
    api_key_to_user =
        insert (key_prefix (generate_api_key fresh.token_hex)) u.id
          (erase u.api_key_prefix s.api_key_to_user);
  }

  rotate_lem :
      (fresh : Fresh) (uid : Uuid) (s : Rbac) (u : User)
      → lookup uid s.users ≡ some u
      → (rotate_api_key hash fresh uid s).1 ≡ rotated fresh uid s u
  unfolding rotate_api_key
  rotate_lem fresh uid s u found = rw (found, rotate_api_key)

  module _ (fresh : Fresh) (uid : Uuid) (s : Rbac) (u : User) (same : u.id ≡ uid) where
    rotated_user : lookup u.id (rotated fresh uid s u).users ≡ some (rekeyed fresh u)
    rotated_user =
        rw (lookup-insert uid u.id (rekeyed fresh u) s.users) (ground (arith, eq_iff uid u.id))

    rotated_key :
        lookup
          (key_prefix (generate_api_key fresh.token_hex))
          (rotated fresh uid s u).api_key_to_user
        ≡ some u.id
    rotated_key =
        let k = key_prefix (generate_api_key fresh.token_hex) in
        rw (lookup-insert k k u.id (erase u.api_key_prefix s.api_key_to_user)) (rw (beq_refl k))

    rotated_old :
        (old : ApiKey)
        → key_prefix old ≡ u.api_key_prefix
        → hash (generate_api_key fresh.token_hex) ≢ hash old
        → get_user_by_api_key hash old (rotated fresh uid s u) ≡ none
    rotated_old old po ne =
        let k = key_prefix (generate_api_key fresh.token_hex) in
        elim (Bool-cases (k == key_prefix old)) [
          | inl e ↦
              authentication_refused old (rotated fresh uid s u) (rekeyed fresh u) u.id
                (subst (λ z. lookup z (rotated fresh uid s u).api_key_to_user ≡ some u.id)
                  ((codes_eq.beq_iff k (key_prefix old)).0 e) rotated_key)
                rotated_user ne
          | inr e ↦ authentication_unknown old (rotated fresh uid s u) (
              rw (lookup-insert k (key_prefix old) u.id (erase u.api_key_prefix s.api_key_to_user))
                (rw e (
                  rw (lookup-erase u.api_key_prefix (key_prefix old) s.api_key_to_user)
                    (rw ((codes_eq.beq_iff u.api_key_prefix (key_prefix old)).1 (sym po))))))
        ]

  -- After a rotation of the key of a stored user in a sound state, the new key authenticates the
  -- user, if enabled, and then a key with the old prefix whose digest is not the new key's
  -- authenticates nobody.
  pub rotate_api_key_swaps :
      (fresh : Fresh) (uid : Uuid) (s : Rbac) (u : User) (old : ApiKey)
      → IsSound s
      → lookup uid s.users ≡ some u
      → u.enabled ≡ true
      → key_prefix old ≡ u.api_key_prefix
      → hash (generate_api_key fresh.token_hex) ≢ hash old
      → let s' = (rotate_api_key hash fresh uid s).1 in
        let key = generate_api_key fresh.token_hex in
        (get_user_by_api_key hash key s'
          ≡ some (record u { api_key_hash = hash key; api_key_prefix = key_prefix key }))
        × (get_user_by_api_key hash old s' ≡ none)
  rotate_api_key_swaps fresh uid s u old h found on po ne =
      let same = h.keyed uid u found in
      rw (rotate_lem fresh uid s u found) (
        authentication_complete (generate_api_key fresh.token_hex) (rotated fresh uid s u)
            (rekeyed fresh u) u.id (rotated_key fresh uid s u same)
            (rotated_user fresh uid s u same) on refl,
        rotated_old fresh uid s u same old po ne,
      )

  -- Once a user is deleted from a sound state, no key authenticates anybody under that id.
  pub delete_user_revokes :
      (uid : Uuid) (s : Rbac) (key : ApiKey) (v : User)
      → IsSound s
      → get_user_by_api_key hash key (delete_user uid s).1 ≡ some v
      → v.id ≢ uid
  delete_user_revokes uid s key v h got =
      let (vid, e, found, on, d) = authentication_sound key (delete_user uid s).1 v got in
      let same : v.id ≡ vid = (delete_user-IsSound uid s h).keyed vid v found in
      λ q.
        deleted_gone uid s v
          (subst (λ z. lookup z (delete_user uid s).1.users ≡ some v) (sym same ∙ q) found)
