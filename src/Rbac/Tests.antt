-- ===== src/Rbac/Tests.antt =====
-- Access control at concrete inputs. The digest is a stand-in that tells keys apart by their last
-- character.
use gpuopt.Base.{
  ℕ, true, ◌≡◌, ◌≢◌, refl, none, some, List, [], ◌∷◌, any, arith, string_eq, nat_eq, codes_eq,
  eq_iff, ◌==◌, if◌then◌else◌,
}
use gpuopt.Base.Dict.{lookup, Rows-insert}
use gpuopt.Rbac.Roles.{viewer, cluster_read}
use gpuopt.Rbac.{
  Uuid, ApiKey, Digest, User, Rbac, Role, Fresh, generate_api_key, key_prefix, new_user,
  create_user, get_user_by_api_key, rotate_api_key, delete_user, check_permission,
}
use gpuopt.Rbac.Auth.{
  IsSound, authentication_sound, create_user-authenticate, rotate_api_key_swaps,
  delete_user_revokes,
}
use gpuopt.Rbac.Permissions.{grants, granted_roles, check_permission_exact}

-- The last character of the key.
abbrev last_code : List ℕ → ℕ
last_code [] = 0
last_code (x ∷ []) = x
last_code (x ∷ y ∷ r) = last_code (y ∷ r)

abbrev digest : ApiKey → Digest
digest key = if last_code key == 1 then "one" else "other"

abbrev viewer_role : Role
viewer_role = record {
  id = "role-v";
  name = "viewer";
  role_type = viewer;
  permissions = cluster_read ∷ [];
  description = "";
  is_system = true;
}

abbrev start : Rbac
start = record { users = []; roles = ("role-v", viewer_role) ∷ []; api_key_to_user = [] }

abbrev first : Fresh
first = record { user_id = "u1"; token_hex = 97 ∷ 1 ∷ []; now = 3 }

abbrev second : Fresh
second = record { user_id = "u2"; token_hex = 97 ∷ 2 ∷ []; now = 4 }

abbrev ann : User
ann = new_user digest first "ann" "ann@x" "role-v"

abbrev bob : User
bob = new_user digest second "bob" "bob@x" "role-v"

abbrev with_ann : Rbac
with_ann = record start {
  users = ("u1", ann) ∷ [];
  api_key_to_user = (key_prefix (generate_api_key (97 ∷ 1 ∷ [])), "u1") ∷ [];
}

abbrev with_both : Rbac
with_both = record start {
  users = ("u1", ann) ∷ ("u2", bob) ∷ [];
  api_key_to_user = (key_prefix (generate_api_key (97 ∷ 2 ∷ [])), "u2") ∷ [];
}

abbrev ann_key : ApiKey
ann_key = generate_api_key (97 ∷ 1 ∷ [])

abbrev bob_key : ApiKey
bob_key = generate_api_key (97 ∷ 2 ∷ [])

create_ann : create_user digest first "ann" "ann@x" viewer start ≡ some ((ann, ann_key), with_ann)
unfolding create_user generate_api_key
create_ann = refl

create_bob :
    create_user digest second "bob" "bob@x" viewer with_ann ≡ some ((bob, bob_key), with_both)
unfolding create_user generate_api_key
create_bob = refl

create_user-authenticate_example : get_user_by_api_key digest ann_key with_ann ≡ some ann
create_user-authenticate_example =
    create_user-authenticate digest first "ann" "ann@x" viewer start with_ann ann ann_key create_ann

digests_differ : digest bob_key ≢ digest ann_key
unfolding generate_api_key
digests_differ = λ h. ground (arith, eq_iff "one" "other", h)

authentication_sound_example :
    (uid : Uuid) × (lookup (key_prefix ann_key) with_ann.api_key_to_user ≡ some uid)
    × (lookup uid with_ann.users ≡ some ann)
    × (ann.enabled ≡ true)
    × (ann.api_key_hash ≡ digest ann_key)
authentication_sound_example =
    authentication_sound digest ann_key with_ann ann create_user-authenticate_lem
  where
    create_user-authenticate_lem : get_user_by_api_key digest ann_key with_ann ≡ some ann
    create_user-authenticate_lem =
        create_user-authenticate digest first "ann" "ann@x" viewer start with_ann ann ann_key
          create_ann

with_ann-IsSound : IsSound with_ann
with_ann-IsSound = record { keyed = Rows-insert (λ k u. u.id ≡ k) "u1" ann [] refl (λ j q e. cc) }

rotate_api_key_swaps_example :
    let s' = (rotate_api_key digest second "u1" with_ann).1 in
    (get_user_by_api_key digest bob_key s'
      ≡ some (record ann { api_key_hash = digest bob_key; api_key_prefix = key_prefix bob_key }))
    × (get_user_by_api_key digest ann_key s' ≡ none)
rotate_api_key_swaps_example =
    rotate_api_key_swaps digest second "u1" with_ann ann ann_key with_ann-IsSound refl refl refl
      digests_differ

with_both-IsSound : IsSound with_both
with_both-IsSound = record {
  keyed = Rows-insert (λ k u. u.id ≡ k) "u2" bob (("u1", ann) ∷ []) refl with_ann-IsSound.keyed;
}

-- The same with keys of different prefixes.
abbrev apart : Rbac
apart = record with_both { users = ("u1", record ann { api_key_prefix = [] }) ∷ ("u2", bob) ∷ [] }

apart-IsSound : IsSound apart
apart-IsSound = record {
  keyed =
      Rows-insert (λ k u. u.id ≡ k) "u2" bob (("u1", record ann { api_key_prefix = [] }) ∷ []) refl
        (Rows-insert (λ k u. u.id ≡ k) "u1" (record ann { api_key_prefix = [] }) [] refl
          (λ j q e. cc));
}

bob_stays : get_user_by_api_key digest bob_key (delete_user "u1" apart).1 ≡ some bob
unfolding get_user_by_api_key delete_user generate_api_key
bob_stays = refl

delete_user_revokes_example : bob.id ≢ "u1"
delete_user_revokes_example =
    delete_user_revokes digest "u1" apart bob_key bob apart-IsSound bob_stays

check_permission_exact_example :
    check_permission "u1" cluster_read with_ann
    ≡ any (grants with_ann.roles cluster_read) (granted_roles (lookup "u1" with_ann.users))
check_permission_exact_example = check_permission_exact "u1" cluster_read with_ann
