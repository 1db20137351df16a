-- ===== src/Rbac.antt =====
-- Role-based access control (src/gpuopt/rbac.py): `RBACManager` as a record of its three dicts,
-- each method a function to the new state, and `PermissionChecker`. UUIDs are texts, fresh ones are
-- arguments. An API key is its characters; the random part is an argument, and the SHA-256 digest
-- of a key is the parameter `hash`.
pub mod Roles
pub mod Auth
pub mod Permissions
mod Tests
use gpuopt.Base.{
  ℕ, String, Bool, true, false, ◌&&◌, ◌||◌, not, Option, none, some, List, [], ◌∷◌, ◌++◌, take,
  is_some, ◌==◌, string_eq, codes_eq, if◌then◌else◌,
}
use gpuopt.Base.Dict.{Dict, lookup, insert, erase, values}
use gpuopt.Base.Text.{codes}
use Roles.{
  RoleType, admin, operator, viewer, finops, developer, Permission, role_definitions, holds,
  role_type_eq, RoleType-discrete,
}

abbrev pub Uuid : Type 0
Uuid = String

abbrev pub ApiKey : Type 0
ApiKey = List ℕ

abbrev pub Digest : Type 0
Digest = String

pub record Role : Type 0 where
  pub id : Uuid
  pub name : String
  pub role_type : RoleType
  pub permissions : List Permission
  pub description : String
  pub is_system : Bool

pub record User : Type 0 where
  pub id : Uuid
  pub username : String
  pub email : String
  pub role_ids : List Uuid
  pub api_key_hash : Digest
  pub api_key_prefix : ApiKey
  pub enabled : Bool
  pub created_at : ℕ
  pub last_login : Option ℕ

pub record Rbac : Type 0 where
  pub users : Dict Uuid User
  pub roles : Dict Uuid Role
  pub api_key_to_user : Dict ApiKey Uuid

-- `role_type.value`
role_name : RoleType → String
role_name admin = "admin"
role_name operator = "operator"
role_name viewer = "viewer"
role_name finops = "finops"
role_name developer = "developer"

system_role : (RoleType → Uuid) → RoleType → Role
unfolding role_name role_definitions
system_role fresh t = record {
  id = fresh t;
  name = role_name t;
  role_type = t;
  permissions = role_definitions t;
  description = role_name t;
  is_system = true;
}

seed_roles : (RoleType → Uuid) → List RoleType → Dict Uuid Role → Dict Uuid Role
unfolding system_role
seed_roles fresh [] roles = roles
seed_roles fresh (t ∷ ts) roles = seed_roles fresh ts (insert (fresh t) (system_role fresh t) roles)

abbrev role_types : List RoleType
role_types = admin ∷ operator ∷ viewer ∷ finops ∷ developer ∷ []

unfoldable pub seed_system_roles : (RoleType → Uuid) → Dict Uuid Role → Dict Uuid Role
unfolding seed_roles
seed_system_roles fresh roles = seed_roles fresh role_types roles

-- `next((r for r in roles if r.role_type == role_type), None)`
pub first_of_type : RoleType → List Role → Option Role
unfolding RoleType-discrete
first_of_type t [] = none
first_of_type t (r ∷ rs) =
    let later = first_of_type t rs in if r.role_type == t then some r else later

-- "gpuopt_" and the 64 hexadecimal digits of `secrets.token_hex(32)`.
unfoldable pub generate_api_key : List ℕ → ApiKey
generate_api_key token_hex = codes "gpuopt_" ++ token_hex

-- `api_key[:8]`
abbrev pub key_prefix : ApiKey → ApiKey
key_prefix key = take 8 key

-- Assignments that `update_user` makes from its dict; `other` is any key that is protected or that
-- the user object lacks.
pub data Update : Type 0 where
  username email : String → Update
  role_ids : List Uuid → Update
  api_key_prefix : ApiKey → Update
  enabled : Bool → Update
  last_login : Option ℕ → Update
  other : Update

pub set_attr : Update → User → User
set_attr (Update.username v) u = record u { username = v }
set_attr (Update.email v) u = record u { email = v }
set_attr (Update.role_ids v) u = record u { role_ids = v }
set_attr (Update.api_key_prefix v) u = record u { api_key_prefix = v }
set_attr (Update.enabled v) u = record u { enabled = v }
set_attr (Update.last_login v) u = record u { last_login = v }
set_attr Update.other u = u

set_attrs : List Update → User → User
unfolding set_attr
set_attrs [] u = u
set_attrs (a ∷ rest) u = set_attrs rest (set_attr a u)

-- The fields of a request that the permission checker reads, and its answers: it returns, or
-- raises with status 401 or 403.
pub data Access : Type 0 where
  granted unauthenticated : Access
  forbidden : Permission → Access

-- What an operation hands out of fresh randomness and time.
pub record Fresh : Type 0 where
  pub user_id : Uuid
  pub token_hex : List ℕ
  pub now : ℕ

module _ (hash : ApiKey → Digest) where
  abbrev new_user : Fresh → String → String → Uuid → User
  new_user fresh name mail role_id = record {
    id = fresh.user_id;
    username = name;
    email = mail;
    role_ids = role_id ∷ [];
    api_key_hash = hash (generate_api_key fresh.token_hex);
    api_key_prefix = key_prefix (generate_api_key fresh.token_hex);
    enabled = true;
    created_at = fresh.now;
    last_login = none;
  }

  pub add_user : User → Rbac → Rbac
  add_user u s = record s {
    users = insert u.id u s.users;
    api_key_to_user = insert u.api_key_prefix u.id s.api_key_to_user;
  }

  -- `create_user`; `none` is the `ValueError` of an unknown role type.
  unfoldable pub create_user :
      Fresh → String → String → RoleType → Rbac → Option ((User × ApiKey) × Rbac)
  unfolding add_user first_of_type
  create_user fresh name mail t s = elim (first_of_type t (values s.roles)) [
    | none ↦ none
    | some role ↦ some (
      (new_user fresh name mail role.id, generate_api_key fresh.token_hex),
      add_user (new_user fresh name mail role.id) s,
    )
  ]

  seed_default_admin : Fresh → Rbac → Rbac
  unfolding add_user first_of_type
  seed_default_admin fresh s = elim (first_of_type admin (values s.roles)) [
    | none ↦ s
    | some role ↦ add_user (new_user fresh "admin" "admin@gpuopt.local" role.id) s
  ]

  -- `__init__`, and `reset`, which clears the dicts first.
  unfoldable pub reset : (RoleType → Uuid) → Fresh → Rbac
  unfolding seed_default_admin seed_system_roles
  reset role_id fresh =
      seed_default_admin fresh
        (record { users = []; roles = seed_system_roles role_id []; api_key_to_user = [] })

  unfoldable pub get_user_by_api_key : ApiKey → Rbac → Option User
  get_user_by_api_key key s = elim (lookup (key_prefix key) s.api_key_to_user) [
    | none ↦ none
    | some user_id ↦ elim (lookup user_id s.users) [
      | none ↦ none
      | some u ↦ if (u.api_key_hash == hash key) && u.enabled then some u else none
    ]
  ]

  unfoldable pub rotate_api_key : Fresh → Uuid → Rbac → Option ApiKey × Rbac
  rotate_api_key fresh user_id s = elim (lookup user_id s.users) [
    | none ↦ (none, s)
    | some u ↦
        let key = generate_api_key fresh.token_hex in
        let u' : User = record u { api_key_hash = hash key; api_key_prefix = key_prefix key } in
        (
          some key,
          record s {
            users = insert user_id u' s.users;
            api_key_to_user =
                insert (key_prefix key) u.id (erase u.api_key_prefix s.api_key_to_user);
          },
        )
  ]

pub get_user : Uuid → Rbac → Option User
get_user user_id s = lookup user_id s.users

unfoldable pub update_user : Uuid → List Update → Rbac → Option User × Rbac
unfolding set_attrs
update_user user_id updates s = elim (lookup user_id s.users) [
  | none ↦ (none, s)
  | some u ↦ (
    some (set_attrs updates u),
    record s { users = insert user_id (set_attrs updates u) s.users },
  )
]

unfoldable pub delete_user : Uuid → Rbac → Bool × Rbac
delete_user user_id s = elim (lookup user_id s.users) [
  | none ↦ (false, s)
  | some u ↦ (
    true,
    record s {
      users = erase user_id s.users;
      api_key_to_user = erase u.api_key_prefix s.api_key_to_user;
    },
  )
]

unfoldable pub create_role : Uuid → String → List Permission → String → Rbac → Role × Rbac
create_role fresh name permissions description s =
    let r : Role = record {
      id = fresh;
      name = name;
      role_type = viewer;
      permissions = permissions;
      description = description;
      is_system = false;
    } in
    (r, record s { roles = insert fresh r s.roles })

-- The loop of `get_user_permissions` over the user's roles.
pub collect_permissions : Dict Uuid Role → List Uuid → List Permission → List Permission
collect_permissions roles [] acc = acc
collect_permissions roles (rid ∷ rest) acc =
    collect_permissions roles rest
      (elim (lookup rid roles) [ none ↦ acc | some r ↦ acc ++ r.permissions ])

unfoldable pub get_user_permissions : Uuid → Rbac → List Permission
unfolding collect_permissions
get_user_permissions user_id s = elim (lookup user_id s.users) [
  | none ↦ []
  | some u ↦ collect_permissions s.roles u.role_ids []
]

unfoldable pub check_permission : Uuid → Permission → Rbac → Bool
check_permission user_id p s = holds p (get_user_permissions user_id s)

unfoldable pub check_api_key_permission : (ApiKey → Digest) → ApiKey → Permission → Rbac → Bool
check_api_key_permission hash key p s = elim (get_user_by_api_key hash key s) [
  | none ↦ false
  | some u ↦ holds p (get_user_permissions u.id s)
]

-- `PermissionChecker.__call__`; an empty text stands for a request without a user id.
unfoldable pub check_access : Bool → Permission → Uuid → Rbac → Access
check_access keyless p user_id s =
    let anonymous = user_id == "" || user_id == "system" in
    if keyless && anonymous
    then granted
    else if anonymous
    then unauthenticated
    else if not (check_permission user_id p s)
    then forbidden p
    else granted
