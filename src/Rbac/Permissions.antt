-- ===== src/Rbac/Permissions.antt =====
-- What permissions a user has, and what the permission checker lets through.
use gpuopt.Base.{
  Bool, true, false, ◌||◌, ◌≡◌, ◌↔◌, inl, inr, refl, Option, none, some, List, [], ◌∷◌, ◌++◌, any,
  arith, ◌==◌, string_eq, if◌then◌else◌, Option-cases, ◌∙◌,
}
use gpuopt.Base.Dict.{Dict, lookup}
use gpuopt.Rbac.Roles.{
  RoleType, admin, operator, viewer, finops, developer, Permission, role_definitions, holds,
  holds-append, rbac_manage, permission_eq,
}
use gpuopt.Rbac.{
  Uuid, Role, User, Rbac, collect_permissions, get_user_permissions, check_permission, check_access,
  granted, unauthenticated, forbidden,
}

-- The role under the id is there and has the permission.
pub grants : Dict Uuid Role → Permission → Uuid → Bool
grants roles p rid = elim (lookup rid roles) [ none ↦ false | some r ↦ holds p r.permissions ]

grants-none :
    (p : Permission) (roles : Dict Uuid Role) (rid : Uuid)
    → lookup rid roles ≡ none
    → grants roles p rid ≡ false
unfolding grants
grants-none p roles rid e = rw (e, grants)

grants-some :
    (p : Permission) (roles : Dict Uuid Role) (rid : Uuid) (r : Role)
    → lookup rid roles ≡ some r
    → grants roles p rid ≡ holds p r.permissions
unfolding grants
grants-some p roles rid r e = rw (e, grants)

collect_permissions_lem :
    (p : Permission) (roles : Dict Uuid Role) (rids : List Uuid) (acc : List Permission)
    → holds p (collect_permissions roles rids acc) ≡ (holds p acc || any (grants roles p) rids)
unfolding collect_permissions
collect_permissions_lem p roles [] acc = ground arith
collect_permissions_lem p roles (rid ∷ rest) acc = elim (Option-cases (lookup rid roles)) [
  | inl e ↦
      rw (e, collect_permissions)
        (ground (arith, grants-none p roles rid e, collect_permissions_lem p roles rest acc))
  | inr (r, e) ↦
      rw (e, collect_permissions)
        (ground (
          arith,
          grants-some p roles rid r e,
          collect_permissions_lem p roles rest (acc ++ r.permissions),
          holds-append p acc r.permissions,
        ))
]

abbrev pub granted_roles : Option User → List Uuid
granted_roles none = []
granted_roles (some u) = u.role_ids

holds_nothing : (p : Permission) → holds p [] ≡ false
unfolding holds
holds_nothing p = refl

-- A permission is granted exactly to a known user of whom one role, at least, is known and has it.
pub check_permission_exact :
    (uid : Uuid) (p : Permission) (s : Rbac)
    → check_permission uid p s ≡ any (grants s.roles p) (granted_roles (lookup uid s.users))
unfolding check_permission get_user_permissions
check_permission_exact uid p s = elim (Option-cases (lookup uid s.users)) [
  | inl e ↦ rw (e, get_user_permissions) (holds_nothing p)
  | inr (u, e) ↦
      rw (e, get_user_permissions)
        (collect_permissions_lem p s.roles u.role_ids [] ∙ ground (arith, holds_nothing p))
]

abbrev pub is_anonymous : Uuid → Bool
is_anonymous uid = uid == "" || uid == "system"

-- The checker grants an anonymous request exactly in keyless mode, and another exactly if its user
-- has the permission; it answers 401 to the other anonymous requests, and 403 to all else.
pub check_access_exact :
    (keyless : Bool) (p : Permission) (uid : Uuid) (s : Rbac)
    → check_access keyless p uid s ≡ (
        if is_anonymous uid
        then (if keyless then granted else unauthenticated)
        else (if any (grants s.roles p) (granted_roles (lookup uid s.users))
            then granted
            else forbidden p))
unfolding check_access
check_access_exact keyless p uid s = ground (arith, check_permission_exact uid p s)

admin_holds_all : (p : Permission) → holds p (role_definitions admin) ≡ true
unfolding holds role_definitions
admin_holds_all Permission.cluster_create = refl
admin_holds_all _ = refl

-- The administrator holds every permission, and no other system role may manage access.
pub system_roles_bounded :
    (t : RoleType) (p : Permission)
    → (holds p (role_definitions admin) ≡ true)
      × ((holds rbac_manage (role_definitions t) ≡ true) ↔ (t ≡ admin))
unfolding holds role_definitions
system_roles_bounded admin p = (admin_holds_all p, ((λ h. refl), (λ h. refl)))
system_roles_bounded operator p = (admin_holds_all p, ((λ h. cc), (λ h. cc)))
system_roles_bounded viewer p = (admin_holds_all p, ((λ h. cc), (λ h. cc)))
system_roles_bounded finops p = (admin_holds_all p, ((λ h. cc), (λ h. cc)))
system_roles_bounded developer p = (admin_holds_all p, ((λ h. cc), (λ h. cc)))
