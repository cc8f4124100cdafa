-- ===== src/Auth/Rbac.antt =====
-- pkg/auth/rbac/authorizer.go. The maps are dictionaries, a method that writes returns the new
-- authorizer; the `error` results of `Authorize` and `GetPermissions` are always nil and left out.
pub mod Matching
pub mod Decision
pub mod Listing
mod Tests
use Prim.Native.String.{◌++◌ as append}
use bindxdb.Prelude.{
  String, Bool, true, false, ◌&&◌, ◌||◌, Option, none, some, List, [], ◌∷◌, ◌++◌, Dict, lookup,
  insert, has_key, split, ◌==◌, if◌then◌else◌,
}
use bindxdb.Auth.Types.{Role, Permission, AuthContext}

pub record RbacAuthorizer : Type 0 where
  pub roles : Dict Role
  pub user_roles : Dict (List String)
  pub permissions : Dict (Dict String)

pub new_rbac_authorizer : RbacAuthorizer
new_rbac_authorizer = record { roles = []; user_roles = []; permissions = [] }

-- The value of m[k] in Go, where a missing key reads as nil.
read {ℓ} : {A : Type ℓ} → String → Dict (List A) → List A
read k m = elim (lookup k m) [ none ↦ [] | some l ↦ l ]

-- The loop of AddRole over the permissions of the role.
allow_all : List String → Dict (Dict String) → Dict (Dict String)
unfolding read
allow_all [] table = table
allow_all (perm ∷ perms) table =
    allow_all perms (insert perm (insert "*" "allow" (read perm table)) table)

pub add_role : RbacAuthorizer → Role → RbacAuthorizer
unfolding allow_all
add_role r role = record r {
  roles = insert role.name role r.roles;
  permissions = allow_all role.permissions r.permissions;
}

pub assign_role : RbacAuthorizer → String → String → RbacAuthorizer
unfolding read
assign_role r user_id role_name = record r {
  user_roles = insert user_id (read user_id r.user_roles ++ role_name ∷ []) r.user_roles;
}

-- Whether the parts of a permission cover a request.
match_parts : List String → String → String → Bool
match_parts (perm_resource ∷ perm_action ∷ []) resource action =
    (perm_resource == "*" || perm_resource == resource)
    && (perm_action == "*" || perm_action == action)
match_parts _ resource action = false

pub matches_permission : String → String → String → Bool
unfolding match_parts
matches_permission perm resource action = match_parts (split b':' perm) resource action

pair_parts : String → List String → String × String
pair_parts perm (resource ∷ action ∷ []) = (resource, action)
pair_parts perm _ = (perm, "*")

pub parse_permission : String → String × String
unfolding pair_parts
parse_permission perm = pair_parts perm (split b':' perm)

-- The inner loop of Authorize: whether some permission of a role covers the request.
any_match : List String → String → String → Bool
any_match [] resource action = false
any_match (perm ∷ perms) resource action =
    matches_permission perm resource action || any_match perms resource action

-- The loop of Authorize over the roles of the context; an unknown role is passed over.
role_grants : Dict Role → List String → String → String → Bool
role_grants table [] resource action = false
role_grants table (name ∷ names) resource action =
    let rest = role_grants table names resource action in
    elim (lookup name table) [
      | none ↦ rest
      | some role ↦ any_match role.permissions resource action || rest
    ]

-- perm.Resource + ":" + perm.Action
abbrev pub spelled : Permission → String
spelled p = append p.resource (append ":" p.action)

-- The loop of Authorize over the permissions of the context: the first that covers decides.
direct_decides : List Permission → String → String → Bool
direct_decides [] resource action = false
direct_decides (perm ∷ perms) resource action =
    let rest = direct_decides perms resource action in
    if matches_permission (spelled perm) resource action then perm.effect == "allow" else rest

pub authorize : RbacAuthorizer → AuthContext → String → String → Bool
authorize r ctx resource action =
    role_grants r.roles ctx.roles resource action || direct_decides ctx.permissions resource action

-- What GetPermissions has appended and seen so far; `seen` has the keys set to true.
pub record Listed : Type 0 where
  pub permissions : List Permission
  pub seen : Dict Bool

-- The permission that GetPermissions reports for a permission of a role.
pub role_permission : String → Permission
role_permission perm =
    let (resource, action) = parse_permission perm in
    record { resource = resource; action = action; effect = "allow" }

list_role_perm : Listed → String → Listed
list_role_perm l perm = if has_key perm l.seen then l else record {
  permissions = l.permissions ++ role_permission perm ∷ [];
  seen = insert perm true l.seen;
}

list_role : Listed → List String → Listed
list_role l [] = l
list_role l (perm ∷ perms) = list_role (list_role_perm l perm) perms

list_named : Dict Role → Listed → String → Listed
list_named table l name = elim (lookup name table) [
  | none ↦ l
  | some role ↦ list_role l role.permissions
]

list_roles : Dict Role → Listed → List String → Listed
list_roles table l [] = l
list_roles table l (name ∷ names) = list_roles table (list_named table l name) names

list_direct_perm : Listed → Permission → Listed
list_direct_perm l perm = if has_key (spelled perm) l.seen then l else record {
  permissions = l.permissions ++ perm ∷ [];
  seen = insert (spelled perm) true l.seen;
}

list_direct : Listed → List Permission → Listed
list_direct l [] = l
list_direct l (perm ∷ perms) = list_direct (list_direct_perm l perm) perms

pub get_permissions : RbacAuthorizer → AuthContext → List Permission
get_permissions r ctx =
    (list_direct (list_roles r.roles (record { permissions = []; seen = [] }) ctx.roles)
      ctx.permissions).permissions
