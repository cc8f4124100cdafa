-- ===== src/Auth/Rbac/Decision.antt =====
-- What Authorize decides.
use bindxdb.Prelude.{
  String, ◌≡◌, ◌≢◌, ◌↔◌, ◌⊎◌, inl, inr, refl, true, some, List, [], ◌∷◌, arith, Dict, lookup,
  insert, lookup-insert, eq_iff, Bool-cases, Option-cases, All, Any, Any-map,
}
use bindxdb.Auth.Types.{Role, Permission, AuthContext}
use bindxdb.Auth.Rbac.{
  RbacAuthorizer, add_role, assign_role, matches_permission, any_match, role_grants, spelled,
  direct_decides, authorize,
}
use bindxdb.Auth.Rbac.Matching.{Covers, matches_permission-Covers, Covers-matches_permission}

module _ (resource action : String) where
  -- Some role of the list is registered and has a permission that covers the request.
  abbrev pub Granted : Dict Role → List String → Type 0
  Granted table names =
      Any
        (λ name.
          (role : Role) × (lookup name table ≡ some role)
          × Any (λ perm. Covers perm resource action) role.permissions)
        names

  -- The first permission of the list that covers the request has the effect "allow".
  abbrev pub FirstAllows : List Permission → Type 0
  FirstAllows [] = ⊥
  FirstAllows (p ∷ ps) =
      Covers (spelled p) resource action × (p.effect ≡ "allow")
      ⊎ (¬ Covers (spelled p) resource action) × FirstAllows ps

  any_match-Any :
      (perms : List String)
      → any_match perms resource action ≡ true
      → Any (λ perm. Covers perm resource action) perms
  unfolding any_match
  any_match-Any [] h = cc
  any_match-Any (p ∷ ps) h = elim (Bool-cases (matches_permission p resource action)) [
    | inl hit ↦ inl (matches_permission-Covers p resource action hit)
    | inr miss ↦ inr (any_match-Any ps (ground arith))
  ]

  any_match_of_Any :
      (perms : List String)
      → Any (λ perm. Covers perm resource action) perms
      → any_match perms resource action ≡ true
  unfolding any_match
  any_match_of_Any [] h = absurd h
  any_match_of_Any (p ∷ ps) (inl c) = ground (arith, Covers-matches_permission p resource action c)
  any_match_of_Any (p ∷ ps) (inr rest) = ground (arith, any_match_of_Any ps rest)

  role_grants-Granted :
      (table : Dict Role) (names : List String)
      → role_grants table names resource action ≡ true
      → Granted table names
  unfolding role_grants
  role_grants-Granted table [] h = cc
  role_grants-Granted table (n ∷ ns) h = elim (Option-cases (lookup n table)) [
    | inl missing ↦ inr (role_grants-Granted table ns (ground arith))
    | inr (role, found) ↦ elim (Bool-cases (any_match role.permissions resource action)) [
      | inl hit ↦ inl (role, found, any_match-Any role.permissions hit)
      | inr miss ↦ inr (role_grants-Granted table ns (ground arith))
    ]
  ]

  role_grants_of_Granted :
      (table : Dict Role) (names : List String)
      → Granted table names
      → role_grants table names resource action ≡ true
  unfolding role_grants
  role_grants_of_Granted table [] h = absurd h
  role_grants_of_Granted table (n ∷ ns) (inl (role, found, hit)) =
      ground (arith, any_match_of_Any role.permissions hit)
  role_grants_of_Granted table (n ∷ ns) (inr rest) =
      ground (arith, role_grants_of_Granted table ns rest)

  direct_decides-FirstAllows :
      (perms : List Permission) → direct_decides perms resource action ≡ true → FirstAllows perms
  unfolding direct_decides
  direct_decides-FirstAllows [] h = cc
  direct_decides-FirstAllows (p ∷ ps) h =
      elim (Bool-cases (matches_permission (spelled p) resource action)) [
        | inl hit ↦ inl (
          matches_permission-Covers (spelled p) resource action hit,
          ground (arith, eq_iff p.effect "allow"),
        )
        | inr miss ↦ inr (
          λ c. ground (arith, Covers-matches_permission (spelled p) resource action c),
          direct_decides-FirstAllows ps (ground arith),
        )
      ]

  direct_decides_of_FirstAllows :
      (perms : List Permission) → FirstAllows perms → direct_decides perms resource action ≡ true
  unfolding direct_decides
  direct_decides_of_FirstAllows [] h = absurd h
  direct_decides_of_FirstAllows (p ∷ ps) (inl (c, allows)) =
      ground
        (arith, Covers-matches_permission (spelled p) resource action c, eq_iff p.effect "allow")
  direct_decides_of_FirstAllows (p ∷ ps) (inr (other, rest)) =
      elim (Bool-cases (matches_permission (spelled p) resource action)) [
        | inl hit ↦ absurd (other (matches_permission-Covers (spelled p) resource action hit))
        | inr miss ↦ ground (arith, direct_decides_of_FirstAllows ps rest)
      ]

-- A request is authorized exactly when a registered role of the context has a permission that
-- covers it, or the first of the context's own permissions that covers it has effect "allow".
pub authorize_iff :
    (r : RbacAuthorizer) (ctx : AuthContext) (resource action : String)
    → (authorize r ctx resource action ≡ true)
      ↔ (Granted resource action r.roles ctx.roles ⊎ FirstAllows resource action ctx.permissions)
unfolding authorize
authorize_iff r ctx resource action = (
  λ h. elim (Bool-cases (role_grants r.roles ctx.roles resource action)) [
    | inl hit ↦ inl (role_grants-Granted resource action r.roles ctx.roles hit)
    | inr miss ↦ inr (direct_decides-FirstAllows resource action ctx.permissions (ground arith))
  ],
  elim [
    | inl g ↦ ground (arith, role_grants_of_Granted resource action r.roles ctx.roles g)
    | inr d ↦ ground (arith, direct_decides_of_FirstAllows resource action ctx.permissions d)
  ],
)

-- Assigning a role to a user changes no decision: Authorize reads only the roles of the context.
pub authorize-assign_role :
    (r : RbacAuthorizer) (user_id role_name : String) (ctx : AuthContext) (resource action : String)
    → authorize (assign_role r user_id role_name) ctx resource action
      ≡ authorize r ctx resource action
unfolding authorize assign_role
authorize-assign_role r user_id role_name ctx resource action = refl

role_grants-insert_ne :
    (table : Dict Role) (role : Role) (names : List String) (resource action : String)
    → All (λ n. n ≢ role.name) names
    → role_grants (insert role.name role table) names resource action
      ≡ role_grants table names resource action
unfolding role_grants
role_grants-insert_ne table role [] resource action h = refl
role_grants-insert_ne table role (n ∷ ns) resource action h = ground (
  arith,
  lookup-insert role.name n role table,
  eq_iff role.name n,
  role_grants-insert_ne table role ns resource action h.1,
)

-- Adding a role leaves every decision for a context without that role as it was.
pub authorize-add_role_ne :
    (r : RbacAuthorizer) (role : Role) (ctx : AuthContext) (resource action : String)
    → All (λ n. n ≢ role.name) ctx.roles
    → authorize (add_role r role) ctx resource action ≡ authorize r ctx resource action
unfolding authorize add_role
authorize-add_role_ne r role ctx resource action h =
    rw (role_grants-insert_ne r.roles role ctx.roles resource action h)

-- After AddRole, a context that holds the role is authorized for all that the role covers.
pub authorize-add_role_self :
    (r : RbacAuthorizer) (role : Role) (ctx : AuthContext) (resource action : String)
    → Any (λ n. n ≡ role.name) ctx.roles
    → Any (λ perm. Covers perm resource action) role.permissions
    → authorize (add_role r role) ctx resource action ≡ true
authorize-add_role_self r role ctx resource action held covered =
    (authorize_iff (add_role r role) ctx resource action).1 (
      inl (
        Any-map
          (λ n e. (
            role,
            unfold add_role in
                ground (arith, lookup-insert role.name n role r.roles, eq_iff role.name n),
            covered,
          ))
          ctx.roles held))
