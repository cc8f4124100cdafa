-- ===== src/Auth/Rbac/Listing.antt =====
-- What GetPermissions lists.
use bindxdb.Prelude.{
  String, ◌≡◌, refl, inl, inr, true, false, some, List, [], ◌∷◌, arith, Dict, lookup, has_key,
  has_key-insert, eq_iff, Bool-cases, Option-cases, Any, Any-append_left, Any-append_right,
  split-Lacks, Lacks,
}
use bindxdb.Auth.Types.{Role, Permission, AuthContext}
use bindxdb.Auth.Rbac.{
  RbacAuthorizer, match_parts, matches_permission, parse_permission, role_permission, spelled,
  Listed, list_role_perm, list_role, list_named, list_roles, list_direct_perm, list_direct,
  get_permissions,
}

-- Every key that was seen has its permission in the list.
record Inv (l : Listed) : Type 0 where
  listed : (k : String) → has_key k l.seen ≡ true → Any (λ p. p ≡ role_permission k) l.permissions

list_role_perm-Inv : (l : Listed) (perm : String) → Inv l → Inv (list_role_perm l perm)
unfolding list_role_perm
list_role_perm-Inv l perm h = elim (Bool-cases (has_key perm l.seen)) [
  | inl old ↦ rw old h
  | inr new ↦ rw new (record {
    listed = λ k e. elim (Bool-cases (has_key k l.seen)) [
      | inl before ↦ Any-append_left _ l.permissions _ (h.listed k before)
      | inr after ↦
          let same : perm ≡ k = ground (arith, has_key-insert perm k true l.seen, eq_iff perm k) in
          Any-append_right _ l.permissions _ (inl (rw same refl))
    ];
  })
]

list_role-Inv : (l : Listed) (perms : List String) → Inv l → Inv (list_role l perms)
unfolding list_role
list_role-Inv l [] h = h
list_role-Inv l (p ∷ ps) h = list_role-Inv (list_role_perm l p) ps (list_role_perm-Inv l p h)

-- What was seen stays seen.
seen-list_role_perm :
    (l : Listed) (perm k : String)
    → has_key k l.seen ≡ true
    → has_key k (list_role_perm l perm).seen ≡ true
unfolding list_role_perm
seen-list_role_perm l perm k h = ground (arith, has_key-insert perm k true l.seen)

seen-list_role_perm_self :
    (l : Listed) (perm : String) → has_key perm (list_role_perm l perm).seen ≡ true
unfolding list_role_perm
seen-list_role_perm_self l perm =
    ground (arith, has_key-insert perm perm true l.seen, eq_iff perm perm)

seen-list_role :
    (l : Listed) (perms : List String) (k : String)
    → has_key k l.seen ≡ true
    → has_key k (list_role l perms).seen ≡ true
unfolding list_role
seen-list_role l [] k h = h
seen-list_role l (p ∷ ps) k h =
    seen-list_role (list_role_perm l p) ps k (seen-list_role_perm l p k h)

seen-list_role_self :
    (l : Listed) (perms : List String) (k : String)
    → Any (λ p. p ≡ k) perms
    → has_key k (list_role l perms).seen ≡ true
unfolding list_role
seen-list_role_self l [] k h = absurd h
seen-list_role_self l (p ∷ ps) k (inl e) =
    seen-list_role (list_role_perm l p) ps k (rw (← e) (seen-list_role_perm_self l p))
seen-list_role_self l (p ∷ ps) k (inr rest) = seen-list_role_self (list_role_perm l p) ps k rest

module _ (table : Dict Role) where
  list_named-Inv : (l : Listed) (n : String) → Inv l → Inv (list_named table l n)
  unfolding list_named
  list_named-Inv l n h = elim (Option-cases (lookup n table)) [
    | inl missing ↦ rw (missing, list_named) h
    | inr (role, found) ↦ rw (found, list_named) (list_role-Inv l role.permissions h)
  ]

  list_roles-Inv : (l : Listed) (names : List String) → Inv l → Inv (list_roles table l names)
  unfolding list_roles
  list_roles-Inv l [] h = h
  list_roles-Inv l (n ∷ ns) h = list_roles-Inv (list_named table l n) ns (list_named-Inv l n h)

  seen-list_named :
      (l : Listed) (n k : String)
      → has_key k l.seen ≡ true
      → has_key k (list_named table l n).seen ≡ true
  unfolding list_named
  seen-list_named l n k h = elim (Option-cases (lookup n table)) [
    | inl missing ↦ rw (missing, list_named) h
    | inr (role, found) ↦ rw (found, list_named) (seen-list_role l role.permissions k h)
  ]

  seen-list_named_self :
      (l : Listed) (n : String) (role : Role) (k : String)
      → lookup n table ≡ some role
      → Any (λ p. p ≡ k) role.permissions
      → has_key k (list_named table l n).seen ≡ true
  unfolding list_named
  seen-list_named_self l n role k found m =
      rw (found, list_named) (seen-list_role_self l role.permissions k m)

  seen-list_roles :
      (l : Listed) (names : List String) (k : String)
      → has_key k l.seen ≡ true
      → has_key k (list_roles table l names).seen ≡ true
  unfolding list_roles
  seen-list_roles l [] k h = h
  seen-list_roles l (n ∷ ns) k h =
      seen-list_roles (list_named table l n) ns k (seen-list_named l n k h)

  seen-list_roles_self :
      (l : Listed) (names : List String) (role : Role) (k : String)
      → Any (λ n. lookup n table ≡ some role) names
      → Any (λ p. p ≡ k) role.permissions
      → has_key k (list_roles table l names).seen ≡ true
  unfolding list_roles
  seen-list_roles_self l [] role k h m = absurd h
  seen-list_roles_self l (n ∷ ns) role k (inl found) m =
      seen-list_roles (list_named table l n) ns k (seen-list_named_self l n role k found m)
  seen-list_roles_self l (n ∷ ns) role k (inr rest) m =
      seen-list_roles_self (list_named table l n) ns role k rest m

-- The list only grows in the second loop.
list_direct_perm-Any :
    (P : Permission → Type 0) (l : Listed) (p : Permission)
    → Any P l.permissions
    → Any P (list_direct_perm l p).permissions
unfolding list_direct_perm
list_direct_perm-Any P l p h = elim (Bool-cases (has_key (spelled p) l.seen)) [
  | inl old ↦ rw (old, list_direct_perm, Any) h
  | inr new ↦ rw (new, list_direct_perm, Any) (Any-append_left P l.permissions _ h)
]

list_direct-Any :
    (P : Permission → Type 0) (l : Listed) (perms : List Permission)
    → Any P l.permissions
    → Any P (list_direct l perms).permissions
unfolding list_direct
list_direct-Any P l [] h = h
list_direct-Any P l (p ∷ ps) h =
    list_direct-Any P (list_direct_perm l p) ps (list_direct_perm-Any P l p h)

-- Every permission of a registered role that the context holds is listed with effect "allow".
pub get_permissions_complete :
    (r : RbacAuthorizer) (ctx : AuthContext) (role : Role) (perm : String)
    → Any (λ n. lookup n r.roles ≡ some role) ctx.roles
    → Any (λ p. p ≡ perm) role.permissions
    → Any (λ p. p ≡ role_permission perm) (get_permissions r ctx)
unfolding get_permissions has_key lookup
get_permissions_complete r ctx role perm held has =
    let start : Listed = record { permissions = []; seen = [] } in
    list_direct-Any _ (list_roles r.roles start ctx.roles) ctx.permissions (
      (list_roles-Inv r.roles start ctx.roles (record { listed = λ k e. cc })).listed perm
        (seen-list_roles_self r.roles start ctx.roles role perm held has))

-- A role permission with no colon is listed as allowing every action on the resource it names,
-- and yet it covers no request at all.
pub listed_never_granted :
    (r : RbacAuthorizer) (ctx : AuthContext) (role : Role) (perm : String)
    → Any (λ n. lookup n r.roles ≡ some role) ctx.roles
    → Any (λ p. p ≡ perm) role.permissions
    → Lacks b':' perm
    → Any
        (λ p. p ≡ record { resource = perm; action = "*"; effect = "allow" })
        (get_permissions r ctx)
      × ((resource action : String) → matches_permission perm resource action ≡ false)
unfolding role_permission parse_permission matches_permission match_parts
listed_never_granted r ctx role perm held has plain = (
  rw (split-Lacks b':' perm plain) at (get_permissions_complete r ctx role perm held has),
  λ resource action. rw (split-Lacks b':' perm plain) refl,
)
