-- ===== src/Auth/Rbac/Tests.antt =====
-- The authorizer on small inputs, and its theorems at such inputs.
use bindxdb.Prelude.{◌≡◌, ◌↔◌, ◌⊎◌, inl, inr, refl, String, true, false, [], ◌∷◌, arith, Any, go}
use bindxdb.Auth.Types.{Role, AuthContext}
use bindxdb.Auth.Rbac.{
  RbacAuthorizer, new_rbac_authorizer, add_role, matches_permission, role_grants, any_match,
  direct_decides, authorize, get_permissions,
}
use bindxdb.Auth.Rbac.Matching.{Covers, matches_permission-Covers, Covers-matches_permission}
use bindxdb.Auth.Rbac.Decision.{Granted, FirstAllows, authorize_iff}
use bindxdb.Auth.Rbac.Listing.{listed_never_granted}

abbrev reader : Role
reader = record { name = "reader"; permissions = "table:read" ∷ "audit" ∷ []; description = "" }

abbrev writer : Role
writer = record { name = "writer"; permissions = "table:*" ∷ []; description = "" }

abbrev authorizer : RbacAuthorizer
authorizer = add_role new_rbac_authorizer reader

abbrev alice : AuthContext
alice = record {
  user_id = "1";
  username = "alice";
  roles = "reader" ∷ [];
  permissions = record { resource = "index"; action = "*"; effect = "deny" } ∷ [];
  token = "";
  authenticated = true;
  expires_at = 0;
}

bob : AuthContext
bob = record alice { roles = "writer" ∷ []; permissions = [] }

-- Opens the authorizer for evaluation.
run : Unit {0}
unfolding go authorize matches_permission role_grants any_match direct_decides add_role
    new_rbac_authorizer
run = tt

decisions :
    (authorize authorizer alice "table" "read" ≡ true)
    × (authorize authorizer alice "table" "write" ≡ false)
    × (authorize authorizer alice "index" "read" ≡ false)
unfolding run
decisions = (refl, refl, refl)

matches_permission-Covers_example : Covers "table:*" "table" "read"
unfolding run
matches_permission-Covers_example = matches_permission-Covers "table:*" "table" "read" refl

Covers-matches_permission_example : matches_permission "table:*" "table" "read" ≡ true
Covers-matches_permission_example =
    Covers-matches_permission "table:*" "table" "read" matches_permission-Covers_example

authorize_iff_example : (authorize authorizer alice "table" "read" ≡ true) ↔ (
    Granted "table" "read" authorizer.roles alice.roles
    ⊎ FirstAllows "table" "read" alice.permissions)
authorize_iff_example = authorize_iff authorizer alice "table" "read"

listed_never_granted_example :
    Any
      (λ p. p ≡ record { resource = "audit"; action = "*"; effect = "allow" })
      (get_permissions authorizer alice)
    × ((resource action : String) → matches_permission "audit" resource action ≡ false)
unfolding run
listed_never_granted_example =
    listed_never_granted authorizer alice reader "audit" (inl refl) (inr (inl refl)) (omega arith)
