-- ===== src/Auth/Middleware/Tests.antt =====
-- The middleware at one request with a valid token.
use bindxdb.Prelude.{◌≡◌, ◌↔◌, refl, true, some, none, [], ◌∷◌, Any, has_prefix, go, ok}
use bindxdb.Auth.Types.{AuthContext, AuthResult, Role}
use bindxdb.Auth.Rbac.{new_rbac_authorizer, add_role, authorize}
use bindxdb.Auth.Middleware.{
  Authorizer, Request, next, status, Provider, result, AuthMiddleware, new_auth_middleware,
  add_provider, middleware, require_permission, followed_by, is_exempt, check_header, check_token,
  try_providers, admit,
}
use bindxdb.Auth.Middleware.Answers.{middleware_iff, followed_by-require_permission}

abbrev alice : AuthResult
alice = record {
  success = true;
  user_id = "1";
  username = "alice";
  email = "";
  roles = "reader" ∷ [];
  permissions = [];
  token = "t";
  refresh_token = "";
  expires_at = 0;
}

abbrev accepting : Provider
accepting = λ token. result (some alice)

abbrev reading : Role
reading = record { name = "reader"; description = ""; permissions = "table:read" ∷ [] }

-- The authorizer of pkg/auth/rbac with one role, which reads every table.
abbrev readers : Authorizer
readers = record {
  authorize = λ ctx resource action.
      ok (authorize (add_role new_rbac_authorizer reading) ctx resource action);
}

abbrev guard : AuthMiddleware
guard = add_provider "jwt" accepting (new_auth_middleware readers)

abbrev request : Request
request = record { path = "/query"; authorization = "Bearer t"; auth = none }

run : Unit {0}
unfolding go new_auth_middleware add_provider middleware is_exempt check_header check_token
    try_providers admit require_permission followed_by
run = tt

refused_with_token : middleware guard request ≡ status 401 "Invalid or expired token"
unfolding run
refused_with_token = refl

middleware_iff_example :
    (middleware guard request ≡ next request)
    ↔ (Any (λ p. has_prefix request.path p ≡ true) guard.exempt_paths × (request ≡ request))
middleware_iff_example = middleware_iff guard request request

-- A request for an exempt path that already has an authentication.
abbrev alice_context : AuthContext
alice_context = record {
  user_id = "1";
  username = "alice";
  roles = "reader" ∷ [];
  permissions = [];
  token = "t";
  authenticated = true;
  expires_at = 0;
}

abbrev at_login : Request
at_login = record request { path = "/auth/login"; auth = some alice_context }

followed_by-require_permission_example :
    (followed_by (middleware guard at_login) (require_permission guard "table" "read")
      ≡ next at_login)
    ↔ (Any (λ p. has_prefix at_login.path p ≡ true) guard.exempt_paths
        × (at_login ≡ at_login)
        × ((ctx : AuthContext) × (at_login.auth ≡ some ctx)
            × (guard.authorizer.authorize ctx "table" "read" ≡ ok true)))
followed_by-require_permission_example =
    followed_by-require_permission guard "table" "read" at_login at_login
