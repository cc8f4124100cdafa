-- ===== src/Auth/Middleware.antt =====
-- pkg/auth/middleware/middleware.go. A request is its path, its Authorization header and the value
-- that its context holds under "auth"; a provider is what its ValidateToken returns for a token.
pub mod Answers
mod Tests
use bindxdb.Prelude.{
  ℕ, String, Bool, true, false, not, ◌||◌, Option, none, some, List, [], ◌∷◌, Dict, insert, ◌==◌,
  if◌then◌else◌, has_prefix, split, folds_to, lower, Result, ok, err,
}
use bindxdb.Auth.Types.{AuthContext, AuthResult}

-- What the Authorize of the interface gives for a context, a resource and an action; the middleware calls no other
-- method of it.
pub record Authorizer : Type 0 where
  pub authorize : AuthContext → String → String → Result String Bool

-- The error of ValidateToken, or its result, which may be nil.
pub data Validation : Type 0 where
  refused : String → Validation
  result : Option AuthResult → Validation

abbrev pub Provider : Type 0
Provider = String → Validation

pub record Request : Type 0 where
  pub path : String
  pub authorization : String
  pub auth : Option AuthContext

-- The answer to a request: the next handler is called with it, a status with a message is written,
-- or the handler panics.
pub data Answer : Type 0 where
  next : Request → Answer
  status : ℕ → String → Answer
  panic : Answer

pub record AuthMiddleware : Type 0 where
  pub authorizer : Authorizer
  pub providers : Dict Provider
  pub exempt_paths : List String

pub new_auth_middleware : Authorizer → AuthMiddleware
new_auth_middleware authorizer = record {
  authorizer = authorizer;
  providers = [];
  exempt_paths = "/health" ∷ "/metrics" ∷ "/auth/login" ∷ "/auth/refresh" ∷ [];
}

pub add_provider : String → Provider → AuthMiddleware → AuthMiddleware
add_provider name provider m = record m { providers = insert name provider m.providers }

-- The loop over the exempt paths.
pub is_exempt : List String → String → Bool
is_exempt [] path = false
is_exempt (p ∷ ps) path = let rest = is_exempt ps path in if has_prefix path p then true else rest

-- The loop over the providers. What it finds is a variable of the loop's body and is gone after it;
-- `none` is the panic on a nil result without an error.
pub try_providers : Dict Provider → String → Option (Unit {0})
try_providers [] token = some tt
try_providers ((name, provider) ∷ rest) token =
    let later = try_providers rest token in
    elim (provider token) [
      | refused e ↦ later
      | result none ↦ none
      | result (some r) ↦ if r.success then some tt else later
    ]

-- The end of the handler, from the outer `authResult`.
pub admit : Option AuthResult → String → Request → Answer
admit none token r = status 401 "Invalid or expired token"
admit (some found) token r =
    if found.success
    then next (record r {
      auth = some (record {
        user_id = found.user_id;
        username = found.username;
        roles = found.roles;
        permissions = [];
        token = token;
        authenticated = true;
        expires_at = found.expires_at;
      });
    })
    else status 401 "Invalid or expired token"

-- The outer `authResult` is nil and stays so.
pub check_token : AuthMiddleware → String → Request → Answer
unfolding try_providers admit
check_token m token r = elim (try_providers m.providers token) [
  | none ↦ panic
  | some _ ↦ admit none token r
]

pub check_header : AuthMiddleware → List String → Request → Answer
unfolding check_token
check_header m (scheme ∷ token ∷ []) r =
    if folds_to lower scheme "bearer"
    then check_token m token r
    else status 401 "invalid authorization header format"
check_header m _ r = status 401 "invalid authorization header format"

pub middleware : AuthMiddleware → Request → Answer
unfolding is_exempt check_header
middleware m r =
    if is_exempt m.exempt_paths r.path
    then next r
    else if r.authorization == ""
    then status 401 "Authorization header required"
    else check_header m (split b' ' r.authorization) r

-- RequirePermission
pub require_permission : AuthMiddleware → String → String → Request → Answer
require_permission m resource action r = elim r.auth [
  | none ↦ status 401 "Authentication required"
  | some ctx ↦ elim (m.authorizer.authorize ctx resource action) [
    | err e ↦ status 403 "Forbidden"
    | ok authorized ↦ if authorized then next r else status 403 "Forbidden"
  ]
]

-- GetAuthContext
abbrev pub get_auth_context : Request → Option AuthContext
get_auth_context r = r.auth

-- middleware(handler): the handler is called where the middleware calls the next one.
pub followed_by : Answer → (Request → Answer) → Answer
followed_by (next r) handler = handler r
followed_by answer handler = answer
