-- ===== src/Auth/Middleware/Answers.antt =====
-- Which requests the middleware lets through.
use bindxdb.Prelude.{
  String, true, false, some, Result-cases, ok, List, [], ◌∷◌, ◌≡◌, refl, ◌↔◌, inl, inr, Any, arith,
  Bool-cases, Option-cases, has_prefix, split, ◌==◌, folds_to, lower,
}
use mathlib.Core.Path.{subst}
use bindxdb.Auth.Types.{AuthContext}
use bindxdb.Auth.Middleware.{
  Request, Answer, next, status, panic, AuthMiddleware, is_exempt, try_providers, admit,
  check_token, check_header, middleware, require_permission, followed_by,
}

is_exempt_iff :
    (paths : List String) (path : String)
    → (is_exempt paths path ≡ true) ↔ Any (λ p. has_prefix path p ≡ true) paths
unfolding is_exempt
is_exempt_iff [] path = ground arith
is_exempt_iff (p ∷ ps) path = ground (arith, is_exempt_iff ps path)

-- The answer calls no handler.
abbrev pub Stops : Answer → Type 0
Stops (next r) = ⊥
Stops _ = Unit

check_token-Stops :
    (m : AuthMiddleware) (token : String) (r : Request) → Stops (check_token m token r)
unfolding check_token admit
check_token-Stops m token r = elim (Option-cases (try_providers m.providers token)) [
  | inl e ↦ rw (check_token, e) tt
  | inr (u, e) ↦ rw (check_token, e) tt
]

check_header-Stops :
    (m : AuthMiddleware) (parts : List String) (r : Request) → Stops (check_header m parts r)
unfolding check_header
check_header-Stops m [] r = tt
check_header-Stops m (a ∷ []) r = tt
check_header-Stops m (a ∷ b ∷ []) r = elim (Bool-cases (folds_to lower a "bearer")) [
  | inl t ↦ rw t (check_token-Stops m b r)
  | inr f ↦ rw f tt
]
check_header-Stops m (a ∷ b ∷ c ∷ cs) r = tt

middleware-Stops :
    (m : AuthMiddleware) (r : Request)
    → is_exempt m.exempt_paths r.path ≡ false
    → Stops (middleware m r)
unfolding middleware
middleware-Stops m r plain = elim (Bool-cases (r.authorization == "")) [
  | inl t ↦ rw (middleware, plain, t) tt
  | inr f ↦ rw (middleware, plain, f) (check_header-Stops m (split b' ' r.authorization) r)
]

middleware-exempt :
    (m : AuthMiddleware) (r : Request)
    → is_exempt m.exempt_paths r.path ≡ true
    → middleware m r ≡ next r
unfolding middleware
middleware-exempt m r t = rw (middleware, t) refl

next-Stops : (a : Answer) (r : Request) → a ≡ next r → Stops a → ⊥
next-Stops a r e h = subst Stops e h

followed_by-Stops :
    (a : Answer) (handler : Request → Answer) → Stops a → Stops (followed_by a handler)
unfolding followed_by
followed_by-Stops (next r) handler h = elim h [ ]
followed_by-Stops (status c t) handler h = tt
followed_by-Stops panic handler h = tt

-- The middleware calls the next handler exactly for the requests whose path starts with an exempt path, and then
-- with the request unchanged: no token, however valid, lets another request through.
pub middleware_iff :
    (m : AuthMiddleware) (r s : Request)
    → (middleware m r ≡ next s) ↔ (Any (λ p. has_prefix r.path p ≡ true) m.exempt_paths × (s ≡ r))
middleware_iff m r s = elim (Bool-cases (is_exempt m.exempt_paths r.path)) [
  | inl t ↦ (
    λ e. ((is_exempt_iff m.exempt_paths r.path).0 t, ground (arith, middleware-exempt m r t, e)),
    λ (a, e). rw e (middleware-exempt m r t),
  )
  | inr f ↦ (
    λ e. absurd (next-Stops (middleware m r) s e (middleware-Stops m r f)),
    λ (a, e). ground (arith, (is_exempt_iff m.exempt_paths r.path).1 a, f),
  )
]

-- RequirePermission calls the handler exactly for an authentication that the authorizer permits.
require_permission_iff :
    (m : AuthMiddleware) (resource action : String) (r s : Request)
    → (require_permission m resource action r ≡ next s) ↔ (
        (ctx : AuthContext) × (r.auth ≡ some ctx)
        × (m.authorizer.authorize ctx resource action ≡ ok true)
        × (s ≡ r))
unfolding require_permission
require_permission_iff m resource action r s = elim (Option-cases r.auth) [
  | inl e ↦ ground (arith, e)
  | inr (ctx, e) ↦ elim (Result-cases (m.authorizer.authorize ctx resource action)) [
    | inr (x, f) ↦ ground (arith, e, f)
    | inl (authorized, f) ↦ ground (arith, e, f, Bool-cases authorized)
  ]
]

-- Behind the middleware, RequirePermission calls its handler exactly for the requests whose path starts with an exempt
-- path and whose context already holds an authentication that the authorizer permits without an error: a token in the
-- header plays no part.
pub followed_by-require_permission :
    (m : AuthMiddleware) (resource action : String) (r s : Request)
    → (followed_by (middleware m r) (require_permission m resource action) ≡ next s) ↔ (
        Any (λ p. has_prefix r.path p ≡ true) m.exempt_paths
        × (s ≡ r)
        × ((ctx : AuthContext) × (r.auth ≡ some ctx)
            × (m.authorizer.authorize ctx resource action ≡ ok true)))
unfolding followed_by
followed_by-require_permission m resource action r s =
    elim (Bool-cases (is_exempt m.exempt_paths r.path)) [
      | inl t ↦ rw (middleware-exempt m r t) (
        (λ e.
            let (ctx, a, b, same) = (require_permission_iff m resource action r s).0 e in
            ((is_exempt_iff m.exempt_paths r.path).0 t, same, (ctx, a, b))),
        (λ (p, same, (ctx, a, b)).
            (require_permission_iff m resource action r s).1 (ctx, a, b, same)),
      )
      | inr f ↦ (
        λ e. absurd (
            next-Stops (followed_by (middleware m r) (require_permission m resource action)) s e (
              followed_by-Stops (middleware m r) (require_permission m resource action)
                (middleware-Stops m r f))),
        λ (p, same, rest). absurd (ground (arith, (is_exempt_iff m.exempt_paths r.path).1 p, f)),
      )
    ]
