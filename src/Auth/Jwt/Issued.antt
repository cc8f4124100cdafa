-- ===== src/Auth/Jwt/Issued.antt =====
-- When Authenticate gives out tokens.
use bindxdb.Prelude.{
  ℕ, String, true, some, ◌≡◌, sym, ◌∙◌, ap, Dict, lookup, eq_iff, ok, err, arith, Option-cases,
  Result-cases, inl, inr,
}
use bindxdb.Auth.Types.{AuthResult, User}
use bindxdb.Auth.Jwt.Types.{es256, secret, Claims, JwtLibrary, Stores, JwtConfig, JwtProvider}
use bindxdb.Auth.Jwt.{
  new_jwt_provider, generate_token, check_user, issue, login, authenticate, granted,
  verify_password, claims_of, signing_key, store_both, with_secret, with_method,
}

module _ {K Q S : Type 0} (jwt : JwtLibrary K Q) (stores : Stores S) (p : JwtProvider K Q) where
  check_user_ok :
      (password : String) (user : User)
      → check_user jwt stores p password user ≡ ok tt
      → (user.enabled ≡ true) × (password ≡ user.password_hash)
  unfolding check_user verify_password
  check_user_ok password user e = ground (arith, e, eq_iff password user.password_hash)

  issue_ok :
      (now : ℕ) (user : User) (s s' : S) (r : AuthResult)
      → issue jwt stores p now user s ≡ (s', ok r)
      → (generate_token jwt stores p now user p.expiration ≡ ok r.token)
        × (generate_token jwt stores p now user p.refresh_exp ≡ ok r.refresh_token)
        × (r.user_id ≡ user.id)
        × (r.roles ≡ user.roles)
  unfolding issue granted
  issue_ok now user s s' r e =
      elim (Result-cases (generate_token jwt stores p now user p.expiration)) [
        | inr (x, f) ↦ absurd (ground (arith, e, f))
        | inl (access, f) ↦
            elim (Result-cases (generate_token jwt stores p now user p.refresh_exp)) [
              | inr (x, g) ↦ absurd (ground (arith, e, f, g))
              | inl (refresh, g) ↦
                  elim (Option-cases (store_both jwt stores p now user access refresh s).1) [
                    | inr (x, h) ↦ absurd (ground (arith, e, f, g, h))
                    | inl h ↦
                        let same : granted jwt stores p now user access refresh ≡ r =
                          ground (arith, e, f, g, h) in
                        (
                          f ∙ ap (λ (q : AuthResult). ok q.token) same,
                          g ∙ ap (λ (q : AuthResult). ok q.refresh_token) same,
                          sym (ap (λ (q : AuthResult). q.user_id) same),
                          sym (ap (λ (q : AuthResult). q.roles) same),
                        )
                  ]
            ]
      ]

  -- Authenticate succeeds only for a user name and a password that are given, where the user store has an enabled user
  -- under the name whose stored hash is the password itself; both tokens are then signed, and the result names the
  -- user's id and roles, and the tokens.
  pub authenticate_ok :
      (now : ℕ) (credentials : Dict String) (s s' : S) (r : AuthResult)
      → authenticate jwt stores p now credentials s ≡ (s', ok r)
      → (username : String) × (user : User) × (lookup "username" credentials ≡ some username)
        × (stores.get_user_by_username username s ≡ ok user)
        × (user.enabled ≡ true)
        × (lookup "password" credentials ≡ some user.password_hash)
        × (generate_token jwt stores p now user p.expiration ≡ ok r.token)
        × (generate_token jwt stores p now user p.refresh_exp ≡ ok r.refresh_token)
        × (r.user_id ≡ user.id)
        × (r.roles ≡ user.roles)
  unfolding authenticate login
  authenticate_ok now credentials s s' r e = elim (Option-cases (lookup "username" credentials)) [
    | inl f ↦ absurd (ground (arith, e, f))
    | inr (username, f) ↦ elim (Option-cases (lookup "password" credentials)) [
      | inl g ↦ absurd (ground (arith, e, f, g))
      | inr (password, g) ↦ elim (Result-cases (stores.get_user_by_username username s)) [
        | inr (x, h) ↦ absurd (ground (arith, e, f, g, h))
        | inl (user, h) ↦ elim (Result-cases (check_user jwt stores p password user)) [
          | inr (x, i) ↦ absurd (ground (arith, e, f, g, h, i))
          | inl (t, i) ↦
              let (enabled, same) = check_user_ok password user i in
              let issued = issue_ok now user s s' r (ground (arith, e, f, g, h, i)) in
              (
                username,
                user,
                f,
                h,
                enabled,
                g ∙ ap (λ (q : String). some q) same,
                issued.0,
                issued.1,
                issued.2,
                issued.3,
              )
        ]
      ]
    ]
  ]

made_for_hs256 :
    {K Q : Type 0} (jwt : JwtLibrary K Q) (cfg : JwtConfig) (p : JwtProvider K Q)
    → cfg.algorithm ≡ "HS256"
    → new_jwt_provider jwt cfg ≡ ok p
    → (p.signing_method ≡ es256) × (p.secret_key ≡ some cfg.secret_key)
unfolding new_jwt_provider with_secret with_method
made_for_hs256 {K = K} {Q = Q} jwt cfg p hs made =
    let same : with_secret jwt cfg es256 ≡ p =
      ground (arith, made, (eq_iff cfg.algorithm "HS256").1 hs) in
    (
      sym (ap (λ (q : JwtProvider K Q). q.signing_method) same),
      sym (ap (λ (q : JwtProvider K Q). q.secret_key) same),
    )

-- A provider for the algorithm HS256 signs with ES256. Where the library refuses a secret as a key of ES256, as its
-- documentation says, Authenticate of that provider never succeeds, whatever the stores and the credentials.
pub authenticate-es256 :
    {K Q S : Type 0} (jwt : JwtLibrary K Q) (stores : Stores S) (cfg : JwtConfig)
    (p : JwtProvider K Q)
    → ((claims : Claims) (k : String)
        → (e : String) × (jwt.signed_string es256 claims (secret k) ≡ err e))
    → cfg.algorithm ≡ "HS256"
    → new_jwt_provider jwt cfg ≡ ok p
    → (now : ℕ) (credentials : Dict String) (s s' : S) (r : AuthResult)
    → ¬ (authenticate jwt stores p now credentials s ≡ (s', ok r))
unfolding generate_token signing_key
authenticate-es256 jwt stores cfg p refuses hs made now credentials s s' r e =
    let ok_parts = authenticate_ok jwt stores p now credentials s s' r e in
    let user = ok_parts.1 in
    let (method, key) = made_for_hs256 jwt cfg p hs made in
    let (x, refused) = refuses (claims_of jwt stores p now user p.expiration) cfg.secret_key in
    let failed : generate_token jwt stores p now user p.expiration ≡ err x =
      rw (generate_token, signing_key, method, key) refused in
    ground (arith, failed, ok_parts.6)
