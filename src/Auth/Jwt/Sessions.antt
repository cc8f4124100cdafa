-- ===== src/Auth/Jwt/Sessions.antt =====
-- What ValidateToken accepts, and what becomes of a token that is refreshed.
use bindxdb.Prelude.{
  ℕ, String, true, Option, none, some, ◌≡◌, ◌≢◌, refl, sym, ◌∙◌, ap, Result, ok, err, arith,
  Bool-cases, Option-cases, Result-cases, inl, inr, ◌⊎◌,
}
use bindxdb.Auth.Types.{AuthResult, User}
use bindxdb.Auth.Jwt.Types.{
  JwtError, JwtLibrary, Stores, JwtProvider, validation_failed, Token, ParsedClaims, other_claims,
  map_claims,
}
use bindxdb.Auth.Jwt.{
  generate_token, granted, key_for, accept, accepted, check_parsed, validate_token, store_each,
  renew, refresh_token,
}

claims-cases : (c : ParsedClaims) → (c ≡ other_claims) ⊎ ((exp : Option ℕ) × (c ≡ map_claims exp))
claims-cases other_claims = inl refl
claims-cases (map_claims exp) = inr (exp, refl)

-- What the stores promise: a token that is stored leaves the other tokens and the users as they are.
pub record KeepsOthers {S : Type 0} (stores : Stores S) : Type 0 where
  pub tokens :
      (token other id : String) (at : ℕ) (s : S)
      → token ≢ other
      → stores.validate_token other (stores.store_token token id at s).0
        ≡ stores.validate_token other s
  pub users :
      (token id user_id : String) (at : ℕ) (s : S)
      → stores.get_user_by_id user_id (stores.store_token token id at s).0
        ≡ stores.get_user_by_id user_id s

module _ {K Q S : Type 0} (jwt : JwtLibrary K Q) (stores : Stores S) (p : JwtProvider K Q) where
  accept_ok :
      (token : String) (user : User) (exp : Option ℕ) (r : AuthResult)
      → accept jwt stores p token user exp ≡ ok r
      → (user.enabled ≡ true)
        × (exp ≡ some r.expires_at)
        × (r.user_id ≡ user.id)
        × (r.roles ≡ user.roles)
        × (r.token ≡ token)
  unfolding accept
  accept_ok token user exp r e = elim (Bool-cases user.enabled) [
    | inr n ↦ absurd (ground (arith, e, n))
    | inl t ↦ elim (Option-cases exp) [
      | inl f ↦ absurd (ground (arith, e, t, f))
      | inr (at, f) ↦
          let same : accepted jwt stores p token user at ≡ r = ground (arith, e, t, f) in
          (
            t,
            f ∙ ap (λ (q : AuthResult). some q.expires_at) same,
            sym (ap (λ (q : AuthResult). q.user_id) same),
            sym (ap (λ (q : AuthResult). q.roles) same),
            sym (ap (λ (q : AuthResult). q.token) same),
          )
    ]
  ]

  check_parsed_ok :
      (token id : String) (parsed : Token) (s : S) (r : AuthResult)
      → check_parsed jwt stores p token id parsed s ≡ ok r
      → (user : User) × (exp : Option ℕ) × (parsed.valid ≡ true)
        × (parsed.claims ≡ map_claims exp)
        × (stores.get_user_by_id id s ≡ ok user)
        × (accept jwt stores p token user exp ≡ ok r)
  unfolding check_parsed
  check_parsed_ok token id parsed s r e = elim (Bool-cases parsed.valid) [
    | inr n ↦ absurd (ground (arith, e, n))
    | inl v ↦ elim (claims-cases parsed.claims) [
      | inl f ↦ absurd (ground (arith, e, v, f))
      | inr (exp, f) ↦ elim (Result-cases (stores.get_user_by_id id s)) [
        | inr (x, h) ↦ absurd (ground (arith, e, v, f, h))
        | inl (user, h) ↦ (user, exp, v, f, h, ground (arith, e, v, f, h))
      ]
    ]
  ]

  -- ValidateToken accepts only a token that the token store knows, that the library accepts under the provider's key, and
  -- that belongs to an enabled user; the result is that user's, with the token and the time of its exp claim.
  pub validate_token_ok :
      (token : String) (s : S) (r : AuthResult)
      → validate_token jwt stores p token s ≡ ok r
      → (user : User) × (parsed : Token) × (id : String) × (stores.validate_token token s ≡ ok id)
        × (jwt.parse token (key_for jwt stores p) ≡ ok parsed)
        × (parsed.valid ≡ true)
        × (parsed.claims ≡ map_claims (some r.expires_at))
        × (stores.get_user_by_id id s ≡ ok user)
        × (user.enabled ≡ true)
        × (r.user_id ≡ user.id)
        × (r.roles ≡ user.roles)
        × (r.token ≡ token)
  unfolding validate_token
  validate_token_ok token s r e = elim (Result-cases (stores.validate_token token s)) [
    | inr (x, f) ↦ absurd (ground (arith, e, f))
    | inl (id, f) ↦ elim (Result-cases (jwt.parse token (key_for jwt stores p))) [
      | inr (x, g) ↦ absurd (ground (arith, e, f, g))
      | inl (parsed, g) ↦
          let (user, exp, v, c, h, a) =
            check_parsed_ok token id parsed s r (ground (arith, e, f, g)) in
          let (enabled, at, same_id, roles, same_token) = accept_ok token user exp r a in
          (
            user,
            parsed,
            id,
            f,
            g,
            v,
            c ∙ ap (λ (q : Option ℕ). map_claims q) at,
            h,
            enabled,
            same_id,
            roles,
            same_token,
          )
    ]
  ]

  -- A RefreshToken that succeeds has revoked the token and stored two new ones, which are in its result.
  refresh_token_ok :
      (now : ℕ) (token : String) (s s' : S) (r : AuthResult)
      → refresh_token jwt stores p now token s ≡ (s', ok r)
      → (user : User) × (s'
          ≡ store_each jwt stores p now user r.token r.refresh_token
              (stores.revoke_token token s).0)
  unfolding refresh_token renew granted
  refresh_token_ok now token s s' r e = elim (Result-cases (validate_token jwt stores p token s)) [
    | inr (x, f) ↦ absurd (ground (arith, e, f))
    | inl (v, f) ↦ elim (Result-cases (stores.get_user_by_id v.user_id s)) [
      | inr (x, g) ↦ absurd (ground (arith, e, f, g))
      | inl (user, g) ↦ elim (Result-cases (generate_token jwt stores p now user p.expiration)) [
        | inr (x, h) ↦ absurd (ground (arith, e, f, g, h))
        | inl (access, h) ↦
            elim (Result-cases (generate_token jwt stores p now user p.refresh_exp)) [
              | inr (x, i) ↦ absurd (ground (arith, e, f, g, h, i))
              | inl (refresh, i) ↦
                  let same : granted jwt stores p now user access refresh ≡ r =
                    ground (arith, e, f, g, h, i) in
                  let left : store_each jwt stores p now user access refresh
                        (stores.revoke_token token s).0
                      ≡ s' =
                    ground (arith, e, f, g, h, i) in
                  (
                    user,
                    sym left
                        ∙ ap
                            (λ (q : AuthResult).
                              store_each jwt stores p now user q.token q.refresh_token
                                (stores.revoke_token token s).0)
                            same,
                  )
            ]
      ]
    ]
  ]

  check_parsed-stores :
      (token id : String) (parsed : Token) (s s' : S)
      → stores.get_user_by_id id s' ≡ stores.get_user_by_id id s
      → check_parsed jwt stores p token id parsed s' ≡ check_parsed jwt stores p token id parsed s
  unfolding check_parsed
  check_parsed-stores token id parsed s s' b = elim (Bool-cases parsed.valid) [
    | inr n ↦ rw (check_parsed, n) refl
    | inl v ↦ elim (claims-cases parsed.claims) [
      | inl f ↦ rw (check_parsed, v, f) refl
      | inr (exp, f) ↦ rw (check_parsed, v, f, b) refl
    ]
  ]

  -- ValidateToken reads of the stores what it asks them.
  validate_token-stores :
      (token : String) (s s' : S)
      → stores.validate_token token s' ≡ stores.validate_token token s
      → ((id : String) → stores.get_user_by_id id s' ≡ stores.get_user_by_id id s)
      → validate_token jwt stores p token s' ≡ validate_token jwt stores p token s
  unfolding validate_token check_parsed
  validate_token-stores token s s' a b = elim (Result-cases (stores.validate_token token s)) [
    | inr (x, f) ↦ rw (validate_token, a, f) refl
    | inl (id, f) ↦ elim (Result-cases (jwt.parse token (key_for jwt stores p))) [
      | inr (x, g) ↦ rw (validate_token, a, f, g) refl
      | inl (parsed, g) ↦
          rw (validate_token, a, f, g) (check_parsed-stores token id parsed s s' (b id))
    ]
  ]

  -- Where the stores keep the other tokens and the users when a token is stored, and RefreshToken succeeds with two
  -- tokens other than the old one, ValidateToken answers for the old one as after RevokeToken alone.
  validate_token-refresh_token :
      KeepsOthers stores
      → (now : ℕ) (token : String) (s s' : S) (r : AuthResult)
      → refresh_token jwt stores p now token s ≡ (s', ok r)
      → r.token ≢ token
      → r.refresh_token ≢ token
      → validate_token jwt stores p token s'
        ≡ validate_token jwt stores p token (stores.revoke_token token s).0
  unfolding store_each
  validate_token-refresh_token laws now token s s' r e a b =
      let (user, left) = refresh_token_ok now token s s' r e in
      let mid = (stores.revoke_token token s).0 in
      let first = (stores.store_token r.token user.id (jwt.add now p.expiration) mid).0 in
      ap (λ (q : S). validate_token jwt stores p token q) left
      ∙ validate_token-stores token mid
          (store_each jwt stores p now user r.token r.refresh_token mid)
          (laws.tokens r.refresh_token token user.id (jwt.add now p.refresh_exp) first b
            ∙ laws.tokens r.token token user.id (jwt.add now p.expiration) mid a)
          (λ id.
            laws.users r.refresh_token user.id id (jwt.add now p.refresh_exp) first
            ∙ laws.users r.token user.id id (jwt.add now p.expiration) mid)

  -- Where the stores keep the other tokens and the users when a token is stored, and a token that RevokeToken revokes
  -- without an error is refused by the store, ValidateToken refuses a token after a RefreshToken of it that has
  -- succeeded with two other tokens, where the store's RevokeToken gives no error.
  pub refresh_token-refused :
      KeepsOthers stores
      → ((token : String) (s : S)
          → (stores.revoke_token token s).1 ≡ none
          → (e : String) × (stores.validate_token token (stores.revoke_token token s).0 ≡ err e))
      → (now : ℕ) (token : String) (s s' : S) (r : AuthResult)
      → refresh_token jwt stores p now token s ≡ (s', ok r)
      → r.token ≢ token
      → r.refresh_token ≢ token
      → (stores.revoke_token token s).1 ≡ none
      → (e : String) × (validate_token jwt stores p token s' ≡ err (validation_failed e))
  unfolding validate_token
  refresh_token-refused laws revokes now token s s' r e a b quiet =
      let (x, f) = revokes token s quiet in
      (x, validate_token-refresh_token laws now token s s' r e a b ∙ rw (validate_token, f) refl)

  -- Where the stores keep the other tokens and the users when a token is stored, a RefreshToken of a valid token whose
  -- user is found and whose two new tokens are signed and differ from the old one succeeds with these tokens also where
  -- RevokeToken of the store fails and leaves it as it was: the error is dropped, and the old token is as valid as before.
  pub refresh_token-still_valid :
      KeepsOthers stores
      → (now : ℕ) (token access refresh failure : String) (user : User) (s : S) (v : AuthResult)
      → validate_token jwt stores p token s ≡ ok v
      → stores.get_user_by_id v.user_id s ≡ ok user
      → generate_token jwt stores p now user p.expiration ≡ ok access
      → generate_token jwt stores p now user p.refresh_exp ≡ ok refresh
      → access ≢ token
      → refresh ≢ token
      → stores.revoke_token token s ≡ (s, some failure)
      → ((refresh_token jwt stores p now token s).1
          ≡ ok (granted jwt stores p now user access refresh))
        × (validate_token jwt stores p token (refresh_token jwt stores p now token s).0 ≡ ok v)
  unfolding refresh_token renew granted
  refresh_token-still_valid laws now token access refresh failure user s v valid found a b c d
        fails =
      let s' = store_each jwt stores p now user access refresh (stores.revoke_token token s).0 in
      let r = granted jwt stores p now user access refresh in
      let whole : refresh_token jwt stores p now token s ≡ (s', ok r) =
        rw (refresh_token, valid, found, renew, a, b) refl in
      (
        ap (λ (o : S × Result JwtError AuthResult). o.1) whole,
        ap (λ (o : S × Result JwtError AuthResult). validate_token jwt stores p token o.0) whole
            ∙ validate_token-refresh_token laws now token s s' r whole c d
            ∙ ap (λ (q : S × Option String). validate_token jwt stores p token q.0) fails
            ∙ valid,
      )
