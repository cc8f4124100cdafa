-- ===== src/Auth/Jwt.antt =====
-- pkg/auth/jwt/provider.go. The jwt library, the clock and the two stores are parameters: `K` is the type of RSA private
-- keys, `Q` that of public keys, and `S` the state behind the stores. A call reads the clock once; the configuration
-- manager, which the provider only keeps, contexts and the metadata of a result are left out.
pub mod Types
pub mod Issued
pub mod Sessions
mod Tests
use bindxdb.Prelude.{
  ℕ, ℤ, String, Bool, true, false, Option, none, some, List, [], ◌∷◌, Dict, lookup, ◌==◌, not,
  if◌then◌else◌, Result, ok, err,
}
use bindxdb.Auth.Jwt.Types.{
  Claims, JwtConfig, JwtError, JwtLibrary, JwtProvider, Key, ParsedClaims, SigningMethod, Stores,
  Token, bad_private_key, bad_public_key, bad_token, es256, hs384, hs512, invalid_claims,
  invalid_expiration, invalid_password, invalid_token, map_claims, no_access_token,
  no_refresh_token, not_stored, other_claims, password_required, private, public, rs256, secret,
  unsigned, unsupported_method, user_is_disabled, user_not_found, username_required,
  validation_failed,
}
use bindxdb.Auth.Types.{AuthResult, User}

module _ {K Q : Type 0} (jwt : JwtLibrary K Q) where
  -- The provider before its keys are set.
  with_method : JwtConfig → SigningMethod → JwtProvider K Q
  with_method cfg method = record {
    name = cfg.name;
    secret_key = none;
    private_key = none;
    public_key = none;
    signing_method = method;
    issuer = cfg.issuer;
    audience = cfg.audience;
    expiration = cfg.expiration;
    refresh_exp = cfg.refresh_exp;
  }

  with_secret : JwtConfig → SigningMethod → JwtProvider K Q
  unfolding with_method
  with_secret cfg method = record (with_method cfg method) { secret_key = some cfg.secret_key }

  with_keys : JwtConfig → Result JwtError (JwtProvider K Q)
  unfolding with_method
  with_keys cfg = elim (jwt.parse_private_key cfg.private_key) [
    | err e ↦ err (bad_private_key e)
    | ok private_key ↦ elim (jwt.parse_public_key cfg.public_key) [
      | err e ↦ err (bad_public_key e)
      | ok public_key ↦ ok (record (with_method cfg rs256) {
        private_key = some private_key;
        public_key = some public_key;
      })
    ]
  ]

  pub new_jwt_provider : JwtConfig → Result JwtError (JwtProvider K Q)
  unfolding with_secret with_keys
  new_jwt_provider cfg =
      if cfg.algorithm == "HS256"
      then ok (with_secret cfg es256)
      else if cfg.algorithm == "HS384"
      then ok (with_secret cfg hs384)
      else if cfg.algorithm == "HS512"
      then ok (with_secret cfg hs512)
      else if cfg.algorithm == "RS256"
      then with_keys cfg
      else err (unsupported_method cfg.algorithm)

-- verifyPassword
verify_password : String → String → Bool
verify_password password hash = password == hash

module _ {K Q S : Type 0} (jwt : JwtLibrary K Q) (stores : Stores S) (p : JwtProvider K Q) where
  open stores use {store_token, get_user_by_id, get_user_by_username, update_user}

  pub claims_of : ℕ → User → ℤ → Claims
  claims_of now user expiration = record {
    sub = user.id;
    username = user.username;
    email = user.email;
    roles = user.roles;
    iat = now;
    exp = jwt.add now expiration;
    iss = p.issuer;
    aud = if not (p.audience == "") then some p.audience else none;
  }

  -- The key that a token is signed with.
  pub signing_key : Key K Q
  signing_key = elim p.secret_key [ some s ↦ secret s | none ↦ private p.private_key ]

  pub generate_token : ℕ → User → ℤ → Result String String
  unfolding claims_of signing_key
  generate_token now user expiration =
      jwt.signed_string p.signing_method (claims_of now user expiration) signing_key

  -- What is answered to a user with the two tokens.
  pub granted : ℕ → User → (access refresh : String) → AuthResult
  granted now user access refresh = record {
    success = true;
    user_id = user.id;
    username = user.username;
    email = user.email;
    roles = user.roles;
    permissions = [];
    token = access;
    refresh_token = refresh;
    expires_at = jwt.add now p.expiration;
  }

  -- The two StoreToken calls of Authenticate: the first error ends them.
  pub store_both : ℕ → User → (access refresh : String) → S → S × Option String
  store_both now user access refresh s =
      let (s', failure) = store_token access user.id (jwt.add now p.expiration) s in
      elim failure [
        | some e ↦ (s', some e)
        | none ↦ store_token refresh user.id (jwt.add now p.refresh_exp) s'
      ]

  -- Authenticate once the password is verified; an error of UpdateUser is dropped.
  pub issue : ℕ → User → S → S × Result JwtError AuthResult
  unfolding generate_token store_both granted
  issue now user s = elim (generate_token now user p.expiration) [
    | err e ↦ (s, err (no_access_token e))
    | ok access ↦ elim (generate_token now user p.refresh_exp) [
      | err e ↦ (s, err (no_refresh_token e))
      | ok refresh ↦
          let (s', failure) = store_both now user access refresh s in
          elim failure [
            | some e ↦ (s', err (not_stored e))
            | none ↦ (
              (update_user (record user { last_login = now }) s').0,
              ok (granted now user access refresh),
            )
          ]
    ]
  ]

  -- The tests of Authenticate on the user.
  pub check_user : String → User → Result JwtError (Unit {0})
  unfolding verify_password
  check_user password user =
      if not user.enabled
      then err user_is_disabled
      else if not (verify_password password user.password_hash)
      then err invalid_password
      else ok tt

  pub login : ℕ → (username password : String) → S → S × Result JwtError AuthResult
  unfolding issue check_user
  login now username password s = elim (get_user_by_username username s) [
    | err e ↦ (s, err (user_not_found e))
    | ok user ↦ elim (check_user password user) [ err e ↦ (s, err e) | ok _ ↦ issue now user s ]
  ]

  pub authenticate : ℕ → Dict String → S → S × Result JwtError AuthResult
  unfolding login
  authenticate now credentials s = elim (lookup "username" credentials) [
    | none ↦ (s, err username_required)
    | some username ↦ elim (lookup "password" credentials) [
      | none ↦ (s, err password_required)
      | some password ↦ login now username password s
    ]
  ]

  -- The function that jwt.Parse is given.
  pub key_for : String → Result String (Key K Q)
  key_for alg =
      if not (alg == jwt.alg p.signing_method)
      then err "unexpected signing method"
      else ok (elim p.secret_key [ some s ↦ secret s | none ↦ public p.public_key ])

  pub accepted : String → User → ℕ → AuthResult
  accepted token user at = record {
    success = true;
    user_id = user.id;
    username = user.username;
    email = user.email;
    roles = user.roles;
    permissions = [];
    token = token;
    refresh_token = "";
    expires_at = at;
  }

  -- ValidateToken once the user is found.
  pub accept : String → User → Option ℕ → Result JwtError AuthResult
  unfolding accepted
  accept token user exp =
      if not user.enabled
      then err user_is_disabled
      else elim exp [ none ↦ err invalid_expiration | some at ↦ ok (accepted token user at) ]

  -- ValidateToken for a token that the store knows as the user's and that the library has parsed.
  pub check_parsed : String → String → Token → S → Result JwtError AuthResult
  unfolding accept
  check_parsed token id parsed s =
      if not parsed.valid then err invalid_token else elim parsed.claims [
        | other_claims ↦ err invalid_claims
        | map_claims exp ↦ elim (get_user_by_id id s) [
          | err e ↦ err (user_not_found e)
          | ok user ↦ accept token user exp
        ]
      ]

  pub validate_token : String → S → Result JwtError AuthResult
  unfolding key_for check_parsed
  validate_token token s = elim (stores.validate_token token s) [
    | err e ↦ err (validation_failed e)
    | ok id ↦ elim (jwt.parse token key_for) [
      | err e ↦ err (bad_token e)
      | ok parsed ↦ check_parsed token id parsed s
    ]
  ]

  -- The two StoreToken calls of RefreshToken, whose errors are dropped.
  pub store_each : ℕ → User → (access refresh : String) → S → S
  store_each now user access refresh s =
      (store_token refresh user.id (jwt.add now p.refresh_exp)
        (store_token access user.id (jwt.add now p.expiration) s).0).0

  -- RefreshToken once the user is found; an error of RevokeToken is dropped.
  pub renew : ℕ → String → User → S → S × Result JwtError AuthResult
  unfolding generate_token store_each granted
  renew now token user s =
      let s' = (stores.revoke_token token s).0 in
      elim (generate_token now user p.expiration) [
        | err e ↦ (s', err (unsigned e))
        | ok access ↦ elim (generate_token now user p.refresh_exp) [
          | err e ↦ (s', err (unsigned e))
          | ok refresh ↦
              (store_each now user access refresh s', ok (granted now user access refresh))
        ]
      ]

  pub refresh_token : ℕ → String → S → S × Result JwtError AuthResult
  unfolding validate_token renew
  refresh_token now token s = elim (validate_token token s) [
    | err e ↦ (s, err e)
    | ok result ↦ elim (get_user_by_id result.user_id s) [
      | err e ↦ (s, err (user_not_found e))
      | ok user ↦ renew now token user s
    ]
  ]

  pub revoke_token : String → S → S × Option String
  revoke_token token s = stores.revoke_token token s
