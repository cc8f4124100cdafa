-- ===== src/Auth/Jwt/Tests.antt =====
-- A store is the list of its tokens with their users, and its only user; a token is signed by its method and claims.
use bindxdb.Prelude.{
  ap, String, true, false, Option, none, some, [], ◌∷◌, ◌≡◌, ◌≢◌, refl, Dict, lookup, insert,
  delete, lookup-insert, lookup-delete, ◌==◌, eq_iff, eq_self, if◌then◌else◌, Result, ok, err, go,
  arith, pos, Bool-cases, inl, inr,
}
use bindxdb.Auth.Types.{AuthResult, User}
use bindxdb.Auth.Jwt.Types.{
  SigningMethod, es256, hs384, Key, secret, Claims, map_claims, Token, JwtLibrary, Stores,
  JwtConfig, JwtProvider, validation_failed,
}
use bindxdb.Auth.Jwt.{
  new_jwt_provider, authenticate, validate_token, refresh_token, generate_token, key_for,
}
use bindxdb.Auth.Jwt.Issued.{authenticate_ok, authenticate-es256}
use bindxdb.Auth.Jwt.Sessions.{
  KeepsOthers, validate_token_ok, refresh_token-refused, refresh_token-still_valid,
}

abbrev alice : User
alice = record {
  id = "1";
  username = "alice";
  email = "";
  roles = "admin" ∷ [];
  permissions = [];
  last_login = 0;
  enabled = true;
  password_hash = "pw";
}

-- The tokens of the two lifetimes; a secret is no key for ES256.
sign : SigningMethod → Claims → Key (Unit {0}) (Unit {0}) → Result String String
sign es256 claims key = err "key is of invalid type"
sign _ claims key = ok (if claims.iss == "bindxdb" then "short" else "long")

abbrev library : JwtLibrary (Unit {0}) (Unit {0})
library = record {
  alg = λ method. "HS384";
  signed_string = sign;
  parse = λ token key_of. ok (record { valid = true; claims = map_claims (some 9) });
  parse_private_key = λ text. err "no key";
  parse_public_key = λ text. err "no key";
  add = λ now d. now;
}

abbrev user_of : Option String → Result String String
user_of none = err "unknown token"
user_of (some id) = ok id

-- A failing RevokeToken keeps the token.
abbrev stores_with : Option String → Stores (Dict String)
stores_with failure = record {
  store_token = λ token id at s. (insert token id s, none);
  validate_token = λ token s. user_of (lookup token s);
  revoke_token = λ token s. elim failure [ none ↦ (delete token s, none) | some e ↦ (s, some e) ];
  get_user_by_id = λ id s. ok alice;
  get_user_by_username = λ name s. if name == "alice" then ok alice else err "no such user";
  update_user = λ user s. (s, none);
}

abbrev provider : SigningMethod → JwtProvider (Unit {0}) (Unit {0})
provider method = record {
  name = "jwt";
  secret_key = some "key";
  private_key = none;
  public_key = none;
  signing_method = method;
  issuer = "bindxdb";
  audience = "";
  expiration = pos 1;
  refresh_exp = pos 9;
}

tested : Unit {0}
unfolding go sign authenticate validate_token refresh_token generate_token key_for new_jwt_provider
tested = tt

stores-KeepsOthers : (failure : Option String) → KeepsOthers (stores_with failure)
stores-KeepsOthers failure = record {
  tokens = λ token other id at s ne. elim (Bool-cases (token == other)) [
    | inl t ↦ absurd (ne ((eq_iff token other).0 t))
    | inr n ↦ ap user_of (ground (arith, lookup-insert token other id s, n))
  ];
  users = λ token id user_id at s. refl;
}

abbrev granted_to_alice : AuthResult
granted_to_alice = record {
  success = true;
  user_id = "1";
  username = "alice";
  email = "";
  roles = "admin" ∷ [];
  permissions = [];
  token = "short";
  refresh_token = "short";
  expires_at = 5;
}

abbrev given : Dict String
given = ("username", "alice") ∷ ("password", "pw") ∷ []

logged_in :
    authenticate library (stores_with none) (provider hs384) 5 given []
    ≡ (("short", "1") ∷ [], ok granted_to_alice)
unfolding tested
logged_in = refl

authenticate_ok_example :
    (username : String) × (user : User) × (lookup "username" given ≡ some username)
    × ((stores_with none).get_user_by_username username [] ≡ ok user)
    × (user.enabled ≡ true)
    × (lookup "password" given ≡ some user.password_hash)
    × (generate_token library (stores_with none) (provider hs384) 5 user (pos 1) ≡ ok "short")
    × (generate_token library (stores_with none) (provider hs384) 5 user (pos 9) ≡ ok "short")
    × ("1" ≡ user.id)
    × (("admin" ∷ []) ≡ user.roles)
authenticate_ok_example =
    authenticate_ok library (stores_with none) (provider hs384) 5 given [] (("short", "1") ∷ [])
      granted_to_alice logged_in

refuses : (claims : Claims) (k : String) → (e : String) × (sign es256 claims (secret k) ≡ err e)
unfolding sign
refuses claims k = ("key is of invalid type", refl)

abbrev hs256_config : JwtConfig
hs256_config = record {
  name = "jwt";
  secret_key = "key";
  private_key = "";
  public_key = "";
  algorithm = "HS256";
  issuer = "bindxdb";
  audience = "";
  expiration = pos 1;
  refresh_exp = pos 9;
}

made : new_jwt_provider library hs256_config ≡ ok (provider es256)
unfolding tested
made = refl

authenticate-es256_example : ¬ (
    authenticate library (stores_with none) (provider es256) 5 given [] ≡ ([], ok granted_to_alice))
authenticate-es256_example =
    authenticate-es256 library (stores_with none) hs256_config (provider es256) refuses refl made 5
      given [] [] granted_to_alice

abbrev old : Dict String
old = ("old", "1") ∷ []

abbrev valid_for_alice : AuthResult
valid_for_alice = record granted_to_alice { token = "old"; refresh_token = ""; expires_at = 9 }

valid_before :
    validate_token library (stores_with none) (provider hs384) "old" old ≡ ok valid_for_alice
unfolding tested
valid_before = refl

validate_token_ok_example :
    (user : User) × (parsed : Token) × (id : String) × ((stores_with none).validate_token "old" old
      ≡ ok id)
    × (library.parse "old" (key_for library (stores_with none) (provider hs384)) ≡ ok parsed)
    × (parsed.valid ≡ true)
    × (parsed.claims ≡ map_claims (some 9))
    × ((stores_with none).get_user_by_id id old ≡ ok user)
    × (user.enabled ≡ true)
    × ("1" ≡ user.id)
    × (("admin" ∷ []) ≡ user.roles)
    × (◌≡◌ {A = String} "old" "old")
validate_token_ok_example =
    validate_token_ok library (stores_with none) (provider hs384) "old" old valid_for_alice
      valid_before

refreshed :
    refresh_token library (stores_with none) (provider hs384) 5 "old" old
    ≡ (("short", "1") ∷ [], ok granted_to_alice)
unfolding tested
refreshed = refl

texts_differ : ("short" == "old") ≡ false
unfolding tested
texts_differ = refl

short-ne-old : ◌≢◌ {A = String} "short" "old"
short-ne-old = λ e. ground (arith, (eq_iff "short" "old").1 e, texts_differ)

revoked :
    (token : String) (s : Dict String)
    → ((stores_with none).revoke_token token s).1 ≡ none
    → (e : String) × ((stores_with none).validate_token token
          ((stores_with none).revoke_token token s).0
        ≡ err e)
revoked token s quiet = (
  "unknown token",
  ap user_of {y = none} (ground (arith, lookup-delete token token s, eq_self token)),
)

refresh_token-refused_example :
    (e : String) × (validate_token library
        (stores_with none)
        (provider hs384)
        "old"
        (("short", "1") ∷ [])
      ≡ err (validation_failed e))
refresh_token-refused_example =
    refresh_token-refused library (stores_with none) (provider hs384) (stores-KeepsOthers none)
      revoked 5 "old" old (("short", "1") ∷ []) granted_to_alice refreshed short-ne-old short-ne-old
      refl

still_known :
    validate_token library (stores_with (some "down")) (provider hs384) "old" old
    ≡ ok valid_for_alice
unfolding tested
still_known = refl

signed :
    generate_token library (stores_with (some "down")) (provider hs384) 5 alice (pos 1) ≡ ok "short"
unfolding tested
signed = refl

refresh_token-still_valid_example :
    ((refresh_token library (stores_with (some "down")) (provider hs384) 5 "old" old).1
      ≡ ok granted_to_alice)
    × (validate_token library
          (stores_with (some "down"))
          (provider hs384)
          "old"
          (refresh_token library (stores_with (some "down")) (provider hs384) 5 "old" old).0
        ≡ ok valid_for_alice)
unfolding tested
refresh_token-still_valid_example =
    refresh_token-still_valid library (stores_with (some "down")) (provider hs384)
      (stores-KeepsOthers (some "down")) 5 "old" "short" "short" "down" alice old valid_for_alice
      still_known refl signed signed short-ne-old short-ne-old refl
