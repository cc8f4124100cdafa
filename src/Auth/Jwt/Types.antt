-- ===== src/Auth/Jwt/Types.antt =====
-- The data of pkg/auth/jwt/provider.go, with the interfaces of the jwt library and of the two stores.
use bindxdb.Prelude.{ℕ, ℤ, String, Bool, Option, List, Result}
use bindxdb.Auth.Types.{User}

-- The signing methods that NewJWTProvider picks.
pub data SigningMethod : Type 0 where
  es256 hs384 hs512 rs256 : SigningMethod

-- What is handed to the jwt library as a key.
pub data Key (K Q : Type 0) : Type 0 where
  secret : String → Key K Q
  private : Option K → Key K Q
  public : Option Q → Key K Q

-- The claims of generateToken.
pub record Claims : Type 0 where
  pub sub : String
  pub username : String
  pub email : String
  pub roles : List String
  pub iat : ℕ
  pub exp : ℕ
  pub iss : String
  pub aud : Option String

-- A parsed token; the claims are of another type than MapClaims, or have under "exp" a number (as whole seconds) or not.
pub data ParsedClaims : Type 0 where
  other_claims : ParsedClaims
  map_claims : (exp : Option ℕ) → ParsedClaims

pub record Token : Type 0 where
  pub valid : Bool
  pub claims : ParsedClaims

-- Parse gives the function that it is called with the Alg of the token's method, and uses the key that it returns.
pub record JwtLibrary (K Q : Type 0) : Type 0 where
  pub alg : SigningMethod → String
  pub signed_string : SigningMethod → Claims → Key K Q → Result String String
  pub parse : String → (String → Result String (Key K Q)) → Result String Token
  pub parse_private_key : String → Result String K
  pub parse_public_key : String → Result String Q
  -- time.Time.Add
  pub add : ℕ → ℤ → ℕ

-- The methods of TokenStore and UserStore that the provider calls.
pub record Stores (S : Type 0) : Type 0 where
  pub store_token : (token user_id : String) → ℕ → S → S × Option String
  pub validate_token : (token : String) → S → Result String String
  pub revoke_token : (token : String) → S → S × Option String
  pub get_user_by_id : (id : String) → S → Result String User
  pub get_user_by_username : (username : String) → S → Result String User
  pub update_user : User → S → S × Option String

pub record JwtConfig : Type 0 where
  pub name : String
  pub secret_key : String
  pub private_key : String
  pub public_key : String
  pub algorithm : String
  pub issuer : String
  pub audience : String
  pub expiration : ℤ
  pub refresh_exp : ℤ

-- A nil key is none.
pub record JwtProvider (K Q : Type 0) : Type 0 where
  pub name : String
  pub secret_key : Option String
  pub private_key : Option K
  pub public_key : Option Q
  pub signing_method : SigningMethod
  pub issuer : String
  pub audience : String
  pub expiration : ℤ
  pub refresh_exp : ℤ

pub data JwtError : Type 0 where
  username_required password_required user_is_disabled invalid_password : JwtError
  user_not_found no_access_token no_refresh_token not_stored : String → JwtError
  validation_failed bad_token unsigned : String → JwtError
  invalid_token invalid_claims invalid_expiration : JwtError
  bad_private_key bad_public_key unsupported_method : String → JwtError
