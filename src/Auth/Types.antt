-- ===== src/Auth/Types.antt =====
-- pkg/auth/interface.go: the data that providers, the authorizer and the middleware exchange.
-- Times are seconds on a clock.
use bindxdb.Prelude.{ℕ, String, Bool, List}

pub record AuthResult : Type 0 where
  pub success : Bool
  pub user_id : String
  pub username : String
  pub email : String
  pub roles : List String
  pub permissions : List String
  pub token : String
  pub refresh_token : String
  pub expires_at : ℕ

pub record User : Type 0 where
  pub id : String
  pub username : String
  pub email : String
  pub roles : List String
  pub permissions : List String
  pub last_login : ℕ
  pub enabled : Bool
  pub password_hash : String

pub record Role : Type 0 where
  pub name : String
  pub permissions : List String
  pub description : String

pub record Permission : Type 0 where
  pub resource : String
  pub action : String
  pub effect : String

pub record AuthContext : Type 0 where
  pub user_id : String
  pub username : String
  pub roles : List String
  pub permissions : List Permission
  pub token : String
  pub authenticated : Bool
  pub expires_at : ℕ
