-- ===== src/Config/Secrets/Vault.antt =====
-- The Vault store of pkg/config/secrets.go. `S` is what the Vault server holds; the client is a parameter.
pub mod Stored
mod Tests
use Prim.Native.String.{◌++◌ as append_text}
use bindxdb.Prelude.{
  ℕ, String, Bool, true, false, Option, none, some, List, [], ◌∷◌, Dict, lookup, insert, delete,
  ◌==◌, if◌then◌else◌, Result, ok, err, ◌≡◌, refl, sym, ◌∙◌, ap, Result-cases, Option-cases,
  Bool-cases, inl, inr, arith, lookup-insert, eq_self, ltb,
}
use bindxdb.Go.Value.{Value, Values, no_items, item, Fields, no_fields, field, object, string, list}
use bindxdb.Config.Secrets.{CachedSecret, cached_until, fresh_value}

-- Read, Write, Delete and List of the client; a secret that is nil, or has no Data, is none.
pub record VaultClient (F S : Type 0) : Type 0 where
  pub read : String → S → Result String (Option (Fields F))
  pub write : String → Fields F → S → S × Option String
  pub delete_at : String → S → S × Option String
  pub list_at : String → S → Result String (Option (Fields F))

pub record VaultSecretStore : Type 0 where
  pub mount_path : String
  pub cache : Dict CachedSecret

pub data VaultError : Type 0 where
  not_found : String → VaultError
  not_read not_written not_deleted not_listed : String → VaultError
  bad_format no_value : VaultError

module _ {F : Type 0} where
  -- An entry of a map of values.
  pub entry : String → Fields F → Option (Value F)
  entry key no_fields = none
  entry key (field k v fs) = let later = entry key fs in if k == key then some v else later

  value_of : Option (Value F) → Result VaultError String
  value_of (some (string s)) = ok s
  value_of _ = err no_value

  -- The value in the Data of a secret.
  pub secret_value : Option (Value F) → Result VaultError String
  unfolding value_of entry
  secret_value (some (object fs)) = value_of (entry "value" fs)
  secret_value _ = err bad_format

  pub wrapped : String → Fields F
  wrapped value = field "data" (object (field "value" (string value) no_fields)) no_fields

  -- The loop of ListSecrets, which panics at a key that is no string.
  key_texts : Values F → Option (List String)
  key_texts no_items = some []
  key_texts (item (string s) vs) = elim (key_texts vs) [ none ↦ none | some ss ↦ some (s ∷ ss) ]
  key_texts (item _ vs) = none

  keys_of : Option (Value F) → Option (Result VaultError (List String))
  unfolding key_texts
  keys_of (some (list vs)) = elim (key_texts vs) [ none ↦ none | some ss ↦ some (ok ss) ]
  keys_of _ = some (err bad_format)

module _ {F S : Type 0} (client : VaultClient F S) where
  open client use {read, write, delete_at, list_at}

  pub data_path : VaultSecretStore → String → String
  data_path store key = append_text store.mount_path (append_text "/data/" key)

  keep : ℕ → String → String → VaultSecretStore → VaultSecretStore
  keep now key value store = record store {
    cache = insert key (record { value = value; expires_at = cached_until now }) store.cache;
  }

  -- The part of GetSecret that asks the server.
  pub read_vault : String → VaultSecretStore → S → Result VaultError String
  unfolding data_path secret_value entry
  read_vault key store s = elim (read (data_path store key) s) [
    | err e ↦ err (not_read e)
    | ok none ↦ err (not_found key)
    | ok (some fs) ↦ secret_value (entry "data" fs)
  ]

  pub get_secret : ℕ → String → VaultSecretStore → S → VaultSecretStore × Result VaultError String
  unfolding read_vault keep
  get_secret now key store s = elim (fresh_value now (lookup key store.cache)) [
    | some value ↦ (store, ok value)
    | none ↦ elim (read_vault key store s) [
      | err e ↦ (store, err e)
      | ok value ↦ (keep now key value store, ok value)
    ]
  ]

  pub set_secret :
      ℕ
      → (key value : String) → VaultSecretStore
      → S
      → (VaultSecretStore × S) × Result VaultError (Unit {0})
  unfolding data_path keep wrapped
  set_secret now key value store s =
      let (s', failure) = write (data_path store key) (wrapped value) s in
      elim failure [
        | some e ↦ ((store, s'), err (not_written e))
        | none ↦ ((keep now key value store, s'), ok tt)
      ]

  pub delete_secret :
      String → VaultSecretStore → S → (VaultSecretStore × S) × Result VaultError (Unit {0})
  unfolding data_path
  delete_secret key store s =
      let (s', failure) = delete_at (data_path store key) s in
      elim failure [
        | some e ↦ ((store, s'), err (not_deleted e))
        | none ↦ ((record store { cache = delete key store.cache }, s'), ok tt)
      ]

  -- `none` is a panic.
  pub list_secrets : VaultSecretStore → S → Option (Result VaultError (List String))
  unfolding keys_of entry
  list_secrets store s = elim (list_at (append_text store.mount_path "/metadata") s) [
    | err e ↦ some (err (not_listed e))
    | ok none ↦ some (ok [])
    | ok (some fs) ↦ keys_of (entry "keys" fs)
  ]
