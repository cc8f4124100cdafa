-- ===== src/Config/Secrets/Vault/Tests.antt =====
-- A server is a Go map from paths to what was written there, which it gives beside the metadata of the secret.
use bindxdb.Prelude.{
  ap, ℕ, String, Option, none, some, [], ◌∷◌, ◌≡◌, refl, Dict, lookup, insert, delete,
  lookup-insert, eq_self, ok, arith, go,
}
use bindxdb.Go.Value.{Fields, field, object, no_fields}
use bindxdb.Config.Secrets.Vault.{
  VaultClient, VaultSecretStore, wrapped, entry, data_path, get_secret, set_secret,
}
use bindxdb.Config.Secrets.Vault.Stored.{get_secret-set_secret_vault}

abbrev beside_metadata : Option (Fields ℕ) → Option (Fields ℕ)
beside_metadata none = none
beside_metadata (some fs) = some (field "metadata" (object no_fields) fs)

abbrev client : VaultClient ℕ (Dict (Fields ℕ))
client = record {
  read = λ path s. ok (beside_metadata (lookup path s));
  write = λ path content s. (insert path content s, none);
  delete_at = λ path s. (delete path s, none);
  list_at = λ path s. ok none;
}

abbrev empty : VaultSecretStore
empty = record { mount_path = "secret"; cache = [] }

abbrev with_key : VaultSecretStore
with_key = record {
  mount_path = "secret";
  cache = ("db", record { value = "pw"; expires_at = 301 }) ∷ [];
}

stored :
    set_secret client 1 "db" "pw" empty []
    ≡ ((with_key, ("secret/data/db", wrapped "pw") ∷ []), ok tt)
unfolding go set_secret
stored = refl

reads :
    (k v : String) (t : Dict (Fields ℕ))
    → (client.write (data_path client empty k) (wrapped v) t).1 ≡ none
    → (fs : Fields ℕ) × (client.read
          (data_path client empty k)
          (client.write (data_path client empty k) (wrapped v) t).0
        ≡ ok (some fs))
      × (entry "data" fs ≡ entry "data" (wrapped {F = ℕ} v))
unfolding go entry
reads k v t quiet =
    let path = data_path client empty k in
    (
      field "metadata" (object no_fields) (wrapped v),
      ap (λ (c : Option (Fields ℕ)). ok (beside_metadata c)) {y = some (wrapped v)}
          (ground (arith, lookup-insert path path (wrapped v) t, eq_self path)),
      refl,
    )

get_secret-set_secret_vault_example :
    (get_secret client 900 "db" with_key (("secret/data/db", wrapped "pw") ∷ [])).1 ≡ ok "pw"
get_secret-set_secret_vault_example =
    get_secret-set_secret_vault client 1 900 "db" "pw" empty with_key []
      (("secret/data/db", wrapped "pw") ∷ []) reads stored
