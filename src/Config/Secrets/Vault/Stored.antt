-- ===== src/Config/Secrets/Vault/Stored.antt =====
-- What GetSecret of the Vault store gives after SetSecret.
use bindxdb.Prelude.{
  ℕ, String, Option, none, some, ◌≡◌, refl, sym, ◌∙◌, ap, lookup, lookup-insert, eq_self,
  if◌then◌else◌, ok, Option-cases, Bool-cases, inl, inr, arith, ltb, go,
}
use bindxdb.Go.Value.{Fields}
use bindxdb.Config.Secrets.{CachedSecret, cached_until, fresh_value}
use bindxdb.Config.Secrets.Vault.{
  VaultClient, VaultSecretStore, data_path, keep, wrapped, entry, secret_value, value_of,
  read_vault, get_secret, set_secret,
}

module _ {F S : Type 0} (client : VaultClient F S) where
  open client use {read, write}

  set_secret_ok :
      (now : ℕ) (key value : String) (store store' : VaultSecretStore) (s s' : S)
      → set_secret client now key value store s ≡ ((store', s'), ok tt)
      → ((write (data_path client store key) (wrapped value) s).1 ≡ none)
        × ((write (data_path client store key) (wrapped value) s).0 ≡ s')
        × (keep client now key value store ≡ store')
  unfolding set_secret
  set_secret_ok now key value store store' s s' done =
      elim (Option-cases (write (data_path client store key) (wrapped value) s).1) [
        | inr (x, g) ↦ absurd (ground (arith, done, g))
        | inl g ↦ (g, ground (arith, done, g), ground (arith, done, g))
      ]

  secret_value-wrapped :
      (value : String) → secret_value (entry "data" (wrapped {F = F} value)) ≡ ok value
  unfolding go secret_value value_of entry wrapped
  secret_value-wrapped value = refl

  lookup-keep :
      (now later : ℕ) (key value : String) (store : VaultSecretStore)
      → fresh_value later (lookup key (keep client now key value store).cache)
        ≡ (if ltb later (cached_until now) then some value else none)
  unfolding keep fresh_value
  lookup-keep now later key value store =
      let kept : CachedSecret = record { value = value; expires_at = cached_until now } in
      ap (λ (c : Option CachedSecret). fresh_value later c) {y = some kept}
        (ground (arith, lookup-insert key key kept store.cache, eq_self key))

  -- A value that SetSecret of the Vault store has stored is what GetSecret gives for the key at any later time, from the
  -- cache within five minutes and from the server after that, where the server answers at the path of a key with the data
  -- that was written there last, beside whatever else.
  pub get_secret-set_secret_vault :
      (now later : ℕ) (key value : String) (store store' : VaultSecretStore) (s s' : S)
      → ((k v : String) (t : S)
          → (write (data_path client store k) (wrapped v) t).1 ≡ none
          → (fs : Fields F) × (read
                (data_path client store k)
                (write (data_path client store k) (wrapped v) t).0
              ≡ ok (some fs))
            × (entry "data" fs ≡ entry "data" (wrapped {F = F} v)))
      → set_secret client now key value store s ≡ ((store', s'), ok tt)
      → (get_secret client later key store' s').1 ≡ ok value
  unfolding get_secret read_vault keep
  get_secret-set_secret_vault now later key value store store' s s' reads done =
      let (quiet, at, kept) = set_secret_ok now key value store store' s s' done in
      let (fs, answer, same) = reads key value s quiet in
      let mid = keep client now key value store in
      let there : read (data_path client mid key) s' ≡ ok (some fs) =
        ap (λ (q : S). read (data_path client store key) q) (sym at) ∙ answer in
      let from_mid : (get_secret client later key mid s').1 ≡ ok value =
        elim (Bool-cases (ltb later (cached_until now))) [
          | inl t ↦ rw (get_secret, lookup-keep now later key value store, t) refl
          | inr n ↦
              rw
                (
                  get_secret,
                  lookup-keep now later key value store,
                  n,
                  read_vault,
                  there,
                  same,
                  secret_value-wrapped value,
                )
                refl
        ] in
      ap (λ (q : VaultSecretStore). (get_secret client later key q s').1) (sym kept) ∙ from_mid
