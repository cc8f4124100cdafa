-- ===== src/Config/Secrets.antt =====
-- The encrypted file store (and, in Vault, the store of a Vault server) of pkg/config/secrets.go. `B` is the type of bytes; the ciphers, SHA-256, base64, the file system (of
-- type `S`) and the reading of random bytes are parameters. Times are seconds on a clock, which a call reads once. Each
-- method takes the mutex of the cache only for a step on the cache; a call runs alone here.
pub mod Cipher
pub mod Kept
pub mod Vault
mod Tests
use Prim.Native.Char.{Char, code}
use Prim.Native.String.{◌++◌ as append_text}
use bindxdb.Prelude.{
  ℕ, ◌+◌, suc, zero, String, Bool, true, false, not, Option, none, some, List, [], ◌∷◌, ◌++◌, Dict,
  lookup, insert, delete, length, nat_eq, ltb, if◌then◌else◌, Result, ok, err, strip_suffix,
}

-- An AEAD, with the destination of Seal first.
pub record Aead (B : Type 0) : Type 0 where
  pub nonce_size : ℕ
  pub seal : (dst nonce plaintext : List B) → List B
  pub open_sealed : (nonce ciphertext : List B) → Result String (List B)

-- sha256.Sum256, aes.NewCipher with cipher.NewGCM, and io.ReadFull of so many bytes.
pub record Ciphers (B : Type 0) : Type 0 where
  pub sum256 : List B → List B
  pub new_gcm : List B → Result String (Aead B)
  pub read_full : ℕ → List B → Result String (List B)

-- Encrypt is given the random bytes that it may read.
pub record Encryption (B : Type 0) : Type 0 where
  pub encrypt : (random plaintext : List B) → Result String (List B)
  pub decrypt : List B → Result String (List B)

pub record AesEncryption (B : Type 0) : Type 0 where
  pub key : List B

module _ {B : Type 0} where
  take : ℕ → List B → List B
  take zero bs = []
  take (suc n) [] = []
  take (suc n) (b ∷ bs) = b ∷ take n bs

  drop : ℕ → List B → List B
  drop zero bs = bs
  drop (suc n) [] = []
  drop (suc n) (b ∷ bs) = drop n bs

module _ {B : Type 0} (ciphers : Ciphers B) where
  open ciphers use {sum256, new_gcm, read_full}

  pub new_aes_encryption : List B → AesEncryption B
  new_aes_encryption key = record { key = if nat_eq (length key) 32 then key else sum256 key }

  pub encrypt_with : AesEncryption B → (random plaintext : List B) → Result String (List B)
  encrypt_with e random plaintext = elim (new_gcm e.key) [
    | err x ↦ err x
    | ok gcm ↦ elim (read_full gcm.nonce_size random) [
      | err x ↦ err x
      | ok nonce ↦ ok (gcm.seal nonce nonce plaintext)
    ]
  ]

  pub decrypt_with : AesEncryption B → List B → Result String (List B)
  unfolding take drop
  decrypt_with e ciphertext = elim (new_gcm e.key) [
    | err x ↦ err x
    | ok gcm ↦
        if ltb (length ciphertext) gcm.nonce_size
        then err "ciphertext too short"
        else gcm.open_sealed (take gcm.nonce_size ciphertext) (drop gcm.nonce_size ciphertext)
  ]

  pub as_encryption : AesEncryption B → Encryption B
  unfolding encrypt_with decrypt_with
  as_encryption e = record { encrypt = encrypt_with e; decrypt = decrypt_with e }

pub record FileInfo : Type 0 where
  pub name : String
  pub is_dir : Bool

-- The file system, with the base64 of the standard encoding, os.IsNotExist of an error, and the bytes of a text.
pub record Files (B S : Type 0) : Type 0 where
  pub read_file : String → S → Result String (List B)
  pub write_file : String → List B → S → S × Option String
  pub remove_file : String → S → S × Option String
  pub read_dir : String → S → Result String (List FileInfo)
  pub mkdir_all : String → S → S × Option String
  pub is_not_exist : String → Bool
  pub join_path : String → String → String
  pub encode : List B → List B
  pub decode : List B → Result String (List B)
  pub to_bytes : String → List B
  pub of_bytes : List B → String

pub record CachedSecret : Type 0 where
  pub value : String
  pub expires_at : ℕ

pub record FileSecretStore (B : Type 0) : Type 0 where
  pub base_path : String
  pub encryption : Encryption B
  pub cache : Dict CachedSecret

pub data SecretError : Type 0 where
  not_found : String → SecretError
  no_dir not_read not_decoded not_decrypted not_encrypted not_written not_deleted :
      String → SecretError

-- time.Now().Add(5 * time.Minute)
abbrev pub cached_until : ℕ → ℕ
cached_until now = now + 300

-- The characters that the replacer of sanitizeKey takes, by their numbers: / \ : * ? " < > |
abbrev replaced : List ℕ
replaced = 47 ∷ 92 ∷ 58 ∷ 42 ∷ 63 ∷ 34 ∷ 60 ∷ 62 ∷ 124 ∷ []

among : ℕ → List ℕ → Bool
among n [] = false
among n (m ∷ ms) = let later = among n ms in if nat_eq n m then true else later

unfoldable pub sanitize_key : String → String
unfolding among
sanitize_key String.[] = ""
sanitize_key (String.◌∷◌ c s) =
    let rest = sanitize_key s in
    if among (code c) replaced then append_text "_" rest else String.◌∷◌ c rest

-- A value of the cache that has not expired.
pub fresh_value : ℕ → Option CachedSecret → Option String
fresh_value now none = none
fresh_value now (some cached) = if ltb now cached.expires_at then some cached.value else none

module _ {B S : Type 0} (files : Files B S) where
  open files use {
    read_file, write_file, remove_file, read_dir, mkdir_all, is_not_exist, join_path, encode,
    decode, to_bytes, of_bytes,
  }

  pub new_file_secret_store : String → Encryption B → S → S × Result SecretError (FileSecretStore B)
  new_file_secret_store base_path encryption s =
      let (s', failure) = mkdir_all base_path s in
      elim failure [
        | some e ↦ (s', err (no_dir e))
        | none ↦ (s', ok (record { base_path = base_path; encryption = encryption; cache = [] }))
      ]

  pub path_of : FileSecretStore B → String → String
  unfolding sanitize_key
  path_of store key = join_path store.base_path (append_text (sanitize_key key) ".enc")

  pub cached_value : ℕ → String → FileSecretStore B → Option String
  unfolding fresh_value
  cached_value now key store = fresh_value now (lookup key store.cache)

  pub cache_value : ℕ → String → String → FileSecretStore B → FileSecretStore B
  cache_value now key value store = record store {
    cache = insert key (record { value = value; expires_at = cached_until now }) store.cache;
  }

  -- The part of GetSecret that reads the file.
  pub read_secret : String → FileSecretStore B → S → Result SecretError String
  unfolding path_of
  read_secret key store s = elim (read_file (path_of store key) s) [
    | err e ↦ if is_not_exist e then err (not_found key) else err (not_read e)
    | ok data_read ↦ elim (decode data_read) [
      | err e ↦ err (not_decoded e)
      | ok ciphertext ↦ elim (store.encryption.decrypt ciphertext) [
        | err e ↦ err (not_decrypted e)
        | ok plaintext ↦ ok (of_bytes plaintext)
      ]
    ]
  ]

  pub get_secret :
      ℕ → String → FileSecretStore B → S → FileSecretStore B × Result SecretError String
  unfolding cached_value cache_value read_secret
  get_secret now key store s = elim (cached_value now key store) [
    | some value ↦ (store, ok value)
    | none ↦ elim (read_secret key store s) [
      | err e ↦ (store, err e)
      | ok value ↦ (cache_value now key value store, ok value)
    ]
  ]

  pub set_secret :
      ℕ
      → List B
      → (key value : String) → FileSecretStore B
      → S
      → (FileSecretStore B × S) × Result SecretError (Unit {0})
  unfolding cache_value path_of
  set_secret now random key value store s =
      elim (store.encryption.encrypt random (to_bytes value)) [
        | err e ↦ ((store, s), err (not_encrypted e))
        | ok ciphertext ↦
            let (s', failure) = write_file (path_of store key) (encode ciphertext) s in
            elim failure [
              | some e ↦ ((store, s'), err (not_written e))
              | none ↦ ((cache_value now key value store, s'), ok tt)
            ]
      ]

  pub delete_secret :
      String → FileSecretStore B → S → (FileSecretStore B × S) × Result SecretError (Unit {0})
  unfolding path_of
  delete_secret key store s =
      let (s', failure) = remove_file (path_of store key) s in
      elim failure [
        | some e ↦ ((store, s'), err (if is_not_exist e then not_found key else not_deleted e))
        | none ↦ ((record store { cache = delete key store.cache }, s'), ok tt)
      ]

  -- The loop of ListSecrets; a file has the extension .enc exactly when its name ends in it.
  pub secret_names : List FileInfo → List String
  secret_names [] = []
  secret_names (f ∷ fs) =
      let rest = secret_names fs in
      if f.is_dir
      then rest
      else elim (strip_suffix ".enc" f.name) [ none ↦ rest | some key ↦ key ∷ rest ]

  pub list_secrets : FileSecretStore B → S → Result SecretError (List String)
  unfolding secret_names
  list_secrets store s = elim (read_dir store.base_path s) [
    | err e ↦ err (no_dir e)
    | ok found ↦ ok (secret_names found)
  ]
