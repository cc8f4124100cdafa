-- ===== src/Config/Secrets/Tests.antt =====
-- A file system is a Go map, the bytes of a text are its characters, and a sealed text is the nonce before the text.
use mathlib.Core.Path.{subst}
use Prim.Native.Char.{Char}
use Prim.Native.String.{◌++◌ as append_text}
use bindxdb.Prelude.{
  ap, ℕ, suc, zero, String, true, false, Option, none, some, List, [], ◌∷◌, ◌++◌, ◌≡◌, refl, Dict,
  lookup, insert, delete, lookup-insert, length, ◌==◌, eq_iff, eq_self, Result, ok, err, go, arith,
  Result-cases, inl, inr,
}
use bindxdb.Config.Secrets.{
  Aead, Ciphers, Encryption, AesEncryption, encrypt_with, decrypt_with, Files, CachedSecret,
  FileSecretStore, get_secret, set_secret, sanitize_key,
}
use bindxdb.Config.Secrets.Cipher.{decrypt_with-encrypt_with}
use bindxdb.Config.Secrets.Kept.{RoundTrips, get_secret-set_secret, get_secret_alike}

abbrev gcm : Aead ℕ
gcm = record {
  nonce_size = 2;
  seal = λ dst nonce plaintext. dst ++ plaintext;
  open_sealed = λ nonce ciphertext. ok ciphertext;
}

-- The first bytes, or an error where there are too few.
abbrev first : ℕ → List ℕ → Result String (List ℕ)
first zero bs = ok []
first (suc n) [] = err "unexpected EOF"
first (suc n) (b ∷ bs) = elim (first n bs) [ err e ↦ err e | ok rest ↦ ok (b ∷ rest) ]

first-length : (n : ℕ) (bs cs : List ℕ) → first n bs ≡ ok cs → length cs ≡ n
first-length zero bs cs e = ground (arith, e)
first-length (suc n) [] cs e = absurd (ground (arith, e))
first-length (suc n) (b ∷ bs) cs e = elim (Result-cases (first n bs)) [
  | inl (rest, f) ↦ ground (arith, e, f, first-length n bs rest f)
  | inr (x, f) ↦ absurd (ground (arith, e, f))
]

abbrev ciphers : Ciphers ℕ
ciphers = record { sum256 = λ bs. bs; new_gcm = λ key. ok gcm; read_full = first }

abbrev aes : AesEncryption ℕ
aes = record { key = 1 ∷ [] }

tested : Unit {0}
unfolding go encrypt_with set_secret sanitize_key
tested = tt

encrypted : encrypt_with ciphers aes (7 ∷ 8 ∷ 9 ∷ []) (5 ∷ []) ≡ ok (7 ∷ 8 ∷ 5 ∷ [])
unfolding tested
encrypted = refl

abbrev taken : Result String (Aead ℕ) → Aead ℕ
taken (ok g) = g
taken (err e) = gcm

opens :
    (key : List ℕ) (g : Aead ℕ) (dst nonce plaintext : List ℕ)
    → ciphers.new_gcm key ≡ ok g
    → length nonce ≡ g.nonce_size
    → (sealed : List ℕ) × (g.seal dst nonce plaintext ≡ dst ++ sealed)
      × (g.open_sealed nonce sealed ≡ ok plaintext)
opens key g dst nonce plaintext e size =
    subst
      (λ (h : Aead ℕ).
        (sealed : List ℕ) × (h.seal dst nonce plaintext ≡ dst ++ sealed)
        × (h.open_sealed nonce sealed ≡ ok plaintext))
      (ap taken e) (plaintext, refl, refl)

decrypt_with-encrypt_with_example : decrypt_with ciphers aes (7 ∷ 8 ∷ 5 ∷ []) ≡ ok (5 ∷ [])
decrypt_with-encrypt_with_example =
    decrypt_with-encrypt_with ciphers first-length opens aes (7 ∷ 8 ∷ 9 ∷ []) (5 ∷ [])
      (7 ∷ 8 ∷ 5 ∷ []) encrypted

abbrev plain : Encryption Char
plain = record { encrypt = λ random plaintext. ok plaintext; decrypt = λ ciphertext. ok ciphertext }

abbrev characters : String → List Char
characters String.[] = []
characters (String.◌∷◌ c s) = c ∷ characters s

abbrev text_of : List Char → String
text_of [] = String.[]
text_of (c ∷ cs) = String.◌∷◌ c (text_of cs)

text_of-characters : (s : String) → text_of (characters s) ≡ s
text_of-characters String.[] = refl
text_of-characters (String.◌∷◌ c s) = ap (λ rest. String.◌∷◌ c rest) (text_of-characters s)

abbrev content : Option (List Char) → Result String (List Char)
content none = err "no such file"
content (some bs) = ok bs

abbrev files : Files Char (Dict (List Char))
files = record {
  read_file = λ path s. content (lookup path s);
  write_file = λ path bs s. (insert path bs s, none);
  remove_file = λ path s. (delete path s, none);
  read_dir = λ path s. ok [];
  mkdir_all = λ path s. (s, none);
  is_not_exist = λ e. true;
  join_path = λ dir name. append_text dir name;
  encode = λ bs. bs;
  decode = λ bs. ok bs;
  to_bytes = characters;
  of_bytes = text_of;
}

round_trips : RoundTrips files plain
round_trips = record {
  written = λ path bs s quiet.
      ap content {y = some bs} (ground (arith, lookup-insert path path bs s, eq_self path));
  decoded = λ bs. refl;
  text = text_of-characters;
  decrypted = λ random plaintext ciphertext e. ground (arith, e);
}

abbrev empty : FileSecretStore Char
empty = record { base_path = "secrets/"; encryption = plain; cache = [] }

abbrev caching : (key value : String) → ℕ → Dict CachedSecret → FileSecretStore Char
caching key value at cache = record empty {
  cache = insert key (record { value = value; expires_at = at }) cache;
}

abbrev one_cached : Dict CachedSecret
one_cached = ("db/key", record { value = "old"; expires_at = 301 }) ∷ []

abbrev two_cached : Dict CachedSecret
two_cached =
    ("db/key", record { value = "old"; expires_at = 301 })
    ∷ ("db_key", record { value = "new"; expires_at = 302 })
    ∷ []

abbrev path : String
path = "secrets/db_key.enc"

stored_one :
    set_secret files 1 [] "db/key" "old" empty []
    ≡ ((record empty { cache = one_cached }, (path, characters "old") ∷ []), ok tt)
unfolding tested
stored_one = refl

stored_two :
    set_secret files 2 [] "db_key" "new"
      (record empty { cache = one_cached })
      ((path, characters "old") ∷ [])
    ≡ ((record empty { cache = two_cached }, (path, characters "new") ∷ []), ok tt)
unfolding tested
stored_two = refl

get_secret-set_secret_example :
    (get_secret files 9 "db/key"
      (record empty { cache = one_cached })
      ((path, characters "old") ∷ [])).1
    ≡ ok "old"
get_secret-set_secret_example =
    get_secret-set_secret files 1 9 [] "db/key" "old" empty (record empty { cache = one_cached }) []
      ((path, characters "old") ∷ []) round_trips stored_one

keys_differ : ("db/key" == "db_key") ≡ false
unfolding tested
keys_differ = refl

alike : sanitize_key "db/key" ≡ sanitize_key "db_key"
unfolding tested
alike = refl

get_secret_alike_example :
    (get_secret files 400 "db/key"
      (record empty { cache = two_cached })
      ((path, characters "new") ∷ [])).1
    ≡ ok "new"
get_secret_alike_example =
    get_secret_alike files 1 2 400 [] [] "db/key" "db_key" "old" "new" empty
      (record empty { cache = one_cached }) (record empty { cache = two_cached }) []
      ((path, characters "old") ∷ []) ((path, characters "new") ∷ []) round_trips
      (λ e. ground (arith, (eq_iff "db/key" "db_key").1 e, keys_differ)) alike stored_one stored_two
      (omega arith)
