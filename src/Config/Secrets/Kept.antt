-- ===== src/Config/Secrets/Kept.antt =====
-- What GetSecret gives after SetSecret, from the cache and from the file.
use mathlib.Core.Path.{subst}
use Prim.Native.String.{◌++◌ as append_text}
use bindxdb.Prelude.{
  List, ℕ, ◌+◌, ◌≤◌, String, false, Option, none, some, ◌≡◌, ◌≢◌, refl, sym, ◌∙◌, ap, lookup-insert,
  ◌==◌, eq_iff, eq_self, ltb, if◌then◌else◌, ok, arith, Result-cases, Option-cases, Bool-cases, inl,
  inr,
}
use bindxdb.Config.Secrets.{
  Encryption, Files, CachedSecret, FileSecretStore, cached_until, path_of, fresh_value,
  cached_value, cache_value, read_secret, get_secret, set_secret, sanitize_key,
}

-- What the parameters promise: a file that is written is read back, base64 and the bytes of a text are decoded as they were
-- encoded, and the encryption decrypts what it encrypts.
pub record RoundTrips {B S : Type 0} (files : Files B S) (encryption : Encryption B) : Type 0 where
  pub written :
      (path : String) (content : List B) (s : S)
      → (files.write_file path content s).1 ≡ none
      → files.read_file path (files.write_file path content s).0 ≡ ok content
  pub decoded : (bs : List B) → files.decode (files.encode bs) ≡ ok bs
  pub text : (value : String) → files.of_bytes (files.to_bytes value) ≡ value
  pub decrypted :
      (random plaintext ciphertext : List B)
      → encryption.encrypt random plaintext ≡ ok ciphertext
      → encryption.decrypt ciphertext ≡ ok plaintext

module _ {B S : Type 0} (files : Files B S) where
  -- A SetSecret that succeeds has cached the value and written it to the file of the key.
  set_secret_ok :
      (now : ℕ) (random : List B) (key value : String) (store store' : FileSecretStore B) (s s' : S)
      → set_secret files now random key value store s ≡ ((store', s'), ok tt)
      → (ciphertext : List B) × (store.encryption.encrypt random (files.to_bytes value)
          ≡ ok ciphertext)
        × ((files.write_file (path_of files store key) (files.encode ciphertext) s).1 ≡ none)
        × ((files.write_file (path_of files store key) (files.encode ciphertext) s).0 ≡ s')
        × (cache_value files now key value store ≡ store')
  unfolding set_secret
  set_secret_ok now random key value store store' s s' done =
      elim (Result-cases (store.encryption.encrypt random (files.to_bytes value))) [
        | inr (x, f) ↦ absurd (ground (arith, done, f))
        | inl (ciphertext, f) ↦
            elim (Option-cases
              (files.write_file (path_of files store key) (files.encode ciphertext) s).1) [
                | inr (x, g) ↦ absurd (ground (arith, done, f, g))
                | inl g ↦ (ciphertext, f, g, ground (arith, done, f, g), ground (arith, done, f, g))
              ]
      ]

  -- The file of a key, after a SetSecret of a key with the same path.
  read_secret-set_secret :
      (now : ℕ) (random : List B) (key other value : String)
      (store store' reader : FileSecretStore B) (s s' : S)
      → RoundTrips files store.encryption
      → reader.encryption ≡ store.encryption
      → path_of files reader other ≡ path_of files store key
      → set_secret files now random key value store s ≡ ((store', s'), ok tt)
      → read_secret files other reader s' ≡ ok value
  unfolding read_secret
  read_secret-set_secret now random key other value store store' reader s s' laws same_key same_path
        done =
      let (ciphertext, f, g, h, i) = set_secret_ok now random key value store store' s s' done in
      let read : files.read_file (path_of files reader other) s' ≡ ok (files.encode ciphertext) =
        ap (λ (p : String). files.read_file p s') same_path
        ∙ ap (λ (q : S). files.read_file (path_of files store key) q) (sym h)
        ∙ laws.written (path_of files store key) (files.encode ciphertext) s g in
      rw
        (
          read_secret,
          read,
          laws.decoded ciphertext,
          same_key,
          laws.decrypted random (files.to_bytes value) ciphertext f,
          laws.text value,
        )
        refl

  cached_value-cache_value :
      (now later : ℕ) (key value : String) (store : FileSecretStore B)
      → cached_value files later key (cache_value files now key value store)
        ≡ (if ltb later (cached_until now) then some value else none)
  unfolding cached_value cache_value fresh_value
  cached_value-cache_value now later key value store =
      let kept : CachedSecret = record { value = value; expires_at = cached_until now } in
      ap (λ (c : Option CachedSecret). fresh_value later c) {y = some kept}
        (ground (arith, lookup-insert key key kept store.cache, eq_self key))

  cached_value_other :
      (now later : ℕ) (key other value : String) (store : FileSecretStore B)
      → key ≢ other
      → cached_value files later other (cache_value files now key value store)
        ≡ cached_value files later other store
  unfolding cached_value cache_value fresh_value
  cached_value_other now later key other value store ne =
      let different : (key == other) ≡ false = ground (arith, eq_iff key other, ne) in
      let kept : CachedSecret = record { value = value; expires_at = cached_until now } in
      ap (λ (c : Option CachedSecret). fresh_value later c)
        (ground (arith, lookup-insert key other kept store.cache, different))

  -- GetSecret reads the cache, and the file where the cache has nothing.
  get_secret-cached :
      (later : ℕ) (key value : String) (store : FileSecretStore B) (s : S)
      → cached_value files later key store ≡ some value
      → (get_secret files later key store s).1 ≡ ok value
  unfolding get_secret
  get_secret-cached later key value store s e = rw (get_secret, e) refl

  get_secret-read_secret :
      (later : ℕ) (key value : String) (store : FileSecretStore B) (s : S)
      → cached_value files later key store ≡ none
      → read_secret files key store s ≡ ok value
      → (get_secret files later key store s).1 ≡ ok value
  unfolding get_secret
  get_secret-read_secret later key value store s e r = rw (get_secret, e, r) refl

  path_of-cache_value :
      (now : ℕ) (key value other : String) (store : FileSecretStore B)
      → path_of files (cache_value files now key value store) other ≡ path_of files store other
  unfolding path_of cache_value
  path_of-cache_value now key value other store = refl

  path_of_alike :
      (key other : String) (store : FileSecretStore B)
      → sanitize_key key ≡ sanitize_key other
      → path_of files store key ≡ path_of files store other
  unfolding path_of
  path_of_alike key other store alike =
      ap (λ (name : String). files.join_path store.base_path (append_text name ".enc")) alike

  cache_value-encryption :
      (now : ℕ) (key value : String) (store : FileSecretStore B)
      → (cache_value files now key value store).encryption ≡ store.encryption
  unfolding cache_value
  cache_value-encryption now key value store = refl

  -- A value that SetSecret has stored is what GetSecret gives for the key at any later time, from the cache within five
  -- minutes and from the file after that, where the files, base64 and the encryption give back what they were given.
  pub get_secret-set_secret :
      (now later : ℕ) (random : List B) (key value : String) (store store' : FileSecretStore B)
      (s s' : S)
      → RoundTrips files store.encryption
      → set_secret files now random key value store s ≡ ((store', s'), ok tt)
      → (get_secret files later key store' s').1 ≡ ok value
  get_secret-set_secret now later random key value store store' s s' laws done =
      let (ciphertext, f, g, h, i) = set_secret_ok now random key value store store' s s' done in
      let mid = cache_value files now key value store in
      let from_mid : (get_secret files later key mid s').1 ≡ ok value =
        elim (Bool-cases (ltb later (cached_until now))) [
          | inl t ↦
              get_secret-cached later key value mid s'
                (rw (cached_value-cache_value now later key value store, t) refl)
          | inr n ↦
              get_secret-read_secret later key value mid s'
                (rw (cached_value-cache_value now later key value store, n) refl)
                (read_secret-set_secret now random key key value store store' mid s s' laws
                  (cache_value-encryption now key value store)
                  (path_of-cache_value now key value key store) done)
        ] in
      ap (λ (q : FileSecretStore B). (get_secret files later key q s').1) (sym i) ∙ from_mid

  -- Two keys that sanitizeKey spells alike share a file: once the cache has expired, GetSecret gives for the first the value
  -- that was set for the second, where the files, base64 and the encryption give back what they were given.
  pub get_secret_alike :
      (now now' later : ℕ) (random random' : List B) (key other value value' : String)
      (store store' store'' : FileSecretStore B) (s s' s'' : S)
      → RoundTrips files store.encryption
      → key ≢ other
      → sanitize_key key ≡ sanitize_key other
      → set_secret files now random key value store s ≡ ((store', s'), ok tt)
      → set_secret files now' random' other value' store' s' ≡ ((store'', s''), ok tt)
      → now + 300 ≤ later
      → (get_secret files later key store'' s'').1 ≡ ok value'
  unfolding cache_value path_of
  get_secret_alike now now' later random random' key other value value' store store' store'' s s'
        s'' laws ne alike done done' expired =
      let (c, f, g, h, i) = set_secret_ok now random key value store store' s s' done in
      let (c', f', g', h', i') =
        set_secret_ok now' random' other value' store' store'' s' s'' done' in
      let same_key : store'.encryption ≡ store.encryption =
        sym (ap (λ (q : FileSecretStore B). q.encryption) i) in
      let absent : cached_value files later key store'' ≡ none =
        ap (λ (q : FileSecretStore B). cached_value files later key q) (sym i')
        ∙ cached_value_other now' later other key value' store' (λ e. ne (sym e))
        ∙ ap (λ (q : FileSecretStore B). cached_value files later key q) (sym i)
        ∙ cached_value-cache_value now later key value store
        ∙ ground (arith, expired) in
      get_secret-read_secret later key value' store'' s'' absent (
        read_secret-set_secret now' random' other key value' store' store'' store'' s' s''
          (subst (λ (q : Encryption B). RoundTrips files q) (sym same_key) laws)
          (sym (ap (λ (q : FileSecretStore B). q.encryption) i'))
          (path_of_alike key other store'' alike
            ∙ ap (λ (q : FileSecretStore B). path_of files q other) (sym i'))
          done')
