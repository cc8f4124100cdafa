-- ===== src/Config/Secrets/Cipher.antt =====
-- Decrypt after Encrypt.
use bindxdb.Prelude.{
  ℕ, false, List, [], ◌∷◌, ◌++◌, ◌≡◌, refl, sym, ◌∙◌, ap, length, length-append, ltb, ok, arith,
  Result-cases, inl, inr,
}
use bindxdb.Config.Secrets.{Aead, Ciphers, AesEncryption, encrypt_with, decrypt_with, take, drop}

take-append : {B : Type 0} (bs cs : List B) → take (length bs) (bs ++ cs) ≡ bs
unfolding take
take-append [] cs = refl
take-append (b ∷ bs) cs = ap (λ q. b ∷ q) (take-append bs cs)

drop-append : {B : Type 0} (bs cs : List B) → drop (length bs) (bs ++ cs) ≡ cs
unfolding drop
drop-append [] cs = refl
drop-append (b ∷ bs) cs = drop-append bs cs

ltb-append : {B : Type 0} (bs cs : List B) → ltb (length (bs ++ cs)) (length bs) ≡ false
ltb-append bs cs = ground (arith, length-append bs cs)

-- Decrypt gives back what Encrypt was given, under the same key, where ReadFull fills its buffer, and an AEAD appends what
-- it seals to the destination and opens what it has sealed under the same nonce.
pub decrypt_with-encrypt_with :
    {B : Type 0} (ciphers : Ciphers B)
    → ((n : ℕ) (random nonce : List B) → ciphers.read_full n random ≡ ok nonce → length nonce ≡ n)
    → ((key : List B) (gcm : Aead B) (dst nonce plaintext : List B)
        → ciphers.new_gcm key ≡ ok gcm
        → length nonce ≡ gcm.nonce_size
        → (sealed : List B) × (gcm.seal dst nonce plaintext ≡ dst ++ sealed)
          × (gcm.open_sealed nonce sealed ≡ ok plaintext))
    → (e : AesEncryption B) (random plaintext ciphertext : List B)
    → encrypt_with ciphers e random plaintext ≡ ok ciphertext
    → decrypt_with ciphers e ciphertext ≡ ok plaintext
unfolding encrypt_with decrypt_with
decrypt_with-encrypt_with ciphers fills opens e random plaintext ciphertext done =
    elim (Result-cases (ciphers.new_gcm e.key)) [
      | inr (x, f) ↦ absurd (ground (arith, done, f))
      | inl (gcm, f) ↦ elim (Result-cases (ciphers.read_full gcm.nonce_size random)) [
        | inr (x, g) ↦ absurd (ground (arith, done, f, g))
        | inl (nonce, g) ↦
            let size = fills gcm.nonce_size random nonce g in
            let (sealed, a, b) = opens e.key gcm nonce nonce plaintext f size in
            let same : nonce ++ sealed ≡ ciphertext = sym a ∙ ground (arith, done, f, g) in
            rw
              (
                decrypt_with,
                f,
                sym same,
                sym size,
                ltb-append nonce sealed,
                take-append nonce sealed,
                drop-append nonce sealed,
              )
              b
      ]
    ]
