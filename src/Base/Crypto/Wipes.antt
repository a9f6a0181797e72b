-- ===== src/Base/Crypto/Wipes.antt =====
-- SvcKit/base/svc_security/svc_crypto/src/svc_crypto.cpp: what the buffers hold after a failure.
use dark_os_svc_kit.Common.{
  ℕ, zero, suc, ◌≡◌, ◌≢◌, refl, true, Option, none, some, List, [], ◌∷◌, All, take, arith,
}
use dark_os_svc_kit.Base.Crypto.{
  Result, success, invalid_argument, out_of_memory, Buffer, Engine, wipe, svc_crypto_zeroize,
  aes256_gcm_encrypt, aes256_gcm_decrypt,
}

-- The bytes of a buffer up to a size are 0.
pub Zeroed : ℕ → Option (List ℕ) → Type 0
Zeroed size none = Unit
Zeroed size (some bs) = All (λ b. b ≡ 0) (take size bs)

wipe-zeros : (n : ℕ) (bs : List ℕ) → All (λ b. b ≡ 0) (take n (wipe n bs))
unfolding wipe
wipe-zeros zero bs = tt
wipe-zeros (suc n) [] = tt
wipe-zeros (suc n) (b ∷ bs) = (refl, wipe-zeros n bs)

svc_crypto_zeroize-Zeroed :
    (p : Option (List ℕ)) (size : ℕ) → Zeroed size (svc_crypto_zeroize p size)
unfolding Zeroed svc_crypto_zeroize
svc_crypto_zeroize-Zeroed none size = tt
svc_crypto_zeroize-Zeroed (some bs) size = wipe-zeros size bs

-- The result of an operation that took its arguments and could begin.
abbrev pub Began : Result → Type 0
Began r = (r ≢ invalid_argument) × (r ≢ out_of_memory)

-- Decryption gives out no plaintext that is not authenticated: when it succeeds, the tag was taken and the final
-- call has passed; when it has begun and fails, every byte of the plaintext is 0.
pub aes256_gcm_decrypt-Zeroed :
    (e : Engine) (key nonce_bytes : Option (List ℕ)) (ciphertext aad : Buffer)
    (tag plaintext : Option (List ℕ))
    → (let r = aes256_gcm_decrypt e key nonce_bytes ciphertext aad tag plaintext in
        (r.0 ≡ success → (e.final ≢ none) × (e.tag_passed ≡ true))
        × (r.0 ≢ success → Began r.0 → Zeroed ciphertext.size r.1))
unfolding aes256_gcm_decrypt
aes256_gcm_decrypt-Zeroed e key nonce_bytes ciphertext aad tag plaintext =
    let z = svc_crypto_zeroize-Zeroed plaintext ciphertext.size in
    (λ s. ground arith, λ s b. ground (arith, z))

-- When encryption has begun and fails, every byte of the ciphertext and of the tag is 0.
pub aes256_gcm_encrypt-Zeroed :
    (e : Engine) (key nonce_bytes : Option (List ℕ)) (plaintext aad : Buffer)
    (ciphertext tag : Option (List ℕ))
    → (let r = aes256_gcm_encrypt e key nonce_bytes plaintext aad ciphertext tag in
        r.0 ≢ success → Began r.0 → Zeroed plaintext.size r.1 × Zeroed 16 r.2)
unfolding aes256_gcm_encrypt
aes256_gcm_encrypt-Zeroed e key nonce_bytes plaintext aad ciphertext tag =
    let z = svc_crypto_zeroize-Zeroed ciphertext plaintext.size in
    let y = svc_crypto_zeroize-Zeroed tag 16 in λ s b. ground (arith, z, y)
