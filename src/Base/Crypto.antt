-- ===== src/Base/Crypto.antt =====
-- SvcKit/base/svc_security/svc_crypto/src/svc_crypto.cpp: AES-256-GCM over OpenSSL. What OpenSSL answers is a
-- parameter; a pointer is `none` where it is null, and else the bytes that it points to.
use dark_os_svc_kit.Common.{
  ℕ, zero, suc, ◌+◌, Bool, true, false, not, ◌&&◌, ◌||◌, Option, none, some, is_none, List, [], ◌∷◌,
  leb, ◌==◌, if◌then◌else◌,
}
pub mod Wipes
pub mod Lengths
pub mod Tests

-- svc_crypto_result_t
pub data Result : Type 0 where
  success invalid_argument out_of_memory auth_failed backend_error : Result

-- A pointer and a size.
pub record Buffer : Type 0 where
  pub address : Option (List ℕ)
  pub size : ℕ

abbrev pub valid_buffer : Option (List ℕ) → ℕ → Bool
valid_buffer p size = size == 0 || not (is_none p)

-- INT_MAX
abbrev pub valid_operation_size : ℕ → Bool
valid_operation_size size = leb size 2147483647

-- The answers of OpenSSL for one message: whether it makes a context; whether the cipher, the length of the nonce
-- and the key are taken; for an update the length that it writes, `none` if it fails, and what then stands in the
-- output; the length that the final call writes; and whether the tag is read or written, with what stands in it.
pub record Engine : Type 0 where
  pub context : Bool
  pub prepared : Bool
  pub update_aad : ℕ → Option ℕ
  pub update : List ℕ → Option ℕ
  pub output : List ℕ → List ℕ
  pub final : Option ℕ
  pub tag_passed : Bool
  pub tag_output : List ℕ → List ℕ

-- svc_crypto_zeroize
pub wipe : ℕ → List ℕ → List ℕ
wipe zero bs = bs
wipe (suc n) [] = []
wipe (suc n) (b ∷ bs) = 0 ∷ wipe n bs

pub svc_crypto_zeroize : Option (List ℕ) → ℕ → Option (List ℕ)
unfolding wipe
svc_crypto_zeroize none size = none
svc_crypto_zeroize (some bs) size = some (wipe size bs)

abbrev pub through : (List ℕ → List ℕ) → Option (List ℕ) → Option (List ℕ)
through f none = none
through f (some bs) = some (f bs)

-- The chain of calls up to the update: the variable `length`, `none` once a call has failed.
pub lengths : Engine → Buffer → Option (List ℕ) → ℕ → Option ℕ
lengths e aad input size =
    let associated : Option ℕ = if aad.size == 0 then some 0 else e.update_aad aad.size in
    if not e.prepared then none else elim associated [
      | none ↦ none
      | some length ↦
          if size == 0 then some length else elim input [ none ↦ none | some bs ↦ e.update bs ]
    ]

-- The result, and what stands in the ciphertext and in the tag afterwards.
pub aes256_gcm_encrypt :
    Engine
    → Option (List ℕ)
    → Option (List ℕ)
    → Buffer
    → Buffer
    → Option (List ℕ)
    → Option (List ℕ)
    → Result × Option (List ℕ) × Option (List ℕ)
unfolding lengths svc_crypto_zeroize
aes256_gcm_encrypt e key nonce_bytes plaintext aad ciphertext tag =
    let size = plaintext.size in
    let failed : Result × Option (List ℕ) × Option (List ℕ) =
      (backend_error, svc_crypto_zeroize ciphertext size, svc_crypto_zeroize tag 16) in
    let written = if size == 0 then ciphertext else through e.output ciphertext in
    if is_none key
      || is_none nonce_bytes
      || is_none tag
      || not (valid_buffer plaintext.address size)
      || not (valid_buffer ciphertext size)
      || not (valid_buffer aad.address aad.size)
      || not (valid_operation_size size)
      || not (valid_operation_size aad.size)
    then (invalid_argument, ciphertext, tag)
    else if not e.context
    then (out_of_memory, ciphertext, tag)
    else elim (lengths e aad plaintext.address size) [
      | none ↦ failed
      | some length ↦ elim (e.final) [
        | none ↦ failed
        | some final ↦
            if not (length + final == size) || not e.tag_passed
            then failed
            else (success, written, through e.tag_output tag)
      ]
    ]

-- The result, and what stands in the plaintext afterwards.
pub aes256_gcm_decrypt :
    Engine
    → Option (List ℕ)
    → Option (List ℕ)
    → Buffer
    → Buffer
    → Option (List ℕ)
    → Option (List ℕ)
    → Result × Option (List ℕ)
unfolding lengths svc_crypto_zeroize
aes256_gcm_decrypt e key nonce_bytes ciphertext aad tag plaintext =
    let size = ciphertext.size in
    let wiped = svc_crypto_zeroize plaintext size in
    let written = if size == 0 then plaintext else through e.output plaintext in
    if is_none key
      || is_none nonce_bytes
      || is_none tag
      || not (valid_buffer ciphertext.address size)
      || not (valid_buffer plaintext size)
      || not (valid_buffer aad.address aad.size)
      || not (valid_operation_size size)
      || not (valid_operation_size aad.size)
    then (invalid_argument, plaintext)
    else if not e.context
    then (out_of_memory, plaintext)
    else elim (lengths e aad ciphertext.address size) [
      | none ↦ (backend_error, wiped)
      | some length ↦ if not e.tag_passed then (backend_error, wiped) else elim (e.final) [
        | none ↦ (auth_failed, wiped)
        | some final ↦
            if not (length + final == size) then (backend_error, wiped) else (success, written)
      ]
    ]

-- svc_crypto_random; `filled` says whether RAND_bytes gives 1.
pub random : Bool → Option (List ℕ) → ℕ → Result
random filled output size =
    if not (valid_buffer output size) || not (valid_operation_size size)
    then invalid_argument
    else if size == 0
    then success
    else if filled
    then success
    else backend_error

-- What OpenSSL answers for one digest: the context, the initialisation, the update, and the size of the final call.
pub record DigestEngine : Type 0 where
  pub context : Bool
  pub prepared : Bool
  pub updated : Bool
  pub final : Option ℕ

pub sha256 : DigestEngine → Option (List ℕ) → ℕ → Bool → Result
sha256 e input size digest =
    if not (valid_buffer input size) || not digest || not (valid_operation_size size)
    then invalid_argument
    else if not e.context
    then out_of_memory
    else if not e.prepared || not (size == 0) && not e.updated
    then backend_error
    else elim (e.final) [
      | none ↦ backend_error
      | some n ↦ if n == 32 then success else backend_error
    ]
