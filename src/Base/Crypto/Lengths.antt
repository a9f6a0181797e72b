-- ===== src/Base/Crypto/Lengths.antt =====
-- SvcKit/base/svc_security/svc_crypto/src/svc_crypto.cpp: the variable `length`, which both updates share.
use dark_os_svc_kit.Common.{ℕ, ◌≡◌, ◌≢◌, ◌<◌, Option, some, List, arith}
use dark_os_svc_kit.Base.Crypto.{
  success, Buffer, Engine, lengths, aes256_gcm_encrypt, aes256_gcm_decrypt,
}

-- A message without text but with associated data is never encrypted, and never decrypted: the update on the
-- associated data leaves its length in the variable that is compared with the size of the text. It is assumed that
-- the update writes the length of the associated data.
pub aad_only-fails :
    (e : Engine) (key nonce_bytes text out tag : Option (List ℕ)) (aad : Buffer)
    → 0 < aad.size
    → e.update_aad aad.size ≡ some aad.size
    → ((aes256_gcm_encrypt e key nonce_bytes (record { address = text; size = 0 }) aad out tag).0
        ≢ success)
      × ((aes256_gcm_decrypt e key nonce_bytes (record { address = text; size = 0 }) aad tag out).0
          ≢ success)
unfolding aes256_gcm_encrypt aes256_gcm_decrypt lengths
aad_only-fails e key nonce_bytes text out tag aad p h = (λ s. ground arith, λ s. ground arith)
