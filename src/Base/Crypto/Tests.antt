-- ===== src/Base/Crypto/Tests.antt =====
-- Runs of the cipher's wrapper.
use dark_os_svc_kit.Common.{
  ℕ, ◌≡◌, ◌≢◌, refl, Bool, true, Option, none, some, List, [], ◌∷◌, replicate, arith,
}
use dark_os_svc_kit.Base.Crypto.{
  success, Buffer, Engine, lengths, aes256_gcm_encrypt, aes256_gcm_decrypt,
}
use dark_os_svc_kit.Base.Crypto.Wipes.{Zeroed, Began, aes256_gcm_decrypt-Zeroed}
use dark_os_svc_kit.Base.Crypto.Lengths.{aad_only-fails}

abbrev key : Option (List ℕ)
key = some (replicate 32 7)

abbrev letters : Buffer
letters = record { address = some (97 ∷ 98 ∷ 99 ∷ []); size = 3 }

abbrev no_bytes : Buffer
no_bytes = record { address = none; size = 0 }

-- A cipher that adds 1 to each byte of the text, here three letters.
abbrev engine : Option ℕ → Bool → Engine
engine last tagged = record {
  context = true;
  prepared = true;
  update_aad = some;
  update = λ bs. some 3;
  output = λ bs. 98 ∷ 99 ∷ 100 ∷ [];
  final = last;
  tag_passed = tagged;
  tag_output = λ bs. replicate 16 5;
}

encrypted :
    (aes256_gcm_encrypt
      (engine (some 0) true)
      key
      key
      letters
      no_bytes
      (some (0 ∷ 0 ∷ 0 ∷ []))
      key).1
    ≡ some (98 ∷ 99 ∷ 100 ∷ [])
unfolding aes256_gcm_encrypt lengths
encrypted = refl

aes256_gcm_decrypt-Zeroed_example :
    (let r =
        aes256_gcm_decrypt
          (engine none true)
          key
          key
          letters
          no_bytes
          key
          (some (1 ∷ 2 ∷ 3 ∷ [])) in
      (r.0 ≡ success → ((engine none true).final ≢ none) × ((engine none true).tag_passed ≡ true))
      × (r.0 ≢ success → Began r.0 → Zeroed 3 r.1))
aes256_gcm_decrypt-Zeroed_example =
    aes256_gcm_decrypt-Zeroed (engine none true) key key letters no_bytes key
      (some (1 ∷ 2 ∷ 3 ∷ []))

aad_only-fails_example :
    ((aes256_gcm_encrypt
        (engine (some 0) true)
        key
        key
        (record { address = none; size = 0 })
        letters
        none
        key).0
      ≢ success)
    × ((aes256_gcm_decrypt
          (engine (some 0) true)
          key
          key
          (record { address = none; size = 0 })
          letters
          key
          none).0
        ≢ success)
aad_only-fails_example =
    aad_only-fails (engine (some 0) true) key key none none key letters (omega arith) refl
