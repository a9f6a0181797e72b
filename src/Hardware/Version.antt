-- ===== src/Hardware/Version.antt =====
-- platform/libhardware/include/hardware/hardware.h: version words, modules and devices.
use dark_os_svc_kit.Common.{
  ℕ, ◌+◌, ◌*◌, ◌/◌, ◌%◌, ◌≤◌, ◌<◌, ◌≡◌, ◌↔◌, Bool, true, false, ◌&&◌, Option, none, some, arith,
  leb, ◌==◌, Text,
}
use dark_os_svc_kit.Common.Words.{u16}

-- HARDWARE_MAKE_TAG_CONSTANT; the bytes do not overlap, so the bitwise or is a sum.
abbrev pub make_tag : ℕ → ℕ → ℕ → ℕ → ℕ
make_tag a b c d = a * 16777216 + b * 65536 + c * 256 + d

abbrev pub module_tag : ℕ
module_tag = make_tag b'H' b'W' b'M' b'T'

abbrev pub device_tag : ℕ
device_tag = make_tag b'H' b'W' b'D' b'T'

-- HARDWARE_MAKE_API_VERSION; minors are at most 255 in this code, so the bitwise or is a sum.
unfoldable pub make_api_version : ℕ → ℕ → ℕ
make_api_version major minor = u16 (major * 256) + minor

abbrev pub api_version_1_0 : ℕ
api_version_1_0 = 256

unfoldable pub hw_api_version_major : ℕ → ℕ
hw_api_version_major version = u16 (version / 256)

unfoldable pub hw_api_version_minor : ℕ → ℕ
hw_api_version_minor version = u16 (version % 256)

unfoldable pub hw_version_compatible : ℕ → ℕ → Bool
unfolding hw_api_version_major hw_api_version_minor
hw_version_compatible implemented required =
    hw_api_version_major implemented == hw_api_version_major required
    && leb (hw_api_version_minor required) (hw_api_version_minor implemented)

-- hw_module_methods_t: whether its `open` is set.
pub record Methods : Type 0 where
  pub has_open : Bool

-- hw_module_t. `none` is a null pointer.
pub record Module : Type 0 where
  pub tag : ℕ
  pub module_api_version : ℕ
  pub hal_api_version : ℕ
  pub id : Option Text
  pub methods : Option Methods
  pub dso : Option ℕ

-- hw_device_t, the header of every device, with the state behind its `priv` pointer.
pub record Device {ℓ} (P : Type ℓ) : Type ℓ where
  pub tag : ℕ
  pub version : ℕ
  pub priv : P

unfoldable pub hw_module_supports : Option Module → ℕ → Bool
unfolding hw_version_compatible
hw_module_supports none required = false
hw_module_supports (some m) required = hw_version_compatible m.module_api_version required

unfoldable pub hw_device_supports {ℓ} : {P : Type ℓ} → Option (Device P) → ℕ → Bool
unfolding hw_version_compatible
hw_device_supports none required = false
hw_device_supports (some d) required = hw_version_compatible (u16 d.version) required

-- On 16-bit version words, an implementation serves a client that was built against a version
-- exactly when the major parts are equal and the implemented minor part is not the smaller one; the
-- relation is reflexive and transitive, and two versions that serve each other are the same word.
pub version_compatible_order :
    (u v w : ℕ)
    → u < 65536
    → v < 65536
    → w < 65536
    → ((hw_version_compatible u v ≡ true) ↔ ((u / 256 ≡ v / 256) × (v % 256 ≤ u % 256)))
      × (hw_version_compatible u u ≡ true)
      × (hw_version_compatible u v ≡ true
          → hw_version_compatible v w ≡ true
          → hw_version_compatible u w ≡ true)
      × (hw_version_compatible u v ≡ true → hw_version_compatible v u ≡ true → u ≡ v)
unfolding hw_version_compatible
version_compatible_order u v w hu hv hw =
    ((ground arith, ground arith), ground arith, λ p q. ground arith, λ p q. ground arith)

-- The version word of a major and a minor part below 256 gives both parts back.
pub make_api_version_parts :
    (major minor : ℕ)
    → major < 256
    → minor < 256
    → (hw_api_version_major (make_api_version major minor) ≡ major)
      × (hw_api_version_minor (make_api_version major minor) ≡ minor)
unfolding make_api_version hw_api_version_major hw_api_version_minor
make_api_version_parts major minor h k = omega arith
