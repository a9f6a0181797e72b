-- ===== src/Hal.antt =====
-- What the device modules share: the two blocks of an open device, and the version checks that the
-- inline `*_open` helpers of platform/interfaces make (light/ILight.h stands for the others, which
-- differ in names alone).
pub mod Laws
use dark_os_svc_kit.Common.{
  ℕ, ◌+◌, ◌-◌, ◌≡◌, refl, ◌⊎◌, inl, inr, Bool, true, false, not, ◌||◌, Option, none, some, arith,
  if◌then◌else◌, Bool-cases, Reply, Rc, ok, err, einval, enomem, eprotonosupport,
}
use dark_os_svc_kit.Hardware.Version.{
  Module, Device, device_tag, hw_module_supports, hw_device_supports,
}

-- Whether each of the two `calloc` calls of an `open` succeeds.
pub record Allocs : Type 0 where
  pub device : Bool
  pub priv : Bool

abbrev pub enough_memory : Allocs
enough_memory = record { device = true; priv = true }

abbrev block : Bool → ℕ
block true = 1
block false = 0

-- The body that every `open` of a device module has: `out` says whether the output pointer is not
-- null, `live` counts the blocks that are allocated and not freed, and `priv` is the state that the
-- module starts with.
unfoldable pub open_device {ℓ} : {P : Type ℓ} → ℕ → P → Bool → Allocs → ℕ → ℕ × Reply (Device P)
open_device version priv out a live =
    let live' = live + block a.device + block a.priv in
    if not out
    then (live, err einval)
    else if not a.device || not a.priv
    then (live' - block a.device - block a.priv, err enomem)
    else (live', ok (record { tag = device_tag; version = version; priv = priv }))

-- The body that most `close` functions have: `none` is a null pointer.
unfoldable pub close_device {ℓ} : {P : Type ℓ} → Option (Device P) → ℕ → ℕ × Rc
close_device none live = (live, ok tt)
close_device (some d) live = (live - 1 - 1, ok tt)

module _ {ℓ} {P : Type ℓ} (close : Option (Device P) → ℕ → ℕ × Rc) (device_version : ℕ) where
  -- The check of a device that was just opened.
  pub check_device : ℕ × Reply (Device P) → ℕ × Reply (Device P)
  check_device (live, err e) = (live, err e)
  check_device (live, ok d) =
      if not (hw_device_supports (some d) device_version)
      then ((close (some d) live).0, err eprotonosupport)
      else (live, ok d)

  -- light_open and its kin: the module's version, its `open`, the device's version.
  pub light_open : (ℕ → ℕ × Reply (Device P)) → ℕ → Option Module → ℕ → ℕ × Reply (Device P)
  unfolding check_device
  light_open open_it module_version m live =
      if not (hw_module_supports m module_version)
      then (live, err eprotonosupport)
      else check_device (open_it live)
