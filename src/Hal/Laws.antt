-- ===== src/Hal/Laws.antt =====
-- Opening and closing a device balances its memory, whatever fails in between.
use dark_os_svc_kit.Common.{
  ℕ, ◌≡◌, refl, sym, subst, Bool, true, false, not, Option, some, arith, if◌then◌else◌, Reply, ok,
  err, eprotonosupport,
}
use dark_os_svc_kit.Hardware.Version.{
  Module, Device, device_tag, hw_module_supports, hw_device_supports,
}
use dark_os_svc_kit.Hal.{Allocs, open_device, close_device, check_device, light_open}

-- An attempt to open either fails and leaves the count of blocks as it was, or gives a device that
-- satisfies `Good` and whose closing frees what the attempt allocated.
abbrev pub Balanced : {P : Type 0} → (Device P → Type 0) → ℕ → ℕ × Reply (Device P) → Type 0
Balanced Good live (live', err e) = live' ≡ live
Balanced Good live (live', ok d) = ((close_device (some d) live').0 ≡ live) × Good d

-- A fresh device carries the device tag, its version and the initial state.
abbrev pub IsFresh : {P : Type 0} → ℕ → P → Device P → Type 0
IsFresh version priv d = (d.tag ≡ device_tag) × (d.version ≡ version) × (d.priv ≡ priv)

-- For every outcome of the two allocations, opening a device is balanced, and a device that opens is
-- fresh.
pub open_device-Balanced :
    {P : Type 0} (version : ℕ) (priv : P) (out : Bool) (a : Allocs) (live : ℕ)
    → Balanced (IsFresh version priv) live (open_device version priv out a live)
unfolding open_device close_device
open_device-Balanced version priv false a live = refl
open_device-Balanced version priv true a live = by_blocks a.device a.priv
  where
    by_blocks :
        (b c : Bool)
        → Balanced
            (IsFresh version priv)
            live
            (open_device version priv true (record { device = b; priv = c }) live)
    by_blocks true true = (omega arith, (refl, refl, refl))
    by_blocks true false = omega arith
    by_blocks false true = omega arith
    by_blocks false false = omega arith

-- What a client is promised of a device: its module and its version serve what the client was built
-- against, and it is as `open` made it.
abbrev pub Serves : {P : Type 0} → Option Module → ℕ → ℕ → (Device P → Type 0) → Device P → Type 0
Serves m module_version device_version Good d =
    (hw_module_supports m module_version ≡ true)
    × (hw_device_supports (some d) device_version ≡ true)
    × Good d

check_device-Balanced :
    {P : Type 0} (Good : Device P → Type 0) (module_version device_version : ℕ) (m : Option Module)
    (live : ℕ) (o : ℕ × Reply (Device P))
    → hw_module_supports m module_version ≡ true
    → Balanced Good live o
    → Balanced
        (Serves m module_version device_version Good)
        live
        (check_device close_device device_version o)
unfolding check_device
check_device-Balanced Good module_version device_version m live (live', err e) good b = b
check_device-Balanced Good module_version device_version m live (live', ok d) good b =
    go (hw_device_supports (some d) device_version) refl
  where
    go :
        (fits : Bool)
        → hw_device_supports (some d) device_version ≡ fits
        → Balanced (Serves m module_version device_version Good) live (
            if not fits
            then ((close_device (some d) live').0, err eprotonosupport)
            else (live', ok d))
    go true fits = (b.0, (good, fits, b.1))
    go false fits = b.0

-- A balanced `open` stays balanced under the version checks: a client is refused without a trace, or
-- gets a device whose module and version serve the versions that it was built against.
pub light_open-Balanced :
    {P : Type 0} (open_it : ℕ → ℕ × Reply (Device P)) (Good : Device P → Type 0)
    (module_version device_version : ℕ) (m : Option Module) (live : ℕ)
    → Balanced Good live (open_it live)
    → Balanced
        (Serves m module_version device_version Good)
        live
        (light_open close_device device_version open_it module_version m live)
unfolding light_open
light_open-Balanced open_it Good module_version device_version m live balanced =
    go (hw_module_supports m module_version) refl
  where
    go :
        (serves : Bool)
        → hw_module_supports m module_version ≡ serves
        → Balanced (Serves m module_version device_version Good) live (
            if not serves
            then (live, err eprotonosupport)
            else check_device close_device device_version (open_it live))
    go true serves =
        check_device-Balanced Good module_version device_version m live (open_it live) serves
          balanced
    go false serves = refl

Balanced-map :
    {P : Type 0} (Good Better : Device P → Type 0) (live : ℕ) (o : ℕ × Reply (Device P))
    → ((d : Device P) → Good d → Better d)
    → Balanced Good live o
    → Balanced Better live o
Balanced-map Good Better live (live', err e) f b = b
Balanced-map Good Better live (live', ok d) f b = (b.0, f d b.1)

-- What holds of the initial state holds of the state of every device that opens.
pub open_device_starts :
    {P : Type 0} (Q : P → Type 0) (version : ℕ) (priv : P) (out : Bool) (a : Allocs) (live : ℕ)
    → Q priv
    → Balanced (λ d. Q d.priv) live (open_device version priv out a live)
open_device_starts Q version priv out a live q =
    Balanced-map (IsFresh version priv) (λ d. Q d.priv) live (open_device version priv out a live)
      (λ d fresh. subst Q (sym fresh.2) q) (open_device-Balanced version priv out a live)
