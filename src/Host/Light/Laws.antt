-- ===== src/Host/Light/Laws.antt =====
-- What the lamps remember.
use native.Mathlib.Nat.{div-eq_of_lt, two-pow-succ, one-le-pow}
use dark_os_svc_kit.Common.{
  ℕ, zero, suc, ◌+◌, ◌/◌, ◌%◌, ◌^◌, ◌≤◌, ◌≡◌, refl, ◌∙◌, ◌↔◌, inl, inr, Bool, true, ◌&&◌, Option,
  none, some, arith, ltb, Bool-cases, ◌==◌, if◌then◌else◌, is_ok, length, get_or-set, length-set,
  All, All-set, ok,
}
use dark_os_svc_kit.Hal.{Allocs}
use dark_os_svc_kit.Hal.Laws.{Balanced, open_device_starts}
use dark_os_svc_kit.Host.Light.{
  LightState, zero_state, Priv, light_count, clamp_brightness, host_light_check_id,
  host_light_set_light, host_light_get_light, host_light_get_capabilities, host_light_open,
}

-- One state for each lamp, and no lamp is brighter than the hardware allows.
pub record Inv (p : Priv) : Type 0 where
  pub sized : length p.states ≡ light_count
  pub dimmed : All (λ s. s.brightness ≤ 255) p.states

-- A lamp reads back what it was last set to, its brightness cut to 255; setting a lamp changes no
-- other, and a call that is refused changes none.
pub get_light-set_light :
    (p : Priv) (id j : ℕ) (s : LightState)
    → Inv p
    → host_light_get_light (host_light_set_light p id (some s)).0 j true ≡ (
        if ltb id light_count && j == id
        then ok (clamp_brightness s)
        else host_light_get_light p j true)
unfolding host_light_get_light host_light_set_light host_light_check_id
get_light-set_light p id j s inv =
    ground (arith, inv.sized, get_or-set p.states id j (clamp_brightness s) zero_state)

clamped : (s : LightState) → (clamp_brightness s).brightness ≤ 255
unfolding clamp_brightness
clamped s = ground arith

-- Setting a lamp, whatever the arguments, keeps one state for each lamp and no brightness above 255.
pub set_light-Inv :
    (p : Priv) (id : ℕ) (o : Option LightState) → Inv p → Inv (host_light_set_light p id o).0
unfolding host_light_set_light
set_light-Inv p id none inv = inv
set_light-Inv p id (some s) inv = elim (Bool-cases (is_ok (host_light_check_id id))) [
  | inr bad ↦ rw bad inv
  | inl good ↦ rw good (record {
    sized = length-set p.states id (clamp_brightness s) ∙ inv.sized;
    dimmed =
        All-set (λ s. s.brightness ≤ 255) p.states id (clamp_brightness s) inv.dimmed (clamped s);
  })
]

-- The bit of a lamp is set in the capabilities exactly when its id passes the check, so a client that
-- reads the capabilities learns which ids `set_light` and `get_light` accept.
pub capabilities_name_the_lamps :
    (id : ℕ) (caps : ℕ)
    → host_light_get_capabilities true ≡ ok caps
    → (caps / 2 ^ id % 2 ≡ 1) ↔ (host_light_check_id id ≡ ok tt)
unfolding host_light_get_capabilities host_light_check_id
capabilities_name_the_lamps zero caps h = ground arith
capabilities_name_the_lamps (suc zero) caps h = ground arith
capabilities_name_the_lamps (suc (suc zero)) caps h = ground arith
capabilities_name_the_lamps (suc (suc (suc n))) caps h =
    let dark : caps / 2 ^ suc (suc (suc n)) ≡ 0 = div-eq_of_lt (
      omega (
        arith,
        two-pow-succ (suc (suc n)),
        two-pow-succ (suc n),
        two-pow-succ n,
        one-le-pow n 2 (omega arith),
        caps_lem caps h,
      )) in
    rw dark (λ e. absurd (omega arith), λ e. absurd (ground arith))
  where
    caps_lem : (c : ℕ) → ok (1 + 2 + 4) ≡ ok c → c ≡ 7
    caps_lem c e = ground arith

-- A device that opens starts with every lamp dark.
pub host_light_open-Inv :
    (out : Bool) (a : Allocs) (live : ℕ)
    → Balanced (λ d. Inv d.priv) live (host_light_open out a live)
unfolding host_light_open
host_light_open-Inv out a live =
    open_device_starts Inv _ _ out a live (record { sized = refl; dimmed = omega arith })
