-- ===== src/Vs816/Light.antt =====
-- platform/vendors/visinextek/socs/vs816/light/light_vs816.c: three lamps on GPIO pins that the environment names.
-- getenv and strtol are arguments; what is written to the kernel is recorded, as by the GPIO core.
use dark_os_svc_kit.Common.{
  ℕ, zero, suc, ◌+◌, ◌-◌, ◌*◌, ◌%◌, Bool, true, false, not, ◌||◌, Option, none, some, List, [], ◌∷◌,
  ◌++◌, map, ltb, ◌==◌, get_elem?, set, if◌then◌else◌, Text, codes, str_eq, Reply, Rc, ok, err,
  einval, enotsup, enomem,
}
use dark_os_svc_kit.Common.Int.{ℤ, pos, negsuc, is_negative}
use dark_os_svc_kit.Linux.Gpio.{
  Kernel, linux_gpio_sysfs_prepare_output, linux_gpio_sysfs_write_value,
}
use dark_os_svc_kit.Host.Light.{LightState, zero_state}
pub mod Laws

-- vs_light_gpio_t and the state of the same lamp.
pub record Lamp : Type 0 where
  pub pin : ℤ
  pub active_low : Bool
  pub prepared : Bool
  pub state : LightState

abbrev pub no_text : Text → Bool
no_text [] = true
no_text (c ∷ cs) = false

-- The cast of a long that is not negative to an int.
abbrev pub int_of : ℕ → ℤ
int_of n =
    if ltb (n % 4294967296) 2147483648
    then pos (n % 4294967296)
    else negsuc (4294967295 - n % 4294967296)

abbrev pub pin_of : ℤ → ℤ
pin_of (pos n) = int_of n
pin_of (negsuc n) = negsuc 0

module _ (getenv : Text → Option Text) (strtol : Text → ℤ × Text) where
  pub env_pin : Text → ℤ
  env_pin name = elim (getenv (codes "DARKOS_LIGHT_" ++ (name ++ codes "_PIN"))) [
    | none ↦ negsuc 0
    | some value ↦
        if no_text value
        then negsuc 0
        else let (n, rest) = strtol value in if no_text rest then pin_of n else negsuc 0
  ]

  pub env_active_low : Text → Bool
  env_active_low name = elim (getenv (codes "DARKOS_LIGHT_" ++ (name ++ codes "_ACTIVE_LOW"))) [
    | none ↦ false
    | some value ↦ str_eq value (codes "1")
  ]

  abbrev pub lamp_of : Text → Lamp
  lamp_of name = record {
    pin = env_pin name;
    active_low = env_active_low name;
    prepared = false;
    state = zero_state;
  }

  -- open_device: the lamps of a new device; `memory` says whether both blocks are there.
  pub open_device : Bool → Option Text → Bool → Reply (List Lamp)
  unfolding env_pin env_active_low
  open_device memory none out = err einval
  open_device memory (some id) out =
      if not out || not (str_eq id (codes "light"))
      then err einval
      else if not memory
      then err enomem
      else ok (map lamp_of (codes "STATUS" ∷ codes "IR" ∷ codes "WHITE" ∷ []))

-- The bits of the lamps that have a pin, the first one's bit being `bit`.
pub supported_lights : ℕ → List Lamp → ℕ
supported_lights bit [] = 0
supported_lights bit (l ∷ ls) =
    (if is_negative l.pin then 0 else bit) + supported_lights (2 * bit) ls

pub get_caps : Bool → List Lamp → Reply ℕ
unfolding supported_lights
get_caps caps ls = if not caps then err einval else ok (supported_lights 1 ls)

module _ (k : Kernel) (decimal : ℕ → Text) where
  -- The second half of set_light, for a lamp whose pin is an output.
  pub show_state : LightState → Lamp → Lamp × List (Text × Text) × Rc
  show_state state l =
      let (log, rc) =
        linux_gpio_sysfs_write_value k decimal l.pin
          (if ltb 0 state.brightness then not l.active_low else l.active_low) in
      elim rc [ err e ↦ (l, log, err e) | ok t ↦ (record l { state = state }, log, ok t) ]

  -- set_light on the lamp that the id names.
  pub set_lamp : LightState → Lamp → Lamp × List (Text × Text) × Rc
  unfolding show_state
  set_lamp state l =
      let (log, rc) = linux_gpio_sysfs_prepare_output k decimal l.pin in
      let (l', more, rc') = show_state state (record l { prepared = true }) in
      if is_negative l.pin
      then (l, [], err enotsup)
      else if l.prepared
      then show_state state l
      else elim rc [ err e ↦ (l, log, err e) | ok t ↦ (l', log ++ more, rc') ]

  pub set_light : ℕ → Option LightState → List Lamp → List Lamp × List (Text × Text) × Rc
  unfolding set_lamp
  set_light id none ls = (ls, [], err einval)
  set_light id (some state) ls = elim (get_elem? ls id) [
    | none ↦ (ls, [], err einval)
    | some l ↦ let (l', log, rc) = set_lamp state l in (set ls id l', log, rc)
  ]

pub get_light : ℕ → Bool → List Lamp → Reply LightState
get_light id out ls = elim (get_elem? ls id) [
  | none ↦ err einval
  | some l ↦ if not out then err einval else if is_negative l.pin then err enotsup else ok l.state
]
