-- ===== src/Linux/Gpio.antt =====
-- platform/shared/linux/gpio/gpio_sysfs.c: outputs of the kernel's GPIO directory. The kernel's answers and
-- the decimal text of a number (`%d`) are arguments; each write to an attribute is recorded.
use dark_os_svc_kit.Common.{
  ℕ, ◌≡◌, refl, ap, sym, ◌∙◌, ◌⊎◌, inl, inr, Bool, true, false, not, ◌&&◌, ◌||◌, Option, none, some,
  List, [], ◌∷◌, ◌++◌, ◌==◌, arith, if◌then◌else◌, Text, codes, Errno, Reply, Rc, ok, err, einval,
  eio, ebusy,
}
use dark_os_svc_kit.Common.Int.{ℤ, pos, negsuc}
pub mod Laws
pub mod Tests

-- What the kernel answers for a path: `write` gives the number of bytes that it took.
pub record Kernel : Type 0 where
  pub exists : Text → Bool
  pub opens : Text → Rc
  pub writes : Text → Text → Reply ℕ
  pub closes : Text → Rc

module _ (k : Kernel) (decimal : ℕ → Text) where
  -- The reply of the write and of the `close` behind it.
  pub written : Text → Reply ℕ → Rc
  written path (err e) = err e
  written path (ok n) = elim (k.closes path) [
    | err e ↦ err e
    | ok t ↦ if n == 0 then err eio else ok tt
  ]

  pub write_attribute : Text → Text → List (Text × Text) × Rc
  unfolding written
  write_attribute path value = elim (k.opens path) [
    | err e ↦ ([], err e)
    | ok t ↦ ((path, value) ∷ [], written path (k.writes path value))
  ]

  pub gpio_path : ℕ → Text
  gpio_path pin = codes "/sys/class/gpio/gpio" ++ decimal pin

  abbrev pub is_busy : Errno → Bool
  is_busy ebusy = true
  is_busy _ = false

  -- The direction, unless the export failed otherwise than by EBUSY.
  pub set_direction : ℕ → List (Text × Text) × Rc → List (Text × Text) × Rc
  unfolding write_attribute gpio_path
  set_direction pin (log, rc) =
      let (more, rc') = write_attribute (gpio_path pin ++ codes "/direction") (codes "out") in
      elim rc [
        | ok t ↦ (log ++ more, rc')
        | err e ↦ if is_busy e then (log ++ more, rc') else (log, err e)
      ]

  pub linux_gpio_sysfs_prepare_output : ℤ → List (Text × Text) × Rc
  unfolding set_direction
  linux_gpio_sysfs_prepare_output (negsuc n) = ([], err einval)
  linux_gpio_sysfs_prepare_output (pos pin) =
      if not (k.exists (gpio_path pin))
      then set_direction pin (write_attribute (codes "/sys/class/gpio/export") (decimal pin))
      else set_direction pin ([], ok tt)

  pub linux_gpio_sysfs_write_value : ℤ → Bool → List (Text × Text) × Rc
  unfolding write_attribute gpio_path
  linux_gpio_sysfs_write_value (negsuc n) value = ([], err einval)
  linux_gpio_sysfs_write_value (pos pin) value =
      write_attribute (gpio_path pin ++ codes "/value") (if value then codes "1" else codes "0")
