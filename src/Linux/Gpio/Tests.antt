-- ===== src/Linux/Gpio/Tests.antt =====
-- The GPIO theorem at a concrete pin.
use dark_os_svc_kit.Common.{ℕ, ◌≡◌, refl, false, List, [], ◌∷◌, ok, err, ebusy, Text, codes}
use dark_os_svc_kit.Common.Int.{pos}
use dark_os_svc_kit.Linux.Gpio.{
  Kernel, linux_gpio_sysfs_prepare_output, set_direction, write_attribute, written, gpio_path,
}

-- Pin 4 is exported by somebody else between the test and the export.
abbrev kernel : Kernel
kernel = record {
  exists = λ path. false;
  opens = λ path. ok tt;
  writes =
      λ path value. elim value [ [] ↦ ok 0 | c ∷ cs ↦ elim cs [ [] ↦ err ebusy | d ∷ ds ↦ ok 3 ] ];
  closes = λ path. ok tt;
}

abbrev four : ℕ → Text
four n = codes "4"

abbrev log : List (Text × Text)
log =
    (codes "/sys/class/gpio/export", codes "4")
    ∷ (codes "/sys/class/gpio/gpio4/direction", codes "out")
    ∷ []

prepare_four : linux_gpio_sysfs_prepare_output kernel four (pos 4) ≡ (log, ok tt)
unfolding linux_gpio_sysfs_prepare_output set_direction write_attribute written gpio_path
prepare_four = refl
