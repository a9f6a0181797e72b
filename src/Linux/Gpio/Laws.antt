-- ===== src/Linux/Gpio/Laws.antt =====
-- platform/shared/linux/gpio/gpio_sysfs.c: what the preparation of a pin writes.
use dark_os_svc_kit.Common.{
  ℕ, ◌≡◌, refl, ap, sym, ◌∙◌, ◌⊎◌, inl, inr, Bool, true, false, not, List, [], ◌∷◌, ◌++◌,
  if◌then◌else◌, Text, codes, Rc, ok, err,
}
use dark_os_svc_kit.Common.Int.{pos}
use dark_os_svc_kit.Linux.Gpio.{
  Kernel, written, write_attribute, gpio_path, is_busy, set_direction,
  linux_gpio_sysfs_prepare_output,
}

module _ (k : Kernel) (decimal : ℕ → Text) where
  write_attribute-ok :
      (path value : Text) (log : List (Text × Text))
      → write_attribute k decimal path value ≡ (log, ok tt)
      → log ≡ (path, value) ∷ []
  unfolding write_attribute
  write_attribute-ok path value log h = go (k.opens path) h
    where
      go :
          (r : Rc)
          → ◌≡◌ {A = List (Text × Text) × Rc}
              (elim r [
                | err e ↦ ([], err e)
                | ok t ↦ ((path, value) ∷ [], written k decimal path (k.writes path value))
              ])
              (log, ok tt)
          → log ≡ (path, value) ∷ []
      go (err e) q = absurd cc
      go (ok t) q = cc

  write_attribute-log :
      (path value : Text)
      → ((write_attribute k decimal path value).0 ≡ [])
        ⊎ ((write_attribute k decimal path value).0 ≡ (path, value) ∷ [])
  unfolding write_attribute
  write_attribute-log path value = go (k.opens path)
    where
      go :
          (r : Rc)
          → (let out : List (Text × Text) × Rc = elim r [
            | err e ↦ ([], err e)
            | ok t ↦ ((path, value) ∷ [], written k decimal path (k.writes path value))
          ] in
              (out.0 ≡ []) ⊎ (out.0 ≡ (path, value) ∷ []))
      go (err e) = inl refl
      go (ok t) = inr refl

  set_direction-log :
      (pin : ℕ) (r : List (Text × Text) × Rc) (log : List (Text × Text))
      → set_direction k decimal pin r ≡ (log, ok tt)
      → log ≡ r.0 ++ (gpio_path k decimal pin ++ codes "/direction", codes "out") ∷ []
  unfolding set_direction
  set_direction-log pin (l, rc) log h =
      go rc
        (write_attribute k decimal (gpio_path k decimal pin ++ codes "/direction") (codes "out"))
        (λ more. write_attribute-ok _ _ more) h
    where
      last :
          (w : List (Text × Text) × Rc)
          → ((more : List (Text × Text))
              → w ≡ (more, ok tt)
              → more ≡ (gpio_path k decimal pin ++ codes "/direction", codes "out") ∷ [])
          → ◌≡◌ {A = List (Text × Text) × Rc} (l ++ w.0, w.1) (log, ok tt)
          → log ≡ l ++ (gpio_path k decimal pin ++ codes "/direction", codes "out") ∷ []
      last (more, err e) f q = absurd cc
      last (more, ok t) f q =
          let same : l ++ more ≡ log = cc in sym same ∙ ap (λ x. l ++ x) (f more refl)

      go :
          (c : Rc) (w : List (Text × Text) × Rc)
          → ((more : List (Text × Text))
              → w ≡ (more, ok tt)
              → more ≡ (gpio_path k decimal pin ++ codes "/direction", codes "out") ∷ [])
          → ◌≡◌ {A = List (Text × Text) × Rc}
              (elim c [
                | ok t ↦ (l ++ w.0, w.1)
                | err e ↦ if is_busy k decimal e then (l ++ w.0, w.1) else (l, err e)
              ])
              (log, ok tt)
          → log ≡ l ++ (gpio_path k decimal pin ++ codes "/direction", codes "out") ∷ []
      go (ok t) w f q = last w f q
      go (err e) w f q = refused (is_busy k decimal e) q
        where
          refused :
              (b : Bool)
              → ◌≡◌ {A = List (Text × Text) × Rc}
                  (if b then (l ++ w.0, w.1) else (l, err e))
                  (log, ok tt)
              → log ≡ l ++ (gpio_path k decimal pin ++ codes "/direction", codes "out") ∷ []
          refused true x = last w f x
          refused false x = absurd cc

  -- A pin whose preparation succeeds has its direction set to `out` by the last write, and the one write that may
  -- stand before it exports the pin, where its directory was missing.
  pub prepare_output_lem :
      (pin : ℕ) (log : List (Text × Text))
      → linux_gpio_sysfs_prepare_output k decimal (pos pin) ≡ (log, ok tt)
      → (before : List (Text × Text)) × (log
          ≡ before ++ (gpio_path k decimal pin ++ codes "/direction", codes "out") ∷ [])
        × ((before ≡ [])
            ⊎ ((before ≡ (codes "/sys/class/gpio/export", decimal pin) ∷ [])
                × (k.exists (gpio_path k decimal pin) ≡ false)))
  unfolding linux_gpio_sysfs_prepare_output set_direction
  prepare_output_lem pin log h = go (k.exists (gpio_path k decimal pin)) refl h
    where
      go :
          (b : Bool)
          → k.exists (gpio_path k decimal pin) ≡ b
          → (if not b
              then set_direction k decimal pin
                  (write_attribute k decimal (codes "/sys/class/gpio/export") (decimal pin))
              else set_direction k decimal pin ([], ok tt))
            ≡ (log, ok tt)
          → (before : List (Text × Text)) × (log
              ≡ before ++ (gpio_path k decimal pin ++ codes "/direction", codes "out") ∷ [])
            × ((before ≡ [])
                ⊎ ((before ≡ (codes "/sys/class/gpio/export", decimal pin) ∷ []) × (b ≡ false)))
      go true e q = ([], set_direction-log pin ([], ok tt) log q, inl refl)
      go false e q =
          let exported = write_attribute k decimal (codes "/sys/class/gpio/export") (decimal pin) in
          (
            exported.0,
            set_direction-log pin exported log q,
            elim (write_attribute-log (codes "/sys/class/gpio/export") (decimal pin)) [
              | inl x ↦ inl x
              | inr x ↦ inr (x, refl)
            ],
          )
