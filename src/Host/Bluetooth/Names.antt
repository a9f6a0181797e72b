-- ===== src/Host/Bluetooth/Names.antt =====
-- platform/ubuntu_x86_64/bluetooth/bluetooth_host_x86.c: the adapter's name.
use dark_os_svc_kit.Common.{
  ℕ, ◌+◌, ◌-◌, ◌≤◌, ◌<◌, ◌==◌, ◌≡◌, refl, ap, ◌∙◌, Bool, true, false, some, length, take, take_all,
  length-take, ltb, ok, arith, Text, if◌then◌else◌, ltb_false→le, sym, Reply, einval, err,
}
use dark_os_svc_kit.Host.Bluetooth.{Priv, name_max_len, host_bt_set_name, host_bt_get_name}

shown_lem :
    (name : Text) (size : ℕ)
    → take (if ltb size (length name + 1) then size - 1 else length name) name
      ≡ take (size - 1) name
shown_lem name size = go (ltb size (length name + 1)) refl
  where
    go :
        (b : Bool)
        → ltb size (length name + 1) ≡ b
        → take (if b then size - 1 else length name) name ≡ take (size - 1) name
    go true e = refl
    go false e =
        let le : length name + 1 ≤ size = ltb_false→le _ _ e in
        take_all (length name) name (omega arith) ∙ sym (take_all (size - 1) name (omega arith))

-- A name that is set reads back cut to 248 bytes and to what the client's buffer of `size` bytes holds
-- besides the NUL, and what is written with its NUL fits that buffer.
pub get_name-set_name :
    (p : Priv) (name : Text) (size : ℕ)
    → 0 < size
    → (host_bt_get_name (host_bt_set_name p (some name)).0 true size
        ≡ ok (take (size - 1) (take name_max_len name)))
      × (length (take (size - 1) (take name_max_len name)) + 1 ≤ size)
unfolding host_bt_get_name host_bt_set_name
get_name-set_name p name size h =
    (go (size == 0) (ground arith), omega (arith, length-take (size - 1) (take name_max_len name)))
  where
    shown : Text
    shown = take name_max_len name

    go :
        (b : Bool)
        → b ≡ false
        → ◌≡◌ {A = Reply Text}
            (if b
              then err einval
              else ok (take (if ltb size (length shown + 1) then size - 1 else length shown) shown))
            (ok (take (size - 1) shown))
    go true e = absurd cc
    go false e = ap ok (shown_lem shown size)
