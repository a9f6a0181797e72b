-- ===== src/Common/Replies.antt =====
-- Return codes. A C function returns 0 or a negative errno; `ok` carries what it wrote through its
-- output pointers, `err` the errno.
use Prim.Native.Nat.{ℕ}
use mathlib.Core.Path.{◌≡◌, refl}
use mathlib.Core.Bool.{Bool, true, false}
use dark_os_svc_kit.Common.Tests.{if◌then◌else◌}

-- `other` is any errno that the code does not name and only passes on.
pub data Errno : Type 0 where
  eperm enoent eintr eio eagain enomem ebusy einval enospc epipe enametoolong enotsup enetdown :
      Errno
  ealready eproto eexist enodev efault eshutdown eoverflow etimedout elibbad eprotonosupport : Errno
  other : ℕ → Errno

pub data Reply {ℓ} (A : Type ℓ) : Type ℓ where
  ok : A → Reply A
  err : Errno → Reply A

abbrev pub Rc : Type 0
Rc = Reply (Unit {0})

abbrev pub is_ok {ℓ} : {A : Type ℓ} → Reply A → Bool
is_ok (ok a) = true
is_ok (err e) = false

-- A call that succeeds has not taken an early error return.
pub guard_passed {ℓ κ} :
    {S : Type ℓ} {A : Type κ} (b : Bool) (s t : S) (e : Errno) (rest : S × Reply A) (a : A)
    → (if b then (s, err e) else rest) ≡ (t, ok a)
    → (b ≡ false) × (rest ≡ (t, ok a))
guard_passed true s t e rest a h = cc
guard_passed false s t e rest a h = (refl, h)
