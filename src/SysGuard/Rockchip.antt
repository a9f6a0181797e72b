-- ===== src/SysGuard/Rockchip.antt =====
-- platform/vendors/rockchip/common/mpi_sys_guard.c. Whether RK_MPI_SYS_Init succeeds is an argument of
-- the call; the log level that is set first cannot make it fail. `up` says whether the media system
-- is initialised. The count is an int: its 32 bits are a number, and those from 2147483648 on are negative.
use dark_os_svc_kit.Common.{
  ℕ, ◌+◌, ◌-◌, ◌<◌, ◌≡◌, refl, Bool, true, false, ◌&&◌, List, [], ◌∷◌, length, arith, ltb, ◌==◌,
  if◌then◌else◌, Rc, ok, err, eio, is_ok,
}
use dark_os_svc_kit.Common.Words.{u32}

pub record Guard : Type 0 where
  pub refcount : ℕ
  pub up : Bool

abbrev pub unused : Guard
unused = record { refcount = 0; up = false }

unfoldable pub rk_mpi_sys_acquire : Bool → Guard → Guard × Rc
rk_mpi_sys_acquire init_succeeds g =
    if g.refcount == 0
    then (if init_succeeds
        then (record { refcount = u32 (g.refcount + 1); up = true }, ok tt)
        else (g, err eio))
    else (record g { refcount = u32 (g.refcount + 1) }, ok tt)

-- g_refcount > 0
abbrev pub is_positive : ℕ → Bool
is_positive n = ltb 0 n && ltb n 2147483648

unfoldable pub rk_mpi_sys_release : Guard → Guard
rk_mpi_sys_release g =
    if is_positive g.refcount
    then (if g.refcount - 1 == 0
        then record { refcount = g.refcount - 1; up = false }
        else record g { refcount = g.refcount - 1 })
    else g

pub data Call : Type 0 where
  acquires : Bool → Call
  releases : Call

-- The guard with what its users see of it: how many acquisitions told them 0, and how many releases they made.
pub record Trace : Type 0 where
  pub guard : Guard
  pub succeeded : ℕ
  pub released : ℕ

abbrev pub call : Call → Trace → Trace
call (acquires b) t =
    let (g, rc) = rk_mpi_sys_acquire b t.guard in
    record t { guard = g; succeeded = (if is_ok rc then t.succeeded + 1 else t.succeeded) }
call releases t = record t { guard = rk_mpi_sys_release t.guard; released = t.released + 1 }

pub run : List Call → Trace → Trace
run [] t = t
run (c ∷ cs) t = run cs (call c t)

-- Users release only what they have: at each release more acquisitions have succeeded than were released.
abbrev pub Allowed : Call → Trace → Type 0
Allowed (acquires b) t = Unit
Allowed releases t = t.released < t.succeeded

unfoldable pub Balanced : List Call → Trace → Type 0
Balanced [] t = Unit
Balanced (c ∷ cs) t = Allowed c t × Balanced cs (call c t)

abbrev pub untouched : Trace
untouched = record { guard = unused; succeeded = 0; released = 0 }

-- The count is that of the users, and the media system is up exactly while there are some.
abbrev pub Tells : Trace → Type 0
Tells t = (t.guard.refcount + t.released ≡ t.succeeded) × (t.guard.up ≡ ltb t.released t.succeeded)

call-Tells :
    (c : Call) (t : Trace)
    → t.guard.refcount < 2147483647
    → Allowed c t
    → Tells t
    → Tells (call c t) × ((call c t).guard.refcount < t.guard.refcount + 2)
unfolding rk_mpi_sys_acquire rk_mpi_sys_release
call-Tells (acquires b) t l a h = ground arith
call-Tells releases t l a h = ground arith

run-Tells :
    (cs : List Call) (t : Trace)
    → t.guard.refcount + length cs < 2147483648
    → Balanced cs t
    → Tells t
    → Tells (run cs t)
unfolding run Balanced
run-Tells [] t l b h = h
run-Tells (c ∷ cs) t l b h =
    let (h', near) = call-Tells c t (omega (arith, l)) b.0 h in
    run-Tells cs (call c t) (omega (arith, l, near)) b.1 h'

-- From the start of the process, after fewer than 2147483648 calls, none of them a release beyond the acquisitions that
-- had succeeded by then: the count is the number of acquisitions that succeeded less that of the releases, and the
-- media system is initialised exactly when that is not 0, whichever initialisations fail.
pub run-users :
    (cs : List Call)
    → length cs < 2147483648
    → Balanced cs untouched
    → (let t = run cs untouched in
        (t.guard.refcount + t.released ≡ t.succeeded) × (t.guard.up ≡ ltb t.released t.succeeded))
run-users cs l b = run-Tells cs untouched (omega (arith, l)) b (refl, refl)
