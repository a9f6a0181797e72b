-- ===== src/SysGuard/Tests.antt =====
-- The guards' theorems at concrete calls.
use dark_os_svc_kit.Common.{◌+◌, arith, ◌≡◌, true, false, List, [], ◌∷◌, ltb}
use dark_os_svc_kit.SysGuard.Rockchip
use dark_os_svc_kit.SysGuard.Rockchip.{
  rk_mpi_sys_acquire, rk_mpi_sys_release, Call, acquires, releases, Balanced, untouched, run-users,
}

abbrev busy : List Call
busy = acquires false ∷ acquires true ∷ acquires true ∷ releases ∷ []

busy-Balanced : Balanced busy untouched
unfolding Balanced rk_mpi_sys_acquire rk_mpi_sys_release
busy-Balanced = (tt, (tt, (tt, (omega arith, tt))))

run-users_example :
    ((Rockchip.run busy untouched).guard.refcount + (Rockchip.run busy untouched).released
      ≡ (Rockchip.run busy untouched).succeeded)
    × ((Rockchip.run busy untouched).guard.up
        ≡ ltb (Rockchip.run busy untouched).released (Rockchip.run busy untouched).succeeded)
run-users_example = run-users busy (omega arith) busy-Balanced
