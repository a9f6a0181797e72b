-- ===== src/SysGuard/Visinextek.antt =====
-- platform/vendors/visinextek/common/vs_sys_guard.c. Whether each vendor call succeeds is an argument.
use native.Mathlib.Nat.{div-add-mod', mod-lt, mod-eq_of_lt, mul-mod_left, mul-le-mul, le_refl}
use dark_os_svc_kit.Common.{
  ℕ, suc, ◌+◌, ◌-◌, ◌*◌, ◌/◌, ◌%◌, ◌≤◌, ◌<◌, ◌≡◌, ◌⊎◌, Bool, true, false, not, arith, ltb, ◌==◌,
  if◌then◌else◌, Rc, ok, err, eperm,
}
use dark_os_svc_kit.Common.Words.{u32, u64}

-- cfg.ast_commpool[0], as the vendor was last given it.
pub record Pool : Type 0 where
  pub blk_size : ℕ
  pub blk_cnt : ℕ

pub record Guard : Type 0 where
  pub users : ℕ
  pub vb_up : Bool
  pub sys_up : Bool
  pub pool : Pool

-- The outcomes of vs_mal_vb_cfg_set, vs_mal_vb_init and vs_mal_sys_init.
pub record Vendor : Type 0 where
  pub cfg_set : Bool
  pub vb_init : Bool
  pub sys_init : Bool

pub align_up_u64 : ℕ → ℕ → ℕ
align_up_u64 value alignment = u64 (u64 (value + (alignment - 1)) / alignment * alignment)

abbrev pub at_least : ℕ → ℕ → ℕ
at_least bound n = if ltb n bound then bound else n

-- The size of one block for frames of the given width and height.
pub frame_size : ℕ → ℕ → ℕ
unfolding align_up_u64
frame_size max_width max_height =
    let y_stride = align_up_u64 (at_least 3840 max_width) 64 in
    align_up_u64 (u64 (u64 (y_stride * at_least 2160 max_height) * 2)) 4096

-- `err eperm` is the -1 of the source.
pub vs_sys_acquire : Vendor → ℕ → ℕ → Guard → Guard × Rc
vs_sys_acquire v max_width max_height g =
    if not (g.users == 0)
    then (record g { users = u32 (g.users + 1) }, ok tt)
    else (if not v.cfg_set
        then (g, err eperm)
        else (if not v.vb_init
            then (record g { pool = cfg }, err eperm)
            else (if not v.sys_init
                then (record g { vb_up = false; pool = cfg }, err eperm)
                else (record { users = 1; vb_up = true; sys_up = true; pool = cfg }, ok tt))))
  where
    cfg : Pool
    cfg = record { blk_size = frame_size max_width max_height; blk_cnt = 16 }

pub vs_sys_release : Guard → Guard
vs_sys_release g =
    if not (g.users == 0)
    then (if g.users - 1 == 0
        then record g { users = g.users - 1; vb_up = false; sys_up = false }
        else record g { users = g.users - 1 })
    else g

-- The two vendor systems go up and down together, with the first and the last user.
pub record Inv (g : Guard) : Type 0 where
  pub vb : g.vb_up ≡ ltb 0 g.users
  pub sys : g.sys_up ≡ ltb 0 g.users

-- Acquiring keeps the invariant for every outcome of the vendor's calls, as long as the 32-bit count
-- does not wrap; a failure leaves no user and neither system up.
pub vs_sys_acquire-Inv :
    (v : Vendor) (w h : ℕ) (g : Guard)
    → Inv g
    → g.users + 1 < 4294967296
    → Inv (vs_sys_acquire v w h g).0
      × (((vs_sys_acquire v w h g).1 ≡ ok tt) × ((vs_sys_acquire v w h g).0.users ≡ g.users + 1)
          ⊎ ((vs_sys_acquire v w h g).1 ≡ err eperm)
            × ((vs_sys_acquire v w h g).0.users ≡ 0)
            × ((vs_sys_acquire v w h g).0.vb_up ≡ false))
unfolding vs_sys_acquire
vs_sys_acquire-Inv v w h g i small = ground arith

align_up_u64_exact :
    (value k : ℕ)
    → value + k < 18446744073709551616
    → align_up_u64 value (suc k) ≡ (value + k) / suc k * suc k
unfolding align_up_u64
align_up_u64_exact value k h =
    let e : value + (suc k - 1) ≡ value + k = omega arith in
    rw (e, mod-eq_of_lt h) (mod-eq_of_lt (omega (arith, div-add-mod' (value + k) (suc k))))

-- Rounding up gives the least multiple of the alignment that is not below the value.
pub align_up_u64_least :
    (value k : ℕ)
    → value + k < 18446744073709551616
    → (value ≤ align_up_u64 value (suc k))
      × (align_up_u64 value (suc k) < value + suc k)
      × (align_up_u64 value (suc k) % suc k ≡ 0)
unfolding align_up_u64
align_up_u64_least value k h = rw (align_up_u64_exact value k h) (
  omega (arith, div-add-mod' (value + k) (suc k), mod-lt (value + k) {m = suc k} (omega arith)),
  omega (arith, div-add-mod' (value + k) (suc k)),
  mul-mod_left ((value + k) / suc k) (suc k),
)

-- For frames of up to 65535 by 65535 pixels the arithmetic does not wrap: a block is a whole number of
-- pages and holds two bytes for each pixel of the largest route and of the requested frame.
pub frame_size_fits :
    (w h : ℕ)
    → w < 65536
    → h < 65536
    → (frame_size w h % 4096 ≡ 0)
      × (2 * (w * h) ≤ frame_size w h)
      × (2 * (3840 * 2160) ≤ frame_size w h)
unfolding frame_size
frame_size_fits w h p q =
    let wide = at_least 3840 w in
    let high = at_least 2160 h in
    let (y_low, y_high, y_even) = align_up_u64_least wide 63 (ground arith) in
    let products : wide * high ≤ align_up_u64 wide 64 * high = mul-le-mul y_low (le_refl high) in
    let bounded : align_up_u64 wide 64 * high ≤ 65599 * 65536 =
      mul-le-mul {n₂ = 65599} {m₂ = 65536} (ground arith) (ground arith) in
    let area : w * h ≤ wide * high =
      mul-le-mul {n₂ = wide} {m₂ = high} (ground arith) (ground arith) in
    let least : 3840 * 2160 ≤ wide * high =
      mul-le-mul {n₁ = 3840} {m₁ = 2160} {n₂ = wide} {m₂ = high} (ground arith) (ground arith) in
    let block = align_up_u64_least (align_up_u64 wide 64 * high * 2) 4095 (omega arith) in
    rw (mod-eq_of_lt {n = align_up_u64 wide 64 * high} {m = 18446744073709551616} (omega arith)) (
      rw
        (mod-eq_of_lt {n = align_up_u64 wide 64 * high * 2} {m = 18446744073709551616}
          (omega arith))
        (block.2, omega arith, omega arith))
