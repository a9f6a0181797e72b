-- ===== src/Host/Graphics.antt =====
-- platform/ubuntu_x86_64/graphics/graphics_host_x86.c: one on-screen canvas at a time. The canvas is the number of
-- bytes that were allocated for it; `calloc`, and whether the dump file opens, are arguments.
use dark_os_svc_kit.Common.{
  ℕ, zero, suc, ◌+◌, ◌-◌, ◌*◌, Bool, true, false, not, ◌&&◌, ◌||◌, Option, none, some, List, [],
  ◌∷◌, ◌==◌, if◌then◌else◌, Text, codes, str_eq, Reply, Rc, ok, err, einval, ebusy, enomem, enotsup,
}
use dark_os_svc_kit.Common.Words.{u32, u64}
use dark_os_svc_kit.Hardware.Version.{Device, api_version_1_0}
use dark_os_svc_kit.Hal.{Allocs, open_device, close_device}
pub mod Laws
pub mod Tests

-- host_graphics_priv_t, with the number of canvases that are allocated and not freed.
pub record Priv : Type 0 where
  pub canvas : Option ℕ
  pub w : ℕ
  pub h : ℕ
  pub flush_count : ℕ
  pub dump : Bool
  pub live : ℕ

-- graphics_buffer_t, as far as osd_create fills it.
pub record Buffer : Type 0 where
  pub size : ℕ
  pub width : ℕ
  pub height : ℕ
  pub stride : ℕ
  pub pixel_format : ℕ

abbrev pub osd_pixel_format : ℕ
osd_pixel_format = 0x34385241

-- blit and fill are not there yet.
pub host_gfx_blit : Rc
host_gfx_blit = err enotsup

pub host_gfx_fill : Rc
host_gfx_fill = err enotsup

-- `none` is a null configuration, else the width and height of its rectangle; `out` says whether the output
-- pointer is not null, and `memory` whether calloc succeeds.
pub host_gfx_osd_create : Bool → Option (ℕ × ℕ) → Bool → Priv → Priv × Reply Buffer
host_gfx_osd_create memory none out p = (p, err einval)
host_gfx_osd_create memory (some (w, h)) out p =
    if not out
    then (p, err einval)
    else if w == 0 || h == 0
    then (p, err einval)
    else elim (p.canvas) [
      | some bytes ↦ (p, err ebusy)
      | none ↦ if not memory then (record p { w = w; h = h; canvas = none }, err enomem) else (
        record p { w = w; h = h; canvas = some (w * h * 4); flush_count = 0; live = p.live + 1 },
        ok (record {
          size = u32 (w * h * 4);
          width = w;
          height = h;
          stride = u32 (w * 4);
          pixel_format = osd_pixel_format;
        }),
      )
    ]

-- The pixel loop of dump_ppm: the offsets in the canvas that `n` rounds read, from `px` on.
pub pixels : ℕ → ℕ → List ℕ
pixels zero px = []
pixels (suc n) px = (px + 2) ∷ (px + 1) ∷ px ∷ pixels n (px + 4)

pub host_gfx_dump_ppm : Bool → Priv → List ℕ
unfolding pixels
host_gfx_dump_ppm opens p = if opens then pixels (u32 (p.w * p.h)) 0 else []

-- The reply, and what the dump reads of the canvas.
pub host_gfx_osd_flush : Bool → Priv → Priv × List ℕ × Rc
unfolding host_gfx_dump_ppm
host_gfx_osd_flush opens p = elim (p.canvas) [
  | none ↦ (p, [], err einval)
  | some bytes ↦ (
    record p { flush_count = u64 (p.flush_count + 1) },
    if p.dump then host_gfx_dump_ppm opens p else [],
    ok tt,
  )
]

pub host_gfx_osd_destroy : Priv → Priv
host_gfx_osd_destroy p = elim (p.canvas) [
  | none ↦ record p { w = 0; h = 0 }
  | some bytes ↦ record p { canvas = none; w = 0; h = 0; live = p.live - 1 }
]

-- What an open device starts with; `dump_text` is the environment's DARKOS_OSD_DUMP.
pub initial : Option Text → Priv
initial dump_text = record {
  canvas = none;
  w = 0;
  h = 0;
  flush_count = 0;
  dump = elim dump_text [ none ↦ false | some t ↦ str_eq t (codes "1") ];
  live = 0;
}

pub host_gfx_open : Option Text → Bool → Allocs → ℕ → ℕ × Reply (Device Priv)
unfolding initial
host_gfx_open dump_text = open_device api_version_1_0 (initial dump_text)

-- The blocks and the canvases that are left, and the reply.
pub host_gfx_close : Option (Device Priv) → ℕ → ℕ × ℕ × Rc
unfolding host_gfx_osd_destroy
host_gfx_close none live = (live, 0, ok tt)
host_gfx_close (some d) live = (live - 1 - 1, (host_gfx_osd_destroy d.priv).live, ok tt)
