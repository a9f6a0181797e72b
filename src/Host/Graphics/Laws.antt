-- ===== src/Host/Graphics/Laws.antt =====
-- platform/ubuntu_x86_64/graphics/graphics_host_x86.c: the canvas is neither leaked nor over-read.
use dark_os_svc_kit.Common.{
  ℕ, zero, suc, ◌+◌, ◌-◌, ◌*◌, ◌≤◌, ◌<◌, ◌≡◌, refl, ap, ◌∙◌, Bool, true, false, not, ◌||◌, Option,
  none, some, List, [], ◌∷◌, ◌==◌, if◌then◌else◌, All, arith, Rc, Text, ok, err, einval, ebusy,
  enomem, Reply,
}
use dark_os_svc_kit.Common.Words.{u32, u64}
use dark_os_svc_kit.Host.Graphics.{
  Priv, Buffer, osd_pixel_format, pixels, host_gfx_osd_create, host_gfx_dump_ppm,
  host_gfx_osd_flush, host_gfx_osd_destroy, initial,
}

abbrev pub held : Option ℕ → ℕ
held none = 0
held (some bytes) = 1

-- A canvas has four bytes for each pixel, and one is allocated exactly if there is one.
pub record Inv (p : Priv) : Type 0 where
  pub counted : p.live ≡ held p.canvas
  pub fits : (bytes : ℕ) → p.canvas ≡ some bytes → bytes ≡ p.w * p.h * 4

pub data Call : Type 0 where
  creates : Bool → Option (ℕ × ℕ) → Bool → Call
  flushes : Bool → Call
  destroys : Call

unfoldable pub apply : Call → Priv → Priv
apply (creates memory rect out) p = (host_gfx_osd_create memory rect out p).0
apply (flushes opens) p = (host_gfx_osd_flush opens p).0
apply destroys p = host_gfx_osd_destroy p

unfoldable pub run : List Call → Priv → Priv
unfolding apply
run [] p = p
run (c ∷ cs) p = run cs (apply c p)

create-Inv :
    (memory : Bool) (rect : Option (ℕ × ℕ)) (out : Bool) (p : Priv)
    → Inv p
    → Inv (host_gfx_osd_create memory rect out p).0
unfolding host_gfx_osd_create
create-Inv memory none out p i = i
create-Inv memory (some (w, h)) out p i = go out (w == 0 || h == 0) p.canvas refl memory
  where
    go :
        (b c : Bool) (o : Option ℕ)
        → p.canvas ≡ o
        → (m : Bool)
        → Inv
            (if◌then◌else◌ {A = Priv × Reply Buffer}
              (not b)
              (p, err einval)
              (if c then (p, err einval) else elim o [
                | some bytes ↦ (p, err ebusy)
                | none ↦ if not m then (record p { w = w; h = h; canvas = none }, err enomem) else (
                  record p {
                    w = w;
                    h = h;
                    canvas = some (w * h * 4);
                    flush_count = 0;
                    live = p.live + 1;
                  },
                  ok (record {
                    size = u32 (w * h * 4);
                    width = w;
                    height = h;
                    stride = u32 (w * 4);
                    pixel_format = osd_pixel_format;
                  }),
                )
              ])).0
    go false c o e m = i
    go true true o e m = i
    go true false (some bytes) e m = i
    go true false none e false = record {
      counted = i.counted ∙ ap held e;
      fits = λ bytes f. absurd cc;
    }
    go true false none e true = record {
      counted = omega (arith, i.counted ∙ ap held e);
      fits = λ bytes f. cc;
    }

flush-Inv : (opens : Bool) (p : Priv) → Inv p → Inv (host_gfx_osd_flush opens p).0
unfolding host_gfx_osd_flush
flush-Inv opens p i = go p.canvas
  where
    go :
        (o : Option ℕ)
        → Inv
            (elim o as (λ x. Priv × List ℕ × Rc) [
              | none ↦ (p, [], err einval)
              | some bytes ↦ (
                record p { flush_count = u64 (p.flush_count + 1) },
                if p.dump then host_gfx_dump_ppm opens p else [],
                ok tt,
              )
            ]).0
    go none = i
    go (some bytes) = record { counted = i.counted; fits = i.fits }

destroy-Inv :
    (p : Priv) → Inv p → Inv (host_gfx_osd_destroy p) × ((host_gfx_osd_destroy p).live ≡ 0)
unfolding host_gfx_osd_destroy
destroy-Inv p i = go p.canvas refl
  where
    go :
        (o : Option ℕ)
        → p.canvas ≡ o
        → (let q : Priv = elim o [
          | none ↦ record p { w = 0; h = 0 }
          | some bytes ↦ record p { canvas = none; w = 0; h = 0; live = p.live - 1 }
        ] in
            Inv q × (q.live ≡ 0))
    go none e = (record { counted = i.counted; fits = λ bytes f. absurd cc }, i.counted ∙ ap held e)
    go (some bytes) e =
        let one : p.live ≡ 1 = i.counted ∙ ap held e in
        (record { counted = omega (arith, one); fits = λ x f. absurd cc }, omega (arith, one))

run-Inv : (cs : List Call) (p : Priv) → Inv p → Inv (run cs p)
unfolding run apply
run-Inv [] p i = i
run-Inv (creates memory rect out ∷ cs) p i = run-Inv cs _ (create-Inv memory rect out p i)
run-Inv (flushes opens ∷ cs) p i = run-Inv cs _ (flush-Inv opens p i)
run-Inv (destroys ∷ cs) p i = run-Inv cs _ (destroy-Inv p i).0

pixels-bound : (n px limit : ℕ) → px + n * 4 ≤ limit → All (λ x. x < limit) (pixels n px)
unfolding pixels
pixels-bound zero px limit h = tt
pixels-bound (suc n) px limit h =
    (omega arith, (omega arith, (omega arith, pixels-bound n (px + 4) limit (omega arith))))

wrapped-bound : (bytes m : ℕ) → bytes ≡ m * 4 → All (λ x. x < bytes) (pixels (u32 m) 0)
wrapped-bound bytes m h = pixels-bound (u32 m) 0 bytes (omega arith)

flush-reads :
    (opens : Bool) (p : Priv) (bytes : ℕ)
    → Inv p
    → p.canvas ≡ some bytes
    → All (λ x. x < bytes) (host_gfx_osd_flush opens p).1
unfolding host_gfx_osd_flush host_gfx_dump_ppm
flush-reads opens p bytes i h = go p.canvas h p.dump opens
  where
    go :
        (o : Option ℕ)
        → o ≡ some bytes
        → (d b : Bool)
        → All
            (λ x. x < bytes)
            (elim o as (λ x. Priv × List ℕ × Rc) [
              | none ↦ (p, [], err einval)
              | some n ↦ (
                record p { flush_count = u64 (p.flush_count + 1) },
                if d then (if b then pixels (u32 (p.w * p.h)) 0 else []) else [],
                ok tt,
              )
            ]).1
    go none e d b = absurd cc
    go (some n) e true true = wrapped-bound bytes (p.w * p.h) (i.fits bytes h)
    go (some n) e true false = tt
    go (some n) e false b = tt

-- After any sequence of calls on an open device, a flush reads nothing outside the canvas, whatever size was asked for:
-- the count of pixels wraps at 32 bits and so never passes the canvas's.
pub flush_reads :
    (dump_text : Option Text) (cs : List Call) (opens : Bool) (bytes : ℕ)
    → (run cs (initial dump_text)).canvas ≡ some bytes
    → All (λ x. x < bytes) (host_gfx_osd_flush opens (run cs (initial dump_text))).1
unfolding initial
flush_reads dump_text cs opens bytes h =
    flush-reads opens (run cs (initial dump_text)) bytes
      (run-Inv cs (initial dump_text) (record { counted = refl; fits = λ b f. absurd cc })) h

-- After any sequence of calls on an open device, destroying the canvas leaves none allocated.
pub run-destroy :
    (dump_text : Option Text) (cs : List Call)
    → (host_gfx_osd_destroy (run cs (initial dump_text))).live ≡ 0
unfolding initial
run-destroy dump_text cs =
    (destroy-Inv _
      (run-Inv cs (initial dump_text) (record { counted = refl; fits = λ bytes f. absurd cc }))).1
