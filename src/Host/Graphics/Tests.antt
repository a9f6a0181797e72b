-- ===== src/Host/Graphics/Tests.antt =====
-- The canvas theorems at concrete calls.
use dark_os_svc_kit.Common.{◌≡◌, refl, true, some, List, [], ◌∷◌, codes}
use dark_os_svc_kit.Host.Graphics.{host_gfx_osd_create, host_gfx_osd_flush, initial}
use dark_os_svc_kit.Host.Graphics.Laws.{Call, creates, flushes, apply, run}

abbrev calls : List Call
calls = creates true (some (2, 1)) true ∷ creates true (some (640, 480)) true ∷ flushes true ∷ []

two_pixels : (run calls (initial (some (codes "1")))).canvas ≡ some 8
unfolding run apply initial host_gfx_osd_create host_gfx_osd_flush
two_pixels = refl
