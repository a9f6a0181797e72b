-- ===== src/Protocols/Rtp/Tests.antt =====
-- The packetizer at a concrete stream: a parameter set and a slice that goes out in fragments.
use dark_os_svc_kit.Common.{
  ℕ, ◌≡◌, refl, Bool, true, false, some, List, [], ◌∷◌, map, All, arith, ltb, if◌then◌else◌,
}
use dark_os_svc_kit.Protocols.Rtp.{
  Payload, packetize, split_annex_b, split_loop, skip_to_code, take_unit, strip_zeros,
  start_code_size, three_bytes, four_bytes,
}
use dark_os_svc_kit.Protocols.Rtp.Split.{IsUnit, joined}
use dark_os_svc_kit.Protocols.Rtp.Fragments.{receive, bytes_of}
use dark_os_svc_kit.Protocols.Rtp.Laws.{
  Sent, Sendable, record_payload, packetize-Sent, packetize-joined,
}

abbrev slice : List ℕ
slice = 0x65 ∷ 1 ∷ 0 ∷ 0 ∷ 4 ∷ 5 ∷ 6 ∷ []

abbrev units : List (Bool × List ℕ)
units = (true, 0x67 ∷ 0x42 ∷ []) ∷ (false, slice) ∷ []

units-IsUnit : All (λ (y : Bool × List ℕ). IsUnit y.1) units
unfolding start_code_size three_bytes four_bytes
units-IsUnit = (
  ((refl, (refl, tt)), λ e. cc),
  (((refl, (refl, (refl, (refl, (refl, (refl, (refl, tt))))))), λ e. cc), tt),
)

units-Sendable : All Sendable (map (λ (y : Bool × List ℕ). y.1) units)
units-Sendable =
    ((omega arith, omega arith, omega arith), ((omega arith, omega arith, omega arith), tt))

split_units : split_annex_b (joined units) ≡ map (λ (y : Bool × List ℕ). y.1) units
unfolding split_annex_b split_loop skip_to_code take_unit strip_zeros start_code_size three_bytes
    four_bytes
split_units = refl

packetize-joined_example :
    (ps : List Payload) × (packetize record_payload 5 (some (joined units)) true [] ≡ (ps, true))
    × (receive [] (bytes_of ps) ≡ map (λ (y : Bool × List ℕ). y.1) units)
packetize-joined_example =
    packetize-joined 5 (true, 0x67 ∷ 0x42 ∷ []) ((false, slice) ∷ []) units-IsUnit units-Sendable

packetize-Sent_example :
    (ps : List Payload) × (packetize record_payload 2 (some slice) true [] ≡ (ps, true))
    × Sent (if ltb 2 3 then 3 else 2) (split_annex_b slice) ps
unfolding split_annex_b split_loop skip_to_code take_unit strip_zeros start_code_size three_bytes
    four_bytes
packetize-Sent_example = packetize-Sent 2 slice refl ((omega arith, omega arith, omega arith), tt)
