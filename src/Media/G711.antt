-- ===== src/Media/G711.antt =====
-- SvcKit/subsystems/media/src/codec/g711_audio_codec.cpp: the codes of G.711 for 16-bit samples.
use dark_os_svc_kit.Common.{
  ℕ, zero, suc, ◌+◌, ◌-◌, ◌*◌, ◌/◌, ◌%◌, ◌^◌, Bool, true, false, ltb, leb, ◌==◌, if◌then◌else◌,
}
use dark_os_svc_kit.Common.Bytes.{bit_and, bit_or, bit_xor}
use dark_os_svc_kit.Common.Int.{ℤ, pos, negsuc, is_negative}
pub mod Laws

-- The difference of two natural numbers.
abbrev pub minus : ℕ → ℕ → ℤ
minus a b = if leb b a then pos (a - b) else negsuc (b - a - 1)

-- The loop that halves the threshold until a bit of the value is under it.
unfoldable pub ulaw_segment : ℕ → ℕ → ℕ → ℕ
ulaw_segment value zero threshold = 0
ulaw_segment value (suc segment) threshold =
    let rest = ulaw_segment value segment (threshold / 2) in
    if bit_and value threshold == 0 then rest else suc segment

abbrev pub magnitude : ℤ → ℕ
magnitude (pos n) = n
magnitude (negsuc n) = suc n

unfoldable pub linear_to_ulaw : ℤ → ℕ
unfolding ulaw_segment
linear_to_ulaw sample =
    let mask = if is_negative sample then 127 else 255 in
    let value = (if ltb 32635 (magnitude sample) then 32635 else magnitude sample) + 132 in
    let segment = ulaw_segment value 7 16384 in
    let mantissa = bit_and (value / 2 ^ (segment + 3)) 15 in
    bit_xor (bit_or (segment * 16) mantissa) mask % 256

unfoldable pub ulaw_to_linear : ℕ → ℤ
ulaw_to_linear code =
    let value = bit_xor code 255 in
    let sample = (bit_and value 15 * 8 + 132) * 2 ^ (bit_and value 112 / 16) in
    if bit_and value 128 == 0 then minus sample 132 else minus 132 sample

-- The loop that counts how often the value is halved; the first argument bounds the halvings.
unfoldable pub alaw_segment : ℕ → ℕ → ℕ → ℕ
alaw_segment zero shifted segment = segment
alaw_segment (suc fuel) shifted segment =
    let rest = alaw_segment fuel (shifted / 2) (suc segment) in
    if ltb 1 shifted then rest else segment

unfoldable pub linear_to_alaw : ℤ → ℕ
unfolding alaw_segment
linear_to_alaw sample =
    let mask = if is_negative sample then 85 else 213 in
    let raw = if is_negative sample then magnitude sample - 1 else magnitude sample in
    let value = if ltb 32767 raw then 32767 else raw in
    let counted = alaw_segment 7 (value / 256) 1 in
    let segment = if ltb 7 counted then 7 else counted in
    let encoded =
      if ltb value 256
      then value / 16
      else bit_or (segment * 16) (bit_and (value / 2 ^ (segment + 3)) 15) in
    bit_xor encoded mask % 256

unfoldable pub alaw_to_linear : ℕ → ℤ
alaw_to_linear code =
    let value = bit_xor code 85 in
    let low = bit_and value 15 * 16 in
    let segment = bit_and value 112 / 16 in
    let sample =
      if segment == 0
      then low + 8
      else if segment == 1
      then low + 264
      else (low + 264) * 2 ^ (segment - 1) in
    if bit_and value 128 == 0 then minus 0 sample else pos sample
