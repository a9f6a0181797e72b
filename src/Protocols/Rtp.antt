-- ===== src/Protocols/Rtp.antt =====
-- SvcKit/protocols/common/src/H264RtpPacketizer.cpp: an H.264 byte stream is split at its start codes into
-- NAL units, and each unit goes into RTP payloads. Memory is a list of bytes; an offset into it is the
-- list of the bytes from there on.
use dark_os_svc_kit.Common.{
  ℕ, zero, suc, ◌+◌, ◌-◌, ◌*◌, ◌/◌, ◌%◌, Bool, true, false, not, ◌&&◌, ◌||◌, Option, none, some,
  List, [], ◌∷◌, ◌++◌, reverse, ltb, leb, ◌==◌, if◌then◌else◌, take, drop, length,
}
use dark_os_svc_kit.Common.Words.{u32, u64}
use dark_os_svc_kit.Common.Bytes.{bit_and, bit_or}
pub mod Split
pub mod Fragments
pub mod Laws
pub mod Tests

-- Whether the bytes start with 0 0 1, and with 0 0 0 1.
pub three_bytes : List ℕ → Bool
three_bytes (a ∷ b ∷ c ∷ rest) = a == 0 && b == 0 && c == 1
three_bytes _ = false

pub four_bytes : List ℕ → Bool
four_bytes (a ∷ b ∷ c ∷ d ∷ rest) = a == 0 && b == 0 && c == 0 && d == 1
four_bytes _ = false

pub start_code_size : List ℕ → ℕ
unfolding three_bytes four_bytes
start_code_size bytes = if three_bytes bytes then 3 else if four_bytes bytes then 4 else 0

-- The inner loops: on to the next start code; and the bytes up to it with what stands from it on.
pub skip_to_code : List ℕ → List ℕ
unfolding start_code_size
skip_to_code [] = []
skip_to_code (b ∷ bs) =
    let rest = skip_to_code bs in if start_code_size (b ∷ bs) == 0 then rest else b ∷ bs

pub take_unit : List ℕ → List ℕ × List ℕ
unfolding start_code_size
take_unit [] = ([], [])
take_unit (b ∷ bs) =
    let (unit, rest) = take_unit bs in
    if start_code_size (b ∷ bs) == 0 then (b ∷ unit, rest) else ([], b ∷ bs)

-- Without the zeros at the end.
pub strip_zeros : List ℕ → List ℕ
strip_zeros [] = []
strip_zeros (b ∷ bs) = elim (strip_zeros bs) [
  | [] ↦ if b == 0 then [] else b ∷ []
  | c ∷ cs ↦ b ∷ c ∷ cs
]

abbrev pub is_empty : List ℕ → Bool
is_empty [] = true
is_empty (b ∷ bs) = false

-- The outer loop. Each round takes a start code at least, so the length is enough fuel.
pub split_loop : ℕ → List ℕ → List (List ℕ)
unfolding skip_to_code take_unit strip_zeros
split_loop zero bytes = []
split_loop (suc fuel) bytes =
    let from_code = skip_to_code bytes in
    let (body, rest) = take_unit (drop (start_code_size from_code) from_code) in
    let unit = strip_zeros body in
    let later = split_loop fuel rest in
    if is_empty from_code then [] else if is_empty unit then later else unit ∷ later

abbrev pub none_found : List (List ℕ) → Bool
none_found [] = true
none_found (u ∷ us) = false

pub split_annex_b : List ℕ → List (List ℕ)
unfolding split_loop
split_annex_b bytes =
    let units = split_loop (length bytes) bytes in
    if none_found units && not (is_empty bytes) then bytes ∷ [] else units

-- A payload with its marker: one call of the callback.
pub record Payload : Type 0 where
  pub bytes : List ℕ
  pub marker : Bool

abbrev pub flag : Bool → ℕ → ℕ
flag true mask = mask
flag false mask = 0

pub indicator_of : ℕ → ℕ
indicator_of b = bit_or (bit_and b 0xe0) 28

pub header_of : ℕ → Bool → Bool → ℕ
header_of b first last = bit_or (bit_or (bit_and b 0x1f) (flag first 0x80)) (flag last 0x40)

-- The loop over the bytes behind the unit's first one, `b`; each fragment takes `capacity` bytes at most.
-- Each round takes a byte at least, so the length is enough fuel.
pub fragments : ℕ → ℕ → ℕ → Bool → Bool → List ℕ → List Payload
unfolding indicator_of header_of
fragments zero capacity b final first bytes = []
fragments (suc fuel) capacity b final first bytes =
    let last = leb (length bytes) capacity in
    let rest = fragments fuel capacity b final false (drop capacity bytes) in
    if is_empty bytes
    then []
    else record {
      bytes = indicator_of b ∷ header_of b first last ∷ take capacity bytes;
      marker = final && last;
    }
      ∷ rest

-- The payloads of one unit; `none` where the code gives up.
pub unit_payloads : ℕ → Bool → List ℕ → Option (List Payload)
unfolding fragments
unit_payloads maximum final unit =
    if leb (length unit) maximum
    then some (record { bytes = unit; marker = final } ∷ [])
    else elim unit [
      | [] ↦ none
      | b ∷ bytes ↦
          if is_empty bytes
          then none
          else some (fragments (length bytes) (maximum - 2) b final true bytes)
    ]

-- The callback takes a context to a new one, and says whether to go on.
module _ {ℓ} {C : Type ℓ} (callback : C → Payload → C × Bool) where
  -- The calls for one unit, up to the first that is refused.
  pub deliver : C → List Payload → C × Bool
  deliver ctx [] = (ctx, true)
  deliver ctx (p ∷ ps) =
      let (ctx', goes_on) = callback ctx p in if goes_on then deliver ctx' ps else (ctx', false)

  -- The loop over the units.
  pub send_units : ℕ → C → List (List ℕ) → C × Bool
  unfolding deliver unit_payloads
  send_units maximum ctx [] = (ctx, true)
  send_units maximum ctx (u ∷ us) = elim (unit_payloads maximum (none_found us) u) [
    | none ↦ (ctx, false)
    | some ps ↦
        (let (ctx', goes_on) = deliver ctx ps in
          if goes_on then send_units maximum ctx' us else (ctx', false))
  ]

  -- `maximum` is the constructor's argument; `none` is a null pointer, and `given` says whether there is
  -- a callback.
  pub packetize : ℕ → Option (List ℕ) → Bool → C → C × Bool
  unfolding send_units split_annex_b
  packetize maximum none given ctx = (ctx, false)
  packetize maximum (some bytes) given ctx =
      if is_empty bytes || not given
      then (ctx, false)
      else if none_found (split_annex_b bytes)
      then (ctx, false)
      else send_units (if ltb maximum 3 then 3 else maximum) ctx (split_annex_b bytes)

pub video_timestamp_90k : ℕ → ℕ
video_timestamp_90k timestamp_ns = u32 (u64 (timestamp_ns / 1000 * 90) / 1000)
