-- ===== src/Protocols/Rtp/Split.antt =====
-- SvcKit/protocols/common/src/H264RtpPacketizer.cpp: splitAnnexB gives back the units that were joined.
use dark_os_svc_kit.Common.{
  ℕ, zero, suc, ◌≤◌, ◌≡◌, ◌≢◌, refl, ap, ◌∙◌, Bool, true, false, List, [], ◌∷◌, ◌++◌, map, length,
  length-append, All, arith,
}
use dark_os_svc_kit.Protocols.Rtp.{
  three_bytes, four_bytes, start_code_size, skip_to_code, take_unit, strip_zeros, is_empty,
  split_loop, split_annex_b,
}

-- No start code begins inside the bytes.
abbrev pub Clean : List ℕ → Type 0
Clean [] = Unit
Clean (b ∷ bs) = (start_code_size (b ∷ bs) ≡ 0) × Clean bs

-- There is a last byte, and it is not 0.
abbrev pub EndsNonzero : List ℕ → Type 0
EndsNonzero [] = ⊥
EndsNonzero (b ∷ []) = b ≢ 0
EndsNonzero (b ∷ c ∷ cs) = EndsNonzero (c ∷ cs)

abbrev pub IsUnit : List ℕ → Type 0
IsUnit u = Clean u × EndsNonzero u

abbrev pub code : Bool → List ℕ
code true = 0 ∷ 0 ∷ 0 ∷ 1 ∷ []
code false = 0 ∷ 0 ∷ 1 ∷ []

-- An Annex B stream: each unit behind a start code of four bytes or of three.
abbrev pub joined : List (Bool × List ℕ) → List ℕ
joined [] = []
joined ((long, u) ∷ us) = code long ++ (u ++ joined us)

-- What follows a unit: nothing, or a start code.
Follows : List ℕ → Type 0
Follows t = take_unit t ≡ ([], t)

joined-Follows : (us : List (Bool × List ℕ)) → Follows (joined us)
unfolding Follows take_unit start_code_size three_bytes four_bytes
joined-Follows [] = refl
joined-Follows ((true, u) ∷ us) = refl
joined-Follows ((false, u) ∷ us) = refl

-- A start code does not begin in a unit and end behind it.
start_code_size-append :
    (b : ℕ) (bs t : List ℕ)
    → Clean (b ∷ bs)
    → EndsNonzero (b ∷ bs)
    → start_code_size ((b ∷ bs) ++ t) ≡ 0
unfolding start_code_size three_bytes four_bytes
start_code_size-append b [] [] c e = refl
start_code_size-append b [] (x ∷ []) c e = refl
start_code_size-append b [] (x ∷ y ∷ []) c e = ground (arith, e)
start_code_size-append b [] (x ∷ y ∷ z ∷ t) c e = ground (arith, e)
start_code_size-append b (d ∷ []) [] c e = refl
start_code_size-append b (d ∷ []) (x ∷ []) c e = ground (arith, e)
start_code_size-append b (d ∷ []) (x ∷ y ∷ t) c e = ground (arith, e)
start_code_size-append b (d ∷ f ∷ []) [] c e = c.0
start_code_size-append b (d ∷ f ∷ []) (x ∷ t) c e = ground (arith, e, c.0)
start_code_size-append b (d ∷ f ∷ g ∷ bs) t c e = c.0

take_unit-append : (u t : List ℕ) → IsUnit u → Follows t → take_unit (u ++ t) ≡ (u, t)
unfolding take_unit Follows
take_unit-append [] t (c, e) h = absurd e
take_unit-append (b ∷ []) t (c, e) h = rw (start_code_size-append b [] t c e, h) refl
take_unit-append (b ∷ d ∷ bs) t (c, e) h =
    rw (start_code_size-append b (d ∷ bs) t c e, take_unit-append (d ∷ bs) t (c.1, e) h) refl

strip_zeros_id : (u : List ℕ) → EndsNonzero u → strip_zeros u ≡ u
unfolding strip_zeros
strip_zeros_id [] e = refl
strip_zeros_id (b ∷ []) e = ground (arith, e)
strip_zeros_id (b ∷ c ∷ cs) e = rw (strip_zeros_id (c ∷ cs) e) refl

unit_nonempty : (u : List ℕ) → EndsNonzero u → is_empty u ≡ false
unit_nonempty [] e = absurd e
unit_nonempty (b ∷ bs) e = refl

-- One round of the outer loop.
split_loop_round :
    (fuel : ℕ) (long : Bool) (u : List ℕ) (us : List (Bool × List ℕ))
    → IsUnit u
    → split_loop (suc fuel) (joined ((long, u) ∷ us)) ≡ u ∷ split_loop fuel (joined us)
unfolding split_loop skip_to_code start_code_size three_bytes four_bytes
split_loop_round fuel true u us h =
    rw
      (
        take_unit-append u (joined us) h (joined-Follows us),
        strip_zeros_id u h.1,
        unit_nonempty u h.1,
      )
      refl
split_loop_round fuel false u us h =
    rw
      (
        take_unit-append u (joined us) h (joined-Follows us),
        strip_zeros_id u h.1,
        unit_nonempty u h.1,
      )
      refl

split_loop-joined :
    (fuel : ℕ) (us : List (Bool × List ℕ))
    → length us ≤ fuel
    → All (λ (x : Bool × List ℕ). IsUnit x.1) us
    → split_loop fuel (joined us) ≡ map (λ (x : Bool × List ℕ). x.1) us
unfolding split_loop skip_to_code
split_loop-joined zero [] l h = refl
split_loop-joined (suc fuel) [] l h = refl
split_loop-joined zero (x ∷ us) l h = absurd (omega arith)
split_loop-joined (suc fuel) ((long, u) ∷ us) l h =
    split_loop_round fuel long u us h.0
    ∙ ap (λ x. u ∷ x) (split_loop-joined fuel us (omega arith) h.1)

length-joined : (us : List (Bool × List ℕ)) → length us ≤ length (joined us)
length-joined [] = omega arith
length-joined ((true, u) ∷ us) = omega (arith, length-joined us, length-append u (joined us))
length-joined ((false, u) ∷ us) = omega (arith, length-joined us, length-append u (joined us))

-- Units that hold no start code and do not end in a zero byte, each behind a start code of three or four bytes, are
-- what splitting their stream gives back, in order.
pub split_annex_b-joined :
    (us : List (Bool × List ℕ))
    → All (λ (x : Bool × List ℕ). IsUnit x.1) us
    → split_annex_b (joined us) ≡ map (λ (x : Bool × List ℕ). x.1) us
unfolding split_annex_b
split_annex_b-joined [] h = refl
split_annex_b-joined ((long, u) ∷ us) h =
    rw
      (split_loop-joined (length (joined ((long, u) ∷ us))) ((long, u) ∷ us)
        (length-joined ((long, u) ∷ us)) h)
      refl
