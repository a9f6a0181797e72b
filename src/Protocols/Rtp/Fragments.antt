-- ===== src/Protocols/Rtp/Fragments.antt =====
-- SvcKit/protocols/common/src/H264RtpPacketizer.cpp: the payloads of one unit, and a receiver that follows RFC
-- 6184 and puts units together again.
use dark_os_svc_kit.Common.{
  ℕ, zero, suc, ◌+◌, ◌*◌, ◌/◌, ◌%◌, ◌≤◌, ◌<◌, ◌≡◌, refl, ap, ◌∙◌, Bool, true, false, List, [], ◌∷◌,
  ◌++◌, ◌&&◌, ltb, leb, ◌==◌, if◌then◌else◌, take, drop, length, length-drop, drop_all, take_all,
  take-append-drop, leb→le, leb_false→lt, arith,
}
use mathlib.Core.List.{append_assoc}
use dark_os_svc_kit.Common.Bytes.{agree_below}
use dark_os_svc_kit.Protocols.Rtp.{Payload, is_empty, flag, indicator_of, header_of, fragments}

-- The receiver's side: the type in the low five bits of a payload's first byte tells a whole unit from a fragment
-- (28). A fragment's second byte has the marks of the first and the last fragment, and the unit's type. Payloads of
-- the other types (0, 24 to 27, 29 to 31), which a sender in this mode never makes, are left out.
abbrev pub is_single : ℕ → Bool
is_single b = ltb 0 (b % 32) && ltb (b % 32) 24

abbrev pub receive : List ℕ → List (List ℕ) → List (List ℕ)
receive partial [] = []
receive partial ([] ∷ ps) = receive partial ps
receive partial ((b ∷ []) ∷ ps) =
    let rest = receive partial ps in if is_single b then (b ∷ []) ∷ rest else rest
receive partial ((b ∷ h ∷ bs) ∷ ps) =
    let start = (b / 32 * 32 + h % 32) ∷ bs in
    let whole = (if leb 128 h then start else partial ++ bs) in
    let after_whole = receive [] ps in
    let after_part = receive whole ps in
    let after_single = receive partial ps in
    if b % 32 == 28
    then (if leb 64 (h % 128) then whole ∷ after_whole else after_part)
    else if is_single b
    then (b ∷ h ∷ bs) ∷ after_single
    else after_single

-- The two bytes in front of a fragment, by arithmetic.
indicator_lem : (b : ℕ) → b < 256 → indicator_of b ≡ b / 32 * 32 + 28
unfolding indicator_of
indicator_lem = agree_below 256 indicator_of (λ b. b / 32 * 32 + 28) refl

header_lem :
    (b : ℕ) (first last : Bool)
    → b < 256
    → header_of b first last ≡ b % 32 + flag first 128 + flag last 64
unfolding header_of
header_lem b true true h =
    agree_below 256 (λ x. header_of x true true) (λ x. x % 32 + 128 + 64) refl b h
header_lem b true false h =
    agree_below 256 (λ x. header_of x true false) (λ x. x % 32 + 128 + 0) refl b h
header_lem b false true h =
    agree_below 256 (λ x. header_of x false true) (λ x. x % 32 + 0 + 64) refl b h
header_lem b false false h =
    agree_below 256 (λ x. header_of x false false) (λ x. x % 32 + 0 + 0) refl b h

-- What the receiver has after the fragments that it has read so far.
abbrev so_far : ℕ → Bool → List ℕ → List ℕ → List ℕ
so_far b true partial bs = b ∷ bs
so_far b false partial bs = partial ++ bs

receive_marked :
    (x h b : ℕ) (f l : Bool) (partial bs : List ℕ) (ps : List (List ℕ))
    → (x % 32 == 28) ≡ true
    → leb 128 h ≡ f
    → leb 64 (h % 128) ≡ l
    → x / 32 * 32 + h % 32 ≡ b
    → receive partial ((x ∷ h ∷ bs) ∷ ps)
      ≡ (if l then so_far b f partial bs ∷ receive [] ps else receive (so_far b f partial bs) ps)
receive_marked x h b true l partial bs ps e f g k = rw (e, f, g, k) refl
receive_marked x h b false l partial bs ps e f g k = rw (e, f, g) refl

-- One fragment at the receiver.
receive_fragment :
    (b : ℕ) (first last : Bool) (partial bs : List ℕ) (ps : List (List ℕ))
    → b < 256
    → receive partial ((indicator_of b ∷ header_of b first last ∷ bs) ∷ ps) ≡ (
        if last
        then so_far b first partial bs ∷ receive [] ps
        else receive (so_far b first partial bs) ps)
receive_fragment b first last partial bs ps h =
    receive_marked (indicator_of b) (header_of b first last) b first last partial bs ps
      (ground (arith, indicator_lem b h)) (start first last) (end first last) (whole first last)
  where
    start : (f l : Bool) → leb 128 (header_of b f l) ≡ f
    start true true = ground (arith, header_lem b true true h)
    start true false = ground (arith, header_lem b true false h)
    start false true = ground (arith, header_lem b false true h)
    start false false = ground (arith, header_lem b false false h)

    end : (f l : Bool) → leb 64 (header_of b f l % 128) ≡ l
    end true true = ground (arith, header_lem b true true h)
    end true false = ground (arith, header_lem b true false h)
    end false true = ground (arith, header_lem b false true h)
    end false false = ground (arith, header_lem b false false h)

    whole : (f l : Bool) → indicator_of b / 32 * 32 + header_of b f l % 32 ≡ b
    whole true true = omega (arith, indicator_lem b h, header_lem b true true h)
    whole true false = omega (arith, indicator_lem b h, header_lem b true false h)
    whole false true = omega (arith, indicator_lem b h, header_lem b false true h)
    whole false false = omega (arith, indicator_lem b h, header_lem b false false h)

abbrev pub bytes_of : List Payload → List (List ℕ)
bytes_of [] = []
bytes_of (p ∷ ps) = p.bytes ∷ bytes_of ps

pub nonempty_tail : (n : ℕ) (xs : List ℕ) → n < length xs → is_empty (drop n xs) ≡ false
nonempty_tail n xs h = go (drop n xs) refl
  where
    go : (ys : List ℕ) → drop n xs ≡ ys → is_empty ys ≡ false
    go [] e = absurd (omega (arith, length-drop n xs, ap length e))
    go (y ∷ ys) e = refl

pub fragments_nil :
    (fuel capacity b : ℕ) (final first : Bool) → fragments fuel capacity b final first [] ≡ []
unfolding fragments
fragments_nil zero capacity b final first = refl
fragments_nil (suc fuel) capacity b final first = refl

so_far-append :
    (b : ℕ) (first : Bool) (partial xs ys : List ℕ)
    → so_far b first partial xs ++ ys ≡ so_far b first partial (xs ++ ys)
so_far-append b true partial xs ys = refl
so_far-append b false partial xs ys = append_assoc partial xs ys

pub receive-fragments :
    (fuel capacity b : ℕ) (final first : Bool) (partial bs : List ℕ) (ps : List (List ℕ))
    → b < 256
    → 0 < capacity
    → is_empty bs ≡ false
    → length bs ≤ fuel
    → receive partial (bytes_of (fragments fuel capacity b final first bs) ++ ps)
      ≡ so_far b first partial bs ∷ receive [] ps
unfolding fragments
receive-fragments fuel capacity b final first partial [] ps h c e l = absurd cc
receive-fragments zero capacity b final first partial (x ∷ xs) ps h c e l = absurd (omega arith)
receive-fragments (suc fuel) capacity b final first partial (x ∷ xs) ps h c e l =
    receive_fragment b first (leb (length (x ∷ xs)) capacity) partial (take capacity (x ∷ xs))
      (bytes_of (fragments fuel capacity b final false (drop capacity (x ∷ xs))) ++ ps) h
    ∙ go (leb (length (x ∷ xs)) capacity) refl (λ k.
      receive-fragments fuel capacity b final false
        (so_far b first partial (take capacity (x ∷ xs))) (drop capacity (x ∷ xs)) ps h c k
        (omega (arith, length-drop capacity (x ∷ xs))))
  where
    go :
        (last : Bool)
        → leb (length (x ∷ xs)) capacity ≡ last
        → (is_empty (drop capacity (x ∷ xs)) ≡ false
            → receive
                (so_far b first partial (take capacity (x ∷ xs)))
                (bytes_of (fragments fuel capacity b final false (drop capacity (x ∷ xs))) ++ ps)
              ≡ (so_far b first partial (take capacity (x ∷ xs)) ++ drop capacity (x ∷ xs))
                ∷ receive [] ps)
        → (if last
            then so_far b first partial (take capacity (x ∷ xs))
              ∷ receive []
                  (bytes_of (fragments fuel capacity b final false (drop capacity (x ∷ xs))) ++ ps)
            else receive
                (so_far b first partial (take capacity (x ∷ xs)))
                (bytes_of (fragments fuel capacity b final false (drop capacity (x ∷ xs))) ++ ps))
          ≡ so_far b first partial (x ∷ xs) ∷ receive [] ps
    go true k again =
        let fits : length (x ∷ xs) ≤ capacity = leb→le _ _ k in
        rw
          (
            take_all capacity (x ∷ xs) fits,
            drop_all capacity (x ∷ xs) fits,
            fragments_nil fuel capacity b final false,
          )
          refl
    go false k again =
        again (nonempty_tail capacity (x ∷ xs) (leb_false→lt _ _ k))
        ∙ ap (λ y. y ∷ receive [] ps)
            (so_far-append b first partial (take capacity (x ∷ xs)) (drop capacity (x ∷ xs))
              ∙ ap (so_far b first partial) (take-append-drop capacity (x ∷ xs)))
