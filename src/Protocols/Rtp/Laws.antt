-- ===== src/Protocols/Rtp/Laws.antt =====
-- SvcKit/protocols/common/src/H264RtpPacketizer.cpp: what packetize sends, a receiver puts together again.
use dark_os_svc_kit.Common.{
  ℕ, zero, suc, ◌+◌, ◌-◌, ◌%◌, ◌≤◌, ◌<◌, ◌≡◌, refl, ap, sym, subst, ◌∙◌, Bool, true, false, not,
  ◌&&◌, Option, none, some, List, [], ◌∷◌, ◌++◌, map, ltb, leb, if◌then◌else◌, take, drop, length,
  length-drop, drop_all, length-take, leb→le, leb_false→lt, All, All-append, arith,
}
use mathlib.Core.List.{append_assoc, append-nil}
use dark_os_svc_kit.Protocols.Rtp.{
  Payload, indicator_of, header_of, is_empty, none_found, fragments, unit_payloads, deliver,
  send_units, packetize, split_loop, split_annex_b,
}
use dark_os_svc_kit.Protocols.Rtp.Split.{IsUnit, joined, split_annex_b-joined}
use dark_os_svc_kit.Protocols.Rtp.Fragments.{
  receive, bytes_of, receive-fragments, fragments_nil, nonempty_tail,
}

-- A NAL unit as H.264 defines it: its first byte has a type from 1 to 23. The types 24 to 29 are those that RFC 6184
-- keeps for payloads that aggregate or split units.
abbrev pub Sendable : List ℕ → Type 0
Sendable [] = ⊥
Sendable (b ∷ bs) = (b < 256) × (0 < b % 32) × (b % 32 < 24)

abbrev pub Fits : ℕ → Payload → Type 0
Fits maximum p = length p.bytes ≤ maximum

-- Only the last payload may carry the marker, and does so if `final`.
abbrev pub Marked : Bool → List Payload → Type 0
Marked final [] = ⊥
Marked final (p ∷ []) = p.marker ≡ final
Marked final (p ∷ q ∷ ps) = (p.marker ≡ false) × Marked final (q ∷ ps)

Marked-cons :
    (final : Bool) (p : Payload) (ps : List Payload)
    → p.marker ≡ false
    → Marked final ps
    → Marked final (p ∷ ps)
Marked-cons final p [] e h = absurd h
Marked-cons final p (q ∷ ps) e h = (e, h)

Marked-append :
    (final : Bool) (ps qs : List Payload)
    → Marked false ps
    → Marked final qs
    → Marked final (ps ++ qs)
Marked-append final [] qs h k = k
Marked-append final (p ∷ []) qs h k = Marked-cons final p qs h k
Marked-append final (p ∷ q ∷ ps) qs h k = (h.0, Marked-append final (q ∷ ps) qs h.1 k)

fragments-Fits :
    (fuel capacity b : ℕ) (final first : Bool) (bs : List ℕ)
    → All (Fits (capacity + 2)) (fragments fuel capacity b final first bs)
unfolding fragments
fragments-Fits zero capacity b final first bs = tt
fragments-Fits (suc fuel) capacity b final first [] = tt
fragments-Fits (suc fuel) capacity b final first (x ∷ xs) = (
  omega (arith, length-take capacity (x ∷ xs)),
  fragments-Fits fuel capacity b final false (drop capacity (x ∷ xs)),
)

and_true : (b : Bool) → (b && true) ≡ b
and_true true = refl
and_true false = refl

and_false : (b : Bool) → (b && false) ≡ false
and_false true = refl
and_false false = refl

fragments-Marked :
    (fuel capacity b : ℕ) (final first : Bool) (bs : List ℕ)
    → 0 < capacity
    → is_empty bs ≡ false
    → length bs ≤ fuel
    → Marked final (fragments fuel capacity b final first bs)
unfolding fragments
fragments-Marked fuel capacity b final first [] c e l = absurd cc
fragments-Marked zero capacity b final first (x ∷ xs) c e l = absurd (omega arith)
fragments-Marked (suc fuel) capacity b final first (x ∷ xs) c e l =
    go
      (record {
        bytes =
            indicator_of b
            ∷ header_of b first (leb (length (x ∷ xs)) capacity)
            ∷ take capacity (x ∷ xs);
        marker = final && leb (length (x ∷ xs)) capacity;
      })
      (leb (length (x ∷ xs)) capacity) refl refl
      (λ k.
        fragments-Marked fuel capacity b final false (drop capacity (x ∷ xs)) c k
          (omega (arith, length-drop capacity (x ∷ xs))))
  where
    go :
        (p : Payload) (last : Bool)
        → leb (length (x ∷ xs)) capacity ≡ last
        → p.marker ≡ (final && last)
        → (is_empty (drop capacity (x ∷ xs)) ≡ false
            → Marked final (fragments fuel capacity b final false (drop capacity (x ∷ xs))))
        → Marked final (p ∷ fragments fuel capacity b final false (drop capacity (x ∷ xs)))
    go p true k m again =
        subst (λ y. Marked final (p ∷ y))
          (sym (
            ap (fragments fuel capacity b final false) (drop_all capacity (x ∷ xs) (leb→le _ _ k))
            ∙ fragments_nil fuel capacity b final false))
          (m ∙ and_true final)
    go p false k m again =
        Marked-cons final p _ (m ∙ and_false final)
          (again (nonempty_tail capacity (x ∷ xs) (leb_false→lt _ _ k)))

-- What the payloads of a unit are to a receiver.
pub record Sends (maximum : ℕ) (final : Bool) (u : List ℕ) (ps : List Payload) : Type 0 where
  pub received : (more : List (List ℕ)) → receive [] (bytes_of ps ++ more) ≡ u ∷ receive [] more
  pub fit : All (Fits maximum) ps
  pub marked : Marked final ps

receive_single :
    (u : List ℕ) (more : List (List ℕ)) → Sendable u → receive [] (u ∷ more) ≡ u ∷ receive [] more
receive_single [] more s = absurd s
receive_single (b ∷ []) more s = ground (arith, s.1)
receive_single (b ∷ h ∷ bs) more s = ground (arith, s.1)

nonempty : (xs : List ℕ) → 0 < length xs → is_empty xs ≡ false
nonempty [] h = absurd (omega arith)
nonempty (x ∷ xs) h = refl

unit_payloads-Sends :
    (maximum : ℕ) (final : Bool) (u : List ℕ)
    → 3 ≤ maximum
    → Sendable u
    → (ps : List Payload) × (unit_payloads maximum final u ≡ some ps) × Sends maximum final u ps
unfolding unit_payloads
unit_payloads-Sends maximum final [] l s = absurd s
unit_payloads-Sends maximum final (b ∷ bs) l s = go (leb (length (b ∷ bs)) maximum) refl
  where
    go :
        (c : Bool)
        → leb (length (b ∷ bs)) maximum ≡ c
        → (ps : List Payload) × ((if c
              then some (record { bytes = b ∷ bs; marker = final } ∷ [])
              else (if is_empty bs
                  then none
                  else some (fragments (length bs) (maximum - 2) b final true bs)))
            ≡ some ps)
          × Sends maximum final (b ∷ bs) ps
    go true e = (
      record { bytes = b ∷ bs; marker = final } ∷ [],
      refl,
      record {
        received = λ more. receive_single (b ∷ bs) more s;
        fit = (leb→le _ _ e, tt);
        marked = refl;
      },
    )
    go false e = (
      fragments (length bs) (maximum - 2) b final true bs,
      rw (nonempty bs (omega (arith, leb_false→lt _ _ e))) refl,
      record {
        received = λ more.
            receive-fragments (length bs) (maximum - 2) b final true [] bs more s.0 (omega arith)
              (nonempty bs (omega (arith, leb_false→lt _ _ e))) (omega arith);
        fit =
            subst (λ m. All (Fits m) (fragments (length bs) (maximum - 2) b final true bs))
              (omega arith) (fragments-Fits (length bs) (maximum - 2) b final true bs);
        marked =
            fragments-Marked (length bs) (maximum - 2) b final true bs (omega arith)
              (nonempty bs (omega (arith, leb_false→lt _ _ e))) (omega arith);
      },
    )

-- A callback that keeps every payload and goes on.
abbrev pub record_payload : List Payload → Payload → List Payload × Bool
record_payload ctx p = (ctx ++ p ∷ [], true)

deliver_all : (ctx ps : List Payload) → deliver record_payload ctx ps ≡ (ctx ++ ps, true)
unfolding deliver
deliver_all ctx [] = ap (λ x. (x, true)) (sym (append-nil ctx))
deliver_all ctx (p ∷ ps) =
    deliver_all (ctx ++ p ∷ []) ps ∙ ap (λ x. (x, true)) (append_assoc ctx (p ∷ []) ps)

bytes_of-append : (ps qs : List Payload) → bytes_of (ps ++ qs) ≡ bytes_of ps ++ bytes_of qs
bytes_of-append [] qs = refl
bytes_of-append (p ∷ ps) qs = ap (λ x. p.bytes ∷ x) (bytes_of-append ps qs)

-- What was sent for units, after what was sent before them.
pub record Sent (maximum : ℕ) (units : List (List ℕ)) (ps : List Payload) : Type 0 where
  pub received : receive [] (bytes_of ps) ≡ units
  pub fit : All (Fits maximum) ps
  pub marked : Marked true ps

SentAll : ℕ → List Payload → List (List ℕ) → List Payload × Bool → Type 0
SentAll maximum ctx units r = (ps : List Payload) × (r ≡ (ctx ++ ps, true)) × Sent maximum units ps

-- One round of the loop over the units.
send_units-cons :
    (maximum : ℕ) (ctx : List Payload) (u : List ℕ) (us : List (List ℕ)) (ps : List Payload)
    → unit_payloads maximum (none_found us) u ≡ some ps
    → send_units record_payload maximum ctx (u ∷ us)
      ≡ send_units record_payload maximum (ctx ++ ps) us
unfolding send_units
send_units-cons maximum ctx u us ps = go (unit_payloads maximum (none_found us) u)
  where
    sent :
        (r : List Payload × Bool)
        → r ≡ (ctx ++ ps, true)
        → (if r.1 then send_units record_payload maximum r.0 us else (r.0, false))
          ≡ send_units record_payload maximum (ctx ++ ps) us
    sent (c, true) e = ap (λ (x : List Payload × Bool). send_units record_payload maximum x.0 us) e
    sent (c, false) e = absurd cc

    go :
        (o : Option (List Payload))
        → o ≡ some ps
        → elim o as (λ x. List Payload × Bool) [
          | none ↦ (ctx, false)
          | some qs ↦
              (let r = deliver record_payload ctx qs in
                if r.1 then send_units record_payload maximum r.0 us else (r.0, false))
        ]
          ≡ send_units record_payload maximum (ctx ++ ps) us
    go none e = absurd cc
    go (some qs) e =
        let same : qs ≡ ps = cc in
        sent (deliver record_payload ctx qs) (deliver_all ctx qs ∙ ap (λ x. (ctx ++ x, true)) same)

send_units-SentAll :
    (maximum : ℕ) (ctx : List Payload) (u : List ℕ) (us : List (List ℕ))
    → 3 ≤ maximum
    → All Sendable (u ∷ us)
    → SentAll maximum ctx (u ∷ us) (send_units record_payload maximum ctx (u ∷ us))
unfolding SentAll send_units
send_units-SentAll maximum ctx u [] l h =
    let (ps, e, s) = unit_payloads-Sends maximum true u l h.0 in
    (
      ps,
      send_units-cons maximum ctx u [] ps e,
      record {
        received = ap (receive []) (sym (append-nil (bytes_of ps))) ∙ s.received [];
        fit = s.fit;
        marked = s.marked;
      },
    )
send_units-SentAll maximum ctx u (v ∷ us) l h =
    let (ps, e, s) = unit_payloads-Sends maximum false u l h.0 in
    let (qs, f, t) = send_units-SentAll maximum (ctx ++ ps) v us l h.1 in
    (
      ps ++ qs,
      send_units-cons maximum ctx u (v ∷ us) ps e
          ∙ f
          ∙ ap (λ x. (x, true)) (append_assoc ctx ps qs),
      record {
        received =
            ap (receive []) (bytes_of-append ps qs)
            ∙ s.received (bytes_of qs)
            ∙ ap (λ x. u ∷ x) t.received;
        fit = All-append (Fits maximum) ps qs s.fit t.fit;
        marked = Marked-append true ps qs s.marked t.marked;
      },
    )

some_unit : (bytes : List ℕ) → is_empty bytes ≡ false → none_found (split_annex_b bytes) ≡ false
unfolding split_annex_b
some_unit bytes e = go (split_loop (length bytes) bytes)
  where
    go :
        (us : List (List ℕ))
        → none_found (if none_found us && not (is_empty bytes) then bytes ∷ [] else us) ≡ false
    go [] = rw e refl
    go (u ∷ us) = refl

-- A stream that is not empty, and all of whose units begin with a byte whose type is 1 to 23: packetize calls a
-- callback that accepts everything, and succeeds. A receiver that takes a payload of type 28 as a fragment and one of
-- type 1 to 23 as a unit, as RFC 6184 has it, makes of the payloads the very units of the stream, in order; no payload
-- is longer than the maximum (three bytes at least); and the last payload, and no other, carries the marker.
pub packetize-Sent :
    (maximum : ℕ) (bytes : List ℕ)
    → is_empty bytes ≡ false
    → All Sendable (split_annex_b bytes)
    → (ps : List Payload) × (packetize record_payload maximum (some bytes) true [] ≡ (ps, true))
      × Sent (if ltb maximum 3 then 3 else maximum) (split_annex_b bytes) ps
unfolding packetize SentAll
packetize-Sent maximum [] e h = absurd cc
packetize-Sent maximum (b ∷ bs) e h = go (split_annex_b (b ∷ bs)) (some_unit (b ∷ bs) e) h
  where
    limit : ℕ
    limit = if ltb maximum 3 then 3 else maximum

    large : 3 ≤ limit
    large = ground arith

    go :
        (us : List (List ℕ))
        → none_found us ≡ false
        → All Sendable us
        → (ps : List Payload) × ((if none_found us
              then ([], false)
              else send_units record_payload limit [] us)
            ≡ (ps, true))
          × Sent limit us ps
    go [] f k = absurd cc
    go (u ∷ us) f k = send_units-SentAll limit [] u us large k

-- Units that hold no start code, end in a byte other than 0, and begin with a byte whose type is 1 to 23, come
-- through: joined behind start codes, split, packetized and received, they are the same units in the same order.
pub packetize-joined :
    (maximum : ℕ) (x : Bool × List ℕ) (us : List (Bool × List ℕ))
    → All (λ (y : Bool × List ℕ). IsUnit y.1) (x ∷ us)
    → All Sendable (map (λ (y : Bool × List ℕ). y.1) (x ∷ us))
    → (ps : List Payload) × (packetize record_payload maximum (some (joined (x ∷ us))) true []
        ≡ (ps, true))
      × (receive [] (bytes_of ps) ≡ map (λ (y : Bool × List ℕ). y.1) (x ∷ us))
packetize-joined maximum x us h k =
    let same = split_annex_b-joined (x ∷ us) h in
    let (ps, e, s) =
      packetize-Sent maximum (joined (x ∷ us)) (starts x) (subst (All Sendable) (sym same) k) in
    (ps, e, s.received ∙ same)
  where
    starts : (y : Bool × List ℕ) → is_empty (joined (y ∷ us)) ≡ false
    starts (true, u) = refl
    starts (false, u) = refl
