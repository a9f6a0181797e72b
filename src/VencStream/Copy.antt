-- ===== src/VencStream/Copy.antt =====
-- platform/vendors/visinextek/common/vs_venc_stream.c: where the copying loops write.
use dark_os_svc_kit.Common.{
  ℕ, zero, suc, ◌+◌, ◌-◌, ◌≤◌, ◌<◌, ◌≡◌, refl, Bool, true, false, ◌||◌, Option, none, some, List,
  [], ◌∷◌, ◌++◌, ltb, if◌then◌else◌, take, length, All, All-append, arith, ltb_false→le, subst, sym,
}
use dark_os_svc_kit.Common.Words.{u32}
use dark_os_svc_kit.VencStream.{
  Info, Pack, Write, slice, sum_lengths, copy_segments, copy_rest, copy_pack, copy_packs,
  copied_behind,
}

-- A write that ends at `limit` or before it.
abbrev pub Within : ℕ → Write → Type 0
Within limit w = w.place + length w.bytes ≤ limit

-- The writes fill the buffer from `first` to `last` without a gap or an overlap.
abbrev pub Contiguous : ℕ → List Write → ℕ → Type 0
Contiguous first [] last = first ≡ last
Contiguous first (w ∷ ws) last = (w.place ≡ first) × Contiguous (first + length w.bytes) ws last

pub Contiguous→le : (a : ℕ) (ws : List Write) (b : ℕ) → Contiguous a ws b → a ≤ b
Contiguous→le a [] b h = omega arith
Contiguous→le a (w ∷ ws) b h = omega (arith, Contiguous→le (a + length w.bytes) ws b h.1)

pub Contiguous→All : (a : ℕ) (ws : List Write) (b : ℕ) → Contiguous a ws b → All (Within b) ws
Contiguous→All a [] b h = tt
Contiguous→All a (w ∷ ws) b h = (
  omega (arith, h.0, Contiguous→le (a + length w.bytes) ws b h.1),
  Contiguous→All (a + length w.bytes) ws b h.1,
)

pub Contiguous-append :
    (a : ℕ) (ws : List Write) (b : ℕ) (ws' : List Write) (c : ℕ)
    → Contiguous a ws b
    → Contiguous b ws' c
    → Contiguous a (ws ++ ws') c
Contiguous-append a [] b ws' c h k = subst (λ x. Contiguous x ws' c) (sym h) k
Contiguous-append a (w ∷ ws) b ws' c h k =
    (h.0, Contiguous-append (a + length w.bytes) ws b ws' c h.1 k)

pub All-Within-le : (a b : ℕ) (ws : List Write) → a ≤ b → All (Within a) ws → All (Within b) ws
All-Within-le a b [] l h = tt
All-Within-le a b (w ∷ ws) l h = (omega arith, All-Within-le a b ws l h.1)

length-slice : (m : ℕ → ℕ) (offset len : ℕ) → length (slice m offset len) ≡ len
unfolding slice
length-slice m offset zero = refl
length-slice m offset (suc len) = omega (arith, length-slice m (offset + 1) len)

-- What a loop over segments leaves: an early exit has stayed within the pack's room.
Segmented : ℕ → ℕ → ℕ → List Write × Bool × Option ℕ → Type 0
Segmented copied len segmented (ws, key, none) = All (Within (copied + len)) ws
Segmented copied len segmented (ws, key, some s) =
    (s ≤ len) × Contiguous (copied + segmented) ws (copied + s)

-- The same of a round, or of all rounds.
abbrev pub Copied : ℕ → ℕ → List Write × Bool × Bool → Type 0
Copied first last (ws, key, true) = Contiguous first ws last
Copied first last (ws, key, false) = All (Within last) ws

Segmented-cons :
    (copied len segmented n : ℕ) (w : Write) (r : List Write × Bool × Option ℕ) (key : Bool)
    → w.place ≡ copied + segmented
    → length w.bytes ≡ n
    → n ≤ len - segmented
    → segmented ≤ len
    → Segmented copied len (segmented + n) r
    → Segmented copied len segmented (w ∷ r.0, key, r.2)
unfolding Segmented
Segmented-cons copied len segmented n w (ws, k, none) key e l f g h = (omega arith, h)
Segmented-cons copied len segmented n w (ws, k, some s) key e l f g h =
    (h.0, (e, subst (λ x. Contiguous x ws (copied + s)) (omega arith) h.1))

copy_segments-Segmented :
    (p : Pack) (copied segmented : ℕ) (is : List Info)
    → copied + p.length < 4294967296
    → segmented ≤ p.length
    → Segmented copied p.length segmented (copy_segments p copied segmented is)
unfolding Segmented copy_segments
copy_segments-Segmented p copied segmented [] l h = (h, refl)
copy_segments-Segmented p copied segmented (i ∷ is) l h =
    go (λ k. copy_segments-Segmented p copied (u32 (segmented + i.pack_len)) is l k)
      (ltb (p.length - segmented) i.pack_len) refl
  where
    go :
        (u32 (segmented + i.pack_len) ≤ p.length
          → Segmented copied p.length
              (u32 (segmented + i.pack_len))
              (copy_segments p copied (u32 (segmented + i.pack_len)) is))
        → (b : Bool) → ltb (p.length - segmented) i.pack_len ≡ b
        → Segmented copied p.length segmented (
            let r = copy_segments p copied (u32 (segmented + i.pack_len)) is in
            if b then ([], false, none) else (
              record {
                place = u32 (copied + segmented);
                bytes = slice p.memory i.pack_offset i.pack_len;
              }
                  ∷ r.0,
              i.key || r.1,
              r.2,
            ))
    go again true e = tt
    go again false e =
        let fits : i.pack_len ≤ p.length - segmented = ltb_false→le _ _ e in
        let same : u32 (segmented + i.pack_len) ≡ segmented + i.pack_len = omega arith in
        Segmented-cons copied p.length segmented i.pack_len
          (record {
            place = u32 (copied + segmented);
            bytes = slice p.memory i.pack_offset i.pack_len;
          })
          (copy_segments p copied (u32 (segmented + i.pack_len)) is)
          (i.key || (copy_segments p copied (u32 (segmented + i.pack_len)) is).1) (omega arith)
          (length-slice p.memory i.pack_offset i.pack_len) fits h
          (subst
            (λ x.
              Segmented copied p.length x
                (copy_segments p copied (u32 (segmented + i.pack_len)) is))
            same (again (omega arith)))

copy_rest-Copied :
    (p : Pack) (copied : ℕ) (r : List Write × Bool × Option ℕ)
    → copied + p.length < 4294967296
    → Segmented copied p.length 0 r
    → Copied copied (copied + p.length) (copy_rest p copied r)
unfolding Segmented copy_rest
copy_rest-Copied p copied (ws, key, none) l h = h
copy_rest-Copied p copied (ws, key, some s) l h =
    Contiguous-append copied ws (copied + s) _ (copied + p.length)
      (subst (λ x. Contiguous x ws (copied + s)) (omega arith) h.1)
      (omega (arith, h.0), omega (arith, h.0, length-slice p.memory p.offset (p.length - s)))

pub copy_pack-Copied :
    (m : ℕ) (p : Pack) (copied : ℕ)
    → copied + p.length < 4294967296
    → Copied copied (copied + p.length) (copy_pack m p copied)
unfolding copy_pack
copy_pack-Copied m p copied l = go (ltb m p.data_num)
  where
    go :
        (b : Bool)
        → Copied copied (copied + p.length) (
            if b
            then ([], false, false)
            else copy_rest p copied (copy_segments p copied 0 (take p.data_num p.infos)))
    go true = tt
    go false = copy_rest-Copied p copied _ l (copy_segments-Segmented p copied 0 _ l (omega arith))

-- The room that the packs take.
abbrev pub total : List Pack → ℕ
total [] = 0
total (p ∷ ps) = p.length + total ps

Copied-then :
    (first middle last : ℕ) (r r' : List Write × Bool × Bool)
    → middle ≤ last
    → Copied first middle r
    → Copied middle last r'
    → Copied first last (if r.2 then (r.0 ++ r'.0, r.1 || r'.1, r'.2) else (r.0, r.1, false))
Copied-then first middle last (ws, k, false) r' l h h' = All-Within-le middle last ws l h
Copied-then first middle last (ws, k, true) (ws', k', true) l h h' =
    Contiguous-append first ws middle ws' last h h'
Copied-then first middle last (ws, k, true) (ws', k', false) l h h' =
    All-append (Within last) ws ws'
      (All-Within-le middle last ws l (Contiguous→All first ws middle h)) h'

pub copy_packs-Copied :
    (m : ℕ) (ps : List Pack) (copied : ℕ)
    → copied + total ps < 4294967296
    → Copied copied (copied + total ps) (copy_packs m ps copied)
unfolding copy_packs
copy_packs-Copied m [] copied l = omega arith
copy_packs-Copied m (p ∷ ps) copied l =
    Copied-then copied (copied + p.length) (copied + (p.length + total ps)) (copy_pack m p copied)
      (copy_packs m ps (u32 (copied + p.length))) (omega arith)
      (copy_pack-Copied m p copied (omega arith))
      (subst (λ x. Copied (copied + p.length) x (copy_packs m ps (u32 (copied + p.length))))
        (omega arith)
        (subst (λ x. Copied x (x + total ps) (copy_packs m ps (u32 (copied + p.length))))
          (omega arith) (copy_packs-Copied m ps (u32 (copied + p.length)) (omega arith))))

-- The adding loop ends with the total, which then fits 32 bits.
pub sum_lengths-total :
    (ps : List Pack) (required n : ℕ)
    → required < 4294967296
    → sum_lengths ps required ≡ some n
    → (n ≡ required + total ps) × (n < 4294967296)
unfolding sum_lengths
sum_lengths-total [] required n l h = ground arith
sum_lengths-total (p ∷ ps) required n l h =
    go (λ k. sum_lengths-total ps (required + p.length) n k) (ltb (4294967295 - required) p.length)
      refl h
  where
    go :
        (required + p.length < 4294967296
          → sum_lengths ps (required + p.length) ≡ some n
          → (n ≡ required + p.length + total ps) × (n < 4294967296))
        → (b : Bool) → ltb (4294967295 - required) p.length ≡ b
        → (if b then none else sum_lengths ps (required + p.length)) ≡ some n
        → (n ≡ required + (p.length + total ps)) × (n < 4294967296)
    go again true e k = cc
    go again false e k =
        let le : p.length ≤ 4294967295 - required = ltb_false→le _ _ e in
        let rest = again (omega arith) k in (omega (arith, rest.0), rest.1)

pub copied_behind-total :
    (ps : List Pack) (copied : ℕ)
    → copied + total ps < 4294967296
    → copied_behind ps copied ≡ copied + total ps
unfolding copied_behind
copied_behind-total [] copied l = omega arith
copied_behind-total (p ∷ ps) copied l =
    omega (arith, copied_behind-total ps (u32 (copied + p.length)) (omega arith))
