-- ===== src/Iva/Tracker/Ids.antt =====
-- SvcKit/subsystems/iva/src/tracker/byte_track_tracker.cpp: the numbers of the tracks.
use dark_os_svc_kit.Common.{
  ℕ, suc, ◌+◌, ◌≤◌, ◌<◌, ◌≡◌, refl, Bool, true, false, not, ◌||◌, Option, none, some, List, [], ◌∷◌,
  ◌++◌, length, get_elem?, set, replicate, ltb, ◌==◌, if◌then◌else◌, arith,
}
use dark_os_svc_kit.Common.Words.{u64}
use dark_os_svc_kit.Common.Float.{Float}
use dark_os_svc_kit.Iva.{Detection, Track, is_valid}
use dark_os_svc_kit.Iva.Tracker.{
  State, find_best, match_one, match_all, expire, add_new, new_track, active, update, lose, follow,
}

-- The ids increase along the list, from the first bound on and below the second.
abbrev pub Between : {V : Type 0} → ℕ → List (Track V) → ℕ → Type 0
Between low [] high = low ≤ high
Between low (t ∷ ts) high = (low ≤ t.id) × Between (suc t.id) ts high

Between-le :
    {V : Type 0} (low low' : ℕ) (ts : List (Track V)) (high : ℕ)
    → low' ≤ low
    → Between low ts high
    → Between low' ts high
Between-le low low' [] high l h = omega arith
Between-le low low' (t ∷ ts) high l h = (omega (arith, h.0), h.1)

Between-append :
    {V : Type 0} (low mid high : ℕ) (ts us : List (Track V))
    → Between low ts mid
    → Between mid us high
    → Between low (ts ++ us) high
Between-append low mid high [] us h k = Between-le mid low us high h k
Between-append low mid high (t ∷ ts) us h k = (h.0, Between-append (suc t.id) mid high ts us h.1 k)

module _ (fl : Float) where
  match_one-id :
      (ds : List (Detection fl.Value)) (us : List Bool) (o : Option ℕ) (t : Track fl.Value)
      → (match_one fl ds us o t).0.id ≡ t.id
  unfolding match_one
  match_one-id ds us none t = refl
  match_one-id ds us (some index) t = go (get_elem? ds index)
    where
      go :
          (o : Option (Detection fl.Value))
          → (elim o as (λ x. Track fl.Value × List Bool) [
            | none ↦ (lose fl t, us)
            | some d ↦ (follow fl d t, set us index true)
          ]).0.id
            ≡ t.id
      go none = refl
      go (some d) = refl

  match_all-Between :
      (minimum : fl.Value) (ds : List (Detection fl.Value)) (low high : ℕ)
      (ts : List (Track fl.Value)) (us : List Bool)
      → Between low ts high
      → Between low (match_all fl minimum ds ts us).0 high
  unfolding match_all
  match_all-Between minimum ds low high [] us h = h
  match_all-Between minimum ds low high (t ∷ ts) us h =
      let found = find_best fl t.detection ds us 0 none minimum in
      let same = match_one-id ds us found t in
      (
        omega (arith, same, h.0),
        Between-le (suc t.id) _ _ high (omega (arith, same))
            (match_all-Between minimum ds (suc t.id) high ts (match_one fl ds us found t).1 h.1),
      )

  expire-Between :
      (maximum low high : ℕ) (ts : List (Track fl.Value))
      → Between low ts high
      → Between low (expire fl maximum ts) high
  unfolding expire
  expire-Between maximum low high [] h = h
  expire-Between maximum low high (t ∷ ts) h =
      go (ltb maximum t.missed) (expire-Between maximum (suc t.id) high ts h.1)
    where
      go :
          (b : Bool)
          → Between (suc t.id) (expire fl maximum ts) high
          → Between low (if b then expire fl maximum ts else t ∷ expire fl maximum ts) high
      go true k = Between-le (suc t.id) low (expire fl maximum ts) high (omega (arith, h.0)) k
      go false k = (h.0, k)

  active-Between :
      (low high : ℕ) (ts : List (Track fl.Value))
      → Between low ts high
      → Between low (active fl ts) high
  unfolding active
  active-Between low high [] h = h
  active-Between low high (t ∷ ts) h = go (t.missed == 0) (active-Between (suc t.id) high ts h.1)
    where
      go :
          (b : Bool)
          → Between (suc t.id) (active fl ts) high
          → Between low (if b then t ∷ active fl ts else active fl ts) high
      go true k = (h.0, k)
      go false k = Between-le (suc t.id) low (active fl ts) high (omega (arith, h.0)) k

  -- The new tracks take the next ids in turn, as long as 64 bits hold them.
  add_new-Between :
      (ds : List (Detection fl.Value)) (us : List Bool) (next : ℕ)
      → next + length ds < 18446744073709551616
      → Between next (add_new fl ds us next).0 (add_new fl ds us next).1
  unfolding add_new
  add_new-Between [] us next l = omega arith
  add_new-Between (d ∷ ds) [] next l = omega arith
  add_new-Between (d ∷ ds) (u ∷ us) next l =
      go (u || not (is_valid fl d.box)) (u64 (next + 1)) (omega arith)
        (add_new-Between ds us next (omega arith))
        (add_new-Between ds us (u64 (next + 1)) (omega arith))
    where
      go :
          (b : Bool) (after : ℕ)
          → after ≡ suc next
          → Between next (add_new fl ds us next).0 (add_new fl ds us next).1
          → Between after (add_new fl ds us after).0 (add_new fl ds us after).1
          → (let r : List (Track fl.Value) × ℕ =
                (if b then add_new fl ds us next else (
                  new_track fl d next ∷ (add_new fl ds us after).0,
                  (add_new fl ds us after).1,
                )) in
              Between next r.0 r.1)
      go true after e h k = h
      go false after e h k = (omega arith, Between-le after (suc next) _ _ (omega (arith, e)) k)

  -- The ids of a tracker's tracks increase and are below the next one. A frame keeps that so, and the tracks that it
  -- gives out have increasing ids as well, so no two are of one number: as long as 64 bits hold the ids.
  pub update-Between :
      (ds : List (Detection fl.Value)) (s : State fl.Value)
      → Between 1 s.tracks s.next_id
      → s.next_id + length ds < 18446744073709551616
      → Between 1 (update fl ds s).0.tracks (update fl ds s).0.next_id
        × Between 1 (update fl ds s).1 (update fl ds s).0.next_id
  unfolding update
  update-Between ds s h l =
      let (matched, used) = match_all fl s.minimum_iou ds s.tracks (replicate (length ds) false) in
      let old =
        expire-Between s.maximum_missed 1 s.next_id matched (
          match_all-Between s.minimum_iou ds 1 s.next_id s.tracks (replicate (length ds) false)
            h) in
      let all =
        Between-append 1 s.next_id _ (expire fl s.maximum_missed matched) _ old
          (add_new-Between ds used s.next_id l) in
      (all, active-Between 1 _ _ all)
