-- ===== src/Iva/Tracker/Matches.antt =====
-- SvcKit/subsystems/iva/src/tracker/byte_track_tracker.cpp: how tracks and detections are matched.
use dark_os_svc_kit.Common.{
  ℕ, zero, suc, ◌+◌, ◌≤◌, ◌<◌, ◌≡◌, ◌⊎◌, refl, ap, ◌∙◌, Bool, true, false, not, ◌||◌, inl, inr,
  Option, none, some, List, [], ◌∷◌, ◌++◌, length, All, All-append, get_elem?, set, length-set,
  replicate, length-replicate, ◌==◌, if◌then◌else◌, arith,
}
use dark_os_svc_kit.Common.Words.{u64}
use dark_os_svc_kit.Common.Float.{Float}
use dark_os_svc_kit.Iva.{Detection, Track, is_valid}
use dark_os_svc_kit.Iva.Tracker.{
  State, intersection_over_union, find_best, match_one, match_all, expire, add_new, new_track,
  active, update, lose, follow,
}

abbrev trues : List Bool → ℕ
trues [] = 0
trues (true ∷ us) = suc (trues us)
trues (false ∷ us) = trues us

trues-set :
    (us : List Bool) (i : ℕ) → get_elem? us i ≡ some false → trues (set us i true) ≡ suc (trues us)
trues-set [] i h = absurd cc
trues-set (true ∷ us) zero h = absurd cc
trues-set (false ∷ us) zero h = refl
trues-set (true ∷ us) (suc i) h = ap suc (trues-set us i h)
trues-set (false ∷ us) (suc i) h = trues-set us i h

trues-replicate : (n : ℕ) → trues (replicate n false) ≡ 0
trues-replicate zero = refl
trues-replicate (suc n) = trues-replicate n

trues-le : (us : List Bool) → trues us ≤ length us
trues-le [] = omega arith
trues-le (true ∷ us) = omega (arith, trues-le us)
trues-le (false ∷ us) = omega (arith, trues-le us)

-- The index is the one that was there before, or of a detection that is unused.
abbrev Found : Option ℕ → ℕ → List Bool → Option ℕ → Type 0
Found best index us o =
    (o ≡ best) ⊎ ((k : ℕ) × (o ≡ some (index + k)) × (get_elem? us k ≡ some false))

Found-skip :
    (best : Option ℕ) (index : ℕ) (u : Bool) (us : List Bool) (o : Option ℕ)
    → Found best (suc index) us o
    → Found best index (u ∷ us) o
Found-skip best index u us o (inl h) = inl h
Found-skip best index u us o (inr (k, h, l)) = inr (suc k, h ∙ ap some (omega arith), l)

Found-take :
    (best : Option ℕ) (index : ℕ) (us : List Bool) (o : Option ℕ)
    → Found (some index) (suc index) us o
    → Found best index (false ∷ us) o
Found-take best index us o (inl h) = inr (0, h ∙ ap some (omega arith), refl)
Found-take best index us o (inr (k, h, l)) = inr (suc k, h ∙ ap some (omega arith), l)

module _ (fl : Float) where
  find_best-Found :
      (own : Detection fl.Value) (ds : List (Detection fl.Value)) (us : List Bool) (index : ℕ)
      (best : Option ℕ) (iou : fl.Value)
      → Found best index us (find_best fl own ds us index best iou)
  unfolding find_best
  find_best-Found own [] us index best iou = inl refl
  find_best-Found own (d ∷ ds) [] index best iou = inl refl
  find_best-Found own (d ∷ ds) (u ∷ us) index best iou =
      let value = intersection_over_union fl own.box d.box in
      go u (not (d.object_class == own.object_class)) (fl.at_most iou value)
        (find_best-Found own ds us (suc index) best iou)
        (find_best-Found own ds us (suc index) (some index) value)
    where
      go :
          (u a b : Bool) {o p : Option ℕ}
          → Found best (suc index) us o
          → Found (some index) (suc index) us p
          → Found best index (u ∷ us) (if u || a then o else if b then p else o)
      go true a b h k = Found-skip best index true us _ h
      go false true b h k = Found-skip best index false us _ h
      go false false true h k = Found-take best index us _ k
      go false false false h k = Found-skip best index false us _ h

  -- Tracks that keep within the window, which the counter of missed frames can hold.
  abbrev pub Kept : ℕ → List (Track fl.Value) → Type 0
  Kept maximum ts = All (λ (t : Track fl.Value). t.missed ≤ maximum) ts

  -- A track is active after the match only if a detection that was unused is used now.
  match_one_lem :
      (maximum : ℕ) (ds : List (Detection fl.Value)) (us : List Bool) (o : Option ℕ)
      (t : Track fl.Value) (ts : List (Track fl.Value))
      → maximum < 4294967295
      → t.missed ≤ maximum
      → Found none 0 us o
      → (let r = match_one fl ds us o t in
          (length r.1 ≡ length us)
          × (length (active fl (r.0 ∷ ts)) + trues us ≤ length (active fl ts) + trues r.1))
  unfolding match_one active
  match_one_lem maximum ds us none t ts l m h = (refl, ground arith)
  match_one_lem maximum ds us (some i) t ts l m (inl h) = absurd cc
  match_one_lem maximum ds us (some i) t ts l m (inr (k, h, f)) = go (get_elem? ds i)
    where
      go :
          (d : Option (Detection fl.Value))
          → (let r = elim d as (λ x. Track fl.Value × List Bool) [
            | none ↦ (lose fl t, us)
            | some x ↦ (follow fl x t, set us i true)
          ] in
              (length r.1 ≡ length us)
              × (length (active fl (r.0 ∷ ts)) + trues us ≤ length (active fl ts) + trues r.1))
      go none = (refl, ground arith)
      go (some x) =
          let same : i ≡ 0 + k = cc in
          let used = trues-set us i (ap (get_elem? us) {y = k} (omega (arith, same)) ∙ f) in
          (length-set us i true, omega (arith, used))

  match_all_lem :
      (maximum : ℕ) (minimum : fl.Value) (ds : List (Detection fl.Value))
      (ts : List (Track fl.Value)) (us : List Bool)
      → maximum < 4294967295
      → Kept maximum ts
      → (let r = match_all fl minimum ds ts us in
          (length r.1 ≡ length us) × (length (active fl r.0) + trues us ≤ trues r.1))
  unfolding match_all active
  match_all_lem maximum minimum ds [] us l k = (refl, omega arith)
  match_all_lem maximum minimum ds (t ∷ ts) us l (m, k) =
      let found = find_best fl t.detection ds us 0 none minimum in
      let one =
        match_one_lem maximum ds us found t
          (match_all fl minimum ds ts (match_one fl ds us found t).1).0 l m
          (find_best-Found t.detection ds us 0 none minimum) in
      let rest = match_all_lem maximum minimum ds ts (match_one fl ds us found t).1 l k in
      (rest.0 ∙ one.0, omega (arith, one.1, rest.1))

  length-active-expire :
      (maximum : ℕ) (ts : List (Track fl.Value))
      → length (active fl (expire fl maximum ts)) ≤ length (active fl ts)
  unfolding active expire
  length-active-expire maximum [] = omega arith
  length-active-expire maximum (t ∷ ts) = ground (arith, length-active-expire maximum ts)

  length-active-append :
      (ts us : List (Track fl.Value))
      → length (active fl (ts ++ us)) ≤ length (active fl ts) + length us
  unfolding active
  length-active-append [] [] = omega arith
  length-active-append [] (u ∷ us) = ground (arith, length-active-append [] us)
  length-active-append (t ∷ ts) us = ground (arith, length-active-append ts us)

  -- The new tracks are of the detections that are unused.
  length-add_new :
      (ds : List (Detection fl.Value)) (us : List Bool) (next : ℕ)
      → length (add_new fl ds us next).0 + trues us ≤ length us
  unfolding add_new
  length-add_new [] us next = omega (arith, trues-le us)
  length-add_new (d ∷ ds) [] next = omega arith
  length-add_new (d ∷ ds) (true ∷ us) next = omega (arith, length-add_new ds us next)
  length-add_new (d ∷ ds) (false ∷ us) next =
      go (not (is_valid fl d.box)) (length-add_new ds us next)
        (length-add_new ds us (u64 (next + 1)))
    where
      go :
          (b : Bool)
          → length (add_new fl ds us next).0 + trues us ≤ length us
          → length (add_new fl ds us (u64 (next + 1))).0 + trues us ≤ length us
          → (let r : List (Track fl.Value) × ℕ =
                (if b then add_new fl ds us next else (
                  new_track fl d next ∷ (add_new fl ds us (u64 (next + 1))).0,
                  (add_new fl ds us (u64 (next + 1))).1,
                )) in
              length r.0 + trues us ≤ suc (length us))
      go true h k = omega (arith, h)
      go false h k = omega (arith, k)

  expire-Kept : (maximum : ℕ) (ts : List (Track fl.Value)) → Kept maximum (expire fl maximum ts)
  unfolding expire
  expire-Kept maximum [] = tt
  expire-Kept maximum (t ∷ ts) = ground (arith, expire-Kept maximum ts)

  add_new-Kept :
      (maximum : ℕ) (ds : List (Detection fl.Value)) (us : List Bool) (next : ℕ)
      → Kept maximum (add_new fl ds us next).0
  unfolding add_new
  add_new-Kept maximum [] us next = tt
  add_new-Kept maximum (d ∷ ds) [] next = tt
  add_new-Kept maximum (d ∷ ds) (u ∷ us) next =
      ground (arith, add_new-Kept maximum ds us next, add_new-Kept maximum ds us (u64 (next + 1)))

  -- Every frame gives out at most as many tracks as it has detections, since a track takes a detection of its own,
  -- and leaves only tracks that were missed for no longer than the window, which is below the counter's largest.
  pub update-Kept :
      (ds : List (Detection fl.Value)) (s : State fl.Value)
      → s.maximum_missed < 4294967295
      → Kept s.maximum_missed s.tracks
      → (length (update fl ds s).1 ≤ length ds) × Kept s.maximum_missed (update fl ds s).0.tracks
  unfolding update
  update-Kept ds s l k =
      let unused = replicate (length ds) false in
      let matched = match_all fl s.minimum_iou ds s.tracks unused in
      let added = add_new fl ds matched.1 s.next_id in
      let taken = match_all_lem s.maximum_missed s.minimum_iou ds s.tracks unused l k in
      (
        omega (
          arith,
          length-active-append (expire fl s.maximum_missed matched.0) added.0,
          length-active-expire s.maximum_missed matched.0,
          length-add_new ds matched.1 s.next_id,
          taken.0,
          taken.1,
          length-replicate (length ds) false,
          trues-replicate (length ds),
        ),
        All-append (λ (t : Track fl.Value). t.missed ≤ s.maximum_missed)
            (expire fl s.maximum_missed matched.0) added.0 (expire-Kept s.maximum_missed matched.0)
            (add_new-Kept s.maximum_missed ds matched.1 s.next_id),
      )
