-- ===== src/Iva/Tracker.antt =====
-- SvcKit/subsystems/iva/src/tracker/byte_track_tracker.cpp: the tracker that matches boxes by their overlap.
use dark_os_svc_kit.Common.{
  ℕ, zero, suc, ◌+◌, Bool, true, false, not, ◌&&◌, ◌||◌, Option, none, some, List, [], ◌∷◌, ◌++◌,
  length, get_elem?, set, replicate, ltb, ◌==◌, if◌then◌else◌,
}
use dark_os_svc_kit.Common.Words.{u32, u64}
use dark_os_svc_kit.Common.Float.{Float}
use dark_os_svc_kit.Iva.{
  Point, Rect, Detection, Track, larger, smaller, zero_value, is_valid, area, center_of,
}
pub mod Ids
pub mod Matches
pub mod Tests

-- TrackerConfig and the members of IouTracker.
pub record State (V : Type 0) : Type 0 where
  pub minimum_iou : V
  pub maximum_missed : ℕ
  pub tracks : List (Track V)
  pub next_id : ℕ

module _ (fl : Float) where
  pub intersection_over_union : Rect fl.Value → Rect fl.Value → fl.Value
  intersection_over_union left right =
      let width =
        fl.sub (smaller fl (fl.add left.x left.width) (fl.add right.x right.width))
          (larger fl left.x right.x) in
      let height =
        fl.sub (smaller fl (fl.add left.y left.height) (fl.add right.y right.height))
          (larger fl left.y right.y) in
      let intersection = fl.mul width height in
      let union_area = fl.sub (fl.add (area fl left) (area fl right)) intersection in
      if not (is_valid fl left) || not (is_valid fl right)
      then zero_value fl
      else if fl.at_most width (zero_value fl) || fl.at_most height (zero_value fl)
      then zero_value fl
      else if fl.below (zero_value fl) union_area
      then fl.div intersection union_area
      else zero_value fl

  -- The loop over the detections for one track: the last of the unused ones of its class with the largest overlap.
  pub find_best :
      Detection fl.Value
      → List (Detection fl.Value)
      → List Bool
      → ℕ
      → Option ℕ
      → fl.Value
      → Option ℕ
  find_best own [] us index best best_iou = best
  find_best own (d ∷ ds) [] index best best_iou = best
  find_best own (d ∷ ds) (u ∷ us) index best best_iou =
      let iou = intersection_over_union own.box d.box in
      let skipped = find_best own ds us (suc index) best best_iou in
      let taken = find_best own ds us (suc index) (some index) iou in
      if u || not (d.object_class == own.object_class)
      then skipped
      else if fl.at_most best_iou iou
      then taken
      else skipped

  abbrev pub lose : Track fl.Value → Track fl.Value
  lose t = record t { missed = u32 (t.missed + 1); has_previous = false }

  abbrev pub follow : Detection fl.Value → Track fl.Value → Track fl.Value
  follow d t = record t {
    previous_center = t.center;
    center = center_of fl d.box;
    detection = d;
    has_previous = ltb 0 t.age;
    missed = 0;
    age = u32 (t.age + 1);
  }

  -- One track of the first loop of update, with the detection found at the index.
  pub match_one :
      List (Detection fl.Value) → List Bool → Option ℕ → Track fl.Value → Track fl.Value × List Bool
  match_one ds us none t = (lose t, us)
  match_one ds us (some index) t = elim (get_elem? ds index) [
    | none ↦ (lose t, us)
    | some d ↦ (follow d t, set us index true)
  ]

  pub match_all :
      fl.Value
      → List (Detection fl.Value)
      → List (Track fl.Value)
      → List Bool
      → List (Track fl.Value) × List Bool
  unfolding find_best match_one
  match_all minimum ds [] us = ([], us)
  match_all minimum ds (t ∷ ts) us =
      let (t', us') = match_one ds us (find_best t.detection ds us 0 none minimum) t in
      let (ts', us'') = match_all minimum ds ts us' in (t' ∷ ts', us'')

  -- Tracks missed for longer than the window leave.
  pub expire : ℕ → List (Track fl.Value) → List (Track fl.Value)
  expire maximum [] = []
  expire maximum (t ∷ ts) =
      let rest = expire maximum ts in if ltb maximum t.missed then rest else t ∷ rest

  abbrev pub new_track : Detection fl.Value → ℕ → Track fl.Value
  new_track d id = record {
    id = id;
    detection = d;
    previous_center = record { x = zero_value fl; y = zero_value fl };
    center = center_of fl d.box;
    age = 1;
    missed = 0;
    has_previous = false;
  }

  -- The loop over the detections that no track took.
  pub add_new : List (Detection fl.Value) → List Bool → ℕ → List (Track fl.Value) × ℕ
  add_new [] us next = ([], next)
  add_new (d ∷ ds) [] next = ([], next)
  add_new (d ∷ ds) (u ∷ us) next =
      let (rest, last) = add_new ds us next in
      let (others, last') = add_new ds us (u64 (next + 1)) in
      if u || not (is_valid fl d.box) then (rest, last) else (new_track d next ∷ others, last')

  -- The tracks that this frame supports.
  pub active : List (Track fl.Value) → List (Track fl.Value)
  active [] = []
  active (t ∷ ts) = let rest = active ts in if t.missed == 0 then t ∷ rest else rest

  unfoldable pub update :
      List (Detection fl.Value) → State fl.Value → State fl.Value × List (Track fl.Value)
  unfolding match_all expire add_new active
  update ds s =
      let (matched, used) = match_all s.minimum_iou ds s.tracks (replicate (length ds) false) in
      let (added, next) = add_new ds used s.next_id in
      let tracks = expire s.maximum_missed matched ++ added in
      (record s { tracks = tracks; next_id = next }, active tracks)

  pub reset : State fl.Value → State fl.Value
  reset s = record s { tracks = []; next_id = 1 }

  pub create_iou_tracker : fl.Value → ℕ → Option (State fl.Value)
  create_iou_tracker minimum_iou maximum_missed =
      if fl.at_most minimum_iou (zero_value fl) || fl.below (fl.of_ℕ 1) minimum_iou
      then none
      else some (record {
        minimum_iou = minimum_iou;
        maximum_missed = maximum_missed;
        tracks = [];
        next_id = 1;
      })
