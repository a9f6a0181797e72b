-- ===== src/Iva/Tracker/Tests.antt =====
-- Runs of the tracker.
use dark_os_svc_kit.Common.{ℕ, ◌≤◌, [], ◌∷◌, length, arith}
use dark_os_svc_kit.Common.Float.{whole}
use dark_os_svc_kit.Iva.{Detection}
use dark_os_svc_kit.Iva.Tracker.{State, update, new_track}
use dark_os_svc_kit.Iva.Tracker.Ids.{Between, update-Between}
use dark_os_svc_kit.Iva.Tracker.Matches.{Kept, update-Kept}

abbrev person_at : ℕ → Detection ℕ
person_at x = record {
  object_class = 1;
  confidence = 1;
  box = record { x = x; y = 10; width = 4; height = 4 };
  label = [];
}

-- Two tracks, of which the second was missed once.
abbrev two_tracks : State ℕ
two_tracks = record {
  minimum_iou = 1;
  maximum_missed = 5;
  tracks =
      new_track whole (person_at 10) 1
      ∷ record (new_track whole (person_at 90) 2) { missed = 1 }
      ∷ [];
  next_id = 3;
}

update-Between_example :
    Between 1
      (update whole (person_at 10 ∷ person_at 50 ∷ []) two_tracks).0.tracks
      (update whole (person_at 10 ∷ person_at 50 ∷ []) two_tracks).0.next_id
    × Between 1
        (update whole (person_at 10 ∷ person_at 50 ∷ []) two_tracks).1
        (update whole (person_at 10 ∷ person_at 50 ∷ []) two_tracks).0.next_id
update-Between_example =
    update-Between whole (person_at 10 ∷ person_at 50 ∷ []) two_tracks
      (omega arith, (omega arith, omega arith)) (omega arith)

update-Kept_example :
    (length (update whole (person_at 10 ∷ person_at 50 ∷ []) two_tracks).1 ≤ 2)
    × Kept whole 5 (update whole (person_at 10 ∷ person_at 50 ∷ []) two_tracks).0.tracks
update-Kept_example =
    update-Kept whole (person_at 10 ∷ person_at 50 ∷ []) two_tracks (omega arith)
      (omega arith, (omega arith, tt))
