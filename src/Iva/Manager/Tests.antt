-- ===== src/Iva/Manager/Tests.antt =====
-- Runs of the IVA manager, on whole numbers.
use dark_os_svc_kit.Common.{
  ℕ, ◌+◌, ◌≡◌, refl, none, some, List, [], ◌∷◌, Text, codes, str_eq, Distinct, Reply, ok, err, eio,
  if◌then◌else◌, arith,
}
use dark_os_svc_kit.Common.Words.{u64}
use dark_os_svc_kit.Common.Float.{whole}
use dark_os_svc_kit.Iva.{Detection, Track, Event, intrusion, event_of}
use dark_os_svc_kit.Iva.Manager.{Manager, RuleOps, returned, no_stats}
use dark_os_svc_kit.Iva.Manager.Rules.{
  adding, processing, resetting, rule_ids, calls, calls-Distinct,
}
use dark_os_svc_kit.Iva.Manager.Frames.{failures, emitted, run_frames, run_frames-stats}

-- A rule that is its id, and reports every track; the one named "bad" fails.
abbrev report_all : Text → ℕ → List (Track ℕ) → List (Event ℕ)
report_all id now [] = []
report_all id now (t ∷ ts) = event_of id intrusion now t ∷ report_all id now ts

abbrev named : RuleOps ℕ Text
named = record {
  rule_id = λ r. r;
  evaluate = λ now ts r.
      (r, report_all r now ts, if str_eq r (codes "bad") then some (returned eio) else none);
  reset_rule = λ r. r;
}

abbrev person : Detection ℕ
person = record {
  object_class = 1;
  confidence = 1;
  box = record { x = 8; y = 10; width = 4; height = 4 };
  label = [];
}

-- The algorithm is its detections.
abbrev gate : Manager ℕ (List (Detection ℕ)) Text
gate = record {
  algorithm = some (person ∷ []);
  tracker = record { minimum_iou = 1; maximum_missed = 5; tracks = []; next_id = 1 };
  rules = codes "yard" ∷ codes "bad" ∷ [];
  stats = no_stats;
}

abbrev finds : List (Detection ℕ) → Reply (List (Detection ℕ))
finds ds = ok ds

abbrev fails : List (Detection ℕ) → Reply (List (Detection ℕ))
fails ds = err eio

calls-Distinct_example : Distinct (
    rule_ids named
      (calls whole named finds
        (adding (some (codes "yard")) ∷ processing 3 0 ∷ resetting ∷ [])
        gate).rules)
unfolding str_eq
calls-Distinct_example =
    calls-Distinct whole named finds
      (adding (some (codes "yard")) ∷ processing 3 0 ∷ resetting ∷ []) gate
      ((λ now ts r. refl), (λ r. refl)) (refl, (refl, tt))

run_frames-stats_example :
    ((run_frames whole named ((finds, 3, 0) ∷ (fails, 4, 0) ∷ []) gate).0.stats.failed_frames
      ≡ u64 (0 + failures (run_frames whole named ((finds, 3, 0) ∷ (fails, 4, 0) ∷ []) gate).1))
    × ((run_frames whole named ((finds, 3, 0) ∷ (fails, 4, 0) ∷ []) gate).0.stats.emitted_events
        ≡ u64 (0 + emitted (run_frames whole named ((finds, 3, 0) ∷ (fails, 4, 0) ∷ []) gate).1))
run_frames-stats_example =
    run_frames-stats whole named ((finds, 3, 0) ∷ (fails, 4, 0) ∷ []) gate (omega arith)
      (omega arith)
