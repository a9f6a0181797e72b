-- ===== src/Iva/Manager.antt =====
-- SvcKit/subsystems/iva/src/core/iva_manager.cpp: frames go through the algorithm, the tracker and the rules. The
-- algorithm and the rules are interfaces, so they are parameters; an exception is one of their answers.
use dark_os_svc_kit.Common.{
  ℕ, zero, suc, ◌+◌, Bool, true, false, not, ◌||◌, Option, none, some, is_none, List, [], ◌∷◌, ◌++◌,
  length, Text, str_eq, ◌==◌, if◌then◌else◌, Reply, Rc, ok, err, Errno, einval, eexist, enoent,
  enodev, efault,
}
use dark_os_svc_kit.Common.Words.{u64}
use dark_os_svc_kit.Common.Float.{Float}
use dark_os_svc_kit.Iva.{Detection, Track, Event}
use dark_os_svc_kit.Iva.Tracker.{State, update, reset, create_iou_tracker}
pub mod Branches
pub mod Rules
pub mod Frames
pub mod Tests

-- IvaStats
pub record Stats : Type 0 where
  pub processed_frames : ℕ
  pub failed_frames : ℕ
  pub detections : ℕ
  pub active_tracks : ℕ
  pub emitted_events : ℕ

abbrev pub no_stats : Stats
no_stats = record {
  processed_frames = 0;
  failed_frames = 0;
  detections = 0;
  active_tracks = 0;
  emitted_events = 0;
}

-- What a rule answers: the errno that it returns, or an exception.
pub data Failure : Type 0 where
  returned : Errno → Failure
  thrown : Failure

-- ManagerImpl; the algorithm's slot holds whether one is set.
pub record Manager {ℓ} (V : Type 0) (Algorithm Rule : Type ℓ) : Type ℓ where
  pub algorithm : Option Algorithm
  pub tracker : State V
  pub rules : List Rule
  pub stats : Stats

-- The interface of a rule: its id, its evaluation on the tracks of a frame with the events that it appends and its
-- failure, and its reset.
pub record RuleOps {ℓ} (V : Type 0) (Rule : Type ℓ) : Type ℓ where
  pub rule_id : Rule → Text
  pub evaluate : ℕ → List (Track V) → Rule → Rule × List (Event V) × Option Failure
  pub reset_rule : Rule → Rule

abbrev pub no_text : Text → Bool
no_text [] = true
no_text (c ∷ cs) = false

abbrev pub count_failure : Stats → Stats
count_failure st = record st { failed_frames = u64 (st.failed_frames + 1) }

abbrev pub answer_of : Failure → Rc
answer_of (returned e) = err e
answer_of thrown = err efault

module _ {ℓ} {V : Type 0} {Rule : Type ℓ} (ops : RuleOps V Rule) where
  pub has_id : Text → List Rule → Bool
  has_id id [] = false
  has_id id (r ∷ rs) = str_eq (ops.rule_id r) id || has_id id rs

  pub erase_rule : Text → List Rule → List Rule
  erase_rule id [] = []
  erase_rule id (r ∷ rs) = if str_eq (ops.rule_id r) id then rs else r ∷ erase_rule id rs

  -- The loop over the rules, up to the first that fails; the events are those that the caller's vector has then.
  pub evaluate_rules : ℕ → List (Track V) → List Rule → List Rule × List (Event V) × Option Failure
  evaluate_rules now tracks [] = ([], [], none)
  evaluate_rules now tracks (r ∷ rs) =
      let (r', events, failure) = ops.evaluate now tracks r in
      let (rs', more, later) = evaluate_rules now tracks rs in
      if is_none failure then (r' ∷ rs', events ++ more, later) else (r' ∷ rs, events, failure)

  pub reset_all : List Rule → List Rule
  reset_all [] = []
  reset_all (r ∷ rs) = ops.reset_rule r ∷ reset_all rs

module _ {ℓ} (fl : Float) {Algorithm Rule : Type ℓ} (ops : RuleOps fl.Value Rule) where
  pub set_algorithm :
      Option Algorithm → Manager fl.Value Algorithm Rule → Manager fl.Value Algorithm Rule × Rc
  set_algorithm none m = (m, err einval)
  set_algorithm (some a) m = (record m { algorithm = some a }, ok tt)

  pub add_rule :
      Option Rule → Manager fl.Value Algorithm Rule → Manager fl.Value Algorithm Rule × Rc
  unfolding has_id
  add_rule none m = (m, err einval)
  add_rule (some r) m =
      if no_text (ops.rule_id r)
      then (m, err einval)
      else if has_id ops (ops.rule_id r) m.rules
      then (m, err eexist)
      else (record m { rules = m.rules ++ r ∷ [] }, ok tt)

  pub remove_rule : Text → Manager fl.Value Algorithm Rule → Manager fl.Value Algorithm Rule × Rc
  unfolding has_id erase_rule
  remove_rule id m =
      if has_id ops id m.rules
      then (record m { rules = erase_rule ops id m.rules }, ok tt)
      else (m, err enoent)

  -- processDetectionsLocked; the tracker's update always returns 0. `clock` is the time that nowNs reads.
  pub process_detections :
      ℕ
      → ℕ
      → List (Detection fl.Value)
      → Manager fl.Value Algorithm Rule
      → Manager fl.Value Algorithm Rule × List (Event fl.Value) × Rc
  unfolding evaluate_rules
  process_detections clock timestamp_ns ds m =
      let now = if timestamp_ns == 0 then clock else timestamp_ns in
      let (tracker, tracks) = update fl ds m.tracker in
      let counted = record (m.stats) {
        processed_frames = u64 (m.stats.processed_frames + 1);
        detections = u64 (m.stats.detections + length ds);
        active_tracks = length tracks;
      } in
      let (rules, events, failure) = evaluate_rules ops now tracks m.rules in
      elim failure [
        | none ↦ (
          record m {
            tracker = tracker;
            rules = rules;
            stats = record counted {
              emitted_events = u64 (counted.emitted_events + length events);
            };
          },
          events,
          ok tt,
        )
        | some f ↦ (
          record m { tracker = tracker; rules = rules; stats = count_failure counted },
          events,
          answer_of f,
        )
      ]

  -- process, with what the algorithm answers for the frame: its detections, or its errno, or an exception.
  pub process :
      (Algorithm → Reply (List (Detection fl.Value)))
      → ℕ
      → ℕ
      → Manager fl.Value Algorithm Rule
      → Manager fl.Value Algorithm Rule × List (Event fl.Value) × Rc
  unfolding process_detections
  process run clock timestamp_ns m = elim (m.algorithm) [
    | none ↦ (record m { stats = count_failure m.stats }, [], err enodev)
    | some a ↦ elim (run a) [
      | err e ↦ (record m { stats = count_failure m.stats }, [], err e)
      | ok ds ↦ process_detections clock timestamp_ns ds m
    ]
  ]

  pub reset_manager : Manager fl.Value Algorithm Rule → Manager fl.Value Algorithm Rule
  unfolding reset_all
  reset_manager m = record m {
    tracker = reset fl m.tracker;
    rules = reset_all ops m.rules;
    stats = no_stats;
  }

  pub create_manager : fl.Value → ℕ → Option (Manager fl.Value Algorithm Rule)
  create_manager minimum_iou maximum_missed =
      elim (create_iou_tracker fl minimum_iou maximum_missed) [
        | none ↦ none
        | some t ↦ some (record { algorithm = none; tracker = t; rules = []; stats = no_stats })
      ]
