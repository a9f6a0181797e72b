-- ===== src/Iva/Manager/Frames.antt =====
-- SvcKit/subsystems/iva/src/core/iva_manager.cpp: what the manager counts of its frames.
use dark_os_svc_kit.Common.{
  ℕ, ◌+◌, ◌<◌, ◌≡◌, refl, Bool, true, false, List, [], ◌∷◌, length, Reply, Rc, is_ok, if◌then◌else◌,
  arith,
}
use dark_os_svc_kit.Common.Words.{u64}
use dark_os_svc_kit.Common.Float.{Float}
use dark_os_svc_kit.Iva.{Detection, Event}
use dark_os_svc_kit.Iva.Manager.Branches.{process-elim}
use dark_os_svc_kit.Iva.Manager.{Manager, RuleOps, process, process_detections}

-- How many answers are errors, and how many events the others came with.
abbrev pub failures : {V : Type 0} → List (List (Event V) × Rc) → ℕ
failures [] = 0
failures ((events, answer) ∷ rest) = let n = failures rest in if is_ok answer then n else n + 1

abbrev pub emitted : {V : Type 0} → List (List (Event V) × Rc) → ℕ
emitted [] = 0
emitted ((events, answer) ∷ rest) =
    let n = emitted rest in if is_ok answer then length events + n else n

-- One more answer in sums of 64 bits.
count_more :
    (b : Bool) (f e f' e' n x y f'' e'' : ℕ)
    → f < 18446744073709551616
    → e < 18446744073709551616
    → f' ≡ (if b then f else u64 (f + 1))
    → e' ≡ (if b then u64 (e + n) else e)
    → (f' < 18446744073709551616
        → e' < 18446744073709551616
        → (f'' ≡ u64 (f' + x)) × (e'' ≡ u64 (e' + y)))
    → (f'' ≡ u64 (f + (if b then x else x + 1))) × (e'' ≡ u64 (e + (if b then n + y else y)))
count_more true f e f' e' n x y f'' e'' l k h i more =
    let rest = more (omega arith) (omega arith) in (omega (arith, rest.0), omega (arith, rest.1))
count_more false f e f' e' n x y f'' e'' l k h i more =
    let rest = more (omega arith) (omega arith) in (omega (arith, rest.0), omega (arith, rest.1))

module _ {ℓ} (fl : Float) {Algorithm Rule : Type ℓ} (ops : RuleOps fl.Value Rule) where
  -- Frames in turn, each with what the algorithm answers for it, the clock and its time; the answers with the events.
  pub run_frames :
      List ((Algorithm → Reply (List (Detection fl.Value))) × ℕ × ℕ)
      → Manager fl.Value Algorithm Rule
      → Manager fl.Value Algorithm Rule × List (List (Event fl.Value) × Rc)
  unfolding process
  run_frames [] m = (m, [])
  run_frames ((run, clock, timestamp_ns) ∷ fs) m =
      let (m', events, answer) = process fl ops run clock timestamp_ns m in
      let (last, answers) = run_frames fs m' in (last, (events, answer) ∷ answers)

  Counts :
      Manager fl.Value Algorithm Rule
      → Manager fl.Value Algorithm Rule
      → List (Event fl.Value)
      → Rc
      → Type 0
  Counts m m' events answer =
      (m'.stats.failed_frames
        ≡ (if is_ok answer then m.stats.failed_frames else u64 (m.stats.failed_frames + 1)))
      × (m'.stats.emitted_events ≡ (
          if is_ok answer
          then u64 (m.stats.emitted_events + length events)
          else m.stats.emitted_events))

  process_detections-Counts :
      (clock timestamp_ns : ℕ) (ds : List (Detection fl.Value))
      (m : Manager fl.Value Algorithm Rule)
      → (let r = process_detections fl ops clock timestamp_ns ds m in Counts m r.0 r.1 r.2)
  unfolding process_detections Counts
  process_detections-Counts clock timestamp_ns ds m = ground arith

  process-Counts :
      (run : Algorithm → Reply (List (Detection fl.Value))) (clock timestamp_ns : ℕ)
      (m : Manager fl.Value Algorithm Rule)
      → (let r = process fl ops run clock timestamp_ns m in Counts m r.0 r.1 r.2)
  unfolding Counts
  process-Counts run clock timestamp_ns m =
      process-elim fl ops run clock timestamp_ns m (λ r. Counts m r.0 r.1 r.2) (λ e. (refl, refl))
        (λ ds. process_detections-Counts clock timestamp_ns ds m)

  -- After any frames, the manager has counted a failure for each answer that is an error, and an event for each one
  -- that came with the other answers: both in 64 bits, on top of what it had counted before.
  pub run_frames-stats :
      (fs : List ((Algorithm → Reply (List (Detection fl.Value))) × ℕ × ℕ))
      (m : Manager fl.Value Algorithm Rule)
      → m.stats.failed_frames < 18446744073709551616
      → m.stats.emitted_events < 18446744073709551616
      → ((run_frames fs m).0.stats.failed_frames
          ≡ u64 (m.stats.failed_frames + failures (run_frames fs m).1))
        × ((run_frames fs m).0.stats.emitted_events
            ≡ u64 (m.stats.emitted_events + emitted (run_frames fs m).1))
  unfolding run_frames Counts
  run_frames-stats [] m l k = (omega arith, omega arith)
  run_frames-stats ((run, clock, timestamp_ns) ∷ fs) m l k =
      let frame = process fl ops run clock timestamp_ns m in
      let counted = process-Counts run clock timestamp_ns m in
      count_more (is_ok frame.2) m.stats.failed_frames m.stats.emitted_events _ _ (length frame.1) _
        _ _ _ l k counted.0 counted.1 (λ a b. run_frames-stats fs frame.0 a b)
