-- ===== src/Iva/Manager/Branches.antt =====
-- SvcKit/subsystems/iva/src/core/iva_manager.cpp: the three ways through process.
use dark_os_svc_kit.Common.{ℕ, Option, none, some, List, [], Reply, Rc, ok, err, Errno, enodev}
use dark_os_svc_kit.Common.Float.{Float}
use dark_os_svc_kit.Iva.{Detection, Event}
use dark_os_svc_kit.Iva.Manager.{Manager, RuleOps, process, process_detections, count_failure}

-- What holds without an algorithm, when the algorithm fails, and when its detections are processed, holds of process.
pub process-elim {ℓ κ} :
    (fl : Float) {Algorithm Rule : Type ℓ} (ops : RuleOps fl.Value Rule)
    (run : Algorithm → Reply (List (Detection fl.Value))) (clock timestamp_ns : ℕ)
    (m : Manager fl.Value Algorithm Rule)
    (P : Manager fl.Value Algorithm Rule × List (Event fl.Value) × Rc → Type κ)
    → ((e : Errno) → P (record m { stats = count_failure m.stats }, [], err e))
    → ((ds : List (Detection fl.Value)) → P (process_detections fl ops clock timestamp_ns ds m))
    → P (process fl ops run clock timestamp_ns m)
unfolding process
process-elim fl {Algorithm = Algorithm} {Rule = Rule} ops run clock timestamp_ns m P failed found =
    by_algorithm m.algorithm
  where
    by_answer :
        (o : Reply (List (Detection fl.Value)))
        → P (elim o as (λ x. Manager fl.Value Algorithm Rule × List (Event fl.Value) × Rc) [
          | err e ↦ (record m { stats = count_failure m.stats }, [], err e)
          | ok ds ↦ process_detections fl ops clock timestamp_ns ds m
        ])
    by_answer (err e) = failed e
    by_answer (ok ds) = found ds

    by_algorithm :
        (o : Option Algorithm)
        → P (elim o as (λ x. Manager fl.Value Algorithm Rule × List (Event fl.Value) × Rc) [
          | none ↦ (record m { stats = count_failure m.stats }, [], err enodev)
          | some a ↦ elim (run a) [
            | err e ↦ (record m { stats = count_failure m.stats }, [], err e)
            | ok ds ↦ process_detections fl ops clock timestamp_ns ds m
          ]
        ])
    by_algorithm none = failed enodev
    by_algorithm (some a) = by_answer (run a)
