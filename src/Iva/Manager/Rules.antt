-- ===== src/Iva/Manager/Rules.antt =====
-- SvcKit/subsystems/iva/src/core/iva_manager.cpp: the ids of the rules.
use dark_os_svc_kit.Common.{
  ℕ, ◌≡◌, refl, ap, sym, subst, ◌∙◌, Bool, true, false, ◌||◌, Option, none, some, is_none, List, [],
  ◌∷◌, ◌++◌, Text, str_eq, mentions, Distinct, Distinct-snoc, ◌==◌, Reply, Rc, ok, err, einval,
  eexist, if◌then◌else◌, arith,
}
use dark_os_svc_kit.Common.Float.{Float}
use dark_os_svc_kit.Iva.{Detection, Track, Event}
use dark_os_svc_kit.Iva.Tracker.{update}
use dark_os_svc_kit.Iva.Manager.Branches.{process-elim}
use dark_os_svc_kit.Iva.Manager.{
  Manager, RuleOps, Failure, has_id, erase_rule, evaluate_rules, reset_all, set_algorithm, add_rule,
  remove_rule, process, process_detections, reset_manager, no_text,
}

-- What is done to a manager: a frame comes with the clock, its time and the algorithm's answer.
pub data Call {ℓ} (V : Type 0) (Algorithm Rule : Type ℓ) : Type ℓ where
  setting : Option Algorithm → Call V Algorithm Rule
  adding : Option Rule → Call V Algorithm Rule
  removing : Text → Call V Algorithm Rule
  processing : ℕ → ℕ → Call V Algorithm Rule
  submitting : ℕ → ℕ → List (Detection V) → Call V Algorithm Rule
  resetting : Call V Algorithm Rule

-- A rule keeps its id, whatever it sees.
abbrev pub KeepsId {ℓ} : {V : Type 0} {Rule : Type ℓ} → RuleOps V Rule → Type ℓ
KeepsId {V = V} {Rule = Rule} ops =
    ((now : ℕ) (ts : List (Track V)) (r : Rule)
      → ops.rule_id (ops.evaluate now ts r).0 ≡ ops.rule_id r)
    × ((r : Rule) → ops.rule_id (ops.reset_rule r) ≡ ops.rule_id r)

module _ {ℓ} {V : Type 0} {Rule : Type ℓ} (ops : RuleOps V Rule) where
  abbrev pub rule_ids : List Rule → List Text
  rule_ids [] = []
  rule_ids (r ∷ rs) = ops.rule_id r ∷ rule_ids rs

  has_id-mentions : (id : Text) (rs : List Rule) → has_id ops id rs ≡ mentions id (rule_ids rs)
  unfolding has_id
  has_id-mentions id [] = refl
  has_id-mentions id (r ∷ rs) = ap (λ b. str_eq (ops.rule_id r) id || b) (has_id-mentions id rs)

  rule_ids-snoc :
      (rs : List Rule) (r : Rule) → rule_ids (rs ++ r ∷ []) ≡ rule_ids rs ++ ops.rule_id r ∷ []
  rule_ids-snoc [] r = refl
  rule_ids-snoc (x ∷ rs) r = ap (λ l. ops.rule_id x ∷ l) (rule_ids-snoc rs r)

  mentions-erase_rule :
      (i id : Text) (rs : List Rule)
      → mentions i (rule_ids rs) ≡ false
      → mentions i (rule_ids (erase_rule ops id rs)) ≡ false
  unfolding erase_rule
  mentions-erase_rule i id [] h = refl
  mentions-erase_rule i id (r ∷ rs) h = ground (arith, mentions-erase_rule i id rs)

  Distinct-erase_rule :
      (id : Text) (rs : List Rule)
      → Distinct (rule_ids rs)
      → Distinct (rule_ids (erase_rule ops id rs))
  unfolding erase_rule
  Distinct-erase_rule id [] h = tt
  Distinct-erase_rule id (r ∷ rs) h =
      go (str_eq (ops.rule_id r) id) (mentions-erase_rule (ops.rule_id r) id rs h.0)
        (Distinct-erase_rule id rs h.1)
    where
      go :
          (b : Bool)
          → mentions (ops.rule_id r) (rule_ids (erase_rule ops id rs)) ≡ false
          → Distinct (rule_ids (erase_rule ops id rs))
          → Distinct (rule_ids (if b then rs else r ∷ erase_rule ops id rs))
      go true m d = h.1
      go false m d = (m, d)

  evaluate_rules-rule_ids :
      (now : ℕ) (ts : List (Track V)) (rs : List Rule)
      → KeepsId ops
      → rule_ids (evaluate_rules ops now ts rs).0 ≡ rule_ids rs
  unfolding evaluate_rules
  evaluate_rules-rule_ids now ts [] k = refl
  evaluate_rules-rule_ids now ts (r ∷ rs) k =
      go (is_none (ops.evaluate now ts r).2) (k.0 now ts r) (evaluate_rules-rule_ids now ts rs k)
    where
      go :
          (b : Bool)
          → ops.rule_id (ops.evaluate now ts r).0 ≡ ops.rule_id r
          → rule_ids (evaluate_rules ops now ts rs).0 ≡ rule_ids rs
          → (let x : List Rule × List (Event V) × Option Failure =
                (if b
                  then (
                    (ops.evaluate now ts r).0 ∷ (evaluate_rules ops now ts rs).0,
                    (ops.evaluate now ts r).1 ++ (evaluate_rules ops now ts rs).1,
                    (evaluate_rules ops now ts rs).2,
                  )
                  else (
                    (ops.evaluate now ts r).0 ∷ rs,
                    (ops.evaluate now ts r).1,
                    (ops.evaluate now ts r).2,
                  )) in
              rule_ids x.0 ≡ rule_ids (r ∷ rs))
      go true same rest = cc
      go false same rest = cc

  reset_all-rule_ids : (rs : List Rule) → KeepsId ops → rule_ids (reset_all ops rs) ≡ rule_ids rs
  unfolding reset_all
  reset_all-rule_ids [] k = refl
  reset_all-rule_ids (r ∷ rs) k = cc (k.1 r, reset_all-rule_ids rs k)

module _ {ℓ} (fl : Float) {Algorithm Rule : Type ℓ} (ops : RuleOps fl.Value Rule)
    (run : Algorithm → Reply (List (Detection fl.Value))) where
  pub call :
      Call fl.Value Algorithm Rule
      → Manager fl.Value Algorithm Rule
      → Manager fl.Value Algorithm Rule
  unfolding set_algorithm add_rule remove_rule process process_detections reset_manager
  call (setting a) m = (set_algorithm fl ops a m).0
  call (adding r) m = (add_rule fl ops r m).0
  call (removing id) m = (remove_rule fl ops id m).0
  call (processing clock timestamp_ns) m = (process fl ops run clock timestamp_ns m).0
  call (submitting clock timestamp_ns ds) m = (process_detections fl ops clock timestamp_ns ds m).0
  call resetting m = reset_manager fl ops m

  pub calls :
      List (Call fl.Value Algorithm Rule)
      → Manager fl.Value Algorithm Rule
      → Manager fl.Value Algorithm Rule
  unfolding call
  calls [] m = m
  calls (c ∷ cs) m = calls cs (call c m)

  process_detections-rule_ids :
      (clock timestamp_ns : ℕ) (ds : List (Detection fl.Value))
      (m : Manager fl.Value Algorithm Rule)
      → KeepsId ops
      → rule_ids ops (process_detections fl ops clock timestamp_ns ds m).0.rules
        ≡ rule_ids ops m.rules
  unfolding process_detections
  process_detections-rule_ids clock timestamp_ns ds m k =
      let same =
        evaluate_rules-rule_ids ops (if timestamp_ns == 0 then clock else timestamp_ns)
          (update fl ds m.tracker).1 m.rules k in
      ground (arith, same)

  process-rule_ids :
      (clock timestamp_ns : ℕ) (m : Manager fl.Value Algorithm Rule)
      → KeepsId ops
      → rule_ids ops (process fl ops run clock timestamp_ns m).0.rules ≡ rule_ids ops m.rules
  process-rule_ids clock timestamp_ns m k =
      process-elim fl ops run clock timestamp_ns m
        (λ r. rule_ids ops r.0.rules ≡ rule_ids ops m.rules) (λ e. refl)
        (λ ds. process_detections-rule_ids clock timestamp_ns ds m k)

  call-Distinct :
      (c : Call fl.Value Algorithm Rule) (m : Manager fl.Value Algorithm Rule)
      → KeepsId ops
      → Distinct (rule_ids ops m.rules)
      → Distinct (rule_ids ops (call c m).rules)
  unfolding call set_algorithm add_rule remove_rule reset_manager
  call-Distinct (setting none) m k d = d
  call-Distinct (setting (some a)) m k d = d
  call-Distinct (adding none) m k d = d
  call-Distinct (adding (some r)) m k d =
      go (no_text (ops.rule_id r)) (has_id ops (ops.rule_id r) m.rules) refl
    where
      go :
          (a b : Bool)
          → has_id ops (ops.rule_id r) m.rules ≡ b
          → (let x : Manager fl.Value Algorithm Rule × Rc =
                (if a
                  then (m, err einval)
                  else if b
                  then (m, err eexist)
                  else (record m { rules = m.rules ++ r ∷ [] }, ok tt)) in
              Distinct (rule_ids ops x.0.rules))
      go true b h = d
      go false true h = d
      go false false h = subst Distinct (sym (rule_ids-snoc ops m.rules r)) (
          Distinct-snoc (rule_ids ops m.rules) (ops.rule_id r) d
            (sym (has_id-mentions ops (ops.rule_id r) m.rules) ∙ h))
  call-Distinct (removing id) m k d = ground (arith, Distinct-erase_rule ops id m.rules)
  call-Distinct (processing clock timestamp_ns) m k d =
      subst Distinct (sym (process-rule_ids clock timestamp_ns m k)) d
  call-Distinct (submitting clock timestamp_ns ds) m k d =
      subst Distinct (sym (process_detections-rule_ids clock timestamp_ns ds m k)) d
  call-Distinct resetting m k d = subst Distinct (sym (reset_all-rule_ids ops m.rules k)) d

  -- As long as rules keep their ids, a manager never comes to have two rules of one id, whatever is done to it.
  pub calls-Distinct :
      (cs : List (Call fl.Value Algorithm Rule)) (m : Manager fl.Value Algorithm Rule)
      → KeepsId ops
      → Distinct (rule_ids ops m.rules)
      → Distinct (rule_ids ops (calls cs m).rules)
  unfolding calls
  calls-Distinct [] m k d = d
  calls-Distinct (c ∷ cs) m k d = calls-Distinct cs (call c m) k (call-Distinct c m k d)
