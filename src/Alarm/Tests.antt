-- ===== src/Alarm/Tests.antt =====
-- Runs of the alarm manager.
use dark_os_svc_kit.Common.{
  none, ◌++◌, List, filter, ◌↔◌, ℕ, ◌+◌, ◌≡◌, refl, Bool, true, false, List, [], ◌∷◌, reverse, take,
  Text, codes, str_eq, arith,
}
use dark_os_svc_kit.Alarm.{
  Event, Record, MatchRule, State, load_journal, accept, replay, newest, find_record,
  acknowledge_first, begin_event, finish_event, run_on, run_one, acknowledge, append_line, outcomes,
  counted, first_accepts, trim_front,
}
use dark_os_svc_kit.Alarm.Rule.{accepted_times, Spaced, accepted_times-Spaced}
use dark_os_svc_kit.Alarm.Query.{Filter, Wants, wanted, query, query-take}
use dark_os_svc_kit.Alarm.Counts.{
  Step, running, finishing, acknowledging, step, steps, Counted, steps-Counted,
}
use dark_os_svc_kit.Alarm.Journal.{load_journal-steps}

abbrev event_at : ℕ → Event
event_at t = record {
  id = t ∷ [];
  source = codes "iva";
  kind = codes "motion";
  message = codes "moved";
  severity = 1;
  timestamp_ns = t;
}

abbrev motion_rule : MatchRule
motion_rule = record {
  source = [];
  kind = codes "motion";
  minimum = 1;
  cooldown_ns = 10;
  last_accepted_ns = 0;
}

abbrev record_at : ℕ → Record
record_at t = record {
  event = event_at t;
  acknowledged = false;
  acknowledged_timestamp_ns = 0;
  successful_actions = 1;
  failed_actions = 0;
}

-- A manager of two records with one action, `true` when it succeeds, and three events that wait.
abbrev busy : State Bool
busy = record {
  maximum_records = 2;
  rules = [];
  actions = true ∷ [];
  records = [];
  stats = record { received = 0; accepted = 0; suppressed = 0; action_failures = 0 };
  next_id = 1;
  journal = [];
  pending = event_at 3 ∷ event_at 5 ∷ event_at 7 ∷ [];
  in_flight = none;
}

abbrev acts : Bool → Event → Bool
acts b e = b

abbrev digits : ℕ → Text
digits n = (n + 48) ∷ []

abbrev one_event : List (Step Bool)
one_event = running ∷ finishing true ∷ []

-- Three events, of which the first record leaves, and an acknowledgement of the second.
abbrev day : List (Step Bool)
day = one_event ++ one_event ++ one_event ++ acknowledging 9 true (5 ∷ []) ∷ []

accepted_times-Spaced_example :
    Spaced 10 (accepted_times motion_rule (event_at 5 ∷ event_at 9 ∷ event_at 15 ∷ []))
accepted_times-Spaced_example =
    accepted_times-Spaced motion_rule 1 (event_at 5 ∷ event_at 9 ∷ event_at 15 ∷ []) refl
      (omega arith) (omega arith, (omega arith, (omega arith, tt)))

accepted_twice :
    accepted_times motion_rule (event_at 5 ∷ event_at 9 ∷ event_at 15 ∷ []) ≡ 5 ∷ 15 ∷ []
unfolding accept str_eq
accepted_twice = refl

abbrev newest_one : Filter
newest_one = record { source = codes "iva"; kind = []; active_only = true; limit = 1 }

query-take_example :
    (query newest_one (record_at 3 ∷ record_at 5 ∷ [])
      ≡ take 1 (filter (wanted newest_one) (reverse (record_at 3 ∷ record_at 5 ∷ []))))
    × ((r : Record) → wanted newest_one r ≡ true ↔ Wants newest_one r)
query-take_example = query-take newest_one (record_at 3 ∷ record_at 5 ∷ [])

steps-Counted_example : Counted (steps acts digits day busy)
steps-Counted_example = steps-Counted acts digits day busy (omega arith, refl)

load_journal-steps_example :
    load_journal (steps acts digits day busy).maximum_records (steps acts digits day busy).journal
    ≡ (steps acts digits day busy).records
unfolding load_journal newest replay find_record acknowledge_first begin_event finish_event run_on
    run_one acknowledge append_line outcomes counted first_accepts trim_front step str_eq
load_journal-steps_example =
    load_journal-steps acts digits day busy refl tt tt
      (tt, ((refl, refl), (tt, ((refl, refl), (tt, ((refl, refl), (refl, tt)))))))
