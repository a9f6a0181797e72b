-- ===== src/Alarm.antt =====
-- SvcKit/subsystems/alarm: src/core/alarm_manager.cpp and src/rule/filter_rule.cpp. Events that clients publish wait
-- in the event loop; each is filtered by the rules, handed to the actions, kept as a record and written to a journal.
-- The clock, the actions' outcomes, the decimal text of a number and whether the journal can be written are
-- arguments; the text of the journal is the standard library's, and an entry is its fields here.
use dark_os_svc_kit.Common.{
  ℕ, zero, suc, ◌+◌, ◌-◌, Bool, true, false, not, ◌&&◌, ◌||◌, Option, none, some, List, [], ◌∷◌,
  ◌++◌, reverse, ltb, leb, ◌==◌, if◌then◌else◌, drop, length, Text, codes, str_eq, Reply, Rc, ok,
  err, einval, eio, enoent, etimedout, eshutdown,
}
use dark_os_svc_kit.Common.Words.{u32, u64}
use dark_os_svc_kit.Common.Int.{ℤ, is_negative}
pub mod Rule
pub mod Query
pub mod Counts
pub mod Replay
pub mod Journal
pub mod Tests

-- AlarmEvent; `severity` counts from Info.
pub record Event : Type 0 where
  pub id : Text
  pub source : Text
  pub kind : Text
  pub message : Text
  pub severity : ℕ
  pub timestamp_ns : ℕ

-- AlarmRecord
pub record Record : Type 0 where
  pub event : Event
  pub acknowledged : Bool
  pub acknowledged_timestamp_ns : ℕ
  pub successful_actions : ℕ
  pub failed_actions : ℕ

-- AlarmStats
pub record Stats : Type 0 where
  pub received : ℕ
  pub accepted : ℕ
  pub suppressed : ℕ
  pub action_failures : ℕ

-- MatchRule of filter_rule.cpp.
pub record MatchRule : Type 0 where
  pub source : Text
  pub kind : Text
  pub minimum : ℕ
  pub cooldown_ns : ℕ
  pub last_accepted_ns : ℕ

-- The journal's text as the stream's extractions cut it, which pass over line ends: the fields of an event, those of an
-- acknowledgement, and the rest of a line behind any other character. `broken` is a failed extraction, so nothing
-- stands behind it in what a process reads. The manager writes whole entries, each on a line of its own, and what it
-- writes behind a text that ends with a whole entry is one entry more.
pub data Line : Type 0 where
  event_line : Record → Line
  acknowledgement : Text → ℕ → Line
  ignored : Line
  broken : Line

abbrev pub is_empty : Text → Bool
is_empty [] = true
is_empty (c ∷ cs) = false

-- A filter that is empty, or equal to the text.
abbrev pub passes : Text → Text → Bool
passes filter text = is_empty filter || str_eq text filter

unfoldable pub accept : MatchRule → Event → MatchRule × Bool
accept r e =
    if not (passes r.source e.source) || not (passes r.kind e.kind) || ltb e.severity r.minimum
    then (r, false)
    else if not (r.last_accepted_ns == 0)
        && leb r.last_accepted_ns e.timestamp_ns
        && ltb (e.timestamp_ns - r.last_accepted_ns) r.cooldown_ns
    then (r, false)
    else (record r { last_accepted_ns = e.timestamp_ns }, true)

-- The loop over the rules, up to the first that accepts.
pub first_accepts : List MatchRule → Event → List MatchRule × Bool
unfolding accept
first_accepts [] e = ([], false)
first_accepts (r ∷ rs) e =
    let (r', taken) = accept r e in
    let (rs', later) = first_accepts rs e in if taken then (r' ∷ rs, true) else (r' ∷ rs', later)

abbrev pub no_rules : List MatchRule → Bool
no_rules [] = true
no_rules (r ∷ rs) = false

-- The actions' outcomes, counted in 32 bits: `true` is an action that succeeds.
pub counted : List Bool → Record → Record
counted [] r = r
counted (true ∷ os) r =
    counted os (record r { successful_actions = u32 (r.successful_actions + 1) })
counted (false ∷ os) r = counted os (record r { failed_actions = u32 (r.failed_actions + 1) })

abbrev pub fresh_record : Event → Record
fresh_record e = record {
  event = e;
  acknowledged = false;
  acknowledged_timestamp_ns = 0;
  successful_actions = 0;
  failed_actions = 0;
}

-- The manager's state, the journal, the events that wait in the loop, the oldest first, and the accepted one that the
-- loop's thread has in hand between the two locked sections of processEvent, with the actions it copied.
pub record State {ℓ} (Action : Type ℓ) : Type ℓ where
  pub maximum_records : ℕ
  pub rules : List MatchRule
  pub actions : List Action
  pub records : List Record
  pub stats : Stats
  pub next_id : ℕ
  pub journal : List Line
  pub pending : List Event
  pub in_flight : Option (Event × List Action)

-- The one record that is too much leaves at the front.
pub trim_front : ℕ → List Record → List Record
trim_front maximum rs = if ltb maximum (length rs) then drop 1 rs else rs

pub append_line : Bool → Line → List Line → List Line
append_line writable l ls = if writable then ls ++ l ∷ [] else ls

-- find_if by id, and the change of the record that it finds.
pub acknowledge_first : Text → ℕ → List Record → List Record
acknowledge_first id now [] = []
acknowledge_first id now (r ∷ rs) =
    if str_eq r.event.id id
    then record r { acknowledged = true; acknowledged_timestamp_ns = now } ∷ rs
    else r ∷ acknowledge_first id now rs

pub find_record : Text → List Record → Option Record
find_record id [] = none
find_record id (r ∷ rs) = if str_eq r.event.id id then some r else find_record id rs

-- The loop of loadJournal over the entries, which ends at a failed extraction.
pub replay : List Line → List Record → List Record
unfolding acknowledge_first
replay [] rs = rs
replay (event_line r ∷ ls) rs =
    replay ls (rs ++ record r { acknowledged = false; acknowledged_timestamp_ns = 0 } ∷ [])
replay (acknowledgement id timestamp ∷ ls) rs = replay ls (acknowledge_first id timestamp rs)
replay (ignored ∷ ls) rs = replay ls rs
replay (broken ∷ ls) rs = rs

-- The newest records, as many as are kept.
pub newest : ℕ → List Record → List Record
newest maximum rs = if ltb maximum (length rs) then drop (length rs - maximum) rs else rs

pub load_journal : ℕ → List Line → List Record
unfolding replay newest
load_journal maximum ls = newest maximum (replay ls [])

module _ {ℓ} {Action : Type ℓ} (execute : Action → Event → Bool) where
  pub outcomes : List Action → Event → List Bool
  outcomes [] e = []
  outcomes (a ∷ more) e = execute a e ∷ outcomes more e

  -- The first locked section of processEvent.
  pub begin_event : Event → State Action → State Action
  unfolding first_accepts
  begin_event e s =
      let received = record (s.stats) { received = u64 (s.stats.received + 1) } in
      let (rules, taken) = first_accepts s.rules e in
      if not (no_rules s.rules) && not taken
      then record s {
        rules = rules;
        stats = record received { suppressed = u64 (s.stats.suppressed + 1) };
      }
      else record s { rules = rules; stats = received; in_flight = some (e, s.actions) }

  -- The actions, without the lock, and the second locked section; `writable` says whether the journal takes the line.
  pub finish_event : Bool → Event → List Action → State Action → State Action
  unfolding outcomes counted trim_front append_line
  finish_event writable e actions s =
      let r = counted (outcomes actions e) (fresh_record e) in
      record s {
        stats = record (s.stats) {
          accepted = u64 (s.stats.accepted + 1);
          action_failures = u64 (s.stats.action_failures + r.failed_actions);
        };
        records = trim_front s.maximum_records (s.records ++ r ∷ []);
        journal = append_line writable (event_line r) s.journal;
        in_flight = none;
      }

  -- The loop's one thread takes the oldest event that waits, when it is through with the last one.
  pub run_one : State Action → State Action
  unfolding begin_event
  run_one s = elim (s.in_flight) [
    | some f ↦ s
    | none ↦ elim (s.pending) [ [] ↦ s | e ∷ es ↦ begin_event e (record s { pending = es }) ]
  ]

  pub run_on : Bool → State Action → State Action
  unfolding finish_event
  run_on writable s = elim (s.in_flight) [
    | none ↦ s
    | some (e, actions) ↦ finish_event writable e actions s
  ]

  pub add_rule : Option MatchRule → State Action → State Action × Rc
  add_rule none s = (s, err einval)
  add_rule (some r) s = (record s { rules = s.rules ++ r ∷ [] }, ok tt)

  pub add_action : Option Action → State Action → State Action × Rc
  add_action none s = (s, err einval)
  add_action (some a) s = (record s { actions = s.actions ++ a ∷ [] }, ok tt)

  -- `now` is the clock in the two places that read it; `posts` says whether the loop takes the event.
  pub publish : (ℕ → Text) → ℕ → ℕ → Bool → Event → State Action → State Action × Rc
  publish decimal now now' posts e s =
      let fresh = decimal now ++ (codes "-" ++ decimal s.next_id) in
      let named = if is_empty e.id then record e { id = fresh } else e in
      let s' = if is_empty e.id then record s { next_id = u64 (s.next_id + 1) } else s in
      let timed = if e.timestamp_ns == 0 then record named { timestamp_ns = now' } else named in
      if is_empty e.source || is_empty e.kind
      then (s, err einval)
      else if posts
      then (record s' { pending = s.pending ++ timed ∷ [] }, ok tt)
      else (s', err eshutdown)

  -- The test that waitForHandled waits for; `none` is a wait that goes on, `late` that its time is over.
  pub wait_for_handled : ℕ → ℤ → Bool → State Action → Option Rc
  wait_for_handled minimum timeout_ms late s =
      if leb minimum (u64 (s.stats.accepted + s.stats.suppressed))
      then some (ok tt)
      else if is_negative timeout_ms
      then none
      else if late
      then some (err etimedout)
      else none

  pub acknowledge : ℕ → Bool → Text → State Action → State Action × Rc
  unfolding find_record acknowledge_first append_line
  acknowledge now writable id s = elim (find_record id s.records) [
    | none ↦ (s, err enoent)
    | some r ↦ if r.acknowledged then (s, ok tt) else (
      record s {
        records = acknowledge_first id now s.records;
        journal = append_line writable (acknowledgement id now) s.journal;
      },
      if writable then ok tt else err eio,
    )
  ]

  -- AlarmManager::create on the journal that an earlier process left; `directory` says whether its directory
  -- can be made, and `memory` whether the object can.
  pub create : Text → ℕ → Bool → Bool → List Line → Option (State Action)
  unfolding load_journal
  create journal_path maximum directory memory ls =
      if is_empty journal_path || maximum == 0
      then none
      else if not directory || not memory
      then none
      else some (record {
        maximum_records = maximum;
        rules = [];
        actions = [];
        records = load_journal maximum ls;
        stats = record { received = 0; accepted = 0; suppressed = 0; action_failures = 0 };
        next_id = 1;
        journal = ls;
        pending = [];
        in_flight = none;
      })
