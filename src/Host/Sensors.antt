-- ===== src/Host/Sensors.antt =====
-- platform/ubuntu_x86_64/sensors/sensors_host_x86.c: a light and a temperature sensor that a client polls. The
-- clock's readings, what other threads did during a wait, the light at a time (the pure sine of
-- simulate_light_lux) and the arithmetic of `float` are arguments.
use dark_os_svc_kit.Common.{
  ℕ, zero, suc, ◌+◌, ◌-◌, ◌*◌, ◌/◌, ◌%◌, Bool, true, false, not, ◌&&◌, ◌||◌, Option, none, some,
  List, [], ◌∷◌, map, ltb, leb, ◌==◌, if◌then◌else◌, take, length, Text, codes, is_none, Reply, Rc,
  ok, err, einval,
}
use dark_os_svc_kit.Common.Words.{u32, u64}
use dark_os_svc_kit.Common.Int.{ℤ, pos, negsuc}
use dark_os_svc_kit.Common.Float.{Float}
use dark_os_svc_kit.Hardware.Version.{Device, api_version_1_0}
use dark_os_svc_kit.Hal.{Allocs, open_device, close_device}
pub mod Laws
pub mod Delays
pub mod Poll
pub mod Tests

abbrev pub uint64_max : ℕ
uint64_max = 18446744073709551615

-- sensor_type_t
pub data Kind : Type 0 where
  light temperature : Kind

-- sensor_info_t, less the ranges that nothing computes with.
pub record Info : Type 0 where
  pub handle : ℕ
  pub kind : Kind
  pub name : Text
  pub min_delay_us : ℕ

module _ (fl : Float) (lux : ℕ → fl.Value) where
  open fl use {Value, literal, of_ℕ, add, sub, mul, div, below}

  -- host_sensor_slot_t
  pub record Slot : Type 0 where
    pub info : Info
    pub enabled : Bool
    pub delay_us : ℕ
    pub next_due_ns : ℕ
    pub value : Value
    pub rand_state : ℕ

  -- sensor_event_t
  pub record Event : Type 0 where
    pub handle : ℕ
    pub timestamp_ns : ℕ
    pub reading : Value

  -- The next state of the generator, and the two ends that the value is held between.
  pub next_rand : ℕ → ℕ
  next_rand rand_state = u32 (rand_state * 1103515245 + 12345)

  pub clamp : Value → Value
  clamp v =
      let risen = if below v (literal 230 1) then literal 230 1 else v in
      if below (literal 270 1) risen then literal 270 1 else risen

  pub simulate_temperature_c : Slot → Slot
  unfolding next_rand clamp
  simulate_temperature_c s =
      let rand_state = next_rand s.rand_state in
      let share = div (of_ℕ (rand_state / 65536 % 65536)) (literal 655350 1) in
      let delta = mul (sub share (literal 5 1)) (literal 1 1) in
      record s { rand_state = rand_state; value = clamp (add s.value delta) }

  pub host_sensors_get_sensors_list : List Slot → Bool → Option ℕ → Reply (List Info × ℕ)
  host_sensors_get_sensors_list slots list none = err einval
  host_sensors_get_sensors_list slots list (some count) =
      if not list
      then ok ([], 2)
      else (let n = if ltb count 2 then count else 2 in
          ok (take n (map (λ (s : Slot). s.info) slots), n))

  -- find_slot, and the write to the slot that it finds; `none` is a handle that no slot has, or a slot
  -- that the write refuses.
  pub update_slot : (Slot → Option Slot) → ℕ → List Slot → Option (List Slot)
  update_slot f handle [] = none
  update_slot f handle (s ∷ ss) =
      let rest = update_slot f handle ss in
      if s.info.handle == handle
      then elim (f s) [ none ↦ none | some s' ↦ some (s' ∷ ss) ]
      else elim rest [ none ↦ none | some ss' ↦ some (s ∷ ss') ]

  -- `now` + `delay_us` * 1000 in 64 bits.
  abbrev pub due_after : ℕ → ℕ → ℕ
  due_after now delay_us = u64 (now + delay_us * 1000)

  abbrev pub replied : List Slot → Option (List Slot) → List Slot × Rc
  replied ss none = (ss, err einval)
  replied ss (some ss') = (ss', ok tt)

  pub activated : ℕ → Bool → Slot → Option Slot
  activated now enabled s =
      if enabled
      then some (record s { enabled = true; next_due_ns = due_after now s.delay_us })
      else some (record s { enabled = false })

  pub host_sensors_activate : ℕ → ℕ → Bool → List Slot → List Slot × Rc
  unfolding update_slot activated
  host_sensors_activate now handle enabled ss =
      replied ss (update_slot (activated now enabled) handle ss)

  pub delayed : ℕ → ℕ → Slot → Option Slot
  delayed now delay_us s =
      if ltb delay_us s.info.min_delay_us
      then none
      else if s.enabled
      then some (record s { delay_us = delay_us; next_due_ns = due_after now delay_us })
      else some (record s { delay_us = delay_us })

  pub host_sensors_set_delay : ℕ → ℕ → ℕ → List Slot → List Slot × Rc
  unfolding update_slot delayed
  host_sensors_set_delay now handle delay_us ss =
      replied ss (update_slot (delayed now delay_us) handle ss)

  abbrev pub is_light : Kind → Bool
  is_light light = true
  is_light temperature = false

  pub fill_event : Slot → ℕ → Slot × Event
  unfolding simulate_temperature_c
  fill_event s ts =
      if is_light s.info.kind
      then (s, record { handle = s.info.handle; timestamp_ns = ts; reading = lux ts })
      else (
        simulate_temperature_c s,
        record {
          handle = s.info.handle;
          timestamp_ns = ts;
          reading = (simulate_temperature_c s).value;
        },
      )

  -- The search for the earliest due time, from `wake_ns` on.
  pub earliest : List Slot → ℕ → ℕ
  earliest [] wake_ns = wake_ns
  earliest (s ∷ ss) wake_ns =
      earliest ss (if s.enabled && ltb s.next_due_ns wake_ns then s.next_due_ns else wake_ns)

  -- The loop that fills events; `room` is what max_count leaves.
  pub fill_due : ℕ → ℕ → List Slot → List Slot × List Event
  unfolding fill_event
  fill_due now zero ss = (ss, [])
  fill_due now (suc room) [] = ([], [])
  fill_due now (suc room) (s ∷ ss) =
      let (skipped, others) = fill_due now (suc room) ss in
      let (ss', es) = fill_due now room ss in
      let (s', e) = fill_event s now in
      if not s.enabled || ltb now s.next_due_ns
      then (s ∷ skipped, others)
      else (record s' { next_due_ns = due_after now s'.delay_us } ∷ ss', e ∷ es)

  -- What a round of poll's loop comes to: an answer, or a wait to a time, or without one.
  pub data Round : Type 0 where
    finished : List Slot → List Event → Round
    waits : Option ℕ → Round

  pub poll_round : ℕ → ℕ → ℕ → List Slot → Round
  unfolding earliest fill_due
  poll_round max_count deadline_ns now ss =
      let wake_ns = earliest ss uint64_max in
      let target = if ltb wake_ns deadline_ns then wake_ns else deadline_ns in
      let (ss', es) = fill_due now max_count ss in
      if wake_ns == uint64_max
      then (if leb deadline_ns now
          then finished ss []
          else waits (if deadline_ns == uint64_max then none else some deadline_ns))
      else if leb wake_ns now
      then finished ss' es
      else if leb target now
      then finished ss []
      else waits (some target)

  -- The loop: each wake-up brings the clock's reading and the slots as other threads left them. `none`
  -- is a poll that still waits when the wake-ups run out.
  pub poll_loop : ℕ → ℕ → ℕ → List Slot → List (ℕ × List Slot) → Option (List Slot × List Event)
  unfolding poll_round
  poll_loop max_count deadline_ns now ss [] = elim (poll_round max_count deadline_ns now ss) [
    | finished ss' es ↦ some (ss', es)
    | waits target ↦ none
  ]
  poll_loop max_count deadline_ns now ss ((later, ss1) ∷ wakes) =
      let rest = poll_loop max_count deadline_ns later ss1 wakes in
      elim (poll_round max_count deadline_ns now ss) [
        | finished ss' es ↦ some (ss', es)
        | waits target ↦ rest
      ]

  abbrev pub deadline_of : ℕ → ℤ → ℕ
  deadline_of start (pos timeout_ms) = u64 (start + timeout_ms * 1000000)
  deadline_of start (negsuc n) = uint64_max

  -- `start` and `now` are the readings before the loop and in its first round.
  pub host_sensors_poll :
      List Slot
      → Bool
      → ℕ
      → ℤ
      → ℕ
      → ℕ
      → List (ℕ × List Slot)
      → Option (List Slot × Reply (List Event))
  unfolding poll_loop
  host_sensors_poll ss events max_count timeout_ms start now wakes =
      let polled = poll_loop max_count (deadline_of start timeout_ms) now ss wakes in
      if not events || max_count == 0
      then some (ss, err einval)
      else elim polled [ none ↦ none | some (ss', es) ↦ some (ss', ok es) ]

  abbrev pub init_slot : ℕ → Kind → Text → ℕ → ℕ → Value → ℕ → Slot
  init_slot handle kind name min_delay_us default_delay_us init_value rand_seed = record {
    info = record { handle = handle; kind = kind; name = name; min_delay_us = min_delay_us };
    enabled = false;
    delay_us = default_delay_us;
    next_due_ns = 0;
    value = init_value;
    rand_state = rand_seed;
  }

  abbrev pub initial : List Slot
  initial =
      init_slot 1 light (codes "host-light") 20000 100000 (literal 0 0) 0x12345678
      ∷ init_slot 2 temperature (codes "host-temperature") 100000 500000 (literal 250 1) 0x9e3779b9
      ∷ []

  pub host_sensors_open : Bool → Allocs → ℕ → ℕ × Reply (Device (List Slot))
  host_sensors_open = open_device api_version_1_0 initial

  pub host_sensors_close : Option (Device (List Slot)) → ℕ → ℕ × Rc
  host_sensors_close = close_device
