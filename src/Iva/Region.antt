-- ===== src/Iva/Region.antt =====
-- SvcKit/subsystems/iva/src/perimeter: the rules on a region of intrusion_rule.cpp and on a line of
-- line_cross_rule.cpp. The map of the targets is a list of pairs.
use dark_os_svc_kit.Common.{
  ℕ, zero, suc, ◌+◌, ◌-◌, Bool, true, false, not, ◌&&◌, ◌||◌, Option, none, some, List, [], ◌∷◌,
  ◌++◌, length, Text, ltb, leb, ◌==◌, if◌then◌else◌,
}
use dark_os_svc_kit.Common.Float.{Float}
use dark_os_svc_kit.Iva.{
  Point, Track, Event, EventType, region_entered, region_left, intrusion, line_crossed, event_of,
  larger, smaller, zero_value,
}
pub mod Stays
pub mod Targets
pub mod Tests

pub data Mode : Type 0 where
  enter leave intruding : Mode

abbrev pub same_mode : Mode → Mode → Bool
same_mode enter enter = true
same_mode leave leave = true
same_mode intruding intruding = true
same_mode m n = false

-- The state of one target.
pub record State : Type 0 where
  pub inside : Bool
  pub triggered : Bool
  pub entered_at_ns : ℕ

-- The step over the region's edge, with its event.
unfoldable pub move_target : Mode → ℕ → Bool → State → State × Option EventType
move_target mode now inside s =
    if not s.inside && inside
    then (
      record s { entered_at_ns = now; triggered = false },
      if same_mode mode enter then some region_entered else none,
    )
    else if s.inside && not inside
    then (
      record s { entered_at_ns = 0; triggered = false },
      if same_mode mode leave then some region_left else none,
    )
    else (s, none)

-- The body of the loop of evaluate for one target, and the event that it appends.
unfoldable pub observe : Mode → ℕ → ℕ → Bool → Option State → State × Option EventType
unfolding move_target
observe mode dwell now inside none =
    (record { inside = inside; triggered = false; entered_at_ns = if inside then now else 0 }, none)
observe mode dwell now inside (some s) =
    let (moved, event) = move_target mode now inside s in
    if inside
      && same_mode mode intruding
      && not moved.triggered
      && not (moved.entered_at_ns == 0)
      && leb moved.entered_at_ns now
      && leb dwell (now - moved.entered_at_ns)
    then (record moved { inside = inside; triggered = true }, some intrusion)
    else (record moved { inside = inside }, event)

-- The map from ids to states.
pub lookup : ℕ → List (ℕ × State) → Option State
lookup id [] = none
lookup id ((i, s) ∷ m) = if i == id then some s else lookup id m

pub store : ℕ → State → List (ℕ × State) → List (ℕ × State)
store id t [] = (id, t) ∷ []
store id t ((i, s) ∷ m) = if i == id then (i, t) ∷ m else (i, s) ∷ store id t m

-- RegionRule
pub record Region (V : Type 0) : Type 0 where
  pub id : Text
  pub polygon : List (Point V)
  pub mode : Mode
  pub dwell_time_ns : ℕ
  pub states : List (ℕ × State)

pub data Direction : Type 0 where
  any positive negative : Direction

-- LineRuleConfig
pub record Line (V : Type 0) : Type 0 where
  pub id : Text
  pub start : Point V
  pub end : Point V
  pub direction : Direction

abbrev no_text : Text → Bool
no_text [] = true
no_text (c ∷ cs) = false

module _ (fl : Float) where
  abbrev epsilon : fl.Value
  epsilon = fl.literal 1 5

  abbrev absolute : fl.Value → fl.Value
  absolute v = if fl.below v (zero_value fl) then fl.neg v else v

  -- `cross` of intrusion_rule.cpp and `sideOfLine` of line_cross_rule.cpp.
  pub side_of_line : Point fl.Value → Point fl.Value → Point fl.Value → fl.Value
  side_of_line a b p =
      fl.sub (fl.mul (fl.sub b.x a.x) (fl.sub p.y a.y)) (fl.mul (fl.sub b.y a.y) (fl.sub p.x a.x))

  pub on_segment : Point fl.Value → Point fl.Value → Point fl.Value → Bool
  unfolding side_of_line
  on_segment a b p =
      fl.at_most (absolute (side_of_line a b p)) epsilon
      && fl.at_most (fl.sub (smaller fl a.x b.x) epsilon) p.x
      && fl.at_most p.x (fl.add (larger fl a.x b.x) epsilon)
      && fl.at_most (fl.sub (smaller fl a.y b.y) epsilon) p.y
      && fl.at_most p.y (fl.add (larger fl a.y b.y) epsilon)

  abbrev different : Bool → Bool → Bool
  different true b = not b
  different false b = b

  -- Whether the ray from the point crosses the edge.
  pub crosses : Point fl.Value → Point fl.Value → Point fl.Value → Bool
  crosses last current p =
      different (fl.below p.y current.y) (fl.below p.y last.y)
      && fl.below p.x (
          fl.add
            (fl.div (fl.mul (fl.sub last.x current.x) (fl.sub p.y current.y))
              (fl.sub last.y current.y))
            current.x)

  -- The loop over the edges, from the one between the last point and the first.
  pub contains_from : Point fl.Value → List (Point fl.Value) → Point fl.Value → Bool → Bool
  unfolding on_segment crosses
  contains_from last [] p inside = inside
  contains_from last (current ∷ cs) p inside =
      let rest = contains_from current cs p (different (crosses last current p) inside) in
      if on_segment last current p then true else rest

  last_point : Point fl.Value → List (Point fl.Value) → Point fl.Value
  last_point p [] = p
  last_point p (q ∷ qs) = last_point q qs

  pub contains : List (Point fl.Value) → Point fl.Value → Bool
  unfolding contains_from last_point
  contains [] p = false
  contains (c ∷ cs) p =
      if ltb (length (c ∷ cs)) 3 then false else contains_from (last_point c cs) (c ∷ cs) p false

  abbrev appended : Text → Option EventType → ℕ → Track fl.Value → List (Event fl.Value)
  appended rule_id none now t = []
  appended rule_id (some kind) now t = event_of rule_id kind now t ∷ []

  -- RegionRule::evaluate, with the events that it appends.
  pub evaluate_region :
      ℕ → List (Track fl.Value) → Region fl.Value → Region fl.Value × List (Event fl.Value)
  unfolding contains observe lookup store
  evaluate_region now [] r = (r, [])
  evaluate_region now (t ∷ ts) r =
      let (s, kind) =
        observe r.mode r.dwell_time_ns now (contains r.polygon t.center) (lookup t.id r.states) in
      let (r', events) = evaluate_region now ts (record r { states = store t.id s r.states }) in
      (r', appended r.id kind now t ++ events)

  pub reset_region : Region fl.Value → Region fl.Value
  reset_region r = record r { states = [] }

  pub create_region_rule : Text → List (Point fl.Value) → Mode → ℕ → Option (Region fl.Value)
  create_region_rule id polygon mode dwell =
      if no_text id || ltb (length polygon) 3
      then none
      else some
          (record { id = id; polygon = polygon; mode = mode; dwell_time_ns = dwell; states = [] })

  pub create_region_intrusion_rule : Text → List (Point fl.Value) → ℕ → Option (Region fl.Value)
  unfolding create_region_rule
  create_region_intrusion_rule id polygon dwell =
      if dwell == 0 then none else create_region_rule id polygon intruding dwell

  -- LineCrossRule::evaluate for one track, by the sides of the line of its last two centers.
  pub crossing : Line fl.Value → Track fl.Value → Bool
  unfolding side_of_line
  crossing l t =
      let previous = side_of_line l.start l.end t.previous_center in
      let current = side_of_line l.start l.end t.center in
      let upward = fl.below previous (zero_value fl) && fl.below (zero_value fl) current in
      if not t.has_previous
      then false
      else if fl.at_most (absolute previous) epsilon
          || fl.at_most (absolute current) epsilon
          || fl.at_most (zero_value fl) (fl.mul previous current)
      then false
      else elim (l.direction) [ any ↦ true | positive ↦ upward | negative ↦ not upward ]

  pub evaluate_line : ℕ → List (Track fl.Value) → Line fl.Value → List (Event fl.Value)
  unfolding crossing
  evaluate_line now [] l = []
  evaluate_line now (t ∷ ts) l =
      let rest = evaluate_line now ts l in
      if crossing l t then event_of l.id line_crossed now t ∷ rest else rest

  pub create_line_cross_rule :
      Text → Point fl.Value → Point fl.Value → Direction → Option (Line fl.Value)
  create_line_cross_rule id start end direction =
      if no_text id
        || fl.at_most (absolute (fl.sub start.x end.x)) epsilon
          && fl.at_most (absolute (fl.sub start.y end.y)) epsilon
      then none
      else some (record { id = id; start = start; end = end; direction = direction })
