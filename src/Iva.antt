-- ===== src/Iva.antt =====
-- SvcKit/subsystems/iva: detections become tracks, and rules on tracks make events. inc/iva_types.h, with the
-- floating-point values of a parameter.
use dark_os_svc_kit.Common.{ℕ, Bool, true, false, ◌&&◌, Text, if◌then◌else◌}
use dark_os_svc_kit.Common.Float.{Float}
pub mod Tracker
pub mod Region
pub mod Manager

pub record Point (V : Type 0) : Type 0 where
  pub x : V
  pub y : V

pub record Rect (V : Type 0) : Type 0 where
  pub x : V
  pub y : V
  pub width : V
  pub height : V

-- Detection; an object class is its number.
pub record Detection (V : Type 0) : Type 0 where
  pub object_class : ℕ
  pub confidence : V
  pub box : Rect V
  pub label : Text

pub record Track (V : Type 0) : Type 0 where
  pub id : ℕ
  pub detection : Detection V
  pub previous_center : Point V
  pub center : Point V
  pub age : ℕ
  pub missed : ℕ
  pub has_previous : Bool

pub data EventType : Type 0 where
  region_entered region_left intrusion line_crossed : EventType

-- Event; no rule fills in its message.
pub record Event (V : Type 0) : Type 0 where
  pub rule_id : Text
  pub kind : EventType
  pub target_id : ℕ
  pub timestamp_ns : ℕ
  pub object_class : ℕ
  pub box : Rect V

-- appendEvent, and the same lines of the line rule.
abbrev pub event_of : {V : Type 0} → Text → EventType → ℕ → Track V → Event V
event_of rule_id kind timestamp_ns t = record {
  rule_id = rule_id;
  kind = kind;
  target_id = t.id;
  timestamp_ns = timestamp_ns;
  object_class = t.detection.object_class;
  box = t.detection.box;
}

module _ (fl : Float) where
  -- std::max and std::min
  abbrev pub larger : fl.Value → fl.Value → fl.Value
  larger a b = if fl.below a b then b else a

  abbrev pub smaller : fl.Value → fl.Value → fl.Value
  smaller a b = if fl.below b a then b else a

  abbrev pub zero_value : fl.Value
  zero_value = fl.of_ℕ 0

  pub is_valid : Rect fl.Value → Bool
  is_valid r = fl.below zero_value r.width && fl.below zero_value r.height

  pub area : Rect fl.Value → fl.Value
  unfolding is_valid
  area r = if is_valid r then fl.mul r.width r.height else zero_value

  pub center_of : Rect fl.Value → Point fl.Value
  center_of r = record {
    x = fl.add r.x (fl.mul r.width (fl.literal 5 1));
    y = fl.add r.y (fl.mul r.height (fl.literal 5 1));
  }
