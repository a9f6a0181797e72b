-- ===== src/Linux/Serial/Laws.antt =====
-- platform/shared/linux/serial/serial_termios.c: descriptors under any sequence of calls, and what a port is given.
use dark_os_svc_kit.Common.{
  ℕ, ◌+◌, ◌-◌, ◌≡◌, refl, ap, sym, ◌∙◌, Bool, true, false, not, Option, none, some, List, [], ◌∷◌,
  arith, if◌then◌else◌, is_none, Reply, Rc, ok, err, einval, ebusy,
}
use dark_os_svc_kit.Linux.Serial.{
  Speed, Attributes, Config, System, State, created, baud_to_speed, raw, configure, opened_port,
  no_path, termios_serial_open_device, termios_serial_close_device,
}

-- One call of a client.
pub data Call : Type 0 where
  open_call : System → Option Config → Call
  close_call : System → Call

pub apply : Call → State → State
apply (open_call sys config) s = (termios_serial_open_device sys config s).0
apply (close_call sys) s = (termios_serial_close_device sys s).0

pub run : List Call → State → State
unfolding apply
run [] s = s
run (c ∷ cs) s = run cs (apply c s)

abbrev pub held : Option ℕ → ℕ
held none = 0
held (some fd) = 1

configure-held :
    (sys : System) (speed : Speed) (fd : ℕ) (r : Reply Attributes) (s : State)
    → s.fd ≡ none
    → s.live ≡ 1
    → (configure sys speed fd r s).0.live ≡ held (configure sys speed fd r s).0.fd
unfolding configure
configure-held sys speed fd (err e) s h l = ground arith
configure-held sys speed fd (ok a) s h l = ground arith

opened_port-held :
    (sys : System) (speed : Speed) (r : Reply ℕ) (s : State)
    → s.fd ≡ none
    → s.live ≡ 0
    → (opened_port sys speed r s).0.live ≡ held (opened_port sys speed r s).0.fd
unfolding opened_port
opened_port-held sys speed (err e) s h l = ground arith
opened_port-held sys speed (ok fd) s h l =
    configure-held sys speed fd sys.tcgetattr (record s { live = s.live + 1 }) h (omega arith)

open-held :
    (sys : System) (config : Option Config) (s : State)
    → s.live ≡ held s.fd
    → (termios_serial_open_device sys config s).0.live
      ≡ held (termios_serial_open_device sys config s).0.fd
unfolding termios_serial_open_device
open-held sys none s h = h
open-held sys (some config) s h = go (no_path config.device) s.fd refl (baud_to_speed config.baud)
  where
    go :
        (b : Bool) (o : Option ℕ)
        → s.fd ≡ o
        → (r : Reply Speed)
        → (let out : State × Rc =
              if b
              then (s, err einval)
              else if not (is_none o)
              then (s, err ebusy)
              else elim r [ err e ↦ (s, err e) | ok speed ↦ opened_port sys speed sys.opens s ] in
            out.0.live ≡ held out.0.fd)
    go true o e r = h
    go false (some fd) e r = h
    go false none e (err x) = h
    go false none e (ok speed) = opened_port-held sys speed sys.opens s e (h ∙ ap held e)

close-held :
    (sys : System) (s : State)
    → s.live ≡ held s.fd
    → (termios_serial_close_device sys s).0.live ≡ held (termios_serial_close_device sys s).0.fd
unfolding termios_serial_close_device
close-held sys s h = ground arith

run-held : (cs : List Call) (s : State) → s.live ≡ held s.fd → (run cs s).live ≡ held (run cs s).fd
unfolding run apply
run-held [] s h = h
run-held (open_call sys config ∷ cs) s h = run-held cs _ (open-held sys config s h)
run-held (close_call sys ∷ cs) s h = run-held cs _ (close-held sys s h)

-- After any sequence of opens and closes of a fresh device, whatever the system answers, the module holds one
-- descriptor if the port is open and none otherwise: no error path leaks one.
pub run_live : (cs : List Call) → (run cs created).live ≡ held (run cs created).fd
run_live cs = run-held cs created refl

-- What a port that opens was given.
pub record Opened (config : Config) (s t : State) : Type 0 where
  pub closed_before : s.fd ≡ none
  pub attributes : Attributes
  pub speed : Speed
  pub of_baud : baud_to_speed config.baud ≡ ok speed
  pub applied : t.applied ≡ some (raw attributes speed)
  pub usable : is_none t.fd ≡ false

configured :
    (sys : System) (speed : Speed) (fd : ℕ) (a : Attributes) (u t : State)
    → configure sys speed fd (ok a) u ≡ (t, ok tt)
    → record u { fd = some fd; applied = some (raw a speed) } ≡ t
unfolding configure
configured sys speed fd a u t k = go sys.cfsetispeed sys.cfsetospeed sys.tcsetattr k
  where
    go :
        (i o w : Rc)
        → ◌≡◌ {A = State × Rc}
            (elim i [
              | err e ↦ (record u { live = u.live - 1 }, err e)
              | ok x ↦ elim o [
                | err e ↦ (record u { live = u.live - 1 }, err e)
                | ok y ↦ elim w [
                  | err e ↦ (record u { live = u.live - 1 }, err e)
                  | ok z ↦ (record u { fd = some fd; applied = some (raw a speed) }, ok tt)
                ]
              ]
            ])
            (t, ok tt)
        → record u { fd = some fd; applied = some (raw a speed) } ≡ t
    go (err e) o w h = absurd cc
    go (ok x) (err e) w h = absurd cc
    go (ok x) (ok y) (err e) h = absurd cc
    go (ok x) (ok y) (ok z) h = cc

-- An `open` that succeeds found the port closed, and has put it into raw mode with eight data bits, no parity, one
-- stop bit and no flow control, at the speed of the asked baud rate in both directions.
pub open_device-Opened :
    (sys : System) (config : Config) (s t : State)
    → termios_serial_open_device sys (some config) s ≡ (t, ok tt)
    → Opened config s t
unfolding termios_serial_open_device opened_port configure
open_device-Opened sys config s t h =
    go (no_path config.device) s.fd refl (baud_to_speed config.baud) refl sys.opens h
  where
    set :
        (speed : Speed) (fd : ℕ) (r : Reply Attributes) (u : State)
        → s.fd ≡ none
        → baud_to_speed config.baud ≡ ok speed
        → configure sys speed fd r u ≡ (t, ok tt)
        → Opened config s t
    set speed fd (err x) u e f k = absurd cc
    set speed fd (ok a) u e f k =
        let same : record u { fd = some fd; applied = some (raw a speed) } ≡ t =
          configured sys speed fd a u t k in
        record {
          closed_before = e;
          attributes = a;
          speed = speed;
          of_baud = f;
          applied = sym (ap (λ (x : State). x.applied) same);
          usable = sym (ap (λ (x : State). is_none x.fd) same);
        }

    go :
        (b : Bool) (o : Option ℕ)
        → s.fd ≡ o
        → (r : Reply Speed) → baud_to_speed config.baud ≡ r
        → (x : Reply ℕ)
        → ◌≡◌ {A = State × Rc}
            (if b
              then (s, err einval)
              else if not (is_none o)
              then (s, err ebusy)
              else elim r [ err e ↦ (s, err e) | ok speed ↦ opened_port sys speed x s ])
            (t, ok tt)
        → Opened config s t
    go true o e r f x k = absurd cc
    go false (some fd) e r f x k = absurd cc
    go false none e (err y) f x k = absurd cc
    go false none e (ok speed) f (err y) k = absurd cc
    go false none e (ok speed) f (ok fd) k = set speed fd sys.tcgetattr _ e f k
