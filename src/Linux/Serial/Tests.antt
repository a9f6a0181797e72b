-- ===== src/Linux/Serial/Tests.antt =====
-- The serial theorems at concrete calls.
use dark_os_svc_kit.Common.{◌≡◌, refl, true, false, none, some, List, [], ◌∷◌, ok, err, eio, codes}
use dark_os_svc_kit.Linux.Serial.{
  Attributes, Config, System, State, created, b115200, termios_serial_open_device, opened_port,
  configure, baud_to_speed, raw,
}
use dark_os_svc_kit.Linux.Serial.Laws.{Call, open_call, close_call, run, held, run_live}

abbrev cooked : Attributes
cooked = record {
  iflag = 0;
  oflag = 5;
  lflag = 35387;
  cflag = 0;
  char_bits = 7;
  parenb = true;
  parodd = false;
  cstopb = true;
  clocal = false;
  cread = true;
  crtscts = true;
  vmin = 1;
  vtime = 0;
  ispeed = none;
  ospeed = none;
}

abbrev willing : System
willing = record {
  opens = ok 7;
  tcgetattr = ok cooked;
  cfsetispeed = ok tt;
  cfsetospeed = ok tt;
  tcsetattr = ok tt;
  closes = ok tt;
}

abbrev unset : System
unset = record willing { tcsetattr = err eio }

abbrev config : Config
config = record { device = some (codes "/dev/ttyS1"); baud = 115200 }

abbrev port : State
port = record { fd = some 7; live = 1; applied = some (raw cooked b115200) }

open_port : termios_serial_open_device willing (some config) created ≡ (port, ok tt)
unfolding termios_serial_open_device baud_to_speed opened_port configure
open_port = refl

abbrev calls : List Call
calls =
    open_call unset (some config)
    ∷ open_call willing (some config)
    ∷ open_call willing (some config)
    ∷ close_call unset
    ∷ []

run_live_example : (run calls created).live ≡ held (run calls created).fd
run_live_example = run_live calls
