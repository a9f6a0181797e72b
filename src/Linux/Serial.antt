-- ===== src/Linux/Serial.antt =====
-- platform/shared/linux/serial/serial_termios.c: a serial port in raw mode. The answers of the system calls
-- that one `open` or `close` meets are arguments.
use dark_os_svc_kit.Common.{
  ℕ, suc, ◌+◌, ◌-◌, ◌≡◌, refl, ap, sym, ◌∙◌, Bool, true, false, not, ◌||◌, Option, none, some, List,
  [], ◌∷◌, ◌==◌, arith, if◌then◌else◌, Text, is_none, Reply, Rc, ok, err, einval, ebusy,
}
use dark_os_svc_kit.Common.{codes, str_eq}
use dark_os_svc_kit.Hardware.Version.{Device, api_version_1_0}
use dark_os_svc_kit.Hal.{Allocs, open_device}
pub mod Laws
pub mod Tests

-- The constants B4800 to B921600, all of which Linux defines.
pub data Speed : Type 0 where
  b4800 b9600 b19200 b38400 b57600 b115200 b230400 b460800 b921600 : Speed

pub baud_to_speed : ℕ → Reply Speed
baud_to_speed baud =
    if baud == 4800
    then ok b4800
    else if baud == 9600
    then ok b9600
    else if baud == 19200
    then ok b19200
    else if baud == 38400
    then ok b38400
    else if baud == 57600
    then ok b57600
    else if baud == 115200
    then ok b115200
    else if baud == 230400
    then ok b230400
    else if baud == 460800
    then ok b460800
    else if baud == 921600
    then ok b921600
    else err einval

-- struct termios: the bits of c_cflag that the code names are fields of their own, `cflag` is the rest.
pub record Attributes : Type 0 where
  pub iflag : ℕ
  pub oflag : ℕ
  pub lflag : ℕ
  pub cflag : ℕ
  pub char_bits : ℕ
  pub parenb : Bool
  pub parodd : Bool
  pub cstopb : Bool
  pub clocal : Bool
  pub cread : Bool
  pub crtscts : Bool
  pub vmin : ℕ
  pub vtime : ℕ
  pub ispeed : Option Speed
  pub ospeed : Option Speed

-- IGNBRK
abbrev pub ignbrk : ℕ
ignbrk = 1

-- serial_config_t
pub record Config : Type 0 where
  pub device : Option Text
  pub baud : ℕ

-- The answers of the system.
pub record System : Type 0 where
  pub opens : Reply ℕ
  pub tcgetattr : Reply Attributes
  pub cfsetispeed : Rc
  pub cfsetospeed : Rc
  pub tcsetattr : Rc
  pub closes : Rc

-- termios_serial_priv_t, `none` for -1; with it the number of descriptors that the module holds, and the
-- attributes that the port was given last.
pub record State : Type 0 where
  pub fd : Option ℕ
  pub live : ℕ
  pub applied : Option Attributes

abbrev pub created : State
created = record { fd = none; live = 0; applied = none }

pub raw : Attributes → Speed → Attributes
raw a speed = record a {
  iflag = ignbrk;
  oflag = 0;
  lflag = 0;
  char_bits = 8;
  parenb = false;
  parodd = false;
  cstopb = false;
  clocal = true;
  cread = true;
  crtscts = false;
  vmin = 0;
  vtime = 0;
  ispeed = some speed;
  ospeed = some speed;
}

-- What follows tcgetattr, the descriptor being open.
pub configure : System → Speed → ℕ → Reply Attributes → State → State × Rc
unfolding raw
configure sys speed fd (err e) s = (record s { live = s.live - 1 }, err e)
configure sys speed fd (ok a) s = elim (sys.cfsetispeed) [
  | err e ↦ (record s { live = s.live - 1 }, err e)
  | ok t ↦ elim (sys.cfsetospeed) [
    | err e ↦ (record s { live = s.live - 1 }, err e)
    | ok t' ↦ elim (sys.tcsetattr) [
      | err e ↦ (record s { live = s.live - 1 }, err e)
      | ok t'' ↦ (record s { fd = some fd; applied = some (raw a speed) }, ok tt)
    ]
  ]
]

pub opened_port : System → Speed → Reply ℕ → State → State × Rc
unfolding configure
opened_port sys speed (err e) s = (s, err e)
opened_port sys speed (ok fd) s =
    configure sys speed fd sys.tcgetattr (record s { live = s.live + 1 })

-- `none` is a null configuration; a device path that is null or empty is refused.
abbrev pub no_path : Option Text → Bool
no_path none = true
no_path (some []) = true
no_path (some (c ∷ cs)) = false

pub termios_serial_open_device : System → Option Config → State → State × Rc
unfolding opened_port baud_to_speed
termios_serial_open_device sys none s = (s, err einval)
termios_serial_open_device sys (some config) s =
    if no_path config.device
    then (s, err einval)
    else if not (is_none s.fd)
    then (s, err ebusy)
    else elim (baud_to_speed config.baud) [
      | err e ↦ (s, err e)
      | ok speed ↦ opened_port sys speed sys.opens s
    ]

-- The descriptor is gone even if `close` reports an error.
pub termios_serial_close_device : System → State → State × Rc
termios_serial_close_device sys s = elim (s.fd) [
  | none ↦ (s, ok tt)
  | some fd ↦ (record s { fd = none; live = s.live - 1 }, sys.closes)
]

pub termios_serial_fd : State → Option ℕ
termios_serial_fd s = s.fd

-- termios_serial_create, with the blocks of the device as in Hal; a null id is `none`.
pub termios_serial_create : Bool → Option Text → Allocs → ℕ → ℕ × Reply (Device State)
termios_serial_create out none a live = (live, err einval)
termios_serial_create out (some id) a live =
    if not out || not (str_eq id (codes "serial"))
    then (live, err einval)
    else open_device api_version_1_0 created out a live

-- The blocks and the descriptors that are left, and the reply.
pub termios_serial_destroy : System → Option (Device State) → ℕ → ℕ × ℕ × Rc
unfolding termios_serial_close_device
termios_serial_destroy sys none live = (live, 0, err einval)
termios_serial_destroy sys (some d) live =
    (live - 1 - 1, (termios_serial_close_device sys d.priv).0.live, ok tt)
