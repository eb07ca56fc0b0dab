-- ===== src/Emulator/Car.antt =====
-- Car of emulator/car.go: its registers and settings, NewCar with the default settings, and
-- SetRegister, on one connection as a function of the events that its `select` sees.
pub mod Laws
use phev2mqtt.Base.{
  hex_decode, ℕ, ◌+◌, ◌*◌, ◌-◌, false, List, [], ◌∷◌, leb, ◌==◌, ◌&&◌, if◌then◌else◌, codes, Option,
  none, some, Outcome, ok, err, panic, ◌>>=◌,
}
use phev2mqtt.Protocol.Constants.{cmd_in_bad_encoding, cmd_in_resp, cmd_out_send, ack_flag}
use phev2mqtt.Protocol.Types.{Register, PhevMessage, new_message}
use phev2mqtt.Protocol.Settings.{Settings, from_register}
use phev2mqtt.Client.SetRegister.{
  Event, SetResult, crashed, timer, closed, message, SetRun, succeeded, timed_out, listener_closed,
  pending,
}

pub record Car : Type 0 where
  pub registers : List Register
  pub settings : Settings
  pub address : List ℕ

abbrev pub default_settings : List (List ℕ)
default_settings =
    codes "023a003b003c0000"
    ∷ codes "02e201e301640e00"
    ∷ codes "02e501a61ea71e00"
    ∷ codes "026b0e2c002d0000"
    ∷ codes "022e006f00300000"
    ∷ codes "0231007206730600"
    ∷ codes "02b4003506360e00"
    ∷ codes "02370e3806390000"
    ∷ codes "023a003b003c0000"
    ∷ codes "024106420603fe00"
    ∷ codes "02c41e850e861e00"
    ∷ codes "02473ec81e093f00"
    ∷ codes "02ca018bfe4c4300"
    ∷ codes "024d1e0e064f0600"
    ∷ codes "0210121106d20100"
    ∷ codes "02d301d401551e00"
    ∷ codes "02161ed701d80100"
    ∷ codes "0219061a23db0100"
    ∷ codes "02dc015d065e0600"
    ∷ codes "021f00600ee10100"
    ∷ codes "02e801e9016a3e00"
    ∷ []

-- A decoding error panics.
must_generic : ℕ → Option (List ℕ) → Outcome Register
must_generic register none = panic
must_generic register (some v) = ok (Register.generic (record { reg = register; value = v }))

unfoldable pub must_register : ℕ → List ℕ → Outcome Register
unfolding hex_decode must_generic
must_register register value = must_generic register (hex_decode value)

-- The elements of defaultRegisters.
abbrev default_elements : List (Outcome Register)
default_elements =
    must_register 0x06 (codes "002D2D2D2D2D2D2D2D2D2D2D2D2D2D2D2D2D0100")
    ∷ must_register 0x7 (codes "00")
    ∷ must_register 0x0b (codes "00")
    ∷ must_register 0x0c (codes "01")
    ∷ must_register 0x0d (codes "04")
    ∷ must_register 0x0f (codes "00")
    ∷ must_register 0x10 (codes "000000")
    ∷ must_register 0x11 (codes "00")
    ∷ must_register 0x12 (codes "160a0712391805")
    ∷ must_register 0x13 (codes "00")
    ∷ must_register 0x14 (codes "00000000000000")
    ∷ must_register 0x15 (codes "032E2E2E2E2E2E2E2E2E2E2E2E2E2E2E2E2E0100")
    ∷ must_register 0x17 (codes "01")
    ∷ must_register 0x1a (codes "0300000000")
    ∷ must_register 0x1b (codes "11")
    ∷ must_register 0x1c (codes "03")
    ∷ must_register 0x1d (codes "06000000")
    ∷ must_register 0x1e (codes "0000")
    ∷ must_register 0x1f (codes "00ffff")
    ∷ must_register 0x21 (codes "00")
    ∷ must_register 0x22 (codes "000000000000")
    ∷ must_register 0x23 (codes "0000000202")
    ∷ must_register 0x24 (codes "02000000000000000000")
    ∷ must_register 0x25 (codes "0e00ff")
    ∷ must_register 0x26 (codes "00")
    ∷ must_register 0x27 (codes "00")
    ∷ must_register 0x28 (codes "00")
    ∷ must_register 0x29 (codes "000200")
    ∷ must_register 0x2C (codes "00")
    ∷ must_register 0xC0 (codes "30303532303232303030110000")
    ∷ must_register 0x01 (codes "0100")
    ∷ must_register 0x02 (codes "0100")
    ∷ must_register 0x3 (codes "011563")
    ∷ must_register 0x04 (codes "7d38b00183bd00017c70380100ffff0300ffff03")
    ∷ must_register 0x5 (codes "0100fe0700fe0700fe0700fe0700fe07")
    ∷ must_register 0x06 (codes "002D2D2D2D2D2D2D2D2D2D2D2D2D2D2D2D2D0100")
    ∷ must_register 0x15 (codes "032E2E2E2E2E2E2E2E2E2E2E2E2E2E2E2E2E0100")
    ∷ must_register 0x2A (codes "00")
    ∷ must_register 0x2C (codes "00")
    ∷ must_register 0x3 (codes "011563")
    ∷ ok (Register.battery_warning (record { warning = 0; raw = [] }))
    ∷ ok (Register.wifi_ssid (record { ssid = codes "REMOTEc0ffee"; raw = [] }))
    ∷ []

all_ok : List (Outcome Register) → Outcome (List Register)
all_ok [] = ok []
all_ok (r ∷ rs) = do r' ← r; rs' ← all_ok rs; ok (r' ∷ rs')

-- The initial value of the variable, which a panic of mustRegister would prevent.
unfoldable pub default_registers : Outcome (List Register)
unfolding must_register all_ok
default_registers = all_ok default_elements

-- A decoding error and an error of FromRegister both end NewCar.
load_one : Option (List ℕ) → Settings → Outcome Settings
load_one none s = err
load_one (some reg) s = from_register s reg

load_settings : List (List ℕ) → Settings → Outcome Settings
unfolding load_one
load_settings [] s = ok s
load_settings (t ∷ ts) s = do s' ← load_one (hex_decode t) s; load_settings ts s'

unfoldable pub address_option : List ℕ → Car → Car
address_option address c = record c { address = address }

-- Options run in order over the car.
apply_options : List (Car → Car) → Car → Car
apply_options [] c = c
apply_options (o ∷ os) c = apply_options os (o c)

unfoldable pub new_car : List (Car → Car) → Outcome Car
unfolding load_settings default_registers apply_options
new_car opts = do
  registers ← default_registers
  let c =
      apply_options opts
        (record { registers = registers; settings = record { settings = [] }; address = [] })
  settings ← load_settings default_settings c.settings
  ok (record c { settings = settings })

-- SetRegister on one connection after the notification was sent: it is sent again on each
-- CmdInBadEncoding, all under the one timer.
await_ack : ℕ → PhevMessage → List Event → SetRun
await_ack register m [] = record { sent = []; result = pending }
await_ack register m (timer ∷ es) = record { sent = []; result = timed_out }
await_ack register m (closed ∷ es) = record { sent = []; result = listener_closed }
await_ack register m (message r ∷ es) =
    let rest = await_ack register m es in
    if r.typ == cmd_in_bad_encoding
    then record { sent = m ∷ rest.sent; result = rest.result }
    else if r.typ == cmd_out_send && r.ack == ack_flag && r.register == register
    then record { sent = []; result = succeeded }
    else rest

unfoldable pub set_register : ℕ → List ℕ → List Event → SetRun
unfolding await_ack new_message
set_register register value es =
    let m = new_message cmd_in_resp register false value in
    let rest = await_ack register m es in record { sent = m ∷ rest.sent; result = rest.result }

-- A goroutine of SetRegister: the index of the connection that its variable `conn` names when it
-- runs, which the loop may have moved on, and the events that it sees.
pub record Goroutine : Type 0 where
  pub connection : ℕ
  pub events : List Event

-- Wait waits for all goroutines, and returns the first error.
join : SetResult → SetResult → SetResult
join pending r = pending
join succeeded r = r
join timed_out r = elim r [ pending ↦ pending | _ ↦ timed_out ]
join listener_closed r = elim r [ pending ↦ pending | _ ↦ listener_closed ]
join crashed r = elim r [ pending ↦ pending | _ ↦ crashed ]

-- SetRegister on all connections: what each connection is sent, and how Wait returns. The
-- goroutines stand in the order in which they end.
unfoldable pub set_register_all :
    ℕ → List ℕ → List Goroutine → List (ℕ × List PhevMessage) × SetResult
unfolding set_register join
set_register_all register value [] = ([], succeeded)
set_register_all register value (g ∷ gs) =
    let run = set_register register value g.events in
    let rest = set_register_all register value gs in
    ((g.connection, run.sent) ∷ rest.0, join run.result rest.1)
