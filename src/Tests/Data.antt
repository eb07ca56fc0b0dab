-- ===== src/Tests/Data.antt =====
-- Concrete inputs: a clock, keys, messages and bytes.
use phev2mqtt.Base.{ℕ, ◌+◌, ◌*◌, inr, List, [], ◌∷◌, arith}
use phev2mqtt.Protocol.SecurityKey.{SecurityKey, security_key_accepted}
use phev2mqtt.Protocol.SecurityKey.Schedule.{up_from, identity-IsKeyMap}
use phev2mqtt.Protocol.SecurityKey.Counters.{IsValid}
use phev2mqtt.Protocol.Types.{PhevMessage, empty_message}
use phev2mqtt.Protocol.Register.Plain.{Clock}

-- A clock that counts seconds in days of one month.
abbrev pub test_clock : Clock
test_clock = record {
  date = λ y m d hour minute second. second + 60 * minute;
  year = λ t. 2024;
  month = λ t. 5;
  day = λ t. 1;
  hour = λ t. 0;
  minute = λ t. 0;
  second = λ t. t;
  weekday = λ t. 3;
  show = λ t. 0x74 ∷ [];
}

-- A key that is in use: the identity as the key map, the last send index, and a receive index.
abbrev pub keyed : SecurityKey
keyed = record {
  state = security_key_accepted;
  proposed_key = [];
  security_key = 0x5a;
  key_map = up_from 256 0;
  s_num = 255;
  r_num = 3;
}

pub keyed-IsValid : IsValid keyed
keyed-IsValid = record {
  mapped = inr identity-IsKeyMap;
  send_byte = omega arith;
  receive_byte = omega arith;
}

-- A ping, and a command that sets register 0xa.
abbrev pub ping : PhevMessage
ping = record empty_message { typ = 0xf3; register = 0xa; data_bytes = 0x0 ∷ [] }

abbrev pub lights_on : PhevMessage
lights_on = record empty_message { typ = 0xf6; register = 0xa; data_bytes = 0x1 ∷ [] }

-- The acknowledgement of a register.
abbrev pub acknowledgement : PhevMessage
acknowledgement = record empty_message {
  typ = 0x6f;
  ack = 1;
  register = 0xa;
  data_bytes = 0x0 ∷ [];
}

-- The frame of `ping`, and that of `acknowledgement`.
abbrev pub ping_frame : List ℕ
ping_frame = 0xf3 ∷ 4 ∷ 0 ∷ 0xa ∷ 0 ∷ 1 ∷ []

abbrev pub ack_frame : List ℕ
ack_frame = 0x6f ∷ 4 ∷ 1 ∷ 0xa ∷ 0 ∷ 0x7e ∷ []

-- Bytes of no frame, in which the scan skips.
abbrev pub noise : List ℕ
noise = 0x11 ∷ 0x22 ∷ 0x33 ∷ 0x44 ∷ 0x55 ∷ 0x66 ∷ 0x77 ∷ 0x88 ∷ 0x99 ∷ []

abbrev pub start_packet : List ℕ
start_packet = 0x5e ∷ 12 ∷ 0 ∷ 1 ∷ 8 ∷ 0 ∷ 0 ∷ 8 ∷ 0 ∷ 0 ∷ 0 ∷ 8 ∷ 1 ∷ 0x84 ∷ []
