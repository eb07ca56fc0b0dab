-- ===== src/Emulator/Connection.antt =====
-- Connection of emulator/connection.go and emulator/state_machine.go: its state and the handling of
-- one message in the loop of `manage`. `sent` holds all that was put on the channel Send; a
-- register index of -1 is `none`; the settings sender is the list of messages it has yet to yield. A
-- listener pointer is a number, `next_pointer` is not in use yet, and `conn_closed` says whether the
-- TCP connection was closed.
pub mod Laws
pub mod Schedule
pub mod Loops
pub mod Kept
pub mod Manage
pub mod Threads
use phev2mqtt.Base.{
  ℕ, ◌+◌, Bool, true, false, List, [], ◌∷◌, ◌++◌, leb, ◌==◌, ◌&&◌, if◌then◌else◌, length, get_elem?,
  Option, none, some, Outcome, ok, in_range, ◌>>=◌,
}
use phev2mqtt.Protocol.SecurityKey.{
  SecurityKey, SecurityState, security_empty, security_key_proposed, security_key_accepted, new_key,
  generate_proposal, accept_proposal,
}
use phev2mqtt.Protocol.Settings.{new_sender, start}
use phev2mqtt.Protocol.Constants.{
  cmd_out_ping_req, cmd_out_my18_start_resp, cmd_out_send, cmd_in_resp, cmd_in_my18_start_req,
  ack_flag, request_flag, time_register, battery_level_register,
}
use phev2mqtt.Protocol.Types.{Register, PhevMessage, new_message, new_ping_response_message}
use phev2mqtt.Protocol.Register.{register_number, encode}
use phev2mqtt.Protocol.Register.Plain.{Clock}
use phev2mqtt.Client.Listener.{Listener}
use phev2mqtt.Emulator.Car.{Car}

pub data ConnState : Type 0 where
  con_closed con_tcp_open con_sec_init con_register_start con_established : ConnState

pub record Connection : Type 0 where
  pub car : Car
  pub key : SecurityKey
  pub sent : List PhevMessage
  pub state : ConnState
  pub register_index : Option ℕ
  pub settings_sender : Option (List PhevMessage)
  pub ping_count : ℕ
  pub listeners : List (ℕ × Listener)
  pub next_pointer : ℕ
  pub conn_closed : Bool

unfoldable pub new_connection : Car → Connection
new_connection car = record {
  car = car;
  key = new_key;
  sent = [];
  state = con_closed;
  register_index = some 0;
  settings_sender = none;
  ping_count = 0;
  listeners = [];
  next_pointer = 0;
  conn_closed = false;
}

abbrev pub put : PhevMessage → Connection → Connection
put m s = record s { sent = s.sent ++ (m ∷ []) }

abbrev pub in_register_start : ConnState → Bool
in_register_start con_register_start = true
in_register_start con_closed = false
in_register_start con_tcp_open = false
in_register_start con_sec_init = false
in_register_start con_established = false

abbrev is_empty : SecurityState → Bool
is_empty security_empty = true
is_empty security_key_proposed = false
is_empty security_key_accepted = false

abbrev is_proposed : SecurityState → Bool
is_proposed security_empty = false
is_proposed security_key_proposed = true
is_proposed security_key_accepted = false

-- `rand_read` is crypto/rand.Read. The proposal is sent with a byte 1 behind it.
unfoldable pub rekey : (List ℕ → List ℕ) → Connection → Connection
unfolding generate_proposal new_message
rekey rand_read s =
    let s1 =
      if in_register_start s.state
      then put (new_message cmd_in_my18_start_req 0x1 true (0x0 ∷ [])) s
      else s in
    let key = generate_proposal rand_read s1.key in
    let s2 =
      put (new_message cmd_in_my18_start_req 0x1 false (key.proposed_key ++ (0x1 ∷ []))) s1 in
    record s2 { key = record key { state = security_key_proposed } }

unfoldable pub find_register : ℕ → List Register → Option Register
find_register r [] = none
find_register r (reg ∷ regs) = if register_number reg == r then some reg else find_register r regs

unfoldable pub handle_set_register : PhevMessage → Connection → Connection
unfolding new_message
handle_set_register msg s =
    let s1 = put (new_message cmd_in_resp msg.register true (0x0 ∷ [])) s in
    if msg.register == 0x05
    then put (new_message cmd_in_resp battery_level_register false (0x50 ∷ 0x00 ∷ 0x00 ∷ 0x00 ∷ []))
        (put (new_message cmd_in_resp time_register false msg.data_bytes) s1)
    else s1

module _ (clock : Clock) where
  -- The part of sendNextRegister behind its two early returns: the register at the index is sent,
  -- and after the last one the settings sender is started.
  send_register : ℕ → Connection → Outcome Connection
  send_register i s = do
    reg ← in_range (get_elem? s.car.registers i)
    msg ← encode clock reg
    let s1 = put (record msg { typ = cmd_in_resp; ack = request_flag }) s
    ok (
        if leb (length s.car.registers) (i + 1)
        then record s1 {
          register_index = none;
          settings_sender = some (start (new_sender s.car.settings)).c;
        }
        else record s1 { register_index = some (i + 1) })

  at_index : Option ℕ → Connection → Outcome Connection
  unfolding send_register
  at_index none s = ok s
  at_index (some i) s = send_register i s

  from_sender : Option (List PhevMessage) → Connection → Outcome Connection
  unfolding at_index start new_sender
  from_sender (some (m ∷ ms)) s = ok (put m (record s { settings_sender = some ms }))
  from_sender (some []) s = ok (record s { settings_sender = none })
  from_sender none s = at_index s.register_index s

  unfoldable pub send_next_register : Connection → Outcome Connection
  unfolding from_sender
  send_next_register s = from_sender s.settings_sender s

  -- One message in the loop of `manage`.
  unfoldable pub manage : (List ℕ → List ℕ) → PhevMessage → Connection → Outcome Connection
  unfolding rekey send_next_register handle_set_register new_ping_response_message
  manage rand_read msg s =
      if msg.typ == cmd_out_ping_req
      then (let s1 =
            put (new_ping_response_message msg.register)
              (record s { ping_count = s.ping_count + 1 }) in
          ok (
            if is_empty s1.key.state && s1.ping_count == 10
            then rekey rand_read (record s1 { state = con_sec_init })
            else s1))
      else if msg.typ == cmd_out_my18_start_resp
      then (do
        flag ← in_range (get_elem? msg.original 2)
        if flag == 0x0
            then ok (rekey rand_read s)
            else if is_proposed s.key.state
            then (do key ← accept_proposal s.key; send_next_register (record s { key = key }))
            else ok s)
      else if msg.typ == cmd_out_send
      then (do
        s1 ← (if msg.ack == ack_flag then send_next_register s else ok s)
        ok (if msg.ack == request_flag then handle_set_register msg s1 else s1))
      else ok s
