-- ===== src/Command/Register.antt =====
-- runRegister of cmd/register.go: the goroutine that reads Recv until the VIN is known, and the
-- request to register. The channel vinCh has no buffer, and the main goroutine takes one VIN from
-- it: the goroutine stays `stuck` on a second one.
pub mod Laws
use phev2mqtt.Base.{
  ℕ, Bool, true, false, List, [], ◌∷◌, ◌++◌, ◌==◌, if◌then◌else◌, Option, none, some,
}
use phev2mqtt.Protocol.Constants.{cmd_in_resp, cmd_out_send, request_flag, ack_flag}
use phev2mqtt.Protocol.Types.{Register, PhevMessage, empty_message}
use phev2mqtt.Client.SetRegister.{
  Event, SetResult, succeeded, timed_out, listener_closed, crashed, pending, SetRun, set_register,
}

pub record Registration : Type 0 where
  pub sent : List PhevMessage
  pub vin : Option (List ℕ)
  pub stuck : Bool

abbrev pub vin_of : Option Register → Option (List ℕ)
vin_of none = none
vin_of (some r) = elim r [ Register.vin v ↦ some v.vin | _ ↦ none ]

abbrev pub ack_of : PhevMessage → PhevMessage
ack_of msg = record empty_message {
  typ = cmd_out_send;
  register = msg.register;
  ack = ack_flag;
  xor = msg.xor;
  data_bytes = 0x0 ∷ [];
}

abbrev pub with_ack : PhevMessage → Registration → Registration
with_ack msg s = record s { sent = s.sent ++ (ack_of msg ∷ []) }

-- The VIN of the message, and the one that was taken before.
offer_vin : Option (List ℕ) → Option (List ℕ) → PhevMessage → Registration → Registration
offer_vin none taken msg s = with_ack msg s
offer_vin (some vin) none msg s = with_ack msg (record s { vin = some vin })
offer_vin (some vin) (some taken) msg s = record s { stuck = true }

read_message : PhevMessage → Registration → Registration
unfolding offer_vin
read_message msg s =
    if msg.typ == cmd_in_resp
    then (if msg.ack == request_flag then offer_vin (vin_of msg.reg) s.vin msg s else s)
    else s

-- The goroutine on what comes on Recv; a goroutine that is stuck reads no more.
unfoldable pub read_messages : List PhevMessage → Registration → Registration
unfolding read_message
read_messages [] s = s
read_messages (msg ∷ msgs) s =
    let rest = read_messages msgs (read_message msg s) in if s.stuck then s else rest

-- 0x10 registers, 0x15 unregisters.
abbrev pub register_of : Bool → ℕ
register_of unregister = if unregister then 0x15 else 0x10

pub data RegisterEnd : Type 0 where
  no_vin failed registered stopped waiting : RegisterEnd

end_of : SetResult → RegisterEnd
end_of succeeded = registered
end_of timed_out = failed
end_of listener_closed = failed
end_of crashed = stopped
end_of pending = waiting

with_vin : Option (List ℕ) → Bool → List Event → List PhevMessage × RegisterEnd
unfolding end_of
with_vin none unregister es = ([], no_vin)
with_vin (some vin) unregister es =
    let run = set_register (register_of unregister) (0x1 ∷ []) es in (run.sent, end_of run.result)

-- The main goroutine once the first VIN has come, or its 30 seconds are over: what it puts on Send,
-- and how it ends.
unfoldable pub run_register :
    (unregister : Bool) → List Event → Registration → List PhevMessage × RegisterEnd
unfolding with_vin
run_register unregister es s = with_vin s.vin unregister es
