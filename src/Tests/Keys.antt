-- ===== src/Tests/Keys.antt =====
-- Session keys at concrete inputs.
use mathlib.Core.List.{Perm}
use phev2mqtt.Base.{false, ℕ, ◌≡◌, refl, List, [], ◌∷◌, ◌++◌, arith, ok, Option}
use phev2mqtt.Protocol.SecurityKey.{SecurityKey, new_key, update}
use phev2mqtt.Protocol.SecurityKey.Schedule.{
  IsRekeyed, up_from, identity-IsKeyMap, update-IsRekeyed,
}
use phev2mqtt.Protocol.SecurityKey.Counters.{s_keys, s_keys_cycle}
use phev2mqtt.Protocol.Types.{PhevMessage, empty_message}
use phev2mqtt.Emulator.Connection.{Connection, con_tcp_open, rekey}
use phev2mqtt.Emulator.Handshake.{Agree, rekey-Agree}
use phev2mqtt.Tests.Data.{test_clock, keyed, start_packet}

update-IsRekeyed_example :
    (s' : SecurityKey) × (update keyed start_packet ≡ ok s') × IsRekeyed keyed start_packet s'
update-IsRekeyed_example = update-IsRekeyed keyed start_packet (omega arith)

s_keys_cycle_example : (ks : List ℕ) × (s_keys 256 keyed ≡ ok (ks, keyed)) × Perm ks (up_from 256 0)
s_keys_cycle_example = s_keys_cycle keyed identity-IsKeyMap (omega arith)

abbrev draw : List ℕ → List ℕ
draw _ = 8 ∷ 0 ∷ 0 ∷ 8 ∷ 0 ∷ 0 ∷ 0 ∷ 8 ∷ []

abbrev fresh_connection : Connection
fresh_connection = record {
  car = record { registers = []; settings = record { settings = [] }; address = [] };
  key = new_key;
  sent = [];
  state = con_tcp_open;
  register_index = Option.some 0;
  settings_sender = Option.none;
  ping_count = 10;
  listeners = [];
  next_pointer = 0;
  conn_closed = false;
}

rekey-Agree_example :
    (before : List PhevMessage) × (m : PhevMessage) × ((rekey draw fresh_connection).sent
      ≡ before ++ (m ∷ []))
    × Agree test_clock empty_message (rekey draw fresh_connection).key keyed m
rekey-Agree_example = rekey-Agree test_clock draw fresh_connection empty_message keyed refl
