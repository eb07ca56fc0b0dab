-- ===== src/Command/Decode.antt =====
-- The decoding of cmd/hex.go, cmd/file.go and cmd/pcap.go: what they log of the messages found,
-- line by line. A line of pcap is the ShortForm of its message.
pub mod Laws
use phev2mqtt.Base.{
  ℕ, Bool, true, false, not, List, [], ◌∷◌, ◌++◌, ◌==◌, ◌&&◌, ◌||◌, if◌then◌else◌, same_text,
  hex_encode, hex_decode, Option, none, some, Outcome, ok, err, panic, ◌>>=◌,
}
use phev2mqtt.Protocol.SecurityKey.{SecurityKey, new_key}
use phev2mqtt.Protocol.Constants.{cmd_in_resp, cmd_out_ping_req, cmd_in_ping_resp}
use phev2mqtt.Protocol.Types.{Register, PhevMessage}
use phev2mqtt.Protocol.Register.{string}
use phev2mqtt.Protocol.Register.Plain.{Clock}
use phev2mqtt.Protocol.Message.{short_form}
use phev2mqtt.Protocol.Stream.{Scan, new_from_bytes}
use phev2mqtt.Command.Watch.{last_text}

-- The lines, and the key or the map that goes on to the next bytes.
abbrev pub Lines : Type 0 → Type 0
Lines A = List (List ℕ) × A

-- The lines of all messages.
unfoldable pub short_forms : (clock : Clock) → List PhevMessage → Outcome (List (List ℕ))
short_forms clock [] = ok []
short_forms clock (m ∷ ms) = do
  line ← short_form clock m
  lines ← short_forms clock ms
  ok (line ∷ lines)

abbrev pub is_ping : PhevMessage → Bool
is_ping m = (m.typ == cmd_out_ping_req) || (m.typ == cmd_in_ping_resp)

unfoldable pub without_newlines : List ℕ → List ℕ
without_newlines [] = []
without_newlines (b ∷ bs) = let rest = without_newlines bs in if b == 0xa then rest else b ∷ rest

module _ (clock : Clock) where
  after_decode : SecurityKey → Option (Outcome Scan) → Outcome (Lines SecurityKey)
  unfolding short_forms
  after_decode key none = ok ([], key)
  after_decode key (some (ok s)) = do lines ← short_forms clock s.msgs; ok (lines, s.key)
  after_decode key (some err) = err
  after_decode key (some panic) = panic

  -- The scan never runs out of rounds.
  unfoldable pub decode_bytes : List ℕ → SecurityKey → Outcome (Lines SecurityKey)
  unfolding after_decode
  decode_bytes bytes key = after_decode key (new_from_bytes clock bytes key)

  decode_arg : Option (List ℕ) → SecurityKey → Outcome (Lines SecurityKey)
  unfolding decode_bytes
  decode_arg none key = ok ([], key)
  decode_arg (some bytes) key = decode_bytes bytes key

  hex_args : List (List ℕ) → SecurityKey → Outcome (Lines SecurityKey)
  unfolding decode_arg
  hex_args [] key = ok ([], key)
  hex_args (arg ∷ args) key = do
    (lines, key') ← decode_arg (hex_decode arg) key
    (more, key'') ← hex_args args key'
    ok (lines ++ more, key'')

  -- The command hex: the arguments share one key.
  unfoldable pub run_hex : List (List ℕ) → Outcome (Lines SecurityKey)
  unfolding hex_args
  run_hex args = hex_args args new_key

  file_text : Option (List ℕ) → Outcome (Lines SecurityKey)
  unfolding decode_bytes
  file_text none = panic
  file_text (some bytes) = decode_bytes bytes new_key

  -- The command file, on what one Read of at most 100000 bytes returns; an error of Open or of Read,
  -- which is none, and one of the decoding panic.
  unfoldable pub run_file : Option (List ℕ) → Outcome (Lines SecurityKey)
  unfolding file_text
  run_file none = panic
  run_file (some contents) = file_text (hex_decode (without_newlines contents))

  update_text : Option Register → Outcome (List ℕ)
  update_text none = ok []
  update_text (some r) = string clock r

  handle_registers : PhevMessage → List (ℕ × List ℕ) → Outcome (List (ℕ × List ℕ))
  unfolding update_text last_text
  handle_registers m regs =
      let text = hex_encode m.data_bytes in
      if m.typ == cmd_in_resp && not (same_text (last_text m.register regs) text)
      then (do _ ← update_text m.reg; ok ((m.register, text) ∷ regs))
      else ok regs

  -- The loop of processPayload. Both of its returns leave the rest of the payload.
  process_messages :
      (registers pings : Bool)
      → List PhevMessage
      → List (ℕ × List ℕ)
      → Outcome (Lines (List (ℕ × List ℕ)))
  unfolding handle_registers
  process_messages registers pings [] regs = ok ([], regs)
  process_messages registers pings (m ∷ ms) regs =
      let rest = process_messages registers pings ms regs in
      if registers
      then (do regs' ← handle_registers m regs; ok ([], regs'))
      else if not pings && is_ping m
      then ok ([], regs)
      else (do line ← short_form clock m; (lines, regs') ← rest; ok (line ∷ lines, regs'))

  after_payload :
      (registers pings : Bool)
      → SecurityKey
      → List (ℕ × List ℕ)
      → Option (Outcome Scan)
      → Outcome (Lines (SecurityKey × List (ℕ × List ℕ)))
  unfolding process_messages
  after_payload registers pings key regs none = ok ([], (key, regs))
  after_payload registers pings key regs (some (ok s)) = do
    (lines, regs') ← process_messages registers pings s.msgs regs
    ok (lines, (s.key, regs'))
  after_payload registers pings key regs (some err) = err
  after_payload registers pings key regs (some panic) = panic

  unfoldable pub process_payload :
      (registers pings : Bool)
      → List ℕ
      → SecurityKey
      → List (ℕ × List ℕ)
      → Outcome (Lines (SecurityKey × List (ℕ × List ℕ)))
  unfolding after_payload
  process_payload registers pings bytes key regs =
      after_payload registers pings key regs (new_from_bytes clock bytes key)
