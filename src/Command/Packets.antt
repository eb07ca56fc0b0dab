-- ===== src/Command/Packets.antt =====
-- The packets of cmd/pcap.go: decodePacket, and the loop over what package gopacket yields. What
-- that package says of a packet is the record Packet. The replay with the latency of the capture,
-- which waits only, is left out.
use phev2mqtt.Base.{
  ℕ, Bool, false, List, [], ◌∷◌, ◌++◌, ◌==◌, ◌&&◌, if◌then◌else◌, codes, same_text, Option, none,
  some, Outcome, ok, ◌>>=◌,
}
use phev2mqtt.Protocol.SecurityKey.{SecurityKey, new_key}
use phev2mqtt.Protocol.Register.Plain.{Clock}
use phev2mqtt.Command.Decode.{Lines, process_payload}

-- The TCP layer of a packet.
pub record Tcp : Type 0 where
  pub src_port : ℕ
  pub dst_port : ℕ
  pub syn : Bool
  pub ack : Bool
  pub fin : Bool
  pub rst : Bool

pub record Packet : Type 0 where
  pub tcp : Option Tcp
  pub payload : Option (List ℕ)
  pub error : Option (List ℕ)

pub data Dir : Type 0 where
  unknown_dir in_dir out_dir : Dir

unfoldable pub dir_of : Option Tcp → Dir
dir_of none = unknown_dir
dir_of (some t) =
    if t.src_port == 8080 then in_dir else if t.dst_port == 8080 then out_dir else unknown_dir

unfoldable pub tcp_lines : Option Tcp → List (List ℕ)
tcp_lines none = []
tcp_lines (some t) =
    (if t.syn && t.ack then codes "TCP-SYN-ACK" ∷ [] else [])
    ++ ((if t.fin then codes "TCP-FIN" ∷ [] else [])
        ++ (if t.rst then codes "TCP-RST" ∷ [] else []))

-- The flag `direction` leaves this direction out.
unfoldable pub hides : List ℕ → Dir → Bool
hides direction in_dir = same_text direction (codes "out")
hides direction out_dir = same_text direction (codes "in")
hides direction unknown_dir = false

error_lines : Option (List ℕ) → List (List ℕ)
error_lines none = []
error_lines (some text) = (codes "error decoding packet: " ++ text) ∷ []

-- The key, and the register texts that handleRegisters keeps.
abbrev pub Shown : Type 0
Shown = SecurityKey × List (ℕ × List ℕ)

module _ (clock : Clock) (registers pings : Bool) (direction : List ℕ) where
  payload_lines : Option (List ℕ) → Shown → Outcome (Lines Shown)
  payload_lines none s = ok ([], s)
  payload_lines (some bytes) s = process_payload clock registers pings bytes s.0 s.1

  unfoldable pub decode_packet : Packet → Shown → Outcome (Lines Shown)
  unfolding dir_of tcp_lines hides payload_lines error_lines
  decode_packet p s = if hides direction (dir_of p.tcp) then ok (tcp_lines p.tcp, s) else (do
    (lines, s') ← payload_lines p.payload s
    ok (tcp_lines p.tcp ++ (lines ++ error_lines p.error), s'))

  decode_packets : List Packet → Shown → Outcome (Lines Shown)
  unfolding decode_packet
  decode_packets [] s = ok ([], s)
  decode_packets (p ∷ ps) s = do
    (lines, s') ← decode_packet p s
    (more, s'') ← decode_packets ps s'
    ok (lines ++ more, s'')

  -- The loop of the command, which starts with a new key.
  unfoldable pub run_pcap : List Packet → Outcome (Lines Shown)
  unfolding decode_packets
  run_pcap ps = decode_packets ps (new_key, [])
