-- ===== src/Tests/Gateways.antt =====
-- The incoming topics of the bridge at concrete inputs.
use phev2mqtt.Base.{
  ℕ, ◌≡◌, ◌<◌, refl, true, false, List, [], ◌∷◌, ◌++◌, arith, map, codes, same_text, count, some,
  leb, ◌&&◌, ◌+◌, if◌then◌else◌, hex_byte, hex_encode,
}
use phev2mqtt.Protocol.Constants.{cmd_in_resp, cmd_in_bad_encoding, ack_flag}
use phev2mqtt.Protocol.Types.{PhevMessage, empty_message}
use phev2mqtt.Client.State.{Client, my18, new}
use phev2mqtt.Client.SetRegister.{Event, message, set_message}
use phev2mqtt.Client.State.Laws.{Fresh}
use phev2mqtt.Client.Loops.Laws.{IsAnswered}
use phev2mqtt.Mqtt.Incoming.{Gateway, returned, handle_incoming}
use phev2mqtt.Mqtt.Incoming.Frame.{handle_incoming-Keeps}
use phev2mqtt.Mqtt.Incoming.Kept.{Keeps}
use phev2mqtt.Mqtt.Incoming.Registers.{
  register_topic, retries, handle_incoming-slash, handle_incoming-register,
}
use phev2mqtt.Tests.Bridges.{fresh_bridge}

-- The ASCII part of strings.ToLower.
abbrev pub lower : List ℕ → List ℕ
lower [] = []
lower (c ∷ cs) = (if leb b'A' c && leb c b'Z' then c + 32 else c) ∷ lower cs

abbrev pub client18 : Client
client18 = record (new []) { model_year = my18 }

abbrev pub gateway : Gateway
gateway = record { bridge = fresh_bridge; enabled = true; announced = []; phev = some client18 }

abbrev home_gateway : Gateway
home_gateway = record gateway { bridge = record fresh_bridge { prefix = codes "home/phev" } }

abbrev lights_ack : PhevMessage
lights_ack = record empty_message { typ = cmd_in_resp; ack = ack_flag; register = 0xa }

abbrev bad_encoding : PhevMessage
bad_encoding = record empty_message { typ = cmd_in_bad_encoding; data_bytes = 0x5a ∷ [] }

-- One CmdInBadEncoding, and the acknowledgement of the retry.
abbrev lights_replies : List Event
lights_replies = message bad_encoding ∷ message lights_ack ∷ []

lights_replies-IsAnswered : IsAnswered 0xa lights_replies
lights_replies-IsAnswered =
    IsAnswered.later bad_encoding (message lights_ack ∷ []) (λ bad. omega arith)
      (IsAnswered.answer lights_ack [] (refl, refl, refl))

client18-Fresh : Fresh client18.next_pointer client18.listeners
unfolding new
client18-Fresh = tt

home_slash : 0 < count b'/' home_gateway.bridge.prefix
unfolding count
home_slash = omega arith

fresh_slash : count b'/' gateway.bridge.prefix ≡ 0
unfolding count
fresh_slash = refl

handle_incoming-slash_example :
    handle_incoming lower (register_topic home_gateway (codes "0a")) (codes "02") [] home_gateway
    ≡ returned home_gateway
handle_incoming-slash_example =
    handle_incoming-slash lower (codes "0a") (codes "02") [] home_gateway home_slash

handle_incoming-register_example :
    handle_incoming lower
      (register_topic gateway (hex_byte 0xa))
      (hex_encode (0x2 ∷ []))
      (lights_replies ∷ [])
      gateway
    ≡ returned (record gateway {
      phev = some (record client18 {
        sent = client18.sent ++ map (set_message 0xa (0x2 ∷ [])) (0 ∷ retries 0xa lights_replies);
        next_pointer = client18.next_pointer + 1;
      });
    })
handle_incoming-register_example =
    handle_incoming-register lower 0xa (0x2 ∷ []) lights_replies [] client18 gateway fresh_slash
      refl client18-Fresh (omega arith) (omega arith, tt) lights_replies-IsAnswered

not_connection :
    same_text (codes "phev/set/headlights") (gateway.bridge.prefix ++ codes "/connection") ≡ false
unfolding same_text
not_connection = refl

handle_incoming-Keeps_example :
    Keeps gateway (handle_incoming lower (codes "phev/set/headlights") (codes "ON") [] gateway)
handle_incoming-Keeps_example =
    handle_incoming-Keeps lower (codes "phev/set/headlights") (codes "ON") [] gateway not_connection
