-- ===== src/Tests/Sessions.antt =====
-- A connection of the bridge to the car at concrete inputs.
use phev2mqtt.Base.{
  ℕ, ◌+◌, zero, suc, refl, List, [], ◌∷◌, arith, length-replicate, replicate, codes, some,
}
use phev2mqtt.Protocol.Constants.{cmd_in_bad_encoding}
use phev2mqtt.Protocol.Types.{PhevMessage, empty_message}
use phev2mqtt.Mqtt.Session.{Session, SessionEvent, tick, received, incoming, run_session}
use phev2mqtt.Mqtt.Incoming.Acks.{acks_sent}
use phev2mqtt.Mqtt.Session.Acks.{Acknowledged, run_session-Acknowledged}
use phev2mqtt.Mqtt.Session.Burst.{Burst, GivesUp, run_session-Burst}
use phev2mqtt.Mqtt.Session.Errors.{Counts, bad_count, run_session-Counts}
use phev2mqtt.Tests.Bridges.{battery_message, no_configs}
use phev2mqtt.Tests.Gateways.{gateway, client18, lower}

abbrev session : Session
session = record { gateway = gateway; error_count = 3; last_encoding_error = some 7; updates = 0 }

abbrev bad_message : PhevMessage
bad_message = record empty_message { typ = cmd_in_bad_encoding }

abbrev events : List SessionEvent
events =
    received 8 battery_message
    ∷ tick
    ∷ incoming (codes "phev/set/headlights") (codes "on") []
    ∷ received 9 bad_message
    ∷ []

run_session-Acknowledged_example :
    Acknowledged
      (acks_sent session.gateway.phev)
      events
      (run_session lower no_configs events session)
run_session-Acknowledged_example = run_session-Acknowledged lower no_configs events session

run_session-Counts_example :
    Counts (session.error_count + bad_count events) (run_session lower no_configs events session)
run_session-Counts_example = run_session-Counts lower no_configs events session (omega arith)

errors-Burst : (n : ℕ) → Burst 9 (replicate n (received 9 bad_message))
errors-Burst zero = tt
errors-Burst (suc n) = (refl, omega arith, errors-Burst n)

run_session-Burst_example : GivesUp (
    run_session lower no_configs
      (received 9 bad_message ∷ replicate 51 (received 9 bad_message))
      session)
run_session-Burst_example =
    run_session-Burst lower no_configs 9 bad_message (replicate 51 (received 9 bad_message))
      client18 session refl (omega arith) refl (errors-Burst 51)
      (omega (arith, length-replicate {A = SessionEvent} 51 (received 9 bad_message)))
