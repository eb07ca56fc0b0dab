-- ===== src/Tests/Runs.antt =====
-- The loop of Run at concrete inputs.
use phev2mqtt.Base.{
  ℕ, ◌≡◌, refl, true, false, List, [], ◌∷◌, map, arith, codes, same_text, none, some,
}
use phev2mqtt.Client.SetRegister.{started}
use phev2mqtt.Mqtt.Session.{receive_ended}
use phev2mqtt.Mqtt.Run.{Flags, Round, Runner, RunEvent, round, message, reconnected, is_error, run}
use phev2mqtt.Mqtt.Run.Keeps.{Then}
use phev2mqtt.Mqtt.Run.Wifi.{IsSpaced, run-IsSpaced, run-NoCommand}
use phev2mqtt.Mqtt.Run.Failing.{with_offline, run-failing}
use phev2mqtt.Tests.Bridges.{no_configs}
use phev2mqtt.Tests.Gateways.{gateway, lower}

abbrev flags : Flags
flags = record {
  disable_set = false;
  prefix = codes "phev";
  ha_discovery = true;
  wifi_restart_time = 60000000000;
  wifi_restart_retry_time = 120000000000;
  wifi_restart_command = codes "ifup wlan0";
}

-- The bridge after a connection that ended at second 10.
abbrev resting : Runner
resting = record {
  gateway = gateway;
  last_connect = some 10000000000;
  last_error = some (codes "Connection closed.");
  last_wifi_restart = none;
  logged = codes "Connection closed." ∷ [];
  restarts = [];
}

-- A round at this time in which the car cannot be reached.
abbrev unreached : ℕ → Round
unreached now = record {
  connects = false;
  connect_error = codes "no route to host";
  start_event = started;
  events = [];
  returned_at = now;
  offline_at = now;
  wifi_at = now;
  retry_at = now;
  restarted_at = now;
}

-- One that ends when the car closes the connection.
abbrev reached : ℕ → Round
reached now = record (unreached now) { connects = true; events = receive_ended ∷ [] }

abbrev events : List RunEvent
events =
    round (unreached 80000000000)
    ∷ message (codes "phev/connection") (codes "on") []
    ∷ round (reached 90000000000)
    ∷ reconnected
    ∷ round (unreached 300000000000)
    ∷ []

run-IsSpaced_example :
    Then
      (λ t. IsSpaced 120000000000 t.restarts)
      (run lower no_configs (codes "car:8080") flags (codes "ifup wlan0") events resting)
run-IsSpaced_example =
    run-IsSpaced lower no_configs (codes "car:8080") flags (codes "ifup wlan0") events resting
      (omega arith) (omega arith, (tt, (omega arith, (tt, (omega arith, tt))))) refl

run-NoCommand_example :
    Then (λ t. t.restarts ≡ []) (run lower no_configs (codes "car:8080") flags [] events resting)
run-NoCommand_example =
    run-NoCommand lower no_configs (codes "car:8080") flags [] events resting refl

fresh_error : is_error (codes "no route to host") resting.last_error ≡ false
unfolding same_text
fresh_error = refl

abbrev later : List Round
later = unreached 41000000000 ∷ unreached 42000000000 ∷ []

run-failing_example :
    (t : Runner) × (run lower no_configs
        (codes "car:8080")
        flags
        []
        (map round (unreached 11000000000 ∷ later))
        resting
      ≡ some t)
    × (t.logged ≡ codes "no route to host" ∷ resting.logged)
    × (t.last_connect ≡ resting.last_connect)
    × (t.gateway.announced
        ≡ with_offline resting.last_connect
            (unreached 11000000000 ∷ later)
            resting.gateway.announced)
run-failing_example =
    run-failing lower no_configs (codes "car:8080") flags [] (codes "no route to host")
      (unreached 11000000000) later resting refl fresh_error
      ((refl, refl), ((refl, refl), ((refl, refl), tt)))
