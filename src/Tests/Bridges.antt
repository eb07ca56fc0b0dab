-- ===== src/Tests/Bridges.antt =====
-- The MQTT bridge at concrete inputs.
use phev2mqtt.Base.{inl, ℕ, ◌≡◌, ◌↔◌, refl, true, false, List, [], ◌∷◌, codes, none, some}
use phev2mqtt.Protocol.Types.{Register, PhevMessage, empty_message}
use phev2mqtt.Mqtt.Climate.{Climate, mqtt_states}
use phev2mqtt.Mqtt.Climate.Laws.{Runs, mqtt_states-Runs}
use phev2mqtt.Mqtt.Publish.{Bridge, lookup, publish_register}
use phev2mqtt.Mqtt.Publish.Sane.{IsSane, publish_register-IsSane}
use phev2mqtt.Mqtt.Publish.Laws.{IsMirrored, publish_register-IsMirrored}

abbrev heating : Climate
heating = record { state = some 2; mode = some (codes "heat") }

mqtt_states-Runs_example :
    ((lookup (codes "/climate/cool") (mqtt_states heating) ≡ codes "on")
      ↔ Runs (codes "cool") heating.state heating.mode)
    × ((lookup (codes "/climate/heat") (mqtt_states heating) ≡ codes "on")
        ↔ Runs (codes "heat") heating.state heating.mode)
    × ((lookup (codes "/climate/windscreen") (mqtt_states heating) ≡ codes "on")
        ↔ Runs (codes "windscreen") heating.state heating.mode)
mqtt_states-Runs_example = mqtt_states-Runs heating

abbrev pub fresh_bridge : Bridge
fresh_bridge = record {
  mqtt_data = [];
  published = [];
  discovered = [];
  prefix = codes "phev";
  ha_discovery = true;
  published_discovery = false;
  climate = record { state = none; mode = none };
}

-- A battery level of 80 percent.
abbrev pub battery_message : PhevMessage
battery_message = record empty_message {
  typ = 0x6f;
  register = 0x1d;
  data_bytes = 80 ∷ 0 ∷ 0 ∷ 0 ∷ [];
  reg = some (Register.battery_level (record { level = 80; parking_lights = false; raw = [] }));
}

abbrev pub no_configs : List ℕ → List (List ℕ × List ℕ)
no_configs vin = []

fresh_bridge-IsMirrored : IsMirrored (codes "/battery/level") fresh_bridge
unfolding lookup
fresh_bridge-IsMirrored = record { agree = refl }

publish_register-IsMirrored_example :
    IsMirrored (codes "/battery/level") (publish_register no_configs battery_message fresh_bridge)
publish_register-IsMirrored_example =
    publish_register-IsMirrored no_configs (codes "/battery/level") battery_message fresh_bridge
      fresh_bridge-IsMirrored

fresh_bridge-IsSane : IsSane fresh_bridge
unfolding lookup
fresh_bridge-IsSane = record { charge = inl refl; battery = inl refl }

publish_register-IsSane_example : IsSane (publish_register no_configs battery_message fresh_bridge)
publish_register-IsSane_example =
    publish_register-IsSane no_configs battery_message fresh_bridge fresh_bridge-IsSane

-- Two messages of the battery level.
abbrev battery_messages : List PhevMessage
battery_messages = battery_message ∷ battery_message ∷ []
