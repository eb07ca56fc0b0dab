-- ===== src/Mqtt/Incoming/Climate.antt =====
-- The topics of handleIncomingMqtt that control the climate.
use phev2mqtt.Base.{ℕ, List, ◌++◌, codes}
use phev2mqtt.Client.State.{Client}
use phev2mqtt.Mqtt.Incoming.{Gateway}

abbrev pub climate_topic : Gateway → List ℕ → List ℕ
climate_topic g name = g.bridge.prefix ++ (codes "/set/climate/" ++ name)
