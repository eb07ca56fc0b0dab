-- ===== src/Mqtt/Publish.antt =====
-- The publish cache of mqttClient of cmd/mqtt.go, and publishRegister. `published` holds the topics
-- and payloads that `publish` handed to the broker, the newest first, and `discovered` those of the
-- discovery. The cache is the list of its updates, the newest first; a missing key reads as the
-- empty text.
pub mod Laws
pub mod Sane
pub mod Unserved
pub mod Walk
use phev2mqtt.Base.{
  ℕ, Bool, true, false, not, List, [], ◌∷◌, ◌++◌, ltb, ◌&&◌, ◌||◌, if◌then◌else◌, codes, same_text,
  Option, none, some, hex_byte, hex_encode, decimal,
}
use phev2mqtt.Protocol.Types.{Register, PhevMessage}
use phev2mqtt.Mqtt.Climate.{Climate, set_mode, set_state, mqtt_states}

pub record Bridge : Type 0 where
  pub mqtt_data : List (List ℕ × List ℕ)
  pub published : List (List ℕ × List ℕ)
  pub discovered : List (List ℕ × List ℕ)
  pub prefix : List ℕ
  pub ha_discovery : Bool
  pub published_discovery : Bool
  pub climate : Climate

unfoldable pub lookup : List ℕ → List (List ℕ × List ℕ) → List ℕ
lookup key [] = []
lookup key ((k, v) ∷ kvs) = if same_text k key then v else lookup key kvs

unfoldable pub topic : List ℕ → Bridge → List ℕ
topic t b = b.prefix ++ t

unfoldable pub publish : List ℕ → List ℕ → Bridge → Bridge
unfolding lookup topic
publish t payload b = if same_text (lookup t b.mqtt_data) payload then b else record b {
  published = (topic t b, payload) ∷ b.published;
  mqtt_data = (t, payload) ∷ b.mqtt_data;
}

-- Several calls of publish in a row.
unfoldable pub publish_all : List (List ℕ × List ℕ) → Bridge → Bridge
unfolding publish
publish_all [] b = b
publish_all ((t, payload) ∷ es) b = publish_all es (publish t payload b)

-- The cached value is published again, if there is one.
unfoldable pub publish_again : List ℕ → Bridge → Bridge
unfolding publish
publish_again t b =
    if same_text (lookup t b.mqtt_data) [] then b else publish t (lookup t b.mqtt_data) b

abbrev pub bool_on_off : Bool → List ℕ
bool_on_off b = if b then codes "on" else codes "off"

abbrev bool_open : Bool → List ℕ
bool_open b = if b then codes "open" else codes "closed"

module _ (configs : List ℕ → List (List ℕ × List ℕ)) where
  -- publishHomeAssistantDiscovery up to its texts: `configs` are the topics and payloads for a VIN.
  unfoldable pub publish_discovery : List ℕ → Bridge → Bridge
  publish_discovery vin b =
      if b.published_discovery || not b.ha_discovery
      then b
      else record b { published_discovery = true; discovered = configs vin ++ b.discovered }

  -- The switch on the register of the message.
  pub publish_known : Option Register → Bridge → Bridge
  unfolding publish_all publish_again publish_discovery set_mode set_state mqtt_states
  publish_known (some (Register.vin r)) b =
      publish_all ((codes "/registrations", decimal r.registrations) ∷ [])
        (publish_discovery r.vin (publish_all ((codes "/vin", r.vin) ∷ []) b))
  publish_known (some (Register.ecu_version r)) b =
      publish_all ((codes "/ecuversion", r.version) ∷ []) b
  publish_known (some (Register.ac_mode r)) b =
      let climate = set_mode r.mode b.climate in
      publish_all (mqtt_states climate) (record b { climate = climate })
  publish_known (some (Register.pre_ac_state r)) b =
      let climate = set_state r.state b.climate in
      publish_all (mqtt_states climate) (record b { climate = climate })
  publish_known (some (Register.charge_status r)) b =
      let b1 = publish_all ((codes "/charge/charging", bool_on_off r.charging) ∷ []) b in
      if ltb r.remaining 1000
      then publish (codes "/charge/remaining") (decimal r.remaining) b1
      else publish_again (codes "/charge/remaining") b1
  publish_known (some (Register.door_status r)) b =
      publish_all
        ((codes "/door/locked", bool_open (not r.locked))
          ∷ (codes "/door/rear_left", bool_open r.rear_left)
          ∷ (codes "/door/rear_right", bool_open r.rear_right)
          ∷ (codes "/door/driver", bool_open r.driver)
          ∷ (codes "/door/front_left", bool_open r.front_passenger)
          ∷ (codes "/door/front_passenger", bool_open r.front_passenger)
          ∷ (codes "/door/bonnet", bool_open r.bonnet)
          ∷ (codes "/door/boot", bool_open r.boot)
          ∷ (codes "/lights/head", bool_on_off r.headlights)
          ∷ [])
        b
  publish_known (some (Register.battery_level r)) b =
      let b1 =
        (if ltb 5 r.level && ltb r.level 255
          then publish (codes "/battery/level") (decimal r.level) b
          else publish_again (codes "/battery/level") b) in
      publish_all ((codes "/lights/parking", bool_on_off r.parking_lights) ∷ []) b1
  publish_known (some (Register.light_status r)) b =
      publish_all
        ((codes "/lights/interior", bool_on_off r.interior)
          ∷ (codes "/lights/hazard", bool_on_off r.hazard)
          ∷ [])
        b
  publish_known (some (Register.charge_plug r)) b =
      publish_all
        ((codes "/charge/plug", if r.connected then codes "connected" else codes "unplugged") ∷ [])
        b
  publish_known (some (Register.generic r)) b = b
  publish_known (some (Register.time r)) b = b
  publish_known (some (Register.settings r)) b = b
  publish_known (some (Register.battery_warning r)) b = b
  publish_known (some (Register.ac_oper_status r)) b = b
  publish_known (some (Register.wifi_ssid r)) b = b
  publish_known none b = b

  unfoldable pub publish_register : PhevMessage → Bridge → Bridge
  unfolding publish_known
  publish_register msg b = publish_known msg.reg (
      publish_all ((codes "/register/" ++ hex_byte msg.register, hex_encode msg.data_bytes) ∷ []) b)
