-- ===== src/Mqtt/Publish/Walk.antt =====
-- What publishRegister does with each register, for a property of the bridge that publishing on some
-- topics keeps. The charge and the battery, whose values it may hold back, are given.
use phev2mqtt.Base.{
  ℕ, inl, inr, true, not, List, [], ◌∷◌, ◌||◌, codes, Bool-cases, All, Option, none, some, hex_byte,
  ◌++◌,
}
use phev2mqtt.Protocol.Types.{Register, RegisterChargeStatus, RegisterBatteryLevel, PhevMessage}
use phev2mqtt.Mqtt.Climate.{Climate, entries, mqtt_states, set_mode, set_state}
use phev2mqtt.Mqtt.Climate.Laws.{mqtt_states-AreEntries}
use phev2mqtt.Mqtt.Publish.{
  Bridge, publish, publish_all, publish_discovery, publish_known, publish_register,
}

-- The topics of the other registers.
pub record Covers (Other : List ℕ → Type 0) : Type 0 where
  pub raw : (register : ℕ) → Other (codes "/register/" ++ hex_byte register)
  pub vin : Other (codes "/vin")
  pub registrations : Other (codes "/registrations")
  pub version : Other (codes "/ecuversion")
  pub plug : Other (codes "/charge/plug")
  pub lights : All Other (codes "/lights/interior" ∷ codes "/lights/hazard" ∷ [])
  pub states : All Other (
      codes "/climate/state"
      ∷ codes "/climate/cool"
      ∷ codes "/climate/heat"
      ∷ codes "/climate/windscreen"
      ∷ [])
  pub doors : All Other (
      codes "/door/locked"
      ∷ codes "/door/rear_left"
      ∷ codes "/door/rear_right"
      ∷ codes "/door/driver"
      ∷ codes "/door/front_left"
      ∷ codes "/door/front_passenger"
      ∷ codes "/door/bonnet"
      ∷ codes "/door/boot"
      ∷ codes "/lights/head"
      ∷ [])

module _ (configs : List ℕ → List (List ℕ × List ℕ)) (Inv : Bridge → Type 0)
    (Other : List ℕ → Type 0)
    (step : (t payload : List ℕ) (b : Bridge) → Other t → Inv b → Inv (publish t payload b))
    (with_climate : (c : Climate) (b : Bridge) → Inv b → Inv (record b { climate = c }))
    (with_found : (found : List (List ℕ × List ℕ)) (b : Bridge)
      → Inv b
      → Inv (record b { published_discovery = true; discovered = found })) where
  pub others :
      (es : List (List ℕ × List ℕ)) (b : Bridge)
      → All (λ (e : List ℕ × List ℕ). Other e.0) es
      → Inv b
      → Inv (publish_all es b)
  unfolding publish_all
  others [] b o v = v
  others ((t, payload) ∷ es) b o v = others es (publish t payload b) o.1 (step t payload b o.0 v)

  single :
      (t payload : List ℕ) (b : Bridge) → Other t → Inv b → Inv (publish_all ((t, payload) ∷ []) b)
  unfolding publish_all
  single t payload b o v = step t payload b o v

  with_states :
      Covers Other → (c : Climate) (b : Bridge) → Inv b → Inv (publish_all (mqtt_states c) b)
  with_states o c b v =
      let (s, k, h, w, e) = mqtt_states-AreEntries c in rw e (others (entries s k h w) b o.states v)

  with_discovery : (vin : List ℕ) (b : Bridge) → Inv b → Inv (publish_discovery configs vin b)
  unfolding publish_discovery
  with_discovery vin b v = elim (Bool-cases (b.published_discovery || not b.ha_discovery)) [
    | inl e ↦ rw e v
    | inr e ↦ rw e (with_found (configs vin ++ b.discovered) b v)
  ]

  module _ (o : Covers Other)
      (charge : (r : RegisterChargeStatus) (b : Bridge)
        → Inv b
        → Inv (publish_known configs (some (Register.charge_status r)) b))
      (battery : (r : RegisterBatteryLevel) (b : Bridge)
        → Inv b
        → Inv (publish_known configs (some (Register.battery_level r)) b)) where
    known : (r : Option Register) (b : Bridge) → Inv b → Inv (publish_known configs r b)
    unfolding publish_known
    known (some (Register.vin r)) b v =
        single _ _ _ o.registrations (with_discovery r.vin _ (single _ _ b o.vin v))
    known (some (Register.ecu_version r)) b v = single _ _ b o.version v
    known (some (Register.ac_mode r)) b v =
        let c = set_mode r.mode b.climate in
        with_states o c (record b { climate = c }) (with_climate c b v)
    known (some (Register.pre_ac_state r)) b v =
        let c = set_state r.state b.climate in
        with_states o c (record b { climate = c }) (with_climate c b v)
    known (some (Register.charge_status r)) b v = charge r b v
    known (some (Register.door_status r)) b v =
        others
          ((codes "/door/locked", _)
            ∷ (codes "/door/rear_left", _)
            ∷ (codes "/door/rear_right", _)
            ∷ (codes "/door/driver", _)
            ∷ (codes "/door/front_left", _)
            ∷ (codes "/door/front_passenger", _)
            ∷ (codes "/door/bonnet", _)
            ∷ (codes "/door/boot", _)
            ∷ (codes "/lights/head", _)
            ∷ [])
          b o.doors v
    known (some (Register.battery_level r)) b v = battery r b v
    known (some (Register.light_status r)) b v =
        others ((codes "/lights/interior", _) ∷ (codes "/lights/hazard", _) ∷ []) b o.lights v
    known (some (Register.charge_plug r)) b v = single _ _ b o.plug v
    known (some (Register.generic r)) b v = v
    known (some (Register.time r)) b v = v
    known (some (Register.settings r)) b v = v
    known (some (Register.battery_warning r)) b v = v
    known (some (Register.ac_oper_status r)) b v = v
    known (some (Register.wifi_ssid r)) b v = v
    known none b v = v

    pub walk : (msg : PhevMessage) (b : Bridge) → Inv b → Inv (publish_register configs msg b)
    unfolding publish_register
    walk msg b v = known msg.reg _ (single _ _ b (o.raw msg.register) v)
