-- ===== src/Mqtt/Publish/Laws.antt =====
-- The publish cache holds, for each topic, what the broker was last given.
use phev2mqtt.Base.{
  ℕ, ◌≡◌, ap, inl, inr, not, List, [], ◌∷◌, ltb, ◌&&◌, ◌||◌, if◌then◌else◌, same_text,
  same_text-append, Bool-cases, Option, none, some,
}
use phev2mqtt.Protocol.Types.{Register, PhevMessage}
use phev2mqtt.Mqtt.Climate.{Climate, mqtt_states, set_mode, set_state}
use phev2mqtt.Mqtt.Publish.{
  Bridge, lookup, topic, publish, publish_all, publish_again, publish_discovery, publish_known,
  publish_register,
}

-- The cached value of the topic is the last payload that the broker got on it, or empty if it got
-- none.
pub record IsMirrored (t : List ℕ) (b : Bridge) : Type 0 where
  pub agree : lookup t b.mqtt_data ≡ lookup (topic t b) b.published

module _ {t : List ℕ} where
  step : (u payload : List ℕ) {b : Bridge} → IsMirrored t b → IsMirrored t (publish u payload b)
  unfolding publish lookup topic
  step u payload {b} h = elim (Bool-cases (same_text (lookup u b.mqtt_data) payload)) [
    | inl same ↦ rw same h
    | inr new ↦ rw new (record {
      agree =
          rw (same_text-append b.prefix u t)
            (ap (λ (v : List ℕ). if same_text u t then payload else v) h.agree);
    })
  ]

  steps :
      (es : List (List ℕ × List ℕ)) (b : Bridge) → IsMirrored t b → IsMirrored t (publish_all es b)
  unfolding publish_all
  steps [] b h = h
  steps ((u, payload) ∷ es) b h = steps es (publish u payload b) (step _ _ h)

  again : (u : List ℕ) (b : Bridge) → IsMirrored t b → IsMirrored t (publish_again u b)
  unfolding publish_again
  again u b h = elim (Bool-cases (same_text (lookup u b.mqtt_data) [])) [
    | inl e ↦ rw e h
    | inr e ↦ rw e (step _ _ h)
  ]

  with_climate :
      (b : Bridge) (climate : Climate)
      → IsMirrored t b
      → IsMirrored t (record b { climate = climate })
  unfolding topic
  with_climate b climate h = record { agree = h.agree }

module _ (configs : List ℕ → List (List ℕ × List ℕ)) {t : List ℕ} where
  with_discovery :
      (vin : List ℕ) (b : Bridge) → IsMirrored t b → IsMirrored t (publish_discovery configs vin b)
  unfolding publish_discovery topic
  with_discovery vin b h = elim (Bool-cases (b.published_discovery || not b.ha_discovery)) [
    | inl e ↦ rw e h
    | inr e ↦ rw e (record { agree = h.agree })
  ]

  known :
      (r : Option Register) (b : Bridge) → IsMirrored t b → IsMirrored t (publish_known configs r b)
  unfolding publish_known
  known (some (Register.vin r)) b h = step _ _ (with_discovery r.vin _ (step _ _ h))
  known (some (Register.ecu_version r)) b h = step _ _ h
  known (some (Register.ac_mode r)) b h =
      let c = set_mode r.mode b.climate in
      steps (mqtt_states c) (record b { climate = c }) (with_climate b c h)
  known (some (Register.pre_ac_state r)) b h =
      let c = set_state r.state b.climate in
      steps (mqtt_states c) (record b { climate = c }) (with_climate b c h)
  known (some (Register.charge_status r)) b h = elim (Bool-cases (ltb r.remaining 1000)) [
    | inl e ↦ rw e (step _ _ (step _ _ h))
    | inr e ↦ rw e (again _ _ (step _ _ h))
  ]
  known (some (Register.door_status r)) b h =
      step _ _
        (step _ _ (step _ _ (step _ _ (step _ _ (step _ _ (step _ _ (step _ _ (step _ _ h))))))))
  known (some (Register.battery_level r)) b h =
      elim (Bool-cases (ltb 5 r.level && ltb r.level 255)) [
        | inl e ↦ rw e (step _ _ (step _ _ h))
        | inr e ↦ rw e (step _ _ (again _ b h))
      ]
  known (some (Register.light_status r)) b h = step _ _ (step _ _ h)
  known (some (Register.charge_plug r)) b h = step _ _ h
  known (some (Register.generic r)) b h = h
  known (some (Register.time r)) b h = h
  known (some (Register.settings r)) b h = h
  known (some (Register.battery_warning r)) b h = h
  known (some (Register.ac_oper_status r)) b h = h
  known (some (Register.wifi_ssid r)) b h = h
  known none b h = h

-- Whatever message comes, publishRegister keeps the cache true: for any topic, if the cached value
-- was the last payload published on it, or empty for none, it is so afterwards.
pub publish_register-IsMirrored :
    (configs : List ℕ → List (List ℕ × List ℕ)) (t : List ℕ) (msg : PhevMessage) (b : Bridge)
    → IsMirrored t b
    → IsMirrored t (publish_register configs msg b)
unfolding publish_register
publish_register-IsMirrored configs t msg b h = known configs msg.reg _ (step _ _ h)
