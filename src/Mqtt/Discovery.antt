-- ===== src/Mqtt/Discovery.antt =====
-- The texts of publishHomeAssistantDiscovery of cmd/mqtt.go. The entries stand in the order of the
-- source; Go goes over both maps in any order, so that the order of the replacements is a parameter.
mod Template
mod Doors
mod BatteryAndCharging
mod Climate
mod Lights
mod GeneralTopics
pub use Template.{Entry}
pub use Doors.{
  door_locked, door_bonnet, door_boot, door_front_passenger, door_driver, door_rear_left,
  door_rear_right,
}
pub use BatteryAndCharging.{
  battery_level, battery_charge_remaining, charger_connected, battery_charging, cancel_charge_timer,
}
pub use Climate.{climate_heat, climate_cool, climate_windscreen, climate_on}
pub use Lights.{parkinglights, headlights, interiorlights, hazardlights}
pub use GeneralTopics.{reconnect_wifi}
use phev2mqtt.Base.{
  ℕ, zero, suc, ◌-◌, List, [], ◌∷◌, ◌++◌, ◌==◌, ◌&&◌, if◌then◌else◌, codes, has_prefix,
  has_prefix-append, ◌≡◌, refl, All, length, Bool, true, false,
}

-- fmt.Sprintf with the verb %s only: the arguments in order.
unfoldable pub fill : List (List ℕ) → List ℕ → List ℕ
fill args [] = []
fill args (c ∷ []) = c ∷ []
fill [] (c ∷ d ∷ cs) = c ∷ fill [] (d ∷ cs)
fill (arg ∷ args) (c ∷ d ∷ cs) =
    let after = fill args cs in
    let next = fill (arg ∷ args) (d ∷ cs) in
    if c == b'%' && d == b's' then arg ++ after else c ∷ next

-- strings.Replace of every occurrence of a pattern that is not empty; the number counts the bytes of
-- an occurrence that are yet to be passed over.
replace_from : ℕ → List ℕ → List ℕ → List ℕ → List ℕ
unfolding has_prefix
replace_from skip old new [] = []
replace_from (suc skip) old new (c ∷ cs) = replace_from skip old new cs
replace_from zero old new (c ∷ cs) =
    let after = replace_from (length old - 1) old new cs in
    let next = replace_from zero old new cs in
    if has_prefix (c ∷ cs) old then new ++ after else c ∷ next

unfoldable pub replace_all : List ℕ → List ℕ → List ℕ → List ℕ
unfolding replace_from
replace_all old new text = replace_from 0 old new text

-- The replacements, one after another.
unfoldable pub replace_each : List (List ℕ × List ℕ) → List ℕ → List ℕ
unfolding replace_all
replace_each [] text = text
replace_each ((old, new) ∷ rs) text = replace_each rs (replace_all old new text)

abbrev pub mappings : (name vin topic : List ℕ) → List (List ℕ × List ℕ)
mappings name vin topic =
    (codes "__NAME__", name) ∷ (codes "__VIN__", vin) ∷ (codes "__TOPIC__", topic) ∷ []

abbrev pub discovery_data : List Entry
discovery_data =
    door_locked ∷ door_bonnet ∷ door_boot ∷ door_front_passenger ∷ door_driver ∷ door_rear_left
    ∷ door_rear_right ∷ battery_level ∷ battery_charge_remaining ∷ charger_connected
    ∷ battery_charging ∷ cancel_charge_timer ∷ climate_heat ∷ climate_cool ∷ climate_windscreen
    ∷ climate_on ∷ parkinglights ∷ headlights ∷ interiorlights ∷ hazardlights ∷ reconnect_wifi ∷ []

module _ (reorder : List (List ℕ × List ℕ) → List (List ℕ × List ℕ))
    (ha_discovery_prefix topic : List ℕ) where
  unfoldable pub config_of : List ℕ → Entry → List ℕ × List ℕ
  unfolding fill replace_each
  config_of vin e = (
    fill (ha_discovery_prefix ∷ vin ∷ []) (codes e.topic),
    replace_each (reorder (mappings (codes "Phev") vin topic)) (codes e.body),
  )

  -- What is published for a VIN.
  unfoldable pub configs : List ℕ → List Entry → List (List ℕ × List ℕ)
  unfolding config_of
  configs vin [] = []
  configs vin (e ∷ es) = config_of vin e ∷ configs vin es

-- The topic begins with a verb.
abbrev pub StartsWithVerb : Entry → Type 0
StartsWithVerb e = (rest : List ℕ) × (codes e.topic ≡ b'%' ∷ b's' ∷ rest)

verbs : All StartsWithVerb discovery_data
verbs = (
  (_, refl),
  (
    (_, refl),
    (
      (_, refl),
      (
        (_, refl),
        (
          (_, refl),
          (
            (_, refl),
            (
              (_, refl),
              (
                (_, refl),
                (
                  (_, refl),
                  (
                    (_, refl),
                    (
                      (_, refl),
                      (
                        (_, refl),
                        (
                          (_, refl),
                          (
                            (_, refl),
                            (
                              (_, refl),
                              (
                                (_, refl),
                                ((_, refl), ((_, refl), ((_, refl), ((_, refl), ((_, refl), tt))))),
                              ),
                            ),
                          ),
                        ),
                      ),
                    ),
                  ),
                ),
              ),
            ),
          ),
        ),
      ),
    ),
  ),
)

module _ (reorder : List (List ℕ × List ℕ) → List (List ℕ × List ℕ))
    (ha_discovery_prefix topic : List ℕ) where
  abbrev pub Prefixed : List ℕ × List ℕ → Type 0
  Prefixed c = has_prefix c.0 ha_discovery_prefix ≡ true

  configs-Prefixed :
      (vin : List ℕ) (es : List Entry)
      → All StartsWithVerb es
      → All Prefixed (configs reorder ha_discovery_prefix topic vin es)
  unfolding configs config_of fill
  configs-Prefixed vin [] h = tt
  configs-Prefixed vin (e ∷ es) h = (
    rw h.0.1 (has_prefix-append ha_discovery_prefix (fill (vin ∷ []) h.0.0)),
    configs-Prefixed vin es h.1,
  )

  -- Every topic of the discovery stands below its prefix.
  discovery_data-Prefixed :
      (vin : List ℕ) → All Prefixed (configs reorder ha_discovery_prefix topic vin discovery_data)
  discovery_data-Prefixed vin = configs-Prefixed vin discovery_data verbs
