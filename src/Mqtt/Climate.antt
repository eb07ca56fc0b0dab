-- ===== src/Mqtt/Climate.antt =====
-- The type climate of cmd/mqtt.go, and resolveClimateMode. A nil pointer is `none`; the map of
-- mqttStates is the list of its entries, in the order of its literal.
pub mod Laws
use phev2mqtt.Base.{
  ℕ, Bool, true, false, List, [], ◌∷◌, ◌==◌, ◌&&◌, if◌then◌else◌, codes, same_text, Option, none,
  some,
}
use phev2mqtt.Protocol.Register.Climate.{pre_ac_off, pre_ac_on, pre_ac_terminated}

pub record Climate : Type 0 where
  pub state : Option ℕ
  pub mode : Option (List ℕ)

unfoldable pub set_mode : List ℕ → Climate → Climate
set_mode m c = record c { mode = some m }

unfoldable pub set_state : ℕ → Climate → Climate
set_state state c = record c { state = some state }

abbrev is_set {ℓ} : {A : Type ℓ} → Option A → Bool
is_set none = false
is_set (some a) = true

unfoldable pub ready : Climate → Bool
ready c = is_set c.mode && is_set c.state

-- The four entries.
abbrev pub entries : (state cool heat windscreen : List ℕ) → List (List ℕ × List ℕ)
entries state cool heat windscreen =
    (codes "/climate/state", state)
    ∷ (codes "/climate/cool", cool)
    ∷ (codes "/climate/heat", heat)
    ∷ (codes "/climate/windscreen", windscreen)
    ∷ []

abbrev on_if : Bool → List ℕ
on_if b = if b then codes "on" else codes "off"

-- The switch on the mode, while the climate control is on.
abbrev mode_entries : List ℕ → List (List ℕ × List ℕ)
mode_entries mode =
    entries mode (on_if (same_text mode (codes "cool"))) (on_if (same_text mode (codes "heat")))
      (on_if (same_text mode (codes "windscreen")))

abbrev state_entries : List ℕ → List (List ℕ × List ℕ)
state_entries state = entries state (codes "off") (codes "off") (codes "off")

known_states : Option ℕ → Option (List ℕ) → List (List ℕ × List ℕ)
known_states (some state) (some mode) =
    if state == pre_ac_on
    then mode_entries mode
    else if state == pre_ac_off
    then state_entries (codes "off")
    else if state == pre_ac_terminated
    then state_entries (codes "terminated")
    else state_entries (codes "unknown")
known_states (some state) none = state_entries (codes "off")
known_states none mode = state_entries (codes "off")

unfoldable pub mqtt_states : Climate → List (List ℕ × List ℕ)
unfolding known_states
mqtt_states c = known_states c.state c.mode

-- The map modeMap.
abbrev pub mode_map : List ℕ → Option ℕ
mode_map name =
    if same_text name (codes "off")
    then some 0x0
    else if same_text name (codes "cool")
    then some 0x1
    else if same_text name (codes "heat")
    then some 0x2
    else if same_text name (codes "windscreen")
    then some 0x3
    else none

-- `none` is the result (0, false).
unfoldable pub resolve_climate_mode : List ℕ → List ℕ → Option ℕ
resolve_climate_mode last_part payload =
    if same_text last_part (codes "mode") then mode_map payload else mode_map last_part
