-- ===== src/Command/Emulator.antt =====
-- The emulator command of cmd/emulator.go: its publish cache, and its handler of incoming topics. The goroutines of the call of SetRegister of the car, one for each of its connections, are an
-- argument. `car` is none before manageCar has made it, and `published` are the topics and payloads
-- handed to the broker, the newest first.
pub mod Laws
use phev2mqtt.Base.{
  ℕ, Bool, true, false, List, [], ◌∷◌, ◌++◌, if◌then◌else◌, codes, same_text, Option, none, some,
  hex_decode, split_on, has_prefix,
}
use phev2mqtt.Protocol.Types.{PhevMessage}
use phev2mqtt.Client.SetRegister.{SetResult}
use phev2mqtt.Emulator.Car.{Car, Goroutine, set_register_all}
use phev2mqtt.Mqtt.Publish.{lookup}

pub record Emu : Type 0 where
  pub prefix : List ℕ
  pub has_broker : Bool
  pub car : Option Car
  pub mqtt_data : List (List ℕ × List ℕ)
  pub published : List (List ℕ × List ℕ)

-- Without a broker nothing is published.
unfoldable pub publish : List ℕ → List ℕ → Emu → Emu
unfolding lookup
publish t payload e =
    if e.has_broker
    then (if same_text (lookup t e.mqtt_data) payload then e else record e {
      published = (e.prefix ++ t, payload) ∷ e.published;
      mqtt_data = (t, payload) ∷ e.mqtt_data;
    })
    else e

-- The handler returns without a call, makes one call of SetRegister of the car, or panics.
pub data Handling : Type 0 where
  refused : Handling
  called : List (ℕ × List PhevMessage) × SetResult → Handling
  crashing : Handling

-- A method of the car: on the nil pointer it panics when it reads the connections.
on_car : Option Car → ℕ → List ℕ → List Goroutine → Handling
unfolding set_register_all
on_car none register value gs = crashing
on_car (some car) register value gs = called (set_register_all register value gs)

register_call : Option (List ℕ) → Option (List ℕ) → List Goroutine → Option Car → Handling
unfolding on_car
register_call none value gs car = refused
register_call (some register) none gs car = refused
register_call (some []) (some value) gs car = crashing
register_call (some (r ∷ rs)) (some value) gs car = on_car car r value gs

-- Five parts are expected.
with_parts : List (List ℕ) → List ℕ → List Goroutine → Option Car → Handling
unfolding register_call
with_parts (a ∷ b ∷ c ∷ d ∷ e ∷ []) payload gs car =
    register_call (hex_decode e) (hex_decode payload) gs car
with_parts [] payload gs car = refused
with_parts (a ∷ []) payload gs car = refused
with_parts (a ∷ b ∷ []) payload gs car = refused
with_parts (a ∷ b ∷ c ∷ []) payload gs car = refused
with_parts (a ∷ b ∷ c ∷ d ∷ []) payload gs car = refused
with_parts (a ∷ b ∷ c ∷ d ∷ e ∷ f ∷ fs) payload gs car = refused

unfoldable pub handle_emulator : List ℕ → List ℕ → List Goroutine → Emu → Handling
unfolding with_parts
handle_emulator t payload gs e =
    if has_prefix t (e.prefix ++ codes "/set/register/")
    then with_parts (split_on b'/' t) payload gs e.car
    else refused
