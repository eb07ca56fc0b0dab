-- ===== src/Protocol/Message/Dispatch.antt =====
-- The switch on p.Register of DecodeFromBytes: which register type a register number stands for, as a
-- table.
use phev2mqtt.Base.{ℕ, ◌≡◌, refl, List, [], ◌∷◌, ◌==◌, arith, if◌then◌else◌}
use phev2mqtt.Protocol.Types.{Register, PhevMessage}
use phev2mqtt.Protocol.Register.{decode}
use phev2mqtt.Protocol.Register.Plain.{Clock}
use phev2mqtt.Protocol.Message.{zero_struct}

-- The fifteen register types.
pub data Kind : Type 0 where
  a_generic a_time a_settings a_vin an_ecu_version a_battery_level a_battery_warning : Kind
  a_door_status a_charge_status a_pre_ac_state an_ac_oper_status an_ac_mode a_charge_plug : Kind
  a_wifi_ssid a_light_status : Kind

abbrev pub kind_of : Register → Kind
kind_of (Register.generic r) = a_generic
kind_of (Register.time r) = a_time
kind_of (Register.settings r) = a_settings
kind_of (Register.vin r) = a_vin
kind_of (Register.ecu_version r) = an_ecu_version
kind_of (Register.battery_level r) = a_battery_level
kind_of (Register.battery_warning r) = a_battery_warning
kind_of (Register.door_status r) = a_door_status
kind_of (Register.charge_status r) = a_charge_status
kind_of (Register.pre_ac_state r) = a_pre_ac_state
kind_of (Register.ac_oper_status r) = an_ac_oper_status
kind_of (Register.ac_mode r) = an_ac_mode
kind_of (Register.charge_plug r) = a_charge_plug
kind_of (Register.wifi_ssid r) = a_wifi_ssid
kind_of (Register.light_status r) = a_light_status

-- The register numbers that have a type of their own.
abbrev pub kinds : List (ℕ × Kind)
kinds =
    (0x02, a_battery_warning)
    ∷ (0x10, a_pre_ac_state)
    ∷ (0x12, a_time)
    ∷ (0x15, a_vin)
    ∷ (0x16, a_settings)
    ∷ (0x1a, an_ac_oper_status)
    ∷ (0x1c, an_ac_mode)
    ∷ (0x1d, a_battery_level)
    ∷ (0x1e, a_charge_plug)
    ∷ (0x1f, a_charge_status)
    ∷ (0x23, a_light_status)
    ∷ (0x24, a_door_status)
    ∷ (0x28, a_wifi_ssid)
    ∷ (0xc0, an_ecu_version)
    ∷ []

abbrev pub kind_in : List (ℕ × Kind) → ℕ → Kind
kind_in [] n = a_generic
kind_in ((k, kind) ∷ ks) n = if n == k then kind else kind_in ks n

-- The zero value that DecodeFromBytes makes is of the type that the table names for the number.
pub zero_struct-kind : (n : ℕ) → kind_of (zero_struct n) ≡ kind_in kinds n
unfolding zero_struct
zero_struct-kind n = ground arith

pub decode-kind :
    (clock : Clock) (r : Register) (m : PhevMessage) → kind_of (decode clock r m) ≡ kind_of r
unfolding decode
decode-kind clock (Register.generic r) m = refl
decode-kind clock (Register.time r) m = refl
decode-kind clock (Register.settings r) m = refl
decode-kind clock (Register.vin r) m = refl
decode-kind clock (Register.ecu_version r) m = refl
decode-kind clock (Register.battery_level r) m = refl
decode-kind clock (Register.battery_warning r) m = refl
decode-kind clock (Register.door_status r) m = refl
decode-kind clock (Register.charge_status r) m = refl
decode-kind clock (Register.pre_ac_state r) m = refl
decode-kind clock (Register.ac_oper_status r) m = refl
decode-kind clock (Register.ac_mode r) m = refl
decode-kind clock (Register.charge_plug r) m = refl
decode-kind clock (Register.wifi_ssid r) m = refl
decode-kind clock (Register.light_status r) m = refl
