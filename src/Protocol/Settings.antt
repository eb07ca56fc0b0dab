-- ===== src/Protocol/Settings.antt =====
-- The vehicle settings of protocol/settings.go. A setting is the 64-bit value of eight bytes, the
-- lowest first; the channel of a SettingsSender is the list of the messages that it will yield.
pub mod Laws
use phev2mqtt.Base.{
  ℕ, Bool, true, false, List, [], ◌∷◌, ◌++◌, ◌==◌, not, if◌then◌else◌, length, get_or, Outcome, ok,
  err, little_endian, put_little_endian, hex_padded,
}
use phev2mqtt.Protocol.Constants.{cmd_in_resp}
use phev2mqtt.Protocol.Types.{PhevMessage, new_message}

pub record Settings : Type 0 where
  pub settings : List ℕ

-- The loop of FromRegister that looks for the value.
pub contains : ℕ → List ℕ → Bool
contains value [] = false
contains value (v ∷ vs) = if value == v then true else contains value vs

-- An error leaves the settings as they were.
unfoldable pub from_register : Settings → List ℕ → Outcome Settings
unfolding contains
from_register s reg =
    if not (length reg == 8)
    then err
    else if not (get_or reg 0 0 == 0x2)
    then err
    else if not (get_or reg 7 0 == 0x0)
    then err
    else (let value = little_endian reg in
        if contains value s.settings
        then ok s
        else ok (record { settings = s.settings ++ (value ∷ []) }))

unfoldable pub clear : Settings → Settings
clear s = record { settings = [] }

pub join_lines : List (List ℕ) → List ℕ
join_lines [] = []
join_lines (t ∷ []) = t
join_lines (t ∷ u ∷ us) = t ++ (b'\n' ∷ join_lines (u ∷ us))

dump_lines : List ℕ → List (List ℕ)
dump_lines [] = []
dump_lines (v ∷ vs) = hex_padded 16 v ∷ dump_lines vs

unfoldable pub dump : Settings → List ℕ
unfolding join_lines dump_lines
dump s = join_lines (dump_lines s.settings)

pub record SettingsSender : Type 0 where
  pub c : List PhevMessage
  pub settings : List ℕ

unfoldable pub new_sender : Settings → SettingsSender
new_sender s = record { c = []; settings = s.settings }

-- The goroutine of Start: a message for each setting, then the channel is closed.
setting_messages : List ℕ → List PhevMessage
unfolding new_message
setting_messages [] = []
setting_messages (v ∷ vs) =
    new_message cmd_in_resp 0x16 false (put_little_endian 8 v) ∷ setting_messages vs

unfoldable pub start : SettingsSender → SettingsSender
unfolding setting_messages
start s = record s { c = setting_messages s.settings }
