-- ===== src/Protocol/Register/Plain.antt =====
-- RegisterGeneric, RegisterSettings and RegisterTime of protocol/message.go.
use phev2mqtt.Base.{
  ℕ, ◌+◌, ◌-◌, List, [], ◌∷◌, ◌++◌, ltb, ◌==◌, if◌then◌else◌, length, get_or, byte, codes, Outcome,
  ok, panic, hex_byte, hex_encode, hex_padded, little_endian, take,
}
use phev2mqtt.Protocol.Constants.{time_register}
use phev2mqtt.Protocol.Types.{
  PhevMessage, empty_message, RegisterGeneric, RegisterSettings, RegisterTime,
}

unfoldable pub decode_generic : RegisterGeneric → PhevMessage → RegisterGeneric
decode_generic r m = record { reg = m.register; value = m.data_bytes }

unfoldable pub encode_generic : RegisterGeneric → PhevMessage
encode_generic r = record empty_message { register = r.reg; data_bytes = r.value }

unfoldable pub string_generic : RegisterGeneric → List ℕ
string_generic r = codes "g(0x" ++ (hex_byte r.reg ++ (codes "): " ++ hex_encode r.value))

unfoldable pub decode_settings : RegisterSettings → PhevMessage → RegisterSettings
decode_settings r m = record { register = m.register; raw = m.data_bytes }

unfoldable pub encode_settings : RegisterSettings → PhevMessage
encode_settings r = record empty_message { register = r.register; data_bytes = r.raw }

-- Uint64 reads eight bytes and panics where there are fewer.
unfoldable pub string_settings : RegisterSettings → Outcome (List ℕ)
string_settings r =
    if ltb (length r.raw) 8
    then panic
    else ok (codes "Car Settings: " ++ hex_padded 16 (little_endian (take 8 r.raw)))

-- Package time: `date` is time.Date in the local zone with no nanoseconds, the next are the fields
-- of a time whose year is not negative, and `show` is its String method.
pub record Clock : Type 0 where
  pub date : ℕ → ℕ → ℕ → ℕ → ℕ → ℕ → ℕ
  pub year : ℕ → ℕ
  pub month : ℕ → ℕ
  pub day : ℕ → ℕ
  pub hour : ℕ → ℕ
  pub minute : ℕ → ℕ
  pub second : ℕ → ℕ
  pub weekday : ℕ → ℕ
  pub show : ℕ → List ℕ

module _ (clock : Clock) where
  open clock use {date, year, month, day, hour, minute, second, weekday}

  -- 2048 is 0 as a byte; it keeps `year - 2000` from stopping at 0.
  unfoldable pub encode_time_bytes : ℕ → List ℕ
  encode_time_bytes t =
      byte (year t + 2048 - 2000)
      ∷ byte (month t)
      ∷ byte (day t)
      ∷ byte (hour t)
      ∷ byte (minute t)
      ∷ byte (second t)
      ∷ byte (weekday t)
      ∷ []

  unfoldable pub decode_time_bytes : List ℕ → ℕ
  decode_time_bytes m =
      date (2000 + get_or m 0 0) (get_or m 1 0) (get_or m 2 0) (get_or m 3 0) (get_or m 4 0)
        (get_or m 5 0)

  unfoldable pub decode_time : RegisterTime → PhevMessage → RegisterTime
  unfolding decode_time_bytes
  decode_time r m =
      if length m.data_bytes == 7
      then record { time = decode_time_bytes m.data_bytes; raw = m.data_bytes }
      else r

  unfoldable pub encode_time : RegisterTime → PhevMessage
  unfolding encode_time_bytes
  encode_time r = record empty_message {
    register = time_register;
    data_bytes = encode_time_bytes r.time;
  }

  unfoldable pub string_time : RegisterTime → List ℕ
  string_time r = clock.show r.time
