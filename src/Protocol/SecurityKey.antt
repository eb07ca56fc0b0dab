-- ===== src/Protocol/SecurityKey.antt =====
-- The session keys of protocol/raw.go: SecurityKey and its methods. Log calls are left out.
-- A key map is a list of bytes; `s_num` and `r_num` are bytes and wrap at 256.
pub mod Schedule
pub mod Counters
use phev2mqtt.Base.{
  ℕ, zero, suc, ◌+◌, ◌*◌, ◌/◌, ◌%◌, ◌^◌, bit_and, bit_or, Bool, List, [], ◌∷◌, ◌++◌, ltb, ◌==◌,
  if◌then◌else◌, length, get_elem?, get_or, set, replicate, byte, Outcome, ok, in_range, ◌>>=◌,
}

pub data SecurityState : Type 0 where
  security_empty security_key_proposed security_key_accepted : SecurityState

pub record SecurityKey : Type 0 where
  pub state : SecurityState
  pub proposed_key : List ℕ
  pub security_key : ℕ
  pub key_map : List ℕ
  pub s_num : ℕ
  pub r_num : ℕ

-- The zero value, which the client and the emulator start from.
abbrev pub new_key : SecurityKey
new_key = record {
  state = security_empty;
  proposed_key = [];
  security_key = 0;
  key_map = [];
  s_num = 0;
  r_num = 0;
}

-- `rand_read` is crypto/rand.Read: it fills the slice that it is given.
unfoldable pub generate_proposal : (List ℕ → List ℕ) → SecurityKey → SecurityKey
generate_proposal rand_read s = record s {
  proposed_key = rand_read (replicate 8 0);
  state = security_key_proposed;
}

-- `(packet[i] & 0x8) >> 3 | … | (packet[i + 7] & 0x8) << 4`, for a list that starts at packet[4].
unfoldable pub extract_key : List ℕ → ℕ
extract_key p =
    let bit = λ (i : ℕ). bit_and (get_or p i 0) 0x8 in
    bit_or
      (bit_or
        (bit_or
          (bit_or (bit_or (bit_or (bit_or (bit 4 / 2 ^ 3) (bit 5 / 2 ^ 2)) (bit 6 / 2 ^ 1)) (bit 7))
            (byte (bit 8 * 2 ^ 1)))
          (byte (bit 9 * 2 ^ 2)))
        (byte (bit 10 * 2 ^ 3)))
      (byte (bit 11 * 2 ^ 4))

-- The first loop: keyMap[i] = byte(i), with `left` rounds to go.
unfoldable pub fill_key_map : ℕ → ℕ → List ℕ → List ℕ
fill_key_map zero i m = m
fill_key_map (suc left) i m = fill_key_map left (i + 1) (set m i (byte i))

-- The second loop, which swaps keyMap[i] with keyMap[index], with `left` rounds to go.
unfoldable pub mix_key_map : ℕ → ℕ → ℕ → ℕ → List ℕ → Outcome (List ℕ)
mix_key_map s_key zero i index m = ok m
mix_key_map s_key (suc left) i index m = do
  temp ← in_range (get_elem? m i)
  let next = (index + temp + s_key) % 256
  other ← in_range (get_elem? m next)
  mix_key_map s_key left (i + 1) next (set (set m i other) next temp)

unfoldable pub update : SecurityKey → List ℕ → Outcome SecurityKey
update s packet =
    if ltb (length packet) 12
    then ok (record s { key_map = []; security_key = 0x0; s_num = 0; r_num = 0 })
    else (do
      let key = extract_key packet
      m ← mix_key_map key 256 0 0 (fill_key_map 256 0 (replicate 256 0))
      ok (record s { security_key = key; key_map = m; s_num = 0; r_num = 0 }))

unfoldable pub accept_proposal : SecurityKey → Outcome SecurityKey
accept_proposal s = do
  s' ← update s (0x0 ∷ 0x0 ∷ 0x0 ∷ 0x0 ∷ s.proposed_key)
  ok (record s' { state = security_key_accepted })

-- The copy holds slices of its own; values cannot be shared here, so it is `s` field by field.
unfoldable pub snapshot : SecurityKey → SecurityKey
snapshot s = record {
  state = s.state;
  proposed_key = s.proposed_key;
  security_key = s.security_key;
  key_map = s.key_map;
  s_num = s.s_num;
  r_num = s.r_num;
}

-- Both return the key byte and the state after the call.
unfoldable pub r_key : Bool → SecurityKey → Outcome (ℕ × SecurityKey)
r_key increment s = if length s.key_map == 0 then ok (0, s) else (do
  k ← in_range (get_elem? s.key_map s.r_num)
  ok (k, if increment then record s { r_num = byte (s.r_num + 1) } else s))

unfoldable pub s_key : Bool → SecurityKey → Outcome (ℕ × SecurityKey)
s_key increment s = if length s.key_map == 0 then ok (0, s) else (do
  k ← in_range (get_elem? s.key_map s.s_num)
  ok (k, if increment then record s { s_num = byte (s.s_num + 1) } else s))
