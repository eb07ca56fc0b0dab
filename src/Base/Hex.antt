-- ===== src/Base/Hex.antt =====
-- encoding/hex: DecodeString, and that it undoes EncodeToString.
use Prim.Native.Nat.{ℕ, ◌+◌, ◌*◌, ◌-◌, ◌/◌, ◌%◌, ◌<◌}
use mathlib.Core.Path.{◌≡◌, refl}
use mathlib.Core.Bool.{◌&&◌}
use mathlib.Core.Option.{Option, none, some}
use mathlib.Core.List.{List, [], ◌∷◌}
use native.Mathlib.Omega.{arith}
use phev2mqtt.Base.Tests.{ltb, leb, if◌then◌else◌}
use phev2mqtt.Base.Lists.{All}
use phev2mqtt.Base.Text.{hex_encode, hex_byte}

-- The value of a hexadecimal digit.
pub hex_value : ℕ → Option ℕ
hex_value c =
    if leb b'0' c && leb c b'9'
    then some (c - 48)
    else if leb b'a' c && leb c b'f'
    then some (c - 87)
    else if leb b'A' c && leb c b'F'
    then some (c - 55)
    else none

abbrev pair_digits : Option ℕ → Option ℕ → Option (List ℕ) → Option (List ℕ)
pair_digits (some h) (some l) (some bs) = some ((h * 16 + l) ∷ bs)
pair_digits (some h) (some l) none = none
pair_digits (some h) none r = none
pair_digits none l r = none

-- hex.DecodeString; `none` is its error.
unfoldable pub hex_decode : List ℕ → Option (List ℕ)
unfolding hex_value
hex_decode [] = some []
hex_decode (c ∷ []) = none
hex_decode (c ∷ d ∷ cs) = pair_digits (hex_value c) (hex_value d) (hex_decode cs)

hex_value-digit : (n : ℕ) → n < 16 → hex_value (if ltb n 10 then n + 48 else n + 87) ≡ some n
unfolding hex_value
hex_value-digit n h = ground arith

join_digits : (b : ℕ) → (b / 16) * 16 + b % 16 ≡ b
join_digits b = omega arith

pub hex_decode-hex_encode :
    (bs : List ℕ) → All (λ b. b < 256) bs → hex_decode (hex_encode bs) ≡ some bs
unfolding hex_decode
hex_decode-hex_encode [] h = refl
hex_decode-hex_encode (b ∷ bs) h =
    rw
      (
        hex_value-digit (b / 16) (omega arith),
        hex_value-digit (b % 16) (omega arith),
        hex_decode-hex_encode bs h.1,
        join_digits b,
      )
      refl

pub hex_decode-hex_byte : (b : ℕ) → b < 256 → hex_decode (hex_byte b) ≡ some (b ∷ [])
hex_decode-hex_byte b h = hex_decode-hex_encode (b ∷ []) (h, tt)
