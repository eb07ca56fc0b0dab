-- ===== src/Base/Text.antt =====
-- Texts as the source prints them: the verbs %d, %x, %02x and %016x of fmt, hex.EncodeToString, and
-- the little-endian words of encoding/binary.
use Prim.Native.Nat.{ℕ, zero, suc, ◌+◌, ◌*◌, ◌/◌, ◌%◌}
use mathlib.Core.List.{List, [], ◌∷◌, ◌++◌}
use phev2mqtt.Base.Tests.{ltb, if◌then◌else◌}

abbrev digit : ℕ → ℕ
digit d = if ltb d 10 then d + 48 else d + 87

-- %02x of a byte.
abbrev pub hex_byte : ℕ → List ℕ
hex_byte b = digit (b / 16) ∷ digit (b % 16) ∷ []

-- %x of a byte.
abbrev pub hex_short : ℕ → List ℕ
hex_short b = if ltb b 16 then digit b ∷ [] else hex_byte b

abbrev pub hex_encode : List ℕ → List ℕ
hex_encode [] = []
hex_encode (b ∷ bs) = digit (b / 16) ∷ digit (b % 16) ∷ hex_encode bs

-- The last `w` hexadecimal digits of a number, with leading zeros.
abbrev pub hex_padded : ℕ → ℕ → List ℕ
hex_padded zero n = []
hex_padded (suc w) n = hex_padded w (n / 16) ++ (digit (n % 16) ∷ [])

decimal_digits : ℕ → ℕ → List ℕ
decimal_digits zero n = []
decimal_digits (suc f) n =
    let front = decimal_digits f (n / 10) in
    if ltb n 10 then digit n ∷ [] else front ++ (digit (n % 10) ∷ [])

-- %d of a number that is not negative; it has no more digits than its value plus one.
unfoldable pub decimal : ℕ → List ℕ
unfolding decimal_digits
decimal n = decimal_digits (suc n) n

-- The value of bytes, the lowest first.
abbrev pub little_endian : List ℕ → ℕ
little_endian [] = 0
little_endian (b ∷ bs) = b + 256 * little_endian bs

-- The `w` lowest bytes of a number, the lowest first.
abbrev pub put_little_endian : ℕ → ℕ → List ℕ
put_little_endian zero n = []
put_little_endian (suc w) n = (n % 256) ∷ put_little_endian w (n / 256)
