-- ===== src/Protocol/Frame.antt =====
-- The framing of protocol/raw.go: XorMessageWith, Checksum, ValidateChecksum and
-- ValidateAndDecodeMessage. An index or a slice out of range is a panic; nil is the empty list.
pub mod Checksum
pub mod Validate
pub mod Roundtrip
use phev2mqtt.Base.{
  ℕ, zero, suc, ◌+◌, ◌-◌, bit_xor, Bool, false, ◌&&◌, List, [], ◌∷◌, map, ltb, leb, ◌==◌,
  if◌then◌else◌, length, get_elem?, take, drop, byte, Outcome, ok, panic, in_range, ◌>>=◌,
}

unfoldable pub xor_message_with : List ℕ → ℕ → List ℕ
xor_message_with message xor = map (λ b. bit_xor b xor) message

-- The loop of Checksum: `n` rounds to go over the bytes from message[i] on, `b` summed so far.
unfoldable pub sum_bytes : ℕ → List ℕ → ℕ → Outcome ℕ
sum_bytes zero xs b = ok b
sum_bytes (suc n) [] b = panic
sum_bytes (suc n) (x ∷ xs) b = sum_bytes n xs (byte (b + x))

unfoldable pub checksum : List ℕ → Outcome ℕ
checksum message = do
  size ← in_range (get_elem? message 1)
  let total = size + 2
  if ltb (length message) (total - 1) then ok 0 else sum_bytes (total - 1) message 0

unfoldable pub validate_checksum : List ℕ → Outcome Bool
validate_checksum message = do
  size ← in_range (get_elem? message 1)
  let total = size + 2
  if ltb (length message) total then ok false else (do
    want_sum ← in_range (get_elem? message (total - 1))
    sum ← checksum message
    ok (sum == want_sum))

-- The slice `s[lo:hi]`.
unfoldable pub slice : List ℕ → ℕ → ℕ → Outcome (List ℕ)
slice s lo hi = if leb lo hi && leb hi (length s) then ok (take (hi - lo) (drop lo s)) else panic

-- The three results: the decoded frame, the xor byte and the bytes behind the frame.
pub record Decoded : Type 0 where
  pub frame : List ℕ
  pub xor : ℕ
  pub rest : List ℕ

abbrev pub no_frame : Decoded
no_frame = record { frame = []; xor = 0; rest = [] }

-- The lines behind the two checks: `msg[:length], xor, message[length:]`.
unfoldable pub cut_frame : List ℕ → List ℕ → ℕ → Outcome Decoded
unfolding slice
cut_frame message msg xor = do
  size ← in_range (get_elem? msg 1)
  let total = size + 2
  frame ← slice msg 0 total
  if ltb total (length message)
      then ok (record { frame = frame; xor = xor; rest = drop total message })
      else ok (record { frame = frame; xor = xor; rest = [] })

unfoldable pub validate_and_decode_message : List ℕ → Outcome Decoded
validate_and_decode_message message = if ltb (length message) 4 then ok no_frame else (do
  xor ← in_range (get_elem? message 2)
  let msg = xor_message_with message xor
  valid ← validate_checksum msg
  if valid then cut_frame message msg xor else (do
    let flipped = bit_xor xor 1
    let msg' = xor_message_with message flipped
    valid' ← validate_checksum msg'
    if valid' then cut_frame message msg' flipped else ok no_frame))
