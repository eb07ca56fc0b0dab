-- ===== src/Protocol/Frame/Checksum.antt =====
-- What Checksum and ValidateChecksum compute, and what a well-formed frame is.
use phev2mqtt.Base.{
  ℕ, zero, suc, ◌+◌, ◌-◌, ◌%◌, ◌≤◌, ◌<◌, ◌≡◌, ap, ◌∙◌, List, [], ◌∷◌, ◌&&◌, leb, ◌==◌, arith,
  length, get_or, take, ok, get_elem?-eq-get_or,
}
use phev2mqtt.Protocol.Frame.{sum_bytes, checksum, validate_checksum}

abbrev pub sum : List ℕ → ℕ
sum [] = 0
sum (x ∷ xs) = x + sum xs

-- A frame holds its length less two at index 1 and the sum of the bytes before it at the end.
pub record IsFrame (f : List ℕ) : Type 0 where
  pub has_length : 2 ≤ length f
  pub length_byte : length f ≡ get_or f 1 0 + 2
  pub sum_byte : get_or f (length f - 1) 0 ≡ sum (take (length f - 1) f) % 256

sum_bytes_lem :
    (n : ℕ) (xs : List ℕ) (b : ℕ)
    → n ≤ length xs
    → b < 256
    → sum_bytes n xs b ≡ ok ((b + sum (take n xs)) % 256)
unfolding sum_bytes
sum_bytes_lem zero xs b h k = ap ok (omega arith)
sum_bytes_lem (suc n) [] b h k = absurd (omega arith)
sum_bytes_lem (suc n) (x ∷ xs) b h k =
    sum_bytes_lem n xs ((b + x) % 256) (omega arith) (omega arith) ∙ ap ok (omega arith)

pub checksum_lem :
    (m : List ℕ)
    → 2 ≤ length m
    → get_or m 1 0 + 1 ≤ length m
    → checksum m ≡ ok (sum (take (get_or m 1 0 + 1) m) % 256)
unfolding checksum
checksum_lem m h k = ground (arith, get_elem?-eq-get_or m 1 0, sum_bytes_lem (get_or m 1 0 + 1) m 0)

pub validate_checksum_lem :
    (m : List ℕ)
    → 2 ≤ length m
    → let n = get_or m 1 0 in
      validate_checksum m
      ≡ ok (leb (n + 2) (length m) && (sum (take (n + 1) m) % 256 == get_or m (n + 1) 0))
unfolding validate_checksum
validate_checksum_lem m h =
    ground
      (arith, get_elem?-eq-get_or m 1 0, get_elem?-eq-get_or m (get_or m 1 0 + 1) 0, checksum_lem m)
