-- ===== src/Protocol/Frame/Validate.antt =====
-- What ValidateAndDecodeMessage returns: never a panic, only well-formed frames, and the frame
-- that was sent.
use phev2mqtt.Base.{
  ℕ, zero, suc, ◌+◌, ◌%◌, ◌≤◌, ◌<◌, ◌≡◌, refl, sym, ap, ◌⊎◌, inl, inr, Bool, true, List, [], ◌∷◌,
  ◌++◌, ◌&&◌, ltb, leb, ◌==◌, arith, if◌then◌else◌, length, get_or, take, drop, ok, bit_xor,
  get_elem?-eq-get_or, length-map, length-take, get_or-take, take-take, drop_all, take-append-drop,
  map-take, bit_xor_cancel, Bool-cases,
}
use phev2mqtt.Protocol.Frame.{
  Decoded, no_frame, cut_frame, xor_message_with, validate_and_decode_message,
}
use phev2mqtt.Protocol.Frame.Checksum.{sum, IsFrame, validate_checksum_lem}

pub length-xor_message_with : (m : List ℕ) (x : ℕ) → length (xor_message_with m x) ≡ length m
unfolding xor_message_with
length-xor_message_with m x = length-map (λ b. bit_xor b x) m

-- XorMessageWith undoes itself.
pub xor_message_with_cancel : (m : List ℕ) (x : ℕ) → xor_message_with (xor_message_with m x) x ≡ m
unfolding xor_message_with
xor_message_with_cancel [] x = refl
xor_message_with_cancel (b ∷ m) x =
    rw (bit_xor_cancel b x) (ap (◌∷◌ b) (xor_message_with_cancel m x))

pub xor_message_with-append :
    (m n : List ℕ) (x : ℕ)
    → xor_message_with (m ++ n) x ≡ xor_message_with m x ++ xor_message_with n x
unfolding xor_message_with
xor_message_with-append [] n x = refl
xor_message_with-append (b ∷ m) n x = ap (◌∷◌ (bit_xor b x)) (xor_message_with-append m n x)

xor_message_with-take :
    (n : ℕ) (m : List ℕ) (x : ℕ) → xor_message_with (take n m) x ≡ take n (xor_message_with m x)
unfolding xor_message_with
xor_message_with-take n m x = map-take (λ b. bit_xor b x) n m

pub get_or-xor_message_with :
    (m : List ℕ) (i x : ℕ)
    → i < length m
    → get_or (xor_message_with m x) i 0 ≡ bit_xor (get_or m i 0) x
unfolding xor_message_with
get_or-xor_message_with [] i x h = absurd (omega arith)
get_or-xor_message_with (b ∷ m) zero x h = refl
get_or-xor_message_with (b ∷ m) (suc i) x h = get_or-xor_message_with m i x (omega arith)

-- Some prefix of `m` is a frame: the length byte fits and the checksum agrees.
abbrev pub starts_frame : List ℕ → Bool
starts_frame m =
    leb (get_or m 1 0 + 2) (length m)
    && (sum (take (get_or m 1 0 + 1) m) % 256 == get_or m (get_or m 1 0 + 1) 0)

-- The frame at the start of `m` under the xor byte `x`, with what stands behind it.
abbrev pub read_frame : List ℕ → ℕ → Decoded
read_frame m x =
    let n = get_or (xor_message_with m x) 1 0 + 2 in
    record { frame = take n (xor_message_with m x); xor = x; rest = drop n m }

cut_frame_lem :
    (m : List ℕ) (x : ℕ)
    → 2 ≤ length m
    → starts_frame (xor_message_with m x) ≡ true
    → cut_frame m (xor_message_with m x) x ≡ ok (read_frame m x)
unfolding cut_frame
cut_frame_lem m x h v = ground (
  arith,
  length-xor_message_with m x,
  get_elem?-eq-get_or (xor_message_with m x) 1 0,
  drop_all m (get_or (xor_message_with m x) 1 0 + 2),
)

-- A message too short gives no frame; otherwise the byte at index 2 is tried as the xor byte, then
-- that byte with its lowest bit flipped.
pub validate_and_decode_message_lem :
    (m : List ℕ)
    → validate_and_decode_message m
      ≡ ok (
          if ltb (length m) 4
          then no_frame
          else if starts_frame (xor_message_with m (get_or m 2 0))
          then read_frame m (get_or m 2 0)
          else if starts_frame (xor_message_with m (bit_xor (get_or m 2 0) 1))
          then read_frame m (bit_xor (get_or m 2 0) 1)
          else no_frame)
unfolding validate_and_decode_message
validate_and_decode_message_lem m =
    let x = get_or m 2 0 in
    let y = bit_xor x 1 in
    ground (
      arith,
      get_elem?-eq-get_or m 2 0,
      length-xor_message_with m x,
      length-xor_message_with m y,
      validate_checksum_lem (xor_message_with m x),
      validate_checksum_lem (xor_message_with m y),
      cut_frame_lem m x,
      cut_frame_lem m y,
    )

starts_frame→IsFrame : (m : List ℕ) → starts_frame m ≡ true → IsFrame (take (get_or m 1 0 + 2) m)
starts_frame→IsFrame m h =
    let n = get_or m 1 0 in
    ground (
      arith,
      length-take (n + 2) m,
      get_or-take m (n + 2) 1 0,
      get_or-take m (n + 2) (n + 1) 0,
      take-take m (n + 1) (n + 2),
    )

-- The frame `d` that was found at the start of `m`.
pub record IsDecoded (m : List ℕ) (d : Decoded) : Type 0 where
  pub well_formed : IsFrame d.frame
  pub joined : m ≡ xor_message_with d.frame d.xor ++ d.rest
  pub key_byte : (d.xor ≡ get_or m 2 0) ⊎ (d.xor ≡ bit_xor (get_or m 2 0) 1)

read_frame_joined :
    (m : List ℕ) (x : ℕ) → let d = read_frame m x in m ≡ xor_message_with d.frame d.xor ++ d.rest
read_frame_joined m x =
    let n = get_or (xor_message_with m x) 1 0 + 2 in
    rw (xor_message_with-take n (xor_message_with m x) x, xor_message_with_cancel m x)
      (sym (take-append-drop n m))

-- ValidateAndDecodeMessage never panics, and what it returns is no frame at all or a well-formed
-- frame that the message starts with under one of the two xor bytes.
pub validate_and_decode_message_sound :
    (m : List ℕ)
    → (d : Decoded) × (validate_and_decode_message m ≡ ok d) × ((d ≡ no_frame) ⊎ IsDecoded m d)
validate_and_decode_message_sound m =
    rw validate_and_decode_message_lem (elim (Bool-cases (ltb (length m) 4)) [
      | inl e ↦ rw e (no_frame, refl, inl refl)
      | inr e ↦ rw e (elim (Bool-cases (starts_frame (xor_message_with m (get_or m 2 0)))) [
        | inl f ↦ rw f (read_frame m (get_or m 2 0), refl, inr (found f (inl refl)))
        | inr f ↦
            rw f (elim (Bool-cases (starts_frame (xor_message_with m (bit_xor (get_or m 2 0) 1)))) [
              | inl g ↦
                  rw g (read_frame m (bit_xor (get_or m 2 0) 1), refl, inr (found g (inr refl)))
              | inr g ↦ rw g (no_frame, refl, inl refl)
            ])
      ])
    ])
  where
    found :
        {x : ℕ}
        → starts_frame (xor_message_with m x) ≡ true
        → ((x ≡ get_or m 2 0) ⊎ (x ≡ bit_xor (get_or m 2 0) 1))
        → IsDecoded m (read_frame m x)
    found {x} v k = record {
      well_formed = starts_frame→IsFrame (xor_message_with m x) v;
      joined = read_frame_joined m x;
      key_byte = k;
    }
