-- ===== src/Protocol/SecurityKey/Schedule.antt =====
-- Update: the key byte it extracts, and the key map that it builds, a permutation of all bytes.
use mathlib.Core.List.{Perm}
use mathlib.Core.List.Perm
use phev2mqtt.Base.{
  ℕ, zero, suc, ◌+◌, ◌*◌, ◌/◌, ◌%◌, ◌≤◌, ◌<◌, ◌≡◌, refl, sym, ◌∙◌, List, [], ◌∷◌, some, arith,
  length, get_elem?, get_or, set, replicate, IsByte, IsBytes, All-get_or, ok, le→ltb, lt→ltb,
  bit_and-eight, bit_or_shifted, get_elem?-eq-get_or, length-set,
}
use phev2mqtt.Protocol.SecurityKey.{SecurityKey, extract_key, fill_key_map, mix_key_map, update}

-- The value that Go swaps in at `i` and the one it swaps out to `j`.
abbrev swap : List ℕ → ℕ → ℕ → List ℕ
swap m i j = set (set m i (get_or m j 0)) j (get_or m i 0)

swap_first-perm :
    (x : ℕ) (xs : List ℕ) (j : ℕ) → j < length xs → Perm (get_or xs j 0 ∷ set xs j x) (x ∷ xs)
swap_first-perm x [] j h = absurd (omega arith)
swap_first-perm x (y ∷ ys) zero h = Perm.swap x y ys
swap_first-perm x (y ∷ ys) (suc j) h =
    Perm.trans (Perm.swap y (get_or ys j 0) (set ys j x))
      (Perm.trans (Perm.cons y (swap_first-perm x ys j (omega arith))) (Perm.swap x y ys))

swap-perm : (m : List ℕ) (i j : ℕ) → i < length m → j < length m → Perm (swap m i j) m
swap-perm [] i j p q = absurd (omega arith)
swap-perm (x ∷ xs) zero zero p q = Perm.refl (x ∷ xs)
swap-perm (x ∷ xs) zero (suc j) p q = swap_first-perm x xs j (omega arith)
swap-perm (x ∷ xs) (suc i) zero p q = swap_first-perm x xs i (omega arith)
swap-perm (x ∷ xs) (suc i) (suc j) p q = Perm.cons x (swap-perm xs i j (omega arith) (omega arith))

IsBytes-set : (m : List ℕ) (i v : ℕ) → IsBytes m → v < 256 → IsBytes (set m i v)
IsBytes-set [] i v b h = tt
IsBytes-set (x ∷ m) zero v b h = (h, b.1)
IsBytes-set (x ∷ m) (suc i) v b h = (b.0, IsBytes-set m i v b.1 h)

-- The `n` numbers from `i` on.
abbrev pub up_from : ℕ → ℕ → List ℕ
up_from zero i = []
up_from (suc n) i = i ∷ up_from n (suc i)

-- A key map has each of the 256 bytes once.
pub record IsKeyMap (m : List ℕ) : Type 0 where
  pub size : length m ≡ 256
  pub bytes : IsBytes m
  pub perm : Perm m (up_from 256 0)

fill_key_map-identity : fill_key_map 256 0 (replicate 256 0) ≡ up_from 256 0
unfolding fill_key_map
fill_key_map-identity = refl

pub identity-IsKeyMap : IsKeyMap (up_from 256 0)
identity-IsKeyMap = record { size = refl; bytes = omega arith; perm = Perm.refl (up_from 256 0) }

swap-IsKeyMap : (m : List ℕ) (i j : ℕ) → i < 256 → j < 256 → IsKeyMap m → IsKeyMap (swap m i j)
swap-IsKeyMap m i j p q v = record {
  size =
      length-set (set m i (get_or m j 0)) j (get_or m i 0) ∙ length-set m i (get_or m j 0) ∙ v.size;
  bytes =
      IsBytes-set (set m i (get_or m j 0)) j (get_or m i 0)
        (IsBytes-set m i (get_or m j 0) v.bytes (All-get_or IsByte m j 0 v.bytes (omega arith)))
        (All-get_or IsByte m i 0 v.bytes (omega arith));
  perm = Perm.trans (swap-perm m i j (rw v.size p) (rw v.size q)) v.perm;
}

mix_key_map-IsKeyMap :
    (s_key left i index : ℕ) (m : List ℕ)
    → i + left ≡ 256
    → IsKeyMap m
    → (m' : List ℕ) × (mix_key_map s_key left i index m ≡ ok m') × IsKeyMap m'
unfolding mix_key_map
mix_key_map-IsKeyMap s_key zero i index m e v = (m, refl, v)
mix_key_map-IsKeyMap s_key (suc left) i index m e v =
    let next = (index + get_or m i 0 + s_key) % 256 in
    let first : get_elem? m i ≡ some (get_or m i 0) =
      get_elem?-eq-get_or m i 0 (omega (arith, v.size)) in
    let second : get_elem? m next ≡ some (get_or m next 0) =
      get_elem?-eq-get_or m next 0 (omega (arith, v.size)) in
    rw (first, second)
      (mix_key_map-IsKeyMap s_key left (i + 1) next (swap m i next) (omega arith)
        (swap-IsKeyMap m i next (omega arith) (omega arith) v))

-- Bit 3 of the byte at `i`.
abbrev pub bit_three : List ℕ → ℕ → ℕ
bit_three p i = get_or p i 0 / 8 % 2

-- The key byte is made of bit 3 of the bytes at 4 to 11, the lowest bit first.
abbrev pub key_bits : List ℕ → ℕ
key_bits p =
    bit_three p 4
    + 2 * bit_three p 5
    + 4 * bit_three p 6
    + 8 * bit_three p 7
    + 16 * bit_three p 8
    + 32 * bit_three p 9
    + 64 * bit_three p 10
    + 128 * bit_three p 11

extract_key_lem : (p : List ℕ) → extract_key p ≡ key_bits p
unfolding extract_key
extract_key_lem p =
    let b = λ (i : ℕ). bit_three p i in
    let r5 = b 4 + b 5 * 2 in
    let r6 = r5 + b 6 * 4 in
    let r7 = r6 + b 7 * 8 in
    let r8 = r7 + b 8 * 16 in
    let r9 = r8 + b 9 * 32 in
    let r10 = r9 + b 10 * 64 in
    ground (
      arith,
      bit_and-eight (get_or p 4 0),
      bit_and-eight (get_or p 5 0),
      bit_and-eight (get_or p 6 0),
      bit_and-eight (get_or p 7 0),
      bit_and-eight (get_or p 8 0),
      bit_and-eight (get_or p 9 0),
      bit_and-eight (get_or p 10 0),
      bit_and-eight (get_or p 11 0),
      bit_or_shifted 1 (b 4) (b 5) (omega arith),
      bit_or_shifted 2 r5 (b 6) (omega arith),
      bit_or_shifted 3 r6 (b 7) (omega arith),
      bit_or_shifted 4 r7 (b 8) (omega arith),
      bit_or_shifted 5 r8 (b 9) (omega arith),
      bit_or_shifted 6 r9 (b 10) (omega arith),
      bit_or_shifted 7 r10 (b 11) (omega arith),
    )

-- What Update leaves behind for a packet that is long enough.
pub record IsRekeyed (s : SecurityKey) (packet : List ℕ) (s' : SecurityKey) : Type 0 where
  pub key_byte : s'.security_key ≡ key_bits packet
  pub is_key_map : IsKeyMap s'.key_map
  pub send_reset : s'.s_num ≡ 0
  pub receive_reset : s'.r_num ≡ 0
  pub same_state : s'.state ≡ s.state
  pub same_proposal : s'.proposed_key ≡ s.proposed_key

-- On a packet of at least 12 bytes Update does not panic: it sets the key byte from bit 3 of the
-- bytes at 4 to 11, makes the key map a permutation of all 256 bytes and resets both indices.
pub update-IsRekeyed :
    (s : SecurityKey) (packet : List ℕ)
    → 12 ≤ length packet
    → (s' : SecurityKey) × (update s packet ≡ ok s') × IsRekeyed s packet s'
unfolding update
update-IsRekeyed s packet h =
    let (m, e, v) =
      mix_key_map-IsKeyMap (extract_key packet) 256 0 0 (fill_key_map 256 0 (replicate 256 0)) refl
        (rw fill_key_map-identity identity-IsKeyMap) in
    let s' : SecurityKey = record s {
      security_key = extract_key packet;
      key_map = m;
      s_num = 0;
      r_num = 0;
    } in
    (
      s',
      rw (le→ltb _ _ h, e) refl,
      record {
        key_byte = extract_key_lem packet;
        is_key_map = v;
        send_reset = refl;
        receive_reset = refl;
        same_state = refl;
        same_proposal = refl;
      },
    )

-- A shorter packet clears the keys.
pub update_short :
    (s : SecurityKey) (packet : List ℕ)
    → length packet < 12
    → update s packet ≡ ok (record s { key_map = []; security_key = 0; s_num = 0; r_num = 0 })
unfolding update
update_short s packet h = rw (lt→ltb _ _ h) refl

-- The keys that Update derives depend on nothing but the key byte that it extracts.
pub update-same_keys :
    (s t : SecurityKey) (p q : List ℕ)
    → 12 ≤ length p
    → 12 ≤ length q
    → extract_key p ≡ extract_key q
    → (s' : SecurityKey) × (t' : SecurityKey) × (update s p ≡ ok s')
      × (update t q ≡ ok t')
      × IsRekeyed s p s'
      × (s'.key_map ≡ t'.key_map)
      × (s'.security_key ≡ t'.security_key)
      × (t'.s_num ≡ 0)
      × (t'.r_num ≡ 0)
unfolding update
update-same_keys s t p q hp hq same =
    let (m, mixed, v) =
      mix_key_map-IsKeyMap (extract_key q) 256 0 0 (fill_key_map 256 0 (replicate 256 0)) refl
        (rw fill_key_map-identity identity-IsKeyMap) in
    let of_s = λ (k : SecurityKey) (x : ℕ). record k {
      security_key = x;
      key_map = m;
      s_num = 0;
      r_num = 0;
    } in
    let es : update s p ≡ ok (of_s s (extract_key q)) = rw (le→ltb _ _ hp, same, mixed) refl in
    let et : update t q ≡ ok (of_s t (extract_key q)) = rw (le→ltb _ _ hq, mixed) refl in
    (
      of_s s (extract_key q),
      of_s t (extract_key q),
      es,
      et,
      record {
        key_byte = sym same ∙ extract_key_lem p;
        is_key_map = v;
        send_reset = refl;
        receive_reset = refl;
        same_state = refl;
        same_proposal = refl;
      },
      refl,
      refl,
      refl,
      refl,
    )
