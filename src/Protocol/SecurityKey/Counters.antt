-- ===== src/Protocol/SecurityKey/Counters.antt =====
-- RKey and SKey: valid keys never panic, and the two indices run through the key map.
use Prim.Native.Nat.add
use mathlib.Core.List.{Perm, perm_append_comm}
use mathlib.Core.List.Perm
use phev2mqtt.Base.{
  >>=-eq-ok, ◌++◌, take_all, length-drop, take-append-drop, ℕ, zero, suc, ◌+◌, ◌-◌, ◌%◌, ◌≤◌, ◌<◌,
  ◌≡◌, refl, ap, List, [], ◌∷◌, arith, ◌⊎◌, inl, inr, Bool, true, false, dec_lt, length, get_or,
  byte, Outcome, ok, ◌>>=◌, take, drop, drop-eq-cons, get_elem?-eq-get_or, take, drop, drop-eq-cons,
}
use phev2mqtt.Protocol.SecurityKey.{SecurityKey, update, r_key, s_key, new_key}
use phev2mqtt.Protocol.SecurityKey.Schedule.{
  up_from, IsKeyMap, IsRekeyed, update-IsRekeyed, update_short,
}

-- The key map is empty or a permutation of all bytes, and both indices are bytes.
pub record IsValid (s : SecurityKey) : Type 0 where
  pub mapped : (s.key_map ≡ []) ⊎ IsKeyMap s.key_map
  pub send_byte : s.s_num < 256
  pub receive_byte : s.r_num < 256

pub new_key-IsValid : IsValid new_key
new_key-IsValid = record { mapped = inl refl; send_byte = omega arith; receive_byte = omega arith }

-- Update makes any key valid.
pub update-IsValid :
    (s : SecurityKey) (packet : List ℕ)
    → (s' : SecurityKey) × (update s packet ≡ ok s') × IsValid s'
update-IsValid s packet = elim (dec_lt (length packet) 12) [
  | yes short ↦ (
    record s { key_map = []; security_key = 0; s_num = 0; r_num = 0 },
    update_short s packet short,
    record { mapped = inl refl; send_byte = omega arith; receive_byte = omega arith },
  )
  | no long ↦ keyed (update-IsRekeyed s packet (omega arith))
]
  where
    keyed :
        (s' : SecurityKey) × (update s packet ≡ ok s') × IsRekeyed s packet s'
        → (s' : SecurityKey) × (update s packet ≡ ok s') × IsValid s'
    keyed (s', e, v) = (
      s',
      e,
      record {
        mapped = inr v.is_key_map;
        send_byte = omega (arith, v.send_reset);
        receive_byte = omega (arith, v.receive_reset);
      },
    )

-- The index after a call.
pub advance : Bool → ℕ → ℕ
advance true n = byte (n + 1)
advance false n = n

-- With a valid key RKey returns the key byte at the receive index, and moves that index only: one
-- on, modulo 256, when it is told to and there is a key map.
pub r_key_lem :
    (increment : Bool) (s : SecurityKey)
    → IsValid s
    → ((s.key_map ≡ []) × (r_key increment s ≡ ok (0, s)))
      ⊎ ((length s.key_map ≡ 256)
          × (r_key increment s
              ≡ ok (get_or s.key_map s.r_num 0, record s { r_num = advance increment s.r_num })))
unfolding r_key advance
r_key_lem increment s v = elim v.mapped [
  | inl e ↦ inl (e, rw (ap length e) refl)
  | inr m ↦
      inr (m.size, ground (arith, m.size, v.receive_byte, get_elem?-eq-get_or s.key_map s.r_num 0))
]

-- With a valid key SKey returns the key byte at the send index, and moves that index only.
pub s_key_lem :
    (increment : Bool) (s : SecurityKey)
    → IsValid s
    → ((s.key_map ≡ []) × (s_key increment s ≡ ok (0, s)))
      ⊎ ((length s.key_map ≡ 256)
          × (s_key increment s
              ≡ ok (get_or s.key_map s.s_num 0, record s { s_num = advance increment s.s_num })))
unfolding s_key advance
s_key_lem increment s v = elim v.mapped [
  | inl e ↦ inl (e, rw (ap length e) refl)
  | inr m ↦
      inr (m.size, ground (arith, m.size, v.send_byte, get_elem?-eq-get_or s.key_map s.s_num 0))
]

advance-lt : (increment : Bool) (n : ℕ) → n < 256 → advance increment n < 256
unfolding advance
advance-lt true n h = omega arith
advance-lt false n h = h

pub r_key-IsValid :
    (increment : Bool) (s : SecurityKey)
    → IsValid s
    → (k : ℕ) × (s' : SecurityKey) × (r_key increment s ≡ ok (k, s')) × IsValid s'
r_key-IsValid increment s v = elim (r_key_lem increment s v) [
  | inl (_, e) ↦ (0, s, e, v)
  | inr (_, e) ↦ (
    get_or s.key_map s.r_num 0,
    record s { r_num = advance increment s.r_num },
    e,
    record {
      mapped = v.mapped;
      send_byte = v.send_byte;
      receive_byte = advance-lt increment s.r_num v.receive_byte;
    },
  )
]

pub s_key-IsValid :
    (increment : Bool) (s : SecurityKey)
    → IsValid s
    → (k : ℕ) × (s' : SecurityKey) × (s_key increment s ≡ ok (k, s')) × IsValid s'
s_key-IsValid increment s v = elim (s_key_lem increment s v) [
  | inl (_, e) ↦ (0, s, e, v)
  | inr (_, e) ↦ (
    get_or s.key_map s.s_num 0,
    record s { s_num = advance increment s.s_num },
    e,
    record {
      mapped = v.mapped;
      send_byte = advance-lt increment s.s_num v.send_byte;
      receive_byte = v.receive_byte;
    },
  )
]

-- The key bytes of `n` sends in a row, each of which advances the send index.
abbrev pub s_keys : ℕ → SecurityKey → Outcome (List ℕ × SecurityKey)
s_keys zero s = ok ([], s)
s_keys (suc n) s = do (k, s') ← s_key true s; (ks, s'') ← s_keys n s'; ok (k ∷ ks, s'')

-- Past the end of the key map only the empty stretch is left.
same_tail :
    (n k : ℕ) (m : List ℕ)
    → k + suc n ≤ 256
    → take n (drop ((k + 1) % 256) m) ≡ take n (drop (suc k) m)
same_tail zero k m h = refl
same_tail (suc n) k m h = let e : (k + 1) % 256 ≡ suc k = omega arith in rw e refl

s_keys_stretch :
    (n : ℕ) (s : SecurityKey)
    → length s.key_map ≡ 256
    → s.s_num < 256
    → s.s_num + n ≤ 256
    → s_keys n s ≡ ok (take n (drop s.s_num s.key_map), record s { s_num = (s.s_num + n) % 256 })
s_keys_stretch zero s size small h =
    let e : (s.s_num + 0) % 256 ≡ s.s_num = omega arith in rw e refl
s_keys_stretch (suc n) s size small h =
    let step : s_key true s
        ≡ ok (get_or s.key_map s.s_num 0, record s { s_num = (s.s_num + 1) % 256 }) =
      unfold s_key in ground (arith, size, get_elem?-eq-get_or s.key_map s.s_num 0) in
    let k : ℕ = s.s_num in
    let s' : SecurityKey = record s { s_num = (k + 1) % 256 } in
    let rest = s_keys_stretch n s' size (omega arith) (omega arith) in
    let last : ((k + 1) % 256 + n) % 256 ≡ (k + suc n) % 256 = omega arith in
    rw (step, drop-eq-cons s.key_map k 0 (omega (arith, size)), rest, last)
      (ap (λ (ks : List ℕ). ok (get_or s.key_map k 0 ∷ ks, record s { s_num = (k + suc n) % 256 }))
        (same_tail n k s.key_map h))

s_keys_split :
    (a b : ℕ) (s : SecurityKey) {s' s'' : SecurityKey} {ks ls : List ℕ}
    → s_keys a s ≡ ok (ks, s')
    → s_keys b s' ≡ ok (ls, s'')
    → s_keys (a + b) s ≡ ok (ks ++ ls, s'')
s_keys_split zero b s p q = rw (add.zero b) (ground (arith, p, q))
s_keys_split (suc a) b s {s' = s'} {s'' = s''} {ls = ls} p q =
    let (first, e, p') = >>=-eq-ok (s_key true s) _ p in
    let (others, e', p'') = >>=-eq-ok (s_keys a first.1) _ p' in
    let q' : s_keys b others.1 ≡ ok (ls, s'') = ground (arith, p'') in
    let rest = s_keys_split a b first.1 {s' = others.1} {ks = others.0} e' q' in
    rw (add.suc a b, e, rest) (ground (arith, p''))

-- With a key map and a send index that is a byte, over 256 sends each byte serves as the key once, and the key is then as it was.
pub s_keys_cycle :
    (s : SecurityKey)
    → IsKeyMap s.key_map
    → s.s_num < 256
    → (ks : List ℕ) × (s_keys 256 s ≡ ok (ks, s)) × Perm ks (up_from 256 0)
s_keys_cycle s m small =
    let k : ℕ = s.s_num in
    let start : SecurityKey = record s { s_num = 0 } in
    let wrap : (k + (256 - k)) % 256 ≡ 0 = omega arith in
    let back : (0 + k) % 256 ≡ k = omega arith in
    let all : (256 - k) + k ≡ 256 = omega arith in
    let head = take (256 - k) (drop k s.key_map) in
    let first : s_keys (256 - k) s ≡ ok (head, start) =
      rw wrap at (s_keys_stretch (256 - k) s m.size small (omega arith)) in
    let second : s_keys k start ≡ ok (take k s.key_map, s) =
      rw back at (s_keys_stretch k start m.size (omega arith) (omega arith)) in
    let whole : head ≡ drop k s.key_map =
      take_all (drop k s.key_map) (256 - k) (omega (arith, length-drop k s.key_map, m.size)) in
    (
      head ++ take k s.key_map,
      rw all at (s_keys_split (256 - k) k s first second),
      rw whole (
          Perm.trans (perm_append_comm (drop k s.key_map) (take k s.key_map))
            (rw (take-append-drop k s.key_map) m.perm)),
    )
