-- ===== src/Protocol/Settings/Laws.antt =====
-- Settings: which registers are accepted, what is kept of them, and what the sender sends back.
use native.Mathlib.Nat.{pow-suc}
use phev2mqtt.Base.{
  ◌^◌, ℕ_discrete, ℕ, zero, suc, ◌+◌, ◌*◌, ◌/◌, ◌%◌, ◌<◌, ◌≡◌, refl, ◌⊎◌, inl, inr, true, false,
  List, [], ◌∷◌, ◌++◌, ◌==◌, arith, All, if◌then◌else◌, length, get_or, ok, err, IsBytes,
  Bool-cases, little_endian, put_little_endian,
}
use phev2mqtt.Protocol.Types.{PhevMessage}
use phev2mqtt.Protocol.Settings.{
  Settings, contains, from_register, new_sender, start, setting_messages,
}

-- The registers that FromRegister takes.
pub record IsSetting (reg : List ℕ) : Type 0 where
  pub size : length reg ≡ 8
  pub first : get_or reg 0 0 ≡ 0x2
  pub last : get_or reg 7 0 ≡ 0x0

-- No value stands twice.
abbrev pub Distinct : List ℕ → Type 0
Distinct [] = Unit
Distinct (v ∷ vs) = (contains v vs ≡ false) × Distinct vs

-- Writing the value of eight bytes gives the bytes back.
pub put_little_endian_lem :
    (bs : List ℕ) → IsBytes bs → put_little_endian (length bs) (little_endian bs) ≡ bs
put_little_endian_lem [] b = refl
put_little_endian_lem (x ∷ bs) b =
    let low : (x + 256 * little_endian bs) % 256 ≡ x = omega (arith, b.0) in
    let high : (x + 256 * little_endian bs) / 256 ≡ little_endian bs = omega (arith, b.0) in
    rw (low, high, put_little_endian_lem bs b.1) refl

contains-append :
    (v w : ℕ) (vs : List ℕ)
    → contains v (vs ++ (w ∷ [])) ≡ (if contains v vs then true else (v == w))
unfolding contains
contains-append v w [] = ground arith
contains-append v w (x ∷ vs) = ground (arith, contains-append v w vs)

Distinct-append :
    (w : ℕ) (vs : List ℕ) → Distinct vs → contains w vs ≡ false → Distinct (vs ++ (w ∷ []))
unfolding contains
Distinct-append w [] d h = (refl, tt)
Distinct-append w (x ∷ vs) d h =
    (ground (arith, contains-append x w vs, d.0), Distinct-append w vs d.1 (ground arith))

-- FromRegister refuses just the registers that are no setting; of a setting the value is among the
-- kept ones afterwards, those kept before stay, and no value is kept twice if none was before.
pub from_register_lem :
    (s : Settings) (reg : List ℕ)
    → Distinct s.settings
    → ((from_register s reg ≡ err) × (¬ IsSetting reg))
      ⊎ ((t : Settings) × (from_register s reg ≡ ok t)
          × IsSetting reg
          × (contains (little_endian reg) t.settings ≡ true)
          × Distinct t.settings
          × ((v : ℕ) → contains v s.settings ≡ true → contains v t.settings ≡ true))
unfolding from_register
from_register_lem s reg d = elim (ℕ_discrete (length reg) 8) [
  | no n ↦ inl (ground (arith, n), λ h. n h.size)
  | yes size ↦ elim (ℕ_discrete (get_or reg 0 0) 0x2) [
    | no n ↦ inl (ground (arith, n), λ h. n h.first)
    | yes first ↦ elim (ℕ_discrete (get_or reg 7 0) 0x0) [
      | no n ↦ inl (ground (arith, n), λ h. n h.last)
      | yes last ↦
          let v : IsSetting reg = record { size = size; first = first; last = last } in
          elim (Bool-cases (contains (little_endian reg) s.settings)) [
            | inl old ↦ inr (s, rw (size, first, last, old) refl, v, old, d, λ w h. h)
            | inr new ↦ inr (
              record { settings = s.settings ++ (little_endian reg ∷ []) },
              rw (size, first, last, new) refl,
              v,
              ground (arith, contains-append (little_endian reg) (little_endian reg) s.settings),
              Distinct-append (little_endian reg) s.settings d new,
              λ w h. ground (arith, contains-append w (little_endian reg) s.settings),
            )
          ]
    ]
  ]
]

little_endian_lem : (w n : ℕ) → n < 256 ^ w → little_endian (put_little_endian w n) ≡ n
little_endian_lem zero n h = omega arith
little_endian_lem (suc w) n h =
    omega (arith, little_endian_lem w (n / 256) (omega (arith, pow-suc 256 w, h)))

-- What the sender of some settings yields: a notification of register 0x16 for each value, in
-- order, whose eight data bytes have that value.
abbrev pub Yields : List ℕ → List PhevMessage → Type 0
Yields [] ms = ms ≡ []
Yields (v ∷ vs) [] = ⊥
Yields (v ∷ vs) (m ∷ ms) =
    (m.typ ≡ 0x6f)
    × (m.register ≡ 0x16)
    × (m.ack ≡ 0)
    × (length m.data_bytes ≡ 8)
    × (little_endian m.data_bytes ≡ v)
    × Yields vs ms

-- Start sends each 64-bit setting once, in order, in the form that FromRegister reads.
pub start_lem :
    (s : Settings) → All (λ v. v < 256 ^ 8) s.settings → Yields s.settings (start (new_sender s)).c
unfolding start new_sender
start_lem s h = yields s.settings h
  where
    yields : (vs : List ℕ) → All (λ v. v < 256 ^ 8) vs → Yields vs (setting_messages vs)
    yields [] h = refl
    yields (v ∷ vs) h = (refl, refl, refl, refl, little_endian_lem 8 v h.0, yields vs h.1)
