-- ===== src/Mqtt/Incoming/Asked.antt =====
-- What the climate topics of handleIncomingMqtt ask for, and that it is what is accepted.
use phev2mqtt.Base.{
  ℕ, zero, suc, ◌≡◌, ◌<◌, ◌/◌, ◌%◌, ◌*◌, refl, ◌⊎◌, inl, inr, true, false, List, bit_or, arith,
  codes, ◌==◌, same_text, same_text→eq, Option, none, some, Bool-cases, if◌then◌else◌,
}
use phev2mqtt.Mqtt.Climate.{mode_map, resolve_climate_mode}
use phev2mqtt.Mqtt.Incoming.{duration_map, checked_duration, resolved, climate_request}

-- The modes by their names, and the durations by the payloads that ask for them.
abbrev pub IsMode : List ℕ → ℕ → Type 0
IsMode name mode =
    ((same_text name (codes "off") ≡ true) × (mode ≡ 0x0))
    ⊎ ((same_text name (codes "cool") ≡ true) × (mode ≡ 0x1))
    ⊎ ((same_text name (codes "heat") ≡ true) × (mode ≡ 0x2))
    ⊎ ((same_text name (codes "windscreen") ≡ true) × (mode ≡ 0x3))

abbrev pub IsDuration : List ℕ → ℕ → Type 0
IsDuration payload duration =
    ((same_text payload (codes "10") ≡ true) × (duration ≡ 0x0))
    ⊎ ((same_text payload (codes "20") ≡ true) × (duration ≡ 0x10))
    ⊎ ((same_text payload (codes "30") ≡ true) × (duration ≡ 0x20))
    ⊎ ((same_text payload (codes "on") ≡ true) × (duration ≡ 0x0))
    ⊎ ((same_text payload (codes "off") ≡ true) × (duration ≡ 0x0))

-- What the last part of a topic and a payload ask for.
pub data IsAsked (name payload : List ℕ) (mode duration : ℕ) : Type 0 where
  -- On the topic "mode" the payload names the mode, for 10 minutes.
  by_payload :
      same_text name (codes "mode") ≡ true
      → IsMode payload mode
      → duration ≡ 0x0
      → IsAsked name payload mode duration
  -- On the topic of a mode, "off" asks for the mode off.
  switched_off :
      same_text name (codes "mode") ≡ false
      → same_text payload (codes "off") ≡ true
      → (m : ℕ) × IsMode name m
      → mode ≡ 0x0
      → duration ≡ 0x0
      → IsAsked name payload mode duration
  -- Any other payload names the duration.
  by_name :
      same_text name (codes "mode") ≡ false
      → same_text payload (codes "off") ≡ false
      → IsMode name mode
      → IsDuration payload duration
      → IsAsked name payload mode duration
  -- The topic of the mode off needs no duration.
  no_duration :
      same_text name (codes "mode") ≡ false
      → same_text payload (codes "off") ≡ false
      → IsMode name mode
      → mode ≡ 0x0
      → duration ≡ 0x0
      → duration_map payload ≡ none
      → IsAsked name payload mode duration

-- What every accepted request is: what is asked for, and the mode and the duration can be read back
-- from the byte that holds both.
pub record IsAccepted (name payload : List ℕ) (mode duration : ℕ) : Type 0 where
  pub asked : IsAsked name payload mode duration
  pub mode_known : mode < 4
  pub duration_known : (duration ≡ 0x0) ⊎ (duration ≡ 0x10) ⊎ (duration ≡ 0x20)
  pub packed_mode : bit_or mode duration % 16 ≡ mode
  pub packed_duration : (bit_or mode duration / 16) * 16 ≡ duration

mode_map-IsMode : (name : List ℕ) (m : ℕ) → mode_map name ≡ some m → IsMode name m × (m < 4)
mode_map-IsMode name m h = (ground arith, ground arith)

duration_map-IsDuration :
    (payload : List ℕ) (d : ℕ) → duration_map payload ≡ some d → IsDuration payload d
duration_map-IsDuration payload d h = ground arith

duration_map_cases :
    (payload : List ℕ) (d : ℕ) → duration_map payload ≡ some d → (d ≡ 0x0) ⊎ (d ≡ 0x10) ⊎ (d ≡ 0x20)
duration_map_cases payload d h = ground arith

abbrev Packed : ℕ → ℕ → Type 0
Packed m d = (bit_or m d % 16 ≡ m) × ((bit_or m d / 16) * 16 ≡ d)

Packed-each : (m : ℕ) → m < 4 → Packed m 0x0 × Packed m 0x10 × Packed m 0x20
Packed-each zero h = ((refl, refl), (refl, refl), (refl, refl))
Packed-each (suc zero) h = ((refl, refl), (refl, refl), (refl, refl))
Packed-each (suc (suc zero)) h = ((refl, refl), (refl, refl), (refl, refl))
Packed-each (suc (suc (suc zero))) h = ((refl, refl), (refl, refl), (refl, refl))
Packed-each (suc (suc (suc (suc m)))) h = absurd (omega arith)

packed : (m d : ℕ) → m < 4 → (d ≡ 0x0) ⊎ (d ≡ 0x10) ⊎ (d ≡ 0x20) → Packed m d
packed m d h (inl e) = rw e (Packed-each m h).0
packed m d h (inr (inl e)) = rw e (Packed-each m h).1
packed m d h (inr (inr e)) = rw e (Packed-each m h).2

accepted :
    (name payload : List ℕ) (m d : ℕ)
    → m < 4
    → (d ≡ 0x0) ⊎ (d ≡ 0x10) ⊎ (d ≡ 0x20)
    → IsAsked name payload m d
    → IsAccepted name payload m d
accepted name payload m d h k asked =
    let (low, high) = packed m d h k in
    record {
      asked = asked;
      mode_known = h;
      duration_known = k;
      packed_mode = low;
      packed_duration = high;
    }

-- Accepted, or refused.
abbrev pub Judged : List ℕ → List ℕ → Option (ℕ × ℕ) → Type 0
Judged name payload none =
    (resolve_climate_mode name payload ≡ none) ⊎ (duration_map payload ≡ none)
Judged name payload (some (mode, duration)) = IsAccepted name payload mode duration

-- The mode by the part of the topic or the payload that names it.
resolve_climate_mode-IsMode :
    (name payload : List ℕ) (m : ℕ)
    → resolve_climate_mode name payload ≡ some m
    → let named = if same_text name (codes "mode") then payload else name in
      IsMode named m × (m < 4)
unfolding resolve_climate_mode
resolve_climate_mode-IsMode name payload m h = elim (Bool-cases (same_text name (codes "mode"))) [
  | inl e ↦ rw e (mode_map-IsMode payload m (rw e at h))
  | inr e ↦ rw e (mode_map-IsMode name m (rw e at h))
]

resolved-mode :
    (name payload : List ℕ) (m : ℕ)
    → same_text name (codes "mode") ≡ true
    → resolved name payload (some m) ≡ some (m, 0x0)
unfolding resolved same_text
resolved-mode name payload m e = rw e refl

resolved-off :
    (name payload : List ℕ) (m : ℕ)
    → same_text name (codes "mode") ≡ false
    → payload ≡ codes "off"
    → resolved name payload (some m) ≡ some (0x0, 0x0)
unfolding resolved same_text
resolved-off name payload m e off = rw (e, off) refl

resolved-named :
    (name payload : List ℕ) (m : ℕ)
    → same_text name (codes "mode") ≡ false
    → same_text payload (codes "off") ≡ false
    → resolved name payload (some m) ≡ checked_duration m (duration_map payload)
unfolding resolved
resolved-named name payload m e on = rw (e, on) refl

checked_duration-Judged :
    (name payload : List ℕ) (m : ℕ) (o : Option ℕ)
    → same_text name (codes "mode") ≡ false
    → same_text payload (codes "off") ≡ false
    → IsMode name m × (m < 4)
    → duration_map payload ≡ o
    → Judged name payload (checked_duration m o)
checked_duration-Judged name payload m (some d) other on (is, small) e =
    accepted name payload m d small (duration_map_cases payload d e)
      (IsAsked.by_name other on is (duration_map-IsDuration payload d e))
checked_duration-Judged name payload m none other on (is, small) e = elim (Bool-cases (m == 0x0)) [
  | inl off ↦ rw off (
      accepted name payload m 0x0 small (inl refl)
        (IsAsked.no_duration other on is (ground (arith, off)) refl e))
  | inr known ↦ rw known (inr e)
]

resolved-Judged :
    (name payload : List ℕ) (o : Option ℕ)
    → resolve_climate_mode name payload ≡ o
    → Judged name payload (resolved name payload o)
unfolding resolved
resolved-Judged name payload none e = inl e
resolved-Judged name payload (some m) e =
    let named = resolve_climate_mode-IsMode name payload m e in
    elim (Bool-cases (same_text name (codes "mode"))) [
      | inl is ↦
          let (mode, small) = rw is at named in
          rw (resolved-mode name payload m is)
            (accepted name payload m 0x0 small (inl refl) (IsAsked.by_payload is mode refl))
      | inr other ↦ elim (Bool-cases (same_text payload (codes "off"))) [
        | inl off ↦
            let (mode, small) = rw other at named in
            rw (resolved-off name payload m other (same_text→eq payload (codes "off") off)) (
              accepted name payload 0x0 0x0 (omega arith) (inl refl)
                (IsAsked.switched_off other off (m, mode) refl refl))
        | inr on ↦ rw (resolved-named name payload m other on) (
            checked_duration-Judged name payload m (duration_map payload) other on
              (rw other at named) refl)
      ]
    ]

pub climate_request-Judged :
    (name payload : List ℕ) → Judged name payload (climate_request name payload)
unfolding climate_request
climate_request-Judged name payload =
    resolved-Judged name payload (resolve_climate_mode name payload) refl
