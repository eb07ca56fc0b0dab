-- ===== src/Mqtt/Climate/Laws.antt =====
-- The published climate state.
use phev2mqtt.Base.{
  ℕ, ◌≡◌, ◌≢◌, ◌↔◌, ◌⊎◌, refl, sym, ap, ◌∙◌, inl, inr, true, false, List, ◌==◌, codes, same_text,
  same_text→eq, same_text_self, arith, Bool-cases, Option, none, some, ℕ_discrete,
}
use mathlib.Core.Option.{some-injective}
use phev2mqtt.Mqtt.Publish.{lookup}
use phev2mqtt.Mqtt.Climate.{entries, Climate, mqtt_states, known_states, mode_entries, on_if}

-- The climate control runs in the mode `name`.
abbrev pub Runs : List ℕ → Option ℕ → Option (List ℕ) → Type 0
Runs name state mode = (state ≡ some 2) × (mode ≡ some name)

off-on : codes "off" ≢ codes "on"
off-on h = cc

on_if-same_text : (m name : List ℕ) → (on_if (same_text m name) ≡ codes "on") ↔ (m ≡ name)
on_if-same_text m name = elim (Bool-cases (same_text m name)) [
  | inl e ↦ (λ h. same_text→eq m name e, λ q. rw e refl)
  | inr e ↦
      let differ : m ≢ name = λ q.
        let same : same_text m name ≡ true = ap (same_text m) (sym q) ∙ same_text_self m in
        absurd (true_not_false (sym same ∙ e)) in
      (λ h. absurd (off-on (ap on_if (sym e) ∙ h)), λ q. absurd (differ q))
]
  where
    true_not_false : true ≢ false
    true_not_false h = cc

-- One topic, from its value in terms of the state and the mode.
topic-Runs :
    (name value : List ℕ) (state : Option ℕ) (mode : Option (List ℕ))
    → ((m : List ℕ) → state ≡ some 2 → mode ≡ some m → value ≡ on_if (same_text m name))
    → ((state ≢ some 2) ⊎ (mode ≡ none) → value ≡ codes "off")
    → (value ≡ codes "on") ↔ Runs name state mode
topic-Runs name value state none on off = (λ h. absurd (off-on (sym (off (inr refl)) ∙ h)), λ r. cc)
topic-Runs name value none (some m) on off =
    (λ h. absurd (off-on (sym (off (inl (λ e. cc))) ∙ h)), λ r. cc)
topic-Runs name value (some state) (some m) on off = elim (ℕ_discrete state 2) [
  | yes two ↦
      let v = on m (ap some two) refl in
      let (to, from) = on_if-same_text m name in
      (λ h. (ap some two, ap some (to (sym v ∙ h))), λ r. v ∙ from (some-injective m name r.1))
  | no other ↦ (
    λ h. absurd (off-on (sym (off (inl (λ e. other (some-injective state 2 e)))) ∙ h)),
    λ r. absurd (other (some-injective state 2 r.0)),
  )
]

mqtt_states_on :
    (c : Climate) (m : List ℕ) → c.state ≡ some 2 → c.mode ≡ some m → mqtt_states c ≡ mode_entries m
unfolding mqtt_states known_states
mqtt_states_on c m s e = rw (s, e) refl

-- The topics of the modes.
abbrev AllOff : List (List ℕ × List ℕ) → Type 0
AllOff es =
    (lookup (codes "/climate/cool") es ≡ codes "off")
    × (lookup (codes "/climate/heat") es ≡ codes "off")
    × (lookup (codes "/climate/windscreen") es ≡ codes "off")

known_states-AllOff :
    (state : Option ℕ) (mode : Option (List ℕ))
    → (state ≢ some 2) ⊎ (mode ≡ none)
    → AllOff (known_states state mode)
unfolding known_states lookup same_text
known_states-AllOff none mode h = (refl, refl, refl)
known_states-AllOff (some s) none h = (refl, refl, refl)
known_states-AllOff (some s) (some m) (inr h) = cc
known_states-AllOff (some s) (some m) (inl h) =
    let other : (s == 2) ≡ false = ground (arith, λ (e : s ≡ 2). h (ap some e)) in
    elim (Bool-cases (s == 0)) [
      | inl e ↦ rw (other, e) (refl, refl, refl)
      | inr e ↦ elim (Bool-cases (s == 3)) [
        | inl f ↦ rw (other, e, f) (refl, refl, refl)
        | inr f ↦ rw (other, e, f) (refl, refl, refl)
      ]
    ]

-- The topics cool, heat and windscreen are "on" just when the control is on in that mode, so that
-- at most one of them is.
pub mqtt_states-Runs :
    (c : Climate)
    → ((lookup (codes "/climate/cool") (mqtt_states c) ≡ codes "on")
        ↔ Runs (codes "cool") c.state c.mode)
      × ((lookup (codes "/climate/heat") (mqtt_states c) ≡ codes "on")
          ↔ Runs (codes "heat") c.state c.mode)
      × ((lookup (codes "/climate/windscreen") (mqtt_states c) ≡ codes "on")
          ↔ Runs (codes "windscreen") c.state c.mode)
unfolding mqtt_states lookup same_text
mqtt_states-Runs c =
    let off = known_states-AllOff c.state c.mode in
    let on = λ (name : List ℕ) (m : List ℕ) (s : c.state ≡ some 2) (e : c.mode ≡ some m).
      ap (lookup name) (mqtt_states_on c m s e) in
    (
      topic-Runs (codes "cool") _ c.state c.mode (on (codes "/climate/cool")) (λ h. (off h).0),
      topic-Runs (codes "heat") _ c.state c.mode (on (codes "/climate/heat")) (λ h. (off h).1),
      topic-Runs (codes "windscreen") _ c.state c.mode (on (codes "/climate/windscreen"))
          (λ h. (off h).2),
    )

-- The topics of an entry list are always the same four.
abbrev pub AreEntries : List (List ℕ × List ℕ) → Type 0
AreEntries es = (s : List ℕ) × (c : List ℕ) × (h : List ℕ) × (w : List ℕ) × (es ≡ entries s c h w)

known_states-AreEntries :
    (state : Option ℕ) (mode : Option (List ℕ)) → AreEntries (known_states state mode)
unfolding known_states
known_states-AreEntries none mode = (_, _, _, _, refl)
known_states-AreEntries (some s) none = (_, _, _, _, refl)
known_states-AreEntries (some s) (some m) = elim (Bool-cases (s == 2)) [
  | inl e ↦ rw e (_, _, _, _, refl)
  | inr e ↦ elim (Bool-cases (s == 0)) [
    | inl f ↦ rw (e, f) (_, _, _, _, refl)
    | inr f ↦ elim (Bool-cases (s == 3)) [
      | inl g ↦ rw (e, f, g) (_, _, _, _, refl)
      | inr g ↦ rw (e, f, g) (_, _, _, _, refl)
    ]
  ]
]

pub mqtt_states-AreEntries : (c : Climate) → AreEntries (mqtt_states c)
unfolding mqtt_states
mqtt_states-AreEntries c = known_states-AreEntries c.state c.mode
