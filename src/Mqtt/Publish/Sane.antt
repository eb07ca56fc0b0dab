-- ===== src/Mqtt/Publish/Sane.antt =====
-- The values that publishRegister lets through for the charge and the battery.
use phev2mqtt.Base.{
  ℕ, ◌≤◌, ◌<◌, ◌≡◌, ◌⊎◌, refl, sym, ap, ◌∙◌, inl, inr, false, List, [], ◌∷◌, ltb, ◌&&◌,
  if◌then◌else◌, codes, same_text, same_text→eq, same_text_self, arith, Bool-cases, some, decimal,
  ltb→lt,
}
use phev2mqtt.Protocol.Types.{Register, RegisterChargeStatus, RegisterBatteryLevel, PhevMessage}
use phev2mqtt.Mqtt.Publish.Walk.{Covers, walk}
use phev2mqtt.Mqtt.Publish.{
  Bridge, bool_on_off, lookup, publish, publish_all, publish_again, publish_known, publish_register,
}

-- What is cached after publish: the payload on its own topic, and what was there on any other.
pub lookup-publish :
    (k t payload : List ℕ) (b : Bridge)
    → lookup k (publish t payload b).mqtt_data
      ≡ (if same_text t k then payload else lookup k b.mqtt_data)
unfolding publish lookup
lookup-publish k t payload b = elim (Bool-cases (same_text (lookup t b.mqtt_data) payload)) [
  | inr new ↦ rw new refl
  | inl same ↦ elim (Bool-cases (same_text t k)) [
    | inr other ↦ rw (same, other) refl
    | inl e ↦
        rw (same, e)
          (ap (λ (u : List ℕ). lookup u b.mqtt_data) (sym (same_text→eq t k e))
            ∙ same_text→eq (lookup t b.mqtt_data) payload same)
  ]
]

pub publish_again_lem : (t : List ℕ) (b : Bridge) → publish_again t b ≡ b
unfolding publish_again publish
publish_again_lem t b = elim (Bool-cases (same_text (lookup t b.mqtt_data) [])) [
  | inl e ↦ rw e refl
  | inr e ↦ rw (e, same_text_self (lookup t b.mqtt_data)) refl
]

-- A text that is empty or a number from `lo` on and below `hi`.
abbrev pub Within : ℕ → ℕ → List ℕ → Type 0
Within lo hi v = (v ≡ []) ⊎ ((n : ℕ) × (lo ≤ n) × (n < hi) × (v ≡ decimal n))

-- The minutes left are fewer than 1000, and the battery level stands between 6 and 254, where they
-- are cached at all.
pub record IsSane (b : Bridge) : Type 0 where
  pub charge : Within 0 1000 (lookup (codes "/charge/remaining") b.mqtt_data)
  pub battery : Within 6 255 (lookup (codes "/battery/level") b.mqtt_data)

-- Topics that are neither of the two.
abbrev IsOther : List ℕ → Type 0
IsOther t =
    (same_text t (codes "/charge/remaining") ≡ false)
    × (same_text t (codes "/battery/level") ≡ false)

other : (t payload : List ℕ) (b : Bridge) → IsOther t → IsSane b → IsSane (publish t payload b)
other t payload b o v = record {
  charge = rw (lookup-publish (codes "/charge/remaining") t payload b, o.0) v.charge;
  battery = rw (lookup-publish (codes "/battery/level") t payload b, o.1) v.battery;
}

nonneg : (n : ℕ) → 0 ≤ n
nonneg n = omega arith

module _ (configs : List ℕ → List (List ℕ × List ℕ)) where
  with_charge :
      (r : RegisterChargeStatus) (b : Bridge)
      → IsSane b
      → IsSane (publish_known configs (some (Register.charge_status r)) b)
  unfolding publish_known publish_all same_text
  with_charge r b v =
      let charging : Bridge =
        publish_all ((codes "/charge/charging", bool_on_off r.charging) ∷ []) b in
      let before : IsSane charging =
        other (codes "/charge/charging") (bool_on_off r.charging) b (refl, refl) v in
      let own =
        lookup-publish (codes "/charge/remaining") (codes "/charge/remaining") (decimal r.remaining)
          charging in
      let apart =
        lookup-publish (codes "/battery/level") (codes "/charge/remaining") (decimal r.remaining)
          charging in
      elim (Bool-cases (ltb r.remaining 1000)) [
        | inl e ↦ rw e (record {
          charge = rw own (inr (r.remaining, nonneg r.remaining, ltb→lt r.remaining 1000 e, refl));
          battery = rw apart before.battery;
        })
        | inr e ↦ rw (e, publish_again_lem) before
      ]

  with_battery :
      (r : RegisterBatteryLevel) (b : Bridge)
      → IsSane b
      → IsSane (publish_known configs (some (Register.battery_level r)) b)
  unfolding publish_known publish_all same_text
  with_battery r b v = elim (Bool-cases (ltb 5 r.level && ltb r.level 255)) [
    | inl e ↦
        let level : Bridge = publish (codes "/battery/level") (decimal r.level) b in
        let kept : IsSane level = record {
          charge = rw lookup-publish v.charge;
          battery = rw lookup-publish (inr (r.level, ground (arith, e), ground (arith, e), refl));
        } in
        rw e (other (codes "/lights/parking") _ level (refl, refl) kept)
    | inr e ↦ rw (e, publish_again_lem) (other (codes "/lights/parking") _ b (refl, refl) v)
  ]

IsOther-Covers : Covers IsOther
unfolding same_text
IsOther-Covers = record {
  raw = λ register. (refl, refl);
  vin = (refl, refl);
  registrations = (refl, refl);
  version = (refl, refl);
  plug = (refl, refl);
  lights = ((refl, refl), ((refl, refl), tt));
  states = ((refl, refl), ((refl, refl), ((refl, refl), ((refl, refl), tt))));
  doors = (
    (refl, refl),
    (
      (refl, refl),
      (
        (refl, refl),
        (
          (refl, refl),
          ((refl, refl), ((refl, refl), ((refl, refl), ((refl, refl), ((refl, refl), tt))))),
        ),
      ),
    ),
  );
}

-- Whatever message comes, publishRegister keeps the cached minutes of charge below 1000 and the
-- cached battery level between 6 and 254, where there are any.
pub publish_register-IsSane :
    (configs : List ℕ → List (List ℕ × List ℕ)) (msg : PhevMessage) (b : Bridge)
    → IsSane b
    → IsSane (publish_register configs msg b)
publish_register-IsSane configs msg b v =
    walk configs IsSane IsOther other (λ c b v. record { charge = v.charge; battery = v.battery })
      (λ found b v. record { charge = v.charge; battery = v.battery }) IsOther-Covers
      (with_charge configs) (with_battery configs) msg b v
