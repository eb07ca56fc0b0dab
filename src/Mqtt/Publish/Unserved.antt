-- ===== src/Mqtt/Publish/Unserved.antt =====
-- State topics of the discovery on which publishRegister publishes nothing.
use phev2mqtt.Base.{
  ℕ, ◌≡◌, inl, inr, Bool, false, ◌||◌, has_prefix, List, [], ◌∷◌, ◌++◌, codes, same_text,
  same_text-append, Bool-cases, All,
}
use phev2mqtt.Protocol.Types.{PhevMessage}
use phev2mqtt.Mqtt.Publish.{Bridge, lookup, topic, publish, publish_register}

-- The messages that publishRegister was called with, one after the other.
abbrev pub publish_each : (List ℕ → List (List ℕ × List ℕ)) → List PhevMessage → Bridge → Bridge
publish_each configs [] b = b
publish_each configs (m ∷ ms) b = publish_each configs ms (publish_register configs m b)

-- The text has the words in it.
pub mentions : List ℕ → List ℕ → Bool
mentions words [] = false
mentions words (c ∷ cs) = has_prefix (c ∷ cs) words || mentions words cs

-- Topics that are none of "/battery/charging" and "/climate/mode".
abbrev IsServed : List ℕ → Type 0
IsServed t =
    (same_text t (codes "/battery/charging") ≡ false)
    × (same_text t (codes "/climate/mode") ≡ false)

-- What the broker was given is on topics other than these two.
abbrev pub IsUnserved : Bridge → Type 0
IsUnserved b =
    All
      (λ (e : List ℕ × List ℕ).
        (same_text e.0 (b.prefix ++ codes "/battery/charging") ≡ false)
        × (same_text e.0 (b.prefix ++ codes "/climate/mode") ≡ false))
      b.published

step :
    (t payload : List ℕ) (b : Bridge) → IsServed t → IsUnserved b → IsUnserved (publish t payload b)
unfolding publish topic
step t payload b o v = elim (Bool-cases (same_text (lookup t b.mqtt_data) payload)) [
  | inl same ↦ rw same v
  | inr new ↦ rw new (
    (
      rw (same_text-append b.prefix t (codes "/battery/charging")) o.0,
      rw (same_text-append b.prefix t (codes "/climate/mode")) o.1,
    ),
    v,
  )
]
