-- ===== src/Mqtt/Incoming/Acks.antt =====
-- handleIncomingMqtt puts no acknowledgement on Send.
use mathlib.Core.List.{append-nil}
use phev2mqtt.Base.{
  ℕ, ◌≡◌, refl, ap, ◌∙◌, inl, inr, Bool, true, false, List, [], ◌∷◌, ◌++◌, ◌==◌, ◌&&◌,
  if◌then◌else◌, All, codes, same_text, same_text→eq, same_text_self, has_prefix, has_prefix-both,
  Bool-cases, Option, none, some,
}
use phev2mqtt.Protocol.Constants.{cmd_out_send, ack_flag}
use phev2mqtt.Protocol.Types.{PhevMessage}
use phev2mqtt.Client.State.{Client}
use phev2mqtt.Client.SetRegister.{Event}
use phev2mqtt.Mqtt.Publish.{topic}
use phev2mqtt.Mqtt.Incoming.{
  Gateway, Handled, returned, waiting, stopped, handle_incoming, connection_command, switch_off,
  restart,
}
use phev2mqtt.Mqtt.Incoming.Frame.{handle_incoming-Keeps}
use phev2mqtt.Mqtt.Incoming.Kept.{IsRequest, PhevKept, Keeps}

-- The acknowledgements among messages.
abbrev pub acks : List PhevMessage → List PhevMessage
acks [] = []
acks (m ∷ ms) =
    let rest = acks ms in if m.typ == cmd_out_send && m.ack == ack_flag then m ∷ rest else rest

abbrev pub acks_sent : Option Client → List PhevMessage
acks_sent none = []
acks_sent (some c) = acks c.sent

pub acks-append : (xs ys : List PhevMessage) → acks (xs ++ ys) ≡ acks xs ++ acks ys
acks-append [] ys = refl
acks-append (m ∷ xs) ys = elim (Bool-cases (m.typ == cmd_out_send && m.ack == ack_flag)) [
  | inl e ↦ rw (e, acks-append xs ys) refl
  | inr e ↦ rw (e, acks-append xs ys) refl
]

acks_none : (ms : List PhevMessage) → All IsRequest ms → acks ms ≡ []
acks_none [] h = refl
acks_none (m ∷ ms) h = rw (h.0.0, h.0.1, acks_none ms h.1) refl

-- The handler of incoming topics puts no acknowledgement on Send.
abbrev pub SameAcks : Option Client → Handled → Type 0
SameAcks o (returned g) = acks_sent g.phev ≡ acks_sent o
SameAcks o (waiting g) = acks_sent g.phev ≡ acks_sent o
SameAcks o stopped = Unit

PhevKept-acks : (o o' : Option Client) → PhevKept o o' → acks_sent o' ≡ acks_sent o
PhevKept-acks none none h = refl
PhevKept-acks none (some c') h = absurd h
PhevKept-acks (some c) none h = absurd h
PhevKept-acks (some c) (some c') h =
    let (ms, all, e) = h.sends in
    ap acks e ∙ acks-append c.sent ms ∙ rw (acks_none ms all) (append-nil (acks c.sent))

Keeps-SameAcks : (g : Gateway) (h : Handled) → Keeps g h → SameAcks g.phev h
Keeps-SameAcks g (returned g') h = PhevKept-acks g.phev g'.phev h.phev_kept
Keeps-SameAcks g (waiting g') h = PhevKept-acks g.phev g'.phev h.phev_kept
Keeps-SameAcks g stopped h = tt

switch_off-SameAcks : (o : Option Client) (g : Gateway) → SameAcks o (switch_off o g)
unfolding switch_off
switch_off-SameAcks none g = tt
switch_off-SameAcks (some c) g = refl

restart-SameAcks : (o : Option Client) (g : Gateway) → SameAcks o (restart o g)
unfolding restart
restart-SameAcks none g = tt
restart-SameAcks (some c) g = refl

if-SameAcks :
    (o : Option Client) (b : Bool) (x y : Handled)
    → SameAcks o x
    → SameAcks o y
    → SameAcks o (if b then x else y)
if-SameAcks o true x y h k = h
if-SameAcks o false x y h k = k

connection_command-SameAcks :
    (payload : List ℕ) (g : Gateway) → SameAcks g.phev (connection_command payload g)
unfolding connection_command
connection_command-SameAcks payload g =
    if-SameAcks g.phev (same_text payload (codes "off")) _ _ (switch_off-SameAcks g.phev g) (
      if-SameAcks g.phev (same_text payload (codes "on")) _ _ refl (
        if-SameAcks g.phev (same_text payload (codes "restart")) _ _ (restart-SameAcks g.phev g)
          refl))

module _ (to_lower : List ℕ → List ℕ) where
  pub handle_incoming-SameAcks :
      (t payload : List ℕ) (replies : List (List Event)) (g : Gateway)
      → SameAcks g.phev (handle_incoming to_lower t payload replies g)
  unfolding handle_incoming topic has_prefix
  handle_incoming-SameAcks t payload replies g =
      let p : List ℕ = g.bridge.prefix in
      elim (Bool-cases (same_text t (p ++ codes "/connection"))) [
        | inl is ↦
            rw
              (
                same_text→eq t (p ++ codes "/connection") is,
                has_prefix-both p (codes "/connection") (codes "/set/register/"),
                same_text_self (p ++ codes "/connection"),
              )
              (connection_command-SameAcks (to_lower payload) g)
        | inr other ↦
            Keeps-SameAcks g (handle_incoming to_lower t payload replies g)
              (handle_incoming-Keeps to_lower t payload replies g other)
      ]
