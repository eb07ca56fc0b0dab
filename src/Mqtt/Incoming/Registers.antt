-- ===== src/Mqtt/Incoming/Registers.antt =====
-- The topic of handleIncomingMqtt that sets a register.
use mathlib.Core.List.{append_assoc}
use phev2mqtt.Base.{
  ℕ, ◌+◌, ◌≡◌, ◌<◌, ◌≤◌, refl, ap, inl, inr, false, ◌==◌, ◌&&◌, if◌then◌else◌, map, get_elem?, none,
  Bool-cases, Option-cases, List, [], ◌∷◌, ◌++◌, arith, length, codes, All, some, hex_byte,
  hex_encode, hex_decode, hex_decode-hex_encode, hex_decode-hex_byte, split_on, has_prefix-append,
  count, count-append, length-split_on, split_on-append, split_on_none,
}
use phev2mqtt.Client.State.{Client, add_listener, remove_listener}
use phev2mqtt.Client.State.Laws.{Fresh, remove_listener-add_listener}
use phev2mqtt.Client.SetRegister.{
  Event, timer, closed, message, set_message, set_register, await_reply,
}
use phev2mqtt.Client.Loops.Laws.{IsAnswered, set_register-succeeds}
use phev2mqtt.Mqtt.Publish.{topic}
use phev2mqtt.Mqtt.Incoming.{
  Gateway, returned, stopped, after_set, with_set, after_call, set_on, set_with, register_writes,
  register_command, set_all, handle_incoming,
}

-- The topic of a register, by the text behind the last slash.
abbrev pub register_topic : Gateway → List ℕ → List ℕ
register_topic g text = (g.bridge.prefix ++ codes "/set/register/") ++ text

too_long :
    (p : List ℕ) (ps : List (List ℕ)) (payload : List ℕ) (replies : List (List Event)) (g : Gateway)
    → 4 ≤ length ps
    → register_command (p ∷ ps) payload replies g ≡ returned g
unfolding register_command
too_long p [] payload replies g h = absurd (ground arith)
too_long p (a ∷ []) payload replies g h = absurd (ground arith)
too_long p (a ∷ b ∷ []) payload replies g h = absurd (ground arith)
too_long p (a ∷ b ∷ c ∷ []) payload replies g h = absurd (ground arith)
too_long p (a ∷ b ∷ c ∷ d ∷ ds) payload replies g h = refl

-- The xor bytes that CmdInBadEncoding messages name before the acknowledgement, in order.
abbrev pub retries : ℕ → List Event → List ℕ
retries r [] = []
retries r (timer ∷ es) = []
retries r (closed ∷ es) = []
retries r (message m ∷ es) =
    let rest = retries r es in
    if m.typ == 0x6f && m.ack == 1 && m.register == r
    then []
    else if m.typ == 0xbb
    then elim (get_elem? m.data_bytes 0) [ none ↦ [] | some xor ↦ xor ∷ rest ]
    else rest

await_reply-sent :
    (r : ℕ) (v : List ℕ) (es : List Event)
    → (await_reply r v es).sent ≡ map (set_message r v) (retries r es)
unfolding await_reply
await_reply-sent r v [] = refl
await_reply-sent r v (timer ∷ es) = refl
await_reply-sent r v (closed ∷ es) = refl
await_reply-sent r v (message m ∷ es) = elim (Bool-cases (m.typ == 0xbb)) [
  | inl bad ↦
      let other : (m.typ == 0x6f && m.ack == 1 && m.register == r) ≡ false = ground (arith, bad) in
      elim (Option-cases (get_elem? m.data_bytes 0)) [
        | inl e ↦ rw (bad, other, e) refl
        | inr (x, e) ↦ rw (bad, other, e) (ap (◌∷◌ (set_message r v x)) (await_reply-sent r v es))
      ]
  | inr good ↦ elim (Bool-cases (m.typ == 0x6f && m.ack == 1 && m.register == r)) [
    | inl e ↦ rw (good, e) refl
    | inr e ↦ rw (good, e) (await_reply-sent r v es)
  ]
]

set_register-sent :
    (r : ℕ) (v : List ℕ) (es : List Event)
    → (set_register r v es).sent ≡ map (set_message r v) (0 ∷ retries r es)
unfolding set_register
set_register-sent r v es = ap (◌∷◌ (set_message r v 0)) (await_reply-sent r v es)

module _ (to_lower : List ℕ → List ℕ) where
  handle_incoming-register_topic :
      (text payload : List ℕ) (replies : List (List Event)) (g : Gateway)
      → handle_incoming to_lower (register_topic g text) payload replies g
        ≡ register_command (split_on b'/' (register_topic g text)) payload replies g
  unfolding handle_incoming topic
  handle_incoming-register_topic text payload replies g =
      rw (has_prefix-append (g.bridge.prefix ++ codes "/set/register/") text) refl

  -- With a slash in the prefix, a message on the topic of a register is refused, whatever the
  -- register and the payload.
  pub handle_incoming-slash :
      (text payload : List ℕ) (replies : List (List Event)) (g : Gateway)
      → 0 < count b'/' g.bridge.prefix
      → handle_incoming to_lower (register_topic g text) payload replies g ≡ returned g
  unfolding count
  handle_incoming-slash text payload replies g h =
      let (p, ps, e, size) = length-split_on b'/' (register_topic g text) in
      let whole = count-append b'/' (g.bridge.prefix ++ codes "/set/register/") text in
      let front = count-append b'/' g.bridge.prefix (codes "/set/register/") in
      let three : count b'/' (codes "/set/register/") ≡ 3 = refl in
      rw (handle_incoming-register_topic text payload replies g, e)
        (too_long p ps payload replies g (omega (arith, size, whole, front, three, h)))

  four_parts :
      (prefix text : List ℕ)
      → count b'/' prefix ≡ 0
      → count b'/' text ≡ 0
      → split_on b'/' ((prefix ++ codes "/set/register/") ++ text)
        ≡ prefix ∷ codes "set" ∷ codes "register" ∷ text ∷ []
  unfolding split_on
  four_parts prefix text h k =
      rw
        (
          append_assoc prefix (codes "/set/register/") text,
          split_on-append b'/' prefix (codes "set/register/" ++ text) h,
          split_on_none b'/' text k,
        )
        refl

  handle_incoming-parts :
      (text payload : List ℕ) (replies : List (List Event)) (g : Gateway)
      → count b'/' g.bridge.prefix ≡ 0
      → count b'/' text ≡ 0
      → handle_incoming to_lower (register_topic g text) payload replies g
        ≡ register_writes (hex_decode text) (hex_decode payload) replies g
  unfolding register_command
  handle_incoming-parts text payload replies g h k =
      rw
        (handle_incoming-register_topic text payload replies g, four_parts g.bridge.prefix text h k)
        refl

  no_slash : (r : ℕ) → r < 256 → count b'/' (hex_byte r) ≡ 0
  unfolding count
  no_slash r h = ground arith

  -- With no slash in the prefix, a message with the hexadecimal digits of a register in its topic
  -- and those of a value as its payload is one call of SetRegister with them. Where the car's
  -- acknowledgement comes before the timer, the end of the channel and any CmdInBadEncoding without
  -- data, and each listener stands under a pointer already given out: the call puts on Send the
  -- request to set the register, and once more for each CmdInBadEncoding before the
  -- acknowledgement, with the xor byte that it names; the handler returns, and the client is
  -- otherwise the one of before, its listeners included.
  pub handle_incoming-register :
      (r : ℕ) (value : List ℕ) (es : List Event) (replies : List (List Event)) (c : Client)
      (g : Gateway)
      → count b'/' g.bridge.prefix ≡ 0
      → g.phev ≡ some c
      → Fresh c.next_pointer c.listeners
      → r < 256
      → All (λ b. b < 256) value
      → IsAnswered r es
      → handle_incoming to_lower (register_topic g (hex_byte r)) (hex_encode value) (es ∷ replies) g
        ≡ returned (record g {
          phev = some (record c {
            sent = c.sent ++ map (set_message r value) (0 ∷ retries r es);
            next_pointer = c.next_pointer + 1;
          });
        })
  unfolding register_writes set_all set_with set_on after_set after_call with_set add_listener
      remove_listener
  handle_incoming-register r value es replies c g h found fresh byte bytes answered =
      rw
        (
          handle_incoming-parts (hex_byte r) (hex_encode value) (es ∷ replies) g h
              (no_slash r byte),
          hex_decode-hex_byte r byte,
          hex_decode-hex_encode value bytes,
          found,
          (set_register-succeeds r value es).1 answered,
          set_register-sent r value es,
          remove_listener-add_listener c fresh,
        )
        refl

  -- With no slash in the prefix, a topic that names no register stops the program, whatever value
  -- the payload has the digits of.
  pub handle_incoming-no_register :
      (value : List ℕ) (replies : List (List Event)) (g : Gateway)
      → count b'/' g.bridge.prefix ≡ 0
      → All (λ b. b < 256) value
      → handle_incoming to_lower (register_topic g []) (hex_encode value) replies g ≡ stopped
  unfolding register_writes hex_decode count
  handle_incoming-no_register value replies g h bytes =
      rw
        (
          handle_incoming-parts [] (hex_encode value) replies g h refl,
          hex_decode-hex_encode value bytes,
        )
        refl
