-- ===== src/Mqtt/Session/Acks.antt =====
-- The acknowledgements of handlePhev.
use mathlib.Core.List.{append_assoc, append-nil}
use phev2mqtt.Base.{
  ℕ, ◌≡◌, refl, ltb, sym, ap, ◌∙◌, inl, inr, List, [], ◌∷◌, ◌++◌, ◌==◌, ◌&&◌, if◌then◌else◌, arith,
  Bool-cases, Option, none, some,
}
use phev2mqtt.Protocol.Constants.{cmd_in_bad_encoding, cmd_in_resp, request_flag}
use phev2mqtt.Protocol.Types.{PhevMessage}
use phev2mqtt.Client.State.{Client}
use phev2mqtt.Client.SetRegister.{Event}
use phev2mqtt.Mqtt.Incoming.{Handled, returned, waiting, stopped, handle_incoming}
use phev2mqtt.Mqtt.Incoming.Acks.{acks, acks_sent, acks-append, SameAcks, handle_incoming-SameAcks}
use phev2mqtt.Mqtt.Session.{
  Session, SessionEvent, SessionEnd, tick, received, receive_ended, incoming, Progress, going, over,
  halted, is_stale, ack_message, encoding_error, after_incoming, notified, receive, step_with, step,
  continue, run_session,
}

-- What the events ask for: one acknowledgement for each notification of a register, in order.
abbrev pub owed : List SessionEvent → List PhevMessage
owed [] = []
owed (tick ∷ es) = owed es
owed (received now msg ∷ es) =
    let rest = owed es in
    if msg.typ == cmd_in_resp && msg.ack == request_flag then ack_message msg ∷ rest else rest
owed (receive_ended ∷ es) = owed es
owed (incoming t payload replies ∷ es) = owed es

-- `old` are the acknowledgements of before; where the loop has ended, it has seen a part of the
-- events only.
abbrev pub Acknowledged : List PhevMessage → List SessionEvent → Progress → Type 0
Acknowledged old es (going s) = acks_sent s.gateway.phev ≡ old ++ owed es
Acknowledged old es (over r s) =
    (seen : List SessionEvent) × (rest : List SessionEvent) × (es ≡ seen ++ rest)
    × (acks_sent s.gateway.phev ≡ old ++ owed seen)
Acknowledged old es halted = Unit

owed-append : (es fs : List SessionEvent) → owed (es ++ fs) ≡ owed es ++ owed fs
owed-append [] fs = refl
owed-append (tick ∷ es) fs = owed-append es fs
owed-append (receive_ended ∷ es) fs = owed-append es fs
owed-append (incoming t payload replies ∷ es) fs = owed-append es fs
owed-append (received now msg ∷ es) fs =
    elim (Bool-cases (msg.typ == cmd_in_resp && msg.ack == request_flag)) [
      | inl e ↦ rw (e, owed-append es fs) refl
      | inr e ↦ rw (e, owed-append es fs) refl
    ]

-- Events before and events after.
Acknowledged-after :
    (old now : List PhevMessage) (es fs : List SessionEvent) (p : Progress)
    → now ≡ old ++ owed es
    → Acknowledged now fs p
    → Acknowledged old (es ++ fs) p
Acknowledged-after old now es fs (going s) h k =
    k ∙ rw (h, owed-append es fs) (append_assoc old (owed es) (owed fs))
Acknowledged-after old now es fs (over r s) h k =
    let (seen, rest, whole, same) = k in
    (
      es ++ seen,
      rest,
      rw whole (sym (append_assoc es seen rest)),
      same ∙ rw (h, owed-append es seen) (append_assoc old (owed es) (owed seen)),
    )
Acknowledged-after old now es fs halted h k = tt

Acknowledged-longer :
    (old : List PhevMessage) (es fs : List SessionEvent) (r : SessionEnd) (s : Session)
    → Acknowledged old es (over r s)
    → Acknowledged old (es ++ fs) (over r s)
Acknowledged-longer old es fs r s k =
    let (seen, rest, whole, same) = k in
    (seen, rest ++ fs, rw whole (append_assoc seen rest fs), same)

encoding_error-Acknowledged :
    (now : ℕ) (msg : PhevMessage) (c : Client) (s : Session)
    → s.gateway.phev ≡ some c
    → owed (received now msg ∷ []) ≡ []
    → Acknowledged (acks_sent s.gateway.phev) (received now msg ∷ []) (encoding_error now c s)
unfolding encoding_error
encoding_error-Acknowledged now msg c s found none_owed =
    let n : ℕ = if is_stale now s.last_encoding_error then 0 else s.error_count in
    let same : acks c.sent ≡ acks_sent s.gateway.phev = ap acks_sent (sym found) in
    elim (Bool-cases (ltb 50 n)) [
      | inl many ↦
          rw many
            ([], received now msg ∷ [], refl, same ∙ sym (append-nil (acks_sent s.gateway.phev)))
      | inr few ↦ rw (few, none_owed) (sym (append-nil (acks_sent s.gateway.phev)))
    ]

after_incoming-Acknowledged :
    (t payload : List ℕ) (replies : List (List Event)) (h : Handled) (s : Session)
    → SameAcks s.gateway.phev h
    → Acknowledged (acks_sent s.gateway.phev) (incoming t payload replies ∷ []) (after_incoming h s)
unfolding after_incoming
after_incoming-Acknowledged t payload replies (returned g) s h =
    h ∙ sym (append-nil (acks_sent s.gateway.phev))
after_incoming-Acknowledged t payload replies (waiting g) s h =
    h ∙ sym (append-nil (acks_sent s.gateway.phev))
after_incoming-Acknowledged t payload replies stopped s h = tt

module _ (to_lower : List ℕ → List ℕ) (configs : List ℕ → List (List ℕ × List ℕ)) where
  receive-Acknowledged :
      (now : ℕ) (msg : PhevMessage) (c : Client) (s : Session)
      → s.gateway.phev ≡ some c
      → Acknowledged
          (acks_sent s.gateway.phev)
          (received now msg ∷ [])
          (receive to_lower configs now msg c s)
  unfolding receive notified
  receive-Acknowledged now msg c s found =
      let old : List PhevMessage = acks_sent s.gateway.phev in
      let same : acks c.sent ≡ old = ap acks_sent (sym found) in
      elim (Bool-cases (msg.typ == cmd_in_bad_encoding)) [
        | inl is ↦ rw is (encoding_error-Acknowledged now msg c s found (ground (arith, is)))
        | inr other ↦ elim (Bool-cases (msg.typ == cmd_in_resp)) [
          | inl resp ↦ elim (Bool-cases (msg.ack == request_flag)) [
            | inl asked ↦
                rw (other, resp, asked, resp, asked)
                  (acks-append c.sent (ack_message msg ∷ [])
                    ∙ ap (λ (ms : List PhevMessage). ms ++ (ack_message msg ∷ [])) same)
            | inr not_asked ↦ rw (other, resp, not_asked, resp, not_asked) (sym (append-nil old))
          ]
          | inr rest ↦ rw (other, rest, rest) (sym (append-nil old))
        ]
      ]

  step_with-Acknowledged :
      (o : Option Client) (e : SessionEvent) (s : Session)
      → s.gateway.phev ≡ o
      → Acknowledged (acks_sent s.gateway.phev) (e ∷ []) (step_with to_lower configs o e s)
  unfolding step_with
  step_with-Acknowledged none e s found = tt
  step_with-Acknowledged (some c) tick s found = sym (append-nil (acks_sent s.gateway.phev))
  step_with-Acknowledged (some c) (received now msg) s found =
      receive-Acknowledged now msg c s found
  step_with-Acknowledged (some c) receive_ended s found =
      ([], receive_ended ∷ [], refl, sym (append-nil (acks_sent s.gateway.phev)))
  step_with-Acknowledged (some c) (incoming t payload replies) s found =
      after_incoming-Acknowledged t payload replies
        (handle_incoming to_lower t payload replies s.gateway) s
        (handle_incoming-SameAcks to_lower t payload replies s.gateway)

  continue-Acknowledged :
      (old : List PhevMessage) (es fs : List SessionEvent) (p : Progress)
      → Acknowledged old es p
      → Acknowledged old (es ++ fs) (continue to_lower configs fs p)
  unfolding continue step
  continue-Acknowledged old es [] p h = rw (append-nil es) h
  continue-Acknowledged old es (e ∷ fs) (going s) h =
      let one =
        Acknowledged-after old (acks_sent s.gateway.phev) es (e ∷ []) (step to_lower configs e s) h
          (step_with-Acknowledged s.gateway.phev e s refl) in
      rw⁻¹ (append_assoc es (e ∷ []) fs)
        (continue-Acknowledged old (es ++ (e ∷ [])) fs (step to_lower configs e s) one)
  continue-Acknowledged old es (e ∷ fs) (over r s) h = Acknowledged-longer old es (e ∷ fs) r s h
  continue-Acknowledged old es (e ∷ fs) halted h = tt

  -- Among what a session puts on Send, with messages of the broker handled between its events, the
  -- acknowledgements are those owed for the notifications received, one each and in order; where
  -- the session has ended, those for the events before its end.
  pub run_session-Acknowledged :
      (es : List SessionEvent) (s : Session)
      → Acknowledged (acks_sent s.gateway.phev) es (run_session to_lower configs es s)
  unfolding run_session
  run_session-Acknowledged es s =
      continue-Acknowledged (acks_sent s.gateway.phev) [] es (going s)
        (sym (append-nil (acks_sent s.gateway.phev)))
