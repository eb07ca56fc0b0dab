-- ===== src/Command/Register/Laws.antt =====
-- The goroutine of the command register gets one VIN across.
use mathlib.Core.List.{append_assoc, append-nil}
use phev2mqtt.Base.{
  ℕ, ◌≡◌, refl, sym, ap, ◌∙◌, inl, inr, Bool, true, false, List, [], ◌∷◌, ◌++◌, ◌==◌, ◌&&◌,
  if◌then◌else◌, All, Bool-cases, Option, none, some,
}
use phev2mqtt.Protocol.Constants.{cmd_in_resp, request_flag}
use phev2mqtt.Protocol.Types.{PhevMessage}
use phev2mqtt.Command.Register.{
  Registration, vin_of, ack_of, with_ack, offer_vin, read_message, read_messages,
}

-- One acknowledgement for each notification of a register.
abbrev pub acks_for : List PhevMessage → List PhevMessage
acks_for [] = []
acks_for (msg ∷ msgs) =
    let rest = acks_for msgs in
    if msg.typ == cmd_in_resp && msg.ack == request_flag then ack_of msg ∷ rest else rest

abbrev pub HasNoVin : PhevMessage → Type 0
HasNoVin msg = vin_of msg.reg ≡ none

stays_stuck :
    (msgs : List PhevMessage) (s : Registration) → s.stuck ≡ true → read_messages msgs s ≡ s
unfolding read_messages
stays_stuck [] s h = refl
stays_stuck (msg ∷ msgs) s h =
    ap (λ (b : Bool). if b then s else read_messages msgs (read_message msg s)) h

read_messages_none : (s : Registration) → read_messages [] s ≡ s
unfolding read_messages
read_messages_none s = refl

module _ (s : Registration) (msg : PhevMessage) where
  reads_on :
      (msgs : List PhevMessage)
      → s.stuck ≡ false
      → read_messages (msg ∷ msgs) s ≡ read_messages msgs (read_message msg s)
  unfolding read_messages
  reads_on msgs h = ap (λ (b : Bool). if b then s else read_messages msgs (read_message msg s)) h

  read_message-notification :
      msg.typ ≡ cmd_in_resp
      → msg.ack ≡ request_flag
      → read_message msg s ≡ offer_vin (vin_of msg.reg) s.vin msg s
  unfolding read_message
  read_message-notification typ flag = rw (typ, flag) refl

  read_message-acks :
      HasNoVin msg → read_message msg s ≡ record s { sent = s.sent ++ acks_for (msg ∷ []) }
  unfolding read_message offer_vin
  read_message-acks h =
      let same : s ≡ record s { sent = s.sent ++ [] } =
        ap (λ (ms : List PhevMessage). record s { sent = ms }) (sym (append-nil s.sent)) in
      elim (Bool-cases (msg.typ == cmd_in_resp)) [
        | inl resp ↦ elim (Bool-cases (msg.ack == request_flag)) [
          | inl asked ↦ rw (resp, asked, h) refl
          | inr other ↦ rw (resp, other) same
        ]
        | inr other ↦ rw other same
      ]

acks_for-append :
    (msg : PhevMessage) (msgs : List PhevMessage)
    → acks_for (msg ∷ msgs) ≡ acks_for (msg ∷ []) ++ acks_for msgs
acks_for-append msg msgs = elim (Bool-cases (msg.typ == cmd_in_resp && msg.ack == request_flag)) [
  | inl e ↦ rw e refl
  | inr e ↦ rw e refl
]

with_sent : Registration → List PhevMessage → Registration
with_sent s ms = record s { sent = ms }

-- Messages without a VIN are acknowledged, one for each notification, in order.
read_messages-acks :
    (msgs : List PhevMessage) (s : Registration)
    → s.stuck ≡ false
    → All HasNoVin msgs
    → read_messages msgs s ≡ record s { sent = s.sent ++ acks_for msgs }
unfolding with_sent
read_messages-acks [] s h k = read_messages_none s ∙ ap (with_sent s) (sym (append-nil s.sent))
read_messages-acks (msg ∷ msgs) s h k =
    reads_on s msg msgs h
    ∙ ap (read_messages msgs) (read_message-acks s msg k.0)
    ∙ read_messages-acks msgs (record s { sent = s.sent ++ acks_for (msg ∷ []) }) h k.1
    ∙ ap (with_sent s) (
        append_assoc s.sent (acks_for (msg ∷ [])) (acks_for msgs)
        ∙ ap (λ (ms : List PhevMessage). s.sent ++ ms) (sym (acks_for-append msg msgs)))

-- A notification of the VIN.
pub record IsVin (vin : List ℕ) (msg : PhevMessage) : Type 0 where
  pub is_response : msg.typ ≡ cmd_in_resp
  pub is_notification : msg.ack ≡ request_flag
  pub names : vin_of msg.reg ≡ some vin

read_messages-append :
    (xs ys : List PhevMessage) (s : Registration)
    → read_messages (xs ++ ys) s ≡ read_messages ys (read_messages xs s)
read_messages-append [] ys s = ap (read_messages ys) (sym (read_messages_none s))
read_messages-append (x ∷ xs) ys s = elim (Bool-cases s.stuck) [
  | inl e ↦
      stays_stuck (x ∷ (xs ++ ys)) s e
      ∙ sym (ap (read_messages ys) (stays_stuck (x ∷ xs) s e) ∙ stays_stuck ys s e)
  | inr e ↦
      reads_on s x (xs ++ ys) e
      ∙ read_messages-append xs ys (read_message x s)
      ∙ ap (read_messages ys) (sym (reads_on s x xs e))
]

module _ (s : Registration) (msg : PhevMessage) where
  read_message-first :
      (vin : List ℕ)
      → IsVin vin msg
      → s.vin ≡ none
      → read_message msg s ≡ with_ack msg (record s { vin = some vin })
  unfolding offer_vin
  read_message-first vin h k =
      read_message-notification s msg h.is_response h.is_notification
      ∙ ap (λ (o : Option (List ℕ)). offer_vin o s.vin msg s) h.names
      ∙ ap (λ (o : Option (List ℕ)). offer_vin (some vin) o msg s) k

  read_message-second :
      (vin again : List ℕ)
      → IsVin again msg
      → s.vin ≡ some vin
      → read_message msg s ≡ record s { stuck = true }
  unfolding offer_vin
  read_message-second vin again h k =
      read_message-notification s msg h.is_response h.is_notification
      ∙ ap (λ (o : Option (List ℕ)). offer_vin o s.vin msg s) h.names
      ∙ ap (λ (o : Option (List ℕ)). offer_vin (some again) o msg s) k

-- The first notification of the VIN is acknowledged and its VIN taken. On a second one the
-- goroutine waits for ever: of all that comes behind it nothing is acknowledged, whatever it is.
pub read_messages-second_vin :
    (first second : PhevMessage) (vin again : List ℕ) (before between later : List PhevMessage)
    (s : Registration)
    → s.stuck ≡ false
    → s.vin ≡ none
    → All HasNoVin before
    → All HasNoVin between
    → IsVin vin first
    → IsVin again second
    → read_messages (before ++ (first ∷ (between ++ (second ∷ later)))) s ≡ record {
      sent = ((s.sent ++ acks_for before) ++ (ack_of first ∷ [])) ++ acks_for between;
      vin = some vin;
      stuck = true;
    }
read_messages-second_vin first second vin again before between later s h k a b f g =
    let rest = between ++ (second ∷ later) in
    let s1 : Registration = record s { sent = s.sent ++ acks_for before } in
    let s2 : Registration = with_ack first (record s1 { vin = some vin }) in
    let s3 : Registration = record s2 { sent = s2.sent ++ acks_for between } in
    let s4 : Registration = record s3 { stuck = true } in
    read_messages-append before (first ∷ rest) s
    ∙ ap (read_messages (first ∷ rest)) (read_messages-acks before s h a)
    ∙ reads_on s1 first rest h
    ∙ ap (read_messages rest) (read_message-first s1 first vin f k)
    ∙ read_messages-append between (second ∷ later) s2
    ∙ ap (read_messages (second ∷ later)) (read_messages-acks between s2 h b)
    ∙ reads_on s3 second later h
    ∙ ap (read_messages later) (read_message-second s3 second vin again g refl)
    ∙ stays_stuck later s4 refl
