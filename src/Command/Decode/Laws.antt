-- ===== src/Command/Decode/Laws.antt =====
-- What the command pcap leaves out.
use phev2mqtt.Base.{
  ℕ, ◌≡◌, refl, ap, true, false, List, [], ◌∷◌, ◌++◌, All, some, Outcome, ok, ◌>>=◌, >>=-eq-ok,
}
use phev2mqtt.Protocol.SecurityKey.{SecurityKey}
use phev2mqtt.Protocol.Types.{PhevMessage}
use phev2mqtt.Protocol.Register.Plain.{Clock}
use phev2mqtt.Protocol.Message.{short_form}
use phev2mqtt.Protocol.Stream.{Scan, new_from_bytes}
use phev2mqtt.Command.Decode.{
  short_forms, is_ping, process_messages, after_payload, process_payload,
}

module _ (clock : Clock) where
  process_messages-front :
      (front later : List PhevMessage) (ping : PhevMessage) (regs : List (ℕ × List ℕ))
      (lines : List (List ℕ))
      → All (λ m. is_ping m ≡ false) front
      → is_ping ping ≡ true
      → short_forms clock front ≡ ok lines
      → process_messages clock false false (front ++ (ping ∷ later)) regs ≡ ok (lines, regs)
  unfolding process_messages short_forms
  process_messages-front [] later ping regs lines h k e =
      rw k (ap (λ (o : Outcome (List (List ℕ))). o >>= (λ ls. ok (ls, regs))) e)
  process_messages-front (m ∷ front) later ping regs lines h k e =
      let (line, one, rest) = >>=-eq-ok (short_form clock m) _ e in
      let (more, others, whole) = >>=-eq-ok (short_forms clock front) _ rest in
      rw (h.0, one, process_messages-front front later ping regs more h.1 k others)
        (ap (λ (o : Outcome (List (List ℕ))). o >>= (λ ls. ok (ls, regs))) whole)

  -- Without the flag for pings, and without that for registers, a ping in a packet ends what is
  -- shown of the packet: the lines are those of the messages in front of it, whatever comes behind.
  pub process_payload-ping :
      (bytes : List ℕ) (key : SecurityKey) (regs : List (ℕ × List ℕ)) (s : Scan)
      (front later : List PhevMessage) (ping : PhevMessage) (lines : List (List ℕ))
      → new_from_bytes clock bytes key ≡ some (ok s)
      → s.msgs ≡ front ++ (ping ∷ later)
      → All (λ m. is_ping m ≡ false) front
      → is_ping ping ≡ true
      → short_forms clock front ≡ ok lines
      → process_payload clock false false bytes key regs ≡ ok (lines, (s.key, regs))
  unfolding process_payload after_payload
  process_payload-ping bytes key regs s front later ping lines found msgs h k e =
      rw (found, msgs, process_messages-front front later ping regs lines h k e) refl
