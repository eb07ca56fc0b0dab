-- ===== src/Command/Watch/Laws.antt =====
-- What the command watch shows and acknowledges.
use mathlib.Core.List.{append_assoc, append-nil}
use phev2mqtt.Base.{
  ℕ, ◌≡◌, refl, sym, ap, ◌∙◌, inl, inr, true, false, List, [], ◌∷◌, ◌++◌, ◌==◌, if◌then◌else◌,
  same_text, same_text→eq, hex_encode, All, Bool-cases, ==_iff, none, ok, panic,
}
use phev2mqtt.Protocol.Constants.{cmd_in_resp}
use phev2mqtt.Protocol.Types.{PhevMessage}
use phev2mqtt.Protocol.Register.Plain.{Clock}
use phev2mqtt.Command.Watch.{
  Watch, last_text, watch_ack, logged, updated, shown, with_watch_ack, watch_message, watch,
}

-- One acknowledgement for each response, of whatever kind.
abbrev pub watch_acks : List PhevMessage → List PhevMessage
watch_acks [] = []
watch_acks (m ∷ ms) =
    let rest = watch_acks ms in if m.typ == cmd_in_resp then watch_ack m ∷ rest else rest

-- The text of the data that came last for a register; `before` is the one of before.
abbrev pub latest : ℕ → List PhevMessage → List ℕ → List ℕ
latest r [] before = before
latest r (m ∷ ms) before = latest r ms (
    if m.typ == cmd_in_resp
    then (if m.register == r then hex_encode m.data_bytes else before)
    else before)

unchanged :
    (m : PhevMessage) (s : Watch) (r : ℕ)
    → same_text (last_text m.register s.registers) (hex_encode m.data_bytes) ≡ true
    → last_text r s.registers
      ≡ (if m.register == r then hex_encode m.data_bytes else last_text r s.registers)
unchanged m s r old = elim (Bool-cases (m.register == r)) [
  | inl is ↦ rw is (
      ap (λ (q : ℕ). last_text q s.registers) (sym ((==_iff m.register r).0 is))
      ∙ same_text→eq (last_text m.register s.registers) (hex_encode m.data_bytes) old)
  | inr other ↦ rw other refl
]

module _ (clock : Clock) where
  -- The message has a register with a text.
  abbrev pub IsShown : PhevMessage → Type 0
  IsShown m = (text : List ℕ) × (logged clock m.reg ≡ ok text)

  shown-texts :
      (m : PhevMessage) (s : Watch)
      → IsShown m
      → (s' : Watch) × (shown clock m s ≡ ok s')
        × (s'.sent ≡ s.sent)
        × ((r : ℕ)
            → last_text r s'.registers
              ≡ (if m.register == r then hex_encode m.data_bytes else last_text r s.registers))
  unfolding shown updated last_text
  shown-texts m s h =
      elim (Bool-cases (same_text (last_text m.register s.registers) (hex_encode m.data_bytes))) [
        | inl old ↦ (s, rw old refl, refl, λ r. unchanged m s r old)
        | inr new ↦ (
          record s { registers = (m.register, hex_encode m.data_bytes) ∷ s.registers },
          rw (new, h.1) refl,
          refl,
          λ r. refl,
        )
      ]

  watch_message-texts :
      (m : PhevMessage) (s : Watch)
      → IsShown m
      → (s' : Watch) × (watch_message clock m s ≡ ok s')
        × (s'.sent ≡ s.sent ++ watch_acks (m ∷ []))
        × ((r : ℕ) → last_text r s'.registers ≡ latest r (m ∷ []) (last_text r s.registers))
  unfolding watch_message with_watch_ack
  watch_message-texts m s h =
      let (s1, e, same, texts) = shown-texts m s h in
      elim (Bool-cases (m.typ == cmd_in_resp)) [
        | inl resp ↦ (
          record s1 { sent = s1.sent ++ (watch_ack m ∷ []) },
          rw (resp, e) refl,
          rw (resp, same) refl,
          λ r. rw resp (texts r),
        )
        | inr other ↦ (s, rw other refl, rw other (sym (append-nil s.sent)), λ r. rw other refl)
      ]

  watch_acks-cons :
      (m : PhevMessage) (ms : List PhevMessage)
      → watch_acks (m ∷ ms) ≡ watch_acks (m ∷ []) ++ watch_acks ms
  watch_acks-cons m ms = elim (Bool-cases (m.typ == cmd_in_resp)) [
    | inl e ↦ rw e refl
    | inr e ↦ rw e refl
  ]

  -- Where each message has a register with a text, the loop does not panic: it acknowledges each
  -- response, in order, and shows of each register the data that came last.
  pub watch-texts :
      (ms : List PhevMessage) (s : Watch)
      → All IsShown ms
      → (s' : Watch) × (watch clock ms s ≡ ok s')
        × (s'.sent ≡ s.sent ++ watch_acks ms)
        × ((r : ℕ) → last_text r s'.registers ≡ latest r ms (last_text r s.registers))
  unfolding watch
  watch-texts [] s h = (s, refl, sym (append-nil s.sent), λ r. refl)
  watch-texts (m ∷ ms) s h =
      let (s1, e, one, texts) = watch_message-texts m s h.0 in
      let (s2, f, more, later) = watch-texts ms s1 h.1 in
      (
        s2,
        rw e f,
        more
            ∙ ap (λ (ns : List PhevMessage). ns ++ watch_acks ms) one
            ∙ append_assoc s.sent (watch_acks (m ∷ [])) (watch_acks ms)
            ∙ ap (λ (ns : List PhevMessage). s.sent ++ ns) (sym (watch_acks-cons m ms)),
        λ r. later r ∙ ap (latest r ms) (texts r),
      )

  -- A response without a register stops the command where its data is new.
  pub watch-no_register :
      (m : PhevMessage) (ms : List PhevMessage) (s : Watch)
      → m.typ ≡ cmd_in_resp
      → m.reg ≡ none
      → same_text (last_text m.register s.registers) (hex_encode m.data_bytes) ≡ false
      → watch clock (m ∷ ms) s ≡ panic
  unfolding watch watch_message shown updated logged
  watch-no_register m ms s typ bare new = rw (typ, new, bare) refl
