-- ===== src/Command/Watch.antt =====
-- The loop of Run of cmd/watch.go on what comes on Recv. `registers` is the map of the texts that
-- were shown last, the newest first; a missing key reads as the empty text.
pub mod Laws
use phev2mqtt.Base.{
  ℕ, Bool, true, false, List, [], ◌∷◌, ◌++◌, ◌==◌, if◌then◌else◌, same_text, hex_encode, Option,
  none, some, Outcome, ok, err, panic, ◌>>=◌,
}
use phev2mqtt.Protocol.Constants.{cmd_in_resp, cmd_out_send, ack_flag}
use phev2mqtt.Protocol.Types.{Register, PhevMessage, empty_message}
use phev2mqtt.Protocol.Register.{string}
use phev2mqtt.Protocol.Register.Plain.{Clock}

pub record Watch : Type 0 where
  pub registers : List (ℕ × List ℕ)
  pub sent : List PhevMessage

unfoldable pub last_text : ℕ → List (ℕ × List ℕ) → List ℕ
last_text r [] = []
last_text r ((q, text) ∷ rs) = let rest = last_text r rs in if q == r then text else rest

abbrev pub watch_ack : PhevMessage → PhevMessage
watch_ack m = record empty_message {
  typ = cmd_out_send;
  register = m.register;
  ack = ack_flag;
  xor = m.xor;
  data_bytes = 0x0 ∷ [];
}

abbrev pub is_generic : Register → Bool
is_generic r = elim r [ Register.generic g ↦ true | _ ↦ false ]

module _ (clock : Clock) where
  -- The text of the register is logged, but that of a generic one; a nil register panics.
  unfoldable pub logged : Option Register → Outcome (List ℕ)
  logged none = panic
  logged (some r) = if is_generic r then ok [] else string clock r

  -- The text of the data is new.
  updated : List ℕ → PhevMessage → Watch → Outcome Watch
  unfolding logged
  updated text m s = do
    _ ← logged m.reg
    ok (record s { registers = (m.register, text) ∷ s.registers })

  shown : PhevMessage → Watch → Outcome Watch
  unfolding updated last_text
  shown m s =
      let text = hex_encode m.data_bytes in
      if same_text (last_text m.register s.registers) text then ok s else updated text m s

  with_watch_ack : PhevMessage → Watch → Watch
  with_watch_ack m s = record s { sent = s.sent ++ (watch_ack m ∷ []) }

  unfoldable pub watch_message : PhevMessage → Watch → Outcome Watch
  unfolding shown with_watch_ack
  watch_message m s =
      if m.typ == cmd_in_resp then (do s' ← shown m s; ok (with_watch_ack m s')) else ok s

  unfoldable pub watch : List PhevMessage → Watch → Outcome Watch
  unfolding watch_message
  watch [] s = ok s
  watch (m ∷ ms) s = do s' ← watch_message m s; watch ms s'
