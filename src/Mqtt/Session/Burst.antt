-- ===== src/Mqtt/Session/Burst.antt =====
-- A burst of encoding errors ends the loop of handlePhev.
use phev2mqtt.Base.{
  ℕ, ◌+◌, ◌-◌, ◌≡◌, ◌≤◌, refl, ap, inl, inr, true, false, List, [], ◌∷◌, ltb, arith, length, ◌∙◌,
  le→ltb, Bool-cases, Option, some,
}
use phev2mqtt.Protocol.Constants.{cmd_in_bad_encoding}
use phev2mqtt.Protocol.Types.{PhevMessage}
use phev2mqtt.Client.State.{Client}
use phev2mqtt.Mqtt.Incoming.{close_client}
use phev2mqtt.Mqtt.Session.{
  Session, SessionEvent, tick, received, receive_ended, incoming, too_many_errors, Progress, going,
  over, is_stale, with_client, encoding_error, receive, step_with, step, continue, run_session,
}
use phev2mqtt.Mqtt.Session.Errors.{Closed}

-- Encoding errors only, none more than 15 seconds after the one before it.
abbrev pub Burst : ℕ → List SessionEvent → Type 0
Burst last [] = Unit
Burst last (tick ∷ es) = ⊥
Burst last (received now msg ∷ es) =
    (msg.typ ≡ cmd_in_bad_encoding) × (now - last ≤ 15000000000) × Burst now es
Burst last (receive_ended ∷ es) = ⊥
Burst last (incoming t payload replies ∷ es) = ⊥

abbrev pub GivesUp : Progress → Type 0
GivesUp p = (s : Session) × (p ≡ over too_many_errors s) × Closed s.gateway.phev

module _ (to_lower : List ℕ → List ℕ) (configs : List ℕ → List (List ℕ × List ℕ)) where
  step-bad :
      (now : ℕ) (msg : PhevMessage) (c : Client) (s : Session)
      → s.gateway.phev ≡ some c
      → msg.typ ≡ cmd_in_bad_encoding
      → step to_lower configs (received now msg) s ≡ encoding_error now c s
  unfolding step step_with receive
  step-bad now msg c s found typ =
      ap (λ (o : Option Client). step_with to_lower configs o (received now msg) s) found
      ∙ rw typ refl

  continue_over :
      (es : List SessionEvent) (s : Session)
      → continue to_lower configs es (over too_many_errors s) ≡ over too_many_errors s
  unfolding continue
  continue_over [] s = refl
  continue_over (e ∷ es) s = refl

  gives_up :
      (es : List SessionEvent) (now : ℕ) (msg : PhevMessage) (c : Client) (s : Session)
      → s.gateway.phev ≡ some c
      → msg.typ ≡ cmd_in_bad_encoding
      → is_stale now s.last_encoding_error ≡ false
      → ltb 50 s.error_count ≡ true
      → GivesUp (continue to_lower configs es (step to_lower configs (received now msg) s))
  unfolding encoding_error
  gives_up es now msg c s found typ near many =
      let s' : Session = with_client (close_client c) s in
      (s', rw (step-bad now msg c s found typ, near, many) (continue_over es s'), refl)

  continue-Burst :
      (es : List SessionEvent) (last : ℕ) (c : Client) (s : Session)
      → s.gateway.phev ≡ some c
      → s.last_encoding_error ≡ some last
      → Burst last es
      → s.error_count ≤ 51
      → 52 ≤ s.error_count + length es
      → GivesUp (continue to_lower configs es (going s))
  unfolding continue encoding_error
  continue-Burst [] last c s found then_ b h k = absurd (omega (arith, h, k))
  continue-Burst (tick ∷ es) last c s found then_ b h k = absurd b
  continue-Burst (receive_ended ∷ es) last c s found then_ b h k = absurd b
  continue-Burst (incoming t payload replies ∷ es) last c s found then_ b h k = absurd b
  continue-Burst (received now msg ∷ es) last c s found then_ b h k =
      let near : is_stale now s.last_encoding_error ≡ false =
        rw then_ (le→ltb 15000000000 (now - last) b.1) in
      elim (Bool-cases (ltb 50 s.error_count)) [
        | inl many ↦ gives_up es now msg c s found b.0 near many
        | inr few ↦
            let s' : Session = record s {
              error_count = s.error_count + 1;
              last_encoding_error = some now;
            } in
            rw (step-bad now msg c s found b.0, near, few)
              (continue-Burst es now c s' found refl b.2 (ground arith) (omega (arith, k)))
      ]

  -- An encoding error and at least 51 more, none more than 15 seconds after the one before it, make
  -- the loop give up with the client closed, whatever was counted before.
  pub run_session-Burst :
      (now : ℕ) (msg : PhevMessage) (es : List SessionEvent) (c : Client) (s : Session)
      → s.gateway.phev ≡ some c
      → s.error_count ≤ 51
      → msg.typ ≡ cmd_in_bad_encoding
      → Burst now es
      → 51 ≤ length es
      → GivesUp (run_session to_lower configs (received now msg ∷ es) s)
  unfolding run_session continue encoding_error
  run_session-Burst now msg es c s found h typ b many_more =
      elim (Bool-cases (is_stale now s.last_encoding_error)) [
        | inl old ↦
            let s' : Session = record s { error_count = 0 + 1; last_encoding_error = some now } in
            rw (step-bad now msg c s found typ, old)
              (continue-Burst es now c s' found refl b (omega arith) (omega (arith, many_more)))
        | inr near ↦ elim (Bool-cases (ltb 50 s.error_count)) [
          | inl many ↦ gives_up es now msg c s found typ near many
          | inr few ↦
              let s' : Session = record s {
                error_count = s.error_count + 1;
                last_encoding_error = some now;
              } in
              rw (step-bad now msg c s found typ, near, few)
                (continue-Burst es now c s' found refl b (ground arith) (omega (arith, many_more)))
        ]
      ]
