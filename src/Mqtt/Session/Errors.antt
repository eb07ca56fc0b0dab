-- ===== src/Mqtt/Session/Errors.antt =====
-- The encoding errors that handlePhev counts.
use phev2mqtt.Base.{
  ℕ, ◌+◌, ◌≡◌, ◌≤◌, refl, inl, inr, true, List, [], ◌∷◌, ltb, ◌==◌, if◌then◌else◌, arith,
  Bool-cases, Option, none, some,
}
use phev2mqtt.Protocol.Constants.{cmd_in_bad_encoding, cmd_in_resp, request_flag}
use phev2mqtt.Protocol.Types.{PhevMessage}
use phev2mqtt.Client.State.{Client}
use phev2mqtt.Mqtt.Incoming.{Handled, returned, waiting, stopped, handle_incoming}
use phev2mqtt.Mqtt.Session.{
  Session, SessionEvent, tick, received, receive_ended, incoming, connection_closed,
  too_many_errors, Progress, going, over, halted, is_stale, encoding_error, after_incoming,
  notified, receive, step_with, step, continue, run_session,
}

-- The messages that say that the encoding was bad.
abbrev pub bad : SessionEvent → ℕ
bad tick = 0
bad (received now msg) = if msg.typ == cmd_in_bad_encoding then 1 else 0
bad receive_ended = 0
bad (incoming t payload replies) = 0

abbrev pub bad_count : List SessionEvent → ℕ
bad_count [] = 0
bad_count (e ∷ es) = bad e + bad_count es

abbrev pub Closed : Option Client → Type 0
Closed none = ⊥
Closed (some c) = c.closed ≡ true

-- The counter is at most 51, and at most `n`; it is given up only where `n` is 52 at least, with the
-- client closed.
abbrev pub Counts : ℕ → Progress → Type 0
Counts n (going s) = (s.error_count ≤ 51) × (s.error_count ≤ n)
Counts n (over too_many_errors s) = (52 ≤ n) × Closed s.gateway.phev
Counts n (over connection_closed s) = s.error_count ≤ 51
Counts n halted = Unit

Counts-more : (n m : ℕ) (p : Progress) → n ≤ m → Counts n p → Counts m p
Counts-more n m (going s) h k = (k.0, omega (arith, h, k))
Counts-more n m (over too_many_errors s) h k = (omega (arith, h, k), k.1)
Counts-more n m (over connection_closed s) h k = k
Counts-more n m halted h k = tt

encoding_error-Counts :
    (now : ℕ) (c : Client) (s : Session)
    → s.error_count ≤ 51
    → Counts (s.error_count + 1) (encoding_error now c s)
unfolding encoding_error
encoding_error-Counts now c s h = elim (Bool-cases (is_stale now s.last_encoding_error)) [
  | inl old ↦ rw old (omega arith, omega arith)
  | inr fresh ↦ elim (Bool-cases (ltb 50 s.error_count)) [
    | inl many ↦ rw (fresh, many) (ground arith, refl)
    | inr few ↦ rw (fresh, few) (ground arith, ground arith)
  ]
]

after_incoming-Counts :
    (h : Handled) (s : Session) → s.error_count ≤ 51 → Counts s.error_count (after_incoming h s)
unfolding after_incoming
after_incoming-Counts (returned g) s h = (h, omega arith)
after_incoming-Counts (waiting g) s h = (h, omega arith)
after_incoming-Counts stopped s h = tt

module _ (to_lower : List ℕ → List ℕ) (configs : List ℕ → List (List ℕ × List ℕ)) where
  receive-Counts :
      (now : ℕ) (msg : PhevMessage) (c : Client) (s : Session)
      → s.error_count ≤ 51
      → Counts (bad (received now msg) + s.error_count) (receive to_lower configs now msg c s)
  unfolding receive notified
  receive-Counts now msg c s h = elim (Bool-cases (msg.typ == cmd_in_bad_encoding)) [
    | inl is ↦ rw is (
        Counts-more (s.error_count + 1) (1 + s.error_count) (encoding_error now c s) (omega arith)
          (encoding_error-Counts now c s h))
    | inr other ↦ elim (Bool-cases (msg.typ == cmd_in_resp)) [
      | inl resp ↦ elim (Bool-cases (msg.ack == request_flag)) [
        | inl asked ↦ rw (other, resp, asked) (h, omega arith)
        | inr not_asked ↦ rw (other, resp, not_asked) (h, omega arith)
      ]
      | inr rest ↦ rw (other, rest) (h, omega arith)
    ]
  ]

  step_with-Counts :
      (o : Option Client) (e : SessionEvent) (s : Session)
      → s.error_count ≤ 51
      → Counts (bad e + s.error_count) (step_with to_lower configs o e s)
  unfolding step_with
  step_with-Counts none e s h = tt
  step_with-Counts (some c) tick s h = (h, omega arith)
  step_with-Counts (some c) (received now msg) s h = receive-Counts now msg c s h
  step_with-Counts (some c) receive_ended s h = h
  step_with-Counts (some c) (incoming t payload replies) s h =
      let handled : Handled = handle_incoming to_lower t payload replies s.gateway in
      Counts-more s.error_count (0 + s.error_count) (after_incoming handled s) (omega arith)
        (after_incoming-Counts handled s h)

  continue-Counts :
      (es : List SessionEvent) (n : ℕ) (p : Progress)
      → Counts n p
      → Counts (n + bad_count es) (continue to_lower configs es p)
  unfolding continue step
  continue-Counts [] n p h = Counts-more n (n + 0) p (omega arith) h
  continue-Counts (e ∷ es) n (going s) h =
      let one =
        Counts-more (bad e + s.error_count) (n + bad e) (step to_lower configs e s)
          (omega (arith, h)) (step_with-Counts s.gateway.phev e s h.0) in
      Counts-more ((n + bad e) + bad_count es) (n + (bad e + bad_count es))
        (continue to_lower configs es (step to_lower configs e s)) (omega arith)
        (continue-Counts es (n + bad e) (step to_lower configs e s) one)
  continue-Counts (e ∷ es) n (over r s) h =
      Counts-more n (n + (bad e + bad_count es)) (over r s) (omega arith) h
  continue-Counts (e ∷ es) n halted h = tt

  -- From a counter of at most 51, the counter stays at most 51, and at most what it was plus the bad
  -- encodings received; the loop gives up only if the two come to 52 at least, and then the client
  -- is closed.
  pub run_session-Counts :
      (es : List SessionEvent) (s : Session)
      → s.error_count ≤ 51
      → Counts (s.error_count + bad_count es) (run_session to_lower configs es s)
  unfolding run_session
  run_session-Counts es s h = continue-Counts es s.error_count (going s) (h, omega arith)
