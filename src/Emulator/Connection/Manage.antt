-- ===== src/Emulator/Connection/Manage.antt =====
-- The loop of `manage` never panics: each message that it handles leaves the connection ready for
-- the next.
use phev2mqtt.Base.{
  ℕ, ◌≤◌, ◌≡◌, refl, inl, inr, true, false, List, ◌∷◌, ◌==◌, ◌&&◌, ◌+◌, arith, length, get_elem?,
  get_or, get_elem?-eq-get_or, some, Outcome, ok, Bool-cases,
}
use phev2mqtt.Protocol.SecurityKey.{SecurityKey, accept_proposal, security_key_accepted}
use phev2mqtt.Protocol.SecurityKey.Counters.{IsValid, update-IsValid}
use phev2mqtt.Protocol.Types.{PhevMessage, new_ping_response_message}
use phev2mqtt.Protocol.Register.Plain.{Clock}
use phev2mqtt.Emulator.Connection.{
  Connection, con_sec_init, put, rekey, is_empty, is_proposed, handle_set_register, manage,
}
use phev2mqtt.Emulator.Connection.Kept.{
  CanManage, IsManaged, adds, rekeyed, IsManaged-trans, send_next_register-IsManaged,
  rekey-IsManaged, handle_set_register-IsManaged,
}

module _ (clock : Clock) where
  -- A step that does not panic.
  abbrev pub Manages : Connection → Outcome Connection → Type 0
  Manages s o = (s' : Connection) × (o ≡ ok s') × IsManaged clock s s'

  manage_ping :
      (rand_read : List ℕ → List ℕ) (m : PhevMessage) (s : Connection)
      → CanManage clock s
      → (m.typ == 0xf3) ≡ true
      → Manages s (manage clock rand_read m s)
  unfolding manage new_ping_response_message
  manage_ping rand_read m s v e =
      let counted : Connection =
        put (new_ping_response_message m.register) (record s { ping_count = s.ping_count + 1 }) in
      let first = adds clock s counted.sent s.state (s.ping_count + 1) v in
      elim (Bool-cases (is_empty s.key.state && s.ping_count + 1 == 10)) [
        | inl tenth ↦
            let init = adds clock counted counted.sent con_sec_init counted.ping_count first.can in
            (
              rekey rand_read (record counted { state = con_sec_init }),
              rw (e, tenth) refl,
              IsManaged-trans clock first
                  (IsManaged-trans clock init (rekey-IsManaged clock rand_read _ init.can)),
            )
        | inr other ↦ (counted, rw (e, other) refl, first)
      ]

  accepted :
      (key : SecurityKey) → (key' : SecurityKey) × (accept_proposal key ≡ ok key') × IsValid key'
  unfolding accept_proposal
  accepted key =
      let (key', e, k) = update-IsValid key (0x0 ∷ 0x0 ∷ 0x0 ∷ 0x0 ∷ key.proposed_key) in
      (
        record key' { state = security_key_accepted },
        rw e refl,
        record { mapped = k.mapped; send_byte = k.send_byte; receive_byte = k.receive_byte },
      )

  manage_start :
      (rand_read : List ℕ → List ℕ) (m : PhevMessage) (s : Connection) (flag : ℕ)
      → CanManage clock s
      → get_elem? m.original 2 ≡ some flag
      → (m.typ == 0xf3) ≡ false
      → (m.typ == 0xe5) ≡ true
      → Manages s (manage clock rand_read m s)
  unfolding manage
  manage_start rand_read m s flag v at e f = elim (Bool-cases (flag == 0x0)) [
    | inl zero_flag ↦
        (rekey rand_read s, rw (e, f, at, zero_flag) refl, rekey-IsManaged clock rand_read s v)
    | inr other ↦ elim (Bool-cases (is_proposed s.key.state)) [
      | inl proposed ↦
          let (key, took, k) = accepted s.key in
          let first = rekeyed clock s key s.sent v k in
          let (s', next, kept) =
            send_next_register-IsManaged clock (record s { key = key }) first.can in
          (s', rw (e, f, at, other, proposed, took) next, IsManaged-trans clock first kept)
      | inr idle ↦ (
        s,
        rw (e, f, at, other, idle) refl,
        record { can = v; same_listeners = refl; same_car = refl },
      )
    ]
  ]

  manage_command :
      (rand_read : List ℕ → List ℕ) (m : PhevMessage) (s : Connection)
      → CanManage clock s
      → (m.typ == 0xf3) ≡ false
      → (m.typ == 0xe5) ≡ false
      → (m.typ == 0xf6) ≡ true
      → Manages s (manage clock rand_read m s)
  unfolding manage
  manage_command rand_read m s v e f g = elim (Bool-cases (m.ack == 1)) [
    | inl ack ↦
        let (s', next, kept) = send_next_register-IsManaged clock s v in
        let no_request : (m.ack == 0) ≡ false = ground (arith, ack) in
        (s', rw (e, f, g, ack, no_request, next) refl, kept)
    | inr no_ack ↦ elim (Bool-cases (m.ack == 0)) [
      | inl request ↦ (
        handle_set_register m s,
        rw (e, f, g, no_ack, request) refl,
        handle_set_register-IsManaged clock m s v,
      )
      | inr neither ↦ (
        s,
        rw (e, f, g, no_ack, neither) refl,
        record { can = v; same_listeners = refl; same_car = refl },
      )
    ]
  ]

  manage_other :
      (rand_read : List ℕ → List ℕ) (m : PhevMessage) (s : Connection)
      → CanManage clock s
      → (m.typ == 0xf3) ≡ false
      → (m.typ == 0xe5) ≡ false
      → (m.typ == 0xf6) ≡ false
      → Manages s (manage clock rand_read m s)
  unfolding manage
  manage_other rand_read m s v e f g =
      (s, rw (e, f, g) refl, record { can = v; same_listeners = refl; same_car = refl })

  -- On a message of at least three bytes `manage` does not panic. The connection is ready for the
  -- next one, with the same listeners and the same car.
  pub manage-IsManaged :
      (rand_read : List ℕ → List ℕ) (m : PhevMessage) (s : Connection)
      → CanManage clock s
      → 3 ≤ length m.original
      → Manages s (manage clock rand_read m s)
  manage-IsManaged rand_read m s v h = elim (Bool-cases (m.typ == 0xf3)) [
    | inl e ↦ manage_ping rand_read m s v e
    | inr e ↦ elim (Bool-cases (m.typ == 0xe5)) [
      | inl f ↦
          manage_start rand_read m s (get_or m.original 2 0) v
            (get_elem?-eq-get_or m.original 2 0 h) e f
      | inr f ↦ elim (Bool-cases (m.typ == 0xf6)) [
        | inl g ↦ manage_command rand_read m s v e f g
        | inr g ↦ manage_other rand_read m s v e f g
      ]
    ]
  ]
