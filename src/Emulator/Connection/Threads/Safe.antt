-- ===== src/Emulator/Connection/Threads/Safe.antt =====
-- Every step of a connection keeps its channels open and what is in them fit for `manage`, so that
-- `manage` never panics.
use mathlib.Core.Path.{subst}
use phev2mqtt.Base.{
  ℕ, ◌+◌, ◌<◌, ◌≡◌, refl, sym, true, List, [], ◌∷◌, ◌++◌, arith, length, All, All-append, some, ok,
  Gives, Gives-ok, ok-Gives,
}
use phev2mqtt.Protocol.SecurityKey.Counters.{new_key-IsValid}
use phev2mqtt.Protocol.Types.{PhevMessage}
use phev2mqtt.Protocol.Register.Plain.{Clock}
use phev2mqtt.Client.Listener.{Listener, send}
use phev2mqtt.Client.Listener
use phev2mqtt.Client.Threads.{on_pointer, take_front}
use phev2mqtt.Client.Threads.Sound.{on_pointer-All}
use phev2mqtt.Emulator.Car.{Car}
use phev2mqtt.Emulator.Connection.{Connection, con_closed, con_tcp_open, new_connection, manage}
use phev2mqtt.Emulator.Connection.Laws.{Encodes}
use phev2mqtt.Emulator.Connection.Manage.{manage-IsManaged}
use phev2mqtt.Emulator.Connection.Loops.{
  reader_error, close, start, add_listener, remove_listener, drop_pointer,
}
use phev2mqtt.Emulator.Connection.Threads.{Step, Reach, front, received}
use phev2mqtt.Emulator.Connection.Threads.Fit.{
  IsFit, drop_pointer-IsFit, take_front-IsFit, front-IsLong,
}
use phev2mqtt.Emulator.Connection.Threads.Sound.{IsSound, changed, reader-IsSound, writer-IsSound}

module _ (clock : Clock) where
  received-IsSound : (p : ℕ) (s : Connection) → IsSound clock s → IsSound clock (received p s)
  received-IsSound p s h =
      changed clock s s.key s.sent (on_pointer take_front p s.listeners) s.next_pointer s.state
        s.conn_closed h.can h.can.key
        (on_pointer-All IsFit take_front p s.listeners take_front-IsFit h.fit)

  add_listener-IsSound : (s : Connection) → IsSound clock s → IsSound clock (add_listener s).1
  unfolding add_listener Listener.start
  add_listener-IsSound s h =
      let fresh : ℕ × Listener = (s.next_pointer, Listener.start) in
      changed clock s s.key s.sent (s.listeners ++ (fresh ∷ [])) (s.next_pointer + 1) s.state
        s.conn_closed h.can h.can.key
        (All-append IsFit s.listeners (fresh ∷ []) h.fit
          (record { fits = omega arith; opened = refl; long = tt }, tt))

  -- What `manage` does with the message that its listener receives next.
  manages_next :
      (rand_read : List ℕ → List ℕ) (p : ℕ) (m : PhevMessage) (s : Connection)
      → IsSound clock s
      → front p s.listeners ≡ some m
      → (s' : Connection) × (manage clock rand_read m (received p s) ≡ ok s') × IsSound clock s'
  manages_next rand_read p m s h e =
      let t = received-IsSound p s h in
      let (s', f, kept) =
        manage-IsManaged clock rand_read m (received p s) t.can
          (omega (arith, front-IsLong p s.listeners m h.fit e)) in
      (s', f, record { can = kept.can; fit = subst (All IsFit) (sym kept.same_listeners) t.fit })

  Step-IsSound :
      {rand_read : List ℕ → List ℕ} {s s' : Connection}
      → Step clock rand_read s s'
      → IsSound clock s
      → IsSound clock s'
  unfolding reader_error remove_listener close
  Step-IsSound {s = s} {s' = s'} (Step.reads bytes runs b e) h =
      Gives-ok (IsSound clock) _ s' (reader-IsSound clock bytes s h b) e
  Step-IsSound {s = s} Step.read_fails h =
      changed clock s s.key s.sent s.listeners s.next_pointer s.state true h.can h.can.key h.fit
  Step-IsSound {s = s} {s' = s'} (Step.writes write_succeeds m bytes e) h =
      Gives-ok (λ r. IsSound clock r.1) _ (bytes, s') (writer-IsSound clock write_succeeds m s h) e
  Step-IsSound {rand_read} {s} {s'} (Step.manages p m waits e) h =
      let (t, f, sound) = manages_next rand_read p m s h waits in
      Gives-ok (IsSound clock) _ s'
        (subst (Gives (IsSound clock)) (sym f) (ok-Gives (IsSound clock) t sound)) e
  Step-IsSound {s = s} Step.listens h = add_listener-IsSound s h
  Step-IsSound {s = s} (Step.notifies m) h =
      changed clock s s.key (s.sent ++ (m ∷ [])) s.listeners s.next_pointer s.state s.conn_closed
        h.can h.can.key h.fit
  Step-IsSound {s = s} (Step.receives p) h = received-IsSound p s h
  Step-IsSound {s = s} (Step.unlistens p) h =
      changed clock s s.key s.sent (drop_pointer p s.listeners) s.next_pointer s.state s.conn_closed
        h.can h.can.key (drop_pointer-IsFit p s.listeners h.fit)
  Step-IsSound {s = s} Step.closes h =
      changed clock s s.key s.sent s.listeners s.next_pointer con_closed true h.can h.can.key h.fit

  module _ (rand_read : List ℕ → List ℕ) (car : Car) (encodes : All (Encodes clock) car.registers)
      (some_register : 0 < length car.registers) where
    Reach-IsSound : {s : Connection} → Reach clock rand_read car s → IsSound clock s
    unfolding start new_connection
    Reach-IsSound Reach.accepted =
        add_listener-IsSound (record (new_connection car) { state = con_tcp_open })
          (record {
            can = record {
              ready = record { encodes = encodes; in_range = some_register; exclusive = tt };
              key = new_key-IsValid;
            };
            fit = tt;
          })
    Reach-IsSound (Reach.stepped r s) = Step-IsSound s (Reach-IsSound r)

    -- For a car with at least one register, all of which can be encoded, and however the goroutines
    -- of a connection take turns on whatever bytes the client sends: where a message waits for the
    -- owner of a listener, all channels are open and hold at most five messages, also after a read
    -- error and after Close; and if that owner is `manage`, it does not panic on the message.
    pub Reach-Manages :
        {s : Connection} (p : ℕ) (m : PhevMessage)
        → Reach clock rand_read car s
        → front p s.listeners ≡ some m
        → All IsFit s.listeners
          × ((s' : Connection) × (manage clock rand_read m (received p s) ≡ ok s'))
    Reach-Manages {s} p m r e =
        let h = Reach-IsSound r in
        let (s', f, _) = manages_next rand_read p m s h e in (h.fit, (s', f))
