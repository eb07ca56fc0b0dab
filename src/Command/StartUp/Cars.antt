-- ===== src/Command/StartUp/Cars.antt =====
-- The emulator command from its start: the car that it makes, the connections that it accepts, and
-- what their `manage` does.
use mathlib.Core.List.{append_assoc, append-nil}
use phev2mqtt.Base.{
  ℕ, suc, ◌∙◌, sym, arith, replicate, ◌<◌, ◌≡◌, Bool, true, false, List, [], ◌∷◌, ◌++◌, length, All,
  Option, none, some, ok, ◌>>=◌, Gives, >>=-Gives_from, if-Gives, ok-Gives, err-Gives, Gives-ok,
  same_text, codes,
}
use phev2mqtt.Protocol.Types.{PhevMessage}
use phev2mqtt.Protocol.Register.Plain.{Clock}
use phev2mqtt.Emulator.Car.{Car}
use phev2mqtt.Emulator.Car.Laws.{new_car-Encodes}
use phev2mqtt.Emulator.Connection.{Connection, new_connection, manage}
use phev2mqtt.Emulator.Connection.Laws.{Encodes}
use phev2mqtt.Emulator.Connection.Loops.{start, accept, begin}
use phev2mqtt.Emulator.Connection.Threads.{Reach, front, received}
use phev2mqtt.Emulator.Connection.Threads.Safe.{Reach-Manages}
use phev2mqtt.Command.Emulator.{Emu, publish}
use phev2mqtt.Command.StartUp.{manage_car, run_emulator, fresh_emu}

-- How many connections Accept yields before its first error.
abbrev pub leading : List Bool → ℕ
leading [] = 0
leading (true ∷ cs) = suc (leading cs)
leading (false ∷ cs) = 0

-- A connection of the car at its start.
abbrev pub at_start : Car → Connection
at_start car = (start (new_connection car)).1

accept_lem :
    (car : Car) (cs : List Bool) (ss : List Connection)
    → accept car cs ss ≡ ss ++ replicate (leading cs) (at_start car)
unfolding accept
accept_lem car [] ss = sym (append-nil ss)
accept_lem car (false ∷ cs) ss = sym (append-nil ss)
accept_lem car (true ∷ cs) ss =
    accept_lem car cs (ss ++ (at_start car ∷ []))
    ∙ append_assoc ss (at_start car ∷ []) (replicate (leading cs) (at_start car))

begin-Gives :
    (car : Car) (listens : Bool) (cs : List Bool)
    → Gives (λ ss. ss ≡ replicate (leading cs) (at_start car)) (begin car listens cs)
unfolding begin
begin-Gives car true cs = ok-Gives _ _ (accept_lem car cs [])
begin-Gives car false cs = err-Gives _

publish-car : (t payload : List ℕ) (e : Emu) → (publish t payload e).car ≡ e.car
unfolding publish
publish-car t payload e = ground arith

module _ (clock : Clock) (rand_read : List ℕ → List ℕ) where
  -- The car can serve, and the connections stand at their start.
  record IsServing (car : Car) (cs : List Bool) (ss : List Connection) (e : Emu) : Type 0 where
    encodes : All (Encodes clock) car.registers
    some_register : 0 < length car.registers
    held : e.car ≡ some car
    accepted : ss ≡ replicate (leading cs) (at_start car)

  abbrev Serves : List Bool → Car × List Connection × Emu → Type 0
  Serves cs (car, ss, e) = IsServing car cs ss e

  manage_car-IsServing :
      (address : List ℕ) (listens : Bool) (cs : List Bool) (e : Emu)
      → Gives (Serves cs) (manage_car address listens cs e)
  unfolding manage_car
  manage_car-IsServing address listens cs e =
      let (car, made, encodes, some_register) = new_car-Encodes clock address in
      rw made (
        >>=-Gives_from (Serves cs) (λ ss. ss ≡ replicate (leading cs) (at_start car))
          (begin car listens cs) _ (begin-Gives car listens cs)
          (λ ss started.
            let e' = publish (codes "/available") (codes "online") (record e { car = some car }) in
            ok-Gives (Serves cs) (car, ss, e')
              (record {
                encodes = encodes;
                some_register = some_register;
                held =
                    publish-car (codes "/available") (codes "online") (record e { car = some car });
                accepted = started;
              })))

  abbrev ServesAll : List Bool → Option (List ℕ) × Car × List Connection × Emu → Type 0
  ServesAll cs (t, car, ss, e) = IsServing car cs ss e

  run_emulator-IsServing :
      (server prefix address : List ℕ) (connects subscribes listens : Bool) (cs : List Bool)
      → Gives (ServesAll cs) (run_emulator server prefix address connects subscribes listens cs)
  unfolding run_emulator
  run_emulator-IsServing server prefix address connects subscribes listens cs =
      if-Gives (ServesAll cs) (same_text server []) _ _ (made false none) (
        if-Gives (ServesAll cs) connects _ _
          (if-Gives (ServesAll cs) subscribes _ _ (made true (some (prefix ++ codes "/set/#")))
            (err-Gives (ServesAll cs)))
          (err-Gives (ServesAll cs)))
    where
      made :
          (broker : Bool) (t : Option (List ℕ))
          → Gives (ServesAll cs) (do
            (car, ss, e) ← manage_car address listens cs (fresh_emu prefix broker)
            ok (t, car, ss, e))
      made broker t =
          >>=-Gives_from (ServesAll cs) (Serves cs)
            (manage_car address listens cs (fresh_emu prefix broker)) _
            (manage_car-IsServing address listens cs (fresh_emu prefix broker))
            (λ (car, ss, e) h. ok-Gives (ServesAll cs) (t, car, ss, e) h)

  -- Once the emulator command has started, it holds the car that it made, and has one connection at
  -- its start for each one that Accept yielded before its first error. Whatever the client of such a
  -- connection sends and however its goroutines take turns from there, `manage` does not panic on a
  -- message that waits for it.
  pub run_emulator-Manages :
      (server prefix address : List ℕ) (connects subscribes listens : Bool) (cs : List Bool)
      (t : Option (List ℕ)) (car : Car) (ss : List Connection) (e : Emu) {s : Connection} (p : ℕ)
      (m : PhevMessage)
      → run_emulator server prefix address connects subscribes listens cs ≡ ok (t, car, ss, e)
      → Reach clock rand_read car s
      → front p s.listeners ≡ some m
      → (e.car ≡ some car)
        × (ss ≡ replicate (leading cs) (at_start car))
        × ((s' : Connection) × (manage clock rand_read m (received p s) ≡ ok s'))
  run_emulator-Manages server prefix address connects subscribes listens cs t car ss e {s} p m runs
        r waits =
      let h =
        Gives-ok (ServesAll cs) _ (t, car, ss, e)
          (run_emulator-IsServing server prefix address connects subscribes listens cs) runs in
      let (_, manages) = Reach-Manages clock rand_read car h.encodes h.some_register p m r waits in
      (h.held, h.accepted, manages)
