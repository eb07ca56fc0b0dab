-- ===== src/Emulator/Connection/Kept.antt =====
-- What a round of `manage` keeps: the parts of a connection that make it ready for a message.
use mathlib.Core.Path.{subst}
use phev2mqtt.Base.{
  replicate, ℕ, ◌≡◌, refl, sym, ◌∙◌, inl, inr, List, [], ◌∷◌, ◌==◌, leb, ◌+◌, length, get_elem?,
  Option, none, some, ok, in_range, Bool-cases, Gives, >>=-Gives, ok-Gives, Gives-ok,
}
use phev2mqtt.Protocol.SecurityKey.{SecurityKey, generate_proposal, security_key_proposed}
use phev2mqtt.Protocol.SecurityKey.Counters.{IsValid}
use phev2mqtt.Protocol.Types.{PhevMessage, new_message}
use phev2mqtt.Protocol.Register.{encode}
use phev2mqtt.Protocol.Register.Plain.{Clock}
use phev2mqtt.Emulator.Connection.{
  Connection, ConnState, rekey, in_register_start, handle_set_register, send_register, at_index,
  from_sender, send_next_register,
}
use phev2mqtt.Emulator.Connection.Schedule.{IsReady, send_next_register-Refines}

-- A step that leaves the car, the key and the listeners.
pub record LeavesKey (s s' : Connection) : Type 0 where
  pub same_key : s'.key ≡ s.key
  pub same_listeners : s'.listeners ≡ s.listeners

module _ (clock : Clock) where
  -- Ready for a message.
  pub record CanManage (s : Connection) : Type 0 where
    pub ready : IsReady clock s
    pub key : IsValid s.key

  -- A step to a connection that is ready for the next message, with the car and the listeners of
  -- before.
  pub record IsManaged (s s' : Connection) : Type 0 where
    pub can : CanManage s'
    pub same_listeners : s'.listeners ≡ s.listeners
    pub same_car : s'.car ≡ s.car

  -- Nothing but messages, the state and the count of pings has changed.
  pub adds :
      (s : Connection) (sent : List PhevMessage) (state : ConnState) (pings : ℕ)
      → CanManage s
      → IsManaged s (record s { sent = sent; state = state; ping_count = pings })
  adds s sent state pings v = record {
    can = record {
      ready = record {
        encodes = v.ready.encodes;
        in_range = v.ready.in_range;
        exclusive = v.ready.exclusive;
      };
      key = v.key;
    };
    same_listeners = refl;
    same_car = refl;
  }

  pub rekeyed :
      (s : Connection) (key : SecurityKey) (sent : List PhevMessage)
      → CanManage s
      → IsValid key
      → IsManaged s (record s { key = key; sent = sent })
  rekeyed s key sent v k = record {
    can = record {
      ready = record {
        encodes = v.ready.encodes;
        in_range = v.ready.in_range;
        exclusive = v.ready.exclusive;
      };
      key = k;
    };
    same_listeners = refl;
    same_car = refl;
  }

  pub IsManaged-trans : {s t u : Connection} → IsManaged s t → IsManaged t u → IsManaged s u
  IsManaged-trans a b = record {
    can = b.can;
    same_listeners = b.same_listeners ∙ a.same_listeners;
    same_car = b.same_car ∙ a.same_car;
  }

  send_register-LeavesKey : (i : ℕ) (s : Connection) → Gives (LeavesKey s) (send_register clock i s)
  unfolding send_register
  send_register-LeavesKey i s =
      >>=-Gives (LeavesKey s) (in_range (get_elem? s.car.registers i)) _ (λ reg.
        >>=-Gives (LeavesKey s) (encode clock reg) _ (λ msg.
          elim (Bool-cases (leb (length s.car.registers) (i + 1))) [
            | inl e ↦
                rw e (ok-Gives (LeavesKey s) _ (record { same_key = refl; same_listeners = refl }))
            | inr e ↦
                rw e (ok-Gives (LeavesKey s) _ (record { same_key = refl; same_listeners = refl }))
          ]))

  from_sender-LeavesKey :
      (sender : Option (List PhevMessage)) (s : Connection)
      → Gives (LeavesKey s) (from_sender clock sender s)
  unfolding from_sender at_index Gives
  from_sender-LeavesKey (some (m ∷ ms)) s = record { same_key = refl; same_listeners = refl }
  from_sender-LeavesKey (some []) s = record { same_key = refl; same_listeners = refl }
  from_sender-LeavesKey none s = at s.register_index
    where
      at : (index : Option ℕ) → Gives (LeavesKey s) (at_index clock index s)
      at none = record { same_key = refl; same_listeners = refl }
      at (some i) = send_register-LeavesKey i s

  pub send_next_register-IsManaged :
      (s : Connection)
      → CanManage s
      → (s' : Connection) × (send_next_register clock s ≡ ok s') × IsManaged s s'
  unfolding send_next_register
  send_next_register-IsManaged s v =
      let (s', e, same, ready, car) = send_next_register-Refines clock s v.ready in
      let left = Gives-ok (LeavesKey s) _ s' (from_sender-LeavesKey s.settings_sender s) e in
      (
        s',
        e,
        record {
          can = record { ready = ready; key = subst IsValid (sym left.same_key) v.key };
          same_listeners = left.same_listeners;
          same_car = car;
        },
      )

  pub rekey-IsManaged :
      (rand_read : List ℕ → List ℕ) (s : Connection) → CanManage s → IsManaged s (rekey rand_read s)
  unfolding rekey generate_proposal
  rekey-IsManaged rand_read s v =
      let k : IsValid (record s.key {
        state = security_key_proposed;
        proposed_key = rand_read (replicate 8 0);
      }) =
        record {
          mapped = v.key.mapped;
          send_byte = v.key.send_byte;
          receive_byte = v.key.receive_byte;
        } in
      elim (Bool-cases (in_register_start s.state)) [
        | inl e ↦ rw e (rekeyed s _ _ v k)
        | inr e ↦ rw e (rekeyed s _ _ v k)
      ]

  pub handle_set_register-IsManaged :
      (m : PhevMessage) (s : Connection) → CanManage s → IsManaged s (handle_set_register m s)
  unfolding handle_set_register new_message
  handle_set_register-IsManaged m s v = elim (Bool-cases (m.register == 0x05)) [
    | inl e ↦ rw e (adds s _ s.state s.ping_count v)
    | inr e ↦ rw e (adds s _ s.state s.ping_count v)
  ]
