-- ===== src/Mqtt/Run/Failed.antt =====
-- One round of Run in which Connect fails.
use phev2mqtt.Base.{
  ℕ, ◌≡◌, refl, ap, ◌∙◌, inl, inr, Bool, true, false, List, [], ◌∷◌, ltb, ◌&&◌, codes,
  if◌then◌else◌, same_text, same_text→eq, Option, none, some, Bool-cases,
}
use phev2mqtt.Client.State.{new, address_option}
use phev2mqtt.Client.SetRegister.{StartEvent, await_start}
use phev2mqtt.Mqtt.Incoming.{Gateway}
use phev2mqtt.Mqtt.Session.{SessionEvent, Progress, handle_phev}
use phev2mqtt.Mqtt.Run.{
  Flags, Round, Runner, start_error, round, since, is_error, note_error, restart_wifi,
  check_offline, check_wifi, after_phev, enabled_round, checked, run_step,
}

-- Connect fails with this error.
abbrev pub FailsWith : List ℕ → Round → Type 0
FailsWith text r = (r.connects ≡ false) × (r.connect_error ≡ text)

-- A round in which the error is `text`, from `s` to `t`.
pub record IsFailed (text : List ℕ) (r : Round) (s t : Runner) : Type 0 where
  pub enabled : t.gateway.enabled ≡ true
  pub last_error : t.last_error ≡ some text
  pub last_connect : t.last_connect ≡ s.last_connect
  pub logged : t.logged ≡ (if is_error text s.last_error then s.logged else text ∷ s.logged)
  pub announced : t.gateway.announced ≡ (
      if ltb 30000000000 (since r.offline_at s.last_connect)
      then codes "offline" ∷ s.gateway.announced
      else s.gateway.announced)

is_error-some :
    (text : List ℕ) (last : Option (List ℕ)) → is_error text last ≡ true → last ≡ some text
is_error-some text none h = cc
is_error-some text (some l) h = ap some (same_text→eq l text h)

module _ (to_lower : List ℕ → List ℕ) (configs : List ℕ → List (List ℕ × List ℕ)) (address : List ℕ)
    (f : Flags) (setting : List ℕ) where
  check_wifi-IsFailed :
      (text : List ℕ) (r : Round) (s t : Runner)
      → IsFailed text r s t
      → IsFailed text r s (check_wifi f setting r t)
  unfolding check_wifi restart_wifi
  check_wifi-IsFailed text r s t h =
      elim (Bool-cases
        (ltb 0 f.wifi_restart_time && ltb f.wifi_restart_time (since r.wifi_at t.last_connect))) [
          | inl e ↦
              elim (Bool-cases
                (ltb (since r.retry_at t.last_wifi_restart) f.wifi_restart_retry_time)) [
                  | inl early ↦ rw (e, early) h
                  | inr late ↦ elim (Bool-cases (same_text setting [])) [
                    | inl nothing ↦
                        rw (e, late, nothing)
                          (record {
                            enabled = h.enabled;
                            last_error = h.last_error;
                            last_connect = h.last_connect;
                            logged = h.logged;
                            announced = h.announced;
                          })
                    | inr command ↦
                        rw (e, late, command)
                          (record {
                            enabled = h.enabled;
                            last_error = h.last_error;
                            last_connect = h.last_connect;
                            logged = h.logged;
                            announced = h.announced;
                          })
                  ]
                ]
          | inr e ↦ rw e h
        ]

  -- The state that the checks find.
  abbrev after_failure : List ℕ → Runner → Runner
  after_failure text s =
      note_error text (record s {
        gateway = record s.gateway { phev = some (new (address_option address ∷ [])) };
      })

  check_offline-IsFailed :
      (text : List ℕ) (r : Round) (s : Runner)
      → s.gateway.enabled ≡ true
      → IsFailed text r s (check_offline r (after_failure text s))
  unfolding check_offline note_error
  check_offline-IsFailed text r s on = elim (Bool-cases (is_error text s.last_error)) [
    | inl same ↦ elim (Bool-cases (ltb 30000000000 (since r.offline_at s.last_connect))) [
      | inl late ↦
          rw (same, late)
            (record {
              enabled = on;
              last_error = is_error-some text s.last_error same;
              last_connect = refl;
              logged = rw same refl;
              announced = rw late refl;
            })
      | inr early ↦
          rw (same, early)
            (record {
              enabled = on;
              last_error = is_error-some text s.last_error same;
              last_connect = refl;
              logged = rw same refl;
              announced = rw early refl;
            })
    ]
    | inr fresh ↦ elim (Bool-cases (ltb 30000000000 (since r.offline_at s.last_connect))) [
      | inl late ↦
          rw (fresh, late)
            (record {
              enabled = on;
              last_error = refl;
              last_connect = refl;
              logged = rw fresh refl;
              announced = rw late refl;
            })
      | inr early ↦
          rw (fresh, early)
            (record {
              enabled = on;
              last_error = refl;
              last_connect = refl;
              logged = rw fresh refl;
              announced = rw early refl;
            })
    ]
  ]

  on_round : (b : Bool) (x y : Option Runner) → b ≡ true → (if b then x else y) ≡ x
  on_round true x y e = refl
  on_round false x y e = cc

  failed_text : (b : Bool) (x y text : List ℕ) → b ≡ false → y ≡ text → (if b then x else y) ≡ text
  failed_text true x y text e h = cc
  failed_text false x y text e h = h

  phev_fails :
      (b : Bool) (e : StartEvent) (es : List SessionEvent) (g : Gateway)
      → b ≡ false
      → handle_phev to_lower configs address b e es g
        ≡ (record g { phev = some (new (address_option address ∷ [])) }, none)
  unfolding handle_phev
  phev_fails true e es g h = cc
  phev_fails false e es g h = refl

  pub run_step-IsFailed :
      (text : List ℕ) (r : Round) (s : Runner)
      → s.gateway.enabled ≡ true
      → FailsWith text r
      → (t : Runner) × (run_step to_lower configs address f setting (round r) s ≡ some t)
        × IsFailed text r s t
  unfolding run_step enabled_round after_phev checked
  run_step-IsFailed text r s on fails =
      let s' : Runner = record s {
        gateway = record s.gateway { phev = some (new (address_option address ∷ [])) };
      } in
      (
        check_wifi f setting r (check_offline r (after_failure text s)),
        on_round s.gateway.enabled _ _ on
            ∙ ap
                (λ (p : Gateway × Option Progress).
                  checked to_lower configs address f setting r (after_phev r p s))
                (phev_fails r.connects r.start_event r.events s.gateway fails.0)
            ∙ ap
                (λ (e : List ℕ).
                  checked to_lower configs address f setting r (some (note_error e s')))
                (failed_text r.connects (start_error (await_start r.start_event)) r.connect_error
                  text fails.0 fails.1),
        check_wifi-IsFailed text r s _ (check_offline-IsFailed text r s on),
      )
