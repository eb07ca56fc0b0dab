-- ===== src/Mqtt/Run/Keeps.antt =====
-- What the check in a round of Run keeps of the runs of the command, all of Run keeps.
use phev2mqtt.Base.{
  ℕ, ◌≡◌, refl, inl, inr, Bool, true, false, List, [], ◌∷◌, ltb, ◌&&◌, if◌then◌else◌, All, Option,
  none, some, Bool-cases,
}
use phev2mqtt.Client.SetRegister.{await_start}
use phev2mqtt.Mqtt.Incoming.{Gateway, Handled, returned, stopped, waiting, handle_incoming}
use phev2mqtt.Mqtt.Session.{Progress, going, over, halted, handle_phev}
use phev2mqtt.Mqtt.Run.{
  Flags, Round, Runner, end_error, start_error, RunEvent, round, message, reconnected, since,
  note_error, is_error, restart_wifi, check_offline, check_wifi, check_times, after_phev,
  after_message, enabled_round, checked, run_step, run_from, run,
}

-- A step that says nothing of the wireless network.
abbrev SameWifi : Runner → Runner → Type 0
SameWifi s t = (t.restarts ≡ s.restarts) × (t.last_wifi_restart ≡ s.last_wifi_restart)

note_error-SameWifi : (text : List ℕ) (s : Runner) → SameWifi s (note_error text s)
unfolding note_error
note_error-SameWifi text s = elim (Bool-cases (is_error text s.last_error)) [
  | inl e ↦ rw e (refl, refl)
  | inr e ↦ rw e (refl, refl)
]

check_offline-SameWifi : (r : Round) (s : Runner) → SameWifi s (check_offline r s)
unfolding check_offline
check_offline-SameWifi r s =
    elim (Bool-cases (ltb 30000000000 (since r.offline_at s.last_connect))) [
      | inl e ↦ rw e (refl, refl)
      | inr e ↦ rw e (refl, refl)
    ]

-- What the runner of a step is, if there is one.
abbrev pub Then : (Runner → Type 0) → Option Runner → Type 0
Then Good none = Unit
Then Good (some s) = Good s

after_phev-SameWifi :
    (r : Round) (p : Gateway × Option Progress) (s : Runner) → Then (SameWifi s) (after_phev r p s)
unfolding after_phev
after_phev-SameWifi r (g, none) s =
    note_error-SameWifi
      (if r.connects then start_error (await_start r.start_event) else r.connect_error)
      (record s { gateway = g })
after_phev-SameWifi r (g, some (over end t)) s =
    note_error-SameWifi (end_error end)
      (record s { gateway = t.gateway; last_error = none; last_connect = some r.returned_at })
after_phev-SameWifi r (g, some (going t)) s = tt
after_phev-SameWifi r (g, some halted) s = tt

after_message-SameWifi : (h : Handled) (s : Runner) → Then (SameWifi s) (after_message h s)
unfolding after_message
after_message-SameWifi (returned g) s = (refl, refl)
after_message-SameWifi (waiting g) s = (refl, refl)
after_message-SameWifi stopped s = tt

-- The rounds are fair.
abbrev pub IsFair : (Round → Type 0) → RunEvent → Type 0
IsFair Fair (round r) = Fair r
IsFair Fair (message t payload replies) = Unit
IsFair Fair reconnected = Unit

-- A property of the command's runs that the check in a round keeps.
module _ (Good : List ℕ → Option ℕ → Type 0) where
  abbrev pub IsGood : Runner → Type 0
  IsGood s = Good s.restarts s.last_wifi_restart

  SameWifi-IsGood : (s t : Runner) → SameWifi s t → IsGood s → IsGood t
  SameWifi-IsGood s t e h = rw (e.0, e.1) h

  module _ (to_lower : List ℕ → List ℕ) (configs : List ℕ → List (List ℕ × List ℕ))
      (address : List ℕ) (f : Flags) (setting : List ℕ) (Fair : Round → Type 0)
      (keeps : (r : Round) (s : Runner)
        → Fair r
        → IsGood s
        → IsGood (restart_wifi f setting r s)) where
    check_wifi-IsGood :
        (r : Round) (s : Runner) → Fair r → IsGood s → IsGood (check_wifi f setting r s)
    unfolding check_wifi
    check_wifi-IsGood r s fair h =
        elim (Bool-cases
          (ltb 0 f.wifi_restart_time && ltb f.wifi_restart_time (since r.wifi_at s.last_connect))) [
            | inl e ↦ rw e (keeps r s fair h)
            | inr e ↦ rw e h
          ]

    Then-map : (o : Option Runner) (s : Runner) → IsGood s → Then (SameWifi s) o → Then IsGood o
    Then-map none s h k = tt
    Then-map (some t) s h k = SameWifi-IsGood s t k h

    check_times-IsGood :
        (r : Round) (s : Runner) → Fair r → IsGood s → IsGood (check_times f setting r s)
    unfolding check_times
    check_times-IsGood r s fair h =
        check_wifi-IsGood r (check_offline r s) fair
          (SameWifi-IsGood s (check_offline r s) (check_offline-SameWifi r s) h)

    checked-IsGood :
        (r : Round) (o : Option Runner)
        → Fair r
        → Then IsGood o
        → Then IsGood (checked to_lower configs address f setting r o)
    unfolding checked
    checked-IsGood r none fair h = tt
    checked-IsGood r (some t) fair h = check_times-IsGood r t fair h

    if-Then :
        (b : Bool) (x y : Option Runner)
        → Then IsGood x
        → Then IsGood y
        → Then IsGood (if b then x else y)
    if-Then true x y h k = h
    if-Then false x y h k = k

    run_step-IsGood :
        (e : RunEvent) (s : Runner)
        → IsFair Fair e
        → IsGood s
        → Then IsGood (run_step to_lower configs address f setting e s)
    unfolding run_step enabled_round
    run_step-IsGood (round r) s fair h =
        let p = handle_phev to_lower configs address r.connects r.start_event r.events s.gateway in
        if-Then s.gateway.enabled _ _
          (checked-IsGood r (after_phev r p s) fair (Then-map _ s h (after_phev-SameWifi r p s))) h
    run_step-IsGood (message t payload replies) s fair h =
        Then-map _ s h
          (after_message-SameWifi (handle_incoming to_lower t payload replies s.gateway) s)
    run_step-IsGood reconnected s fair h = h

    run_from-IsGood :
        (es : List RunEvent) (o : Option Runner)
        → All (IsFair Fair) es
        → Then IsGood o
        → Then IsGood (run_from to_lower configs address f setting es o)
    unfolding run_from
    run_from-IsGood [] o fair h = h
    run_from-IsGood (e ∷ es) none fair h = tt
    run_from-IsGood (e ∷ es) (some s) fair h =
        run_from-IsGood es (run_step to_lower configs address f setting e s) fair.1
          (run_step-IsGood e s fair.0 h)

    pub run-IsGood :
        (es : List RunEvent) (s : Runner)
        → All (IsFair Fair) es
        → IsGood s
        → Then IsGood (run to_lower configs address f setting es s)
    unfolding run
    run-IsGood es s fair h = run_from-IsGood es (some s) fair h
