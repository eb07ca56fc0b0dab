-- ===== src/Mqtt/Run/Wifi.antt =====
-- When Run runs the command that restarts the wireless network.
use phev2mqtt.Base.{
  ℕ, ◌+◌, ◌≤◌, ◌≡◌, refl, inl, inr, false, List, [], ◌∷◌, ltb, arith, same_text, All, Option, none,
  some, Bool-cases,
}
use phev2mqtt.Mqtt.Run.{
  Flags, Round, Runner, RunEvent, round, message, reconnected, since, restart_wifi, run,
}
use phev2mqtt.Mqtt.Run.Keeps.{Then, IsFair, IsGood, run-IsGood}

-- Times, the newest first, that are `gap` apart or more.
abbrev pub IsSpaced : ℕ → List ℕ → Type 0
IsSpaced gap [] = Unit
IsSpaced gap (t ∷ []) = Unit
IsSpaced gap (t ∷ u ∷ us) = (u + gap ≤ t) × IsSpaced gap (u ∷ us)

-- The field lastWifiRestart is no earlier than the newest of them.
abbrev Covers : Option ℕ → List ℕ → Type 0
Covers last [] = Unit
Covers none (t ∷ ts) = ⊥
Covers (some l) (t ∷ ts) = t ≤ l

module _ (to_lower : List ℕ → List ℕ) (configs : List ℕ → List (List ℕ × List ℕ)) (address : List ℕ)
    (f : Flags) (setting : List ℕ) where
  abbrev Spaced : List ℕ → Option ℕ → Type 0
  Spaced ts last = IsSpaced f.wifi_restart_retry_time ts × Covers last ts

  -- The clock does not go back while the command runs.
  abbrev pub Ordered : Round → Type 0
  Ordered r = r.retry_at ≤ r.restarted_at

  IsSpaced-next :
      (ts : List ℕ) (last : Option ℕ) (now : ℕ)
      → 1 ≤ f.wifi_restart_retry_time
      → ltb (since now last) f.wifi_restart_retry_time ≡ false
      → Spaced ts last
      → IsSpaced f.wifi_restart_retry_time (now ∷ ts)
  IsSpaced-next [] last now pos late h = tt
  IsSpaced-next (t ∷ ts) none now pos late h = absurd h.1
  IsSpaced-next (t ∷ ts) (some l) now pos late h = (ground (arith, pos, late, h.1), h.0)

  Covers-later :
      (ts : List ℕ) (last : Option ℕ) (now later : ℕ)
      → 1 ≤ f.wifi_restart_retry_time
      → ltb (since now last) f.wifi_restart_retry_time ≡ false
      → now ≤ later
      → Covers last ts
      → Covers (some later) ts
  Covers-later [] last now later pos late order h = tt
  Covers-later (t ∷ ts) none now later pos late order h = absurd h
  Covers-later (t ∷ ts) (some l) now later pos late order h = ground (arith, pos, late, order, h)

  restart_wifi-Spaced :
      (r : Round) (s : Runner)
      → 1 ≤ f.wifi_restart_retry_time
      → Ordered r
      → IsGood Spaced s
      → IsGood Spaced (restart_wifi f setting r s)
  unfolding restart_wifi
  restart_wifi-Spaced r s pos order h =
      let late = ltb (since r.retry_at s.last_wifi_restart) f.wifi_restart_retry_time in
      elim (Bool-cases late) [
        | inl e ↦ rw e h
        | inr e ↦ elim (Bool-cases (same_text setting [])) [
          | inl nothing ↦
              rw (e, nothing)
                (
                  h.0,
                  Covers-later s.restarts s.last_wifi_restart r.retry_at r.restarted_at pos e order
                      h.1,
                )
          | inr command ↦
              rw (e, command)
                (IsSpaced-next s.restarts s.last_wifi_restart r.retry_at pos e h, order)
        ]
      ]

  -- With a positive retry time, and rounds in which the clock does not go back while the command runs,
  -- Run never runs the command twice within the retry time, whatever the events: from a start with
  -- no runs so far, any two that follow one another are the retry time apart or more.
  pub run-IsSpaced :
      (es : List RunEvent) (s : Runner)
      → 1 ≤ f.wifi_restart_retry_time
      → All (IsFair Ordered) es
      → s.restarts ≡ []
      → Then
          (λ t. IsSpaced f.wifi_restart_retry_time t.restarts)
          (run to_lower configs address f setting es s)
  run-IsSpaced es s pos fair empty = first (run to_lower configs address f setting es s) (
      run-IsGood Spaced to_lower configs address f setting Ordered
        (λ r t order h. restart_wifi-Spaced r t pos order h) es s fair (rw empty (tt, tt)))
    where
      first :
          (o : Option Runner)
          → Then (IsGood Spaced) o
          → Then (λ t. IsSpaced f.wifi_restart_retry_time t.restarts) o
      first none h = tt
      first (some t) h = h.0

  -- Where viper holds no text for wifi_restart_command, Run never runs a command, whatever the flag
  -- of that name says.
  pub run-NoCommand :
      (es : List RunEvent) (s : Runner)
      → setting ≡ []
      → Then (λ t. t.restarts ≡ s.restarts) (run to_lower configs address f setting es s)
  unfolding restart_wifi same_text
  run-NoCommand es s nothing =
      run-IsGood (λ ts last. ts ≡ s.restarts) to_lower configs address f setting (λ r. Unit)
        (λ r t order h. no_restart r t h) es s (all_fair es) refl
    where
      all_fair : (es : List RunEvent) → All (IsFair (λ r. Unit)) es
      all_fair [] = tt
      all_fair (round r ∷ es) = (tt, all_fair es)
      all_fair (message t payload replies ∷ es) = (tt, all_fair es)
      all_fair (reconnected ∷ es) = (tt, all_fair es)

      no_restart :
          (r : Round) (t : Runner)
          → t.restarts ≡ s.restarts
          → (restart_wifi f setting r t).restarts ≡ s.restarts
      no_restart r t h =
          elim (Bool-cases (ltb (since r.retry_at t.last_wifi_restart) f.wifi_restart_retry_time)) [
            | inl e ↦ rw e h
            | inr e ↦ rw (e, nothing) h
          ]
