-- ===== src/Mqtt/Run/Failing.antt =====
-- Rounds of Run in which the car cannot be reached.
use phev2mqtt.Base.{
  ℕ, ◌≡◌, refl, ap, ◌∙◌, Bool, true, false, List, [], ◌∷◌, map, ltb, codes, if◌then◌else◌,
  same_text_self, All, Option, some,
}
use phev2mqtt.Mqtt.Run.{Flags, Round, Runner, round, since, is_error, run_from, run}
use phev2mqtt.Mqtt.Run.Failed.{FailsWith, run_step-IsFailed}

-- The payloads on /available after the rounds: one more "offline" for each that checks more than 30
-- seconds after the last connection.
abbrev pub with_offline : Option ℕ → List Round → List (List ℕ) → List (List ℕ)
with_offline last [] ps = ps
with_offline last (r ∷ rs) ps =
    with_offline last rs
      (if ltb 30000000000 (since r.offline_at last) then codes "offline" ∷ ps else ps)

is_error-noted :
    (text : List ℕ) (last : Option (List ℕ)) → last ≡ some text → is_error text last ≡ true
is_error-noted text last e = rw e (same_text_self text)

module _ (to_lower : List ℕ → List ℕ) (configs : List ℕ → List (List ℕ × List ℕ)) (address : List ℕ)
    (f : Flags) (setting : List ℕ) where
  once : (b : Bool) (x y : List (List ℕ)) → b ≡ true → (if b then x else y) ≡ x
  once true x y e = refl
  once false x y e = cc

  fresh_once : (b : Bool) (x y : List (List ℕ)) → b ≡ false → (if b then x else y) ≡ y
  fresh_once true x y e = cc
  fresh_once false x y e = refl

  ap_offline :
      (rs : List Round) {last last' : Option ℕ} {ps ps' : List (List ℕ)}
      → last' ≡ last
      → ps' ≡ ps
      → with_offline last' rs ps' ≡ with_offline last rs ps
  ap_offline rs {last' = last'} {ps = ps} e h =
      ap (with_offline last' rs) h ∙ ap (λ (l : Option ℕ). with_offline l rs ps) e

  rounds_failed :
      (text : List ℕ) (rs : List Round) (s : Runner)
      → s.gateway.enabled ≡ true
      → s.last_error ≡ some text
      → All (FailsWith text) rs
      → (t : Runner) × (run to_lower configs address f setting (map round rs) s ≡ some t)
        × (t.logged ≡ s.logged)
        × (t.last_connect ≡ s.last_connect)
        × (t.gateway.announced ≡ with_offline s.last_connect rs s.gateway.announced)
  unfolding run run_from
  rounds_failed text [] s on same fails = (s, refl, refl, refl, refl)
  rounds_failed text (r ∷ rs) s on same fails =
      let (u, step, h) = run_step-IsFailed to_lower configs address f setting text r s on fails.0 in
      let (t, runs, logged, connect, announced) =
        rounds_failed text rs u h.enabled h.last_error fails.1 in
      let again : is_error text s.last_error ≡ true = is_error-noted text s.last_error same in
      (
        t,
        ap (run_from to_lower configs address f setting (map (λ x. round x) rs)) step ∙ runs,
        logged ∙ h.logged ∙ once (is_error text s.last_error) s.logged (text ∷ s.logged) again,
        connect ∙ h.last_connect,
        announced ∙ ap_offline rs h.last_connect h.announced,
      )

  -- While the bridge is enabled, and in each of one round or more Connect fails with the same error,
  -- other than the last one that was noted: Run goes on, the error is logged once, the time of the
  -- last connection stays, and each round that checks more than 30 seconds after it publishes
  -- "offline" once more.
  pub run-failing :
      (text : List ℕ) (r : Round) (rs : List Round) (s : Runner)
      → s.gateway.enabled ≡ true
      → is_error text s.last_error ≡ false
      → All (FailsWith text) (r ∷ rs)
      → (t : Runner) × (run to_lower configs address f setting (map round (r ∷ rs)) s ≡ some t)
        × (t.logged ≡ text ∷ s.logged)
        × (t.last_connect ≡ s.last_connect)
        × (t.gateway.announced ≡ with_offline s.last_connect (r ∷ rs) s.gateway.announced)
  unfolding run run_from
  run-failing text r rs s on fresh fails =
      let (u, step, h) = run_step-IsFailed to_lower configs address f setting text r s on fails.0 in
      let (t, runs, logged, connect, announced) =
        rounds_failed text rs u h.enabled h.last_error fails.1 in
      (
        t,
        ap (run_from to_lower configs address f setting (map (λ x. round x) rs)) step ∙ runs,
        logged
            ∙ h.logged
            ∙ fresh_once (is_error text s.last_error) s.logged (text ∷ s.logged) fresh,
        connect ∙ h.last_connect,
        announced ∙ ap_offline rs h.last_connect h.announced,
      )
