-- ===== src/Mqtt/Run.antt =====
-- Run and restartWifi of cmd/mqtt.go: the bridge, round after round. A time is a number of
-- nanoseconds, and the zero time is none. `setting` is what viper holds under the key
-- wifi_restart_command; what the broker, the network and the clock say in a round is its record.
pub mod Keeps
pub mod Wifi
pub mod Failed
pub mod Failing
use phev2mqtt.Base.{
  ℕ, ◌-◌, Bool, true, false, List, [], ◌∷◌, ◌++◌, ltb, ◌&&◌, not, if◌then◌else◌, codes, same_text,
  Option, none, some, Outcome, ok, err,
}
use phev2mqtt.Client.SetRegister.{
  Event, StartEvent, StartResult, ready, no_receiver, start_timed_out, await_start,
}
use phev2mqtt.Mqtt.Climate.{Climate}
use phev2mqtt.Mqtt.Publish.{Bridge}
use phev2mqtt.Mqtt.Incoming.{
  Gateway, Handled, returned, stopped, waiting, announce, handle_incoming,
}
use phev2mqtt.Mqtt.Session.{
  SessionEvent, SessionEnd, connection_closed, too_many_errors, Progress, going, over, halted,
  handle_phev,
}

-- The flags that Run reads, but those of the broker.
pub record Flags : Type 0 where
  pub disable_set : Bool
  pub prefix : List ℕ
  pub ha_discovery : Bool
  pub wifi_restart_time : ℕ
  pub wifi_restart_retry_time : ℕ
  pub wifi_restart_command : List ℕ

-- The topics that Run subscribes to, in order.
unfoldable pub subscriptions : Flags → List (List ℕ)
subscriptions f =
    (if f.disable_set then [] else (f.prefix ++ codes "/set/#") ∷ [])
    ++ ((f.prefix ++ codes "/connection") ∷ (f.prefix ++ codes "/settings/#") ∷ [])

-- `accepts` says which subscriptions the broker accepts; the first error returns.
subscribe : (List ℕ → Bool) → List (List ℕ) → Outcome (List (List ℕ))
subscribe accepts [] = ok []
subscribe accepts (t ∷ ts) =
    let rest = subscribe accepts ts in
    if accepts t then elim rest [ ok us ↦ ok (t ∷ us) | _ ↦ err ] else err

pub record Runner : Type 0 where
  pub gateway : Gateway
  pub last_connect : Option ℕ
  pub last_error : Option (List ℕ)
  pub last_wifi_restart : Option ℕ
  -- The errors that were logged, and the times at which the command was run, the newest first.
  pub logged : List (List ℕ)
  pub restarts : List ℕ

-- The bridge before its first round: connected to the broker, and subscribed.
unfoldable pub set_up :
    Flags → (connects : Bool) → (List ℕ → Bool) → Outcome (Runner × List (List ℕ))
unfolding subscriptions subscribe
set_up f connects accepts =
    let bridge : Bridge = record {
      mqtt_data = [];
      published = [];
      discovered = [];
      prefix = f.prefix;
      ha_discovery = f.ha_discovery;
      published_discovery = false;
      climate = record { mode = none; state = none };
    } in
    let runner : Runner = record {
      gateway = record { bridge = bridge; enabled = true; announced = []; phev = none };
      last_connect = none;
      last_error = none;
      last_wifi_restart = none;
      logged = [];
      restarts = [];
    } in
    if connects
    then elim (subscribe accepts (subscriptions f)) [ ok ts ↦ ok (runner, ts) | _ ↦ err ]
    else err

-- What a round sees: whether Connect succeeds, or the text of its error, what Start and the loop of
-- handlePhev see, and the clock at each reading, in the order of the readings.
pub record Round : Type 0 where
  pub connects : Bool
  pub connect_error : List ℕ
  pub start_event : StartEvent
  pub events : List SessionEvent
  pub returned_at : ℕ
  pub offline_at : ℕ
  pub wifi_at : ℕ
  pub retry_at : ℕ
  pub restarted_at : ℕ

-- now.Sub(t): the zero time lies further back than the longest duration.
abbrev pub since : ℕ → Option ℕ → ℕ
since now none = 9223372036854775807
since now (some t) = now - t

start_error : StartResult → List ℕ
start_error ready = []
start_error no_receiver = codes "receiver closed before getting start request"
start_error start_timed_out = codes "timed out waiting for start"

abbrev pub end_error : SessionEnd → List ℕ
end_error connection_closed = codes "Connection closed."
end_error too_many_errors = codes "Disconnecting due to too many errors"

abbrev pub is_error : List ℕ → Option (List ℕ) → Bool
is_error text none = false
is_error text (some last) = same_text last text

-- An error is not logged again while it stays the same.
unfoldable pub note_error : List ℕ → Runner → Runner
note_error text s =
    if is_error text s.last_error
    then s
    else record s { logged = text ∷ s.logged; last_error = some text }

unfoldable pub restart_wifi : Flags → List ℕ → Round → Runner → Runner
restart_wifi f setting r s =
    if ltb (since r.retry_at s.last_wifi_restart) f.wifi_restart_retry_time
    then s
    else (if same_text setting []
        then record s { last_wifi_restart = some r.restarted_at }
        else record s {
          last_wifi_restart = some r.restarted_at;
          restarts = r.retry_at ∷ s.restarts;
        })

check_offline : Round → Runner → Runner
check_offline r s =
    if ltb 30000000000 (since r.offline_at s.last_connect)
    then record s { gateway = announce (codes "offline") s.gateway }
    else s

unfoldable pub check_wifi : Flags → List ℕ → Round → Runner → Runner
unfolding restart_wifi
check_wifi f setting r s =
    if ltb 0 f.wifi_restart_time && ltb f.wifi_restart_time (since r.wifi_at s.last_connect)
    then restart_wifi f setting r s
    else s

-- The lines behind the call of handlePhev.
unfoldable pub check_times : Flags → List ℕ → Round → Runner → Runner
unfolding check_offline check_wifi
check_times f setting r s = check_wifi f setting r (check_offline r s)

-- What handlePhev and its error leave. The field lastConnect is set, and lastError reset, where its
-- loop was entered. There is no runner where the loop goes on, or a panic has stopped the program.
after_phev : Round → Gateway × Option Progress → Runner → Option Runner
unfolding note_error start_error
after_phev r (g, none) s = some (
    note_error (if r.connects then start_error (await_start r.start_event) else r.connect_error)
      (record s { gateway = g }))
after_phev r (g, some (over end t)) s = some (
    note_error (end_error end)
      (record s { gateway = t.gateway; last_error = none; last_connect = some r.returned_at }))
after_phev r (g, some (going t)) s = none
after_phev r (g, some halted) s = none

-- A round of the loop, or a message of the broker, or a new connection to it, between two.
pub data RunEvent : Type 0 where
  round : Round → RunEvent
  message : (t payload : List ℕ) → List (List Event) → RunEvent
  reconnected : RunEvent

after_message : Handled → Runner → Option Runner
after_message (returned g) s = some (record s { gateway = g })
after_message (waiting g) s = some (record s { gateway = g })
after_message stopped s = none

module _ (to_lower : List ℕ → List ℕ) (configs : List ℕ → List (List ℕ × List ℕ)) (address : List ℕ)
    (f : Flags) (setting : List ℕ) where
  checked : Round → Option Runner → Option Runner
  unfolding check_times
  checked r none = none
  checked r (some s) = some (check_times f setting r s)

  enabled_round : Round → Runner → Option Runner
  unfolding after_phev checked
  enabled_round r s = checked r (
      after_phev r
        (handle_phev to_lower configs address r.connects r.start_event r.events s.gateway) s)

  unfoldable pub run_step : RunEvent → Runner → Option Runner
  unfolding enabled_round after_message
  run_step (round r) s = if s.gateway.enabled then enabled_round r s else some s
  run_step (message t payload replies) s =
      after_message (handle_incoming to_lower t payload replies s.gateway) s
  run_step reconnected s = some (record s {
    gateway = record s.gateway { bridge = record s.gateway.bridge { published_discovery = false } };
  })

  run_from : List RunEvent → Option Runner → Option Runner
  run_from [] s = s
  run_from (e ∷ es) none = none
  run_from (e ∷ es) (some s) = run_from es (run_step e s)

  -- The loop of Run on the events.
  unfoldable pub run : List RunEvent → Runner → Option Runner
  unfolding run_from
  run es s = run_from es (some s)
