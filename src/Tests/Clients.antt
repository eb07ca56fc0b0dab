-- ===== src/Tests/Clients.antt =====
-- The client at concrete inputs.
use phev2mqtt.Client.Waits.{manage_loop}
use phev2mqtt.Client.Waits.Stuck.{manage_loop-answers, manage_loop-stuck}
use phev2mqtt.Client.Threads.{Reach, Step}
use phev2mqtt.Client.Threads.Sound.{Fits}
use phev2mqtt.Client.Threads.Safe.{Reach-Safe}
use phev2mqtt.Base.{
  ℕ, false, codes, ◌+◌, ◌≡◌, ◌⊎◌, ◌≤◌, arith, ◌↔◌, refl, true, List, [], ◌∷◌, ◌++◌, All, ok,
}
use phev2mqtt.Protocol.Types.{PhevMessage, empty_message}
use phev2mqtt.Client.State.{Client, new, address_option, add_listener}
use phev2mqtt.Client.State.Laws.{manage_all, replies, year_of, start_count}
use phev2mqtt.Client.SetRegister.{Event, message, timer, succeeded, set_register}
use phev2mqtt.Client.Listener.{Listener}
use phev2mqtt.Client.Loops.{reader_error, send_all}
use phev2mqtt.Client.Loops.Laws.{
  WritesAlike, set_register-WritesAlike, IsAnswered, set_register-succeeds,
}
use phev2mqtt.Tests.Data.{test_clock, acknowledgement, ping}

-- A start request of each generation.
abbrev start_my14 : PhevMessage
start_my14 = record empty_message { typ = 0x4e; register = 1; xor = 0x12 }

abbrev start_my18 : PhevMessage
start_my18 = record empty_message { typ = 0x5e; register = 1; xor = 0x34 }

abbrev starts : List PhevMessage
starts = start_my14 ∷ ping ∷ start_my18 ∷ []

abbrev bad_encoding : PhevMessage
bad_encoding = record empty_message { typ = 0xbb; data_bytes = 0x5a ∷ [] }

abbrev replied : List Event
replied = message bad_encoding ∷ message acknowledgement ∷ timer ∷ []

abbrev fresh_client : Client
fresh_client = new []

starts-fit : fresh_client.started + start_count starts ≤ 1 + 2
unfolding new
starts-fit = omega arith

manage_loop-answers_example :
    let s = manage_loop 1 starts (record { client = fresh_client; stuck = false }) in
    (s.stuck ≡ false)
    × (s.client.sent ≡ fresh_client.sent ++ replies starts)
    × (s.client.model_year ≡ year_of fresh_client.model_year starts)
    × (s.client.started ≡ fresh_client.started + start_count starts)
manage_loop-answers_example = manage_loop-answers 1 starts fresh_client starts-fit

set_register-succeeds_example :
    (set_register 0xa (0x1 ∷ []) replied).result ≡ succeeded ↔ IsAnswered 0xa replied
set_register-succeeds_example = set_register-succeeds 0xa (0x1 ∷ []) replied

set_register-WritesAlike_example :
    All
      (WritesAlike test_clock true fresh_client 0xa (0x1 ∷ []))
      (set_register 0xa (0x1 ∷ []) replied).sent
set_register-WritesAlike_example =
    set_register-WritesAlike test_clock true fresh_client 0xa (0x1 ∷ []) replied

-- A client with one listener.
abbrev listening : Client
listening = (add_listener fresh_client).1

-- A client with one listener, from which nothing was taken yet.
abbrev listened : Client
listened = (add_listener (new (address_option (codes "car:8080") ∷ []))).1

listened-Reach : Reach test_clock (codes "car:8080") listened
listened-Reach = Reach.stepped Reach.created Step.listens

listened-runs : listened.recv_closed ≡ false
unfolding add_listener new address_option
listened-runs = refl

Reach-Safe_example :
    All Fits listened.listeners
    × ((listened.recv_closed ≡ true)
        ⊎ (((ls : List (ℕ × Listener)) × (send_all empty_message listened.listeners ≡ ok ls))
            × ((c' : Client) × (reader_error listened ≡ ok c'))))
Reach-Safe_example = Reach-Safe empty_message listened-Reach

-- Three start requests and a ping; a fourth follows.
abbrev restarted : List PhevMessage
restarted = start_my18 ∷ ping ∷ start_my18 ∷ start_my14 ∷ []

fresh-started : fresh_client.started + start_count restarted ≡ 1 + 2
unfolding new
fresh-started = refl

manage_loop-stuck_example :
    let s =
      manage_loop 1
        (restarted ++ (start_my18 ∷ starts))
        (record { client = fresh_client; stuck = false }) in
    (s.stuck ≡ true)
    × (s.client ≡ manage_all (restarted ++ (start_my18 ∷ [])) fresh_client)
    × (s.client.sent ≡ fresh_client.sent ++ replies (restarted ++ (start_my18 ∷ [])))
manage_loop-stuck_example =
    manage_loop-stuck 1 start_my18 starts restarted fresh_client fresh-started refl
