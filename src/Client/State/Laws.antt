-- ===== src/Client/State/Laws.antt =====
-- The client's state: answers to start requests, and the listener table.
use phev2mqtt.Base.{
  ℕ, ◌+◌, ◌<◌, ◌≡◌, refl, sym, ap, ◌∙◌, List, [], ◌∷◌, ◌++◌, ◌==◌, ◌||◌, if◌then◌else◌, arith, All,
  ==_self,
}
use mathlib.Core.List.{append-nil, append_assoc}
use phev2mqtt.Protocol.Types.{PhevMessage, new_ping_request_message}
use phev2mqtt.Client.Listener.{Listener}
use phev2mqtt.Client.State.{
  Client, ModelYear, my14, my18, my24, add_listener, remove_listener, manage, start_response,
  drop_pointer,
}

-- The messages handled one after the other, with no wait on the channel started between them.
abbrev pub manage_all : List PhevMessage → Client → Client
manage_all [] c = c
manage_all (m ∷ ms) c = manage_all ms (manage m c)

-- The model year that the last start request among the messages names.
abbrev pub year_of : ModelYear → List PhevMessage → ModelYear
year_of y [] = y
year_of y (m ∷ ms) =
    year_of
      (if m.typ == 0x6e
        then my24
        else if m.typ == 0x5e
        then my18
        else if m.typ == 0x4e
        then my14
        else y)
      ms

-- The reply to one message.
abbrev pub reply_to : PhevMessage → List PhevMessage
reply_to m =
    if m.typ == 0x6e
    then start_response 0xe6 m ∷ []
    else if m.typ == 0x5e
    then start_response 0xe5 m ∷ []
    else if m.typ == 0x4e
    then start_response 0xe4 m ∷ []
    else if m.typ == 0x2f
    then new_ping_request_message 0xa ∷ []
    else []

-- What manage puts on Send: a reply of the same generation for each start request, which carries
-- its xor byte, and a ping for each CmdInStartResp.
abbrev pub replies : List PhevMessage → List PhevMessage
replies [] = []
replies (m ∷ ms) = reply_to m ++ replies ms

-- How many of the messages are start requests.
abbrev pub start_count : List PhevMessage → ℕ
start_count [] = 0
start_count (m ∷ ms) =
    (if m.typ == 0x6e || m.typ == 0x5e || m.typ == 0x4e then 1 else 0) + start_count ms

manage-sent : (m : PhevMessage) (c : Client) → (manage m c).sent ≡ c.sent ++ reply_to m
unfolding manage
manage-sent m c = ground (arith, append-nil c.sent)

manage-model_year :
    (m : PhevMessage) (c : Client) → (manage m c).model_year ≡ year_of c.model_year (m ∷ [])
unfolding manage
manage-model_year m c = ground arith

pub manage-started :
    (m : PhevMessage) (c : Client) → (manage m c).started ≡ c.started + start_count (m ∷ [])
unfolding manage
manage-started m c = ground arith

-- What `manage` does with messages one after the other, where it does not have to wait.
pub manage_all_lem :
    (ms : List PhevMessage) (c : Client)
    → ((manage_all ms c).sent ≡ c.sent ++ replies ms)
      × ((manage_all ms c).model_year ≡ year_of c.model_year ms)
      × ((manage_all ms c).started ≡ c.started + start_count ms)
manage_all_lem [] c = (sym (append-nil c.sent), refl, omega arith)
manage_all_lem (m ∷ ms) c =
    let (sent, year, started) = manage_all_lem ms (manage m c) in
    (
      sent
          ∙ ap (λ (xs : List PhevMessage). xs ++ replies ms) (manage-sent m c)
          ∙ append_assoc c.sent (reply_to m) (replies ms),
      year ∙ ap (λ (y : ModelYear). year_of y ms) (manage-model_year m c),
      omega (arith, started, manage-started m c),
    )

-- All pointers in the table are below the next one.
abbrev pub Fresh : ℕ → List (ℕ × Listener) → Type 0
Fresh n ls = All (λ (e : ℕ × Listener). e.0 < n) ls

drop_pointer-append :
    (n : ℕ) (ls : List (ℕ × Listener)) (l : Listener)
    → Fresh n ls
    → drop_pointer n (ls ++ ((n, l) ∷ [])) ≡ ls
unfolding drop_pointer
drop_pointer-append n [] l h = rw (==_self n) refl
drop_pointer-append n ((p, k) ∷ ls) l h = ground (arith, h.0, drop_pointer-append n ls l h.1)

-- RemoveListener undoes AddListener.
pub remove_listener-add_listener :
    (c : Client)
    → Fresh c.next_pointer c.listeners
    → (remove_listener (add_listener c).0 (add_listener c).1).listeners ≡ c.listeners
unfolding remove_listener add_listener
remove_listener-add_listener c h = drop_pointer-append c.next_pointer c.listeners _ h
