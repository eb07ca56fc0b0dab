-- ===== src/Command/Set.antt =====
-- runSet of cmd/set.go. `replies` are the events that each call of SetRegister sees; the waits
-- between the calls are left out.
pub mod Laws
use phev2mqtt.Base.{
  ℕ, ◌+◌, ◌≡◌, ◌<◌, refl, inl, inr, Bool, true, false, List, [], ◌∷◌, ◌++◌, arith, All, ◌==◌,
  if◌then◌else◌, Outcome, ok, err, panic, ◌>>=◌, Option, none, some, hex_byte, hex_encode,
  hex_decode, hex_decode-hex_encode, hex_decode-hex_byte, split_on, split_on-append, split_on_none,
  count, ltb,
}
use phev2mqtt.Client.State.{Client, new, address_option}
use phev2mqtt.Client.SetRegister.{
  Event, SetResult, succeeded, timed_out, listener_closed, crashed, pending, set_register,
  StartEvent, StartResult, ready, no_receiver, start_timed_out, await_start,
}

-- A text that is not hexadecimal, or names no register, panics.
decoded_pair : Option (List ℕ) → Option (List ℕ) → Outcome (List (ℕ × List ℕ))
decoded_pair none value = panic
decoded_pair (some rs) none = panic
decoded_pair (some []) (some value) = panic
decoded_pair (some (r ∷ rs)) (some value) = ok ((r, value) ∷ [])

-- An argument that does not have two parts is passed over.
parse_parts : List (List ℕ) → Outcome (List (ℕ × List ℕ))
unfolding decoded_pair
parse_parts [] = ok []
parse_parts (a ∷ []) = ok []
parse_parts (a ∷ b ∷ []) = decoded_pair (hex_decode a) (hex_decode b)
parse_parts (a ∷ b ∷ c ∷ cs) = ok []

unfoldable pub parse_args : List (List ℕ) → Outcome (List (ℕ × List ℕ))
unfolding parse_parts
parse_args [] = ok []
parse_args (arg ∷ args) = do
  first ← parse_parts (split_on b':' arg)
  rest ← parse_args args
  ok (first ++ rest)

-- The command ends, stops with a panic, or waits in a call of SetRegister.
pub data SetEnd : Type 0 where
  finished : Client → SetEnd
  panicked : SetEnd
  blocked : Client → SetEnd

-- An error of SetRegister panics.
after_one : SetResult → Client → SetEnd → SetEnd
after_one succeeded c next = next
after_one timed_out c next = panicked
after_one listener_closed c next = panicked
after_one crashed c next = panicked
after_one pending c next = blocked c

abbrev pub sent_with : List Event → ℕ → List ℕ → Client → Client
sent_with es register value c = record c { sent = c.sent ++ (set_register register value es).sent }

set_each : List (ℕ × List ℕ) → List (List Event) → Client → SetEnd
unfolding after_one
set_each [] replies c = finished c
set_each ((register, value) ∷ ws) [] c =
    let c' = sent_with [] register value c in
    after_one (set_register register value []).result c' (set_each ws [] c')
set_each ((register, value) ∷ ws) (es ∷ ess) c =
    let c' = sent_with es register value c in
    after_one (set_register register value es).result c' (set_each ws ess c')

started_set : StartResult → List (ℕ × List ℕ) → List (List Event) → Client → SetEnd
unfolding set_each
started_set ready ws replies c = set_each ws replies c
started_set no_receiver ws replies c = panicked
started_set start_timed_out ws replies c = panicked

connected_set :
    Bool → StartEvent → Outcome (List (ℕ × List ℕ)) → List (List Event) → Client → SetEnd
unfolding started_set
connected_set connects e panic replies c = panicked
connected_set connects e err replies c = panicked
connected_set false e (ok ws) replies c = panicked
connected_set true e (ok ws) replies c = started_set (await_start e) ws replies c

-- `connects` says whether Connect succeeds; `ready_client` is the client after the start, which the
-- reader and `manage` have changed meanwhile.
unfoldable pub run_set :
    (args : List (List ℕ)) (connects : Bool) → StartEvent → List (List Event) → Client → SetEnd
unfolding parse_args connected_set
run_set args connects e replies ready_client =
    connected_set connects e (parse_args args) replies ready_client
