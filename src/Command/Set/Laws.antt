-- ===== src/Command/Set/Laws.antt =====
-- The arguments of the command set.
use mathlib.Core.List.{append_assoc, append-nil}
use phev2mqtt.Base.{
  ℕ, ◌≡◌, ◌<◌, refl, ap, ◌∙◌, true, List, [], ◌∷◌, ◌++◌, arith, All, ok, hex_byte, hex_encode,
  hex_decode-hex_encode, hex_decode-hex_byte, split_on-append, split_on_none, count,
}
use phev2mqtt.Protocol.Types.{PhevMessage}
use phev2mqtt.Client.State.{Client}
use phev2mqtt.Client.SetRegister.{Event, succeeded, set_register, started, await_start}
use phev2mqtt.Command.Set.{
  decoded_pair, parse_parts, parse_args, finished, after_one, sent_with, set_each, started_set,
  connected_set, run_set,
}

-- The arguments for registers and values.
abbrev pub print_args : List (ℕ × List ℕ) → List (List ℕ)
print_args [] = []
print_args ((r, value) ∷ ws) = (hex_byte r ++ (b':' ∷ hex_encode value)) ∷ print_args ws

abbrev pub IsWrite : ℕ × List ℕ → Type 0
IsWrite w = (w.0 < 256) × All (λ b. b < 256) w.1

no_colon : (r : ℕ) → r < 256 → count b':' (hex_byte r) ≡ 0
unfolding count
no_colon r h = ground arith

no_colons : (value : List ℕ) → All (λ b. b < 256) value → count b':' (hex_encode value) ≡ 0
unfolding count
no_colons [] h = refl
no_colons (b ∷ bs) h = ground (arith, no_colon b h.0, no_colons bs h.1)

-- The arguments that name registers and values are read back as these, in order.
pub parse_args-print_args :
    (ws : List (ℕ × List ℕ)) → All IsWrite ws → parse_args (print_args ws) ≡ ok ws
unfolding parse_args parse_parts decoded_pair
parse_args-print_args [] h = refl
parse_args-print_args ((r, value) ∷ ws) h =
    rw
      (
        split_on-append b':' (hex_byte r) (hex_encode value) (no_colon r h.0.0),
        split_on_none b':' (hex_encode value) (no_colons value h.0.1),
        hex_decode-hex_byte r h.0.0,
        hex_decode-hex_encode value h.0.1,
        parse_args-print_args ws h.1,
      )
      refl

-- Every call of SetRegister succeeds.
abbrev pub Answered : List (ℕ × List ℕ) → List (List Event) → Type 0
Answered [] ess = Unit
Answered (w ∷ ws) [] = ⊥
Answered (w ∷ ws) (es ∷ ess) = ((set_register w.0 w.1 es).result ≡ succeeded) × Answered ws ess

-- What the calls put on Send.
abbrev pub attempts : List (ℕ × List ℕ) → List (List Event) → List PhevMessage
attempts [] ess = []
attempts (w ∷ ws) [] = []
attempts (w ∷ ws) (es ∷ ess) = (set_register w.0 w.1 es).sent ++ attempts ws ess

set_each-finished :
    (ws : List (ℕ × List ℕ)) (ess : List (List Event)) (c : Client)
    → Answered ws ess
    → set_each ws ess c ≡ finished (record c { sent = c.sent ++ attempts ws ess })
unfolding set_each after_one
set_each-finished [] ess c h = rw (append-nil c.sent) refl
set_each-finished (w ∷ ws) [] c h = absurd h
set_each-finished ((r, value) ∷ ws) (es ∷ ess) c h =
    let run : List PhevMessage = (set_register r value es).sent in
    rw h.0 (
      set_each-finished ws ess (sent_with es r value c) h.1
      ∙ ap (λ (ms : List PhevMessage). finished (record c { sent = ms }))
          (append_assoc c.sent run (attempts ws ess)))

-- Given the arguments for registers and values, and a car that acknowledges each of them, the
-- command finishes, and has put on Send the attempts to set them, in order.
pub run_set-finished :
    (ws : List (ℕ × List ℕ)) (ess : List (List Event)) (c : Client)
    → All IsWrite ws
    → Answered ws ess
    → run_set (print_args ws) true started ess c
      ≡ finished (record c { sent = c.sent ++ attempts ws ess })
unfolding run_set connected_set started_set await_start
run_set-finished ws ess c h k = rw (parse_args-print_args ws h) (set_each-finished ws ess c k)
