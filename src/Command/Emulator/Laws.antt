-- ===== src/Command/Emulator/Laws.antt =====
-- The topic of a register, in the emulator command.
use mathlib.Core.List.{append_assoc}
use phev2mqtt.Base.{
  ℕ, ◌+◌, ◌≡◌, ◌≢◌, ◌<◌, refl, ap, ◌∙◌, ◌⊎◌, inl, inr, false, map, Option, none, some, Option-cases,
  List, [], ◌∷◌, ◌++◌, arith, codes, length, All, hex_byte, hex_encode, hex_decode-hex_encode,
  hex_decode-hex_byte, split_on, split_on-append, split_on_none, length-split_on, has_prefix-append,
  count, count-append,
}
use phev2mqtt.Protocol.Constants.{cmd_in_resp}
use phev2mqtt.Protocol.Types.{PhevMessage, new_message}
use phev2mqtt.Emulator.Car.{Car, Goroutine, set_register, set_register_all}
use phev2mqtt.Command.Emulator.{
  Emu, refused, called, crashing, on_car, register_call, with_parts, handle_emulator,
}

not_five :
    (p : List ℕ) (ps : List (List ℕ)) (payload : List ℕ) (gs : List Goroutine) (car : Option Car)
    → length ps ≢ 4
    → with_parts (p ∷ ps) payload gs car ≡ refused
unfolding with_parts
not_five p [] payload gs car h = refl
not_five p (a ∷ []) payload gs car h = refl
not_five p (a ∷ b ∷ []) payload gs car h = refl
not_five p (a ∷ b ∷ c ∷ []) payload gs car h = refl
not_five p (a ∷ b ∷ c ∷ d ∷ []) payload gs car h = absurd (h refl)
not_five p (a ∷ b ∷ c ∷ d ∷ e ∷ es) payload gs car h = refl

handle_emulator-topic :
    (text payload : List ℕ) (gs : List Goroutine) (e : Emu)
    → handle_emulator ((e.prefix ++ codes "/set/register/") ++ text) payload gs e
      ≡ with_parts (split_on b'/' ((e.prefix ++ codes "/set/register/") ++ text)) payload gs e.car
unfolding handle_emulator
handle_emulator-topic text payload gs e =
    rw (has_prefix-append (e.prefix ++ codes "/set/register/") text) refl

-- Where the prefix and the text behind the topic do not have one slash between them, the message is
-- refused.
pub handle_emulator-slashes :
    (text payload : List ℕ) (gs : List Goroutine) (e : Emu)
    → count b'/' e.prefix + count b'/' text ≢ 1
    → handle_emulator ((e.prefix ++ codes "/set/register/") ++ text) payload gs e ≡ refused
unfolding count
handle_emulator-slashes text payload gs e h =
    let t : List ℕ = (e.prefix ++ codes "/set/register/") ++ text in
    let (p, ps, parts, size) = length-split_on b'/' t in
    let whole = count-append b'/' (e.prefix ++ codes "/set/register/") text in
    let front = count-append b'/' e.prefix (codes "/set/register/") in
    let three : count b'/' (codes "/set/register/") ≡ 3 = refl in
    rw (handle_emulator-topic text payload gs e, parts)
      (not_five p ps payload gs e.car (λ four. h (omega (arith, size, whole, front, three, four))))

no_slash : (r : ℕ) → r < 256 → count b'/' (hex_byte r) ≡ 0
unfolding count
no_slash r h = ground arith

five_parts :
    (a b text : List ℕ)
    → count b'/' a ≡ 0
    → count b'/' b ≡ 0
    → count b'/' text ≡ 0
    → split_on b'/' (((a ++ (b'/' ∷ b)) ++ codes "/set/register/") ++ text)
      ≡ a ∷ b ∷ codes "set" ∷ codes "register" ∷ text ∷ []
unfolding split_on
five_parts a b text h k l =
    rw
      (
        append_assoc (a ++ (b'/' ∷ b)) (codes "/set/register/") text,
        append_assoc a (b'/' ∷ b) (codes "/set/register/" ++ text),
        split_on-append b'/' a (b ++ (codes "/set/register/" ++ text)) h,
        split_on-append b'/' b (codes "set/register/" ++ text) k,
        split_on_none b'/' text l,
      )
      refl

-- What one connection is sent starts with the notification of the register.
abbrev pub IsNotified : ℕ → List ℕ → ℕ × List PhevMessage → Type 0
IsNotified r value (connection, ms) =
    (later : List PhevMessage) × (ms ≡ new_message cmd_in_resp r false value ∷ later)

-- Each goroutine's connection is notified, in the order of the goroutines.
abbrev pub NotifiesAll : ℕ → List ℕ → List Goroutine → List (ℕ × List PhevMessage) → Type 0
NotifiesAll r value gs sent =
    (map (λ (s : ℕ × List PhevMessage). s.0) sent ≡ map (λ (g : Goroutine). g.connection) gs)
    × All (IsNotified r value) sent

set_register_all-NotifiesAll :
    (r : ℕ) (value : List ℕ) (gs : List Goroutine)
    → NotifiesAll r value gs (set_register_all r value gs).0
unfolding set_register_all set_register
set_register_all-NotifiesAll r value [] = (refl, tt)
set_register_all-NotifiesAll r value (g ∷ gs) =
    let (same, notified) = set_register_all-NotifiesAll r value gs in
    (ap (◌∷◌ g.connection) same, ((_, refl), notified))

-- With a prefix of two parts, such as the default one, a message with the digits of a register in
-- its topic and those of a value as its payload panics where there is no car yet. Where there is
-- one, it is one call of SetRegister of the car with them, which first notifies the connection of
-- each goroutine of the register and the value.
pub handle_emulator-register :
    (a b : List ℕ) (r : ℕ) (value : List ℕ) (gs : List Goroutine) (e : Emu)
    → count b'/' a ≡ 0
    → count b'/' b ≡ 0
    → e.prefix ≡ a ++ (b'/' ∷ b)
    → r < 256
    → All (λ x. x < 256) value
    → let h =
        handle_emulator
          ((e.prefix ++ codes "/set/register/") ++ hex_byte r)
          (hex_encode value)
          gs
          e in
      ((e.car ≡ none) × (h ≡ crashing))
      ⊎ ((car : Car) × (e.car ≡ some car)
          × (h ≡ called (set_register_all r value gs))
          × NotifiesAll r value gs (set_register_all r value gs).0)
unfolding with_parts register_call on_car
handle_emulator-register a b r value gs e h k named byte_sized bytes =
    let run : handle_emulator ((e.prefix ++ codes "/set/register/") ++ hex_byte r)
          (hex_encode value) gs e
        ≡ on_car e.car r value gs =
      rw
        (
          handle_emulator-topic (hex_byte r) (hex_encode value) gs e,
          named,
          five_parts a b (hex_byte r) h k (no_slash r byte_sized),
          hex_decode-hex_byte r byte_sized,
          hex_decode-hex_encode value bytes,
        )
        refl in
    elim (Option-cases e.car) [
      | inl gone ↦ inl (gone, run ∙ ap (λ (o : Option Car). on_car o r value gs) gone)
      | inr (car, here) ↦ inr (
        car,
        here,
        run ∙ ap (λ (o : Option Car). on_car o r value gs) here,
        set_register_all-NotifiesAll r value gs,
      )
    ]
