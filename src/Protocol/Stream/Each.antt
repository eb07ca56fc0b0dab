-- ===== src/Protocol/Stream/Each.antt =====
-- What holds of every message that DecodeFromBytes yields holds of every message that NewFromBytes
-- returns.
use phev2mqtt.Base.{
  ℕ, zero, suc, ◌+◌, ◌≡◌, refl, inl, inr, List, [], ◌∷◌, some, none, Option, ltb, leb, ◌==◌,
  if◌then◌else◌, length, All, All-append, Outcome, ok, err, panic, ◌>>=◌, Bool, true, false,
  Bool-cases, ◌&&◌, ◌≤◌, ◌⊎◌,
}
use mathlib.Core.Path.{subst}
use phev2mqtt.Protocol.SecurityKey.{SecurityKey, snapshot}
use phev2mqtt.Protocol.Frame.{Decoded, slice, validate_and_decode_message}
use phev2mqtt.Protocol.Frame.Validate.{validate_and_decode_message_sound}
use phev2mqtt.Protocol.Types.{PhevMessage, empty_message}
use phev2mqtt.Protocol.Register.Plain.{Clock}
use phev2mqtt.Protocol.Message.{decode_from_bytes}
use phev2mqtt.Protocol.Stream.{
  Scan, Next, more, done, skip_byte, take_message, end_on_error, follow, scan_step, scan_loop,
  new_from_bytes,
}
use phev2mqtt.Protocol.Message.Kinds.{IsTyped, decode_from_bytes-IsRead}
use phev2mqtt.Protocol.Stream.Terminates.{new_from_bytes_ends}
use phev2mqtt.Protocol.Stream.Keys.{scan_of}

-- A step that panics or gives something good, but returns no error.
abbrev Runs : {Y : Type 0} → (Y → Type 0) → Outcome Y → Type 0
Runs Good (ok y) = Good y
Runs Good err = ⊥
Runs Good panic = Unit

abbrev Anything : {Y : Type 0} → Y → Type 0
Anything y = Unit

module _ {Y : Type 0} (Good : Y → Type 0) where
  >>=-Runs :
      {X : Type 0} (step : Outcome X) (next : X → Outcome Y)
      → Runs Anything step
      → ((x : X) → Runs Good (next x))
      → Runs Good (step >>= next)
  >>=-Runs (ok x) next h k = k x
  >>=-Runs err next h k = absurd h
  >>=-Runs panic next h k = tt

  if-Runs :
      (b : Bool) (x y : Outcome Y) → Runs Good x → Runs Good y → Runs Good (if b then x else y)
  if-Runs true x y h k = h
  if-Runs false x y h k = k

slice-Runs : (xs : List ℕ) (lo hi : ℕ) → Runs Anything (slice xs lo hi)
unfolding slice
slice-Runs xs lo hi = if-Runs Anything (leb lo hi && leb hi (length xs)) _ _ tt tt

validate_and_decode_message-Runs : (xs : List ℕ) → Runs Anything (validate_and_decode_message xs)
validate_and_decode_message-Runs xs = rw (validate_and_decode_message_sound xs).1 tt

module _ (clock : Clock) (Good : PhevMessage → Type 0)
    (decodes : (bytes : List ℕ) (key key' : SecurityKey) (q : PhevMessage)
      → decode_from_bytes clock empty_message bytes key ≡ ok (q, key')
      → Good q) where
  -- All that was found up to here.
  abbrev GoodNext : Next → Type 0
  GoodNext n = All Good (scan_of n).msgs

  abbrev AllGood : Outcome Next → Type 0
  AllGood = Runs GoodNext

  abbrev AllFound : Option (Outcome Scan) → Type 0
  AllFound (some (ok s)) = All Good s.msgs
  AllFound (some err) = ⊥
  AllFound (some panic) = Unit
  AllFound none = Unit

  skip_byte-All : (s : Scan) → All Good s.msgs → All Good (scan_of (skip_byte s)).msgs
  unfolding skip_byte
  skip_byte-All s h = elim (Bool-cases (leb (length s.bytes) (s.offset + 1 + 6))) [
    | inl e ↦ rw e h
    | inr e ↦ rw e h
  ]

  take_message-All :
      (s : Scan) (d : Decoded) (q : PhevMessage) (key : SecurityKey)
      → All Good s.msgs
      → Good q
      → All Good (scan_of (take_message s d q key)).msgs
  unfolding take_message
  take_message-All s d q key h g =
      let both = All-append Good s.msgs (q ∷ []) h (g, tt) in
      elim (Bool-cases (ltb (length d.rest) 1)) [ inl e ↦ rw e both | inr e ↦ rw e both ]

  end_on_error-All :
      (s : Scan) (d : Decoded) (r : Outcome (PhevMessage × SecurityKey))
      → All Good s.msgs
      → ((q : PhevMessage) (key' : SecurityKey) → r ≡ ok (q, key') → Good q)
      → AllGood (end_on_error s d r)
  unfolding end_on_error
  end_on_error-All s d (ok (q, key)) h g = take_message-All s d q key h (g q key refl)
  end_on_error-All s d err h g = h
  end_on_error-All s d panic h g = tt

  scan_step-All : (s : Scan) → All Good s.msgs → AllGood (scan_step clock s)
  unfolding scan_step
  scan_step-All s h =
      >>=-Runs GoodNext (slice s.bytes s.offset (length s.bytes)) _
        (slice-Runs s.bytes s.offset (length s.bytes))
        (λ rest.
          >>=-Runs GoodNext (validate_and_decode_message rest) _
            (validate_and_decode_message-Runs rest)
            (λ d. if-Runs GoodNext (length d.frame == 0) _ _ (skip_byte-All s h) (
              >>=-Runs GoodNext (slice s.bytes s.offset (s.offset + length d.frame)) _
                (slice-Runs s.bytes s.offset (s.offset + length d.frame))
                (λ raw.
                  let active_key = if ltb 0 s.offset then snapshot s.key else s.key in
                  end_on_error-All s d (decode_from_bytes clock empty_message raw active_key) h
                    (λ q key' e. decodes raw active_key key' q e)))))

  follow-All :
      (loop : Scan → Option (Outcome Scan))
      → ((s : Scan) → All Good s.msgs → AllFound (loop s))
      → (o : Outcome Next) → AllGood o
      → AllFound (follow loop o)
  unfolding follow
  follow-All loop ih (ok (more s)) h = ih s h
  follow-All loop ih (ok (done s)) h = h
  follow-All loop ih err h = absurd h
  follow-All loop ih panic h = tt

  scan_loop-All : (fuel : ℕ) (s : Scan) → All Good s.msgs → AllFound (scan_loop clock fuel s)
  unfolding scan_loop
  scan_loop-All zero s h = tt
  scan_loop-All (suc fuel) s h =
      follow-All (scan_loop clock fuel) (scan_loop-All fuel) (scan_step clock s) (scan_step-All s h)

  scanned-All :
      (bytes : List ℕ) (key : SecurityKey) (r : Outcome Scan)
      → new_from_bytes clock bytes key ≡ some r
      → AllFound (some r)
  unfolding new_from_bytes
  scanned-All bytes key r e =
      let start : Scan = record { bytes = bytes; offset = 0; key = key; msgs = [] } in
      subst AllFound e (scan_loop-All (suc (length bytes)) start tt)

  pub new_from_bytes-good :
      (bytes : List ℕ) (key : SecurityKey) (s : Scan)
      → new_from_bytes clock bytes key ≡ some (ok s)
      → All Good s.msgs
  new_from_bytes-good bytes key s e = scanned-All bytes key (ok s) e

  -- NewFromBytes ends by a panic, or with messages that are all good.
  new_from_bytes-All :
      (bytes : List ℕ) (key : SecurityKey)
      → (new_from_bytes clock bytes key ≡ some panic)
        ⊎ ((s : Scan) × (new_from_bytes clock bytes key ≡ some (ok s)) × All Good s.msgs)
  new_from_bytes-All bytes key =
      let (r, e) = new_from_bytes_ends clock bytes key in sides r e (scanned-All bytes key r e)
    where
      sides :
          (r : Outcome Scan)
          → new_from_bytes clock bytes key ≡ some r
          → AllFound (some r)
          → (new_from_bytes clock bytes key ≡ some panic)
            ⊎ ((s : Scan) × (new_from_bytes clock bytes key ≡ some (ok s)) × All Good s.msgs)
      sides (ok s) e h = inr (s, e, h)
      sides err e h = absurd h
      sides panic e h = inl e

-- NewFromBytes ends on every input, by a panic or with messages, and never with an error. Each of
-- its messages comes from a frame of at least four bytes, and has a register just when it is a
-- notification: one of the type that belongs to the message's register number, whose own number is
-- the message's, and whose raw bytes are the message's data, or none where Decode refused them.
pub new_from_bytes-IsTyped :
    (clock : Clock) (bytes : List ℕ) (key : SecurityKey)
    → (new_from_bytes clock bytes key ≡ some panic)
      ⊎ ((s : Scan) × (new_from_bytes clock bytes key ≡ some (ok s))
          × All (λ q. IsTyped q × (4 ≤ length q.original)) s.msgs)
new_from_bytes-IsTyped clock bytes key =
    new_from_bytes-All clock (λ q. IsTyped q × (4 ≤ length q.original))
      (decode_from_bytes-IsRead clock) bytes key
