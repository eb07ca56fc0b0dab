-- ===== src/Emulator/Connection/Threads/Fit.antt =====
-- The listeners of a connection: open channels of at most five messages that `manage` can handle.
use mathlib.Core.Path.{subst}
use mathlib.Core.Option.{some-injective}
use phev2mqtt.Base.{
  ℕ, ◌≤◌, ◌≡◌, refl, ap, inl, inr, false, List, [], ◌∷◌, ◌++◌, ◌==◌, ltb, arith, length,
  length-append, All, All-append, some, ok, Bool-cases,
}
use phev2mqtt.Protocol.Types.{PhevMessage}
use phev2mqtt.Client.Listener.{Listener, send}
use phev2mqtt.Client.Threads.{take_front, after_take}
use phev2mqtt.Emulator.Connection.Loops.{drop_pointer, send_all}
use phev2mqtt.Emulator.Connection.Threads.{front, first}

-- A message that `manage` can handle.
abbrev pub IsLong : PhevMessage → Type 0
IsLong m = 4 ≤ length m.original

-- A listener with an open channel of at most five such messages.
pub record IsFit (e : ℕ × Listener) : Type 0 where
  pub fits : length e.1.c.queue ≤ 5
  pub opened : e.1.c.is_closed ≡ false
  pub long : All IsLong e.1.c.queue

send-IsFit :
    (p : ℕ) (m : PhevMessage) (l : Listener)
    → IsFit (p, l)
    → IsLong m
    → (l' : Listener) × (send m l ≡ ok l') × IsFit (p, l')
unfolding send
send-IsFit p m l h k = elim (Bool-cases (ltb (length l.c.queue) 5)) [
  | inl room ↦ (
    record l { c = record { queue = l.c.queue ++ (m ∷ []); is_closed = false } },
    rw (h.opened, room) refl,
    record {
      fits = ground (arith, length-append l.c.queue (m ∷ []));
      opened = refl;
      long = All-append IsLong l.c.queue (m ∷ []) h.long (k, tt);
    },
  )
  | inr full ↦ (l, rw (h.opened, full) refl, h)
]

pub send_all-IsFit :
    (m : PhevMessage) (ls : List (ℕ × Listener))
    → All IsFit ls
    → IsLong m
    → (ls' : List (ℕ × Listener)) × (send_all m ls ≡ ok ls') × All IsFit ls'
unfolding send_all
send_all-IsFit m [] h k = ([], refl, tt)
send_all-IsFit m ((p, l) ∷ ls) h k =
    let (l', e, fit) = send-IsFit p m l h.0 k in
    let (ls', f, fits) = send_all-IsFit m ls h.1 k in (((p, l') ∷ ls'), rw (e, f) refl, (fit, fits))

pub drop_pointer-IsFit :
    (p : ℕ) (ls : List (ℕ × Listener)) → All IsFit ls → All IsFit (drop_pointer p ls)
unfolding drop_pointer
drop_pointer-IsFit p [] h = tt
drop_pointer-IsFit p ((q, l) ∷ ls) h = elim (Bool-cases (q == p)) [
  | inl e ↦ rw e (drop_pointer-IsFit p ls h.1)
  | inr e ↦ rw e (h.0, drop_pointer-IsFit p ls h.1)
]

after_take-IsFit :
    (queue : List PhevMessage) (q : ℕ) (l : Listener)
    → l.c.queue ≡ queue
    → IsFit (q, l)
    → IsFit (q, after_take queue l)
after_take-IsFit [] q l e h = h
after_take-IsFit (m ∷ ms) q l e h =
    let long = subst (All IsLong) e h.long in
    record { fits = omega (arith, h.fits, ap length e); opened = h.opened; long = long.1 }

pub take_front-IsFit : (q : ℕ) (l : Listener) → IsFit (q, l) → IsFit (q, take_front l)
take_front-IsFit q l h = after_take-IsFit l.c.queue q l refl h

first-IsLong :
    (queue : List PhevMessage) (m : PhevMessage)
    → All IsLong queue
    → first queue ≡ some m
    → IsLong m
first-IsLong [] m h e = cc
first-IsLong (x ∷ xs) m h e = subst IsLong (some-injective x m e) h.0

pub front-IsLong :
    (p : ℕ) (ls : List (ℕ × Listener)) (m : PhevMessage)
    → All IsFit ls
    → front p ls ≡ some m
    → IsLong m
front-IsLong p [] m h e = cc
front-IsLong p ((q, l) ∷ ls) m h e = elim (Bool-cases (q == p)) [
  | inl f ↦ first-IsLong l.c.queue m h.0.long (rw f at e)
  | inr f ↦ front-IsLong p ls m h.1 (rw f at e)
]
