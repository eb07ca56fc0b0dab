-- ===== src/Client/Threads/Sound.antt =====
-- The invariant of the clients that are reached: channels hold at most five messages, and as long
-- as the reader runs those of the listeners are open.
use mathlib.Core.Path.{subst}
use phev2mqtt.Base.{
  ℕ, ◌≤◌, ◌≡◌, refl, Bool, true, false, List, [], ◌∷◌, ◌++◌, ltb, ◌==◌, arith, length,
  length-append, All, ok, Bool-cases, inl, inr,
}
use phev2mqtt.Protocol.Types.{PhevMessage}
use phev2mqtt.Client.Listener.{Listener, send, request_stop, process_stop}
use phev2mqtt.Client.State.{Client, drop_pointer}
use phev2mqtt.Client.Loops.{send_all, stop_all}
use phev2mqtt.Client.Threads.{on_pointer}

abbrev pub Fits : ℕ × Listener → Type 0
Fits e = length e.1.c.queue ≤ 5

-- Open, and not asked to stop.
abbrev pub Live : ℕ × Listener → Type 0
Live e = (e.1.c.is_closed ≡ false) × (e.1.stop ≡ false)

-- The first argument says whether the reader has ended.
abbrev pub LiveUntil : Bool → List (ℕ × Listener) → Type 0
LiveUntil true ls = Unit
LiveUntil false ls = All Live ls

pub record IsSound (c : Client) : Type 0 where
  pub fits : All Fits c.listeners
  pub live : LiveUntil c.recv_closed c.listeners

send-Live :
    (p : ℕ) (m : PhevMessage) (l : Listener)
    → Live (p, l)
    → Fits (p, l)
    → (l' : Listener) × (send m l ≡ ok l') × Live (p, l') × Fits (p, l')
unfolding send
send-Live p m l h k = elim (Bool-cases (ltb (length l.c.queue) 5)) [
  | inl room ↦ (
    record l { c = record { queue = l.c.queue ++ (m ∷ []); is_closed = false } },
    rw (h.0, room) refl,
    (refl, h.1),
    ground (arith, length-append l.c.queue (m ∷ [])),
  )
  | inr full ↦ (l, rw (h.0, full) refl, h, k)
]

pub send_all-Live :
    (m : PhevMessage) (ls : List (ℕ × Listener))
    → All Live ls
    → All Fits ls
    → (ls' : List (ℕ × Listener)) × (send_all m ls ≡ ok ls') × All Live ls' × All Fits ls'
unfolding send_all
send_all-Live m [] h k = ([], refl, tt, tt)
send_all-Live m ((p, l) ∷ ls) h k =
    let (l', e, live, fits) = send-Live p m l h.0 k.0 in
    let (ls', f, lives, all_fit) = send_all-Live m ls h.1 k.1 in
    (((p, l') ∷ ls'), rw (e, f) refl, (live, lives), (fits, all_fit))

pub stop_all-Fits :
    (ls : List (ℕ × Listener))
    → All Live ls
    → All Fits ls
    → (ls' : List (ℕ × Listener)) × (stop_all ls ≡ ok ls') × All Fits ls'
unfolding stop_all request_stop process_stop
stop_all-Fits [] h k = ([], refl, tt)
stop_all-Fits ((p, l) ∷ ls) h k =
    let (ls', e, all_fit) = stop_all-Fits ls h.1 k.1 in
    (
      ((p, record { c = record { queue = l.c.queue; is_closed = true }; stop = false }) ∷ ls'),
      rw (h.0.0, e) refl,
      (k.0, all_fit),
    )

-- What keeps each listener's property keeps that of all.
pub on_pointer-All :
    (Good : ℕ × Listener → Type 0) (f : Listener → Listener) (p : ℕ) (ls : List (ℕ × Listener))
    → ((q : ℕ) (l : Listener) → Good (q, l) → Good (q, f l))
    → All Good ls
    → All Good (on_pointer f p ls)
unfolding on_pointer
on_pointer-All Good f p [] keep h = tt
on_pointer-All Good f p ((q, l) ∷ ls) keep h = elim (Bool-cases (q == p)) [
  | inl e ↦ rw e (keep q l h.0, on_pointer-All Good f p ls keep h.1)
  | inr e ↦ rw e (h.0, on_pointer-All Good f p ls keep h.1)
]

pub drop_pointer-All :
    (Good : ℕ × Listener → Type 0) (p : ℕ) (ls : List (ℕ × Listener))
    → All Good ls
    → All Good (drop_pointer p ls)
unfolding drop_pointer
drop_pointer-All Good p [] h = tt
drop_pointer-All Good p ((q, l) ∷ ls) h = elim (Bool-cases (q == p)) [
  | inl e ↦ rw e (drop_pointer-All Good p ls h.1)
  | inr e ↦ rw e (h.0, drop_pointer-All Good p ls h.1)
]

-- The invariant, for a client whose reader runs.
pub record IsOpen (c : Client) : Type 0 where
  pub reads_on : c.recv_closed ≡ false
  pub fits : All Fits c.listeners
  pub live : All Live c.listeners

pub IsOpen-IsSound : (c : Client) → IsOpen c → IsSound c
IsOpen-IsSound c h = record { fits = h.fits; live = rw h.reads_on h.live }

pub IsSound-IsOpen : (c : Client) → c.recv_closed ≡ false → IsSound c → IsOpen c
IsSound-IsOpen c e h = record {
  reads_on = e;
  fits = h.fits;
  live = subst (λ (b : Bool). LiveUntil b c.listeners) e h.live;
}

-- A property of listeners that are live passes to other listeners that keep it.
pub LiveUntil-map :
    (b : Bool) (ls ks : List (ℕ × Listener))
    → (All Live ls → All Live ks)
    → LiveUntil b ls
    → LiveUntil b ks
LiveUntil-map true ls ks f h = tt
LiveUntil-map false ls ks f h = f h
