-- ===== src/Mqtt/Incoming/Kept.antt =====
-- What the calls of SetRegister for an incoming topic leave alone.
use mathlib.Core.List.{append_assoc, append-nil}
use phev2mqtt.Base.{
  All, All-append, Bool-cases, Option-cases, ◌==◌, ◌&&◌, get_elem?, ℕ, ◌<◌, ◌≤◌, ◌≡◌, ◌∙◌, arith,
  refl, sym, inl, inr, Bool, true, false, List, [], ◌∷◌, ◌++◌, Option, none, some, if◌then◌else◌,
}
use phev2mqtt.Protocol.Constants.{
  cmd_in_bad_encoding, cmd_in_resp, cmd_out_send, request_flag, ack_flag,
}
use phev2mqtt.Protocol.Types.{PhevMessage}
use phev2mqtt.Protocol.Settings.{clear}
use phev2mqtt.Client.Listener.{Listener}
use phev2mqtt.Client.Listener
use phev2mqtt.Client.State.{Client, add_listener, remove_listener, drop_pointer}
use phev2mqtt.Client.SetRegister.{
  Event, timer, closed, message, await_reply, SetResult, succeeded, timed_out, listener_closed,
  crashed, pending, set_register,
}
use phev2mqtt.Mqtt.Incoming.{
  Gateway, Handled, returned, stopped, waiting, after_set, first_reply, later_replies, with_set,
  after_call, set_on, set_with, set_all,
}

-- A request to set a register.
abbrev pub IsRequest : PhevMessage → Type 0
IsRequest m = (m.typ ≡ cmd_out_send) × (m.ack ≡ request_flag)

-- The first listener under a pointer.
abbrev pub find : ℕ → List (ℕ × Listener) → Option Listener
find p [] = none
find p ((q, l) ∷ ls) = if q == p then some l else find p ls

-- The pointers below `n` lead to the same listeners.
abbrev pub SameBelow : ℕ → List (ℕ × Listener) → List (ℕ × Listener) → Type 0
SameBelow n ls ks = (p : ℕ) → p < n → find p ks ≡ find p ls

-- A client that only got requests on Send, or its settings cleared, and that has the listeners of
-- before under their pointers.
pub record OnlySent (c c' : Client) : Type 0 where
  pub sends : (ms : List PhevMessage) × All IsRequest ms × (c'.sent ≡ c.sent ++ ms)
  pub closed_same : c'.closed ≡ c.closed
  pub key_same : c'.key ≡ c.key
  pub listeners_same : SameBelow c.next_pointer c.listeners c'.listeners
  pub pointers : c.next_pointer ≤ c'.next_pointer

abbrev pub PhevKept : Option Client → Option Client → Type 0
PhevKept none none = Unit
PhevKept none (some c') = ⊥
PhevKept (some c) none = ⊥
PhevKept (some c) (some c') = OnlySent c c'

pub record IsKept (g g' : Gateway) : Type 0 where
  pub bridge_same : g'.bridge ≡ g.bridge
  pub enabled_same : g'.enabled ≡ g.enabled
  pub announced_same : g'.announced ≡ g.announced
  pub phev_kept : PhevKept g.phev g'.phev

abbrev pub Keeps : Gateway → Handled → Type 0
Keeps g (returned g') = IsKept g g'
Keeps g (waiting g') = IsKept g g'
Keeps g stopped = Unit

OnlySent-self : (c : Client) → OnlySent c c
OnlySent-self c = record {
  sends = ([], tt, sym (append-nil c.sent));
  closed_same = refl;
  key_same = refl;
  listeners_same = λ p h. refl;
  pointers = omega arith;
}

await_reply-IsRequest :
    (r : ℕ) (v : List ℕ) (es : List Event) → All IsRequest (await_reply r v es).sent
unfolding await_reply
await_reply-IsRequest r v [] = tt
await_reply-IsRequest r v (timer ∷ es) = tt
await_reply-IsRequest r v (closed ∷ es) = tt
await_reply-IsRequest r v (message m ∷ es) = elim (Bool-cases (m.typ == cmd_in_bad_encoding)) [
  | inl bad ↦ elim (Option-cases (get_elem? m.data_bytes 0)) [
    | inl e ↦ rw (bad, e) tt
    | inr (x, e) ↦ rw (bad, e) ((refl, refl), await_reply-IsRequest r v es)
  ]
  | inr good ↦ elim (Bool-cases (m.typ == cmd_in_resp && m.ack == ack_flag && m.register == r)) [
    | inl e ↦ rw (good, e) tt
    | inr e ↦ rw (good, e) (await_reply-IsRequest r v es)
  ]
]

set_register-IsRequest :
    (r : ℕ) (v : List ℕ) (es : List Event) → All IsRequest (set_register r v es).sent
unfolding set_register
set_register-IsRequest r v es = ((refl, refl), await_reply-IsRequest r v es)

find-append :
    (p n : ℕ) (ls : List (ℕ × Listener)) (l : Listener)
    → p < n
    → find p (ls ++ ((n, l) ∷ [])) ≡ find p ls
find-append p n [] l h = ground (arith, h)
find-append p n ((q, k) ∷ ls) l h = ground (arith, find-append p n ls l h)

find-drop_pointer :
    (p n : ℕ) (ls : List (ℕ × Listener)) → p < n → find p (drop_pointer n ls) ≡ find p ls
unfolding drop_pointer
find-drop_pointer p n [] h = refl
find-drop_pointer p n ((q, k) ∷ ls) h = ground (arith, h, find-drop_pointer p n ls h)

OnlySent-more :
    (r : ℕ) (v : List ℕ) (es : List Event) (c c' : Client)
    → OnlySent c c'
    → OnlySent c (with_set r v es c')
unfolding with_set add_listener
OnlySent-more r v es c c' h =
    let (ms, all, e) = h.sends in
    record {
      sends = (
        ms ++ (set_register r v es).sent,
        All-append IsRequest ms (set_register r v es).sent all (set_register-IsRequest r v es),
        rw e (append_assoc c.sent ms (set_register r v es).sent),
      );
      closed_same = h.closed_same;
      key_same = h.key_same;
      listeners_same = λ p below.
          find-append p c'.next_pointer c'.listeners Listener.start
            (omega (arith, below, h.pointers))
          ∙ h.listeners_same p below;
      pointers = omega (arith, h.pointers);
    }

OnlySent-after :
    (r : ℕ) (v : List ℕ) (es : List Event) (c c' : Client)
    → OnlySent c c'
    → OnlySent c (after_call r v es c')
unfolding after_call with_set add_listener remove_listener
OnlySent-after r v es c c' h =
    let more = OnlySent-more r v es c c' h in
    record {
      sends = more.sends;
      closed_same = h.closed_same;
      key_same = h.key_same;
      listeners_same = λ p below.
          find-drop_pointer p c'.next_pointer (with_set r v es c').listeners
            (omega (arith, below, h.pointers))
          ∙ more.listeners_same p below;
      pointers = more.pointers;
    }

pub OnlySent-cleared : (c : Client) → OnlySent c (record c { settings = clear c.settings })
OnlySent-cleared c = record {
  sends = ([], tt, sym (append-nil c.sent));
  closed_same = refl;
  key_same = refl;
  listeners_same = λ p h. refl;
  pointers = omega arith;
}

PhevKept-self : (o : Option Client) → PhevKept o o
PhevKept-self none = tt
PhevKept-self (some c) = OnlySent-self c

pub IsKept-self : (g : Gateway) → IsKept g g
IsKept-self g = record {
  bridge_same = refl;
  enabled_same = refl;
  announced_same = refl;
  phev_kept = PhevKept-self g.phev;
}

after_set-Keeps :
    (r : SetResult) (g ended now : Gateway) (next : Handled)
    → IsKept g ended
    → IsKept g now
    → Keeps g next
    → Keeps g (after_set r ended now next)
unfolding after_set
after_set-Keeps succeeded g ended now next h w k = k
after_set-Keeps timed_out g ended now next h w k = h
after_set-Keeps listener_closed g ended now next h w k = h
after_set-Keeps crashed g ended now next h w k = tt
after_set-Keeps pending g ended now next h w k = w

-- `c0` is the client at the start, `c` that of now.
set_on-Keeps :
    (ws : List (ℕ × List ℕ)) (replies : List (List Event)) (c0 c : Client) (g0 g : Gateway)
    → g0.phev ≡ some c0
    → OnlySent c0 c
    → g.bridge ≡ g0.bridge
    → g.enabled ≡ g0.enabled
    → g.announced ≡ g0.announced
    → Keeps g0 (set_on ws replies c g)
unfolding set_on
set_on-Keeps [] replies c0 c g0 g start h b e a = record {
  bridge_same = b;
  enabled_same = e;
  announced_same = a;
  phev_kept = rw start h;
}
set_on-Keeps ((r, v) ∷ ws) replies c0 c g0 g start h b e a =
    let es = first_reply replies in
    let c' = after_call r v es c in
    let waits = with_set r v es c in
    let after = OnlySent-after r v es c0 c h in
    let more = OnlySent-more r v es c0 c h in
    after_set-Keeps (set_register r v es).result g0 (record g { phev = some c' })
      (record g { phev = some waits }) (set_on ws (later_replies replies) c' g)
      (record { bridge_same = b; enabled_same = e; announced_same = a; phev_kept = rw start after })
      (record { bridge_same = b; enabled_same = e; announced_same = a; phev_kept = rw start more })
      (set_on-Keeps ws (later_replies replies) c0 c' g0 g start after b e a)

set_with-Keeps :
    (o : Option Client) (ws : List (ℕ × List ℕ)) (replies : List (List Event)) (g : Gateway)
    → g.phev ≡ o
    → Keeps g (set_with o ws replies g)
unfolding set_with
set_with-Keeps none ws replies g e = tt
set_with-Keeps (some c) ws replies g e =
    set_on-Keeps ws replies c c g g e (OnlySent-self c) refl refl refl

pub set_all-Keeps :
    (ws : List (ℕ × List ℕ)) (replies : List (List Event)) (g : Gateway)
    → Keeps g (set_all ws replies g)
unfolding set_all
set_all-Keeps ws replies g = set_with-Keeps g.phev ws replies g refl

pub if-Keeps :
    (b : Bool) (g : Gateway) (x y : Handled) → Keeps g x → Keeps g y → Keeps g (if b then x else y)
if-Keeps true g x y h k = h
if-Keeps false g x y h k = k
