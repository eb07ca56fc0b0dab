-- ===== src/Client/Threads/Safe.antt =====
-- Every step keeps the invariant, so that the reader never panics on a channel.
use mathlib.Core.Path.{subst}
use phev2mqtt.Base.{
  ℕ, ◌≤◌, ◌≡◌, refl, sym, ◌∙◌, ◌&&◌, ap, Bool, true, false, List, [], ◌∷◌, ◌++◌, ◌==◌, arith,
  length, ◌⊎◌, inl, inr, Bool-cases, All, All-append, Outcome, ok, err, panic, >>=-eq-ok,
  if◌then◌else◌, Option, none, some,
}
use phev2mqtt.Protocol.Types.{PhevMessage}
use phev2mqtt.Protocol.Register.Plain.{Clock}
use phev2mqtt.Protocol.Message.{short_form, encode_to_bytes}
use phev2mqtt.Protocol.Constants.{
  cmd_in_resp, cmd_in_start_resp, cmd_in_my24_start_req, cmd_in_my18_start_req,
  cmd_in_my14_start_req, request_flag, settings_register,
}
use phev2mqtt.Protocol.Stream.{Scan, new_from_bytes}
use phev2mqtt.Client.Listener.{Listener, request_stop}
use phev2mqtt.Client.Listener
use phev2mqtt.Client.State.{
  Client, add_listener, remove_listener, drop_pointer, manage, new, address_option,
}
use phev2mqtt.Client.Loops.{send_all, deliver, after_scan, reader, reader_error, writer}
use phev2mqtt.Client.Threads.{Step, Reach, after_take, take_front, on_pointer}
use phev2mqtt.Client.Threads.Sound.{
  Fits, Live, LiveUntil-map, IsSound, IsOpen, IsOpen-IsSound, IsSound-IsOpen, send_all-Live,
  stop_all-Fits, on_pointer-All, drop_pointer-All,
}

abbrev from_ok : Client → Outcome Client → Client
from_ok c (ok c') = c'
from_ok c err = c
from_ok c panic = c

same_end : (Good : Client → Type 0) (c c' : Client) → ok c ≡ ok c' → Good c → Good c'
same_end Good c c' e h = subst Good (ap (from_ok c) e) h

module _ (clock : Clock) where
  deliver-IsOpen :
      (ms : List PhevMessage) (c c' : Client) → IsOpen c → deliver clock ms c ≡ ok c' → IsOpen c'
  unfolding deliver
  deliver-IsOpen [] c c' h e = same_end IsOpen c c' e h
  deliver-IsOpen (m ∷ ms) c c' h e =
      let (text, printed, rest) = >>=-eq-ok (short_form clock m) _ e in
      let (ls, sent, live, fits) = send_all-Live m c.listeners h.live h.fits in
      deliver-IsOpen ms (record c { listeners = ls; recv = c.recv ++ (m ∷ []) }) c'
        (record { reads_on = h.reads_on; fits = fits; live = live }) (rw sent at rest)

  after_scan-IsOpen :
      (o : Option (Outcome Scan)) (c c' : Client)
      → IsOpen c
      → after_scan clock c o ≡ ok c'
      → IsOpen c'
  unfolding after_scan
  after_scan-IsOpen none c c' h e = same_end IsOpen c c' e h
  after_scan-IsOpen (some (ok s)) c c' h e =
      deliver-IsOpen s.msgs (record c { key = s.key }) c'
        (record { reads_on = h.reads_on; fits = h.fits; live = h.live }) e
  after_scan-IsOpen (some err) c c' h e = cc
  after_scan-IsOpen (some panic) c c' h e = cc

  reader-IsOpen :
      (bytes : List ℕ) (c c' : Client) → IsOpen c → reader clock bytes c ≡ ok c' → IsOpen c'
  unfolding reader
  reader-IsOpen bytes c c' h e = after_scan-IsOpen (new_from_bytes clock bytes c.key) c c' h e

reader_error-safe : (c : Client) → IsOpen c → (c' : Client) × (reader_error c ≡ ok c') × IsSound c'
unfolding reader_error
reader_error-safe c h =
    let (ls, e, fits) = stop_all-Fits c.listeners h.live h.fits in
    (
      record c { closed = true; recv_closed = true; listeners = ls },
      rw e refl,
      record { fits = fits; live = tt },
    )

-- A step that changes neither the listeners nor whether the reader has ended.
abbrev SameListeners : Client → Client → Type 0
SameListeners c c' = (c'.listeners ≡ c.listeners) × (c'.recv_closed ≡ c.recv_closed)

SameListeners-IsSound : (c c' : Client) → SameListeners c c' → IsSound c → IsSound c'
SameListeners-IsSound c c' h k = record { fits = rw h.0 k.fits; live = rw (h.0, h.1) k.live }

abbrev second : Client → Outcome (List ℕ × Client) → Client
second c (ok (bytes, c')) = c'
second c err = c
second c panic = c

writer-SameListeners :
    (clock : Clock) (write_succeeds : Bool) (msg : PhevMessage) (c c' : Client) (bytes : List ℕ)
    → writer clock write_succeeds msg c ≡ ok (bytes, c')
    → SameListeners c c'
unfolding writer
writer-SameListeners clock true msg c c' bytes e =
    let (encoded, f, rest) = >>=-eq-ok (encode_to_bytes (record msg { xor = 0 }) c.key) _ e in
    let (text, printed, last) = >>=-eq-ok (short_form clock encoded.1) _ rest in
    let end = ap (λ (o : Outcome (List ℕ × Client)). second c o) last in
    (ap (λ (x : Client). x.listeners) (sym end), ap (λ (x : Client). x.recv_closed) (sym end))
writer-SameListeners clock false msg c c' bytes e =
    let (encoded, f, rest) = >>=-eq-ok (encode_to_bytes (record msg { xor = 0 }) c.key) _ e in
    let (text, printed, last) = >>=-eq-ok (short_form clock encoded.1) _ rest in
    let end = ap (λ (o : Outcome (List ℕ × Client)). second c o) last in
    (ap (λ (x : Client). x.listeners) (sym end), ap (λ (x : Client). x.recv_closed) (sym end))

if-SameListeners :
    (b : Bool) (c x y : Client)
    → SameListeners c x
    → SameListeners c y
    → SameListeners c (if b then x else y)
if-SameListeners true c x y h k = h
if-SameListeners false c x y h k = k

manage-SameListeners : (m : PhevMessage) (c : Client) → SameListeners c (manage m c)
unfolding manage
manage-SameListeners m c =
    if-SameListeners (m.typ == cmd_in_resp) c _ _
      (if-SameListeners (m.ack == request_flag && m.register == settings_register) c _ _
        (refl, refl) (refl, refl))
      (if-SameListeners (m.typ == cmd_in_start_resp) c _ _ (refl, refl)
        (if-SameListeners (m.typ == cmd_in_my24_start_req) c _ _ (refl, refl)
          (if-SameListeners (m.typ == cmd_in_my18_start_req) c _ _ (refl, refl)
            (if-SameListeners (m.typ == cmd_in_my14_start_req) c _ _ (refl, refl) (refl, refl)))))

request_stop-Fits : (q : ℕ) (l : Listener) → Fits (q, l) → Fits (q, request_stop l)
unfolding request_stop
request_stop-Fits q l h = h

after_take-Fits :
    (queue : List PhevMessage) (q : ℕ) (l : Listener)
    → length queue ≤ 5
    → Fits (q, l)
    → Fits (q, after_take queue l)
after_take-Fits [] q l h k = k
after_take-Fits (m ∷ ms) q l h k = omega (arith, h)

after_take-Live :
    (queue : List PhevMessage) (q : ℕ) (l : Listener) → Live (q, l) → Live (q, after_take queue l)
after_take-Live [] q l h = h
after_take-Live (m ∷ ms) q l h = h

take_front-Fits : (q : ℕ) (l : Listener) → Fits (q, l) → Fits (q, take_front l)
take_front-Fits q l h = after_take-Fits l.c.queue q l h h

take_front-Live : (q : ℕ) (l : Listener) → Live (q, l) → Live (q, take_front l)
take_front-Live q l h = after_take-Live l.c.queue q l h

add_listener-IsSound : (c : Client) → IsSound c → IsSound (add_listener c).1
unfolding add_listener phev2mqtt.Client.Listener.start
add_listener-IsSound c h =
    let fresh : ℕ × Listener = (c.next_pointer, Listener.start) in
    record {
      fits = All-append Fits c.listeners (fresh ∷ []) h.fits (omega arith, tt);
      live =
          LiveUntil-map c.recv_closed c.listeners (c.listeners ++ (fresh ∷ []))
            (λ live. All-append Live c.listeners (fresh ∷ []) live ((refl, refl), tt)) h.live;
    }

Step-IsSound : {clock : Clock} {c c' : Client} → Step clock c c' → IsSound c → IsSound c'
unfolding remove_listener
Step-IsSound {clock} {c} {c'} (Step.reads bytes runs e) h =
    IsOpen-IsSound c' (reader-IsOpen clock bytes c c' (IsSound-IsOpen c runs h) e)
Step-IsSound {clock} {c} {c'} (Step.read_fails runs e) h =
    let (c2, f, sound) = reader_error-safe c (IsSound-IsOpen c runs h) in
    same_end IsSound c2 c' (sym f ∙ e) sound
Step-IsSound {clock} {c} {c'} (Step.writes write_succeeds msg bytes e) h =
    SameListeners-IsSound c c' (writer-SameListeners clock write_succeeds msg c c' bytes e) h
Step-IsSound {clock} {c} (Step.manages msg) h =
    SameListeners-IsSound c (manage msg c) (manage-SameListeners msg c) h
Step-IsSound {clock} {c} (Step.manage_ends p ended) h = record {
  fits = on_pointer-All Fits request_stop p c.listeners request_stop-Fits h.fits;
  live = rw ended tt;
}
Step-IsSound {clock} {c} (Step.takes p) h = record {
  fits = on_pointer-All Fits take_front p c.listeners take_front-Fits h.fits;
  live =
      LiveUntil-map c.recv_closed c.listeners (on_pointer take_front p c.listeners)
        (on_pointer-All Live take_front p c.listeners take_front-Live) h.live;
}
Step-IsSound {clock} {c} Step.listens h = add_listener-IsSound c h
Step-IsSound {clock} {c} (Step.unlistens p) h = record {
  fits = drop_pointer-All Fits p c.listeners h.fits;
  live =
      LiveUntil-map c.recv_closed c.listeners (drop_pointer p c.listeners)
        (drop_pointer-All Live p c.listeners) h.live;
}
Step-IsSound {clock} {c} Step.closes h = record { fits = h.fits; live = h.live }

Reach-IsSound : {clock : Clock} {address : List ℕ} {c : Client} → Reach clock address c → IsSound c
unfolding new address_option
Reach-IsSound Reach.created = record { fits = tt; live = tt }
Reach-IsSound (Reach.stepped r s) = Step-IsSound s (Reach-IsSound r)

-- However the goroutines of a client take turns, the channel of each listener holds at most five
-- messages; and the reader has ended, or sending a message to all listeners does not panic, nor does
-- closing all their channels at a read error.
pub Reach-Safe :
    {clock : Clock} {address : List ℕ} {c : Client} (m : PhevMessage)
    → Reach clock address c
    → All Fits c.listeners
      × ((c.recv_closed ≡ true)
          ⊎ (((ls : List (ℕ × Listener)) × (send_all m c.listeners ≡ ok ls))
              × ((c' : Client) × (reader_error c ≡ ok c'))))
Reach-Safe {c = c} m r =
    let sound = Reach-IsSound r in
    (
      sound.fits,
      elim (Bool-cases c.recv_closed) [
        | inl ended ↦ inl ended
        | inr runs ↦
            let open_now = IsSound-IsOpen c runs sound in
            let (ls, e, _, _) = send_all-Live m c.listeners open_now.live open_now.fits in
            let (c', f, _) = reader_error-safe c open_now in inr ((ls, e), (c', f))
      ],
    )
