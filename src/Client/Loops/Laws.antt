-- ===== src/Client/Loops/Laws.antt =====
-- The client's goroutines: the retries and the end of SetRegister, and the end of the reader.
use phev2mqtt.Base.{
  ℕ, ◌≤◌, ◌≡◌, ◌↔◌, refl, Bool, true, false, List, [], ◌∷◌, ◌==◌, ◌&&◌, arith, length, All,
  get_elem?, ok, Bool-cases, Option-cases, ℕ_discrete, some, none, inl, inr, sym, ◌∙◌, ◌⊎◌,
}
use phev2mqtt.Protocol.Types.{PhevMessage}
use phev2mqtt.Protocol.Register.Plain.{Clock}
use phev2mqtt.Client.Listener.{Listener, request_stop, process_stop}
use phev2mqtt.Client.State.{Client}
use phev2mqtt.Client.SetRegister.{
  Event, timer, closed, message, succeeded, crashed, await_reply, set_register, set_message,
}
use phev2mqtt.Client.Loops.{writer, reader_error, stop_all}

module _ (clock : Clock) (write_succeeds : Bool) (c : Client) (register : ℕ) (value : List ℕ) where
  -- The writer does for `m` what it does for the first attempt.
  abbrev pub WritesAlike : PhevMessage → Type 0
  WritesAlike m =
      writer clock write_succeeds m c ≡ writer clock write_succeeds (set_message register value 0) c

  retries-WritesAlike : (es : List Event) → All WritesAlike (await_reply register value es).sent
  unfolding await_reply writer
  retries-WritesAlike [] = tt
  retries-WritesAlike (timer ∷ es) = tt
  retries-WritesAlike (closed ∷ es) = tt
  retries-WritesAlike (message m ∷ es) = elim (Bool-cases (m.typ == 0xbb)) [
    | inl bad ↦ elim (Option-cases (get_elem? m.data_bytes 0)) [
      | inl e ↦ rw (bad, e) tt
      | inr (x, e) ↦ rw (bad, e) (refl, retries-WritesAlike es)
    ]
    | inr good ↦ elim (Bool-cases (m.typ == 0x6f && m.ack == 1 && m.register == register)) [
      | inl e ↦ rw (good, e) tt
      | inr e ↦ rw (good, e) (retries-WritesAlike es)
    ]
  ]

  -- Each message that SetRegister puts on Send, the first and every retry after a CmdInBadEncoding,
  -- makes the writer do the same: the xor byte that a reply named does not change what is written.
  pub set_register-WritesAlike :
      (es : List Event) → All WritesAlike (set_register register value es).sent
  unfolding set_register
  set_register-WritesAlike es = (refl, retries-WritesAlike es)

get_elem?-none {ℓ} : {A : Type ℓ} (xs : List A) → get_elem? xs 0 ≡ none → length xs ≡ 0
get_elem?-none [] h = refl
get_elem?-none (x ∷ xs) h = cc

get_elem?-some {ℓ} : {A : Type ℓ} (xs : List A) (a : A) → get_elem? xs 0 ≡ some a → 1 ≤ length xs
get_elem?-some [] a h = cc
get_elem?-some (x ∷ xs) a h = omega arith

-- The reply that SetRegister waits for.
abbrev pub IsAnswer : ℕ → PhevMessage → Type 0
IsAnswer register m = (m.typ ≡ 0x6f) × (m.ack ≡ 1) × (m.register ≡ register)

-- Among the events a matching reply comes before the timer, the end of the channel and any
-- CmdInBadEncoding without data.
pub data IsAnswered (register : ℕ) : List Event → Type 0 where
  answer :
      (m : PhevMessage) (es : List Event)
      → IsAnswer register m
      → IsAnswered register (message m ∷ es)
  later :
      (m : PhevMessage) (es : List Event)
      → ((m.typ ≡ 0xbb) → 1 ≤ length m.data_bytes)
      → IsAnswered register es
      → IsAnswered register (message m ∷ es)

-- What a message does to the wait.
await_reply-message :
    (r : ℕ) (v : List ℕ) (m : PhevMessage) (es : List Event)
    → let end = (await_reply r v (message m ∷ es)).result in
      ((m.typ ≡ 0xbb) × (length m.data_bytes ≡ 0) × (end ≡ crashed))
      ⊎ (IsAnswer r m × (end ≡ succeeded))
      ⊎ ((¬ IsAnswer r m)
          × ((m.typ ≡ 0xbb) → 1 ≤ length m.data_bytes)
          × (end ≡ (await_reply r v es).result))
unfolding await_reply
await_reply-message r v m es = elim (ℕ_discrete m.typ 0xbb) [
  | yes bad ↦ elim (Option-cases (get_elem? m.data_bytes 0)) [
    | inl e ↦ inl (bad, get_elem?-none m.data_bytes e, rw (bad, e) refl)
    | inr (x, e) ↦
        inr (
          inr
            (λ a. omega (arith, bad, a.0), λ b. get_elem?-some m.data_bytes x e, rw (bad, e) refl))
  ]
  | no good ↦ elim (Bool-cases (m.typ == 0x6f && m.ack == 1 && m.register == r)) [
    | inl e ↦ inr (inl (ground (arith, e), ground (arith, e, good)))
    | inr e ↦
        inr (
          inr
            (λ a. ground (arith, e, a.0, a.1, a.2), λ b. absurd (good b), ground (arith, e, good)))
  ]
]

await_reply_sound :
    (r : ℕ) (v : List ℕ) (es : List Event)
    → (await_reply r v es).result ≡ succeeded
    → IsAnswered r es
unfolding await_reply
await_reply_sound r v [] h = cc
await_reply_sound r v (timer ∷ es) h = cc
await_reply_sound r v (closed ∷ es) h = cc
await_reply_sound r v (message m ∷ es) h = elim (await_reply-message r v m es) [
  | inl (bad, empty, e) ↦ cc
  | inr (inl (a, e)) ↦ IsAnswered.answer m es a
  | inr (inr (n, b, e)) ↦ IsAnswered.later m es b (await_reply_sound r v es (sym e ∙ h))
]

await_reply_complete :
    (r : ℕ) (v : List ℕ) (es : List Event)
    → IsAnswered r es
    → (await_reply r v es).result ≡ succeeded
await_reply_complete r v _ (IsAnswered.answer m es a) = elim (await_reply-message r v m es) [
  | inl (bad, empty, e) ↦ absurd (omega (arith, bad, a.0))
  | inr (inl (a', e)) ↦ e
  | inr (inr (n, b, e)) ↦ absurd (n a)
]
await_reply_complete r v _ (IsAnswered.later m es b rest) = elim (await_reply-message r v m es) [
  | inl (bad, empty, e) ↦ absurd (omega (arith, b bad, empty))
  | inr (inl (a', e)) ↦ e
  | inr (inr (n, b', e)) ↦ e ∙ await_reply_complete r v es rest
]

-- SetRegister succeeds just when a matching reply comes before the timer, the end of the channel
-- and any CmdInBadEncoding without data.
pub set_register-succeeds :
    (register : ℕ) (value : List ℕ) (es : List Event)
    → (set_register register value es).result ≡ succeeded ↔ IsAnswered register es
unfolding set_register
set_register-succeeds r v es = (await_reply_sound r v es, await_reply_complete r v es)

-- Every listener is closed, under the pointers of before.
abbrev pub AllClosed : List (ℕ × Listener) → List (ℕ × Listener) → Type 0
AllClosed [] ls = ls ≡ []
AllClosed ((p, l) ∷ ls) [] = ⊥
AllClosed ((p, l) ∷ ls) ((q, k) ∷ ks) =
    (q ≡ p) × (k.c.is_closed ≡ true) × (k.c.queue ≡ l.c.queue) × AllClosed ls ks

stop_all-AllClosed :
    (ls : List (ℕ × Listener))
    → All (λ (e : ℕ × Listener). e.1.c.is_closed ≡ false) ls
    → (ks : List (ℕ × Listener)) × (stop_all ls ≡ ok ks) × AllClosed ls ks
unfolding stop_all request_stop process_stop
stop_all-AllClosed [] h = ([], refl, refl)
stop_all-AllClosed ((p, l) ∷ ls) h =
    let (ks, e, v) = stop_all-AllClosed ls h.1 in
    (
      ((p, record { c = record { queue = l.c.queue; is_closed = true }; stop = false }) ∷ ks),
      rw (h.0, e) refl,
      (refl, refl, refl, v),
    )

-- When no listener's channel is closed yet, a read error does not panic: the client and Recv are
-- closed, and so is the channel of every listener, with what it still held.
pub reader_error-AllClosed :
    (c : Client)
    → All (λ (e : ℕ × Listener). e.1.c.is_closed ≡ false) c.listeners
    → (c' : Client) × (reader_error c ≡ ok c')
      × (c'.closed ≡ true)
      × (c'.recv_closed ≡ true)
      × AllClosed c.listeners c'.listeners
unfolding reader_error
reader_error-AllClosed c h =
    let (ks, e, v) = stop_all-AllClosed c.listeners h in
    (record c { closed = true; recv_closed = true; listeners = ks }, rw e refl, refl, refl, v)
