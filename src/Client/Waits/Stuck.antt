-- ===== src/Client/Waits/Stuck.antt =====
-- `manage` answers as long as the channel started has room, and waits for ever once it is full.
use phev2mqtt.Base.{
  ℕ, ◌+◌, ◌≤◌, ◌≡◌, refl, ap, ◌∙◌, true, false, List, [], ◌∷◌, ◌++◌, ltb, arith, lt→ltb, le→ltb,
}
use phev2mqtt.Protocol.Types.{PhevMessage}
use phev2mqtt.Client.State.{Client, manage}
use phev2mqtt.Client.State.Laws.{
  manage_all, manage_all_lem, replies, start_count, manage-started, year_of,
}
use phev2mqtt.Client.Waits.{Manager, manage_loop}

stays :
    (taken : ℕ) (ms : List PhevMessage) (c : Client)
    → manage_loop taken ms (record { client = c; stuck = true })
      ≡ record { client = c; stuck = true }
unfolding manage_loop
stays taken [] c = refl
stays taken (m ∷ ms) c = stays taken ms c

loop_runs :
    (taken : ℕ) (ms : List PhevMessage) (c : Client)
    → c.started + start_count ms ≤ taken + 2
    → manage_loop taken ms (record { client = c; stuck = false })
      ≡ record { client = manage_all ms c; stuck = false }
unfolding manage_loop
loop_runs taken [] c room = refl
loop_runs taken (m ∷ ms) c room =
    let under : ltb (taken + 2) (manage m c).started ≡ false =
      le→ltb _ _ (omega (arith, manage-started m c, room)) in
    ap (λ x. manage_loop taken ms (record { client = manage m c; stuck = x })) under
    ∙ loop_runs taken ms (manage m c) (omega (arith, manage-started m c, room))

-- As long as the start requests do not exceed by more than two the values that were taken from the
-- channel started, `manage` does not wait: it answers each start request once, in order and in its
-- own generation, answers each CmdInStartResp with a ping, keeps the model year that the last start
-- request named, and counts the start requests on the channel.
pub manage_loop-answers :
    (taken : ℕ) (ms : List PhevMessage) (c : Client)
    → c.started + start_count ms ≤ taken + 2
    → let s = manage_loop taken ms (record { client = c; stuck = false }) in
      (s.stuck ≡ false)
      × (s.client.sent ≡ c.sent ++ replies ms)
      × (s.client.model_year ≡ year_of c.model_year ms)
      × (s.client.started ≡ c.started + start_count ms)
manage_loop-answers taken ms c room =
    let e = loop_runs taken ms c room in
    let same = ap (λ (s : Manager). s.client) e in
    let (sent, year, started) = manage_all_lem ms c in
    (
      ap (λ (s : Manager). s.stuck) e,
      ap (λ (x : Client). x.sent) same ∙ sent,
      ap (λ (x : Client). x.model_year) same ∙ year,
      ap (λ (x : Client). x.started) same ∙ started,
    )

module _ (taken : ℕ) (m : PhevMessage) (after : List PhevMessage) where
  loop_stuck :
      (before : List PhevMessage) (c : Client)
      → c.started + start_count before ≡ taken + 2
      → start_count (m ∷ []) ≡ 1
      → manage_loop taken (before ++ (m ∷ after)) (record { client = c; stuck = false })
        ≡ record { client = manage_all (before ++ (m ∷ [])) c; stuck = true }
  unfolding manage_loop
  loop_stuck [] c full start =
      let over : ltb (taken + 2) (manage m c).started ≡ true =
        lt→ltb _ _ (omega (arith, manage-started m c, start, full)) in
      ap (λ b. manage_loop taken after (record { client = manage m c; stuck = b })) over
      ∙ stays taken after (manage m c)
  loop_stuck (b ∷ bs) c full start =
      let under : ltb (taken + 2) (manage b c).started ≡ false =
        le→ltb _ _ (omega (arith, manage-started b c, full)) in
      ap (λ x. manage_loop taken (bs ++ (m ∷ after)) (record { client = manage b c; stuck = x }))
        under
      ∙ loop_stuck bs (manage b c) (omega (arith, manage-started b c, full)) start

  -- Where the start requests before have filled the channel started, so that it holds two values more
  -- than were taken, one more start request is still answered, and then `manage` waits for ever: it
  -- answers none of the messages behind it, whatever they are.
  pub manage_loop-stuck :
      (before : List PhevMessage) (c : Client)
      → c.started + start_count before ≡ taken + 2
      → start_count (m ∷ []) ≡ 1
      → let s = manage_loop taken (before ++ (m ∷ after)) (record { client = c; stuck = false }) in
        (s.stuck ≡ true)
        × (s.client ≡ manage_all (before ++ (m ∷ [])) c)
        × (s.client.sent ≡ c.sent ++ replies (before ++ (m ∷ [])))
  manage_loop-stuck before c full start =
      let e = loop_stuck before c full start in
      let same = ap (λ (s : Manager). s.client) e in
      (
        ap (λ (s : Manager). s.stuck) e,
        same,
        ap (λ (x : Client). x.sent) same ∙ (manage_all_lem (before ++ (m ∷ [])) c).0,
      )
