-- ===== src/Mqtt/Incoming/Frame.antt =====
-- What handleIncomingMqtt leaves alone, and what a gateway without a client does.
use phev2mqtt.Base.{
  ℕ, ◌≡◌, refl, ◌⊎◌, inl, inr, false, List, [], ◌∷◌, ◌++◌, codes, same_text, same_text_self, Option,
  none, some, hex_decode, split_on, has_prefix, has_prefix-both, last_part,
}
use phev2mqtt.Client.State.{Client}
use phev2mqtt.Client.SetRegister.{Event}
use phev2mqtt.Mqtt.Publish.{topic}
use phev2mqtt.Mqtt.Incoming.{
  Gateway, stopped, register_writes, register_command, connection_command, lights_command,
  reset_command, climate_request, climate_set, climate_writes, switch_off, restart, climate_command,
  dump_command, handle_incoming,
}
use phev2mqtt.Mqtt.Incoming.Kept.{Keeps, IsKept-self, OnlySent-cleared, set_all-Keeps, if-Keeps}

register_writes-Keeps :
    (o v : Option (List ℕ)) (replies : List (List Event)) (g : Gateway)
    → Keeps g (register_writes o v replies g)
unfolding register_writes
register_writes-Keeps none v replies g = IsKept-self g
register_writes-Keeps (some rs) none replies g = IsKept-self g
register_writes-Keeps (some []) (some v) replies g = tt
register_writes-Keeps (some (r ∷ rs)) (some v) replies g = set_all-Keeps ((r, v) ∷ []) replies g

register_command-Keeps :
    (parts : List (List ℕ)) (payload : List ℕ) (replies : List (List Event)) (g : Gateway)
    → Keeps g (register_command parts payload replies g)
unfolding register_command
register_command-Keeps [] payload replies g = IsKept-self g
register_command-Keeps (a ∷ []) payload replies g = IsKept-self g
register_command-Keeps (a ∷ b ∷ []) payload replies g = IsKept-self g
register_command-Keeps (a ∷ b ∷ c ∷ []) payload replies g = IsKept-self g
register_command-Keeps (a ∷ b ∷ c ∷ d ∷ []) payload replies g =
    register_writes-Keeps (hex_decode d) (hex_decode payload) replies g
register_command-Keeps (a ∷ b ∷ c ∷ d ∷ e ∷ es) payload replies g = IsKept-self g

lights_command-Keeps :
    (r : ℕ) (payload : List ℕ) (replies : List (List Event)) (g : Gateway)
    → Keeps g (lights_command r payload replies g)
unfolding lights_command
lights_command-Keeps r payload replies g =
    if-Keeps (same_text payload (codes "on")) g _ _ (set_all-Keeps ((r, 0x1 ∷ []) ∷ []) replies g) (
      if-Keeps (same_text payload (codes "off")) g _ _
        (set_all-Keeps ((r, 0x2 ∷ []) ∷ []) replies g) (IsKept-self g))

reset_command-Keeps :
    (payload : List ℕ) (replies : List (List Event)) (g : Gateway)
    → Keeps g (reset_command payload replies g)
unfolding reset_command
reset_command-Keeps payload replies g =
    if-Keeps (same_text payload (codes "reset")) g _ _ (set_all-Keeps _ replies g) (IsKept-self g)

climate_set-Keeps :
    (o : Option (ℕ × ℕ)) (phev : Option Client) (replies : List (List Event)) (g : Gateway)
    → Keeps g (climate_set o phev replies g)
unfolding climate_set
climate_set-Keeps none phev replies g = IsKept-self g
climate_set-Keeps (some (m, d)) none replies g = tt
climate_set-Keeps (some (m, d)) (some c) replies g =
    set_all-Keeps (climate_writes c.model_year m d) replies g

climate_command-Keeps :
    (parts : List (List ℕ)) (payload : List ℕ) (replies : List (List Event)) (g : Gateway)
    → Keeps g (climate_command parts payload replies g)
unfolding climate_command
climate_command-Keeps parts payload replies g =
    climate_set-Keeps (climate_request (last_part parts) payload) g.phev replies g

dump_command-Keeps : (o : Option Client) (g : Gateway) → g.phev ≡ o → Keeps g (dump_command o g)
unfolding dump_command
dump_command-Keeps none g e = tt
dump_command-Keeps (some c) g e = record {
  bridge_same = refl;
  enabled_same = refl;
  announced_same = refl;
  phev_kept = rw e (OnlySent-cleared c);
}

module _ (to_lower : List ℕ → List ℕ) where
  -- A message on any topic but that of the connection keeps the bridge's cache and climate, whether
  -- the gateway is enabled, and what it announced, when the handler returns and while it waits in a
  -- call of SetRegister; of the client it keeps the key, whether it is closed, and each listener
  -- under a pointer that was given out before, and puts requests to set registers behind what is on
  -- Send, if anything.
  pub handle_incoming-Keeps :
      (t payload : List ℕ) (replies : List (List Event)) (g : Gateway)
      → same_text t (g.bridge.prefix ++ codes "/connection") ≡ false
      → Keeps g (handle_incoming to_lower t payload replies g)
  unfolding handle_incoming topic
  handle_incoming-Keeps t payload replies g other =
      let low = to_lower payload in
      let p = g.bridge.prefix in
      rw other (
        if-Keeps (has_prefix t (p ++ codes "/set/register/")) g _ _
          (register_command-Keeps (split_on b'/' t) payload replies g)
          (if-Keeps (same_text t (p ++ codes "/set/parkinglights")) g _ _
            (lights_command-Keeps 0xb low replies g)
            (if-Keeps (same_text t (p ++ codes "/set/headlights")) g _ _
              (lights_command-Keeps 0xa low replies g)
              (if-Keeps (same_text t (p ++ codes "/set/cancelchargetimer")) g _ _
                (set_all-Keeps ((0x17, 0x1 ∷ []) ∷ (0x17, 0x11 ∷ []) ∷ []) replies g)
                (if-Keeps (has_prefix t (p ++ codes "/set/climate/state")) g _ _
                  (reset_command-Keeps low replies g)
                  (if-Keeps (has_prefix t (p ++ codes "/set/climate/")) g _ _
                    (climate_command-Keeps (split_on b'/' t) low replies g)
                    (if-Keeps (same_text t (p ++ codes "/settings/dump")) g _ _
                      (dump_command-Keeps g.phev g refl) (IsKept-self g))))))))

  -- Before the first handlePhev there is no client: a message that switches the connection off, or
  -- restarts it, stops the program.
  pub handle_incoming-no_client :
      (payload : List ℕ) (replies : List (List Event)) (g : Gateway)
      → g.phev ≡ none
      → (to_lower payload ≡ codes "off") ⊎ (to_lower payload ≡ codes "restart")
      → handle_incoming to_lower (g.bridge.prefix ++ codes "/connection") payload replies g
        ≡ stopped
  unfolding handle_incoming topic connection_command switch_off restart has_prefix same_text
  handle_incoming-no_client payload replies g e (inl off) =
      rw
        (
          has_prefix-both g.bridge.prefix (codes "/connection") (codes "/set/register/"),
          same_text_self (g.bridge.prefix ++ codes "/connection"),
          off,
          e,
        )
        refl
  handle_incoming-no_client payload replies g e (inr again) =
      rw
        (
          has_prefix-both g.bridge.prefix (codes "/connection") (codes "/set/register/"),
          same_text_self (g.bridge.prefix ++ codes "/connection"),
          again,
          e,
        )
        refl
