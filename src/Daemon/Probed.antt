-- ===== src/Daemon/Probed.antt =====
-- What a tick of the network manager, payment-daemon/src/network_manager.rs, leaves in the shared state.
use iso8583paymentsengine.Base.{
  ℕ, ◌≡◌, ◌≢◌, refl, sym, ap, ◌∙◌, Bool, true, false, Option, none, some, List, [], ◌∷◌, ◌++◌, ◌||◌,
  if◌then◌else◌, if_cases, option_cases, Bool-cases, Option-cases, inl, inr, arith,
}
use iso8583paymentsengine.Base.Text.{Bytes, bytes_eq, bytes_eq_iff}
use iso8583paymentsengine.Base.Dict.{
  Dict, lookup, insert, contains_key, lookup-insert, lookup-insert_self, lookup-insert_ne, IsDict,
}
use iso8583paymentsengine.Switch.State.{Engine, TransactionContext, send_to}
use iso8583paymentsengine.Daemon.NetworkManager.{
  probe_context, set_health, probe_node, probe_nodes, keys, tick,
}

module _ (takes : Bytes → Bool) (clock : Bytes → ℕ) where
  -- The channel of a node with the probe behind what it held, if it takes one.
  abbrev pub probed : Bytes → Option (List TransactionContext) → Option (List TransactionContext)
  probed n none = none
  probed n (some q) = some (if takes n then q ++ probe_context (clock n) ∷ [] else q)

  probed_taken :
      (n : Bytes) (o : Option (List TransactionContext))
      → takes n ≡ true
      → elim o [ none ↦ none | some q ↦ some (q ++ probe_context (clock n) ∷ []) ] ≡ probed n o
  probed_taken n none e = refl
  probed_taken n (some q) e = rw e refl

  probed_refused :
      (n : Bytes) (o : Option (List TransactionContext)) → takes n ≡ false → o ≡ probed n o
  probed_refused n none e = refl
  probed_refused n (some q) e = rw e refl

  health-send_to :
      (m : Bytes) (c : TransactionContext) (s : Engine)
      → (send_to m c s).node_health ≡ s.node_health
  unfolding send_to
  health-send_to m c s =
      option_cases (λ (u : Engine). u.node_health ≡ s.node_health) (lookup m s.egress_channels)
        (λ _. refl) (λ q _. refl)

  health-probe_node :
      (n m : Bytes) (s : Engine)
      → lookup n (probe_node takes clock m s).node_health
        ≡ (if bytes_eq n m then some (takes m) else lookup n s.node_health)
  unfolding probe_node set_health
  health-probe_node n m s =
      let P : Engine → Type 0 = λ u.
        lookup n u.node_health
        ≡ (if bytes_eq n m then some (takes m) else lookup n s.node_health) in
      if_cases P (takes m)
        (λ yes_m.
          ap (λ d. lookup n (insert m true d)) (health-send_to m (probe_context (clock m)) s)
          ∙ (lookup-insert n m true s.node_health
              ∙ ap (λ b. if bytes_eq n m then some b else lookup n s.node_health) (sym yes_m)))
        (λ no_m.
          lookup-insert n m false s.node_health
          ∙ ap (λ b. if bytes_eq n m then some b else lookup n s.node_health) (sym no_m))

  channels-send_to_self :
      (n : Bytes) (c : TransactionContext) (s : Engine)
      → lookup n (send_to n c s).egress_channels
        ≡ elim (lookup n s.egress_channels) [ none ↦ none | some q ↦ some (q ++ c ∷ []) ]
  unfolding send_to
  channels-send_to_self n c s = elim (Option-cases (lookup n s.egress_channels)) [
    | inl e ↦ rw (e, send_to) e
    | inr (q, e) ↦ rw (e, send_to) (lookup-insert_self n (q ++ c ∷ []) s.egress_channels)
  ]

  channels-send_to_ne :
      (n m : Bytes) (c : TransactionContext) (s : Engine)
      → n ≢ m
      → lookup n (send_to m c s).egress_channels ≡ lookup n s.egress_channels
  unfolding send_to
  channels-send_to_ne n m c s h =
      option_cases (λ (u : Engine). lookup n u.egress_channels ≡ lookup n s.egress_channels)
        (lookup m s.egress_channels) (λ _. refl)
        (λ q _. lookup-insert_ne n m (q ++ c ∷ []) s.egress_channels h)

  channels-probe_node_self :
      (n : Bytes) (s : Engine)
      → lookup n (probe_node takes clock n s).egress_channels
        ≡ probed n (lookup n s.egress_channels)
  unfolding probe_node set_health
  channels-probe_node_self n s =
      let old = lookup n s.egress_channels in
      if_cases (λ (u : Engine). lookup n u.egress_channels ≡ probed n old) (takes n)
        (λ e. channels-send_to_self n (probe_context (clock n)) s ∙ probed_taken n old e)
        (λ e. probed_refused n old e)

  channels-probe_node_ne :
      (n m : Bytes) (s : Engine)
      → n ≢ m
      → lookup n (probe_node takes clock m s).egress_channels ≡ lookup n s.egress_channels
  unfolding probe_node set_health
  channels-probe_node_ne n m s h =
      if_cases (λ (u : Engine). lookup n u.egress_channels ≡ lookup n s.egress_channels) (takes m)
        (λ _. channels-send_to_ne n m (probe_context (clock m)) s h) (λ _. refl)

  -- The nodes of a list, which names none twice.
  abbrev pub listed : Bytes → List Bytes → Bool
  listed n [] = false
  listed n (m ∷ ns) = bytes_eq n m || listed n ns

  abbrev pub IsDistinct : List Bytes → Type 0
  IsDistinct [] = Unit
  IsDistinct (m ∷ ns) = (listed m ns ≡ false) × IsDistinct ns

  health-probe_nodes :
      (n : Bytes) (ns : List Bytes) (s : Engine)
      → lookup n (probe_nodes takes clock ns s).node_health
        ≡ (if listed n ns then some (takes n) else lookup n s.node_health)
  unfolding probe_nodes
  health-probe_nodes n [] s = refl
  health-probe_nodes n (m ∷ ns) s = ground (
    arith,
    health-probe_nodes n ns (probe_node takes clock m s),
    health-probe_node n m s,
    bytes_eq_iff n m,
  )

  channels-probe_nodes :
      (n : Bytes) (ns : List Bytes) (s : Engine)
      → IsDistinct ns
      → lookup n (probe_nodes takes clock ns s).egress_channels ≡ (
          if listed n ns then probed n (lookup n s.egress_channels) else lookup n s.egress_channels)
  unfolding probe_nodes
  channels-probe_nodes n [] s d = refl
  channels-probe_nodes n (m ∷ ns) s d =
      let rest = channels-probe_nodes n ns (probe_node takes clock m s) d.1 in
      elim (Bool-cases (bytes_eq n m)) [
        | inl e ↦
            let p : n ≡ m = (bytes_eq_iff n m).0 e in
            let off : listed n ns ≡ false = ap (λ k. listed k ns) p ∙ d.0 in
            let here : lookup n (probe_node takes clock m s).egress_channels
                ≡ probed n (lookup n s.egress_channels) =
              ap (λ k. lookup n (probe_node takes clock k s).egress_channels) (sym p)
              ∙ channels-probe_node_self n s in
            let u = lookup n (probe_node takes clock m s).egress_channels in
            rw e (rest ∙ (ap (λ b. if b then probed n u else u) off ∙ here))
        | inr e ↦
            let ne : n ≢ m = λ p. ground (arith, bytes_eq_iff n m) in
            rw e (
              rest
              ∙ ap (λ o. if listed n ns then probed n o else o) (channels-probe_node_ne n m s ne))
      ]

  listed-keys : {V : Type 0} (n : Bytes) (d : Dict V) → listed n (keys d) ≡ contains_key n d
  unfolding contains_key lookup
  listed-keys n [] = refl
  listed-keys n ((k, v) ∷ d) = ground (arith, listed-keys n d)

  keys-IsDistinct : {V : Type 0} (d : Dict V) → IsDict d → IsDistinct (keys d)
  unfolding contains_key
  keys-IsDistinct [] h = tt
  keys-IsDistinct ((k, v) ∷ d) h =
      (listed-keys k d ∙ rw (h.0, contains_key) refl, keys-IsDistinct d h.1)

  probed_known :
      (n : Bytes) (d : Dict (List TransactionContext))
      → (if contains_key n d then probed n (lookup n d) else lookup n d) ≡ probed n (lookup n d)
  unfolding contains_key
  probed_known n d = elim (Option-cases (lookup n d)) [
    | inl e ↦ rw (e, contains_key) refl
    | inr (q, e) ↦ rw (e, contains_key) refl
  ]

  -- One tick, on channels that no two nodes share: each node with a channel is online from then on
  -- exactly if its channel takes the probe, and a node without one keeps its health; the channels that take
  -- it hold one probe more, at their end, and the others what they held.
  pub tick-probed :
      (n : Bytes) (s : Engine)
      → IsDict s.egress_channels
      → (lookup n (tick takes clock s).node_health
          ≡ (if contains_key n s.egress_channels then some (takes n) else lookup n s.node_health))
        × (lookup n (tick takes clock s).egress_channels ≡ probed n (lookup n s.egress_channels))
  unfolding tick
  tick-probed n s h =
      let ns = keys s.egress_channels in
      let old = lookup n s.egress_channels in
      let known = listed-keys n s.egress_channels in
      (
        health-probe_nodes n ns s
            ∙ ap (λ b. if b then some (takes n) else lookup n s.node_health) known,
        channels-probe_nodes n ns s (keys-IsDistinct s.egress_channels h)
            ∙ (ap (λ b. if b then probed n old else old) known ∙ probed_known n s.egress_channels),
      )
