-- ===== src/Scripts/Networks/Unsent.antt =====
-- Telling the SDK about a chain sends nothing.
use token_bridge_contracts.Base.{ℕ, ◌≡◌, Bool, true, false, ◌∷◌, Text, if◌then◌else◌}
use token_bridge_contracts.Scripts.Chain.{Net, Network}
use token_bridge_contracts.Scripts.Monad.{
  World, done, failed, register_network, network_refused, type_error,
}
use token_bridge_contracts.Scripts.Triples.{After, After-bind, After-view, After-or_fail}
use token_bridge_contracts.Scripts.Networks.{
  register_networks_of_inbox, register_networks, read_network,
}

module _ (n : Net) (w : World) where
  -- nothing was sent and nothing verified
  abbrev pub Unsent : World → Type 0
  Unsent w' = (w'.txs ≡ w.txs) × (w'.commands ≡ w.commands)

  After-Unsent_registration :
      (network : Network) (w1 : World)
      → Unsent w1
      → After Unsent (λ _. Unsent) (register_network n network w1)
  unfolding register_network
  After-Unsent_registration network w1 h = go (n.registers w1.networks network)
    where
      go :
          (b : Bool)
          → After Unsent
              (λ _. Unsent)
              (if b
                then (done tt, record w1 { networks = network ∷ w1.networks })
                else (failed network_refused, w1))
      go true = h
      go false = h

  After-Unsent_read :
      (l1 l2 : ℕ) (rollup : Text) (w1 : World)
      → Unsent w1
      → After Unsent (λ _. Unsent) (read_network n l1 l2 rollup w1)
  unfolding read_network
  After-Unsent_read l1 l2 rollup w1 h =
      let P = λ (_ : Network). Unsent in
      After-view Unsent P (λ txs. n.confirm_period_blocks txs rollup) _ w1 h
        λ period _. After-or_fail Unsent P _ type_error _ w1 h λ blocks _.
          After-view Unsent P (λ txs. n.rollup_bridge txs rollup) _ w1 h
            λ bridge _.
              After-view Unsent P (λ txs. n.inbox txs rollup) _ w1 h
                λ inbox _.
                  After-view Unsent P (λ txs. n.rollup_outbox txs rollup) _ w1 h
                    λ outbox _.
                      After-view Unsent P (λ txs. n.rollup_sequencer_inbox txs rollup) _ w1 h
                        λ sequencer _. h

  pub After-Unsent_networks :
      (rollup : Text) (w1 : World)
      → Unsent w1
      → After Unsent (λ _. Unsent) (register_networks n rollup w1)
  unfolding register_networks
  After-Unsent_networks rollup w1 h =
      let P = λ (_ : Network). Unsent in
      After-view Unsent P n.chain_id _ w1 h λ l1 _.
        After-view Unsent P n.child_chain_id _ w1 h λ l2 _.
          After-bind Unsent P _ (λ _. Unsent) (read_network n l1 l2 rollup) w1
            (After-Unsent_read l1 l2 rollup w1 h)
            λ network w2 h2.
              After-bind Unsent P _ (λ _. Unsent) (register_network n network) w2
                (After-Unsent_registration network w2 h2) λ _ w3 h3. h3

  pub After-Unsent_networks_of_inbox :
      (inbox : Text) (w1 : World)
      → Unsent w1
      → After Unsent (λ _. Unsent) (register_networks_of_inbox n inbox w1)
  unfolding register_networks_of_inbox
  After-Unsent_networks_of_inbox inbox w1 h =
      let P = λ (_ : Network). Unsent in
      After-view Unsent P n.chain_id _ w1 h λ l1 _.
        After-view Unsent P n.child_chain_id _ w1 h λ l2 _.
          After-view Unsent P (λ txs. n.bridge txs inbox) _ w1 h
            λ bridge _.
              After-view Unsent P (λ txs. n.bridge_rollup txs bridge) _ w1 h
                λ rollup _.
                  After-bind Unsent P _ (λ _. Unsent) (read_network n l1 l2 rollup) w1
                    (After-Unsent_read l1 l2 rollup w1 h)
                    λ network w2 h2.
                      After-bind Unsent P _ (λ _. Unsent) (register_network n network) w2
                        (After-Unsent_registration network w2 h2) λ _ w3 h3. h3
