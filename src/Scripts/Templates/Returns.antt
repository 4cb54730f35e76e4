-- ===== src/Scripts/Templates/Returns.antt =====
-- When `deployL1TokenBridgeCreator` returns.
use token_bridge_contracts.Base.{ℕ, ◌≡◌, ◌≢◌, sym, ◌∙◌, inl, inr, true, false, none, List, Text}
use token_bridge_contracts.Scripts.Chain.{Call, Net}
use token_bridge_contracts.Scripts.Monad.{World, done}
use token_bridge_contracts.Scripts.Triples.{After-returns}
use token_bridge_contracts.Scripts.Templates.{deploy_l1_token_bridge_creator}
use token_bridge_contracts.Scripts.Templates.Verified.{
  SetOrRefused, Deployed, deploy_l1_token_bridge_creator_lem,
}

true≢false : true ≡ false → ⊥
true≢false h = cc

module _ (n : Net) where
  -- On a chain that mines every transaction and knows its id, `deployL1TokenBridgeCreator` returns
  -- from every world, with the templates set and all contracts handed to the verifier.
  pub deploy_l1_token_bridge_creator_returns :
      (l1_weth : Text) (gas_limit : ℕ) (w : World)
      → ((txs : List Call) (c : Call) → n.accepts txs c ≡ true)
      → ((txs : List Call) → n.chain_id txs ≢ none)
      → (addresses : Text × Text) × (w' : World) × (deploy_l1_token_bridge_creator n l1_weth
            gas_limit true w
          ≡ (done addresses, w'))
        × Deployed n w l1_weth gas_limit true addresses w'
  deploy_l1_token_bridge_creator_returns l1_weth gas_limit w accepted known =
      After-returns (SetOrRefused n w l1_weth gas_limit) (Deployed n w l1_weth gas_limit true)
        (deploy_l1_token_bridge_creator n l1_weth gas_limit true w)
        (deploy_l1_token_bridge_creator_lem n l1_weth gas_limit true w) never
    where
      refused : (txs : List Call) (c : Call) → n.accepts txs c ≡ false → ⊥
      refused txs c h = true≢false (sym (accepted txs c) ∙ h)

      never : (w' : World) → SetOrRefused n w l1_weth gas_limit w' → ⊥
      never w' (inl r) = refused w'.txs (r.1) (r.4)
      never w' (inr s) = known w'.txs (s.2)
