-- ===== src/Scripts/Local/Parts.antt =====
-- The parts of a local deployment: the wrapped ether and the registration of its gateway.
use token_bridge_contracts.Base.{
  ◌≡◌, refl, Bool, true, false, not, Option, none, some, List, [], ◌∷◌, codes, Text, text_eq,
  if◌then◌else◌,
}
use token_bridge_contracts.Scripts.Chain.{Net, test_weth9_factory}
use token_bridge_contracts.Scripts.Monad.{World, pure, view, ◌>>=◌}
use token_bridge_contracts.Scripts.Triples.{After, After-view, After-weaken}
use token_bridge_contracts.Scripts.Creations.{creation}
use token_bridge_contracts.Scripts.Creations.Rules.{After-created_last}
use token_bridge_contracts.Scripts.Usdc.{address_zero}
use token_bridge_contracts.Scripts.Usdc.Setup.{Anywhere}
use token_bridge_contracts.Scripts.Usdc.Main.Steps.{blocked}
use token_bridge_contracts.Scripts.Creator.{Deployment, register_gateway}
use token_bridge_contracts.Scripts.Creator.Linked.{Redeemed, Stopped, register_gateway_linked}
use token_bridge_contracts.Scripts.Local.{non_empty, weth_or_deploy, register_weth_gateway}

module _ (n : Net) where
  -- the token of the environment, or one that was just created
  abbrev pub WethOf : Option Text → Text → World → World → Type 0
  WethOf (some given) weth w w' = (weth ≡ given) × (w' ≡ w)
  WethOf none weth w w' =
      let c = creation test_weth9_factory (codes "WETH" ∷ codes "WETH" ∷ []) in
      (weth ≡ n.created w.txs c) × (w' ≡ record w { txs = c ∷ w.txs })

  abbrev pub given_weth : Option Text
  given_weth = non_empty (n.env_var (codes "PARENT_WETH_OVERRIDE"))

  pub After-weth :
      (o : Option Text) (w : World)
      → After Anywhere (λ weth. WethOf o weth w) (weth_or_deploy n o w)
  unfolding weth_or_deploy
  After-weth (some given) w = (refl, refl)
  After-weth none w =
      After-created_last n Anywhere (λ weth. WethOf none weth w) (blocked n) _ test_weth9_factory _
        w (refl, refl)

  -- Without a gateway nothing is sent, and with one the registration is redeemed.
  abbrev pub WethRegistered :
      (is_zero : Bool) → (rollup weth : Text) → Deployment → World → World → Type 0
  WethRegistered true rollup weth d w w' = w' ≡ w
  WethRegistered false rollup weth d w w' =
      (executor : Text) × (n.owner w.txs rollup ≡ some executor)
      × Redeemed n executor d.l1_deployment.router (weth ∷ []) (d.l1_deployment.weth_gateway ∷ []) w
          w'

  abbrev pub no_weth_gateway : Deployment → Bool
  no_weth_gateway d = text_eq d.l1_deployment.weth_gateway address_zero

  pub After-weth_gateway :
      (rollup weth : Text) (d : Deployment) (w : World)
      → After Anywhere
          (λ _. WethRegistered (no_weth_gateway d) rollup weth d w)
          (register_weth_gateway n rollup weth d w)
  unfolding register_weth_gateway
  After-weth_gateway rollup weth d w = go (no_weth_gateway d)
    where
      gateways : List Text
      gateways = d.l1_deployment.weth_gateway ∷ []

      go :
          (b : Bool)
          → After Anywhere
              (λ _. WethRegistered b rollup weth d w)
              ((if not b
                  then (do
                    executor ← view (λ txs. n.owner txs rollup)
                    register_gateway n executor d.l1_deployment.router
                        (weth ∷ [])
                        (d.l1_deployment.weth_gateway ∷ []))
                  else pure tt)
                w)
      go true = refl
      go false =
          After-view Anywhere (λ _. WethRegistered false rollup weth d w)
            (λ txs. n.owner txs rollup) _ w tt
            λ executor has.
              let m = register_gateway n executor d.l1_deployment.router (weth ∷ []) gateways w in
              After-weaken (Stopped n executor d.l1_deployment.router (weth ∷ []) gateways w)
                Anywhere (λ _. Redeemed n executor d.l1_deployment.router (weth ∷ []) gateways w) _
                m.0 m.1 (λ w' h. tt) (λ _ w' h. (executor, has, h))
                (register_gateway_linked n executor d.l1_deployment.router (weth ∷ []) gateways w)
