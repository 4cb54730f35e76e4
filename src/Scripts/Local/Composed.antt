-- ===== src/Scripts/Local/Composed.antt =====
-- What a local deployment consists of.
use token_bridge_contracts.Base.{ℕ, ◌≡◌, refl, false, some, [], codes, Text}
use token_bridge_contracts.Scripts.Chain.{GasParams, Net, Network}
use token_bridge_contracts.Scripts.Monad.{World, pure, register_network, ◌>>=◌, ◌>>◌}
use token_bridge_contracts.Scripts.Triples.{
  After, After-bind, After-view, After-or_fail, After-weaken,
}
use token_bridge_contracts.Scripts.Usdc.{address_zero}
use token_bridge_contracts.Scripts.Usdc.Setup.{Anywhere}
use token_bridge_contracts.Scripts.Usdc.Main.Steps.{After-nothing}
use token_bridge_contracts.Scripts.Creator.{Deployment, Ticket, create_token_bridge}
use token_bridge_contracts.Scripts.Creator.Payment.{
  Estimated, Created, Recorded, create_token_bridge_lem,
}
use token_bridge_contracts.Scripts.Templates.{deploy_l1_token_bridge_creator}
use token_bridge_contracts.Scripts.Templates.Verified.{
  Deployed, SetOrRefused, deploy_l1_token_bridge_creator_lem,
}
use token_bridge_contracts.Scripts.Entry.{token_bridge_of, get_estimate_for_deploying_factory}
use token_bridge_contracts.Scripts.Local.{
  LocalSetup, or_text, localhost_l3_owner_key, get_local_network, weth_or_deploy,
  register_weth_gateway, set_up_token_bridge_in_local_env,
}
use token_bridge_contracts.Scripts.Local.Parts.{
  WethOf, given_weth, After-weth, WethRegistered, no_weth_gateway, After-weth_gateway,
}

module _ (n : Net) where
  -- What has happened, with the worlds in between.
  pub record LocalReady (setup : LocalSetup) (end : World) : Type 0 where
    pub rollup_owner : Text
    pub weth : Text
    pub limit : ℕ
    pub ticket : Ticket
    pub deployment : Deployment
    pub start : World
    pub with_weth : World
    pub with_creator : World
    pub with_bridge : World
    pub owner_owned :
        n.wallet_address (or_text (n.env_var (codes "ROLLUP_OWNER_KEY")) localhost_l3_owner_key)
        ≡ some rollup_owner
    pub weth_known : WethOf n (given_weth n) weth start with_weth
    pub limit_estimated :
        (params : GasParams) × (n.estimate_all with_weth.txs [] address_zero ≡ some params)
        × (limit ≡ params.gas_limit)
    pub creator_deployed :
        Deployed n with_weth weth limit false (setup.creator, setup.sender) with_creator
    pub ticket_estimated :
        Estimated n setup.creator setup.network.eth_bridge.rollup with_creator ticket
    pub bridge_created : Created n setup.creator rollup_owner ticket with_creator.txs with_bridge
    pub bridge_recorded : Recorded n setup.creator ticket.inbox deployment with_bridge.txs
    pub bridge_returned : setup.token_bridge ≡ record {
      parent_custom_gateway = deployment.l1_deployment.custom_gateway;
      parent_erc20_gateway = deployment.l1_deployment.standard_gateway;
      parent_gateway_router = deployment.l1_deployment.router;
      parent_multi_call = deployment.l1_multicall;
      parent_proxy_admin = deployment.l1_proxy_admin;
      parent_weth = deployment.l1_deployment.weth;
      parent_weth_gateway = deployment.l1_deployment.weth_gateway;
      child_custom_gateway = deployment.l2_deployment.custom_gateway;
      child_erc20_gateway = deployment.l2_deployment.standard_gateway;
      child_gateway_router = deployment.l2_deployment.router;
      child_multi_call = deployment.l2_deployment.multicall;
      child_proxy_admin = deployment.l2_deployment.proxy_admin;
      child_weth = deployment.l2_deployment.weth;
      child_weth_gateway = deployment.l2_deployment.weth_gateway;
    }
    pub weth_registered :
        WethRegistered n
          (no_weth_gateway n deployment)
          setup.network.eth_bridge.rollup
          weth
          deployment
          with_bridge
          end

  abbrev EstimatedLimit : World → ℕ → World → Type 0
  EstimatedLimit w limit w' =
      (w' ≡ w)
      × ((params : GasParams) × (n.estimate_all w.txs [] address_zero ≡ some params)
          × (limit ≡ params.gas_limit))

  After-estimate :
      (w : World) → After Anywhere (EstimatedLimit w) (get_estimate_for_deploying_factory n w)
  unfolding get_estimate_for_deploying_factory
  After-estimate w =
      After-view Anywhere (EstimatedLimit w) (λ txs. n.estimate_all txs [] address_zero) _ w tt
        λ params has. (refl, (params, has, refl))

  After-creator :
      (weth : Text) (limit : ℕ) (w : World)
      → After Anywhere
          (Deployed n w weth limit false)
          (deploy_l1_token_bridge_creator n weth limit false w)
  After-creator weth limit w =
      let m = deploy_l1_token_bridge_creator n weth limit false w in
      After-weaken (SetOrRefused n w weth limit) Anywhere (Deployed n w weth limit false) _ m.0 m.1
        (λ w' h. tt) (λ a w' h. h) (deploy_l1_token_bridge_creator_lem n weth limit false w)

  module _ (network : Network) (rollup_owner weth : Text) (w1 w2 : World) where
    After-set_up :
        n.wallet_address (or_text (n.env_var (codes "ROLLUP_OWNER_KEY")) localhost_l3_owner_key)
          ≡ some rollup_owner
        → WethOf n (given_weth n) weth w1 w2
        → After Anywhere LocalReady (
            (do
              gas_limit ← get_estimate_for_deploying_factory n
              (creator, sender) ← deploy_l1_token_bridge_creator n weth gas_limit false
              d ← create_token_bridge n creator network.eth_bridge.rollup rollup_owner
              register_weth_gateway n network.eth_bridge.rollup weth d
              pure (record {
                network = network;
                token_bridge = token_bridge_of d;
                creator = creator;
                sender = sender;
              }))
              w2)
    unfolding token_bridge_of
    After-set_up owned of =
        let P = LocalReady in
        After-bind Anywhere P _ (EstimatedLimit w2) (get_estimate_for_deploying_factory n) w2
          (After-estimate w2)
          λ limit w2' estimated. rw (estimated.0) (
            After-bind Anywhere P _ (Deployed n w2 weth limit false)
              (deploy_l1_token_bridge_creator n weth limit false) w2 (After-creator weth limit w2)
              λ made w3 deployed.
                After-bind Anywhere P _
                  (λ d w'.
                    (t : Ticket) × Estimated n (made.0) network.eth_bridge.rollup w3 t
                    × Created n (made.0) rollup_owner t w3.txs w'
                    × Recorded n (made.0) t.inbox d w'.txs)
                  (create_token_bridge n (made.0) network.eth_bridge.rollup rollup_owner) w3
                  (create_token_bridge_lem n (made.0) network.eth_bridge.rollup rollup_owner w3)
                  λ d w4 bridge.
                    After-bind Anywhere P _
                      (λ _.
                        WethRegistered n (no_weth_gateway n d) network.eth_bridge.rollup weth d w4)
                      (register_weth_gateway n network.eth_bridge.rollup weth d) w4
                      (After-weth_gateway n network.eth_bridge.rollup weth d w4)
                      λ _ end registered. record {
                        rollup_owner = rollup_owner;
                        weth = weth;
                        limit = limit;
                        ticket = bridge.0;
                        deployment = d;
                        start = w1;
                        with_weth = w2;
                        with_creator = w3;
                        with_bridge = w4;
                        owner_owned = owned;
                        weth_known = of;
                        limit_estimated = estimated.1;
                        creator_deployed = deployed;
                        ticket_estimated = bridge.1;
                        bridge_created = bridge.2;
                        bridge_recorded = bridge.3;
                        bridge_returned = refl;
                        weth_registered = registered;
                      })

  -- If the local deployment returns, the bridge of the rollup was created, for the owner of the key
  -- in use, by the creator that was just deployed, with the wrapped ether of the environment or one
  -- that was just created, and with the gas limit of an estimate; the addresses that it returns are
  -- those that this creator and the inbox then say, each in its field; and the registration of the gateway of the wrapped ether,
  -- sent to the owner of the rollup, was redeemed, unless there is no such gateway.
  pub set_up_token_bridge_in_local_env_lem :
      (w : World) → After Anywhere LocalReady (set_up_token_bridge_in_local_env n w)
  unfolding set_up_token_bridge_in_local_env
  set_up_token_bridge_in_local_env_lem w =
      let P = LocalReady in
      After-or_fail Anywhere P (n.wallet_address _) _ _ w tt λ rollup_owner owned.
        After-or_fail Anywhere P (n.wallet_address _) _ _ w tt λ _ _.
          After-or_fail Anywhere P (n.wallet_address _) _ _ w tt λ _ _.
            After-bind Anywhere P _ (λ _ _. Unit)
              (get_local_network n (n.env_var (codes "ROLLUP_ADDRESS"))) w
              (After-nothing n (get_local_network n (n.env_var (codes "ROLLUP_ADDRESS"))) w)
              λ network w0 _.
                After-bind Anywhere P _ (λ _ _. Unit) (register_network n network) w0
                  (After-nothing n (register_network n network) w0)
                  λ _ w1 _.
                    After-bind Anywhere P _ (λ weth. WethOf n (given_weth n) weth w1)
                      (weth_or_deploy n (given_weth n)) w1 (After-weth n (given_weth n) w1)
                      λ weth w2 of. After-set_up network rollup_owner weth w1 w2 owned of
