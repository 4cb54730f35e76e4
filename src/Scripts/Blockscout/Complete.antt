-- ===== src/Scripts/Blockscout/Complete.antt =====
-- A run of orbitVerifyOnBlockscout.ts makes all its requests.
use token_bridge_contracts.Base.{◌≡◌, refl, none, some, [], ◌∷◌, codes, Text, if◌then◌else◌}
use token_bridge_contracts.Scripts.Chain.{Net, L2Deployment}
use token_bridge_contracts.Scripts.Monad.{World, pure, ◌>>◌}
use token_bridge_contracts.Scripts.Triples.{
  After, After-fail_if, After-view, After-or_fail, After-weaken,
}
use token_bridge_contracts.Scripts.Usdc.{is_set}
use token_bridge_contracts.Scripts.Usdc.Setup.{Anywhere}
use token_bridge_contracts.Scripts.Blockscout.{
  verify_contract, verify_logic, verify_special_cases, verify_on_blockscout,
}
use token_bridge_contracts.Scripts.Blockscout.Requests.{all_requests, LogicOf, Requested}
use token_bridge_contracts.Scripts.Blockscout.Steps.{
  After-Requested, After-logic, After-key, AllRequested, Finished,
}

module _ (n : Net) (w : World) where
  started : Requested n w [] w
  unfolding Requested
  started = (refl, refl)

  module _ (no_empty : n.wallet_address [] ≡ none) (key a : Text)
      (owned : n.wallet_address key ≡ some a) (creator inbox factory beacon token : Text)
      (l2 : L2Deployment) (creator_set : n.env_var (codes "L1_TOKEN_BRIDGE_CREATOR") ≡ some creator)
      (inbox_set : n.env_var (codes "INBOX_ADDRESS") ≡ some inbox)
      (factory_found : n.canonical_l2_factory_address w.txs creator ≡ some factory)
      (l2_found : n.l2_deployment w.txs creator inbox ≡ some l2)
      (beacon_found : n.beacon w.txs l2.beacon_proxy_factory ≡ some beacon)
      (token_found : n.implementation w.txs beacon ≡ some token) where
    After-requests :
        After Anywhere
          (λ _. AllRequested n w)
          ((do
            verify_contract n (codes "L2AtomicTokenBridgeFactory") factory [] none
            verify_contract n
                (codes "TransparentUpgradeableProxy")
                l2.router
                (factory ∷ l2.proxy_admin ∷ codes "0x" ∷ [])
                none
            verify_logic n (codes "L2GatewayRouter") l2.router
            verify_logic n (codes "L2ERC20Gateway") l2.standard_gateway
            verify_logic n (codes "L2CustomGateway") l2.custom_gateway
            verify_logic n (codes "L2WethGateway") l2.weth_gateway
            verify_contract n (codes "BeaconProxyFactory") l2.beacon_proxy_factory [] none
            verify_contract n (codes "UpgradeableBeacon") beacon (token ∷ []) none
            verify_contract n (codes "StandardArbERC20") token [] none
            verify_contract n (codes "ArbMulticall2") l2.multicall [] none
            verify_contract n (codes "ProxyAdmin") l2.proxy_admin [] none
            if is_set (some key) then verify_special_cases n else pure tt)
            w)
    After-requests =
        let P = λ (_ : Unit {0}). AllRequested n w in
        After-Requested n w P _ _ _ _ _ w started λ w1 h.
          After-Requested n w P _ _ _ _ _ w1 h λ w1 h.
            After-logic n w P _ _ _ _ w1 h λ router w1 router_logic h.
              After-logic n w P _ _ _ _ w1 h λ standard w1 standard_logic h.
                After-logic n w P _ _ _ _ w1 h λ custom w1 custom_logic h.
                  After-logic n w P _ _ _ _ w1 h λ weth w1 weth_logic h.
                    After-Requested n w P _ _ _ _ _ w1 h λ w1 h.
                      After-Requested n w P _ _ _ _ _ w1 h λ w1 h.
                        After-Requested n w P _ _ _ _ _ w1 h λ w1 h.
                          After-Requested n w P _ _ _ _ _ w1 h λ w1 h.
                            After-Requested n w P _ _ _ _ _ w1 h λ w1 h.
                              finished router standard custom weth router_logic standard_logic
                                custom_logic weth_logic w1 h
      where
        finished :
            (router standard custom weth : Text)
            → LogicOf n w l2.router router
            → LogicOf n w l2.standard_gateway standard
            → LogicOf n w l2.custom_gateway custom
            → LogicOf n w l2.weth_gateway weth
            → (w1 : World)
            → Requested n w (all_requests factory beacon token router standard custom weth l2) w1
            → After Anywhere
                (λ _. AllRequested n w)
                ((if is_set (some key) then verify_special_cases n else pure tt) w1)
        finished router standard custom weth router_logic standard_logic custom_logic weth_logic w1
              h =
            let requests = all_requests factory beacon token router standard custom weth l2 in
            let m = (if is_set (some key) then verify_special_cases n else pure tt) w1 in
            After-weaken Anywhere Anywhere (λ _. Finished n w requests w.txs)
              (λ _. AllRequested n w) m.0 m.1 (λ w' u. u)
              (λ _ w' f. (
                factory,
                beacon,
                token,
                router,
                standard,
                custom,
                weth,
                l2,
                record {
                  creator = creator;
                  inbox = inbox;
                  creator_set = creator_set;
                  inbox_set = inbox_set;
                  factory_found = factory_found;
                  deployment_found = l2_found;
                  beacon_found = beacon_found;
                  token_found = token_found;
                  router_logic = router_logic;
                  standard_logic = standard_logic;
                  custom_logic = custom_logic;
                  weth_logic = weth_logic;
                },
                f,
              ))
              (After-key n w key a requests w1 no_empty owned h)

  -- A run that returns has made thirteen requests in this order, whatever the explorer answered to
  -- each: one per contract of the child chain, a proxy with its constructor arguments and the logic
  -- of every gateway as its proxy's slot says, and one for a dummy each of aeWETH and of the
  -- executor, the only transactions. A wallet cannot be made from an empty key.
  pub verify_on_blockscout_lem :
      n.wallet_address [] ≡ none → After Anywhere (λ _. AllRequested n w) (verify_on_blockscout n w)
  unfolding verify_on_blockscout
  verify_on_blockscout_lem no_empty =
      let P = λ (_ : Unit {0}). AllRequested n w in
      After-fail_if Anywhere P _ _ _ w tt λ _.
        After-or_fail Anywhere P (n.env_var (codes "L1_TOKEN_BRIDGE_CREATOR")) _ _ w tt
          λ creator creator_set.
            After-or_fail Anywhere P (n.env_var (codes "INBOX_ADDRESS")) _ _ w tt λ inbox inbox_set.
              After-or_fail Anywhere P (n.env_var (codes "DEPLOYER_KEY")) _ _ w tt λ key has_key.
                After-or_fail Anywhere P (n.wallet_address key) _ _ w tt λ a owned.
                  After-view Anywhere P (λ txs. n.canonical_l2_factory_address txs creator) _ w tt
                    λ factory factory_found.
                      After-view Anywhere P (λ txs. n.l2_deployment txs creator inbox) _ w tt
                        λ l2 l2_found.
                          After-view Anywhere P (λ txs. n.beacon txs l2.beacon_proxy_factory) _ w tt
                            λ beacon beacon_found.
                              After-view Anywhere P (λ txs. n.implementation txs beacon) _ w tt
                                λ token token_found.
                                  After-view Anywhere P n.child_chain_id _ w tt λ _ _.
                                    After-requests no_empty key a owned creator inbox factory beacon
                                      token l2 creator_set inbox_set factory_found l2_found
                                      beacon_found token_found
