-- ===== src/Scripts/Templates.antt =====
-- `deployL1TokenBridgeCreator` of scripts/atomicTokenBridgeDeployer.ts: the creator and its
-- retryable sender behind proxies, the templates that the creator clones, which are initialized
-- with dummy data, and `setTemplates`.
pub mod Wired
pub mod Verified
pub mod Returns
use token_bridge_contracts.Base.{ℕ, Bool, some, none, List, [], ◌∷◌, codes, Text, if◌then◌else◌}
use token_bridge_contracts.Scripts.Chain.{
  Call, Net, L1Templates, set_templates, arb_multicall2_factory, proxy_admin_factory,
  token_bridge_creator_factory, retryable_sender_factory, l1_gateway_router_factory,
  l1_erc20_gateway_factory, l1_custom_gateway_factory, l1_weth_gateway_factory,
  l1_orbit_gateway_router_factory, l1_orbit_erc20_gateway_factory, l1_orbit_custom_gateway_factory,
  upgrade_executor_factory, l2_token_bridge_factory, l2_gateway_router_factory,
  l2_erc20_gateway_factory, l2_custom_gateway_factory, l2_weth_gateway_factory, ae_weth_factory,
  multicall2_factory,
}
use token_bridge_contracts.Scripts.Monad.{Script, pure, view, send, ◌>>=◌, ◌>>◌}
use token_bridge_contracts.Scripts.Verifier.{
  ContractVerifier, new_contract_verifier, verify_with_address,
}
use token_bridge_contracts.Scripts.Creations.{initialization, deploy, deploy_template, deploy_proxy}

abbrev pub address_dead : Text
address_dead = codes "0x000000000000000000000000000000000000dEaD"

-- `hexZeroPad('0x01', 32)`
abbrev pub padded_one : Text
padded_one = codes "0x0000000000000000000000000000000000000000000000000000000000000001"

-- The contracts of the creator.
pub record CreatorContracts : Type 0 where
  pub multicall_for_l2 : Text
  pub admin : Text
  pub creator_logic : Text
  pub creator : Text
  pub sender_logic : Text
  pub sender : Text

-- The contracts of the child chain, which are placed on the parent chain, and the multicall.
pub record L2Templates : Type 0 where
  pub token_bridge_factory : Text
  pub gateway_router : Text
  pub standard_gateway : Text
  pub custom_gateway : Text
  pub weth_gateway : Text
  pub weth : Text
  pub l1_multicall : Text

pub record AllTemplates : Type 0 where
  pub creator_contracts : CreatorContracts
  pub l1 : L1Templates
  pub l2 : L2Templates

abbrev pub set_templates_call : AllTemplates → Text → ℕ → Call
set_templates_call t l1_weth gas_limit = record {
  to = t.creator_contracts.creator;
  value = 0;
  calldata =
      set_templates t.l1
        (t.l2.token_bridge_factory ∷ t.l2.gateway_router ∷ t.l2.standard_gateway
          ∷ t.l2.custom_gateway ∷ t.l2.weth_gateway ∷ t.l2.weth
          ∷ t.creator_contracts.multicall_for_l2 ∷ l1_weth ∷ t.l2.l1_multicall ∷ [])
        gas_limit;
}

abbrev pub two_dead : List Text
two_dead = address_dead ∷ address_dead ∷ []

abbrev pub three_dead : List Text
three_dead = address_dead ∷ two_dead

abbrev pub four_dead : List Text
four_dead = address_dead ∷ three_dead

abbrev pub five_dead : List Text
five_dead = address_dead ∷ four_dead

-- the dummies of the gateways that take the hash of the token's creation code
abbrev pub hash_dummies : List Text
hash_dummies = address_dead ∷ address_dead ∷ address_dead ∷ padded_one ∷ address_dead ∷ []

module _ (n : Net) where
  unfoldable pub deploy_creator : Script CreatorContracts
  unfolding deploy deploy_proxy send
  deploy_creator = do
    multicall ← deploy n arb_multicall2_factory []
    admin ← deploy n proxy_admin_factory []
    creator_logic ← deploy n token_bridge_creator_factory []
    creator ← deploy_proxy n creator_logic admin
    sender_logic ← deploy n retryable_sender_factory []
    sender ← deploy_proxy n sender_logic admin
    send n (initialization sender_logic [])
    send n (initialization creator (sender ∷ []))
    pure (record {
      multicall_for_l2 = multicall;
      admin = admin;
      creator_logic = creator_logic;
      creator = creator;
      sender_logic = sender_logic;
      sender = sender;
    })

  unfoldable pub deploy_l1_templates : Script L1Templates
  unfolding deploy deploy_template
  deploy_l1_templates = do
    router ← deploy_template n l1_gateway_router_factory five_dead
    standard ← deploy_template n l1_erc20_gateway_factory hash_dummies
    custom ← deploy_template n l1_custom_gateway_factory four_dead
    weth ← deploy_template n l1_weth_gateway_factory five_dead
    orbit_router ← deploy_template n l1_orbit_gateway_router_factory five_dead
    orbit_standard ← deploy_template n l1_orbit_erc20_gateway_factory hash_dummies
    orbit_custom ← deploy_template n l1_orbit_custom_gateway_factory four_dead
    executor ← deploy n upgrade_executor_factory []
    pure (record {
      router_template = router;
      standard_gateway_template = standard;
      custom_gateway_template = custom;
      weth_gateway_template = weth;
      fee_token_based_router_template = orbit_router;
      fee_token_based_standard_gateway_template = orbit_standard;
      fee_token_based_custom_gateway_template = orbit_custom;
      upgrade_executor = executor;
    })

  unfoldable pub deploy_l2_templates : Script L2Templates
  unfolding deploy deploy_template
  deploy_l2_templates = do
    factory ← deploy n l2_token_bridge_factory []
    router ← deploy_template n l2_gateway_router_factory two_dead
    standard ← deploy_template n l2_erc20_gateway_factory three_dead
    custom ← deploy_template n l2_custom_gateway_factory two_dead
    weth_gateway ← deploy_template n l2_weth_gateway_factory four_dead
    weth ← deploy n ae_weth_factory []
    multicall ← deploy n multicall2_factory []
    pure (record {
      token_bridge_factory = factory;
      gateway_router = router;
      standard_gateway = standard;
      custom_gateway = custom;
      weth_gateway = weth_gateway;
      weth = weth;
      l1_multicall = multicall;
    })

  -- up to the verification
  unfoldable pub deploy_all_templates : (l1_weth : Text) → (gas_limit : ℕ) → Script AllTemplates
  unfolding deploy_creator deploy_l1_templates deploy_l2_templates send
  deploy_all_templates l1_weth gas_limit = do
    creator_contracts ← deploy_creator
    l1 ← deploy_l1_templates
    l2 ← deploy_l2_templates
    let t : AllTemplates = record { creator_contracts = creator_contracts; l1 = l1; l2 = l2 }
    send n (set_templates_call t l1_weth gas_limit)
    pure t

  unfoldable pub verify_templates : ContractVerifier → AllTemplates → Script Unit
  unfolding verify_with_address
  verify_templates v t =
      let c = t.creator_contracts in
      let l1 = t.l1 in
      let l2 = t.l2 in
      do
        verify_with_address v (codes "l1TokenBridgeCreatorProxyAdmin") c.admin none none
        verify_with_address v (codes "l1TokenBridgeCreatorLogic") c.creator_logic
            (some (n.abi_encode (c.multicall_for_l2 ∷ []))) none
        verify_with_address v (codes "l1TokenBridgeCreatorProxy") c.creator
            (some (n.abi_encode (c.creator_logic ∷ c.admin ∷ codes "0x" ∷ []))) none
        verify_with_address v (codes "retryableSenderLogic") c.sender_logic none none
        verify_with_address v (codes "retryableSenderProxy") c.sender
            (some (n.abi_encode (c.sender_logic ∷ c.admin ∷ codes "0x" ∷ []))) none
        verify_with_address v (codes "routerTemplate") l1.router_template none none
        verify_with_address v (codes "standardGatewayTemplate") l1.standard_gateway_template none
            none
        verify_with_address v (codes "customGatewayTemplate") l1.custom_gateway_template none none
        verify_with_address v (codes "wethGatewayTemplate") l1.weth_gateway_template none none
        verify_with_address v (codes "feeTokenBasedRouterTemplate")
            l1.fee_token_based_router_template none none
        verify_with_address v (codes "feeTokenBasedStandardGatewayTemplate")
            l1.fee_token_based_standard_gateway_template none none
        verify_with_address v (codes "feeTokenBasedCustomGatewayTemplate")
            l1.fee_token_based_custom_gateway_template none none
        verify_with_address v (codes "upgradeExecutor") l1.upgrade_executor (some []) (some 20000)
        verify_with_address v (codes "l2TokenBridgeFactoryOnL1") l2.token_bridge_factory none none
        verify_with_address v (codes "l2GatewayRouterOnL1") l2.gateway_router none none
        verify_with_address v (codes "l2StandardGatewayAddressOnL1") l2.standard_gateway none none
        verify_with_address v (codes "l2CustomGatewayAddressOnL1") l2.custom_gateway none none
        verify_with_address v (codes "l2WethGatewayAddressOnL1") l2.weth_gateway none none
        verify_with_address v (codes "l2WethAddressOnL1") l2.weth none none
        verify_with_address v (codes "l2MulticallAddressOnL1") c.multicall_for_l2 none none
        verify_with_address v (codes "l1Multicall") l2.l1_multicall none none

  -- the creator and the retryable sender
  unfoldable pub deploy_l1_token_bridge_creator :
      (l1_weth : Text) → (gas_limit : ℕ) → (verify_contracts : Bool) → Script (Text × Text)
  unfolding deploy_all_templates verify_templates
  deploy_l1_token_bridge_creator l1_weth gas_limit verify_contracts = do
    t ← deploy_all_templates l1_weth gas_limit
    if verify_contracts
        then (do
          id ← view n.chain_id
          verify_templates (new_contract_verifier id (n.env_var (codes "ARBISCAN_API_KEY"))) t)
        else pure tt
    pure (t.creator_contracts.creator, t.creator_contracts.sender)
