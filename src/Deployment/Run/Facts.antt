-- ===== src/Deployment/Run/Facts.antt =====
-- What a token bridge that is deployed as it should be looks like from the two chains, by what
-- belongs together and not by the order of the test.
use token_bridge_contracts.Base.{◌≡◌, ◌≢◌, ◌<◌, Bool, true, false, some, length, Text, to_lower}
use token_bridge_contracts.Scripts.Chain.{L1Deployment, L2Deployment}
use token_bridge_contracts.Scripts.Usdc.{address_zero}
use token_bridge_contracts.Deployment.Views.{
  Setting, Chain, View, passed, get_proxy_admin_of, get_logic_address, is_initialized,
  default_gateway, inbox, router, counterpart_gateway, l2_beacon_proxy_factory,
  beacon_proxy_factory, cloneable_proxy_hash, whitelist, l1_weth, l2_weth, l2_gateway, owner,
  beacon, implementation, admin_role, executor_role,
}
use token_bridge_contracts.Deployment.Alias.{apply_alias}
use token_bridge_contracts.Deployment.Parent.{RollupAddresses}
use token_bridge_contracts.Deployment.Run.Rules.{SameAddress, Reads, ReadsOther}

-- what holds of the answer of a view
abbrev pub At : Chain → (address : Text) → View → (Text → Type 0) → Type 0
At c address v P = (answer : Text) × (c.read address v ≡ some answer) × P answer

abbrev pub HasRole : Chain → (executor : Text) → View → (account : Text) → Type 0
HasRole c executor role account =
    At c executor role (λ the_role. c.has_role executor the_role account ≡ some true)

abbrev pub OwnerIs : Chain → (contract the_owner : Text) → Type 0
OwnerIs c contract the_owner = At c contract owner (λ actual. to_lower actual ≡ the_owner)

module _ (n : Setting) where
  abbrev pub AdminIs : Chain → (proxy admin : Text) → Type 0
  AdminIs c proxy admin = get_proxy_admin_of n c proxy ≡ passed admin

  abbrev pub IsInitialized : Chain → (contract : Text) → Type 0
  IsInitialized c contract = is_initialized n c contract ≡ passed true

  -- of the logic contract behind a proxy of the child chain
  abbrev pub OfLogic : (proxy : Text) → (Text → Type 0) → Type 0
  OfLogic proxy P = (logic : Text) × (get_logic_address n n.l2 proxy ≡ passed logic) × P logic

  abbrev pub LogicIsInitialized : (proxy : Text) → View → Type 0
  LogicIsInitialized proxy v =
      OfLogic proxy (λ logic. At n.l2 logic v (λ answer. answer ≢ address_zero))

  -- The executors' role on the child chain belongs to the rollup's owner, by its alias where it is
  -- a contract, and to the alias of the parent chain's executor.
  abbrev pub OwnerOnChild : (rollup_owner code account : Text) → Type 0
  OwnerOnChild rollup_owner code account =
      ((2 < length code) → apply_alias rollup_owner ≡ some account)
      × ((¬ (2 < length code)) → rollup_owner ≡ account)

  module _ (r : RollupAddresses) (d1 : L1Deployment) (d2 : L2Deployment) where
    -- Two gateways know each other and the routers of their chains.
    pub record ArePaired (g1 g2 : Text) : Type 0 where
      pub to_child : Reads n.l1 g1 counterpart_gateway g2
      pub to_parent : Reads n.l2 g2 counterpart_gateway g1
      pub parent_router : Reads n.l1 g1 router d1.router
      pub child_router : Reads n.l2 g2 router d2.router
      pub to_inbox : Reads n.l1 g1 inbox r.inbox

    -- So do the routers, which have no router themselves and know the standard gateways.
    pub record AreRouters : Type 0 where
      pub to_child : Reads n.l1 d1.router counterpart_gateway d2.router
      pub to_parent : Reads n.l2 d2.router counterpart_gateway d1.router
      pub no_parent_router : Reads n.l1 d1.router router address_zero
      pub no_child_router : Reads n.l2 d2.router router address_zero
      pub parent_default : Reads n.l1 d1.router default_gateway d1.standard_gateway
      pub child_default : Reads n.l2 d2.router default_gateway d2.standard_gateway
      pub to_inbox : Reads n.l1 d1.router inbox r.inbox

    -- The standard gateways agree, each asking the other, on where tokens of the child chain come
    -- from: the factory of their proxies, and the hash of a proxy. Their beacon belongs to the
    -- executor and stands for a logic contract that is initialized.
    pub record TokensAgree : Type 0 where
      pub parent_factory : At n.l1 d1.standard_gateway l2_beacon_proxy_factory (λ factory.
          At n.l1 d1.standard_gateway counterpart_gateway
            (λ g2. At n.l2 g2 beacon_proxy_factory (SameAddress factory)))
      pub parent_hash : At n.l1 d1.standard_gateway cloneable_proxy_hash (λ hash.
          At n.l1 d1.standard_gateway l2_beacon_proxy_factory
            (λ factory. At n.l2 factory cloneable_proxy_hash (SameAddress hash)))
      pub child_factory : At n.l2 d2.standard_gateway beacon_proxy_factory (λ factory.
          At n.l2 d2.standard_gateway counterpart_gateway
            (λ g1. At n.l1 g1 l2_beacon_proxy_factory (SameAddress factory)))
      pub child_hash : At n.l2 d2.standard_gateway cloneable_proxy_hash (λ hash.
          At n.l2 d2.standard_gateway counterpart_gateway
            (λ g1. At n.l1 g1 cloneable_proxy_hash (SameAddress hash)))
      pub beacon_owned : At n.l2 d2.standard_gateway beacon_proxy_factory (λ factory.
          At n.l2 factory beacon (λ the_beacon.
            At n.l2 the_beacon owner (λ the_owner. the_owner ≡ d2.upgrade_executor)
            × At n.l2 the_beacon implementation (IsInitialized n.l2)))

    -- With ether for fees the WETH gateways are a pair, and know a token on either chain.
    pub record HasWeth : Type 0 where
      pub paired : ArePaired d1.weth_gateway d2.weth_gateway
      pub parent_l1_weth : ReadsOther n.l1 d1.weth_gateway l1_weth address_zero
      pub parent_l2_weth : ReadsOther n.l1 d1.weth_gateway l2_weth address_zero
      pub child_l1_weth : ReadsOther n.l2 d2.weth_gateway l1_weth address_zero
      pub child_l2_weth : ReadsOther n.l2 d2.weth_gateway l2_weth address_zero
      pub child_admin :
          (admin : Text) × AdminIs n.l2 d2.router admin × AdminIs n.l2 d2.weth_gateway admin
      pub gateway_logic : LogicIsInitialized d2.weth_gateway counterpart_gateway
      pub weth_logic : LogicIsInitialized d2.weth l2_gateway

    -- Both routers send the parent chain's WETH to its gateway, by their table and in effect.
    abbrev pub WethIsRegistered : Type 0
    WethIsRegistered = At n.l1 d1.weth_gateway l1_weth (λ weth.
        (n.l1.l1_token_to_gateway d1.router weth ≡ some d1.weth_gateway)
        × (n.l1.get_gateway d1.router weth ≡ some d1.weth_gateway)
        × (n.l2.l1_token_to_gateway d2.router weth ≡ some d2.weth_gateway)
        × (n.l2.get_gateway d2.router weth ≡ some d2.weth_gateway))

    -- With a fee token nothing is recorded for WETH.
    pub record HasNoWeth : Type 0 where
      pub parent_gateway : d1.weth_gateway ≡ address_zero
      pub parent_weth : d1.weth ≡ address_zero
      pub child_gateway : d2.weth_gateway ≡ address_zero
      pub child_weth : d2.weth ≡ address_zero

    -- The executors govern: their roles, the admin of all proxies of a chain, and its owner.
    pub record AreGoverned : Type 0 where
      pub parent_admin_role : HasRole n.l1 r.upgrade_executor admin_role r.upgrade_executor
      pub parent_executor_role : HasRole n.l1 r.upgrade_executor executor_role r.rollup_owner
      pub child_admin_role : HasRole n.l2 d2.upgrade_executor admin_role d2.upgrade_executor
      pub child_executor_role :
          (code : Text) × (n.l1.get_code r.rollup_owner ≡ some code)
          × (account : Text) × OwnerOnChild r.rollup_owner code account
          × HasRole n.l2 d2.upgrade_executor executor_role account
      pub child_parent_role :
          (account : Text) × (apply_alias r.upgrade_executor ≡ some account)
          × HasRole n.l2 d2.upgrade_executor executor_role account
      pub parent_router : AdminIs n.l1 d1.router r.proxy_admin
      pub parent_standard : AdminIs n.l1 d1.standard_gateway r.proxy_admin
      pub parent_custom : AdminIs n.l1 d1.custom_gateway r.proxy_admin
      pub parent_weth : d1.weth_gateway ≢ address_zero → AdminIs n.l1 d1.weth_gateway r.proxy_admin
      pub parent_executor : AdminIs n.l1 r.upgrade_executor r.proxy_admin
      pub parent_admin_owner : OwnerIs n.l1 r.proxy_admin r.upgrade_executor
      pub parent_router_owner : OwnerIs n.l1 d1.router r.upgrade_executor
      pub parent_custom_owner : OwnerIs n.l1 d1.custom_gateway r.upgrade_executor
      pub child_admin :
          (admin : Text) × AdminIs n.l2 d2.router admin
          × AdminIs n.l2 d2.standard_gateway admin
          × AdminIs n.l2 d2.custom_gateway admin
          × AdminIs n.l2 d2.upgrade_executor admin
          × OwnerIs n.l2 admin (to_lower d2.upgrade_executor)

    pub record IsDeployed (using_fee_token is_local : Bool) : Type 0 where
      pub routers : AreRouters
      pub standard : ArePaired d1.standard_gateway d2.standard_gateway
      pub custom : ArePaired d1.custom_gateway d2.custom_gateway
      pub standard_whitelist : Reads n.l1 d1.standard_gateway whitelist address_zero
      pub custom_whitelist : Reads n.l1 d1.custom_gateway whitelist address_zero
      pub tokens : TokensAgree
      pub multicall : (code : Text) × (n.l2.get_code d2.multicall ≡ some code) × (2 < length code)
      pub weth : using_fee_token ≡ false → HasWeth
      pub no_weth : using_fee_token ≡ true → HasNoWeth
      pub registered : using_fee_token ≡ false → is_local ≡ false → WethIsRegistered
      pub governed : AreGoverned
      pub executor_logic : OfLogic d2.upgrade_executor (IsInitialized n.l2)
      pub router_logic : LogicIsInitialized d2.router counterpart_gateway
      pub standard_logic : LogicIsInitialized d2.standard_gateway counterpart_gateway
      pub custom_logic : LogicIsInitialized d2.custom_gateway counterpart_gateway
