-- ===== src/Scripts/Entry.antt =====
-- The scripts of scripts/deployment/: createTokenBridge.ts and deployTokenBridgeCreator.ts, with
-- `getSigner` and `getEstimateForDeployingFactory` of scripts/atomicTokenBridgeDeployer.ts.
pub mod Guards
pub mod Limits
use token_bridge_contracts.Base.{
  ℕ, Bool, true, false, not, ◌&&◌, Option, none, some, List, [], ◌∷◌, codes, Text, if◌then◌else◌,
  ◌||◌,
}
use token_bridge_contracts.Scripts.Chain.{Net, Network, TokenBridge}
use token_bridge_contracts.Scripts.Monad.{
  Script, pure, fail, view, or_fail, fail_if, write_network, ◌>>=◌, ◌>>◌, missing_env_var,
  type_error, gas_limit_or_rollup_missing,
}
use token_bridge_contracts.Scripts.Networks.{register_networks}
use token_bridge_contracts.Scripts.Usdc.{is_set, address_zero}
use token_bridge_contracts.Scripts.Creator.{Deployment, create_token_bridge}
use token_bridge_contracts.Scripts.Templates.{deploy_l1_token_bridge_creator}

-- the wallet of a key, by its address, or the first account of the node
pub data Signer : Type 0 where
  wallet : Text → Signer
  first_account : Signer

-- The variables of createTokenBridge.ts, in the order in which they are checked.
abbrev pub creation_env_vars : List Text
creation_env_vars =
    codes "ROLLUP_ADDRESS"
    ∷ codes "ROLLUP_OWNER"
    ∷ codes "L1_TOKEN_BRIDGE_CREATOR"
    ∷ codes "BASECHAIN_RPC"
    ∷ codes "BASECHAIN_DEPLOYER_KEY"
    ∷ codes "ORBIT_RPC"
    ∷ []

-- The addresses in the SDK's words.
unfoldable pub token_bridge_of : Deployment → TokenBridge
token_bridge_of d = record {
  parent_custom_gateway = d.l1_deployment.custom_gateway;
  parent_erc20_gateway = d.l1_deployment.standard_gateway;
  parent_gateway_router = d.l1_deployment.router;
  parent_multi_call = d.l1_multicall;
  parent_proxy_admin = d.l1_proxy_admin;
  parent_weth = d.l1_deployment.weth;
  parent_weth_gateway = d.l1_deployment.weth_gateway;
  child_custom_gateway = d.l2_deployment.custom_gateway;
  child_erc20_gateway = d.l2_deployment.standard_gateway;
  child_gateway_router = d.l2_deployment.router;
  child_multi_call = d.l2_deployment.multicall;
  child_proxy_admin = d.l2_deployment.proxy_admin;
  child_weth = d.l2_deployment.weth;
  child_weth_gateway = d.l2_deployment.weth_gateway;
}

module _ (n : Net) where
  -- `getSigner`, of a provider that is there
  unfoldable pub get_signer : Option Text → Script Signer
  get_signer key =
      if is_set key
      then (do
        present ← or_fail key type_error
        address ← or_fail (n.wallet_address present) type_error
        pure (wallet address))
      else pure first_account

  -- The estimate is for a message from a fresh random address, here the empty text.
  unfoldable pub get_estimate_for_deploying_factory : Script ℕ
  get_estimate_for_deploying_factory = do
    params ← view (λ txs. n.estimate_all txs [] address_zero)
    pure params.gas_limit

  -- a check with `== undefined`, and the value
  abbrev pub require_defined : Text → Script Text
  require_defined name = or_fail (n.env_var name) (missing_env_var name)

  unfoldable pub create_token_bridge_on_target_chain : Script (Network × TokenBridge)
  unfolding get_signer register_networks create_token_bridge token_bridge_of
  create_token_bridge_on_target_chain = do
    rollup ← require_defined (codes "ROLLUP_ADDRESS")
    rollup_owner ← require_defined (codes "ROLLUP_OWNER")
    creator ← require_defined (codes "L1_TOKEN_BRIDGE_CREATOR")
    require_defined (codes "BASECHAIN_RPC")
    deployer_key ← require_defined (codes "BASECHAIN_DEPLOYER_KEY")
    require_defined (codes "ORBIT_RPC")
    get_signer (some deployer_key)
    network ← register_networks n rollup
    deployment ← create_token_bridge n creator rollup rollup_owner
    pure (network, token_bridge_of deployment)

  unfoldable pub create_token_bridge_main : Script Unit
  unfolding create_token_bridge_on_target_chain
  create_token_bridge_main = do
    (network, bridge) ← create_token_bridge_on_target_chain
    write_network (record { network = network; token_bridge = bridge; creator_and_sender = none })

  -- a check with `!`
  abbrev pub require_set : Text → Script Unit
  require_set name = fail_if (not (is_set (n.env_var name))) (missing_env_var name)

  -- the limit of the environment, or the estimate
  unfoldable pub gas_limit_for_factory : Script ℕ
  unfolding register_networks get_estimate_for_deploying_factory
  gas_limit_for_factory =
      if is_set (n.env_var (codes "GAS_LIMIT_FOR_L2_FACTORY_DEPLOYMENT"))
      then (do
        text ← or_fail (n.env_var (codes "GAS_LIMIT_FOR_L2_FACTORY_DEPLOYMENT")) type_error
        or_fail (n.big_number_from text) type_error)
      else (do
        rollup ← or_fail (n.env_var (codes "ROLLUP_ADDRESS")) type_error
        register_networks n rollup
        get_estimate_for_deploying_factory)

  -- `(rollupAddress && childChainRpc) || gasLimitForL2FactoryDeployment`
  abbrev pub has_gas_limit : Bool
  has_gas_limit =
      is_set (n.env_var (codes "ROLLUP_ADDRESS")) && is_set (n.env_var (codes "ORBIT_RPC"))
      || is_set (n.env_var (codes "GAS_LIMIT_FOR_L2_FACTORY_DEPLOYMENT"))

  -- the creator and the retryable sender
  unfoldable pub deploy_token_bridge_creator : Script (Text × Text)
  unfolding get_signer gas_limit_for_factory deploy_l1_token_bridge_creator
  deploy_token_bridge_creator = do
    require_set (codes "BASECHAIN_RPC")
    require_set (codes "BASECHAIN_DEPLOYER_KEY")
    require_set (codes "BASECHAIN_WETH")
    fail_if (not has_gas_limit) gas_limit_or_rollup_missing
    get_signer (n.env_var (codes "BASECHAIN_DEPLOYER_KEY"))
    gas_limit ← gas_limit_for_factory
    weth ← or_fail (n.env_var (codes "BASECHAIN_WETH")) type_error
    deploy_l1_token_bridge_creator n weth gas_limit true
