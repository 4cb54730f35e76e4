-- ===== src/Scripts/Local.antt =====
-- scripts/local-deployment/: `setupTokenBridgeInLocalEnv` and `getLocalNetwork` of
-- localDeploymentLib.ts, and deployCreatorAndCreateTokenBridge.ts. The URLs only say which chains
-- are meant.
pub mod Parts
pub mod Composed
use token_bridge_contracts.Base.{
  ℕ, ◌*◌, Bool, true, false, not, ◌||◌, Option, none, some, List, [], ◌∷◌, codes, Text, text_eq,
  if◌then◌else◌,
}
use token_bridge_contracts.Scripts.Chain.{Net, EthBridge, Network, TokenBridge, test_weth9_factory}
use token_bridge_contracts.Scripts.Monad.{
  Script, pure, view, gets, or_fail, register_network, write_network, ◌>>=◌, ◌>>◌, type_error,
  call_failed,
}
use token_bridge_contracts.Scripts.Creations.{deploy}
use token_bridge_contracts.Scripts.Usdc.{is_set, address_zero}
use token_bridge_contracts.Scripts.Creator.{Deployment, create_token_bridge, register_gateway}
use token_bridge_contracts.Scripts.Templates.{deploy_l1_token_bridge_creator}
use token_bridge_contracts.Scripts.Entry.{token_bridge_of, get_estimate_for_deploying_factory}

abbrev pub localhost_l3_owner_key : Text
localhost_l3_owner_key = codes "0xecdf21cb41c65afb51f91df408b7656e2c8739a5877f2814add0afd780cc210e"

-- `undefined` or empty, or the text
abbrev pub non_empty : Option Text → Option Text
non_empty none = none
non_empty (some []) = none
non_empty (some (c ∷ rest)) = some (c ∷ rest)

-- both values, or the default twice
abbrev pub both_or : Option Text → Option Text → Text → Text × Text
both_or (some a) (some b) default = (a, b)
both_or _ _ default = (default, default)

abbrev pub or_text : Option Text → Text → Text
or_text none default = default
or_text (some a) default = a

pub record LocalSetup : Type 0 where
  pub network : Network
  pub token_bridge : TokenBridge
  pub creator : Text
  pub sender : Text

module _ (n : Net) where
  -- the deployment in a file of the container that a filter finds
  unfoldable pub read_container : (filter path : Text) → Script EthBridge
  read_container filter path = do
    container ← or_fail (n.container filter) call_failed
    or_fail (n.deployment_file container path) call_failed

  -- The rollup's contracts: from the rollup, or from the container of the node.
  unfoldable pub rollup_contracts : Option Text → Script EthBridge
  unfolding read_container
  rollup_contracts none = read_container (codes "name=l3node") (codes "/config/l3deployment.json")
  rollup_contracts (some rollup) = do
    bridge ← view (λ txs. n.rollup_bridge txs rollup)
    inbox ← view (λ txs. n.inbox txs rollup)
    sequencer_inbox ← view (λ txs. n.rollup_sequencer_inbox txs rollup)
    pure (record {
      bridge = bridge;
      inbox = inbox;
      outbox = [];
      rollup = rollup;
      sequencer_inbox = sequencer_inbox;
    })

  unfoldable pub get_local_network : Option Text → Script Network
  unfolding read_container rollup_contracts
  get_local_network rollup_address = do
    l1_chain ← view n.chain_id
    l2_chain ← view n.child_chain_id
    read_container (codes "name=sequencer") (codes "/config/deployment.json")
    contracts ← rollup_contracts (non_empty rollup_address)
    outbox ← view (λ txs. n.allowed_outbox txs contracts.bridge)
    native_token ← gets (λ txs. n.native_token txs contracts.bridge)
    pure (record {
      native_token = native_token;
      is_testnet = true;
      chain_id = l2_chain;
      confirm_period_blocks = 20;
      eth_bridge = record contracts { outbox = outbox };
      is_custom = true;
      name = codes "OrbitLocal";
      parent_chain_id = l1_chain;
      retryable_lifetime_seconds = 7 * 24 * 60 * 60;
    })

  -- the token of the environment, or a new one
  unfoldable pub weth_or_deploy : Option Text → Script Text
  unfolding deploy
  weth_or_deploy (some weth) = pure weth
  weth_or_deploy none = deploy n test_weth9_factory (codes "WETH" ∷ codes "WETH" ∷ [])

  -- the gateway of the wrapped ether is registered if there is one
  unfoldable pub register_weth_gateway : (rollup weth : Text) → Deployment → Script Unit
  unfolding register_gateway
  register_weth_gateway rollup weth d =
      if not (text_eq d.l1_deployment.weth_gateway address_zero)
      then (do
        executor ← view (λ txs. n.owner txs rollup)
        register_gateway n executor d.l1_deployment.router (weth ∷ [])
            (d.l1_deployment.weth_gateway ∷ []))
      else pure tt

  unfoldable pub set_up_token_bridge_in_local_env : Script LocalSetup
  unfolding get_local_network register_network weth_or_deploy get_estimate_for_deploying_factory
      deploy_l1_token_bridge_creator create_token_bridge register_weth_gateway
  set_up_token_bridge_in_local_env = do
    let keys =
        both_or (n.env_var (codes "PARENT_KEY")) (n.env_var (codes "CHILD_KEY"))
          (n.sha256 (codes "user_token_bridge_deployer"))
    let owner_key = or_text (n.env_var (codes "ROLLUP_OWNER_KEY")) localhost_l3_owner_key
    rollup_owner ← or_fail (n.wallet_address owner_key) type_error
    or_fail (n.wallet_address keys.0) type_error
    or_fail (n.wallet_address keys.1) type_error
    network ← get_local_network (n.env_var (codes "ROLLUP_ADDRESS"))
    register_network n network
    weth ← weth_or_deploy (non_empty (n.env_var (codes "PARENT_WETH_OVERRIDE")))
    gas_limit ← get_estimate_for_deploying_factory n
    (creator, sender) ← deploy_l1_token_bridge_creator n weth gas_limit false
    d ← create_token_bridge n creator network.eth_bridge.rollup rollup_owner
    register_weth_gateway network.eth_bridge.rollup weth d
    pure (record {
      network = network;
      token_bridge = token_bridge_of d;
      creator = creator;
      sender = sender;
    })

  -- deployCreatorAndCreateTokenBridge.ts
  unfoldable pub deploy_creator_and_create_token_bridge : Script Unit
  unfolding set_up_token_bridge_in_local_env
  deploy_creator_and_create_token_bridge = do
    setup ← set_up_token_bridge_in_local_env
    write_network (record {
      network = setup.network;
      token_bridge = setup.token_bridge;
      creator_and_sender = some (setup.creator, setup.sender);
    })
