-- ===== src/Scripts/Chain/Data.antt =====
-- The data that the scripts exchange with the chain, with the SDK and with files.
use token_bridge_contracts.Base.{ℕ, Bool, Option, List, Text}

-- The contracts that the scripts create, by the factory that the source calls. That of the bridged
-- USDC's logic has its bytecode, which the script links.
pub data Factory : Type 0 where
  arb_multicall2_factory proxy_admin_factory token_bridge_creator_factory : Factory
  transparent_proxy_factory retryable_sender_factory : Factory
  l1_gateway_router_factory l1_erc20_gateway_factory l1_custom_gateway_factory : Factory
  l1_weth_gateway_factory l1_orbit_gateway_router_factory l1_orbit_erc20_gateway_factory : Factory
  l1_orbit_custom_gateway_factory upgrade_executor_factory : Factory
  l2_token_bridge_factory l2_gateway_router_factory l2_erc20_gateway_factory : Factory
  l2_custom_gateway_factory l2_weth_gateway_factory ae_weth_factory multicall2_factory : Factory
  l1_usdc_gateway_factory l1_orbit_usdc_gateway_factory l2_usdc_gateway_factory : Factory
  sig_checker_factory usdc_proxy_factory master_minter_factory test_weth9_factory : Factory
  usdc_logic_factory : Text → Factory

-- `L1AtomicTokenBridgeCreator.L1Templates`
pub record L1Templates : Type 0 where
  pub router_template : Text
  pub standard_gateway_template : Text
  pub custom_gateway_template : Text
  pub weth_gateway_template : Text
  pub fee_token_based_router_template : Text
  pub fee_token_based_standard_gateway_template : Text
  pub fee_token_based_custom_gateway_template : Text
  pub upgrade_executor : Text

-- The addresses that the creator recorded for an inbox, on the parent and on the child chain.
pub record L1Deployment : Type 0 where
  pub router : Text
  pub standard_gateway : Text
  pub custom_gateway : Text
  pub weth_gateway : Text
  pub weth : Text

pub record L2Deployment : Type 0 where
  pub router : Text
  pub standard_gateway : Text
  pub custom_gateway : Text
  pub weth_gateway : Text
  pub weth : Text
  pub proxy_admin : Text
  pub beacon_proxy_factory : Text
  pub upgrade_executor : Text
  pub multicall : Text

-- `ArbitrumNetwork` of the SDK, with the fields that the scripts set
pub record EthBridge : Type 0 where
  pub bridge : Text
  pub inbox : Text
  pub outbox : Text
  pub rollup : Text
  pub sequencer_inbox : Text

pub record Network : Type 0 where
  pub native_token : Option Text
  pub is_testnet : Bool
  pub chain_id : ℕ
  pub confirm_period_blocks : ℕ
  pub eth_bridge : EthBridge
  pub is_custom : Bool
  pub name : Text
  pub parent_chain_id : ℕ
  pub retryable_lifetime_seconds : ℕ

-- `tokenBridge` of the SDK's network
pub record TokenBridge : Type 0 where
  pub parent_custom_gateway : Text
  pub parent_erc20_gateway : Text
  pub parent_gateway_router : Text
  pub parent_multi_call : Text
  pub parent_proxy_admin : Text
  pub parent_weth : Text
  pub parent_weth_gateway : Text
  pub child_custom_gateway : Text
  pub child_erc20_gateway : Text
  pub child_gateway_router : Text
  pub child_multi_call : Text
  pub child_proxy_admin : Text
  pub child_weth : Text
  pub child_weth_gateway : Text

-- What is written to network.json; the creator and the retryable sender only in a local deployment.
pub record NetworkFile : Type 0 where
  pub network : Network
  pub token_bridge : TokenBridge
  pub creator_and_sender : Option (Text × Text)

-- The command line that `verifyWithAddress` runs, by its parts.
pub record VerifyCommand : Type 0 where
  pub chain_id : ℕ
  pub compiler_version : Text
  pub num_of_optimizations : ℕ
  pub constructor_args : Option Text
  pub contract_address : Text
  pub source_file : Option Text
  pub etherscan_api_key : Text

-- The options of the task `verify:verify`, with the contract's name in the log, and what came of it.
pub data VerifyOutcome : Type 0 where
  verified already_verified : VerifyOutcome
  not_verified : Text → VerifyOutcome

pub record VerifyRequest : Type 0 where
  pub contract_name : Text
  pub address : Text
  pub constructor_arguments : List Text
  pub contract : Option Text

pub data MessageStatus : Type 0 where
  not_yet_created creation_failed funds_deposited redeemed expired : MessageStatus

pub record GasParams : Type 0 where
  pub gas_limit : ℕ
  pub max_fee_per_gas : ℕ
  pub max_submission_cost : ℕ

-- the views of a gateway, and of a token, that the scripts read back
pub data Field : Type 0 where
  router_field inbox_field l1_usdc_field l2_usdc_field owner_field counterpart_field : Field
  name_field symbol_field currency_field master_minter_field pauser_field : Field
  blacklister_field : Field
