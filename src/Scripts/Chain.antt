-- ===== src/Scripts/Chain.antt =====
-- What the deployment scripts send and see: encoded calls, and the views of the parent chain, of
-- the SDK and of the process that they read. The contracts and the SDK are not TypeScript of this
-- repository, so what they answer is a parameter.
mod Data
pub use Data.*
use token_bridge_contracts.Base.{ℕ, Bool, Option, List, Text}

-- The data of a transaction, by the function that is encoded.
pub data Calldata : Type 0 where
  transfer : Text → ℕ → Calldata
  approve : Text → ℕ → Calldata
  -- `UpgradeExecutor.executeCall`
  execute_call : Text → Calldata → Calldata
  -- `setGateways` of a router: tokens, gateways, max gas, gas price bid, max submission cost, and
  -- on an orbit router the fee
  set_gateways : List Text → List Text → ℕ → ℕ → ℕ → Option ℕ → Calldata
  -- `L1AtomicTokenBridgeCreator.createTokenBridge`: inbox, owner, max gas, gas price
  create_token_bridge_call : Text → Text → ℕ → ℕ → Calldata
  -- `initialize` of a gateway, with its arguments
  initialize : List Text → Calldata
  -- the creation of a contract, with the arguments of its constructor
  create : Factory → List Text → Calldata
  -- `setTemplates` of the creator: the templates, the other addresses, and the gas limit
  set_templates : L1Templates → List Text → ℕ → Calldata
  configure_controller : Text → Text → Calldata
  configure_minter : ℕ → Calldata
  -- of Circle's token: name, symbol, currency, decimals, and master minter, pauser, blacklister and
  -- owner
  initialize_token : Text → Text → Text → ℕ → List Text → Calldata
  initialize_v2 : Text → Calldata
  initialize_v2_1 : Text → Calldata
  initialize_v2_2 : List Text → Text → Calldata
  change_admin : Text → Calldata

pub record Call : Type 0 where
  pub to : Text
  pub value : ℕ
  pub calldata : Calldata

-- A view is a function of the transactions mined so far, the latest first; `none` is a call that
-- throws.
pub record Net : Type 0 where
  -- a variable of `process.env`, `none` where it is undefined
  pub env_var : Text → Option Text
  -- the address of a private key; `none` where `new Wallet` throws
  pub wallet_address : Text → Option Text
  -- the error's message of the task `verify:verify`, `none` where it returns
  pub verify_error : List Call → VerifyRequest → Option Text
  -- `ethers.utils.getAddress`
  pub get_address : Text → Option Text
  -- a word of a contract's storage on the child chain
  pub storage_at : List Call → Text → Text → Option Text
  -- the views of the creator, of a factory of beacon proxies, and of a beacon
  pub canonical_l2_factory_address : List Call → Text → Option Text
  pub beacon : List Call → Text → Option Text
  pub implementation : List Call → Text → Option Text
  -- the name of the container that docker finds for a filter, and the deployment in a file of it,
  -- without an outbox; `none` where the command or `JSON.parse` throws
  pub container : Text → Option Text
  pub deployment_file : Text → Text → Option EthBridge
  -- `ethers.utils.sha256`, of the bytes of a text
  pub sha256 : Text → Text
  -- `BigNumber.from`
  pub big_number_from : Text → Option ℕ
  -- whether `registerCustomArbitrumNetwork` returns, with the networks that are registered
  pub registers : List Network → Network → Bool
  -- Circle's compiled token, with a placeholder for the library
  pub usdc_bytecode : Text
  -- whether the node takes a creation, which is all that `deploy(...)` alone asks of it
  pub submits : List Call → Call → Bool
  -- whether a transaction is mined and not reverted
  pub accepts : List Call → Call → Bool
  -- the address of a creation's contract, which depends on the wallet and on its nonce alone
  pub created : List Call → Call → Text
  pub bridge : List Call → Text → Option Text
  pub native_token : List Call → Text → Option Text
  pub owner : List Call → Text → Option Text
  pub decimals : List Call → Text → Option ℕ
  pub field : List Call → Text → Field → Option Text
  -- whether `ADMIN_ROLE()` and `EXECUTOR_ROLE()` return
  pub has_admin_role : List Call → Text → Bool
  pub has_executor_role : List Call → Text → Bool
  -- `estimateAll` of the SDK, for a message from and to an address
  pub estimate_all : List Call → Text → Text → Option GasParams
  -- the final statuses of the messages that a mined transaction sent to the child chain
  pub message_statuses : List Call → Call → List MessageStatus
  pub gas_price : List Call → Option ℕ
  pub inbox : List Call → Text → Option Text
  -- of `L1AtomicTokenBridgeCreator`: the gas limit, and `estimateGas` on the factory template
  pub factory_gas_limit : List Call → Text → Option ℕ
  pub contracts_gas : List Call → Text → Option ℕ
  -- the deployments that the creator recorded for an inbox, its multicall, and the inbox's admin
  pub l1_deployment : List Call → Text → Text → Option L1Deployment
  pub l2_deployment : List Call → Text → Text → Option L2Deployment
  pub l1_multicall : List Call → Text → Option Text
  pub proxy_admin : List Call → Text → Option Text
  -- `counterpartGateway()` on the parent chain and on the child chain, and the child chain's code
  pub counterpart : List Call → Text → Option Text
  pub child_counterpart : List Call → Text → Option Text
  pub child_code : List Call → Text → Text
  -- the chains' ids, and the `abi.encode` of constructor arguments
  pub chain_id : List Call → Option ℕ
  pub child_chain_id : List Call → Option ℕ
  -- the views of a bridge and of a rollup
  pub bridge_rollup : List Call → Text → Option Text
  pub confirm_period_blocks : List Call → Text → Option ℕ
  pub rollup_bridge : List Call → Text → Option Text
  pub allowed_outbox : List Call → Text → Option Text
  pub rollup_outbox : List Call → Text → Option Text
  pub rollup_sequencer_inbox : List Call → Text → Option Text
  pub abi_encode : List Text → Text
  -- what `populateFunctionParams` of the SDK estimates for a call of an address
  pub populate_params : List Call → Text → Option GasParams
