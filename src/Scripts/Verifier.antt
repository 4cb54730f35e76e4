-- ===== src/Scripts/Verifier.antt =====
-- scripts/contractVerifier.ts: the table of sources and the command that verifies a contract. The
-- command runs on its own; the script does not wait for it and does not see whether it fails.
use token_bridge_contracts.Base.{ℕ, Option, none, some, [], ◌∷◌, codes, Text, Dict, lookup, text_Eq}
use token_bridge_contracts.Scripts.Chain.{VerifyCommand}
use token_bridge_contracts.Scripts.Monad.{Script, done}

abbrev proxy_source : Text
proxy_source =
    codes
      "node_modules/@openzeppelin/contracts/proxy/transparent/TransparentUpgradeableProxy.sol:TransparentUpgradeableProxy"

abbrev proxy_admin_source : Text
proxy_admin_source =
    codes "node_modules/@openzeppelin/contracts/proxy/transparent/ProxyAdmin.sol:ProxyAdmin"

abbrev executor_source : Text
executor_source =
    codes "node_modules/@offchainlabs/upgrade-executor/src/UpgradeExecutor.sol:UpgradeExecutor"

abbrev pub contract_to_source : Dict Text Text
contract_to_source =
    (codes "l1TokenBridgeCreatorProxyAdmin", proxy_admin_source)
    ∷ (
      codes "l1TokenBridgeCreatorLogic",
      codes
          "contracts/tokenbridge/ethereum/L1AtomicTokenBridgeCreator.sol:L1AtomicTokenBridgeCreator",
    )
    ∷ (codes "l1TokenBridgeCreatorProxy", proxy_source)
    ∷ (
      codes "retryableSenderLogic",
      codes
          "contracts/tokenbridge/ethereum/L1TokenBridgeRetryableSender.sol:L1TokenBridgeRetryableSender",
    )
    ∷ (codes "retryableSenderProxy", proxy_source)
    ∷ (
      codes "routerTemplate",
      codes "contracts/tokenbridge/ethereum/gateway/L1GatewayRouter.sol:L1GatewayRouter",
    )
    ∷ (
      codes "standardGatewayTemplate",
      codes "contracts/tokenbridge/ethereum/gateway/L1ERC20Gateway.sol:L1ERC20Gateway",
    )
    ∷ (
      codes "customGatewayTemplate",
      codes "contracts/tokenbridge/ethereum/gateway/L1CustomGateway.sol:L1CustomGateway",
    )
    ∷ (
      codes "wethGatewayTemplate",
      codes "contracts/tokenbridge/ethereum/gateway/L1WethGateway.sol:L1WethGateway",
    )
    ∷ (
      codes "feeTokenBasedRouterTemplate",
      codes "contracts/tokenbridge/ethereum/gateway/L1OrbitGatewayRouter.sol:L1OrbitGatewayRouter",
    )
    ∷ (
      codes "feeTokenBasedStandardGatewayTemplate",
      codes "contracts/tokenbridge/ethereum/gateway/L1OrbitERC20Gateway.sol:L1OrbitERC20Gateway",
    )
    ∷ (
      codes "feeTokenBasedCustomGatewayTemplate",
      codes "contracts/tokenbridge/ethereum/gateway/L1OrbitCustomGateway.sol:L1OrbitCustomGateway",
    )
    ∷ (codes "upgradeExecutor", executor_source)
    ∷ (
      codes "l2TokenBridgeFactoryOnL1",
      codes
          "contracts/tokenbridge/arbitrum/L2AtomicTokenBridgeFactory.sol:L2AtomicTokenBridgeFactory",
    )
    ∷ (
      codes "l2GatewayRouterOnL1",
      codes "contracts/tokenbridge/arbitrum/gateway/L2GatewayRouter.sol:L2GatewayRouter",
    )
    ∷ (
      codes "l2StandardGatewayAddressOnL1",
      codes "contracts/tokenbridge/arbitrum/gateway/L2ERC20Gateway.sol:L2ERC20Gateway",
    )
    ∷ (
      codes "l2CustomGatewayAddressOnL1",
      codes "contracts/tokenbridge/arbitrum/gateway/L2CustomGateway.sol:L2CustomGateway",
    )
    ∷ (
      codes "l2WethGatewayAddressOnL1",
      codes "contracts/tokenbridge/arbitrum/gateway/L2WethGateway.sol:L2WethGateway",
    )
    ∷ (codes "l2WethAddressOnL1", codes "contracts/tokenbridge/libraries/aeWETH.sol:aeWETH")
    ∷ (codes "l2MulticallAddressOnL1", codes "contracts/rpc-utils/MulticallV2.sol:ArbMulticall2")
    ∷ (codes "l1Multicall", codes "contracts/rpc-utils/MulticallV2.sol:Multicall2")
    ∷ []

-- `new ContractVerifier(chainId, apiKey)`
pub record ContractVerifier : Type 0 where
  pub chain_id : ℕ
  pub api_key : Text

abbrev pub new_contract_verifier : ℕ → Option Text → ContractVerifier
new_contract_verifier chain_id none = record { chain_id = chain_id; api_key = [] }
new_contract_verifier chain_id (some key) = record { chain_id = chain_id; api_key = key }

abbrev pub or_default : Option ℕ → ℕ
or_default none = 100
or_default (some n) = n

-- an empty text is no text
abbrev pub unless_empty : Option Text → Option Text
unless_empty none = none
unless_empty (some []) = none
unless_empty (some (c ∷ rest)) = some (c ∷ rest)

unfoldable pub verify_command :
    ContractVerifier → (name contract_address : Text) → Option Text → Option ℕ → VerifyCommand
verify_command v name contract_address constructor_args num_of_optimization = record {
  chain_id = v.chain_id;
  compiler_version = codes "0.8.16";
  num_of_optimizations = or_default num_of_optimization;
  constructor_args = unless_empty constructor_args;
  contract_address = contract_address;
  source_file = lookup name contract_to_source;
  etherscan_api_key = v.api_key;
}

unfoldable pub verify_with_address :
    ContractVerifier → (name contract_address : Text) → Option Text → Option ℕ → Script Unit
unfolding verify_command
verify_with_address v name contract_address constructor_args num_of_optimization w = (
  done tt,
  record w {
    commands =
        verify_command v name contract_address constructor_args num_of_optimization ∷ w.commands;
  },
)
