-- ===== src/Upgrades/Chain.antt =====
-- What the upgrade tasks see of the outside: the transactions that they send, and the views of
-- the chain, of git, of the terminal and of JavaScript's engine that they read. None of it is in
-- the repository, so all of it is a parameter.
use token_bridge_contracts.Base.{ℕ, Bool, Option, List, Text}
use token_bridge_contracts.Contracts.{ContractNames}

-- A transaction, with the contract that it calls first.
pub data Tx : Type 0 where
  -- a contract's creation, with the constructor's argument
  deploy : ContractNames → Option ℕ → Tx
  -- `UpgradeableBeacon.upgradeTo`
  upgrade_to : Text → Text → Tx
  -- `RollupAdminFacet.upgradeBeacon`, on the rollup
  upgrade_beacon : Text → Text → Text → Tx
  -- `RollupAdminFacet.setFacets`, on the rollup: admin facet, user facet
  set_facets : Text → Text → Text → Tx
  -- `ProxyAdmin.upgrade` and `ProxyAdmin.upgradeAndCall`: proxy, implementation
  upgrade : Text → Text → Text → Tx
  upgrade_and_call : Text → Text → Text → Text → Tx
  -- `ProxyAdmin.changeProxyAdmin`: proxy, new admin
  change_proxy_admin : Text → Text → Text → Tx
  -- `UpgradeableBeacon.transferOwnership`
  transfer_ownership : Text → Text → Tx

pub record Receipt : Type 0 where
  pub contract_address : Text
  pub transaction_hash : Text

pub data Slot : Type 0 where
  admin_slot implementation_slot : Slot

-- A view is a function of the transactions mined so far, the latest first; `none` is a call that
-- throws.
pub record Env : Type 0 where
  -- whether `hre.run('compile')` succeeds
  pub compiles : Bool
  -- the trimmed output of `git diff-index HEAD --`, cut into lines, and of `git rev-parse HEAD`
  pub git_tree : List Text
  pub current_commit : Text
  -- whether the network's name is `fork`
  pub on_fork : Bool
  -- the addresses of `hre.ethers.getSigners()`
  pub signers : List Text
  -- `provider.getCode` at address 0x64
  pub arbsys_code : Text
  -- whether a transaction is mined, and its receipt
  pub accepts : List Tx → Tx → Bool
  pub receipt : List Tx → Tx → Receipt
  -- `owner()` of a proxy admin or a beacon, `implementation()` of a beacon
  pub owner : List Tx → Text → Option Text
  pub implementation : List Tx → Text → Option Text
  -- `getUserFacet()` and `getAdminFacet()` of the rollup
  pub user_facet : List Tx → Text → Option Text
  pub admin_facet : List Tx → Text → Option Text
  -- `getStorageAt`, and `ethers.utils.hexlify` on a text
  pub storage_at : List Tx → Text → Slot → Text
  pub hexlify : Text → Text
  -- `Array.prototype.sort`, by whether the comparison of two elements is negative
  pub sort : (ContractNames → ContractNames → Bool) → List ContractNames → List ContractNames
  -- whether the `verify:verify` task succeeds for an address and constructor arguments
  pub etherscan_verifies : Text → Option ℕ → Bool
