-- ===== src/Upgrades/Admin.antt =====
-- `transferAdmin`, `transferBeaconOwner`, `removeBuildInfoFiles` and `verifyDeployments`.
pub mod Guards
pub mod Beacon
use token_bridge_contracts.Base.{
  ℕ, not, Option, none, some, List, [], ◌∷◌, map, Text, if◌then◌else◌,
}
use token_bridge_contracts.Contracts.{ContractNames, rollup, name_eq, CurrentDeployment}
use token_bridge_contracts.Upgrades.Chain.{change_proxy_admin, transfer_ownership, Env}
use token_bridge_contracts.Upgrades.Monad.{
  Action, no_signer, admin_unchanged, signer_not_owner, not_connected_as_owner, undeclared, pure,
  throw, exit, gets, throw_if, view, ask, send, ◌>>=◌, ◌>>◌,
}
use token_bridge_contracts.Upgrades.Files.{await_compile, get_deployments, write_current, is_yes}
use token_bridge_contracts.Upgrades.Slots.{get_admin_from_proxy_storage}
use token_bridge_contracts.Upgrades.Verify.{same_address}
use token_bridge_contracts.Upgrades.Deploy.{rollup_constructor_val}

abbrev pub first_signer : List Text → Action Text
first_signer [] = throw no_signer
first_signer (s ∷ rest) = pure s

-- the address and the constructor argument that are handed to `verify:verify`
abbrev pub verify_arguments : ContractNames × CurrentDeployment → Text × Option ℕ
verify_arguments (name, d) =
    (d.impl_address, (if name_eq name rollup then some rollup_constructor_val else none))

module _ (e : Env) where
  unfoldable pub transfer_admin : Text → Text → Action Unit
  unfolding send
  transfer_admin proxy new_admin = do
    await_compile e
    proxy_admin ← gets (λ w. get_admin_from_proxy_storage e w.txs proxy)
    owner ← view (λ txs. e.owner txs proxy_admin)
    throw_if (same_address new_admin owner) admin_unchanged
    signer ← first_signer e.signers
    throw_if (not (same_address signer owner)) signer_not_owner
    send e (change_proxy_admin proxy_admin proxy new_admin)
    pure tt

  -- `prompt` is not declared in Node, so what follows it never runs.
  unfoldable pub transfer_beacon_owner : Text → Text → Action Unit
  transfer_beacon_owner beacon new_owner = do
    await_compile e
    signer ← first_signer e.signers
    owner ← view (λ txs. e.owner txs beacon)
    throw_if (not (same_address owner signer)) not_connected_as_owner
    throw undeclared

  -- The contracts whose verification fails, each logged and passed over.
  unfoldable pub failed_verifications :
      List (ContractNames × CurrentDeployment) → List ContractNames
  failed_verifications [] = []
  failed_verifications (c ∷ rest) =
      let failed = failed_verifications rest in
      let (address, arguments) = verify_arguments c in
      if e.etherscan_verifies address arguments then failed else c.0 ∷ failed

  unfoldable pub verify_deployments : Action (List ContractNames)
  unfolding get_deployments failed_verifications
  verify_deployments = do
    deployments ← get_deployments
    pure (failed_verifications deployments.contracts)

-- `prompt` here too, before anything is read
unfoldable pub remove_build_info_files : Action Unit
remove_build_info_files = throw undeclared
