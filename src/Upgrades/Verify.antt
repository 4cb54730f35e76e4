-- ===== src/Upgrades/Verify.antt =====
-- `verifyCurrentImplementations`: compare the chain with the deployment files.
pub mod Meaning
pub mod Reads
use token_bridge_contracts.Base.{
  Bool, true, ◌&&◌, ◌||◌, Option, none, some, List, [], ◌∷◌, lookup, Text, to_lower, text_eq,
  if◌then◌else◌,
}
use token_bridge_contracts.Contracts.{
  ContractNames, rollup, name_Eq, CurrentDeployment, CurrentDeployments, is_beacon,
  is_beacon_owned_by_rollup, is_rollup_admin_facet, is_rollup_user_facet,
}
use token_bridge_contracts.Upgrades.Chain.{Env}
use token_bridge_contracts.Upgrades.Monad.{
  Action, type_error, pure, gets, or_throw, view, ◌>>=◌, ◌>>◌,
}
use token_bridge_contracts.Upgrades.Files.{await_compile, get_deployments, load_tmp_deployments}
use token_bridge_contracts.Upgrades.Slots.{
  get_admin_from_proxy_storage, get_implementation_from_storage,
}

-- `a.toLowerCase() === b.toLowerCase()`
unfoldable pub same_address : Text → Text → Bool
same_address a b = text_eq (to_lower a) (to_lower b)

-- the rollup's proxy, a property of `undefined` where the rollup is not deployed
abbrev pub rollup_proxy : CurrentDeployments → Action Text
rollup_proxy d = do r ← or_throw (lookup rollup d.contracts) type_error; pure r.proxy_address

-- `_tmpDeploymentData ? _tmpDeploymentData : _currentDeploymentData`
abbrev pub tmp_or_current :
    ContractNames → Option CurrentDeployments → CurrentDeployment → CurrentDeployment
tmp_or_current name none current = current
tmp_or_current name (some tmp) current = elim (lookup name tmp.contracts) [
  | none ↦ current
  | some d ↦ d
]

module _ (e : Env) (deployments : CurrentDeployments) (proxy_admin_owner : Text) where
  unfoldable pub verify_beacon : ContractNames → CurrentDeployment → Action Bool
  verify_beacon name d = do
    implementation ← view (λ txs. e.implementation txs d.proxy_address)
    beacon_owner ← view (λ txs. e.owner txs d.proxy_address)
    expected ←
        (if is_beacon_owned_by_rollup name
          then rollup_proxy deployments
          else pure proxy_admin_owner)
    pure (same_address implementation d.impl_address && same_address beacon_owner expected)

  unfoldable pub verify_facet : ContractNames → CurrentDeployment → Action Bool
  verify_facet name d = do
    proxy ← rollup_proxy deployments
    facet ←
        (if is_rollup_user_facet name
          then view (λ txs. e.user_facet txs proxy)
          else view (λ txs. e.admin_facet txs proxy))
    pure (same_address facet d.impl_address)

  unfoldable pub verify_proxy : CurrentDeployment → Action Bool
  verify_proxy d = do
    admin ← gets (λ w. get_admin_from_proxy_storage e w.txs d.proxy_address)
    implementation ← gets (λ w. get_implementation_from_storage e w.txs d.proxy_address)
    pure (
        same_address admin deployments.proxy_admin_address
        && same_address implementation d.impl_address)

  -- one round of the loop over the contracts
  unfoldable pub verify_one : ContractNames → CurrentDeployment → Action Bool
  verify_one name d =
      if is_beacon name
      then verify_beacon name d
      else if is_rollup_admin_facet name || is_rollup_user_facet name
      then verify_facet name d
      else verify_proxy d

  -- `success` is cleared by each failure and the loop goes on.
  unfoldable pub verify_each :
      Option CurrentDeployments → List (ContractNames × CurrentDeployment) → Bool → Action Bool
  verify_each tmp [] success = pure success
  verify_each tmp ((name, current) ∷ rest) success = do
    good ← verify_one name (tmp_or_current name tmp current)
    verify_each tmp rest (success && good)

module _ (e : Env) where
  unfoldable pub verify_current_implementations : Action Bool
  unfolding get_deployments load_tmp_deployments
  verify_current_implementations = do
    await_compile e
    deployments ← get_deployments
    tmp ← load_tmp_deployments
    proxy_admin_owner ← view (λ txs. e.owner txs deployments.proxy_admin_address)
    verify_each e deployments proxy_admin_owner tmp deployments.contracts true
