-- ===== src/Upgrades/Update.antt =====
-- `updateImplementations`: send the upgrade of each queued contract and move it from the queue to
-- the temporary deployments, which become the current ones at the end.
pub mod Plan
pub mod Safety
pub mod Completion
pub mod Resume
pub mod Sends
pub mod Rerun
use token_bridge_contracts.Base.{
  Bool, true, false, not, ◌||◌, Option, none, some, List, [], ◌∷◌, keys, lookup, insert, erase,
  Text, codes, if◌then◌else◌,
}
use token_bridge_contracts.Contracts.{
  ContractNames, rollup_user_facet, rollup_admin_facet, sequencer_inbox, name_eq, name_Eq,
  QueuedUpdate, QueuedUpdates, CurrentDeployment, CurrentDeployments, is_beacon_owned_by_eoa,
  is_beacon_owned_by_rollup, is_rollup_admin_facet, is_rollup_user_facet, has_post_init_hook,
}
use token_bridge_contracts.Upgrades.Chain.{
  Tx, upgrade_to, upgrade_beacon, set_facets, upgrade, upgrade_and_call, Env,
}
use token_bridge_contracts.Upgrades.Monad.{
  Action, no_signer, verification_failed, signer_not_owner, no_updates, type_error, pure, throw,
  or_throw, throw_if, view, send, ◌>>=◌, ◌>>◌,
}
use token_bridge_contracts.Upgrades.Files.{
  await_compile, ensure_clean_git_tree, get_queued_updates, get_deployments,
  create_or_load_tmp_deployments_file, write_queued, write_current, write_tmp, unlink_tmp,
}
use token_bridge_contracts.Upgrades.Verify.{
  same_address, rollup_proxy, verify_current_implementations,
}

abbrev pub post_upgrade_init_sig : Text
post_upgrade_init_sig = codes "0x95fcea78"

-- `tmpDeploymentsJsonData.contracts[name].implAddress`
abbrev pub impl_of : ContractNames → CurrentDeployments → Action Text
impl_of name d = do c ← or_throw (lookup name d.contracts) type_error; pure c.impl_address

-- The new facet where the contract is that facet, otherwise the one in the file.
abbrev facet_address : Bool → ContractNames → Text → CurrentDeployments → Action Text
facet_address true name new tmp = pure new
facet_address false name new tmp = impl_of name tmp

-- The transaction that points a contract's proxy at its new implementation.
unfoldable pub upgrade_tx :
    ContractNames → QueuedUpdate → CurrentDeployment → CurrentDeployments → Action Tx
upgrade_tx name q d tmp =
    if is_beacon_owned_by_eoa name
    then pure (upgrade_to d.proxy_address q.address)
    else if is_beacon_owned_by_rollup name
    then (do
      rollup_address ← rollup_proxy tmp
      pure (upgrade_beacon rollup_address d.proxy_address q.address))
    else if is_rollup_admin_facet name || is_rollup_user_facet name
    then (do
      user ← facet_address (is_rollup_user_facet name) rollup_user_facet q.address tmp
      admin ← facet_address (is_rollup_admin_facet name) rollup_admin_facet q.address tmp
      rollup_address ← rollup_proxy tmp
      pure (set_facets rollup_address admin user))
    else if has_post_init_hook name
    then pure
        (upgrade_and_call tmp.proxy_admin_address d.proxy_address q.address post_upgrade_init_sig)
    else pure (upgrade tmp.proxy_admin_address d.proxy_address q.address)

abbrev pub new_deployment_data : QueuedUpdate → CurrentDeployment → CurrentDeployment
new_deployment_data q d = record {
  proxy_address = d.proxy_address;
  impl_address = q.address;
  impl_deployment_txn = q.deploy_txn;
  impl_arbitrum_commit_hash = q.arbitrum_commit_hash;
  impl_build_info = [];
}

-- `a => (a === ContractNames.SequencerInbox ? -1 : 1)`, as whether it is negative
abbrev pub inbox_first : ContractNames → ContractNames → Bool
inbox_first a b = name_eq a sequencer_inbox

-- Once the upgrade is mined, the contract moves from the queue to the deployments.
abbrev pub record_update :
    ContractNames
    → QueuedUpdate
    → CurrentDeployment
    → QueuedUpdates
    → CurrentDeployments
    → Action (QueuedUpdates × CurrentDeployments)
record_update name q d queued tmp = do
  let tmp' = record tmp { contracts = insert name (new_deployment_data q d) tmp.contracts }
  write_tmp tmp'
  let queued' = erase name queued
  write_queued queued'
  pure (queued', tmp')

module _ (e : Env) where
  unfoldable pub send_update :
      ContractNames
      → QueuedUpdate
      → CurrentDeployment
      → QueuedUpdates
      → CurrentDeployments
      → Tx
      → Action (QueuedUpdates × CurrentDeployments)
  unfolding send
  send_update name q d queued tmp tx = do receipt ← send e tx; record_update name q d queued tmp

  -- An unknown contract is skipped.
  abbrev pub update_known :
      ContractNames
      → QueuedUpdates
      → CurrentDeployments
      → Option CurrentDeployment
      → Action (QueuedUpdates × CurrentDeployments)
  update_known name queued tmp none = pure (queued, tmp)
  update_known name queued tmp (some d) = do
    q ← or_throw (lookup name queued) type_error
    tx ← upgrade_tx name q d tmp
    send_update name q d queued tmp tx

  -- one round of the loop over the queued contracts
  unfoldable pub update_one :
      ContractNames
      → QueuedUpdates
      → CurrentDeployments
      → Action (QueuedUpdates × CurrentDeployments)
  update_one name queued tmp = update_known name queued tmp (lookup name tmp.contracts)

  unfoldable pub update_each :
      List ContractNames → QueuedUpdates → CurrentDeployments → Action CurrentDeployments
  update_each [] queued tmp = pure tmp
  update_each (name ∷ names) queued tmp = do
    s ← update_one name queued tmp
    update_each names s.0 s.1

  -- The impersonated owner on a fork, otherwise the first configured signer.
  abbrev pub get_signer : Bool → List Text → Text → Action Text
  get_signer true signers owner = pure owner
  get_signer false [] owner = throw no_signer
  get_signer false (s ∷ rest) owner = pure s

  abbrev pub contracts_to_update : QueuedUpdates → Action (List ContractNames)
  contracts_to_update [] = throw no_updates
  contracts_to_update (q ∷ queued) = pure (e.sort inbox_first (keys (q ∷ queued)))

  -- the end of a run: the loop's deployments become the current ones
  unfoldable pub finish_update : CurrentDeployments → Action Bool
  finish_update tmp = do write_current tmp; unlink_tmp; verify_current_implementations e

  -- the part of `updateImplementations` that works on the queue and the temporary deployments
  unfoldable pub upgrade_queued : QueuedUpdates → CurrentDeployments → Action Bool
  unfolding finish_update
  upgrade_queued queued tmp = do
    owner ← view (λ txs. e.owner txs tmp.proxy_admin_address)
    signer ← get_signer e.on_fork e.signers owner
    throw_if (not (same_address owner signer)) signer_not_owner
    names ← contracts_to_update queued
    tmp' ← update_each names queued tmp
    finish_update tmp'

  unfoldable pub update_implementations : Action Bool
  unfolding get_queued_updates get_deployments create_or_load_tmp_deployments_file upgrade_queued
  update_implementations = do
    await_compile e
    ensure_clean_git_tree e
    res ← verify_current_implementations e
    throw_if (not res) verification_failed
    queued ← get_queued_updates
    get_deployments
    tmp ← create_or_load_tmp_deployments_file
    upgrade_queued queued tmp
