-- ===== src/Upgrades/Deploy.antt =====
-- `deployLogic` and `deployLogicAll`: deploy implementations and queue them for the next upgrade.
pub mod Queue
pub mod Layers
use token_bridge_contracts.Base.{
  ℕ, ltb, ◌==◌, length, Bool, true, false, not, Option, none, some, List, [], ◌∷◌, keys, lookup,
  insert, if◌then◌else◌,
}
use token_bridge_contracts.Contracts.{
  ContractNames, rollup, name_eq, name_Eq, QueuedUpdate, QueuedUpdates, get_layer,
}
use token_bridge_contracts.Upgrades.Chain.{Tx, deploy, Receipt, Env}
use token_bridge_contracts.Upgrades.Monad.{
  Action, Answer, answer_bool, answer_text, answer_undefined, no_signer, wrong_layer, pure, throw,
  ask, send, ◌>>=◌, ◌>>◌,
}
use token_bridge_contracts.Upgrades.Files.{
  await_compile, ensure_clean_git_tree, get_queued_updates, get_deployments, write_queued,
}

abbrev pub rollup_constructor_val : ℕ
rollup_constructor_val = 42161

-- Whether JavaScript counts an answer as true.
abbrev pub is_truthy : Answer → Bool
is_truthy (answer_bool b) = b
is_truthy (answer_text []) = false
is_truthy (answer_text (c ∷ t)) = true
is_truthy answer_undefined = false

abbrev pub need_signer : {A : Type 0} → List A → Action Unit
need_signer [] = throw no_signer
need_signer (s ∷ rest) = pure tt

module _ (e : Env) where
  abbrev pub current_layer : ℕ
  current_layer = if ltb 2 (length e.arbsys_code) then 2 else 1

  -- The Rollup's constructor takes an argument.
  abbrev pub deploy_tx : ContractNames → Tx
  deploy_tx name =
      if name_eq name rollup then deploy name (some rollup_constructor_val) else deploy name none

  abbrev pub new_logic_data : Receipt → QueuedUpdate
  new_logic_data r = record {
    address = r.contract_address;
    deploy_txn = r.transaction_hash;
    arbitrum_commit_hash = e.current_commit;
    build_info = [];
  }

  -- whether to go on with a contract that may be queued already
  abbrev pub wants_deploy : Option QueuedUpdate → Action Bool
  wants_deploy none = pure true
  wants_deploy (some q) = do answer ← ask; pure (is_truthy answer)

  abbrev pub deploy_new : ContractNames → QueuedUpdates → Action QueuedUpdates
  deploy_new name queued =
      if not (get_layer name == current_layer) then throw (wrong_layer name) else (do
        receipt ← send e (deploy_tx name)
        let queued' = insert name (new_logic_data receipt) queued
        write_queued queued'
        pure queued')

  -- one round of the loop over the names
  unfoldable pub deploy_one : ContractNames → QueuedUpdates → Action QueuedUpdates
  unfolding ask send
  deploy_one name queued = do
    wanted ← wants_deploy (lookup name queued)
    if wanted then deploy_new name queued else pure queued

  unfoldable pub deploy_each : List ContractNames → QueuedUpdates → Action Unit
  deploy_each [] queued = pure tt
  deploy_each (name ∷ names) queued = do queued' ← deploy_one name queued; deploy_each names queued'

  unfoldable pub deploy_logic : List ContractNames → Action Unit
  unfolding ensure_clean_git_tree get_queued_updates
  deploy_logic names = do
    await_compile e
    ensure_clean_git_tree e
    need_signer e.signers
    queued ← get_queued_updates
    deploy_each names queued

  unfoldable pub deploy_logic_all : Action Unit
  unfolding deploy_logic get_deployments
  deploy_logic_all = do
    await_compile e
    deployments ← get_deployments
    deploy_logic (keys deployments.contracts)
