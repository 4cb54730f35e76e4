-- ===== src/Upgrades/Files.antt =====
-- The deployment files: `getQueuedUpdates`, `getDeployments`, `createOrLoadTmpDeploymentsFile`,
-- `loadTmpDeployments` and the guards on the git tree and the compile task. The paths name one
-- file each for the network at hand; JSON that was written is read back as it was.
use token_bridge_contracts.Base.{
  Bool, false, not, Option, none, some, List, [], ◌∷◌, Text, codes, text_eq, includes,
  if◌then◌else◌,
}
use token_bridge_contracts.Contracts.{QueuedUpdates, CurrentDeployments}
use token_bridge_contracts.Upgrades.Chain.{Env}
use token_bridge_contracts.Upgrades.Monad.{
  Action, Answer, answer_text, compile_failed, local_changes, no_current_deployments, pure, throw,
  exit, or_throw, throw_if, modify, ask, ◌>>=◌, ◌>>◌,
}

-- `await compileTask`
abbrev pub await_compile : Env → Action Unit
await_compile e = throw_if (not e.compiles) compile_failed

-- `tree.split('\n').find(diff => diff.includes('contracts'))`
unfoldable pub changed_contract : List Text → Option Text
changed_contract [] = none
changed_contract (line ∷ rest) =
    if includes (codes "contracts") line then some line else changed_contract rest

abbrev pub found_change : Option Text → Action Unit
found_change none = pure tt
found_change (some line) = throw (local_changes line)

unfoldable pub ensure_clean_git_tree : Env → Action Unit
unfolding changed_contract
ensure_clean_git_tree e = found_change (changed_contract e.git_tree)

abbrev pub write_queued : QueuedUpdates → Action Unit
write_queued q = modify (λ w. record w { queued_file = some q })

abbrev pub write_current : CurrentDeployments → Action Unit
write_current d = modify (λ w. record w { current_file = some d })

abbrev pub write_tmp : CurrentDeployments → Action Unit
write_tmp d = modify (λ w. record w { tmp_file = some d })

abbrev pub unlink_tmp : Action Unit
unlink_tmp = modify (λ w. record w { tmp_file = none })

abbrev pub queued_or_new : Option QueuedUpdates → Action QueuedUpdates
queued_or_new none = write_queued [] >> pure []
queued_or_new (some q) = pure q

unfoldable pub get_queued_updates : Action QueuedUpdates
get_queued_updates w = queued_or_new w.queued_file w

unfoldable pub get_deployments : Action CurrentDeployments
get_deployments w = or_throw w.current_file no_current_deployments w

-- `res.value === 'Yes'`
abbrev pub is_yes : Answer → Bool
is_yes (answer_text t) = text_eq t (codes "Yes")
is_yes _ = false

abbrev pub resume_tmp : Option CurrentDeployments → Action (Option CurrentDeployments)
resume_tmp none = pure none
resume_tmp (some d) = do answer ← ask; if not (is_yes answer) then exit else pure (some d)

unfoldable pub load_tmp_deployments : Action (Option CurrentDeployments)
unfolding ask
load_tmp_deployments w = resume_tmp w.tmp_file w

abbrev pub tmp_or_new : CurrentDeployments → Option CurrentDeployments → Action CurrentDeployments
tmp_or_new current (some d) = pure d
tmp_or_new current none = write_tmp current >> pure current

unfoldable pub create_or_load_tmp_deployments_file : Action CurrentDeployments
unfolding get_deployments load_tmp_deployments
create_or_load_tmp_deployments_file = do
  current ← get_deployments
  val ← load_tmp_deployments
  tmp_or_new current val
