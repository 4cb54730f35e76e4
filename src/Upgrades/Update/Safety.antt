-- ===== src/Upgrades/Update/Safety.antt =====
-- `updateImplementations` as a whole: wherever it stops, the deployment files still say the same
-- of every contract.
use token_bridge_contracts.Base.{
  ◌≡◌, refl, sym, ◌∙◌, Bool, Option, none, some, List, [], ◌∷◌, Text, keys, true, false,
}
use token_bridge_contracts.Contracts.{
  ContractNames, QueuedUpdate, QueuedUpdates, CurrentDeployment, CurrentDeployments,
}
use token_bridge_contracts.Upgrades.Chain.{Env}
use token_bridge_contracts.Upgrades.Monad.{World, ◌>>=◌}
use token_bridge_contracts.Upgrades.Triples.{
  After, After-bind, After-weaken, After-weaken_left, After-all,
}
use token_bridge_contracts.Upgrades.Files.{
  get_queued_updates, queued_or_new, get_deployments, create_or_load_tmp_deployments_file,
  load_tmp_deployments, tmp_or_new,
}
use token_bridge_contracts.Upgrades.Verify.Reads.{
  Reads, SameFiles, Reads-then, SameFiles-refl, After-load, After-verify, throw_if-Reads,
  view-Reads, get_deployments-Reads, After-get_deployments, ensure_clean_git_tree-Reads,
}
use token_bridge_contracts.Upgrades.Update.{
  update_implementations, upgrade_queued, finish_update, update_each, get_signer,
  contracts_to_update, inbox_first,
}
use token_bridge_contracts.Upgrades.Update.Plan.{planned, Holds, Loop, Finished, update_each-Loop}

abbrev pub or_empty : Option QueuedUpdates → QueuedUpdates
or_empty none = []
or_empty (some q) = q

-- The temporary deployments count before the current ones.
abbrev pub plan_of :
    Option QueuedUpdates
    → Option CurrentDeployments
    → Option CurrentDeployments
    → ContractNames
    → Option CurrentDeployment
plan_of queued (some t) current n = planned (or_empty queued) t n
plan_of queued none (some c) n = planned (or_empty queued) c n
plan_of queued none none n = none

-- What the files plan for each contract.
abbrev pub world_plan : World → ContractNames → Option CurrentDeployment
world_plan w n = plan_of w.queued_file w.tmp_file w.current_file n

abbrev pub Kept : (ContractNames → Option CurrentDeployment) → World → Type 0
Kept plan w = (n : ContractNames) → world_plan w n ≡ plan n

module _ (plan : ContractNames → Option CurrentDeployment) where
  pub Kept-same : (w w' : World) → Kept plan w → SameFiles w w' → Kept plan w'
  Kept-same w w' h same n = rw (same.queued_file, same.tmp_file, same.current_file) (h n)

  pub Kept-Holds : (w : World) → Holds plan w → Kept plan w
  Kept-Holds w h n = rw (h.sync.queue, h.sync.temporary) (h.same_plan n)

  -- the queue is read
  abbrev Queued : QueuedUpdates → World → Type 0
  Queued q w = (w.queued_file ≡ some q) × Kept plan w

  queued_or_new-Queued :
      (w : World) (o : Option QueuedUpdates)
      → w.queued_file ≡ o
      → Kept plan w
      → After (Kept plan) Queued (queued_or_new o w)
  unfolding ◌>>=◌
  queued_or_new-Queued w none e h = (refl, λ n. rw e at (h n))
  queued_or_new-Queued w (some q) e h = (e, h)

  get_queued_updates-Queued :
      (w : World) → Kept plan w → After (Kept plan) Queued (get_queued_updates w)
  unfolding get_queued_updates
  get_queued_updates-Queued w h = queued_or_new-Queued w w.queued_file refl h

  module _ (q : QueuedUpdates) (w : World) (h : Queued q w) where
    tmp_or_new-Loop :
        (c : CurrentDeployments) (val : Option CurrentDeployments) (w' : World)
        → w.current_file ≡ some c
        → SameFiles w w'
        → val ≡ w.tmp_file
        → After (Kept plan) (λ t. Loop plan (q, t)) (tmp_or_new c val w')
    unfolding ◌>>=◌
    tmp_or_new-Loop c none w' is_current same e = (
      record { queue = same.queued_file ∙ h.0; temporary = refl },
      λ n. rw (h.0, ← e, is_current) at (h.1 n),
    )
    tmp_or_new-Loop c (some t) w' is_current same e = (
      record { queue = same.queued_file ∙ h.0; temporary = same.tmp_file ∙ sym e },
      λ n. rw (h.0, ← e) at (h.1 n),
    )

    create_or_load-Loop :
        After (Kept plan) (λ t. Loop plan (q, t)) (create_or_load_tmp_deployments_file w)
    unfolding create_or_load_tmp_deployments_file
    create_or_load-Loop =
        After-bind (Kept plan) (λ t. Loop plan (q, t)) _
          (λ c w'. (w' ≡ w) × (w.current_file ≡ some c)) get_deployments w
          (After-get_deployments (Kept plan) w h.1)
          λ c w₁ at_w. rw at_w.0 (
            After-bind (Kept plan) (λ t. Loop plan (q, t)) (tmp_or_new c)
              (λ val w'. SameFiles w w' × (val ≡ w.tmp_file)) load_tmp_deployments w
              (After-load (Kept plan) w (λ w'. Kept-same w w' h.1) w (SameFiles-refl w))
              λ val w₂ loaded. tmp_or_new-Loop c val w₂ at_w.1 loaded.0 loaded.1)

  -- from the loop's data to the end
  finish-Kept :
      (e : Env) (tmp : CurrentDeployments) (w : World)
      → Finished e plan tmp w
      → After (Kept plan) (λ _. Kept plan) (finish_update e tmp w)
  unfolding finish_update ◌>>=◌
  finish-Kept e tmp w h =
      let w₁ : World = record w { current_file = some tmp; tmp_file = none } in
      let keeps : Kept plan w₁ = λ n. rw h.1 at (Kept-Holds w h.0 n) in
      After-weaken (Kept plan) (λ _ w'. SameFiles w₁ w') (λ _. Kept plan) _ _
        (λ _ same. Kept-same w₁ _ keeps same)
        (After-verify (Kept plan) w₁ (λ w'. Kept-same w₁ w' keeps) e w₁ (SameFiles-refl w₁))

module _ (e : Env) where
  get_signer-Reads :
      (fork : Bool) (signers : List Text) (owner : Text) → Reads (get_signer e fork signers owner)
  get_signer-Reads true signers owner = record { same = λ w. refl }
  get_signer-Reads false [] owner = record { same = λ w. refl }
  get_signer-Reads false (s ∷ rest) owner = record { same = λ w. refl }

  contracts_to_update-Reads : (q : QueuedUpdates) → Reads (contracts_to_update e q)
  contracts_to_update-Reads [] = record { same = λ w. refl }
  contracts_to_update-Reads (q ∷ queued) = record { same = λ w. refl }

module _ (e : Env) (plan : ContractNames → Option CurrentDeployment)
    (P : Bool → World → Type 0) where
  pub After-upgrade_queued :
      (q : QueuedUpdates) (tmp : CurrentDeployments) (w : World)
      → Loop plan (q, tmp) w
      → ((first : ContractNames × QueuedUpdate) (rest : QueuedUpdates)
          → q ≡ first ∷ rest
          → After
              (Kept plan)
              P
              ((update_each e (e.sort inbox_first (keys q)) q tmp >>= finish_update e) w))
      → After (Kept plan) P (upgrade_queued e q tmp w)
  unfolding upgrade_queued
  After-upgrade_queued q tmp w h next =
      let kept : Kept plan w = λ n. rw (h.0.queue, h.0.temporary) (h.1 n) in
      Reads-then (Kept plan) P _ _ w (view-Reads (λ txs. e.owner txs tmp.proxy_admin_address)) kept
        λ owner.
          Reads-then (Kept plan) P _ _ w (get_signer-Reads e e.on_fork e.signers owner) kept
            λ signer. Reads-then (Kept plan) P _ _ w (throw_if-Reads _ _) kept λ _. go q next kept
    where
      go :
          (q : QueuedUpdates)
          → ((first : ContractNames × QueuedUpdate) (rest : QueuedUpdates)
              → q ≡ first ∷ rest
              → After
                  (Kept plan)
                  P
                  ((update_each e (e.sort inbox_first (keys q)) q tmp >>= finish_update e) w))
          → Kept plan w
          → After (Kept plan) P (
              (contracts_to_update e q >>= λ names. update_each e names q tmp >>= finish_update e)
                w)
      go [] next kept = unfold ◌>>=◌ in kept
      go (x ∷ rest) next kept = unfold ◌>>=◌ in next x rest refl

  -- What `upgrade_queued` does from the loop's first data is what a run does.
  pub After-update_implementations :
      (w : World)
      → Kept plan w
      → ((q : QueuedUpdates) (tmp : CurrentDeployments) (w' : World)
          → Loop plan (q, tmp) w'
          → After (Kept plan) P (upgrade_queued e q tmp w'))
      → After (Kept plan) P (update_implementations e w)
  unfolding update_implementations
  After-update_implementations w at_start next =
      Reads-then (Kept plan) P _ _ w (throw_if-Reads _ _) at_start λ _.
        Reads-then (Kept plan) P _ _ w (ensure_clean_git_tree-Reads e) at_start λ _.
          After-bind (Kept plan) P _ (λ _ w'. SameFiles w w') _ w
            (After-verify (Kept plan) w (λ w'. Kept-same plan w w' at_start) e w (SameFiles-refl w))
            λ res w₁ same.
              let kept : Kept plan w₁ = Kept-same plan w w₁ at_start same in
              Reads-then (Kept plan) P _ _ w₁ (throw_if-Reads _ _) kept λ _.
                After-bind (Kept plan) P _ (Queued plan) _ w₁
                  (get_queued_updates-Queued plan w₁ kept)
                  λ q w₂ queued. Reads-then (Kept plan) P _ _ w₂ get_deployments-Reads queued.1 λ _.
                    After-bind (Kept plan) P _ (λ t. Loop plan (q, t)) _ w₂
                      (create_or_load-Loop plan q w₂ queued) λ tmp w₃ loop. next q tmp w₃ loop

update_rounds-Kept :
    (e : Env) (plan : ContractNames → Option CurrentDeployment) (names : List ContractNames)
    (q : QueuedUpdates) (tmp : CurrentDeployments) (w : World)
    → Loop plan (q, tmp) w
    → After (Kept plan) (λ _. Kept plan) ((update_each e names q tmp >>= finish_update e) w)
update_rounds-Kept e plan names q tmp w h =
    After-bind (Kept plan) (λ _. Kept plan) _ (Finished e plan) (update_each e names q tmp) w
      (After-weaken_left (Holds plan) (Kept plan) (Finished e plan) _ _ (Kept-Holds plan _)
        (update_each-Loop e plan names q tmp w h))
      λ tmp' w'. finish-Kept plan e tmp' w'

-- Wherever `updateImplementations` stops, by a return, a throw or an exit, the queue and the
-- deployment files plan the same deployment for each contract as before.
pub update_implementations_plan :
    (e : Env) (w : World) (n : ContractNames)
    → world_plan (update_implementations e w).1 n ≡ world_plan w n
update_implementations_plan e w =
    let plan = world_plan w in
    After-all (Kept plan) _ _ (
      After-update_implementations e plan (λ _. Kept plan) w (λ n. refl)
        λ q tmp w' h.
          After-upgrade_queued e plan (λ _. Kept plan) q tmp w' h
            λ first rest is_q. update_rounds-Kept e plan _ q tmp w' h)
