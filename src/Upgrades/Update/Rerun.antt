-- ===== src/Upgrades/Update/Rerun.antt =====
-- A second run of `updateImplementations` after a first one that stopped anywhere.
use token_bridge_contracts.Base.{◌≡◌, refl, ◌∙◌, true, List}
use token_bridge_contracts.Contracts.{ContractNames, contains}
use token_bridge_contracts.Upgrades.Chain.{Env}
use token_bridge_contracts.Upgrades.Monad.{World}
use token_bridge_contracts.Upgrades.Triples.{After}
use token_bridge_contracts.Upgrades.Update.{update_implementations, inbox_first}
use token_bridge_contracts.Upgrades.Update.Safety.{Kept, world_plan, update_implementations_plan}
use token_bridge_contracts.Upgrades.Update.Completion.{Complete, completes-Kept}

world_plan-files :
    (w w' : World) (n : ContractNames)
    → w'.queued_file ≡ w.queued_file
    → w'.tmp_file ≡ w.tmp_file
    → w'.current_file ≡ w.current_file
    → world_plan w' n ≡ world_plan w n
world_plan-files w w' n queued tmp current = rw (queued, tmp, current) refl

-- Whatever happened in a first run, on whatever chain and with whatever answers: a later run that
-- starts from the files that the first one left, and returns, ends with the deployments that were
-- planned before the first run, provided that the engine's sort loses no element. In any other
-- outcome the files still plan these.
pub update_implementations_rerun :
    (e e' : Env)
    → ((xs : List ContractNames) (n : ContractNames)
        → contains n xs ≡ true
        → contains n (e'.sort inbox_first xs) ≡ true)
    → (w w' : World) → w'.queued_file ≡ (update_implementations e w).1.queued_file
    → w'.tmp_file ≡ (update_implementations e w).1.tmp_file
    → w'.current_file ≡ (update_implementations e w).1.current_file
    → After (Kept (world_plan w)) (λ _. Complete (world_plan w)) (update_implementations e' w')
update_implementations_rerun e e' sort_keeps w w' queued tmp current =
    completes-Kept e' sort_keeps (world_plan w) w' λ n.
      world_plan-files (update_implementations e w).1 w' n queued tmp current
      ∙ update_implementations_plan e w n
