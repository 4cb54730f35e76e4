-- ===== src/Upgrades/Update/Plan.antt =====
-- What the files say that each contract is going to run, and that `updateImplementations` keeps
-- it wherever it stops.
use token_bridge_contracts.Base.{
  ◌≡◌, refl, ◌∙◌, inl, inr, Option, none, some, List, [], ◌∷◌, lookup, insert, erase, lookup-insert,
  lookup-erase, Option-cases, Bool-cases, arith,
}
use token_bridge_contracts.Contracts.{
  ContractNames, name_eq, name_Eq, name_eq_iff, QueuedUpdate, QueuedUpdates, CurrentDeployment,
  CurrentDeployments,
}
use token_bridge_contracts.Upgrades.Chain.{Tx, Env}
use token_bridge_contracts.Upgrades.Monad.{World, send, ◌>>=◌}
use token_bridge_contracts.Upgrades.Triples.{After, After-bind, After-same, After-send}
use token_bridge_contracts.Upgrades.Update.{
  upgrade_tx, new_deployment_data, record_update, send_update, update_known, update_one,
  update_each,
}

abbrev apply_queued : Option QueuedUpdate → Option CurrentDeployment → Option CurrentDeployment
apply_queued q none = none
apply_queued none (some d) = some d
apply_queued (some q) (some d) = some (new_deployment_data q d)

-- The deployment of each known contract once all queued updates are made.
abbrev pub planned : QueuedUpdates → CurrentDeployments → ContractNames → Option CurrentDeployment
planned queued tmp n = apply_queued (lookup n queued) (lookup n tmp.contracts)

-- The files hold the data that the loop holds.
pub record InSync (queued : QueuedUpdates) (tmp : CurrentDeployments) (w : World) : Type 0 where
  pub queue : w.queued_file ≡ some queued
  pub temporary : w.tmp_file ≡ some tmp

-- The files hold some queue and temporary deployments with the given plan.
pub record Holds (plan : ContractNames → Option CurrentDeployment) (w : World) : Type 0 where
  pub queued : QueuedUpdates
  pub tmp : CurrentDeployments
  pub sync : InSync queued tmp w
  pub same_plan : (n : ContractNames) → planned queued tmp n ≡ plan n

abbrev pub moved :
    ContractNames → QueuedUpdate → CurrentDeployment → CurrentDeployments → CurrentDeployments
moved name q d tmp = record tmp { contracts = insert name (new_deployment_data q d) tmp.contracts }

module _ (name : ContractNames) (q : QueuedUpdate) (d : CurrentDeployment) (queued : QueuedUpdates)
    (tmp : CurrentDeployments) (known : lookup name tmp.contracts ≡ some d)
    (waiting : lookup name queued ≡ some q) where
  -- after the write of the temporary file, before that of the queue
  pub planned-moved :
      (n : ContractNames) → planned queued (moved name q d tmp) n ≡ planned queued tmp n
  planned-moved n = rw lookup-insert (elim (Bool-cases (name_eq name n)) [
    | inl e ↦ rw e (rw (← (name_eq_iff name n).0 e) (rw (known, waiting)))
    | inr e ↦ rw e
  ])

  pub planned-moved_erased :
      (n : ContractNames)
      → planned (erase name queued) (moved name q d tmp) n ≡ planned queued tmp n
  planned-moved_erased n =
      rw (lookup-insert, lookup-erase)
        (elim (Bool-cases (name_eq name n)) [
          | inl e ↦ rw e (rw (← (name_eq_iff name n).0 e) (rw (known, waiting)))
          | inr e ↦ rw e
        ])

-- Choosing the transaction changes nothing.
upgrade_tx-world :
    (name : ContractNames) (q : QueuedUpdate) (d : CurrentDeployment) (tmp : CurrentDeployments)
    (w : World)
    → (upgrade_tx name q d tmp w).1 ≡ w
unfolding upgrade_tx ◌>>=◌
upgrade_tx-world name q d tmp w = ground arith

abbrev pub Loop :
    (ContractNames → Option CurrentDeployment) → QueuedUpdates × CurrentDeployments → World → Type 0
Loop plan (queued, tmp) w =
    InSync queued tmp w × ((n : ContractNames) → planned queued tmp n ≡ plan n)

Holds-Loop :
    (plan : ContractNames → Option CurrentDeployment) (s : QueuedUpdates × CurrentDeployments)
    (w : World)
    → Loop plan s w
    → Holds plan w
Holds-Loop plan (queued, tmp) w (sync, same) = record {
  queued = queued;
  tmp = tmp;
  sync = sync;
  same_plan = same;
}

module _ (e : Env) (plan : ContractNames → Option CurrentDeployment) where
  send_update-Loop :
      (name : ContractNames) (q : QueuedUpdate) (d : CurrentDeployment) (queued : QueuedUpdates)
      (tmp : CurrentDeployments) (tx : Tx) (w : World)
      → lookup name tmp.contracts ≡ some d
      → lookup name queued ≡ some q
      → Loop plan (queued, tmp) w
      → After (Holds plan) (Loop plan) (send_update e name q d queued tmp tx w)
  unfolding send_update ◌>>=◌
  send_update-Loop name q d queued tmp tx w known waiting h =
      After-bind (Holds plan) (Loop plan) (λ _. record_update name q d queued tmp)
        (λ _ w'. w' ≡ record w { txs = tx ∷ w.txs }) (send e tx) w
        (After-send (Holds plan) e tx w (Holds-Loop plan (queued, tmp) w h))
        λ r w' same. (
          record { queue = refl; temporary = refl },
          λ n. planned-moved_erased name q d queued tmp known waiting n ∙ h.1 n,
        )

  update_known-Loop :
      (name : ContractNames) (queued : QueuedUpdates) (tmp : CurrentDeployments) (w : World)
      (known : Option CurrentDeployment)
      → lookup name tmp.contracts ≡ known
      → Loop plan (queued, tmp) w
      → After (Holds plan) (Loop plan) (update_known e name queued tmp known w)
  unfolding ◌>>=◌
  update_known-Loop name queued tmp w none is_known h = h
  update_known-Loop name queued tmp w (some d) is_known h =
      elim (Option-cases (lookup name queued)) [
        | inl missing ↦ rw missing (Holds-Loop plan (queued, tmp) w h)
        | inr (q, waiting) ↦ rw waiting (
            After-bind (Holds plan) (Loop plan) (send_update e name q d queued tmp) (λ _ w'. w' ≡ w)
              (upgrade_tx name q d tmp) w
              (After-same (Holds plan) w _ _ (upgrade_tx-world name q d tmp w)
                (Holds-Loop plan (queued, tmp) w h))
              λ tx w' same. rw same (send_update-Loop name q d queued tmp tx w is_known waiting h))
      ]

  update_one-Loop :
      (name : ContractNames) (queued : QueuedUpdates) (tmp : CurrentDeployments) (w : World)
      → Loop plan (queued, tmp) w
      → After (Holds plan) (Loop plan) (update_one e name queued tmp w)
  unfolding update_one
  update_one-Loop name queued tmp w h =
      update_known-Loop name queued tmp w (lookup name tmp.contracts) refl h

  abbrev pub Finished : CurrentDeployments → World → Type 0
  Finished tmp w = Holds plan w × (w.tmp_file ≡ some tmp)

  pub update_each-Loop :
      (names : List ContractNames) (queued : QueuedUpdates) (tmp : CurrentDeployments) (w : World)
      → Loop plan (queued, tmp) w
      → After (Holds plan) Finished (update_each e names queued tmp w)
  unfolding update_each
  update_each-Loop [] queued tmp w h = (Holds-Loop plan (queued, tmp) w h, h.0.temporary)
  update_each-Loop (name ∷ names) queued tmp w h =
      After-bind (Holds plan) Finished (λ s. update_each e names s.0 s.1) (Loop plan)
        (update_one e name queued tmp) w (update_one-Loop name queued tmp w h)
        λ s w' l. update_each-Loop names s.0 s.1 w' l
