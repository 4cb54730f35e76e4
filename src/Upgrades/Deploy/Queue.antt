-- ===== src/Upgrades/Deploy/Queue.antt =====
-- What `deployLogic` does to the queue of updates, wherever it stops.
use mathlib.Core.Bool.{false≢true}
use token_bridge_contracts.Base.{
  ◌≡◌, ◌≢◌, refl, ◌∙◌, Bool, true, false, Option, none, some, List, [], ◌∷◌, lookup, insert,
  lookup-insert, inl, inr, Option-cases, Bool-cases, arith, if◌then◌else◌, ◌==◌,
}
use token_bridge_contracts.Contracts.{
  ContractNames, contains, name_eq, name_Eq, name_eq_iff, QueuedUpdate, QueuedUpdates, get_layer,
}
use token_bridge_contracts.Upgrades.Chain.{Env, Receipt}
use token_bridge_contracts.Upgrades.Monad.{◌>>◌, World, ◌>>=◌, send, ask, pure}
use token_bridge_contracts.Upgrades.Triples.{
  After, After-bind, After-weaken, After-weaken_left, After-send,
}
use token_bridge_contracts.Upgrades.Verify.Reads.{
  Reads, SameFiles, ask-Same, throw_if-Reads, ensure_clean_git_tree-Reads, Reads-then,
}
use token_bridge_contracts.Upgrades.Files.{write_queued, get_queued_updates, queued_or_new}
use token_bridge_contracts.Upgrades.Deploy.{
  deploy_tx, current_layer, need_signer, new_logic_data, wants_deploy, deploy_new, deploy_one,
  deploy_each, deploy_logic,
}

-- The queue file has an entry for each contract that it had one for, and the entries of the
-- contracts outside a list are as they were.
pub record Extends (names : List ContractNames) (q : QueuedUpdates) (w : World) : Type 0 where
  pub queued : QueuedUpdates
  pub file : w.queued_file ≡ some queued
  pub others : (n : ContractNames) → contains n names ≡ false → lookup n queued ≡ lookup n q
  pub kept : (n : ContractNames) → lookup n q ≢ none → lookup n queued ≢ none

-- and it is the queue of the loop, with an entry for a contract
abbrev HoldsQueue : QueuedUpdates → World → Type 0
HoldsQueue q w = w.queued_file ≡ some q

abbrev Queues : ContractNames → List ContractNames → QueuedUpdates → QueuedUpdates → World → Type 0
Queues name names q q' w =
    (w.queued_file ≡ some q')
    × ((n : ContractNames) → contains n (name ∷ names) ≡ false → lookup n q' ≡ lookup n q)
    × ((n : ContractNames) → lookup n q ≢ none → lookup n q' ≢ none)
    × (lookup name q' ≢ none)

insert_ne_none :
    (name n : ContractNames) (u : QueuedUpdate) (q : QueuedUpdates)
    → lookup n q ≢ none
    → lookup n (insert name u q) ≢ none
insert_ne_none name n u q h =
    rw lookup-insert
      (elim (Bool-cases (name_eq name n)) [ inl e ↦ rw e (λ c. cc) | inr e ↦ rw e h ])

insert_others :
    (name n : ContractNames) (u : QueuedUpdate) (names : List ContractNames) (q : QueuedUpdates)
    → contains n (name ∷ names) ≡ false
    → lookup n (insert name u q) ≡ lookup n q
insert_others name n u names q h = rw lookup-insert (ground arith)

insert_self :
    (name : ContractNames) (u : QueuedUpdate) (q : QueuedUpdates)
    → lookup name (insert name u q) ≢ none
insert_self name u q = rw (lookup-insert, (name_eq_iff name name).1 refl) (λ c. cc)

module _ (e : Env) (names : List ContractNames) where
  made-Queues :
      (name : ContractNames) (q : QueuedUpdates) (r : Receipt) (w : World)
      → After (HoldsQueue q) (Queues name names q) (
          (write_queued (insert name (new_logic_data e r) q)
              >> pure (insert name (new_logic_data e r) q))
            w)
  unfolding ◌>>=◌
  made-Queues name q r w = (
    refl,
    λ n. insert_others name n (new_logic_data e r) names q,
    λ n. insert_ne_none name n (new_logic_data e r) q,
    insert_self name (new_logic_data e r) q,
  )

  deploy_new-Queues :
      (name : ContractNames) (q : QueuedUpdates) (w : World)
      → w.queued_file ≡ some q
      → After (HoldsQueue q) (Queues name names q) (deploy_new e name q w)
  deploy_new-Queues name q w h = elim (Bool-cases (get_layer name == current_layer e)) [
    | inl right ↦ rw right (
        After-bind (HoldsQueue q) (Queues name names q) _
          (λ _ w'. w' ≡ record w { txs = deploy_tx e name ∷ w.txs }) (send e (deploy_tx e name)) w
          (After-send (HoldsQueue q) e (deploy_tx e name) w h) λ r w' _. made-Queues name q r w')
    | inr wrong ↦ rw wrong h
  ]

  -- the choice whether to deploy, and what follows it
  chosen-Queues :
      (name : ContractNames) (q : QueuedUpdates) (wanted : Bool) (w : World)
      → w.queued_file ≡ some q
      → (lookup name q ≡ none → wanted ≡ true)
      → After
          (HoldsQueue q)
          (Queues name names q)
          ((if wanted then deploy_new e name q else pure q) w)
  chosen-Queues name q true w h first = deploy_new-Queues name q w h
  chosen-Queues name q false w h first =
      (h, λ n _. refl, λ n k. k, λ missing. false≢true (first missing))

  deploy_one-Queues :
      (name : ContractNames) (q : QueuedUpdates) (w : World)
      → w.queued_file ≡ some q
      → After (HoldsQueue q) (Queues name names q) (deploy_one e name q w)
  unfolding deploy_one
  deploy_one-Queues name q w h = elim (Option-cases (lookup name q)) [
    | inl new ↦ rw new (unfold ◌>>=◌ in chosen-Queues name q true w h (λ _. refl))
    | inr (u, old) ↦ rw old (
        After-bind (HoldsQueue q) (Queues name names q) _ (λ _. HoldsQueue q)
          (wants_deploy e (some u)) w
          (After-bind (HoldsQueue q) (λ _. HoldsQueue q) _ (λ _ w'. SameFiles w w') ask w
            (ask-Same (HoldsQueue q) w (λ w' same. same.queued_file ∙ h))
            λ a w' same. same.queued_file ∙ h)
          λ wanted w' h'. chosen-Queues name q wanted w' h' (λ missing. cc))
  ]

-- The same, with an entry for each contract of the list.
pub record AllQueued (names : List ContractNames) (q : QueuedUpdates) (w : World) : Type 0 where
  pub extends : Extends names q w
  pub listed : (n : ContractNames) → contains n names ≡ true → lookup n extends.queued ≢ none

Extends-cons :
    (name : ContractNames) (names : List ContractNames) (q q' : QueuedUpdates) (w w' : World)
    → Queues name names q q' w
    → Extends names q' w'
    → Extends (name ∷ names) q w'
Extends-cons name names q q' w w' step rest = record {
  queued = rest.queued;
  file = rest.file;
  others = λ n out. rest.others n (not_in_tail n out) ∙ step.1 n out;
  kept = λ n there. rest.kept n (step.2 n there);
}
  where
    not_in_tail : (n : ContractNames) → contains n (name ∷ names) ≡ false → contains n names ≡ false
    not_in_tail n out = ground arith

AllQueued-cons :
    (name : ContractNames) (names : List ContractNames) (q q' : QueuedUpdates) (w w' : World)
    → Queues name names q q' w
    → AllQueued names q' w'
    → AllQueued (name ∷ names) q w'
unfolding Extends-cons
AllQueued-cons name names q q' w w' step rest = record {
  extends = Extends-cons name names q q' w w' step rest.extends;
  listed = λ n listed. elim (Bool-cases (name_eq name n)) [
    | inl here ↦ rest.extends.kept n (rw ((name_eq_iff name n).0 here) at step.3)
    | inr there ↦ rest.listed n (rw there at listed)
  ];
}

-- a queue file that is there is read
get_queued :
    (E : World → Type 0) (q : QueuedUpdates) (w : World)
    → w.queued_file ≡ some q
    → After E (λ q' w'. (q' ≡ q) × (w' ≡ w)) (get_queued_updates w)
unfolding get_queued_updates
get_queued E q w h = go w.queued_file h
  where
    go :
        (o : Option QueuedUpdates)
        → o ≡ some q
        → After E (λ q' w'. (q' ≡ q) × (w' ≡ w)) (queued_or_new o w)
    go none e = cc
    go (some q') e = (cc, refl)

pub need_signer-Reads : {A : Type 0} (signers : List A) → Reads (need_signer signers)
need_signer-Reads [] = record { same = λ w. refl }
need_signer-Reads (s ∷ rest) = record { same = λ w. refl }

module _ (e : Env) where
  Extends-refl :
      (names : List ContractNames) (q : QueuedUpdates) (w : World)
      → w.queued_file ≡ some q
      → Extends names q w
  Extends-refl names q w h = record { queued = q; file = h; others = λ n _. refl; kept = λ n k. k }

  deploy_each-AllQueued :
      (names : List ContractNames) (q : QueuedUpdates) (w : World)
      → w.queued_file ≡ some q
      → After (Extends names q) (λ _. AllQueued names q) (deploy_each e names q w)
  unfolding deploy_each
  deploy_each-AllQueued [] q w h = record {
    extends = Extends-refl [] q w h;
    listed = λ n c. absurd (false≢true c);
  }
  deploy_each-AllQueued (name ∷ names) q w h =
      After-bind (Extends (name ∷ names) q) (λ _. AllQueued (name ∷ names) q) (deploy_each e names)
        (Queues name names q) (deploy_one e name q) w
        (After-weaken_left (HoldsQueue q) (Extends (name ∷ names) q) (Queues name names q) _ _
          (Extends-refl (name ∷ names) q _) (deploy_one-Queues e names name q w h))
        λ q' w₁ step.
          After-weaken_left (Extends names q') (Extends (name ∷ names) q)
            (λ _. AllQueued (name ∷ names) q) _ _ (Extends-cons name names q q' w₁ _ step)
            (After-weaken (Extends names q') (λ _. AllQueued names q')
              (λ _. AllQueued (name ∷ names) q) _ _ (λ _. AllQueued-cons name names q q' w₁ _ step)
              (deploy_each-AllQueued names q' w₁ step.0))

  -- If the queue file is there and `deployLogic` returns, then each contract that was asked for
  -- has an entry in the queue file. In every outcome no entry is lost, and the entries of the
  -- other contracts are as they were.
  pub deploy_logic_queues :
      (names : List ContractNames) (q : QueuedUpdates) (w : World)
      → w.queued_file ≡ some q
      → After (Extends names q) (λ _. AllQueued names q) (deploy_logic e names w)
  unfolding deploy_logic
  deploy_logic_queues names q w h =
      let E = Extends names q in
      let at : E w = Extends-refl names q w h in
      Reads-then E (λ _. AllQueued names q) _ _ w (throw_if-Reads _ _) at
        λ _.
          Reads-then E (λ _. AllQueued names q) _ _ w (ensure_clean_git_tree-Reads e) at
            λ _.
              Reads-then E (λ _. AllQueued names q) _ _ w (need_signer-Reads e.signers) at
                λ _.
                  After-bind E (λ _. AllQueued names q) (deploy_each e names)
                    (λ q' w'. (q' ≡ q) × (w' ≡ w)) get_queued_updates w (get_queued E q w h)
                    λ q' w' same. rw (same.0, same.1) (deploy_each-AllQueued names q w h)
