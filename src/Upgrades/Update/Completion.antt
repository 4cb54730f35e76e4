-- ===== src/Upgrades/Update/Completion.antt =====
-- A run of `updateImplementations` that returns has made every queued update of a known contract.
use mathlib.Core.Bool.{false≢true}
use token_bridge_contracts.Base.{
  ◌≡◌, refl, sym, ap, ◌∙◌, true, Option, none, some, List, [], ◌∷◌, keys, lookup, erase,
  lookup-insert, lookup-erase, inl, inr, ◌⊎◌, Option-cases, Bool-cases,
}
use token_bridge_contracts.Contracts.{
  ContractNames, contains, contains-keys, name_eq, name_Eq, name_eq_iff, QueuedUpdate,
  QueuedUpdates, CurrentDeployment, CurrentDeployments,
}
use token_bridge_contracts.Upgrades.Chain.{Env, Tx}
use token_bridge_contracts.Upgrades.Monad.{World, ◌>>=◌, send}
use token_bridge_contracts.Upgrades.Triples.{
  After, After-bind, After-weaken, After-Any, After-send, After-both, After-weaken_left, Any,
}
use token_bridge_contracts.Upgrades.Update.{
  upgrade_tx, record_update, send_update, update_known, update_one, update_each, inbox_first,
  update_implementations, finish_update,
}
use token_bridge_contracts.Upgrades.Update.Plan.{
  planned, moved, InSync, Loop, Holds, Finished, update_each-Loop,
}
use token_bridge_contracts.Upgrades.Update.Safety.{
  Kept, world_plan, Kept-same, Kept-Holds, After-upgrade_queued, After-update_implementations,
}
use token_bridge_contracts.Upgrades.Verify.Reads.{SameFiles, SameFiles-refl, After-verify}

-- Nothing is queued for the contract, or it is unknown.
abbrev pub Drained : QueuedUpdates → CurrentDeployments → ContractNames → Type 0
Drained q t n = planned q t n ≡ lookup n t.contracts

Drained-unknown :
    (q : QueuedUpdates) (t : CurrentDeployments) (n : ContractNames)
    → lookup n t.contracts ≡ none
    → Drained q t n
Drained-unknown q t n h = rw h

Drained-unqueued :
    (q : QueuedUpdates) (t : CurrentDeployments) (n : ContractNames)
    → lookup n q ≡ none
    → Drained q t n
Drained-unqueued q t n h = elim (Option-cases (lookup n t.contracts)) [
  | inl e ↦ rw (h, e)
  | inr (d, e) ↦ rw (h, e)
]

Drained-moved :
    (name : ContractNames) (q : QueuedUpdate) (d : CurrentDeployment) (queued : QueuedUpdates)
    (tmp : CurrentDeployments) (n : ContractNames)
    → (name ≡ n) ⊎ Drained queued tmp n
    → Drained (erase name queued) (moved name q d tmp) n
Drained-moved name q d queued tmp n h =
    rw (lookup-insert, lookup-erase)
      (elim (Bool-cases (name_eq name n)) [
        | inl e ↦ rw e
        | inr e ↦ rw e (elim h [
          | inl same ↦ absurd (false≢true (sym e ∙ (name_eq_iff name n).1 same))
          | inr drained ↦ drained
        ])
      ])

-- What one round does to the contracts that are drained.
abbrev Step :
    ContractNames
    → QueuedUpdates
    → CurrentDeployments
    → QueuedUpdates × CurrentDeployments
    → World
    → Type 0
Step name q t s w =
    InSync s.0 s.1 w × ((n : ContractNames) → (name ≡ n) ⊎ Drained q t n → Drained s.0 s.1 n)

module _ (e : Env) where
  send_update-Step :
      (name : ContractNames) (u : QueuedUpdate) (d : CurrentDeployment) (q : QueuedUpdates)
      (t : CurrentDeployments) (tx : Tx) (w : World)
      → After Any (Step name q t) (send_update e name u d q t tx w)
  unfolding send_update ◌>>=◌
  send_update-Step name u d q t tx w =
      After-bind Any (Step name q t) (λ _. record_update name u d q t)
        (λ _ w'. w' ≡ record w { txs = tx ∷ w.txs }) (send e tx) w (After-send Any e tx w tt)
        λ r w' same. (record { queue = refl; temporary = refl }, Drained-moved name u d q t)

  update_known-Step :
      (name : ContractNames) (q : QueuedUpdates) (t : CurrentDeployments) (w : World)
      (known : Option CurrentDeployment)
      → lookup name t.contracts ≡ known
      → InSync q t w
      → After Any (Step name q t) (update_known e name q t known w)
  unfolding ◌>>=◌
  update_known-Step name q t w none is_known h = (
    h,
    λ n. elim [ inl same ↦ Drained-unknown q t n (rw same at is_known) | inr drained ↦ drained ],
  )
  update_known-Step name q t w (some d) is_known h = elim (Option-cases (lookup name q)) [
    | inl missing ↦ rw missing tt
    | inr (u, waiting) ↦ rw waiting (
        After-bind Any (Step name q t) (send_update e name u d q t) (λ _ _. Unit)
          (upgrade_tx name u d t) w (After-Any (λ _ _. Unit) _ _ λ tx. tt)
          λ tx w' _. send_update-Step name u d q t tx w')
  ]

  update_one-Step :
      (name : ContractNames) (q : QueuedUpdates) (t : CurrentDeployments) (w : World)
      → InSync q t w
      → After Any (Step name q t) (update_one e name q t w)
  unfolding update_one
  update_one-Step name q t w h = update_known-Step name q t w (lookup name t.contracts) refl h

  -- the files after the loop: what was drained or in the list is drained
  abbrev LoopDone :
      List ContractNames → QueuedUpdates → CurrentDeployments → CurrentDeployments → World → Type 0
  LoopDone names q t t' w =
      (q' : QueuedUpdates) × InSync q' t' w
      × ((n : ContractNames) → (contains n names ≡ true) ⊎ Drained q t n → Drained q' t' n)

  LoopDone-cons :
      (name : ContractNames) (names : List ContractNames) (q : QueuedUpdates)
      (t : CurrentDeployments) (s : QueuedUpdates × CurrentDeployments) (w : World)
      (t' : CurrentDeployments) (w' : World)
      → Step name q t s w
      → LoopDone names s.0 s.1 t' w'
      → LoopDone (name ∷ names) q t t' w'
  LoopDone-cons name names q t s w t' w' step (q', sync, rest) = (
    q',
    sync,
    λ n. elim [
      | inl listed ↦ rest n (elim (Bool-cases (name_eq name n)) [
        | inl here ↦ inr (step.1 n (inl ((name_eq_iff name n).0 here)))
        | inr there ↦ inl (rw there at listed)
      ])
      | inr drained ↦ rest n (inr (step.1 n (inr drained)))
    ],
  )

  update_each-Done :
      (names : List ContractNames) (q : QueuedUpdates) (t : CurrentDeployments) (w : World)
      → InSync q t w
      → After Any (LoopDone names q t) (update_each e names q t w)
  unfolding update_each
  update_each-Done [] q t w h = (q, h, λ n. elim [ inl listed ↦ cc | inr drained ↦ drained ])
  update_each-Done (name ∷ names) q t w h =
      After-bind Any (LoopDone (name ∷ names) q t) (λ s. update_each e names s.0 s.1)
        (Step name q t) (update_one e name q t) w (update_one-Step name q t w h)
        λ s w₁ step.
          After-weaken Any (LoopDone names s.0 s.1) (LoopDone (name ∷ names) q t) _ _
            (λ t' done. LoopDone-cons name names q t s w₁ t' _ step done)
            (update_each-Done names s.0 s.1 w₁ step.0)

-- The temporary file is gone, and the current deployments are those that were planned.
pub record Complete (plan : ContractNames → Option CurrentDeployment) (w : World) : Type 0 where
  pub removed : w.tmp_file ≡ none
  pub deployments : CurrentDeployments
  pub written : w.current_file ≡ some deployments
  pub as_planned : (n : ContractNames) → lookup n deployments.contracts ≡ plan n

module _ (e : Env) (plan : ContractNames → Option CurrentDeployment) where
  Complete-of :
      (t : CurrentDeployments) (w w₁ w' : World) (q : QueuedUpdates)
      → w₁ ≡ record w { current_file = some t; tmp_file = none }
      → InSync q t w
      → ((n : ContractNames) → Drained q t n)
      → Kept plan w
      → SameFiles w₁ w'
      → Complete plan w'
  Complete-of t w w₁ w' q is_w₁ sync drained kept same = record {
    removed = same.tmp_file ∙ ap (λ (v : World). v.tmp_file) is_w₁;
    deployments = t;
    written = same.current_file ∙ ap (λ (v : World). v.current_file) is_w₁;
    as_planned = λ n. sym (drained n) ∙ rw (sync.queue, sync.temporary) at (kept n);
  }

  finish-Complete :
      (t : CurrentDeployments) (w : World) (q : QueuedUpdates)
      → InSync q t w
      → ((n : ContractNames) → Drained q t n)
      → Kept plan w
      → After (Kept plan) (λ _. Complete plan) (finish_update e t w)
  unfolding finish_update ◌>>=◌
  finish-Complete t w q sync drained kept =
      let w₁ : World = record w { current_file = some t; tmp_file = none } in
      let keeps : Kept plan w₁ = λ n. rw sync.temporary at (kept n) in
      After-weaken (Kept plan) (λ _ w'. SameFiles w₁ w') (λ _. Complete plan) _ _
        (λ _ same. Complete-of t w w₁ _ q refl sync drained kept same)
        (After-verify (Kept plan) w₁ (λ w'. Kept-same plan w₁ w' keeps) e w₁ (SameFiles-refl w₁))

module _ (e : Env)
    (sort_keeps : (xs : List ContractNames) (n : ContractNames)
      → contains n xs ≡ true
      → contains n (e.sort inbox_first xs) ≡ true) where
  all-Drained :
      (q q' : QueuedUpdates) (t t' : CurrentDeployments)
      → ((n : ContractNames)
          → (contains n (e.sort inbox_first (keys q)) ≡ true) ⊎ Drained q t n
          → Drained q' t' n)
      → (n : ContractNames) → Drained q' t' n
  all-Drained q q' t t' done n = elim (Option-cases (lookup n q)) [
    | inl missing ↦ done n (inr (Drained-unqueued q t n missing))
    | inr (v, queued) ↦ done n (inl (sort_keeps (keys q) n (contains-keys n q v queued)))
  ]

  update_rounds-Complete :
      (plan : ContractNames → Option CurrentDeployment) (q : QueuedUpdates) (t : CurrentDeployments)
      (w : World)
      → Loop plan (q, t) w
      → After
          (Kept plan)
          (λ _. Complete plan)
          ((update_each e (e.sort inbox_first (keys q)) q t >>= finish_update e) w)
  update_rounds-Complete plan q t w h =
      let names = e.sort inbox_first (keys q) in
      After-bind (Kept plan) (λ _. Complete plan) _
        (λ t' w'. Finished e plan t' w' × LoopDone e names q t t' w') (update_each e names q t) w
        (After-both (Kept plan) Any (Finished e plan) (LoopDone e names q t) _ _
          (After-weaken_left (Holds plan) (Kept plan) (Finished e plan) _ _ (Kept-Holds plan _)
            (update_each-Loop e plan names q t w h))
          (update_each-Done e names q t w h.0))
        λ t' w' (finished, done).
          finish-Complete e plan t' w' done.0 done.1 (all-Drained q done.0 t t' done.2)
            (Kept-Holds plan w' finished.0)

  -- the same for any plan that the files keep
  pub completes-Kept :
      (plan : ContractNames → Option CurrentDeployment) (w : World)
      → Kept plan w
      → After (Kept plan) (λ _. Complete plan) (update_implementations e w)
  completes-Kept plan w kept =
      After-update_implementations e plan (λ _. Complete plan) w kept
        λ q t w' h.
          After-upgrade_queued e plan (λ _. Complete plan) q t w' h
            λ first rest is_q. update_rounds-Complete plan q t w' h

  -- Where the engine's sort loses no element: if `updateImplementations` returns, then the
  -- temporary file is gone, and the current deployments are, for every contract, those that the
  -- queue and the files planned at the start. In any other outcome the files plan the same as before.
  pub update_implementations_completes :
      (w : World)
      → After (Kept (world_plan w)) (λ _. Complete (world_plan w)) (update_implementations e w)
  update_implementations_completes w = completes-Kept (world_plan w) w λ n. refl
