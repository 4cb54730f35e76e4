-- ===== src/Upgrades/Deploy/Layers.antt =====
-- What `deployLogic` sends to the chain, wherever it stops.
use token_bridge_contracts.Base.{
  ◌≡◌, refl, ◌∙◌, ap, Bool, true, false, Option, none, some, List, [], ◌∷◌, ◌++◌, inl, inr,
  Bool-cases, if◌then◌else◌, ◌==◌, ==_iff, All, lookup, insert,
}
use token_bridge_contracts.Contracts.{
  ContractNames, name_Eq, QueuedUpdate, QueuedUpdates, get_layer,
}
use token_bridge_contracts.Upgrades.Chain.{Env, Tx}
use token_bridge_contracts.Upgrades.Monad.{World, ◌>>=◌, ◌>>◌, send, ask, pure}
use token_bridge_contracts.Upgrades.Triples.{After, After-bind, After-all, After-send}
use token_bridge_contracts.Upgrades.Verify.Reads.{
  SameFiles, ask-Same, throw_if-Reads, ensure_clean_git_tree-Reads, Reads-then,
}
use token_bridge_contracts.Upgrades.Files.{write_queued, get_queued_updates, queued_or_new}
use token_bridge_contracts.Upgrades.Deploy.{
  deploy_tx, current_layer, new_logic_data, wants_deploy, deploy_new, deploy_one, deploy_each,
  deploy_logic,
}
use token_bridge_contracts.Upgrades.Deploy.Queue.{need_signer-Reads}

module _ (e : Env) where
  -- the creation of a contract that belongs to the chain at hand
  abbrev pub OnLayer : Tx → Type 0
  OnLayer tx = (n : ContractNames) × (tx ≡ deploy_tx e n) × (get_layer n ≡ current_layer e)

  -- Since some list of transactions, only such creations were mined.
  pub record OnlyOnLayer (txs : List Tx) (w : World) : Type 0 where
    pub added : List Tx
    pub sent : w.txs ≡ added ++ txs
    pub on_layer : All OnLayer added

  module _ (txs : List Tx) where
    OnlyOnLayer-same : (w w' : World) → OnlyOnLayer txs w → w'.txs ≡ w.txs → OnlyOnLayer txs w'
    OnlyOnLayer-same w w' h same = record {
      added = h.added;
      sent = same ∙ h.sent;
      on_layer = h.on_layer;
    }

    OnlyOnLayer-deploy :
        (name : ContractNames) (w : World)
        → get_layer name ≡ current_layer e
        → OnlyOnLayer txs w
        → OnlyOnLayer txs (record w { txs = deploy_tx e name ∷ w.txs })
    OnlyOnLayer-deploy name w right h = record {
      added = deploy_tx e name ∷ h.added;
      sent = ap (λ (t : List Tx). deploy_tx e name ∷ t) h.sent;
      on_layer = ((name, refl, right), h.on_layer);
    }

    abbrev Always : {A : Type 0} → A → World → Type 0
    Always _ = OnlyOnLayer txs

    write-Always :
        (q : QueuedUpdates) (w : World)
        → OnlyOnLayer txs w
        → After (OnlyOnLayer txs) Always ((write_queued q >> pure q) w)
    unfolding ◌>>=◌
    write-Always q w h = OnlyOnLayer-same w _ h refl

    deploy_new-Always :
        (name : ContractNames) (q : QueuedUpdates) (w : World)
        → OnlyOnLayer txs w
        → After (OnlyOnLayer txs) Always (deploy_new e name q w)
    deploy_new-Always name q w h = elim (Bool-cases (get_layer name == current_layer e)) [
      | inl right ↦ rw right (
          After-bind (OnlyOnLayer txs) Always _
            (λ _ w'. w' ≡ record w { txs = deploy_tx e name ∷ w.txs }) (send e (deploy_tx e name)) w
            (After-send (OnlyOnLayer txs) e (deploy_tx e name) w h)
            λ r w' sent.
              write-Always (insert name (new_logic_data e r) q) w'
                (rw sent (OnlyOnLayer-deploy name w ((==_iff _ _).0 right) h)))
      | inr wrong ↦ rw wrong h
    ]

    chosen-Always :
        (name : ContractNames) (q : QueuedUpdates) (wanted : Bool) (w : World)
        → OnlyOnLayer txs w
        → After (OnlyOnLayer txs) Always ((if wanted then deploy_new e name q else pure q) w)
    chosen-Always name q true w h = deploy_new-Always name q w h
    chosen-Always name q false w h = h

    wants_deploy-Always :
        (o : Option QueuedUpdate) (w : World)
        → OnlyOnLayer txs w
        → After (OnlyOnLayer txs) Always (wants_deploy e o w)
    wants_deploy-Always none w h = h
    wants_deploy-Always (some u) w h =
        After-bind (OnlyOnLayer txs) Always _ (λ _ w'. SameFiles w w') ask w
          (ask-Same (OnlyOnLayer txs) w (λ w' same. OnlyOnLayer-same w w' h same.txs))
          λ a w' same. OnlyOnLayer-same w w' h same.txs

    deploy_each-Always :
        (names : List ContractNames) (q : QueuedUpdates) (w : World)
        → OnlyOnLayer txs w
        → After (OnlyOnLayer txs) Always (deploy_each e names q w)
    unfolding deploy_each deploy_one
    deploy_each-Always [] q w h = h
    deploy_each-Always (name ∷ names) q w h =
        After-bind (OnlyOnLayer txs) Always (deploy_each e names) Always (deploy_one e name q) w
          (After-bind (OnlyOnLayer txs) Always _ Always (wants_deploy e (lookup name q)) w
            (wants_deploy-Always (lookup name q) w h)
            λ wanted w' h'. chosen-Always name q wanted w' h')
          λ q' w' h'. deploy_each-Always names q' w' h'

    get_queued-Always :
        (o : Option QueuedUpdates) (w : World)
        → OnlyOnLayer txs w
        → After (OnlyOnLayer txs) Always (queued_or_new o w)
    get_queued-Always none w h = write-Always [] w h
    get_queued-Always (some q) w h = h

  -- However `deployLogic` ends, all that it has sent to the chain are creations of contracts that
  -- belong to the chain's layer.
  pub deploy_logic_layers :
      (names : List ContractNames) (w : World) → OnlyOnLayer w.txs (deploy_logic e names w).1
  unfolding deploy_logic get_queued_updates
  deploy_logic_layers names w =
      let E = OnlyOnLayer w.txs in
      let P = λ (_ : Unit {0}). OnlyOnLayer w.txs in
      let at : E w = record { added = []; sent = refl; on_layer = tt } in
      After-all E (deploy_logic e names w).0 (deploy_logic e names w).1 (
        Reads-then E P _ _ w (throw_if-Reads _ _) at λ _.
          Reads-then E P _ _ w (ensure_clean_git_tree-Reads e) at λ _.
            Reads-then E P _ _ w (need_signer-Reads e.signers) at λ _.
              After-bind E P (deploy_each e names) (Always w.txs) get_queued_updates w
                (get_queued-Always w.txs w.queued_file w at)
                λ q w' h. deploy_each-Always w.txs names q w' h)
