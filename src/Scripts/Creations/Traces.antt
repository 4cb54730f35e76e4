-- ===== src/Scripts/Creations/Traces.antt =====
-- What a sequence of creations and initializations leaves on the chain, and the rules that follow
-- it through a script.
use token_bridge_contracts.Base.{◌≡◌, refl, false, List, [], ◌∷◌, ◌++◌, map, Text}
use token_bridge_contracts.Scripts.Chain.{Call, Net, Factory}
use token_bridge_contracts.Scripts.Monad.{World, Script, send, ◌>>=◌}
use token_bridge_contracts.Scripts.Triples.{After, After-bind, After-send_or}
use token_bridge_contracts.Scripts.Creations.{creation, initialization, deploy, deploy_template}

-- A step that was mined, with the address of what it created.
pub data Step : Type 0 where
  deployed : Factory → List Text → Text → Step
  initialized : Text → List Text → Step

abbrev pub call_of : Step → Call
call_of (deployed factory args address) = creation factory args
call_of (initialized address args) = initialization address args

module _ (n : Net) where
  abbrev pub IsCreated : List Call → Step → Type 0
  IsCreated txs (deployed factory args address) = address ≡ n.created txs (creation factory args)
  IsCreated txs (initialized address args) = Unit

  -- Every address of the steps, the latest first, is the one that its creation got.
  unfoldable pub AllCreated : List Call → List Step → Type 0
  AllCreated txs [] = Unit
  AllCreated txs (s ∷ steps) = IsCreated (map call_of steps ++ txs) s × AllCreated txs steps

  -- the world after some steps
  abbrev pub after_steps : List Step → World → World
  after_steps steps w = record w { txs = map call_of steps ++ w.txs }

  module _ (w : World) where
    -- Nothing but creations and initializations was mined, and then a transaction was refused.
    abbrev pub Refused : World → Type 0
    Refused w' =
        (steps : List Step) × (c : Call) × AllCreated w.txs steps
        × (w' ≡ after_steps steps w)
        × (n.accepts w'.txs c ≡ false)

    module _ {A : Type 0} (P : A → World → Type 0) (steps : List Step)
        (created : AllCreated w.txs steps) where
      pub After-try :
          (c : Call) (k : Unit → Script A)
          → After Refused P (k tt (record w { txs = c ∷ (map call_of steps ++ w.txs) }))
          → After Refused P ((send n c >>= k) (after_steps steps w))
      After-try c k next =
          After-send_or Refused P n c k (after_steps steps w) (λ e. (steps, c, created, refl, e))
            λ _. next

      pub After-initialize :
          (address : Text) (args : List Text) (k : Unit → Script A)
          → (AllCreated w.txs (initialized address args ∷ steps)
              → After Refused P (k tt (after_steps (initialized address args ∷ steps) w)))
          → After Refused P ((send n (initialization address args) >>= k) (after_steps steps w))
      unfolding AllCreated
      After-initialize address args k next =
          After-try (initialization address args) k (next (tt, created))

      pub After-deploy :
          (factory : Factory) (args : List Text) (k : Text → Script A)
          → ((a : Text)
              → AllCreated w.txs (deployed factory args a ∷ steps)
              → After Refused P (k a (after_steps (deployed factory args a ∷ steps) w)))
          → After Refused P ((deploy n factory args >>= k) (after_steps steps w))
      unfolding deploy AllCreated
      After-deploy factory args k next =
          let call = creation factory args in
          After-bind Refused P k
            (λ a w'.
              AllCreated w.txs (deployed factory args a ∷ steps)
              × (w' ≡ after_steps (deployed factory args a ∷ steps) w))
            (deploy n factory args) (after_steps steps w)
            (After-send_or Refused _ n call _ (after_steps steps w)
              (λ e. (steps, call, created, refl, e)) λ _. ((refl, created), refl))
            λ a w' h. rw (h.1) (next a (h.0))

    module _ {A : Type 0} (P : A → World → Type 0) (steps : List Step)
        (created : AllCreated w.txs steps) where
      pub After-template :
          (factory : Factory) (dummies : List Text) (k : Text → Script A)
          → ((a : Text)
              → AllCreated w.txs (initialized a dummies ∷ deployed factory [] a ∷ steps)
              → After Refused P
                  (k a (after_steps (initialized a dummies ∷ deployed factory [] a ∷ steps) w)))
          → After Refused P ((deploy_template n factory dummies >>= k) (after_steps steps w))
      unfolding deploy_template
      After-template factory dummies k next =
          After-bind Refused P k
            (λ a w'.
              AllCreated w.txs (initialized a dummies ∷ deployed factory [] a ∷ steps)
              × (w' ≡ after_steps (initialized a dummies ∷ deployed factory [] a ∷ steps) w))
            (deploy_template n factory dummies) (after_steps steps w)
            (After-deploy _ steps created factory [] _ λ a h.
              After-initialize _ (deployed factory [] a ∷ steps) h a dummies _ λ h'. (h', refl))
            λ a w' h. rw (h.1) (next a (h.0))
