-- ===== src/Upgrades/Verify/Reads.antt =====
-- Verification only reads: it changes no file and sends nothing.
use token_bridge_contracts.Base.{
  ◌≡◌, refl, ap, ◌∙◌, Bool, true, false, not, Option, none, some, List, [], ◌∷◌, Text, arith,
  if◌then◌else◌,
}
use token_bridge_contracts.Contracts.{ContractNames, CurrentDeployment, CurrentDeployments}
use token_bridge_contracts.Upgrades.Chain.{Env, Tx}
use token_bridge_contracts.Upgrades.Monad.{
  World, Action, Answer, Outcome, ok, thrown, exited, exit, pure, ask, next_answer, ◌>>=◌, throw_if,
  or_throw, view, Error, call_failed, no_current_deployments,
}
use token_bridge_contracts.Upgrades.Triples.{After, After-bind, After-same, After-weaken}
use token_bridge_contracts.Upgrades.Files.{
  load_tmp_deployments, get_deployments, resume_tmp, is_yes, found_change, ensure_clean_git_tree,
}
use token_bridge_contracts.Upgrades.Verify.{
  verify_beacon, verify_facet, verify_proxy, verify_one, verify_each,
  verify_current_implementations,
}

pub record Reads {A : Type 0} (m : Action A) : Type 0 where
  pub same : (w : World) → (m w).1 ≡ w

module _ {A B : Type 0} (f : A → Action B) (k : (a : A) → Reads (f a)) where
  bind_outcome-world : (r : Outcome A) (w w' : World) → w' ≡ w → (((λ _. (r, w')) >>= f) w).1 ≡ w
  unfolding ◌>>=◌
  bind_outcome-world (ok a) w w' same = (k a).same w' ∙ same
  bind_outcome-world (thrown x) w w' same = same
  bind_outcome-world exited w w' same = same

  pub bind-Reads : (m : Action A) → Reads m → Reads (m >>= f)
  unfolding ◌>>=◌
  bind-Reads m h = record { same = λ w. bind_outcome-world (m w).0 w (m w).1 (h.same w) }

ok-injective : {A : Type 0} {a b : A} → ok a ≡ ok b → a ≡ b
ok-injective h = cc

module _ (e : Env) (deployments : CurrentDeployments) (owner : Text) where
  pub verify_one-Reads :
      (name : ContractNames) (d : CurrentDeployment) → Reads (verify_one e deployments owner name d)
  unfolding verify_one verify_beacon verify_facet verify_proxy view ◌>>=◌
  verify_one-Reads name d = record { same = λ w. ground arith }

  pub verify_each-Reads :
      (tmp : Option CurrentDeployments) (cs : List (ContractNames × CurrentDeployment))
      (success : Bool)
      → Reads (verify_each e deployments owner tmp cs success)
  unfolding verify_each
  verify_each-Reads tmp [] success = record { same = λ w. refl }
  verify_each-Reads tmp (c ∷ cs) success =
      bind-Reads _ (λ good. verify_each-Reads tmp cs _) _ (verify_one-Reads c.0 _)

-- What follows an action that reads runs in the same world.
module _ {A B : Type 0} (m : Action A) (f : A → Action B) (reads : Reads m) (w : World) where
  bind_outcome-ok :
      (r : Outcome A) (w' : World) (a : A) → w' ≡ w → r ≡ ok a → (((λ _. (r, w')) >>= f) w) ≡ f a w
  unfolding ◌>>=◌
  bind_outcome-ok (ok b) w' a same is_ok = rw same (ap (λ x. f x w) (ok-injective is_ok))
  bind_outcome-ok (thrown x) w' a same is_ok = cc
  bind_outcome-ok exited w' a same is_ok = cc

  pub Reads-bind-ok : (a : A) → (m w).0 ≡ ok a → (m >>= f) w ≡ f a w
  unfolding ◌>>=◌
  Reads-bind-ok a h = bind_outcome-ok (m w).0 (m w).1 a (reads.same w) h

  bind_outcome-inv :
      (r : Outcome A) (w' : World) (b : B)
      → w' ≡ w
      → (((λ _. (r, w')) >>= f) w).0 ≡ ok b
      → (a : A) × (r ≡ ok a) × ((f a w).0 ≡ ok b)
  unfolding ◌>>=◌
  bind_outcome-inv (ok a) w' b same h = (a, refl, rw same at h)
  bind_outcome-inv (thrown x) w' b same h = cc
  bind_outcome-inv exited w' b same h = cc

  pub Reads-bind-inv :
      (b : B) → ((m >>= f) w).0 ≡ ok b → (a : A) × ((m w).0 ≡ ok a) × ((f a w).0 ≡ ok b)
  unfolding ◌>>=◌
  Reads-bind-inv b h = bind_outcome-inv (m w).0 (m w).1 b (reads.same w) h

-- The files and the transactions of a world, without the answers to come.
pub record SameFiles (w w' : World) : Type 0 where
  pub queued_file : w'.queued_file ≡ w.queued_file
  pub current_file : w'.current_file ≡ w.current_file
  pub tmp_file : w'.tmp_file ≡ w.tmp_file
  pub txs : w'.txs ≡ w.txs

abbrev pub SameFiles-refl : (w : World) → SameFiles w w
SameFiles-refl w = record { queued_file = refl; current_file = refl; tmp_file = refl; txs = refl }

pub SameFiles-trans : (u v w : World) → SameFiles u v → SameFiles v w → SameFiles u w
SameFiles-trans u v w h k = record {
  queued_file = k.queued_file ∙ h.queued_file;
  current_file = k.current_file ∙ h.current_file;
  tmp_file = k.tmp_file ∙ h.tmp_file;
  txs = k.txs ∙ h.txs;
}

-- A condition that only looks at the files and the transactions.
module _ (E : World → Type 0) (w : World) (keeps : (w' : World) → SameFiles w w' → E w') where
  abbrev Same : {A : Type 0} → A → World → Type 0
  Same _ w' = SameFiles w w'

  resume_or_exit-Same :
      (d : CurrentDeployments) (yes_given : Bool) (w' : World)
      → SameFiles w w'
      → After E
          (λ val w''. SameFiles w w'' × (val ≡ some d))
          ((if not yes_given then exit else pure (some d)) w')
  resume_or_exit-Same d true w' h = (h, refl)
  resume_or_exit-Same d false w' h = keeps w' h

  pub ask-Same : After E Same (ask w)
  unfolding ask
  ask-Same = go w.answers
    where
      go : (answers : List Answer) → After E Same (next_answer answers w)
      go [] = SameFiles-refl w
      go (a ∷ rest) = record {
        queued_file = refl;
        current_file = refl;
        tmp_file = refl;
        txs = refl;
      }

  resume_tmp-Same :
      (o : Option CurrentDeployments)
      → After E (λ val w'. SameFiles w w' × (val ≡ o)) (resume_tmp o w)
  resume_tmp-Same none = (SameFiles-refl w, refl)
  resume_tmp-Same (some d) =
      After-bind E (λ val w'. SameFiles w w' × (val ≡ some d)) _ Same ask w ask-Same
        λ a w' h. resume_or_exit-Same d (is_yes a) w' h

  pub After-load_tmp_deployments :
      After E (λ val w'. SameFiles w w' × (val ≡ w.tmp_file)) (load_tmp_deployments w)
  unfolding load_tmp_deployments
  After-load_tmp_deployments = resume_tmp-Same w.tmp_file

-- an action that reads, before the rest of a run
pub Reads-then :
    {A B : Type 0} (E : World → Type 0) (P : B → World → Type 0) (m : Action A) (f : A → Action B)
    (w : World)
    → Reads m
    → E w
    → ((a : A) → After E P (f a w))
    → After E P ((m >>= f) w)
Reads-then E P m f w reads h next =
    After-bind E P f (λ _ w'. w' ≡ w) m w (After-same E w (m w).0 (m w).1 (reads.same w) h)
      λ a w' same. rw same (next a)

pub throw_if-Reads : (b : Bool) (x : Error) → Reads (throw_if b x)
throw_if-Reads true x = record { same = λ w. refl }
throw_if-Reads false x = record { same = λ w. refl }

pub or_throw-Reads : {A : Type 0} (o : Option A) (x : Error) → Reads (or_throw o x)
or_throw-Reads none x = record { same = λ w. refl }
or_throw-Reads (some a) x = record { same = λ w. refl }

pub view-Reads : {A : Type 0} (f : List Tx → Option A) → Reads (view f)
unfolding view
view-Reads f = record { same = λ w. (or_throw-Reads (f w.txs) call_failed).same w }

pub get_deployments-Reads : Reads get_deployments
unfolding get_deployments
get_deployments-Reads = record {
  same = λ w. (or_throw-Reads w.current_file no_current_deployments).same w;
}

-- The deployments that are read are the file's.
pub After-get_deployments :
    (E : World → Type 0) (w : World)
    → E w
    → After E (λ c w'. (w' ≡ w) × (w.current_file ≡ some c)) (get_deployments w)
unfolding get_deployments
After-get_deployments E w h = go w.current_file refl
  where
    go :
        (o : Option CurrentDeployments)
        → w.current_file ≡ o
        → After E
            (λ c w'. (w' ≡ w) × (w.current_file ≡ some c))
            (or_throw o no_current_deployments w)
    go none e = h
    go (some c) e = (refl, e)

pub found_change-Reads : (o : Option Text) → Reads (found_change o)
found_change-Reads none = record { same = λ w. refl }
found_change-Reads (some line) = record { same = λ w. refl }

pub ensure_clean_git_tree-Reads : (e : Env) → Reads (ensure_clean_git_tree e)
unfolding ensure_clean_git_tree
ensure_clean_git_tree-Reads e = found_change-Reads _

-- Reading on from a world with the same files.
module _ (E : World → Type 0) (w : World) (keeps : (w' : World) → SameFiles w w' → E w')
    (w₁ : World) (so_far : SameFiles w w₁) where
  pub After-Reads : {A : Type 0} (m : Action A) → Reads m → After E (λ _ w'. SameFiles w w') (m w₁)
  After-Reads m h =
      After-weaken E (λ _ w'. w' ≡ w₁) (λ _ w'. SameFiles w w') (m w₁).0 (m w₁).1
        (λ a e. rw e so_far) (After-same E w₁ (m w₁).0 (m w₁).1 (h.same w₁) (keeps w₁ so_far))

  pub After-load : After E (λ val w'. SameFiles w w' × (val ≡ w.tmp_file)) (load_tmp_deployments w₁)
  After-load =
      After-weaken E (λ val w'. SameFiles w₁ w' × (val ≡ w₁.tmp_file))
        (λ val w'. SameFiles w w' × (val ≡ w.tmp_file)) (load_tmp_deployments w₁).0
        (load_tmp_deployments w₁).1
        (λ val h. (SameFiles-trans w w₁ _ so_far h.0, h.1 ∙ so_far.tmp_file))
        (After-load_tmp_deployments E w₁ λ w' h. keeps w' (SameFiles-trans w w₁ w' so_far h))

module _ (E : World → Type 0) (w : World) (keeps : (w' : World) → SameFiles w w' → E w') where
  pub After-verify :
      (e : Env) (w₁ : World)
      → SameFiles w w₁
      → After E (λ _ w'. SameFiles w w') (verify_current_implementations e w₁)
  unfolding verify_current_implementations
  After-verify e w₁ h =
      After-bind E (λ _ w'. SameFiles w w') _ (λ _ w'. SameFiles w w') _ w₁
        (After-Reads E w keeps w₁ h _ (throw_if-Reads _ _))
        λ _ w₂ h₂.
          After-bind E (λ _ w'. SameFiles w w') _ (λ _ w'. SameFiles w w') _ w₂
            (After-Reads E w keeps w₂ h₂ _ get_deployments-Reads)
            λ deployments w₃ h₃.
              After-bind E (λ _ w'. SameFiles w w') _
                (λ val w'. SameFiles w w' × (val ≡ w.tmp_file)) _ w₃ (After-load E w keeps w₃ h₃)
                λ tmp w₄ h₄.
                  After-bind E (λ _ w'. SameFiles w w') _ (λ _ w'. SameFiles w w') _ w₄
                    (After-Reads E w keeps w₄ h₄.0 _
                      (view-Reads (λ txs. e.owner txs deployments.proxy_admin_address)))
                    λ owner w₅ h₅.
                      After-Reads E w keeps w₅ h₅ _
                        (verify_each-Reads e deployments owner tmp _ true)
