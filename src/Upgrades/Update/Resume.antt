-- ===== src/Upgrades/Update/Resume.antt =====
-- Whether an interrupted upgrade can be resumed. `prompts` gives a Boolean for a question of type
-- `confirm`, and `loadTmpDeployments` compares the answer with the text 'Yes'.
use token_bridge_contracts.Base.{
  ◌≡◌, ap, Bool, true, not, Option, none, some, List, [], ◌∷◌, codes, Text, text_eq, text_eq_iff,
  if◌then◌else◌, arith, Bool-cases, inl, inr,
}
use token_bridge_contracts.Contracts.{CurrentDeployments}
use token_bridge_contracts.Upgrades.Chain.{Env}
use token_bridge_contracts.Upgrades.Monad.{
  World, Answer, answer_bool, answer_text, answer_undefined, ok, exited, exit, pure, ask,
  next_answer, ◌>>=◌,
}
use token_bridge_contracts.Upgrades.Update.{update_implementations}
use token_bridge_contracts.Upgrades.Verify.{verify_current_implementations}
use token_bridge_contracts.Upgrades.Files.{
  load_tmp_deployments, get_deployments, ensure_clean_git_tree, changed_contract, resume_tmp,
  is_yes,
}

yes_first :
    (t : Text) (answers : List Answer)
    → text_eq t (codes "Yes") ≡ true
    → (rest : List Answer) × (answer_text t ∷ answers ≡ answer_text (codes "Yes") ∷ rest)
yes_first t answers same =
    (answers, ap (λ (s : Text). answer_text s ∷ answers) ((text_eq_iff t (codes "Yes")).0 same))

resume_yes :
    (w : World) (d d' : CurrentDeployments) (answers : List Answer)
    → ((next_answer answers >>= λ a. if not (is_yes a) then exit else pure (some d')) w).0
      ≡ ok (some d)
    → (rest : List Answer) × (answers ≡ answer_text (codes "Yes") ∷ rest)
unfolding ◌>>=◌
resume_yes w d d' [] h = cc
resume_yes w d d' (answer_bool b ∷ rest) h = cc
resume_yes w d d' (answer_undefined ∷ rest) h = cc
resume_yes w d d' (answer_text t ∷ rest) h = elim (Bool-cases (text_eq t (codes "Yes"))) [
  | inl same ↦ yes_first t rest same
  | inr other ↦ cc (rw other at h)
]

-- Temporary deployments are resumed only after the text 'Yes'.
pub load_tmp_deployments_yes :
    (w : World) (d : CurrentDeployments)
    → (load_tmp_deployments w).0 ≡ ok (some d)
    → (rest : List Answer) × (w.answers ≡ answer_text (codes "Yes") ∷ rest)
unfolding load_tmp_deployments ask ◌>>=◌
load_tmp_deployments_yes w d h = go w.tmp_file h
  where
    go :
        (o : Option CurrentDeployments)
        → (resume_tmp o w).0 ≡ ok (some d)
        → (rest : List Answer) × (w.answers ≡ answer_text (codes "Yes") ∷ rest)
    go none h = cc
    go (some d') h = resume_yes w d d' w.answers h

-- With a Boolean answer the process exits.
load_tmp_deployments_exits :
    (w : World) (t : CurrentDeployments) (b : Bool) (rest : List Answer)
    → w.tmp_file ≡ some t
    → w.answers ≡ answer_bool b ∷ rest
    → load_tmp_deployments w ≡ (exited, record w { answers = rest })
unfolding load_tmp_deployments ask ◌>>=◌
load_tmp_deployments_exits w t b rest has_tmp says = ground arith

-- Where the sources compile, the git tree has no change of a contract and the current deployments
-- are there: with a temporary file, which an interrupted upgrade leaves, and a Boolean as the next
-- answer, `updateImplementations` exits; it changes no file and sends nothing.
pub update_implementations_exits :
    (e : Env) (w : World) (c t : CurrentDeployments) (b : Bool) (rest : List Answer)
    → e.compiles ≡ true
    → changed_contract e.git_tree ≡ none
    → w.current_file ≡ some c
    → w.tmp_file ≡ some t
    → w.answers ≡ answer_bool b ∷ rest
    → update_implementations e w ≡ (exited, record w { answers = rest })
unfolding update_implementations verify_current_implementations ensure_clean_git_tree
    get_deployments load_tmp_deployments ask ◌>>=◌
update_implementations_exits e w c t b rest compiled clean has_current has_tmp says = ground arith
