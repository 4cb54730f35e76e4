-- ===== src/Scripts/Entry/Guards.antt =====
-- The checks of the environment of createTokenBridge.ts.
use token_bridge_contracts.Base.{◌≡◌, Option, none, some, List, [], ◌∷◌, Text, drop}
use token_bridge_contracts.Scripts.Chain.{Net}
use token_bridge_contracts.Scripts.Monad.{World, Script, failed, or_fail, missing_env_var, ◌>>=◌}
use token_bridge_contracts.Scripts.Runs.{run-failed}
use token_bridge_contracts.Scripts.Entry.{
  creation_env_vars, require_defined, create_token_bridge_on_target_chain, create_token_bridge_main,
}

module _ (n : Net) where
  -- the first of some variables that is not defined
  unfoldable pub first_undefined : List Text → Option Text
  first_undefined [] = none
  first_undefined (name ∷ rest) = elim (n.env_var name) [
    | none ↦ some name
    | some v ↦ first_undefined rest
  ]

  module _ {A : Type 0} (missing : Text) (w : World) where
    require_lem :
        (name : Text) (rest : List Text) (k : Text → Script A)
        → first_undefined (name ∷ rest) ≡ some missing
        → ((v : Text)
            → first_undefined rest ≡ some missing
            → k v w ≡ (failed (missing_env_var missing), w))
        → (require_defined n name >>= k) w ≡ (failed (missing_env_var missing), w)
    unfolding first_undefined ◌>>=◌
    require_lem name rest k h next = go (n.env_var name) h
      where
        go :
            (o : Option Text)
            → elim o [ none ↦ some name | some v ↦ first_undefined rest ] ≡ some missing
            → ((λ _. or_fail o (missing_env_var name) w) >>= k) w
              ≡ (failed (missing_env_var missing), w)
        go none h = cc
        go (some v) h = next v h

  target_chain_missing :
      (missing : Text) (w : World)
      → first_undefined creation_env_vars ≡ some missing
      → create_token_bridge_on_target_chain n w ≡ (failed (missing_env_var missing), w)
  unfolding create_token_bridge_on_target_chain first_undefined
  target_chain_missing missing w h =
      require_lem missing w _ (drop 1 creation_env_vars) _ h λ rollup h.
        require_lem missing w _ (drop 2 creation_env_vars) _ h λ owner h.
          require_lem missing w _ (drop 3 creation_env_vars) _ h λ creator h.
            require_lem missing w _ (drop 4 creation_env_vars) _ h λ rpc h.
              require_lem missing w _ (drop 5 creation_env_vars) _ h
                λ key h. require_lem missing w _ [] _ h λ child_rpc h. cc

  -- createTokenBridge.ts throws for the first of its six variables that is not defined, and then it
  -- has sent nothing, registered no network and written no file.
  pub create_token_bridge_main_missing :
      (missing : Text) (w : World)
      → first_undefined creation_env_vars ≡ some missing
      → create_token_bridge_main n w ≡ (failed (missing_env_var missing), w)
  unfolding create_token_bridge_main
  create_token_bridge_main_missing missing w h =
      run-failed (create_token_bridge_on_target_chain n) _ (missing_env_var missing) w w
        (target_chain_missing missing w h)
