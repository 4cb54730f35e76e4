-- ===== src/Upgrades/Admin/Beacon.antt =====
-- Who may hand over a beacon: nobody, since the task asks through the undeclared `prompt`.
use token_bridge_contracts.Base.{
  ◌≡◌, refl, Bool, true, false, not, Option, none, some, List, [], ◌∷◌, Text, if◌then◌else◌,
}
use token_bridge_contracts.Upgrades.Chain.{Env}
use token_bridge_contracts.Upgrades.Monad.{
  World, Error, thrown, throw, throw_if, view, or_throw, ◌>>=◌, compile_failed, no_signer,
  call_failed, not_connected_as_owner, undeclared,
}
use token_bridge_contracts.Upgrades.Verify.{same_address}
use token_bridge_contracts.Upgrades.Admin.{first_signer, transfer_beacon_owner}

-- the error, by whether the contracts compile, the configured signers, and the beacon's owner
abbrev pub error_of : (compiles : Bool) → (signers : List Text) → (owner : Option Text) → Error
error_of false signers owner = compile_failed
error_of true [] owner = no_signer
error_of true (signer ∷ rest) none = call_failed
error_of true (signer ∷ rest) (some owner) =
    if same_address owner signer then undeclared else not_connected_as_owner

module _ (e : Env) (beacon new_owner : Text) (w : World) where
  asked :
      (b : Bool)
      → (throw_if (not b) not_connected_as_owner >>= λ _. throw {A = Unit} undeclared) w
        ≡ (thrown (if b then undeclared else not_connected_as_owner), w)
  unfolding ◌>>=◌
  asked true = refl
  asked false = refl

  viewed :
      (signer : Text) (rest : List Text) (o : Option Text)
      → (or_throw o call_failed >>= λ owner.
            throw_if (not (same_address owner signer)) not_connected_as_owner >>= λ _.
            throw {A = Unit} undeclared)
          w
        ≡ (thrown (error_of true (signer ∷ rest) o), w)
  unfolding ◌>>=◌
  viewed signer rest none = refl
  viewed signer rest (some owner) = asked (same_address owner signer)

  -- `transferBeaconOwner` never sends anything and always throws, and the world is as before: where
  -- the contracts compile, a signer is configured, the beacon's owner can be read and is the first
  -- signer, up to the case of letters, because of the undeclared `prompt`; and else with the error
  -- of the first of these that is not so.
  pub transfer_beacon_owner_throws :
      transfer_beacon_owner e beacon new_owner w
      ≡ (thrown (error_of e.compiles e.signers (e.owner w.txs beacon)), w)
  unfolding transfer_beacon_owner ◌>>=◌ view
  transfer_beacon_owner_throws = go e.compiles e.signers
    where
      go :
          (compiles : Bool) (signers : List Text)
          → (throw_if (not compiles) compile_failed >>= λ _. first_signer signers >>= λ signer.
                view (λ txs. e.owner txs beacon) >>= λ owner.
                throw_if (not (same_address owner signer)) not_connected_as_owner >>= λ _.
                throw {A = Unit} undeclared)
              w
            ≡ (thrown (error_of compiles signers (e.owner w.txs beacon)), w)
      go false signers = refl
      go true [] = refl
      go true (signer ∷ rest) = viewed signer rest (e.owner w.txs beacon)
