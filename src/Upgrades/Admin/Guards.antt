-- ===== src/Upgrades/Admin/Guards.antt =====
-- Who may hand over a proxy or a beacon, and what the other tasks of tasks/index.ts leave alone.
use token_bridge_contracts.Base.{
  ◌≡◌, ◌≢◌, refl, Bool, true, false, not, Option, none, some, List, [], ◌∷◌, Text, to_lower,
}
use token_bridge_contracts.Contracts.{name_Eq}
use token_bridge_contracts.Upgrades.Chain.{Env, change_proxy_admin}
use token_bridge_contracts.Upgrades.Monad.{World, Action, ◌>>=◌, send, pure}
use token_bridge_contracts.Upgrades.Triples.{
  After, After-bind, After-send, After-throw_if, After-gets, After-view,
}
use token_bridge_contracts.Upgrades.Slots.{get_admin_from_proxy_storage}
use token_bridge_contracts.Upgrades.Verify.{same_address}
use token_bridge_contracts.Upgrades.Verify.Meaning.{same_address_iff}
use token_bridge_contracts.Upgrades.Admin.{transfer_admin, first_signer}

-- The first configured signer is an address, up to the case of its letters.
abbrev pub SignsAs : List Text → Text → Type 0
SignsAs [] owner = ⊥
SignsAs (s ∷ rest) owner = to_lower s ≡ to_lower owner

-- the owner that a view returns
abbrev pub OwnedBy : Option Text → List Text → Text → Type 0
OwnedBy none signers new_admin = ⊥
OwnedBy (some owner) signers new_admin =
    SignsAs signers owner × (to_lower new_admin ≢ to_lower owner)

pub After-first_signer :
    {A : Type 0} (E : World → Type 0) (P : A → World → Type 0) (signers : List Text)
    (k : Text → Action A) (w : World)
    → E w
    → ((s : Text) (rest : List Text) → signers ≡ s ∷ rest → After E P (k s w))
    → After E P ((first_signer signers >>= k) w)
unfolding ◌>>=◌
After-first_signer E P [] k w h next = h
After-first_signer E P (s ∷ rest) k w h next = next s rest refl

pub by_not : (b : Bool) → not b ≡ false → b ≡ true
by_not true h = refl
by_not false h = cc

apart : (b : Bool) → b ≡ false → b ≡ true → ⊥
apart b h k = cc

owned_by :
    (o : Option Text) (owner signer new_admin : Text) (signers rest : List Text)
    → o ≡ some owner
    → signers ≡ signer ∷ rest
    → same_address new_admin owner ≡ false
    → not (same_address signer owner) ≡ false
    → OwnedBy o signers new_admin
owned_by o owner signer new_admin signers rest is_owner is_first changed owned =
    rw (is_owner, is_first)
      (
        (same_address_iff signer owner).0 (by_not (same_address signer owner) owned),
        λ same.
            apart (same_address new_admin owner) changed
              ((same_address_iff new_admin owner).1 same),
      )

module _ (e : Env) (proxy new_admin : Text) (w : World) where
  abbrev pub proxy_admin : Text
  proxy_admin = get_admin_from_proxy_storage e w.txs proxy

  -- Handed over: the only change is the transaction, and the signer owns the proxy admin, whose
  -- owner is not the new admin.
  abbrev pub HandedOver : World → Type 0
  HandedOver w' =
      (w' ≡ record w { txs = change_proxy_admin proxy_admin proxy new_admin ∷ w.txs })
      × OwnedBy (e.owner w.txs proxy_admin) e.signers new_admin

  -- `transferAdmin` changes nothing unless it returns, and it returns only if the first configured
  -- signer owns the proxy admin and the new admin differs from that owner, addresses compared up
  -- to the case of their letters; the change is the one transaction that hands the proxy over.
  pub transfer_admin_guards :
      After (λ w'. w' ≡ w) (λ _. HandedOver) (transfer_admin e proxy new_admin w)
  unfolding transfer_admin
  transfer_admin_guards =
      let E = λ (w' : World). w' ≡ w in
      let P = λ (_ : Unit {0}). HandedOver in
      After-throw_if E P _ _ _ w refl λ _.
        After-gets E P (λ w'. get_admin_from_proxy_storage e w'.txs proxy) _ w
          (After-view E P (λ txs. e.owner txs proxy_admin) _ w refl
            λ owner is_owner. After-throw_if E P _ _ _ w refl λ changed.
              After-first_signer E P e.signers _ w refl λ signer rest is_first.
                After-throw_if E P _ _ _ w refl λ owned.
                  After-bind E P (λ _. pure tt)
                    (λ _ w'.
                      w'
                      ≡ record w { txs = change_proxy_admin proxy_admin proxy new_admin ∷ w.txs })
                    (send e (change_proxy_admin proxy_admin proxy new_admin)) w
                    (After-send E e _ w refl)
                    λ _ w' sent. (
                      sent,
                      owned_by _ owner signer new_admin e.signers rest is_owner is_first changed
                          owned,
                    ))
