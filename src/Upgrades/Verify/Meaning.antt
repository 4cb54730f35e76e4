-- ===== src/Upgrades/Verify/Meaning.antt =====
-- What a successful verification means of the chain.
use token_bridge_contracts.Base.{
  ◌≡◌, ◌≢◌, refl, ◌↔◌, Bool, true, false, ◌||◌, ◌&&◌, Option, none, some, List, [], ◌∷◌, lookup,
  Text, to_lower, text_eq_iff, All, arith, Bool-cases, Option-cases, inl, inr, if◌then◌else◌,
}
use token_bridge_contracts.Contracts.{
  ContractNames, rollup, name_Eq, CurrentDeployment, CurrentDeployments, is_beacon,
  is_beacon_owned_by_rollup, is_rollup_admin_facet, is_rollup_user_facet,
}
use token_bridge_contracts.Upgrades.Chain.{Env, Tx}
use token_bridge_contracts.Upgrades.Monad.{World, ok, or_throw, type_error, view, pure, ◌>>=◌}
use token_bridge_contracts.Upgrades.Slots.{
  get_admin_from_proxy_storage, get_implementation_from_storage,
}
use token_bridge_contracts.Upgrades.Triples.{view-bind}
use token_bridge_contracts.Upgrades.Verify.Reads.{verify_one-Reads, Reads-bind-ok, Reads-bind-inv}
use token_bridge_contracts.Upgrades.Verify.{
  same_address, tmp_or_current, verify_beacon, verify_facet, verify_proxy, verify_one, verify_each,
}

pub same_address_iff : (a b : Text) → (same_address a b ≡ true) ↔ (to_lower a ≡ to_lower b)
unfolding same_address
same_address_iff a b = text_eq_iff (to_lower a) (to_lower b)

-- A view returns an address, up to the case of its letters.
abbrev pub Returns : Option Text → Text → Type 0
Returns none a = ⊥
Returns (some b) a = to_lower b ≡ to_lower a

-- The address of the rollup's proxy in the file.
abbrev pub rollup_address : Option CurrentDeployment → Option Text
rollup_address none = none
rollup_address (some d) = some d.proxy_address

abbrev pub ReturnsAny : Option Text → Option Text → Type 0
ReturnsAny o none = ⊥
ReturnsAny o (some a) = Returns o a

abbrev FacetReturns :
    Bool → (Text → Option Text) → (Text → Option Text) → Option Text → Text → Type 0
FacetReturns is_user user admin none a = ⊥
FacetReturns is_user user admin (some proxy) a =
    Returns (if is_user then user proxy else admin proxy) a

both_iff :
    (a b c d : Text)
    → (ok (same_address a b && same_address c d) ≡ ok true)
      ↔ ((to_lower a ≡ to_lower b) × (to_lower c ≡ to_lower d))
both_iff a b c d = (
  λ h. ground (arith, same_address_iff a b, same_address_iff c d),
  λ h. ground (arith, same_address_iff a b, same_address_iff c d),
)

-- the two tests of a beacon, once its views have returned
verify_beacon_returned :
    (i o : Text) (by_rollup : Bool) (r : Option CurrentDeployment) (impl owner : Text) (w : World)
    → ((((if by_rollup then (do d ← or_throw r type_error; pure d.proxy_address) else pure owner)
            >>= λ expected. pure (same_address i impl && same_address o expected))
          w).0
        ≡ ok true)
      ↔ (Returns (some i) impl
          × (if by_rollup then ReturnsAny (some o) (rollup_address r) else Returns (some o) owner))
unfolding ◌>>=◌
verify_beacon_returned i o true none impl owner w = (λ h. cc, λ h. absurd h.1)
verify_beacon_returned i o true (some d) impl owner w = both_iff i impl o d.proxy_address
verify_beacon_returned i o false r impl owner w = both_iff i impl o owner

-- a beacon with no owner
no_owner :
    (by_rollup : Bool) (r : Option Text) (owner : Text)
    → (if by_rollup then ReturnsAny none r else Returns none owner)
    → ⊥
no_owner true none owner h = h
no_owner true (some a) owner h = h
no_owner false r owner h = h

facet_returned :
    (v : List Tx → Option Text) (impl : Text) (w : World)
    → (((view v >>= λ facet. pure (same_address facet impl)) w).0 ≡ ok true)
      ↔ Returns (v w.txs) impl
facet_returned v impl w = rw view-bind (elim (Option-cases (v w.txs)) [
  | inl p ↦ rw p (λ h. cc, λ h. absurd h)
  | inr (f, p) ↦
      rw p
        (λ h. ground (arith, same_address_iff f impl), λ h. ground (arith, same_address_iff f impl))
])

module _ (e : Env) (deployments : CurrentDeployments) (owner : Text) (w : World) where
  abbrev rollup_at : Option Text
  rollup_at = rollup_address (lookup rollup deployments.contracts)

  -- The chain runs the deployment of a contract that the file names.
  abbrev pub IsDeployed : ContractNames → CurrentDeployment → Type 0
  IsDeployed name d =
      if is_beacon name
      then Returns (e.implementation w.txs d.proxy_address) d.impl_address
        × (if is_beacon_owned_by_rollup name
            then ReturnsAny (e.owner w.txs d.proxy_address) rollup_at
            else Returns (e.owner w.txs d.proxy_address) owner)
      else if is_rollup_admin_facet name || is_rollup_user_facet name
      then FacetReturns (is_rollup_user_facet name) (e.user_facet w.txs) (e.admin_facet w.txs)
          rollup_at d.impl_address
      else (to_lower (get_admin_from_proxy_storage e w.txs d.proxy_address)
          ≡ to_lower deployments.proxy_admin_address)
        × (to_lower (get_implementation_from_storage e w.txs d.proxy_address)
            ≡ to_lower d.impl_address)

  verify_beacon_iff :
      (name : ContractNames) (d : CurrentDeployment)
      → is_beacon name ≡ true
      → ((verify_beacon e deployments owner name d w).0 ≡ ok true) ↔ IsDeployed name d
  unfolding verify_beacon
  verify_beacon_iff name d b = rw b (
      rw view-bind (elim (Option-cases (e.implementation w.txs d.proxy_address)) [
        | inl p ↦ rw p (λ h. cc, λ h. absurd h.0)
        | inr (i, p) ↦ rw p (
            rw view-bind (elim (Option-cases (e.owner w.txs d.proxy_address)) [
              | inl q ↦ rw q (λ h. cc, λ h. absurd (no_owner _ _ owner h.1))
              | inr (o, q) ↦ rw q (
                  verify_beacon_returned i o (is_beacon_owned_by_rollup name)
                    (lookup rollup deployments.contracts) d.impl_address owner w)
            ]))
      ]))

  verify_facet_iff :
      (name : ContractNames) (d : CurrentDeployment)
      → is_beacon name ≡ false
      → (is_rollup_admin_facet name || is_rollup_user_facet name) ≡ true
      → ((verify_facet e deployments owner name d w).0 ≡ ok true) ↔ IsDeployed name d
  unfolding verify_facet
  verify_facet_iff name d b f =
      rw (b, f)
        (elim (Option-cases (lookup rollup deployments.contracts)) [
          | inl p ↦ rw p (unfold ◌>>=◌ in (λ h. cc, λ h. absurd h))
          | inr (r, p) ↦ rw p (elim (Bool-cases (is_rollup_user_facet name)) [
            | inl user ↦ rw user (
                unfold ◌>>=◌ in
                facet_returned (λ txs. e.user_facet txs r.proxy_address) d.impl_address w)
            | inr admin ↦ rw admin (
                unfold ◌>>=◌ in
                facet_returned (λ txs. e.admin_facet txs r.proxy_address) d.impl_address w)
          ])
        ])

  verify_proxy_iff :
      (name : ContractNames) (d : CurrentDeployment)
      → is_beacon name ≡ false
      → (is_rollup_admin_facet name || is_rollup_user_facet name) ≡ false
      → ((verify_proxy e deployments owner d w).0 ≡ ok true) ↔ IsDeployed name d
  unfolding verify_proxy ◌>>=◌
  verify_proxy_iff name d b f =
      let admin : Text = get_admin_from_proxy_storage e w.txs d.proxy_address in
      let impl : Text = get_implementation_from_storage e w.txs d.proxy_address in
      rw (b, f) (both_iff admin deployments.proxy_admin_address impl d.impl_address)

  -- Verification passes a contract exactly when the chain runs its deployment.
  pub verify_one_iff :
      (name : ContractNames) (d : CurrentDeployment)
      → ((verify_one e deployments owner name d w).0 ≡ ok true) ↔ IsDeployed name d
  unfolding verify_one
  verify_one_iff name d = elim (Bool-cases (is_beacon name)) [
    | inl beacon ↦ rw beacon (rw beacon at (verify_beacon_iff name d beacon))
    | inr not_beacon ↦
        rw not_beacon (elim (Bool-cases (is_rollup_admin_facet name || is_rollup_user_facet name)) [
          | inl facet ↦
              rw facet (rw (not_beacon, facet) at (verify_facet_iff name d not_beacon facet))
          | inr not_facet ↦
              rw not_facet
                (rw (not_beacon, not_facet) at (verify_proxy_iff name d not_beacon not_facet))
        ])
  ]

  -- the contracts of the file, with the deployments that are verified
  abbrev pub AllDeployed :
      Option CurrentDeployments → List (ContractNames × CurrentDeployment) → Type 0
  AllDeployed tmp = All (λ c. IsDeployed c.0 (tmp_or_current c.0 tmp c.1))

module _ (e : Env) (deployments : CurrentDeployments) (owner : Text)
    (tmp : Option CurrentDeployments) where
  verify_each_failed :
      (cs : List (ContractNames × CurrentDeployment)) (w : World)
      → (verify_each e deployments owner tmp cs false w).0 ≢ ok true
  unfolding verify_each
  verify_each_failed [] w h = cc
  verify_each_failed (c ∷ cs) w h =
      let (good, _, rest) =
        Reads-bind-inv _ _ (verify_one-Reads e deployments owner c.0 _) w true h in
      verify_each_failed cs w rest

  -- Of a list of contracts, verification returns true exactly when the chain runs the deployment
  -- of each: the owner or the admin, and the implementation.
  pub verify_each_iff :
      (cs : List (ContractNames × CurrentDeployment)) (w : World)
      → ((verify_each e deployments owner tmp cs true w).0 ≡ ok true)
        ↔ AllDeployed e deployments owner w tmp cs
  unfolding verify_each
  verify_each_iff [] w = (λ _. tt, λ _. refl)
  verify_each_iff (c ∷ cs) w =
      let d : CurrentDeployment = tmp_or_current c.0 tmp c.1 in
      let reads = verify_one-Reads e deployments owner c.0 d in
      (
        λ h.
            let (good, one, rest) = Reads-bind-inv _ _ reads w true h in
            split good one rest (verify_each_iff cs w).0,
        λ h.
            rw
              (Reads-bind-ok _ (λ good. verify_each e deployments owner tmp cs (true && good)) reads
                w true ((verify_one_iff e deployments owner w c.0 d).1 h.0))
              ((verify_each_iff cs w).1 h.1),
      )
    where
      split :
          (good : Bool)
          → (verify_one e deployments owner c.0 (tmp_or_current c.0 tmp c.1) w).0 ≡ ok good
          → (verify_each e deployments owner tmp cs (true && good) w).0 ≡ ok true
          → ((verify_each e deployments owner tmp cs true w).0 ≡ ok true
              → AllDeployed e deployments owner w tmp cs)
          → AllDeployed e deployments owner w tmp (c ∷ cs)
      split true one rest next = ((verify_one_iff e deployments owner w c.0 _).0 one, next rest)
      split false one rest next = absurd (verify_each_failed cs w rest)
