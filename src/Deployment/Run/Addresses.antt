-- ===== src/Deployment/Run/Addresses.antt =====
-- Where the deployment test has its addresses from.
use token_bridge_contracts.Base.{
  ◌≡◌, ◌↔◌, refl, ap, Option, none, some, List, [], ◌∷◌, ◌++◌, Text, to_lower,
}
use token_bridge_contracts.Scripts.Chain.{L1Deployment, L2Deployment}
use token_bridge_contracts.Deployment.Views.{
  Setting, Check, passed, failed, ◌>>=◌, called, inbox, owner, l1_multicall, get_proxy_admin,
}
use token_bridge_contracts.Deployment.Parent.{RollupAddresses}
use token_bridge_contracts.Deployment.Run.{last_owner, get_rollup_owner_from_logs, get_addresses}

module _ {A B : Type 0} (P : A → Type 0) (k : A → Check B) (b : B)
    (p : (a : A) → (k a ≡ passed b) ↔ P a) where
  returns_iff : (o : Option A) → ((called o >>= k) ≡ passed b) ↔ ((a : A) × (o ≡ some a) × P a)
  returns_iff none = (λ h. cc, λ (a, e, h). cc)
  returns_iff (some c) = (λ h. (c, refl, (p c).0 h), λ (a, e, h). (p c).1 (rw (same a e) h))
    where
      same : (a : A) → some c ≡ some a → c ≡ a
      same a e = cc

last_owner_iff :
    (owners : List Text) (the_owner : Text)
    → (last_owner owners ≡ passed the_owner)
      ↔ ((before : List Text) × (owners ≡ before ++ (the_owner ∷ [])))
last_owner_iff [] the_owner = (λ h. cc, λ (before, e). absurd (not_nil before e))
  where
    not_nil : (before : List Text) → [] ≡ before ++ (the_owner ∷ []) → ⊥
    not_nil [] e = cc
    not_nil (b ∷ before) e = cc
last_owner_iff (a ∷ []) the_owner =
    (λ h. ([], ap (λ t. t ∷ []) (inverse h)), λ (before, e). ap passed (only before e))
  where
    inverse : passed a ≡ passed the_owner → a ≡ the_owner
    inverse h = cc

    only : (before : List Text) → a ∷ [] ≡ before ++ (the_owner ∷ []) → a ≡ the_owner
    only [] e = cc
    only (b ∷ []) e = cc
    only (b ∷ (c ∷ before)) e = cc
last_owner_iff (a ∷ (c ∷ rest)) the_owner =
    let ih = last_owner_iff (c ∷ rest) the_owner in
    (
      λ h. let (before, e) = ih.0 h in (a ∷ before, ap (λ t. a ∷ t) e),
      λ (before, e). ih.1 (shorter before e),
    )
  where
    shorter :
        (before : List Text)
        → a ∷ (c ∷ rest) ≡ before ++ (the_owner ∷ [])
        → (before' : List Text) × (c ∷ rest ≡ before' ++ (the_owner ∷ []))
    shorter [] e = cc
    shorter (b ∷ before) e = (before, cc)

-- The rollup names its inbox and, as its owner, the executor; the inbox its admin; the creator its
-- multicall, the latest owner that it logged for the inbox, and the deployments for the inbox.
abbrev pub AreFound :
    Setting → (rollup creator : Text) → RollupAddresses → L1Deployment → L2Deployment → Type 0
AreFound n rollup creator r d1 d2 =
    (the_inbox : Text) × (n.l1.read rollup inbox ≡ some the_inbox)
    × ((multicall : Text) × (n.l1.read creator l1_multicall ≡ some multicall)
        × ((admin : Text) × (n.l1.read the_inbox get_proxy_admin ≡ some admin)
            × ((executor : Text) × (n.l1.read rollup owner ≡ some executor)
                × ((owners : List Text) × (n.logged_owners creator the_inbox ≡ some owners)
                    × ((the_owner : Text) × ((before : List Text) × (owners
                            ≡ before ++ (the_owner ∷ [])))
                        × ((n.inbox_to_l1_deployment creator the_inbox ≡ some d1)
                            × ((n.inbox_to_l2_deployment creator the_inbox ≡ some d2)
                                × (r ≡ record {
                                  rollup = to_lower rollup;
                                  inbox = to_lower the_inbox;
                                  rollup_owner = the_owner;
                                  proxy_admin = to_lower admin;
                                  upgrade_executor = to_lower executor;
                                  multicall = to_lower multicall;
                                }))))))))

module _ (n : Setting) (rollup creator : Text) (r : RollupAddresses) (d1 : L1Deployment)
    (d2 : L2Deployment) where
  -- the owner, and what is computed with it
  owner_iff :
      {B : Type 0} (P : Text → Type 0) (k : Text → Check B) (b : B)
      → ((a : Text) → (k a ≡ passed b) ↔ P a)
      → (the_inbox : Text)
      → ((get_rollup_owner_from_logs n creator the_inbox >>= k) ≡ passed b) ↔ (
          (owners : List Text) × (n.logged_owners creator the_inbox ≡ some owners)
          × ((the_owner : Text) × ((before : List Text) × (owners ≡ before ++ (the_owner ∷ [])))
              × P the_owner))
  unfolding get_rollup_owner_from_logs
  owner_iff {B} P k b p the_inbox = go (n.logged_owners creator the_inbox)
    where
      check_iff :
          (m : Check Text) (owners : List Text)
          → ((a : Text) → (m ≡ passed a) ↔ ((before : List Text) × (owners ≡ before ++ (a ∷ []))))
          → ((m >>= k) ≡ passed b)
            ↔ ((a : Text) × ((before : List Text) × (owners ≡ before ++ (a ∷ []))) × P a)
      check_iff (passed c) owners q =
          (λ h. (c, (q c).0 refl, (p c).0 h), λ (a, e, h). (p c).1 (rw (same a ((q a).1 e)) h))
        where
          same : (a : Text) → passed c ≡ passed a → c ≡ a
          same a e = cc
      check_iff (failed x) owners q = (λ h. cc, λ (a, e, h). absurd (never a ((q a).1 e)))
        where
          never : (a : Text) → failed x ≡ passed a → ⊥
          never a e = cc

      go :
          (o : Option (List Text))
          → (((called o >>= last_owner) >>= k) ≡ passed b) ↔ (
              (owners : List Text) × (o ≡ some owners)
              × ((the_owner : Text) × ((before : List Text) × (owners ≡ before ++ (the_owner ∷ [])))
                  × P the_owner))
      go none = (λ h. cc, λ (owners, e, h). cc)
      go (some found) =
          let it = check_iff (last_owner found) found (last_owner_iff found) in
          (λ h. (found, refl, it.0 h), λ (owners, e, h). it.1 (from owners e h))
        where
          from :
              (owners : List Text)
              → some found ≡ some owners
              → ((a : Text) × ((before : List Text) × (owners ≡ before ++ (a ∷ []))) × P a)
              → ((a : Text) × ((before : List Text) × (found ≡ before ++ (a ∷ []))) × P a)
          from owners e (a, (before, e'), h) = (a, (before, cc), h)

  -- the two deployments that the creator recorded
  registry_iff :
      (c : RollupAddresses) (o1 : Option L1Deployment) (o2 : Option L2Deployment)
      → (◌>>=◌ {B = RollupAddresses × L1Deployment × L2Deployment}
            (called o1)
            (λ l1. called o2 >>= λ l2. passed (c, l1, l2))
          ≡ passed (r, d1, d2))
        ↔ ((o1 ≡ some d1) × ((o2 ≡ some d2) × (r ≡ c)))
  registry_iff c none o2 = (λ h. cc, λ h. cc)
  registry_iff c (some l1) none = (λ h. cc, λ h. cc)
  registry_iff c (some l1) (some l2) = (
    λ h. (cc, (cc, cc)),
    λ (e1, (e2, e3)). ap passed (pairs (inside l1 d1 e1) (inside l2 d2 e2) e3),
  )
    where
      inside : {A : Type 0} (a b : A) → some a ≡ some b → a ≡ b
      inside a b e = cc

      pairs :
          l1 ≡ d1
          → l2 ≡ d2
          → r ≡ c
          → ◌≡◌ {A = RollupAddresses × L1Deployment × L2Deployment} (c, l1, l2) (r, d1, d2)
      pairs p q e = cc

  pub get_addresses_iff :
      (get_addresses n rollup creator ≡ passed (r, d1, d2)) ↔ AreFound n rollup creator r d1 d2
  unfolding get_addresses
  get_addresses_iff =
      returns_iff _ _ (r, d1, d2)
        (λ the_inbox.
          returns_iff _ _ (r, d1, d2)
            (λ multicall.
              returns_iff _ _ (r, d1, d2)
                (λ admin.
                  returns_iff _ _ (r, d1, d2)
                    (λ executor.
                      owner_iff _ _ (r, d1, d2)
                        (λ the_owner.
                          registry_iff _ (n.inbox_to_l1_deployment creator the_inbox)
                            (n.inbox_to_l2_deployment creator the_inbox))
                        the_inbox)
                    (n.l1.read rollup owner))
                (n.l1.read the_inbox get_proxy_admin))
            (n.l1.read creator l1_multicall))
        (n.l1.read rollup inbox)
