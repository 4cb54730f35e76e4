-- ===== src/Scripts/Usdc/Setup.antt =====
-- The check of the environment, and of the gateways after their initialization.
use token_bridge_contracts.Base.{
  ◌≡◌, ◌↔◌, refl, ap, Bool, true, false, not, some, List, [], ◌∷◌, codes, Text, text_eq,
  text_eq_iff, ◌∙◌, All, if◌then◌else◌,
}
use token_bridge_contracts.Scripts.Chain.{
  initialize, Call, Net, Field, router_field, inbox_field, l1_usdc_field, l2_usdc_field,
  owner_field, counterpart_field,
}
use token_bridge_contracts.Scripts.Monad.{
  World, done, failed, pure, ◌>>◌, missing_env_var, Failure, fail_if, l1_init_failed,
  l2_init_failed,
}
use token_bridge_contracts.Scripts.Runs.{run-bind, run-view, run-or_fail, run-send}
use token_bridge_contracts.Scripts.Triples.{
  After, After-bind, After-send, After-view, After-or_fail, After-weaken,
}
use token_bridge_contracts.Scripts.Usdc.{
  check_env_vars, is_set, differs, initialize_gateways, expect_fields, l1_fields, l2_fields,
}

abbrev pub Anywhere : World → Type 0
Anywhere w = Unit

module _ (n : Net) where
  abbrev pub Provided : Text → Type 0
  Provided name = is_set (n.env_var name) ≡ true

  -- The check of any list of names passes if and only if every one is set to a text that is not
  -- empty, and it changes nothing.
  pub check_env_vars_iff :
      (names : List Text) (w : World)
      → (check_env_vars n names w ≡ (done tt, w)) ↔ All Provided names
  unfolding check_env_vars
  check_env_vars_iff [] w = (λ h. tt, λ h. refl)
  check_env_vars_iff (name ∷ rest) w = go (is_set (n.env_var name)) (check_env_vars_iff rest w)
    where
      go :
          (b : Bool)
          → (check_env_vars n rest w ≡ (done tt, w)) ↔ All Provided rest
          → ((if b then check_env_vars n rest else (λ w. (failed (missing_env_var name), w))) w
              ≡ (done tt, w))
            ↔ ((b ≡ true) × All Provided rest)
      go true ih = (λ h. (refl, ih.0 h), λ h. ih.1 h.1)
      go false ih = (λ h. cc, λ h. cc)

  -- the views of a gateway return what is expected
  abbrev pub Answers : List Call → Text → Field × Text → Type 0
  Answers txs gateway (f, expected) = n.field txs gateway f ≡ some expected

  After-differs :
      (gateway : Text) (expected : List (Field × Text)) (w : World)
      → After Anywhere
          (λ b w'. (w' ≡ w) × (b ≡ false → All (Answers w.txs gateway) expected))
          (differs n gateway expected w)
  unfolding differs
  After-differs gateway [] w = (refl, λ h. tt)
  After-differs gateway ((f, text) ∷ rest) w =
      After-view Anywhere _ (λ txs. n.field txs gateway f) _ w tt
        λ actual has. go actual has (text_eq actual text) refl (After-differs gateway rest w)
    where
      go :
          (actual : Text)
          → n.field w.txs gateway f ≡ some actual
          → (b : Bool) → text_eq actual text ≡ b
          → After Anywhere
              (λ b w'. (w' ≡ w) × (b ≡ false → All (Answers w.txs gateway) rest))
              (differs n gateway rest w)
          → After Anywhere
              (λ b w'. (w' ≡ w) × (b ≡ false → All (Answers w.txs gateway) ((f, text) ∷ rest)))
              ((if not b then pure true else differs n gateway rest) w)
      go actual has false e ih = (refl, λ h. cc)
      go actual has true e ih =
          let m = differs n gateway rest w in
          After-weaken Anywhere Anywhere
            (λ b w'. (w' ≡ w) × (b ≡ false → All (Answers w.txs gateway) rest)) _ m.0 m.1
            (λ w' h. tt)
            (λ b w' h. (
              h.0,
              λ none_differs. (has ∙ ap some ((text_eq_iff actual text).0 e), h.1 none_differs),
            ))
            ih

  -- What is checked after the initializations.
  abbrev pub Initialized :
      (l1_gateway l2_gateway inbox l2_usdc owner_l1 owner_l2 : Text) → List Call → Type 0
  Initialized l1_gateway l2_gateway inbox l2_usdc owner_l1 owner_l2 txs =
      (l1_router : Text) × (l2_router : Text) × (l1_usdc : Text) × (n.env_var (codes "L1_ROUTER")
        ≡ some l1_router)
      × (n.env_var (codes "L2_ROUTER") ≡ some l2_router)
      × (n.env_var (codes "L1_USDC") ≡ some l1_usdc)
      × All (Answers txs l1_gateway) (
          (router_field, l1_router)
          ∷ (inbox_field, inbox)
          ∷ (l1_usdc_field, l1_usdc)
          ∷ (l2_usdc_field, l2_usdc)
          ∷ (owner_field, owner_l1)
          ∷ (counterpart_field, l2_gateway)
          ∷ [])
      × All (Answers txs l2_gateway) (
          (counterpart_field, l1_gateway)
          ∷ (router_field, l2_router)
          ∷ (l1_usdc_field, l1_usdc)
          ∷ (l2_usdc_field, l2_usdc)
          ∷ (owner_field, owner_l2)
          ∷ [])

  pub After-expect :
      (gateway : Text) (fields : List (Field × Text)) (failure : Failure) (w : World)
      → After Anywhere
          (λ _ w'. (w' ≡ w) × All (Answers w.txs gateway) fields)
          (expect_fields n gateway fields failure w)
  unfolding expect_fields
  After-expect gateway fields failure w =
      After-bind Anywhere _ (λ b. fail_if b failure)
        (λ b w'. (w' ≡ w) × (b ≡ false → All (Answers w.txs gateway) fields))
        (differs n gateway fields) w (After-differs gateway fields w) checked
    where
      checked :
          (b : Bool) (w' : World)
          → (w' ≡ w) × (b ≡ false → All (Answers w.txs gateway) fields)
          → After Anywhere
              (λ _ w'. (w' ≡ w) × All (Answers w.txs gateway) fields)
              (fail_if b failure w')
      checked true w' h = tt
      checked false w' h = (h.0, h.1 refl)

  -- If `_initializeGateways` returns, then after all its transactions both gateways say what was
  -- asked for: each the other as its counterpart, its chain's router, its own owner, and both the
  -- tokens of the two chains; the parent's gateway also the inbox.
  pub initialize_gateways_lem :
      (l1_gateway l2_gateway inbox l2_usdc owner_l1 owner_l2 : Text) (w : World)
      → After Anywhere
          (λ _ w'. Initialized l1_gateway l2_gateway inbox l2_usdc owner_l1 owner_l2 w'.txs)
          (initialize_gateways n l1_gateway l2_gateway inbox l2_usdc owner_l1 owner_l2 w)
  unfolding initialize_gateways
  initialize_gateways_lem l1_gateway l2_gateway inbox l2_usdc owner_l1 owner_l2 w =
      let P = λ (_ : Unit {0}) (w' : World).
        Initialized l1_gateway l2_gateway inbox l2_usdc owner_l1 owner_l2 w'.txs in
      After-or_fail Anywhere P (n.env_var (codes "L1_ROUTER")) _ _ w tt λ l1_router has_l1.
        After-or_fail Anywhere P (n.env_var (codes "L2_ROUTER")) _ _ w tt λ l2_router has_l2.
          After-or_fail Anywhere P (n.env_var (codes "L1_USDC")) _ _ w tt λ l1_usdc has_usdc.
            After-send Anywhere P n _ _ w tt λ _.
              After-send Anywhere P n _ _ _ tt
                λ _. checked l1_router l2_router l1_usdc has_l1 has_l2 has_usdc _
    where
      checked :
          (l1_router l2_router l1_usdc : Text)
          → n.env_var (codes "L1_ROUTER") ≡ some l1_router
          → n.env_var (codes "L2_ROUTER") ≡ some l2_router
          → n.env_var (codes "L1_USDC") ≡ some l1_usdc
          → (w : World)
          → After Anywhere
              (λ _ w'. Initialized l1_gateway l2_gateway inbox l2_usdc owner_l1 owner_l2 w'.txs)
              ((do
                expect_fields n l1_gateway
                    (l1_fields l1_router inbox l1_usdc l2_usdc owner_l1 l2_gateway)
                    l1_init_failed
                expect_fields n l2_gateway
                    (l2_fields l1_gateway l2_router l1_usdc l2_usdc owner_l2)
                    l2_init_failed)
                w)
      checked l1_router l2_router l1_usdc has_l1 has_l2 has_usdc w =
          let P = λ (_ : Unit {0}) (w' : World).
            Initialized l1_gateway l2_gateway inbox l2_usdc owner_l1 owner_l2 w'.txs in
          let fields = l1_fields l1_router inbox l1_usdc l2_usdc owner_l1 l2_gateway in
          let fields' = l2_fields l1_gateway l2_router l1_usdc l2_usdc owner_l2 in
          let m = expect_fields n l2_gateway fields' l2_init_failed w in
          After-bind Anywhere P _ (λ _ w'. (w' ≡ w) × All (Answers w.txs l1_gateway) fields)
            (expect_fields n l1_gateway fields l1_init_failed) w
            (After-expect l1_gateway fields l1_init_failed w)
            λ _ w1 l1. rw (l1.0) (
              After-weaken Anywhere Anywhere
                (λ _ w'. (w' ≡ w) × All (Answers w.txs l2_gateway) fields') P m.0 m.1 (λ w' h. tt)
                (λ _ w' l2.
                  rw (l2.0) (l1_router, l2_router, l1_usdc, has_l1, has_l2, has_usdc, l1.1, l2.1))
                (After-expect l2_gateway fields' l2_init_failed w))

  differs_none :
      (gateway : Text) (fields : List (Field × Text)) (w : World)
      → All (Answers w.txs gateway) fields
      → differs n gateway fields w ≡ (done false, w)
  unfolding differs
  differs_none gateway [] w h = refl
  differs_none gateway ((f, text) ∷ rest) w h =
      run-view (λ txs. n.field txs gateway f) _ text w h.0
        (rw ((text_eq_iff text text).1 refl) (differs_none gateway rest w h.1))

  expect_none :
      (gateway : Text) (fields : List (Field × Text)) (failure : Failure) (w : World)
      → All (Answers w.txs gateway) fields
      → expect_fields n gateway fields failure w ≡ (done tt, w)
  unfolding expect_fields
  expect_none gateway fields failure w h =
      run-bind (differs n gateway fields) _ false w w (differs_none gateway fields w h) refl

  abbrev pub l1_initialize :
      (l1_gateway l2_gateway inbox l2_usdc owner_l1 l1_router l1_usdc : Text) → Call
  l1_initialize l1_gateway l2_gateway inbox l2_usdc owner_l1 l1_router l1_usdc = record {
    to = l1_gateway;
    value = 0;
    calldata = initialize (l2_gateway ∷ l1_router ∷ inbox ∷ l1_usdc ∷ l2_usdc ∷ owner_l1 ∷ []);
  }

  abbrev pub l2_initialize :
      (l1_gateway l2_gateway l2_usdc owner_l2 l2_router l1_usdc : Text) → Call
  l2_initialize l1_gateway l2_gateway l2_usdc owner_l2 l2_router l1_usdc = record {
    to = l2_gateway;
    value = 0;
    calldata = initialize (l1_gateway ∷ l2_router ∷ l1_usdc ∷ l2_usdc ∷ owner_l2 ∷ []);
  }

  -- `_initializeGateways` returns after exactly its two transactions, the parent's gateway first,
  -- where the environment has the routers and the token, both transactions are mined, and every
  -- view of the gateways then returns what was asked for.
  pub initialize_gateways_returns :
      (l1_gateway l2_gateway inbox l2_usdc owner_l1 owner_l2 l1_router l2_router l1_usdc : Text)
      (w : World)
      → let first = l1_initialize l1_gateway l2_gateway inbox l2_usdc owner_l1 l1_router l1_usdc in
        let second = l2_initialize l1_gateway l2_gateway l2_usdc owner_l2 l2_router l1_usdc in
        let txs = second ∷ first ∷ w.txs in
        n.env_var (codes "L1_ROUTER") ≡ some l1_router
        → n.env_var (codes "L2_ROUTER") ≡ some l2_router
        → n.env_var (codes "L1_USDC") ≡ some l1_usdc
        → n.accepts w.txs first ≡ true
        → n.accepts (first ∷ w.txs) second ≡ true
        → All
            (Answers txs l1_gateway)
            (l1_fields l1_router inbox l1_usdc l2_usdc owner_l1 l2_gateway)
        → All (Answers txs l2_gateway) (l2_fields l1_gateway l2_router l1_usdc l2_usdc owner_l2)
        → initialize_gateways n l1_gateway l2_gateway inbox l2_usdc owner_l1 owner_l2 w
          ≡ (done tt, record w { txs = txs })
  unfolding initialize_gateways
  initialize_gateways_returns l1_gateway l2_gateway inbox l2_usdc owner_l1 owner_l2 l1_router
        l2_router l1_usdc w has_l1 has_l2 has_usdc sent_l1 sent_l2 l1 l2 =
      let l1_checks = l1_fields l1_router inbox l1_usdc l2_usdc owner_l1 l2_gateway in
      let l2_checks = l2_fields l1_gateway l2_router l1_usdc l2_usdc owner_l2 in
      run-or_fail (n.env_var (codes "L1_ROUTER")) _ _ l1_router w has_l1 (
        run-or_fail (n.env_var (codes "L2_ROUTER")) _ _ l2_router w has_l2 (
          run-or_fail (n.env_var (codes "L1_USDC")) _ _ l1_usdc w has_usdc (
            run-send n _ _ w sent_l1 (
              run-send n _ _ _ sent_l2 (
                run-bind (expect_fields n l1_gateway l1_checks l1_init_failed) _ tt _ _
                  (expect_none l1_gateway l1_checks l1_init_failed _ l1)
                  (expect_none l2_gateway l2_checks l2_init_failed _ l2))))))
