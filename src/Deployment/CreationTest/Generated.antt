-- ===== src/Deployment/CreationTest/Generated.antt =====
-- What it means that the creation code tests pass.
use token_bridge_contracts.Base.{
  ◌≡◌, ◌↔◌, refl, ap, ◌∙◌, true, ==_iff, ℕ, ◌/◌, ◌%◌, Option, none, some, ◌∷◌, ◌++◌, codes, Text,
  drop, length,
}
use token_bridge_contracts.Scripts.CreationCode.{
  Artifact, get_constructor_bytecode, length_in_bytes, get_creation_code_for, constructor_prefix,
  hex_digit,
}
use token_bridge_contracts.Scripts.CreationCode.Extracted.{
  Without, get_constructor_bytecode-generated,
}
use token_bridge_contracts.Deployment.Views.{Check, passed, ◌>>=◌, called, call_failed, type_error}
use token_bridge_contracts.Deployment.Run.Rules.{
  Passes, expect_iff, then_iff, bind_iff, or_throw_iff, ↔_trans, expect_eq_iff,
}
use token_bridge_contracts.Deployment.CreationTest.{
  Template, CodeSetting, get_token_bridge_creator, expect_generated, templates_test, is_size,
  expect_constructor_size, creation_code_test, l2_router_template, l2_standard_gateway_template,
  l2_custom_gateway_template, l2_weth_gateway_template, l2_multicall_template,
  l2_token_bridge_factory_template,
}

-- what follows a call whose result is changed
called_iff :
    {A : Type 0} (P : Text → Type 0) (f : A → Text) (k : Text → Check Unit)
    → ((t : Text) → Passes (k t) ↔ P t)
    → (o : Option A)
    → Passes ((called o >>= λ a. passed (f a)) >>= k) ↔ ((a : A) × (o ≡ some a) × P (f a))
called_iff P f k p none = (λ h. cc, λ (a, e, h). cc)
called_iff P f k p (some c) =
    (λ h. (c, refl, (p (f c)).0 h), λ (a, e, h). (p (f c)).1 (rw (same a e) h))
  where
    same : (a : _) → some c ≡ some a → c ≡ a
    same a e = cc

is_size_iff : (o : Option ℕ) (size : ℕ) → (is_size o size ≡ true) ↔ (o ≡ some size)
is_size_iff none size = (λ h. cc, λ h. cc)
is_size_iff (some a) size = (λ h. ap some ((==_iff a size).0 h), λ h. (==_iff a size).1 cc)

same_answer : {A : Type 0} (o : Option A) (a b : A) → o ≡ some a → o ≡ some b → a ≡ b
same_answer o a b p q = cc

by_fields :
    (a : Artifact) (b d : Text)
    → a.bytecode ≡ b
    → a.deployed_bytecode ≡ d
    → a ≡ record { bytecode = b; deployed_bytecode = d }
by_fields a b d p q i = record { bytecode = p i; deployed_bytecode = q i }

-- the creation code that is to be generated, with the length of the runtime code in it
abbrev pub generated : Text → Text
generated runtime =
    let size = length runtime / 2 % 65536 in
    codes "608060405234801561001057600080fd5b5061"
    ++ (hex_digit (size / 4096 % 16)
        ∷ hex_digit (size / 256 % 16)
        ∷ hex_digit (size / 16 % 16)
        ∷ hex_digit (size % 16)
        ∷ (codes "806100206000396000f3fe" ++ runtime))

module _ (s : CodeSetting) where
  -- The compiled code of a contract is what the library makes of the code at the template.
  abbrev pub IsGenerated : (creator contract_name : Text) → Template → Type 0
  IsGenerated creator contract_name template =
      (artifact : Artifact) × (s.read_artifact contract_name ≡ some artifact)
      × ((address : Text) × (s.template creator template ≡ some address)
          × ((runtime_code : Text) × (s.get_code address ≡ some runtime_code)
              × (artifact.bytecode ≡ codes "0x" ++ get_creation_code_for (drop 2 runtime_code))))

  expect_generated_iff :
      (creator contract_name : Text) (template : Template)
      → Passes (expect_generated s creator contract_name template)
        ↔ IsGenerated creator contract_name template
  unfolding expect_generated
  expect_generated_iff creator contract_name template =
      called_iff _ (λ (a : Artifact). a.bytecode) _
        (λ compiled.
          or_throw_iff _ _
            (λ address.
              called_iff _ (λ code. codes "0x" ++ get_creation_code_for (drop 2 code)) _
                (λ generated. expect_eq_iff compiled generated) (s.get_code address))
            (s.template creator template) call_failed)
        (s.read_artifact contract_name)

  abbrev pub HasConstructorSize : (contract_name : Text) → ℕ → Type 0
  HasConstructorSize contract_name size =
      (artifact : Artifact) × (s.read_artifact contract_name ≡ some artifact)
      × ((bytecode : Text) × (get_constructor_bytecode artifact ≡ some bytecode)
          × (length_in_bytes bytecode ≡ some size))

  size_iff :
      (contract_name : Text) (size : ℕ)
      → Passes (expect_constructor_size s contract_name size)
        ↔ HasConstructorSize contract_name size
  unfolding expect_constructor_size
  size_iff contract_name size =
      or_throw_iff _ _
        (λ artifact.
          or_throw_iff _ _
            (λ bytecode.
              ↔_trans (expect_iff (is_size (length_in_bytes bytecode) size))
                (is_size_iff (length_in_bytes bytecode) size))
            (get_constructor_bytecode artifact) type_error)
        (s.read_artifact contract_name) call_failed

  -- What the tests are for: six contracts without a constructor of their own, and two whose
  -- constructors have the sizes that the factory of the child chain expects.
  pub record CodesAgree : Type 0 where
    pub creator : Text
    pub found : get_token_bridge_creator s ≡ passed creator
    pub router : IsGenerated creator (codes "L2GatewayRouter") l2_router_template
    pub standard : IsGenerated creator (codes "L2ERC20Gateway") l2_standard_gateway_template
    pub custom : IsGenerated creator (codes "L2CustomGateway") l2_custom_gateway_template
    pub weth : IsGenerated creator (codes "L2WethGateway") l2_weth_gateway_template
    pub multicall : IsGenerated creator (codes "ArbMulticall2") l2_multicall_template
    pub factory :
        IsGenerated creator (codes "L2AtomicTokenBridgeFactory") l2_token_bridge_factory_template
    pub ae_weth : HasConstructorSize (codes "aeWETH") 348
    pub executor :
        HasConstructorSize
          (codes "@offchainlabs/upgrade-executor/src/UpgradeExecutor.sol:UpgradeExecutor")
          242

  templates_iff :
      (creator : Text)
      → Passes (templates_test s creator) ↔ (
          IsGenerated creator (codes "L2GatewayRouter") l2_router_template
          × (IsGenerated creator (codes "L2ERC20Gateway") l2_standard_gateway_template
              × (IsGenerated creator (codes "L2CustomGateway") l2_custom_gateway_template
                  × (IsGenerated creator (codes "L2WethGateway") l2_weth_gateway_template
                      × (IsGenerated creator (codes "ArbMulticall2") l2_multicall_template
                          × IsGenerated creator
                              (codes "L2AtomicTokenBridgeFactory")
                              l2_token_bridge_factory_template)))))
  unfolding templates_test
  templates_iff creator =
      let one = expect_generated_iff creator in
      then_iff _ _ (one (codes "L2GatewayRouter") l2_router_template) (
        then_iff _ _ (one (codes "L2ERC20Gateway") l2_standard_gateway_template) (
          then_iff _ _ (one (codes "L2CustomGateway") l2_custom_gateway_template) (
            then_iff _ _ (one (codes "L2WethGateway") l2_weth_gateway_template) (
              then_iff _ _ (one (codes "ArbMulticall2") l2_multicall_template)
                (one (codes "L2AtomicTokenBridgeFactory") l2_token_bridge_factory_template)))))

  -- The tests of the creation code all pass exactly where the tester is deployed and network.json
  -- names a creator, the compiled code of each of six contracts is what the Solidity library makes
  -- of the code at the creator's template for it, and the constructors of aeWETH and of the executor,
  -- the code without its runtime code, have 348 and 242 bytes.
  pub creation_code_test_iff : (creation_code_test s ≡ passed tt) ↔ CodesAgree
  unfolding creation_code_test
  creation_code_test_iff =
      ↔_trans
        (bind_iff _ _
          (λ creator. then_iff _ _ (templates_iff creator) (
            then_iff _ _ (size_iff (codes "aeWETH") 348) (
              size_iff
                (codes "@offchainlabs/upgrade-executor/src/UpgradeExecutor.sol:UpgradeExecutor")
                242)))
          (get_token_bridge_creator s))
        (
          λ (creator, found, ((a, (b, (c, (d, (e, f))))), (ae_weth, executor))). record {
            creator = creator;
            found = found;
            router = a;
            standard = b;
            custom = c;
            weth = d;
            multicall = e;
            factory = f;
            ae_weth = ae_weth;
            executor = executor;
          },
          λ f. (
            f.creator,
            f.found,
            (
              (f.router, (f.standard, (f.custom, (f.weth, (f.multicall, f.factory))))),
              (f.ae_weth, f.executor),
            ),
          ),
        )

  module _ (creator contract_name : Text) (template : Template) (artifact : Artifact)
      (address runtime : Text) where
    -- Where the test of a contract passes, and its runtime code is the code at the creator's template
    -- for it, the compiled creation code is this runtime code behind 32 bytes, of which all are fixed
    -- but the 20th and 21st, the length of the runtime code in 16 bits. What the size tests extract
    -- from it has 32 bytes, which make up the creation code again when the runtime code is put back
    -- in its place.
    pub constructor_of_generated :
        expect_generated s creator contract_name template ≡ passed tt
        → s.read_artifact contract_name ≡ some artifact
        → s.template creator template ≡ some address
        → s.get_code address ≡ some (codes "0x" ++ runtime)
        → artifact.deployed_bytecode ≡ codes "0x" ++ runtime
        → (artifact.bytecode ≡ codes "0x" ++ generated runtime)
          × ((c : Text) × (get_constructor_bytecode artifact ≡ some c)
              × ((length_in_bytes c ≡ some 32) × Without runtime (generated runtime) c))
    unfolding get_creation_code_for constructor_prefix
    constructor_of_generated h ha ht hc hd =
        let (a, ea, (b, eb, (code, ec, made))) =
          (expect_generated_iff creator contract_name template).0 h in
        let compiled : artifact.bytecode ≡ codes "0x" ++ get_creation_code_for runtime =
          ap (λ x. x.bytecode) (same_answer _ artifact a ha ea)
          ∙ made
          ∙ ap (λ t. codes "0x" ++ get_creation_code_for (drop 2 t))
              (same_answer _ code (codes "0x" ++ runtime) ec (hc' b eb)) in
        let (c, e, size, without) = get_constructor_bytecode-generated runtime in
        (
          compiled,
          (
            c,
            ap get_constructor_bytecode (by_fields artifact _ _ compiled hd) ∙ e,
            (size, without),
          ),
        )
      where
        hc' :
            (b : Text)
            → s.template creator template ≡ some b
            → s.get_code b ≡ some (codes "0x" ++ runtime)
        hc' b eb = rw (same_answer _ b address eb ht) hc
