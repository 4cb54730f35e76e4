-- ===== src/Scripts/Templates/Verified.antt =====
-- What `deployL1TokenBridgeCreator` submits for verification.
use token_bridge_contracts.Base.{
  ℕ, ◌-◌, ◌≡◌, refl, ap, ◌∙◌, Bool, true, false, ◌&&◌, Option, none, some, List, [], ◌∷◌, ◌++◌, map,
  codes, Text, text_eq, length, take, drop, lookup, if◌then◌else◌, ◌⊎◌, inl, inr,
}
use mathlib.Core.List.{Perm, perm_middle}
use mathlib.Core.List.Perm
use token_bridge_contracts.Scripts.Chain.{
  Net, VerifyCommand, Factory, arb_multicall2_factory, proxy_admin_factory,
  token_bridge_creator_factory, transparent_proxy_factory, retryable_sender_factory,
  l1_gateway_router_factory, l1_erc20_gateway_factory, l1_custom_gateway_factory,
  l1_weth_gateway_factory, l1_orbit_gateway_router_factory, l1_orbit_erc20_gateway_factory,
  l1_orbit_custom_gateway_factory, upgrade_executor_factory, l2_token_bridge_factory,
  l2_gateway_router_factory, l2_erc20_gateway_factory, l2_custom_gateway_factory,
  l2_weth_gateway_factory, ae_weth_factory, multicall2_factory,
}
use token_bridge_contracts.Scripts.Monad.{World, Script, done, pure, view, ◌>>=◌}
use token_bridge_contracts.Scripts.Triples.{After, After-bind, After-view_or, After-weaken}
use token_bridge_contracts.Scripts.Verifier.{
  ContractVerifier, new_contract_verifier, verify_with_address, verify_command,
}
use token_bridge_contracts.Scripts.Creations.Traces.{
  Step, deployed, initialized, AllCreated, call_of, Refused,
}
use token_bridge_contracts.Scripts.Templates.{
  AllTemplates, verify_templates, deploy_all_templates, deploy_l1_token_bridge_creator,
}
use token_bridge_contracts.Scripts.Templates.Wired.{
  all_steps, templates_set, TemplatesSet, deploy_all_templates_lem,
}

-- the contracts by their names in Solidity; none of the others is a template
abbrev pub contract_name : Factory → Text
contract_name arb_multicall2_factory = codes "ArbMulticall2"
contract_name proxy_admin_factory = codes "ProxyAdmin"
contract_name token_bridge_creator_factory = codes "L1AtomicTokenBridgeCreator"
contract_name transparent_proxy_factory = codes "TransparentUpgradeableProxy"
contract_name retryable_sender_factory = codes "L1TokenBridgeRetryableSender"
contract_name l1_gateway_router_factory = codes "L1GatewayRouter"
contract_name l1_erc20_gateway_factory = codes "L1ERC20Gateway"
contract_name l1_custom_gateway_factory = codes "L1CustomGateway"
contract_name l1_weth_gateway_factory = codes "L1WethGateway"
contract_name l1_orbit_gateway_router_factory = codes "L1OrbitGatewayRouter"
contract_name l1_orbit_erc20_gateway_factory = codes "L1OrbitERC20Gateway"
contract_name l1_orbit_custom_gateway_factory = codes "L1OrbitCustomGateway"
contract_name upgrade_executor_factory = codes "UpgradeExecutor"
contract_name l2_token_bridge_factory = codes "L2AtomicTokenBridgeFactory"
contract_name l2_gateway_router_factory = codes "L2GatewayRouter"
contract_name l2_erc20_gateway_factory = codes "L2ERC20Gateway"
contract_name l2_custom_gateway_factory = codes "L2CustomGateway"
contract_name l2_weth_gateway_factory = codes "L2WethGateway"
contract_name ae_weth_factory = codes "aeWETH"
contract_name multicall2_factory = codes "Multicall2"
contract_name _ = []

abbrev pub ends_with : Text → Text → Bool
ends_with suffix t = text_eq (drop (length t - length suffix) t) suffix

-- each source is a file with the contract that the factory creates
abbrev pub are_sources : List Factory → List (Option Text) → Bool
are_sources [] [] = true
are_sources (f ∷ factories) (some source ∷ sources) =
    ends_with (codes ":" ++ contract_name f) source && are_sources factories sources
are_sources _ _ = false

-- the contracts that some steps created
abbrev pub creations : List Step → List (Factory × Text)
creations [] = []
creations (deployed factory args address ∷ steps) = (factory, address) ∷ creations steps
creations (initialized address args ∷ steps) = creations steps

-- The commands are one for each of the contracts, with its address and a source of its factory.
abbrev pub Verify : List (Factory × Text) → List VerifyCommand → Type 0
Verify contracts commands =
    (map (λ c. c.contract_address) commands ≡ map (λ c. c.1) contracts)
    × (are_sources (map (λ c. c.0) contracts) (map (λ c. c.source_file) commands) ≡ true)

-- all contracts but the first and the last
abbrev between : AllTemplates → List (Factory × Text)
between t = take 19 (drop 1 (creations (all_steps t)))

module _ (n : Net) where
  -- Every contract that was created is verified once.
  abbrev pub AllVerified : AllTemplates → List VerifyCommand → Type 0
  AllVerified t commands =
      (contracts : List (Factory × Text)) × Perm (creations (all_steps t)) contracts
      × Verify contracts commands

  abbrev pub VerifiedIf : Bool → AllTemplates → List VerifyCommand → Type 0
  VerifiedIf false t commands = commands ≡ []
  VerifiedIf true t commands = AllVerified t commands

  abbrev pub Deployed : World → Text → ℕ → Bool → Text × Text → World → Type 0
  Deployed w l1_weth gas_limit verify_contracts addresses w' =
      (t : AllTemplates) × (commands : List VerifyCommand) × (addresses
        ≡ (t.creator_contracts.creator, t.creator_contracts.sender))
      × AllCreated n w.txs (all_steps t)
      × (w' ≡ record w {
        txs = templates_set n w l1_weth gas_limit t ∷ (map call_of (all_steps t) ++ w.txs);
        commands = commands ++ w.commands;
      })
      × VerifiedIf verify_contracts t commands

  pub verify_templates_lem :
      (v : ContractVerifier) (t : AllTemplates) (w : World)
      → (commands : List VerifyCommand) × AllVerified t commands
        × (verify_templates n v t w ≡ (done tt, record w { commands = commands ++ w.commands }))
  unfolding verify_templates verify_with_address verify_command lookup text_eq ◌>>=◌
  verify_templates_lem v t w =
      let l2_multicall : Factory × Text =
        (arb_multicall2_factory, t.creator_contracts.multicall_for_l2) in
      (
        (verify_templates n v t (record w { commands = [] })).1.commands,
        (
          (multicall2_factory, t.l2.l1_multicall) ∷ l2_multicall ∷ between t,
          Perm.cons (multicall2_factory, t.l2.l1_multicall)
              (perm_middle {a = l2_multicall} (between t) []),
          (refl, refl),
        ),
        refl,
      )

  module _ (w : World) (l1_weth : Text) (gas_limit : ℕ) where
    abbrev pub SetOrRefused : World → Type 0
    SetOrRefused w' =
        Refused n w w'
        ⊎ ((t : AllTemplates) × TemplatesSet n w l1_weth gas_limit t w'
            × (n.chain_id w'.txs ≡ none))

    abbrev verify_if : Bool → AllTemplates → Script Unit
    verify_if b t =
        if b
        then (do
          id ← view n.chain_id
          verify_templates n (new_contract_verifier id (n.env_var (codes "ARBISCAN_API_KEY"))) t)
        else pure tt

    After-verify_if :
        (b : Bool) (t : AllTemplates) (w1 : World)
        → (n.chain_id w1.txs ≡ none → SetOrRefused w1)
        → After SetOrRefused
            (λ _ w'.
              (commands : List VerifyCommand) × VerifiedIf b t commands
              × (w' ≡ record w1 { commands = commands ++ w1.commands }))
            (verify_if b t w1)
    After-verify_if false t w1 h = ([], refl, refl)
    After-verify_if true t w1 h = After-view_or SetOrRefused _ n.chain_id _ w1 h λ id has.
        let v = new_contract_verifier id (n.env_var (codes "ARBISCAN_API_KEY")) in
        let l = verify_templates_lem v t w1 in rw (l.2) (l.0, l.1, refl)

    After-set :
        (b : Bool) (t : AllTemplates) (w1 : World)
        → TemplatesSet n w l1_weth gas_limit t w1
        → After SetOrRefused (Deployed w l1_weth gas_limit b) (
            (verify_if b t >>= λ _. pure (t.creator_contracts.creator, t.creator_contracts.sender))
              w1)
    After-set b t w1 h =
        After-bind SetOrRefused (Deployed w l1_weth gas_limit b) _
          (λ _ w'.
            (commands : List VerifyCommand) × VerifiedIf b t commands
            × (w' ≡ record w1 { commands = commands ++ w1.commands }))
          (verify_if b t) w1 (After-verify_if b t w1 (λ e. inr (t, h, e)))
          λ _ w' v. (
            t,
            v.0,
            refl,
            h.0,
            v.2 ∙ ap (λ (x : World). record x { commands = v.0 ++ x.commands }) (h.1),
            v.1,
          )

  -- `deployL1TokenBridgeCreator` fails only when a transaction is refused, and then no
  -- templates were set and nothing but creations and initializations was mined, or when the
  -- chain's id is not known, and then the templates are set. Otherwise it returns the creator
  -- and the sender. What was mined is then the creation of each contract by its own factory,
  -- with the initialization by dummies right after the creation of every gateway and router,
  -- the initialization of the sender and of the creator, and last one `setTemplates`, without
  -- ether and to the creator, in which each address is the one that the creation of that
  -- template got: the parent's templates in their fields, and the nine addresses of the child's
  -- in Solidity's order, with the given WETH eighth. Without `verifyContracts` no command is
  -- run. With it there is one for each contract that was created, the proxies and the
  -- multicalls included, with its address and with a source file for the contract that its
  -- factory creates.
  pub deploy_l1_token_bridge_creator_lem :
      (l1_weth : Text) (gas_limit : ℕ) (verify_contracts : Bool) (w : World)
      → After
          (SetOrRefused w l1_weth gas_limit)
          (Deployed w l1_weth gas_limit verify_contracts)
          (deploy_l1_token_bridge_creator n l1_weth gas_limit verify_contracts w)
  unfolding deploy_l1_token_bridge_creator
  deploy_l1_token_bridge_creator_lem l1_weth gas_limit verify_contracts w =
      let E = SetOrRefused w l1_weth gas_limit in
      let m = deploy_all_templates n l1_weth gas_limit w in
      After-bind E (Deployed w l1_weth gas_limit verify_contracts) _
        (TemplatesSet n w l1_weth gas_limit) (deploy_all_templates n l1_weth gas_limit) w
        (After-weaken (Refused n w) E (TemplatesSet n w l1_weth gas_limit) _ m.0 m.1 (λ w' h. inl h)
          (λ t w' h. h) (deploy_all_templates_lem n w l1_weth gas_limit))
        λ t w1 h. After-set w l1_weth gas_limit verify_contracts t w1 h
