-- ===== src/Scripts/Templates/Wired.antt =====
-- What `deployL1TokenBridgeCreator` leaves on the chain.
use token_bridge_contracts.Base.{ℕ, ◌≡◌, refl, List, [], ◌∷◌, ◌++◌, map, codes, Text}
use token_bridge_contracts.Scripts.Chain.{
  Call, Net, L1Templates, set_templates, arb_multicall2_factory, proxy_admin_factory,
  token_bridge_creator_factory, transparent_proxy_factory, retryable_sender_factory,
  l1_gateway_router_factory, l1_erc20_gateway_factory, l1_custom_gateway_factory,
  l1_weth_gateway_factory, l1_orbit_gateway_router_factory, l1_orbit_erc20_gateway_factory,
  l1_orbit_custom_gateway_factory, upgrade_executor_factory, l2_token_bridge_factory,
  l2_gateway_router_factory, l2_erc20_gateway_factory, l2_custom_gateway_factory,
  l2_weth_gateway_factory, ae_weth_factory, multicall2_factory,
}
use token_bridge_contracts.Scripts.Monad.{World}
use token_bridge_contracts.Scripts.Triples.{After, After-bind}
use token_bridge_contracts.Scripts.Creations.{deploy_proxy}
use token_bridge_contracts.Scripts.Creations.Traces.{
  Step, deployed, initialized, AllCreated, after_steps, call_of, Refused, After-try,
  After-initialize, After-deploy, After-template,
}
use token_bridge_contracts.Scripts.Templates.{
  CreatorContracts, L2Templates, AllTemplates, two_dead, three_dead, four_dead, five_dead,
  hash_dummies, deploy_creator, deploy_l1_templates, deploy_l2_templates, deploy_all_templates,
}

-- the dummies of the initializations
abbrev pub dead : Text
dead = codes "0x000000000000000000000000000000000000dEaD"

abbrev pub dead_two : List Text
dead_two = dead ∷ dead ∷ []

abbrev pub dead_three : List Text
dead_three = dead ∷ dead ∷ dead ∷ []

abbrev pub dead_four : List Text
dead_four = dead ∷ dead ∷ dead ∷ dead ∷ []

abbrev pub dead_five : List Text
dead_five = dead ∷ dead ∷ dead ∷ dead ∷ dead ∷ []

-- the fourth is the hash of a token's creation code
abbrev pub dead_hash : List Text
dead_hash =
    dead
    ∷ dead
    ∷ dead
    ∷ codes "0x0000000000000000000000000000000000000000000000000000000000000001"
    ∷ dead
    ∷ []

-- The steps, the latest first, on top of earlier ones.
abbrev pub creator_steps : CreatorContracts → List Step → List Step
creator_steps c steps =
    initialized c.creator (c.sender ∷ [])
    ∷ initialized c.sender_logic []
    ∷ deployed transparent_proxy_factory (c.sender_logic ∷ c.admin ∷ codes "0x" ∷ []) c.sender
    ∷ deployed retryable_sender_factory [] c.sender_logic
    ∷ deployed transparent_proxy_factory (c.creator_logic ∷ c.admin ∷ codes "0x" ∷ []) c.creator
    ∷ deployed token_bridge_creator_factory [] c.creator_logic
    ∷ deployed proxy_admin_factory [] c.admin
    ∷ deployed arb_multicall2_factory [] c.multicall_for_l2
    ∷ steps

abbrev pub l1_steps : L1Templates → List Step → List Step
l1_steps t steps =
    deployed upgrade_executor_factory [] t.upgrade_executor
    ∷ initialized t.fee_token_based_custom_gateway_template dead_four
    ∷ deployed l1_orbit_custom_gateway_factory [] t.fee_token_based_custom_gateway_template
    ∷ initialized t.fee_token_based_standard_gateway_template dead_hash
    ∷ deployed l1_orbit_erc20_gateway_factory [] t.fee_token_based_standard_gateway_template
    ∷ initialized t.fee_token_based_router_template dead_five
    ∷ deployed l1_orbit_gateway_router_factory [] t.fee_token_based_router_template
    ∷ initialized t.weth_gateway_template dead_five
    ∷ deployed l1_weth_gateway_factory [] t.weth_gateway_template
    ∷ initialized t.custom_gateway_template dead_four
    ∷ deployed l1_custom_gateway_factory [] t.custom_gateway_template
    ∷ initialized t.standard_gateway_template dead_hash
    ∷ deployed l1_erc20_gateway_factory [] t.standard_gateway_template
    ∷ initialized t.router_template dead_five
    ∷ deployed l1_gateway_router_factory [] t.router_template
    ∷ steps

abbrev pub l2_steps : L2Templates → List Step → List Step
l2_steps t steps =
    deployed multicall2_factory [] t.l1_multicall
    ∷ deployed ae_weth_factory [] t.weth
    ∷ initialized t.weth_gateway dead_four
    ∷ deployed l2_weth_gateway_factory [] t.weth_gateway
    ∷ initialized t.custom_gateway dead_two
    ∷ deployed l2_custom_gateway_factory [] t.custom_gateway
    ∷ initialized t.standard_gateway dead_three
    ∷ deployed l2_erc20_gateway_factory [] t.standard_gateway
    ∷ initialized t.gateway_router dead_two
    ∷ deployed l2_gateway_router_factory [] t.gateway_router
    ∷ deployed l2_token_bridge_factory [] t.token_bridge_factory
    ∷ steps

abbrev pub all_steps : AllTemplates → List Step
all_steps t = l2_steps t.l2 (l1_steps t.l1 (creator_steps t.creator_contracts []))

module _ (n : Net) (w : World) where
  abbrev AfterSteps : List Step → World → Type 0
  AfterSteps steps w' = AllCreated n w.txs steps × (w' ≡ after_steps n steps w)

  module _ (steps : List Step) (created : AllCreated n w.txs steps) where
    After-creator :
        After
          (Refused n w)
          (λ c. AfterSteps (creator_steps c steps))
          (deploy_creator n (after_steps n steps w))
    unfolding deploy_creator deploy_proxy
    After-creator =
        let P = λ (t : CreatorContracts). AfterSteps (creator_steps t steps) in
        After-deploy n w P steps created arb_multicall2_factory [] _ λ multicall h.
          After-deploy n w P _ h proxy_admin_factory [] _ λ admin h.
            After-deploy n w P _ h token_bridge_creator_factory [] _ λ logic h.
              After-deploy n w P _ h transparent_proxy_factory (logic ∷ admin ∷ codes "0x" ∷ []) _
                λ creator h. After-deploy n w P _ h retryable_sender_factory [] _ λ sender_logic h.
                  After-deploy n w P _ h transparent_proxy_factory
                    (sender_logic ∷ admin ∷ codes "0x" ∷ []) _
                    λ sender h.
                      After-initialize n w P _ h sender_logic [] _
                        λ h. After-initialize n w P _ h creator (sender ∷ []) _ λ h. (h, refl)

    After-l1 :
        After
          (Refused n w)
          (λ t. AfterSteps (l1_steps t steps))
          (deploy_l1_templates n (after_steps n steps w))
    unfolding deploy_l1_templates
    After-l1 =
        let P = λ (t : L1Templates). AfterSteps (l1_steps t steps) in
        After-template n w P steps created l1_gateway_router_factory five_dead _ λ router h.
          After-template n w P _ h l1_erc20_gateway_factory hash_dummies _ λ standard h.
            After-template n w P _ h l1_custom_gateway_factory four_dead _ λ custom h.
              After-template n w P _ h l1_weth_gateway_factory five_dead _ λ weth h.
                After-template n w P _ h l1_orbit_gateway_router_factory five_dead _ λ orbit h.
                  After-template n w P _ h l1_orbit_erc20_gateway_factory hash_dummies _
                    λ orbit_standard h.
                      After-template n w P _ h l1_orbit_custom_gateway_factory four_dead _
                        λ orbit_custom h.
                          After-deploy n w P _ h upgrade_executor_factory [] _
                            λ executor h. (h, refl)

    After-l2 :
        After
          (Refused n w)
          (λ t. AfterSteps (l2_steps t steps))
          (deploy_l2_templates n (after_steps n steps w))
    unfolding deploy_l2_templates
    After-l2 =
        let P = λ (t : L2Templates). AfterSteps (l2_steps t steps) in
        After-deploy n w P steps created l2_token_bridge_factory [] _ λ factory h.
          After-template n w P _ h l2_gateway_router_factory two_dead _ λ router h.
            After-template n w P _ h l2_erc20_gateway_factory three_dead _ λ standard h.
              After-template n w P _ h l2_custom_gateway_factory two_dead _ λ custom h.
                After-template n w P _ h l2_weth_gateway_factory four_dead _ λ weth_gateway h.
                  After-deploy n w P _ h ae_weth_factory [] _ λ weth h.
                    After-deploy n w P _ h multicall2_factory [] _ λ multicall h. (h, refl)

  -- The order of the addresses is that of `setTemplates` in L1AtomicTokenBridgeCreator.sol.
  abbrev pub templates_set : Text → ℕ → AllTemplates → Call
  templates_set l1_weth gas_limit t = record {
    to = t.creator_contracts.creator;
    value = 0;
    calldata =
        set_templates
          (record {
            router_template = t.l1.router_template;
            standard_gateway_template = t.l1.standard_gateway_template;
            custom_gateway_template = t.l1.custom_gateway_template;
            weth_gateway_template = t.l1.weth_gateway_template;
            fee_token_based_router_template = t.l1.fee_token_based_router_template;
            fee_token_based_standard_gateway_template =
                t.l1.fee_token_based_standard_gateway_template;
            fee_token_based_custom_gateway_template = t.l1.fee_token_based_custom_gateway_template;
            upgrade_executor = t.l1.upgrade_executor;
          })
          (t.l2.token_bridge_factory ∷ t.l2.gateway_router ∷ t.l2.standard_gateway
            ∷ t.l2.custom_gateway ∷ t.l2.weth_gateway ∷ t.l2.weth
            ∷ t.creator_contracts.multicall_for_l2 ∷ l1_weth ∷ t.l2.l1_multicall ∷ [])
          gas_limit;
  }

  -- The templates are set, after exactly the steps that made them.
  abbrev pub TemplatesSet : Text → ℕ → AllTemplates → World → Type 0
  TemplatesSet l1_weth gas_limit t w' =
      AllCreated n w.txs (all_steps t)
      × (w' ≡ record w {
        txs = templates_set l1_weth gas_limit t ∷ (map call_of (all_steps t) ++ w.txs);
      })

  pub deploy_all_templates_lem :
      (l1_weth : Text) (gas_limit : ℕ)
      → After
          (Refused n w)
          (TemplatesSet l1_weth gas_limit)
          (deploy_all_templates n l1_weth gas_limit w)
  unfolding deploy_all_templates AllCreated
  deploy_all_templates_lem l1_weth gas_limit =
      let P = TemplatesSet l1_weth gas_limit in
      After-bind (Refused n w) P _ (λ c. AfterSteps (creator_steps c [])) (deploy_creator n) w
        (After-creator [] tt)
        λ c w1 h. rw (h.1) (
          After-bind (Refused n w) P _ (λ t. AfterSteps (l1_steps t (creator_steps c [])))
            (deploy_l1_templates n) (after_steps n (creator_steps c []) w)
            (After-l1 (creator_steps c []) (h.0))
            λ l1 w2 h. rw (h.1) (
              After-bind (Refused n w) P _
                (λ t. AfterSteps (l2_steps t (l1_steps l1 (creator_steps c []))))
                (deploy_l2_templates n) (after_steps n (l1_steps l1 (creator_steps c [])) w)
                (After-l2 (l1_steps l1 (creator_steps c [])) (h.0))
                λ l2 w3 h. rw (h.1) (
                  After-try n w P (l2_steps l2 (l1_steps l1 (creator_steps c []))) (h.0) _ _
                    (h.0, refl))))
