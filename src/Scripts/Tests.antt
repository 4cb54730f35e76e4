-- ===== src/Scripts/Tests.antt =====
-- Concrete inputs of the deployment scripts, and the theorems at them.
mod Deployments
use token_bridge_contracts.Base.{
  ◌+◌, ◌*◌, ◌^◌, ◌≤◌, ◌≡◌, refl, ◌↔◌, ◌⊎◌, Bool, true, false, not, ◌&&◌, none, some, List, [], ◌∷◌,
  map, codes, Text, text_eq, length, All,
}
use token_bridge_contracts.Scripts.Chain.{Net, GasParams, L1Deployment, L2Deployment, redeemed}
use token_bridge_contracts.Scripts.Monad.{World, done}
use token_bridge_contracts.Scripts.Triples.{After}
use token_bridge_contracts.Scripts.Fees.{get_scaled_amount, get_prescaled_amount}
use token_bridge_contracts.Scripts.Fees.Rounding.{
  get_scaled_amount-least, get_scaled_amount-sum, get_scaled_amount-eq-prescaled,
}
use token_bridge_contracts.Scripts.Gambit.{Mutant, test_mutant, test_all_mutants, print_results}
use token_bridge_contracts.Scripts.Gambit.Batches.{
  how_many, test_all_mutants-map, print_results-test_all_mutants,
}
use token_bridge_contracts.Scripts.Usdc as Usdc
use token_bridge_contracts.Scripts.Usdc.{
  Registration, is_fee_token, is_set, check_env_vars, required_env_vars, multisig_txs,
  initialize_gateways, execute_registration,
}
use token_bridge_contracts.Scripts.Usdc.Prepare.{Prepared}
use token_bridge_contracts.Scripts.Usdc.Sent.{
  Registered, StoppedEarly, has_owner_key, direct_txs, plan, register_gateway_lem,
  multisig_txs-direct, after_sending,
}
use token_bridge_contracts.Scripts.Usdc.Setup.{
  Anywhere, Provided, Initialized, check_env_vars_iff, initialize_gateways_lem,
  initialize_gateways_returns, l1_initialize, l2_initialize,
}
use token_bridge_contracts.Scripts.Creator as Creator
use token_bridge_contracts.Scripts.Creator.{Ticket, create_token_bridge, Deployment, creation_call}
use token_bridge_contracts.Scripts.Creator.Payment.{
  Created, Estimated, Recorded, create_token_bridge_lem,
}
use token_bridge_contracts.Scripts.Creator.Linked.{Stopped, Redeemed, register_gateway_linked}
use token_bridge_contracts.Scripts.Usdc.Returns.{execute_registration_returns}
use token_bridge_contracts.Scripts.Creator.Returns.{create_token_bridge_returns, ether_creation}

-- every variable is set to the same text
abbrev value : Text
value = codes "0x11"

abbrev params : GasParams
params = record { gas_limit = 100; max_fee_per_gas = 2; max_submission_cost = 7 }

abbrev l1_value : L1Deployment
l1_value = record {
  router = value;
  standard_gateway = value;
  custom_gateway = value;
  weth_gateway = value;
  weth = value;
}

abbrev l2_value : L2Deployment
l2_value = record {
  router = value;
  standard_gateway = value;
  custom_gateway = value;
  weth_gateway = value;
  weth = value;
  proxy_admin = value;
  beacon_proxy_factory = value;
  upgrade_executor = value;
  multicall = value;
}

-- A parent chain whose rollup takes its fees in a token of six decimals.
abbrev test_net : Net
test_net = record {
  env_var = λ name. some value;
  wallet_address = λ key. some value;
  verify_error = λ txs request. some (codes "Already Verified");
  get_address = λ text. some text;
  storage_at = λ txs a slot. some value;
  canonical_l2_factory_address = λ txs creator. some value;
  beacon = λ txs factory. some value;
  implementation = λ txs beacon. some value;
  container = λ filter. some value;
  deployment_file = λ container path. none;
  sha256 = λ text. value;
  big_number_from = λ text. some 9;
  registers = λ networks network. true;
  usdc_bytecode = codes "60__$715109b5d747ea58b675c6ea3f0dba8c60$__00";
  submits = λ txs c. true;
  accepts = λ txs c. true;
  created = λ txs c. length txs ∷ [];
  bridge = λ txs inbox. some value;
  native_token = λ txs bridge. some value;
  owner = λ txs a. some value;
  decimals = λ txs token. some 6;
  field = λ txs gateway f. some value;
  has_admin_role = λ txs a. true;
  has_executor_role = λ txs a. true;
  estimate_all = λ txs from to. some params;
  message_statuses = λ txs c. redeemed ∷ redeemed ∷ [];
  gas_price = λ txs. some 3;
  inbox = λ txs rollup. some value;
  factory_gas_limit = λ txs creator. some 50;
  contracts_gas = λ txs creator. some 60;
  l1_deployment = λ txs creator inbox. some l1_value;
  l2_deployment = λ txs creator inbox. some l2_value;
  l1_multicall = λ txs creator. some value;
  proxy_admin = λ txs inbox. some value;
  counterpart = λ txs router. some value;
  child_counterpart = λ txs router. some value;
  child_code = λ txs a. codes "0x60";
  chain_id = λ txs. some 1;
  child_chain_id = λ txs. some 2;
  bridge_rollup = λ txs bridge. some value;
  confirm_period_blocks = λ txs rollup. some 20;
  rollup_bridge = λ txs rollup. some value;
  allowed_outbox = λ txs bridge. some value;
  rollup_outbox = λ txs rollup. some value;
  rollup_sequencer_inbox = λ txs rollup. some value;
  abi_encode = λ args. value;
  populate_params = λ txs a. some params;
}

abbrev start : World
start = record {
  txs = [];
  registration_file = none;
  commands = [];
  requests = [];
  networks = [];
  network_file = none;
}

abbrev registration : Registration
registration = record {
  fee_token = value;
  router = codes "0x22";
  executor = codes "0x33";
  usdc = codes "0x44";
  gateway = codes "0x55";
  max_gas = 100;
  gas_price_bid = 6;
  max_submission_cost = 7;
  total_fee = 1;
}

abbrev mutants : List Mutant
mutants =
    record { id = codes "1"; name = codes "a"; original = codes "b" }
    ∷ record { id = codes "2"; name = codes "c"; original = codes "d" }
    ∷ []

abbrev has_id : Text → Mutant → Bool
has_id t m = text_eq m.id t

register_gateway_example :
    After
      (λ w'.
        (w' ≡ start)
        ⊎ ((r : Registration) × Prepared test_net start value r
            × StoppedEarly test_net start (has_owner_key test_net start) r w'))
      (λ _ w'.
        (r : Registration) × Prepared test_net start value r
        × Registered test_net start (has_owner_key test_net start) r w')
      (Usdc.register_gateway test_net value value start)
register_gateway_example = register_gateway_lem test_net start value value

create_token_bridge_example :
    After Anywhere
      (λ d w'.
        (t : Ticket) × Estimated test_net value value start t
        × Created test_net value value t [] w'
        × Recorded test_net value t.inbox d w'.txs)
      (create_token_bridge test_net value value value start)
create_token_bridge_example = create_token_bridge_lem test_net value value value start

-- 1000000000001 wei are two units of a token of six decimals.
get_scaled_amount_example :
    (get_scaled_amount 6 1000000000001 ≤ 2) ↔ (1000000000001 * 10 ^ 6 ≤ 2 * 10 ^ 18)
get_scaled_amount_example = get_scaled_amount-least 6 1000000000001 2

get_scaled_amount_sum_example :
    (get_scaled_amount 6 (1000000000001 + 5)
      ≤ get_scaled_amount 6 1000000000001 + get_scaled_amount 6 5)
    × (get_scaled_amount 6 1000000000001 + get_scaled_amount 6 5
        ≤ get_scaled_amount 6 (1000000000001 + 5) + 1)
get_scaled_amount_sum_example = get_scaled_amount-sum 6 1000000000001 5

get_prescaled_amount_example : get_scaled_amount 20 7 ≡ get_prescaled_amount 20 7
get_prescaled_amount_example = get_scaled_amount-eq-prescaled 20 7

multisig_txs_example :
    (multisig_txs registration ≡ direct_txs registration) ↔ (is_fee_token value ≡ false)
multisig_txs_example = multisig_txs-direct registration

register_gateway_linked_example :
    After
      (Stopped test_net value value (value ∷ []) (value ∷ []) start)
      (λ _. Redeemed test_net value value (value ∷ []) (value ∷ []) start)
      (Creator.register_gateway test_net value value (value ∷ []) (value ∷ []) start)
register_gateway_linked_example =
    register_gateway_linked test_net value value (value ∷ []) (value ∷ []) start

initialize_gateways_example :
    After Anywhere
      (λ _ w'. Initialized test_net value value value value value value w'.txs)
      (initialize_gateways test_net value value value value value value start)
initialize_gateways_example =
    initialize_gateways_lem test_net value value value value value value start

check_env_vars_example :
    (check_env_vars test_net required_env_vars start ≡ (done tt, start))
    ↔ All (Provided test_net) required_env_vars
check_env_vars_example = check_env_vars_iff test_net required_env_vars start

test_all_mutants_example :
    test_all_mutants (has_id (codes "1")) (has_id (codes "1")) (λ t. t) 2 mutants
    ≡ map (test_mutant (has_id (codes "1")) (has_id (codes "1")) (λ t. t)) mutants
test_all_mutants_example =
    test_all_mutants-map (has_id (codes "1")) (has_id (codes "1")) (λ t. t) 2 mutants

print_results_example :
    let one = has_id (codes "1") in
    let counts = print_results (test_all_mutants one one (λ t. t) 2 mutants) in
    (counts.killed_count ≡ how_many (λ m. not (one m && one m)) mutants)
    × (counts.survived_count ≡ how_many (λ m. one m && one m) mutants)
    × (counts.total_count ≡ length mutants)
print_results_example =
    print_results-test_all_mutants (has_id (codes "1")) (has_id (codes "1")) (λ t. t) 2 mutants

-- the same chain with a rollup that takes its fees in ether
abbrev ether_net : Net
ether_net = record test_net { native_token = λ txs b. none }

abbrev deployment : Deployment
deployment = record {
  l1_deployment = l1_value;
  l2_deployment = l2_value;
  l1_multicall = value;
  l1_proxy_admin = value;
}

create_token_bridge_returns_example : create_token_bridge ether_net value value value start ≡ (
  done deployment,
  record start { txs = ether_creation ether_net value value value 3 params 50 60 ∷ [] },
)
create_token_bridge_returns_example =
    create_token_bridge_returns ether_net value value value value value 3 50 60 params [] deployment
      start refl refl refl refl refl refl refl refl refl refl refl refl refl

initialize_gateways_returns_example :
    initialize_gateways test_net value value value value value value start ≡ (
      done tt,
      record start {
        txs =
            l2_initialize test_net value value value value value value
            ∷ l1_initialize test_net value value value value value value value
            ∷ [];
      },
    )
initialize_gateways_returns_example =
    initialize_gateways_returns test_net value value value value value value value value value start
      refl refl refl refl refl (refl, (refl, (refl, (refl, (refl, (refl, tt))))))
      (refl, (refl, (refl, (refl, (refl, tt)))))

execute_registration_returns_example :
    execute_registration test_net registration start
    ≡ (done tt, after_sending (plan registration) start)
unfolding text_eq
execute_registration_returns_example =
    execute_registration_returns test_net registration value value start refl refl
      (refl, (refl, (refl, tt))) refl
