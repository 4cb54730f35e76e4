-- ===== src/Upgrades/Tests.antt =====
-- A run of the upgrade tasks on two contracts, and the theorems at its data.
use token_bridge_contracts.Base.{
  ◌≡◌, ◌↔◌, refl, true, false, none, some, List, [], ◌∷◌, codes, Text, includes, text_eq, to_lower,
  lookup, insert,
}
use token_bridge_contracts.Contracts.{
  rollup, l1_gateway_router, l2_gateway_router, QueuedUpdate, QueuedUpdates, CurrentDeployment,
  CurrentDeployments, name_Eq, name_eq, has_post_init_hook, is_beacon, is_rollup_admin_facet,
  is_rollup_user_facet, is_beacon_owned_by_eoa, is_beacon_owned_by_rollup,
}
use token_bridge_contracts.Upgrades.Chain.{Env, Tx, Slot, admin_slot, implementation_slot}
use token_bridge_contracts.Upgrades.Monad.{
  World, ok, thrown, undeclared, exited, answer_bool, answer_text, send, view, ask, ◌>>=◌,
}
use token_bridge_contracts.Upgrades.Triples.{After}
use token_bridge_contracts.Upgrades.Slots.{
  last_address, get_admin_from_proxy_storage, get_implementation_from_storage, even_digits,
}
use token_bridge_contracts.Upgrades.Files.{
  load_tmp_deployments, ensure_clean_git_tree, changed_contract, get_deployments,
  get_queued_updates, create_or_load_tmp_deployments_file,
}
use token_bridge_contracts.Upgrades.Verify.{
  verify_each, same_address, verify_one, verify_beacon, verify_facet, verify_proxy,
  verify_current_implementations,
}
use token_bridge_contracts.Upgrades.Verify.Meaning.{verify_each_iff, AllDeployed}
use token_bridge_contracts.Upgrades.Deploy.{deploy_logic}
use token_bridge_contracts.Upgrades.Deploy.Queue.{Extends, AllQueued, deploy_logic_queues}
use token_bridge_contracts.Upgrades.Deploy.Layers.{OnlyOnLayer, deploy_logic_layers}
use token_bridge_contracts.Upgrades.Update.{
  update_implementations, upgrade_queued, update_each, update_one, send_update, finish_update,
  upgrade_tx,
}
use token_bridge_contracts.Upgrades.Update.Safety.{Kept, world_plan, update_implementations_plan}
use token_bridge_contracts.Upgrades.Update.Completion.{Complete, update_implementations_completes}
use token_bridge_contracts.Upgrades.Update.Rerun.{update_implementations_rerun}
use token_bridge_contracts.Upgrades.Update.Resume.{update_implementations_exits}
use token_bridge_contracts.Upgrades.Update.Sends.{Round, update_one_sends}
use token_bridge_contracts.Upgrades.Admin.{transfer_admin, transfer_beacon_owner}
use token_bridge_contracts.Upgrades.Admin.Beacon.{error_of, transfer_beacon_owner_throws}
use token_bridge_contracts.Upgrades.Admin.Guards.{HandedOver, transfer_admin_guards}

abbrev owner : Text
owner = codes "0xA0"

abbrev admin : Text
admin = codes "0xAD"

abbrev old_logic : Text
old_logic = codes "0x01"

abbrev new_logic : Text
new_logic = codes "0x02"

-- the implementation's slot, after no transaction and after some
abbrev logic_slot : List Tx → Text
logic_slot [] = old_logic
logic_slot (tx ∷ rest) = new_logic

abbrev storage : List Tx → Text → Slot → Text
storage txs proxy admin_slot = codes "0xad"
storage txs proxy implementation_slot = logic_slot txs

-- A parent chain that mines every transaction; the sort keeps the list as it is.
abbrev test_env : Env
test_env = record {
  compiles = true;
  git_tree = codes "README.md" ∷ [];
  current_commit = codes "c0";
  on_fork = false;
  signers = codes "0xa0" ∷ [];
  arbsys_code = codes "0x";
  accepts = λ txs tx. true;
  receipt = λ txs tx. record { contract_address = new_logic; transaction_hash = codes "0xf0" };
  owner = λ txs a. some owner;
  implementation = λ txs a. none;
  user_facet = λ txs a. none;
  admin_facet = λ txs a. none;
  storage_at = storage;
  hexlify = λ t. t;
  sort = λ before xs. xs;
  etherscan_verifies = λ a c. true;
}

abbrev deployed : CurrentDeployment
deployed = record {
  proxy_address = codes "0xB0";
  impl_address = old_logic;
  impl_deployment_txn = codes "0xe0";
  impl_arbitrum_commit_hash = codes "b0";
  impl_build_info = [];
}

abbrev current : CurrentDeployments
current = record { proxy_admin_address = admin; contracts = (l1_gateway_router, deployed) ∷ [] }

abbrev update : QueuedUpdate
update = record {
  address = new_logic;
  deploy_txn = codes "0xf0";
  arbitrum_commit_hash = codes "c0";
  build_info = [];
}

abbrev queue : QueuedUpdates
queue = (l1_gateway_router, update) ∷ []

abbrev start : World
start = record {
  queued_file = some queue;
  current_file = some current;
  tmp_file = none;
  answers = [];
  txs = [];
}

-- A run that was interrupted, and whose user now answers the question with a Boolean.
abbrev interrupted : World
interrupted = record {
  queued_file = some queue;
  current_file = some current;
  tmp_file = some current;
  answers = answer_bool true ∷ [];
  txs = [];
}

-- the same with the text that the code asks for
abbrev resumed : World
resumed = record {
  queued_file = some queue;
  current_file = some current;
  tmp_file = some current;
  answers = answer_text (codes "Yes") ∷ [];
  txs = [];
}

-- The run makes the update and verifies it.
update_run : (update_implementations test_env start).0 ≡ ok true
unfolding update_implementations ensure_clean_git_tree changed_contract
    verify_current_implementations get_deployments load_tmp_deployments view verify_each verify_one
    verify_beacon verify_facet verify_proxy get_admin_from_proxy_storage
    get_implementation_from_storage last_address even_digits same_address get_queued_updates
    create_or_load_tmp_deployments_file upgrade_queued update_each update_one upgrade_tx send_update
    send finish_update ask includes text_eq is_beacon is_rollup_admin_facet is_rollup_user_facet
    is_beacon_owned_by_eoa is_beacon_owned_by_rollup has_post_init_hook to_lower lookup name_eq
    insert ◌>>=◌
update_run = refl

update_implementations_plan_example :
    world_plan (update_implementations test_env start).1 l1_gateway_router
    ≡ world_plan start l1_gateway_router
update_implementations_plan_example = update_implementations_plan test_env start l1_gateway_router

update_implementations_completes_example :
    After
      (Kept (world_plan start))
      (λ _. Complete (world_plan start))
      (update_implementations test_env start)
update_implementations_completes_example =
    update_implementations_completes test_env (λ xs n h. h) start

-- the same chain, where every transaction reverts
abbrev reverting_env : Env
reverting_env = record test_env { accepts = λ txs tx. false }

-- the files that the reverted run leaves, and a user who goes on
abbrev second_start : World
second_start = record (update_implementations reverting_env start).1 {
  answers = answer_text (codes "Yes") ∷ answer_text (codes "Yes") ∷ [];
}

update_implementations_rerun_example :
    After
      (Kept (world_plan start))
      (λ _. Complete (world_plan start))
      (update_implementations test_env second_start)
update_implementations_rerun_example =
    update_implementations_rerun reverting_env test_env (λ xs n h. h) start second_start refl refl
      refl

verify_each_example :
    ((verify_each test_env current owner none current.contracts true start).0 ≡ ok true)
    ↔ AllDeployed test_env current owner start none current.contracts
verify_each_example = verify_each_iff test_env current owner none current.contracts start

deploy_logic_queues_example :
    After
      (Extends (rollup ∷ []) queue)
      (λ _. AllQueued (rollup ∷ []) queue)
      (deploy_logic test_env (rollup ∷ []) start)
deploy_logic_queues_example = deploy_logic_queues test_env (rollup ∷ []) queue start refl

deploy_logic_layers_example :
    OnlyOnLayer test_env [] (deploy_logic test_env (rollup ∷ l2_gateway_router ∷ []) start).1
deploy_logic_layers_example = deploy_logic_layers test_env (rollup ∷ l2_gateway_router ∷ []) start

update_implementations_exits_example :
    update_implementations test_env interrupted ≡ (exited, record interrupted { answers = [] })
unfolding changed_contract includes
update_implementations_exits_example =
    update_implementations_exits test_env interrupted current current true [] refl refl refl refl
      refl

transfer_admin_guards_example :
    After
      (λ w'. w' ≡ start)
      (λ _. HandedOver test_env (codes "0xB0") (codes "0xC0") start)
      (transfer_admin test_env (codes "0xB0") (codes "0xC0") start)
transfer_admin_guards_example = transfer_admin_guards test_env (codes "0xB0") (codes "0xC0") start

transfer_beacon_owner_throws_example :
    transfer_beacon_owner test_env (codes "0xB0") (codes "0xC0") start ≡ (
      thrown
          (error_of test_env.compiles test_env.signers (test_env.owner start.txs (codes "0xB0"))),
      start,
    )
transfer_beacon_owner_throws_example =
    transfer_beacon_owner_throws test_env (codes "0xB0") (codes "0xC0") start

-- the signer owns the beacon
transfer_beacon_owner_test :
    (transfer_beacon_owner test_env (codes "0xB0") (codes "0xC0") start).0 ≡ thrown undeclared
unfolding transfer_beacon_owner same_address to_lower text_eq view ◌>>=◌
transfer_beacon_owner_test = refl

abbrev padding : Text
padding = codes "000000000000000000000000"

abbrev address : Text
address = codes "a000000000000000000000000000000000000001"

update_one_sends_example :
    After
      (λ w'. w' ≡ start)
      (Round test_env l1_gateway_router queue current start
        (lookup l1_gateway_router current.contracts))
      (update_one test_env l1_gateway_router queue current start)
update_one_sends_example = update_one_sends test_env l1_gateway_router queue current start
