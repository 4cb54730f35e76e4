-- ===== src/Scripts/Tests/Deployments.antt =====
-- Concrete deployments, and the theorems at them.
use token_bridge_contracts.Base.{
  ◌≡◌, ◌≢◌, refl, List, Bool, true, false, Option, none, some, [], ◌∷◌, ◌++◌, codes, Text, text_eq,
  starts_with, if◌then◌else◌,
}
use token_bridge_contracts.Scripts.Chain.{
  Call, Net, Field, name_field, symbol_field, currency_field, master_minter_field,
  counterpart_field, l2_usdc_field,
}
use token_bridge_contracts.Scripts.Monad.{◌>>=◌, World, Result, view, done, failed, missing_env_var}
use token_bridge_contracts.Scripts.Triples.{After}
use token_bridge_contracts.Scripts.Templates.{address_dead, deploy_l1_token_bridge_creator}
use token_bridge_contracts.Scripts.Templates.Verified.{
  SetOrRefused, Deployed, deploy_l1_token_bridge_creator_lem,
}
use token_bridge_contracts.Scripts.Templates.Returns.{deploy_l1_token_bridge_creator_returns}
use token_bridge_contracts.Scripts.Usdc.Setup.{Anywhere}
use token_bridge_contracts.Scripts.Usdc.Token.{
  deploy_bridged_usdc, link_library, placeholder, strip_0x,
}
use token_bridge_contracts.Scripts.Usdc.Token.Linked.{joined, link_library_lem}
use token_bridge_contracts.Scripts.Usdc.Token.Deployed.{Unusable, Usable, deploy_bridged_usdc_lem}
use token_bridge_contracts.Scripts.Usdc.Main.{main}
use token_bridge_contracts.Scripts.Usdc.Main.Ready.{Ready, main_lem}
use token_bridge_contracts.Scripts.Compare.{
  LocalArtifact, matches, matches_without_arguments, compare_bytecode, split_commas,
}
use token_bridge_contracts.Scripts.Compare.Reports.{IsReported, compare_bytecode-IsReported}
use token_bridge_contracts.Scripts.Entry.{create_token_bridge_main, deploy_token_bridge_creator}
use token_bridge_contracts.Scripts.Entry.Guards.{create_token_bridge_main_missing, first_undefined}
use token_bridge_contracts.Scripts.Entry.Limits.{
  NotDeployed, CreatorDeployed, deploy_token_bridge_creator_lem,
}
use token_bridge_contracts.Scripts.Local.{set_up_token_bridge_in_local_env}
use token_bridge_contracts.Scripts.Local.Composed.{LocalReady, set_up_token_bridge_in_local_env_lem}
use token_bridge_contracts.Scripts.Blockscout.{verify_on_blockscout}
use token_bridge_contracts.Scripts.Blockscout.Requests.{Same, verify_on_blockscout_needs_key}
use token_bridge_contracts.Scripts.Blockscout.Steps.{AllRequested}
use token_bridge_contracts.Scripts.Blockscout.Complete.{verify_on_blockscout_lem}
use token_bridge_contracts.Scripts.Tests.{value, start, test_net}

deploy_l1_token_bridge_creator_example :
    After
      (SetOrRefused test_net start value 100)
      (Deployed test_net start value 100 true)
      (deploy_l1_token_bridge_creator test_net value 100 true start)
deploy_l1_token_bridge_creator_example =
    deploy_l1_token_bridge_creator_lem test_net value 100 true start

-- the logic is the second contract that is created, and the minter the fifth transaction
abbrev usdc_field : Bool → Field → Text
usdc_field true name_field = []
usdc_field true symbol_field = []
usdc_field true currency_field = []
usdc_field false name_field = codes "USDC"
usdc_field false symbol_field = codes "USDC.e"
usdc_field false currency_field = codes "USD"
usdc_field false master_minter_field = 4 ∷ []
usdc_field false _ = value
usdc_field true _ = address_dead

abbrev usdc_net : Net
usdc_net = record test_net {
  field = λ txs a f. some (usdc_field (text_eq a (1 ∷ [])) f);
  decimals = λ txs a. some (if text_eq a (1 ∷ []) then 0 else 6);
}

deploy_bridged_usdc_example :
    After
      (Unusable usdc_net value value start)
      (Usable usdc_net value value start)
      (deploy_bridged_usdc usdc_net value value start)
deploy_bridged_usdc_example = deploy_bridged_usdc_lem usdc_net value value start

main_example : After Anywhere (λ _. Ready usdc_net start) (main usdc_net start)
main_example = main_lem usdc_net start

abbrev library : Text
library = codes "0x1111111111111111111111111111111111111111"

link_library_example :
    link_library (joined placeholder (codes "60") (codes "7300" ∷ [])) library
    ≡ joined (strip_0x library) (codes "60") (codes "7300" ∷ [])
link_library_example =
    link_library_lem library (codes "60") (codes "7300" ∷ []) (refl, (refl, tt))
      ((refl, (refl, (refl, (refl, tt)))), tt)

-- an environment without one variable
abbrev net_without : Text → Net
net_without missing = record test_net {
  env_var = λ name. if text_eq name missing then none else some value;
  wallet_address = λ key. if text_eq key [] then none else some value;
}

create_token_bridge_main_missing_example :
    create_token_bridge_main (net_without (codes "ROLLUP_OWNER")) start
    ≡ (failed (missing_env_var (codes "ROLLUP_OWNER")), start)
unfolding first_undefined text_eq
create_token_bridge_main_missing_example =
    create_token_bridge_main_missing (net_without (codes "ROLLUP_OWNER")) (codes "ROLLUP_OWNER")
      start refl

deploy_token_bridge_creator_example :
    After
      (NotDeployed test_net start)
      (CreatorDeployed test_net start)
      (deploy_token_bridge_creator test_net start)
deploy_token_bridge_creator_example = deploy_token_bridge_creator_lem test_net start

set_up_token_bridge_in_local_env_example :
    After Anywhere (LocalReady test_net) (set_up_token_bridge_in_local_env test_net start)
set_up_token_bridge_in_local_env_example = set_up_token_bridge_in_local_env_lem test_net start

verify_on_blockscout_needs_key_example :
    After
      (Same (net_without (codes "DEPLOYER_KEY")) start)
      (λ _ _. ⊥)
      (verify_on_blockscout (net_without (codes "DEPLOYER_KEY")) start)
unfolding text_eq
verify_on_blockscout_needs_key_example =
    verify_on_blockscout_needs_key (net_without (codes "DEPLOYER_KEY")) start refl refl

verify_on_blockscout_example :
    After Anywhere
      (λ _. AllRequested (net_without []) start)
      (verify_on_blockscout (net_without []) start)
unfolding text_eq
verify_on_blockscout_example = verify_on_blockscout_lem (net_without []) start refl

-- The proxy is the third contract.
bridged_usdc_test : (deploy_bridged_usdc usdc_net value value start).0 ≡ done (2 ∷ [], 4 ∷ [])
unfolding deploy_bridged_usdc text_eq ◌>>=◌ view
bridged_usdc_test = refl

deploy_l1_token_bridge_creator_test :
    (deploy_l1_token_bridge_creator test_net value 100 true start).0 ≡ done (3 ∷ [], 5 ∷ [])
unfolding deploy_l1_token_bridge_creator ◌>>=◌ view
deploy_l1_token_bridge_creator_test = refl

-- In a whole run the contracts are those of these transactions: the logic of the token is 3, its
-- proxy 4 and its minter 6, and the gateways are 16 and 18.
abbrev other_field : Text → Field → Text
other_field a counterpart_field = if text_eq a (16 ∷ []) then 18 ∷ [] else 16 ∷ []
other_field a l2_usdc_field = 4 ∷ []
other_field a master_minter_field = 6 ∷ []
other_field a f = usdc_field false f

abbrev run_field : Text → Field → Text
run_field a f = if text_eq a (3 ∷ []) then usdc_field true f else other_field a f

abbrev run_net : Net
run_net = record test_net {
  field = λ txs a f. some (run_field a f);
  decimals = λ txs a. some (if text_eq a (3 ∷ []) then 0 else 6);
  deployment_file = λ container path. some (record {
    bridge = value;
    inbox = value;
    outbox = [];
    rollup = value;
    sequencer_inbox = value;
  });
}

main_test : (main run_net start).0 ≡ done tt
unfolding main text_eq ◌>>=◌ view
main_test = refl

verify_on_blockscout_test : (verify_on_blockscout run_net start).0 ≡ done tt
unfolding verify_on_blockscout text_eq ◌>>=◌ view
verify_on_blockscout_test = refl

abbrev is_done : {A : Type 0} → Result A → Bool
is_done (done a) = true
is_done _ = false

set_up_token_bridge_in_local_env_test :
    is_done (set_up_token_bridge_in_local_env run_net start).0 ≡ true
unfolding set_up_token_bridge_in_local_env text_eq ◌>>=◌ view
set_up_token_bridge_in_local_env_test = refl

deploy_token_bridge_creator_test :
    (deploy_token_bridge_creator run_net start).0 ≡ done (3 ∷ [], 5 ∷ [])
unfolding deploy_token_bridge_creator ◌>>=◌ view
deploy_token_bridge_creator_test = refl

accepts_all : (txs : List Call) (c : Call) → test_net.accepts txs c ≡ true
accepts_all txs c = refl

knows_id : (txs : List Call) → test_net.chain_id txs ≢ none
knows_id txs h = cc

deploy_l1_token_bridge_creator_returns_example :
    (addresses : Text × Text) × (w' : World) × (deploy_l1_token_bridge_creator test_net value 100
        true start
      ≡ (done addresses, w'))
    × Deployed test_net start value 100 true addresses w'
deploy_l1_token_bridge_creator_returns_example =
    deploy_l1_token_bridge_creator_returns test_net value 100 start accepts_all knows_id

-- a node with code at two addresses
abbrev code_at : Text → Option Text
code_at address =
    if text_eq address (codes "a")
    then some (codes "0x6001")
    else if text_eq address (codes "b")
    then some (codes "0x6002")
    else none

-- a hash of hexadecimal texts
abbrev hash_hex : Text → Option Text
hash_hex code = if starts_with (codes "0x__") code then none else some code

abbrev weth_code : Text → Option Text
weth_code code = if text_eq code (codes "6002") then some (codes "WETH") else none

abbrev local_artifacts : List (Option LocalArtifact)
local_artifacts =
    some (record { contract_name = codes "IFace"; deployed_bytecode = none })
    ∷ some (record { contract_name = codes "Router"; deployed_bytecode = some (codes "0x6001") })
    ∷ []

-- bytecode that is not linked ends the task where it is not after a match
abbrev unlinked_artifacts : List (Option LocalArtifact)
unlinked_artifacts =
    local_artifacts
    ++ (some (record { contract_name = codes "Usdc"; deployed_bytecode = some (codes "0x__$7$__") })
        ∷ [])

compare_bytecode_unlinked_test :
    compare_bytecode code_at hash_hex weth_code unlinked_artifacts (codes "a,b")
    ≡ (matches (codes "a") (codes "Router") ∷ [], false)
unfolding compare_bytecode text_eq starts_with
compare_bytecode_unlinked_test = refl

compare_bytecode_test :
    compare_bytecode code_at hash_hex weth_code local_artifacts (codes "a, b,c,a") ≡ (
      matches (codes "a") (codes "Router")
          ∷ matches_without_arguments (codes "b") (codes "WETH")
          ∷ [],
      false,
    )
unfolding compare_bytecode text_eq starts_with
compare_bytecode_test = refl

compare_bytecode_example :
    IsReported code_at hash_hex weth_code local_artifacts
      (split_commas (codes "a, b,c,a"))
      ((compare_bytecode code_at hash_hex weth_code local_artifacts (codes "a, b,c,a")).0)
      ((compare_bytecode code_at hash_hex weth_code local_artifacts (codes "a, b,c,a")).1)
compare_bytecode_example =
    compare_bytecode-IsReported code_at hash_hex weth_code local_artifacts (codes "a, b,c,a")
