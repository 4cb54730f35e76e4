-- ===== src/Deployment/CreationTest/Tests.antt =====
-- Compiled contracts for which the creation code tests pass, and the theorems at them.
use token_bridge_contracts.Base.{
  ℕ, ◌≡◌, ◌↔◌, refl, true, Option, none, some, ◌++◌, codes, Text, text_eq, starts_with,
  if◌then◌else◌,
}
use token_bridge_contracts.Scripts.CreationCode.{
  Artifact, get_constructor_bytecode, length_in_bytes, get_creation_code_for,
}
use token_bridge_contracts.Deployment.Views.{entries, passed}
use token_bridge_contracts.Deployment.Alias.{zeros}
use token_bridge_contracts.Deployment.CreationTest.{
  CodeSetting, expect_generated, creation_code_test, l2_router_template,
}
use token_bridge_contracts.Scripts.CreationCode.Extracted.{Without}
use token_bridge_contracts.Deployment.CreationTest.Generated.{
  generated, CodesAgree, creation_code_test_iff, constructor_of_generated,
}

abbrev plain : Artifact
plain = record {
  bytecode = codes "0x" ++ get_creation_code_for (codes "ff");
  deployed_bytecode = codes "0xff";
}

-- with a constructor of so many digits
abbrev constructed : ℕ → Artifact
constructed digits = record {
  bytecode = codes "0x" ++ (zeros digits ++ codes "ff");
  deployed_bytecode = codes "0xff";
}

abbrev artifacts : Text → Option Artifact
artifacts contract_name =
    if text_eq contract_name (codes "aeWETH")
    then some (constructed 696)
    else if starts_with (codes "@offchainlabs") contract_name
    then some (constructed 484)
    else some plain

abbrev setting : CodeSetting
setting = record {
  tester_deployed = true;
  network_json = entries none (some (codes "0x01")) none;
  read_artifact = artifacts;
  template = λ _ _. some (codes "0x02");
  get_code = λ _. some (codes "0xff");
}

creation_code_test_passes : creation_code_test setting ≡ passed tt
unfolding creation_code_test text_eq starts_with length_in_bytes get_creation_code_for
    get_constructor_bytecode zeros
creation_code_test_passes = refl

creation_code_test_iff_example : (creation_code_test setting ≡ passed tt) ↔ CodesAgree setting
creation_code_test_iff_example = creation_code_test_iff setting

router_generated :
    expect_generated setting (codes "0x01") (codes "L2GatewayRouter") l2_router_template ≡ passed tt
unfolding expect_generated text_eq starts_with get_creation_code_for
router_generated = refl

constructor_of_generated_example :
    (plain.bytecode ≡ codes "0x" ++ generated (codes "ff"))
    × ((c : Text) × (get_constructor_bytecode plain ≡ some c)
        × ((length_in_bytes c ≡ some 32) × Without (codes "ff") (generated (codes "ff")) c))
unfolding text_eq starts_with
constructor_of_generated_example =
    constructor_of_generated setting (codes "0x01") (codes "L2GatewayRouter") l2_router_template
      plain (codes "0x02") (codes "ff") router_generated refl refl refl refl
