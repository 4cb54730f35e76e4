-- ===== src/Deployment/Tests.antt =====
-- A deployment on two chains, and the theorems at it.
use Prim.Native.String.{String}
use token_bridge_contracts.Base.{
  text_Eq, to_lower, ◌≡◌, ◌↔◌, refl, true, none, some, List, [], ◌∷◌, ◌++◌, codes, Text, text_eq,
  drop, starts_with, lookup, length, ◌<◌, ◌^◌, if◌then◌else◌,
}
use token_bridge_contracts.Scripts.Chain.{L1Deployment, L2Deployment}
use token_bridge_contracts.Upgrades.Slots.Words.{format_address}
use token_bridge_contracts.Deployment.Views.{
  View, Chain, Setting, entries, passed, failed, call_failed, default_gateway, inbox, router,
  counterpart_gateway, l2_beacon_proxy_factory, beacon_proxy_factory, cloneable_proxy_hash,
  whitelist, l1_weth, l2_weth, l2_gateway, owner, beacon, implementation, bridge, retryable_sender,
  l1_multicall, get_proxy_admin, admin_role, executor_role, proxy_admin_slot,
}
use token_bridge_contracts.Deployment.Alias.{
  apply_alias, big_int, apply_l1_to_l2_alias, undo_l1_to_l2_alias,
}
use token_bridge_contracts.Deployment.Alias.Roundtrip.{apply_alias_roundtrip}
use token_bridge_contracts.Deployment.Run.{token_bridge_test}
use token_bridge_contracts.Deployment.Run.Whole.{IsSound, token_bridge_test_iff}

abbrev Rows : Type 0
Rows = List (Text × Text)

abbrev row : String → String → Text × Text
row a b = (codes "0x" ++ codes a, codes "0x" ++ codes b)

-- the tables of the views
abbrev l1_rows : View → Rows
l1_rows default_gateway = row "11" "12" ∷ []
l1_rows inbox = row "01" "04" ∷ row "11" "04" ∷ row "12" "04" ∷ row "13" "04" ∷ row "14" "04" ∷ []
l1_rows router =
    row "11" "0000000000000000000000000000000000000000"
    ∷ row "12" "11"
    ∷ row "13" "11"
    ∷ row "14" "11"
    ∷ []
l1_rows counterpart_gateway = row "11" "21" ∷ row "12" "22" ∷ row "13" "23" ∷ row "14" "24" ∷ []
l1_rows l2_beacon_proxy_factory = row "12" "27" ∷ []
l1_rows cloneable_proxy_hash = row "12" "ff" ∷ []
l1_rows whitelist =
    row "12" "0000000000000000000000000000000000000000"
    ∷ row "13" "0000000000000000000000000000000000000000"
    ∷ []
l1_rows l1_weth = row "14" "15" ∷ []
l1_rows l2_weth = row "14" "25" ∷ []
l1_rows owner = row "01" "e1" ∷ row "06" "e1" ∷ row "11" "e1" ∷ row "13" "e1" ∷ []
l1_rows bridge = row "04" "05" ∷ []
l1_rows retryable_sender = row "02" "03" ∷ []
l1_rows l1_multicall = row "02" "29" ∷ []
l1_rows get_proxy_admin = row "04" "06" ∷ []
l1_rows admin_role = row "e1" "a0" ∷ []
l1_rows executor_role = row "e1" "a1" ∷ []
l1_rows _ = []

abbrev l2_rows : View → Rows
l2_rows default_gateway = row "21" "22" ∷ []
l2_rows router =
    row "21" "0000000000000000000000000000000000000000"
    ∷ row "22" "21"
    ∷ row "23" "21"
    ∷ row "24" "21"
    ∷ []
l2_rows counterpart_gateway =
    row "21" "11" ∷ row "22" "12" ∷ row "23" "13" ∷ row "24" "14" ∷ row "2c" "2c" ∷ []
l2_rows beacon_proxy_factory = row "22" "27" ∷ []
l2_rows cloneable_proxy_hash = row "27" "ff" ∷ row "22" "ff" ∷ []
l2_rows l1_weth = row "24" "15" ∷ []
l2_rows l2_weth = row "24" "25" ∷ []
l2_rows l2_gateway = row "2c" "24" ∷ []
l2_rows owner = row "2a" "28" ∷ row "26" "28" ∷ []
l2_rows beacon = row "27" "2a" ∷ []
l2_rows implementation = row "2a" "2b" ∷ []
l2_rows admin_role = row "28" "a0" ∷ []
l2_rows executor_role = row "28" "a1" ∷ []
l2_rows _ = []

-- a storage word with an address
abbrev word : Text → Text
word address = codes "0x000000000000000000000000" ++ drop 2 address

abbrev l1_chain : Chain
l1_chain = record {
  read = λ address v. lookup address (l1_rows v);
  l1_token_to_gateway = λ _ _. some (codes "0x14");
  get_gateway = λ _ _. some (codes "0x14");
  has_role = λ _ _ _. some true;
  get_code = λ _. some (codes "0x");
  get_storage_at = λ _ _. some (word (codes "0x06"));
  chain_id = 1;
}

-- Slot 0 of every contract says that it is initialized.
abbrev l2_storage : Text → Text
l2_storage slot =
    if text_eq slot (codes "0")
    then codes "1"
    else if text_eq slot proxy_admin_slot
    then word (codes "0x26")
    else word (codes "0x2c")

abbrev l2_chain : Chain
l2_chain = record {
  read = λ address v. lookup address (l2_rows v);
  l1_token_to_gateway = λ _ _. some (codes "0x24");
  get_gateway = λ _ _. some (codes "0x24");
  has_role = λ _ _ _. some true;
  get_code = λ _. some (codes "0x60");
  get_storage_at = λ _ slot. some (l2_storage slot);
  chain_id = 2;
}

abbrev l1_deployment : L1Deployment
l1_deployment = record {
  router = codes "0x11";
  standard_gateway = codes "0x12";
  custom_gateway = codes "0x13";
  weth_gateway = codes "0x14";
  weth = codes "0x15";
}

abbrev l2_deployment : L2Deployment
l2_deployment = record {
  router = codes "0x21";
  standard_gateway = codes "0x22";
  custom_gateway = codes "0x23";
  weth_gateway = codes "0x24";
  weth = codes "0x25";
  proxy_admin = codes "0x26";
  beacon_proxy_factory = codes "0x27";
  upgrade_executor = codes "0x28";
  multicall = codes "0x29";
}

abbrev setting : Setting
setting = record {
  l1 = l1_chain;
  l2 = l2_chain;
  env_var = λ _. none;
  network_json = entries (some (codes "0x01")) (some (codes "0x02")) (some (codes "0x03"));
  get_address = λ t. some t;
  big_number_from = λ _. some 1;
  inbox_to_l1_deployment = λ _ _. some l1_deployment;
  inbox_to_l2_deployment = λ _ _. some l2_deployment;
  logged_owners = λ _ _. some (codes "0xb0" ∷ []);
}

token_bridge_test_passes : token_bridge_test setting ≡ passed tt
unfolding token_bridge_test lookup text_eq to_lower apply_alias starts_with format_address
token_bridge_test_passes = refl

-- a router that does not know its counterpart
abbrev unlinked : Setting
unlinked = record setting {
  l2 = record l2_chain { read = λ address v. lookup address (l1_rows v) };
}

token_bridge_test_fails : token_bridge_test unlinked ≡ failed call_failed
unfolding token_bridge_test lookup text_eq to_lower
token_bridge_test_fails = refl

token_bridge_test_iff_example : (token_bridge_test setting ≡ passed tt) ↔ IsSound setting
token_bridge_test_iff_example = token_bridge_test_iff setting

apply_alias_example :
    (alias : Text) × (apply_alias (codes "0xE1") ≡ some alias)
    × (length alias ≡ 42)
    × (big_int alias ≡ some (apply_l1_to_l2_alias 225))
    × (225 < 2 ^ 160 → undo_l1_to_l2_alias (apply_l1_to_l2_alias 225) ≡ 225)
unfolding big_int starts_with
apply_alias_example = apply_alias_roundtrip (codes "0xE1") 225 read
  where
    read : big_int (codes "0xE1") ≡ some 225
    read = refl

apply_alias_test :
    apply_alias (codes "0xE1") ≡ some (codes "0x11110000000000000000000000000000000011f2")
unfolding apply_alias starts_with
apply_alias_test = refl
