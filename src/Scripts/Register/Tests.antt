-- ===== src/Scripts/Register/Tests.antt =====
-- A registration of the custom token that goes out, and one that does not.
use token_bridge_contracts.Base.{
  ◌≡◌, ◌↔◌, refl, true, some, [], codes, text_eq, to_lower, if◌then◌else◌,
}
use token_bridge_contracts.Scripts.Register.{
  Registrar, Registration, registered, refused, not_router_owner, registration,
  register_custom_token,
}
use token_bridge_contracts.Scripts.Register.Forced.{IsAuthorized, register_custom_token_iff}

abbrev registrar : Registrar
registrar = record {
  env_var = λ name. some name;
  from_mnemonic = λ key. if text_eq key (codes "L1_PRIVKEY") then some (codes "0xAB") else some [];
  router_owner = some (codes "0xab");
  l1_code = λ _. some (codes "0x60");
  l2_code = λ _. some (codes "0x60");
  l2_gas_price = some 5;
}

abbrev sent : Registration
sent = registration (codes "0xAB") 5

register_custom_token_test : register_custom_token registrar (λ _. true) ≡ registered sent
unfolding register_custom_token text_eq to_lower
register_custom_token_test = refl

register_custom_token_refused_test :
    register_custom_token (record registrar { router_owner = some (codes "0xac") }) (λ _. true)
    ≡ refused not_router_owner
unfolding register_custom_token text_eq to_lower
register_custom_token_refused_test = refl

register_custom_token_example :
    (register_custom_token registrar (λ _. true) ≡ registered sent)
    ↔ IsAuthorized registrar (λ _. true) sent
register_custom_token_example = register_custom_token_iff registrar (λ _. true) sent
