-- ===== src/Contracts/Names.antt =====
-- The names of tasks/types.ts, as an enumeration whose equality is decided by a number.
use token_bridge_contracts.Base.{
  ℕ, zero, suc, ◌≡◌, refl, ◌↔◌, ap, ◌∙◌, sym, Bool, true, false, ◌||◌, ◌==◌, ==_iff, Eq, some, List,
  [], ◌∷◌, Dict, keys, lookup, arith,
}

pub data ContractNames : Type 0 where
  l1_gateway_router l1_erc20_gateway l1_custom_gateway l1_weth_gateway : ContractNames
  l2_erc20_gateway l2_gateway_router l2_custom_gateway l2_weth_gateway : ContractNames
  standard_arb_erc20 rollup rollup_admin_facet rollup_user_facet : ContractNames
  rollup_event_bridge node challenge one_step_proof : ContractNames
  one_step_proof2 one_step_proof_hash inbox bridge : ContractNames
  sequencer_inbox outbox old_outbox outbox_entry : ContractNames

-- The place of a name in the enumeration. The source compares the names as texts, which differ
-- from one another.
abbrev name_index : ContractNames → ℕ
name_index l1_gateway_router = 0
name_index l1_erc20_gateway = 1
name_index l1_custom_gateway = 2
name_index l1_weth_gateway = 3
name_index l2_erc20_gateway = 4
name_index l2_gateway_router = 5
name_index l2_custom_gateway = 6
name_index l2_weth_gateway = 7
name_index standard_arb_erc20 = 8
name_index rollup = 9
name_index rollup_admin_facet = 10
name_index rollup_user_facet = 11
name_index rollup_event_bridge = 12
name_index node = 13
name_index challenge = 14
name_index one_step_proof = 15
name_index one_step_proof2 = 16
name_index one_step_proof_hash = 17
name_index inbox = 18
name_index bridge = 19
name_index sequencer_inbox = 20
name_index outbox = 21
name_index old_outbox = 22
name_index outbox_entry = 23

unfoldable pub name_eq : ContractNames → ContractNames → Bool
name_eq a b = name_index a == name_index b

name_at : ℕ → ContractNames
name_at zero = l1_gateway_router
name_at (suc zero) = l1_erc20_gateway
name_at (suc (suc zero)) = l1_custom_gateway
name_at (suc (suc (suc zero))) = l1_weth_gateway
name_at (suc (suc (suc (suc zero)))) = l2_erc20_gateway
name_at (suc (suc (suc (suc (suc zero))))) = l2_gateway_router
name_at (suc (suc (suc (suc (suc (suc zero)))))) = l2_custom_gateway
name_at (suc (suc (suc (suc (suc (suc (suc zero))))))) = l2_weth_gateway
name_at (suc (suc (suc (suc (suc (suc (suc (suc zero)))))))) = standard_arb_erc20
name_at (suc (suc (suc (suc (suc (suc (suc (suc (suc zero))))))))) = rollup
name_at (suc (suc (suc (suc (suc (suc (suc (suc (suc (suc zero)))))))))) = rollup_admin_facet
name_at (suc (suc (suc (suc (suc (suc (suc (suc (suc (suc (suc zero))))))))))) = rollup_user_facet
name_at (suc (suc (suc (suc (suc (suc (suc (suc (suc (suc (suc (suc zero)))))))))))) =
    rollup_event_bridge
name_at (suc (suc (suc (suc (suc (suc (suc (suc (suc (suc (suc (suc (suc zero))))))))))))) = node
name_at (suc (suc (suc (suc (suc (suc (suc (suc (suc (suc (suc (suc (suc (suc zero)))))))))))))) =
    challenge
name_at
      (suc
        (suc (suc (suc (suc (suc (suc (suc (suc (suc (suc (suc (suc (suc (suc zero))))))))))))))) =
    one_step_proof
name_at
      (suc (
        suc (
          suc
            (suc (suc (suc (suc (suc (suc (suc (suc (suc (suc (suc (suc (suc zero)))))))))))))))) =
    one_step_proof2
name_at
      (suc (
        suc (
          suc (
            suc (
              suc
                (suc (suc (suc (suc (suc (suc (suc (suc (suc (suc (suc (suc zero))))))))))))))))) =
    one_step_proof_hash
name_at
      (suc (
        suc (
          suc (
            suc (
              suc (
                suc (
                  suc
                    (suc (suc (suc (suc (suc (suc (suc (suc (suc (suc (suc zero)))))))))))))))))) =
    inbox
name_at
      (suc (
        suc (
          suc (
            suc (
              suc (
                suc (
                  suc (
                    suc (
                      suc
                        (suc (suc (suc (suc (suc (suc (suc (suc (suc (suc zero))))))))))))))))))) =
    bridge
name_at
      (suc (
        suc (
          suc (
            suc (
              suc (
                suc (
                  suc (
                    suc (
                      suc (
                        suc (
                          suc
                            (suc (suc (suc (suc (suc (suc (suc (suc (suc zero)))))))))))))))))))) =
    sequencer_inbox
name_at
      (suc (
        suc (
          suc (
            suc (
              suc (
                suc (
                  suc (
                    suc (
                      suc (
                        suc (
                          suc (
                            suc (
                              suc
                                (suc (suc (suc (suc (suc (suc (suc (suc zero))))))))))))))))))))) =
    outbox
name_at
      (suc (
        suc (
          suc (
            suc (
              suc (
                suc (
                  suc (
                    suc (
                      suc (
                        suc (
                          suc (
                            suc (
                              suc (
                                suc (
                                  suc
                                    (suc (suc (suc (suc (suc (suc (suc zero)))))))))))))))))))))) =
    old_outbox
name_at _ = outbox_entry

name_at-name_index : (n : ContractNames) → name_at (name_index n) ≡ n
unfolding name_at
name_at-name_index l1_gateway_router = refl
name_at-name_index l1_erc20_gateway = refl
name_at-name_index l1_custom_gateway = refl
name_at-name_index l1_weth_gateway = refl
name_at-name_index l2_erc20_gateway = refl
name_at-name_index l2_gateway_router = refl
name_at-name_index l2_custom_gateway = refl
name_at-name_index l2_weth_gateway = refl
name_at-name_index standard_arb_erc20 = refl
name_at-name_index rollup = refl
name_at-name_index rollup_admin_facet = refl
name_at-name_index rollup_user_facet = refl
name_at-name_index rollup_event_bridge = refl
name_at-name_index node = refl
name_at-name_index challenge = refl
name_at-name_index one_step_proof = refl
name_at-name_index one_step_proof2 = refl
name_at-name_index one_step_proof_hash = refl
name_at-name_index inbox = refl
name_at-name_index bridge = refl
name_at-name_index sequencer_inbox = refl
name_at-name_index outbox = refl
name_at-name_index old_outbox = refl
name_at-name_index outbox_entry = refl

pub name_eq_iff : (a b : ContractNames) → (name_eq a b ≡ true) ↔ (a ≡ b)
unfolding name_eq
name_eq_iff a b = (
  λ h. sym (name_at-name_index a) ∙ ap name_at ((==_iff _ _).0 h) ∙ name_at-name_index b,
  λ h. (==_iff _ _).1 (ap name_index h),
)

instance abbrev pub name_Eq : Eq ContractNames
name_Eq = record { beq = name_eq; beq_iff = name_eq_iff }

-- whether a name is in a list
abbrev pub contains : ContractNames → List ContractNames → Bool
contains n [] = false
contains n (m ∷ ms) = name_eq m n || contains n ms

pub contains-keys {ℓ} :
    {V : Type ℓ} (n : ContractNames) (q : Dict ContractNames V) (v : V)
    → lookup n q ≡ some v
    → contains n (keys q) ≡ true
unfolding lookup
contains-keys n [] v h = cc
contains-keys n ((m, u) ∷ q) v h = ground (arith, contains-keys n q v)
