-- ===== src/Scripts/Register/Forced.antt =====
-- When the registration of the custom token goes out, and with what.
use token_bridge_contracts.Base.{
  ℕ, ◌*◌, ◌+◌, ◌≡◌, ◌≢◌, ◌↔◌, refl, ap, sym, Bool, true, false, not, Option, none, some, [], ◌∷◌,
  Text, text_eq, text_eq_iff, codes, to_lower, if◌then◌else◌,
}
use token_bridge_contracts.Scripts.Register.{
  Registrar, Registration, Registered, Refusal, registered, refused, or_refuse, require, deployed,
  register_custom_token, l1_custom_gateway, l2_custom_gateway, reverted, not_deployed,
}

module _ (t : Registration) where
  abbrev Ends : Registered → Type 0
  Ends m = m ≡ registered t

  never : (x : Refusal) → Ends (refused x) → ⊥
  never x h = cc

  module _ {A : Type 0} (P : A → Type 0) (k : A → Registered) (p : (a : A) → Ends (k a) ↔ P a) where
    or_refuse_iff :
        (o : Option A) (x : Refusal) → Ends (or_refuse o x k) ↔ ((a : A) × (o ≡ some a) × P a)
    or_refuse_iff none x = (λ h. absurd (never x h), λ (a, e, h). cc)
    or_refuse_iff (some b) x = (λ h. (b, refl, (p b).0 h), λ (a, e, h). (p b).1 (rw (same a e) h))
      where
        same : (a : A) → some b ≡ some a → b ≡ a
        same a e = cc

  module _ (P : Text → Type 0) (k : Text → Registered) (p : (a : Text) → Ends (k a) ↔ P a) where
    -- an empty text is not set
    require_iff :
        (key : Option Text) (x : Refusal)
        → Ends (require key x k) ↔ ((a : Text) × (key ≡ some a) × ((a ≢ []) × P a))
    require_iff none x = (λ h. absurd (never x h), λ (a, e, h). cc)
    require_iff (some []) x = (λ h. absurd (never x h), λ (a, e, (ne, h)). absurd (ne (empty a e)))
      where
        empty : (a : Text) → some [] ≡ some a → a ≡ []
        empty a e = cc
    require_iff (some (c ∷ key)) x = (
      λ h. (c ∷ key, refl, (λ e. cc, (p (c ∷ key)).0 h)),
      λ (a, e, (ne, h)). (p (c ∷ key)).1 (rw (same a e) h),
    )
      where
        same : (a : Text) → some (c ∷ key) ≡ some a → c ∷ key ≡ a
        same a e = cc

  module _ {P : Type 0} (m : Registered) (p : Ends m ↔ P) where
    same_iff :
        (a b : Text) (x : Refusal)
        → Ends (if not (text_eq a b) then refused x else m) ↔ ((a ≡ b) × P)
    same_iff a b x = go (text_eq a b) (text_eq_iff a b)
      where
        go :
            (e : Bool)
            → ((e ≡ true) ↔ (a ≡ b))
            → Ends (if not e then refused x else m) ↔ ((a ≡ b) × P)
        go true q = (λ h. (q.0 refl, p.0 h), λ (e, h). p.1 h)
        go false q = (λ h. absurd (never x h), λ (e, h). cc (q.1 e))

    deployed_iff :
        (code : Option Text)
        → Ends (deployed code m)
          ↔ ((c : Text) × (code ≡ some c) × ((text_eq c (codes "0x") ≡ false) × P))
    deployed_iff none = (λ h. absurd (never _ h), λ (c, e, h). cc)
    deployed_iff (some c) = go (text_eq c (codes "0x")) refl
      where
        go :
            (b : Bool)
            → text_eq c (codes "0x") ≡ b
            → Ends (if b then refused not_deployed else m)
              ↔ ((d : Text) × (some c ≡ some d) × ((text_eq d (codes "0x") ≡ false) × P))
        go true e = (λ h. absurd (never _ h), λ (d, same, (ne, h)). cc)
        go false e = (λ h. (c, refl, (e, p.0 h)), λ (d, same, (ne, h)). p.1 h)

  last_iff :
      (t0 : Registration) (b : Bool)
      → Ends (if b then registered t0 else refused reverted) ↔ ((b ≡ true) × (t ≡ t0))
  last_iff t0 true = (λ h. (refl, cc), λ (e, h). ap registered (sym h))
  last_iff t0 false = (λ h. absurd (never _ h), λ (e, h). cc)

-- USDC's two addresses, sent to the custom gateway of the parent chain
abbrev pub forced : (wallet : Text) → (price : ℕ) → Registration
forced wallet price = record {
  from = wallet;
  to = codes "0xcEe284F754E854890e311e3280b767F80797180d";
  l1_tokens = codes "0xa0b86991c6218b36c1d19d4a2e9eb0ce3606eb48" ∷ [];
  l2_tokens = codes "0xFF970A61A04b1cA14834A43f5dE4533eBDDB5CC8" ∷ [];
  max_gas = 4000000;
  gas_price_bid = price * 2;
  max_submission_cost = 400000000000;
  value = price * 2 * 4000000 + 400000000000;
  gas_price = 30000000000;
}

module _ (r : Registrar) (accepts : Registration → Bool) (t : Registration) where
  -- Three variables are set; the router's owner is the wallet of the key for the parent chain; both
  -- gateways have code; and the mined transaction is that of this wallet, for the gas price seen.
  abbrev pub IsAuthorized : Type 0
  IsAuthorized =
      (infura : Text) × (r.env_var (codes "INFURA_KEY") ≡ some infura)
      × ((infura ≢ [])
          × ((l1_key : Text) × (r.env_var (codes "L1_PRIVKEY") ≡ some l1_key)
              × ((l1_key ≢ [])
                  × ((l2_key : Text) × (r.env_var (codes "L2_PRIVKEY") ≡ some l2_key)
                      × ((l2_key ≢ [])
                          × ((wallet : Text) × (r.from_mnemonic l1_key ≡ some wallet)
                              × ((unused : Text) × (r.from_mnemonic l2_key ≡ some unused)
                                  × ((owner : Text) × (r.router_owner ≡ some owner)
                                      × ((to_lower owner ≡ to_lower wallet)
                                          × ((code1 : Text) × (r.l1_code l1_custom_gateway
                                                ≡ some code1)
                                              × ((text_eq code1 (codes "0x") ≡ false)
                                                  × ((code2 : Text) × (r.l2_code l2_custom_gateway
                                                        ≡ some code2)
                                                      × ((text_eq code2 (codes "0x") ≡ false)
                                                          × ((price : ℕ) × (r.l2_gas_price
                                                            ≡ some price)
                                                            × ((accepts (forced wallet price)
                                                            ≡ true)
                                                            × (t
                                                            ≡ forced wallet price))))))))))))))))

  -- A registration is mined exactly where the three variables are set, both mnemonics are valid, the
  -- wallet of L1_PRIVKEY is the router's owner up to the case of letters, both gateways have code,
  -- and the chain accepts the transaction; and it is this wallet's, with a bid of twice the child
  -- chain's gas price and a value that pays for all the gas at this bid and for the submission.
  pub register_custom_token_iff : (register_custom_token r accepts ≡ registered t) ↔ IsAuthorized
  unfolding register_custom_token
  register_custom_token_iff =
      require_iff t _ _
        (λ infura.
          require_iff t _ _
            (λ l1_key.
              require_iff t _ _
                (λ l2_key.
                  or_refuse_iff t _ _
                    (λ wallet.
                      or_refuse_iff t _ _
                        (λ unused.
                          or_refuse_iff t _ _
                            (λ owner.
                              same_iff t _
                                (deployed_iff t _
                                  (deployed_iff t _
                                    (or_refuse_iff t _ _
                                      (λ price.
                                        last_iff t (forced wallet price)
                                          (accepts (forced wallet price)))
                                      r.l2_gas_price _)
                                    (r.l2_code l2_custom_gateway))
                                  (r.l1_code l1_custom_gateway))
                                (to_lower owner) (to_lower wallet) _)
                            r.router_owner _)
                        (r.from_mnemonic l2_key) _)
                    (r.from_mnemonic l1_key) _)
                (r.env_var (codes "L2_PRIVKEY")) _)
            (r.env_var (codes "L1_PRIVKEY")) _)
        (r.env_var (codes "INFURA_KEY")) _
