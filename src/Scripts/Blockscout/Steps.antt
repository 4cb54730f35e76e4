-- ===== src/Scripts/Blockscout/Steps.antt =====
-- The requests one by one, and those for the dummies.
use token_bridge_contracts.Base.{
  ◌≡◌, refl, sym, ap, ◌∙◌, subst, Bool, true, none, some, List, [], ◌∷◌, ◌++◌, codes, Text,
  if◌then◌else◌,
}
use token_bridge_contracts.Scripts.Chain.{
  Net, Call, VerifyRequest, L2Deployment, ae_weth_factory, upgrade_executor_factory,
}
use token_bridge_contracts.Scripts.Monad.{World, Script, pure, ◌>>=◌}
use token_bridge_contracts.Scripts.Triples.{After, After-bind, After-weaken}
use token_bridge_contracts.Scripts.Creations.{creation}
use token_bridge_contracts.Scripts.Creations.Rules.{mined, After-created}
use token_bridge_contracts.Scripts.Usdc.{is_set}
use token_bridge_contracts.Scripts.Usdc.Setup.{Anywhere}
use token_bridge_contracts.Scripts.Usdc.Main.Steps.{blocked}
use token_bridge_contracts.Scripts.Blockscout.{
  outcome, verify_contract, verify_logic, get_logic_address, verify_special_cases,
}
use token_bridge_contracts.Scripts.Blockscout.Requests.{
  request, requests_of, all_requests, LogicOf, Requested, After-get_logic,
}

module _ (n : Net) (w : World) where
  module _ {A : Type 0} (P : A → World → Type 0) (requests : List VerifyRequest) where
    pub After-Requested :
        (name address : Text) (args : List Text) (k : Unit → Script A) (w1 : World)
        → Requested n w requests w1
        → ((w2 : World)
            → Requested n w (request name address args ∷ requests) w2
            → After Anywhere P (k tt w2))
        → After Anywhere P ((verify_contract n name address args none >>= k) w1)
    unfolding verify_contract ◌>>=◌ Requested
    After-Requested name address args k w1 h next =
        next _ (ap (λ rs. request name address args ∷ rs) (h.0), h.1)

    pub After-logic :
        (name proxy : Text) (k : Unit → Script A) (w1 : World)
        → Requested n w requests w1
        → ((logic : Text) (w2 : World)
            → LogicOf n w proxy logic
            → Requested n w (request name logic [] ∷ requests) w2
            → After Anywhere P (k tt w2))
        → After Anywhere P ((verify_logic n name proxy >>= k) w1)
    unfolding verify_logic verify_contract Requested
    After-logic name proxy k w1 h next =
        After-bind Anywhere P k
          (λ _ w2.
            (logic : Text) × LogicOf n w proxy logic
            × Requested n w (request name logic [] ∷ requests) w2)
          (verify_logic n name proxy) w1
          (After-bind Anywhere _ _ (λ logic w2. (w2 ≡ w1) × LogicOf n w proxy logic)
            (get_logic_address n proxy) w1 (After-get_logic n w proxy w1 (h.1))
            λ logic w2 found.
              rw (found.0) (logic, found.1, (ap (λ rs. request name logic [] ∷ rs) (h.0), h.1)))
          λ _ w2 made. next (made.0) w2 (made.1) (made.2)

  -- the addresses that the requests are about
  pub record Found (l2_factory beacon standard_token router standard custom weth : Text)
      (l2 : L2Deployment) : Type 0 where
    pub creator : Text
    pub inbox : Text
    pub creator_set : n.env_var (codes "L1_TOKEN_BRIDGE_CREATOR") ≡ some creator
    pub inbox_set : n.env_var (codes "INBOX_ADDRESS") ≡ some inbox
    pub factory_found : n.canonical_l2_factory_address w.txs creator ≡ some l2_factory
    pub deployment_found : n.l2_deployment w.txs creator inbox ≡ some l2
    pub beacon_found : n.beacon w.txs l2.beacon_proxy_factory ≡ some beacon
    pub token_found : n.implementation w.txs beacon ≡ some standard_token
    pub router_logic : LogicOf n w l2.router router
    pub standard_logic : LogicOf n w l2.standard_gateway standard
    pub custom_logic : LogicOf n w l2.custom_gateway custom
    pub weth_logic : LogicOf n w l2.weth_gateway weth

  -- two dummies were created on top of some transactions, and then their requests made
  abbrev pub Finished : List VerifyRequest → List Call → World → Type 0
  Finished requests txs w' =
      let dummy_weth = n.created txs (creation ae_weth_factory []) in
      let txs' = creation ae_weth_factory [] ∷ txs in
      let dummy_executor = n.created txs' (creation upgrade_executor_factory []) in
      (w'.txs ≡ creation upgrade_executor_factory [] ∷ txs')
      × (requests_of w'
          ≡ request (codes "UpgradeExecutor") dummy_executor []
            ∷ request (codes "aeWETH") dummy_weth []
            ∷ (requests ++ requests_of w))

  abbrev pub AllRequested : World → Type 0
  AllRequested w' =
      (l2_factory : Text) × (beacon : Text) × (standard_token : Text) × (router : Text)
      × (standard : Text) × (custom : Text) × (weth : Text) × (l2 : L2Deployment) × Found l2_factory
          beacon standard_token router standard custom weth l2
      × Finished (all_requests l2_factory beacon standard_token router standard custom weth l2)
          w.txs w'

  -- the world after a request
  abbrev recorded : VerifyRequest → World → World
  recorded r w1 = record w1 { requests = (r, outcome (n.verify_error w1.txs r)) ∷ w1.requests }

  module _ (E : World → Type 0) (P : Unit → World → Type 0) (name address : Text) (w1 : World) where
    After-recorded :
        (k : Unit → Script Unit)
        → After E P (k tt (recorded (request name address []) w1))
        → After E P ((verify_contract n name address [] none >>= k) w1)
    unfolding verify_contract ◌>>=◌
    After-recorded k next = next

    After-recorded_last :
        P tt (recorded (request name address []) w1)
        → After E P (verify_contract n name address [] none w1)
    unfolding verify_contract
    After-recorded_last p = p

  After-special :
      (requests : List VerifyRequest) (w1 : World)
      → Requested n w requests w1
      → After Anywhere (λ _. Finished requests w.txs) (verify_special_cases n w1)
  unfolding verify_special_cases Requested
  After-special requests w1 h =
      let m = verify_special_cases n w1 in
      let P = λ (_ : Unit {0}). Finished requests w1.txs in
      let weth = creation ae_weth_factory [] in
      let executor = creation upgrade_executor_factory [] in
      let weth_request = request (codes "aeWETH") (n.created w1.txs weth) [] in
      let w3 = recorded weth_request (mined w1 weth) in
      let more = λ (rs : List VerifyRequest).
        request (codes "UpgradeExecutor") (n.created (weth ∷ w1.txs) executor) []
        ∷ weth_request
        ∷ rs in
      After-weaken Anywhere Anywhere P _ m.0 m.1 (λ w' u. u)
        (λ _ w' f. subst (λ txs. Finished requests txs w') (h.1) f)
        (After-created n Anywhere P (blocked n) ae_weth_factory [] _ w1 (
          After-recorded Anywhere P (codes "aeWETH") _ _ _ (
            After-created n Anywhere P (blocked n) upgrade_executor_factory [] _ _ (
              After-recorded_last Anywhere P (codes "UpgradeExecutor") _ (mined w3 executor)
                (refl, ap more (h.0))))))

  set_key :
      (key a : Text)
      → n.wallet_address [] ≡ none
      → n.wallet_address key ≡ some a
      → is_set (some key) ≡ true
  set_key [] a no_empty owned = elim (no_wallet (sym no_empty ∙ owned)) [ ]
    where
      no_wallet : none ≡ some a → ⊥
      no_wallet h = cc
  set_key (c ∷ key) a no_empty owned = refl

  pub After-key :
      (key a : Text) (requests : List VerifyRequest) (w1 : World)
      → n.wallet_address [] ≡ none
      → n.wallet_address key ≡ some a
      → Requested n w requests w1
      → After Anywhere
          (λ _. Finished requests w.txs)
          ((if is_set (some key) then verify_special_cases n else pure tt) w1)
  After-key key a requests w1 no_empty owned h =
      subst
        (λ (b : Bool).
          After Anywhere (λ _. Finished requests w.txs)
            ((if b then verify_special_cases n else pure tt) w1))
        (sym (set_key key a no_empty owned)) (After-special requests w1 h)
