-- ===== src/Scripts/Blockscout/Requests.antt =====
-- Which requests orbitVerifyOnBlockscout.ts makes.
use token_bridge_contracts.Base.{
  ◌≡◌, refl, sym, ap, ◌∙◌, false, to_lower, Option, none, some, List, [], ◌∷◌, ◌++◌, map, codes,
  Text, if◌then◌else◌,
}
use token_bridge_contracts.Upgrades.Slots.Words.{format_address}
use token_bridge_contracts.Scripts.Chain.{Net, VerifyRequest, L2Deployment}
use token_bridge_contracts.Scripts.Monad.{World, pure, or_fail, type_error}
use token_bridge_contracts.Scripts.Triples.{
  After, After-bind, After-fail_if, After-view, After-or_fail,
}
use token_bridge_contracts.Scripts.Usdc.{is_set}
use token_bridge_contracts.Scripts.Usdc.Setup.{Anywhere}
use token_bridge_contracts.Scripts.Blockscout.{
  implementation_slot, get_address_at_storage_slot, get_logic_address, verify_on_blockscout,
}

abbrev pub request : (contract_name address : Text) → List Text → VerifyRequest
request contract_name address args = record {
  contract_name = contract_name;
  address = address;
  constructor_arguments = args;
  contract = none;
}

-- the requests for the contracts of the child chain, the latest first
abbrev pub all_requests :
    (l2_factory beacon standard_token router standard custom weth : Text)
    → L2Deployment
    → List VerifyRequest
all_requests l2_factory beacon standard_token router standard custom weth l2 =
    request (codes "ProxyAdmin") l2.proxy_admin []
    ∷ request (codes "ArbMulticall2") l2.multicall []
    ∷ request (codes "StandardArbERC20") standard_token []
    ∷ request (codes "UpgradeableBeacon") beacon (standard_token ∷ [])
    ∷ request (codes "BeaconProxyFactory") l2.beacon_proxy_factory []
    ∷ request (codes "L2WethGateway") weth []
    ∷ request (codes "L2CustomGateway") custom []
    ∷ request (codes "L2ERC20Gateway") standard []
    ∷ request (codes "L2GatewayRouter") router []
    ∷ request (codes "TransparentUpgradeableProxy") l2.router
        (l2_factory ∷ l2.proxy_admin ∷ codes "0x" ∷ [])
    ∷ request (codes "L2AtomicTokenBridgeFactory") l2_factory []
    ∷ []

abbrev pub requests_of : World → List VerifyRequest
requests_of w = map (λ r. r.0) w.requests

module _ (n : Net) (w : World) where
  abbrev pub Same : World → Type 0
  Same w' = w' ≡ w

  no_wallet : {a : Text} → none ≡ some a → ⊥
  no_wallet h = cc

  -- Without DEPLOYER_KEY, which the script calls optional, or with an empty one, it throws before
  -- any request and any transaction, as long as a wallet cannot be made from an empty key.
  pub verify_on_blockscout_needs_key :
      is_set (n.env_var (codes "DEPLOYER_KEY")) ≡ false
      → n.wallet_address [] ≡ none
      → After Same (λ _ _. ⊥) (verify_on_blockscout n w)
  unfolding verify_on_blockscout
  verify_on_blockscout_needs_key unset no_empty =
      let P = λ (_ : Unit {0}) (_ : World). ⊥ in
      After-fail_if Same P _ _ _ w refl λ _.
        After-or_fail Same P (n.env_var (codes "L1_TOKEN_BRIDGE_CREATOR")) _ _ w refl λ creator _.
          After-or_fail Same P (n.env_var (codes "INBOX_ADDRESS")) _ _ w refl λ inbox _.
            After-or_fail Same P (n.env_var (codes "DEPLOYER_KEY")) _ _ w refl λ key has.
              After-or_fail Same P (n.wallet_address key) _ _ w refl
                λ a owned. elim (no_key key has a owned) [ ]
    where
      empty : (key : Text) → is_set (some key) ≡ false → key ≡ []
      empty [] h = refl
      empty (c ∷ key) h = cc

      no_key :
          (key : Text)
          → n.env_var (codes "DEPLOYER_KEY") ≡ some key
          → (a : Text) → n.wallet_address key ≡ some a
          → ⊥
      no_key key has a owned =
          let none_set : key ≡ [] = empty key (ap is_set (sym has) ∙ unset) in
          no_wallet (sym no_empty ∙ (ap n.wallet_address (sym none_set) ∙ owned))

  -- The address in the proxy's slot, in lower case; an empty word has the empty one.
  abbrev pub AddressIn : Text → Text → Type 0
  AddressIn [] logic = logic ≡ []
  AddressIn (c ∷ rest) logic =
      (a : Text) × (n.get_address (format_address (c ∷ rest)) ≡ some a) × (logic ≡ to_lower a)

  abbrev pub LogicOf : Text → Text → Type 0
  LogicOf proxy logic =
      (value : Text) × (n.storage_at w.txs proxy implementation_slot ≡ some value)
      × AddressIn value logic

  -- Some requests were made on top of those of the start, and no transaction was sent.
  unfoldable pub Requested : List VerifyRequest → World → Type 0
  Requested requests w' = (requests_of w' ≡ requests ++ requests_of w) × (w'.txs ≡ w.txs)

  pub After-get_logic :
      (proxy : Text) (w1 : World)
      → w1.txs ≡ w.txs
      → After Anywhere (λ logic w'. (w' ≡ w1) × LogicOf proxy logic) (get_logic_address n proxy w1)
  unfolding get_logic_address get_address_at_storage_slot to_lower
  After-get_logic proxy w1 same =
      let P = λ (logic : Text) (w' : World). (w' ≡ w1) × LogicOf proxy logic in
      After-bind Anywhere P _
        (λ a w'.
          (w' ≡ w1)
          × ((value : Text) × (n.storage_at w.txs proxy implementation_slot ≡ some value)
              × Raw value a))
        (get_address_at_storage_slot n proxy implementation_slot) w1
        (After-view Anywhere _ (λ txs. n.storage_at txs proxy implementation_slot) _ w1 tt
          λ value has.
            cut value (ap (λ txs. n.storage_at txs proxy implementation_slot) (sym same) ∙ has))
        λ a w' raw. (raw.0, (raw.1.0, raw.1.1, lowered (raw.1.0) a (raw.1.2)))
    where
      Raw : Text → Text → Type 0
      Raw [] a = a ≡ []
      Raw (c ∷ rest) a = n.get_address (format_address (c ∷ rest)) ≡ some a

      lowered : (value a : Text) → Raw value a → AddressIn value (to_lower a)
      lowered [] a raw = ap to_lower raw
      lowered (c ∷ rest) a raw = (a, raw, refl)

      cut :
          (value : Text)
          → n.storage_at w.txs proxy implementation_slot ≡ some value
          → After Anywhere
              (λ a w'.
                (w' ≡ w1)
                × ((value : Text) × (n.storage_at w.txs proxy implementation_slot ≡ some value)
                    × Raw value a))
              ((if is_set (some value)
                  then or_fail (n.get_address (format_address value)) type_error
                  else pure [])
                w1)
      cut [] has = (refl, ([], has, refl))
      cut (c ∷ rest) has = got (n.get_address (format_address (c ∷ rest))) refl
        where
          got :
              (o : Option Text)
              → n.get_address (format_address (c ∷ rest)) ≡ o
              → After Anywhere
                  (λ a w'.
                    (w' ≡ w1)
                    × ((value : Text) × (n.storage_at w.txs proxy implementation_slot ≡ some value)
                        × Raw value a))
                  (or_fail o type_error w1)
          got none e = tt
          got (some a) e = (refl, (c ∷ rest, has, e))
