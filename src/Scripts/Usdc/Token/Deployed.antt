-- ===== src/Scripts/Usdc/Token/Deployed.antt =====
-- What the deployment of the bridged USDC leaves behind, and when it fails.
use token_bridge_contracts.Base.{◌≡◌, refl, ◌⊎◌, inl, inr, List, [], ◌∷◌, codes, Text}
use token_bridge_contracts.Scripts.Chain.{
  Call, Net, initialize_token, initialize_v2, initialize_v2_1, initialize_v2_2, change_admin,
  sig_checker_factory, usdc_logic_factory, usdc_proxy_factory, master_minter_factory,
}
use token_bridge_contracts.Scripts.Monad.{
  World, Script, ◌>>=◌, token_init_failed, token_logic_init_failed,
}
use token_bridge_contracts.Scripts.Triples.{After, After-bind}
use token_bridge_contracts.Scripts.Creations.{creation}
use token_bridge_contracts.Scripts.Creations.Rules.{
  Blocked, Untaken, with_creation, After-mined, After-mined_last, After-unwaited,
  After-unwaited_last,
}
use token_bridge_contracts.Scripts.Usdc.Token.{
  TokenInit, call_to, link_library, initialize_fiat_token, deploy_usdc_logic, deploy_usdc_proxy,
  deploy_bridged_usdc,
}
use token_bridge_contracts.Scripts.Usdc.Token.Read.{ReadsInit, After-verified}

pub record TokenContracts : Type 0 where
  pub library : Text
  pub logic : Text
  pub proxy : Text
  pub master_minter : Text

-- the initializations of a token, the latest first
abbrev pub init_calls : Text → TokenInit → List Call → List Call
init_calls token i txs =
    call_to token (initialize_v2_2 [] i.symbol)
    ∷ call_to token (initialize_v2_1 i.lost_and_found)
    ∷ call_to token (initialize_v2 i.name)
    ∷ call_to token (
        initialize_token i.name i.symbol i.currency i.decimals
          (i.master_minter ∷ i.pauser ∷ i.blacklister ∷ i.owner ∷ []))
    ∷ txs

-- What the token is to be initialized with, and what its logic.
abbrev pub bridged : (master_minter deployer : Text) → TokenInit
bridged master_minter deployer = record {
  name = codes "USDC";
  symbol = codes "USDC.e";
  currency = codes "USD";
  decimals = 6;
  master_minter = master_minter;
  pauser = deployer;
  blacklister = deployer;
  owner = deployer;
  lost_and_found = deployer;
}

abbrev pub dummies : TokenInit
dummies = record {
  name = [];
  symbol = [];
  currency = [];
  decimals = 0;
  master_minter = codes "0x000000000000000000000000000000000000dEaD";
  pauser = codes "0x000000000000000000000000000000000000dEaD";
  blacklister = codes "0x000000000000000000000000000000000000dEaD";
  owner = codes "0x000000000000000000000000000000000000dEaD";
  lost_and_found = codes "0x000000000000000000000000000000000000dEaD";
}

module _ (n : Net) (deployer admin : Text) (w : World) where
  abbrev library_creation : Call
  library_creation = creation sig_checker_factory []

  abbrev logic_creation : TokenContracts → Call
  logic_creation t = creation (usdc_logic_factory (link_library n.usdc_bytecode t.library)) []

  abbrev proxy_creation : TokenContracts → Call
  proxy_creation t = creation usdc_proxy_factory (t.logic ∷ [])

  abbrev minter_creation : TokenContracts → Call
  minter_creation t = creation master_minter_factory (t.proxy ∷ [])

  -- after the creation of the library, of the logic, and after the change of the proxy's admin
  abbrev with_library : List Call
  with_library = with_creation n library_creation w.txs

  abbrev with_logic : TokenContracts → List Call
  with_logic t = with_creation n (logic_creation t) with_library

  abbrev before_minter : TokenContracts → List Call
  before_minter t =
      call_to t.proxy (change_admin admin) ∷ with_creation n (proxy_creation t) (with_logic t)

  -- The addresses are those that the creations get.
  pub record Created (t : TokenContracts) : Type 0 where
    pub library_created : t.library ≡ n.created w.txs library_creation
    pub logic_created : t.logic ≡ n.created with_library (logic_creation t)
    pub proxy_created : t.proxy ≡ n.created (with_logic t) (proxy_creation t)
    pub minter_created : t.master_minter ≡ n.created (before_minter t) (minter_creation t)

  -- after the token's initialization, and after the logic's
  abbrev pub token_txs : TokenContracts → List Call
  token_txs t =
      init_calls t.proxy (bridged t.master_minter deployer)
        (with_creation n (minter_creation t) (before_minter t))

  abbrev pub all_txs : TokenContracts → List Call
  all_txs t = init_calls t.logic dummies (token_txs t)

  -- A transaction was refused, or a creation was not taken, or a view of the token or of its logic,
  -- which have just been initialized, does not return what it was initialized with.
  abbrev pub Unusable : World → Type 0
  Unusable w' =
      (Blocked n w' ⊎ Untaken n w')
      ⊎ ((t : TokenContracts) × Created t
          × ((w' ≡ record w { txs = token_txs t })
                × (¬ ReadsInit n w'.txs t.proxy (bridged t.master_minter deployer))
              ⊎ (w' ≡ record w { txs = all_txs t }) × (¬ ReadsInit n w'.txs t.logic dummies)))

  abbrev pub Usable : Text × Text → World → Type 0
  Usable result w' =
      (t : TokenContracts) × Created t
      × (result ≡ (t.proxy, t.master_minter))
      × (w' ≡ record w { txs = all_txs t })
      × ReadsInit n (token_txs t) t.proxy (bridged t.master_minter deployer)
      × ReadsInit n (all_txs t) t.logic dummies

  module _ {A : Type 0} (P : A → World → Type 0) where
    blocked : (w' : World) → Blocked n w' → Unusable w'
    blocked w' h = inl (inl h)

    untaken : (w' : World) → Untaken n w' → Unusable w'
    untaken w' h = inl (inr h)

    After-initialized :
        (token : Text) (i : TokenInit) (k : Unit → Script A) (w' : World)
        → After Unusable P (k tt (record w' { txs = init_calls token i w'.txs }))
        → After Unusable P ((initialize_fiat_token n token i >>= k) w')
    unfolding initialize_fiat_token
    After-initialized token i k w' next =
        After-bind Unusable P k (λ _ w2. w2 ≡ record w' { txs = init_calls token i w'.txs })
          (initialize_fiat_token n token i) w'
          (After-mined n Unusable _ blocked _ _ w' (
            After-mined n Unusable _ blocked _ _ _ (
              After-mined n Unusable _ blocked _ _ _
                (After-mined_last n Unusable P blocked _ _ _ refl))))
          λ _ w2 e. rw e next

    After-logic :
        (k : Text → Script A)
        → (let lib = n.created w.txs library_creation in
            let c = creation (usdc_logic_factory (link_library n.usdc_bytecode lib)) [] in
            After Unusable P
              (k (n.created with_library c) (record w { txs = with_creation n c with_library })))
        → After Unusable P ((deploy_usdc_logic n >>= k) w)
    unfolding deploy_usdc_logic
    After-logic k next =
        let lib = n.created w.txs library_creation in
        let c = creation (usdc_logic_factory (link_library n.usdc_bytecode lib)) [] in
        let Q = λ (a : Text) (w' : World).
          (a ≡ n.created with_library c)
          × (w' ≡ record w { txs = with_creation n c with_library }) in
        After-bind Unusable P k Q (deploy_usdc_logic n) w
          (After-unwaited n Unusable Q untaken sig_checker_factory [] _ w
            (After-unwaited_last n Unusable P untaken Q (usdc_logic_factory _) [] _ (refl, refl)))
          λ a w' h. rw (h.0, h.1) next

    After-proxy :
        (logic : Text) (k : Text → Script A) (w' : World)
        → (let c = creation usdc_proxy_factory (logic ∷ []) in
            let proxy = n.created w'.txs c in
            let txs = with_creation n c w'.txs in
            After Unusable P
              (k proxy (record w' { txs = call_to proxy (change_admin admin) ∷ txs })))
        → After Unusable P ((deploy_usdc_proxy n logic admin >>= k) w')
    unfolding deploy_usdc_proxy
    After-proxy logic k w' next =
        let c = creation usdc_proxy_factory (logic ∷ []) in
        let proxy = n.created w'.txs c in
        let txs = call_to proxy (change_admin admin) ∷ with_creation n c w'.txs in
        let Q = λ (a : Text) (w2 : World). (a ≡ proxy) × (w2 ≡ record w' { txs = txs }) in
        After-bind Unusable P k Q (deploy_usdc_proxy n logic admin) w'
          (After-unwaited n Unusable Q untaken usdc_proxy_factory (logic ∷ []) _ w'
            (After-mined n Unusable Q blocked _ _ _ (refl, refl)))
          λ a w2 h. rw (h.0, h.1) next

  -- `_deployBridgedUsdc` fails only when a transaction that it waits for is refused, when the node
  -- does not take a creation, or when a view of the token or of its logic does not return what it
  -- was initialized with, which is what the message about a front run means. Otherwise what was
  -- mined is the creation of the library, of the logic, linked with it, of the proxy for that logic,
  -- the change of its admin, and the creation of the master minter for the proxy, each creation
  -- unless it is reverted, and then the initializations of the proxy and of its logic. Of the proxy
  -- these views then returned USDC, USDC.e, USD, 6, the master minter, and the deployer as pauser,
  -- blacklister and owner, and those of the logic empty texts, 0 and the dead address in every role.
  pub deploy_bridged_usdc_lem : After Unusable Usable (deploy_bridged_usdc n deployer admin w)
  unfolding deploy_bridged_usdc
  deploy_bridged_usdc_lem = After-logic Usable _ (
      After-proxy Usable _ _ _ (
        After-unwaited n Unusable Usable (untaken Usable) master_minter_factory _ _ _ (
          After-initialized Usable contracts.proxy init _ _ (
            After-verified n Unusable Usable contracts.proxy init token_init_failed _ _
              (λ unread. inr (contracts, created, inl (refl, unread)))
              λ reads. After-initialized Usable contracts.logic dummies _ _ (
                After-verified n Unusable Usable contracts.logic dummies token_logic_init_failed _ _
                  (λ unread. inr (contracts, created, inr (refl, unread)))
                  λ reads_logic. (contracts, created, refl, refl, reads, reads_logic))))))
    where
      contracts : TokenContracts
      contracts =
          let lib = n.created w.txs library_creation in
          let c = creation (usdc_logic_factory (link_library n.usdc_bytecode lib)) [] in
          let txs = with_creation n c with_library in
          let logic = n.created with_library c in
          let p = creation usdc_proxy_factory (logic ∷ []) in
          let proxy = n.created txs p in
          record {
            library = lib;
            logic = logic;
            proxy = proxy;
            master_minter =
                n.created (call_to proxy (change_admin admin) ∷ with_creation n p txs)
                  (creation master_minter_factory (proxy ∷ []));
          }

      init : TokenInit
      init = bridged contracts.master_minter deployer

      created : Created contracts
      created = record {
        library_created = refl;
        logic_created = refl;
        proxy_created = refl;
        minter_created = refl;
      }
