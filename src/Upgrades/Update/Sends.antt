-- ===== src/Upgrades/Update/Sends.antt =====
-- What one round of `updateImplementations` sends.
use token_bridge_contracts.Base.{◌≡◌, refl, ap, Option, none, some, ◌∷◌, lookup, Text, codes}
use token_bridge_contracts.Contracts.{
  l1_gateway_router, l1_erc20_gateway, l1_custom_gateway, l1_weth_gateway, l2_erc20_gateway,
  l2_gateway_router, l2_custom_gateway, l2_weth_gateway, standard_arb_erc20, rollup,
  rollup_admin_facet, rollup_user_facet, rollup_event_bridge, node, challenge, one_step_proof,
  one_step_proof2, one_step_proof_hash, inbox, bridge, sequencer_inbox, outbox, old_outbox,
  outbox_entry, ContractNames, name_Eq, QueuedUpdate, QueuedUpdates, CurrentDeployment,
  CurrentDeployments, proxy_type, is_beacon_owned_by_eoa, is_beacon_owned_by_rollup,
  is_rollup_admin_facet, is_rollup_user_facet, has_post_init_hook,
}
use token_bridge_contracts.Upgrades.Chain.{
  Tx, upgrade_to, upgrade_beacon, set_facets, upgrade, upgrade_and_call, Env,
}
use token_bridge_contracts.Upgrades.Monad.{World, Action, or_throw, pure, type_error, send, ◌>>=◌}
use token_bridge_contracts.Upgrades.Triples.{After, After-bind, After-send}
use token_bridge_contracts.Upgrades.Verify.{rollup_proxy}
use token_bridge_contracts.Upgrades.Update.{
  upgrade_tx, record_update, send_update, update_known, update_one,
}

-- through the owner of the beacon
abbrev pub ByRollup : (logic : Text) → CurrentDeployment → CurrentDeployments → Tx → Type 0
ByRollup logic d tmp tx =
    (r : CurrentDeployment) × (lookup rollup tmp.contracts ≡ some r)
    × (tx ≡ upgrade_beacon r.proxy_address d.proxy_address logic)

abbrev pub WithInit : (logic : Text) → CurrentDeployment → CurrentDeployments → Tx → Type 0
WithInit logic d tmp tx =
    tx ≡ upgrade_and_call tmp.proxy_admin_address d.proxy_address logic (codes "0x95fcea78")

-- The transaction that upgrades a contract, by its name: of a beacon that the user owns, or the
-- rollup; of the rollup's facets, with the other facet of the file; and of a proxy, with a call of
-- `postUpgradeInit()` for the routers, the gateways, the rollup and the inbox of the sequencer.
abbrev pub IsUpgrade :
    ContractNames → (logic : Text) → CurrentDeployment → CurrentDeployments → Tx → Type 0
IsUpgrade standard_arb_erc20 logic d tmp tx = tx ≡ upgrade_to d.proxy_address logic
IsUpgrade node logic d tmp tx = ByRollup logic d tmp tx
IsUpgrade challenge logic d tmp tx = ByRollup logic d tmp tx
IsUpgrade outbox_entry logic d tmp tx = ByRollup logic d tmp tx
IsUpgrade rollup_user_facet logic d tmp tx =
    (r : CurrentDeployment) × (lookup rollup tmp.contracts ≡ some r)
    × ((a : CurrentDeployment) × (lookup rollup_admin_facet tmp.contracts ≡ some a)
        × (tx ≡ set_facets r.proxy_address a.impl_address logic))
IsUpgrade rollup_admin_facet logic d tmp tx =
    (r : CurrentDeployment) × (lookup rollup tmp.contracts ≡ some r)
    × ((u : CurrentDeployment) × (lookup rollup_user_facet tmp.contracts ≡ some u)
        × (tx ≡ set_facets r.proxy_address logic u.impl_address))
IsUpgrade l1_gateway_router logic d tmp tx = WithInit logic d tmp tx
IsUpgrade l1_erc20_gateway logic d tmp tx = WithInit logic d tmp tx
IsUpgrade l1_custom_gateway logic d tmp tx = WithInit logic d tmp tx
IsUpgrade l1_weth_gateway logic d tmp tx = WithInit logic d tmp tx
IsUpgrade l2_erc20_gateway logic d tmp tx = WithInit logic d tmp tx
IsUpgrade l2_gateway_router logic d tmp tx = WithInit logic d tmp tx
IsUpgrade l2_custom_gateway logic d tmp tx = WithInit logic d tmp tx
IsUpgrade l2_weth_gateway logic d tmp tx = WithInit logic d tmp tx
IsUpgrade rollup logic d tmp tx = WithInit logic d tmp tx
IsUpgrade sequencer_inbox logic d tmp tx = WithInit logic d tmp tx
IsUpgrade _ logic d tmp tx = tx ≡ upgrade tmp.proxy_admin_address d.proxy_address logic

module _ {A B : Type 0} (P : A → World → Type 0) (w : World) where
  After-found :
      (o : Option B) (k : B → Action A)
      → ((b : B) → o ≡ some b → After (λ w'. w' ≡ w) P (k b w))
      → After (λ w'. w' ≡ w) P ((or_throw o type_error >>= k) w)
  unfolding ◌>>=◌
  After-found none k next = refl
  After-found (some b) k next = next b refl

  After-address :
      (f : B → Text) (o : Option B) (k : Text → Action A)
      → ((b : B) → o ≡ some b → After (λ w'. w' ≡ w) P (k (f b) w))
      → After (λ w'. w' ≡ w) P (((or_throw o type_error >>= λ b. pure (f b)) >>= k) w)
  unfolding ◌>>=◌
  After-address f none k next = refl
  After-address f (some b) k next = next b refl

After-pure :
    {A B : Type 0} (P : A → World → Type 0) (w : World) (b : B) (k : B → Action A)
    → After (λ w'. w' ≡ w) P (k b w)
    → After (λ w'. w' ≡ w) P ((pure b >>= k) w)
unfolding ◌>>=◌
After-pure P w b k h = h

module _ (q : QueuedUpdate) (d : CurrentDeployment) (tmp : CurrentDeployments) (w : World) where
  abbrev Found : ContractNames → Tx → World → Type 0
  Found name tx w' = (w' ≡ w) × IsUpgrade name q.address d tmp tx

  by_rollup :
      After
        (λ w'. w' ≡ w)
        (λ tx w'. (w' ≡ w) × ByRollup q.address d tmp tx)
        ((rollup_proxy tmp >>= λ r. pure (upgrade_beacon r d.proxy_address q.address)) w)
  by_rollup =
      After-address (λ tx w'. (w' ≡ w) × ByRollup q.address d tmp tx) w (λ r. r.proxy_address)
        (lookup rollup tmp.contracts) _ λ r has. (refl, (r, has, refl))

  upgrade_tx_lem :
      (name : ContractNames) → After (λ w'. w' ≡ w) (Found name) (upgrade_tx name q d tmp w)
  unfolding upgrade_tx proxy_type is_beacon_owned_by_eoa is_beacon_owned_by_rollup
      is_rollup_admin_facet is_rollup_user_facet has_post_init_hook
  upgrade_tx_lem l1_gateway_router = (refl, refl)
  upgrade_tx_lem l1_erc20_gateway = (refl, refl)
  upgrade_tx_lem l1_custom_gateway = (refl, refl)
  upgrade_tx_lem l1_weth_gateway = (refl, refl)
  upgrade_tx_lem l2_erc20_gateway = (refl, refl)
  upgrade_tx_lem l2_gateway_router = (refl, refl)
  upgrade_tx_lem l2_custom_gateway = (refl, refl)
  upgrade_tx_lem l2_weth_gateway = (refl, refl)
  upgrade_tx_lem standard_arb_erc20 = (refl, refl)
  upgrade_tx_lem rollup = (refl, refl)
  upgrade_tx_lem rollup_event_bridge = (refl, refl)
  upgrade_tx_lem one_step_proof = (refl, refl)
  upgrade_tx_lem one_step_proof2 = (refl, refl)
  upgrade_tx_lem one_step_proof_hash = (refl, refl)
  upgrade_tx_lem inbox = (refl, refl)
  upgrade_tx_lem bridge = (refl, refl)
  upgrade_tx_lem sequencer_inbox = (refl, refl)
  upgrade_tx_lem outbox = (refl, refl)
  upgrade_tx_lem old_outbox = (refl, refl)
  upgrade_tx_lem node = by_rollup
  upgrade_tx_lem challenge = by_rollup
  upgrade_tx_lem outbox_entry = by_rollup
  upgrade_tx_lem rollup_user_facet =
      let P = Found rollup_user_facet in
      After-pure P w _ _ (
        After-address P w (λ a. a.impl_address) (lookup rollup_admin_facet tmp.contracts) _
          λ a has_a.
            After-address P w (λ r. r.proxy_address) (lookup rollup tmp.contracts) _
              λ r has. (refl, (r, has, (a, has_a, refl))))
  upgrade_tx_lem rollup_admin_facet =
      let P = Found rollup_admin_facet in
      After-address P w (λ u. u.impl_address) (lookup rollup_user_facet tmp.contracts) _
        λ u has_u. After-pure P w _ _ (
          After-address P w (λ r. r.proxy_address) (lookup rollup tmp.contracts) _
            λ r has. (refl, (r, has, (u, has_u, refl))))

module _ (e : Env) (name : ContractNames) (queued : QueuedUpdates) (tmp : CurrentDeployments)
    (w : World) where
  -- An unknown contract is skipped; for another one the transaction is sent, and no other.
  abbrev pub Round : Option CurrentDeployment → QueuedUpdates × CurrentDeployments → World → Type 0
  Round none s w' = (s ≡ (queued, tmp)) × (w' ≡ w)
  Round (some d) s w' =
      (q : QueuedUpdate) × (lookup name queued ≡ some q)
      × ((tx : Tx) × IsUpgrade name q.address d tmp tx × (w'.txs ≡ tx ∷ w.txs))

  send_update-Round :
      (d : CurrentDeployment) (q : QueuedUpdate) (tx : Tx)
      → lookup name queued ≡ some q
      → IsUpgrade name q.address d tmp tx
      → After (λ w'. w' ≡ w) (Round (some d)) (send_update e name q d queued tmp tx w)
  unfolding send_update ◌>>=◌
  send_update-Round d q tx waiting right =
      After-bind (λ w'. w' ≡ w) (Round (some d)) (λ _. record_update name q d queued tmp)
        (λ _ w'. w' ≡ record w { txs = tx ∷ w.txs }) (send e tx) w
        (After-send (λ w'. w' ≡ w) e tx w refl)
        λ _ w2 sent. (q, waiting, (tx, right, ap (λ (v : World). v.txs) sent))

  update_known-Round :
      (o : Option CurrentDeployment)
      → After (λ w'. w' ≡ w) (Round o) (update_known e name queued tmp o w)
  update_known-Round none = (refl, refl)
  update_known-Round (some d) =
      let P = Round (some d) in
      After-found P w (lookup name queued) _ λ q waiting.
        After-bind (λ w'. w' ≡ w) P (send_update e name q d queued tmp) (Found q d tmp w name)
          (upgrade_tx name q d tmp) w (upgrade_tx_lem q d tmp w name)
          λ tx w1 h. rw (h.0) (send_update-Round d q tx waiting (h.1))

  -- One round of the loop of `updateImplementations` leaves everything as it was where it throws.
  -- Where it returns, a contract that is not in the temporary deployments was skipped, and for any
  -- other one, which is queued, exactly one transaction was sent, the one that upgrades this
  -- contract to its queued address: through the beacon for `StandardArbERC20`, through the rollup
  -- for the three beacons that it owns and for its two facets, of which the other one stays, and
  -- through the proxy admin for the rest, with the call of `postUpgradeInit()` for the eight
  -- gateways and routers, the rollup and the sequencer's inbox, and for no other.
  pub update_one_sends :
      After (λ w'. w' ≡ w) (Round (lookup name tmp.contracts)) (update_one e name queued tmp w)
  unfolding update_one
  update_one_sends = update_known-Round (lookup name tmp.contracts)
