-- ===== src/Create/Terms.antt =====
-- What an accepted swap of crates/lib/src/swap/reverse.rs is, apart from the code of `create`: its id, what
-- Boltz was asked for it, and its terms.
use boltz_client.Prelude.{
  ℕ, ◌+◌, ◌≤◌, ◌⊎◌, List, [], ◌∷◌, length, codes, true, ◌||◌, not, if◌then◌else◌, ◌<◌, ◌≡◌, refl,
  String, none, some, arith,
}
use boltz_client.Errors.{BoltzError, ok, err}
use boltz_client.Models.{BoltzSwap}
use boltz_client.Outside.{CreateReverseSwapRequest, CreateReverseSwapResponse}
use boltz_client.Secrets.{IssuedSecrets}
use boltz_client.World.{Executor}
use boltz_client.World.Effects.{Said, Said-try, Said-ask, ok_of-Said-pure}
use boltz_client.Prepare.{PreparedSwap}
use boltz_client.Claim.{ensure_timeout_margin, check_timeout_margin}
use boltz_client.Config.{arbitrum_router_address}
use boltz_client.Models.Lifecycle.{created}
use boltz_client.Create.{
  issued_request, request_of, all_alphanumeric, is_ascii_alphanumeric, is_empty, created_or,
  swap_of, validate_swap_id,
}

-- ASCII digits and letters.
unfoldable pub Alphanumeric : List ℕ → Type 0
Alphanumeric [] = Unit {0}
Alphanumeric (c ∷ cs) =
    (((48 ≤ c) × (c ≤ 57)) ⊎ (((65 ≤ c) × (c ≤ 90)) ⊎ ((97 ≤ c) × (c ≤ 122)))) × Alphanumeric cs

-- The characters of an id: at least one, all of them ASCII digits or letters.
abbrev pub IsSwapId : List ℕ → Type 0
IsSwapId cs = (0 < length cs) × Alphanumeric cs

-- What Boltz is asked: tBTC for an invoice of the quoted amount, under the quoted pair, to be claimed by
-- the issued key with the issued preimage.
abbrev pub requested : Executor → PreparedSwap → IssuedSecrets → CreateReverseSwapRequest
requested x p issued = record {
  from = "BTC";
  to = "TBTC";
  preimage_hash = x.crates.hex_encode issued.preimage_hash;
  claim_address = issued.claim_address;
  invoice_amount = p.invoice_amount_sats;
  pair_hash = p.pair_hash;
  referral_id = x.config.referral_id;
  claim_public_key = x.crates.hex_encode issued.claim_public_key;
  invoice_expiry = none;
}

-- The new swap: the terms of the quote, of the issued secrets, and of Boltz's answer.
pub record NewSwap (x : Executor) (p : PreparedSwap) (issued : IssuedSecrets)
    (r : CreateReverseSwapResponse) (swap : BoltzSwap) : Type 0 where
  pub id : swap.id ≡ r.id
  pub route :
      (swap.bridge_kind ≡ p.bridge_kind)
      × (swap.destination_address ≡ p.destination_address)
      × (swap.destination_chain ≡ p.destination_chain)
      × (swap.asset ≡ p.asset)
  pub quote :
      (swap.invoice_amount_sats ≡ p.invoice_amount_sats)
      × (swap.expected_output_amount ≡ p.output_amount)
      × (swap.slippage_bps ≡ p.slippage_bps)
  pub lockup :
      (swap.invoice ≡ r.invoice)
      × (swap.onchain_amount ≡ r.onchain_amount)
      × (swap.timeout_block_height ≡ r.timeout_block_height)
      × (r.refund_address ≡ some swap.refund_address)
  pub secrets : (swap.key_source ≡ issued.key_source) × (swap.claim_address ≡ issued.claim_address)
  pub contracts :
      (swap.chain_id ≡ x.config.chain_id)
      × (swap.erc20swap_address ≡ x.erc20swap_address)
      × (swap.router_address ≡ arbitrum_router_address)
  pub status : swap.status ≡ created
  pub unclaimed :
      (swap.lockup_tx_id ≡ none)
      × (swap.claim_tx_hash ≡ none)
      × (swap.pending_call_id ≡ none)
      × (swap.delivered_amount ≡ none)
      × (swap.bridge_ref ≡ none)
  pub updated : swap.updated_at ≡ swap.created_at

module _ (x : Executor) (p : PreparedSwap) where
  codes-Alphanumeric : (cs : List ℕ) → all_alphanumeric cs ≡ true → Alphanumeric cs
  unfolding all_alphanumeric is_ascii_alphanumeric Alphanumeric
  codes-Alphanumeric [] h = tt
  codes-Alphanumeric (c ∷ cs) h = ground (arith, h, codes-Alphanumeric cs)

  is_empty-IsSwapId :
      (cs : List ℕ) (reason : BoltzError) {done : Unit {0}}
      → (if is_empty cs || not (all_alphanumeric cs) then err reason else ok tt) ≡ ok done
      → IsSwapId cs
  unfolding is_empty
  is_empty-IsSwapId [] reason h = absurd (cc)
  is_empty-IsSwapId (c ∷ cs) reason h =
      (omega arith, codes-Alphanumeric (c ∷ cs) (ground (arith, h)))

  pub validate_swap_id-IsSwapId :
      (id : String) {done : Unit {0}} → validate_swap_id id ≡ ok done → IsSwapId (codes id)
  unfolding validate_swap_id
  validate_swap_id-IsSwapId id h = is_empty-IsSwapId (codes id) _ h

  margin_of :
      (timeout height : ℕ) {done : Unit {0}}
      → check_timeout_margin timeout height ≡ ok done
      → height + 60 ≤ timeout
  unfolding check_timeout_margin
  margin_of timeout height h = ground (arith, h)

  pub ensure_timeout_margin-read :
      (timeout : ℕ) {done : Unit {0}}
      → Said (ensure_timeout_margin x timeout) (ok done)
      → (read_at : ℕ) × (height : ℕ) × (x.outside.eth_l1_block_number read_at ≡ ok height)
        × (height + 60 ≤ timeout)
  unfolding ensure_timeout_margin
  ensure_timeout_margin-read timeout h =
      let (height, read, h1) = Said-try _ _ h in
      let (read_at, at) = Said-ask _ read in
      (read_at, height, at, margin_of timeout height (ok_of-Said-pure h1))

  pub swap_of-NewSwap :
      (issued : IssuedSecrets) (r : CreateReverseSwapResponse) (refund : String) (now : ℕ)
      → r.refund_address ≡ some refund
      → NewSwap x p issued r (swap_of x p issued r refund now)
  unfolding swap_of
  swap_of-NewSwap issued r refund now there = record {
    id = refl;
    route = (refl, refl, refl, refl);
    quote = (refl, refl, refl);
    lockup = (refl, refl, refl, there);
    secrets = (refl, refl);
    contracts = (refl, refl, refl);
    status = refl;
    unclaimed = (refl, refl, refl, refl, refl);
    updated = refl;
  }

  pub issued_request_given :
      (issued : IssuedSecrets) (n : ℕ) {r : CreateReverseSwapResponse}
      → created_or (x.outside.create_reverse_swap n (issued_request x p issued)) ≡ ok r
      → created_or (x.outside.create_reverse_swap n (requested x p issued)) ≡ ok r
  unfolding issued_request request_of
  issued_request_given issued n h = h
