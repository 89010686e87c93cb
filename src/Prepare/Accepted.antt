-- ===== src/Prepare/Accepted.antt =====
-- What a quote that `prepare` or `prepare_from_sats` of crates/lib/src/swap/reverse.rs gives has passed.
use boltz_client.Prelude.{
  ℕ, ◌≤◌, ◌≡◌, refl, sym, ap, subst, String, Bool, true, false, not, some, arith,
}
use boltz_client.Crates.{Crates}
use boltz_client.Errors.{ok, ok_or, ensure, from_ok, ok-inj, true-ensure, some-ok_or}
use boltz_client.Models.Destinations.{Destination, DestinationRegistry, Asset, find, kind}
use boltz_client.Recipient.{is_valid_destination_address}
use boltz_client.Fees.{FeeCalc, compute_onchain_amount}
use boltz_client.Fees.Exact.{compute_onchain_amount-compute_invoice_amount}
use boltz_client.Slippage.Bounds.{resolve_slippage_bps_bounds}
use boltz_client.Outside.{ReversePairInfo, PairLimits}
use boltz_client.Claim.Build.{resolve_destination}
use boltz_client.World.{Executor}
use boltz_client.World.Effects.{Said, Said-try, Said-bind, ok_of-Said-pure}
use boltz_client.Prepare.Addresses.{
  is_known_token_address, validate_destination, checked_destination,
}
use boltz_client.Prepare.Quote.{fetch_tbtc_pair}
use boltz_client.Prepare.{
  PreparedSwap, Wanted, within_limits, prepared_with, prepare, prepare_from_sats,
}

-- The address can receive on the destination, and is not the address of a token there.
pub record Deliverable (c : Crates) (registry : DestinationRegistry) (chain : String)
    (asset : Asset) (destination : String) (dest : Destination) : Type 0 where
  pub listed : find registry chain asset ≡ some dest
  pub valid : is_valid_destination_address c dest.transport destination ≡ true
  pub no_token : is_known_token_address c registry dest.transport destination ≡ false

false-not : (b : Bool) → not b ≡ true → b ≡ false
false-not true h = absurd (cc)
false-not false h = refl

module _ (c : Crates) (registry : DestinationRegistry) (chain : String) (asset : Asset)
    (destination : String) where
  validate_destination-Deliverable :
      (dest : Destination) {done : Unit {0}}
      → find registry chain asset ≡ some dest
      → validate_destination c registry dest destination ≡ ok done
      → Deliverable c registry chain asset destination dest
  unfolding validate_destination
  validate_destination-Deliverable dest listed h =
      from_ok (ensure (is_valid_destination_address c dest.transport destination) _) _ h
        λ _ valid h1. record {
          listed = listed;
          valid = true-ensure _ _ valid;
          no_token = false-not _ (true-ensure _ _ h1);
        }

  pub checked_destination-Deliverable :
      {dest : Destination}
      → checked_destination c registry chain asset destination ≡ ok dest
      → Deliverable c registry chain asset destination dest
  unfolding checked_destination resolve_destination
  checked_destination-Deliverable {dest} h =
      from_ok (ok_or (find registry chain asset) _) _ h λ found listed h1.
        from_ok (validate_destination c registry found destination) _ h1 λ _ valid h2.
          subst (Deliverable c registry chain asset destination) (ok-inj h2)
            (validate_destination-Deliverable found (some-ok_or _ _ listed) valid)

-- What holds of a prepared swap that was made for a wish: the destination and the slippage are
-- accepted, the invoice is within the limits of the pair, and the forward fee formula gives the
-- prepared fee and on-chain amount of it.
pub record Acceptable (x : Executor) (a : Wanted) (p : PreparedSwap) : Type 0 where
  pub dest : Destination
  pub deliverable : Deliverable x.crates x.registry a.chain a.asset a.destination dest
  pub address : p.destination_address ≡ a.destination
  pub chain : p.destination_chain ≡ a.chain
  pub asset : p.asset ≡ a.asset
  pub bridge : p.bridge_kind ≡ kind dest.bridge
  pub slippage : (10 ≤ p.slippage_bps) × (p.slippage_bps ≤ 500)
  pub pair : ReversePairInfo
  pub quoted : Said (fetch_tbtc_pair x) (ok pair)
  pub pair_hash : p.pair_hash ≡ pair.hash
  pub limits :
      (pair.limits.minimal ≤ p.invoice_amount_sats) × (p.invoice_amount_sats ≤ pair.limits.maximal)
  pub fees : FeeCalc
  pub computed : compute_onchain_amount pair.fees p.invoice_amount_sats ≡ ok fees
  pub boltz_fee : p.boltz_fee_sats ≡ fees.boltz_fee_sats
  pub onchain : p.estimated_onchain_amount ≡ fees.onchain_sats

within_limits-le :
    (limits : PairLimits) (invoice_sats : ℕ) {done : Unit {0}}
    → within_limits limits invoice_sats ≡ ok done
    → (limits.minimal ≤ invoice_sats) × (invoice_sats ≤ limits.maximal)
unfolding within_limits
within_limits-le limits invoice_sats h = ground (arith, h)

module _ (x : Executor) (a : Wanted) where
  prepared_with-Acceptable :
      (dest : Destination) (slippage_bps output_amount : ℕ) (pair : ReversePairInfo)
      (fees : FeeCalc) (now : ℕ)
      → Deliverable x.crates x.registry a.chain a.asset a.destination dest
      → (10 ≤ slippage_bps) × (slippage_bps ≤ 500)
      → Said (fetch_tbtc_pair x) (ok pair)
      → (pair.limits.minimal ≤ fees.invoice_sats) × (fees.invoice_sats ≤ pair.limits.maximal)
      → (c : FeeCalc) → compute_onchain_amount pair.fees fees.invoice_sats ≡ ok c
      → fees.boltz_fee_sats ≡ c.boltz_fee_sats
      → fees.onchain_sats ≡ c.onchain_sats
      → Acceptable x a (prepared_with a dest slippage_bps output_amount pair fees now)
  unfolding prepared_with
  prepared_with-Acceptable dest slippage_bps output_amount pair fees now d s q l c e b o = record {
    dest = dest;
    deliverable = d;
    address = refl;
    chain = refl;
    asset = refl;
    bridge = refl;
    slippage = s;
    pair = pair;
    quoted = q;
    pair_hash = refl;
    limits = l;
    fees = c;
    computed = e;
    boltz_fee = b;
    onchain = o;
  }

  -- A quote by `prepare` for an amount to deliver is for a listed destination that the address is valid
  -- on and no token of, carries a slippage of 10 to 500 basis points, has an invoice within the limits
  -- of the pair that Boltz named, and has the fee and the on-chain amount that the forward formula gives
  -- of that invoice. Its output is the amount that was asked for.
  pub prepare-Acceptable :
      (output_amount : ℕ) {p : PreparedSwap}
      → Said (prepare x a output_amount) (ok p)
      → Acceptable x a p × (p.output_amount ≡ output_amount)
  unfolding prepare prepared_with
  prepare-Acceptable output_amount {p} h =
      let (bps, slippage, h1) = Said-try _ _ h in
      let (dest, checked, h2) = Said-try _ _ h1 in
      let (sats, _, h3) = Said-try _ _ h2 in
      let (pair, quoted, h4) = Said-try _ _ h3 in
      let (fees, computed, h5) = Said-try _ _ h4 in
      let (_, limits, h6) = Said-try _ _ h5 in
      let (now, _, h7) = Said-bind _ _ h6 in
      let same = ok-inj (ok_of-Said-pure h7) in
      (
        subst (Acceptable x a) same (
            prepared_with-Acceptable dest bps output_amount pair fees now
              (checked_destination-Deliverable x.crates x.registry a.chain a.asset a.destination
                (ok_of-Said-pure checked))
              (resolve_slippage_bps_bounds a.max_slippage_bps x.config.slippage_bps
                (ok_of-Said-pure slippage))
              quoted (within_limits-le pair.limits fees.invoice_sats (ok_of-Said-pure limits)) fees
              (compute_onchain_amount-compute_invoice_amount pair.fees sats
                (ok_of-Said-pure computed)).0
              refl refl),
        sym (ap (λ (q : PreparedSwap). q.output_amount) same),
      )

  -- A quote by `prepare_from_sats` for an invoice amount is for a listed destination that the address is
  -- valid on and no token of, carries a slippage of 10 to 500 basis points, has an invoice within the
  -- limits of the pair that Boltz named, and has the fee and the on-chain amount that the forward formula
  -- gives of that invoice. Its invoice is the amount that was asked for.
  pub prepare_from_sats-Acceptable :
      (invoice_amount_sats : ℕ) {p : PreparedSwap}
      → Said (prepare_from_sats x a invoice_amount_sats) (ok p)
      → Acceptable x a p × (p.invoice_amount_sats ≡ invoice_amount_sats)
  unfolding prepare_from_sats prepared_with
  prepare_from_sats-Acceptable invoice_amount_sats {p} h =
      let (bps, slippage, h1) = Said-try _ _ h in
      let (dest, checked, h2) = Said-try _ _ h1 in
      let (pair, quoted, h3) = Said-try _ _ h2 in
      let (_, limits, h4) = Said-try _ _ h3 in
      let (fees, computed, h5) = Said-try _ _ h4 in
      let (units, _, h6) = Said-try _ _ h5 in
      let (output, _, h7) = Said-try _ _ h6 in
      let (now, _, h8) = Said-bind _ _ h7 in
      let same = ok-inj (ok_of-Said-pure h8) in
      (
        subst (Acceptable x a) same (
            prepared_with-Acceptable dest bps output pair
              (record fees { invoice_sats = invoice_amount_sats }) now
              (checked_destination-Deliverable x.crates x.registry a.chain a.asset a.destination
                (ok_of-Said-pure checked))
              (resolve_slippage_bps_bounds a.max_slippage_bps x.config.slippage_bps
                (ok_of-Said-pure slippage))
              quoted (within_limits-le pair.limits invoice_amount_sats (ok_of-Said-pure limits))
              fees (ok_of-Said-pure computed) refl refl),
        sym (ap (λ (q : PreparedSwap). q.invoice_amount_sats) same),
      )
