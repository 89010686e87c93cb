-- ===== src/Create/Accepted.antt =====
-- What a swap that `create` of crates/lib/src/swap/reverse.rs gives has passed.
use boltz_client.Prelude.{
  ℕ, ◌/◌, ◌+◌, ◌≤◌, codes, ◌<◌, ◌≡◌, refl, ◌∙◌, sym, ap, subst, String, Option, none, some, eq_iff,
  ==_iff, arith,
}
use boltz_client.Errors.{Result, ok, err, ok-inj, true-ensure, some-ok_or}
use boltz_client.Models.{BoltzSwap}
use boltz_client.Models.Destinations.{Destination}
use boltz_client.Outside.{CreateReverseSwapResponse}
use boltz_client.Secrets.{IssuedSecrets}
use boltz_client.Secrets.Providers.{to_chain_id_u32}
use boltz_client.Slippage.Bounds.{resolve_slippage_bps-some}
use boltz_client.World.{Executor}
use boltz_client.World.Effects.{Said, Said-try, Said-bind, Said-ask, ok_of-Said-pure}
use boltz_client.Prepare.{PreparedSwap}
use boltz_client.Prepare.Accepted.{Deliverable, checked_destination-Deliverable}
use boltz_client.Create.{
  not_expired, created_or, check_onchain, check_lockup, check_amount, check_invoice,
  accept_response, create,
}
use boltz_client.Create.Terms.{
  IsSwapId, requested, NewSwap, validate_swap_id-IsSwapId, ensure_timeout_margin-read,
  swap_of-NewSwap, issued_request_given,
}

-- Boltz's answer has been checked against the prepared swap.
pub record Checked (x : Executor) (p : PreparedSwap) (r : CreateReverseSwapResponse) : Type 0 where
  pub id : IsSwapId (codes r.id)
  pub enough : p.estimated_onchain_amount ≤ r.onchain_amount
  pub lockup : x.crates.to_lowercase r.lockup_address ≡ x.crates.to_lowercase x.erc20swap_address
  pub milli : ℕ
  pub invoice : x.crates.bolt11 r.invoice ≡ some (some milli)
  pub amount : milli / 1000 ≡ p.invoice_amount_sats
  pub read_at : ℕ
  pub height : ℕ
  pub l1_height : x.outside.eth_l1_block_number read_at ≡ ok height
  pub margin : height + 60 ≤ r.timeout_block_height

-- The swap is what Boltz was asked for, with the secrets that were issued.
pub record Created (x : Executor) (p : PreparedSwap) (swap : BoltzSwap) : Type 0 where
  pub dest : Destination
  pub deliverable :
      Deliverable x.crates x.registry p.destination_chain p.asset p.destination_address dest
  pub slippage : (10 ≤ p.slippage_bps) × (p.slippage_bps ≤ 500)
  pub asked_at : ℕ
  pub in_time : x.outside.unix_time asked_at < p.expires_at
  pub issued : IssuedSecrets
  pub issued_at : ℕ
  pub issue : x.secrets.issue issued_at x.config.chain_id ≡ ok issued
  pub response : CreateReverseSwapResponse
  pub sent_at : ℕ
  pub answer : x.outside.create_reverse_swap sent_at (requested x p issued) ≡ ok response
  pub checked : Checked x p response
  pub new_swap : NewSwap x p issued response swap

module _ (x : Executor) (p : PreparedSwap) where
  not_expired-lt :
      (now : ℕ) {done : Unit {0}} → not_expired now p.expires_at ≡ ok done → now < p.expires_at
  unfolding not_expired
  not_expired-lt now h = ground (arith, h)

  check_onchain-le :
      (r : CreateReverseSwapResponse) {done : Unit {0}}
      → check_onchain p r ≡ ok done
      → p.estimated_onchain_amount ≤ r.onchain_amount
  unfolding check_onchain
  check_onchain-le r h = ground (arith, h)

  check_lockup-eq :
      (r : CreateReverseSwapResponse) {done : Unit {0}}
      → check_lockup x r ≡ ok done
      → x.crates.to_lowercase r.lockup_address ≡ x.crates.to_lowercase x.erc20swap_address
  unfolding check_lockup
  check_lockup-eq r h = (eq_iff _ _).0 (true-ensure _ _ h)

  check_amount-eq :
      (o : Option (Option ℕ)) (sats : ℕ) {done : Unit {0}}
      → check_amount o sats ≡ ok done
      → (milli : ℕ) × (o ≡ some (some milli)) × (milli / 1000 ≡ sats)
  unfolding check_amount
  check_amount-eq none sats h = absurd (cc)
  check_amount-eq (some none) sats h = absurd (cc)
  check_amount-eq (some (some milli)) sats h = (milli, refl, (==_iff _ _).0 (true-ensure _ _ h))

  check_invoice-eq :
      (invoice : String) {done : Unit {0}}
      → check_invoice x.crates invoice p.invoice_amount_sats ≡ ok done
      → (milli : ℕ) × (x.crates.bolt11 invoice ≡ some (some milli))
        × (milli / 1000 ≡ p.invoice_amount_sats)
  unfolding check_invoice
  check_invoice-eq invoice h = check_amount-eq (x.crates.bolt11 invoice) p.invoice_amount_sats h

  accept_response-Checked :
      (issued : IssuedSecrets) (r : CreateReverseSwapResponse) {swap : BoltzSwap}
      → Said (accept_response x p issued r) (ok swap)
      → Checked x p r × NewSwap x p issued r swap
  unfolding accept_response
  accept_response-Checked issued r h =
      let (_, id, h1) = Said-try _ _ h in
      let (_, enough, h2) = Said-try _ _ h1 in
      let (_, lockup, h3) = Said-try _ _ h2 in
      let (_, invoice, h4) = Said-try _ _ h3 in
      let (_, margin, h5) = Said-try _ _ h4 in
      let (now, _, h6) = Said-bind _ _ h5 in
      let (refund, there, h7) = Said-try _ _ h6 in
      let (milli, parsed, amount) = check_invoice-eq r.invoice (ok_of-Said-pure invoice) in
      let (read_at, height, read, wide) =
        ensure_timeout_margin-read x p r.timeout_block_height margin in
      (
        record {
          id = validate_swap_id-IsSwapId x p r.id (ok_of-Said-pure id);
          enough = check_onchain-le r (ok_of-Said-pure enough);
          lockup = check_lockup-eq r (ok_of-Said-pure lockup);
          milli = milli;
          invoice = parsed;
          amount = amount;
          read_at = read_at;
          height = height;
          l1_height = read;
          margin = wide;
        },
        subst (NewSwap x p issued r) (ok-inj (ok_of-Said-pure h7))
            (swap_of-NewSwap x p issued r refund now (some-ok_or _ _ (ok_of-Said-pure there))),
      )

  to_chain_id_u32-eq : (chain_id : ℕ) {n : ℕ} → to_chain_id_u32 chain_id ≡ ok n → n ≡ chain_id
  unfolding to_chain_id_u32
  to_chain_id_u32-eq chain_id h = ground (arith, h)

  ok-created_or :
      (answer : Result CreateReverseSwapResponse) {r : CreateReverseSwapResponse}
      → created_or answer ≡ ok r
      → answer ≡ ok r
  unfolding created_or
  ok-created_or (ok response) h = h
  ok-created_or (err e) h = absurd (cc)

  -- A swap that `create` gives was asked of Boltz before the quote expired, with secrets issued for the
  -- configured chain, for a deliverable destination and an accepted slippage. The request names
  -- the amount and the pair of the quote and the issued key and preimage. Boltz answered with an
  -- alphanumeric id, at least the estimated on-chain amount, the ERC20Swap contract that was expected, an
  -- invoice of the prepared amount in whole sats, a timeout at least 60 L1 blocks off and a refund
  -- address; and the swap has these terms, and those of the quote and of the secrets, and is new.
  pub create-Created : {swap : BoltzSwap} → Said (create x p) (ok swap) → Created x p swap
  unfolding create
  create-Created {swap} h =
      let (asked, time, h1) = Said-bind _ _ h in
      let (_, fresh, h2) = Said-try _ _ h1 in
      let (dest, checked, h3) = Said-try _ _ h2 in
      let (bps, slippage, h4) = Said-try _ _ h3 in
      let (chain_id, chain, h5) = Said-try _ _ h4 in
      let (issued, issue, h6) = Said-try _ _ h5 in
      let (r, answer, h7) = Said-try _ _ h6 in
      let (result, new_swap) = accept_response-Checked issued r h7 in
      let (asked_at, at) = Said-ask _ time in
      let (issued_at, given) = Said-ask _ issue in
      let (sent_at, said) = Said-ask _ answer in
      record {
        dest = dest;
        deliverable =
            checked_destination-Deliverable x.crates x.registry p.destination_chain p.asset
              p.destination_address (ok_of-Said-pure checked);
        slippage =
            resolve_slippage_bps-some p.slippage_bps x.config.slippage_bps
              (ok_of-Said-pure slippage);
        asked_at = asked_at;
        in_time =
            subst (λ t. t < p.expires_at) (sym at) (not_expired-lt asked (ok_of-Said-pure fresh));
        issued = issued;
        issued_at = issued_at;
        issue =
            ap (λ id. x.secrets.issue issued_at id)
              (sym (to_chain_id_u32-eq x.config.chain_id (ok_of-Said-pure chain)))
            ∙ given;
        response = r;
        sent_at = sent_at;
        answer = ok-created_or _ (issued_request_given x p issued sent_at said);
        checked = result;
        new_swap = new_swap;
      }
