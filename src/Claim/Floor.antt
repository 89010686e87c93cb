-- ===== src/Claim/Floor.antt =====
-- What the calls of crates/lib/src/swap/reverse.rs bind the router to, on the three paths of a claim.
use boltz_client.Prelude.{
  ℕ, ◌-◌, ◌*◌, ◌/◌, ◌<◌, String, ◌≡◌, refl, Bool, false, arith, List, not, ◌==◌, ◌∙◌, subst, ap,
}
use boltz_client.Errors.{ok, generic, ◌>>◌, from_ok, ok-inj, ensure, ok_or, >>=-eq-ok}
use boltz_client.Crates.{Crates, Address, Bytes, Bytes32, Signature}
use boltz_client.Config.{cctp_token_messenger_v2}
use boltz_client.Contracts.{parse_address}
use boltz_client.Cctp.{mint_recipient, cctp_forward_hook}
use boltz_client.Quotes.{ParsedQuote}
use boltz_client.Models.{BoltzSwap}
use boltz_client.Models.Destinations.{NetworkTransport}
use boltz_client.Calls.{
  Call, Erc20Claim, ClaimCall, CctpData, SendData, hash_cctp_data, hash_send_data, execute,
  execute_oft, execute_cctp,
}
use boltz_client.Slippage.{compute_claim_floor, apply_slippage_down, keep_factor, slippage_mul_div}
use boltz_client.Signing.{
  sign_eip712_router_claim, sign_eip712_router_claim_send, sign_eip712_router_claim_cctp,
}
use boltz_client.World.{Executor}
use boltz_client.World.Effects.{Said, Said-try, ok_of-Said-pure}
use boltz_client.Claim.Build.{
  ClaimInput, gas_signer, erc20_signature, nonzero_floor, drift_checked, erc20_claim,
}
use boltz_client.Claim.Direct.{priced_quote, signed_direct, same_chain_call}
use boltz_client.Claim.Cctp.{min_burn, buffered_fee, signed_cctp, cctp_data_of, cctp_call}
use boltz_client.Claim.Oft.{Route, send_data_of, signed_oft, second_pass, oft_call_with, oft_call}
use boltz_client.Claim.Built.{Built, direct, oft, cctp}

-- What reaches the destination at least if the router executes the call: the swept amount, the
-- amount that leaves the OFT, or the burn less the whole fee cap.
unfoldable pub assured : ClaimCall → ℕ
assured (execute claim calls token min_amount_out destination authorization) = min_amount_out
assured (execute_oft claim calls token source send_data auth) = auth.min_amount_ld
assured (execute_cctp claim calls token token_messenger cctp_data auth) =
    auth.min_amount - cctp_data.max_fee

unfoldable pub claim_of : ClaimCall → Erc20Claim
claim_of (execute claim calls token min_amount_out destination authorization) = claim
claim_of (execute_oft claim calls token source send_data auth) = claim
claim_of (execute_cctp claim calls token token_messenger cctp_data auth) = claim

-- The promise of the prepare-time quote, unless the user waived it.
pub record Promised (swap : BoltzSwap) (skip_drift_check : Bool) (amount : ℕ) : Type 0 where
  pub positive : 0 < amount
  pub promised :
      skip_drift_check ≡ false
      → amount ≡ swap.expected_output_amount * (10000 - swap.slippage_bps) / 10000

pub record Bound (swap : BoltzSwap) (i : ClaimInput) (call : ClaimCall) : Type 0 where
  pub promise : Promised swap i.skip_drift_check (assured call)
  pub amount : (claim_of call).amount ≡ i.amount
  pub preimage : (claim_of call).preimage ≡ i.preimage
  pub timelock : (claim_of call).timelock ≡ swap.timeout_block_height
  pub token : (claim_of call).token_address ≡ i.addrs.tbtc
  pub refund : (claim_of call).refund_address ≡ i.addrs.refund

module _ (swap : BoltzSwap) where
  floor_of :
      (quote : ℕ) {floor : ℕ}
      → compute_claim_floor quote swap.expected_output_amount swap.slippage_bps false ≡ ok floor
      → floor ≡ swap.expected_output_amount * (10000 - swap.slippage_bps) / 10000
  unfolding compute_claim_floor apply_slippage_down keep_factor slippage_mul_div
  floor_of quote {floor} h = ground (arith, h)

  checked_floor :
      (reason : String) (floor : ℕ) {n : ℕ}
      → (ensure (not (floor == 0)) (generic reason) >> ok floor) ≡ ok n
      → (n ≡ floor) × (0 < n)
  checked_floor reason floor {n} h = ground (arith, h)

  nonzero_floor-Promised :
      (reason : String) (skip_drift_check : Bool) (quote : ℕ) {floor : ℕ}
      → nonzero_floor reason swap skip_drift_check quote ≡ ok floor
      → Promised swap skip_drift_check floor
  unfolding nonzero_floor
  nonzero_floor-Promised reason skip_drift_check quote {floor} h =
      let (_, _, h1) = >>=-eq-ok (drift_checked swap skip_drift_check quote) _ h in
      let (n, e, h2) =
        >>=-eq-ok
          (compute_claim_floor quote swap.expected_output_amount swap.slippage_bps skip_drift_check)
          _ h1 in
      let (same, positive) = checked_floor reason n h2 in
      record { positive = positive; promised = λ kept. same ∙ floor_of quote (rw (← kept) e) }

  priced_quote-Promised :
      (skip_drift_check : Bool) (best : ParsedQuote) {floor : ℕ}
      → priced_quote swap skip_drift_check best ≡ ok floor
      → Promised swap skip_drift_check floor
  unfolding priced_quote
  priced_quote-Promised skip_drift_check best h =
      let (_, _, h1) = >>=-eq-ok (ensure (not (best.amount == 0)) _) _ h in
      nonzero_floor-Promised _ skip_drift_check best.amount h1

  min_burn-Promised :
      (skip_drift_check : Bool) (quoted_usdc max_fee : ℕ) {n : ℕ}
      → min_burn swap skip_drift_check quoted_usdc max_fee ≡ ok n
      → Promised swap skip_drift_check (n - max_fee)
  unfolding min_burn
  min_burn-Promised skip_drift_check quoted_usdc max_fee {n} h =
      let (floor, e, h1) =
        >>=-eq-ok (nonzero_floor _ swap skip_drift_check (quoted_usdc - max_fee)) _ h in
      let same : floor ≡ n - max_fee = ground (arith, h1) in
      subst (Promised swap skip_drift_check) same
        (nonzero_floor-Promised _ skip_drift_check (quoted_usdc - max_fee) e)

Bound-erc20_claim :
    (swap : BoltzSwap) (i : ClaimInput) (call : ClaimCall) (signature : Signature)
    → claim_of call ≡ erc20_claim swap i signature
    → Promised swap i.skip_drift_check (assured call)
    → Bound swap i call
unfolding erc20_claim
Bound-erc20_claim swap i call signature e promise = record {
  promise = promise;
  amount = ap (λ claim. claim.amount) e;
  preimage = ap (λ claim. claim.preimage) e;
  timelock = ap (λ claim. claim.timelock) e;
  token = ap (λ claim. claim.token_address) e;
  refund = ap (λ claim. claim.refund_address) e;
}

module _ (c : Crates) (swap : BoltzSwap) (i : ClaimInput) where
  signed_direct-Bound :
      (min_amount_out : ℕ) (calls : List Call) {call : ClaimCall}
      → Promised swap i.skip_drift_check min_amount_out
      → signed_direct c swap i min_amount_out calls ≡ ok call
      → Bound swap i call
  unfolding signed_direct assured claim_of
  signed_direct-Bound min_amount_out calls {call} promise h =
      from_ok (ok_or i.addrs.destination_evm _) _ h λ destination _ h1.
        from_ok (erc20_signature c swap i) _ h1 λ signature _ h2.
          from_ok
            (sign_eip712_router_claim c (gas_signer swap i) i.addrs.router i.preimage
              i.addrs.output_token_address min_amount_out destination)
            _ h2
            λ _ _ h3.
              subst (Bound swap i) (ok-inj h3) (Bound-erc20_claim swap i _ signature refl promise)

  signed_cctp-Bound :
      (calls : List Call) (token_messenger : Address) (cctp_data : CctpData) (typehash : Bytes32)
      (min_amount : ℕ) {call : ClaimCall}
      → Promised swap i.skip_drift_check (min_amount - cctp_data.max_fee)
      → signed_cctp c swap i calls token_messenger cctp_data typehash min_amount ≡ ok call
      → Bound swap i call
  unfolding signed_cctp assured claim_of
  signed_cctp-Bound calls token_messenger cctp_data typehash min_amount {call} promise h =
      from_ok (erc20_signature c swap i) _ h λ signature _ h1.
        from_ok
          (sign_eip712_router_claim_cctp c (gas_signer swap i) i.addrs.router i.preimage
            i.addrs.output_token_address token_messenger (hash_cctp_data c typehash cctp_data)
            min_amount)
          _ h1
          λ _ _ h2.
            subst (Bound swap i) (ok-inj h2) (Bound-erc20_claim swap i _ signature refl promise)

  signed_oft-Bound :
      (route : Route) (calls : List Call) (send_data : SendData) (typehash : Bytes32)
      (min_amount_ld lz_token_fee : ℕ) {call : ClaimCall}
      → Promised swap i.skip_drift_check min_amount_ld
      → signed_oft c swap i route calls send_data typehash min_amount_ld lz_token_fee ≡ ok call
      → Bound swap i call
  unfolding signed_oft assured claim_of
  signed_oft-Bound route calls send_data typehash min_amount_ld lz_token_fee {call} promise h =
      from_ok (erc20_signature c swap i) _ h λ signature _ h1.
        from_ok
          (sign_eip712_router_claim_send c (gas_signer swap i) i.addrs.router i.preimage
            i.addrs.output_token_address route.oft_addr (hash_send_data c typehash send_data)
            min_amount_ld lz_token_fee i.addrs.refund)
          _ h1
          λ _ _ h2.
            subst (Bound swap i) (ok-inj h2) (Bound-erc20_claim swap i _ signature refl promise)

  max_fee-cctp_data_of :
      (domain : ℕ) (transport : NetworkTransport) (setup : Bool) (max_fee : ℕ)
      {bridge : Address × CctpData}
      → cctp_data_of c swap domain transport setup max_fee ≡ ok bridge
      → max_fee ≡ bridge.1.max_fee
  unfolding cctp_data_of
  max_fee-cctp_data_of domain transport setup max_fee {bridge} h =
      from_ok (parse_address c cctp_token_messenger_v2) _ h λ _ _ h1.
        from_ok (mint_recipient c transport swap.destination_address) _ h1 λ _ _ h2.
          from_ok (cctp_forward_hook c swap.destination_address setup) _ h2
            λ _ _ h3. ap (λ (b : Address × CctpData). b.1.max_fee) (ok-inj h3)

module _ (x : Executor) (swap : BoltzSwap) (i : ClaimInput) where
  same_chain_call-Bound :
      {call : ClaimCall} → Said (same_chain_call x swap i) (ok call) → Bound swap i call
  unfolding same_chain_call
  same_chain_call-Bound h =
      let (amount_in, _, h1) = Said-try _ _ h in
      let (best, _, h2) = Said-try _ _ h1 in
      let (min_amount_out, priced, h3) = Said-try _ _ h2 in
      let (calls, _, h4) = Said-try _ _ h3 in
      signed_direct-Bound x.crates swap i min_amount_out calls
        (priced_quote-Promised swap i.skip_drift_check best (ok_of-Said-pure priced))
        (ok_of-Said-pure h4)

  cctp_call-Bound :
      (domain : ℕ) (transport : NetworkTransport) {call : ClaimCall}
      → Said (cctp_call x swap i domain transport) (ok call)
      → Bound swap i call
  unfolding cctp_call
  cctp_call-Bound domain transport h =
      let (amount_in, _, h1) = Said-try _ _ h in
      let (best, _, h2) = Said-try _ _ h1 in
      let (_, _, h3) = Said-try _ _ h2 in
      let (setup, _, h4) = Said-try _ _ h3 in
      let (fee, _, h5) = Said-try _ _ h4 in
      let (min_amount, burn, h6) = Said-try _ _ h5 in
      let (calls, _, h7) = Said-try _ _ h6 in
      let (bridge, built, h8) = Said-try _ _ h7 in
      let (typehash, _, h9) = Said-try _ _ h8 in
      let cap = buffered_fee best.amount fee in
      signed_cctp-Bound x.crates swap i calls bridge.0 bridge.1 typehash min_amount
        (subst (λ fee. Promised swap i.skip_drift_check (min_amount - fee))
          (max_fee-cctp_data_of x.crates swap i domain transport setup cap (ok_of-Said-pure built))
          (min_burn-Promised swap i.skip_drift_check best.amount cap (ok_of-Said-pure burn)))
        (ok_of-Said-pure h9)

  second_pass-Promised :
      (route : Route) (extra_options : Bytes) (trade : ParsedQuote) {n : ℕ}
      → Said (second_pass x swap i route extra_options trade) (ok n)
      → Promised swap i.skip_drift_check n
  unfolding second_pass
  second_pass-Promised route extra_options trade h =
      let (receipt, _, h1) = Said-try _ _ h in
      let (raw, _, h2) = Said-try _ _ h1 in
      nonzero_floor-Promised swap _ i.skip_drift_check raw (ok_of-Said-pure h2)

  oft_call_with-Bound :
      (route : Route) (extra_options : Bytes) (native_fee trade_tbtc : ℕ) (fee : ParsedQuote)
      {call : ClaimCall}
      → Said (oft_call_with x swap i route extra_options native_fee trade_tbtc fee) (ok call)
      → Bound swap i call
  unfolding oft_call_with
  oft_call_with-Bound route extra_options native_fee trade_tbtc fee h =
      let (trade, _, h1) = Said-try _ _ h in
      let (_, _, h2) = Said-try _ _ h1 in
      let (min_amount_ld, floor, h3) = Said-try _ _ h2 in
      let (final_fee, _, h4) = Said-try _ _ h3 in
      let (calls, _, h5) = Said-try _ _ h4 in
      let (typehash, _, h6) = Said-try _ _ h5 in
      signed_oft-Bound x.crates swap i route calls (send_data_of route i extra_options) typehash
        min_amount_ld final_fee.lz_token_fee (second_pass-Promised route extra_options trade floor)
        (ok_of-Said-pure h6)

  oft_call-Bound : {call : ClaimCall} → Said (oft_call x swap i) (ok call) → Bound swap i call
  unfolding oft_call
  oft_call-Bound h =
      let (route, _, h1) = Said-try _ _ h in
      let (amount, _, h2) = Said-try _ _ h1 in
      let (extra_options, _, h3) = Said-try _ _ h2 in
      let (native_fee, _, h4) = Said-try _ _ h3 in
      let (fee, _, h5) = Said-try _ _ h4 in
      let (trade_tbtc, _, h6) = Said-try _ _ h5 in
      oft_call_with-Bound route extra_options native_fee trade_tbtc fee h6

  pub Built-Bound : (call : ClaimCall) → Built x swap i call → Bound swap i call
  Built-Bound call (direct dest f e h) = same_chain_call-Bound h
  Built-Bound call (oft dest mesh lz_eid f e h) = oft_call-Bound h
  Built-Bound call (cctp dest domain f e h) = cctp_call-Bound domain dest.transport h
