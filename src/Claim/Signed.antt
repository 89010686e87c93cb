-- ===== src/Claim/Signed.antt =====
-- What the gas key signs for the router in the claims of crates/lib/src/swap/reverse.rs.
use boltz_client.Prelude.{ℕ, ◌≡◌, subst, List}
use boltz_client.Errors.{ok, from_ok, ok-inj, ok_or}
use boltz_client.Crates.{Address, Bytes, Bytes32}
use boltz_client.Models.{BoltzSwap}
use boltz_client.Calls.{
  Call, ClaimCall, CctpData, hash_cctp_data, hash_send_data, execute, execute_oft, execute_cctp,
}
use boltz_client.Secrets.{EvmKeyPair}
use boltz_client.Signing.{
  EvmSigner, sign_eip712_router_claim, sign_eip712_router_claim_send, sign_eip712_router_claim_cctp,
}
use boltz_client.World.{Executor}
use boltz_client.World.Action.{ask}
use boltz_client.World.Effects.{Said, Said-try, ok_of-Said-pure}
use boltz_client.Claim.Build.{ClaimInput, gas_signer, erc20_signature, erc20_claim}
use boltz_client.Claim.Direct.{signed_direct, same_chain_call}
use boltz_client.Claim.Cctp.{signed_cctp, cctp_call}
use boltz_client.Claim.Oft.{Route, send_data_of, signed_oft, oft_call_with, oft_call}
use boltz_client.Claim.Built.{Built, direct, oft, cctp}

module _ (x : Executor) (swap : BoltzSwap) (key : EvmKeyPair) (router : Address) where
  abbrev signer : EvmSigner
  signer = record { private_key = key.private_key; chain_id = swap.chain_id }

  -- The authorization of the call is the signature of the gas key, for the router, over the very token,
  -- recipient and amounts that the call carries.
  unfoldable pub Signed : ClaimCall → Type 0
  Signed (execute claim calls token min_amount_out destination authorization) =
      sign_eip712_router_claim x.crates signer router claim.preimage token min_amount_out
        destination
      ≡ ok authorization
  Signed (execute_oft claim calls token source send_data auth) =
      (typehash : Bytes32) × Said (ask (λ n. x.outside.typehash_send_data n swap.router_address))
        (ok typehash)
      × (sign_eip712_router_claim_send x.crates signer router claim.preimage token source
            (hash_send_data x.crates typehash send_data) auth.min_amount_ld auth.lz_token_fee
            auth.refund_address
          ≡ ok auth.signature)
  Signed (execute_cctp claim calls token token_messenger cctp_data auth) =
      (typehash : Bytes32) × Said (ask (λ n. x.outside.typehash_cctp_data n swap.router_address))
        (ok typehash)
      × (sign_eip712_router_claim_cctp x.crates signer router claim.preimage token token_messenger
            (hash_cctp_data x.crates typehash cctp_data) auth.min_amount
          ≡ ok auth.signature)

module _ (x : Executor) (swap : BoltzSwap) (i : ClaimInput) where
  signed_direct-Signed :
      (min_amount_out : ℕ) (calls : List Call) {call : ClaimCall}
      → signed_direct x.crates swap i min_amount_out calls ≡ ok call
      → Signed x swap i.key i.addrs.router call
  unfolding signed_direct Signed gas_signer erc20_claim
  signed_direct-Signed min_amount_out calls h =
      from_ok (ok_or i.addrs.destination_evm _) _ h λ destination _ h1.
        from_ok (erc20_signature x.crates swap i) _ h1 λ signature _ h2.
          from_ok
            (sign_eip712_router_claim x.crates (gas_signer swap i) i.addrs.router i.preimage
              i.addrs.output_token_address min_amount_out destination)
            _ h2 λ _ signed h3. subst (Signed x swap i.key i.addrs.router) (ok-inj h3) signed

  signed_cctp-Signed :
      (calls : List Call) (b : Address × CctpData) (typehash : Bytes32) (min_amount : ℕ)
      {call : ClaimCall}
      → Said (ask (λ n. x.outside.typehash_cctp_data n swap.router_address)) (ok typehash)
      → signed_cctp x.crates swap i calls b.0 b.1 typehash min_amount ≡ ok call
      → Signed x swap i.key i.addrs.router call
  unfolding signed_cctp Signed gas_signer erc20_claim
  signed_cctp-Signed calls b typehash min_amount said h =
      from_ok (erc20_signature x.crates swap i) _ h λ signature _ h1.
        from_ok
          (sign_eip712_router_claim_cctp x.crates (gas_signer swap i) i.addrs.router i.preimage
            i.addrs.output_token_address b.0 (hash_cctp_data x.crates typehash b.1) min_amount)
          _ h1
          λ _ signed h2.
            subst (Signed x swap i.key i.addrs.router) (ok-inj h2) (typehash, said, signed)

  signed_oft-Signed :
      (route : Route) (calls : List Call) (extra_options : Bytes) (typehash : Bytes32)
      (min_amount_ld lz_token_fee : ℕ) {call : ClaimCall}
      → Said (ask (λ n. x.outside.typehash_send_data n swap.router_address)) (ok typehash)
      → signed_oft x.crates swap i route calls
          (send_data_of route i extra_options)
          typehash
          min_amount_ld
          lz_token_fee
        ≡ ok call
      → Signed x swap i.key i.addrs.router call
  unfolding signed_oft Signed gas_signer erc20_claim
  signed_oft-Signed route calls extra_options typehash min_amount_ld lz_token_fee said h =
      from_ok (erc20_signature x.crates swap i) _ h λ signature _ h1.
        from_ok
          (sign_eip712_router_claim_send x.crates (gas_signer swap i) i.addrs.router i.preimage
            i.addrs.output_token_address route.oft_addr
            (hash_send_data x.crates typehash (send_data_of route i extra_options)) min_amount_ld
            lz_token_fee i.addrs.refund)
          _ h1
          λ _ signed h2.
            subst (Signed x swap i.key i.addrs.router) (ok-inj h2) (typehash, said, signed)

  pub Built-Signed :
      (call : ClaimCall) → Built x swap i call → Signed x swap i.key i.addrs.router call
  unfolding same_chain_call cctp_call oft_call oft_call_with
  Built-Signed call (direct dest f e h) =
      let (amount_in, _, h1) = Said-try _ _ h in
      let (best, _, h2) = Said-try _ _ h1 in
      let (min_amount_out, _, h3) = Said-try _ _ h2 in
      let (calls, _, h4) = Said-try _ _ h3 in
      signed_direct-Signed min_amount_out calls (ok_of-Said-pure h4)
  Built-Signed call (cctp dest domain f e h) =
      let (amount_in, _, h1) = Said-try _ _ h in
      let (best, _, h2) = Said-try _ _ h1 in
      let (_, _, h3) = Said-try _ _ h2 in
      let (setup, _, h4) = Said-try _ _ h3 in
      let (fee, _, h5) = Said-try _ _ h4 in
      let (min_amount, _, h6) = Said-try _ _ h5 in
      let (calls, _, h7) = Said-try _ _ h6 in
      let (b, _, h8) = Said-try _ _ h7 in
      let (typehash, said, h9) = Said-try _ _ h8 in
      signed_cctp-Signed calls b typehash min_amount said (ok_of-Said-pure h9)
  Built-Signed call (oft dest mesh lz_eid f e h) =
      let (route, _, h1) = Said-try _ _ h in
      let (amount, _, h2) = Said-try _ _ h1 in
      let (extra_options, _, h3) = Said-try _ _ h2 in
      let (native_fee, _, h4) = Said-try _ _ h3 in
      let (fee, _, h5) = Said-try _ _ h4 in
      let (trade_tbtc, _, h6) = Said-try _ _ h5 in
      let (trade, _, g1) = Said-try _ _ h6 in
      let (_, _, g2) = Said-try _ _ g1 in
      let (min_amount_ld, _, g3) = Said-try _ _ g2 in
      let (final_fee, _, g4) = Said-try _ _ g3 in
      let (calls, _, g5) = Said-try _ _ g4 in
      let (typehash, said, g6) = Said-try _ _ g5 in
      signed_oft-Signed route calls extra_options typehash min_amount_ld final_fee.lz_token_fee said
        (ok_of-Said-pure g6)
