-- ===== src/Claim/Destination.antt =====
-- Where the calls of crates/lib/src/swap/reverse.rs send what the swap buys, on the three paths of a claim.
use boltz_client.Prelude.{ℕ, ◌≡◌, refl, sym, ◌∙◌, ap, subst, Option, some, String, List, Bool}
use boltz_client.Errors.{ok, from_ok, ok-inj, ok_or, some-ok_or}
use boltz_client.Crates.{Address, Bytes, Bytes32}
use boltz_client.Config.{cctp_token_messenger_v2, arbitrum_tbtc_address}
use boltz_client.Contracts.{parse_address}
use boltz_client.Cctp.{mint_recipient, cctp_forward_hook}
use boltz_client.Recipient.{encode_oft_recipient}
use boltz_client.Models.{BoltzSwap}
use boltz_client.Models.Destinations.{
  Destination, NetworkTransport, solana, tron, Bridge, Usdt0Kind, find, oft_for,
}
use boltz_client.Calls.{
  Call, ClaimCall, CctpData, hash_cctp_data, hash_send_data, execute, execute_oft, execute_cctp,
}
use boltz_client.Signing.{
  sign_eip712_router_claim, sign_eip712_router_claim_send, sign_eip712_router_claim_cctp,
}
use boltz_client.World.{Executor}
use boltz_client.World.Effects.{Said, Said-try, ok_of-Said-pure}
use boltz_client.OftQuotes.{oft_route, source_oft}
use boltz_client.Claim.Build.{
  ClaimInput, ClaimAddresses, gas_signer, erc20_signature, evm_destination, claim_addresses,
  resolve_destination,
}
use boltz_client.Claim.Direct.{signed_direct, same_chain_call}
use boltz_client.Claim.Cctp.{signed_cctp, cctp_data_of, cctp_call}
use boltz_client.Claim.Oft.{Route, route_of, send_data_of, signed_oft, oft_call_with, oft_call}
use boltz_client.Claim.Built.{Built, direct, oft, cctp}
use boltz_client.Claim.Recipients.{
  Encodes, MintsTo, encode_oft_recipient-Encodes, mint_recipient-MintsTo,
}

module _ (x : Executor) (swap : BoltzSwap) where
  -- The token that the router pays out or bridges, and who gets it, for the destination `dest`: on
  -- Arbitrum the address itself, through the mesh's OFT the destination's endpoint and the address as
  -- 32 bytes, and through CCTP the destination's domain and the address to mint to.
  pub Delivers : Destination → ClaimCall → Type 0
  Delivers dest (execute claim calls token min_amount_out destination authorization) =
      (dest.bridge ≡ Bridge.direct)
      × (dest.transport ≡ NetworkTransport.evm)
      × (parse_address x.crates swap.destination_address ≡ ok destination)
      × (parse_address x.crates dest.dex_output_token ≡ ok token)
  Delivers dest (execute_oft claim calls token source send_data auth) =
      (mesh : Usdt0Kind) × (oft_address : String) × (dest.bridge
        ≡ Bridge.oft mesh send_data.dst_eid)
      × (oft_for x.registry mesh ≡ some oft_address)
      × (parse_address x.crates oft_address ≡ ok source)
      × Encodes x.crates swap.destination_address dest.transport send_data.to
      × (parse_address x.crates dest.dex_output_token ≡ ok token)
      × (parse_address x.crates swap.refund_address ≡ ok auth.refund_address)
  Delivers dest (execute_cctp claim calls token token_messenger cctp_data auth) =
      (dest.bridge ≡ Bridge.cctp cctp_data.destination_domain)
      × (parse_address x.crates cctp_token_messenger_v2 ≡ ok token_messenger)
      × MintsTo x.crates swap.destination_address dest.transport cctp_data.mint_recipient
      × (parse_address x.crates dest.dex_output_token ≡ ok token)

  -- The addresses are those of the swap and of its destination.
  pub record Parsed (dest : Destination) (a : ClaimAddresses) : Type 0 where
    pub bytes32 :
        encode_oft_recipient x.crates dest.transport swap.destination_address
        ≡ ok a.destination_bytes32
    pub evm :
        (destination : Address)
        → a.destination_evm ≡ some destination
        → (dest.transport ≡ NetworkTransport.evm)
          × (parse_address x.crates swap.destination_address ≡ ok destination)
    pub router : parse_address x.crates swap.router_address ≡ ok a.router
    pub tbtc : parse_address x.crates arbitrum_tbtc_address ≡ ok a.tbtc
    pub output : parse_address x.crates dest.dex_output_token ≡ ok a.output_token_address
    pub refund : parse_address x.crates swap.refund_address ≡ ok a.refund

  evm_destination-eq :
      (t : NetworkTransport) (found : Option Address)
      → evm_destination x.crates t swap.destination_address ≡ ok found
      → (destination : Address) → found ≡ some destination
      → (t ≡ NetworkTransport.evm)
        × (parse_address x.crates swap.destination_address ≡ ok destination)
  unfolding evm_destination
  evm_destination-eq NetworkTransport.evm found h destination e =
      from_ok (parse_address x.crates swap.destination_address) _ h
        λ parsed p h1. (refl, (let same : parsed ≡ destination = cc in p ∙ ap ok same))
  evm_destination-eq solana found h destination e = absurd (cc)
  evm_destination-eq tron found h destination e = absurd (cc)

  pub claim_addresses-Parsed :
      (a : ClaimAddresses) (dest : Destination)
      → find x.registry swap.destination_chain swap.asset ≡ some dest
      → claim_addresses x.crates x.registry swap ≡ ok a
      → Parsed dest a
  unfolding claim_addresses
  claim_addresses-Parsed a dest f h =
      let h0 = rw f at h in
      from_ok (encode_oft_recipient x.crates dest.transport swap.destination_address) _ h0
        λ bytes encoded h1.
          from_ok (evm_destination x.crates dest.transport swap.destination_address) _ h1
            λ destination_evm on_evm h2.
              from_ok (parse_address x.crates swap.erc20swap_address) _ h2 λ erc20swap _ h3.
                from_ok (parse_address x.crates swap.router_address) _ h3 λ router routed h4.
                  from_ok (parse_address x.crates arbitrum_tbtc_address) _ h4 λ tbtc token h5.
                    from_ok (parse_address x.crates dest.dex_output_token) _ h5 λ output parsed h6.
                      from_ok (parse_address x.crates swap.refund_address) _ h6 λ refund back h7.
                        subst (Parsed dest) (ok-inj h7) (record {
                          bytes32 = encoded;
                          evm = evm_destination-eq dest.transport destination_evm on_evm;
                          router = routed;
                          tbtc = token;
                          output = parsed;
                          refund = back;
                        })

module _ (x : Executor) (swap : BoltzSwap) (i : ClaimInput) (dest : Destination)
    (parsed : Parsed x swap dest i.addrs) where
  signed_direct-Delivers :
      (min_amount_out : ℕ) (calls : List Call) {call : ClaimCall}
      → dest.bridge ≡ Bridge.direct
      → signed_direct x.crates swap i min_amount_out calls ≡ ok call
      → Delivers x swap dest call
  unfolding signed_direct Delivers
  signed_direct-Delivers min_amount_out calls {call} e h =
      from_ok (ok_or i.addrs.destination_evm _) _ h λ destination there h1.
        from_ok (erc20_signature x.crates swap i) _ h1 λ signature _ h2.
          from_ok
            (sign_eip712_router_claim x.crates (gas_signer swap i) i.addrs.router i.preimage
              i.addrs.output_token_address min_amount_out destination)
            _ h2
            λ _ _ h3.
              let (on_evm, parsed_to) = parsed.evm destination (some-ok_or _ _ there) in
              subst (Delivers x swap dest) (ok-inj h3) (e, on_evm, parsed_to, parsed.output)

  same_chain_call-Delivers :
      {call : ClaimCall}
      → dest.bridge ≡ Bridge.direct
      → Said (same_chain_call x swap i) (ok call)
      → Delivers x swap dest call
  unfolding same_chain_call
  same_chain_call-Delivers e h =
      let (amount_in, _, h1) = Said-try _ _ h in
      let (best, _, h2) = Said-try _ _ h1 in
      let (min_amount_out, _, h3) = Said-try _ _ h2 in
      let (calls, _, h4) = Said-try _ _ h3 in
      signed_direct-Delivers min_amount_out calls e (ok_of-Said-pure h4)

  -- What `cctp_data_of` gives is for the domain and the recipient.
  record ForDomain (domain : ℕ) (b : Address × CctpData) : Type 0 where
    pub to_domain : b.1.destination_domain ≡ domain
    pub messenger : parse_address x.crates cctp_token_messenger_v2 ≡ ok b.0
    pub recipient :
        mint_recipient x.crates dest.transport swap.destination_address ≡ ok b.1.mint_recipient

  cctp_data_of-ForDomain :
      (domain : ℕ) (setup : Bool) (max_fee : ℕ) {b : Address × CctpData}
      → cctp_data_of x.crates swap domain dest.transport setup max_fee ≡ ok b
      → ForDomain domain b
  unfolding cctp_data_of
  cctp_data_of-ForDomain domain setup max_fee h =
      from_ok (parse_address x.crates cctp_token_messenger_v2) _ h λ messenger at h1.
        from_ok (mint_recipient x.crates dest.transport swap.destination_address) _ h1
          λ recipient minted h2.
            from_ok (cctp_forward_hook x.crates swap.destination_address setup) _ h2 λ _ _ h3.
              subst (ForDomain domain) (ok-inj h3)
                (record { to_domain = refl; messenger = at; recipient = minted })

  signed_cctp-Delivers :
      (domain : ℕ) (calls : List Call) (b : Address × CctpData) (typehash : Bytes32)
      (min_amount : ℕ) {call : ClaimCall}
      → dest.bridge ≡ Bridge.cctp domain
      → ForDomain domain b
      → signed_cctp x.crates swap i calls b.0 b.1 typehash min_amount ≡ ok call
      → Delivers x swap dest call
  unfolding signed_cctp Delivers
  signed_cctp-Delivers domain calls b typehash min_amount e d h =
      from_ok (erc20_signature x.crates swap i) _ h λ signature _ h1.
        from_ok
          (sign_eip712_router_claim_cctp x.crates (gas_signer swap i) i.addrs.router i.preimage
            i.addrs.output_token_address b.0 (hash_cctp_data x.crates typehash b.1) min_amount)
          _ h1
          λ _ _ h2. subst (Delivers x swap dest) (ok-inj h2) (
            e ∙ ap Bridge.cctp (sym d.to_domain),
            d.messenger,
            mint_recipient-MintsTo x.crates swap.destination_address dest.transport d.recipient,
            parsed.output,
          )

  cctp_call-Delivers :
      (domain : ℕ) {call : ClaimCall}
      → dest.bridge ≡ Bridge.cctp domain
      → Said (cctp_call x swap i domain dest.transport) (ok call)
      → Delivers x swap dest call
  unfolding cctp_call
  cctp_call-Delivers domain e h =
      let (amount_in, _, h1) = Said-try _ _ h in
      let (best, _, h2) = Said-try _ _ h1 in
      let (_, _, h3) = Said-try _ _ h2 in
      let (setup, _, h4) = Said-try _ _ h3 in
      let (fee, _, h5) = Said-try _ _ h4 in
      let (min_amount, _, h6) = Said-try _ _ h5 in
      let (calls, _, h7) = Said-try _ _ h6 in
      let (b, built, h8) = Said-try _ _ h7 in
      let (typehash, _, h9) = Said-try _ _ h8 in
      signed_cctp-Delivers domain calls b typehash min_amount e
        (cctp_data_of-ForDomain domain setup _ (ok_of-Said-pure built)) (ok_of-Said-pure h9)

  -- The route goes through the OFT of the destination's mesh.
  record ForMesh (mesh : Usdt0Kind) (lz_eid : ℕ) (r : Route) : Type 0 where
    pub eid : r.dst_eid ≡ lz_eid
    pub deployed : oft_for x.registry mesh ≡ some r.source_oft_address
    pub oft : parse_address x.crates r.source_oft_address ≡ ok r.oft_addr

  route_of-ForMesh :
      (mesh : Usdt0Kind) (lz_eid : ℕ) {r : Route}
      → find x.registry swap.destination_chain swap.asset ≡ some dest
      → dest.bridge ≡ Bridge.oft mesh lz_eid
      → route_of x swap ≡ ok r
      → ForMesh mesh lz_eid r
  unfolding route_of resolve_destination oft_route source_oft
  route_of-ForMesh mesh lz_eid f e h =
      let h0 = rw e at (rw f at h) in
      from_ok (ok_or (oft_for x.registry mesh) _) _ h0 λ address there h1.
        from_ok (parse_address x.crates address) _ h1 λ source parsed_oft h2.
          subst (ForMesh mesh lz_eid) (ok-inj h2)
            (record { eid = refl; deployed = some-ok_or _ _ there; oft = parsed_oft })

  signed_oft-Delivers :
      (mesh : Usdt0Kind) (lz_eid : ℕ) (route : Route) (calls : List Call) (extra_options : Bytes)
      (typehash : Bytes32) (min_amount_ld lz_token_fee : ℕ) {call : ClaimCall}
      → dest.bridge ≡ Bridge.oft mesh lz_eid
      → ForMesh mesh lz_eid route
      → signed_oft x.crates swap i route calls
          (send_data_of route i extra_options)
          typehash
          min_amount_ld
          lz_token_fee
        ≡ ok call
      → Delivers x swap dest call
  unfolding signed_oft send_data_of Delivers
  signed_oft-Delivers mesh lz_eid route calls extra_options typehash min_amount_ld lz_token_fee e d
        h =
      from_ok (erc20_signature x.crates swap i) _ h λ signature _ h1.
        from_ok
          (sign_eip712_router_claim_send x.crates (gas_signer swap i) i.addrs.router i.preimage
            i.addrs.output_token_address route.oft_addr
            (hash_send_data x.crates typehash (send_data_of route i extra_options)) min_amount_ld
            lz_token_fee i.addrs.refund)
          _ h1
          λ _ _ h2. subst (Delivers x swap dest) (ok-inj h2) (
            mesh,
            route.source_oft_address,
            e ∙ ap (Bridge.oft mesh) (sym d.eid),
            d.deployed,
            d.oft,
            encode_oft_recipient-Encodes x.crates swap.destination_address dest.transport
                parsed.bytes32,
            parsed.output,
            parsed.refund,
          )

  oft_call-Delivers :
      (mesh : Usdt0Kind) (lz_eid : ℕ) {call : ClaimCall}
      → find x.registry swap.destination_chain swap.asset ≡ some dest
      → dest.bridge ≡ Bridge.oft mesh lz_eid
      → Said (oft_call x swap i) (ok call)
      → Delivers x swap dest call
  unfolding oft_call oft_call_with
  oft_call-Delivers mesh lz_eid f e h =
      let (route, found, h1) = Said-try _ _ h in
      let (amount, _, h2) = Said-try _ _ h1 in
      let (extra_options, _, h3) = Said-try _ _ h2 in
      let (native_fee, _, h4) = Said-try _ _ h3 in
      let (fee, _, h5) = Said-try _ _ h4 in
      let (trade_tbtc, _, h6) = Said-try _ _ h5 in
      let (trade, _, g1) = Said-try _ _ h6 in
      let (_, _, g2) = Said-try _ _ g1 in
      let (min_amount_ld, _, g3) = Said-try _ _ g2 in
      let (final_fee, _, g4) = Said-try _ _ g3 in
      let (calls, _, g5) = Said-try _ _ g4 in
      let (typehash, _, g6) = Said-try _ _ g5 in
      signed_oft-Delivers mesh lz_eid route calls extra_options typehash min_amount_ld
        final_fee.lz_token_fee e (route_of-ForMesh mesh lz_eid f e (ok_of-Said-pure found))
        (ok_of-Said-pure g6)

-- The destination of the swap in the registry, and that the call delivers to it.
abbrev pub Arrives : Executor → BoltzSwap → ClaimCall → Type 0
Arrives x swap call =
    (dest : Destination) × (find x.registry swap.destination_chain swap.asset ≡ some dest)
    × Delivers x swap dest call

pub Built-Arrives :
    (x : Executor) (swap : BoltzSwap) (i : ClaimInput) (call : ClaimCall)
    → claim_addresses x.crates x.registry swap ≡ ok i.addrs
    → Built x swap i call
    → Arrives x swap call
Built-Arrives x swap i call h (direct dest f e said) = (
  dest,
  f,
  same_chain_call-Delivers x swap i dest (claim_addresses-Parsed x swap i.addrs dest f h) e said,
)
Built-Arrives x swap i call h (oft dest mesh lz_eid f e said) = (
  dest,
  f,
  oft_call-Delivers x swap i dest (claim_addresses-Parsed x swap i.addrs dest f h) mesh lz_eid f e
      said,
)
Built-Arrives x swap i call h (cctp dest domain f e said) = (
  dest,
  f,
  cctp_call-Delivers x swap i dest (claim_addresses-Parsed x swap i.addrs dest f h) domain e said,
)
