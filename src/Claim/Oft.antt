-- ===== src/Claim/Oft.antt =====
-- `try_claim_cross_chain` of crates/lib/src/swap/reverse.rs, up to the submission: claim, swap to USDT and
-- to the ETH of the messaging fee, and send it through the OFT of the destination's mesh.
use boltz_client.Prelude.{ℕ, ◌-◌, ◌++◌, String, not, Option, none, some, List, [], ◌∷◌, leb, ◌==◌}
use boltz_client.Config.{arbitrum_tbtc_address, arbitrum_usdt_address, zero_address}
use boltz_client.Crates.{Crates, Address, Bytes, Bytes32}
use boltz_client.Errors.{Result, ok, generic, invalid_quote, ◌>>=◌, ◌>>◌, ensure}
use boltz_client.Models.{BoltzSwap}
use boltz_client.Models.Destinations.{Destination}
use boltz_client.Calls.{
  Call, ClaimCall, SendData, OftSendParam, execute_oft, build_oft_send_param, hash_send_data,
}
use boltz_client.Contracts.{parse_address}
use boltz_client.Signing.{sign_eip712_router_claim_send}
use boltz_client.Quotes.{ParsedQuote}
use boltz_client.Slippage.{apply_slippage_up}
use boltz_client.OftQuotes.{
  oft_route, source_oft, compute_extra_options, quote_oft, quote_send, u128_or,
  build_oft_approval_call,
}
use boltz_client.World.{Executor}
use boltz_client.World.Action.{M, pure, ◌>?>◌, ask}
use boltz_client.Claim.Build.{
  ClaimInput, amount_u128, gas_signer, erc20_signature, erc20_claim, nonzero_floor, best_quote_in,
  best_quote_out, routed_calls, resolve_destination,
}

-- What the claim bridges through: the destination, the OFT of its mesh, and the executor options.
pub record Route : Type 0 where
  pub destination : Destination
  pub dst_eid : ℕ
  pub source_oft_address : String
  pub oft_addr : Address

unfoldable pub route_of : Executor → BoltzSwap → Result Route
route_of x swap = do
  dest ← resolve_destination x.registry swap.destination_chain swap.asset
  mesh_eid ← oft_route dest.bridge
  source_oft_address ← source_oft x.registry mesh_eid.0
  oft_addr ← parse_address x.crates source_oft_address
  ok (record {
    destination = dest;
    dst_eid = mesh_eid.1;
    source_oft_address = source_oft_address;
    oft_addr = oft_addr;
  })

-- The parameter that sends `amount_ld`, at least `min_amount_ld` of it arriving.
unfoldable pub send_param :
    Route → ClaimInput → Bytes → (amount_ld min_amount_ld : ℕ) → OftSendParam
send_param route i extra_options amount_ld min_amount_ld =
    build_oft_send_param route.dst_eid i.addrs.destination_bytes32 amount_ld min_amount_ld
      extra_options

-- What is left of the claimed tBTC for the trade.
unfoldable pub trade_share : (tbtc_amount fee_tbtc : ℕ) → Result ℕ
trade_share tbtc_amount fee_tbtc = do
  ensure (leb fee_tbtc tbtc_amount)
      (generic "Amount too small to cover OFT cross-chain messaging fee")
  ensure (not (tbtc_amount - fee_tbtc == 0))
      (generic "Amount too small to cover OFT cross-chain messaging fee")
  ok (tbtc_amount - fee_tbtc)

unfoldable pub nonzero_usdt : ParsedQuote → Result (Unit {0})
nonzero_usdt best = ensure (not (best.amount == 0)) (invalid_quote "DEX returned zero USDT")

-- The first pass: the native fee of the message, for the output of the whole amount.
unfoldable pub first_pass : Executor → ClaimInput → Route → Bytes → (tbtc_amount : ℕ) → M (Result ℕ)
first_pass x i route extra_options tbtc_amount =
    best_quote_in x arbitrum_tbtc_address arbitrum_usdt_address tbtc_amount >?> λ initial.
    quote_oft x route.source_oft_address (send_param route i extra_options initial.amount 0)
    >?> λ receipt.
        quote_send x route.source_oft_address
          (send_param route i extra_options initial.amount receipt.amount_received_ld)
        >?> λ fee. pure (u128_or "LZ fee too large" fee.native_fee)

-- The tBTC that buys the ETH of the message, with the slippage added.
unfoldable pub fee_quote : Executor → BoltzSwap → (native_fee : ℕ) → M (Result ParsedQuote)
fee_quote x swap native_fee = pure (apply_slippage_up native_fee swap.slippage_bps) >?> λ fee.
    best_quote_out x arbitrum_tbtc_address zero_address fee

-- The second pass: what the trade's output gives on the destination, and the floor signed for.
unfoldable pub second_pass :
    Executor → BoltzSwap → ClaimInput → Route → Bytes → (trade : ParsedQuote) → M (Result ℕ)
second_pass x swap i route extra_options trade =
    quote_oft x route.source_oft_address (send_param route i extra_options trade.amount 0)
    >?> λ receipt. pure (u128_or "OFT amount too large" receipt.amount_received_ld) >?> λ raw.
        pure (
          nonzero_floor "Amount too small: cross-chain slippage-adjusted minimum is zero" swap
            i.skip_drift_check raw)

unfoldable pub with_approval : List Call → Option Call → List Call
with_approval calls none = calls
with_approval calls (some approval) = calls ++ (approval ∷ [])

unfoldable pub send_data_of : Route → ClaimInput → Bytes → SendData
send_data_of route i extra_options = record {
  dst_eid = route.dst_eid;
  to = i.addrs.destination_bytes32;
  extra_options = extra_options;
  compose_msg = [];
  oft_cmd = [];
}

unfoldable pub signed_oft :
    Crates
    → BoltzSwap
    → ClaimInput
    → Route
    → List Call
    → SendData
    → (typehash : Bytes32) → (min_amount_ld lz_token_fee : ℕ) → Result ClaimCall
signed_oft c swap i route calls send_data typehash min_amount_ld lz_token_fee = do
  signature ← erc20_signature c swap i
  authorization ←
      sign_eip712_router_claim_send c (gas_signer swap i) i.addrs.router i.preimage
        i.addrs.output_token_address route.oft_addr (hash_send_data c typehash send_data)
        min_amount_ld lz_token_fee i.addrs.refund
  ok (
      execute_oft (erc20_claim swap i signature) calls i.addrs.output_token_address route.oft_addr
        send_data
        (record {
          min_amount_ld = min_amount_ld;
          lz_token_fee = lz_token_fee;
          refund_address = i.addrs.refund;
          signature = authorization;
        }))

-- The DEX calls of both legs, with the approval if the OFT wants one.
unfoldable pub oft_calls :
    Executor
    → ClaimInput
    → Route
    → (trade_tbtc : ℕ) (trade : ParsedQuote) (fee : ParsedQuote) (native_fee : ℕ)
    → M (Result (List Call))
oft_calls x i route trade_tbtc trade fee native_fee =
    routed_calls x i.addrs.router trade_tbtc 1 trade.detail >?> λ trade_calls.
    routed_calls x i.addrs.router fee.amount native_fee fee.detail >?> λ fee_calls.
    build_oft_approval_call x i.addrs.router route.oft_addr i.addrs.output_token_address
      trade.amount
    >?> λ approval. pure (ok (with_approval (trade_calls ++ fee_calls) approval))

-- The claim from the second pass on.
unfoldable pub oft_call_with :
    Executor
    → BoltzSwap
    → ClaimInput
    → Route
    → Bytes
    → (native_fee trade_tbtc : ℕ) (fee : ParsedQuote) → M (Result ClaimCall)
oft_call_with x swap i route extra_options native_fee trade_tbtc fee =
    best_quote_in x arbitrum_tbtc_address arbitrum_usdt_address trade_tbtc >?> λ trade.
    pure (nonzero_usdt trade) >?> λ _.
    second_pass x swap i route extra_options trade >?> λ min_amount_ld.
    quote_send x route.source_oft_address
      (send_param route i extra_options trade.amount min_amount_ld)
    >?> λ final_fee. oft_calls x i route trade_tbtc trade fee native_fee >?> λ calls.
        ask (λ n. x.outside.typehash_send_data n swap.router_address) >?> λ typehash. pure (
          signed_oft x.crates swap i route calls (send_data_of route i extra_options) typehash
            min_amount_ld final_fee.lz_token_fee)

unfoldable pub oft_call : Executor → BoltzSwap → ClaimInput → M (Result ClaimCall)
oft_call x swap i = pure (route_of x swap) >?> λ route. pure (amount_u128 i.amount) >?> λ amount.
    compute_extra_options x route.destination swap.destination_address >?> λ extra_options.
    first_pass x i route extra_options amount >?> λ native_fee.
    fee_quote x swap native_fee >?> λ fee. pure (trade_share amount fee.amount) >?> λ trade_tbtc.
    oft_call_with x swap i route extra_options native_fee trade_tbtc fee
