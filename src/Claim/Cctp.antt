-- ===== src/Claim/Cctp.antt =====
-- `try_claim_cctp` of crates/lib/src/swap/reverse.rs, up to the submission: claim, swap to USDC, and burn
-- it for the destination chain.
use boltz_client.Prelude.{
  ℕ, ◌+◌, ◌-◌, String, Bool, not, false, List, ltb, ◌==◌, replicate, if◌then◌else◌,
}
use boltz_client.Config.{
  arbitrum_tbtc_address, arbitrum_usdc_address, cctp_arbitrum_domain, cctp_finality_fast,
  cctp_token_messenger_v2, u128_limit,
}
use boltz_client.Crates.{Crates, Address, Bytes32}
use boltz_client.Errors.{Result, ok, err, generic, invalid_quote, ◌>>=◌, ensure}
use boltz_client.Models.{BoltzSwap}
use boltz_client.Models.Destinations.{NetworkTransport, evm, solana, tron}
use boltz_client.Calls.{Call, ClaimCall, CctpData, execute_cctp, hash_cctp_data}
use boltz_client.Contracts.{parse_address}
use boltz_client.Signing.{sign_eip712_router_claim_cctp}
use boltz_client.BridgeFees.{CctpFee, compute_total_fee, add_fee_buffer}
use boltz_client.Quotes.{ParsedQuote}
use boltz_client.Cctp.{solana_mint_recipient, mint_recipient, cctp_forward_hook, fee_of_reply}
use boltz_client.World.{Executor}
use boltz_client.World.Action.{M, pure, ◌>?>◌, ask}
use boltz_client.Claim.Build.{
  ClaimInput, amount_u128, gas_signer, erc20_signature, erc20_claim, nonzero_floor, best_quote_in,
  routed_calls,
}

unfoldable pub cctp_needs_recipient_setup :
    Executor → NetworkTransport → (destination : String) → M (Result Bool)
cctp_needs_recipient_setup x solana destination =
    pure (solana_mint_recipient x.crates destination) >?> λ ata.
    ask (λ n. x.outside.account_exists n (x.crates.bs58_encode ata)) >?> λ exists.
    pure (ok (not exists))
cctp_needs_recipient_setup x evm destination = pure (ok false)
cctp_needs_recipient_setup x tron destination = pure (ok false)

-- `CctpFeeClient::get_fee`, as both callers in swap/reverse.rs ask it.
unfoldable pub get_fee : Executor → (domain : ℕ) → (setup : Bool) → M (Result CctpFee)
get_fee x domain setup =
    ask (λ n. fee_of_reply (x.outside.iris_fees n cctp_arbitrum_domain domain setup))

unfoldable pub nonzero_usdc : ParsedQuote → Result (Unit {0})
nonzero_usdc best = ensure (not (best.amount == 0)) (invalid_quote "DEX quote returned zero USDC")

-- The cap on the burn's fee.
unfoldable pub buffered_fee : (quoted_usdc : ℕ) → CctpFee → ℕ
buffered_fee quoted_usdc fee =
    add_fee_buffer (compute_total_fee quoted_usdc fee.bps_units fee.forward_fee)

-- The least burn, of which the floor remains when the whole fee cap is taken.
unfoldable pub min_burn :
    BoltzSwap → (skip_drift_check : Bool) → (quoted_usdc max_fee : ℕ) → Result ℕ
min_burn swap skip_drift_check quoted_usdc max_fee = do
  delivered_floor ←
      nonzero_floor "Amount too small: slippage-adjusted minimum is zero" swap skip_drift_check
        (quoted_usdc - max_fee)
  if ltb (delivered_floor + max_fee) u128_limit
      then ok (delivered_floor + max_fee)
      else err (generic "CCTP min amount overflow")

unfoldable pub cctp_data_of :
    Crates
    → BoltzSwap
    → (domain : ℕ) → NetworkTransport
    → (needs_recipient_setup : Bool) → (max_fee : ℕ) → Result (Address × CctpData)
cctp_data_of c swap domain transport needs_recipient_setup max_fee = do
  token_messenger ← parse_address c cctp_token_messenger_v2
  recipient ← mint_recipient c transport swap.destination_address
  hook_data ← cctp_forward_hook c swap.destination_address needs_recipient_setup
  ok (
    token_messenger,
    record {
      destination_domain = domain;
      mint_recipient = recipient;
      destination_caller = replicate 32 0;
      max_fee = max_fee;
      min_finality_threshold = cctp_finality_fast;
      hook_data = hook_data;
    },
  )

unfoldable pub signed_cctp :
    Crates
    → BoltzSwap
    → ClaimInput
    → List Call
    → (token_messenger : Address) → CctpData
    → (typehash : Bytes32) → (min_amount : ℕ) → Result ClaimCall
signed_cctp c swap i calls token_messenger cctp_data typehash min_amount = do
  signature ← erc20_signature c swap i
  authorization ←
      sign_eip712_router_claim_cctp c (gas_signer swap i) i.addrs.router i.preimage
        i.addrs.output_token_address token_messenger (hash_cctp_data c typehash cctp_data)
        min_amount
  ok (
      execute_cctp (erc20_claim swap i signature) calls i.addrs.output_token_address token_messenger
        cctp_data (record { min_amount = min_amount; signature = authorization }))

unfoldable pub cctp_call :
    Executor → BoltzSwap → ClaimInput → (domain : ℕ) → NetworkTransport → M (Result ClaimCall)
cctp_call x swap i domain transport = pure (amount_u128 i.amount) >?> λ amount_in.
    best_quote_in x arbitrum_tbtc_address arbitrum_usdc_address amount_in >?> λ best.
    pure (nonzero_usdc best) >?> λ _.
    cctp_needs_recipient_setup x transport swap.destination_address >?> λ setup.
    get_fee x domain setup >?> λ fee.
    let max_fee = buffered_fee best.amount fee in
    pure (min_burn swap i.skip_drift_check best.amount max_fee) >?> λ min_amount.
    routed_calls x i.addrs.router amount_in min_amount best.detail >?> λ calls.
    pure (cctp_data_of x.crates swap domain transport setup max_fee) >?> λ bridge.
    ask (λ n. x.outside.typehash_cctp_data n swap.router_address) >?> λ typehash.
    pure (signed_cctp x.crates swap i calls bridge.0 bridge.1 typehash min_amount)
