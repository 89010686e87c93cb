-- ===== src/Prepare.antt =====
-- `prepare` and `prepare_from_sats` of crates/lib/src/swap/reverse.rs: the quote of a swap, from the amount
-- to deliver or from the sats to pay.
pub mod Addresses
pub mod Quote
pub mod Accepted
use boltz_client.Prelude.{ℕ, ◌+◌, ◌-◌, ◌*◌, String, not, ◌||◌, Option, ltb, ◌==◌, if◌then◌else◌}
use boltz_client.Config.{u64_limit, u128_limit, sats_to_tbtc_factor}
use boltz_client.Errors.{Result, ok, err, generic, amount_out_of_range}
use boltz_client.Crates.{Bytes}
use boltz_client.Models.Destinations.{Asset, BridgeKind, Bridge, Destination, kind}
use boltz_client.Outside.{ReversePairInfo, PairLimits}
use boltz_client.Slippage.{resolve_slippage_bps}
use boltz_client.Fees.{FeeCalc, compute_invoice_amount, compute_onchain_amount}
use boltz_client.BridgeFees.{cctp_required_burn, compute_total_fee}
use boltz_client.OftQuotes.{compute_extra_options}
use boltz_client.OftSearch.{estimate_oft_required_send_amount, quote_oft_messaging_fee}
use boltz_client.World.{Executor}
use boltz_client.World.Action.{M, pure, ◌>?>◌, ask, ◌>>=◌}
use Addresses.{checked_destination}
use Quote.{
  fetch_tbtc_pair, fetch_quote_out_tbtc_for_token, fetch_quote_out_tbtc, fetch_quote_in_for_token,
  fetch_quote_in_usdt, u64_or, tbtc_wei_to_sats_u64, cctp_prepare_fee, message_sats,
}

-- `PreparedSwap` and `SwapLimits` of models.rs.
pub record PreparedSwap : Type 0 where
  pub destination_address : String
  pub destination_chain : String
  pub asset : Asset
  pub bridge_kind : BridgeKind
  pub output_amount : ℕ  -- u64
  pub invoice_amount_sats : ℕ  -- u64
  pub boltz_fee_sats : ℕ  -- u64
  pub estimated_onchain_amount : ℕ  -- u64
  pub slippage_bps : ℕ  -- u32
  pub pair_hash : String
  pub expires_at : ℕ  -- u64

pub record SwapLimits : Type 0 where
  pub min_sats : ℕ  -- u64
  pub max_sats : ℕ  -- u64

unfoldable pub get_limits : Executor → M (Result SwapLimits)
get_limits x = fetch_tbtc_pair x >?> λ pair.
    pure (ok (record { min_sats = pair.limits.minimal; max_sats = pair.limits.maximal }))

-- What the caller asks for: the destination and the slippage. The amount is given apart.
pub record Wanted : Type 0 where
  pub destination : String
  pub chain : String
  pub asset : Asset
  pub max_slippage_bps : Option ℕ

-- `saturating_add` of `u64`.
unfoldable pub expiry : (now : ℕ) → ℕ
expiry now = if ltb (now + 60) u64_limit then now + 60 else u64_limit - 1

unfoldable pub within_limits : PairLimits → (invoice_sats : ℕ) → Result (Unit {0})
within_limits limits invoice_sats =
    if ltb invoice_sats limits.minimal || ltb limits.maximal invoice_sats
    then err (amount_out_of_range invoice_sats limits.minimal limits.maximal)
    else ok tt

unfoldable pub prepared_with :
    Wanted
    → Destination
    → (slippage_bps output_amount : ℕ) → ReversePairInfo
    → FeeCalc
    → (now : ℕ) → PreparedSwap
unfolding expiry
prepared_with a dest slippage_bps output_amount pair fees now = record {
  destination_address = a.destination;
  destination_chain = a.chain;
  asset = a.asset;
  bridge_kind = kind dest.bridge;
  output_amount = output_amount;
  invoice_amount_sats = fees.invoice_sats;
  boltz_fee_sats = fees.boltz_fee_sats;
  estimated_onchain_amount = fees.onchain_sats;
  slippage_bps = slippage_bps;
  pair_hash = pair.hash;
  expires_at = expiry now;
}

unfoldable pub sum_sats : (usdt_leg message_leg : ℕ) → Result ℕ
sum_sats usdt_leg message_leg =
    if ltb (usdt_leg + message_leg) u64_limit
    then ok (usdt_leg + message_leg)
    else err (generic "tBTC sats overflow")

unfoldable pub oft_sats : Executor → Destination → Wanted → (output_amount : ℕ) → M (Result ℕ)
oft_sats x dest a output_amount = compute_extra_options x dest a.destination >?> λ extra_options.
    estimate_oft_required_send_amount x dest output_amount extra_options >?> λ required_usdt.
    quote_oft_messaging_fee x dest required_usdt extra_options >?> λ message.
    pure (u64_or "USDT amount overflow" required_usdt) >?> λ required.
    fetch_quote_out_tbtc x required >?> λ usdt_leg_wei.
    pure (tbtc_wei_to_sats_u64 usdt_leg_wei) >?> λ usdt_leg.
    message_sats x message.0 >?> λ message_leg. pure (sum_sats usdt_leg message_leg)

-- The tBTC, in sats, that the claim must bring.
unfoldable pub total_tbtc_sats :
    Executor → Destination → Wanted → (output_amount : ℕ) → Bridge → M (Result ℕ)
total_tbtc_sats x dest a output_amount (Bridge.cctp domain) =
    cctp_prepare_fee x dest.transport a.destination domain >?> λ fee.
    pure (u64_or "USDC burn amount overflow" (cctp_required_burn output_amount fee))
    >?> λ required_burn.
        fetch_quote_out_tbtc_for_token x required_burn dest.dex_output_token >?> λ wei.
        pure (tbtc_wei_to_sats_u64 wei)
total_tbtc_sats x dest a output_amount Bridge.direct =
    fetch_quote_out_tbtc_for_token x output_amount dest.dex_output_token >?> λ wei.
    pure (tbtc_wei_to_sats_u64 wei)
total_tbtc_sats x dest a output_amount (Bridge.oft mesh lz_eid) = oft_sats x dest a output_amount

unfoldable pub prepare : Executor → Wanted → (output_amount : ℕ) → M (Result PreparedSwap)
prepare x a output_amount =
    pure (resolve_slippage_bps a.max_slippage_bps x.config.slippage_bps) >?> λ slippage_bps.
    pure (checked_destination x.crates x.registry a.chain a.asset a.destination) >?> λ dest.
    total_tbtc_sats x dest a output_amount dest.bridge >?> λ tbtc_sats.
    fetch_tbtc_pair x >?> λ pair. pure (compute_invoice_amount pair.fees tbtc_sats) >?> λ fees.
    pure (within_limits pair.limits fees.invoice_sats) >?> λ _. ask x.outside.unix_time >>= λ now.
    pure (ok (prepared_with a dest slippage_bps output_amount pair fees now))

unfoldable pub evm_units : (sats : ℕ) → Result ℕ
evm_units sats =
    if ltb (sats * sats_to_tbtc_factor) u128_limit
    then ok (sats * sats_to_tbtc_factor)
    else err (generic "tBTC amount overflow")

-- What is left of the burn after its fee.
unfoldable pub delivered_usdc : (burn_usdc total_fee : ℕ) → Result ℕ
delivered_usdc burn_usdc total_fee =
    if burn_usdc - total_fee == 0
    then err (generic "Amount too small to cover the CCTP burn fee")
    else u64_or "USDC amount overflow" (burn_usdc - total_fee)

-- What is left of the on-chain sats after the message.
unfoldable pub adjusted_sats : (onchain_sats message_sats : ℕ) → Result ℕ
adjusted_sats onchain_sats message_sats =
    if ltb onchain_sats message_sats || (onchain_sats - message_sats == 0)
    then err (generic "Amount too small to cover OFT cross-chain messaging fee")
    else ok (onchain_sats - message_sats)

unfoldable pub oft_output :
    Executor → Destination → Wanted → (onchain_sats tbtc_evm_units : ℕ) → M (Result ℕ)
oft_output x dest a onchain_sats tbtc_evm_units =
    compute_extra_options x dest a.destination >?> λ extra_options.
    fetch_quote_in_usdt x tbtc_evm_units >?> λ initial_usdt.
    quote_oft_messaging_fee x dest initial_usdt extra_options >?> λ message.
    message_sats x message.0 >?> λ message_leg.
    pure (adjusted_sats onchain_sats message_leg) >?> λ adjusted.
    pure (evm_units adjusted) >?> λ adjusted_units.
    fetch_quote_in_usdt x adjusted_units >?> λ adjusted_usdt.
    quote_oft_messaging_fee x dest adjusted_usdt extra_options >?> λ delivery.
    pure (u64_or "USDT amount overflow" delivery.1)

-- The amount that the on-chain sats deliver.
unfoldable pub delivered_output :
    Executor → Destination → Wanted → (onchain_sats tbtc_evm_units : ℕ) → Bridge → M (Result ℕ)
delivered_output x dest a onchain_sats tbtc_evm_units (Bridge.cctp domain) =
    fetch_quote_in_for_token x tbtc_evm_units dest.dex_output_token >?> λ burn_usdc.
    cctp_prepare_fee x dest.transport a.destination domain >?> λ fee.
    pure (delivered_usdc burn_usdc (compute_total_fee burn_usdc fee.bps_units fee.forward_fee))
delivered_output x dest a onchain_sats tbtc_evm_units Bridge.direct =
    fetch_quote_in_for_token x tbtc_evm_units dest.dex_output_token >?> λ out.
    pure (u64_or "output amount overflow" out)
delivered_output x dest a onchain_sats tbtc_evm_units (Bridge.oft mesh lz_eid) =
    oft_output x dest a onchain_sats tbtc_evm_units

unfoldable pub prepare_from_sats :
    Executor → Wanted → (invoice_amount_sats : ℕ) → M (Result PreparedSwap)
prepare_from_sats x a invoice_amount_sats =
    pure (resolve_slippage_bps a.max_slippage_bps x.config.slippage_bps) >?> λ slippage_bps.
    pure (checked_destination x.crates x.registry a.chain a.asset a.destination) >?> λ dest.
    fetch_tbtc_pair x >?> λ pair. pure (within_limits pair.limits invoice_amount_sats) >?> λ _.
    pure (compute_onchain_amount pair.fees invoice_amount_sats) >?> λ fees.
    pure (evm_units fees.onchain_sats) >?> λ tbtc_evm_units.
    delivered_output x dest a fees.onchain_sats tbtc_evm_units dest.bridge >?> λ output.
    ask x.outside.unix_time >>= λ now. pure (
      ok (
        prepared_with a dest slippage_bps output pair
          (record fees { invoice_sats = invoice_amount_sats }) now))
