-- ===== src/Prepare/Quote.antt =====
-- The quotes that the preparation of a swap asks for, in crates/lib/src/swap/reverse.rs.
use boltz_client.Prelude.{ℕ, ◌/◌, String, Option, none, some, ltb, leb, ◌==◌, if◌then◌else◌}
use boltz_client.Config.{
  u64_limit, sats_to_tbtc_factor, arbitrum_tbtc_address, arbitrum_usdt_address, zero_address,
}
use boltz_client.Errors.{Result, ok, err, api, generic, invalid_quote, ◌>>=◌, ◌>>◌, ensure, ok_or}
use boltz_client.Models.Destinations.{NetworkTransport}
use boltz_client.BridgeFees.{CctpFee}
use boltz_client.Outside.{ReversePairInfo}
use boltz_client.Quotes.{ParsedQuote}
use boltz_client.Claim.Build.{best_quote_in, best_quote_out}
use boltz_client.Claim.Cctp.{cctp_needs_recipient_setup, get_fee}
use boltz_client.World.{Executor}
use boltz_client.World.Action.{M, pure, ◌>?>◌, ask}

pair_in : Option (String → Option ReversePairInfo) → Option ReversePairInfo
pair_in none = none
pair_in (some pairs) = pairs "TBTC"

unfoldable pub valid_pair :
    (String → Option (String → Option ReversePairInfo)) → Result ReversePairInfo
unfolding pair_in
valid_pair pairs = do
  pair ←
      ok_or (pair_in (pairs "BTC"))
        (api "BTC/TBTC pair not found. Is referral header configured?" none)
  ensure (leb pair.limits.minimal pair.limits.maximal) (api "Invalid pair limits" none)
  ok pair

unfoldable pub fetch_tbtc_pair : Executor → M (Result ReversePairInfo)
fetch_tbtc_pair x = ask x.outside.get_reverse_swap_pairs >?> λ pairs. pure (valid_pair pairs)

-- The amount of a quote, which must not be zero.
unfoldable pub nonzero_quote : (reason : String) → ParsedQuote → Result ℕ
nonzero_quote reason quote =
    if quote.amount == 0 then err (invalid_quote reason) else ok quote.amount

unfoldable pub fetch_quote_out_tbtc_for_token :
    Executor → (amount : ℕ) → (token : String) → M (Result ℕ)
fetch_quote_out_tbtc_for_token x amount token =
    best_quote_out x arbitrum_tbtc_address token amount >?> λ quote.
    pure (nonzero_quote "DEX quote returned zero tBTC" quote)

unfoldable pub fetch_quote_out_tbtc : Executor → (usdt_amount : ℕ) → M (Result ℕ)
fetch_quote_out_tbtc x usdt_amount =
    best_quote_out x arbitrum_tbtc_address arbitrum_usdt_address usdt_amount >?> λ quote.
    pure (nonzero_quote "DEX quote returned zero tBTC" quote)

unfoldable pub fetch_quote_out_tbtc_for_eth : Executor → (eth_amount : ℕ) → M (Result ℕ)
fetch_quote_out_tbtc_for_eth x eth_amount =
    best_quote_out x arbitrum_tbtc_address zero_address eth_amount >?> λ quote.
    pure (nonzero_quote "DEX quote returned zero tBTC for ETH" quote)

unfoldable pub fetch_quote_in_for_token :
    Executor → (tbtc_evm_units : ℕ) → (token_out : String) → M (Result ℕ)
fetch_quote_in_for_token x tbtc_evm_units token_out =
    best_quote_in x arbitrum_tbtc_address token_out tbtc_evm_units >?> λ quote.
    pure (nonzero_quote "DEX quote returned zero output" quote)

-- `u64::try_from`.
unfoldable pub u64_or : (reason : String) → ℕ → Result ℕ
u64_or reason n = if ltb n u64_limit then ok n else err (generic reason)

unfoldable pub fetch_quote_in_usdt : Executor → (tbtc_evm_units : ℕ) → M (Result ℕ)
fetch_quote_in_usdt x tbtc_evm_units =
    best_quote_in x arbitrum_tbtc_address arbitrum_usdt_address tbtc_evm_units >?> λ quote.
    pure (nonzero_quote "DEX quote returned zero USDT" quote) >?> λ amount.
    pure (u64_or "USDT amount overflow" amount)

unfoldable pub tbtc_wei_to_sats_u64 : (tbtc_wei : ℕ) → Result ℕ
unfolding u64_or
tbtc_wei_to_sats_u64 tbtc_wei = u64_or "tBTC sats overflow" (tbtc_wei / sats_to_tbtc_factor)

unfoldable pub cctp_prepare_fee :
    Executor → NetworkTransport → (destination : String) → (domain : ℕ) → M (Result CctpFee)
cctp_prepare_fee x transport destination domain =
    cctp_needs_recipient_setup x transport destination >?> λ setup. get_fee x domain setup

-- The tBTC sats that pay for a message.
unfoldable pub message_sats : Executor → (native_fee : ℕ) → M (Result ℕ)
message_sats x native_fee =
    if native_fee == 0
    then pure (ok 0)
    else fetch_quote_out_tbtc_for_eth x native_fee >?> λ wei. pure (tbtc_wei_to_sats_u64 wei)
