-- ===== src/Claim/Direct.antt =====
-- `try_claim_same_chain` of crates/lib/src/swap/reverse.rs, up to the submission: claim, swap on the DEX,
-- and sweep the output to the destination.
use boltz_client.Prelude.{ℕ, Bool, not, List, ◌==◌}
use boltz_client.Config.{arbitrum_tbtc_address}
use boltz_client.Crates.{Crates}
use boltz_client.Errors.{Result, ok, generic, invalid_quote, ◌>>=◌, ◌>>◌, ensure, ok_or}
use boltz_client.Models.{BoltzSwap}
use boltz_client.Calls.{Call, ClaimCall, execute}
use boltz_client.Signing.{sign_eip712_router_claim}
use boltz_client.Quotes.{ParsedQuote}
use boltz_client.World.{Executor}
use boltz_client.World.Action.{M, pure, ◌>?>◌}
use boltz_client.Claim.Build.{
  ClaimInput, amount_u128, gas_signer, erc20_signature, erc20_claim, nonzero_floor, best_quote_in,
  routed_calls,
}

-- The least output that the claim signs for.
unfoldable pub priced_quote : BoltzSwap → (skip_drift_check : Bool) → ParsedQuote → Result ℕ
priced_quote swap skip_drift_check best = do
  ensure (not (best.amount == 0)) (invalid_quote "DEX quote returned zero output")
  nonzero_floor "Amount too small: slippage-adjusted minimum is zero" swap skip_drift_check
      best.amount

unfoldable pub signed_direct :
    Crates → BoltzSwap → ClaimInput → (min_amount_out : ℕ) → List Call → Result ClaimCall
signed_direct c swap i min_amount_out calls = do
  destination ←
      ok_or i.addrs.destination_evm (generic "Same-chain claim requires an EVM destination address")
  signature ← erc20_signature c swap i
  authorization ←
      sign_eip712_router_claim c (gas_signer swap i) i.addrs.router i.preimage
        i.addrs.output_token_address min_amount_out destination
  ok (
      execute (erc20_claim swap i signature) calls i.addrs.output_token_address min_amount_out
        destination authorization)

unfoldable pub same_chain_call : Executor → BoltzSwap → ClaimInput → M (Result ClaimCall)
same_chain_call x swap i = pure (amount_u128 i.amount) >?> λ amount_in.
    best_quote_in x arbitrum_tbtc_address i.addrs.output_token amount_in >?> λ best.
    pure (priced_quote swap i.skip_drift_check best) >?> λ min_amount_out.
    routed_calls x i.addrs.router amount_in min_amount_out best.detail >?> λ calls.
    pure (signed_direct x.crates swap i min_amount_out calls)
