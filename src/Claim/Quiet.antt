-- ===== src/Claim/Quiet.antt =====
-- Building the call of a claim of crates/lib/src/swap/reverse.rs neither writes the store nor submits it.
use boltz_client.Prelude.{ℕ, String, Bool}
use boltz_client.Crates.{Address, Bytes}
use boltz_client.Models.{BoltzSwap}
use boltz_client.Models.Destinations.{NetworkTransport, evm, solana, tron}
use boltz_client.Quotes.{ParsedQuote}
use boltz_client.World.{Executor}
use boltz_client.World.Effects.{IsQuiet, IsQuiet-ask, quiet_rules}
use boltz_client.OftQuotes.Effects.{quote_rules}
use boltz_client.Claim.Build.{ClaimInput, best_quote_in, best_quote_out, routed_calls}
use boltz_client.Claim.Direct.{same_chain_call}
use boltz_client.Claim.Cctp.{cctp_needs_recipient_setup, get_fee, cctp_call}
use boltz_client.Claim.Oft.{
  Route, first_pass, fee_quote, second_pass, oft_calls, oft_call_with, oft_call,
}

module _ (x : Executor) where
  pub IsQuiet-best_quote_in :
      (from to : String) (amount : ℕ) → IsQuiet (best_quote_in x from to amount)
  unfolding best_quote_in
  IsQuiet-best_quote_in from to amount = search (quiet_rules) depth 16

  pub IsQuiet-best_quote_out :
      (from to : String) (amount : ℕ) → IsQuiet (best_quote_out x from to amount)
  unfolding best_quote_out
  IsQuiet-best_quote_out from to amount = search (quiet_rules) depth 16

  IsQuiet-routed_calls :
      (recipient : Address) (amount_in amount_out_min : ℕ) (detail : String)
      → IsQuiet (routed_calls x recipient amount_in amount_out_min detail)
  unfolding routed_calls
  IsQuiet-routed_calls recipient amount_in amount_out_min detail = search (quiet_rules) depth 16

  pub IsQuiet-cctp_needs_recipient_setup :
      (transport : NetworkTransport) (destination : String)
      → IsQuiet (cctp_needs_recipient_setup x transport destination)
  unfolding cctp_needs_recipient_setup
  IsQuiet-cctp_needs_recipient_setup solana destination = search (quiet_rules) depth 16
  IsQuiet-cctp_needs_recipient_setup evm destination = search (quiet_rules) depth 16
  IsQuiet-cctp_needs_recipient_setup tron destination = search (quiet_rules) depth 16

  pub IsQuiet-get_fee : (domain : ℕ) (setup : Bool) → IsQuiet (get_fee x domain setup)
  unfolding get_fee
  IsQuiet-get_fee domain setup = IsQuiet-ask _

ruleset build_rules = (
  quote_rules, IsQuiet-best_quote_in, IsQuiet-best_quote_out, IsQuiet-routed_calls,
  IsQuiet-cctp_needs_recipient_setup, IsQuiet-get_fee,
)

module _ (x : Executor) (swap : BoltzSwap) (i : ClaimInput) where
  pub IsQuiet-same_chain_call : IsQuiet (same_chain_call x swap i)
  unfolding same_chain_call
  IsQuiet-same_chain_call = search (build_rules) depth 32

  pub IsQuiet-cctp_call :
      (domain : ℕ) (transport : NetworkTransport) → IsQuiet (cctp_call x swap i domain transport)
  unfolding cctp_call
  IsQuiet-cctp_call domain transport = search (build_rules) depth 48

  module _ (route : Route) (extra_options : Bytes) where
    IsQuiet-first_pass :
        (tbtc_amount : ℕ) → IsQuiet (first_pass x i route extra_options tbtc_amount)
    unfolding first_pass
    IsQuiet-first_pass tbtc_amount = search (build_rules) depth 32

    IsQuiet-second_pass :
        (trade : ParsedQuote) → IsQuiet (second_pass x swap i route extra_options trade)
    unfolding second_pass
    IsQuiet-second_pass trade = search (build_rules) depth 32

  IsQuiet-oft_calls :
      (route : Route) (trade_tbtc : ℕ) (trade fee : ParsedQuote) (native_fee : ℕ)
      → IsQuiet (oft_calls x i route trade_tbtc trade fee native_fee)
  unfolding oft_calls
  IsQuiet-oft_calls route trade_tbtc trade fee native_fee = search (build_rules) depth 32

  IsQuiet-fee_quote : (native_fee : ℕ) → IsQuiet (fee_quote x swap native_fee)
  unfolding fee_quote
  IsQuiet-fee_quote native_fee = search (build_rules) depth 32

  IsQuiet-oft_call_with :
      (route : Route) (extra_options : Bytes) (native_fee trade_tbtc : ℕ) (fee : ParsedQuote)
      → IsQuiet (oft_call_with x swap i route extra_options native_fee trade_tbtc fee)
  unfolding oft_call_with
  IsQuiet-oft_call_with route extra_options native_fee trade_tbtc fee =
      search (build_rules, IsQuiet-second_pass, IsQuiet-oft_calls) depth 48

  pub IsQuiet-oft_call : IsQuiet (oft_call x swap i)
  unfolding oft_call
  IsQuiet-oft_call =
      search (build_rules, IsQuiet-first_pass, IsQuiet-fee_quote, IsQuiet-oft_call_with) depth 48
