-- ===== src/Tests/Creation.antt =====
-- The quotes, the creation and the secrets of a swap, at concrete inputs.
use boltz_client.Prelude.{from_str_radix, ◌≡◌, refl, none, some, [], ◌∷◌, arith}
use boltz_client.Errors.{ok}
use boltz_client.Models.{BoltzSwap, derived, stored}
use boltz_client.Models.Lifecycle.{created}
use boltz_client.Models.Destinations.{kind, find, BridgeKind, usdt}
use boltz_client.World.{World}
use boltz_client.World.Effects.{Said}
use boltz_client.Prepare.{
  delivered_output, prepared_with, within_limits, evm_units, total_tbtc_sats, PreparedSwap, Wanted,
  prepare, prepare_from_sats,
}
use boltz_client.Prepare.Accepted.{Acceptable, prepare-Acceptable, prepare_from_sats-Acceptable}
use boltz_client.Create.{
  swap_of, check_invoice, check_lockup, check_onchain, validate_swap_id, accept_response,
  created_or, not_expired, create, create_reverse_swap,
}
use boltz_client.Create.Accepted.{Created, create-Created}
use boltz_client.Create.Stored.{Outcome, create_reverse_swap-Outcome}
use boltz_client.World.Action.{ask, pure, ◌>>=◌}
use boltz_client.Slippage.{resolve_slippage_bps}
use boltz_client.Prepare.Addresses.{
  normalize_token_address, is_known_token_address, validate_destination, checked_destination,
}
use boltz_client.Claim.Build.{best_quote_in, best_quote_out, resolve_destination}
use boltz_client.Recipient.{is_valid_destination_address}
use boltz_client.Contracts.{parse_address}
use boltz_client.Prepare.Quote.{
  u64_or, fetch_quote_in_for_token, tbtc_wei_to_sats_u64, nonzero_quote, valid_pair,
  fetch_tbtc_pair, fetch_quote_out_tbtc_for_token,
}
use boltz_client.Quotes.{pick_best_quote_with_data}
use boltz_client.Fees.{compute_invoice_amount, compute_onchain_amount}
use boltz_client.Secrets.{IssuedSecrets}
use boltz_client.Secrets.Providers.{
  to_chain_id_u32, issue_derived, derived_provider, issue_random, random_provider,
}
use boltz_client.Secrets.Issued.{FoundAgain, issue_derived-FoundAgain, issue_random-FoundAgain}
use boltz_client.Claim.{ensure_timeout_margin}
use boltz_client.Keys.{
  from_private_key_bytes, address_hex, from_signing_key, derive_gas_signer, derive_preimage_hash,
}
use boltz_client.Tests.Fixtures.{executor, crates, swap_in, zeros}

abbrev empty_world : World
empty_world = record {
  rows = [];
  events = [];
  ata_cache = [];
  tracked = [];
  subscribed = [];
  sent = [];
  calls = 0;
}

abbrev wish : Wanted
wish = record {
  destination = "0xuser";
  chain = "Arbitrum One";
  asset = usdt;
  max_slippage_bps = none;
}

abbrev delivering_1000 : PreparedSwap
delivering_1000 = record {
  destination_address = "0xuser";
  destination_chain = "Arbitrum One";
  asset = usdt;
  bridge_kind = BridgeKind.direct;
  output_amount = 1000;
  invoice_amount_sats = 100_281;
  boltz_fee_sats = 251;
  estimated_onchain_amount = 100_000;
  slippage_bps = 100;
  pair_hash = "pair";
  expires_at = 1062;
}

delivering_1000_quoted : Said (prepare executor wish 1000) (ok delivering_1000)
unfolding prepare ◌>>=◌ pure resolve_slippage_bps checked_destination resolve_destination find
    validate_destination is_valid_destination_address parse_address is_known_token_address
    normalize_token_address total_tbtc_sats fetch_quote_out_tbtc_for_token best_quote_out ask
    pick_best_quote_with_data from_str_radix evm_units prepare_from_sats fetch_tbtc_pair valid_pair
    within_limits compute_onchain_amount nonzero_quote tbtc_wei_to_sats_u64 compute_invoice_amount
    prepared_with kind
delivering_1000_quoted = record { from = empty_world; gives = refl }

prepare-Acceptable_example :
    Acceptable executor wish delivering_1000 × (delivering_1000.output_amount ≡ 1000)
prepare-Acceptable_example = prepare-Acceptable executor wish 1000 delivering_1000_quoted

abbrev paying_100_300 : PreparedSwap
paying_100_300 = record {
  destination_address = "0xuser";
  destination_chain = "Arbitrum One";
  asset = usdt;
  bridge_kind = BridgeKind.direct;
  output_amount = 995;
  invoice_amount_sats = 100_300;
  boltz_fee_sats = 251;
  estimated_onchain_amount = 100_019;
  slippage_bps = 100;
  pair_hash = "pair";
  expires_at = 1062;
}

paying_100_300_quoted : Said (prepare_from_sats executor wish 100_300) (ok paying_100_300)
unfolding prepare_from_sats ◌>>=◌ pure resolve_slippage_bps checked_destination resolve_destination
    find validate_destination is_valid_destination_address parse_address is_known_token_address
    normalize_token_address fetch_tbtc_pair ask valid_pair within_limits compute_onchain_amount
    evm_units delivered_output fetch_quote_in_for_token best_quote_in pick_best_quote_with_data
    from_str_radix nonzero_quote u64_or prepared_with kind
paying_100_300_quoted = record { from = empty_world; gives = refl }

prepare_from_sats-Acceptable_example :
    Acceptable executor wish paying_100_300 × (paying_100_300.invoice_amount_sats ≡ 100_300)
prepare_from_sats-Acceptable_example =
    prepare_from_sats-Acceptable executor wish 100_300 paying_100_300_quoted

abbrev accepted_swap : BoltzSwap
accepted_swap = record (swap_in created BridgeKind.direct) {
  key_source = derived 1;
  router_address = "0x182589d2A10384e12EE8C1Fe350F4dfba36C7b73";
  onchain_amount = 100_100;
  expected_output_amount = 995;
  bridge_ref = none;
  created_at = 1004;
  updated_at = 1004;
}

accepted : Said (create executor paying_100_300) (ok accepted_swap)
unfolding create ◌>>=◌ pure not_expired ask checked_destination resolve_destination find
    validate_destination is_valid_destination_address parse_address is_known_token_address
    normalize_token_address resolve_slippage_bps to_chain_id_u32 created_or accept_response
    validate_swap_id check_onchain check_lockup check_invoice ensure_timeout_margin swap_of
accepted = record { from = empty_world; gives = refl }

create-Created_example : Created executor paying_100_300 accepted_swap
create-Created_example = create-Created executor paying_100_300 accepted

create_reverse_swap-Outcome_example :
    Outcome executor paying_100_300 empty_world
      (create_reverse_swap executor paying_100_300 empty_world).1
      (create_reverse_swap executor paying_100_300 empty_world).0
create_reverse_swap-Outcome_example =
    create_reverse_swap-Outcome executor paying_100_300 empty_world

abbrev from_seed : IssuedSecrets
from_seed = record {
  key_source = derived 7;
  preimage_hash = 7 ∷ 0 ∷ 0 ∷ 42161 ∷ 44 ∷ 1 ∷ [];
  claim_public_key = 2 ∷ 7 ∷ 0 ∷ 0 ∷ 42161 ∷ 44 ∷ 1 ∷ [];
  claim_address = "0x00";
}

issued_from_seed : issue_derived crates (1 ∷ []) (λ n. ok 7) 0 42161 ≡ ok from_seed
unfolding issue_derived derive_preimage_hash derive_gas_signer from_signing_key address_hex
    issue_random from_private_key_bytes
issued_from_seed = refl

issue_derived-FoundAgain_example :
    FoundAgain crates
      (derived_provider crates (1 ∷ []) (λ n. ok 7))
      from_seed
      (record accepted_swap { key_source = derived 7 })
issue_derived-FoundAgain_example =
    issue_derived-FoundAgain crates (1 ∷ []) (λ n. ok 7) 0
      (record accepted_swap { key_source = derived 7 }) (omega arith) refl issued_from_seed

abbrev at_random : IssuedSecrets
at_random = record {
  key_source = stored (record { preimage = zeros 32; gas_key = zeros 32 });
  preimage_hash = zeros 32;
  claim_public_key = 2 ∷ zeros 32;
  claim_address = "0x00";
}

issued_at_random :
    issue_random crates (λ n. some (zeros 32)) (λ n. some (zeros 32)) 0 42161 ≡ ok at_random
unfolding issue_random from_private_key_bytes address_hex
issued_at_random = refl

issue_random-FoundAgain_example :
    FoundAgain crates
      (random_provider crates (λ n. some (zeros 32)) (λ n. some (zeros 32)))
      at_random
      (record accepted_swap { key_source = at_random.key_source })
issue_random-FoundAgain_example =
    issue_random-FoundAgain crates (λ n. some (zeros 32)) (λ n. some (zeros 32)) 0
      (record accepted_swap { key_source = at_random.key_source }) refl issued_at_random
