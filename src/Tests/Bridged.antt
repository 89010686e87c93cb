-- ===== src/Tests/Bridged.antt =====
-- The calls of a claim, the search for the amount to send over an OFT, and the registry, at concrete inputs.
use boltz_client.Prelude.{
  from_str_radix, ℕ, ◌-◌, ◌/◌, ◌≡◌, refl, String, Option, none, some, [], ◌∷◌, if◌then◌else◌, ltb,
  false, same_text, arith,
}
use boltz_client.Config.{arbitrum_usdt0_native_oft}
use boltz_client.Errors.{Result, ok, err}
use boltz_client.Models.Lifecycle.{claiming}
use boltz_client.Models.Destinations.{
  same_asset, BridgeKind, Bridge, Destination, DestinationRegistry, Usdt0Kind, usdt0, evm, oft_for,
}
use boltz_client.Calls.{build_oft_send_param}
use boltz_client.World.{Executor}
use boltz_client.Claim.{claim_and_swap}
use boltz_client.Claim.Promise.{Honours, SentSince, claim_and_swap-Honours}
use boltz_client.OftSearch.{estimate_oft_required_send_amount}
use boltz_client.OftSearch.Least.{Lossy, Least, Reachable, Gives, doubling}
use boltz_client.OftSearch.Required.{Answering, estimate_oft_required_send_amount-Least}
use boltz_client.Registry.{
  classify_transport, build_destination, sections, collect, has_source, find_primary_contract,
  resolve_chain_info, oft_of, verify_pinned_source_oft, find_chain, OftApiChain, OftTokenConfig,
  parse_chain_registry,
}
use boltz_client.Registry.Pinned.{Pinned, parse_chain_registry-Pinned}
use boltz_client.World.Store.{contains}
use boltz_client.Tests.Fixtures.{executor, crates, outside, registry, swap_in, world_of}

claim_and_swap-Honours_example :
    SentSince
      (Honours executor (swap_in claiming BridgeKind.direct) false)
      (world_of (swap_in claiming BridgeKind.direct))
      (claim_and_swap executor
        (swap_in claiming BridgeKind.direct)
        false
        (world_of (swap_in claiming BridgeKind.direct))).1
claim_and_swap-Honours_example =
    claim_and_swap-Honours executor (swap_in claiming BridgeKind.direct) false
      (world_of (swap_in claiming BridgeKind.direct))

-- An OFT that keeps a tenth and pays out 900000 at most.
abbrev arriving : ℕ → ℕ
arriving a = if ltb a 1_000_000 then a - a / 10 else 900_000

arriving-Lossy : Lossy arriving
arriving-Lossy = record { monotone = λ a b h. ground (arith, h); no_gain = λ a. ground arith }

abbrev oft_executor : Executor
oft_executor = record executor {
  registry = record registry { source_native_oft = some "0xoft" };
  outside = record outside {
    quote_oft = λ n oft param. ok (
      record { min_amount_ld = 0; max_amount_ld = 10_000 },
      record { amount_sent_ld = param.amount_ld; amount_received_ld = arriving param.amount_ld },
    );
  };
}

abbrev berachain : Destination
berachain = record {
  chain_label = "Berachain";
  asset = usdt0;
  transport = evm;
  evm_chain_id = some 80094;
  dex_output_token = "0xusdt";
  dest_token_address = some "0xusdt0";
  bridge = Bridge.oft Usdt0Kind.native 30362;
}

deployed : oft_for oft_executor.registry Usdt0Kind.native ≡ some "0xoft"
unfolding oft_for
deployed = refl

oft_answers : Answering oft_executor "0xoft" 30362 [] arriving
unfolding build_oft_send_param
oft_answers = record {
  limit = record { min_amount_ld = 0; max_amount_ld = 10_000 };
  quote = λ n a. refl;
  native_fee = 5;
  lz_token_fee = 0;
  fee = λ n a. refl;
  small_fee = omega arith;
  small = λ a. ground arith;
}

doubled_enough : Reachable arriving 100_000 33 100_000
unfolding doubling
doubled_enough = record { times = 1; soon = omega arith; fits = omega arith; enough = omega arith }

estimate_oft_required_send_amount-Least_example :
    Gives
      (estimate_oft_required_send_amount oft_executor berachain 100_000 [])
      (world_of (swap_in claiming BridgeKind.oft))
      (Least arriving 100_000)
estimate_oft_required_send_amount-Least_example =
    estimate_oft_required_send_amount-Least oft_executor berachain [] "0xoft" 30362 arriving refl
      deployed oft_answers arriving-Lossy 100_000 (omega arith) doubled_enough
      (world_of (swap_in claiming BridgeKind.oft))

abbrev arbitrum : OftApiChain
arbitrum = record {
  name = "Arbitrum One";
  chain_id = some 42161;
  lz_eid = some "30110";
  contracts = record { name = "OFT"; address = arbitrum_usdt0_native_oft } ∷ [];
}

abbrev polygon : OftApiChain
polygon = record {
  name = "Polygon PoS";
  chain_id = some 137;
  lz_eid = some "30109";
  contracts =
      record { name = "Token"; address = "0xusdt0" }
      ∷ record { name = "OFT Adapter"; address = "0xadapter" }
      ∷ [];
}

abbrev feed : Option (String → Option OftTokenConfig)
feed = some (λ token.
    if same_text token "usdt0"
    then some (record { native = arbitrum ∷ polygon ∷ []; legacy_mesh = [] })
    else none)

abbrev built_registry : Result DestinationRegistry → DestinationRegistry
built_registry (ok built) = built
built_registry (err e) = registry

registry_built :
    parse_chain_registry crates feed 42161
    ≡ ok (built_registry (parse_chain_registry crates feed 42161))
unfolding parse_chain_registry find_chain verify_pinned_source_oft oft_of resolve_chain_info
    from_str_radix find_primary_contract has_source collect sections build_destination
    classify_transport contains same_asset
registry_built = refl

parse_chain_registry-Pinned_example :
    Pinned (built_registry (parse_chain_registry crates feed 42161))
parse_chain_registry-Pinned_example = parse_chain_registry-Pinned crates feed 42161 registry_built
