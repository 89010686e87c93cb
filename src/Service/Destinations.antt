-- ===== src/Service/Destinations.antt =====
-- The listing of destinations in crates/lib/src/lib.rs: every destination, and those that can receive at
-- an address.
use boltz_client.Prelude.{ℕ, String, Option, List, [], ◌∷◌, if◌then◌else◌}
use boltz_client.Crates.{Crates}
use boltz_client.Models.Destinations.{
  Asset, NetworkTransport, BridgeKind, Destination, DestinationRegistry, kind,
}
use boltz_client.Recipient.{is_valid_destination_address}

pub record DestinationOption : Type 0 where
  pub chain_label : String
  pub asset : Asset
  pub transport : NetworkTransport
  pub evm_chain_id : Option ℕ
  pub dest_token_address : Option String
  pub bridge_kind : BridgeKind

unfoldable pub option_of : Destination → DestinationOption
option_of dest = record {
  chain_label = dest.chain_label;
  asset = dest.asset;
  transport = dest.transport;
  evm_chain_id = dest.evm_chain_id;
  dest_token_address = dest.dest_token_address;
  bridge_kind = kind dest.bridge;
}

unfoldable pub options_of : List Destination → List DestinationOption
unfolding option_of
options_of [] = []
options_of (dest ∷ destinations) = option_of dest ∷ options_of destinations

unfoldable pub supported_destinations : DestinationRegistry → List DestinationOption
unfolding options_of
supported_destinations registry = options_of registry.destinations

unfoldable pub accepting :
    Crates → (address : String) → List DestinationOption → List DestinationOption
accepting c address [] = []
accepting c address (d ∷ options) =
    let rest = accepting c address options in
    if is_valid_destination_address c d.transport address then d ∷ rest else rest

unfoldable pub destinations_accepting :
    Crates → DestinationRegistry → (address : String) → List DestinationOption
unfolding accepting supported_destinations
destinations_accepting c registry address = accepting c address (supported_destinations registry)
