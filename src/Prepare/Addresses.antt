-- ===== src/Prepare/Addresses.antt =====
-- The checks of a destination address in crates/lib/src/swap/reverse.rs.
use boltz_client.Prelude.{
  String, Bool, true, false, not, Option, none, some, List, [], ◌∷◌, ◌++◌, same_text, if◌then◌else◌,
}
use boltz_client.Config.{arbitrum_usdt_address, arbitrum_tbtc_address, solana_usdt0_mint}
use boltz_client.Crates.{Crates}
use boltz_client.Errors.{Result, ok, generic, ensure, ◌>>=◌, ◌>>◌}
use boltz_client.Models.Destinations.{
  NetworkTransport, evm, solana, tron, Destination, DestinationRegistry, Asset,
}
use boltz_client.Claim.Build.{resolve_destination}
use boltz_client.Recipient.{is_valid_destination_address}

-- `normalize_token_address` of evm/recipient.rs.
unfoldable pub normalize_token_address : Crates → NetworkTransport → String → String
normalize_token_address c evm addr = c.to_lowercase (c.trim addr)
normalize_token_address c solana addr = c.trim addr
normalize_token_address c tron addr = c.trim addr

-- `any(|k| normalize(k) == target)`.
unfoldable pub any_matches : Crates → NetworkTransport → (target : String) → List String → Bool
any_matches c transport target [] = false
any_matches c transport target (k ∷ known) =
    if same_text (normalize_token_address c transport k) target
    then true
    else any_matches c transport target known

unfoldable pub matches_any_known_token :
    Crates → NetworkTransport → (addr : String) → (known : List String) → Bool
unfolding any_matches
matches_any_known_token c transport addr known =
    let target = normalize_token_address c transport addr in
    if same_text target "" then false else any_matches c transport target known

unfoldable pub same_transport : NetworkTransport → NetworkTransport → Bool
same_transport evm evm = true
same_transport solana solana = true
same_transport tron tron = true
same_transport _ _ = false

unfoldable pub static_tokens : NetworkTransport → List String
static_tokens evm = arbitrum_usdt_address ∷ arbitrum_tbtc_address ∷ []
static_tokens solana = solana_usdt0_mint ∷ []
static_tokens tron = []

pushed : Option String → List String → List String
pushed none known = known
pushed (some token) known = token ∷ known

-- The loop over the destinations.
unfoldable pub published_tokens : NetworkTransport → List Destination → List String
unfolding same_transport pushed
published_tokens transport [] = []
published_tokens transport (d ∷ destinations) =
    let rest = published_tokens transport destinations in
    if same_transport d.transport transport then pushed d.dest_token_address rest else rest

unfoldable pub is_known_token_address :
    Crates → DestinationRegistry → NetworkTransport → (addr : String) → Bool
unfolding matches_any_known_token static_tokens published_tokens
is_known_token_address c registry transport addr =
    matches_any_known_token c transport addr
      (static_tokens transport ++ published_tokens transport registry.destinations)

unfoldable pub validate_destination :
    Crates → DestinationRegistry → Destination → (destination : String) → Result (Unit {0})
validate_destination c registry dest destination =
    ensure (is_valid_destination_address c dest.transport destination)
      (generic "Invalid destination address")
    >> ensure (not (is_known_token_address c registry dest.transport destination))
        (generic "Destination is a known token contract address; sending there would burn funds")

-- The destination of a chain and an asset, and the address on it.
unfoldable pub checked_destination :
    Crates
    → DestinationRegistry
    → (chain : String) → Asset
    → (destination : String) → Result Destination
checked_destination c registry chain asset destination = do
  dest ← resolve_destination registry chain asset
  validate_destination c registry dest destination
  ok dest
