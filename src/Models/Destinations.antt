-- ===== src/Models/Destinations.antt =====
-- Assets, bridges, and the registry of destinations of crates/lib/src/models.rs.
use boltz_client.Prelude.{
  ℕ, String, Bool, true, false, ◌&&◌, Option, none, some, List, [], ◌∷◌, if◌then◌else◌,
  eq_ignore_ascii_case, same_codes, map, codes, to_upper,
}

pub data NetworkTransport : Type 0 where
  evm solana tron : NetworkTransport

pub data Usdt0Kind : Type 0 where
  native legacy : Usdt0Kind

pub data Asset : Type 0 where
  usdt usdt0 usdc : Asset

unfoldable pub as_str : Asset → String
as_str usdt = "USDT"
as_str usdt0 = "USDT0"
as_str usdc = "USDC"

-- `Asset::try_from(&str)`: `none` stands for `Err(())`.
unfoldable pub asset_of : String → Option Asset
asset_of ticker =
    let name = map to_upper (codes ticker) in
    if same_codes name (codes "USDT")
    then some usdt
    else if same_codes name (codes "USDT0")
    then some usdt0
    else if same_codes name (codes "USDC")
    then some usdc
    else none

pub data BridgeKind : Type 0 where
  direct oft cctp : BridgeKind

pub data Bridge : Type 0 where
  direct : Bridge
  oft : (mesh : Usdt0Kind) (lz_eid : ℕ) → Bridge
  cctp : (domain : ℕ) → Bridge

unfoldable pub kind : Bridge → BridgeKind
kind Bridge.direct = BridgeKind.direct
kind (Bridge.oft mesh lz_eid) = BridgeKind.oft
kind (Bridge.cctp domain) = BridgeKind.cctp

pub record Destination : Type 0 where
  pub chain_label : String
  pub asset : Asset
  pub transport : NetworkTransport
  pub evm_chain_id : Option ℕ
  pub dex_output_token : String
  pub dest_token_address : Option String
  pub bridge : Bridge

pub record DestinationRegistry : Type 0 where
  pub source_chain_label : String
  pub source_evm_chain_id : ℕ
  pub source_native_oft : Option String
  pub source_legacy_oft : Option String
  pub destinations : List Destination

-- `==` on assets.
unfoldable pub same_asset : Asset → Asset → Bool
same_asset usdt usdt = true
same_asset usdt0 usdt0 = true
same_asset usdc usdc = true
same_asset _ _ = false

-- The test that `find` applies to a destination.
unfoldable pub is_at : String → Asset → Destination → Bool
unfolding same_asset
is_at chain asset d = same_asset d.asset asset && eq_ignore_ascii_case d.chain_label chain

-- `Iterator::find`.
unfoldable pub find_first : (Destination → Bool) → List Destination → Option Destination
find_first p [] = none
find_first p (d ∷ ds) = if p d then some d else find_first p ds

unfoldable pub find : DestinationRegistry → String → Asset → Option Destination
unfolding find_first is_at
find registry chain asset = find_first (is_at chain asset) registry.destinations

unfoldable pub oft_for : DestinationRegistry → Usdt0Kind → Option String
oft_for registry native = registry.source_native_oft
oft_for registry legacy = registry.source_legacy_oft
