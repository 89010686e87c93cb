-- ===== src/Registry.antt =====
-- crates/lib/src/evm/oft.rs: the registry of destinations, from the USDT0 deployments feed after its JSON.
pub mod CctpTable
pub mod Pinned
use boltz_client.Prelude.{
  ℕ, String, Bool, true, false, ◌&&◌, ◌||◌, not, Option, none, some, List, [], ◌∷◌, ◌++◌, map, ltb,
  ◌==◌, same_text, eq_ignore_ascii_case, from_str_radix, if◌then◌else◌,
}
use boltz_client.Config.{
  u32_limit, arbitrum_usdc_address, arbitrum_usdt_address, arbitrum_usdt0_native_oft,
  arbitrum_usdt0_legacy_oft,
}
use boltz_client.Crates.{Crates}
use boltz_client.Errors.{Result, ok, err, api, generic, ensure, ok_or, ◌>>=◌, ◌>>◌}
use boltz_client.Models.Destinations.{
  NetworkTransport, Usdt0Kind, Asset, usdt, usdt0, usdc, Bridge, Destination, DestinationRegistry,
  same_asset,
}
use boltz_client.World.Store.{contains}
use CctpTable.{CctpDestination, cctp_destinations}

-- `OftApiContract`, `OftApiChain` and `OftTokenConfig`.
pub record OftApiContract : Type 0 where
  pub name : String
  pub address : String

pub record OftApiChain : Type 0 where
  pub name : String
  pub chain_id : Option ℕ  -- u32
  pub lz_eid : Option String
  pub contracts : List OftApiContract

pub record OftTokenConfig : Type 0 where
  pub native : List OftApiChain
  pub legacy_mesh : List OftApiChain

pub record ResolvedOftInfo : Type 0 where
  pub lz_eid : ℕ
  pub oft_address : String
  pub token_address : Option String

unfoldable pub find_contract : (name : String) → List OftApiContract → Option OftApiContract
find_contract name [] = none
find_contract name (c ∷ contracts) =
    if same_text c.name name then some c else find_contract name contracts

-- `find_map` over the names in their order.
unfoldable pub find_named : (names : List String) → List OftApiContract → Option OftApiContract
unfolding find_contract
find_named [] contracts = none
find_named (name ∷ names) contracts = elim (find_contract name contracts) [
  | some c ↦ some c
  | none ↦ find_named names contracts
]

unfoldable pub find_primary_contract : List OftApiContract → Option OftApiContract
unfolding find_named
find_primary_contract contracts = find_named ("OFT" ∷ "OFT Adapter" ∷ "OFT Program" ∷ []) contracts

address_of : Option OftApiContract → Option String
address_of none = none
address_of (some c) = some c.address

unfoldable pub find_token_address : List OftApiContract → Option String
unfolding address_of find_contract
find_token_address contracts = address_of (find_contract "Token" contracts)

parsed_eid : Option String → Option ℕ
parsed_eid none = none
parsed_eid (some text) = from_str_radix 10 u32_limit text

with_contract : OftApiChain → (lz_eid : ℕ) → Option OftApiContract → Option ResolvedOftInfo
with_contract entry lz_eid none = none
with_contract entry lz_eid (some contract) = some (record {
  lz_eid = lz_eid;
  oft_address = contract.address;
  token_address = find_token_address entry.contracts;
})

with_eid : OftApiChain → Option ℕ → Option ResolvedOftInfo
unfolding with_contract
with_eid entry none = none
with_eid entry (some lz_eid) = with_contract entry lz_eid (find_primary_contract entry.contracts)

unfoldable pub resolve_chain_info : OftApiChain → Option ResolvedOftInfo
unfolding with_eid parsed_eid
resolve_chain_info entry = with_eid entry (parsed_eid entry.lz_eid)

transport_by_name : (lowercase : String) → Option (NetworkTransport × Option ℕ)
transport_by_name lowercase =
    if same_text lowercase "solana"
    then some (NetworkTransport.solana, none)
    else if same_text lowercase "tron"
    then some (NetworkTransport.tron, none)
    else none

classify : Crates → (name : String) → Option ℕ → Option (NetworkTransport × Option ℕ)
unfolding transport_by_name
classify c name (some id) = some (NetworkTransport.evm, some id)
classify c name none = transport_by_name (c.to_lowercase name)

unfoldable pub classify_transport : Crates → OftApiChain → Option (NetworkTransport × Option ℕ)
unfolding classify
classify_transport c entry = classify c entry.name entry.chain_id

is_none : Option String → Bool
is_none none = true
is_none (some text) = false

unfoldable pub asset_for : (is_source : Bool) → Option String → Asset
unfolding is_none
asset_for is_source token_address = if is_source || is_none token_address then usdt else usdt0

unfoldable pub bridge_for : (is_source : Bool) → Usdt0Kind → (lz_eid : ℕ) → Bridge
bridge_for true mesh lz_eid = Bridge.direct
bridge_for false mesh lz_eid = Bridge.oft mesh lz_eid

unfoldable pub destination_with :
    OftApiChain
    → Usdt0Kind
    → (source_chain_label : String) → Option (NetworkTransport × Option ℕ)
    → Option ResolvedOftInfo
    → Option Destination
unfolding asset_for bridge_for
destination_with entry mesh source_chain_label (some (transport, evm_chain_id)) (some info) =
    let is_source = eq_ignore_ascii_case entry.name source_chain_label in
    some (record {
      chain_label = entry.name;
      asset = asset_for is_source info.token_address;
      transport = transport;
      evm_chain_id = evm_chain_id;
      dex_output_token = arbitrum_usdt_address;
      dest_token_address = info.token_address;
      bridge = bridge_for is_source mesh info.lz_eid;
    })
destination_with entry mesh source_chain_label _ _ = none

unfoldable pub build_destination :
    Crates → OftApiChain → Usdt0Kind → (source_chain_label : String) → Option Destination
unfolding destination_with
build_destination c entry mesh source_chain_label =
    destination_with entry mesh source_chain_label (classify_transport c entry)
      (resolve_chain_info entry)

-- Which chain ids and labels were seen.
pub record Seen : Type 0 where
  pub evm_chain_ids : List ℕ
  pub labels : List String

has_id : ℕ → List ℕ → Bool
has_id id [] = false
has_id id (n ∷ ids) = (n == id) || has_id id ids

id_seen : Option ℕ → Seen → Bool
unfolding has_id
id_seen none seen = false
id_seen (some id) seen = has_id id seen.evm_chain_ids

with_id : Option ℕ → Seen → Seen
with_id none seen = seen
with_id (some id) seen = record seen { evm_chain_ids = id ∷ seen.evm_chain_ids }

-- One entry of the loop over both sections: whether its destination is kept, and what was seen then.
-- An entry that only its label rules out has put its id among those that were seen.
unfoldable pub next_entry : Crates → Option Destination → Seen → Option Destination × Seen
unfolding id_seen with_id
next_entry c none seen = (none, seen)
next_entry c (some d) seen =
    let id_noted = with_id d.evm_chain_id seen in
    let label = c.to_lowercase d.chain_label in
    if id_seen d.evm_chain_id seen
    then (none, seen)
    else if contains label id_noted.labels
    then (none, id_noted)
    else (some d, record id_noted { labels = label ∷ id_noted.labels })

unfoldable pub push : Option Destination → List Destination → List Destination
push none destinations = destinations
push (some d) destinations = d ∷ destinations

unfoldable pub collect :
    Crates
    → (source_chain_label : String) → Seen
    → List (OftApiChain × Usdt0Kind)
    → List Destination
unfolding next_entry push
collect c source_chain_label seen [] = []
collect c source_chain_label seen ((entry, mesh) ∷ entries) =
    let (kept, then_seen) = next_entry c (build_destination c entry mesh source_chain_label) seen in
    push kept (collect c source_chain_label then_seen entries)

-- The two sections, native first.
unfoldable pub sections : OftTokenConfig → List (OftApiChain × Usdt0Kind)
sections config =
    map (λ (entry : OftApiChain). (entry, Usdt0Kind.native)) config.native
    ++ map (λ (entry : OftApiChain). (entry, Usdt0Kind.legacy)) config.legacy_mesh

same_id : Option ℕ → ℕ → Bool
same_id none id = false
same_id (some n) id = n == id

unfoldable pub find_chain : (id : ℕ) → List OftApiChain → Option OftApiChain
unfolding same_id
find_chain id [] = none
find_chain id (entry ∷ entries) =
    if same_id entry.chain_id id then some entry else find_chain id entries

oft_address : Option ResolvedOftInfo → Option String
oft_address none = none
oft_address (some info) = some info.oft_address

unfoldable pub oft_of : Option OftApiChain → Option String
unfolding oft_address
oft_of none = none
oft_of (some entry) = oft_address (resolve_chain_info entry)

unfoldable pub verify_pinned_source_oft :
    (feed_value : Option String) → (pinned : String) → Result (Option String)
verify_pinned_source_oft none pinned = ok none
verify_pinned_source_oft (some addr) pinned =
    if eq_ignore_ascii_case addr pinned
    then ok (some pinned)
    else err (api "USDT0 source OFT does not match the pinned Arbitrum contract" none)

unfoldable pub has_source : (source_chain_label : String) → List Destination → Bool
has_source source_chain_label [] = false
has_source source_chain_label (d ∷ destinations) =
    (same_asset d.asset usdt && eq_ignore_ascii_case d.chain_label source_chain_label)
    || has_source source_chain_label destinations

unfoldable pub cctp_entry : CctpDestination → Destination
cctp_entry d = record {
  chain_label = d.chain_label;
  asset = usdc;
  transport = d.transport;
  evm_chain_id = d.evm_chain_id;
  dex_output_token = arbitrum_usdc_address;
  dest_token_address = some d.token_address;
  bridge = Bridge.cctp d.domain;
}

unfoldable pub usdc_on_source : (label : String) → (evm_chain_id : ℕ) → Destination
usdc_on_source label evm_chain_id = record {
  chain_label = label;
  asset = usdc;
  transport = NetworkTransport.evm;
  evm_chain_id = some evm_chain_id;
  dex_output_token = arbitrum_usdc_address;
  dest_token_address = some arbitrum_usdc_address;
  bridge = Bridge.direct;
}

-- `parse_chain_registry`; the JSON is a map from token names.
unfoldable pub parse_chain_registry :
    Crates
    → (feed : Option (String → Option OftTokenConfig)) → (source_evm_chain_id : ℕ)
    → Result DestinationRegistry
parse_chain_registry c feed source_evm_chain_id = do
  registry ← ok_or feed (api "Failed to parse OFT deployments" none)
  config ← ok_or (registry "usdt0") (api "OFT token not found in deployments" none)
  ensure (ltb source_evm_chain_id u32_limit) (generic "Source chain ID exceeds u32")
  entry ←
      ok_or (find_chain source_evm_chain_id config.native)
        (api "Source chain ID not found in USDT0 native deployments" none)
  native_oft ← verify_pinned_source_oft (oft_of (some entry)) arbitrum_usdt0_native_oft
  legacy_oft ←
      verify_pinned_source_oft (oft_of (find_chain source_evm_chain_id config.legacy_mesh))
        arbitrum_usdt0_legacy_oft
  let bridged = collect c entry.name (record { evm_chain_ids = []; labels = [] }) (sections config)
  ensure (has_source entry.name bridged)
      (api "Source chain missing from USDT0 destinations after registry build" none)
  ok (record {
    source_chain_label = entry.name;
    source_evm_chain_id = source_evm_chain_id;
    source_native_oft = native_oft;
    source_legacy_oft = legacy_oft;
    destinations =
        bridged
        ++ (map cctp_entry cctp_destinations
            ++ (usdc_on_source entry.name source_evm_chain_id ∷ []));
  })
