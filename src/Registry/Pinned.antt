-- ===== src/Registry/Pinned.antt =====
-- What the registry that `parse_chain_registry` of crates/lib/src/evm/oft.rs builds routes through.
use boltz_client.Prelude.{
  ℕ, ◌≡◌, refl, sym, subst, String, Bool, true, false, ◌||◌, Option, none, some, List, [], ◌∷◌,
  ◌++◌, map, ltb, ◌⊎◌, inl, All, eq_ignore_ascii_case, same_codes_refl, lower_codes, if◌then◌else◌,
  arith,
}
use boltz_client.Config.{
  u32_limit, arbitrum_usdc_address, arbitrum_usdt_address, arbitrum_usdt0_native_oft,
  arbitrum_usdt0_legacy_oft,
}
use boltz_client.Crates.{Crates}
use boltz_client.Errors.{ok, ensure, ok_or, >>=-eq-ok, ok-inj, true-ensure}
use boltz_client.Models.Destinations.{
  NetworkTransport, Usdt0Kind, usdt, usdc, Bridge, Destination, DestinationRegistry, same_asset,
  is_at, find_first, find,
}
use boltz_client.Registry.CctpTable.{CctpDestination, cctp_destinations}
use boltz_client.Registry.{
  OftApiChain, OftTokenConfig, ResolvedOftInfo, Seen, asset_for, bridge_for, destination_with,
  build_destination, classify_transport, resolve_chain_info, collect, sections, find_chain, oft_of,
  verify_pinned_source_oft, has_source, cctp_entry, usdc_on_source, parse_chain_registry,
  next_entry, push,
}

-- How a destination is reached from the source chain.
pub data Routed (label : String) (d : Destination) : Type 0 where
  on_source :
      eq_ignore_ascii_case d.chain_label label ≡ true → d.bridge ≡ Bridge.direct → Routed label d
  through_oft :
      (mesh : Usdt0Kind) (eid : ℕ)
      → eq_ignore_ascii_case d.chain_label label ≡ false
      → d.bridge ≡ Bridge.oft mesh eid
      → d.dex_output_token ≡ arbitrum_usdt_address
      → Routed label d
  through_cctp :
      (domain : ℕ)
      → d.bridge ≡ Bridge.cctp domain
      → d.asset ≡ usdc
      → d.dex_output_token ≡ arbitrum_usdc_address
      → Routed label d

pub record Pinned (registry : DestinationRegistry) : Type 0 where
  pub native_oft :
      (registry.source_native_oft ≡ none)
      ⊎ (registry.source_native_oft ≡ some arbitrum_usdt0_native_oft)
  pub legacy_oft :
      (registry.source_legacy_oft ≡ none)
      ⊎ (registry.source_legacy_oft ≡ some arbitrum_usdt0_legacy_oft)
  pub routed : All (Routed registry.source_chain_label) registry.destinations
  pub source : Destination
  pub found : find registry registry.source_chain_label usdt ≡ some source
  pub same_chain : source.bridge ≡ Bridge.direct

some-inj : {d e : Destination} → ◌≡◌ {A = Option Destination} (some d) (some e) → d ≡ e
some-inj h = cc

verify_pinned_source_oft-Pinned :
    (feed_value : Option String) (pinned : String) {oft : Option String}
    → verify_pinned_source_oft feed_value pinned ≡ ok oft
    → (oft ≡ none) ⊎ (oft ≡ some pinned)
unfolding verify_pinned_source_oft
verify_pinned_source_oft-Pinned none pinned h = inl (sym (ok-inj h))
verify_pinned_source_oft-Pinned (some addr) pinned h = ground (arith, h)

module _ (label : String) where
  Routed-built :
      (entry : OftApiChain) (mesh : Usdt0Kind) (transport : NetworkTransport) (id : Option ℕ)
      (info : ResolvedOftInfo) (is_source : Bool)
      → eq_ignore_ascii_case entry.name label ≡ is_source
      → Routed label (record {
        chain_label = entry.name;
        asset = asset_for is_source info.token_address;
        transport = transport;
        evm_chain_id = id;
        dex_output_token = arbitrum_usdt_address;
        dest_token_address = info.token_address;
        bridge = bridge_for is_source mesh info.lz_eid;
      })
  unfolding bridge_for
  Routed-built entry mesh transport id info true e = on_source e refl
  Routed-built entry mesh transport id info false e = through_oft mesh info.lz_eid e refl refl

  destination_with-Routed :
      (entry : OftApiChain) (mesh : Usdt0Kind) (t : Option (NetworkTransport × Option ℕ))
      (i : Option ResolvedOftInfo) {d : Destination}
      → destination_with entry mesh label t i ≡ some d
      → Routed label d
  unfolding destination_with
  destination_with-Routed entry mesh none i h = absurd (cc)
  destination_with-Routed entry mesh (some t) none h = absurd (cc)
  destination_with-Routed entry mesh (some (transport, id)) (some info) h =
      subst (Routed label) (some-inj h) (Routed-built entry mesh transport id info _ refl)

  module _ (c : Crates) where
    next_entry-kept :
        (o : Option Destination) (seen : Seen) {d : Destination}
        → (next_entry c o seen).0 ≡ some d
        → o ≡ some d
    unfolding next_entry
    next_entry-kept none seen h = h
    next_entry-kept (some d) seen h = ground (arith, h)

    All-push :
        (o : Option Destination) (destinations : List Destination)
        → ((d : Destination) → o ≡ some d → Routed label d)
        → All (Routed label) destinations
        → All (Routed label) (push o destinations)
    unfolding push
    All-push none destinations k all = all
    All-push (some d) destinations k all = (k d refl, all)

    collect-Routed :
        (seen : Seen) (entries : List (OftApiChain × Usdt0Kind))
        → All (Routed label) (collect c label seen entries)
    unfolding collect build_destination
    collect-Routed seen [] = tt
    collect-Routed seen ((entry, mesh) ∷ entries) =
        let built = build_destination c entry mesh label in
        All-push (next_entry c built seen).0 _
          (λ d e.
            destination_with-Routed entry mesh (classify_transport c entry)
              (resolve_chain_info entry) (next_entry-kept built seen e))
          (collect-Routed (next_entry c built seen).1 entries)

  All-cctp : (table : List CctpDestination) → All (Routed label) (map cctp_entry table)
  unfolding cctp_entry
  All-cctp [] = tt
  All-cctp (d ∷ table) = (through_cctp d.domain refl refl refl, All-cctp table)

  usdc_on_source-Routed : (id : ℕ) → Routed label (usdc_on_source label id)
  unfolding usdc_on_source
  usdc_on_source-Routed id = on_source (same_codes_refl (lower_codes label)) refl

  All-append :
      (ds es : List Destination)
      → All (Routed label) ds
      → All (Routed label) es
      → All (Routed label) (ds ++ es)
  All-append [] es p q = q
  All-append (d ∷ ds) es p q = (p.0, All-append ds es p.1 q)

  -- A destination of USDT on the source chain is reached without a bridge.
  at_source-direct :
      (d : Destination) → Routed label d → is_at label usdt d ≡ true → d.bridge ≡ Bridge.direct
  unfolding is_at same_asset
  at_source-direct d (on_source e same) h = same
  at_source-direct d (through_oft mesh eid e same token) h = absurd (ground (arith, e, h))
  at_source-direct d (through_cctp domain same asset token) h = absurd (ground (arith, asset, h))

  not_here : (b : Bool) {r : Bool} → b ≡ false → b || r ≡ true → r ≡ true
  not_here true e h = absurd (cc)
  not_here false e h = h

  module _ (d : Destination) (rest : Option Destination) where
    first_of :
        (is : Bool)
        → is_at label usdt d ≡ is
        → Routed label d
        → (is ≡ false → (x : Destination) × (rest ≡ some x) × (x.bridge ≡ Bridge.direct))
        → (x : Destination) × ◌≡◌ {A = Option Destination} (if is then some d else rest) (some x)
          × (x.bridge ≡ Bridge.direct)
    first_of true e here later = (d, refl, at_source-direct d here e)
    first_of false e here later = later refl

  has_source-found :
      (ds es : List Destination)
      → All (Routed label) ds
      → has_source label ds ≡ true
      → (x : Destination) × (find_first (is_at label usdt) (ds ++ es) ≡ some x)
        × (x.bridge ≡ Bridge.direct)
  unfolding has_source find_first is_at
  has_source-found [] es all h = absurd (cc)
  has_source-found (d ∷ ds) es all h =
      first_of d (find_first (is_at label usdt) (ds ++ es)) (is_at label usdt d) refl all.0
        (λ e. has_source-found ds es all.1 (not_here (is_at label usdt d) e h))

module _ (c : Crates) (feed : Option (String → Option OftTokenConfig)) (id : ℕ) where
  -- A registry that is built routes every destination in one of three ways: on the source chain without
  -- a bridge, elsewhere by an OFT with USDT as what the router hands over, or by CCTP with USDC. Its OFT
  -- contracts on the source chain are missing or the pinned ones, and it finds USDT on the source chain,
  -- without a bridge.
  pub parse_chain_registry-Pinned :
      {registry : DestinationRegistry}
      → parse_chain_registry c feed id ≡ ok registry
      → Pinned registry
  unfolding parse_chain_registry find
  parse_chain_registry-Pinned h =
      let nothing : Seen = record { evm_chain_ids = []; labels = [] } in
      let (tokens, _, h1) = >>=-eq-ok (ok_or feed _) _ h in
      let (config, _, h2) = >>=-eq-ok (ok_or (tokens "usdt0") _) _ h1 in
      let (_, _, h3) = >>=-eq-ok (ensure (ltb id u32_limit) _) _ h2 in
      let (entry, _, h4) = >>=-eq-ok (ok_or (find_chain id config.native) _) _ h3 in
      let (native, pinned_native, h5) =
        >>=-eq-ok (verify_pinned_source_oft (oft_of (some entry)) arbitrum_usdt0_native_oft) _ h4 in
      let (legacy, pinned_legacy, h6) =
        >>=-eq-ok
          (verify_pinned_source_oft (oft_of (find_chain id config.legacy_mesh))
            arbitrum_usdt0_legacy_oft)
          _ h5 in
      let bridged = collect c entry.name nothing (sections config) in
      let (_, sourced, h7) = >>=-eq-ok (ensure (has_source entry.name bridged) _) _ h6 in
      let all = collect-Routed entry.name c nothing (sections config) in
      let (source, found, same_chain) =
        has_source-found entry.name bridged
          (map cctp_entry cctp_destinations ++ (usdc_on_source entry.name id ∷ [])) all
          (true-ensure _ _ sourced) in
      subst Pinned (ok-inj h7) (record {
        native_oft = verify_pinned_source_oft-Pinned _ arbitrum_usdt0_native_oft pinned_native;
        legacy_oft = verify_pinned_source_oft-Pinned _ arbitrum_usdt0_legacy_oft pinned_legacy;
        routed = All-append entry.name bridged _ all (
            All-append entry.name (map cctp_entry cctp_destinations)
              (usdc_on_source entry.name id ∷ []) (All-cctp entry.name cctp_destinations)
              (usdc_on_source-Routed entry.name id, tt));
        source = source;
        found = found;
        same_chain = same_chain;
      })
