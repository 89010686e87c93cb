-- ===== src/Create.antt =====
-- `create` and `create_probe_invoice` of crates/lib/src/swap/reverse.rs, and `create_reverse_swap` of
-- crates/lib/src/lib.rs: a prepared swap becomes one that Boltz knows and the store has.
pub mod Terms
pub mod Accepted
pub mod Stored
use Prim.Native.Char.{code}
use boltz_client.Prelude.{
  ℕ, ◌/◌, String, Bool, true, false, ◌&&◌, ◌||◌, Option, none, some, List, [], ◌∷◌, codes, ltb, leb,
  ◌==◌, same_text, if◌then◌else◌, not,
}
use boltz_client.Config.{arbitrum_router_address}
use boltz_client.Crates.{Crates, Bytes, Bytes32}
use boltz_client.Errors.{
  BoltzError, Result, ok, err, api, generic, signing, quote_expired, duplicate_preimage, ensure,
  ok_or,
}
use boltz_client.Models.{BoltzSwap}
use boltz_client.Models.Lifecycle.{Status}
use boltz_client.Models.Destinations.{Destination}
use boltz_client.Outside.{CreateReverseSwapRequest, CreateReverseSwapResponse}
use boltz_client.Secrets.{IssuedSecrets, EvmKeyPair}
use boltz_client.Secrets.Providers.{to_chain_id_u32}
use boltz_client.Keys.{from_private_key_bytes, address_hex}
use boltz_client.Slippage.{resolve_slippage_bps}
use boltz_client.Claim.{ensure_timeout_margin}
use boltz_client.Prepare.{PreparedSwap}
use boltz_client.Prepare.Addresses.{checked_destination}
use boltz_client.Manager.Tracking.{start_tracking}
use boltz_client.World.{Executor}
use boltz_client.World.Action.{M, pure, ◌>>=◌, ◌>?>◌, ask}
use boltz_client.World.Store.{upsert_swap}

abbrev pub probe_invoice_expiry_secs : ℕ
probe_invoice_expiry_secs = 60

unfoldable pub is_ascii_alphanumeric : ℕ → Bool
is_ascii_alphanumeric c =
    (leb b'0' c && leb c b'9') || ((leb b'A' c && leb c b'Z') || (leb b'a' c && leb c b'z'))

unfoldable pub all_alphanumeric : List ℕ → Bool
unfolding is_ascii_alphanumeric
all_alphanumeric [] = true
all_alphanumeric (c ∷ cs) = is_ascii_alphanumeric c && all_alphanumeric cs

unfoldable pub is_empty : List ℕ → Bool
is_empty [] = true
is_empty (c ∷ cs) = false

unfoldable pub validate_swap_id : String → Result (Unit {0})
unfolding all_alphanumeric is_empty
validate_swap_id id =
    if is_empty (codes id) || not (all_alphanumeric (codes id))
    then err (generic "Boltz returned an invalid swap id")
    else ok tt

-- The error of the creation call: a conflict is a preimage that Boltz has seen.
is_conflict : Option ℕ → Bool
is_conflict none = false
is_conflict (some code) = code == 409

unfoldable pub creation_error : BoltzError → BoltzError
unfolding is_conflict
creation_error (api reason code) = if is_conflict code then duplicate_preimage else api reason code
creation_error e = e

unfoldable pub created_or : Result CreateReverseSwapResponse → Result CreateReverseSwapResponse
unfolding creation_error
created_or (ok response) = ok response
created_or (err e) = err (creation_error e)

unfoldable pub not_expired : (now expires_at : ℕ) → Result (Unit {0})
not_expired now expires_at = if leb expires_at now then err quote_expired else ok tt

unfoldable pub request_of :
    Executor
    → PreparedSwap
    → (preimage_hash : Bytes32) (claim_address : String) (claim_public_key : Bytes)
    → (invoice_expiry : Option ℕ) → CreateReverseSwapRequest
request_of x p preimage_hash claim_address claim_public_key invoice_expiry = record {
  from = "BTC";
  to = "TBTC";
  preimage_hash = x.crates.hex_encode preimage_hash;
  claim_address = claim_address;
  invoice_amount = p.invoice_amount_sats;
  pair_hash = p.pair_hash;
  referral_id = x.config.referral_id;
  claim_public_key = x.crates.hex_encode claim_public_key;
  invoice_expiry = invoice_expiry;
}

unfoldable pub issued_request : Executor → PreparedSwap → IssuedSecrets → CreateReverseSwapRequest
unfolding request_of
issued_request x p issued =
    request_of x p issued.preimage_hash issued.claim_address issued.claim_public_key none

-- The invoice asks for what was prepared, in whole sats.
unfoldable pub check_amount : (milli : Option (Option ℕ)) → (requested_sats : ℕ) → Result (Unit {0})
check_amount none requested_sats = err (generic "Failed to parse BOLT11 invoice")
check_amount (some none) requested_sats = err (generic "BOLT11 invoice missing amount")
check_amount (some (some milli)) requested_sats =
    ensure (milli / 1000 == requested_sats)
      (generic "Invoice amount does not match requested amount")

unfoldable pub check_invoice :
    Crates → (invoice : String) → (requested_sats : ℕ) → Result (Unit {0})
unfolding check_amount
check_invoice c invoice requested_sats = check_amount (c.bolt11 invoice) requested_sats

unfoldable pub check_onchain : PreparedSwap → CreateReverseSwapResponse → Result (Unit {0})
check_onchain p r =
    if ltb r.onchain_amount p.estimated_onchain_amount
    then err (generic "Boltz onchain_amount less than prepared estimate")
    else ok tt

unfoldable pub check_lockup : Executor → CreateReverseSwapResponse → Result (Unit {0})
check_lockup x r =
    ensure
      (same_text (x.crates.to_lowercase r.lockup_address)
        (x.crates.to_lowercase x.erc20swap_address))
      (generic "Boltz lockup_address does not match expected ERC20Swap")

unfoldable pub swap_of :
    Executor
    → PreparedSwap
    → IssuedSecrets
    → CreateReverseSwapResponse
    → (refund_address : String) → (now : ℕ) → BoltzSwap
swap_of x p issued r refund_address now = record {
  id = r.id;
  status = Status.created;
  bridge_kind = p.bridge_kind;
  key_source = issued.key_source;
  chain_id = x.config.chain_id;
  claim_address = issued.claim_address;
  destination_address = p.destination_address;
  destination_chain = p.destination_chain;
  asset = p.asset;
  refund_address = refund_address;
  erc20swap_address = x.erc20swap_address;
  router_address = arbitrum_router_address;
  invoice = r.invoice;
  invoice_amount_sats = p.invoice_amount_sats;
  onchain_amount = r.onchain_amount;
  expected_output_amount = p.output_amount;
  slippage_bps = p.slippage_bps;
  timeout_block_height = r.timeout_block_height;
  lockup_tx_id = none;
  claim_tx_hash = none;
  pending_call_id = none;
  delivered_amount = none;
  bridge_ref = none;
  created_at = now;
  updated_at = now;
}

-- From Boltz's answer on.
unfoldable pub accept_response :
    Executor → PreparedSwap → IssuedSecrets → CreateReverseSwapResponse → M (Result BoltzSwap)
accept_response x p issued r = pure (validate_swap_id r.id) >?> λ _.
    pure (check_onchain p r) >?> λ _. pure (check_lockup x r) >?> λ _.
    pure (check_invoice x.crates r.invoice p.invoice_amount_sats) >?> λ _.
    ensure_timeout_margin x r.timeout_block_height >?> λ _. ask x.outside.unix_time >>= λ now.
    pure (ok_or r.refund_address (api "Missing refund_address in swap response" none))
    >?> λ refund_address. pure (ok (swap_of x p issued r refund_address now))

unfoldable pub create : Executor → PreparedSwap → M (Result BoltzSwap)
create x p = ask x.outside.unix_time >>= λ now. pure (not_expired now p.expires_at) >?> λ _.
    pure (checked_destination x.crates x.registry p.destination_chain p.asset p.destination_address)
    >?> λ _. pure (resolve_slippage_bps (some p.slippage_bps) x.config.slippage_bps) >?> λ _.
        pure (to_chain_id_u32 x.config.chain_id) >?> λ chain_id.
        ask (λ n. x.secrets.issue n chain_id) >?> λ issued.
        ask (λ n. created_or (x.outside.create_reverse_swap n (issued_request x p issued))) >?> λ r.
        accept_response x p issued r

-- `EvmKeyPair::generate`.
unfoldable pub generate : Executor → M (Result EvmKeyPair)
generate x =
    ask (λ n. ok_or (x.outside.random_bytes n) (signing "Failed to generate key")) >?> λ bytes.
    pure (from_private_key_bytes x.crates bytes)

unfoldable pub create_probe_invoice : Executor → PreparedSwap → M (Result String)
create_probe_invoice x p = ask x.outside.unix_time >>= λ now.
    pure (not_expired now p.expires_at) >?> λ _. generate x >?> λ throwaway.
    ask (λ n. ok_or (x.outside.random_bytes n) (generic "Failed to generate random preimage hash"))
    >?> λ preimage_hash.
        ask (λ n. created_or (
          x.outside.create_reverse_swap n (
            request_of x p preimage_hash (address_hex x.crates throwaway) throwaway.public_key
              (some probe_invoice_expiry_secs))))
        >?> λ r. pure (check_invoice x.crates r.invoice p.invoice_amount_sats) >?> λ _.
            pure (ok r.invoice)

-- `CreatedSwap` of models.rs.
pub record CreatedSwap : Type 0 where
  pub swap_id : String
  pub invoice : String
  pub invoice_amount_sats : ℕ  -- u64
  pub timeout_block_height : ℕ  -- u64

unfoldable pub created_swap : BoltzSwap → CreatedSwap
created_swap swap = record {
  swap_id = swap.id;
  invoice = swap.invoice;
  invoice_amount_sats = swap.invoice_amount_sats;
  timeout_block_height = swap.timeout_block_height;
}

-- `track_swap` hands the id to the event loop, which tracks it and only logs a failure.
unfoldable pub create_reverse_swap : Executor → PreparedSwap → M (Result CreatedSwap)
unfolding created_swap
create_reverse_swap x p = create x p >?> λ swap. upsert_swap x.outside swap >?> λ _.
    start_tracking x swap.id >>= λ _. pure (ok (created_swap swap))
