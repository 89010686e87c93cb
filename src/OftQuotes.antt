-- ===== src/OftQuotes.antt =====
-- The OFT quoting helpers of crates/lib/src/swap/reverse.rs: the route of a destination, the executor
-- options with the cache of known token accounts, the two quotes, and the approval gate.
pub mod Effects
use boltz_client.Prelude.{
  ℕ, ◌-◌, ◌*◌, String, Bool, true, false, not, Option, none, some, [], ltb, leb, ◌==◌,
  if◌then◌else◌,
}
use boltz_client.Config.{solana_usdt0_mint, polygon_evm_chain_id, u128_limit, u256_limit}
use boltz_client.Crates.{Crates, Address, Bytes, Bytes32}
use boltz_client.Errors.{Result, ok, err, generic, ensure, ok_or, ◌>>=◌}
use boltz_client.Models.Destinations.{
  NetworkTransport, evm, solana, tron, Usdt0Kind, Bridge, Destination, DestinationRegistry, oft_for,
}
use boltz_client.Calls.{Call, OftSendParam, OftReceipt, MessagingFee}
use boltz_client.LzOptions.{build_extra_options}
use boltz_client.Ata.{derive_ata}
use boltz_client.Cctp.{decode_solana_pubkey}
use boltz_client.World.{Executor}
use boltz_client.World.Store.{contains, insert_id}
use boltz_client.World.Action.{M, pure, ◌>?>◌, ask}

-- `Destination::oft`.
unfoldable pub oft : Bridge → Option (Usdt0Kind × ℕ)
oft (Bridge.oft mesh lz_eid) = some (mesh, lz_eid)
oft Bridge.direct = none
oft (Bridge.cctp domain) = none

unfoldable pub oft_route : Bridge → Result (Usdt0Kind × ℕ)
unfolding oft
oft_route bridge = ok_or (oft bridge) (generic "Destination is not an OFT route")

unfoldable pub source_oft : DestinationRegistry → Usdt0Kind → Result String
source_oft registry mesh =
    ok_or (oft_for registry mesh) (generic "Source chain has no mesh OFT deployment")

is_chain : ℕ → Option ℕ → Bool
is_chain id none = false
is_chain id (some n) = n == id

unfoldable pub is_cached : String → M (Result Bool)
is_cached destination w = (ok (contains destination w.ata_cache), w)

unfoldable pub cache_insert : String → M (Result (Unit {0}))
cache_insert destination w = (ok tt, record w { ata_cache = insert_id destination w.ata_cache })

usdt0_ata : Crates → (destination : String) → Result Bytes32
usdt0_ata c destination = do
  owner ← decode_solana_pubkey c destination
  mint ← decode_solana_pubkey c solana_usdt0_mint
  derive_ata c owner mint

module _ (x : Executor) (destination : String) where
  -- Only an account that exists is remembered.
  unfoldable pub options_if_exists : Bool → M (Result Bytes)
  options_if_exists true = cache_insert destination >?> λ _. pure (ok [])
  options_if_exists false = pure (ok (build_extra_options true false))

  unfoldable pub options_unless_cached : Bool → M (Result Bytes)
  unfolding usdt0_ata
  options_unless_cached true = pure (ok [])
  options_unless_cached false = pure (usdt0_ata x.crates destination) >?> λ ata.
      ask (λ n. x.outside.account_exists n (x.crates.bs58_encode ata)) >?> options_if_exists

  unfoldable pub options_by_transport :
      NetworkTransport → (polygon_gas_bump : Bool) → M (Result Bytes)
  options_by_transport solana polygon_gas_bump = is_cached destination >?> options_unless_cached
  options_by_transport evm polygon_gas_bump = pure (ok (build_extra_options false polygon_gas_bump))
  options_by_transport tron polygon_gas_bump =
      pure (ok (build_extra_options false polygon_gas_bump))

unfoldable pub compute_extra_options :
    Executor → Destination → (destination : String) → M (Result Bytes)
unfolding is_chain
compute_extra_options x dest destination =
    options_by_transport x destination dest.transport
      (is_chain polygon_evm_chain_id dest.evm_chain_id)

unfoldable pub quote_oft : Executor → (oft_address : String) → OftSendParam → M (Result OftReceipt)
quote_oft x oft_address send_param =
    ask (λ n. x.outside.quote_oft n oft_address send_param) >?> λ quote. pure (ok quote.1)

unfoldable pub quote_send :
    Executor → (oft_address : String) → OftSendParam → M (Result MessagingFee)
quote_send x oft_address send_param = ask (λ n. x.outside.quote_send n oft_address send_param)

unfoldable pub u128_or : String → ℕ → Result ℕ
u128_or reason n = if ltb n u128_limit then ok n else err (generic reason)

-- The call `approve(oft, MaxUint256)` of the token, when the allowance is below ten times the amount.
unfoldable pub decide_oft_approval_top_up :
    Crates → (current_allowance amount : ℕ) → (oft token : Address) → Option Call
decide_oft_approval_top_up c current_allowance amount oft token =
    let threshold = if ltb (amount * 10) u256_limit then amount * 10 else u256_limit - 1 in
    if leb threshold current_allowance
    then none
    else some
        (record { target = token; value = 0; call_data = c.encode_approve oft (u256_limit - 1) })

module _ (x : Executor) (router oft token : Address) (amount : ℕ) where
  unfoldable pub approval_if : (required : Bool) → M (Result (Option Call))
  approval_if false = pure (ok none)
  approval_if true = ask (λ n. x.outside.allowance n token router oft) >?> λ current_allowance.
      pure (ok (decide_oft_approval_top_up x.crates current_allowance amount oft token))

  unfoldable pub build_oft_approval_call : M (Result (Option Call))
  build_oft_approval_call = ask (λ n. x.outside.approval_required n oft) >?> approval_if
