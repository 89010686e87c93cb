-- ===== src/Models.antt =====
-- crates/lib/src/models.rs: the persisted swap, its lifecycle status, and the destinations.
pub mod Lifecycle
pub mod Destinations
use boltz_client.Prelude.{ℕ, String, Option}
use boltz_client.Crates.{Bytes32}
use Lifecycle.{Status}
use Destinations.{BridgeKind, Asset}

-- `SwapSecrets` and `SwapKeySource`. `Secret` hides its bytes when it is printed; here it is them.
pub record SwapSecrets : Type 0 where
  pub preimage : Bytes32
  pub gas_key : Bytes32

pub data SwapKeySource : Type 0 where
  derived : (claim_key_index : ℕ) → SwapKeySource
  stored : SwapSecrets → SwapKeySource

pub record BoltzSwap : Type 0 where
  pub id : String
  pub status : Status
  pub bridge_kind : BridgeKind
  pub key_source : SwapKeySource
  pub chain_id : ℕ  -- u64
  pub claim_address : String
  pub destination_address : String
  pub destination_chain : String
  pub asset : Asset
  pub refund_address : String
  pub erc20swap_address : String
  pub router_address : String
  pub invoice : String
  pub invoice_amount_sats : ℕ  -- u64
  pub onchain_amount : ℕ  -- u64
  pub expected_output_amount : ℕ  -- u64
  pub slippage_bps : ℕ  -- u32
  pub timeout_block_height : ℕ  -- u64
  pub lockup_tx_id : Option String
  pub claim_tx_hash : Option String
  pub pending_call_id : Option String
  pub delivered_amount : Option ℕ  -- u64
  pub bridge_ref : Option String
  pub created_at : ℕ  -- u64
  pub updated_at : ℕ  -- u64
