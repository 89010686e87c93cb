-- ===== src/World.antt =====
-- What a handler of the client reads and changes, as explicit state. `Outside` is all that the
-- source calls and does not implement; `Executor` is what `ReverseSwapExecutor` holds.
pub mod Action
pub mod Store
pub mod Effects
pub mod Writes
use boltz_client.Prelude.{ℕ, String, List}
use boltz_client.Errors.{Result}
use boltz_client.Crates.{Crates}
use boltz_client.Secrets.{SecretProvider}
use boltz_client.Models.{BoltzSwap}
use boltz_client.Models.Destinations.{DestinationRegistry}
use boltz_client.Calls.{ClaimCall}
use boltz_client.Outside.{Outside}

-- `BoltzSwapEvent` of events.rs.
pub data SwapEvent : Type 0 where
  swap_updated : BoltzSwap → SwapEvent
  quote_degraded : (swap : BoltzSwap) (expected_usd quoted_usd : ℕ) → SwapEvent

-- One call of the gas sponsor's submit endpoint. It carries the preimage, whatever the answer is.
pub record Sent : Type 0 where
  pub swap_id : String
  pub target : String  -- the contract that is called
  pub call : ClaimCall
  pub answer : Result String

pub record World : Type 0 where
  pub rows : List BoltzSwap  -- the `BoltzStorage`, keyed by `id`
  pub events : List SwapEvent  -- emitted to the listeners, newest first
  pub tracked : List String  -- `TrackedIds`
  pub subscribed : List String  -- the ids that the WebSocket subscriber was told of
  pub sent : List Sent  -- what the gas sponsor was handed, newest first
  pub ata_cache : List String  -- the recipients whose Solana token account was seen
  pub calls : ℕ  -- how many calls of `Outside` were made

-- The fields of `BoltzConfig` that the executor reads.
pub record BoltzConfig : Type 0 where
  pub chain_id : ℕ  -- u64
  pub referral_id : String
  pub slippage_bps : ℕ  -- u32

pub record Executor : Type 0 where
  pub outside : Outside
  pub crates : Crates
  pub secrets : SecretProvider
  pub registry : DestinationRegistry
  pub config : BoltzConfig
  pub erc20swap_address : String
