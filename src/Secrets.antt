-- ===== src/Secrets.antt =====
-- The `SecretProvider` trait of crates/lib/src/secrets.rs.
pub mod Providers
pub mod Issued
use boltz_client.Prelude.{ℕ, String}
use boltz_client.Errors.{Result}
use boltz_client.Crates.{Bytes, Bytes32}
use boltz_client.Models.{BoltzSwap, SwapKeySource}

-- `EvmKeyPair` of keys.rs.
pub record EvmKeyPair : Type 0 where
  pub private_key : Bytes32
  pub public_key : Bytes
  pub address : Bytes

pub record IssuedSecrets : Type 0 where
  pub key_source : SwapKeySource
  pub preimage_hash : Bytes32
  pub claim_public_key : Bytes
  pub claim_address : String

pub record SecretProvider : Type 0 where
  -- Asked when a swap is created, with the number of the call: it draws an index or random bytes.
  pub issue : ℕ → (chain_id : ℕ) → Result IssuedSecrets
  pub preimage : BoltzSwap → Result Bytes32
  pub preimage_hash : BoltzSwap → Result Bytes32
  pub gas_key_pair : BoltzSwap → Result EvmKeyPair
