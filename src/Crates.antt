-- ===== src/Crates.antt =====
-- What the source takes from third-party crates and Rust's Unicode tables, as one parameter: hex, base58, SHA-256, curve25519,
-- the ABI codecs of alloy, and the EIP-712 signatures of k256. Nothing is assumed of them here; a
-- theorem that needs a law of one names it as a hypothesis.
use boltz_client.Prelude.{ℕ, String, Option, List, Bool}

abbrev pub Bytes : Type 0
Bytes = List ℕ

-- `[u8; 32]` and `[u8; 20]`.
abbrev pub Bytes32 : Type 0
Bytes32 = List ℕ

abbrev pub ExtendedKey : Type 0
ExtendedKey = List ℕ

abbrev pub Address : Type 0
Address = List ℕ

-- The event signature hashes, as the `0x…` topics of the source.
pub record Topics : Type 0 where
  pub transfer : String
  pub oft_sent : String
  pub message_sent : String
  pub claim : String
  pub refund : String

pub record Signature : Type 0 where
  pub v : ℕ
  pub r : Bytes32
  pub s : Bytes32

-- `Eip712Domain`; the source sets no salt.
pub record Eip712Domain : Type 0 where
  pub name : String
  pub version : String
  pub chain_id : ℕ
  pub verifying_contract : Address

-- The four `sol!` structs that are signed: `erc20swap_eip712::Claim`, and `Claim`, `ClaimSend` and
-- `ClaimCctp` of `router_eip712`.
pub data TypedData : Type 0 where
  erc20swap_claim :
      (preimage : Bytes32) (amount : ℕ) (token_address refund_address : Address) (timelock : ℕ)
      (destination : Address)
      → TypedData
  router_claim :
      (preimage : Bytes32) (token : Address) (min_amount_out : ℕ) (destination : Address)
      → TypedData
  router_claim_send :
      (preimage : Bytes32) (token oft : Address) (send_data : Bytes32)
      (min_amount_ld lz_token_fee : ℕ) (refund_address : Address)
      → TypedData
  router_claim_cctp :
      (preimage : Bytes32) (token token_messenger : Address) (cctp_data : Bytes32) (min_amount : ℕ)
      → TypedData

-- `alloy_primitives::Signature`: the parity of y, r and s.
pub record AlloySignature : Type 0 where
  pub odd : Bool
  pub r : Bytes32
  pub s : Bytes32

-- A 32-byte element of an ABI tuple.
pub data Word : Type 0 where
  bytes32 : Bytes32 → Word
  uint256 : ℕ → Word

pub record Crates : Type 0 where
  pub to_lowercase : String → String  -- `str::to_lowercase`
  pub trim : String → String  -- `str::trim`
  pub hex_decode : String → Option Bytes
  pub hex_encode : Bytes → String
  pub bs58_decode : String → Option Bytes
  pub bs58_encode : Bytes → String
  pub sha256 : Bytes → Bytes32
  pub decompresses : Bytes → Bool  -- `CompressedEdwardsY::decompress` gives a point
  pub parse_radix : ℕ → String → Option ℕ  -- `U256::from_str_radix`
  pub topics : Topics
  pub abi_u256 : Bytes → Option ℕ
  pub abi_bytes : Bytes → Option Bytes
  pub abi_oft_sent : Bytes → Option (ℕ × ℕ × ℕ)
  pub abi_encode : List Word → Bytes
  -- `bip32` and `k256`: an extended key is opaque, and a signing key is its bytes.
  pub child_number : ℕ → Option ℕ
  pub derive_child : ExtendedKey → ℕ → Option ExtendedKey
  pub key_bytes : ExtendedKey → Bytes32
  pub is_signing_key : Bytes32 → Bool
  pub sec1_bytes : Bytes32 → Bytes  -- the compressed public key
  pub uncompressed_point : Bytes32 → Bytes
  -- `lightning_invoice`: nothing if the text is no invoice, else its amount in millisatoshis.
  pub bolt11 : String → Option (Option ℕ)
  pub keccak256 : Bytes → Bytes32
  pub encode_approve : (spender : Address) → (amount : ℕ) → Bytes
  pub sign_typed_data : Bytes32 → TypedData → Eip712Domain → Option AlloySignature
