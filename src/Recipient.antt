-- ===== src/Recipient.antt =====
-- crates/lib/src/evm/recipient.rs: a destination address as the 32 bytes that the bridges take.
use boltz_client.Prelude.{
  String, Bool, true, false, Option, none, some, [], ◌∷◌, ◌++◌, take, drop, length, replicate, ◌==◌,
  same_codes, if◌then◌else◌,
}
use boltz_client.Errors.{Result, ok, err, evm, ◌>>=◌, ◌>>◌, ensure}
use boltz_client.Crates.{Crates, Bytes, Bytes32}
use boltz_client.Contracts.{parse_address, address_to_bytes32}
use boltz_client.Models.Destinations.{NetworkTransport, solana, tron}

unfoldable pub decoded_base58 : Option Bytes → Result Bytes
decoded_base58 none = err (evm "Invalid base58 address" none)
decoded_base58 (some bytes) = ok bytes

unfoldable pub encode_evm : Crates → String → Result Bytes32
encode_evm c addr = do parsed ← parse_address c addr; ok (address_to_bytes32 parsed)

unfoldable pub encode_solana : Crates → String → Result Bytes32
unfolding decoded_base58
encode_solana c addr = do
  decoded ← decoded_base58 (c.bs58_decode addr)
  ensure (length decoded == 32) (evm "Solana address must decode to 32 bytes" none)
  ok decoded

-- The 21 bytes in front are the payload: a prefix byte, and the address that is left-padded.
unfoldable pub tron_payload : Bytes → Result Bytes32
tron_payload [] = err (evm "Tron address has unexpected prefix" none)
tron_payload (prefix ∷ address) =
    if prefix == 0x41
    then ok (replicate 12 0 ++ address)
    else err (evm "Tron address has unexpected prefix" none)

unfoldable pub encode_tron : Crates → String → Result Bytes32
unfolding decoded_base58 tron_payload
encode_tron c addr = do
  decoded ← decoded_base58 (c.bs58_decode addr)
  ensure (length decoded == 25) (evm "Tron address must decode to 25 bytes" none)
  let payload = take 21 decoded
  ensure (same_codes (drop 21 decoded) (take 4 (c.sha256 (c.sha256 payload))))
      (evm "Tron address has invalid checksum" none)
  tron_payload payload

unfoldable pub encode_oft_recipient : Crates → NetworkTransport → String → Result Bytes32
unfolding encode_evm encode_solana encode_tron
encode_oft_recipient c NetworkTransport.evm addr = encode_evm c addr
encode_oft_recipient c solana addr = encode_solana c addr
encode_oft_recipient c tron addr = encode_tron c addr

unfoldable pub is_valid_destination_address : Crates → NetworkTransport → String → Bool
unfolding encode_oft_recipient
is_valid_destination_address c transport addr = elim (encode_oft_recipient c transport addr) [
  | ok bytes ↦ true
  | err e ↦ false
]
