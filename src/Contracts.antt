-- ===== src/Contracts.antt =====
-- The helpers of crates/lib/src/evm/contracts.rs on addresses, topics and hex.

pub mod Delivered
use boltz_client.Prelude.{
  ℕ, String, Bool, false, Option, none, some, List, ◌++◌, length, replicate, ◌==◌, same_codes,
  strip_0x, eq_ignore_ascii_case, if◌then◌else◌,
}
use boltz_client.Errors.{Result, ok, err, evm}
use boltz_client.Crates.{Crates, Address, Bytes, Bytes32}
use Prim.Native.String.{◌++◌ as append_text}

address_of_bytes : Option Bytes → Result Address
address_of_bytes none = err (evm "Invalid address hex" none)
address_of_bytes (some bytes) =
    if length bytes == 20 then ok bytes else err (evm "Address must be 20 bytes" none)

unfoldable pub parse_address : Crates → String → Result Address
unfolding address_of_bytes strip_0x
parse_address c text = address_of_bytes (c.hex_decode (strip_0x text))

bytes_or_error : Option Bytes → Result Bytes
bytes_or_error none = err (evm "Invalid hex bytes" none)
bytes_or_error (some bytes) = ok bytes

unfoldable pub parse_hex_bytes : Crates → String → Result Bytes
unfolding bytes_or_error strip_0x
parse_hex_bytes c text = bytes_or_error (c.hex_decode (strip_0x text))

unfoldable pub same_parsed : Result Address → Address → Bool
same_parsed (ok parsed) address = same_codes parsed address
same_parsed (err e) address = false

unfoldable pub addresses_equal : Crates → String → Address → Bool
unfolding parse_address same_parsed
addresses_equal c text address = same_parsed (parse_address c text) address

unfoldable pub topics_equal : String → String → Bool
unfolding strip_0x
topics_equal a b = eq_ignore_ascii_case (strip_0x a) (strip_0x b)

-- `bytes32_to_topic`, and `address_to_topic`, which left-pads its twenty bytes.
unfoldable pub bytes32_to_topic : Crates → Bytes32 → String
bytes32_to_topic c value = append_text "0x" (c.hex_encode value)

unfoldable pub address_to_topic : Crates → Address → String
unfolding bytes32_to_topic
address_to_topic c address = bytes32_to_topic c (replicate 12 0 ++ address)

-- `address_to_bytes32`.
unfoldable pub address_to_bytes32 : Address → Bytes32
address_to_bytes32 address = replicate 12 0 ++ address
