-- ===== src/Keys.antt =====
-- crates/lib/src/keys.rs: the keys of a swap, by BIP-32 from the seed, and their EVM address.
use Prim.Native.Char.{Char, code}
use Prim.Native.String.{◌++◌ as append_text}
use boltz_client.Prelude.{
  ℕ, zero, suc, ◌+◌, ◌/◌, ◌%◌, String, List, [], ◌∷◌, drop, codes, leb, ◌==◌, if◌then◌else◌,
}
use boltz_client.Crates.{Crates, Bytes, Bytes32, ExtendedKey}
use boltz_client.Errors.{Result, ok, signing, ◌>>=◌, ◌>>◌, ensure, ok_or}
use boltz_client.Secrets.{EvmKeyPair}

byte_at : Bytes → ℕ → ℕ
byte_at [] n = 0
byte_at (b ∷ bytes) zero = b
byte_at (b ∷ bytes) (suc n) = byte_at bytes n

-- Each character of the hex text has four bits of its hash.
hash_nibble : (hash : Bytes) → (i : ℕ) → ℕ
unfolding byte_at
hash_nibble hash i = if i % 2 == 0 then byte_at hash (i / 2) / 16 else byte_at hash (i / 2) % 16

-- `to_ascii_uppercase` of a hex digit; those that are no letter stay.
upper_hex : Char → String
upper_hex c =
    if code c == b'a'
    then "A"
    else if code c == b'b'
    then "B"
    else if code c == b'c'
    then "C"
    else if code c == b'd'
    then "D"
    else if code c == b'e'
    then "E"
    else if code c == b'f'
    then "F"
    else String.◌∷◌ c String.[]

-- The hex digits from position `i` on, each in the case that its nibble says.
checksummed : (hash : Bytes) → (i : ℕ) → String → String
unfolding hash_nibble upper_hex
checksummed hash i String.[] = String.[]
checksummed hash i (String.◌∷◌ c rest) =
    let more = checksummed hash (i + 1) rest in
    if leb 8 (hash_nibble hash i) then append_text (upper_hex c) more else String.◌∷◌ c more

unfoldable pub checksum_address : Crates → (address : Bytes) → String
unfolding checksummed
checksum_address c address =
    let hex_addr = c.hex_encode address in
    append_text "0x" (checksummed (c.keccak256 (codes hex_addr)) 0 hex_addr)

unfoldable pub address_hex : Crates → EvmKeyPair → String
unfolding checksum_address
address_hex c pair = checksum_address c pair.address

unfoldable pub keccak256_to_address : Crates → Bytes → Bytes
keccak256_to_address c bytes = drop 12 (c.keccak256 bytes)

unfoldable pub from_signing_key : Crates → (signing_key : Bytes32) → EvmKeyPair
unfolding keccak256_to_address
from_signing_key c signing_key = record {
  private_key = signing_key;
  public_key = c.sec1_bytes signing_key;
  address = keccak256_to_address c (drop 1 (c.uncompressed_point signing_key));
}

unfoldable pub from_private_key_bytes : Crates → Bytes32 → Result EvmKeyPair
unfolding from_signing_key
from_private_key_bytes c bytes = do
  ensure (c.is_signing_key bytes) (signing "Invalid private key")
  ok (from_signing_key c bytes)

unfoldable pub child_number : Crates → ℕ → Result ℕ
child_number c index = ok_or (c.child_number index) (signing "Invalid BIP-32 child number")

-- `child_number(n)?` for each level of a path.
unfoldable pub path : Crates → List ℕ → Result (List ℕ)
unfolding child_number
path c [] = ok []
path c (n ∷ levels) = do child ← child_number c n; children ← path c levels; ok (child ∷ children)

unfoldable pub derived_key : Crates → ExtendedKey → (children : List ℕ) → Result ExtendedKey
derived_key c key [] = ok key
derived_key c key (child ∷ children) = do
  next ← ok_or (c.derive_child key child) (signing "BIP-32 derivation error")
  derived_key c next children

-- `EvmKeyManager`: the methods take its master key.
module _ (c : Crates) (master_key : ExtendedKey) where
  unfoldable pub derive_key_pair : (children : List ℕ) → Result EvmKeyPair
  unfolding derived_key
  derive_key_pair children = do
    derived ← derived_key c master_key children
    ensure (c.is_signing_key (c.key_bytes derived)) (signing "Invalid derived key")
    ok (from_signing_key c (c.key_bytes derived))

  unfoldable pub derive_gas_signer : (chain_id : ℕ) → Result EvmKeyPair
  unfolding derive_key_pair path
  derive_gas_signer chain_id = do
    children ← path c (44 ∷ chain_id ∷ 1 ∷ 0 ∷ [])
    derive_key_pair children

  unfoldable pub derive_preimage_key : (chain_id index : ℕ) → Result EvmKeyPair
  unfolding derive_key_pair path
  derive_preimage_key chain_id index = do
    children ← path c (44 ∷ chain_id ∷ 0 ∷ 0 ∷ index ∷ [])
    derive_key_pair children

  unfoldable pub derive_preimage : (chain_id index : ℕ) → Result Bytes32
  unfolding derive_preimage_key
  derive_preimage chain_id index = do
    key_pair ← derive_preimage_key chain_id index
    ok (c.sha256 key_pair.private_key)

  unfoldable pub derive_preimage_hash : (chain_id index : ℕ) → Result Bytes32
  unfolding derive_preimage
  derive_preimage_hash chain_id index = do
    preimage ← derive_preimage chain_id index
    ok (c.sha256 preimage)
