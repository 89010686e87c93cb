-- ===== src/Secrets/Providers.antt =====
-- The two providers of crates/lib/src/secrets.rs: secrets derived from a seed by an index that the store
-- hands out, and random ones that are stored with the swap.
use boltz_client.Prelude.{ℕ, Option, ltb, if◌then◌else◌}
use boltz_client.Config.{u32_limit}
use boltz_client.Crates.{Crates, Bytes32, ExtendedKey}
use boltz_client.Errors.{Result, ok, err, generic, signing, ◌>>=◌, ok_or}
use boltz_client.Models.{BoltzSwap, SwapKeySource, SwapSecrets, derived, stored}
use boltz_client.Secrets.{EvmKeyPair, IssuedSecrets, SecretProvider}
use boltz_client.Keys.{
  derive_preimage_hash, derive_preimage_key, derive_preimage, derive_gas_signer, address_hex,
  from_private_key_bytes,
}

unfoldable pub to_chain_id_u32 : ℕ → Result ℕ
to_chain_id_u32 chain_id =
    if ltb chain_id u32_limit then ok chain_id else err (generic "Chain ID overflow")

unfoldable pub index_of : SwapKeySource → Result ℕ
index_of (derived claim_key_index) = ok claim_key_index
index_of (stored secrets) =
    err (generic "Swap key source does not match provider (expected derived)")

unfoldable pub secrets_of : SwapKeySource → Result SwapSecrets
secrets_of (stored secrets) = ok secrets
secrets_of (derived claim_key_index) =
    err (generic "Swap key source does not match provider (expected stored)")

-- The store's counter, by the number of the call.
module _ (c : Crates) (master_key : ExtendedKey) (increment_key_index : ℕ → Result ℕ) where
  unfoldable pub issue_derived : ℕ → (chain_id : ℕ) → Result IssuedSecrets
  issue_derived n chain_id = do
    index ← increment_key_index n
    preimage_hash ← derive_preimage_hash c master_key chain_id index
    preimage_key ← derive_preimage_key c master_key chain_id index
    gas ← derive_gas_signer c master_key chain_id
    ok (record {
      key_source = derived index;
      preimage_hash = preimage_hash;
      claim_public_key = preimage_key.public_key;
      claim_address = address_hex c gas;
    })

  unfoldable pub derived_preimage : BoltzSwap → Result Bytes32
  unfolding index_of to_chain_id_u32
  derived_preimage swap = do
    index ← index_of swap.key_source
    chain_id ← to_chain_id_u32 swap.chain_id
    derive_preimage c master_key chain_id index

  unfoldable pub derived_preimage_hash : BoltzSwap → Result Bytes32
  unfolding index_of to_chain_id_u32
  derived_preimage_hash swap = do
    index ← index_of swap.key_source
    chain_id ← to_chain_id_u32 swap.chain_id
    derive_preimage_hash c master_key chain_id index

  unfoldable pub derived_gas_key_pair : BoltzSwap → Result EvmKeyPair
  unfolding index_of to_chain_id_u32
  derived_gas_key_pair swap = do
    index ← index_of swap.key_source
    chain_id ← to_chain_id_u32 swap.chain_id
    derive_gas_signer c master_key chain_id

  -- `DerivedSecretProvider`.
  abbrev pub derived_provider : SecretProvider
  derived_provider = record {
    issue = issue_derived;
    preimage = derived_preimage;
    preimage_hash = derived_preimage_hash;
    gas_key_pair = derived_gas_key_pair;
  }

-- The bytes that `getrandom` gives for the preimage and for the key, by the number of the call.
module _ (c : Crates) (random_preimage random_key : ℕ → Option Bytes32) where
  unfoldable pub issue_random : ℕ → (chain_id : ℕ) → Result IssuedSecrets
  issue_random n chain_id = do
    preimage ← ok_or (random_preimage n) (generic "Failed to generate preimage")
    bytes ← ok_or (random_key n) (signing "Failed to generate key")
    gas ← from_private_key_bytes c bytes
    ok (record {
      key_source = stored (record { preimage = preimage; gas_key = gas.private_key });
      preimage_hash = c.sha256 preimage;
      claim_public_key = gas.public_key;
      claim_address = address_hex c gas;
    })

  unfoldable pub stored_preimage : BoltzSwap → Result Bytes32
  unfolding secrets_of
  stored_preimage swap = do secrets ← secrets_of swap.key_source; ok secrets.preimage

  unfoldable pub stored_preimage_hash : BoltzSwap → Result Bytes32
  unfolding stored_preimage
  stored_preimage_hash swap = do preimage ← stored_preimage swap; ok (c.sha256 preimage)

  unfoldable pub stored_gas_key_pair : BoltzSwap → Result EvmKeyPair
  unfolding secrets_of
  stored_gas_key_pair swap = do
    secrets ← secrets_of swap.key_source
    from_private_key_bytes c secrets.gas_key

  -- `RandomSecretProvider`.
  abbrev pub random_provider : SecretProvider
  random_provider = record {
    issue = issue_random;
    preimage = stored_preimage;
    preimage_hash = stored_preimage_hash;
    gas_key_pair = stored_gas_key_pair;
  }
