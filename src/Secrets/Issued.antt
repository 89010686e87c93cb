-- ===== src/Secrets/Issued.antt =====
-- The secrets that a provider of crates/lib/src/secrets.rs issues, against those that it finds again for
-- the swap that they went into.
use boltz_client.Prelude.{ℕ, ◌<◌, ◌≡◌, refl, ◌∙◌, sym, ap, Option, arith}
use boltz_client.Config.{u32_limit}
use boltz_client.Crates.{Crates, Bytes, Bytes32, ExtendedKey}
use boltz_client.Errors.{Result, ok, ok_or, from_ok, ok-inj, ensure}
use boltz_client.Models.{BoltzSwap, derived, stored}
use boltz_client.Secrets.{SecretProvider, IssuedSecrets, EvmKeyPair}
use boltz_client.Keys.{
  address_hex, from_private_key_bytes, from_signing_key, derive_preimage, derive_preimage_hash,
  derive_preimage_key, derive_gas_signer,
}
use boltz_client.Secrets.Providers.{
  to_chain_id_u32, derived_provider, random_provider, issue_derived, issue_random, index_of,
  derived_preimage, derived_preimage_hash, derived_gas_key_pair, secrets_of, stored_preimage,
  stored_preimage_hash, stored_gas_key_pair,
}

-- The provider finds a preimage with the hash that was issued, and a key with the claim address.
pub record FoundAgain (c : Crates) (provider : SecretProvider) (issued : IssuedSecrets)
    (swap : BoltzSwap) : Type 0 where
  pub preimage : Bytes32
  pub found : provider.preimage swap ≡ ok preimage
  pub hash : c.sha256 preimage ≡ issued.preimage_hash
  pub same_hash : provider.preimage_hash swap ≡ ok issued.preimage_hash
  pub gas : EvmKeyPair
  pub key : provider.gas_key_pair swap ≡ ok gas
  pub address : address_hex c gas ≡ issued.claim_address

to_chain_id_u32-eq : (chain_id : ℕ) → chain_id < u32_limit → to_chain_id_u32 chain_id ≡ ok chain_id
unfolding to_chain_id_u32
to_chain_id_u32-eq chain_id h = ground arith

module _ (c : Crates) (master_key : ExtendedKey) (increment_key_index : ℕ → Result ℕ) where
  module _ (swap : BoltzSwap) (index : ℕ) (small : swap.chain_id < u32_limit)
      (source : swap.key_source ≡ derived index) where
    derived_preimage-eq :
        derived_preimage c master_key increment_key_index swap
        ≡ derive_preimage c master_key swap.chain_id index
    unfolding derived_preimage index_of
    derived_preimage-eq = rw (source, to_chain_id_u32-eq swap.chain_id small) refl

    derived_preimage_hash-eq :
        derived_preimage_hash c master_key increment_key_index swap
        ≡ derive_preimage_hash c master_key swap.chain_id index
    unfolding derived_preimage_hash index_of
    derived_preimage_hash-eq = rw (source, to_chain_id_u32-eq swap.chain_id small) refl

    derived_gas_key_pair-eq :
        derived_gas_key_pair c master_key increment_key_index swap
        ≡ derive_gas_signer c master_key swap.chain_id
    unfolding derived_gas_key_pair index_of
    derived_gas_key_pair-eq = rw (source, to_chain_id_u32-eq swap.chain_id small) refl

  found_again :
      (swap : BoltzSwap) (index : ℕ) (hash preimage : Bytes32) (gas : EvmKeyPair)
      (public_key : Bytes) {issued : IssuedSecrets}
      → swap.chain_id < u32_limit
      → swap.key_source ≡ issued.key_source
      → derive_preimage c master_key swap.chain_id index ≡ ok preimage
      → derive_preimage_hash c master_key swap.chain_id index ≡ ok hash
      → c.sha256 preimage ≡ hash
      → derive_gas_signer c master_key swap.chain_id ≡ ok gas
      → record {
        key_source = derived index;
        preimage_hash = hash;
        claim_public_key = public_key;
        claim_address = address_hex c gas;
      }
        ≡ issued
      → FoundAgain c (derived_provider c master_key increment_key_index) issued swap
  found_again swap index hash preimage gas public_key {issued} small source e e' same g i =
      let source' = source ∙ sym (ap (λ (t : IssuedSecrets). t.key_source) i) in
      let hashes = ap (λ (t : IssuedSecrets). t.preimage_hash) i in
      record {
        preimage = preimage;
        found = derived_preimage-eq swap index small source' ∙ e;
        hash = same ∙ hashes;
        same_hash = derived_preimage_hash-eq swap index small source' ∙ e' ∙ ap (λ v. ok v) hashes;
        gas = gas;
        key = derived_gas_key_pair-eq swap index small source' ∙ g;
        address = ap (λ (t : IssuedSecrets). t.claim_address) i;
      }

  -- Secrets issued from the seed for a chain are found again for each swap on that chain that carries
  -- their key source: its preimage has the hash that was issued, and its gas key the claim address.
  pub issue_derived-FoundAgain :
      (n : ℕ) (swap : BoltzSwap) {issued : IssuedSecrets}
      → swap.chain_id < u32_limit
      → swap.key_source ≡ issued.key_source
      → issue_derived c master_key increment_key_index n swap.chain_id ≡ ok issued
      → FoundAgain c (derived_provider c master_key increment_key_index) issued swap
  unfolding issue_derived derive_preimage_hash
  issue_derived-FoundAgain n swap {issued} small source h =
      from_ok (increment_key_index n) _ h λ index _ h1.
        from_ok (derive_preimage_hash c master_key swap.chain_id index) _ h1 λ hash e h2.
          from_ok (derive_preimage c master_key swap.chain_id index) _ e λ preimage e' h3.
            from_ok (derive_preimage_key c master_key swap.chain_id index) _ h2 λ key _ h4.
              from_ok (derive_gas_signer c master_key swap.chain_id) _ h4 λ gas g h5.
                found_again swap index hash preimage gas key.public_key small source e' e
                  (ok-inj h3) g (ok-inj h5)

module _ (c : Crates) (random_preimage random_key : ℕ → Option Bytes32) where
  found_random :
      (swap : BoltzSwap) (preimage bytes : Bytes32) (gas : EvmKeyPair) {issued : IssuedSecrets}
      → swap.key_source ≡ issued.key_source
      → from_private_key_bytes c bytes ≡ ok gas
      → gas.private_key ≡ bytes
      → record {
        key_source = stored (record { preimage = preimage; gas_key = gas.private_key });
        preimage_hash = c.sha256 preimage;
        claim_public_key = gas.public_key;
        claim_address = address_hex c gas;
      }
        ≡ issued
      → FoundAgain c (random_provider c random_preimage random_key) issued swap
  unfolding stored_preimage stored_preimage_hash stored_gas_key_pair secrets_of
  found_random swap preimage bytes gas {issued} source key same i =
      let source' = source ∙ sym (ap (λ (t : IssuedSecrets). t.key_source) i) in
      let hashes = ap (λ (t : IssuedSecrets). t.preimage_hash) i in
      record {
        preimage = preimage;
        found = rw (source') refl;
        hash = hashes;
        same_hash = rw (source') (ap (λ v. ok v) hashes);
        gas = gas;
        key = rw (source') (ap (from_private_key_bytes c) same ∙ key);
        address = ap (λ (t : IssuedSecrets). t.claim_address) i;
      }

  private_key-from_private_key_bytes :
      (bytes : Bytes32) {gas : EvmKeyPair}
      → from_private_key_bytes c bytes ≡ ok gas
      → gas.private_key ≡ bytes
  unfolding from_private_key_bytes from_signing_key
  private_key-from_private_key_bytes bytes h =
      from_ok (ensure (c.is_signing_key bytes) _) _ h
        λ _ _ h1. sym (ap (λ (pair : EvmKeyPair). pair.private_key) (ok-inj h1))

  -- Random secrets are found again for each swap that carries their key source: its preimage has the
  -- hash that was issued, and its gas key the claim address.
  pub issue_random-FoundAgain :
      (n : ℕ) (swap : BoltzSwap) {issued : IssuedSecrets}
      → swap.key_source ≡ issued.key_source
      → issue_random c random_preimage random_key n swap.chain_id ≡ ok issued
      → FoundAgain c (random_provider c random_preimage random_key) issued swap
  unfolding issue_random
  issue_random-FoundAgain n swap {issued} source h =
      from_ok (ok_or (random_preimage n) _) _ h λ preimage _ h1.
        from_ok (ok_or (random_key n) _) _ h1 λ bytes _ h2.
          from_ok (from_private_key_bytes c bytes) _ h2 λ gas e h3.
            found_random swap preimage bytes gas source e
              (private_key-from_private_key_bytes bytes e) (ok-inj h3)
