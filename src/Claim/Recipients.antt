-- ===== src/Claim/Recipients.antt =====
-- The recipients of bridged claims of crates/lib/src/swap/reverse.rs, by the transport of the destination,
-- as crates/lib/src/evm/recipient.rs and crates/lib/src/evm/cctp.rs encode them.
use boltz_client.Prelude.{
  ◌≡◌, sym, ◌∙◌, ap, subst, Option, none, some, String, [], ◌∷◌, replicate, length, take, ◌++◌,
  ◌==◌, ==_iff, arith,
}
use boltz_client.Errors.{ok, from_ok, ok-inj, ok_or, some-ok_or, ensure, true-ensure}
use boltz_client.Crates.{Crates, Address, Bytes, Bytes32}
use boltz_client.Config.{solana_usdc_mint}
use boltz_client.Contracts.{parse_address, address_to_bytes32}
use boltz_client.Cctp.{
  mint_recipient, evm_mint_recipient, solana_mint_recipient, decode_solana_pubkey,
}
use boltz_client.Recipient.{
  encode_oft_recipient, encode_evm, encode_solana, encode_tron, decoded_base58, tron_payload,
}
use boltz_client.Ata.{derive_ata}
use boltz_client.Models.Destinations.{NetworkTransport, solana, tron}

-- The 32 bytes that name the address on a transport: an EVM address left-padded, the key itself on
-- Solana, and on Tron the address behind the prefix byte, left-padded.
unfoldable pub Encodes : Crates → String → NetworkTransport → Bytes32 → Type 0
Encodes c address NetworkTransport.evm to =
    (parsed : Address) × (parse_address c address ≡ ok parsed) × (to ≡ replicate 12 0 ++ parsed)
Encodes c address solana to = (c.bs58_decode address ≡ some to) × (length to ≡ 32)
Encodes c address tron to =
    (decoded : Bytes) × (payload : Bytes) × (c.bs58_decode address ≡ some decoded)
    × (length decoded ≡ 25)
    × (take 21 decoded ≡ 65 ∷ payload)
    × (to ≡ replicate 12 0 ++ payload)

-- What CCTP mints to: the EVM address left-padded, or the token account of the Solana key for USDC.
unfoldable pub MintsTo : Crates → String → NetworkTransport → Bytes32 → Type 0
MintsTo c address NetworkTransport.evm to =
    (parsed : Address) × (parse_address c address ≡ ok parsed) × (to ≡ replicate 12 0 ++ parsed)
MintsTo c address solana to =
    (owner : Bytes32) × (mint : Bytes32) × (c.bs58_decode address ≡ some owner)
    × (c.bs58_decode solana_usdc_mint ≡ some mint)
    × (derive_ata c owner mint ≡ ok to)
MintsTo c address tron to = ⊥

module _ (c : Crates) (address : String) where
  decoded_base58-eq :
      (o : Option Bytes) {bytes : Bytes} → decoded_base58 o ≡ ok bytes → o ≡ some bytes
  unfolding decoded_base58
  decoded_base58-eq none h = absurd (cc)
  decoded_base58-eq (some b) h = cc

  tron_payload-eq :
      (bytes : Bytes) {to : Bytes32}
      → tron_payload bytes ≡ ok to
      → (payload : Bytes) × (bytes ≡ 65 ∷ payload) × (to ≡ replicate 12 0 ++ payload)
  unfolding tron_payload
  tron_payload-eq [] h = absurd (cc)
  tron_payload-eq (prefix ∷ payload) h = (payload, ground (arith, h), ground (arith, h))

  pub encode_oft_recipient-Encodes :
      (t : NetworkTransport) {to : Bytes32}
      → encode_oft_recipient c t address ≡ ok to
      → Encodes c address t to
  unfolding encode_oft_recipient encode_evm encode_solana encode_tron Encodes address_to_bytes32
  encode_oft_recipient-Encodes NetworkTransport.evm h =
      from_ok (parse_address c address) _ h λ parsed p h1. (parsed, p, sym (ok-inj h1))
  encode_oft_recipient-Encodes solana {to} h =
      from_ok (decoded_base58 (c.bs58_decode address)) _ h λ bytes b h1.
        from_ok (ensure (length bytes == 32) _) _ h1 λ _ l h2.
          subst (λ k. (c.bs58_decode address ≡ some k) × (length k ≡ 32)) (ok-inj h2)
            (decoded_base58-eq _ b, (==_iff _ _).0 (true-ensure _ _ l))
  encode_oft_recipient-Encodes tron h =
      from_ok (decoded_base58 (c.bs58_decode address)) _ h λ bytes b h1.
        from_ok (ensure (length bytes == 25) _) _ h1 λ _ l h2. from_ok (ensure _ _) _ h2 λ _ _ h3.
          let (payload, split, same) = tron_payload-eq (take 21 bytes) h3 in
          (bytes, payload, decoded_base58-eq _ b, (==_iff _ _).0 (true-ensure _ _ l), split, same)

module _ (c : Crates) where
  decode_solana_pubkey-eq :
      (text : String) {key : Bytes32}
      → decode_solana_pubkey c text ≡ ok key
      → c.bs58_decode text ≡ some key
  unfolding decode_solana_pubkey
  decode_solana_pubkey-eq text {key} h = from_ok (ok_or (c.bs58_decode text) _) _ h λ bytes b h1.
      from_ok (ensure (length bytes == 32) _) _ h1 λ _ _ h2. some-ok_or _ _ b ∙ ap some (ok-inj h2)

  pub mint_recipient-MintsTo :
      (address : String) (t : NetworkTransport) {to : Bytes32}
      → mint_recipient c t address ≡ ok to
      → MintsTo c address t to
  unfolding mint_recipient evm_mint_recipient solana_mint_recipient MintsTo address_to_bytes32
  mint_recipient-MintsTo address NetworkTransport.evm h =
      from_ok (parse_address c address) _ h λ parsed p h1. (parsed, p, sym (ok-inj h1))
  mint_recipient-MintsTo address solana h =
      from_ok (decode_solana_pubkey c address) _ h λ owner o h1.
        from_ok (decode_solana_pubkey c solana_usdc_mint) _ h1
          λ mint m h2. (owner, mint, decode_solana_pubkey-eq _ o, decode_solana_pubkey-eq _ m, h2)
  mint_recipient-MintsTo address tron h = absurd (cc)
