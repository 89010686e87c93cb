-- ===== src/Signing.antt =====
-- The EIP-712 signatures of crates/lib/src/evm/signing.rs: one struct and one domain for each. The
-- hashing of typed data and the curve are a parameter.
use boltz_client.Prelude.{ℕ, String, Option, none, some, if◌then◌else◌}
use boltz_client.Errors.{Result, ok, err, signing}
use boltz_client.Crates.{
  Crates, Bytes32, Address, Signature, AlloySignature, Eip712Domain, erc20swap_claim, router_claim,
  router_claim_send, router_claim_cctp,
}

unfoldable pub alloy_sig_to_evm_sig : AlloySignature → Signature
alloy_sig_to_evm_sig sig = record { v = if sig.odd then 28 else 27; r = sig.r; s = sig.s }

-- `EvmSigner`.
pub record EvmSigner : Type 0 where
  pub private_key : Bytes32
  pub chain_id : ℕ

signature_or : String → Option AlloySignature → Result Signature
unfolding alloy_sig_to_evm_sig
signature_or reason none = err (signing reason)
signature_or reason (some sig) = ok (alloy_sig_to_evm_sig sig)

module _ (c : Crates) (signer : EvmSigner) where
  unfoldable pub sign_eip712_erc20swap_claim :
      (erc20swap_address : Address) (erc20swap_version : String) (preimage : Bytes32) (amount : ℕ)
      (token_address refund_address : Address) (timelock : ℕ) (destination : Address)
      → Result Signature
  unfolding signature_or
  sign_eip712_erc20swap_claim erc20swap_address erc20swap_version preimage amount token_address
        refund_address timelock destination =
      signature_or "ERC20Swap EIP-712 signing failed" (
        c.sign_typed_data signer.private_key
          (erc20swap_claim preimage amount token_address refund_address timelock destination)
          (record {
            name = "ERC20Swap";
            version = erc20swap_version;
            chain_id = signer.chain_id;
            verifying_contract = erc20swap_address;
          }))

  -- The domain of the three signatures that the router checks.
  router_domain : Address → Eip712Domain
  router_domain router_address = record {
    name = "Router";
    version = "2";
    chain_id = signer.chain_id;
    verifying_contract = router_address;
  }

  unfoldable pub sign_eip712_router_claim :
      (router_address : Address) (preimage : Bytes32) (token : Address) (min_amount_out : ℕ)
      (destination : Address)
      → Result Signature
  unfolding signature_or router_domain
  sign_eip712_router_claim router_address preimage token min_amount_out destination =
      signature_or "Router Claim EIP-712 signing failed" (
        c.sign_typed_data signer.private_key
          (router_claim preimage token min_amount_out destination) (router_domain router_address))

  unfoldable pub sign_eip712_router_claim_send :
      (router_address : Address) (preimage : Bytes32) (token oft : Address)
      (send_data_hash : Bytes32) (min_amount_ld lz_token_fee : ℕ) (refund_address : Address)
      → Result Signature
  unfolding signature_or router_domain
  sign_eip712_router_claim_send router_address preimage token oft send_data_hash min_amount_ld
        lz_token_fee refund_address =
      signature_or "Router ClaimSend EIP-712 signing failed" (
        c.sign_typed_data signer.private_key
          (router_claim_send preimage token oft send_data_hash min_amount_ld lz_token_fee
            refund_address)
          (router_domain router_address))

  unfoldable pub sign_eip712_router_claim_cctp :
      (router_address : Address) (preimage : Bytes32) (token token_messenger : Address)
      (cctp_data_hash : Bytes32) (min_amount : ℕ)
      → Result Signature
  unfolding signature_or router_domain
  sign_eip712_router_claim_cctp router_address preimage token token_messenger cctp_data_hash
        min_amount =
      signature_or "Router ClaimCctp EIP-712 signing failed" (
        c.sign_typed_data signer.private_key
          (router_claim_cctp preimage token token_messenger cctp_data_hash min_amount)
          (router_domain router_address))
