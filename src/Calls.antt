-- ===== src/Calls.antt =====
-- The structs of crates/lib/src/evm/contracts.rs that a claim fills: the router calls before their ABI
-- encoding, the bridge data that the router's signature covers by hash, and the OFT's quote.
use boltz_client.Prelude.{ℕ, List, [], ◌∷◌}
use boltz_client.Crates.{Crates, Bytes, Bytes32, Address, Signature, bytes32, uint256}

pub record Call : Type 0 where
  pub target : Address
  pub value : ℕ
  pub call_data : Bytes

pub record Erc20Claim : Type 0 where
  pub preimage : Bytes32
  pub amount : ℕ
  pub token_address : Address
  pub refund_address : Address
  pub timelock : ℕ
  pub signature : Signature

pub record SendData : Type 0 where
  pub dst_eid : ℕ
  pub to : Bytes32
  pub extra_options : Bytes
  pub compose_msg : Bytes
  pub oft_cmd : Bytes

pub record ClaimSendAuthorization : Type 0 where
  pub min_amount_ld : ℕ
  pub lz_token_fee : ℕ
  pub refund_address : Address
  pub signature : Signature

pub record CctpData : Type 0 where
  pub destination_domain : ℕ
  pub mint_recipient : Bytes32
  pub destination_caller : Bytes32
  pub max_fee : ℕ
  pub min_finality_threshold : ℕ
  pub hook_data : Bytes

pub record ClaimCctpAuthorization : Type 0 where
  pub min_amount : ℕ
  pub signature : Signature

-- The router call that a claim submits: the arguments of `encode_claim_erc20_execute`,
-- `encode_claim_erc20_execute_oft` and `encode_claim_erc20_execute_cctp`.
pub data ClaimCall : Type 0 where
  execute :
      (claim : Erc20Claim) (calls : List Call) (token : Address) (min_amount_out : ℕ)
      (destination : Address) (authorization : Signature)
      → ClaimCall
  execute_oft :
      (claim : Erc20Claim) (calls : List Call) (token oft : Address) (send_data : SendData)
      (authorization : ClaimSendAuthorization)
      → ClaimCall
  execute_cctp :
      (claim : Erc20Claim) (calls : List Call) (token token_messenger : Address)
      (cctp_data : CctpData) (authorization : ClaimCctpAuthorization)
      → ClaimCall

pub record OftSendParam : Type 0 where
  pub dst_eid : ℕ
  pub to : Bytes32
  pub amount_ld : ℕ
  pub min_amount_ld : ℕ
  pub extra_options : Bytes
  pub compose_msg : Bytes
  pub oft_cmd : Bytes

pub record OftLimit : Type 0 where
  pub min_amount_ld : ℕ
  pub max_amount_ld : ℕ

pub record OftReceipt : Type 0 where
  pub amount_sent_ld : ℕ
  pub amount_received_ld : ℕ

pub record MessagingFee : Type 0 where
  pub native_fee : ℕ
  pub lz_token_fee : ℕ

unfoldable pub build_oft_send_param :
    (dst_eid : ℕ) (to : Bytes32) (amount_ld min_amount_ld : ℕ) (extra_options : Bytes)
    → OftSendParam
build_oft_send_param dst_eid to amount_ld min_amount_ld extra_options = record {
  dst_eid = dst_eid;
  to = to;
  amount_ld = amount_ld;
  min_amount_ld = min_amount_ld;
  extra_options = extra_options;
  compose_msg = [];
  oft_cmd = [];
}

unfoldable pub hash_send_data : Crates → (typehash : Bytes32) → SendData → Bytes32
hash_send_data c typehash d = c.keccak256 (
    c.abi_encode (
      bytes32 typehash
      ∷ uint256 d.dst_eid
      ∷ bytes32 d.to
      ∷ bytes32 (c.keccak256 d.extra_options)
      ∷ bytes32 (c.keccak256 d.compose_msg)
      ∷ bytes32 (c.keccak256 d.oft_cmd)
      ∷ []))

unfoldable pub hash_cctp_data : Crates → (typehash : Bytes32) → CctpData → Bytes32
hash_cctp_data c typehash d = c.keccak256 (
    c.abi_encode (
      bytes32 typehash
      ∷ uint256 d.destination_domain
      ∷ bytes32 d.mint_recipient
      ∷ bytes32 d.destination_caller
      ∷ uint256 d.max_fee
      ∷ uint256 d.min_finality_threshold
      ∷ bytes32 (c.keccak256 d.hook_data)
      ∷ []))
