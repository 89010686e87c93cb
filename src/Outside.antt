-- ===== src/Outside.antt =====
-- The network, the store, the clock and the gas sponsor, as answers to numbered calls: a field's
-- first argument is the number of the call, so two equal questions may be answered differently.
use boltz_client.Prelude.{ℕ, String, Option, none, some, Bool, false, List, same_text}
use boltz_client.Errors.{BoltzError, Result}
use boltz_client.Crates.{Bytes32, Address}
use boltz_client.Fees.{PairFees}
use boltz_client.Calls.{ClaimCall, OftSendParam, OftLimit, OftReceipt, MessagingFee}

-- `LogEntry` and `TxReceipt` of crates/lib/src/evm/provider.rs.
pub record LogEntry : Type 0 where
  pub address : String
  pub topics : List String
  pub payload : String
  pub block_number : String
  pub transaction_hash : String

pub record TxReceipt : Type 0 where
  pub transaction_hash : String
  pub status : Option String
  pub block_hash : String
  pub block_number : String
  pub gas_used : String
  pub logs : List LogEntry

unfoldable pub has_status : Option String → String → Bool
has_status none text = false
has_status (some status) text = same_text status text

unfoldable pub is_success : TxReceipt → Bool
unfolding has_status
is_success receipt = has_status receipt.status "0x1"

unfoldable pub is_reverted : TxReceipt → Bool
unfolding has_status
is_reverted receipt = has_status receipt.status "0x0"

-- `DecodedLockupEvent` of evm/contracts.rs; the amounts are `U256`.
pub record LockupEvent : Type 0 where
  pub preimage_hash : Bytes32
  pub amount : ℕ
  pub token_address : Address
  pub claim_address : Address
  pub refund_address : Address
  pub timelock : ℕ

-- `QuoteResponse`, `EncodeRequest` and `QuoteCalldata` of api/types.rs; `detail` is the JSON `data`.
pub record QuoteResponse : Type 0 where
  pub quote : String
  pub detail : String

pub record EncodeRequest : Type 0 where
  pub recipient : Address
  pub amount_in : ℕ
  pub amount_out_min : ℕ
  pub detail : String

pub record QuoteCalldata : Type 0 where
  pub target : String
  pub value : String
  pub payload : String

-- `CctpMessageSnapshot` of evm/cctp.rs.
pub record CctpSnapshot : Type 0 where
  pub status : Option String
  pub attestation : Option String
  pub forward_tx_hash : Option String
  pub message : Option String
  pub forward_state : Option String
  pub forward_error_code : Option String

-- `CctpFeeEntry` of evm/cctp.rs. A JSON number is its text.
pub data JsonValue : Type 0 where
  text number : String → JsonValue
  other : JsonValue

pub record CctpFeeEntry : Type 0 where
  pub finality_threshold : ℕ
  pub minimum_fee : JsonValue
  pub forward_fee : Option JsonValue

-- `ReversePairInfo` of api/types.rs; its rate is not read.
pub record PairLimits : Type 0 where
  pub minimal : ℕ  -- u64
  pub maximal : ℕ  -- u64

pub record ReversePairInfo : Type 0 where
  pub hash : String
  pub limits : PairLimits
  pub fees : PairFees

-- `CreateReverseSwapRequest` of api/types.rs; the description is never set.
pub record CreateReverseSwapRequest : Type 0 where
  pub from : String
  pub to : String
  pub preimage_hash : String
  pub claim_address : String
  pub invoice_amount : ℕ  -- u64
  pub pair_hash : String
  pub referral_id : String
  pub claim_public_key : String
  pub invoice_expiry : Option ℕ  -- u64

-- `CreateReverseSwapResponse`, without the fields of swaps that are no EVM swaps.
pub record CreateReverseSwapResponse : Type 0 where
  pub id : String
  pub invoice : String
  pub lockup_address : String
  pub timeout_block_height : ℕ  -- u64
  pub onchain_amount : ℕ  -- u64
  pub refund_address : Option String

-- What an HTTP GET gives: no answer, or a status code and the JSON body if it parses.
pub data Reply (A : Type 0) : Type 0 where
  unreachable : Reply A
  answered : (code : ℕ) (body : Option A) → Reply A

pub record Outside : Type 0 where
  pub unix_time : ℕ → ℕ
  pub random_bytes : ℕ → Option Bytes32  -- `getrandom`
  -- The embedder's `BoltzStorage`: whether this call fails. A call that fails changes nothing.
  pub upsert_fault : ℕ → Option BoltzError
  pub get_fault : ℕ → Option BoltzError
  pub list_fault : ℕ → Option BoltzError
  -- Whether the WebSocket reader loop is gone.
  pub subscribe_fault : ℕ → Option BoltzError
  -- Arbitrum JSON-RPC. The three contract views are `eth_call`s with their ABI coding.
  pub hash_values : ℕ → String → LockupEvent → Result Bytes32
  pub swaps : ℕ → String → Bytes32 → Result Bool
  pub erc20swap_version : ℕ → String → Result String
  pub eth_get_logs : ℕ → String → String → String → ℕ → ℕ → Result (List LogEntry)
  pub eth_get_transaction_receipt : ℕ → String → Result (Option TxReceipt)
  pub eth_block_number : ℕ → Result ℕ
  pub eth_l1_block_number : ℕ → Result ℕ
  -- The Boltz swap API; the pairs are a map of maps.
  pub get_reverse_swap_pairs : ℕ → Result (String → Option (String → Option ReversePairInfo))
  pub create_reverse_swap : ℕ → CreateReverseSwapRequest → Result CreateReverseSwapResponse
  -- The Boltz DEX API.
  pub get_quote_in : ℕ → String → String → ℕ → Result (List QuoteResponse)
  pub get_quote_out : ℕ → String → String → ℕ → Result (List QuoteResponse)
  pub encode_quote : ℕ → EncodeRequest → Result (List QuoteCalldata)
  -- The gas sponsor.
  pub submit_calls : ℕ → String → ClaimCall → ℕ → Bytes32 → Result String
  pub poll_call_status : ℕ → String → Result String
  -- Circle Iris, LayerZero Scan, and the Solana account probe.
  pub iris_messages : ℕ → ℕ → String → Reply (List CctpSnapshot)
  pub lz_messages : ℕ → String → Reply (List (Option (Option String)))
  pub account_exists : ℕ → String → Result Bool
  -- The views of the OFT, of the token and of the router that a bridged claim reads.
  pub quote_oft : ℕ → (oft : String) → OftSendParam → Result (OftLimit × OftReceipt)
  pub quote_send : ℕ → (oft : String) → OftSendParam → Result MessagingFee
  pub approval_required : ℕ → (oft : Address) → Result Bool
  pub allowance : ℕ → (token owner spender : Address) → Result ℕ
  pub typehash_send_data : ℕ → (router : String) → Result Bytes32
  pub typehash_cctp_data : ℕ → (router : String) → Result Bytes32
  -- Circle's fee list, by the two domains and whether the recipient's account must be set up.
  pub iris_fees : ℕ → (source destination : ℕ) → (setup : Bool) → Reply (List CctpFeeEntry)
