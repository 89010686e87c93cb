-- ===== src/Contracts/Delivered.antt =====
-- The delivered-amount decoders of crates/lib/src/evm/contracts.rs: what a claim receipt's logs say
-- was delivered. A log that matches and cannot be decoded is passed over.
use boltz_client.Prelude.{
  ℕ, String, ◌+◌, ◌-◌, ◌*◌, Bool, false, ◌&&◌, Option, none, some, List, [], ◌∷◌, take, drop,
  length, ltb, leb, strip_0x, if◌then◌else◌,
}
use Prim.Native.String.{◌++◌ as append_text}
use boltz_client.Config.{u64_limit}
use boltz_client.Errors.{ok, err}
use boltz_client.Crates.{Crates, Address, Bytes}
use boltz_client.Outside.{LogEntry}
use boltz_client.Contracts.{parse_hex_bytes, addresses_equal, topics_equal, address_to_topic}

pub data DeliveredAmountSource : Type 0 where
  arbitrum_transfer : (token user : Address) → DeliveredAmountSource
  oft_sent : (oft_contract : Address) → DeliveredAmountSource
  cctp : (message_transmitter : Address) → DeliveredAmountSource

pub record DeliveredAmount : Type 0 where
  pub amount : ℕ
  pub lz_guid : Option String
  pub cctp_source_domain : Option ℕ

-- Big-endian bytes.
unfoldable pub from_be : ℕ → List ℕ → ℕ
from_be acc [] = acc
from_be acc (b ∷ bs) = from_be (acc * 256 + b) bs

-- `read_u32_be` and `read_u256_be`: `none` if the message is too short.
unfoldable pub read_be : (width : ℕ) → Bytes → (offset : ℕ) → Option ℕ
unfolding from_be
read_be width msg offset =
    if leb (offset + width) (length msg)
    then some (from_be 0 (take width (drop offset msg)))
    else none

-- `u64::try_from`.
unfoldable pub to_u64 : ℕ → Option ℕ
to_u64 n = if ltb n u64_limit then some n else none

-- The first log that gives an amount.
unfoldable pub first_decoded :
    (LogEntry → Option DeliveredAmount) → List LogEntry → Option DeliveredAmount
first_decoded decode [] = none
first_decoded decode (log ∷ logs) =
    let rest = first_decoded decode logs in elim (decode log) [ some d ↦ some d | none ↦ rest ]

module _ (c : Crates) where
  decoded_bytes : String → (Bytes → Option DeliveredAmount) → Option DeliveredAmount
  decoded_bytes text f = elim (parse_hex_bytes c text) [ ok bytes ↦ f bytes | err e ↦ none ]

  plain_amount : Option ℕ → Option DeliveredAmount
  plain_amount none = none
  plain_amount (some n) = some (record { amount = n; lz_guid = none; cctp_source_domain = none })

  transfer_value : Option ℕ → Option DeliveredAmount
  unfolding plain_amount to_u64
  transfer_value none = none
  transfer_value (some value) = plain_amount (to_u64 value)

  transfer_topics : Address → List String → Bool
  transfer_topics user (t0 ∷ t1 ∷ t2 ∷ rest) =
      topics_equal t0 c.topics.transfer && topics_equal t2 (address_to_topic c user)
  transfer_topics user _ = false

  -- The body of the loop of `decode_arbitrum_transfer`.
  unfoldable pub decode_transfer : (token user : Address) → LogEntry → Option DeliveredAmount
  unfolding decoded_bytes transfer_value transfer_topics
  decode_transfer token user log =
      if addresses_equal c log.address token && transfer_topics user log.topics
      then decoded_bytes log.payload (λ bytes. transfer_value (c.abi_u256 bytes))
      else none

  guid_amount : String → Option ℕ → Option DeliveredAmount
  guid_amount guid none = none
  guid_amount guid (some n) =
      some (record { amount = n; lz_guid = some guid; cctp_source_domain = none })

  oft_value : String → Option (ℕ × ℕ × ℕ) → Option DeliveredAmount
  unfolding guid_amount to_u64
  oft_value guid none = none
  oft_value guid (some (dst_eid, amount_sent, amount_received)) =
      guid_amount guid (to_u64 amount_received)

  -- One `0x` before the topic in lower case.
  guid_text : String → String
  guid_text topic = append_text "0x" (c.to_lowercase (strip_0x topic))

  oft_log : LogEntry → List String → Option DeliveredAmount
  unfolding decoded_bytes oft_value guid_text
  oft_log log (t0 ∷ t1 ∷ t2 ∷ rest) =
      if topics_equal t0 c.topics.oft_sent
      then decoded_bytes log.payload (λ bytes. oft_value (guid_text t1) (c.abi_oft_sent bytes))
      else none
  oft_log log _ = none

  -- The body of the loop of `decode_oft_sent`.
  unfoldable pub decode_oft : (oft_contract : Address) → LogEntry → Option DeliveredAmount
  unfolding oft_log
  decode_oft oft_contract log =
      if addresses_equal c log.address oft_contract then oft_log log log.topics else none

  burn_amount : Option ℕ → Option ℕ → Option ℕ → Option DeliveredAmount
  unfolding to_u64
  burn_amount (some domain) (some amount) (some fee_executed) =
      if ltb (amount - fee_executed) u64_limit
      then some (record {
        amount = amount - fee_executed;
        lz_guid = none;
        cctp_source_domain = some domain;
      })
      else none
  burn_amount _ _ _ = none

  -- The offsets of the source domain, the burnt amount and the executed fee in a CCTP v2 message.
  burn_message : Option Bytes → Option DeliveredAmount
  unfolding burn_amount read_be
  burn_message none = none
  burn_message (some msg) = burn_amount (read_be 4 msg 4) (read_be 32 msg 216) (read_be 32 msg 312)

  cctp_log : LogEntry → List String → Option DeliveredAmount
  unfolding decoded_bytes burn_message
  cctp_log log [] = none
  cctp_log log (t0 ∷ rest) =
      if topics_equal t0 c.topics.message_sent
      then decoded_bytes log.payload (λ bytes. burn_message (c.abi_bytes bytes))
      else none

  -- The body of the loop of `decode_cctp_sent`.
  unfoldable pub decode_cctp : (message_transmitter : Address) → LogEntry → Option DeliveredAmount
  unfolding cctp_log
  decode_cctp message_transmitter log =
      if addresses_equal c log.address message_transmitter then cctp_log log log.topics else none

  unfoldable pub decode_delivered_from_logs :
      List LogEntry → DeliveredAmountSource → Option DeliveredAmount
  unfolding decode_transfer decode_oft decode_cctp first_decoded
  decode_delivered_from_logs logs (arbitrum_transfer token user) =
      first_decoded (decode_transfer token user) logs
  decode_delivered_from_logs logs (oft_sent oft_contract) =
      first_decoded (decode_oft oft_contract) logs
  decode_delivered_from_logs logs (cctp message_transmitter) =
      first_decoded (decode_cctp message_transmitter) logs

  attested_amount : Option ℕ → Option ℕ → Option ℕ
  unfolding to_u64
  attested_amount (some amount) (some fee) = if ltb amount fee then none else to_u64 (amount - fee)
  attested_amount _ _ = none

  unfoldable pub decode_cctp_delivered_from_message : String → Option ℕ
  unfolding attested_amount read_be
  decode_cctp_delivered_from_message text = elim (parse_hex_bytes c text) [
    | ok msg ↦ attested_amount (read_be 32 msg 216) (read_be 32 msg 312)
    | err e ↦ none
  ]

  unfoldable pub decode_cctp_nonce_from_message : String → Option Bytes
  decode_cctp_nonce_from_message text = elim (parse_hex_bytes c text) [
    | ok msg ↦ if leb 44 (length msg) then some (take 32 (drop 12 msg)) else none
    | err e ↦ none
  ]
