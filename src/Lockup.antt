-- ===== src/Lockup.antt =====
-- crates/lib/src/evm/lockup.rs: is the swap's tBTC still locked, and if not, who spent it.
pub mod Effects
use boltz_client.Prelude.{
  ℕ, String, ◌*◌, Bool, Option, none, some, List, [], ◌∷◌, ltb, from_str_radix, strip_0x,
  if◌then◌else◌,
}
use boltz_client.Config.{arbitrum_tbtc_address, sats_to_tbtc_factor, u64_limit, u256_limit}
use boltz_client.Errors.{Result, ok, err, generic}
use boltz_client.Models.{BoltzSwap}
use boltz_client.Outside.{LockupEvent, LogEntry, TxReceipt}
use boltz_client.Contracts.{parse_address, bytes32_to_topic}
use boltz_client.World.{Executor}
use boltz_client.World.Action.{M, pure, ◌>?>◌, ask}

-- `U256::from(onchain_amount).checked_mul(SATS_TO_TBTC_FACTOR)`.
unfoldable pub tbtc_evm_amount : BoltzSwap → Result ℕ
tbtc_evm_amount swap =
    if ltb (swap.onchain_amount * sats_to_tbtc_factor) u256_limit
    then ok (swap.onchain_amount * sats_to_tbtc_factor)
    else err (generic "tBTC EVM amount overflow")

unfoldable pub is_swap_still_locked : Executor → String → LockupEvent → M (Result Bool)
is_swap_still_locked x erc20swap_address event =
    ask (λ n. x.outside.hash_values n erc20swap_address event) >?> λ swap_hash.
    ask (λ n. x.outside.swaps n erc20swap_address swap_hash)

unfoldable pub is_swap_still_locked_by_swap : Executor → BoltzSwap → M (Result Bool)
is_swap_still_locked_by_swap x swap = pure (x.secrets.preimage_hash swap) >?> λ preimage_hash.
    pure (tbtc_evm_amount swap) >?> λ amount.
    pure (parse_address x.crates arbitrum_tbtc_address) >?> λ token_address.
    pure (parse_address x.crates swap.claim_address) >?> λ claim_address.
    pure (parse_address x.crates swap.refund_address) >?> λ refund_address.
    is_swap_still_locked x swap.erc20swap_address (record {
      preimage_hash = preimage_hash;
      amount = amount;
      token_address = token_address;
      claim_address = claim_address;
      refund_address = refund_address;
      timelock = swap.timeout_block_height;
    })

pub data SpentClassification : Type 0 where
  claimed : (claim_tx_hash : String) → SpentClassification
  refunded : SpentClassification
  unknown : SpentClassification

unfoldable pub parse_block_hex : String → Option ℕ
parse_block_hex text = from_str_radix 16 u64_limit (strip_0x text)

-- The range ends at the latest block, or at the lockup's own if that is later.
unfoldable pub range_to : Executor → Option ℕ → M (Result (Option (ℕ × ℕ)))
range_to x none = pure (ok none)
range_to x (some from_block) = ask x.outside.eth_block_number >?> λ latest.
    pure (ok (some (from_block, if ltb latest from_block then from_block else latest)))

unfoldable pub range_of_receipt : Executor → Option TxReceipt → M (Result (Option (ℕ × ℕ)))
unfolding range_to parse_block_hex
range_of_receipt x none = pure (ok none)
range_of_receipt x (some receipt) = range_to x (parse_block_hex receipt.block_number)

unfoldable pub range_from : Executor → Option String → M (Result (Option (ℕ × ℕ)))
unfolding range_of_receipt
range_from x none = pure (ok none)
range_from x (some lockup_tx_id) =
    ask (λ n. x.outside.eth_get_transaction_receipt n lockup_tx_id) >?> range_of_receipt x

unfoldable pub resolve_lockup_block_range : Executor → BoltzSwap → M (Result (Option (ℕ × ℕ)))
unfolding range_from
resolve_lockup_block_range x swap = range_from x swap.lockup_tx_id

refund_seen : List LogEntry → SpentClassification
refund_seen [] = unknown
refund_seen (log ∷ logs) = refunded

module _ (x : Executor) (swap : BoltzSwap) (preimage_topic : String) (from_block to_block : ℕ) where
  logs_of : String → M (Result (List LogEntry))
  logs_of topic0 =
      ask λ n.
        x.outside.eth_get_logs n swap.erc20swap_address topic0 preimage_topic from_block to_block

  by_claim_logs : List LogEntry → M (Result SpentClassification)
  unfolding logs_of refund_seen
  by_claim_logs (log ∷ logs) = pure (ok (claimed log.transaction_hash))
  by_claim_logs [] = logs_of x.crates.topics.refund >?> λ logs. pure (ok (refund_seen logs))

  classify_between : M (Result SpentClassification)
  unfolding logs_of by_claim_logs
  classify_between = logs_of x.crates.topics.claim >?> by_claim_logs

unfoldable pub classify_in :
    Executor → BoltzSwap → String → Option (ℕ × ℕ) → M (Result SpentClassification)
unfolding classify_between
classify_in x swap preimage_topic none = pure (ok unknown)
classify_in x swap preimage_topic (some (from_block, to_block)) =
    classify_between x swap preimage_topic from_block to_block

unfoldable pub classify_spent_lockup : Executor → BoltzSwap → M (Result SpentClassification)
unfolding resolve_lockup_block_range classify_in
classify_spent_lockup x swap = pure (x.secrets.preimage_hash swap) >?> λ preimage_hash.
    resolve_lockup_block_range x swap >?> λ range.
    classify_in x swap (bytes32_to_topic x.crates preimage_hash) range
