-- ===== src/Manager/Receipt.antt =====
-- One check of a claim receipt, and the adoption of a claim that won on-chain.
use boltz_client.Prelude.{String, Bool, true, false, ◌||◌, Option, none, some, if◌then◌else◌}
use boltz_client.Errors.{Result, ok}
use boltz_client.Models.{BoltzSwap}
use boltz_client.Models.Lifecycle.{is_terminal, is_settling}
use boltz_client.Outside.{TxReceipt, is_success, is_reverted}
use boltz_client.World.{Executor}
use boltz_client.World.Action.{M, pure, ◌>>=◌, ◌>>◌, ask}
use boltz_client.World.Store.{get_swap, upsert_swap}
use boltz_client.Manager.Status.{
  update_swap_status, post_claim_status, direct_completion_has_evidence, apply_delivered_amount,
}

pub data ReceiptOutcome : Type 0 where
  advanced : (reached_terminal : Bool) → ReceiptOutcome
  reverted : ReceiptOutcome
  not_mined : ReceiptOutcome

-- The swap with the receipt's delivery on it is advanced, unless it is `Direct` without evidence.
unfoldable pub finish_claim : Executor → BoltzSwap → M Bool
finish_claim x swap =
    if direct_completion_has_evidence swap
    then (do update_swap_status x swap (post_claim_status swap); pure true)
    else pure false

unfoldable pub apply_to_found :
    Executor → (tx_hash : String) → TxReceipt → Result (Option BoltzSwap) → M Bool
unfolding finish_claim
apply_to_found x tx_hash receipt (ok (some swap)) =
    finish_claim x (apply_delivered_amount x swap receipt tx_hash)
apply_to_found x tx_hash receipt _ = pure true

unfoldable pub apply_successful_receipt : Executor → (swap_id tx_hash : String) → TxReceipt → M Bool
unfolding apply_to_found
apply_successful_receipt x swap_id tx_hash receipt = do
  found ← get_swap x.outside swap_id
  apply_to_found x tx_hash receipt found

unfoldable pub outcome_of :
    Executor → (swap_id tx_hash : String) → Result (Option TxReceipt) → M ReceiptOutcome
unfolding apply_successful_receipt
outcome_of x swap_id tx_hash (ok (some receipt)) =
    if is_success receipt
    then (do
      reached_terminal ← apply_successful_receipt x swap_id tx_hash receipt
      pure (advanced reached_terminal))
    else if is_reverted receipt
    then pure reverted
    else pure not_mined
outcome_of x swap_id tx_hash _ = pure not_mined

unfoldable pub check_receipt_once : Executor → (swap_id tx_hash : String) → M ReceiptOutcome
unfolding outcome_of
check_receipt_once x swap_id tx_hash = do
  answer ← ask (λ n. x.outside.eth_get_transaction_receipt n tx_hash)
  outcome_of x swap_id tx_hash answer

unfoldable pub reached : ReceiptOutcome → Bool
reached (advanced reached_terminal) = reached_terminal
reached _ = false

unfoldable pub read_winning : Executor → (swap_id claim_tx_hash : String) → M Bool
unfolding reached
read_winning x swap_id claim_tx_hash = do
  outcome ← check_receipt_once x swap_id claim_tx_hash
  pure (reached outcome)

unfoldable pub adopt :
    Executor → (swap_id claim_tx_hash : String) → Result (Option BoltzSwap) → M Bool
unfolding read_winning
adopt x swap_id claim_tx_hash (ok (some s)) =
    if is_terminal s.status || is_settling s.status then pure true else do
      now ← ask x.outside.unix_time
      upsert_swap x.outside (record s {
        claim_tx_hash = some claim_tx_hash;
        pending_call_id = none;
        updated_at = now;
      })
      read_winning x swap_id claim_tx_hash
adopt x swap_id claim_tx_hash _ = read_winning x swap_id claim_tx_hash

unfoldable pub advance_via_winning_claim : Executor → (swap_id claim_tx_hash : String) → M Bool
unfolding adopt
advance_via_winning_claim x swap_id claim_tx_hash = do
  found ← get_swap x.outside swap_id
  adopt x swap_id claim_tx_hash found
