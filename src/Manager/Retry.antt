-- ===== src/Manager/Retry.antt =====
-- Claiming, and what is done when a claim is found unfinished: re-check the lock, classify a spent
-- lockup, poll the receipt, and claim again only while the funds are still locked.
use boltz_client.Prelude.{ℕ, zero, suc, String, Bool, true, false, Option, none, some}
use boltz_client.Errors.{Result, ok, err, quote_degraded_beyond_slippage}
use boltz_client.Models.{BoltzSwap}
use boltz_client.Models.Lifecycle.{claiming, tbtc_locked, failed}
use boltz_client.Lockup.{
  SpentClassification, claimed, refunded, unknown, is_swap_still_locked_by_swap,
  classify_spent_lockup,
}
use boltz_client.Claim.{claim_and_swap}
use boltz_client.World.{Executor, quote_degraded}
use boltz_client.World.Action.{M, pure, ◌>>=◌, ◌>>◌, ask, emit}
use boltz_client.World.Store.{get_swap, upsert_swap}
use boltz_client.Manager.Status.{update_swap_status}
use boltz_client.Manager.Receipt.{
  ReceiptOutcome, advanced, reverted, not_mined, check_receipt_once, advance_via_winning_claim,
}

unfoldable pub after_claim : Executor → BoltzSwap → Result String → M (Unit {0})
after_claim x swap (ok tx_hash) = do
  now ← ask x.outside.unix_time
  upsert_swap x.outside (record swap { claim_tx_hash = some tx_hash; updated_at = now })
  pure tt
after_claim x swap (err (quote_degraded_beyond_slippage expected_usd quoted_usd)) = do
  now ← ask x.outside.unix_time
  upsert_swap x.outside (record swap { status = tbtc_locked; updated_at = now })
  emit (
      quote_degraded (record swap { status = tbtc_locked; updated_at = now }) expected_usd
        quoted_usd)
after_claim x swap (err e) = pure tt

unfoldable pub do_claim : Executor → BoltzSwap → (skip_drift_check : Bool) → M (Unit {0})
unfolding after_claim
do_claim x swap skip_drift_check = do
  s ← update_swap_status x swap claiming
  result ← claim_and_swap x s skip_drift_check
  after_claim x s result

-- Only a refund finalizes; a claim advances the swap, and anything else leaves it for retry.
unfoldable pub settle_spent :
    Executor → BoltzSwap → (reason : String) → Result SpentClassification → M Bool
settle_spent x swap reason (ok (claimed claim_tx_hash)) =
    advance_via_winning_claim x swap.id claim_tx_hash
settle_spent x swap reason (ok refunded) = do update_swap_status x swap (failed reason); pure true
settle_spent x swap reason (ok unknown) = pure false
settle_spent x swap reason (err e) = pure false

unfoldable pub classify_and_settle : Executor → BoltzSwap → (reason : String) → M Bool
unfolding settle_spent
classify_and_settle x swap reason = do
  classified ← classify_spent_lockup x swap
  settle_spent x swap reason classified

unfoldable pub retry_or_settle : Executor → BoltzSwap → Result Bool → M (Unit {0})
unfolding do_claim classify_and_settle
retry_or_settle x swap (ok true) = do
  now ← ask x.outside.unix_time
  upsert_swap x.outside (record swap { status = tbtc_locked; updated_at = now })
  do_claim x (record swap { status = tbtc_locked; updated_at = now }) false
retry_or_settle x swap (ok false) = do classify_and_settle x swap "Lockup refunded"; pure tt
retry_or_settle x swap (err e) = pure tt

unfoldable pub check_on_chain_and_retry : Executor → BoltzSwap → M (Unit {0})
unfolding retry_or_settle
check_on_chain_and_retry x swap = do
  locked ← is_swap_still_locked_by_swap x swap
  retry_or_settle x swap locked

unfoldable pub recover_locked : Executor → BoltzSwap → Result Bool → M Bool
unfolding do_claim classify_and_settle
recover_locked x swap (ok true) = do
  do_claim x (record swap { claim_tx_hash = none }) false
  pure false
recover_locked x swap (ok false) = classify_and_settle x swap "Lockup refunded"
recover_locked x swap (err e) = pure false

unfoldable pub recover_found : Executor → Result (Option BoltzSwap) → M Bool
unfolding recover_locked
recover_found x (ok (some swap)) = do
  locked ← is_swap_still_locked_by_swap x swap
  recover_locked x swap locked
recover_found x _ = pure false

unfoldable pub recover_from_reverted_receipt : Executor → (swap_id : String) → M Bool
unfolding recover_found
recover_from_reverted_receipt x swap_id = do
  found ← get_swap x.outside swap_id
  recover_found x found

unfoldable pub on_outcome : Executor → (swap_id : String) → ReceiptOutcome → M Bool → M Bool
unfolding recover_from_reverted_receipt
on_outcome x swap_id (advanced reached_terminal) rest = pure reached_terminal
on_outcome x swap_id reverted rest = recover_from_reverted_receipt x swap_id
on_outcome x swap_id not_mined rest = rest

-- The receipt polls, by how many are left.
unfoldable pub poll_receipt_for : Executor → (swap_id tx_hash : String) → (left : ℕ) → M Bool
unfolding on_outcome
poll_receipt_for x swap_id tx_hash zero = pure false
poll_receipt_for x swap_id tx_hash (suc left) = do
  outcome ← check_receipt_once x swap_id tx_hash
  on_outcome x swap_id outcome (poll_receipt_for x swap_id tx_hash left)

abbrev pub receipt_poll_max_attempts : ℕ
receipt_poll_max_attempts = 60

unfoldable pub poll_receipt : Executor → (swap_id tx_hash : String) → M Bool
unfolding poll_receipt_for
poll_receipt x swap_id tx_hash = poll_receipt_for x swap_id tx_hash receipt_poll_max_attempts

unfoldable pub note_recovered :
    Executor → (tx_hash : String) → Result (Option BoltzSwap) → M (Unit {0})
note_recovered x tx_hash (ok (some s)) = do
  now ← ask x.outside.unix_time
  upsert_swap x.outside
      (record s { claim_tx_hash = some tx_hash; pending_call_id = none; updated_at = now })
  pure tt
note_recovered x tx_hash _ = pure tt

unfoldable pub resume_with : Executor → BoltzSwap → Result String → M Bool
unfolding note_recovered poll_receipt check_on_chain_and_retry
resume_with x swap (ok tx_hash) = do
  found ← get_swap x.outside swap.id
  note_recovered x tx_hash found
  poll_receipt x swap.id tx_hash
resume_with x swap (err e) = do check_on_chain_and_retry x swap; pure false

-- `poll_pending_call` of reverse.rs is the sponsor's poll.
unfoldable pub resume_pending_call : Executor → BoltzSwap → (call_id : String) → M Bool
unfolding resume_with
resume_pending_call x swap call_id = do
  result ← ask (λ n. x.outside.poll_call_status n call_id)
  resume_with x swap result

unfoldable pub resume_claim : Executor → BoltzSwap → Option String → Option String → M (Unit {0})
unfolding poll_receipt resume_pending_call check_on_chain_and_retry
resume_claim x swap (some tx_hash) pending = do poll_receipt x swap.id tx_hash; pure tt
resume_claim x swap none (some call_id) = do resume_pending_call x swap call_id; pure tt
resume_claim x swap none none = check_on_chain_and_retry x swap

unfoldable pub handle_claiming_resume : Executor → BoltzSwap → M (Unit {0})
unfolding resume_claim
handle_claiming_resume x swap = resume_claim x swap swap.claim_tx_hash swap.pending_call_id
