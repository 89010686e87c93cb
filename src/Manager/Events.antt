-- ===== src/Manager/Events.antt =====
-- `handle_ws_update` of crates/lib/src/swap/manager.rs: what a WebSocket status does to a swap.
use boltz_client.Prelude.{String, Bool, true, false, Option, none, some, same_text, if◌then◌else◌}
use boltz_client.Errors.{Result, ok, err}
use boltz_client.Models.{BoltzSwap}
use boltz_client.Models.Lifecycle.{
  Status, created, invoice_paid, tbtc_locked, expired, failed, is_terminal, is_settling,
  is_claiming, lt_status,
}
use boltz_client.Lockup.{
  SpentClassification, claimed, refunded, unknown, is_swap_still_locked_by_swap,
  classify_spent_lockup,
}
use boltz_client.World.{Executor, swap_updated}
use boltz_client.World.Action.{M, pure, ◌>>=◌, ◌>>◌, ask, emit}
use boltz_client.World.Store.{get_swap, upsert_swap, unsubscribe, untrack, is_tracked}
use boltz_client.Manager.Status.{update_swap_status, post_claim_status}
use boltz_client.Manager.Receipt.{advance_via_winning_claim}
use boltz_client.Manager.Retry.{
  do_claim, check_on_chain_and_retry, poll_receipt, resume_pending_call, handle_claiming_resume,
}

-- The status texts of Boltz that the two matches of the source name.
pub data WsStatus : Type 0 where
  swap_created invoice_set invoice_pending invoice_paid_event transaction_mempool : WsStatus
  transaction_confirmed invoice_settled transaction_claimed invoice_expired : WsStatus
  swap_expired_event invoice_failed_to_pay transaction_lockup_failed : WsStatus
  transaction_refunded swap_refunded other : WsStatus

unfoldable pub ws_status : String → WsStatus
ws_status text =
    if same_text text "swap.created"
    then swap_created
    else if same_text text "invoice.set"
    then invoice_set
    else if same_text text "invoice.pending"
    then invoice_pending
    else if same_text text "invoice.paid"
    then invoice_paid_event
    else if same_text text "transaction.mempool"
    then transaction_mempool
    else if same_text text "transaction.confirmed"
    then transaction_confirmed
    else if same_text text "invoice.settled"
    then invoice_settled
    else if same_text text "transaction.claimed"
    then transaction_claimed
    else if same_text text "invoice.expired"
    then invoice_expired
    else if same_text text "swap.expired"
    then swap_expired_event
    else if same_text text "invoice.failedToPay"
    then invoice_failed_to_pay
    else if same_text text "transaction.lockupFailed"
    then transaction_lockup_failed
    else if same_text text "transaction.refunded"
    then transaction_refunded
    else if same_text text "swap.refunded"
    then swap_refunded
    else other

-- `SwapStatusUpdate` of api/ws.rs; of the transaction only the id is read.
pub record SwapStatusUpdate : Type 0 where
  pub swap_id : String
  pub status : String
  pub transaction : Option String
  pub failure_reason : Option String

unfoldable pub stage_of : WsStatus → Option Status
stage_of swap_created = some created
stage_of invoice_set = some created
stage_of invoice_pending = some created
stage_of invoice_paid_event = some invoice_paid
stage_of _ = none

unfoldable pub ws_progress_stage : String → Option Status
unfolding stage_of ws_status
ws_progress_stage text = stage_of (ws_status text)

unfoldable pub before_stage : Option Status → Status → Bool
before_stage none status = false
before_stage (some stage) status = lt_status stage status

-- The monotonicity guard.
unfoldable pub is_stale : SwapStatusUpdate → Status → Bool
unfolding before_stage ws_progress_stage
is_stale update status = before_stage (ws_progress_stage update.status) status

unfoldable pub cleanup_terminal : Executor → (swap_id : String) → M (Unit {0})
cleanup_terminal x swap_id = do unsubscribe x.outside swap_id; untrack swap_id

-- `if reached_terminal { cleanup_terminal(..) }`.
unfoldable pub cleanup_if : Executor → (swap_id : String) → Bool → M (Unit {0})
unfolding cleanup_terminal
cleanup_if x swap_id true = cleanup_terminal x swap_id
cleanup_if x swap_id false = pure tt

unfoldable pub finalize : Executor → BoltzSwap → Status → M (Unit {0})
unfolding cleanup_terminal
finalize x swap terminal_status = do
  update_swap_status x swap terminal_status
  cleanup_terminal x swap.id

-- A terminal event for a swap in `Claiming` whose lockup is spent.
unfoldable pub on_spent : Executor → BoltzSwap → Status → Result SpentClassification → M (Unit {0})
unfolding cleanup_if finalize
on_spent x swap terminal_status (ok (claimed claim_tx_hash)) = do
  resolved ← advance_via_winning_claim x swap.id claim_tx_hash
  cleanup_if x swap.id resolved
on_spent x swap terminal_status (ok refunded) = finalize x swap terminal_status
on_spent x swap terminal_status (ok unknown) = pure tt
on_spent x swap terminal_status (err e) = pure tt

unfoldable pub on_lock_state : Executor → BoltzSwap → Status → Result Bool → M (Unit {0})
unfolding on_spent finalize
on_lock_state x swap terminal_status (ok true) = finalize x swap terminal_status
on_lock_state x swap terminal_status (ok false) = do
  classified ← classify_spent_lockup x swap
  on_spent x swap terminal_status classified
on_lock_state x swap terminal_status (err e) = pure tt

unfoldable pub handle_terminal_ws_event :
    Executor → BoltzSwap → (terminal_status : Status) → M (Unit {0})
unfolding on_lock_state finalize
handle_terminal_ws_event x swap terminal_status =
    if is_claiming swap.status
    then (do
      locked ← is_swap_still_locked_by_swap x swap
      on_lock_state x swap terminal_status locked)
    else finalize x swap terminal_status

unfoldable pub on_mempool : Executor → BoltzSwap → Option String → M (Unit {0})
on_mempool x swap none = pure tt
on_mempool x swap (some tx_id) = do
  now ← ask x.outside.unix_time
  upsert_swap x.outside (record swap { lockup_tx_id = some tx_id; updated_at = now })
  emit (swap_updated (record swap { lockup_tx_id = some tx_id; updated_at = now }))

or_known : Option String → Option String → Option String
or_known (some tx_id) known = some tx_id
or_known none known = known

-- tBTC is locked on-chain: record it, then claim.
unfoldable pub claim_locked_swap : Executor → BoltzSwap → Option String → M (Unit {0})
unfolding or_known
claim_locked_swap x swap tx_id = do
  now ← ask x.outside.unix_time
  let s = record swap {
    status = tbtc_locked;
    lockup_tx_id = or_known tx_id swap.lockup_tx_id;
    updated_at = now;
  }
  upsert_swap x.outside s
  emit (swap_updated s)
  do_claim x s false

unfoldable pub on_confirmed : Executor → BoltzSwap → Option String → M (Unit {0})
unfolding claim_locked_swap
on_confirmed x swap tx_id =
    if is_claiming swap.status
    then handle_claiming_resume x swap
    else claim_locked_swap x swap tx_id

-- With neither a tx hash nor a call id, the lock state decides.
unfoldable pub settled_by_lock : Executor → BoltzSwap → Result Bool → M (Unit {0})
unfolding finalize
settled_by_lock x swap (ok true) = check_on_chain_and_retry x swap
settled_by_lock x swap (ok false) = finalize x swap (post_claim_status swap)
settled_by_lock x swap (err e) = pure tt

unfoldable pub on_settled : Executor → BoltzSwap → Option String → Option String → M (Unit {0})
unfolding settled_by_lock cleanup_if
on_settled x swap (some tx_hash) pending = do
  reached_terminal ← poll_receipt x swap.id tx_hash
  cleanup_if x swap.id reached_terminal
on_settled x swap none (some call_id) = do
  reached_terminal ← resume_pending_call x swap call_id
  cleanup_if x swap.id reached_terminal
on_settled x swap none none = do
  locked ← is_swap_still_locked_by_swap x swap
  settled_by_lock x swap locked

unfoldable pub reason_or : Option String → String → String
reason_or (some reason) status = reason
reason_or none status = status

unfoldable pub dispatch : Executor → SwapStatusUpdate → BoltzSwap → WsStatus → M (Unit {0})
unfolding on_mempool on_confirmed on_settled handle_terminal_ws_event reason_or
dispatch x update swap swap_created = pure tt
dispatch x update swap invoice_set = pure tt
dispatch x update swap invoice_pending = pure tt
dispatch x update swap invoice_paid_event = do update_swap_status x swap invoice_paid; pure tt
dispatch x update swap transaction_mempool = on_mempool x swap update.transaction
dispatch x update swap transaction_confirmed = on_confirmed x swap update.transaction
dispatch x update swap invoice_settled = on_settled x swap swap.claim_tx_hash swap.pending_call_id
dispatch x update swap transaction_claimed =
    on_settled x swap swap.claim_tx_hash swap.pending_call_id
dispatch x update swap invoice_expired = handle_terminal_ws_event x swap expired
dispatch x update swap swap_expired_event = handle_terminal_ws_event x swap expired
dispatch x update swap invoice_failed_to_pay =
    handle_terminal_ws_event x swap (failed (reason_or update.failure_reason update.status))
dispatch x update swap transaction_lockup_failed =
    handle_terminal_ws_event x swap (failed (reason_or update.failure_reason update.status))
dispatch x update swap transaction_refunded =
    handle_terminal_ws_event x swap (failed (reason_or update.failure_reason update.status))
dispatch x update swap swap_refunded =
    handle_terminal_ws_event x swap (failed (reason_or update.failure_reason update.status))
dispatch x update swap other = pure tt

-- The guards of `handle_ws_update`, in the order of the source.
unfoldable pub guarded : Executor → SwapStatusUpdate → BoltzSwap → M (Unit {0})
unfolding cleanup_terminal is_stale dispatch
guarded x update swap =
    if is_terminal swap.status
    then cleanup_terminal x update.swap_id
    else if is_settling swap.status
    then cleanup_terminal x update.swap_id
    else if is_stale update swap.status
    then pure tt
    else dispatch x update swap (ws_status update.status)

unfoldable pub on_loaded : Executor → SwapStatusUpdate → Result (Option BoltzSwap) → M (Unit {0})
unfolding guarded
on_loaded x update (ok (some swap)) = guarded x update swap
on_loaded x update _ = pure tt

unfoldable pub handle_ws_update : Executor → SwapStatusUpdate → M (Unit {0})
unfolding on_loaded
handle_ws_update x update = do found ← get_swap x.outside update.swap_id; on_loaded x update found

-- `Step::Ws`: an update for an id that is not tracked is dropped.
unfoldable pub on_ws : Executor → SwapStatusUpdate → M (Unit {0})
unfolding handle_ws_update
on_ws x update = do
  known ← is_tracked update.swap_id
  if known then handle_ws_update x update else pure tt
