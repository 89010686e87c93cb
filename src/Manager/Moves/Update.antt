-- ===== src/Manager/Moves/Update.antt =====
-- `handle_ws_update` of crates/lib/src/swap/manager.rs as a whole, against `Moved`.
use boltz_client.Prelude.{
  String, ◌≡◌, refl, ap, ◌∙◌, true, false, Option, none, some, ◌⊎◌, inl, inr, arith, ltb→le,
}
use boltz_client.Errors.{Result, ok, err}
use boltz_client.Models.{BoltzSwap}
use boltz_client.Models.Lifecycle.{
  Status, invoice_paid, expired, failed, rank, lt_status, is_terminal, is_settling,
}
use boltz_client.World.{World, Executor}
use boltz_client.World.Action.{pure, ◌>>=◌}
use boltz_client.World.Store.{row, find_row, get_swap, id-find_row}
use boltz_client.World.Effects.{
  IsQuiet-get_swap, Keeps, Keeps-quiet, Keeps-pure, Keeps-if, Keeps-then,
}
use boltz_client.World.Writes.{RowWrite, writes, row-get_swap}
use boltz_client.Manager.Status.{update_swap_status}
use boltz_client.Manager.Events.{
  WsStatus, swap_created, invoice_set, invoice_pending, invoice_paid_event, transaction_mempool,
  transaction_confirmed, invoice_settled, transaction_claimed, invoice_expired, swap_expired_event,
  invoice_failed_to_pay, transaction_lockup_failed, transaction_refunded, swap_refunded, other,
  ws_status, SwapStatusUpdate, is_stale, stage_of, ws_progress_stage, reason_or, dispatch, guarded,
  on_loaded, handle_ws_update,
}
use boltz_client.Manager.Rules.{is_open, Keeps-update_swap_status}
use boltz_client.Manager.Moves.{settles, ends, paid, Moved}
use boltz_client.Manager.Moves.Steps.{
  IsQuiet-cleanup_terminal, Keeps-handle_terminal_ws_event, Keeps-on_mempool, Keeps-on_confirmed,
  Keeps-on_settled, Moved-status,
}

-- No progress event sets a swap back.
abbrev IsFresh : WsStatus → Status → Type 0
IsFresh ev status = (stage : Status) → stage_of ev ≡ some stage → lt_status stage status ≡ false

module _ (x : Executor) (old : BoltzSwap) (id : String) (start : World)
    (at_start : row id start ≡ some old) (was_open : is_open old.status ≡ true)
    (update : SwapStatusUpdate) where
  Keeps-paid :
      lt_status invoice_paid old.status ≡ false
      → Keeps
          (writes (Moved x invoice_paid_event old) id start)
          (update_swap_status x old invoice_paid)
  unfolding rank is_terminal is_settling
  Keeps-paid fresh =
      Keeps-update_swap_status x (Moved x invoice_paid_event old) id start old invoice_paid
        (id-find_row id start.rows at_start)
        λ now.
          Moved-status x invoice_paid_event old id start at_start was_open invoice_paid now
            (omega (arith, ltb→le 1 (rank old.status) fresh)) (paid refl refl)

  Keeps-dispatch :
      (ev : WsStatus)
      → IsFresh ev old.status
      → Keeps (writes (Moved x ev old) id start) (dispatch x update old ev)
  unfolding dispatch settles ends stage_of
  Keeps-dispatch swap_created f = Keeps-pure (writes (Moved x swap_created old) id start) tt
  Keeps-dispatch invoice_set f = Keeps-pure (writes (Moved x invoice_set old) id start) tt
  Keeps-dispatch invoice_pending f = Keeps-pure (writes (Moved x invoice_pending old) id start) tt
  Keeps-dispatch invoice_paid_event f =
      let I = writes (Moved x invoice_paid_event old) id start in
      Keeps-then I (Keeps-paid (f invoice_paid refl)) (Keeps-pure I tt)
  Keeps-dispatch transaction_mempool f =
      Keeps-on_mempool x transaction_mempool old id start at_start was_open update.transaction
  Keeps-dispatch transaction_confirmed f =
      Keeps-on_confirmed x transaction_confirmed old id start at_start was_open update.transaction
        refl
  Keeps-dispatch invoice_settled f =
      Keeps-on_settled x invoice_settled old id start at_start was_open old.claim_tx_hash
        old.pending_call_id refl refl refl
  Keeps-dispatch transaction_claimed f =
      Keeps-on_settled x transaction_claimed old id start at_start was_open old.claim_tx_hash
        old.pending_call_id refl refl refl
  Keeps-dispatch invoice_expired f =
      Keeps-handle_terminal_ws_event x invoice_expired old id start at_start was_open expired refl
        refl
  Keeps-dispatch swap_expired_event f =
      Keeps-handle_terminal_ws_event x swap_expired_event old id start at_start was_open expired
        refl refl
  Keeps-dispatch invoice_failed_to_pay f =
      Keeps-handle_terminal_ws_event x invoice_failed_to_pay old id start at_start was_open
        (failed (reason_or update.failure_reason update.status)) refl refl
  Keeps-dispatch transaction_lockup_failed f =
      Keeps-handle_terminal_ws_event x transaction_lockup_failed old id start at_start was_open
        (failed (reason_or update.failure_reason update.status)) refl refl
  Keeps-dispatch transaction_refunded f =
      Keeps-handle_terminal_ws_event x transaction_refunded old id start at_start was_open
        (failed (reason_or update.failure_reason update.status)) refl refl
  Keeps-dispatch swap_refunded f =
      Keeps-handle_terminal_ws_event x swap_refunded old id start at_start was_open
        (failed (reason_or update.failure_reason update.status)) refl refl
  Keeps-dispatch other f = Keeps-pure (writes (Moved x other old) id start) tt

fresh :
    (update : SwapStatusUpdate) (status : Status)
    → is_stale update status ≡ false
    → IsFresh (ws_status update.status) status
unfolding is_stale ws_progress_stage
fresh update status h stage e = rw e at h

not_open :
    (status : Status)
    → is_terminal status ≡ false
    → is_settling status ≡ false
    → is_open status ≡ true
not_open status h k = rw h (rw k refl)

Keeps-guarded :
    (x : Executor) (update : SwapStatusUpdate) (old : BoltzSwap) (start : World)
    → row update.swap_id start ≡ some old
    → Keeps
        (writes (Moved x (ws_status update.status) old) update.swap_id start)
        (guarded x update old)
unfolding guarded
Keeps-guarded x update old start at_start =
    let I = writes (Moved x (ws_status update.status) old) update.swap_id start in
    Keeps-if I (is_terminal old.status)
      (λ _. Keeps-quiet I (IsQuiet-cleanup_terminal x update.swap_id))
      λ not_terminal.
        Keeps-if I (is_settling old.status)
          (λ _. Keeps-quiet I (IsQuiet-cleanup_terminal x update.swap_id))
          λ not_settling.
            Keeps-if I (is_stale update old.status) (λ _. Keeps-pure I tt)
              λ not_stale.
                Keeps-dispatch x old update.swap_id start at_start
                  (not_open old.status not_terminal not_settling) update (ws_status update.status)
                  (fresh update old.status not_stale)

-- The row of `j` is as it was; or `j` is the swap that the update is for, and its row is `Moved`.
abbrev pub Advances : Executor → SwapStatusUpdate → World → World → String → Type 0
Advances x update w w' j =
    (row j w' ≡ row j w)
    ⊎ ((old s : BoltzSwap) × (j ≡ update.swap_id)
        × (row j w ≡ some old)
        × (row j w' ≡ some s)
        × Moved x (ws_status update.status) old s)

Advances-of :
    (x : Executor) (update : SwapStatusUpdate) (old : BoltzSwap) (w w' : World) (j : String)
    → row update.swap_id w ≡ some old
    → RowWrite (Moved x (ws_status update.status) old) update.swap_id w j w'
    → Advances x update w w' j
Advances-of x update old w w' j at_start (inl p) = inl p
Advances-of x update old w w' j at_start (inr (s, i, p, m)) =
    inr (old, s, i, ap (λ k. row k w) i ∙ at_start, p, m)

on_loaded-Advances :
    (x : Executor) (update : SwapStatusUpdate) (w w' : World) (found : Result (Option BoltzSwap))
    (j : String)
    → (get_swap x.outside update.swap_id w).0 ≡ found
    → w'.rows ≡ w.rows
    → Advances x update w (on_loaded x update found w').1 j
unfolding on_loaded pure
on_loaded-Advances x update w w' (err e) j h same = inl (ap (find_row j) same)
on_loaded-Advances x update w w' (ok none) j h same = inl (ap (find_row j) same)
on_loaded-Advances x update w w' (ok (some old)) j h same =
    let at_start = row-get_swap x.outside update.swap_id w h in
    Advances-of x update old w (guarded x update old w').1 j at_start
      ((Keeps-guarded x update old w at_start).at w' (λ k. inl (ap (find_row k) same)) j)

-- What a WebSocket update does to the store, whatever the calls to the outside answer: every row
-- stays as it is, but for the row of the swap that the update names. If that row changes, it was
-- neither terminal nor settling, its terms stay (all but the status, the lockup transaction, the
-- claim hash, the call id, the delivered amount, the bridge's reference and the time of change), it
-- does not fall back below the lock, and its claim hash and its status have grounds. The swap's claim
-- is the transaction that the old row records, that the sponsor gives for the old row's pending call,
-- or that spent the lockup. The claim hash is none, the old one, that of the swap's claim, or the one
-- that a claim of the swap has just given. The status is the old one; or `InvoicePaid` on that event;
-- or claiming or locked, on the event of the confirmed lockup for a swap that was not claiming, or
-- when the swap was found locked on-chain. Or it is the post-claim status, when the receipt of the
-- swap's claim succeeded, with a delivered amount for a `Direct` swap, or when the invoice is
-- settled, the lockup spent and no claim recorded. Or it is failed or expired, when the lockup was
-- refunded, or when the event ends a swap that is not claiming or still has its lockup.
pub handle_ws_update-Advances :
    (x : Executor) (update : SwapStatusUpdate) (w : World) (j : String)
    → Advances x update w (handle_ws_update x update w).1 j
unfolding handle_ws_update ◌>>=◌
handle_ws_update-Advances x update w j =
    on_loaded-Advances x update w (get_swap x.outside update.swap_id w).1 _ j refl
      ((IsQuiet-get_swap x.outside update.swap_id).rows w)
