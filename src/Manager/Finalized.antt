-- ===== src/Manager/Finalized.antt =====
-- The receipt poll of crates/lib/src/swap/manager.rs, once the claim is mined.
use native.Mathlib.Decide.{dec_lt}
use boltz_client.Prelude.{
  ℕ, zero, suc, ◌+◌, ◌<◌, ◌≤◌, ◌≡◌, refl, ◌∙◌, ap, String, Bool, true, false, none, some, List,
  subst, ◌⊎◌, inl, inr, arith, eq_iff,
}
use boltz_client.Errors.{BoltzError, ok, err}
use boltz_client.Models.{BoltzSwap}
use boltz_client.Models.Lifecycle.{Status, settling}
use boltz_client.Models.Destinations.{BridgeKind}
use boltz_client.Outside.{TxReceipt, is_success}
use boltz_client.World.{World, Executor}
use boltz_client.World.Action.{pure, ◌>>=◌, ask, emit}
use boltz_client.World.Store.{
  row, find_row, put_row, find_row-put_row, write, read, upsert_swap, get_swap,
}
use boltz_client.Manager.Status.{
  update_swap_status, is_direct, post_claim, post_claim_status, direct_completion_has_evidence,
  apply_delivered_amount,
}
use boltz_client.Manager.Receipt.{
  finish_claim, apply_to_found, apply_successful_receipt, outcome_of, check_receipt_once,
}
use boltz_client.Manager.Retry.{on_outcome, poll_receipt_for, poll_receipt}
use boltz_client.Manager.Rules.{terms, apply_delivered_amount-Kept}

-- From call `mined_at` on the node has the successful receipt; before, it has none or does not answer.
pub record Mined (x : Executor) (tx_hash : String) (mined_at : ℕ) : Type 0 where
  pub receipt : TxReceipt
  pub success : is_success receipt ≡ true
  pub before :
      (n : ℕ)
      → n < mined_at
      → (x.outside.eth_get_transaction_receipt n tx_hash ≡ ok none)
        ⊎ ((e : BoltzError) × (x.outside.eth_get_transaction_receipt n tx_hash ≡ err e))
  pub after :
      (n : ℕ) → mined_at ≤ n → x.outside.eth_get_transaction_receipt n tx_hash ≡ ok (some receipt)

-- The store does not fail.
pub record Sound (x : Executor) : Type 0 where
  pub reads : (n : ℕ) → x.outside.get_fault n ≡ none
  pub writes : (n : ℕ) → x.outside.upsert_fault n ≡ none

-- The poll says that the swap is done with, and its row is settling.
pub record Settled (id : String) (answer : Bool) (w : World) : Type 0 where
  pub done : answer ≡ true
  pub swap : BoltzSwap
  pub stored : row id w ≡ some swap
  pub status : swap.status ≡ settling

found-put_row : (s : BoltzSwap) (rows : List BoltzSwap) → find_row s.id (put_row s rows) ≡ some s
found-put_row s rows = ground (arith, find_row-put_row s.id s rows, eq_iff s.id s.id)

settling-post_claim : (kind : BridgeKind) → is_direct kind ≡ false → post_claim kind ≡ settling
unfolding is_direct post_claim
settling-post_claim BridgeKind.direct h = absurd (cc)
settling-post_claim BridgeKind.oft h = refl
settling-post_claim BridgeKind.cctp h = refl

module _ (x : Executor) (sound : Sound x) where
  row-update_swap_status :
      (swap : BoltzSwap) (status : Status) (w : World)
      → row swap.id (update_swap_status x swap status w).1
        ≡ some (record swap { status = status; updated_at = x.outside.unix_time w.calls })
  unfolding update_swap_status upsert_swap write ◌>>=◌ ask pure emit
  row-update_swap_status swap status w = rw (sound.writes (suc w.calls)) (
      found-put_row (record swap { status = status; updated_at = x.outside.unix_time w.calls })
        w.rows)

  Settled-finish_claim :
      (s : BoltzSwap) (w : World)
      → is_direct s.bridge_kind ≡ false
      → Settled s.id (finish_claim x s w).0 (finish_claim x s w).1
  unfolding finish_claim direct_completion_has_evidence post_claim_status ◌>>=◌ pure
  Settled-finish_claim s w bridged = rw (bridged) (record {
    done = refl;
    swap = _;
    stored = row-update_swap_status s (post_claim s.bridge_kind) w;
    status = settling-post_claim s.bridge_kind bridged;
  })

  module _ (swap : BoltzSwap) (tx_hash : String)
      (bridged : is_direct swap.bridge_kind ≡ false) where
    Settled-applied :
        (s : BoltzSwap) (w : World)
        → terms s ≡ terms swap
        → Settled swap.id (finish_claim x s w).0 (finish_claim x s w).1
    Settled-applied s w same =
        subst (λ id. Settled id (finish_claim x s w).0 (finish_claim x s w).1)
          (ap (λ (t : BoltzSwap). t.id) same)
          (Settled-finish_claim s w
            (ap (λ (t : BoltzSwap). is_direct t.bridge_kind) same ∙ bridged))

    Settled-apply_successful_receipt :
        (receipt : TxReceipt) (w : World)
        → row swap.id w ≡ some swap
        → Settled swap.id
            (apply_successful_receipt x swap.id tx_hash receipt w).0
            (apply_successful_receipt x swap.id tx_hash receipt w).1
    unfolding apply_successful_receipt apply_to_found get_swap read ◌>>=◌ ask
    Settled-apply_successful_receipt receipt w h =
        rw (sound.reads w.calls, h)
          (Settled-applied (apply_delivered_amount x swap receipt tx_hash) _
            (apply_delivered_amount-Kept x swap receipt tx_hash).0)

    abbrev Ends : (left : ℕ) → World → Type 0
    Ends left w =
        Settled swap.id (poll_receipt_for x swap.id tx_hash left w).0
          (poll_receipt_for x swap.id tx_hash left w).1

    Ends-found :
        (receipt : TxReceipt) (left : ℕ) (w : World)
        → is_success receipt ≡ true
        → x.outside.eth_get_transaction_receipt w.calls tx_hash ≡ ok (some receipt)
        → row swap.id w ≡ some swap
        → Ends (suc left) w
    unfolding poll_receipt_for check_receipt_once outcome_of on_outcome ◌>>=◌ ask pure
    Ends-found receipt left w success answer h =
        rw (answer, success)
          (Settled-apply_successful_receipt receipt (record w { calls = suc w.calls }) h)

    Ends-pending :
        (left : ℕ) (w : World)
        → (x.outside.eth_get_transaction_receipt w.calls tx_hash ≡ ok none)
          ⊎ ((e : BoltzError) × (x.outside.eth_get_transaction_receipt w.calls tx_hash ≡ err e))
        → Ends left (record w { calls = suc w.calls })
        → Ends (suc left) w
    unfolding poll_receipt_for check_receipt_once outcome_of on_outcome ◌>>=◌ ask pure
    Ends-pending left w (inl answer) rest = rw (answer) rest
    Ends-pending left w (inr (e, answer)) rest = rw (answer) rest

    module _ (mined_at : ℕ) (mined : Mined x tx_hash mined_at) where
      Ends-poll_receipt_for :
          (left : ℕ) (w : World)
          → row swap.id w ≡ some swap
          → mined_at ≤ w.calls + left
          → Ends (suc left) w
      Ends-poll_receipt_for zero w h k =
          Ends-found mined.receipt zero w mined.success (mined.after w.calls (omega (arith, k))) h
      Ends-poll_receipt_for (suc left) w h k = elim (dec_lt w.calls mined_at) [
        | yes early ↦
            Ends-pending (suc left) w (mined.before w.calls early)
              (Ends-poll_receipt_for left (record w { calls = suc w.calls }) h (omega (arith, k)))
        | no late ↦
            Ends-found mined.receipt (suc left) w mined.success
              (mined.after w.calls (omega (arith, late))) h
      ]

-- If the node has the successful receipt of a bridged claim from some call on that is at most 59 calls
-- ahead, and before has none or fails, and the store does not fail, then the poll of a stored swap ends
-- with the swap settling.
pub poll_receipt-Settled :
    (x : Executor) (swap : BoltzSwap) (tx_hash : String) (mined_at : ℕ) (w : World)
    → Sound x
    → is_direct swap.bridge_kind ≡ false
    → Mined x tx_hash mined_at
    → row swap.id w ≡ some swap
    → mined_at ≤ w.calls + 59
    → Settled swap.id (poll_receipt x swap.id tx_hash w).0 (poll_receipt x swap.id tx_hash w).1
unfolding poll_receipt
poll_receipt-Settled x swap tx_hash mined_at w sound bridged mined h k =
    Ends-poll_receipt_for x sound swap tx_hash bridged mined_at mined 59 w h k
