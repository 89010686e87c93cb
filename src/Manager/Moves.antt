-- ===== src/Manager/Moves.antt =====
-- Which moves `handle_ws_update` of crates/lib/src/swap/manager.rs makes, and on what grounds.
pub mod Steps
pub mod Update
use Prim.Native.Nat.{min}
use boltz_client.Prelude.{
  ℕ, String, ◌≤◌, ◌≡◌, refl, sym, ap, ◌∙◌, Bool, true, false, Bool-cases, Option, none, some, ◌⊎◌,
  inl, inr, arith, ltb→le,
}
use boltz_client.Errors.{Result, ok, err}
use boltz_client.Models.{BoltzSwap}
use boltz_client.Models.Destinations.{BridgeKind}
use boltz_client.Models.Lifecycle.{
  Status, created, invoice_paid, tbtc_locked, claiming, settling, completed, expired, failed, rank,
  is_terminal, is_settling, is_claiming,
}
use boltz_client.Outside.{TxReceipt, is_success}
use boltz_client.Lockup.{
  SpentClassification, claimed, refunded, unknown, classify_spent_lockup,
  is_swap_still_locked_by_swap,
}
use boltz_client.Lockup.Effects.{
  IsQuiet-is_swap_still_locked_by_swap, IsQuiet-classify_spent_lockup,
}
use boltz_client.World.{World, Executor}
use boltz_client.World.Action.{M, pure, ask}
use boltz_client.World.Store.{row, get_swap, upsert_swap, id-find_row}
use boltz_client.World.Effects.{
  Said, Said-of_Answers, Answers, Keeps, Keeps-quiet, Keeps-pure, Keeps-if, Keeps-bind, Keeps-then,
  quiet_rules,
}
use boltz_client.World.Writes.{writes, Writes, read_back, Keeps-upsert_swap}
use boltz_client.Manager.Status.{
  update_swap_status, post_claim, post_claim_status, direct_completion_has_evidence,
}
use boltz_client.Manager.Events.{
  WsStatus, swap_created, invoice_set, invoice_pending, invoice_paid_event, transaction_mempool,
  transaction_confirmed, invoice_settled, transaction_claimed, invoice_expired, swap_expired_event,
  invoice_failed_to_pay, transaction_lockup_failed, transaction_refunded, swap_refunded, other,
  ws_status, SwapStatusUpdate, is_stale, cleanup_terminal, cleanup_if, finalize, on_spent,
  on_lock_state, handle_terminal_ws_event, on_mempool, claim_locked_swap, on_confirmed,
  settled_by_lock, on_settled, dispatch, guarded, on_loaded, handle_ws_update,
}
use boltz_client.Manager.Rules.{
  terms, is_open, Rules, ClaimHash, RecordedHash, Follows, Keeps-update_swap_status, id-of_terms,
  Keeps-advance_via_winning_claim,
}
use boltz_client.Manager.Recovery.{Keeps-do_claim, Keeps-check_on_chain_and_retry}
use boltz_client.Manager.Resume.{
  Keeps-poll_receipt, Keeps-resume_pending_call, Keeps-handle_claiming_resume,
}

-- The events that settle the hold invoice, and the events that end a swap.
unfoldable pub settles : WsStatus → Bool
settles invoice_settled = true
settles transaction_claimed = true
settles _ = false

unfoldable pub ends : WsStatus → Bool
ends invoice_expired = true
ends swap_expired_event = true
ends invoice_failed_to_pay = true
ends transaction_lockup_failed = true
ends transaction_refunded = true
ends swap_refunded = true
ends _ = false

abbrev pub given_up : Status → Bool
given_up (failed reason) = true
given_up expired = true
given_up _ = false

post_claim-rank : (k : BridgeKind) → 2 ≤ rank (post_claim k)
unfolding post_claim rank
post_claim-rank BridgeKind.direct = omega arith
post_claim-rank BridgeKind.oft = omega arith
post_claim-rank BridgeKind.cctp = omega arith

pub post_claim_status-rank : (s : BoltzSwap) → 2 ≤ rank (post_claim_status s)
unfolding post_claim_status
post_claim_status-rank s = post_claim-rank s.bridge_kind

claimable-rank : (status : Status) → (status ≡ claiming) ⊎ (status ≡ tbtc_locked) → 2 ≤ rank status
unfolding rank
claimable-rank status (inl p) = rw p (omega arith)
claimable-rank status (inr p) = rw p (omega arith)

-- The grounds for the status of a row that is written on the event `ev`, when it was `old` before.
pub data Justified (x : Executor) (ev : WsStatus) (old s : BoltzSwap) : Type 0 where
  -- The status is as it was.
  kept : s.status ≡ old.status → Justified x ev old s
  -- The event says that the hold invoice is paid.
  paid : ev ≡ invoice_paid_event → s.status ≡ invoice_paid → Justified x ev old s
  -- The event says that the lockup is confirmed, of a swap that was not claiming.
  lock_announced :
      ev ≡ transaction_confirmed
      → is_claiming old.status ≡ false
      → (s.status ≡ claiming) ⊎ (s.status ≡ tbtc_locked)
      → Justified x ev old s
  -- The swap was found still locked on-chain.
  lock_seen :
      (t : BoltzSwap)
      → terms t ≡ terms old
      → Said (is_swap_still_locked_by_swap x t) (ok true)
      → (s.status ≡ claiming) ⊎ (s.status ≡ tbtc_locked)
      → Justified x ev old s
  -- The swap's claim transaction succeeded on-chain, and a `Direct` swap has the amount its logs show.
  receipt_confirmed :
      (tx_hash : String) (receipt : TxReceipt)
      → ClaimHash x old tx_hash
      → Said (ask (λ n. x.outside.eth_get_transaction_receipt n tx_hash)) (ok (some receipt))
      → is_success receipt ≡ true
      → direct_completion_has_evidence s ≡ true
      → s.status ≡ post_claim_status s
      → Justified x ev old s
  -- The invoice is settled, no claim is recorded, and the lockup is spent.
  settled_and_spent :
      settles ev ≡ true
      → old.claim_tx_hash ≡ none
      → old.pending_call_id ≡ none
      → Said (is_swap_still_locked_by_swap x old) (ok false)
      → s.status ≡ post_claim_status s
      → Justified x ev old s
  -- The lockup went back to Boltz.
  lockup_refunded :
      (t : BoltzSwap)
      → terms t ≡ terms old
      → Said (classify_spent_lockup x t) (ok refunded)
      → given_up s.status ≡ true
      → Justified x ev old s
  -- The event ends the swap, and no claim can be under way.
  ended :
      ends ev ≡ true
      → (is_claiming old.status ≡ false) ⊎ Said (is_swap_still_locked_by_swap x old) (ok true)
      → given_up s.status ≡ true
      → Justified x ev old s

-- A row that may follow `old`: the same terms, a claim hash that is accounted for, never back below the lock, and on good grounds. A swap
-- that is terminal or settling is not followed by any.
pub record Moved (x : Executor) (ev : WsStatus) (old s : BoltzSwap) : Type 0 where
  pub was_open : is_open old.status ≡ true
  pub same_terms : terms s ≡ terms old
  pub claim_hash : RecordedHash x old s.claim_tx_hash
  pub no_regress : min 2 (rank old.status) ≤ rank s.status
  pub justified : Justified x ev old s

module _ (x : Executor) (ev : WsStatus) (old : BoltzSwap) where
  Justified-noted :
      (s : BoltzSwap) (hash call_id : Option String) (now : ℕ)
      → Justified x ev old s
      → Justified x ev old
          (record s { claim_tx_hash = hash; pending_call_id = call_id; updated_at = now })
  unfolding direct_completion_has_evidence post_claim_status
  Justified-noted s hash call_id now (kept h) = kept h
  Justified-noted s hash call_id now (paid a b) = paid a b
  Justified-noted s hash call_id now (lock_announced a b c) = lock_announced a b c
  Justified-noted s hash call_id now (lock_seen t a b c) = lock_seen t a b c
  Justified-noted s hash call_id now (receipt_confirmed tx_hash receipt ours a b c d) =
      receipt_confirmed tx_hash receipt ours a b c d
  Justified-noted s hash call_id now (settled_and_spent a b c d e) = settled_and_spent a b c d e
  Justified-noted s hash call_id now (lockup_refunded t a b c) = lockup_refunded t a b c
  Justified-noted s hash call_id now (ended a b c) = ended a b c

  Moved-noted :
      is_open old.status ≡ true
      → (s : BoltzSwap) (hash call_id : Option String) (now : ℕ) → (s ≡ old) ⊎ Moved x ev old s
      → RecordedHash x old hash
      → Moved x ev old
          (record s { claim_tx_hash = hash; pending_call_id = call_id; updated_at = now })
  Moved-noted h s hash call_id now (inl e) accounted = record {
    was_open = h;
    same_terms = ap terms e;
    claim_hash = accounted;
    no_regress = rw e (omega arith);
    justified = kept (ap (λ (t : BoltzSwap). t.status) e);
  }
  Moved-noted h s hash call_id now (inr m) accounted = record {
    was_open = h;
    same_terms = m.same_terms;
    claim_hash = accounted;
    no_regress = m.no_regress;
    justified = Justified-noted s hash call_id now m.justified;
  }

  pub Moved-claimable :
      is_open old.status ≡ true
      → (s : BoltzSwap) → Follows x old s
      → (s.status ≡ claiming) ⊎ (s.status ≡ tbtc_locked)
      → Justified x ev old s
      → Moved x ev old s
  Moved-claimable h s e which j = record {
    was_open = h;
    same_terms = e.0;
    claim_hash = e.1;
    no_regress = let r = claimable-rank s.status which in omega (arith, r);
    justified = j;
  }

  pub Moved-Rules : is_open old.status ≡ true → Rules x old (Moved x ev old)
  unfolding rank
  Moved-Rules h = record {
    follows = λ s m. (m.same_terms, m.claim_hash);
    opened = λ t f locked s e which. Moved-claimable h s e which (lock_seen t f locked which);
    noted = Moved-noted h;
    confirmed = λ s tx_hash receipt e ours said success evidence p. record {
      was_open = h;
      same_terms = e.0;
      claim_hash = e.1;
      no_regress = let r : 2 ≤ rank s.status = rw p (post_claim_status-rank s) in omega (arith, r);
      justified = receipt_confirmed tx_hash receipt ours said success evidence p;
    };
    gave_up = λ s t reason e f said p. record {
      was_open = h;
      same_terms = e.0;
      claim_hash = e.1;
      no_regress = let r : rank s.status ≡ 6 = rw p refl in omega (arith, r);
      justified = lockup_refunded t f said (rw p refl);
    };
  }
