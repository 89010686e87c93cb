-- ===== src/Manager/Moves/Steps.antt =====
-- The branches of `handle_ws_update` of crates/lib/src/swap/manager.rs, against `Moved`.
use Prim.Native.Nat.{min}
use boltz_client.Prelude.{
  ℕ, String, ◌≤◌, ◌≡◌, refl, Bool, true, false, Option, none, some, inl, inr, arith,
}
use boltz_client.Errors.{Result, ok, err}
use boltz_client.Models.{BoltzSwap}
use boltz_client.Models.Lifecycle.{
  Status, created, invoice_paid, tbtc_locked, claiming, settling, completed, expired, failed, rank,
  is_terminal, is_settling, is_claiming,
}
use boltz_client.Lockup.{
  SpentClassification, claimed, refunded, unknown, classify_spent_lockup,
  is_swap_still_locked_by_swap,
}
use boltz_client.Lockup.Effects.{
  IsQuiet-is_swap_still_locked_by_swap, IsQuiet-classify_spent_lockup,
}
use boltz_client.World.{World, Executor}
use boltz_client.World.Store.{row, id-find_row}
use boltz_client.World.Effects.{
  IsQuiet, Said, Said-of_Answers, Keeps, Keeps-quiet, Keeps-pure, Keeps-if, Keeps-bind, Keeps-then,
  quiet_rules,
}
use boltz_client.World.Writes.{writes, Keeps-upsert_swap}
use boltz_client.Manager.Status.{post_claim_status}
use boltz_client.Manager.Events.{
  WsStatus, transaction_confirmed, cleanup_terminal, cleanup_if, finalize, on_spent, on_lock_state,
  handle_terminal_ws_event, on_mempool, claim_locked_swap, on_confirmed, settled_by_lock,
  on_settled,
}
use boltz_client.Manager.Rules.{
  Follows-old, unchanged, is_open, Opens, won, recorded, Keeps-update_swap_status,
  Keeps-advance_via_winning_claim,
}
use boltz_client.Manager.Recovery.{Keeps-do_claim, Keeps-check_on_chain_and_retry}
use boltz_client.Manager.Resume.{
  Keeps-poll_receipt, Keeps-resume_pending_call, Keeps-handle_claiming_resume,
}
use boltz_client.Manager.Moves.{
  settles, ends, given_up, Justified, kept, lock_announced, Moved-claimable, settled_and_spent,
  lockup_refunded, ended, Moved, Moved-Rules, post_claim_status-rank,
}

pub IsQuiet-cleanup_terminal : (x : Executor) (id : String) → IsQuiet (cleanup_terminal x id)
unfolding cleanup_terminal
IsQuiet-cleanup_terminal x id = search (quiet_rules)

IsQuiet-cleanup_if : (x : Executor) (id : String) (b : Bool) → IsQuiet (cleanup_if x id b)
unfolding cleanup_if
IsQuiet-cleanup_if x id true = IsQuiet-cleanup_terminal x id
IsQuiet-cleanup_if x id false = search (quiet_rules)

module _ (x : Executor) (ev : WsStatus) (old : BoltzSwap) (id : String) (start : World)
    (at_start : row id start ≡ some old) where
  old_id : old.id ≡ id
  old_id = id-find_row id start.rows at_start

  -- Ending the swap on the event itself.
  Keeps-finalize :
      (status : Status)
      → ((now : ℕ) → Moved x ev old (record old { status = status; updated_at = now }))
      → Keeps (writes (Moved x ev old) id start) (finalize x old status)
  unfolding finalize
  Keeps-finalize status h =
      let I = writes (Moved x ev old) id start in
      Keeps-then I (Keeps-update_swap_status x (Moved x ev old) id start old status old_id h)
        (Keeps-quiet I (IsQuiet-cleanup_terminal x old.id))

module _ (x : Executor) (ev : WsStatus) (old : BoltzSwap) (id : String) (start : World)
    (at_start : row id start ≡ some old) (was_open : is_open old.status ≡ true) where
  given_up-rank : (status : Status) → given_up status ≡ true → 2 ≤ rank status
  unfolding rank
  given_up-rank (failed reason) h = omega arith
  given_up-rank expired h = omega arith
  given_up-rank created h = cc
  given_up-rank invoice_paid h = cc
  given_up-rank tbtc_locked h = cc
  given_up-rank claiming h = cc
  given_up-rank settling h = cc
  given_up-rank completed h = cc

  pub Moved-status :
      (status : Status) (now : ℕ)
      → min 2 (rank old.status) ≤ rank status
      → Justified x ev old (record old { status = status; updated_at = now })
      → Moved x ev old (record old { status = status; updated_at = now })
  Moved-status status now r j = record {
    was_open = was_open;
    same_terms = refl;
    claim_hash = unchanged refl;
    no_regress = r;
    justified = j;
  }

  Keeps-on_spent :
      (status : Status) (classified : Result SpentClassification)
      → given_up status ≡ true
      → Said (classify_spent_lockup x old) classified
      → Keeps (writes (Moved x ev old) id start) (on_spent x old status classified)
  unfolding on_spent
  Keeps-on_spent status (ok (claimed tx_hash)) g h =
      let I = writes (Moved x ev old) id start in
      Keeps-bind I
        (Keeps-advance_via_winning_claim x old (Moved x ev old) (Moved-Rules x ev old was_open) id
          start at_start old.id tx_hash (id-find_row id start.rows at_start) (won old refl h))
        (λ resolved _. Keeps-quiet I (IsQuiet-cleanup_if x old.id resolved))
  Keeps-on_spent status (ok refunded) g h = Keeps-finalize x ev old id start at_start status λ now.
      Moved-status status now (omega (arith, given_up-rank status g)) (lockup_refunded old refl h g)
  Keeps-on_spent status (ok unknown) g h = Keeps-pure (writes (Moved x ev old) id start) tt
  Keeps-on_spent status (err e) g h = Keeps-pure (writes (Moved x ev old) id start) tt

  Keeps-on_lock_state :
      (status : Status) (locked : Result Bool)
      → given_up status ≡ true
      → ends ev ≡ true
      → Said (is_swap_still_locked_by_swap x old) locked
      → Keeps (writes (Moved x ev old) id start) (on_lock_state x old status locked)
  unfolding on_lock_state
  Keeps-on_lock_state status (ok true) g e h =
      Keeps-finalize x ev old id start at_start status
        λ now. Moved-status status now (omega (arith, given_up-rank status g)) (ended e (inr h) g)
  Keeps-on_lock_state status (ok false) g e h =
      let I = writes (Moved x ev old) id start in
      Keeps-bind I (Keeps-quiet I (IsQuiet-classify_spent_lockup x old))
        (λ classified a. Keeps-on_spent status classified g (Said-of_Answers a))
  Keeps-on_lock_state status (err e') g e h = Keeps-pure (writes (Moved x ev old) id start) tt

  pub Keeps-handle_terminal_ws_event :
      (status : Status)
      → given_up status ≡ true
      → ends ev ≡ true
      → Keeps (writes (Moved x ev old) id start) (handle_terminal_ws_event x old status)
  unfolding handle_terminal_ws_event
  Keeps-handle_terminal_ws_event status g e =
      let I = writes (Moved x ev old) id start in
      Keeps-if I (is_claiming old.status)
        (λ _.
          Keeps-bind I (Keeps-quiet I (IsQuiet-is_swap_still_locked_by_swap x old))
            (λ locked a. Keeps-on_lock_state status locked g e (Said-of_Answers a)))
        λ not_claiming. Keeps-finalize x ev old id start at_start status λ now.
          Moved-status status now (omega (arith, given_up-rank status g))
            (ended e (inl not_claiming) g)

  pub Keeps-on_mempool :
      (tx_id : Option String) → Keeps (writes (Moved x ev old) id start) (on_mempool x old tx_id)
  unfolding on_mempool
  Keeps-on_mempool none = Keeps-pure (writes (Moved x ev old) id start) tt
  Keeps-on_mempool (some tx_id) =
      let I = writes (Moved x ev old) id start in
      Keeps-bind I (Keeps-quiet I (search (quiet_rules))) λ now _.
        Keeps-then I
          (Keeps-upsert_swap (Moved x ev old) id start x.outside
            (record old { lockup_tx_id = some tx_id; updated_at = now })
            (id-find_row id start.rows at_start)
            (record {
              was_open = was_open;
              same_terms = refl;
              claim_hash = unchanged refl;
              no_regress = omega arith;
              justified = kept refl;
            }))
          (Keeps-quiet I (search (quiet_rules)))

  Keeps-claim_locked_swap :
      (tx_id : Option String)
      → ev ≡ transaction_confirmed
      → is_claiming old.status ≡ false
      → Keeps (writes (Moved x ev old) id start) (claim_locked_swap x old tx_id)
  unfolding claim_locked_swap is_terminal is_settling rank
  Keeps-claim_locked_swap tx_id e not_claiming =
      let I = writes (Moved x ev old) id start in
      let rules = Moved-Rules x ev old was_open in
      let opens : Opens x old (Moved x ev old) = λ s same which.
        Moved-claimable x ev old was_open s same which (lock_announced e not_claiming which) in
      Keeps-bind I (Keeps-quiet I (search (quiet_rules))) λ now _.
        Keeps-then I
          (Keeps-upsert_swap (Moved x ev old) id start x.outside _
            (id-find_row id start.rows at_start) (opens _ (Follows-old x old) (inr refl)))
          (Keeps-then I (Keeps-quiet I (search (quiet_rules))) (
            Keeps-do_claim x old (Moved x ev old) rules id start at_start _ false
              (Follows-old x old) opens))

  pub Keeps-on_confirmed :
      (tx_id : Option String)
      → ev ≡ transaction_confirmed
      → Keeps (writes (Moved x ev old) id start) (on_confirmed x old tx_id)
  unfolding on_confirmed
  Keeps-on_confirmed tx_id e =
      Keeps-if (writes (Moved x ev old) id start) (is_claiming old.status)
        (λ _.
          Keeps-handle_claiming_resume x old (Moved x ev old) (Moved-Rules x ev old was_open) id
            start at_start)
        (λ not_claiming. Keeps-claim_locked_swap tx_id e not_claiming)

  Keeps-settled_by_lock :
      (locked : Result Bool)
      → settles ev ≡ true
      → old.claim_tx_hash ≡ none
      → old.pending_call_id ≡ none
      → Said (is_swap_still_locked_by_swap x old) locked
      → Keeps (writes (Moved x ev old) id start) (settled_by_lock x old locked)
  unfolding settled_by_lock post_claim_status
  Keeps-settled_by_lock (ok true) e no_hash no_call h =
      Keeps-check_on_chain_and_retry x old (Moved x ev old) (Moved-Rules x ev old was_open) id start
        at_start old (Follows-old x old)
  Keeps-settled_by_lock (ok false) e no_hash no_call h =
      Keeps-finalize x ev old id start at_start (post_claim_status old) λ now.
        Moved-status (post_claim_status old) now (omega (arith, post_claim_status-rank old))
          (settled_and_spent e no_hash no_call h refl)
  Keeps-settled_by_lock (err e') e no_hash no_call h =
      Keeps-pure (writes (Moved x ev old) id start) tt

  pub Keeps-on_settled :
      (hash call_id : Option String)
      → settles ev ≡ true
      → old.claim_tx_hash ≡ hash
      → old.pending_call_id ≡ call_id
      → Keeps (writes (Moved x ev old) id start) (on_settled x old hash call_id)
  unfolding on_settled
  Keeps-on_settled (some tx_hash) call_id e p q =
      let I = writes (Moved x ev old) id start in
      Keeps-bind I
        (Keeps-poll_receipt x old (Moved x ev old) (Moved-Rules x ev old was_open) id start at_start
          old.id tx_hash (id-find_row id start.rows at_start) (recorded p))
        (λ reached_terminal _. Keeps-quiet I (IsQuiet-cleanup_if x old.id reached_terminal))
  Keeps-on_settled none (some call_id) e p q =
      let I = writes (Moved x ev old) id start in
      Keeps-bind I
        (Keeps-resume_pending_call x old (Moved x ev old) (Moved-Rules x ev old was_open) id start
          at_start old call_id (Follows-old x old) q)
        (λ reached_terminal _. Keeps-quiet I (IsQuiet-cleanup_if x old.id reached_terminal))
  Keeps-on_settled none none e p q =
      let I = writes (Moved x ev old) id start in
      Keeps-bind I (Keeps-quiet I (IsQuiet-is_swap_still_locked_by_swap x old))
        (λ locked a. Keeps-settled_by_lock locked e p q (Said-of_Answers a))
