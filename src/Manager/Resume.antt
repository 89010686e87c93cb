-- ===== src/Manager/Resume.antt =====
-- `Rules` for poll_receipt and the recovery of unfinished claims in crates/lib/src/swap/manager.rs.
use boltz_client.Prelude.{ℕ, zero, suc, String, ◌≡◌, refl, Bool, true, false, Option, none, some}
use boltz_client.Errors.{Result, ok, err}
use boltz_client.Models.{BoltzSwap}
use boltz_client.Lockup.Effects.{IsQuiet-is_swap_still_locked_by_swap}
use boltz_client.Lockup.{is_swap_still_locked_by_swap}
use boltz_client.World.{World, Executor}
use boltz_client.World.Action.{M, ask}
use boltz_client.World.Store.{row, get_swap}
use boltz_client.World.Effects.{
  Said, Said-of_Answers, Answers, Keeps, Keeps-quiet, Keeps-pure, Keeps-bind, Keeps-then,
  quiet_rules,
}
use boltz_client.World.Writes.{writes}
use boltz_client.Manager.Receipt.{ReceiptOutcome, advanced, reverted, not_mined}
use boltz_client.Manager.Retry.{
  recover_locked, recover_found, recover_from_reverted_receipt, on_outcome, poll_receipt_for,
  poll_receipt, receipt_poll_max_attempts, note_recovered, resume_with, resume_pending_call,
  resume_claim, handle_claiming_resume,
}
use boltz_client.Manager.Rules.{
  Follows, Follows-old, Rules, ClaimHash, recorded, recovered, known, cleared, id-of_terms, seen,
  Keeps-note, Keeps-check_receipt_once,
}
use boltz_client.Manager.Recovery.{
  Keeps-do_claim, Keeps-classify_and_settle, Keeps-check_on_chain_and_retry,
}

module _ (x : Executor) (old : BoltzSwap) (P : BoltzSwap → Type 0) (rules : Rules x old P)
    (id : String) (start : World) (at_start : row id start ≡ some old) where
  Keeps-recover_locked :
      (s : BoltzSwap) (locked : Result Bool)
      → Follows x old s
      → Said (is_swap_still_locked_by_swap x s) locked
      → Keeps (writes P id start) (recover_locked x s locked)
  unfolding recover_locked
  Keeps-recover_locked s (ok true) e h =
      let I = writes P id start in
      Keeps-then I
        (Keeps-do_claim x old P rules id start at_start (record s { claim_tx_hash = none }) false
          (e.0, cleared refl) (rules.opened s e.0 h))
        (Keeps-pure I false)
  Keeps-recover_locked s (ok false) e h =
      Keeps-classify_and_settle x old P rules id start at_start s "Lockup refunded" e
  Keeps-recover_locked s (err e') e h = Keeps-pure (writes P id start) false

  Keeps-recover_found :
      (j : String) (found : Result (Option BoltzSwap))
      → j ≡ id
      → Answers (writes P id start) (get_swap x.outside j) found
      → Keeps (writes P id start) (recover_found x found)
  unfolding recover_found
  Keeps-recover_found j (err e) p a = Keeps-pure (writes P id start) false
  Keeps-recover_found j (ok none) p a = Keeps-pure (writes P id start) false
  Keeps-recover_found j (ok (some s)) p a =
      let I = writes P id start in
      Keeps-bind I (Keeps-quiet I (IsQuiet-is_swap_still_locked_by_swap x s)) (λ locked b.
        Keeps-recover_locked s locked (seen x old P rules id start at_start j p a).0
          (Said-of_Answers b))

  pub Keeps-recover_from_reverted_receipt :
      (j : String) → j ≡ id → Keeps (writes P id start) (recover_from_reverted_receipt x j)
  unfolding recover_from_reverted_receipt
  Keeps-recover_from_reverted_receipt j p =
      let I = writes P id start in
      Keeps-bind I (Keeps-quiet I (search (quiet_rules)))
        (λ found a. Keeps-recover_found j found p a)

  Keeps-on_outcome :
      (j : String) (outcome : ReceiptOutcome) {rest : M Bool}
      → j ≡ id
      → Keeps (writes P id start) rest
      → Keeps (writes P id start) (on_outcome x j outcome rest)
  unfolding on_outcome
  Keeps-on_outcome j (advanced reached_terminal) p k = Keeps-pure (writes P id start) _
  Keeps-on_outcome j reverted p k = Keeps-recover_from_reverted_receipt j p
  Keeps-on_outcome j not_mined p k = k

  Keeps-poll_receipt_for :
      (j tx_hash : String) (left : ℕ)
      → j ≡ id
      → ClaimHash x old tx_hash
      → Keeps (writes P id start) (poll_receipt_for x j tx_hash left)
  unfolding poll_receipt_for
  Keeps-poll_receipt_for j tx_hash zero p ours = Keeps-pure (writes P id start) false
  Keeps-poll_receipt_for j tx_hash (suc left) p ours =
      Keeps-bind (writes P id start)
        (Keeps-check_receipt_once x old P rules id start at_start j tx_hash p ours)
        (λ outcome _. Keeps-on_outcome j outcome p (Keeps-poll_receipt_for j tx_hash left p ours))

  pub Keeps-poll_receipt :
      (j tx_hash : String)
      → j ≡ id
      → ClaimHash x old tx_hash
      → Keeps (writes P id start) (poll_receipt x j tx_hash)
  unfolding poll_receipt
  Keeps-poll_receipt j tx_hash p ours =
      Keeps-poll_receipt_for j tx_hash receipt_poll_max_attempts p ours

  Keeps-note_recovered :
      (j tx_hash : String) (found : Result (Option BoltzSwap))
      → j ≡ id
      → ClaimHash x old tx_hash
      → Answers (writes P id start) (get_swap x.outside j) found
      → Keeps (writes P id start) (note_recovered x tx_hash found)
  unfolding note_recovered
  Keeps-note_recovered j tx_hash (err e) p ours a = Keeps-pure (writes P id start) tt
  Keeps-note_recovered j tx_hash (ok none) p ours a = Keeps-pure (writes P id start) tt
  Keeps-note_recovered j tx_hash (ok (some s)) p ours a =
      let I = writes P id start in
      Keeps-bind I (Keeps-quiet I (search (quiet_rules))) λ now _.
        Keeps-then I
          (Keeps-note x old P rules id start at_start s (some tx_hash) none now
            (seen x old P rules id start at_start j p a).1 (known tx_hash refl ours))
          (Keeps-pure I tt)

  Keeps-resume_with :
      (s : BoltzSwap) (call_id : String) (result : Result String)
      → Follows x old s
      → old.pending_call_id ≡ some call_id
      → Said (ask (λ n. x.outside.poll_call_status n call_id)) result
      → Keeps (writes P id start) (resume_with x s result)
  unfolding resume_with
  Keeps-resume_with s call_id (ok tx_hash) e q h =
      let I = writes P id start in
      let p = id-of_terms x old P rules id start at_start s e in
      Keeps-bind I (Keeps-quiet I (search (quiet_rules))) λ found a.
        Keeps-then I (Keeps-note_recovered s.id tx_hash found p (recovered call_id q h) a)
          (Keeps-poll_receipt s.id tx_hash p (recovered call_id q h))
  Keeps-resume_with s call_id (err e') e q h =
      let I = writes P id start in
      Keeps-then I (Keeps-check_on_chain_and_retry x old P rules id start at_start s e)
        (Keeps-pure I false)

  pub Keeps-resume_pending_call :
      (s : BoltzSwap) (call_id : String)
      → Follows x old s
      → old.pending_call_id ≡ some call_id
      → Keeps (writes P id start) (resume_pending_call x s call_id)
  unfolding resume_pending_call
  Keeps-resume_pending_call s call_id e q =
      let I = writes P id start in
      Keeps-bind I (Keeps-quiet I (search (quiet_rules)))
        (λ result a. Keeps-resume_with s call_id result e q (Said-of_Answers a))

  Keeps-resume_claim :
      (hash call_id : Option String)
      → old.claim_tx_hash ≡ hash
      → old.pending_call_id ≡ call_id
      → Keeps (writes P id start) (resume_claim x old hash call_id)
  unfolding resume_claim
  Keeps-resume_claim (some tx_hash) call_id p q =
      let I = writes P id start in
      Keeps-then I
        (Keeps-poll_receipt old.id tx_hash
          (id-of_terms x old P rules id start at_start old (Follows-old x old)) (recorded p))
        (Keeps-pure I tt)
  Keeps-resume_claim none (some call_id) p q =
      let I = writes P id start in
      Keeps-then I (Keeps-resume_pending_call old call_id (Follows-old x old) q) (Keeps-pure I tt)
  Keeps-resume_claim none none p q =
      Keeps-check_on_chain_and_retry x old P rules id start at_start old (Follows-old x old)

  pub Keeps-handle_claiming_resume : Keeps (writes P id start) (handle_claiming_resume x old)
  unfolding handle_claiming_resume
  Keeps-handle_claiming_resume = Keeps-resume_claim old.claim_tx_hash old.pending_call_id refl refl
