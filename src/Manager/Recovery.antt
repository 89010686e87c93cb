-- ===== src/Manager/Recovery.antt =====
-- `Rules` for do_claim and check_on_chain_and_retry of crates/lib/src/swap/manager.rs.
use boltz_client.Prelude.{◌⊎◌, inl, inr, subst, sym, String, ◌≡◌, refl, ap, Bool, true, false, some}
use boltz_client.Errors.{Result, ok, err, quote_degraded_beyond_slippage}
use boltz_client.Models.{BoltzSwap}
use boltz_client.Models.Lifecycle.{
  Status, claiming, tbtc_locked, failed, rank, is_terminal, is_settling,
}
use boltz_client.Lockup.{
  SpentClassification, claimed, refunded, unknown, classify_spent_lockup,
  is_swap_still_locked_by_swap,
}
use boltz_client.Lockup.Effects.{
  IsQuiet-is_swap_still_locked_by_swap, IsQuiet-classify_spent_lockup,
}
use boltz_client.Claim.{claim_locked, claim_if, claim_and_swap}
use boltz_client.Claim.Effects.{
  IsQuiet-wait_for_lock, IsQuiet-ensure_timeout_margin, Keeps-claim_attempts,
}
use boltz_client.World.{World, Executor, Sent}
use boltz_client.World.Action.{note_sent}
use boltz_client.World.Store.{row}
use boltz_client.World.Effects.{
  Said, Said-of_Answers, Keeps, Keeps-quiet, Keeps-pure, Keeps-bind, Keeps-then, Keeps-try,
  quiet_rules,
}
use boltz_client.World.Writes.{writes, Keeps-upsert_swap}
use boltz_client.Manager.Status.{update_swap_status}
use boltz_client.Manager.Retry.{
  after_claim, do_claim, settle_spent, classify_and_settle, retry_or_settle,
  check_on_chain_and_retry,
}
use boltz_client.Manager.Rules.{
  Follows, just_claimed, Rules, Opens, won, given-update_swap_status, Keeps-update_swap_status,
  id-of_terms, Keeps-persist_pending_call_id, Keeps-advance_via_winning_claim,
}

Keeps-note_sent :
    (P : BoltzSwap → Type 0) (id : String) (start : World) (s : Sent)
    → Keeps (writes P id start) (note_sent s)
unfolding note_sent
Keeps-note_sent P id start s = record { at = λ w h. h }

module _ (x : Executor) (old : BoltzSwap) (P : BoltzSwap → Type 0) (rules : Rules x old P)
    (id : String) (start : World) (at_start : row id start ≡ some old) where
  Keeps-claim_locked :
      (s : BoltzSwap) (skip_drift_check : Bool)
      → s.id ≡ id
      → Keeps (writes P id start) (claim_locked x s skip_drift_check)
  unfolding claim_locked
  Keeps-claim_locked s skip_drift_check e =
      let I = writes P id start in
      Keeps-try I (Keeps-quiet I (IsQuiet-ensure_timeout_margin x s s.timeout_block_height)) λ _ _.
        Keeps-try I (Keeps-pure I _) λ preimage _. Keeps-try I (Keeps-pure I _) λ key _.
          Keeps-try I (Keeps-quiet I (search (quiet_rules))) λ version _.
            Keeps-try I (Keeps-pure I _) λ addrs _. Keeps-try I (Keeps-pure I _) λ amount _.
              Keeps-claim_attempts I x s _ (λ call answer given built. Keeps-note_sent P id start _)
                (λ call_id.
                  Keeps-persist_pending_call_id x old P rules id start at_start s.id call_id e)
                _

  Keeps-claim_if :
      (s : BoltzSwap) (skip_drift_check locked : Bool)
      → s.id ≡ id
      → Keeps (writes P id start) (claim_if x s skip_drift_check locked)
  unfolding claim_if
  Keeps-claim_if s skip_drift_check true e = Keeps-claim_locked s skip_drift_check e
  Keeps-claim_if s skip_drift_check false e = Keeps-pure (writes P id start) _

  pub Keeps-claim_and_swap :
      (s : BoltzSwap) (skip_drift_check : Bool)
      → s.id ≡ id
      → Keeps (writes P id start) (claim_and_swap x s skip_drift_check)
  unfolding claim_and_swap
  Keeps-claim_and_swap s skip_drift_check e =
      let I = writes P id start in
      Keeps-bind I (Keeps-quiet I (IsQuiet-wait_for_lock x s _))
        (λ locked _. Keeps-claim_if s skip_drift_check locked e)

  -- What a claim leaves, where the swap in memory is `Claiming`.
  Keeps-after_claim :
      (s : BoltzSwap) (skip_drift_check : Bool) (result : Result String)
      → Said (claim_and_swap x s skip_drift_check) result
      → Follows x old s
      → s.status ≡ claiming
      → Opens x old P
      → Keeps (writes P id start) (after_claim x s result)
  unfolding after_claim is_terminal is_settling rank
  Keeps-after_claim s skip_drift_check (ok tx_hash) c e h opens =
      let I = writes P id start in
      Keeps-bind I (Keeps-quiet I (search (quiet_rules))) λ now _.
        Keeps-then I
          (Keeps-upsert_swap P id start x.outside _
            (id-of_terms x old P rules id start at_start s e)
            (opens (record s { claim_tx_hash = some tx_hash; updated_at = now })
              (e.0, just_claimed s skip_drift_check tx_hash refl e.0 c) (inl h)))
          (Keeps-pure I tt)
  Keeps-after_claim s skip_drift_check
        (err (quote_degraded_beyond_slippage expected_usd quoted_usd)) c e h opens =
      let I = writes P id start in
      Keeps-bind I (Keeps-quiet I (search (quiet_rules))) λ now _.
        Keeps-then I
          (Keeps-upsert_swap P id start x.outside _
            (id-of_terms x old P rules id start at_start s e)
            (opens (record s { status = tbtc_locked; updated_at = now }) e (inr refl)))
          (Keeps-quiet I (search (quiet_rules)))
  Keeps-after_claim s skip_drift_check (err e') c e h opens = Keeps-pure (writes P id start) tt

  -- Putting a swap with the terms of the old one in `Claiming` or in `TbtcLocked`.
  pub Keeps-open :
      (s : BoltzSwap) (status : Status)
      → Follows x old s
      → (status ≡ claiming) ⊎ (status ≡ tbtc_locked)
      → Opens x old P
      → Keeps (writes P id start) (update_swap_status x s status)
  Keeps-open s status e which opens =
      Keeps-update_swap_status x P id start s status
        (id-of_terms x old P rules id start at_start s e)
        (λ now. opens (record s { status = status; updated_at = now }) e which)

  pub Keeps-do_claim :
      (s : BoltzSwap) (skip_drift_check : Bool)
      → Follows x old s
      → Opens x old P
      → Keeps (writes P id start) (do_claim x s skip_drift_check)
  unfolding do_claim is_terminal is_settling rank
  Keeps-do_claim s skip_drift_check e opens =
      let I = writes P id start in
      Keeps-bind I (Keeps-open s claiming e (inl refl) opens) λ t a.
        let (now, same) = given-update_swap_status x s claiming (Said-of_Answers a) in
        let terms_t : Follows x old t = subst (Follows x old) (sym same) e in
        Keeps-bind I
          (Keeps-claim_and_swap t skip_drift_check
            (id-of_terms x old P rules id start at_start t terms_t))
          (λ result c.
            Keeps-after_claim t skip_drift_check result (Said-of_Answers c) terms_t
              (ap BoltzSwap.status same) opens)

  pub Keeps-settle_spent :
      (s : BoltzSwap) (reason : String) (classified : Result SpentClassification)
      → Follows x old s
      → Said (classify_spent_lockup x s) classified
      → Keeps (writes P id start) (settle_spent x s reason classified)
  unfolding settle_spent
  Keeps-settle_spent s reason (ok (claimed tx_hash)) e h =
      Keeps-advance_via_winning_claim x old P rules id start at_start s.id tx_hash
        (id-of_terms x old P rules id start at_start s e) (won s e.0 h)
  Keeps-settle_spent s reason (ok refunded) e h =
      let I = writes P id start in
      Keeps-then I
        (Keeps-update_swap_status x P id start s (failed reason)
          (id-of_terms x old P rules id start at_start s e)
          (λ now.
            rules.gave_up (record s { status = failed reason; updated_at = now }) s reason e e.0 h
              refl))
        (Keeps-pure I true)
  Keeps-settle_spent s reason (ok unknown) e h = Keeps-pure (writes P id start) false
  Keeps-settle_spent s reason (err e') e h = Keeps-pure (writes P id start) false

  pub Keeps-classify_and_settle :
      (s : BoltzSwap) (reason : String)
      → Follows x old s
      → Keeps (writes P id start) (classify_and_settle x s reason)
  unfolding classify_and_settle
  Keeps-classify_and_settle s reason e =
      let I = writes P id start in
      Keeps-bind I (Keeps-quiet I (IsQuiet-classify_spent_lockup x s))
        (λ classified a. Keeps-settle_spent s reason classified e (Said-of_Answers a))

  Keeps-retry_or_settle :
      (s : BoltzSwap) (locked : Result Bool)
      → Follows x old s
      → Said (is_swap_still_locked_by_swap x s) locked
      → Keeps (writes P id start) (retry_or_settle x s locked)
  unfolding retry_or_settle is_terminal is_settling rank
  Keeps-retry_or_settle s (ok true) e h =
      let I = writes P id start in
      Keeps-bind I (Keeps-quiet I (search (quiet_rules))) λ now _.
        Keeps-then I
          (Keeps-upsert_swap P id start x.outside _
            (id-of_terms x old P rules id start at_start s e)
            (rules.opened s e.0 h (record s { status = tbtc_locked; updated_at = now }) e
              (inr refl)))
          (Keeps-do_claim (record s { status = tbtc_locked; updated_at = now }) false e
            (rules.opened s e.0 h))
  Keeps-retry_or_settle s (ok false) e h =
      let I = writes P id start in
      Keeps-then I (Keeps-classify_and_settle s "Lockup refunded" e) (Keeps-pure I tt)
  Keeps-retry_or_settle s (err e') e h = Keeps-pure (writes P id start) tt

  pub Keeps-check_on_chain_and_retry :
      (s : BoltzSwap) → Follows x old s → Keeps (writes P id start) (check_on_chain_and_retry x s)
  unfolding check_on_chain_and_retry
  Keeps-check_on_chain_and_retry s e =
      let I = writes P id start in
      Keeps-bind I (Keeps-quiet I (IsQuiet-is_swap_still_locked_by_swap x s))
        (λ locked a. Keeps-retry_or_settle s locked e (Said-of_Answers a))
