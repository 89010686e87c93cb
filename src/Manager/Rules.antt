-- ===== src/Manager/Rules.antt =====
-- The interface between the recovery code of crates/lib/src/swap/manager.rs and what is claimed of the
-- rows it writes: the rules for `P`, and the receipt checks under them.
use boltz_client.Prelude.{
  ℕ, String, ◌≡◌, refl, sym, subst, ap, ◌∙◌, Bool, true, false, not, ◌||◌, Option, none, some, ◌⊎◌,
  inl, inr,
}
use boltz_client.Errors.{Result, ok, err}
use boltz_client.Models.{BoltzSwap}
use boltz_client.Models.Lifecycle.{
  Status, created, claiming, tbtc_locked, failed, is_terminal, is_settling,
}
use boltz_client.Outside.{TxReceipt, is_success, is_reverted}
use boltz_client.Lockup.{classify_spent_lockup, refunded, claimed, is_swap_still_locked_by_swap}
use boltz_client.World.{World, Executor}
use boltz_client.World.Action.{pure, ask, emit, ◌>>=◌}
use boltz_client.World.Store.{row, get_swap, upsert_swap, id-find_row}
use boltz_client.World.Effects.{
  Said, Said-of_Answers, Answers, Keeps, Keeps-quiet, Keeps-pure, Keeps-if, Keeps-bind, Keeps-then,
  quiet_rules,
}
use boltz_client.World.Writes.{writes, Keeps-upsert_swap, read_back}
use boltz_client.Claim.{claim_and_swap, persist_pending_call_id, with_call_id}
use boltz_client.Crates.{Crates}
use boltz_client.Contracts.Delivered.{DeliveredAmount, DeliveredAmountSource}
use boltz_client.Manager.Status.{
  update_swap_status, post_claim_status, direct_completion_has_evidence, apply_delivered_amount,
  read_logs, with_delivery,
}
use boltz_client.Manager.Receipt.{
  finish_claim, apply_to_found, apply_successful_receipt, outcome_of, check_receipt_once,
  read_winning, adopt, advance_via_winning_claim,
}

-- What a swap was created with: everything but its progress.
abbrev pub terms : BoltzSwap → BoltzSwap
terms s = record s {
  status = created;
  lockup_tx_id = none;
  claim_tx_hash = none;
  pending_call_id = none;
  delivered_amount = none;
  bridge_ref = none;
  updated_at = 0;
}

-- A status from which the swap may still be claimed.
abbrev pub is_open : Status → Bool
is_open status = not (is_terminal status || is_settling status)

-- How the transaction whose receipt advances the swap is known for the swap's claim: the row records
-- it, the sponsor gives it for the call that the row has pending, or the spent lockup was claimed by it.
pub data ClaimHash (x : Executor) (old : BoltzSwap) (tx_hash : String) : Type 0 where
  recorded : old.claim_tx_hash ≡ some tx_hash → ClaimHash x old tx_hash
  recovered :
      (call_id : String)
      → old.pending_call_id ≡ some call_id
      → Said (ask (λ n. x.outside.poll_call_status n call_id)) (ok tx_hash)
      → ClaimHash x old tx_hash
  won :
      (t : BoltzSwap)
      → terms t ≡ terms old
      → Said (classify_spent_lockup x t) (ok (claimed tx_hash))
      → ClaimHash x old tx_hash

-- The claim hash of a row that follows the old one: none, the old one, one that is known for the
-- swap's claim, or one that a claim of the swap has just given.
pub data RecordedHash (x : Executor) (old : BoltzSwap) (hash : Option String) : Type 0 where
  cleared : hash ≡ none → RecordedHash x old hash
  unchanged : hash ≡ old.claim_tx_hash → RecordedHash x old hash
  known :
      (tx_hash : String) → hash ≡ some tx_hash → ClaimHash x old tx_hash → RecordedHash x old hash
  just_claimed :
      (t : BoltzSwap) (skip_drift_check : Bool) (tx_hash : String)
      → hash ≡ some tx_hash
      → terms t ≡ terms old
      → Said (claim_and_swap x t skip_drift_check) (ok tx_hash)
      → RecordedHash x old hash

-- The same terms, and a claim hash that is accounted for.
abbrev pub Follows : Executor → BoltzSwap → BoltzSwap → Type 0
Follows x old s = (terms s ≡ terms old) × RecordedHash x old s.claim_tx_hash

pub Follows-old : (x : Executor) (old : BoltzSwap) → Follows x old old
Follows-old x old = (refl, unchanged refl)

-- A row that follows the old one may be put in `Claiming` or in `TbtcLocked`.
abbrev pub Opens : Executor → BoltzSwap → (BoltzSwap → Type 0) → Type 0
Opens x old P =
    (s : BoltzSwap) → Follows x old s → (s.status ≡ claiming) ⊎ (s.status ≡ tbtc_locked) → P s

pub record Rules (x : Executor) (old : BoltzSwap) (P : BoltzSwap → Type 0) : Type 0 where
  pub follows : (s : BoltzSwap) → P s → Follows x old s
  pub opened :
      (t : BoltzSwap)
      → terms t ≡ terms old
      → Said (is_swap_still_locked_by_swap x t) (ok true)
      → Opens x old P
  pub noted :
      (s : BoltzSwap) (hash call_id : Option String) (now : ℕ)
      → (s ≡ old) ⊎ P s
      → RecordedHash x old hash
      → P (record s { claim_tx_hash = hash; pending_call_id = call_id; updated_at = now })
  pub confirmed :
      (s : BoltzSwap) (tx_hash : String) (receipt : TxReceipt)
      → Follows x old s
      → ClaimHash x old tx_hash
      → Said (ask (λ n. x.outside.eth_get_transaction_receipt n tx_hash)) (ok (some receipt))
      → is_success receipt ≡ true
      → direct_completion_has_evidence s ≡ true
      → s.status ≡ post_claim_status s
      → P s
  pub gave_up :
      (s t : BoltzSwap) (reason : String)
      → Follows x old s
      → terms t ≡ terms old
      → Said (classify_spent_lockup x t) (ok refunded)
      → s.status ≡ failed reason
      → P s

-- The swap that a status update hands back, and writes, has the status and nothing else changed.
pub given-update_swap_status :
    (x : Executor) (swap : BoltzSwap) (status : Status) {s : BoltzSwap}
    → Said (update_swap_status x swap status) s
    → (now : ℕ) × (s ≡ record swap { status = status; updated_at = now })
unfolding update_swap_status ◌>>=◌ ask emit pure
given-update_swap_status x swap status h = (x.outside.unix_time h.from.calls, sym h.gives)

-- The same terms and the same claim hash.
abbrev Kept : BoltzSwap → BoltzSwap → Type 0
Kept s t = (terms t ≡ terms s) × (t.claim_tx_hash ≡ s.claim_tx_hash)

with_delivery-Kept :
    (swap : BoltzSwap) (tx_hash : String) (decoded : Option DeliveredAmount)
    → Kept swap (with_delivery swap tx_hash decoded)
unfolding with_delivery
with_delivery-Kept swap tx_hash none = (refl, refl)
with_delivery-Kept swap tx_hash (some decoded) = (refl, refl)

read_logs-Kept :
    (c : Crates) (swap : BoltzSwap) (receipt : TxReceipt) (tx_hash : String)
    (source : Option DeliveredAmountSource)
    → Kept swap (read_logs c swap receipt tx_hash source)
unfolding read_logs
read_logs-Kept c swap receipt tx_hash none = (refl, refl)
read_logs-Kept c swap receipt tx_hash (some source) = with_delivery-Kept swap tx_hash _

-- Reading the receipt's logs adds what was delivered, and nothing else.
pub apply_delivered_amount-Kept :
    (x : Executor) (swap : BoltzSwap) (receipt : TxReceipt) (tx_hash : String)
    → Kept swap (apply_delivered_amount x swap receipt tx_hash)
unfolding apply_delivered_amount
apply_delivered_amount-Kept x swap receipt tx_hash = read_logs-Kept x.crates swap receipt tx_hash _

module _ (x : Executor) (P : BoltzSwap → Type 0) (id : String) (start : World) where
  pub Keeps-update_swap_status :
      (swap : BoltzSwap) (status : Status)
      → swap.id ≡ id
      → ((now : ℕ) → P (record swap { status = status; updated_at = now }))
      → Keeps (writes P id start) (update_swap_status x swap status)
  unfolding update_swap_status
  Keeps-update_swap_status swap status e h =
      let I = writes P id start in
      Keeps-bind I (Keeps-quiet I (search (quiet_rules))) λ now _.
        Keeps-then I (Keeps-upsert_swap P id start x.outside _ e (h now))
          (Keeps-quiet I (search (quiet_rules)))

module _ (x : Executor) (old : BoltzSwap) (P : BoltzSwap → Type 0) (rules : Rules x old P)
    (id : String) (start : World) (at_start : row id start ≡ some old) where
  old_id : old.id ≡ id
  old_id = id-find_row id start.rows at_start

  pub id-of_terms : (s : BoltzSwap) → Follows x old s → s.id ≡ id
  id-of_terms s e = ap BoltzSwap.id e.0 ∙ old_id

  pub terms_of_either : {s : BoltzSwap} → (s ≡ old) ⊎ P s → Follows x old s
  terms_of_either (inl e) = (ap terms e, unchanged (ap BoltzSwap.claim_tx_hash e))
  terms_of_either {s} (inr p) = rules.follows s p

  -- A row that is read back, by the id it is kept under.
  pub seen :
      {s : BoltzSwap} (j : String)
      → j ≡ id
      → Answers (writes P id start) (get_swap x.outside j) (ok (some s))
      → Follows x old s × ((s ≡ old) ⊎ P s)
  seen {s} j e a =
      let here =
        subst (λ k. Answers (writes P id start) (get_swap x.outside k) (ok (some s))) e a in
      let (_, either) = read_back P id start x.outside at_start here in
      (terms_of_either either, either)

  Follows-Kept : (s t : BoltzSwap) → Kept s t → Follows x old s → Follows x old t
  Follows-Kept s t (terms_same, hash_same) (e, hash) =
      (terms_same ∙ e, subst (RecordedHash x old) (sym hash_same) hash)

  pub Keeps-note :
      (s : BoltzSwap) (hash call_id : Option String) (now : ℕ)
      → (s ≡ old) ⊎ P s
      → RecordedHash x old hash
      → Keeps (writes P id start) (
          upsert_swap x.outside
            (record s { claim_tx_hash = hash; pending_call_id = call_id; updated_at = now }))
  Keeps-note s hash call_id now either accounted =
      Keeps-upsert_swap P id start x.outside _ (id-of_terms s (terms_of_either either))
        (rules.noted s hash call_id now either accounted)

  Keeps-with_call_id :
      (j call_id : String) (found : Result (Option BoltzSwap))
      → j ≡ id
      → Answers (writes P id start) (get_swap x.outside j) found
      → Keeps (writes P id start) (with_call_id x call_id found)
  unfolding with_call_id
  Keeps-with_call_id j call_id (err e) p a = Keeps-pure (writes P id start) tt
  Keeps-with_call_id j call_id (ok none) p a = Keeps-pure (writes P id start) tt
  Keeps-with_call_id j call_id (ok (some s)) p a =
      let I = writes P id start in
      Keeps-bind I (Keeps-quiet I (search (quiet_rules))) λ now _.
        Keeps-then I
          (Keeps-note s s.claim_tx_hash (some call_id) now (seen j p a).1 (seen j p a).0.1)
          (Keeps-pure I tt)

  pub Keeps-persist_pending_call_id :
      (j call_id : String)
      → j ≡ id
      → Keeps (writes P id start) (persist_pending_call_id x j call_id)
  unfolding persist_pending_call_id
  Keeps-persist_pending_call_id j call_id p =
      let I = writes P id start in
      Keeps-bind I (Keeps-quiet I (search (quiet_rules)))
        (λ found a. Keeps-with_call_id j call_id found p a)

  -- A successful receipt of the transaction was seen.
  abbrev Succeeded : String → TxReceipt → Type 0
  Succeeded tx_hash receipt =
      Said (ask (λ n. x.outside.eth_get_transaction_receipt n tx_hash)) (ok (some receipt))
      × (is_success receipt ≡ true)

  Keeps-finish_claim :
      (s : BoltzSwap) (tx_hash : String) (receipt : TxReceipt)
      → Follows x old s
      → ClaimHash x old tx_hash
      → Succeeded tx_hash receipt
      → Keeps (writes P id start) (finish_claim x s)
  unfolding finish_claim post_claim_status direct_completion_has_evidence
  Keeps-finish_claim s tx_hash receipt e ours (said, success) =
      let I = writes P id start in
      Keeps-if I (direct_completion_has_evidence s)
        (λ evidence.
          Keeps-then I
            (Keeps-update_swap_status x P id start s (post_claim_status s) (id-of_terms s e) (λ now.
              rules.confirmed (record s { status = post_claim_status s; updated_at = now }) tx_hash
                receipt e ours said success evidence refl))
            (Keeps-pure I true))
        (λ _. Keeps-pure I false)

  Keeps-apply_to_found :
      (j tx_hash : String) (receipt : TxReceipt) (found : Result (Option BoltzSwap))
      → j ≡ id
      → ClaimHash x old tx_hash
      → Succeeded tx_hash receipt
      → Answers (writes P id start) (get_swap x.outside j) found
      → Keeps (writes P id start) (apply_to_found x tx_hash receipt found)
  unfolding apply_to_found
  Keeps-apply_to_found j tx_hash receipt (err e) p ours h a = Keeps-pure (writes P id start) true
  Keeps-apply_to_found j tx_hash receipt (ok none) p ours h a = Keeps-pure (writes P id start) true
  Keeps-apply_to_found j tx_hash receipt (ok (some s)) p ours h a =
      Keeps-finish_claim (apply_delivered_amount x s receipt tx_hash) tx_hash receipt
        (Follows-Kept s (apply_delivered_amount x s receipt tx_hash)
          (apply_delivered_amount-Kept x s receipt tx_hash) (seen j p a).0)
        ours h

  Keeps-outcome_of :
      (j tx_hash : String) (answer : Result (Option TxReceipt))
      → j ≡ id
      → ClaimHash x old tx_hash
      → Said (ask (λ n. x.outside.eth_get_transaction_receipt n tx_hash)) answer
      → Keeps (writes P id start) (outcome_of x j tx_hash answer)
  unfolding outcome_of apply_successful_receipt
  Keeps-outcome_of j tx_hash (err e) p ours h = Keeps-pure (writes P id start) _
  Keeps-outcome_of j tx_hash (ok none) p ours h = Keeps-pure (writes P id start) _
  Keeps-outcome_of j tx_hash (ok (some receipt)) p ours h =
      let I = writes P id start in
      Keeps-if I (is_success receipt)
        (λ success.
          Keeps-bind I
            (Keeps-bind I (Keeps-quiet I (search (quiet_rules)))
              (λ found a. Keeps-apply_to_found j tx_hash receipt found p ours (h, success) a))
            (λ reached_terminal _. Keeps-pure I _))
        (λ _. Keeps-if I (is_reverted receipt) (λ _. Keeps-pure I _) (λ _. Keeps-pure I _))

  pub Keeps-check_receipt_once :
      (j tx_hash : String)
      → j ≡ id
      → ClaimHash x old tx_hash
      → Keeps (writes P id start) (check_receipt_once x j tx_hash)
  unfolding check_receipt_once
  Keeps-check_receipt_once j tx_hash p ours =
      let I = writes P id start in
      Keeps-bind I (Keeps-quiet I (search (quiet_rules)))
        (λ answer a. Keeps-outcome_of j tx_hash answer p ours (Said-of_Answers a))

  Keeps-read_winning :
      (j tx_hash : String)
      → j ≡ id
      → ClaimHash x old tx_hash
      → Keeps (writes P id start) (read_winning x j tx_hash)
  unfolding read_winning
  Keeps-read_winning j tx_hash p ours =
      let I = writes P id start in
      Keeps-bind I (Keeps-check_receipt_once j tx_hash p ours) (λ outcome _. Keeps-pure I _)

  Keeps-adopt :
      (j tx_hash : String) (found : Result (Option BoltzSwap))
      → j ≡ id
      → ClaimHash x old tx_hash
      → Answers (writes P id start) (get_swap x.outside j) found
      → Keeps (writes P id start) (adopt x j tx_hash found)
  unfolding adopt
  Keeps-adopt j tx_hash (err e) p ours a = Keeps-read_winning j tx_hash p ours
  Keeps-adopt j tx_hash (ok none) p ours a = Keeps-read_winning j tx_hash p ours
  Keeps-adopt j tx_hash (ok (some s)) p ours a =
      let I = writes P id start in
      Keeps-if I (is_terminal s.status || is_settling s.status) (λ _. Keeps-pure I true)
        λ _. Keeps-bind I (Keeps-quiet I (search (quiet_rules))) λ now _.
          Keeps-then I
            (Keeps-note s (some tx_hash) none now (seen j p a).1 (known tx_hash refl ours))
            (Keeps-read_winning j tx_hash p ours)

  pub Keeps-advance_via_winning_claim :
      (j tx_hash : String)
      → j ≡ id
      → ClaimHash x old tx_hash
      → Keeps (writes P id start) (advance_via_winning_claim x j tx_hash)
  unfolding advance_via_winning_claim
  Keeps-advance_via_winning_claim j tx_hash p ours =
      let I = writes P id start in
      Keeps-bind I (Keeps-quiet I (search (quiet_rules)))
        (λ found a. Keeps-adopt j tx_hash found p ours a)
