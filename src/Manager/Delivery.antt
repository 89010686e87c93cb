-- ===== src/Manager/Delivery.antt =====
-- `confirm_delivery` of crates/lib/src/swap/manager.rs: what a completed row rests on.
use boltz_client.Prelude.{
  ℕ, String, ◌≡◌, refl, ap, ◌∙◌, true, false, Option, none, some, ◌⊎◌, inl, inr, is_some,
}
use boltz_client.Errors.{Result, ok, err}
use boltz_client.Models.{BoltzSwap}
use boltz_client.Models.Destinations.{BridgeKind, NetworkTransport, solana}
use boltz_client.Models.Lifecycle.{completed, is_settling}
use boltz_client.Bridges.{
  CctpMessageStatus, LzMessageStatus, cctp_delivery_status, cctp_completion_amount,
  oft_delivery_status, is_delivered, iris_status, forward_failed,
}
use boltz_client.World.{World, Executor}
use boltz_client.World.Store.{row, get_swap}
use boltz_client.World.Effects.{
  Said, Said-of_Answers, Answers, Keeps, Keeps-quiet, Keeps-pure, Keeps-if, Keeps-bind, Keeps-then,
  IsQuiet, IsQuiet-pure, IsQuiet-ask, IsQuiet-bind, IsQuiet-try, quiet_rules,
}
use boltz_client.World.Writes.{writes, read_back_row}
use boltz_client.Manager.Rules.{Keeps-update_swap_status}
use boltz_client.Manager.Poll.{
  with_amount, complete_found, finalize_completed, cctp_nonce_consumed_on_solana, probe_on, probe,
  cctp_destination_delivered, on_probe, cctp_by_amount, on_cctp_status, on_oft_status,
  confirm_by_bridge, confirm_with, confirm_delivery,
}

module _ (x : Executor) where
  IsQuiet-iris_status : (guid : Result (ℕ × String)) → IsQuiet (iris_status x guid)
  unfolding iris_status
  IsQuiet-iris_status (ok (domain, tx_hash)) =
      IsQuiet-bind (IsQuiet-ask _) (λ reply. IsQuiet-pure _)
  IsQuiet-iris_status (err e) = IsQuiet-pure _

  IsQuiet-cctp_delivery_status : (guid : String) → IsQuiet (cctp_delivery_status x guid)
  unfolding cctp_delivery_status
  IsQuiet-cctp_delivery_status guid = IsQuiet-iris_status _

  IsQuiet-oft_delivery_status : (guid : String) → IsQuiet (oft_delivery_status x guid)
  unfolding oft_delivery_status
  IsQuiet-oft_delivery_status guid = IsQuiet-bind (IsQuiet-ask _) (λ reply. IsQuiet-pure _)

  IsQuiet-probe_on :
      (message : String) (delivered : ℕ) (t : NetworkTransport)
      → IsQuiet (probe_on x message delivered t)
  unfolding probe_on cctp_nonce_consumed_on_solana
  IsQuiet-probe_on message delivered solana =
      IsQuiet-try
        (IsQuiet-try (IsQuiet-pure _)
          (λ nonce. IsQuiet-try (IsQuiet-pure _) (λ pda. IsQuiet-ask _)))
        (λ consumed. IsQuiet-pure _)
  IsQuiet-probe_on message delivered NetworkTransport.evm = IsQuiet-pure _
  IsQuiet-probe_on message delivered NetworkTransport.tron = IsQuiet-pure _

  IsQuiet-probe :
      (swap : BoltzSwap) (message : Option String) (delivered : Option ℕ)
      → IsQuiet (probe x swap message delivered)
  unfolding probe
  IsQuiet-probe swap (some message) (some delivered) =
      IsQuiet-try (IsQuiet-pure _) (λ dest. IsQuiet-probe_on message delivered dest.transport)
  IsQuiet-probe swap (some message) none = IsQuiet-pure _
  IsQuiet-probe swap none delivered = IsQuiet-pure _

  IsQuiet-cctp_destination_delivered :
      (swap : BoltzSwap) (status : CctpMessageStatus)
      → IsQuiet (cctp_destination_delivered x swap status)
  unfolding cctp_destination_delivered
  IsQuiet-cctp_destination_delivered swap status = IsQuiet-probe swap _ _

-- What the bridge of the listed swap said of the delivery, and the amount that it gave.
pub data Delivered (x : Executor) (swap : BoltzSwap) (amount : Option ℕ) : Type 0 where
  forwarded :
      (guid : String) (status : CctpMessageStatus)
      → swap.bridge_kind ≡ BridgeKind.cctp
      → swap.bridge_ref ≡ some guid
      → Said (cctp_delivery_status x guid) (ok status)
      → cctp_completion_amount status ≡ amount
      → is_some amount ≡ true
      → Delivered x swap amount
  landed :
      (guid : String) (status : CctpMessageStatus)
      → swap.bridge_kind ≡ BridgeKind.cctp
      → swap.bridge_ref ≡ some guid
      → Said (cctp_delivery_status x guid) (ok status)
      → forward_failed status ≡ true
      → Said (cctp_destination_delivered x swap status) (ok amount)
      → is_some amount ≡ true
      → Delivered x swap amount
  scanned :
      (guid : String) (status : LzMessageStatus)
      → swap.bridge_kind ≡ BridgeKind.oft
      → swap.bridge_ref ≡ some guid
      → Said (oft_delivery_status x guid) (ok status)
      → is_delivered status ≡ true
      → amount ≡ none
      → Delivered x swap amount
  on_arbitrum :
      (guid : String)
      → swap.bridge_kind ≡ BridgeKind.direct
      → swap.bridge_ref ≡ some guid
      → amount ≡ none
      → Delivered x swap amount

-- The settling row `old` is completed: only the status, the time and, where the bridge gave it, the
-- delivered amount change.
pub record Completes (x : Executor) (swap old s : BoltzSwap) : Type 0 where
  pub was_settling : is_settling old.status ≡ true
  pub amount : Option ℕ
  pub delivered : Delivered x swap amount
  pub now : ℕ
  pub completes : s ≡ record (with_amount old amount) { status = completed; updated_at = now }

module _ (x : Executor) (swap : BoltzSwap) (start : World) where
  abbrev pub Completed : BoltzSwap → Type 0
  Completed s = (old : BoltzSwap) × (row swap.id start ≡ some old) × Completes x swap old s

  Completed-not_settling : (s : BoltzSwap) → Completed s → is_settling s.status ≡ false
  unfolding is_settling
  Completed-not_settling s (old, p, c) = ap (λ (t : BoltzSwap). is_settling t.status) c.completes

  id-with_amount : (s : BoltzSwap) (amount : Option ℕ) → (with_amount s amount).id ≡ s.id
  unfolding with_amount
  id-with_amount s none = refl
  id-with_amount s (some amount) = refl

  completes_now :
      (fresh : BoltzSwap) (amount : Option ℕ) (now : ℕ)
      → Delivered x swap amount
      → is_settling fresh.status ≡ true
      → (row swap.id start ≡ some fresh) ⊎ Completed fresh
      → Completed (record (with_amount fresh amount) { status = completed; updated_at = now })
  completes_now fresh amount now d settled (inl p) = (
    fresh,
    p,
    record { was_settling = settled; amount = amount; delivered = d; now = now; completes = refl },
  )
  completes_now fresh amount now d settled (inr c) = absurd (cc (Completed-not_settling fresh c))

  Keeps-complete_found :
      (amount : Option ℕ) (found : Result (Option BoltzSwap))
      → Delivered x swap amount
      → Answers (writes Completed swap.id start) (get_swap x.outside swap.id) found
      → Keeps (writes Completed swap.id start) (complete_found x amount found)
  unfolding complete_found
  Keeps-complete_found amount (err e) d a = Keeps-pure (writes Completed swap.id start) tt
  Keeps-complete_found amount (ok none) d a = Keeps-pure (writes Completed swap.id start) tt
  Keeps-complete_found amount (ok (some fresh)) d a =
      let I = writes Completed swap.id start in
      let (fresh_id, either) = read_back_row Completed swap.id start x.outside a in
      Keeps-if I (is_settling fresh.status)
        (λ settled.
          Keeps-then I
            (Keeps-update_swap_status x Completed swap.id start (with_amount fresh amount) completed
              (id-with_amount fresh amount ∙ fresh_id)
              (λ now. completes_now fresh amount now d settled either))
            (Keeps-pure I tt))
        (λ _. Keeps-pure I tt)

  pub Keeps-finalize_completed :
      (amount : Option ℕ)
      → Delivered x swap amount
      → Keeps (writes Completed swap.id start) (finalize_completed x swap.id amount)
  unfolding finalize_completed
  Keeps-finalize_completed amount d =
      let I = writes Completed swap.id start in
      Keeps-bind I (Keeps-quiet I (search (quiet_rules)))
        (λ found a. Keeps-complete_found amount found d a)

  Keeps-on_probe :
      (guid : String) (status : CctpMessageStatus) (probed : Result (Option ℕ))
      → swap.bridge_kind ≡ BridgeKind.cctp
      → swap.bridge_ref ≡ some guid
      → Said (cctp_delivery_status x guid) (ok status)
      → forward_failed status ≡ true
      → Said (cctp_destination_delivered x swap status) probed
      → Keeps (writes Completed swap.id start) (on_probe x swap probed)
  unfolding on_probe
  Keeps-on_probe guid status (ok (some amount)) k e h f g =
      Keeps-finalize_completed (some amount) (landed guid status k e h f g refl)
  Keeps-on_probe guid status (ok none) k e h f g = Keeps-pure (writes Completed swap.id start) tt
  Keeps-on_probe guid status (err e') k e h f g = Keeps-pure (writes Completed swap.id start) tt

  Keeps-cctp_by_amount :
      (guid : String) (status : CctpMessageStatus) (amount : Option ℕ)
      → swap.bridge_kind ≡ BridgeKind.cctp
      → swap.bridge_ref ≡ some guid
      → Said (cctp_delivery_status x guid) (ok status)
      → cctp_completion_amount status ≡ amount
      → Keeps (writes Completed swap.id start) (cctp_by_amount x swap status amount)
  unfolding cctp_by_amount
  Keeps-cctp_by_amount guid status (some amount) k e h c =
      Keeps-finalize_completed (some amount) (forwarded guid status k e h c refl)
  Keeps-cctp_by_amount guid status none k e h c =
      let I = writes Completed swap.id start in
      Keeps-if I (forward_failed status)
        (λ f.
          Keeps-bind I (Keeps-quiet I (IsQuiet-cctp_destination_delivered x swap status))
            (λ probed a. Keeps-on_probe guid status probed k e h f (Said-of_Answers a)))
        (λ _. Keeps-pure I tt)

  Keeps-on_cctp_status :
      (guid : String) (status : Result CctpMessageStatus)
      → swap.bridge_kind ≡ BridgeKind.cctp
      → swap.bridge_ref ≡ some guid
      → Said (cctp_delivery_status x guid) status
      → Keeps (writes Completed swap.id start) (on_cctp_status x swap status)
  unfolding on_cctp_status
  Keeps-on_cctp_status guid (ok status) k e h = Keeps-cctp_by_amount guid status _ k e h refl
  Keeps-on_cctp_status guid (err e') k e h = Keeps-pure (writes Completed swap.id start) tt

  Keeps-on_oft_status :
      (guid : String) (status : Result LzMessageStatus)
      → swap.bridge_kind ≡ BridgeKind.oft
      → swap.bridge_ref ≡ some guid
      → Said (oft_delivery_status x guid) status
      → Keeps (writes Completed swap.id start) (on_oft_status x swap status)
  unfolding on_oft_status
  Keeps-on_oft_status guid (ok status) k e h =
      let I = writes Completed swap.id start in
      Keeps-if I (is_delivered status)
        (λ d. Keeps-finalize_completed none (scanned guid status k e h d refl))
        (λ _. Keeps-pure I tt)
  Keeps-on_oft_status guid (err e') k e h = Keeps-pure (writes Completed swap.id start) tt

  Keeps-confirm_by_bridge :
      (guid : String) (kind : BridgeKind)
      → swap.bridge_ref ≡ some guid
      → swap.bridge_kind ≡ kind
      → Keeps (writes Completed swap.id start) (confirm_by_bridge x swap guid kind)
  unfolding confirm_by_bridge
  Keeps-confirm_by_bridge guid BridgeKind.cctp e k =
      let I = writes Completed swap.id start in
      Keeps-bind I (Keeps-quiet I (IsQuiet-cctp_delivery_status x guid))
        (λ status a. Keeps-on_cctp_status guid status k e (Said-of_Answers a))
  Keeps-confirm_by_bridge guid BridgeKind.oft e k =
      let I = writes Completed swap.id start in
      Keeps-bind I (Keeps-quiet I (IsQuiet-oft_delivery_status x guid))
        (λ status a. Keeps-on_oft_status guid status k e (Said-of_Answers a))
  Keeps-confirm_by_bridge guid BridgeKind.direct e k =
      Keeps-finalize_completed none (on_arbitrum guid k e refl)

  Keeps-confirm_with :
      (bridge_ref : Option String)
      → swap.bridge_ref ≡ bridge_ref
      → Keeps (writes Completed swap.id start) (confirm_with x swap bridge_ref)
  unfolding confirm_with
  Keeps-confirm_with none e = Keeps-pure (writes Completed swap.id start) tt
  Keeps-confirm_with (some guid) e = Keeps-confirm_by_bridge guid swap.bridge_kind e refl

  pub Keeps-confirm_delivery : Keeps (writes Completed swap.id start) (confirm_delivery x swap)
  unfolding confirm_delivery
  Keeps-confirm_delivery = Keeps-confirm_with swap.bridge_ref refl
