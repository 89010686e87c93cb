-- ===== src/Manager/Polled.antt =====
-- One listed swap's turn in `poll_pending_swaps` of crates/lib/src/swap/manager.rs.
use boltz_client.Prelude.{
  ℕ, String, ◌≡◌, refl, ap, ◌∙◌, Bool, true, false, Option, none, some, ◌⊎◌, inl, inr, is_some,
  if◌then◌else◌,
}
use boltz_client.Errors.{Result, ok, err}
use boltz_client.Models.{BoltzSwap}
use boltz_client.Models.Lifecycle.{
  Status, created, invoice_paid, tbtc_locked, claiming, settling, completed, expired, failed,
  is_terminal, is_settling, is_claiming,
}
use boltz_client.Lockup.Effects.{IsQuiet-is_swap_still_locked_by_swap}
use boltz_client.World.{World, Executor}
use boltz_client.World.Action.{M, pure, ◌>>=◌}
use boltz_client.World.Store.{row, find_row, get_swap, id-find_row}
use boltz_client.World.Effects.{
  Keeps, Keeps-quiet, Keeps-pure, Keeps-if, Keeps-bind, Keeps-then, IsQuiet-get_swap,
}
use boltz_client.World.Writes.{RowWrite, writes, row-get_swap}
use boltz_client.Manager.Receipt.{ReceiptOutcome, advanced, reverted, not_mined}
use boltz_client.Manager.Events.{other}
use boltz_client.Manager.Rules.{Follows-old, is_open, recorded, Keeps-check_receipt_once}
use boltz_client.Manager.Recovery.{Keeps-classify_and_settle}
use boltz_client.Manager.Moves.{Moved, Moved-Rules}
use boltz_client.Manager.Delivery.{Completes, Completed, Keeps-confirm_delivery}
use boltz_client.Manager.Poll.{
  on_lock_probe, check_refund, unless_advanced, recover_claiming_swap, recover_hashed,
  recover_fresh, recover_snapshot, poll_swap, confirm_delivery,
}
use boltz_client.Manager.Status.{claiming_eligible_for_refund_check}

module _ (x : Executor) (old : BoltzSwap) (id : String) (start : World)
    (at_start : row id start ≡ some old) (was_open : is_open old.status ≡ true) where
  Keeps-on_lock_probe :
      (locked : Result Bool)
      → Keeps (writes (Moved x other old) id start) (on_lock_probe x old locked)
  unfolding on_lock_probe
  Keeps-on_lock_probe (ok false) =
      let I = writes (Moved x other old) id start in
      Keeps-then I
        (Keeps-classify_and_settle x old (Moved x other old) (Moved-Rules x other old was_open) id
          start at_start old "Claim transaction never mined; lockup refunded" (Follows-old x old))
        (Keeps-pure I tt)
  Keeps-on_lock_probe (ok true) = Keeps-pure (writes (Moved x other old) id start) tt
  Keeps-on_lock_probe (err e) = Keeps-pure (writes (Moved x other old) id start) tt

  Keeps-check_refund :
      (current_l1 : Option ℕ)
      → Keeps (writes (Moved x other old) id start) (check_refund x old current_l1)
  unfolding check_refund
  Keeps-check_refund none = Keeps-pure (writes (Moved x other old) id start) tt
  Keeps-check_refund (some height) =
      let I = writes (Moved x other old) id start in
      Keeps-if I (claiming_eligible_for_refund_check height old.timeout_block_height)
        (λ _.
          Keeps-bind I (Keeps-quiet I (IsQuiet-is_swap_still_locked_by_swap x old))
            (λ locked _. Keeps-on_lock_probe locked))
        (λ _. Keeps-pure I tt)

  Keeps-unless_advanced :
      (current_l1 : Option ℕ) (outcome : ReceiptOutcome)
      → Keeps (writes (Moved x other old) id start) (unless_advanced x old current_l1 outcome)
  unfolding unless_advanced
  Keeps-unless_advanced current_l1 (advanced b) =
      Keeps-pure (writes (Moved x other old) id start) tt
  Keeps-unless_advanced current_l1 reverted = Keeps-check_refund current_l1
  Keeps-unless_advanced current_l1 not_mined = Keeps-check_refund current_l1

  Keeps-recover_hashed :
      (current_l1 : Option ℕ) (hash : Option String)
      → old.claim_tx_hash ≡ hash
      → Keeps (writes (Moved x other old) id start) (recover_hashed x old current_l1 hash)
  unfolding recover_hashed recover_claiming_swap
  Keeps-recover_hashed current_l1 none p = Keeps-pure (writes (Moved x other old) id start) tt
  Keeps-recover_hashed current_l1 (some tx_hash) p =
      let I = writes (Moved x other old) id start in
      Keeps-bind I
        (Keeps-check_receipt_once x old (Moved x other old) (Moved-Rules x other old was_open) id
          start at_start old.id tx_hash (id-find_row id start.rows at_start) (recorded p))
        (λ outcome _. Keeps-unless_advanced current_l1 outcome)

claiming_is_open : (status : Status) → is_claiming status ≡ true → is_open status ≡ true
unfolding is_claiming is_terminal is_settling
claiming_is_open claiming h = refl
claiming_is_open created h = cc
claiming_is_open invoice_paid h = cc
claiming_is_open tbtc_locked h = cc
claiming_is_open settling h = cc
claiming_is_open completed h = cc
claiming_is_open (failed reason) h = cc
claiming_is_open expired h = cc

-- The row of `j` is as it was; or `j` is the listed swap, and its row is completed or `Moved`.
abbrev pub Polled : Executor → BoltzSwap → World → World → String → Type 0
Polled x swap w w' j =
    (row j w' ≡ row j w)
    ⊎ ((old s : BoltzSwap) × (j ≡ swap.id)
        × (row j w ≡ some old)
        × (row j w' ≡ some s)
        × (Completes x swap old s ⊎ Moved x other old s))

module _ (x : Executor) (swap : BoltzSwap) (w : World) where
  of_Completed :
      (w' : World) (j : String)
      → RowWrite (Completed x swap w) swap.id w j w'
      → Polled x swap w w' j
  of_Completed w' j (inl p) = inl p
  of_Completed w' j (inr (s, i, p, (old, q, c))) =
      inr (old, s, i, ap (λ k. row k w) i ∙ q, p, inl c)

  of_Moved :
      (old : BoltzSwap) (w' : World) (j : String)
      → row swap.id w ≡ some old
      → RowWrite (Moved x other old) swap.id w j w'
      → Polled x swap w w' j
  of_Moved old w' j q (inl p) = inl p
  of_Moved old w' j q (inr (s, i, p, m)) = inr (old, s, i, ap (λ k. row k w) i ∙ q, p, inr m)

  Keeps-recover_claiming :
      (current_l1 : Option ℕ) (old : BoltzSwap)
      → row swap.id w ≡ some old
      → Keeps (writes (Moved x other old) swap.id w) (recover_fresh x current_l1 (ok (some old)))
  unfolding recover_fresh
  Keeps-recover_claiming current_l1 old q =
      let I = writes (Moved x other old) swap.id w in
      Keeps-if I (is_claiming old.status)
        (λ c.
          Keeps-recover_hashed x old swap.id w q (claiming_is_open old.status c) current_l1
            old.claim_tx_hash refl)
        (λ _. Keeps-pure I tt)

  Polled-recover_fresh :
      (current_l1 : Option ℕ) (found : Result (Option BoltzSwap)) (v : World) (j : String)
      → (get_swap x.outside swap.id w).0 ≡ found
      → v.rows ≡ w.rows
      → Polled x swap w (recover_fresh x current_l1 found v).1 j
  unfolding recover_fresh pure
  Polled-recover_fresh current_l1 (err e) v j g same = inl (ap (find_row j) same)
  Polled-recover_fresh current_l1 (ok none) v j g same = inl (ap (find_row j) same)
  Polled-recover_fresh current_l1 (ok (some old)) v j g same =
      let q = row-get_swap x.outside swap.id w g in
      of_Moved old (recover_fresh x current_l1 (ok (some old)) v).1 j q
        ((Keeps-recover_claiming current_l1 old q).at v (λ k. inl (ap (find_row k) same)) j)

  Polled-if :
      (b : Bool) (j : String) (m : M (Unit {0}))
      → Polled x swap w (m w).1 j
      → Polled x swap w ((if b then m else pure tt) w).1 j
  unfolding pure
  Polled-if true j m h = h
  Polled-if false j m h = inl refl

  Polled-recover_snapshot :
      (current_l1 : Option ℕ) (j : String)
      → Polled x swap w (recover_snapshot x current_l1 swap w).1 j
  unfolding recover_snapshot ◌>>=◌ pure
  Polled-recover_snapshot current_l1 j = Polled-if (is_some swap.claim_tx_hash) j _ (
      Polled-recover_fresh current_l1 (get_swap x.outside swap.id w).0
        (get_swap x.outside swap.id w).1 j refl ((IsQuiet-get_swap x.outside swap.id).rows w))

  pub poll_swap-Polled :
      (current_l1 : Option ℕ) (listed : Status) (j : String)
      → Polled x swap w (poll_swap x current_l1 swap listed w).1 j
  unfolding poll_swap pure
  poll_swap-Polled current_l1 settling j =
      of_Completed (confirm_delivery x swap w).1 j
        ((Keeps-confirm_delivery x swap w).at w (λ k. inl refl) j)
  poll_swap-Polled current_l1 claiming j = Polled-recover_snapshot current_l1 j
  poll_swap-Polled current_l1 created j = inl refl
  poll_swap-Polled current_l1 invoice_paid j = inl refl
  poll_swap-Polled current_l1 tbtc_locked j = inl refl
  poll_swap-Polled current_l1 completed j = inl refl
  poll_swap-Polled current_l1 (failed reason) j = inl refl
  poll_swap-Polled current_l1 expired j = inl refl
