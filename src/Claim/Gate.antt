-- ===== src/Claim/Gate.antt =====
-- What is checked before `claim_and_swap` of crates/lib/src/swap/reverse.rs hands the gas sponsor a call.
use boltz_client.Prelude.{
  ℕ, zero, suc, ◌+◌, ◌≤◌, ◌≡◌, refl, ◌∙◌, Bool, true, false, ◌⊎◌, inl, inr, arith,
}
use boltz_client.Errors.{Result, ok, err}
use boltz_client.Models.{BoltzSwap}
use boltz_client.Lockup.{is_swap_still_locked_by_swap}
use boltz_client.World.{World, Executor, Sent}
use boltz_client.World.Action.{M, pure, ◌>>=◌, ask, note_sent, on_ok}
use boltz_client.World.Effects.{
  Said, Said-of_Answers, Invariant, Keeps, Keeps-quiet, Keeps-pure, Keeps-bind, Keeps-try,
}
use boltz_client.Claim.{
  check_timeout_margin, ensure_timeout_margin, wait_for_lock, seen_locked, claim_locked, claim_if,
  claim_and_swap, lockup_check_max_attempts,
}
use boltz_client.Claim.Effects.{IsQuiet-wait_for_lock, IsQuiet-ensure_timeout_margin}

module _ (x : Executor) (swap : BoltzSwap) where
  -- The contract said that the funds are locked, and the L1 chain that the timeout is 60 blocks off.
  pub record Cleared : Type 0 where
    pub locked : Said (is_swap_still_locked_by_swap x swap) (ok true)
    pub call : ℕ
    pub height : ℕ
    pub l1_height : x.outside.eth_l1_block_number call ≡ ok height
    pub margin : height + 60 ≤ swap.timeout_block_height

  seen_locked-Said :
      (check : Result Bool) (rest : M Bool) (w w' : World)
      → (is_swap_still_locked_by_swap x swap w).0 ≡ check
      → (seen_locked check rest w').0 ≡ true
      → ((rest w').0 ≡ true → Said (is_swap_still_locked_by_swap x swap) (ok true))
      → Said (is_swap_still_locked_by_swap x swap) (ok true)
  unfolding seen_locked
  seen_locked-Said (ok true) rest w w' g h k = record { from = w; gives = g }
  seen_locked-Said (ok false) rest w w' g h k = k h
  seen_locked-Said (err e) rest w w' g h k = k h

  wait_for_lock-Said :
      (left : ℕ) (w : World)
      → (wait_for_lock x swap left w).0 ≡ true
      → Said (is_swap_still_locked_by_swap x swap) (ok true)
  unfolding wait_for_lock ◌>>=◌ pure
  wait_for_lock-Said zero w h = cc
  wait_for_lock-Said (suc left) w h =
      seen_locked-Said (is_swap_still_locked_by_swap x swap w).0 (wait_for_lock x swap left) w
        (is_swap_still_locked_by_swap x swap w).1 refl h
        (wait_for_lock-Said left (is_swap_still_locked_by_swap x swap w).1)

  cleared_by :
      (answer : Result ℕ) (n : ℕ) (w : World)
      → Said (is_swap_still_locked_by_swap x swap) (ok true)
      → x.outside.eth_l1_block_number n ≡ answer
      → (on_ok (λ h. pure (check_timeout_margin swap.timeout_block_height h)) answer w).0 ≡ ok tt
      → Cleared
  unfolding pure check_timeout_margin
  cleared_by (err e) n w locked g h = cc
  cleared_by (ok height) n w locked g h = record {
    locked = locked;
    call = n;
    height = height;
    l1_height = g;
    margin = ground arith;
  }

  ensure_timeout_margin-Cleared :
      Said (is_swap_still_locked_by_swap x swap) (ok true)
      → Said (ensure_timeout_margin x swap.timeout_block_height) (ok tt)
      → Cleared
  unfolding ensure_timeout_margin ask ◌>>=◌
  ensure_timeout_margin-Cleared locked a =
      cleared_by (x.outside.eth_l1_block_number a.from.calls) a.from.calls _ locked refl a.gives

abbrev SentIf : (A : Type 0) → World → World → Type 0
SentIf A start w = (w.sent ≡ start.sent) ⊎ A

module _ (A : Type 0) (start : World) where
  quiet_sent : (w w' : World) → w'.sent ≡ w.sent → SentIf A start w → SentIf A start w'
  quiet_sent w w' e (inl p) = inl (e ∙ p)
  quiet_sent w w' e (inr a) = inr a

  abbrev sends_if : Invariant
  sends_if = record { Holds = SentIf A start; quiet = λ w w' rows sent. quiet_sent w w' sent }

  Keeps-note_sent : A → (s : Sent) → Keeps sends_if (note_sent s)
  Keeps-note_sent a s = record { at = λ w h. inr a }

  Keeps-any : {B : Type 0} (m : M B) → A → Keeps sends_if m
  Keeps-any m a = record { at = λ w h. inr a }

module _ (x : Executor) (swap : BoltzSwap) (skip_drift_check : Bool) (start : World) where
  Keeps-claim_locked :
      Said (is_swap_still_locked_by_swap x swap) (ok true)
      → Keeps (sends_if (Cleared x swap) start) (claim_locked x swap skip_drift_check)
  unfolding claim_locked
  Keeps-claim_locked locked =
      let I = sends_if (Cleared x swap) start in
      Keeps-try I (Keeps-quiet I (IsQuiet-ensure_timeout_margin x swap swap.timeout_block_height))
        (λ _ a.
          Keeps-any (Cleared x swap) start _
            (ensure_timeout_margin-Cleared x swap locked (Said-of_Answers a)))

  Keeps-claim_if :
      (locked : Bool)
      → (locked ≡ true → Said (is_swap_still_locked_by_swap x swap) (ok true))
      → Keeps (sends_if (Cleared x swap) start) (claim_if x swap skip_drift_check locked)
  unfolding claim_if
  Keeps-claim_if true h = Keeps-claim_locked (h refl)
  Keeps-claim_if false h = Keeps-pure (sends_if (Cleared x swap) start) _

  -- A claim hands the gas sponsor nothing, and so reveals no preimage, unless a lock check of this
  -- swap said that its funds are locked and the L1 height was at least 60 blocks below its timeout.
  pub claim_and_swap-Cleared :
      ((claim_and_swap x swap skip_drift_check start).1.sent ≡ start.sent) ⊎ Cleared x swap
  unfolding claim_and_swap
  claim_and_swap-Cleared =
      let I = sends_if (Cleared x swap) start in
      (Keeps-bind I (Keeps-quiet I (IsQuiet-wait_for_lock x swap lockup_check_max_attempts))
          (λ locked a.
            Keeps-claim_if locked
              (λ e. wait_for_lock-Said x swap lockup_check_max_attempts a.from (a.gives ∙ e)))).at
        start (inl refl)
