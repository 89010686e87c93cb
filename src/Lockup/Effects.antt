-- ===== src/Lockup/Effects.antt =====
-- The questions of crates/lib/src/evm/lockup.rs as actions that only ask.
use boltz_client.Prelude.{ℕ, String, Option, none, some, List, [], ◌∷◌}
use boltz_client.Models.{BoltzSwap}
use boltz_client.Lockup.{
  is_swap_still_locked, is_swap_still_locked_by_swap, range_to, range_of_receipt, range_from,
  resolve_lockup_block_range, by_claim_logs, classify_in, classify_spent_lockup,
}
use boltz_client.Outside.{TxReceipt, LogEntry}
use boltz_client.World.{Executor}
use boltz_client.World.Effects.{IsQuiet, IsQuiet-pure, IsQuiet-try, IsQuiet-ask, quiet_rules}

module _ (x : Executor) (swap : BoltzSwap) where
  pub IsQuiet-is_swap_still_locked_by_swap : IsQuiet (is_swap_still_locked_by_swap x swap)
  unfolding is_swap_still_locked_by_swap is_swap_still_locked
  IsQuiet-is_swap_still_locked_by_swap = search (quiet_rules) depth 16

module _ (x : Executor) where
  IsQuiet-range_to : (from : Option ℕ) → IsQuiet (range_to x from)
  unfolding range_to
  IsQuiet-range_to none = IsQuiet-pure _
  IsQuiet-range_to (some from_block) = search (quiet_rules)

  IsQuiet-range_of_receipt : (r : Option TxReceipt) → IsQuiet (range_of_receipt x r)
  unfolding range_of_receipt
  IsQuiet-range_of_receipt none = IsQuiet-pure _
  IsQuiet-range_of_receipt (some r) = IsQuiet-range_to _

  IsQuiet-range_from : (tx : Option String) → IsQuiet (range_from x tx)
  unfolding range_from
  IsQuiet-range_from none = IsQuiet-pure _
  IsQuiet-range_from (some tx) = IsQuiet-try (IsQuiet-ask _) IsQuiet-range_of_receipt

module _ (x : Executor) (swap : BoltzSwap) (topic : String) where
  IsQuiet-by_claim_logs :
      (lo hi : ℕ) (logs : List LogEntry) → IsQuiet (by_claim_logs x swap topic lo hi logs)
  unfolding by_claim_logs
  IsQuiet-by_claim_logs lo hi [] = IsQuiet-try (IsQuiet-ask _) (λ logs. IsQuiet-pure _)
  IsQuiet-by_claim_logs lo hi (log ∷ logs) = IsQuiet-pure _

  IsQuiet-classify_in : (range : Option (ℕ × ℕ)) → IsQuiet (classify_in x swap topic range)
  unfolding classify_in
  IsQuiet-classify_in none = IsQuiet-pure _
  IsQuiet-classify_in (some (lo, hi)) = IsQuiet-try (IsQuiet-ask _) (IsQuiet-by_claim_logs lo hi)

pub IsQuiet-classify_spent_lockup :
    (x : Executor) (swap : BoltzSwap) → IsQuiet (classify_spent_lockup x swap)
unfolding classify_spent_lockup resolve_lockup_block_range
IsQuiet-classify_spent_lockup x swap =
    IsQuiet-try (IsQuiet-pure _)
      λ hash. IsQuiet-try (IsQuiet-range_from x swap.lockup_tx_id) (IsQuiet-classify_in x swap _)
