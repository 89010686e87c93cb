-- ===== src/Models/Lifecycle.antt =====
-- `BoltzSwapStatus` of crates/lib/src/models.rs. The order of the variants is used by the manager.
use boltz_client.Prelude.{ℕ, String, Bool, true, false, ltb}

pub data Status : Type 0 where
  created invoice_paid tbtc_locked claiming settling completed : Status
  failed : (reason : String) → Status
  expired : Status

unfoldable pub is_terminal : Status → Bool
is_terminal completed = true
is_terminal (failed reason) = true
is_terminal expired = true
is_terminal _ = false

-- The place of a variant in the declaration: the derived `Ord` compares it first. (Two `Failed`
-- compare by reason then, which no caller does.)
unfoldable pub rank : Status → ℕ
rank created = 0
rank invoice_paid = 1
rank tbtc_locked = 2
rank claiming = 3
rank settling = 4
rank completed = 5
rank (failed reason) = 6
rank expired = 7

-- `stage < status`.
abbrev pub lt_status : Status → Status → Bool
lt_status a b = ltb (rank a) (rank b)

-- `status == BoltzSwapStatus::Settling`, and so for `Claiming`.
unfoldable pub is_settling : Status → Bool
is_settling settling = true
is_settling _ = false

unfoldable pub is_claiming : Status → Bool
is_claiming claiming = true
is_claiming _ = false
