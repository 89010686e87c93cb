-- ===== src/Slippage.antt =====
-- The slippage arithmetic of crates/lib/src/swap/reverse.rs, over `u128` and in basis points.
pub mod Bounds
use boltz_client.Prelude.{
  ℕ, ◌+◌, ◌-◌, ◌*◌, ◌/◌, Bool, ◌&&◌, Option, none, some, ltb, leb, if◌then◌else◌,
}
use boltz_client.Config.{max_slippage_bps, u64_limit, u128_limit}
use boltz_client.Errors.{Result, ok, err, generic, quote_degraded_beyond_slippage, ensure, ◌>>=◌}

unfoldable pub slippage_mul_div : (amount numerator : ℕ) → Result ℕ
slippage_mul_div amount numerator =
    if ltb (amount * numerator) u128_limit
    then ok (amount * numerator / 10000)
    else err (generic "slippage arithmetic overflow")

-- `10000 - slippage_bps`, checked.
unfoldable pub keep_factor : ℕ → Result ℕ
keep_factor slippage_bps =
    if leb slippage_bps 10000
    then ok (10000 - slippage_bps)
    else err (generic "slippage_bps exceeds 10000")

-- `fresh_quote_usd.try_into().unwrap_or(u64::MAX)`.
unfoldable pub capped_u64 : ℕ → ℕ
capped_u64 n = if ltb n u64_limit then n else u64_limit - 1

unfoldable pub check_quote_drift :
    (expected_usd fresh_quote_usd slippage_bps : ℕ) → Result (Unit {0})
unfolding keep_factor slippage_mul_div capped_u64
check_quote_drift expected_usd fresh_quote_usd slippage_bps = do
  factor ← keep_factor slippage_bps
  threshold ← slippage_mul_div expected_usd factor
  ensure (leb threshold fresh_quote_usd)
      (quote_degraded_beyond_slippage expected_usd (capped_u64 fresh_quote_usd))

-- `10000u128.saturating_add(slippage_bps)`.
unfoldable pub apply_slippage_up : (amount slippage_bps : ℕ) → Result ℕ
unfolding slippage_mul_div
apply_slippage_up amount slippage_bps =
    slippage_mul_div amount
      (if ltb (10000 + slippage_bps) u128_limit then 10000 + slippage_bps else u128_limit - 1)

unfoldable pub apply_slippage_down : (amount slippage_bps : ℕ) → Result ℕ
unfolding keep_factor slippage_mul_div
apply_slippage_down amount slippage_bps = do
  factor ← keep_factor slippage_bps
  slippage_mul_div amount factor

unfoldable pub compute_claim_floor :
    (raw_quote expected_amount slippage_bps : ℕ) (skip_drift_check : Bool) → Result ℕ
unfolding apply_slippage_down
compute_claim_floor raw_quote expected_amount slippage_bps skip_drift_check =
    if skip_drift_check
    then apply_slippage_down raw_quote slippage_bps
    else apply_slippage_down expected_amount slippage_bps

chosen_bps : Option ℕ → ℕ → ℕ
chosen_bps none config_default = config_default
chosen_bps (some bps) config_default = bps

unfoldable pub resolve_slippage_bps : (override_bps : Option ℕ) (config_default : ℕ) → Result ℕ
unfolding chosen_bps
resolve_slippage_bps override_bps config_default =
    let bps = chosen_bps override_bps config_default in
    if leb 10 bps && leb bps max_slippage_bps
    then ok bps
    else err (generic "slippage_bps must be >= 10 and <= 500")
