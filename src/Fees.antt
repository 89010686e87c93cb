-- ===== src/Fees.antt =====
-- Boltz's fees in crates/lib/src/swap/reverse.rs, over `u128` with results in `u64`. The percentage
-- comes from a `f64`: `parse_percentage_to_bps` prints it and reads it back, and is a field here.
pub mod Exact
use boltz_client.Prelude.{ℕ, ◌+◌, ◌-◌, ◌*◌, ◌/◌, String, ltb, leb, ◌==◌, not, if◌then◌else◌}
use boltz_client.Config.{u64_limit, u128_limit}
use boltz_client.Errors.{Result, ok, err, generic, ensure, ◌>>=◌, ◌>>◌}

pub record PairFees : Type 0 where
  pub claim : ℕ  -- u64
  pub lockup : ℕ  -- u64
  pub percentage_bps : Result ℕ  -- u64

pub record FeeCalc : Type 0 where
  pub invoice_sats : ℕ
  pub boltz_fee_sats : ℕ
  pub onchain_sats : ℕ

-- `checked_add`, `checked_mul` and `checked_sub` of `u128`.
unfoldable pub checked : (value : ℕ) (message : String) → Result ℕ
checked value message = if ltb value u128_limit then ok value else err (generic message)

unfoldable pub checked_sub : (a b : ℕ) (message : String) → Result ℕ
checked_sub a b message = if leb b a then ok (a - b) else err (generic message)

unfoldable pub to_u64 : (value : ℕ) (message : String) → Result ℕ
to_u64 value message = if ltb value u64_limit then ok value else err (generic message)

-- `u128::div_ceil`.
unfoldable pub div_ceil : ℕ → ℕ → ℕ
div_ceil a b = (a + (b - 1)) / b

unfoldable pub fee_calc : (invoice boltz_fee onchain : ℕ) → Result FeeCalc
unfolding to_u64
fee_calc invoice boltz_fee onchain = do
  invoice_sats ← to_u64 invoice "Invoice amount overflow"
  boltz_fee_sats ← to_u64 boltz_fee "Boltz fee overflow"
  onchain_sats ← to_u64 onchain "Onchain amount overflow"
  ok (record {
    invoice_sats = invoice_sats;
    boltz_fee_sats = boltz_fee_sats;
    onchain_sats = onchain_sats;
  })

unfoldable pub compute_invoice_amount : PairFees → (tbtc_sats : ℕ) → Result FeeCalc
unfolding checked checked_sub div_ceil fee_calc
compute_invoice_amount fees tbtc_sats = do
  miner_fees ← checked (fees.claim + fees.lockup) "Miner fees overflow"
  pct_bps ← fees.percentage_bps
  base ← checked (tbtc_sats + miner_fees) "Fee base overflow"
  denominator ← checked_sub 10000 pct_bps "Invalid fee percentage (>= 100%)"
  ensure (not (denominator == 0)) (generic "Invalid fee percentage (100%)")
  numerator ← checked (base * 10000) "Invoice computation overflow"
  let invoice = div_ceil numerator denominator
  boltz_fee ← checked_sub invoice base "Fee computation underflow"
  less_fee ← checked_sub invoice boltz_fee "Onchain amount underflow"
  onchain ← checked_sub less_fee miner_fees "Onchain amount underflow"
  fee_calc invoice boltz_fee onchain

-- The invoice amount is a `u64`, and is handed on as it is.
unfoldable pub compute_onchain_amount : PairFees → (invoice_sats : ℕ) → Result FeeCalc
unfolding checked checked_sub div_ceil fee_calc
compute_onchain_amount fees invoice_sats = do
  pct_bps ← fees.percentage_bps
  miner_fees ← checked (fees.claim + fees.lockup) "Miner fees overflow"
  scaled ← checked (invoice_sats * pct_bps) "Fee computation overflow"
  let boltz_fee = div_ceil scaled 10000
  less_fee ← checked_sub invoice_sats boltz_fee "Invoice amount too small to cover fees"
  onchain ← checked_sub less_fee miner_fees "Invoice amount too small to cover fees"
  boltz_fee_sats ← to_u64 boltz_fee "Boltz fee overflow"
  onchain_sats ← to_u64 onchain "Onchain amount overflow"
  ok (record {
    invoice_sats = invoice_sats;
    boltz_fee_sats = boltz_fee_sats;
    onchain_sats = onchain_sats;
  })
