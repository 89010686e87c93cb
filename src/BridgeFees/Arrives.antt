-- ===== src/BridgeFees/Arrives.antt =====
-- What the bridges of crates/lib/src/evm/cctp.rs and crates/lib/src/evm/oft.rs leave of an amount.
use native.Mathlib.Nat.{lt-div-mul-add, mul-add}
use boltz_client.Prelude.{ℕ, ◌+◌, ◌-◌, ◌*◌, ◌≤◌, ◌<◌, ◌^◌, ◌≡◌, sym, ap, ◌∙◌, arith, some}
use boltz_client.Config.{cctp_fee_bps_denominator}
use boltz_client.BridgeFees.{
  saturate, CctpFee, compute_total_fee, cctp_required_burn, add_fee_buffer, ceil_div,
  legacy_mesh_source_amount,
}

-- Nothing saturates.
pub record InRange (target : ℕ) (fee : CctpFee) : Type 0 where
  pub rate : fee.bps_units < cctp_fee_bps_denominator
  pub target_fits : target < 2 ^ 64
  pub forward_fits : fee.forward_fee < 2 ^ 64

-- The share of a burn that is kept and the share that the protocol takes.
shares :
    (burn bps_units : ℕ)
    → bps_units ≤ cctp_fee_bps_denominator
    → burn * (cctp_fee_bps_denominator - bps_units) + burn * bps_units
      ≡ burn * cctp_fee_bps_denominator
shares burn bps_units h =
    sym (mul-add burn (cctp_fee_bps_denominator - bps_units) bps_units)
    ∙ ap (λ k. burn * k) (omega arith)

burn_enough :
    (target : ℕ) (fee : CctpFee)
    → InRange target fee
    → (target + fee.forward_fee) * cctp_fee_bps_denominator
      ≤ cctp_required_burn target fee * (cctp_fee_bps_denominator - fee.bps_units)
unfolding cctp_required_burn saturate
burn_enough target fee r = ground (
  arith,
  r.rate,
  r.target_fits,
  r.forward_fits,
  lt-div-mul-add
      {a = (target + fee.forward_fee) * cctp_fee_bps_denominator
        + (cctp_fee_bps_denominator - fee.bps_units - 1)}
      {b = cctp_fee_bps_denominator - fee.bps_units} (omega (arith, r.rate)),
)

fee_small :
    (burn bps_units forward_fee need : ℕ)
    → bps_units < cctp_fee_bps_denominator
    → (need + forward_fee) * cctp_fee_bps_denominator
      ≤ burn * (cctp_fee_bps_denominator - bps_units)
    → compute_total_fee burn bps_units forward_fee + need ≤ burn
unfolding compute_total_fee saturate
fee_small burn bps_units forward_fee need h k = ground (arith, shares burn bps_units (omega arith))

-- A burn sized for a target covers it: what the burn leaves after the protocol fee and the forwarding
-- fee is the target at least, when the rate is below one and the amounts fit in 64 bits.
pub cctp_required_burn-covers :
    (target : ℕ) (fee : CctpFee)
    → InRange target fee
    → compute_total_fee (cctp_required_burn target fee) fee.bps_units fee.forward_fee + target
      ≤ cctp_required_burn target fee
cctp_required_burn-covers target fee r =
    fee_small (cctp_required_burn target fee) fee.bps_units fee.forward_fee target r.rate
      (burn_enough target fee r)

-- The legacy mesh: the source amount is the least of which, less the fee of 3 in 10000, the
-- destination amount is left.
pub legacy_mesh_source_amount-least :
    (destination_amount : ℕ) {source : ℕ}
    → legacy_mesh_source_amount destination_amount ≡ some source
    → (destination_amount * 10000 ≤ source * 9997)
      × ((less : ℕ) → less < source → less * 9997 < destination_amount * 10000)
unfolding legacy_mesh_source_amount ceil_div
legacy_mesh_source_amount-least destination_amount h =
    (ground (arith, h), λ less l. ground (arith, h))

-- For a fee of 64 bits, the cap is the fee and two hundredths of a percent of it, rounded up to the
-- next unit.
pub add_fee_buffer-le :
    (amount : ℕ)
    → amount < 2 ^ 64
    → (amount * 10002 ≤ add_fee_buffer amount * 10000)
      × (add_fee_buffer amount * 10000 < amount * 10002 + 10000)
unfolding add_fee_buffer saturate
add_fee_buffer-le amount h = (ground arith, ground arith)
