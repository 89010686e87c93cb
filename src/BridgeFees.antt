-- ===== src/BridgeFees.antt =====
-- What the bridges take: crates/lib/src/evm/cctp.rs, and the legacy mesh of crates/lib/src/evm/oft.rs.
pub mod Arrives
use boltz_client.Prelude.{ℕ, zero, ◌+◌, ◌-◌, ◌*◌, ◌/◌, Option, none, some, ltb, ◌==◌, if◌then◌else◌}
use boltz_client.Config.{u128_limit, cctp_max_fee_buffer_bps, cctp_fee_bps_denominator}

-- `saturating_add` and `saturating_mul` of `u128`.
unfoldable pub saturate : ℕ → ℕ
saturate n = if ltb n u128_limit then n else u128_limit - 1

pub record CctpFee : Type 0 where
  pub bps_units : ℕ  -- u128
  pub forward_fee : ℕ  -- u128

unfoldable pub compute_total_fee : (amount bps_units forward_fee : ℕ) → ℕ
unfolding saturate
compute_total_fee amount bps_units forward_fee =
    saturate (saturate (amount * bps_units) / cctp_fee_bps_denominator + forward_fee)

unfoldable pub cctp_required_burn : (target : ℕ) → CctpFee → ℕ
unfolding saturate
cctp_required_burn target fee =
    let net = cctp_fee_bps_denominator - fee.bps_units in
    let numerator = saturate (saturate (target + fee.forward_fee) * cctp_fee_bps_denominator) in
    if net == 0 then u128_limit - 1 else saturate (numerator + (net - 1)) / net

unfoldable pub add_fee_buffer : ℕ → ℕ
unfolding saturate
add_fee_buffer amount =
    saturate (saturate (amount * (10000 + cctp_max_fee_buffer_bps)) + 9999) / 10000

-- `evm::oft::ceil_div`, checked.
unfoldable pub ceil_div : (numerator denominator : ℕ) → Option ℕ
ceil_div numerator denominator =
    if denominator == 0
    then none
    else if ltb (numerator + (denominator - 1)) u128_limit
    then some ((numerator + (denominator - 1)) / denominator)
    else none

abbrev pub legacy_mesh_fee_bps : ℕ
legacy_mesh_fee_bps = 3

unfoldable pub legacy_mesh_source_amount : (destination_amount : ℕ) → Option ℕ
unfolding ceil_div
legacy_mesh_source_amount destination_amount =
    if ltb (destination_amount * 10000) u128_limit
    then ceil_div (destination_amount * 10000) (10000 - legacy_mesh_fee_bps)
    else none
