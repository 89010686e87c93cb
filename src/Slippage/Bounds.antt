-- ===== src/Slippage/Bounds.antt =====
-- The claim floor and the drift check of crates/lib/src/swap/reverse.rs, against the slippage setting.
use boltz_client.Prelude.{
  ℕ, ◌+◌, ◌-◌, ◌*◌, ◌≤◌, ◌<◌, ◌^◌, ◌/◌, if◌then◌else◌, ◌≡◌, ◌↔◌, Option, some, Bool, true, false,
  arith,
}
use boltz_client.Errors.{ok}
use boltz_client.Slippage.{
  check_quote_drift, apply_slippage_down, compute_claim_floor, resolve_slippage_bps,
  slippage_mul_div, keep_factor, chosen_bps,
}

-- `floor` is `amount` less `bps`, rounded down to a whole unit.
pub record IsKept (amount bps floor : ℕ) : Type 0 where
  pub in_range : bps ≤ 10000
  pub least : floor * 10000 ≤ amount * (10000 - bps)
  pub most : amount * (10000 - bps) < (floor + 1) * 10000

pub apply_slippage_down-IsKept :
    (amount bps : ℕ) {floor : ℕ}
    → apply_slippage_down amount bps ≡ ok floor
    → IsKept amount bps floor
unfolding apply_slippage_down slippage_mul_div keep_factor
apply_slippage_down-IsKept amount bps {floor} h = record {
  in_range = ground arith;
  least = ground arith;
  most = ground arith;
}

-- A slippage setting that is accepted lies in the bounds of the source.
pub resolve_slippage_bps_bounds :
    (override_bps : Option ℕ) (config_default : ℕ) {bps : ℕ}
    → resolve_slippage_bps override_bps config_default ≡ ok bps
    → (10 ≤ bps) × (bps ≤ 500)
unfolding resolve_slippage_bps chosen_bps
resolve_slippage_bps_bounds override_bps config_default h = ground arith

pub resolve_slippage_bps-some :
    (bps config_default : ℕ) {chosen : ℕ}
    → resolve_slippage_bps (some bps) config_default ≡ ok chosen
    → (10 ≤ bps) × (bps ≤ 500)
unfolding resolve_slippage_bps chosen_bps
resolve_slippage_bps-some bps config_default h = ground arith

mul-fits : (amount factor : ℕ) → amount < 2 ^ 64 → factor ≤ 10000 → amount * factor < 2 ^ 128
mul-fits amount factor h k = grind arith

apply_slippage_down-small :
    (amount bps : ℕ)
    → amount < 2 ^ 64
    → bps ≤ 10000
    → apply_slippage_down amount bps ≡ ok (amount * (10000 - bps) / 10000)
unfolding apply_slippage_down slippage_mul_div keep_factor
apply_slippage_down-small amount bps h k =
    ground (arith, mul-fits amount (10000 - bps) h (omega arith))

IsKept-most :
    {amount bps floor : ℕ} → bps ≤ 500 → IsKept amount bps floor → 19 * amount < 20 * (floor + 1)
IsKept-most h k = grind (arith, k.most)

down-protects :
    {bps : ℕ} (amount : ℕ)
    → amount < 2 ^ 64
    → bps ≤ 500
    → (floor : ℕ) × (apply_slippage_down amount bps ≡ ok floor)
      × IsKept amount bps floor
      × (19 * amount < 20 * (floor + 1))
down-protects {bps} amount h k =
    let e = apply_slippage_down-small amount bps h (omega arith) in
    let kept = apply_slippage_down-IsKept amount bps e in
    (amount * (10000 - bps) / 10000, e, kept, IsKept-most k kept)

-- With an accepted slippage setting and an amount below 2^64, the claim floor exists, is the chosen
-- amount less the slippage rounded down, and gives up at most a twentieth and a unit of it. The
-- chosen amount is the quote when the drift check is skipped, and else the amount of the prepare step.
pub compute_claim_floor_protects :
    (override_bps : Option ℕ) (config_default : ℕ) {bps : ℕ} (raw_quote expected : ℕ) (skip : Bool)
    → resolve_slippage_bps override_bps config_default ≡ ok bps
    → raw_quote < 2 ^ 64
    → expected < 2 ^ 64
    → (floor : ℕ) × (compute_claim_floor raw_quote expected bps skip ≡ ok floor)
      × IsKept (if skip then raw_quote else expected) bps floor
      × (19 * (if skip then raw_quote else expected) < 20 * (floor + 1))
unfolding compute_claim_floor
compute_claim_floor_protects override_bps config_default raw_quote expected true h p q =
    down-protects raw_quote p (resolve_slippage_bps_bounds override_bps config_default h).1
compute_claim_floor_protects override_bps config_default raw_quote expected false h p q =
    down-protects expected q (resolve_slippage_bps_bounds override_bps config_default h).1

-- The drift check accepts a fresh quote exactly when the floor of the expected amount exists and the
-- quote reaches it.
pub check_quote_drift_iff :
    (expected fresh bps : ℕ)
    → (check_quote_drift expected fresh bps ≡ ok tt)
      ↔ ((floor : ℕ) × (compute_claim_floor fresh expected bps false ≡ ok floor) × (floor ≤ fresh))
unfolding check_quote_drift compute_claim_floor apply_slippage_down slippage_mul_div keep_factor
check_quote_drift_iff expected fresh bps = (
  λ h. (expected * (10000 - bps) / 10000, ground arith, ground arith),
  λ (floor, e, le). ground arith,
)
