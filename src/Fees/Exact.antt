-- ===== src/Fees/Exact.antt =====
-- `compute_invoice_amount` against `compute_onchain_amount` of crates/lib/src/swap/reverse.rs.
use native.Mathlib.Nat.{div-mul-le_self, lt-div-mul-add, mul-add}
use boltz_client.Prelude.{ℕ, ◌+◌, ◌-◌, ◌*◌, ◌≤◌, ◌<◌, ◌^◌, ◌≡◌, sym, ap, ◌∙◌, arith}
use boltz_client.Errors.{ok, >>=-eq-ok}
use boltz_client.Fees.{
  PairFees, FeeCalc, checked, checked_sub, to_u64, div_ceil, fee_calc, compute_invoice_amount,
  compute_onchain_amount,
}

-- Rounding up is the least number that is enough.
pub div_ceil-enough : (a b : ℕ) → 0 < b → a ≤ div_ceil a b * b
unfolding div_ceil
div_ceil-enough a b h = omega (arith, lt-div-mul-add {a = a + (b - 1)} h)

pub div_ceil-least : (a b : ℕ) → 0 < b → div_ceil a b * b < a + b
unfolding div_ceil
div_ceil-least a b h = omega (arith, div-mul-le_self (a + (b - 1)) b)

-- What an invoice amount means for the parts.
record Invoice (fees : PairFees) (tbtc_sats bps : ℕ) (c : FeeCalc) : Type 0 where
  pub percentage : fees.percentage_bps ≡ ok bps
  pub below : bps < 10000
  pub enough : (tbtc_sats + (fees.claim + fees.lockup)) * 10000 ≤ c.invoice_sats * (10000 - bps)
  pub least :
      c.invoice_sats * (10000 - bps)
      < (tbtc_sats + (fees.claim + fees.lockup)) * 10000 + (10000 - bps)
  pub onchain : c.onchain_sats ≡ tbtc_sats
  pub fee : c.invoice_sats ≡ c.boltz_fee_sats + (tbtc_sats + (fees.claim + fees.lockup))
  pub in_range : c.invoice_sats < 2 ^ 64
  pub miner_range : fees.claim + fees.lockup < 2 ^ 128

Invoice-parts :
    (fees : PairFees) (tbtc_sats bps : ℕ) {c : FeeCalc}
    → fees.percentage_bps ≡ ok bps
    → compute_invoice_amount fees tbtc_sats ≡ ok c
    → Invoice fees tbtc_sats bps c
unfolding compute_invoice_amount checked checked_sub fee_calc to_u64
Invoice-parts fees tbtc_sats bps {c} e h = record {
  percentage = e;
  below = ground (arith, h, e);
  enough = ground (
    arith,
    h,
    e,
    div_ceil-enough ((tbtc_sats + (fees.claim + fees.lockup)) * 10000) (10000 - bps),
  );
  least = ground (
    arith,
    h,
    e,
    div_ceil-least ((tbtc_sats + (fees.claim + fees.lockup)) * 10000) (10000 - bps),
  );
  onchain = ground (arith, h, e);
  fee = ground (arith, h, e);
  in_range = ground (arith, h, e);
  miner_range = ground (arith, h, e);
}

kept_and_paid : (i bps : ℕ) → bps ≤ 10000 → i * (10000 - bps) + i * bps ≡ i * 10000
kept_and_paid i bps h = sym (mul-add i (10000 - bps) bps) ∙ ap (λ k. i * k) (omega arith)

mul-fits : (i bps : ℕ) → i < 2 ^ 64 → bps < 10000 → i * bps < 2 ^ 128
mul-fits i bps h k = grind arith

same_fee :
    (i bps base fee : ℕ)
    → bps < 10000
    → base * 10000 ≤ i * (10000 - bps)
    → i * (10000 - bps) < base * 10000 + (10000 - bps)
    → i ≡ fee + base
    → div_ceil (i * bps) 10000 ≡ fee
unfolding div_ceil
same_fee i bps base fee h enough least e = omega (arith, kept_and_paid i bps (omega arith))

onchain-Invoice :
    (fees : PairFees) (tbtc_sats bps : ℕ) {c : FeeCalc}
    → Invoice fees tbtc_sats bps c
    → compute_onchain_amount fees c.invoice_sats ≡ ok c
unfolding compute_onchain_amount checked checked_sub to_u64
onchain-Invoice fees tbtc_sats bps {c} p =
    let base = tbtc_sats + (fees.claim + fees.lockup) in
    let fee = same_fee c.invoice_sats bps base c.boltz_fee_sats p.below p.enough p.least p.fee in
    let fits = mul-fits c.invoice_sats bps p.in_range p.below in
    ground (arith, p.percentage, p.onchain, p.fee, p.in_range, p.miner_range, fee, fits)

percentage_of :
    (fees : PairFees) (tbtc_sats : ℕ) {c : FeeCalc}
    → compute_invoice_amount fees tbtc_sats ≡ ok c
    → (bps : ℕ) × (fees.percentage_bps ≡ ok bps)
unfolding compute_invoice_amount
percentage_of fees tbtc_sats h =
    let (_, _, rest) = >>=-eq-ok (checked (fees.claim + fees.lockup) "Miner fees overflow") _ h in
    let (bps, e, _) = >>=-eq-ok fees.percentage_bps _ rest in (bps, e)

-- An invoice that is sized for an on-chain amount gives back that amount, with the same fee: what
-- `compute_onchain_amount` computes from it is the whole of what `compute_invoice_amount` said.
pub compute_onchain_amount-compute_invoice_amount :
    (fees : PairFees) (tbtc_sats : ℕ) {c : FeeCalc}
    → compute_invoice_amount fees tbtc_sats ≡ ok c
    → (compute_onchain_amount fees c.invoice_sats ≡ ok c) × (c.onchain_sats ≡ tbtc_sats)
compute_onchain_amount-compute_invoice_amount fees tbtc_sats h =
    let (bps, e) = percentage_of fees tbtc_sats h in
    let p = Invoice-parts fees tbtc_sats bps e h in
    (onchain-Invoice fees tbtc_sats bps p, p.onchain)

less_onchain :
    (i invoice bps base fee : ℕ)
    → bps < 10000
    → invoice * (10000 - bps) < base * 10000 + (10000 - bps)
    → i < invoice
    → i * bps ≤ fee * 10000
    → fee ≤ i
    → i - fee < base
less_onchain i invoice bps base fee h least l enough k =
    let mono : (i + 1) * (10000 - bps) ≤ invoice * (10000 - bps) = grind arith in
    let split : (i + 1) * (10000 - bps) ≡ i * (10000 - bps) + (10000 - bps) = grind arith in
    omega (arith, kept_and_paid i bps (omega arith))

-- What an on-chain amount means for the parts.
record Onchain (fees : PairFees) (invoice_sats bps : ℕ) (r : FeeCalc) : Type 0 where
  pub enough : invoice_sats * bps ≤ r.boltz_fee_sats * 10000
  pub within : r.boltz_fee_sats ≤ invoice_sats
  pub covers : fees.claim + fees.lockup ≤ invoice_sats - r.boltz_fee_sats
  pub onchain : r.onchain_sats ≡ invoice_sats - r.boltz_fee_sats - (fees.claim + fees.lockup)

Onchain-parts :
    (fees : PairFees) (invoice_sats bps : ℕ) {r : FeeCalc}
    → fees.percentage_bps ≡ ok bps
    → compute_onchain_amount fees invoice_sats ≡ ok r
    → Onchain fees invoice_sats bps r
unfolding compute_onchain_amount checked checked_sub to_u64
Onchain-parts fees invoice_sats bps {r} e h = record {
  enough = ground (arith, h, e, div_ceil-enough (invoice_sats * bps) 10000 (omega arith));
  within = ground (arith, h, e);
  covers = ground (arith, h, e);
  onchain = ground (arith, h, e);
}

-- The invoice is the least: any smaller one leaves less than the on-chain amount that was asked for.
pub compute_invoice_amount-least :
    (fees : PairFees) (tbtc_sats smaller : ℕ) {c r : FeeCalc}
    → compute_invoice_amount fees tbtc_sats ≡ ok c
    → smaller < c.invoice_sats
    → compute_onchain_amount fees smaller ≡ ok r
    → r.onchain_sats < tbtc_sats
compute_invoice_amount-least fees tbtc_sats smaller {c} {r} h l k =
    let (bps, e) = percentage_of fees tbtc_sats h in
    let p = Invoice-parts fees tbtc_sats bps e h in
    let q = Onchain-parts fees smaller bps e k in
    let less =
      less_onchain smaller c.invoice_sats bps (tbtc_sats + (fees.claim + fees.lockup))
        r.boltz_fee_sats p.below p.least l q.enough q.within in
    omega (arith, q.onchain, less, q.covers)
