-- ===== src/OftSearch.antt =====
-- `estimate_oft_required_send_amount` of crates/lib/src/swap/reverse.rs: the amount to send through an OFT
-- so that a target arrives. The first loop doubles a bound, at most 33 quotes; the second halves the
-- range, by the accessibility of its size.
pub mod Least
pub mod Required
use mathlib.Core.Logic.{dite}
use mathlib.Core.WellFounded.{Acc}
use native.Mathlib.Decide.{dec_lt}
use boltz_client.Prelude.{
  ℕ, zero, suc, ◌+◌, ◌-◌, ◌*◌, ◌/◌, ◌<◌, Bool, true, false, ltb, leb, ◌==◌, if◌then◌else◌,
  replicate, arith,
}
use boltz_client.Config.{u128_limit}
use boltz_client.Crates.{Bytes}
use boltz_client.Errors.{Result, ok, err, generic, ◌>>=◌, ok_or}
use boltz_client.Models.Destinations.{Usdt0Kind, Destination}
use boltz_client.BridgeFees.{legacy_mesh_source_amount}
use boltz_client.Calls.{OftSendParam, build_oft_send_param}
use boltz_client.OftQuotes.{oft_route, source_oft, quote_oft, quote_send, u128_or}
use boltz_client.World.{Executor}
use boltz_client.World.Action.{M, pure, ◌>?>◌}

pub record Range : Type 0 where
  pub low : ℕ
  pub high : ℕ

-- The range is smaller.
infix 40 ◌⊏◌
abbrev pub ◌⊏◌ : Range → Range → Type 0
r ⊏ s = r.high - r.low < s.high - s.low

Acc_below : (bound : ℕ) (r : Range) → r.high - r.low < bound → Acc ◌⊏◌ r
Acc_below zero r h = absurd (omega (arith, h))
Acc_below (suc bound) r h = Acc.intro r (λ s less. Acc_below bound s (omega arith))

unfoldable pub accessible : (r : Range) → Acc ◌⊏◌ r
unfolding Acc_below
accessible r = Acc_below (suc (r.high - r.low)) r (omega arith)

abbrev pub middle : Range → ℕ
middle r = r.low + (r.high - r.low) / 2

abbrev pub lower_half : Range → Range
lower_half r = record { low = r.low; high = middle r }

abbrev pub upper_half : Range → Range
upper_half r = record { low = middle r + 1; high = r.high }

pub lower_half-⊏ : (r : Range) → r.low < r.high → lower_half r ⊏ r
lower_half-⊏ r h = omega arith

pub upper_half-⊏ : (r : Range) → r.low < r.high → upper_half r ⊏ r
upper_half-⊏ r h = omega arith

unfoldable pub checked_u128 : ℕ → Result ℕ
checked_u128 n = if ltb n u128_limit then ok n else err (generic "OFT amount search overflow")

-- The next bounds of the first loop.
unfoldable pub doubled : (high : ℕ) → Result Range
unfolding checked_u128
doubled high = do
  low ← checked_u128 (high + 1)
  twice ← checked_u128 (high * 2)
  ok (record { low = low; high = twice })

-- `probe a` is what arrives of `a`.
module _ (probe : ℕ → M (Result ℕ)) (target : ℕ) where
  -- By how many quotes are left.
  unfoldable pub find_bound : (left : ℕ) → Range → M (Result Range)
  find_bound zero r = pure (err (generic "Could not find OFT send amount for target"))
  find_bound (suc left) r = probe r.high >?> λ received. elim (leb target received) [
    | true ↦ pure (ok r)
    | false ↦ pure (doubled r.high) >?> find_bound left
  ]

  unfoldable pub bisect : (r : Range) → Acc ◌⊏◌ r → M (Result ℕ)
  bisect r (Acc.intro _ inner) =
      dite (dec_lt r.low r.high)
        (λ h. probe (middle r) >?> λ received. elim (leb target received) [
          | true ↦ bisect (lower_half r) (inner _ (lower_half-⊏ r h))
          | false ↦ bisect (upper_half r) (inner _ (upper_half-⊏ r h))
        ])
        (λ _. pure (ok r.low))

  unfoldable pub search_amount : M (Result ℕ)
  unfolding accessible
  search_amount =
      find_bound 33 (record { low = target; high = target }) >?> λ r. bisect r (accessible r)

-- The fee of the message and the amount that arrives; the recipient is a placeholder.
unfoldable pub quote_oft_messaging_fee :
    Executor → Destination → (usdt_amount : ℕ) → Bytes → M (Result (ℕ × ℕ))
quote_oft_messaging_fee x dest usdt_amount extra_options = pure (oft_route dest.bridge) >?> λ route.
    pure (source_oft x.registry route.0) >?> λ source.
    quote_oft x source (build_oft_send_param route.1 (replicate 32 0) usdt_amount 0 extra_options)
    >?> λ receipt.
        quote_send x source (
          build_oft_send_param route.1 (replicate 32 0) usdt_amount receipt.amount_received_ld
            extra_options)
        >?> λ fee. pure (u128_or "LZ fee too large" fee.native_fee) >?> λ native_fee.
            pure (u128_or "OFT amount too large" receipt.amount_received_ld) >?> λ received.
            pure (ok (native_fee, received))

unfoldable pub received_of : Executor → Destination → Bytes → (usdt_amount : ℕ) → M (Result ℕ)
received_of x dest extra_options usdt_amount =
    quote_oft_messaging_fee x dest usdt_amount extra_options >?> λ quote. pure (ok quote.1)

unfoldable pub send_amount_by_mesh :
    Executor → Destination → (target_amount : ℕ) → Bytes → Usdt0Kind → M (Result ℕ)
send_amount_by_mesh x dest target_amount extra_options Usdt0Kind.legacy =
    pure (
      ok_or (legacy_mesh_source_amount target_amount)
        (generic "Legacy mesh source amount overflow"))
send_amount_by_mesh x dest target_amount extra_options Usdt0Kind.native =
    search_amount (received_of x dest extra_options) target_amount

unfoldable pub estimate_oft_required_send_amount :
    Executor → Destination → (target_amount : ℕ) → Bytes → M (Result ℕ)
estimate_oft_required_send_amount x dest target_amount extra_options =
    if target_amount == 0
    then pure (ok 0)
    else pure (oft_route dest.bridge) >?> λ route.
        send_amount_by_mesh x dest target_amount extra_options route.0
