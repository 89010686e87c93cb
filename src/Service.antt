-- ===== src/Service.antt =====
-- `BoltzService` of crates/lib/src/lib.rs: what the application asks for a swap that exists. Both take
-- the swap's lock, so each is one action.
pub mod Frozen
pub mod Commands
pub mod Destinations
use boltz_client.Prelude.{ℕ, String, Bool, true, false, Option, some, if◌then◌else◌}
use boltz_client.Errors.{Result, ok, err, store, generic, ok_or}
use boltz_client.Models.{BoltzSwap}
use boltz_client.Models.Lifecycle.{Status, tbtc_locked, claiming, is_terminal}
use boltz_client.Slippage.{resolve_slippage_bps}
use boltz_client.Claim.{claim_and_swap}
use boltz_client.Manager.Status.{update_swap_status}
use boltz_client.World.{Executor}
use boltz_client.World.Action.{M, pure, ◌>>=◌, ◌>?>◌, ask}
use boltz_client.World.Store.{get_swap, upsert_swap}

unfoldable pub may_accept : Status → Bool
may_accept tbtc_locked = true
may_accept claiming = true
may_accept _ = false

unfoldable pub forced_claim : Executor → BoltzSwap → M (Result BoltzSwap)
forced_claim x swap = do
  s ← update_swap_status x swap claiming
  claim_and_swap x s true >?> λ tx_hash. ask x.outside.unix_time >>= λ now.
      upsert_swap x.outside (record s { claim_tx_hash = some tx_hash; updated_at = now }) >?> λ _.
      pure (ok (record s { claim_tx_hash = some tx_hash; updated_at = now }))

unfoldable pub accept_loaded : Executor → BoltzSwap → M (Result BoltzSwap)
unfolding may_accept forced_claim
accept_loaded x swap =
    if may_accept swap.status
    then forced_claim x swap
    else pure (err (generic "Cannot accept degraded quote"))

unfoldable pub accept_degraded_quote : Executor → (swap_id : String) → M (Result BoltzSwap)
unfolding accept_loaded
accept_degraded_quote x swap_id = get_swap x.outside swap_id >?> λ found.
    pure (ok_or found (store "Swap not found")) >?> accept_loaded x

unfoldable pub set_slippage : Executor → (bps : ℕ) → BoltzSwap → M (Result BoltzSwap)
set_slippage x bps swap =
    if is_terminal swap.status
    then pure (err (generic "Cannot update slippage of a swap in a terminal state"))
    else ask x.outside.unix_time >>= λ now.
        upsert_swap x.outside (record swap { slippage_bps = bps; updated_at = now }) >?> λ _.
        pure (ok (record swap { slippage_bps = bps; updated_at = now }))

-- `config_default` is the slippage of the configuration.
unfoldable pub update_swap_slippage :
    Executor → (config_default : ℕ) → (swap_id : String) → (slippage_bps : ℕ) → M (Result BoltzSwap)
unfolding set_slippage
update_swap_slippage x config_default swap_id slippage_bps =
    pure (resolve_slippage_bps (some slippage_bps) config_default) >?> λ bps.
    get_swap x.outside swap_id >?> λ found.
    pure (ok_or found (store "Swap not found")) >?> set_slippage x bps
