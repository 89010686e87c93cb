-- ===== src/Manager/Tracking.antt =====
-- Which swaps the manager follows: `start_tracking`, `reconcile_tracking` and `resume_all` of
-- crates/lib/src/swap/manager.rs. `resume_all` sends each id to the loop, which tracks it there.
use boltz_client.Prelude.{String, List, [], ◌∷◌, if◌then◌else◌}
use boltz_client.Errors.{Result, ok, err}
use boltz_client.Models.{BoltzSwap}
use boltz_client.Models.Lifecycle.{is_settling}
use boltz_client.World.{Executor}
use boltz_client.World.Action.{M, pure, ◌>>=◌, ◌>>◌}
use boltz_client.World.Store.{list_active_swaps, track, untrack, is_tracked, subscribe}

unfoldable pub undo_unless : String → Result (Unit {0}) → M (Result (Unit {0}))
undo_unless swap_id (ok done) = pure (ok tt)
undo_unless swap_id (err e) = do untrack swap_id; pure (err e)

unfoldable pub start_tracking : Executor → (swap_id : String) → M (Result (Unit {0}))
unfolding undo_unless
start_tracking x swap_id = do
  track swap_id
  subscribed ← subscribe x.outside swap_id
  undo_unless swap_id subscribed

-- The body of the loop over the active swaps.
unfoldable pub reconcile_swap : Executor → BoltzSwap → M (Unit {0})
unfolding start_tracking
reconcile_swap x swap = if is_settling swap.status then pure tt else do
  known ← is_tracked swap.id
  if known then pure tt else (do start_tracking x swap.id; pure tt)

unfoldable pub reconcile_listed : Executor → List BoltzSwap → M (Unit {0})
unfolding reconcile_swap
reconcile_listed x [] = pure tt
reconcile_listed x (swap ∷ swaps) = do reconcile_swap x swap; reconcile_listed x swaps

unfoldable pub reconcile_active : Executor → Result (List BoltzSwap) → M (Unit {0})
unfolding reconcile_listed
reconcile_active x (ok active) = reconcile_listed x active
reconcile_active x (err e) = pure tt

unfoldable pub reconcile_tracking : Executor → M (Unit {0})
unfolding reconcile_active
reconcile_tracking x = do active ← list_active_swaps x.outside; reconcile_active x active
