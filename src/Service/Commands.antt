-- ===== src/Service/Commands.antt =====
-- Everything that runs on swaps that exist, one action under one lock after another.
use boltz_client.Prelude.{
  ℕ, String, ◌≡◌, refl, ap, ◌∙◌, Bool, true, false, Option, some, inl, inr, List, [], ◌∷◌,
  if◌then◌else◌,
}
use boltz_client.Errors.{Result, ok, err}
use boltz_client.Models.{BoltzSwap}
use boltz_client.Models.Lifecycle.{is_terminal, is_settling}
use boltz_client.World.{World, Executor}
use boltz_client.World.Action.{M, pure, ◌>>=◌}
use boltz_client.World.Store.{contains, row, find_row, is_tracked}
use boltz_client.World.Effects.{
  IsQuiet, IsQuiet-bind, IsQuiet-pure, IsQuiet-is_tracked, IsQuiet-track, IsQuiet-subscribe,
  IsQuiet-list_active_swaps, quiet_rules,
}
use boltz_client.Manager.Events.{SwapStatusUpdate, on_ws, handle_ws_update}
use boltz_client.Manager.Moves.Update.{handle_ws_update-Advances}
use boltz_client.Manager.Poll.{poll_swap}
use boltz_client.Manager.Polled.{poll_swap-Polled}
use boltz_client.Manager.Tracking.{
  start_tracking, undo_unless, reconcile_swap, reconcile_listed, reconcile_active,
  reconcile_tracking,
}
use boltz_client.Service.{accept_degraded_quote, update_swap_slippage}
use boltz_client.Service.Frozen.{
  Spares, Spares-of_Advances, Spares-of_Polled, Spares-accept_degraded_quote,
  Spares-update_swap_slippage,
}

-- One action under one lock. A turn of the background pass works on a copy of a row, read before.
pub data Command : Type 0 where
  update : SwapStatusUpdate → Command
  poll : (current_l1 : Option ℕ) (copy : BoltzSwap) → Command
  follow : (swap_id : String) → Command
  reconcile : Command
  accept : (swap_id : String) → Command
  slippage : (config_default : ℕ) (swap_id : String) (slippage_bps : ℕ) → Command

unfoldable pub run : Executor → Command → World → World
run x (update u) w = (on_ws x u w).1
run x (poll current_l1 copy) w = (poll_swap x current_l1 copy copy.status w).1
run x (follow swap_id) w = (start_tracking x swap_id w).1
run x reconcile w = (reconcile_tracking x w).1
run x (accept swap_id) w = (accept_degraded_quote x swap_id w).1
run x (slippage config_default swap_id slippage_bps) w =
    (update_swap_slippage x config_default swap_id slippage_bps w).1

unfoldable pub run_all : Executor → List Command → World → World
unfolding run
run_all x [] w = w
run_all x (c ∷ cs) w = run_all x cs (run x c w)

module _ (x : Executor) where
  IsQuiet-undo_unless : (id : String) (r : Result (Unit {0})) → IsQuiet (undo_unless id r)
  unfolding undo_unless
  IsQuiet-undo_unless id (ok done) = IsQuiet-pure _
  IsQuiet-undo_unless id (err e) = search (quiet_rules)

  pub IsQuiet-start_tracking : (id : String) → IsQuiet (start_tracking x id)
  unfolding start_tracking
  IsQuiet-start_tracking id =
      IsQuiet-bind (IsQuiet-track id)
        (λ _. IsQuiet-bind (IsQuiet-subscribe x.outside id) (λ r. IsQuiet-undo_unless id r))

  IsQuiet-if :
      {A : Type 0} (b : Bool) {m n : M A} → IsQuiet m → IsQuiet n → IsQuiet (if b then m else n)
  IsQuiet-if true p q = p
  IsQuiet-if false p q = q

  IsQuiet-reconcile_swap : (s : BoltzSwap) → IsQuiet (reconcile_swap x s)
  unfolding reconcile_swap
  IsQuiet-reconcile_swap s = IsQuiet-if (is_settling s.status) (IsQuiet-pure _) (
      IsQuiet-bind (IsQuiet-is_tracked s.id) λ known.
        IsQuiet-if known (IsQuiet-pure _)
          (IsQuiet-bind (IsQuiet-start_tracking s.id) (λ _. IsQuiet-pure _)))

  IsQuiet-reconcile_listed : (swaps : List BoltzSwap) → IsQuiet (reconcile_listed x swaps)
  unfolding reconcile_listed
  IsQuiet-reconcile_listed [] = IsQuiet-pure _
  IsQuiet-reconcile_listed (s ∷ swaps) =
      IsQuiet-bind (IsQuiet-reconcile_swap s) (λ _. IsQuiet-reconcile_listed swaps)

  IsQuiet-reconcile_active : (r : Result (List BoltzSwap)) → IsQuiet (reconcile_active x r)
  unfolding reconcile_active
  IsQuiet-reconcile_active (ok swaps) = IsQuiet-reconcile_listed swaps
  IsQuiet-reconcile_active (err e) = IsQuiet-pure _

  IsQuiet-reconcile_tracking : IsQuiet (reconcile_tracking x)
  unfolding reconcile_tracking
  IsQuiet-reconcile_tracking =
      IsQuiet-bind (IsQuiet-list_active_swaps x.outside) IsQuiet-reconcile_active

module _ (x : Executor) (j : String) where
  Spares-if :
      (known : Bool) (u : SwapStatusUpdate) (w : World)
      → Spares w ((if known then handle_ws_update x u else pure tt) w).1 j
  unfolding pure
  Spares-if true u w =
      Spares-of_Advances x w j u (handle_ws_update x u w).1 (handle_ws_update-Advances x u w j)
  Spares-if false u w = inl refl

  Spares-on_ws : (u : SwapStatusUpdate) (w : World) → Spares w (on_ws x u w).1 j
  unfolding on_ws is_tracked ◌>>=◌ pure
  Spares-on_ws u w = Spares-if (contains u.swap_id w.tracked) u w

  Spares-run : (c : Command) (w : World) → Spares w (run x c w) j
  unfolding run
  Spares-run (update u) w = Spares-on_ws u w
  Spares-run (poll current_l1 copy) w =
      Spares-of_Polled x w j copy (poll_swap x current_l1 copy copy.status w).1
        (poll_swap-Polled x copy w current_l1 copy.status j)
  Spares-run (follow swap_id) w = inl (ap (find_row j) ((IsQuiet-start_tracking x swap_id).rows w))
  Spares-run reconcile w = inl (ap (find_row j) ((IsQuiet-reconcile_tracking x).rows w))
  Spares-run (accept swap_id) w = Spares-accept_degraded_quote x swap_id w j
  Spares-run (slippage config_default swap_id slippage_bps) w =
      Spares-update_swap_slippage x config_default swap_id slippage_bps w j

  keeps_row :
      (w w' : World) {s : BoltzSwap}
      → row j w ≡ some s
      → is_terminal s.status ≡ true
      → Spares w w' j
      → row j w' ≡ some s
  keeps_row w w' p t (inl same) = same ∙ p
  keeps_row w w' {s} p t (inr (old, q, not_terminal)) =
      let e : old ≡ s = cc in absurd (cc (ap (λ (k : BoltzSwap). is_terminal k.status) e))

  -- A swap that is completed, failed or expired keeps its row as it is, all fields, whatever updates
  -- of Boltz, turns of the background pass on copies of any age, tracking, forced claims and changes
  -- of slippage follow, in any order and for any swaps, and whatever the outside answers.
  pub run_all-row :
      (cs : List Command) (w : World) {s : BoltzSwap}
      → row j w ≡ some s
      → is_terminal s.status ≡ true
      → row j (run_all x cs w) ≡ some s
  unfolding run_all
  run_all-row [] w p t = p
  run_all-row (c ∷ cs) w p t =
      run_all-row cs (run x c w) (keeps_row w (run x c w) p t (Spares-run c w)) t
