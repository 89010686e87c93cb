-- ===== src/Create/Stored.antt =====
-- What `create_reverse_swap` of crates/lib/src/lib.rs leaves in the store.
use boltz_client.Prelude.{ℕ, ◌≡◌, refl, ◌∙◌, ap, arith}
use boltz_client.Errors.{BoltzError, Result, ok, err}
use boltz_client.Models.{BoltzSwap}
use boltz_client.Outside.{Outside, CreateReverseSwapResponse}
use boltz_client.Secrets.{IssuedSecrets}
use boltz_client.World.{World, Executor}
use boltz_client.World.Action.{M, pure, ◌>>=◌, on_ok, ◌>?>◌}
use boltz_client.World.Store.{put_row, upsert_swap}
use boltz_client.World.Effects.{IsQuiet, IsQuiet-bind, IsQuiet-pure, quiet_rules}
use boltz_client.Manager.Tracking.{start_tracking}
use boltz_client.Service.Commands.{IsQuiet-start_tracking}
use boltz_client.Claim.{ensure_timeout_margin}
use boltz_client.Prepare.{PreparedSwap}
use boltz_client.Create.{
  CreatedSwap, created_swap, accept_response, create, create_probe_invoice, generate,
  create_reverse_swap,
}
use boltz_client.Create.Accepted.{Created, create-Created}

-- The two ways that a creation ends. One that succeeds adds the row of the swap, or replaces the row
-- that had its id; one that fails leaves the rows. Neither submits a claim.
pub data Outcome (x : Executor) (p : PreparedSwap) (w w' : World) (result : Result CreatedSwap)
    : Type 0 where
  stored :
      (swap : BoltzSwap)
      → result ≡ ok (created_swap swap)
      → Created x p swap
      → w'.rows ≡ put_row swap w.rows
      → w'.sent ≡ w.sent
      → Outcome x p w w' result
  refused :
      (e : BoltzError)
      → result ≡ err e
      → w'.rows ≡ w.rows
      → w'.sent ≡ w.sent
      → Outcome x p w w' result

-- The answer of a write and what it did.
data Wrote (swap : BoltzSwap) (v u : World) : Result (Unit {0}) → Type 0 where
  wrote : u.rows ≡ put_row swap v.rows → u.sent ≡ v.sent → Wrote swap v u (ok tt)
  failed : (e : BoltzError) → u.rows ≡ v.rows → u.sent ≡ v.sent → Wrote swap v u (err e)

Wrote-by :
    (swap : BoltzSwap) (v u : World) (r : Result (Unit {0}))
    → ((done : Unit {0}) → r ≡ ok done → u.rows ≡ put_row swap v.rows)
    → ((e : BoltzError) → r ≡ err e → u.rows ≡ v.rows)
    → u.sent ≡ v.sent
    → Wrote swap v u r
Wrote-by swap v u (ok tt) good bad sent = wrote (good tt refl) sent
Wrote-by swap v u (err e) good bad sent = failed e (bad e refl) sent

upsert_swap-Wrote :
    (o : Outside) (swap : BoltzSwap) (v : World)
    → Wrote swap v (upsert_swap o swap v).1 (upsert_swap o swap v).0
unfolding upsert_swap
upsert_swap-Wrote o swap v =
    Wrote-by swap v _ _ (λ done h. ground (arith, h)) (λ e h. ground (arith, h)) (ground arith)

module _ (x : Executor) (p : PreparedSwap) where
  IsQuiet-margin : (height : ℕ) → IsQuiet (ensure_timeout_margin x height)
  unfolding ensure_timeout_margin
  IsQuiet-margin height = search (quiet_rules)

  IsQuiet-accept_response :
      (issued : IssuedSecrets) (r : CreateReverseSwapResponse)
      → IsQuiet (accept_response x p issued r)
  unfolding accept_response
  IsQuiet-accept_response issued r = search (quiet_rules, IsQuiet-margin) depth 48

  pub IsQuiet-create : IsQuiet (create x p)
  unfolding create
  IsQuiet-create = search (quiet_rules, IsQuiet-accept_response) depth 48

  IsQuiet-generate : IsQuiet (generate x)
  unfolding generate
  IsQuiet-generate = search (quiet_rules) depth 16

  -- A probe invoice writes no row and submits no claim.
  IsQuiet-create_probe_invoice : IsQuiet (create_probe_invoice x p)
  unfolding create_probe_invoice
  IsQuiet-create_probe_invoice = search (quiet_rules, IsQuiet-generate) depth 48

  tracked : BoltzSwap → M (Result CreatedSwap)
  tracked swap = start_tracking x swap.id >>= λ _. pure (ok (created_swap swap))

  IsQuiet-tracked : (swap : BoltzSwap) → IsQuiet (tracked swap)
  unfolding tracked
  IsQuiet-tracked swap = IsQuiet-bind (IsQuiet-start_tracking x swap.id) (λ _. IsQuiet-pure _)

  after_write :
      (swap : BoltzSwap) (w v u : World) (r : Result (Unit {0}))
      → Created x p swap
      → v.rows ≡ w.rows
      → v.sent ≡ w.sent
      → Wrote swap v u r
      → Outcome x p w (on_ok (λ _. tracked swap) r u).1 (on_ok (λ _. tracked swap) r u).0
  unfolding tracked ◌>>=◌ pure
  after_write swap w v u _ c rows sent (wrote put same) =
      let q = IsQuiet-tracked swap in
      stored swap refl c (q.rows u ∙ put ∙ ap (put_row swap) rows) (q.sent u ∙ same ∙ sent)
  after_write swap w v u _ c rows sent (failed e kept same) =
      refused e refl (kept ∙ rows) (same ∙ sent)

  abbrev stored_and_tracked : BoltzSwap → M (Result CreatedSwap)
  stored_and_tracked swap = upsert_swap x.outside swap >?> λ _. tracked swap

  after_create :
      (r : Result BoltzSwap) (w v : World)
      → (create x p w).0 ≡ r
      → v.rows ≡ w.rows
      → v.sent ≡ w.sent
      → Outcome x p w (on_ok stored_and_tracked r v).1 (on_ok stored_and_tracked r v).0
  unfolding ◌>>=◌ pure
  after_create (err e) w v h rows sent = refused e refl rows sent
  after_create (ok swap) w v h rows sent =
      after_write swap w v (upsert_swap x.outside swap v).1 (upsert_swap x.outside swap v).0
        (create-Created x p (record { from = w; gives = h })) rows sent
        (upsert_swap-Wrote x.outside swap v)

  -- Creating a swap either succeeds, with a swap that passed every check of `create` written to the
  -- store under its id and no other row changed, or fails with an error and leaves the rows as they
  -- were. It submits no claim.
  pub create_reverse_swap-Outcome :
      (w : World) → Outcome x p w (create_reverse_swap x p w).1 (create_reverse_swap x p w).0
  unfolding create_reverse_swap tracked ◌>>=◌
  create_reverse_swap-Outcome w =
      let q = IsQuiet-create in
      after_create (create x p w).0 w (create x p w).1 refl (q.rows w) (q.sent w)
