-- ===== src/Claim/Once.antt =====
-- The calls that `claim_and_swap` of crates/lib/src/swap/reverse.rs has accepted, against its result.
use boltz_client.Prelude.{
  ℕ, zero, suc, String, ◌≡◌, refl, ap, ◌∙◌, Bool, true, false, if◌then◌else◌, Option, none, some,
  List, [], ◌∷◌, ◌==◌, arith,
}
use boltz_client.Errors.{BoltzError, Result, ok, err, claim_broadcast_unconfirmed}
use boltz_client.Models.{BoltzSwap}
use boltz_client.Models.Destinations.{NetworkTransport, Bridge}
use boltz_client.Outside.{Outside}
use boltz_client.Calls.{ClaimCall}
use boltz_client.Lockup.Effects.{IsQuiet-is_swap_still_locked_by_swap}
use boltz_client.World.{World, Executor, Sent}
use boltz_client.World.Action.{M, pure, ◌>>=◌, ask, note_sent, on_ok, ◌>?>◌}
use boltz_client.World.Store.{upsert_swap}
use boltz_client.World.Effects.{
  Invariant, Keeps, Keeps-pure, Keeps-quiet, Keeps-bind, Keeps-then, IsQuiet, IsQuiet-pure,
  IsQuiet-ask, quiet_rules,
}
use boltz_client.Claim.{
  persist_pending_call_id, with_call_id, confirmed, await_call, submit_claim, try_claim_same_chain,
  try_claim_cross_chain, try_claim_cctp, claim_by_bridge, try_claim, is_final, after_check,
  after_attempt, claim_attempts, claim_locked, claim_if, claim_and_swap, max_claim_retries,
  lockup_check_max_attempts,
}
use boltz_client.Claim.Build.{ClaimInput}
use boltz_client.Claim.Quiet.{IsQuiet-same_chain_call, IsQuiet-cctp_call, IsQuiet-oft_call}
use boltz_client.Claim.Effects.{IsQuiet-wait_for_lock, IsQuiet-ensure_timeout_margin}

-- How many calls the gas sponsor has accepted.
unfoldable pub count_answer : Result String → ℕ → ℕ
count_answer (ok call_id) n = suc n
count_answer (err e) n = n

unfoldable pub accepted : List Sent → ℕ
unfolding count_answer
accepted [] = 0
accepted (s ∷ sent) = count_answer s.answer (accepted sent)

-- The result of a claim, against the calls accepted from `w` to `w'`.
pub data Submitted (w w' : World) (result : Result String) : Type 0 where
  refused :
      accepted w'.sent ≡ accepted w.sent → (e : BoltzError) → result ≡ err e → Submitted w w' result
  landed :
      accepted w'.sent ≡ suc (accepted w.sent)
      → (tx_hash : String) → result ≡ ok tx_hash
      → Submitted w w' result
  unconfirmed :
      accepted w'.sent ≡ suc (accepted w.sent)
      → (call_id : String) → result ≡ err (claim_broadcast_unconfirmed call_id)
      → Submitted w w' result

pub record Once (m : M (Result String)) : Type 0 where
  pub at : (w : World) → Submitted w (m w).1 (m w).0

-- What went before leaves the count as it is.
later :
    {w v w' : World} {r : Result String}
    → accepted v.sent ≡ accepted w.sent
    → Submitted v w' r
    → Submitted w w' r
later e (refused p x q) = refused (p ∙ e) x q
later e (landed p x q) = landed (p ∙ ap suc e) x q
later e (unconfirmed p x q) = unconfirmed (p ∙ ap suc e) x q

Once-err : (e : BoltzError) → Once (pure (err e))
unfolding pure
Once-err e = record { at = λ w. refused refl e refl }

module _ {A : Type 0} where
  Once-on_ok :
      {f : A → M (Result String)} (r : Result A) → ((a : A) → Once (f a)) → Once (on_ok f r)
  Once-on_ok (ok a) k = k a
  Once-on_ok (err e) k = Once-err e

  Once-bind :
      {m : M A} {f : A → M (Result String)} → IsQuiet m → ((a : A) → Once (f a)) → Once (m >>= f)
  unfolding ◌>>=◌
  Once-bind {m} {f} q k = record {
    at = λ w. later (ap accepted (q.sent w)) ((k (m w).0).at (m w).1);
  }

module _ {A : Type 0} where
  Once-try :
      {m : M (Result A)} {f : A → M (Result String)}
      → IsQuiet m
      → ((a : A) → Once (f a))
      → Once (m >?> f)
  Once-try q k = Once-bind q (λ r. Once-on_ok r k)

-- Writing the call id submits nothing.
sent-upsert_swap : (o : Outside) (s : BoltzSwap) (w : World) → (upsert_swap o s w).1.sent ≡ w.sent
unfolding upsert_swap
sent-upsert_swap o s w = ground arith

same_sent : World → Invariant
same_sent start = record { Holds = λ w. w.sent ≡ start.sent; quiet = λ w w' rows sent h. sent ∙ h }

Keeps-with_call_id :
    (x : Executor) (start : World) (call_id : String) (found : Result (Option BoltzSwap))
    → Keeps (same_sent start) (with_call_id x call_id found)
unfolding with_call_id same_sent
Keeps-with_call_id x start call_id (err e) = Keeps-pure (same_sent start) tt
Keeps-with_call_id x start call_id (ok none) = Keeps-pure (same_sent start) tt
Keeps-with_call_id x start call_id (ok (some s)) =
    let I = same_sent start in
    Keeps-bind I (Keeps-quiet I (search (quiet_rules))) λ now _.
      Keeps-then I (record { at = λ w h. sent-upsert_swap x.outside _ w ∙ h }) (Keeps-pure I tt)

pub sent-persist_pending_call_id :
    (x : Executor) (id call_id : String) (w : World)
    → (persist_pending_call_id x id call_id w).1.sent ≡ w.sent
unfolding persist_pending_call_id same_sent
sent-persist_pending_call_id x id call_id w =
    let I = same_sent w in
    (Keeps-bind I (Keeps-quiet I (search (quiet_rules)))
        (λ found _. Keeps-with_call_id x w call_id found)).at
      w refl

module _ (x : Executor) (swap : BoltzSwap) where
  submitted_call :
      (call_id : String) (result : Result String) (w w' : World)
      → accepted w'.sent ≡ suc (accepted w.sent)
      → Submitted w w' (confirmed call_id result)
  unfolding confirmed
  submitted_call call_id (ok tx_hash) w w' p = landed p tx_hash refl
  submitted_call call_id (err e) w w' p = unconfirmed p call_id refl

  Submitted-await_call :
      (answer : Result String) (w v : World)
      → accepted v.sent ≡ count_answer answer (accepted w.sent)
      → Submitted w (await_call x swap answer v).1 (await_call x swap answer v).0
  unfolding await_call count_answer ◌>>=◌ ask pure
  Submitted-await_call (err e) w v p = refused p e refl
  Submitted-await_call (ok call_id) w v p =
      submitted_call call_id _ w _
        (ap accepted (sent-persist_pending_call_id x swap.id call_id v) ∙ p)

  Once-submit_claim : (i : ClaimInput) (call : ClaimCall) → Once (submit_claim x swap call i.key)
  unfolding submit_claim ◌>>=◌ ask note_sent accepted
  Once-submit_claim i call = record { at = λ w. Submitted-await_call _ w _ refl }

  Once-claim_by_bridge :
      (i : ClaimInput) (transport : NetworkTransport) (b : Bridge)
      → Once (claim_by_bridge x swap i transport b)
  unfolding claim_by_bridge try_claim_same_chain try_claim_cross_chain try_claim_cctp
  Once-claim_by_bridge i transport Bridge.direct =
      Once-try (IsQuiet-same_chain_call x swap i) (λ call. Once-submit_claim i call)
  Once-claim_by_bridge i transport (Bridge.oft mesh lz_eid) =
      Once-try (IsQuiet-oft_call x swap i) (λ call. Once-submit_claim i call)
  Once-claim_by_bridge i transport (Bridge.cctp domain) =
      Once-try (IsQuiet-cctp_call x swap i domain transport) (λ call. Once-submit_claim i call)

  Once-try_claim : (i : ClaimInput) → Once (try_claim x swap i)
  unfolding try_claim
  Once-try_claim i =
      Once-try (IsQuiet-pure _) (λ dest. Once-claim_by_bridge i dest.transport dest.bridge)

  Once-if : (b : Bool) {m n : M (Result String)} → Once m → Once n → Once (if b then m else n)
  Once-if true km kn = km
  Once-if false km kn = kn

  Once-after_check :
      (left : ℕ) (e : BoltzError) (check : Result Bool) {rest : M (Result String)}
      → Once rest
      → Once (after_check left e check rest)
  unfolding after_check
  Once-after_check left e (ok false) k = Once-err e
  Once-after_check left e (ok true) k = Once-if (left == 0) (Once-err e) k
  Once-after_check left e (err e') k = Once-if (left == 0) (Once-err e) k

  -- After a failed attempt that submitted nothing, more attempts may follow.
  Submitted-retry :
      (left : ℕ) (e : BoltzError) (rest : M (Result String)) (w v : World)
      → Once rest
      → accepted v.sent ≡ accepted w.sent
      → Submitted w
          (after_attempt x swap left (err e) rest v).1
          (after_attempt x swap left (err e) rest v).0
  unfolding after_attempt
  Submitted-retry left e rest w v k p = later p (
      (Once-if (is_final e) (Once-err e) (
          Once-bind (IsQuiet-is_swap_still_locked_by_swap x swap)
            (λ check. Once-after_check left e check k))).at
        v)

  -- After an accepted call whose outcome is unknown, none does.
  after_unconfirmed :
      (left : ℕ) (call_id : String) (rest : M (Result String)) (v : World)
      → after_attempt x swap left (err (claim_broadcast_unconfirmed call_id)) rest v
        ≡ (err (claim_broadcast_unconfirmed call_id), v)
  unfolding after_attempt is_final pure
  after_unconfirmed left call_id rest v = refl

  Submitted-after_attempt :
      (left : ℕ) (result : Result String) (rest : M (Result String)) (w v : World)
      → Once rest
      → Submitted w v result
      → Submitted w
          (after_attempt x swap left result rest v).1
          (after_attempt x swap left result rest v).0
  unfolding after_attempt is_final pure
  Submitted-after_attempt left (ok tx_hash) rest w v k s = s
  Submitted-after_attempt left (err e) rest w v k (refused p e' q) =
      Submitted-retry left e rest w v k p
  Submitted-after_attempt left (err e) rest w v k (landed p tx_hash q) = absurd (cc)
  Submitted-after_attempt left (err e) rest w v k (unconfirmed p call_id q) =
      let same : e ≡ claim_broadcast_unconfirmed call_id = cc in
      rw (same, after_attempt) (unconfirmed p call_id refl)

  Once-claim_attempts : (i : ClaimInput) (left : ℕ) → Once (claim_attempts x swap i left)
  unfolding claim_attempts ◌>>=◌
  Once-claim_attempts i zero = Once-err _
  Once-claim_attempts i (suc left) = record {
    at = λ w.
        Submitted-after_attempt left (try_claim x swap i w).0 (claim_attempts x swap i left) w
          (try_claim x swap i w).1 (Once-claim_attempts i left) ((Once-try_claim i).at w);
  }

  Once-claim_locked : (skip_drift_check : Bool) → Once (claim_locked x swap skip_drift_check)
  unfolding claim_locked
  Once-claim_locked skip_drift_check =
      Once-try (IsQuiet-ensure_timeout_margin x swap swap.timeout_block_height) λ _.
        Once-try (IsQuiet-pure _) λ preimage. Once-try (IsQuiet-pure _) λ key.
          Once-try (IsQuiet-ask _) λ version.
            Once-try (IsQuiet-pure _)
              λ addrs. Once-try (IsQuiet-pure _) λ amount. Once-claim_attempts _ max_claim_retries

  Once-claim_if : (skip_drift_check locked : Bool) → Once (claim_if x swap skip_drift_check locked)
  unfolding claim_if
  Once-claim_if skip_drift_check true = Once-claim_locked skip_drift_check
  Once-claim_if skip_drift_check false = Once-err _

  -- Over all attempts of a claim the gas sponsor accepts at most one call. If it accepts none, the
  -- claim fails; if it accepts one, the claim gives a transaction hash, or the error that the
  -- broadcast is unconfirmed, and no other.
  pub claim_and_swap-Submitted :
      (skip_drift_check : Bool) (w : World)
      → Submitted w
          (claim_and_swap x swap skip_drift_check w).1
          (claim_and_swap x swap skip_drift_check w).0
  unfolding claim_and_swap
  claim_and_swap-Submitted skip_drift_check w =
      (Once-bind (IsQuiet-wait_for_lock x swap lockup_check_max_attempts)
          (Once-claim_if skip_drift_check)).at
        w
