-- ===== src/Claim/Effects.antt =====
-- Which invariants the attempts of a claim in crates/lib/src/swap/reverse.rs keep, by those of the
-- submission and of the write of the call id.
use boltz_client.Prelude.{ℕ, zero, suc, String, Bool, true, false, ◌==◌, ◌≡◌, refl, some}
use boltz_client.Errors.{BoltzError, Result, ok, err, some-ok_or}
use boltz_client.Models.{BoltzSwap}
use boltz_client.Models.Destinations.{Bridge, Destination, find}
use boltz_client.Calls.{ClaimCall}
use boltz_client.Lockup.Effects.{IsQuiet-is_swap_still_locked_by_swap}
use boltz_client.World.{Executor}
use boltz_client.World.Action.{M, note_sent, ask}
use boltz_client.Secrets.{EvmKeyPair}
use boltz_client.World.Effects.{
  Invariant, Keeps, IsQuiet, IsQuiet-pure, IsQuiet-bind, Keeps-quiet, Keeps-pure, Keeps-if,
  Keeps-bind, Keeps-then, Keeps-try, quiet_rules, Said, Said-of_Answers, ok_of-Said-pure,
}
use boltz_client.Claim.{
  ensure_timeout_margin, persist_pending_call_id, await_call, submit_claim, try_claim_same_chain,
  try_claim_cross_chain, try_claim_cctp, try_claim, after_check, after_attempt, claim_attempts,
  wait_for_lock, claim_by_bridge, is_final, seen_locked,
}
use boltz_client.Claim.Build.{ClaimInput, resolve_destination}
use boltz_client.Claim.Built.{Built, direct, oft, cctp}
use boltz_client.Claim.Quiet.{IsQuiet-same_chain_call, IsQuiet-cctp_call, IsQuiet-oft_call}

module _ (x : Executor) (swap : BoltzSwap) where
  pub IsQuiet-ensure_timeout_margin : (height : ℕ) → IsQuiet (ensure_timeout_margin x height)
  unfolding ensure_timeout_margin
  IsQuiet-ensure_timeout_margin height = search (quiet_rules)

  IsQuiet-seen_locked :
      (check : Result Bool) {rest : M Bool} → IsQuiet rest → IsQuiet (seen_locked check rest)
  unfolding seen_locked
  IsQuiet-seen_locked (ok true) q = IsQuiet-pure true
  IsQuiet-seen_locked (ok false) q = q
  IsQuiet-seen_locked (err e) q = q

  pub IsQuiet-wait_for_lock : (left : ℕ) → IsQuiet (wait_for_lock x swap left)
  unfolding wait_for_lock
  IsQuiet-wait_for_lock zero = IsQuiet-pure false
  IsQuiet-wait_for_lock (suc left) =
      IsQuiet-bind (IsQuiet-is_swap_still_locked_by_swap x swap)
        (λ check. IsQuiet-seen_locked check (IsQuiet-wait_for_lock left))

-- The gas sponsor answered the call of the swap's router, on the swap's chain and with the gas key.
abbrev pub Submission : Executor → BoltzSwap → EvmKeyPair → ClaimCall → Result String → Type 0
Submission x swap key call answer =
    Said
      (ask (λ n. x.outside.submit_calls n swap.router_address call swap.chain_id key.private_key))
      answer

-- An invariant that the submission of a call that was built and the write of the call id keep is kept
-- by all attempts.
module _ (I : Invariant) (x : Executor) (swap : BoltzSwap) (i : ClaimInput)
    (noted : (call : ClaimCall) (answer : Result String)
      → Submission x swap i.key call answer
      → Built x swap i call
      → Keeps I (
          note_sent (record {
            swap_id = swap.id;
            target = swap.router_address;
            call = call;
            answer = answer;
          })))
    (persisted : (call_id : String) → Keeps I (persist_pending_call_id x swap.id call_id)) where
  Keeps-await_call : (answer : Result String) → Keeps I (await_call x swap answer)
  unfolding await_call
  Keeps-await_call (err e) = Keeps-pure I (err e)
  Keeps-await_call (ok call_id) =
      Keeps-then I (persisted call_id) (Keeps-quiet I (search (quiet_rules)))

  Keeps-submit_claim :
      (call : ClaimCall) → Built x swap i call → Keeps I (submit_claim x swap call i.key)
  unfolding submit_claim
  Keeps-submit_claim call built = Keeps-bind I (Keeps-quiet I (search (quiet_rules))) (λ answer h.
      Keeps-then I (noted call answer (Said-of_Answers h) built) (Keeps-await_call answer))

  Keeps-claim_by_bridge :
      (dest : Destination) (b : Bridge)
      → find x.registry swap.destination_chain swap.asset ≡ some dest
      → dest.bridge ≡ b
      → Keeps I (claim_by_bridge x swap i dest.transport b)
  unfolding claim_by_bridge try_claim_same_chain try_claim_cross_chain try_claim_cctp
  Keeps-claim_by_bridge dest Bridge.direct f e =
      Keeps-try I (Keeps-quiet I (IsQuiet-same_chain_call x swap i))
        (λ call a. Keeps-submit_claim call (direct dest f e (Said-of_Answers a)))
  Keeps-claim_by_bridge dest (Bridge.oft mesh lz_eid) f e =
      Keeps-try I (Keeps-quiet I (IsQuiet-oft_call x swap i))
        (λ call a. Keeps-submit_claim call (oft dest mesh lz_eid f e (Said-of_Answers a)))
  Keeps-claim_by_bridge dest (Bridge.cctp domain) f e =
      Keeps-try I (Keeps-quiet I (IsQuiet-cctp_call x swap i domain dest.transport))
        (λ call a. Keeps-submit_claim call (cctp dest domain f e (Said-of_Answers a)))

  Keeps-try_claim : Keeps I (try_claim x swap i)
  unfolding try_claim resolve_destination
  Keeps-try_claim = Keeps-try I (Keeps-pure I _) λ dest a.
      Keeps-claim_by_bridge dest dest.bridge (some-ok_or _ _ (ok_of-Said-pure (Said-of_Answers a)))
        refl

  Keeps-after_check :
      (left : ℕ) (e : BoltzError) (check : Result Bool) {rest : M (Result String)}
      → Keeps I rest
      → Keeps I (after_check left e check rest)
  unfolding after_check
  Keeps-after_check left e (ok false) k = Keeps-pure I (err e)
  Keeps-after_check left e (ok true) k = Keeps-if I (left == 0) (λ _. Keeps-pure I (err e)) (λ _. k)
  Keeps-after_check left e (err e') k = Keeps-if I (left == 0) (λ _. Keeps-pure I (err e)) (λ _. k)

  Keeps-after_attempt :
      (left : ℕ) (result : Result String) {rest : M (Result String)}
      → Keeps I rest
      → Keeps I (after_attempt x swap left result rest)
  unfolding after_attempt
  Keeps-after_attempt left (ok tx_hash) k = Keeps-pure I (ok tx_hash)
  Keeps-after_attempt left (err e) k =
      Keeps-if I (is_final e) (λ _. Keeps-pure I (err e))
        λ _.
          Keeps-bind I (Keeps-quiet I (IsQuiet-is_swap_still_locked_by_swap x swap))
            (λ check h. Keeps-after_check left e check k)

  pub Keeps-claim_attempts : (left : ℕ) → Keeps I (claim_attempts x swap i left)
  unfolding claim_attempts
  Keeps-claim_attempts zero = Keeps-pure I _
  Keeps-claim_attempts (suc left) =
      Keeps-bind I Keeps-try_claim
        (λ result h. Keeps-after_attempt left result (Keeps-claim_attempts left))
