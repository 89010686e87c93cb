-- ===== src/Claim/Promise.antt =====
-- Every call that `claim_and_swap` of crates/lib/src/swap/reverse.rs hands the gas sponsor, against the
-- terms of its swap.
use boltz_client.Prelude.{String, ◌≡◌, refl, ◌∙◌, ap, Bool, true, false, List, [], ◌∷◌, ◌++◌, All}
use boltz_client.Errors.{Result, ok}
use boltz_client.Models.{BoltzSwap}
use boltz_client.Calls.{ClaimCall}
use boltz_client.Lockup.{tbtc_evm_amount}
use boltz_client.World.{World, Executor, Sent}
use boltz_client.World.Action.{note_sent}
use boltz_client.Secrets.{EvmKeyPair}
use boltz_client.World.Effects.{
  Invariant, Keeps, Keeps-quiet, Keeps-pure, Keeps-bind, Keeps-try, Said-of_Answers,
  ok_of-Said-pure, quiet_rules,
}
use boltz_client.Claim.{
  claim_locked, claim_if, claim_and_swap, max_claim_retries, lockup_check_max_attempts,
  persist_pending_call_id,
}
use boltz_client.Claim.Build.{ClaimInput, claim_addresses}
use boltz_client.Claim.Signed.{Signed, Built-Signed}
use boltz_client.Crates.{Address}
use boltz_client.Claim.Destination.{Arrives, Built-Arrives, claim_addresses-Parsed}
use boltz_client.Config.{arbitrum_tbtc_address}
use boltz_client.Contracts.{parse_address}
use boltz_client.Claim.Effects.{
  Submission, IsQuiet-wait_for_lock, IsQuiet-ensure_timeout_margin, Keeps-claim_attempts,
}
use boltz_client.Claim.Once.{sent-persist_pending_call_id}
use boltz_client.Claim.Built.{Built}
use boltz_client.Claim.Floor.{Promised, Built-Bound, assured, claim_of}

-- The call goes to the swap's router, claims the swap's lock with the swap's preimage, and binds the
-- router to the promise on the swap's destination.
pub record Honours (x : Executor) (swap : BoltzSwap) (skip_drift_check : Bool) (s : Sent)
    : Type 0 where
  pub id : s.swap_id ≡ swap.id
  pub key : EvmKeyPair
  pub gas_key : x.secrets.gas_key_pair swap ≡ ok key
  pub submitted : Submission x swap key s.call s.answer
  pub router : Address
  pub router_is : parse_address x.crates swap.router_address ≡ ok router
  pub signed : Signed x swap key router s.call
  pub target : s.target ≡ swap.router_address
  pub destination : Arrives x swap s.call
  pub promise : Promised swap skip_drift_check (assured s.call)
  pub token : parse_address x.crates arbitrum_tbtc_address ≡ ok (claim_of s.call).token_address
  pub refund : parse_address x.crates swap.refund_address ≡ ok (claim_of s.call).refund_address
  pub amount : tbtc_evm_amount swap ≡ ok (claim_of s.call).amount
  pub preimage : x.secrets.preimage swap ≡ ok (claim_of s.call).preimage
  pub timelock : (claim_of s.call).timelock ≡ swap.timeout_block_height

-- What was sent since: calls that all have `P`, in front of those of the start.
pub record SentSince (P : Sent → Type 0) (start w : World) : Type 0 where
  pub added : List Sent
  pub split : w.sent ≡ added ++ start.sent
  pub all : All P added

module _ (P : Sent → Type 0) (start : World) where
  sent_since : Invariant
  sent_since = record {
    Holds = SentSince P start;
    quiet = λ w w' rows sent h. record { added = h.added; split = sent ∙ h.split; all = h.all };
  }

  Keeps-note_sent : (s : Sent) → P s → Keeps sent_since (note_sent s)
  unfolding sent_since note_sent
  Keeps-note_sent s p = record {
    at = λ w h. record {
      added = s ∷ h.added;
      split = ap (λ sent. s ∷ sent) h.split;
      all = (p, h.all);
    };
  }

  Keeps-persist :
      (x : Executor) (id call_id : String) → Keeps sent_since (persist_pending_call_id x id call_id)
  unfolding sent_since
  Keeps-persist x id call_id = record {
    at = λ w h. record {
      added = h.added;
      split = sent-persist_pending_call_id x id call_id w ∙ h.split;
      all = h.all;
    };
  }

module _ (x : Executor) (swap : BoltzSwap) where
  honoured :
      (i : ClaimInput) (call : ClaimCall) (answer : Result String)
      → x.secrets.gas_key_pair swap ≡ ok i.key
      → Submission x swap i.key call answer
      → claim_addresses x.crates x.registry swap ≡ ok i.addrs
      → tbtc_evm_amount swap ≡ ok i.amount
      → x.secrets.preimage swap ≡ ok i.preimage
      → Built x swap i call
      → Honours x swap i.skip_drift_check
          (record { swap_id = swap.id; target = swap.router_address; call = call; answer = answer })
  honoured i call answer key submitted addrs amount preimage built =
      let arrives = Built-Arrives x swap i call addrs built in
      let a = claim_addresses-Parsed x swap i.addrs arrives.0 arrives.1 addrs in
      let b = Built-Bound x swap i call built in
      record {
        id = refl;
        key = i.key;
        gas_key = key;
        submitted = submitted;
        router = i.addrs.router;
        router_is = a.router;
        signed = Built-Signed x swap i call built;
        target = refl;
        destination = arrives;
        token = rw (b.token) a.tbtc;
        refund = rw (b.refund) a.refund;
        promise = b.promise;
        amount = rw (b.amount) amount;
        preimage = rw (b.preimage) preimage;
        timelock = b.timelock;
      }

  module _ (skip_drift_check : Bool) (start : World) where
    Keeps-claim_locked :
        Keeps
          (sent_since (Honours x swap skip_drift_check) start)
          (claim_locked x swap skip_drift_check)
    unfolding claim_locked
    Keeps-claim_locked =
        let P = Honours x swap skip_drift_check in
        let I = sent_since P start in
        Keeps-try I (Keeps-quiet I (IsQuiet-ensure_timeout_margin x swap swap.timeout_block_height))
          λ _ _. Keeps-try I (Keeps-pure I _) λ preimage secret.
            Keeps-try I (Keeps-pure I _) λ key paid_by.
              Keeps-try I (Keeps-quiet I (search (quiet_rules))) λ version _.
                Keeps-try I (Keeps-pure I _) λ addrs parsed.
                  Keeps-try I (Keeps-pure I _) λ amount value.
                    Keeps-claim_attempts I x swap _
                      (λ call answer given built. Keeps-note_sent P start _ (
                        honoured _ call answer (ok_of-Said-pure (Said-of_Answers paid_by)) given
                          (ok_of-Said-pure (Said-of_Answers parsed))
                          (ok_of-Said-pure (Said-of_Answers value))
                          (ok_of-Said-pure (Said-of_Answers secret)) built))
                      (λ call_id. Keeps-persist P start x swap.id call_id) max_claim_retries

    Keeps-claim_if :
        (locked : Bool)
        → Keeps
            (sent_since (Honours x swap skip_drift_check) start)
            (claim_if x swap skip_drift_check locked)
    unfolding claim_if
    Keeps-claim_if true = Keeps-claim_locked
    Keeps-claim_if false = Keeps-pure (sent_since (Honours x swap skip_drift_check) start) _

    -- Every call that a claim hands the gas sponsor is for this swap, and was submitted to its router
    -- on its chain with its gas key. It claims the swap's on-chain amount of tBTC with its preimage,
    -- refund address and timelock, and delivers to the swap's destination in the registry: on a
    -- direct route it sweeps that destination's token to the swap's address; on an OFT route it sends
    -- to the destination's endpoint and the bytes of the address through the deployed OFT of its
    -- mesh; on a CCTP route it burns for the destination's domain and the account to mint to. It
    -- binds the router, by the signature of the gas key over the token, recipient and amounts of the
    -- call, to a positive amount, which is the expected output less the slippage unless the drift
    -- check was waived: the amount that is swept, that leaves the OFT, or that of the burn after the
    -- highest fee.
    pub claim_and_swap-Honours :
        SentSince
          (Honours x swap skip_drift_check)
          start
          (claim_and_swap x swap skip_drift_check start).1
    unfolding claim_and_swap sent_since
    claim_and_swap-Honours =
        let I = sent_since (Honours x swap skip_drift_check) start in
        (Keeps-bind I (Keeps-quiet I (IsQuiet-wait_for_lock x swap lockup_check_max_attempts))
            (λ locked _. Keeps-claim_if locked)).at
          start (record { added = []; split = refl; all = tt })
