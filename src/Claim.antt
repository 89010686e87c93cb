-- ===== src/Claim.antt =====
-- The claim of crates/lib/src/swap/reverse.rs: verify the lockup, keep clear of its timeout, build the
-- router call, hand it to the gas sponsor, and retry while the funds are still locked. The sleeps
-- between attempts are left out.
pub mod Build
pub mod Direct
pub mod Cctp
pub mod Oft
pub mod Quiet
pub mod Built
pub mod Recipients
pub mod Destination
pub mod Signed
pub mod Floor
pub mod Promise
pub mod Effects
pub mod Gate
pub mod Once
use boltz_client.Prelude.{
  ℕ, zero, suc, String, ◌-◌, Bool, true, false, ◌||◌, Option, none, some, ltb, leb, ◌==◌,
  if◌then◌else◌,
}
use boltz_client.Config.{min_timeout_l1_margin, arbitrum_tbtc_address, u128_limit}
use boltz_client.Crates.{Bytes32}
use boltz_client.Errors.{
  BoltzError, Result, ok, err, generic, quote_degraded_beyond_slippage, claim_broadcast_unconfirmed,
}
use boltz_client.Models.{BoltzSwap}
use boltz_client.Models.Destinations.{NetworkTransport, Bridge}
use boltz_client.Secrets.{EvmKeyPair}
use boltz_client.Calls.{ClaimCall}
use boltz_client.Lockup.{is_swap_still_locked_by_swap, tbtc_evm_amount}
use boltz_client.World.{Executor}
use boltz_client.World.Action.{M, pure, ◌>>=◌, ◌>>◌, ◌>?>◌, ask, on_ok, note_sent}
use boltz_client.World.Store.{get_swap, upsert_swap}
use Build.{ClaimInput, claim_addresses, resolve_destination}
use Direct.{same_chain_call}
use Cctp.{cctp_call}
use Oft.{oft_call}

-- `check_timeout_margin`; `saturating_sub` is the subtraction of ℕ.
unfoldable pub check_timeout_margin : (timeout_block_height current_l1 : ℕ) → Result (Unit {0})
check_timeout_margin timeout_block_height current_l1 =
    if ltb (timeout_block_height - current_l1) min_timeout_l1_margin
    then err (generic "Lockup timeout_block_height leaves too little headroom")
    else ok tt

unfoldable pub ensure_timeout_margin : Executor → ℕ → M (Result (Unit {0}))
unfolding check_timeout_margin
ensure_timeout_margin x timeout_block_height = ask x.outside.eth_l1_block_number >?> λ current_l1.
    pure (check_timeout_margin timeout_block_height current_l1)

unfoldable pub with_call_id : Executor → String → Result (Option BoltzSwap) → M (Unit {0})
with_call_id x call_id (ok (some s)) = do
  now ← ask x.outside.unix_time
  upsert_swap x.outside (record s { pending_call_id = some call_id; updated_at = now })
  pure tt
with_call_id x call_id _ = pure tt

unfoldable pub persist_pending_call_id : Executor → (swap_id call_id : String) → M (Unit {0})
unfolding with_call_id
persist_pending_call_id x swap_id call_id = do
  found ← get_swap x.outside swap_id
  with_call_id x call_id found

-- After the broadcast any failure to confirm is told apart from a failed claim.
unfoldable pub confirmed : String → Result String → Result String
confirmed call_id (ok tx_hash) = ok tx_hash
confirmed call_id (err e) = err (claim_broadcast_unconfirmed call_id)

unfoldable pub await_call : Executor → BoltzSwap → Result String → M (Result String)
unfolding confirmed
await_call x swap (err e) = pure (err e)
await_call x swap (ok call_id) = do
  persist_pending_call_id x swap.id call_id
  result ← ask (λ n. x.outside.poll_call_status n call_id)
  pure (confirmed call_id result)

unfoldable pub submit_claim : Executor → BoltzSwap → ClaimCall → EvmKeyPair → M (Result String)
unfolding await_call
submit_claim x swap call key = do
  answer ← ask λ n. x.outside.submit_calls n swap.router_address call swap.chain_id key.private_key
  note_sent
      (record { swap_id = swap.id; target = swap.router_address; call = call; answer = answer })
  await_call x swap answer

unfoldable pub try_claim_same_chain : Executor → BoltzSwap → ClaimInput → M (Result String)
try_claim_same_chain x swap i = same_chain_call x swap i >?> λ call. submit_claim x swap call i.key

unfoldable pub try_claim_cctp :
    Executor → BoltzSwap → ClaimInput → (domain : ℕ) → NetworkTransport → M (Result String)
try_claim_cctp x swap i domain transport =
    cctp_call x swap i domain transport >?> λ call. submit_claim x swap call i.key

unfoldable pub try_claim_cross_chain : Executor → BoltzSwap → ClaimInput → M (Result String)
try_claim_cross_chain x swap i = oft_call x swap i >?> λ call. submit_claim x swap call i.key

claim_by_bridge : Executor → BoltzSwap → ClaimInput → NetworkTransport → Bridge → M (Result String)
claim_by_bridge x swap i transport Bridge.direct = try_claim_same_chain x swap i
claim_by_bridge x swap i transport (Bridge.oft mesh lz_eid) = try_claim_cross_chain x swap i
claim_by_bridge x swap i transport (Bridge.cctp domain) = try_claim_cctp x swap i domain transport

unfoldable pub try_claim : Executor → BoltzSwap → ClaimInput → M (Result String)
unfolding claim_by_bridge
try_claim x swap i =
    pure (resolve_destination x.registry swap.destination_chain swap.asset) >?> λ dest.
    claim_by_bridge x swap i dest.transport dest.bridge

-- The errors after which the claim is not attempted again.
unfoldable pub is_final : BoltzError → Bool
is_final (quote_degraded_beyond_slippage expected_usd quoted_usd) = true
is_final (claim_broadcast_unconfirmed call_id) = true
is_final _ = false

-- After a failed attempt: stop if the funds are gone or this was the last attempt.
unfoldable pub after_check : ℕ → BoltzError → Result Bool → M (Result String) → M (Result String)
after_check left e (ok false) rest = pure (err e)
after_check left e _ rest = if left == 0 then pure (err e) else rest

unfoldable pub after_attempt :
    Executor → BoltzSwap → ℕ → Result String → M (Result String) → M (Result String)
unfolding is_final after_check
after_attempt x swap left (ok tx_hash) rest = pure (ok tx_hash)
after_attempt x swap left (err e) rest =
    if is_final e
    then pure (err e)
    else do check ← is_swap_still_locked_by_swap x swap; after_check left e check rest

-- The loop over the attempts, by how many are left. No attempt left is `unreachable!` in the source.
unfoldable pub claim_attempts : Executor → BoltzSwap → ClaimInput → ℕ → M (Result String)
unfolding after_attempt
claim_attempts x swap i zero = pure (err (generic "loop exits via return"))
claim_attempts x swap i (suc left) = do
  result ← try_claim x swap i
  after_attempt x swap left result (claim_attempts x swap i left)

unfoldable pub seen_locked : Result Bool → M Bool → M Bool
seen_locked (ok true) rest = pure true
seen_locked _ rest = rest

-- The lockup checks before anything is revealed, by how many are left.
unfoldable pub wait_for_lock : Executor → BoltzSwap → ℕ → M Bool
unfolding seen_locked
wait_for_lock x swap zero = pure false
wait_for_lock x swap (suc left) = do
  check ← is_swap_still_locked_by_swap x swap
  seen_locked check (wait_for_lock x swap left)

abbrev pub max_claim_retries : ℕ
max_claim_retries = 5

abbrev pub lockup_check_max_attempts : ℕ
lockup_check_max_attempts = 10

unfoldable pub claim_locked : Executor → BoltzSwap → (skip_drift_check : Bool) → M (Result String)
claim_locked x swap skip_drift_check = ensure_timeout_margin x swap.timeout_block_height >?> λ _.
    pure (x.secrets.preimage swap) >?> λ preimage. pure (x.secrets.gas_key_pair swap) >?> λ key.
    ask (λ n. x.outside.erc20swap_version n swap.erc20swap_address) >?> λ version.
    pure (claim_addresses x.crates x.registry swap) >?> λ addrs.
    pure (tbtc_evm_amount swap) >?> λ amount.
    claim_attempts x swap
      (record {
        key = key;
        version = version;
        preimage = preimage;
        addrs = addrs;
        amount = amount;
        skip_drift_check = skip_drift_check;
      })
      max_claim_retries

unfoldable pub claim_if : Executor → BoltzSwap → Bool → Bool → M (Result String)
unfolding claim_locked
claim_if x swap skip_drift_check true = claim_locked x swap skip_drift_check
claim_if x swap skip_drift_check false =
    pure (err (generic "On-chain lockup check failed: funds are not locked in ERC20Swap contract"))

unfoldable pub claim_and_swap : Executor → BoltzSwap → (skip_drift_check : Bool) → M (Result String)
unfolding claim_if
claim_and_swap x swap skip_drift_check = do
  lockup_verified ← wait_for_lock x swap lockup_check_max_attempts
  claim_if x swap skip_drift_check lockup_verified
