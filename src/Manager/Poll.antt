-- ===== src/Manager/Poll.antt =====
-- The background pass of crates/lib/src/swap/manager.rs: confirm deliveries, and recover claims.
use boltz_client.Prelude.{
  ℕ, String, Bool, false, ◌&&◌, Option, none, some, List, [], ◌∷◌, is_some, any, if◌then◌else◌,
}
use boltz_client.Errors.{Result, ok, err}
use boltz_client.Models.{BoltzSwap}
use boltz_client.Models.Lifecycle.{Status, claiming, settling, completed, is_claiming, is_settling}
use boltz_client.Models.Destinations.{BridgeKind, NetworkTransport, solana}
use boltz_client.Ata.{derive_used_nonce_pda}
use boltz_client.Bridges.{
  CctpMessageStatus, LzMessageStatus, cctp_delivery_status, cctp_completion_amount, forward_failed,
  oft_delivery_status, is_delivered,
}
use boltz_client.Config.{solana_message_transmitter_v2}
use boltz_client.Contracts.Delivered.{decode_cctp_nonce_from_message}
use boltz_client.Crates.{Crates, Bytes32}
use boltz_client.Errors.{generic, ok_or}
use boltz_client.Recipient.{encode_solana}
use boltz_client.Claim.Build.{resolve_destination}
use boltz_client.Lockup.{is_swap_still_locked_by_swap}
use boltz_client.World.{Executor}
use boltz_client.World.Action.{M, pure, ◌>>=◌, ◌>>◌, ◌>?>◌, ask}
use boltz_client.World.Store.{get_swap, list_active_swaps}
use boltz_client.Manager.Status.{update_swap_status, claiming_eligible_for_refund_check}
use boltz_client.Manager.Receipt.{ReceiptOutcome, advanced, reverted, not_mined, check_receipt_once}
use boltz_client.Manager.Retry.{classify_and_settle}

unfoldable pub with_amount : BoltzSwap → Option ℕ → BoltzSwap
with_amount swap none = swap
with_amount swap (some amount) = record swap { delivered_amount = some amount }

unfoldable pub complete_found : Executor → Option ℕ → Result (Option BoltzSwap) → M (Unit {0})
unfolding with_amount
complete_found x delivered_amount (ok (some fresh)) =
    if is_settling fresh.status
    then (do update_swap_status x (with_amount fresh delivered_amount) completed; pure tt)
    else pure tt
complete_found x delivered_amount _ = pure tt

-- The swap is read again: only one that is still `Settling` is completed.
unfoldable pub finalize_completed :
    Executor → (swap_id : String) → (delivered_amount : Option ℕ) → M (Unit {0})
unfolding complete_found
finalize_completed x swap_id delivered_amount = do
  found ← get_swap x.outside swap_id
  complete_found x delivered_amount found

-- `decode_solana_pubkey` accepts what `encode_solana` accepts: 32 bytes of base58.
unfoldable pub nonce_pda : Crates → (nonce : Bytes32) → Result Bytes32 → Result Bytes32
nonce_pda c nonce (ok transmitter) = derive_used_nonce_pda c nonce transmitter
nonce_pda c nonce (err e) = err e

unfoldable pub cctp_nonce_consumed_on_solana : Executor → (message : String) → M (Result Bool)
unfolding nonce_pda
cctp_nonce_consumed_on_solana x message =
    pure (
      ok_or (decode_cctp_nonce_from_message x.crates message)
        (generic "CCTP message missing nonce"))
    >?> λ nonce.
        pure (nonce_pda x.crates nonce (encode_solana x.crates solana_message_transmitter_v2))
        >?> λ pda. ask (λ n. x.outside.account_exists n (x.crates.bs58_encode pda))

unfoldable pub probe_on :
    Executor → (message : String) → (delivered : ℕ) → NetworkTransport → M (Result (Option ℕ))
unfolding cctp_nonce_consumed_on_solana
probe_on x message delivered solana = cctp_nonce_consumed_on_solana x message >?> λ consumed.
    pure (ok (if consumed then some delivered else none))
probe_on x message delivered _ = pure (ok none)

unfoldable pub probe : Executor → BoltzSwap → Option String → Option ℕ → M (Result (Option ℕ))
unfolding probe_on
probe x swap (some message) (some delivered) =
    pure (resolve_destination x.registry swap.destination_chain swap.asset) >?> λ dest.
    probe_on x message delivered dest.transport
probe x swap _ _ = pure (ok none)

unfoldable pub cctp_destination_delivered :
    Executor → BoltzSwap → CctpMessageStatus → M (Result (Option ℕ))
unfolding probe
cctp_destination_delivered x swap status = probe x swap status.message status.delivered_amount

unfoldable pub on_probe : Executor → BoltzSwap → Result (Option ℕ) → M (Unit {0})
unfolding finalize_completed
on_probe x swap (ok (some delivered)) = finalize_completed x swap.id (some delivered)
on_probe x swap _ = pure tt

unfoldable pub cctp_by_amount : Executor → BoltzSwap → CctpMessageStatus → Option ℕ → M (Unit {0})
unfolding on_probe finalize_completed
cctp_by_amount x swap status (some delivered) = finalize_completed x swap.id (some delivered)
cctp_by_amount x swap status none =
    if forward_failed status
    then (do probed ← cctp_destination_delivered x swap status; on_probe x swap probed)
    else pure tt

unfoldable pub on_cctp_status : Executor → BoltzSwap → Result CctpMessageStatus → M (Unit {0})
unfolding cctp_by_amount
on_cctp_status x swap (ok status) = cctp_by_amount x swap status (cctp_completion_amount status)
on_cctp_status x swap (err e) = pure tt

unfoldable pub on_oft_status : Executor → BoltzSwap → Result LzMessageStatus → M (Unit {0})
unfolding finalize_completed
on_oft_status x swap (ok status) =
    if is_delivered status then finalize_completed x swap.id none else pure tt
on_oft_status x swap (err e) = pure tt

unfoldable pub confirm_by_bridge :
    Executor → BoltzSwap → (bridge_ref : String) → BridgeKind → M (Unit {0})
unfolding on_cctp_status on_oft_status finalize_completed
confirm_by_bridge x swap bridge_ref BridgeKind.cctp = do
  status ← cctp_delivery_status x bridge_ref
  on_cctp_status x swap status
confirm_by_bridge x swap bridge_ref BridgeKind.oft = do
  status ← oft_delivery_status x bridge_ref
  on_oft_status x swap status
confirm_by_bridge x swap bridge_ref BridgeKind.direct = finalize_completed x swap.id none

unfoldable pub confirm_with : Executor → BoltzSwap → Option String → M (Unit {0})
unfolding confirm_by_bridge
confirm_with x swap none = pure tt
confirm_with x swap (some bridge_ref) = confirm_by_bridge x swap bridge_ref swap.bridge_kind

unfoldable pub confirm_delivery : Executor → BoltzSwap → M (Unit {0})
unfolding confirm_with
confirm_delivery x swap = confirm_with x swap swap.bridge_ref

unfoldable pub on_lock_probe : Executor → BoltzSwap → Result Bool → M (Unit {0})
on_lock_probe x swap (ok false) = do
  classify_and_settle x swap "Claim transaction never mined; lockup refunded"
  pure tt
on_lock_probe x swap _ = pure tt

-- Past the timeout, the lock is probed. No height means that it could not be read.
unfoldable pub check_refund : Executor → BoltzSwap → Option ℕ → M (Unit {0})
unfolding on_lock_probe
check_refund x swap none = pure tt
check_refund x swap (some current_l1) =
    if claiming_eligible_for_refund_check current_l1 swap.timeout_block_height
    then (do locked ← is_swap_still_locked_by_swap x swap; on_lock_probe x swap locked)
    else pure tt

unfoldable pub unless_advanced : Executor → BoltzSwap → Option ℕ → ReceiptOutcome → M (Unit {0})
unfolding check_refund
unless_advanced x swap current_l1 (advanced reached_terminal) = pure tt
unless_advanced x swap current_l1 reverted = check_refund x swap current_l1
unless_advanced x swap current_l1 not_mined = check_refund x swap current_l1

unfoldable pub recover_claiming_swap :
    Executor → BoltzSwap → (tx_hash : String) → (current_l1 : Option ℕ) → M (Unit {0})
unfolding unless_advanced
recover_claiming_swap x swap tx_hash current_l1 = do
  outcome ← check_receipt_once x swap.id tx_hash
  unless_advanced x swap current_l1 outcome

unfoldable pub recover_hashed : Executor → BoltzSwap → Option ℕ → Option String → M (Unit {0})
unfolding recover_claiming_swap
recover_hashed x swap current_l1 none = pure tt
recover_hashed x swap current_l1 (some tx_hash) = recover_claiming_swap x swap tx_hash current_l1

unfoldable pub recover_fresh : Executor → Option ℕ → Result (Option BoltzSwap) → M (Unit {0})
unfolding recover_hashed
recover_fresh x current_l1 (ok (some swap)) =
    if is_claiming swap.status then recover_hashed x swap current_l1 swap.claim_tx_hash else pure tt
recover_fresh x current_l1 _ = pure tt

unfoldable pub recover_snapshot : Executor → Option ℕ → BoltzSwap → M (Unit {0})
unfolding recover_fresh
recover_snapshot x current_l1 swap =
    if is_some swap.claim_tx_hash
    then (do found ← get_swap x.outside swap.id; recover_fresh x current_l1 found)
    else pure tt

-- The body of the loop over the listed swaps. The listed swap may be out of date.
unfoldable pub poll_swap : Executor → Option ℕ → BoltzSwap → Status → M (Unit {0})
unfolding confirm_delivery recover_snapshot
poll_swap x current_l1 swap settling = confirm_delivery x swap
poll_swap x current_l1 swap claiming = recover_snapshot x current_l1 swap
poll_swap x current_l1 swap _ = pure tt

unfoldable pub poll_listed : Executor → Option ℕ → List BoltzSwap → M (Unit {0})
unfolding poll_swap
poll_listed x current_l1 [] = pure tt
poll_listed x current_l1 (swap ∷ swaps) = do
  poll_swap x current_l1 swap swap.status
  poll_listed x current_l1 swaps

is_recoverable : BoltzSwap → Bool
is_recoverable swap = is_claiming swap.status && is_some swap.claim_tx_hash

height_of : Result ℕ → Option ℕ
height_of (ok height) = some height
height_of (err e) = none

-- The L1 height is read once in a pass, if some listed swap wants it.
unfoldable pub pass_height : Executor → List BoltzSwap → M (Option ℕ)
unfolding is_recoverable height_of
pass_height x swaps =
    if any is_recoverable swaps
    then (do height ← ask x.outside.eth_l1_block_number; pure (height_of height))
    else pure none

poll_pass : Executor → Result (List BoltzSwap) → M (Unit {0})
unfolding poll_listed pass_height
poll_pass x (ok swaps) = do current_l1 ← pass_height x swaps; poll_listed x current_l1 swaps
poll_pass x (err e) = pure tt

unfoldable pub poll_pending_swaps : Executor → M (Unit {0})
unfolding poll_pass
poll_pending_swaps x = do swaps ← list_active_swaps x.outside; poll_pass x swaps
