-- ===== src/Manager/Status.antt =====
-- Status updates, the post-claim status, and what a claim receipt says was delivered.
use Prim.Native.String.{◌++◌ as append_text}
use boltz_client.Prelude.{
  ℕ, String, Bool, true, false, not, ◌||◌, Option, none, some, is_some, decimal, ltb,
}
use boltz_client.Config.{cctp_message_transmitter_v2}
use boltz_client.Crates.{Crates, Address}
use boltz_client.Errors.{Result, ok, err}
use boltz_client.Models.{BoltzSwap}
use boltz_client.Models.Lifecycle.{Status, settling, completed}
use boltz_client.Models.Destinations.{
  BridgeKind, Bridge, DestinationRegistry, Destination, find, oft_for,
}
use boltz_client.Outside.{TxReceipt}
use boltz_client.Contracts.{parse_address}
use boltz_client.Contracts.Delivered.{
  DeliveredAmount, DeliveredAmountSource, arbitrum_transfer, oft_sent, decode_delivered_from_logs,
}
use boltz_client.World.{Executor, swap_updated}
use boltz_client.World.Action.{M, pure, ◌>>=◌, ◌>>◌, ask, emit}
use boltz_client.World.Store.{upsert_swap}

-- The swap with its new status is handed back: the source changes it in place. A store error is
-- only logged.
unfoldable pub update_swap_status : Executor → BoltzSwap → Status → M BoltzSwap
update_swap_status x swap new_status = do
  now ← ask x.outside.unix_time
  upsert_swap x.outside (record swap { status = new_status; updated_at = now })
  emit (swap_updated (record swap { status = new_status; updated_at = now }))
  pure (record swap { status = new_status; updated_at = now })

unfoldable pub is_direct : BridgeKind → Bool
is_direct BridgeKind.direct = true
is_direct _ = false

unfoldable pub post_claim : BridgeKind → Status
post_claim BridgeKind.direct = completed
post_claim BridgeKind.oft = settling
post_claim BridgeKind.cctp = settling

unfoldable pub post_claim_status : BoltzSwap → Status
unfolding post_claim
post_claim_status swap = post_claim swap.bridge_kind

unfoldable pub direct_completion_has_evidence : BoltzSwap → Bool
unfolding is_direct
direct_completion_has_evidence swap =
    not (is_direct swap.bridge_kind) || is_some swap.delivered_amount

unfoldable pub claiming_eligible_for_refund_check : (current_l1 timeout_block_height : ℕ) → Bool
claiming_eligible_for_refund_check current_l1 timeout_block_height =
    ltb timeout_block_height current_l1

-- The key that Circle Iris indexes a burn by: `"<source_domain>:<burn_tx_hash>"`.
unfoldable pub cctp_guid : ℕ → String → String
cctp_guid domain tx_hash = append_text (decimal domain) (append_text ":" tx_hash)

ref_by_domain : DeliveredAmount → String → Option ℕ → Option ℕ × Option String
unfolding cctp_guid
ref_by_domain decoded tx_hash (some domain) = (none, some (cctp_guid domain tx_hash))
ref_by_domain decoded tx_hash none = (some decoded.amount, decoded.lz_guid)

unfoldable pub delivered_and_ref : DeliveredAmount → (tx_hash : String) → Option ℕ × Option String
unfolding ref_by_domain
delivered_and_ref decoded tx_hash = ref_by_domain decoded tx_hash decoded.cctp_source_domain

with_address :
    Result Address → (Address → Option DeliveredAmountSource) → Option DeliveredAmountSource
with_address (ok address) f = f address
with_address (err e) f = none

mesh_source : Crates → Option String → Option DeliveredAmountSource
unfolding with_address
mesh_source c none = none
mesh_source c (some oft_addr) =
    with_address (parse_address c oft_addr) (λ oft_contract. some (oft_sent oft_contract))

source_by_bridge :
    Crates → DestinationRegistry → BoltzSwap → String → Bridge → Option DeliveredAmountSource
unfolding with_address mesh_source
source_by_bridge c registry swap dex_output_token (Bridge.cctp domain) =
    with_address (parse_address c cctp_message_transmitter_v2)
      λ transmitter. some (DeliveredAmountSource.cctp transmitter)
source_by_bridge c registry swap dex_output_token Bridge.direct =
    with_address (parse_address c dex_output_token) λ token.
      with_address (parse_address c swap.destination_address)
        λ user. some (arbitrum_transfer token user)
source_by_bridge c registry swap dex_output_token (Bridge.oft mesh lz_eid) =
    mesh_source c (oft_for registry mesh)

source_at :
    Crates → DestinationRegistry → BoltzSwap → Option Destination → Option DeliveredAmountSource
unfolding source_by_bridge
source_at c registry swap none = none
source_at c registry swap (some dest) =
    source_by_bridge c registry swap dest.dex_output_token dest.bridge

unfoldable pub delivered_source_for : Executor → BoltzSwap → Option DeliveredAmountSource
unfolding source_at
delivered_source_for x swap =
    source_at x.crates x.registry swap (find x.registry swap.destination_chain swap.asset)

unfoldable pub with_delivery : BoltzSwap → String → Option DeliveredAmount → BoltzSwap
with_delivery swap tx_hash none = swap
with_delivery swap tx_hash (some decoded) =
    let (delivered, bridge_ref) = delivered_and_ref decoded tx_hash in
    record swap { delivered_amount = delivered; bridge_ref = bridge_ref }

unfoldable pub read_logs :
    Crates → BoltzSwap → TxReceipt → String → Option DeliveredAmountSource → BoltzSwap
unfolding with_delivery
read_logs c swap receipt tx_hash none = swap
read_logs c swap receipt tx_hash (some source) =
    with_delivery swap tx_hash (decode_delivered_from_logs c receipt.logs source)

unfoldable pub apply_delivered_amount :
    Executor → BoltzSwap → TxReceipt → (tx_hash : String) → BoltzSwap
unfolding read_logs
apply_delivered_amount x swap receipt tx_hash =
    read_logs x.crates swap receipt tx_hash (delivered_source_for x swap)
