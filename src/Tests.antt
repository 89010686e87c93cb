-- ===== src/Tests.antt =====
-- The theorems at concrete inputs, and runs of the handlers.
mod Fixtures
mod Creation
mod Bridged
mod Progress
use boltz_client.Prelude.{
  length, ℕ, String, ◌+◌, ◌-◌, ◌*◌, ◌<◌, ◌≤◌, ◌≡◌, refl, Bool, true, false, Option, none, some, ◌⊎◌,
  List, [], ◌∷◌, arith, codes, ◌↔◌, from_str_radix,
}
use boltz_client.Errors.{Result, ok, err}
use boltz_client.Models.Lifecycle.{
  is_terminal, invoice_paid, tbtc_locked, claiming, settling, completed,
}
use boltz_client.Models.Destinations.{BridgeKind}
use boltz_client.World.Store.{row, find_row}
use boltz_client.Manager.Events.{SwapStatusUpdate, handle_ws_update}
use boltz_client.Manager.Moves.Update.{Advances, handle_ws_update-Advances}
use boltz_client.Manager.Polled.{Polled}
use boltz_client.Claim.{claim_and_swap}
use boltz_client.Claim.Gate.{Cleared, claim_and_swap-Cleared}
use boltz_client.Claim.Once.{Submitted, claim_and_swap-Submitted}
use boltz_client.Service.Commands.{
  Command, update, poll, reconcile, accept, slippage, run_all, run_all-row,
}
use boltz_client.Fees.{PairFees, FeeCalc, compute_invoice_amount, compute_onchain_amount}
use boltz_client.Fees.Exact.{
  compute_onchain_amount-compute_invoice_amount, compute_invoice_amount-least,
}
use boltz_client.BridgeFees.{
  CctpFee, compute_total_fee, cctp_required_burn, add_fee_buffer, legacy_mesh_source_amount,
}
use boltz_client.BridgeFees.Arrives.{
  InRange, cctp_required_burn-covers, legacy_mesh_source_amount-least, add_fee_buffer-le,
}
use boltz_client.Slippage.{compute_claim_floor, check_quote_drift, resolve_slippage_bps}
use boltz_client.Slippage.Bounds.{IsKept, compute_claim_floor_protects, check_quote_drift_iff}
use boltz_client.Quotes.{quote_in, ParsedQuote, pick_best_quote_with_data}
use boltz_client.Quotes.Best.{IsBest, pick_best_quote_with_data-IsBest}
use boltz_client.Outside.{QuoteResponse}
use boltz_client.Bridges.{parse_guid}
use boltz_client.Bridges.Guid.{parse_guid-cctp_guid}
use boltz_client.Manager.Status.{cctp_guid}
use boltz_client.Ata.{find_program_address}
use boltz_client.Ata.Search.{Found, find_program_address-Found}
use boltz_client.Locks.{
  SwapLock, start, count, request, acquire, release, unlock, free, cancel, Step, requests, acquires,
  Reach, here, next,
}
use boltz_client.Locks.Exclusion.{Reach-exclusive}
use boltz_client.LzOptions.{encoded}
use boltz_client.LzOptions.Layout.{read_options, encoded_lem}
use Fixtures.{executor, crates, swap_in, world_of, zeros}

abbrev mempool : SwapStatusUpdate
mempool = record {
  swap_id = "swap1";
  status = "transaction.mempool";
  transaction = some "0xlock";
  failure_reason = none;
}

handle_ws_update-Advances_example :
    Advances executor mempool
      (world_of (swap_in invoice_paid BridgeKind.direct))
      (handle_ws_update executor mempool (world_of (swap_in invoice_paid BridgeKind.direct))).1
      "swap1"
handle_ws_update-Advances_example =
    handle_ws_update-Advances executor mempool (world_of (swap_in invoice_paid BridgeKind.direct))
      "swap1"

stored :
    row "swap1" (world_of (swap_in completed BridgeKind.oft))
    ≡ some (swap_in completed BridgeKind.oft)
unfolding find_row
stored = refl

ended : is_terminal completed ≡ true
unfolding is_terminal
ended = refl

run_all-row_example :
    row "swap1" (
      run_all executor
        (update mempool
          ∷ reconcile
          ∷ accept "swap1"
          ∷ poll none (swap_in settling BridgeKind.oft)
          ∷ [])
        (world_of (swap_in completed BridgeKind.oft)))
    ≡ some (swap_in completed BridgeKind.oft)
run_all-row_example =
    run_all-row executor "swap1"
      (update mempool
        ∷ reconcile
        ∷ accept "swap1"
        ∷ poll none (swap_in settling BridgeKind.oft)
        ∷ [])
      (world_of (swap_in completed BridgeKind.oft)) stored ended

claim_and_swap-Cleared_example :
    ((claim_and_swap executor
        (swap_in claiming BridgeKind.direct)
        false
        (world_of (swap_in claiming BridgeKind.direct))).1.sent
      ≡ [])
    ⊎ Cleared executor (swap_in claiming BridgeKind.direct)
claim_and_swap-Cleared_example =
    claim_and_swap-Cleared executor (swap_in claiming BridgeKind.direct) false
      (world_of (swap_in claiming BridgeKind.direct))

claim_and_swap-Submitted_example :
    Submitted
      (world_of (swap_in claiming BridgeKind.direct))
      (claim_and_swap executor
        (swap_in claiming BridgeKind.direct)
        false
        (world_of (swap_in claiming BridgeKind.direct))).1
      (claim_and_swap executor
        (swap_in claiming BridgeKind.direct)
        false
        (world_of (swap_in claiming BridgeKind.direct))).0
claim_and_swap-Submitted_example =
    claim_and_swap-Submitted executor (swap_in claiming BridgeKind.direct) false
      (world_of (swap_in claiming BridgeKind.direct))

abbrev fees : PairFees
fees = record { claim = 20; lockup = 30; percentage_bps = ok 25 }

abbrev calc : FeeCalc
calc = record { invoice_sats = 100301; boltz_fee_sats = 251; onchain_sats = 100000 }

invoice_of_100000 : compute_invoice_amount fees 100000 ≡ ok calc
unfolding compute_invoice_amount
invoice_of_100000 = refl

compute_onchain_amount-compute_invoice_amount_example :
    (compute_onchain_amount fees 100301 ≡ ok calc) × (calc.onchain_sats ≡ 100000)
compute_onchain_amount-compute_invoice_amount_example =
    compute_onchain_amount-compute_invoice_amount fees 100000 invoice_of_100000

abbrev smaller_calc : FeeCalc
smaller_calc = record { invoice_sats = 100300; boltz_fee_sats = 251; onchain_sats = 99999 }

onchain_of_100300 : compute_onchain_amount fees 100300 ≡ ok smaller_calc
unfolding compute_onchain_amount
onchain_of_100300 = refl

compute_invoice_amount-least_example : smaller_calc.onchain_sats < 100000
compute_invoice_amount-least_example =
    compute_invoice_amount-least fees 100000 100300 invoice_of_100000 (omega arith)
      onchain_of_100300

abbrev cctp_fee : CctpFee
cctp_fee = record { bps_units = 1_300_000_000; forward_fee = 200_000 }

cctp_fee-InRange : InRange 5_000_000 cctp_fee
cctp_fee-InRange = record {
  rate = omega arith;
  target_fits = omega arith;
  forward_fits = omega arith;
}

cctp_required_burn-covers_example :
    compute_total_fee (cctp_required_burn 5_000_000 cctp_fee) 1_300_000_000 200_000 + 5_000_000
    ≤ cctp_required_burn 5_000_000 cctp_fee
cctp_required_burn-covers_example = cctp_required_burn-covers 5_000_000 cctp_fee cctp_fee-InRange

source_of_9997 : legacy_mesh_source_amount 9997 ≡ some 10000
unfolding legacy_mesh_source_amount
source_of_9997 = refl

legacy_mesh_source_amount-least_example :
    (9997 * 10000 ≤ 10000 * 9997) × ((less : ℕ) → less < 10000 → less * 9997 < 9997 * 10000)
legacy_mesh_source_amount-least_example = legacy_mesh_source_amount-least 9997 source_of_9997

add_fee_buffer-le_example :
    (200_000 * 10002 ≤ add_fee_buffer 200_000 * 10000)
    × (add_fee_buffer 200_000 * 10000 < 200_000 * 10002 + 10000)
add_fee_buffer-le_example = add_fee_buffer-le 200_000 (omega arith)

default_bps : resolve_slippage_bps none 100 ≡ ok 100
unfolding resolve_slippage_bps
default_bps = refl

compute_claim_floor_protects_example :
    (floor : ℕ) × (compute_claim_floor 995 1000 100 false ≡ ok floor)
    × IsKept 1000 100 floor
    × (19 * 1000 < 20 * (floor + 1))
compute_claim_floor_protects_example =
    compute_claim_floor_protects none 100 995 1000 false default_bps (omega arith) (omega arith)

check_quote_drift_iff_example :
    (check_quote_drift 1000 990 100 ≡ ok tt)
    ↔ ((floor : ℕ) × (compute_claim_floor 990 1000 100 false ≡ ok floor) × (floor ≤ 990))
check_quote_drift_iff_example = check_quote_drift_iff 1000 990 100

abbrev quotes : List QuoteResponse
quotes = record { quote = "990"; detail = "a" } ∷ record { quote = "1003"; detail = "b" } ∷ []

best_of_quotes :
    pick_best_quote_with_data quotes quote_in ≡ ok (record { amount = 1003; detail = "b" })
unfolding pick_best_quote_with_data from_str_radix
best_of_quotes = refl

pick_best_quote_with_data-IsBest_example :
    IsBest quote_in quotes (record { amount = 1003; detail = "b" })
pick_best_quote_with_data-IsBest_example =
    pick_best_quote_with_data-IsBest quotes quote_in best_of_quotes

parse_guid-cctp_guid_example : parse_guid (cctp_guid 3 "0xab:cd") ≡ ok (3, "0xab:cd")
parse_guid-cctp_guid_example = parse_guid-cctp_guid 3 "0xab:cd" (omega arith)

find_program_address-Found_example :
    Found crates
      (zeros 32 ∷ [])
      (zeros 32)
      256
      (find_program_address crates (zeros 32 ∷ []) (zeros 32))
find_program_address-Found_example = find_program_address-Found crates (zeros 32 ∷ []) (zeros 32)

-- One task holds the lock and another waits.
abbrev contended : SwapLock
contended = acquire 0 (request (request start))

contended_reached : {b : Bool} → Reach b contended
unfolding request acquire count
contended_reached =
    next (next (next here (requests start)) (requests (request start)))
      (acquires (request (request start)) 0 (omega arith) refl refl)

Reach-exclusive_example :
    (length contended.holding ≤ 1)
    × ((m : ℕ)
        → 0 < count m contended.waiting + count m contended.holding
        → contended.entry ≡ some m)
Reach-exclusive_example = Reach-exclusive (contended_reached {b = true})

-- A wait that is cancelled after the holder has left leaves the entry behind.
cancelled_wait : (cancel 0 (free 0 (unlock 0 (release 0 contended)))).entry ≡ some 0
unfolding request acquire release unlock free cancel count
cancelled_wait = refl

-- So does a holder that leaves while the one before it has unlocked but still owns the mutex.
late_arc :
    (free 0 (free 0 (unlock 0 (release 0 (acquire 0 (unlock 0 (release 0 contended))))))).entry
    ≡ some 0
unfolding request acquire release unlock free count
late_arc = refl

abbrev options : List (ℕ × ℕ)
options = (0, 2_039_280) ∷ (30_000, 0) ∷ []

encoded_example :
    (encoded [] ≡ [])
    × ((options ≡ [])
        ⊎ ((bs : List ℕ) × (encoded options ≡ 0 ∷ 3 ∷ bs)
            × (read_options (length options) bs ≡ some options)))
encoded_example = encoded_lem options (omega arith, omega arith, (omega arith, omega arith, tt))
