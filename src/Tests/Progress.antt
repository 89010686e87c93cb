-- ===== src/Tests/Progress.antt =====
-- The receipt poll, the sponsor's poll and the store, at concrete inputs.
use boltz_client.Prelude.{ℕ, ◌≡◌, refl, false, none, some, inl, ltb, if◌then◌else◌, arith}
use boltz_client.Errors.{Result, ok, err, evm}
use boltz_client.Models.Lifecycle.{claiming}
use boltz_client.Models.Destinations.{BridgeKind}
use boltz_client.Outside.{is_success}
use boltz_client.World.{Executor}
use boltz_client.World.Store.{row, find_row}
use boltz_client.Manager.Status.{is_direct}
use boltz_client.Manager.Retry.{poll_receipt}
use boltz_client.Manager.Finalized.{Mined, Sound, Settled, poll_receipt-Settled}
use boltz_client.Sponsor.{CallsStatus, poll_call_status}
use boltz_client.Sponsor.Decided.{Decided, poll_call_status-Decided}
use boltz_client.Tests.Fixtures.{executor, outside, receipt, swap_in, world_of}

-- The claim is mined at the fourth question.
abbrev mining_executor : Executor
mining_executor = record executor {
  outside = record outside {
    eth_get_transaction_receipt = λ n tx. if ltb n 3 then ok none else ok (some receipt);
  };
}

never_fails : Sound mining_executor
never_fails = record { reads = λ n. refl; writes = λ n. refl }

bridged : is_direct BridgeKind.oft ≡ false
unfolding is_direct
bridged = refl

mined : Mined mining_executor "0xclaim" 3
unfolding is_success
mined = record {
  receipt = receipt;
  success = refl;
  before = λ n h. inl (ground (arith, h));
  after = λ n h. ground (arith, h);
}

claimed_row :
    row "swap1" (world_of (swap_in claiming BridgeKind.oft))
    ≡ some (swap_in claiming BridgeKind.oft)
unfolding find_row
claimed_row = refl

poll_receipt-Settled_example :
    Settled "swap1"
      (poll_receipt mining_executor "swap1" "0xclaim"
        (world_of (swap_in claiming BridgeKind.oft))).0
      (poll_receipt mining_executor "swap1" "0xclaim"
        (world_of (swap_in claiming BridgeKind.oft))).1
poll_receipt-Settled_example =
    poll_receipt-Settled mining_executor (swap_in claiming BridgeKind.oft) "0xclaim" 3
      (world_of (swap_in claiming BridgeKind.oft)) never_fails bridged mined claimed_row
      (omega arith)

-- The second reply is final.
abbrev sponsor_answers : ℕ → Result CallsStatus
sponsor_answers attempt =
    if ltb attempt 1
    then err (evm "Alchemy HTTP error" none)
    else ok (record {
      status = some 200;
      first_receipt = some (record { transaction_hash = some "0xclaim"; status = some "0x1" });
    })

poll_call_status-Decided_example : Decided sponsor_answers (poll_call_status sponsor_answers)
poll_call_status-Decided_example = poll_call_status-Decided sponsor_answers
