-- ===== src/Sponsor.antt =====
-- `poll_call_status` of crates/lib/src/evm/alchemy.rs, after the JSON: how the gas sponsor's replies on a
-- call are read, and when the poll ends.
pub mod Decided
use boltz_client.Prelude.{
  ℕ, zero, suc, String, Bool, true, false, Option, none, some, leb, same_text, if◌then◌else◌,
}
use boltz_client.Errors.{BoltzError, Result, ok, err, evm}

-- The first of the `receipts`, and the top-level `status` when it is a number.
pub record SponsorReceipt : Type 0 where
  pub transaction_hash : Option String
  pub status : Option String

pub record CallsStatus : Type 0 where
  pub status : Option ℕ  -- u64
  pub first_receipt : Option SponsorReceipt

pub data CallStatus : Type 0 where
  confirmed : (tx_hash : String) → CallStatus
  failed : (reason : String) (tx_hash : Option String) → CallStatus
  pending : CallStatus

-- `code >= 300`.
unfoldable pub is_revert : Option ℕ → Bool
is_revert none = false
is_revert (some code) = leb 300 code

unfoldable pub hash_of : Option SponsorReceipt → Option String
hash_of none = none
hash_of (some receipt) = receipt.transaction_hash

unfoldable pub status_of : Option SponsorReceipt → Option String
status_of none = none
status_of (some receipt) = receipt.status

-- A success without a hash is asked for again.
unfoldable pub confirmed_with : Option String → CallStatus
confirmed_with none = pending
confirmed_with (some tx_hash) = confirmed tx_hash

unfoldable pub by_status : (status tx_hash : Option String) → CallStatus
unfolding confirmed_with
by_status none tx_hash = pending
by_status (some status) tx_hash =
    if same_text status "0x1"
    then confirmed_with tx_hash
    else if same_text status "0x0"
    then failed "Transaction reverted" tx_hash
    else pending

unfoldable pub classify_receipt_status :
    Option SponsorReceipt → (tx_hash : Option String) → CallStatus
unfolding by_status status_of
classify_receipt_status first_receipt tx_hash = by_status (status_of first_receipt) tx_hash

unfoldable pub classify_calls_status : CallsStatus → CallStatus
unfolding is_revert hash_of classify_receipt_status
classify_calls_status raw =
    if is_revert raw.status
    then failed "Sponsored call failed" (hash_of raw.first_receipt)
    else classify_receipt_status raw.first_receipt (hash_of raw.first_receipt)

unfoldable pub or_timeout : Option BoltzError → BoltzError
or_timeout none = evm "wallet_getCallsStatus timed out" none
or_timeout (some e) = e

-- What a status leads to, `rest` being the polls that are left after it.
unfoldable pub on_status : CallStatus → (rest : Result String) → Result String
on_status (confirmed tx_hash) rest = ok tx_hash
on_status (failed reason tx_hash) rest = err (evm reason tx_hash)
on_status pending rest = rest

-- What an answer leads to; `rest` is told the error of this attempt.
unfoldable pub on_answer :
    Result CallsStatus → (rest : Option BoltzError → Result String) → Result String
unfolding on_status classify_calls_status
on_answer (ok raw) rest = on_status (classify_calls_status raw) (rest none)
on_answer (err e) rest = rest (some e)

abbrev pub max_poll_attempts : ℕ
max_poll_attempts = 60

-- `answer` is what `wallet_getCallsStatus` gives, by the number of the attempt.
module _ (answer : ℕ → Result CallsStatus) where
  -- The polls, by how many are left.
  unfoldable pub poll_for : (left attempt : ℕ) (last_err : Option BoltzError) → Result String
  unfolding or_timeout on_answer
  poll_for zero attempt last_err = err (or_timeout last_err)
  poll_for (suc left) attempt last_err = on_answer (answer attempt) (poll_for left (suc attempt))

  unfoldable pub poll_call_status : Result String
  unfolding poll_for
  poll_call_status = poll_for max_poll_attempts 0 none
