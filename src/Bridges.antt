-- ===== src/Bridges.antt =====
-- Delivery status of the two bridges: Circle Iris (crates/lib/src/evm/cctp.rs) and LayerZero Scan
-- (crates/lib/src/evm/lz_scan.rs), with the queries of crates/lib/src/swap/reverse.rs.
pub mod Guid
use boltz_client.Prelude.{
  ℕ, String, Bool, true, false, ◌&&◌, Option, none, some, List, [], ◌∷◌, ltb, leb, ◌==◌, same_text,
  is_some, eq_ignore_ascii_case, from_str_radix, split_colon, if◌then◌else◌,
}
use boltz_client.Config.{u32_limit}
use boltz_client.Crates.{Crates}
use boltz_client.Errors.{Result, ok, err, generic}
use boltz_client.Outside.{Reply, unreachable, answered, CctpSnapshot}
use boltz_client.Contracts.Delivered.{decode_cctp_delivered_from_message}
use boltz_client.World.{Executor}
use boltz_client.World.Action.{M, pure, ◌>>=◌, ask}

pub record CctpMessageStatus : Type 0 where
  pub found : Bool
  pub status : Option String
  pub attestation : Option String
  pub forward_tx_hash : Option String
  pub message : Option String
  pub delivered_amount : Option ℕ
  pub forward_state : Option String
  pub forward_error_code : Option String

-- The derived `Default`.
abbrev pub cctp_default : CctpMessageStatus
cctp_default = record {
  found = false;
  status = none;
  attestation = none;
  forward_tx_hash = none;
  message = none;
  delivered_amount = none;
  forward_state = none;
  forward_error_code = none;
}

unfoldable pub is_forwarded : CctpMessageStatus → Bool
is_forwarded status = is_some status.forward_tx_hash

is_failed : Option String → Bool
is_failed none = false
is_failed (some state) = eq_ignore_ascii_case state "FAILED"

unfoldable pub forward_failed : CctpMessageStatus → Bool
unfolding is_failed
forward_failed status = is_failed status.forward_state

-- `cctp_completion_amount` of swap/manager.rs.
unfoldable pub cctp_completion_amount : CctpMessageStatus → Option ℕ
unfolding is_forwarded
cctp_completion_amount status = if is_forwarded status then status.delivered_amount else none

attested : Crates → Option String → Option ℕ
attested c none = none
attested c (some message) = decode_cctp_delivered_from_message c message

-- `CctpFeeClient::parse_message_status`, after the JSON.
unfoldable pub cctp_status_of : Crates → List CctpSnapshot → CctpMessageStatus
unfolding attested
cctp_status_of c [] = cctp_default
cctp_status_of c (msg ∷ rest) = record {
  found = true;
  status = msg.status;
  attestation = msg.attestation;
  forward_tx_hash = msg.forward_tx_hash;
  message = msg.message;
  delivered_amount = attested c msg.message;
  forward_state = msg.forward_state;
  forward_error_code = msg.forward_error_code;
}

-- `HttpResponse::is_success`.
unfoldable pub is_http_success : ℕ → Bool
is_http_success code = leb 200 code && ltb code 300

unfoldable pub parsed_body : {A B : Type 0} → (A → B) → Option A → Result B
parsed_body f none = err (generic "failed to parse response")
parsed_body f (some body) = ok (f body)

-- The reading of a reply that `get_message_status` has in both clients: 404 is not yet indexed.
unfoldable pub read_reply : {A B : Type 0} → B → (A → B) → Reply A → Result B
unfolding parsed_body is_http_success
read_reply missing f unreachable = err (generic "request failed")
read_reply missing f (answered code body) =
    if code == 404
    then ok missing
    else if is_http_success code
    then parsed_body f body
    else err (generic "HTTP error")

parsed_guid : Option ℕ → String → Result (ℕ × String)
parsed_guid none tx_hash = err (generic "Invalid CCTP source domain in guid")
parsed_guid (some domain) tx_hash = ok (domain, tx_hash)

split_guid : Option (String × String) → Result (ℕ × String)
unfolding parsed_guid
split_guid none = err (generic "Malformed CCTP guid")
split_guid (some (domain, tx_hash)) = parsed_guid (from_str_radix 10 u32_limit domain) tx_hash

-- The guid of a CCTP swap, taken apart.
unfoldable pub parse_guid : String → Result (ℕ × String)
unfolding split_guid
parse_guid guid = split_guid (split_colon guid)

unfoldable pub iris_status : Executor → Result (ℕ × String) → M (Result CctpMessageStatus)
iris_status x (err e) = pure (err e)
iris_status x (ok (domain, tx_hash)) = do
  reply ← ask (λ n. x.outside.iris_messages n domain tx_hash)
  pure (read_reply cctp_default (cctp_status_of x.crates) reply)

unfoldable pub cctp_delivery_status : Executor → (guid : String) → M (Result CctpMessageStatus)
unfolding iris_status
cctp_delivery_status x guid = iris_status x (parse_guid guid)

pub record LzMessageStatus : Type 0 where
  pub found : Bool
  pub status : Option String

abbrev pub lz_default : LzMessageStatus
lz_default = record { found = false; status = none }

is_text : Option String → String → Bool
is_text none text = false
is_text (some status) text = same_text status text

unfoldable pub is_delivered : LzMessageStatus → Bool
unfolding is_text
is_delivered status = is_text status.status "DELIVERED"

named : Option (Option String) → Option String
named none = none
named (some name) = name

-- `LzScanClient::parse_message_status`, after the JSON.
unfoldable pub lz_status_of : List (Option (Option String)) → LzMessageStatus
unfolding named
lz_status_of [] = lz_default
lz_status_of (msg ∷ rest) = record { found = true; status = named msg }

unfoldable pub oft_delivery_status : Executor → (guid : String) → M (Result LzMessageStatus)
oft_delivery_status x guid = do
  reply ← ask (λ n. x.outside.lz_messages n guid)
  pure (read_reply lz_default lz_status_of reply)
