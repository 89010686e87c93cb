-- ===== src/OftQuotes/Effects.antt =====
-- The quoting helpers of crates/lib/src/swap/reverse.rs neither write the store nor submit a claim.
use boltz_client.Prelude.{ℕ, String, Bool, true, false, refl}
use boltz_client.Crates.{Address}
use boltz_client.Models.Destinations.{NetworkTransport, evm, solana, tron, Destination}
use boltz_client.Calls.{OftSendParam}
use boltz_client.World.{Executor}
use boltz_client.World.Effects.{IsQuiet, IsQuiet-ask, quiet_rules}
use boltz_client.OftQuotes.{
  is_cached, cache_insert, options_if_exists, options_unless_cached, options_by_transport,
  compute_extra_options, quote_oft, quote_send, approval_if, build_oft_approval_call,
}

IsQuiet-is_cached : (destination : String) → IsQuiet (is_cached destination)
unfolding is_cached
IsQuiet-is_cached destination = record { rows = λ w. refl; sent = λ w. refl }

IsQuiet-cache_insert : (destination : String) → IsQuiet (cache_insert destination)
unfolding cache_insert
IsQuiet-cache_insert destination = record { rows = λ w. refl; sent = λ w. refl }

module _ (x : Executor) (destination : String) where
  IsQuiet-options_if_exists : (exists : Bool) → IsQuiet (options_if_exists x destination exists)
  unfolding options_if_exists
  IsQuiet-options_if_exists true = search (quiet_rules, IsQuiet-cache_insert) depth 16
  IsQuiet-options_if_exists false = search (quiet_rules) depth 16

  IsQuiet-options_unless_cached : (hit : Bool) → IsQuiet (options_unless_cached x destination hit)
  unfolding options_unless_cached
  IsQuiet-options_unless_cached true = search (quiet_rules) depth 16
  IsQuiet-options_unless_cached false = search (quiet_rules, IsQuiet-options_if_exists) depth 16

  IsQuiet-options_by_transport :
      (transport : NetworkTransport) (polygon_gas_bump : Bool)
      → IsQuiet (options_by_transport x destination transport polygon_gas_bump)
  unfolding options_by_transport
  IsQuiet-options_by_transport solana polygon_gas_bump =
      search (quiet_rules, IsQuiet-is_cached, IsQuiet-options_unless_cached) depth 16
  IsQuiet-options_by_transport evm polygon_gas_bump = search (quiet_rules) depth 16
  IsQuiet-options_by_transport tron polygon_gas_bump = search (quiet_rules) depth 16

pub IsQuiet-compute_extra_options :
    (x : Executor) (dest : Destination) (destination : String)
    → IsQuiet (compute_extra_options x dest destination)
unfolding compute_extra_options
IsQuiet-compute_extra_options x dest destination =
    IsQuiet-options_by_transport x destination dest.transport _

module _ (x : Executor) where
  pub IsQuiet-quote_oft :
      (oft_address : String) (send_param : OftSendParam)
      → IsQuiet (quote_oft x oft_address send_param)
  unfolding quote_oft
  IsQuiet-quote_oft oft_address send_param = search (quiet_rules) depth 16

  pub IsQuiet-quote_send :
      (oft_address : String) (send_param : OftSendParam)
      → IsQuiet (quote_send x oft_address send_param)
  unfolding quote_send
  IsQuiet-quote_send oft_address send_param = IsQuiet-ask _

  module _ (router oft token : Address) (amount : ℕ) where
    IsQuiet-approval_if :
        (required : Bool) → IsQuiet (approval_if x router oft token amount required)
    unfolding approval_if
    IsQuiet-approval_if true = search (quiet_rules) depth 16
    IsQuiet-approval_if false = search (quiet_rules) depth 16

    pub IsQuiet-build_oft_approval_call :
        IsQuiet (build_oft_approval_call x router oft token amount)
    unfolding build_oft_approval_call
    IsQuiet-build_oft_approval_call = search (quiet_rules, IsQuiet-approval_if) depth 16

pub ruleset quote_rules = (
  quiet_rules, IsQuiet-compute_extra_options, IsQuiet-quote_oft, IsQuiet-quote_send,
  IsQuiet-build_oft_approval_call,
)
