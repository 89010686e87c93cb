-- ===== src/Claim/Built.antt =====
-- The calls that the claims of crates/lib/src/swap/reverse.rs build, by the path that builds them.
use boltz_client.Prelude.{ℕ, ◌≡◌, some}
use boltz_client.Errors.{ok}
use boltz_client.Models.{BoltzSwap}
use boltz_client.Models.Destinations.{Destination, Bridge, Usdt0Kind, find}
use boltz_client.Calls.{ClaimCall}
use boltz_client.World.{Executor}
use boltz_client.World.Effects.{Said}
use boltz_client.Claim.Build.{ClaimInput}
use boltz_client.Claim.Direct.{same_chain_call}
use boltz_client.Claim.Cctp.{cctp_call}
use boltz_client.Claim.Oft.{oft_call}

pub data Built (x : Executor) (swap : BoltzSwap) (i : ClaimInput) (call : ClaimCall) : Type 0 where
  direct :
      (dest : Destination)
      → find x.registry swap.destination_chain swap.asset ≡ some dest
      → dest.bridge ≡ Bridge.direct
      → Said (same_chain_call x swap i) (ok call)
      → Built x swap i call
  oft :
      (dest : Destination) (mesh : Usdt0Kind) (lz_eid : ℕ)
      → find x.registry swap.destination_chain swap.asset ≡ some dest
      → dest.bridge ≡ Bridge.oft mesh lz_eid
      → Said (oft_call x swap i) (ok call)
      → Built x swap i call
  cctp :
      (dest : Destination) (domain : ℕ)
      → find x.registry swap.destination_chain swap.asset ≡ some dest
      → dest.bridge ≡ Bridge.cctp domain
      → Said (cctp_call x swap i domain dest.transport) (ok call)
      → Built x swap i call
