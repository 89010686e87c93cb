-- ===== src/Claim/Build.antt =====
-- The parts that the claims of crates/lib/src/swap/reverse.rs share: the addresses, the quotes, the DEX
-- calls, the claim floor and the ERC20Swap signature.
use text.Mathlib.Text.{starts_with}
use boltz_client.Prelude.{
  ℕ, String, Bool, true, false, not, Option, none, some, List, [], ◌∷◌, ltb, ◌==◌, strip_0x,
  if◌then◌else◌,
}
use boltz_client.Config.{arbitrum_tbtc_address, u128_limit}
use boltz_client.Crates.{Crates, Address, Bytes32, Signature}
use boltz_client.Errors.{Result, ok, err, evm, generic, ◌>>=◌, ◌>>◌, ensure, ok_or}
use boltz_client.Models.{BoltzSwap}
use boltz_client.Models.Destinations.{
  DestinationRegistry, Destination, NetworkTransport, solana, tron, Asset, find,
}
use boltz_client.Secrets.{EvmKeyPair}
use boltz_client.Outside.{QuoteCalldata}
use boltz_client.Calls.{Call, Erc20Claim}
use boltz_client.Signing.{EvmSigner, sign_eip712_erc20swap_claim}
use boltz_client.Contracts.{parse_address, parse_hex_bytes}
use boltz_client.Recipient.{encode_oft_recipient}
use boltz_client.Quotes.{ParsedQuote, pick_best_quote_with_data, quote_in, quote_out}
use boltz_client.Slippage.{check_quote_drift, compute_claim_floor}
use boltz_client.World.{Executor}
use boltz_client.World.Action.{M, pure, ◌>?>◌, ask}

-- `ReverseSwapExecutor::resolve_destination`.
unfoldable pub resolve_destination : DestinationRegistry → String → Asset → Result Destination
resolve_destination registry chain asset =
    ok_or (find registry chain asset) (generic "Unsupported destination")

pub record ClaimAddresses : Type 0 where
  pub erc20swap : Address
  pub router : Address
  pub tbtc : Address
  pub output_token_address : Address
  pub output_token : String
  pub refund : Address
  pub destination_evm : Option Address
  pub destination_bytes32 : Bytes32

unfoldable pub evm_destination : Crates → NetworkTransport → String → Result (Option Address)
evm_destination c NetworkTransport.evm addr = do address ← parse_address c addr; ok (some address)
evm_destination c solana addr = ok none
evm_destination c tron addr = ok none

-- `ClaimAddresses::parse`.
unfoldable pub claim_addresses : Crates → DestinationRegistry → BoltzSwap → Result ClaimAddresses
unfolding evm_destination
claim_addresses c registry swap = do
  dest ← ok_or (find registry swap.destination_chain swap.asset) (generic "Unknown destination")
  destination_bytes32 ← encode_oft_recipient c dest.transport swap.destination_address
  destination_evm ← evm_destination c dest.transport swap.destination_address
  erc20swap ← parse_address c swap.erc20swap_address
  router ← parse_address c swap.router_address
  tbtc ← parse_address c arbitrum_tbtc_address
  output_token_address ← parse_address c dest.dex_output_token
  refund ← parse_address c swap.refund_address
  ok (record {
    erc20swap = erc20swap;
    router = router;
    tbtc = tbtc;
    output_token_address = output_token_address;
    output_token = dest.dex_output_token;
    refund = refund;
    destination_evm = destination_evm;
    destination_bytes32 = destination_bytes32;
  })

-- What one claim attempt is given: the signer, the secrets, and the drift policy.
pub record ClaimInput : Type 0 where
  pub key : EvmKeyPair
  pub version : String
  pub preimage : Bytes32
  pub addrs : ClaimAddresses
  pub amount : ℕ
  pub skip_drift_check : Bool

parsed_u256 : Option ℕ → Result ℕ
parsed_u256 none = err (evm "Invalid U256 value" none)
parsed_u256 (some n) = ok n

unfoldable pub parse_u256 : Crates → String → Result ℕ
unfolding parsed_u256
parse_u256 c text =
    if starts_with text "0x"
    then parsed_u256 (c.parse_radix 16 (strip_0x text))
    else parsed_u256 (c.parse_radix 10 text)

unfoldable pub quote_calldata_to_call : Crates → QuoteCalldata → Result Call
unfolding parse_u256
quote_calldata_to_call c qc = do
  target ← parse_address c qc.target
  value ← parse_u256 c qc.value
  call_data ← parse_hex_bytes c qc.payload
  ok (record { target = target; value = value; call_data = call_data })

-- `map(quote_calldata_to_call).collect::<Result<Vec<_>, _>>()`.
unfoldable pub dex_calls : Crates → List QuoteCalldata → Result (List Call)
unfolding quote_calldata_to_call
dex_calls c [] = ok []
dex_calls c (qc ∷ qcs) = do
  call ← quote_calldata_to_call c qc
  calls ← dex_calls c qcs
  ok (call ∷ calls)

unfoldable pub amount_u128 : ℕ → Result ℕ
amount_u128 amount =
    if ltb amount u128_limit then ok amount else err (generic "tBTC amount too large")

-- The `EvmSigner` of the swap's chain, and the ERC20Swap signature that all three claims carry.
unfoldable pub gas_signer : BoltzSwap → ClaimInput → EvmSigner
gas_signer swap i = record { private_key = i.key.private_key; chain_id = swap.chain_id }

unfoldable pub erc20_signature : Crates → BoltzSwap → ClaimInput → Result Signature
unfolding gas_signer
erc20_signature c swap i =
    sign_eip712_erc20swap_claim c (gas_signer swap i) i.addrs.erc20swap i.version i.preimage
      i.amount i.addrs.tbtc i.addrs.refund swap.timeout_block_height i.addrs.router

unfoldable pub erc20_claim : BoltzSwap → ClaimInput → Signature → Erc20Claim
erc20_claim swap i signature = record {
  preimage = i.preimage;
  amount = i.amount;
  token_address = i.addrs.tbtc;
  refund_address = i.addrs.refund;
  timelock = swap.timeout_block_height;
  signature = signature;
}

-- The drift check, unless it is waived.
unfoldable pub drift_checked :
    BoltzSwap → (skip_drift_check : Bool) → (quote : ℕ) → Result (Unit {0})
drift_checked swap true quote = ok tt
drift_checked swap false quote =
    check_quote_drift swap.expected_output_amount quote swap.slippage_bps

-- The claim floor, which must not be zero.
unfoldable pub nonzero_floor :
    (reason : String) → BoltzSwap → (skip_drift_check : Bool) → (quote : ℕ) → Result ℕ
unfolding drift_checked
nonzero_floor reason swap skip_drift_check quote = do
  drift_checked swap skip_drift_check quote
  floor ← compute_claim_floor quote swap.expected_output_amount swap.slippage_bps skip_drift_check
  ensure (not (floor == 0)) (generic reason)
  ok floor

-- `get_quote_in` and `get_quote_out` on Arbitrum, with the best of the quotes.
unfoldable pub best_quote_in : Executor → (from to : String) → (amount : ℕ) → M (Result ParsedQuote)
best_quote_in x from to amount = ask (λ n. x.outside.get_quote_in n from to amount) >?> λ quotes.
    pure (pick_best_quote_with_data quotes quote_in)

unfoldable pub best_quote_out :
    Executor → (from to : String) → (amount : ℕ) → M (Result ParsedQuote)
best_quote_out x from to amount = ask (λ n. x.outside.get_quote_out n from to amount) >?> λ quotes.
    pure (pick_best_quote_with_data quotes quote_out)

-- `encode_quote`, with its calls turned into the router's.
unfoldable pub routed_calls :
    Executor
    → (recipient : Address) → (amount_in amount_out_min : ℕ) → (detail : String)
    → M (Result (List Call))
routed_calls x recipient amount_in amount_out_min detail =
    ask (λ n. x.outside.encode_quote n (record {
      recipient = recipient;
      amount_in = amount_in;
      amount_out_min = amount_out_min;
      detail = detail;
    }))
    >?> λ encoded. pure (dex_calls x.crates encoded)
