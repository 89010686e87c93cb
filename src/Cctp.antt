-- ===== src/Cctp.antt =====
-- Recipients, forwarding hooks and the fee quote of crates/lib/src/evm/cctp.rs. A text is its code
-- points; `width` gives the bytes of one in UTF-8, which is what `str::len` counts.
use boltz_client.Prelude.{
  ℕ, ◌+◌, ◌-◌, ◌*◌, ◌^◌, String, Bool, true, false, Option, none, some, List, [], ◌∷◌, ◌++◌, length,
  take, replicate, codes, ltb, ◌==◌, digits_from, if◌then◌else◌,
}
use boltz_client.Config.{u128_limit, cctp_finality_fast, solana_usdc_mint, cctp_fee_scale_digits}
use boltz_client.Errors.{Result, ok, err, generic, ◌>>=◌, ◌>>◌, ensure, ok_or}
use boltz_client.Crates.{Crates, Bytes, Bytes32}
use boltz_client.Models.Destinations.{NetworkTransport, evm, solana, tron}
use boltz_client.Contracts.{parse_address, address_to_bytes32}
use boltz_client.BridgeFees.{CctpFee}
use boltz_client.Ata.{derive_ata}
use boltz_client.Bridges.{is_http_success}
use boltz_client.Outside.{
  JsonValue, text, number, other, CctpFeeEntry, Reply, unreachable, answered,
}

-- `decode_solana_pubkey`, here and in swap/reverse.rs.
unfoldable pub decode_solana_pubkey : Crates → String → Result Bytes32
decode_solana_pubkey c s = do
  decoded ← ok_or (c.bs58_decode s) (generic "Invalid Solana pubkey")
  ensure (length decoded == 32) (generic "Solana pubkey must decode to 32 bytes")
  ok decoded

unfoldable pub evm_mint_recipient : Crates → String → Result Bytes32
evm_mint_recipient c address = do parsed ← parse_address c address; ok (address_to_bytes32 parsed)

unfoldable pub solana_mint_recipient : Crates → String → Result Bytes32
unfolding decode_solana_pubkey
solana_mint_recipient c recipient_wallet = do
  owner ← decode_solana_pubkey c recipient_wallet
  mint ← decode_solana_pubkey c solana_usdc_mint
  derive_ata c owner mint

unfoldable pub evm_forward_hook_data : Bytes
evm_forward_hook_data = codes "cctp-forward" ++ replicate 20 0

abbrev pub solana_forward_prefix_len : ℕ
solana_forward_prefix_len = 28

unfoldable pub solana_forward_hook_data : Crates → String → Result Bytes
unfolding decode_solana_pubkey evm_forward_hook_data
solana_forward_hook_data c recipient_wallet = do
  wallet ← decode_solana_pubkey c recipient_wallet
  ok (take solana_forward_prefix_len evm_forward_hook_data ++ (0 ∷ 0 ∷ 0 ∷ 0x21 ∷ 0x01 ∷ wallet))

-- `cctp_forward_hook` of swap/reverse.rs.
unfoldable pub cctp_forward_hook :
    Crates → (destination : String) → (needs_recipient_setup : Bool) → Result Bytes
unfolding solana_forward_hook_data
cctp_forward_hook c destination true = solana_forward_hook_data c destination
cctp_forward_hook c destination false = ok evm_forward_hook_data

-- The `mint_recipient` of a claim, by the destination's transport.
unfoldable pub mint_recipient : Crates → NetworkTransport → String → Result Bytes32
unfolding evm_mint_recipient solana_mint_recipient
mint_recipient c evm destination = evm_mint_recipient c destination
mint_recipient c solana destination = solana_mint_recipient c destination
mint_recipient c tron destination = err (generic "CCTP does not support Tron destinations")

unfoldable pub width : ℕ → ℕ
width c = if ltb c 0x80 then 1 else if ltb c 0x800 then 2 else if ltb c 0x10000 then 3 else 4

unfoldable pub byte_length : List ℕ → ℕ
unfolding width
byte_length [] = 0
byte_length (c ∷ cs) = width c + byte_length cs

-- `s.get(..n)` for an `n` of at most the length, or nothing if `n` is inside a character.
unfoldable pub prefix_bytes : (n : ℕ) → List ℕ → Option (List ℕ)
unfolding width
prefix_bytes n [] = some []
prefix_bytes n (c ∷ cs) =
    let rest = prefix_bytes (n - width c) cs in
    if n == 0
    then some []
    else if ltb n (width c)
    then none
    else elim rest [ some front ↦ some (c ∷ front) | none ↦ none ]

or_empty : Option (List ℕ) → List ℕ
or_empty none = []
or_empty (some cs) = cs

-- `split_once('.')`; without a point the second part is empty.
unfoldable pub split_point : List ℕ → List ℕ × List ℕ
split_point [] = ([], [])
split_point (c ∷ cs) =
    let rest = split_point cs in if c == b'.' then ([], cs) else (c ∷ rest.0, rest.1)

-- `d.parse::<u128>()`, which takes a leading `+` if a digit follows.
unfoldable pub parse_u128 : List ℕ → Option ℕ
parse_u128 [] = none
parse_u128 (c ∷ []) = digits_from 10 u128_limit 0 (c ∷ [])
parse_u128 (c ∷ d ∷ cs) =
    if c == b'+'
    then digits_from 10 u128_limit 0 (d ∷ cs)
    else digits_from 10 u128_limit 0 (c ∷ d ∷ cs)

unfoldable pub parse_digits : List ℕ → Result ℕ
unfolding parse_u128
parse_digits [] = ok 0
parse_digits (c ∷ cs) = ok_or (parse_u128 (c ∷ cs)) (generic "invalid CCTP fee number")

-- The fraction, cut or padded with zeros to `scale` bytes.
unfoldable pub scaled_fraction : (scale : ℕ) → List ℕ → List ℕ
unfolding or_empty prefix_bytes byte_length
scaled_fraction scale frac_part =
    let cut = if ltb scale (byte_length frac_part) then scale else byte_length frac_part in
    let frac = or_empty (prefix_bytes cut frac_part) in
    frac ++ replicate (scale - byte_length frac) b'0'

checked_u128 : ℕ → Result ℕ
checked_u128 n = if ltb n u128_limit then ok n else err (generic "CCTP fee overflow")

unfoldable pub scaled_of : List ℕ → (scale_digits : ℕ) → Result ℕ
unfolding split_point parse_digits scaled_fraction checked_u128
scaled_of s scale_digits = do
  let parts = split_point s
  whole ← parse_digits parts.0
  int_scaled ← checked_u128 (whole * 10 ^ scale_digits)
  frac_scaled ← parse_digits (scaled_fraction scale_digits parts.1)
  checked_u128 (int_scaled + frac_scaled)

unfoldable pub parse_scaled : JsonValue → (scale_digits : ℕ) → Result ℕ
unfolding scaled_of
parse_scaled (text s) scale_digits = scaled_of (codes s) scale_digits
parse_scaled (number s) scale_digits = scaled_of (codes s) scale_digits
parse_scaled other scale_digits = err (generic "invalid CCTP fee value")

unfoldable pub find_entry : (finality_threshold : ℕ) → List CctpFeeEntry → Option CctpFeeEntry
find_entry finality_threshold [] = none
find_entry finality_threshold (e ∷ entries) =
    if e.finality_threshold == finality_threshold
    then some e
    else find_entry finality_threshold entries

-- `parse_fee_response`, after the JSON.
unfoldable pub fee_of_entries : List CctpFeeEntry → (finality_threshold : ℕ) → Result CctpFee
unfolding find_entry parse_scaled
fee_of_entries entries finality_threshold = do
  entry ←
      ok_or (find_entry finality_threshold entries)
        (generic "missing CCTP fee for finality threshold")
  bps_units ← parse_scaled entry.minimum_fee cctp_fee_scale_digits
  value ← ok_or entry.forward_fee (generic "missing CCTP forward fee for finality threshold")
  forward_fee ← parse_scaled value 0
  ok (record { bps_units = bps_units; forward_fee = forward_fee })

parsed_fee : Option (List CctpFeeEntry) → Result CctpFee
unfolding fee_of_entries
parsed_fee none = err (generic "failed to parse CCTP fee response")
parsed_fee (some entries) = fee_of_entries entries cctp_finality_fast

-- `get_fee`, by the answer to its request.
unfoldable pub fee_of_reply : Reply (List CctpFeeEntry) → Result CctpFee
unfolding parsed_fee
fee_of_reply unreachable = err (generic "CCTP fee request failed")
fee_of_reply (answered code body) =
    if is_http_success code then parsed_fee body else err (generic "CCTP fee HTTP error")
