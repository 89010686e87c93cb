-- ===== src/LzOptions.antt =====
-- crates/lib/src/evm/lz_options.rs: the executor options of a LayerZero send, as bytes.
pub mod Layout
use boltz_client.Prelude.{
  ℕ, zero, suc, ◌/◌, ◌%◌, Bool, true, false, List, [], ◌∷◌, ◌++◌, if◌then◌else◌,
}
use boltz_client.Crates.{Bytes}

abbrev pub solana_ata_rent_exempt_lamports : ℕ
solana_ata_rent_exempt_lamports = 2_039_280

abbrev pub polygon_lz_receive_gas_bump : ℕ
polygon_lz_receive_gas_bump = 30_000

-- `to_be_bytes` of a number of `width` bytes.
unfoldable pub to_be_bytes : (width n : ℕ) → Bytes
to_be_bytes zero n = []
to_be_bytes (suc width) n = to_be_bytes width (n / 256) ++ (n % 256 ∷ [])

unfoldable pub append_lz_receive_option : Bytes → (gas value : ℕ) → Bytes
append_lz_receive_option out gas value =
    out ++ (1 ∷ (to_be_bytes 2 33 ++ (1 ∷ (to_be_bytes 16 gas ++ to_be_bytes 16 value))))

unfoldable pub append_options : Bytes → List (ℕ × ℕ) → Bytes
unfolding append_lz_receive_option
append_options out [] = out
append_options out ((gas, value) ∷ options) =
    append_options (append_lz_receive_option out gas value) options

-- The (gas, value) pairs, in order.
unfoldable pub wanted : (create_solana_ata polygon_gas_bump : Bool) → List (ℕ × ℕ)
wanted create_solana_ata polygon_gas_bump =
    (if create_solana_ata then (0, solana_ata_rent_exempt_lamports) ∷ [] else [])
    ++ (if polygon_gas_bump then (polygon_lz_receive_gas_bump, 0) ∷ [] else [])

unfoldable pub encoded : List (ℕ × ℕ) → Bytes
unfolding append_options
encoded [] = []
encoded (option ∷ options) = append_options (0x00 ∷ 0x03 ∷ []) (option ∷ options)

unfoldable pub build_extra_options : (create_solana_ata polygon_gas_bump : Bool) → Bytes
unfolding wanted encoded
build_extra_options create_solana_ata polygon_gas_bump =
    encoded (wanted create_solana_ata polygon_gas_bump)
