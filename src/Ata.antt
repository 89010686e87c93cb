-- ===== src/Ata.antt =====
-- crates/lib/src/solana/ata.rs: Solana's program derived addresses.
pub mod Search
use boltz_client.Prelude.{
  ℕ, zero, suc, Option, none, some, List, [], ◌∷◌, ◌++◌, codes, if◌then◌else◌,
}
use boltz_client.Errors.{Result, ok, err, generic}
use boltz_client.Crates.{Crates, Bytes, Bytes32}

abbrev pub spl_token_program_id : Bytes32
spl_token_program_id =
    0x06 ∷ 0xdd ∷ 0xf6 ∷ 0xe1 ∷ 0xd7 ∷ 0x65 ∷ 0xa1 ∷ 0x93 ∷ 0xd9 ∷ 0xcb ∷ 0xe1 ∷ 0x46 ∷ 0xce ∷ 0xeb
    ∷ 0x79 ∷ 0xac ∷ 0x1c ∷ 0xb4 ∷ 0x85 ∷ 0xed ∷ 0x5f ∷ 0x5b ∷ 0x37 ∷ 0x91 ∷ 0x3a ∷ 0x8c ∷ 0xf5
    ∷ 0x85 ∷ 0x7e ∷ 0xff ∷ 0x00 ∷ 0xa9 ∷ []

abbrev pub associated_token_program_id : Bytes32
associated_token_program_id =
    0x8c ∷ 0x97 ∷ 0x25 ∷ 0x8f ∷ 0x4e ∷ 0x24 ∷ 0x89 ∷ 0xf1 ∷ 0xbb ∷ 0x3d ∷ 0x10 ∷ 0x29 ∷ 0x14 ∷ 0x8e
    ∷ 0x0d ∷ 0x83 ∷ 0x0b ∷ 0x5a ∷ 0x13 ∷ 0x99 ∷ 0xda ∷ 0xff ∷ 0x10 ∷ 0x84 ∷ 0x04 ∷ 0x8e ∷ 0x7b
    ∷ 0xd8 ∷ 0xdb ∷ 0xe9 ∷ 0xf8 ∷ 0x59 ∷ []

abbrev pub pda_marker : Bytes
pda_marker = codes "ProgramDerivedAddress"

unfoldable pub concat : List Bytes → Bytes
concat [] = []
concat (seed ∷ seeds) = seed ++ concat seeds

-- The hash of one candidate.
unfoldable pub candidate : Crates → List Bytes → (bump : ℕ) → Bytes32 → Bytes32
unfolding concat
candidate c seeds bump program_id = c.sha256 (concat seeds ++ (bump ∷ (program_id ++ pda_marker)))

unfoldable pub create_program_address : Crates → List Bytes → (bump : ℕ) → Bytes32 → Option Bytes32
unfolding candidate
create_program_address c seeds bump program_id =
    let hash = candidate c seeds bump program_id in if c.decompresses hash then none else some hash

-- The loop over the bumps `left - 1` down to 0.
unfoldable pub search_bump : Crates → List Bytes → Bytes32 → (left : ℕ) → Result Bytes32
search_bump c seeds program_id zero =
    err (generic "Could not find a viable bump seed for Solana PDA")
search_bump c seeds program_id (suc left) =
    let rest = search_bump c seeds program_id left in
    elim (create_program_address c seeds left program_id) [ some hash ↦ ok hash | none ↦ rest ]

unfoldable pub find_program_address : Crates → List Bytes → Bytes32 → Result Bytes32
unfolding search_bump
find_program_address c seeds program_id = search_bump c seeds program_id 256

unfoldable pub derive_ata : Crates → (owner mint : Bytes32) → Result Bytes32
unfolding find_program_address
derive_ata c owner mint =
    find_program_address c (owner ∷ spl_token_program_id ∷ mint ∷ []) associated_token_program_id

unfoldable pub derive_used_nonce_pda :
    Crates → (nonce message_transmitter : Bytes32) → Result Bytes32
unfolding find_program_address
derive_used_nonce_pda c nonce message_transmitter =
    find_program_address c (codes "used_nonce" ∷ nonce ∷ []) message_transmitter
