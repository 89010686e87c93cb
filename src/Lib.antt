-- ===== src/Lib.antt =====
-- A model of boltz-client, a library that turns Lightning sats into a stablecoin by a reverse swap:
-- Boltz locks tBTC on Arbitrum against a hold invoice, and the client claims it through a router that
-- sells it and sends the proceeds to their destination, at once or over a bridge. What matters is that
-- the preimage is not revealed while the lock does not hold, that a swap is not claimed twice, and that
-- its recorded status is true.
--
-- The parts, and the files that model them (paths below crates/lib/src unless said otherwise):
--   swap/manager.rs, the background manager, is Manager. Each handler runs under its swap's lock, so
--     it is one action on the world: Events has handle_ws_update and its branches; Status has
--     update_swap_status, the post-claim status and what a receipt delivers; Receipt, the receipt
--     checks; Retry, do_claim and the recovery of unfinished claims; Poll, the background pass;
--     Tracking, start_tracking and reconcile_tracking.
--   swap/reverse.rs, the executor, is Prepare (prepare, prepare_from_sats, with Prepare/Quote for the
--     DEX quotes and Prepare/Addresses for the destination), Create (create, create_probe_invoice and
--     the service's create_reverse_swap), Claim (claim_and_swap, its attempts, submit_claim), and the
--     calls of a claim: Claim/Build for what they share, Claim/Direct, Claim/Cctp and Claim/Oft for
--     try_claim_same_chain, try_claim_cctp and try_claim_cross_chain. OftQuotes has the quotes, options
--     and approval of an OFT, OftSearch estimate_oft_required_send_amount; Slippage, Quotes and Fees
--     are its arithmetic.
--   evm/contracts.rs is Contracts (decoding) and Calls (the arguments of a claim, and the two struct
--     hashes); evm/signing.rs is Signing; evm/lockup.rs is Lockup; evm/recipient.rs is Recipient;
--     solana/ata.rs is Ata; evm/cctp.rs is Cctp, BridgeFees and Bridges; evm/lz_scan.rs is Bridges;
--     evm/oft.rs is Registry, with the mesh arithmetic in BridgeFees.
--   evm/alchemy.rs is Sponsor: the poll of a sponsored call. The executor takes the poll's result, and the
--     submission, as answers of the outside.
--   keys.rs is Keys; secrets.rs is Secrets, with the two providers in Secrets/Providers.
--   swap/locks.rs is Locks, one swap's lock as a step relation of the tasks at it. The drop of a guard is
--     three steps: the prune, the unlock of the mutex, and the drop of its Arc.
--   evm/lz_options.rs is LzOptions.
--   models.rs is Models, error.rs is Errors, config.rs is Config. lib.rs is Service, with the listing of
--     destinations in Service/Destinations.
--   store.rs, events.rs and the subscriptions of api/ws.rs are World and World/Store. The store is the
--     embedder's: the model has the contract of its trait, and lets each of its calls fail.
--
-- State and effects. World holds the stored swaps, the emitted events, the tracked and the
-- subscribed ids, the recipients whose token account was seen, and what the gas sponsor was handed,
-- with the contract that each call goes to. The submission of a call is one answer of the outside:
-- without a call id it counts as refused, also when only its reply was lost. A function of the
-- source that waits or writes is an action World → A × World. All that the source calls and does not
-- implement (JSON-RPC, the DEX, Boltz's API, the gas sponsor, the bridge services, the embedder's
-- storage faults, random bytes, the clock) is the record Outside: each call gets the next number, so
-- two calls may be answered differently. Where the source reads JSON, the model starts from the
-- value that serde gives. Pure functions of third-party crates (hashes, base58, ABI coding, BIP-32,
-- BOLT11, signatures) are the record Crates. The manager and the executor use the record
-- SecretProvider, whose four operations Secrets/Providers fills in twice. Where a theorem says that
-- the outside said something, it says that some run of that very question gives that answer.
--
-- Bounds. Numbers are natural; each check for overflow of u64, u128 or U256 in the source is written
-- out. The loops over attempts count down what is left: 5 claim attempts and 10 lock checks in
-- claim_and_swap, 60 receipt polls, 256 bumps, 33 quotes while the search for an OFT amount doubles its
-- bound, as in the source, so no further fuel is needed. The halving of that search is recursion on the
-- accessibility of its range.
--
-- Not modelled: the ABI bytes of a claim (a call is the arguments of its encoder), timers, sleeps
-- and tasks, logging, HTTP, the decoding of JSON and the WebSocket connection, the download of the
-- deployments feed, the preparation and signing of sponsored calls, the command line and the build
-- macros. Creation writes a row under the id that Boltz gives, and is not among the commands of
-- Service/Commands.
--
-- How the proofs go. World/Effects has a rule for each way to build an action, and World/Writes the
-- invariant of a handler that writes one row. Manager/Rules is the interface between the recovery code
-- and what is claimed of the rows (used by Recovery and Resume), and Manager/Moves fills it in. The
-- calls of a claim pass through Claim/Built, which says of each way to build one what it was built of;
-- Claim/Floor, Claim/Destination and Claim/Signed have what each binds the router to, where it delivers,
-- and what is signed for it.
pub mod Prelude
pub mod Errors
pub mod Crates
pub mod Models
pub mod Secrets
pub mod Keys
pub mod Outside
pub mod World
pub mod Calls
pub mod Sponsor
pub mod Config
pub mod Contracts
pub mod Recipient
pub mod Signing
pub mod Slippage
pub mod Fees
pub mod BridgeFees
pub mod LzOptions
pub mod Quotes
pub mod Lockup
pub mod OftQuotes
pub mod OftSearch
pub mod Claim
pub mod Bridges
pub mod Ata
pub mod Cctp
pub mod Manager
pub mod Prepare
pub mod Create
pub mod Registry
pub mod Service
pub mod Locks
mod Tests
