-- ===== src/Config.antt =====
-- Constants of crates/lib/src/config.rs.
use boltz_client.Prelude.{ℕ, String, ◌*◌, ◌^◌}

abbrev pub arbitrum_router_address : String
arbitrum_router_address = "0x182589d2A10384e12EE8C1Fe350F4dfba36C7b73"

abbrev pub arbitrum_tbtc_address : String
arbitrum_tbtc_address = "0x6c84a8f1c29108F47a79964b5Fe888D4f4D0dE40"

abbrev pub arbitrum_usdt_address : String
arbitrum_usdt_address = "0xFd086bC7CD5C481DCC9C85ebE478A1C0b69FCbb9"

abbrev pub cctp_message_transmitter_v2 : String
cctp_message_transmitter_v2 = "0x81D40F21F12A8F0E3252Bccb954D722d4c464B64"

abbrev pub solana_message_transmitter_v2 : String
solana_message_transmitter_v2 = "CCTPV2Sm4AdWt5296sk4P66VBZ7bEhcARwFaaS9YPbeC"

abbrev pub arbitrum_usdc_address : String
arbitrum_usdc_address = "0xaf88d065e77c8cC2239327C5EDb3A432268e5831"

abbrev pub arbitrum_usdt0_native_oft : String
arbitrum_usdt0_native_oft = "0x14E4A1B13bf7F943c8ff7C51fb60FA964A298D92"

abbrev pub arbitrum_usdt0_legacy_oft : String
arbitrum_usdt0_legacy_oft = "0x77652D5aba086137b595875263FC200182919B92"

abbrev pub cctp_token_messenger_v2 : String
cctp_token_messenger_v2 = "0x28b5a0e9C621a5BadaA536219b3a228C8168cf5d"

abbrev pub zero_address : String
zero_address = "0x0000000000000000000000000000000000000000"

abbrev pub solana_usdt0_mint : String
solana_usdt0_mint = "Es9vMFrzaCERmJfrF4H2FYD4KCoNkY11McCe8BenwNYB"

abbrev pub solana_usdc_mint : String
solana_usdc_mint = "EPjFWdd5AufqSSqeM2qN1xzybapC8G4wEGGkZwyTDt1v"

abbrev pub polygon_evm_chain_id : ℕ
polygon_evm_chain_id = 137

abbrev pub arbitrum_chain_id : ℕ
arbitrum_chain_id = 42161

abbrev pub cctp_arbitrum_domain : ℕ
cctp_arbitrum_domain = 3

abbrev pub cctp_finality_fast : ℕ
cctp_finality_fast = 1000

abbrev pub cctp_fee_scale_digits : ℕ
cctp_fee_scale_digits = 9

abbrev pub max_slippage_bps : ℕ
max_slippage_bps = 500

abbrev pub min_timeout_l1_margin : ℕ
min_timeout_l1_margin = 60

abbrev pub sats_to_tbtc_factor : ℕ
sats_to_tbtc_factor = 10_000_000_000

abbrev pub cctp_max_fee_buffer_bps : ℕ
cctp_max_fee_buffer_bps = 2

abbrev pub cctp_fee_bps_denominator : ℕ
cctp_fee_bps_denominator = 10_000 * 1_000_000_000

-- One more than the largest value of the unsigned types.
abbrev pub u32_limit : ℕ
u32_limit = 2 ^ 32

abbrev pub u64_limit : ℕ
u64_limit = 2 ^ 64

abbrev pub u128_limit : ℕ
u128_limit = 2 ^ 128

abbrev pub u256_limit : ℕ
u256_limit = 2 ^ 256
