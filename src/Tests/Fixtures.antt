-- ===== src/Tests/Fixtures.antt =====
-- A small world for the tests: one swap, a lock that holds, and services that answer.
use boltz_client.Prelude.{ℕ, ◌+◌, true, false, none, some, List, [], ◌∷◌, replicate, length}
use boltz_client.Errors.{ok}
use boltz_client.Crates.{Crates}
use boltz_client.Models.{BoltzSwap, derived}
use boltz_client.Models.Lifecycle.{Status}
use boltz_client.Models.Destinations.{BridgeKind, Bridge, usdt, evm, DestinationRegistry}
use boltz_client.Outside.{Outside, TxReceipt, unreachable, answered, number, text}
use boltz_client.Secrets.{SecretProvider}
use boltz_client.World.{World, Executor}

abbrev pub zeros : ℕ → List ℕ
zeros n = replicate n 0

abbrev pub crates : Crates
crates = record {
  to_lowercase = λ t. t;
  trim = λ t. t;
  hex_decode = λ t. some (zeros 20);
  hex_encode = λ b. "00";
  bs58_decode = λ t. some (zeros 32);
  bs58_encode = λ b. "1";
  sha256 = λ b. b;
  decompresses = λ b. false;
  parse_radix = λ radix t. some 0;
  topics = record { transfer = "t"; oft_sent = "o"; message_sent = "m"; claim = "c"; refund = "r" };
  abi_u256 = λ b. some 7;
  abi_bytes = λ b. some b;
  abi_oft_sent = λ b. some (1, 7, 7);
  abi_encode = λ words. zeros (length words);
  child_number = λ n. some n;
  derive_child = λ key n. some (n ∷ key);
  key_bytes = λ key. key;
  is_signing_key = λ key. true;
  sec1_bytes = λ key. 2 ∷ key;
  uncompressed_point = λ key. 4 ∷ key;
  bolt11 = λ invoice. some (some 100_300_000);
  keccak256 = λ b. b;
  encode_approve = λ spender amount. spender;
  sign_typed_data = λ key message domain. some (record { odd = false; r = zeros 32; s = zeros 32 });
}

abbrev pub receipt : TxReceipt
receipt = record {
  transaction_hash = "0xclaim";
  status = some "0x1";
  block_hash = "0xb";
  block_number = "0x10";
  gas_used = "0x5208";
  logs = [];
}

abbrev pub outside : Outside
outside = record {
  unix_time = λ n. 1000 + n;
  random_bytes = λ n. some (zeros 32);
  upsert_fault = λ n. none;
  get_fault = λ n. none;
  list_fault = λ n. none;
  subscribe_fault = λ n. none;
  hash_values = λ n address event. ok (zeros 32);
  swaps = λ n address hash. ok true;
  erc20swap_version = λ n address. ok "5";
  eth_get_logs = λ n address topic preimage lo hi. ok [];
  eth_get_transaction_receipt = λ n tx. ok (some receipt);
  eth_block_number = λ n. ok 100;
  eth_l1_block_number = λ n. ok 100;
  get_reverse_swap_pairs = λ n. ok (λ from. some (λ to. some (record {
    hash = "pair";
    limits = record { minimal = 1000; maximal = 1_000_000 };
    fees = record { claim = 10; lockup = 20; percentage_bps = ok 25 };
  })));
  create_reverse_swap = λ n request. ok (record {
    id = "swap1";
    invoice = "lnbc1";
    lockup_address = "0xswap";
    timeout_block_height = 400;
    onchain_amount = 100_100;
    refund_address = some "0xboltz";
  });
  get_quote_in = λ n from to amount. ok (record { quote = "995"; detail = "route" } ∷ []);
  get_quote_out =
      λ n from to amount. ok (record { quote = "1000000000000000"; detail = "fee" } ∷ []);
  encode_quote = λ n request. ok [];
  submit_calls = λ n router call chain key. ok "call-1";
  poll_call_status = λ n call_id. ok "0xclaim";
  iris_messages = λ n domain tx. unreachable;
  lz_messages = λ n guid. answered 200 (some (some (some "DELIVERED") ∷ []));
  account_exists = λ n key. ok true;
  quote_oft = λ n oft param. ok (
    record { min_amount_ld = 0; max_amount_ld = 10_000 },
    record { amount_sent_ld = param.amount_ld; amount_received_ld = param.amount_ld },
  );
  quote_send = λ n oft param. ok (record { native_fee = 5; lz_token_fee = 0 });
  approval_required = λ n oft. ok true;
  allowance = λ n token owner spender. ok 0;
  typehash_send_data = λ n router. ok (zeros 32);
  typehash_cctp_data = λ n router. ok (zeros 32);
  iris_fees = λ n source destination setup. answered 200 (
      some (
        record {
          finality_threshold = 1000;
          minimum_fee = number "1.3";
          forward_fee = some (text "2");
        }
        ∷ []));
}

abbrev pub secrets : SecretProvider
secrets = record {
  issue = λ n chain_id. ok (record {
    key_source = derived n;
    preimage_hash = zeros 32;
    claim_public_key = zeros 33;
    claim_address = "0xclaimer";
  });
  preimage = λ s. ok (zeros 32);
  preimage_hash = λ s. ok (zeros 32);
  gas_key_pair =
      λ s. ok (record { private_key = zeros 32; public_key = zeros 33; address = zeros 20 });
}

abbrev pub registry : DestinationRegistry
registry = record {
  source_chain_label = "Arbitrum One";
  source_evm_chain_id = 42161;
  source_native_oft = none;
  source_legacy_oft = none;
  destinations =
      record {
        chain_label = "Arbitrum One";
        asset = usdt;
        transport = evm;
        evm_chain_id = some 42161;
        dex_output_token = "0xusdt";
        dest_token_address = none;
        bridge = Bridge.direct;
      }
      ∷ [];
}

abbrev pub executor : Executor
executor = record {
  outside = outside;
  crates = crates;
  secrets = secrets;
  registry = registry;
  config = record { chain_id = 42161; referral_id = "breez"; slippage_bps = 100 };
  erc20swap_address = "0xswap";
}

abbrev pub swap_in : Status → BridgeKind → BoltzSwap
swap_in status kind = record {
  id = "swap1";
  status = status;
  bridge_kind = kind;
  key_source = derived 3;
  chain_id = 42161;
  claim_address = "0xclaimer";
  destination_address = "0xuser";
  destination_chain = "Arbitrum One";
  asset = usdt;
  refund_address = "0xboltz";
  erc20swap_address = "0xswap";
  router_address = "0xrouter";
  invoice = "lnbc1";
  invoice_amount_sats = 100300;
  onchain_amount = 100000;
  expected_output_amount = 1000;
  slippage_bps = 100;
  timeout_block_height = 400;
  lockup_tx_id = none;
  claim_tx_hash = none;
  pending_call_id = none;
  delivered_amount = none;
  bridge_ref = some "guid";
  created_at = 900;
  updated_at = 900;
}

abbrev pub world_of : BoltzSwap → World
world_of swap = record {
  rows = swap ∷ [];
  events = [];
  ata_cache = [];
  tracked = "swap1" ∷ [];
  subscribed = "swap1" ∷ [];
  sent = [];
  calls = 0;
}
