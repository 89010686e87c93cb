-- ===== src/Registry/CctpTable.antt =====
-- The USDC destinations of crates/lib/src/models.rs.
use boltz_client.Prelude.{ℕ, String, Option, none, some, List, [], ◌∷◌}
use boltz_client.Models.Destinations.{NetworkTransport, evm, solana}

pub record CctpDestination : Type 0 where
  pub chain_label : String
  pub transport : NetworkTransport
  pub evm_chain_id : Option ℕ
  pub domain : ℕ
  pub token_address : String

on_evm :
    (chain_label : String) → (evm_chain_id domain : ℕ) → (token_address : String) → CctpDestination
on_evm chain_label evm_chain_id domain token_address = record {
  chain_label = chain_label;
  transport = evm;
  evm_chain_id = some evm_chain_id;
  domain = domain;
  token_address = token_address;
}

unfoldable pub cctp_destinations : List CctpDestination
unfolding on_evm
cctp_destinations =
    on_evm "Base" 8453 6 "0x833589fCD6eDb6E08f4c7C32D4f71b54bdA02913"
    ∷ on_evm "Ethereum" 1 0 "0xA0b86991c6218b36c1d19D4a2e9Eb0cE3606eB48"
    ∷ on_evm "Avalanche" 43114 1 "0xB97EF9Ef8734C71904D8002F8b6Bc66Dd9c48a6E"
    ∷ on_evm "Optimism" 10 2 "0x0b2C639c533813f4Aa9D7837CAf62653d097Ff85"
    ∷ on_evm "Polygon PoS" 137 7 "0x3c499c542cEF5E3811e1192ce70d8cC03d5c3359"
    ∷ on_evm "Unichain" 130 10 "0x078D782b760474a361dDA0AF3839290b0EF57AD6"
    ∷ on_evm "Linea" 59144 11 "0x176211869cA2b568f2A7D4EE941E073a821EE1ff"
    ∷ on_evm "Codex" 81224 12 "0xd996633a415985DBd7D6D12f4A4343E31f5037cf"
    ∷ on_evm "Sonic" 146 13 "0x29219dd400f2Bf60E5a23d13be72b486d4038894"
    ∷ on_evm "World Chain" 480 14 "0x79A02482A880bCe3F13E09da970dC34dB4cD24D1"
    ∷ on_evm "Monad" 143 15 "0x754704Bc059F8C67012fEd69BC8A327a5aafb603"
    ∷ on_evm "Sei" 1329 16 "0xe15fC38F6D8c56aF07bbCBe3BAf5708A2Bf42392"
    ∷ on_evm "XDC" 50 18 "0xfA2958CB79b0491CC627c1557F441eF849Ca8eb1"
    ∷ on_evm "Ink" 57073 21 "0x2D270e6886d130D724215A266106e6832161EAEd"
    ∷ on_evm "Plume" 98866 22 "0x222365EF19F7947e5484218551B56bb3965Aa7aF"
    ∷ record {
      chain_label = "Solana";
      transport = solana;
      evm_chain_id = none;
      domain = 5;
      token_address = "EPjFWdd5AufqSSqeM2qN1xzybapC8G4wEGGkZwyTDt1v";
    }
    ∷ []
