-- ===== src/Quotes.antt =====
-- DEX quote selection of crates/lib/src/swap/reverse.rs.
pub mod Best
use boltz_client.Prelude.{
  ℕ, String, Bool, true, Option, none, some, List, [], ◌∷◌, ltb, from_str_radix, if◌then◌else◌,
}
use boltz_client.Config.{u128_limit}
use boltz_client.Errors.{Result, ok, err, api, ◌>>=◌}
use boltz_client.Outside.{QuoteResponse}

pub data QuoteDirection : Type 0 where
  quote_in quote_out : QuoteDirection

pub record ParsedQuote : Type 0 where
  pub amount : ℕ
  pub detail : String

unfoldable pub is_better : QuoteDirection → ℕ → Option ParsedQuote → Bool
is_better direction amount none = true
is_better quote_in amount (some best) = ltb best.amount amount
is_better quote_out amount (some best) = ltb amount best.amount

parsed_amount : QuoteResponse → Result ℕ
parsed_amount q = elim (from_str_radix 10 u128_limit q.quote) [
  | some amount ↦ ok amount
  | none ↦ err (api "Invalid quote amount" none)
]

-- The loop over the quotes, with the best one so far.
unfoldable pub pick_from :
    QuoteDirection → Option ParsedQuote → List QuoteResponse → Result ParsedQuote
unfolding is_better parsed_amount
pick_from direction none [] = err (api "No DEX quote returned" none)
pick_from direction (some best) [] = ok best
pick_from direction best (q ∷ quotes) = do
  amount ← parsed_amount q
  pick_from direction
      (if is_better direction amount best
        then some (record { amount = amount; detail = q.detail })
        else best)
      quotes

-- The check for no quotes at all gives what the empty loop gives.
unfoldable pub pick_best_quote_with_data : List QuoteResponse → QuoteDirection → Result ParsedQuote
unfolding pick_from
pick_best_quote_with_data quotes direction = pick_from direction none quotes

unfoldable pub pick_best_quote : List QuoteResponse → QuoteDirection → Result ℕ
unfolding pick_best_quote_with_data
pick_best_quote quotes direction = do
  best ← pick_best_quote_with_data quotes direction
  ok best.amount
