-- ===== src/Quotes/Best.antt =====
-- `pick_best_quote_with_data` of crates/lib/src/swap/reverse.rs against what a best quote is.
use boltz_client.Prelude.{
  ℕ, ◌≤◌, ◌≡◌, refl, sym, ap, subst, true, false, Bool-cases, some, List, [], ◌∷◌, All, Any, ◌⊎◌,
  inl, inr, arith, from_str_radix,
}
use boltz_client.Config.{u128_limit}
use boltz_client.Errors.{ok, >>=-eq-ok}
use boltz_client.Outside.{QuoteResponse}
use boltz_client.Quotes.{
  QuoteDirection, quote_in, quote_out, ParsedQuote, is_better, pick_from, pick_best_quote_with_data,
  parsed_amount,
}

-- A swap pays out `n` when it sells, and asks for `n` when it buys.
abbrev pub AtLeastAsGood : QuoteDirection → ℕ → ℕ → Type 0
AtLeastAsGood quote_in best n = n ≤ best
AtLeastAsGood quote_out best n = best ≤ n

-- The response says the amount `n`.
abbrev pub Quotes : QuoteResponse → ℕ → Type 0
Quotes q n = from_str_radix 10 u128_limit q.quote ≡ some n

pub record IsBest (direction : QuoteDirection) (quotes : List QuoteResponse) (best : ParsedQuote)
    : Type 0 where
  pub beats : All (λ q. (n : ℕ) × Quotes q n × AtLeastAsGood direction best.amount n) quotes
  pub offered : Any (λ q. Quotes q best.amount × (q.detail ≡ best.detail)) quotes

AtLeastAsGood-trans :
    (d : QuoteDirection) (a b c : ℕ)
    → AtLeastAsGood d a b
    → AtLeastAsGood d b c
    → AtLeastAsGood d a c
AtLeastAsGood-trans quote_in a b c p q = omega arith
AtLeastAsGood-trans quote_out a b c p q = omega arith

AtLeastAsGood-refl : (d : QuoteDirection) (a : ℕ) → AtLeastAsGood d a a
AtLeastAsGood-refl quote_in a = omega arith
AtLeastAsGood-refl quote_out a = omega arith

AtLeastAsGood-worse :
    (d : QuoteDirection) (a : ℕ) (b : ParsedQuote)
    → is_better d a (some b) ≡ false
    → AtLeastAsGood d b.amount a
unfolding is_better
AtLeastAsGood-worse quote_in a b h = ground arith
AtLeastAsGood-worse quote_out a b h = ground arith

AtLeastAsGood-better :
    (d : QuoteDirection) (a : ℕ) (b : ParsedQuote)
    → is_better d a (some b) ≡ true
    → AtLeastAsGood d a b.amount
unfolding is_better
AtLeastAsGood-better quote_in a b h = ground arith
AtLeastAsGood-better quote_out a b h = ground arith

parsed_amount-Quotes : (q : QuoteResponse) {n : ℕ} → parsed_amount q ≡ ok n → Quotes q n
unfolding parsed_amount
parsed_amount-Quotes q h = ground arith

-- The loop's answer is as good as the best so far, and is it or one of the rest.
record Kept (d : QuoteDirection) (start : ParsedQuote) (quotes : List QuoteResponse)
    (best : ParsedQuote) : Type 0 where
  pub start_beaten : AtLeastAsGood d best.amount start.amount
  pub beats : All (λ q. (n : ℕ) × Quotes q n × AtLeastAsGood d best.amount n) quotes
  pub offered : (best ≡ start) ⊎ Any (λ q. Quotes q best.amount × (q.detail ≡ best.detail)) quotes

Kept-better :
    (d : QuoteDirection) (start : ParsedQuote) (q : QuoteResponse) (quotes : List QuoteResponse)
    (n : ℕ) {best : ParsedQuote}
    → Quotes q n
    → is_better d n (some start) ≡ true
    → Kept d (record { amount = n; detail = q.detail }) quotes best
    → Kept d start (q ∷ quotes) best
Kept-better d start q quotes n {best} e better k = record {
  start_beaten =
      AtLeastAsGood-trans d best.amount n start.amount k.start_beaten
        (AtLeastAsGood-better d n start better);
  beats = ((n, e, k.start_beaten), k.beats);
  offered = inr (elim k.offered [
    | inl same ↦ inl (rw same e, ap ParsedQuote.detail (sym same))
    | inr later ↦ inr later
  ]);
}

Kept-worse :
    (d : QuoteDirection) (start : ParsedQuote) (q : QuoteResponse) (quotes : List QuoteResponse)
    (n : ℕ) {best : ParsedQuote}
    → Quotes q n
    → is_better d n (some start) ≡ false
    → Kept d start quotes best
    → Kept d start (q ∷ quotes) best
Kept-worse d start q quotes n {best} e worse k = record {
  start_beaten = k.start_beaten;
  beats = (
    (
      n,
      e,
      AtLeastAsGood-trans d best.amount start.amount n k.start_beaten
          (AtLeastAsGood-worse d n start worse),
    ),
    k.beats,
  );
  offered = elim k.offered [ inl same ↦ inl same | inr later ↦ inr (inr later) ];
}

pick_from-Kept :
    (d : QuoteDirection) (start : ParsedQuote) (quotes : List QuoteResponse) {best : ParsedQuote}
    → pick_from d (some start) quotes ≡ ok best
    → Kept d start quotes best
unfolding pick_from
pick_from-Kept d start [] {best} h =
    let e : start ≡ best = cc in
    subst (Kept d start []) e
      (record { start_beaten = AtLeastAsGood-refl d start.amount; beats = tt; offered = inl refl })
pick_from-Kept d start (q ∷ quotes) {best} h =
    let (n, e, rest) = >>=-eq-ok (parsed_amount q) _ h in
    elim (Bool-cases (is_better d n (some start))) [
      | inl better ↦
          Kept-better d start q quotes n (parsed_amount-Quotes q e) better
            (pick_from-Kept d (record { amount = n; detail = q.detail }) quotes (rw better at rest))
      | inr worse ↦
          Kept-worse d start q quotes n (parsed_amount-Quotes q e) worse
            (pick_from-Kept d start quotes (rw worse at rest))
    ]

-- A quote that is picked is at least as good as every quote in the list, all of which have a proper
-- amount, and it is one of them, with its route data.
pub pick_best_quote_with_data-IsBest :
    (quotes : List QuoteResponse) (direction : QuoteDirection) {best : ParsedQuote}
    → pick_best_quote_with_data quotes direction ≡ ok best
    → IsBest direction quotes best
unfolding pick_best_quote_with_data pick_from is_better
pick_best_quote_with_data-IsBest [] d h = cc
pick_best_quote_with_data-IsBest (q ∷ quotes) d h =
    let (n, e, rest) = >>=-eq-ok (parsed_amount q) _ h in
    let k = pick_from-Kept d (record { amount = n; detail = q.detail }) quotes rest in
    record {
      beats = ((n, parsed_amount-Quotes q e, k.start_beaten), k.beats);
      offered = elim k.offered [
        | inl same ↦ inl (rw same (parsed_amount-Quotes q e), ap ParsedQuote.detail (sym same))
        | inr later ↦ inr later
      ];
    }
