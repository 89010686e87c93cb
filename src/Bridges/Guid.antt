-- ===== src/Bridges/Guid.antt =====
-- The key of a CCTP burn: written in crates/lib/src/swap/manager.rs, read in
-- crates/lib/src/swap/reverse.rs.
use Prim.Native.Char.{Char, code}
use Prim.Native.String.{◌++◌ as append_text}
use boltz_client.Prelude.{
  ℕ, zero, suc, String, ◌+◌, ◌*◌, ◌/◌, ◌%◌, ◌<◌, ◌≤◌, ◌^◌, ◌≡◌, refl, sym, ap, subst, ◌∙◌, some,
  List, [], ◌∷◌, ◌++◌, arith, map, All, Bool-cases, inl, inr, codes, decimal, decimal_onto,
  digit_text, digits_from, digit_value, from_str_radix, split_colon, ltb, ltb→lt, ltb→le,
}
use mathlib.Core.Path.{fun_ext}
use text.Mathlib.TextLemmas.{cons-append, nil-append, append_assoc}
use boltz_client.Config.{u32_limit}
use boltz_client.Errors.{ok}
use boltz_client.Bridges.{parse_guid}
use boltz_client.Manager.Status.{cctp_guid}

record DigitChar (d : ℕ) : Type 0 where
  pub char : Char
  pub coded : code char ≡ 48 + d
  pub front : (t : String) → append_text (digit_text d) t ≡ String.◌∷◌ char t

front_char : (c : Char) (t : String) → append_text (String.◌∷◌ c "") t ≡ String.◌∷◌ c t
front_char c t = cons-append c "" t ∙ ap (String.◌∷◌ c) (nil-append t)

digit_char : (d : ℕ) → d < 10 → DigitChar d
unfolding digit_text
digit_char zero h = record { char = "0"; coded = refl; front = front_char "0" }
digit_char (suc zero) h = record { char = "1"; coded = refl; front = front_char "1" }
digit_char (suc (suc zero)) h = record { char = "2"; coded = refl; front = front_char "2" }
digit_char (suc (suc (suc zero))) h = record { char = "3"; coded = refl; front = front_char "3" }
digit_char (suc (suc (suc (suc zero)))) h = record {
  char = "4";
  coded = refl;
  front = front_char "4";
}
digit_char (suc (suc (suc (suc (suc zero))))) h = record {
  char = "5";
  coded = refl;
  front = front_char "5";
}
digit_char (suc (suc (suc (suc (suc (suc zero)))))) h = record {
  char = "6";
  coded = refl;
  front = front_char "6";
}
digit_char (suc (suc (suc (suc (suc (suc (suc zero))))))) h = record {
  char = "7";
  coded = refl;
  front = front_char "7";
}
digit_char (suc (suc (suc (suc (suc (suc (suc (suc zero)))))))) h = record {
  char = "8";
  coded = refl;
  front = front_char "8";
}
digit_char (suc (suc (suc (suc (suc (suc (suc (suc (suc zero))))))))) h = record {
  char = "9";
  coded = refl;
  front = front_char "9";
}
digit_char (suc (suc (suc (suc (suc (suc (suc (suc (suc (suc n)))))))))) h = absurd (omega arith)

-- The text of a list of digits, in front of another text, and the number that the digits write.
abbrev text_of : List ℕ → String → String
text_of [] rest = rest
text_of (d ∷ ds) rest = append_text (digit_text d) (text_of ds rest)

abbrev value : ℕ → List ℕ → ℕ
value acc [] = acc
value acc (d ∷ ds) = value (acc * 10 + d) ds

abbrev AreDigits : List ℕ → Type 0
AreDigits = All (λ d. d < 10)

text_of-last :
    (ds : List ℕ) (d : ℕ) (rest : String)
    → text_of (ds ++ (d ∷ [])) rest ≡ text_of ds (append_text (digit_text d) rest)
text_of-last [] d rest = refl
text_of-last (e ∷ ds) d rest = ap (append_text (digit_text e)) (text_of-last ds d rest)

value-last : (acc : ℕ) (ds : List ℕ) (d : ℕ) → value acc (ds ++ (d ∷ [])) ≡ value acc ds * 10 + d
value-last acc [] d = refl
value-last acc (e ∷ ds) d = value-last (acc * 10 + e) ds d

AreDigits-last : (ds : List ℕ) (d : ℕ) → AreDigits ds → d < 10 → AreDigits (ds ++ (d ∷ []))
AreDigits-last [] d h l = (l, tt)
AreDigits-last (e ∷ ds) d h l = (h.0, AreDigits-last ds d h.1 l)

text_of-append :
    (ds : List ℕ) (s t : String) → append_text (text_of ds s) t ≡ text_of ds (append_text s t)
text_of-append [] s t = refl
text_of-append (d ∷ ds) s t =
    append_assoc (digit_text d) (text_of ds s) t
    ∙ ap (append_text (digit_text d)) (text_of-append ds s t)

split_colon-text_of :
    (ds : List ℕ) (t : String)
    → AreDigits ds
    → split_colon (text_of ds (append_text ":" t)) ≡ some (text_of ds "", t)
unfolding split_colon
split_colon-text_of [] t h = rw (front_char ":" t) refl
split_colon-text_of (d ∷ ds) t (l, h) =
    let c = digit_char d l in
    rw (c.front (text_of ds (append_text ":" t)))
      (rw (c.front (text_of ds "")) (ground (arith, c.coded, split_colon-text_of ds t h)))

codes-text_of : (ds : List ℕ) → AreDigits ds → codes (text_of ds "") ≡ map (λ d. 48 + d) ds
codes-text_of [] h = refl
codes-text_of (d ∷ ds) (l, h) =
    let c = digit_char d l in
    rw (c.front (text_of ds "")) (rw c.coded (ap (λ r. (48 + d) ∷ r) (codes-text_of ds h)))

value-le : (acc : ℕ) (ds : List ℕ) → acc ≤ value acc ds
value-le acc [] = omega arith
value-le acc (d ∷ ds) = omega (arith, value-le (acc * 10 + d) ds)

digit_value-digit : (d : ℕ) → d < 10 → digit_value (48 + d) ≡ d
unfolding digit_value
digit_value-digit d h = ground arith

digits_from-value :
    (limit acc : ℕ) (ds : List ℕ)
    → AreDigits ds
    → value acc ds < limit
    → digits_from 10 limit acc (map (λ d. 48 + d) ds) ≡ some (value acc ds)
unfolding digits_from
digits_from-value limit acc [] h l = refl
digits_from-value limit acc (d ∷ ds) (k, h) l =
    rw (digit_value-digit d k)
      (ground (arith, digits_from-value limit (acc * 10 + d) ds h l, value-le (acc * 10 + d) ds))

-- Digits that write `n`.
record Written (n : ℕ) (text : String → String) : Type 0 where
  pub first : ℕ
  pub more : List ℕ
  pub are_digits : AreDigits (first ∷ more)
  pub writes : (rest : String) → text rest ≡ text_of (first ∷ more) rest
  pub is_value : value 0 (first ∷ more) ≡ n

abbrev bound : ℕ → ℕ
bound zero = 1
bound (suc fuel) = 10 * bound fuel

Written-last :
    {n : ℕ} {text : String → String} (d : ℕ)
    → d < 10
    → Written n text
    → Written (n * 10 + d) (λ rest. text (append_text (digit_text d) rest))
Written-last {n} {text} d l w = record {
  first = w.first;
  more = w.more ++ (d ∷ []);
  are_digits = AreDigits-last (w.first ∷ w.more) d w.are_digits l;
  writes = λ rest.
      w.writes (append_text (digit_text d) rest) ∙ sym (text_of-last (w.first ∷ w.more) d rest);
  is_value = value-last 0 (w.first ∷ w.more) d ∙ ap (λ v. v * 10 + d) w.is_value;
}

Written-digit : (n : ℕ) → n < 10 → Written n (append_text (digit_text n))
Written-digit n h = record {
  first = n;
  more = [];
  are_digits = (h, tt);
  writes = λ rest. refl;
  is_value = omega arith;
}

decimal_onto_digit : (fuel n : ℕ) → n < 10 → decimal_onto (suc fuel) n ≡ append_text (digit_text n)
unfolding decimal_onto
decimal_onto_digit fuel n h = fun_ext (λ rest. ground arith)

decimal_onto_more :
    (fuel n : ℕ)
    → 10 ≤ n
    → decimal_onto (suc fuel) n
      ≡ (λ rest. decimal_onto fuel (n / 10) (append_text (digit_text (n % 10)) rest))
unfolding decimal_onto
decimal_onto_more fuel n h = fun_ext (λ rest. ground arith)

-- Of the remaining digits of a large number, the last is put in front of the text.
decimal_onto_more-Written :
    (fuel n : ℕ)
    → 10 ≤ n
    → Written (n / 10) (decimal_onto fuel (n / 10))
    → Written n (decimal_onto (suc fuel) n)
decimal_onto_more-Written fuel n h w = rw (decimal_onto_more fuel n h) (
    subst
      (λ k. Written k (λ rest. decimal_onto fuel (n / 10) (append_text (digit_text (n % 10)) rest)))
      (omega arith) (Written-last (n % 10) (omega arith) w))

decimal_onto-Written : (fuel n : ℕ) → n < bound (suc fuel) → Written n (decimal_onto (suc fuel) n)
decimal_onto-Written zero n h =
    rw (decimal_onto_digit 0 n (omega arith)) (Written-digit n (omega arith))
decimal_onto-Written (suc fuel) n h = elim (Bool-cases (ltb n 10)) [
  | inl small ↦
      rw (decimal_onto_digit (suc fuel) n (ltb→lt n 10 small)) (Written-digit n (ltb→lt n 10 small))
  | inr large ↦
      decimal_onto_more-Written (suc fuel) n (ltb→le n 10 large)
        (decimal_onto-Written fuel (n / 10) (omega arith))
]

from_str_radix-text_of :
    (d : ℕ) (ds : List ℕ)
    → AreDigits (d ∷ ds)
    → value 0 (d ∷ ds) < u32_limit
    → from_str_radix 10 u32_limit (text_of (d ∷ ds) "") ≡ some (value 0 (d ∷ ds))
unfolding from_str_radix
from_str_radix-text_of d ds h l =
    rw (codes-text_of (d ∷ ds) h) (ground (arith, h.0, digits_from-value u32_limit 0 (d ∷ ds) h l))

parse_guid-text_of :
    (d : ℕ) (ds : List ℕ) (t : String)
    → AreDigits (d ∷ ds)
    → value 0 (d ∷ ds) < u32_limit
    → parse_guid (append_text (text_of (d ∷ ds) "") (append_text ":" t)) ≡ ok (value 0 (d ∷ ds), t)
unfolding parse_guid
parse_guid-text_of d ds t h l = rw (text_of-append (d ∷ ds) "" (append_text ":" t)) (
    rw (nil-append (append_text ":" t))
      (rw (split_colon-text_of (d ∷ ds) t h) (rw (from_str_radix-text_of d ds h l) refl)))

parse_guid-Written :
    {n : ℕ} {text : String → String} (t : String)
    → Written n text
    → n < u32_limit
    → parse_guid (append_text (text "") (append_text ":" t)) ≡ ok (n, t)
parse_guid-Written {n} {text} t w h = rw (w.writes "") (
    parse_guid-text_of w.first w.more t w.are_digits (rw w.is_value h)
    ∙ ap (λ k. ok (k, t)) w.is_value)

-- A key made of a source domain and a transaction hash is read back as these two, also where the
-- hash has a colon.
pub parse_guid-cctp_guid :
    (domain : ℕ) (tx_hash : String)
    → domain < 2 ^ 32
    → parse_guid (cctp_guid domain tx_hash) ≡ ok (domain, tx_hash)
unfolding cctp_guid decimal
parse_guid-cctp_guid domain tx_hash h =
    parse_guid-Written tx_hash (decimal_onto-Written 19 domain (omega arith)) h
