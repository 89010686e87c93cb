-- ===== src/Prelude/Digits.antt =====
-- Rust's `from_str_radix` and `parse` for unsigned integers: an optional `+`, then at least one
-- digit of the radix, and no overflow past the type's size.
use Prim.Native.Nat.{ℕ, ◌+◌, ◌-◌, ◌*◌}
use Prim.Native.String.{String}
use mathlib.Core.Bool.{◌&&◌}
use mathlib.Core.List.{List, [], ◌∷◌}
use mathlib.Core.Option.{Option, none, some}
use boltz_client.Prelude.Tests.{ltb, leb, ◌==◌, if◌then◌else◌}
use boltz_client.Prelude.Text.{codes}

unfoldable pub digit_value : ℕ → ℕ
digit_value c =
    if leb b'0' c && leb c b'9'
    then c - 48
    else if leb b'a' c && leb c b'z'
    then c - 87
    else if leb b'A' c && leb c b'Z'
    then c - 55
    else 36

unfoldable pub digits_from : (radix limit acc : ℕ) → List ℕ → Option ℕ
unfolding digit_value
digits_from radix limit acc [] = some acc
digits_from radix limit acc (c ∷ cs) =
    let rest = digits_from radix limit (acc * radix + digit_value c) cs in
    if ltb (digit_value c) radix && ltb (acc * radix + digit_value c) limit then rest else none

digits_only : (radix limit : ℕ) → List ℕ → Option ℕ
unfolding digits_from
digits_only radix limit [] = none
digits_only radix limit (c ∷ cs) = digits_from radix limit 0 (c ∷ cs)

signed_digits : (radix limit : ℕ) → List ℕ → Option ℕ
unfolding digits_only
signed_digits radix limit [] = none
signed_digits radix limit (c ∷ cs) =
    if c == b'+' then digits_only radix limit cs else digits_only radix limit (c ∷ cs)

-- `limit` is one more than the type's largest value.
unfoldable pub from_str_radix : (radix limit : ℕ) → String → Option ℕ
unfolding signed_digits
from_str_radix radix limit text = signed_digits radix limit (codes text)
