-- ===== src/Prelude/Decimal.antt =====
-- `Display` of an unsigned integer, and `str::split_once(':')`.
use Prim.Native.Nat.{ℕ, zero, suc, ◌/◌, ◌%◌}
use Prim.Native.Char.{code}
use Prim.Native.String.{String, ◌++◌}
use mathlib.Core.Option.{Option, none, some}
use boltz_client.Prelude.Tests.{ltb, ◌==◌, if◌then◌else◌}

unfoldable pub digit_text : ℕ → String
digit_text zero = "0"
digit_text (suc zero) = "1"
digit_text (suc (suc zero)) = "2"
digit_text (suc (suc (suc zero))) = "3"
digit_text (suc (suc (suc (suc zero)))) = "4"
digit_text (suc (suc (suc (suc (suc zero))))) = "5"
digit_text (suc (suc (suc (suc (suc (suc zero)))))) = "6"
digit_text (suc (suc (suc (suc (suc (suc (suc zero))))))) = "7"
digit_text (suc (suc (suc (suc (suc (suc (suc (suc zero)))))))) = "8"
digit_text (suc (suc (suc (suc (suc (suc (suc (suc (suc n))))))))) = "9"

-- The digits of `n` in front of `rest`, with one unit of fuel for each digit.
unfoldable pub decimal_onto : (fuel n : ℕ) → String → String
unfolding digit_text
decimal_onto zero n rest = rest
decimal_onto (suc fuel) n rest =
    let more = decimal_onto fuel (n / 10) (digit_text (n % 10) ++ rest) in
    if ltb n 10 then digit_text n ++ rest else more

-- Twenty digits are enough for a `u64`.
unfoldable pub decimal : ℕ → String
unfolding decimal_onto
decimal n = decimal_onto 20 n ""

before : (c : Prim.Native.Char.Char) → Option (String × String) → Option (String × String)
before c none = none
before c (some (front, back)) = some (String.◌∷◌ c front, back)

-- `text.split_once(':')`.
unfoldable pub split_colon : String → Option (String × String)
unfolding before
split_colon String.[] = none
split_colon (String.◌∷◌ c text) =
    let rest = split_colon text in if code c == b':' then some ("", text) else before c rest
