-- ===== src/LzOptions/Layout.antt =====
-- A reader of type-3 options, against the bytes of crates/lib/src/evm/lz_options.rs.
use boltz_client.Prelude.{
  ℕ, zero, suc, ◌+◌, ◌*◌, ◌/◌, ◌%◌, ◌<◌, ◌^◌, ◌≡◌, refl, sym, ◌∙◌, ◌&&◌, Option, none, some, List,
  [], ◌∷◌, ◌++◌, ◌==◌, if◌then◌else◌, arith, take, drop, length, length-append, take-append,
  drop-append, subst, ◌⊎◌, inl, inr,
}
use mathlib.Core.List.{append_assoc, append-nil}
use boltz_client.Crates.{Bytes}
use boltz_client.LzOptions.{to_be_bytes, append_lz_receive_option, append_options, encoded}

-- The number that bytes write, most significant first, after a number so far.
abbrev pub number : ℕ → Bytes → ℕ
number acc [] = acc
number acc (b ∷ bs) = number (acc * 256 + b) bs

abbrev bytes_bound : ℕ → ℕ
bytes_bound zero = 1
bytes_bound (suc width) = 256 * bytes_bound width

number-append : (acc : ℕ) (bs cs : Bytes) → number acc (bs ++ cs) ≡ number (number acc bs) cs
number-append acc [] cs = refl
number-append acc (b ∷ bs) cs = number-append (acc * 256 + b) bs cs

pub number-to_be_bytes : (width n : ℕ) → n < bytes_bound width → number 0 (to_be_bytes width n) ≡ n
unfolding to_be_bytes
number-to_be_bytes zero n h = omega (arith, h)
number-to_be_bytes (suc width) n h =
    number-append 0 (to_be_bytes width (n / 256)) (n % 256 ∷ [])
    ∙ omega (arith, number-to_be_bytes width (n / 256) (omega (arith, h)))

pub length-to_be_bytes : (width n : ℕ) → length (to_be_bytes width n) ≡ width
unfolding to_be_bytes
length-to_be_bytes zero n = refl
length-to_be_bytes (suc width) n = omega (
  arith,
  length-append (to_be_bytes width (n / 256)) (n % 256 ∷ []),
  length-to_be_bytes width (n / 256),
)

-- One option: the executor's worker, the size of what follows, the kind `lzReceive`, and two words.
abbrev pub read_option : Bytes → Option (ℕ × ℕ × Bytes)
read_option (worker ∷ size1 ∷ size0 ∷ kind ∷ body) =
    if worker == 1 && (size1 * 256 + size0 == 33) && (kind == 1)
    then some (number 0 (take 16 body), number 0 (take 16 (drop 16 body)), drop 16 (drop 16 body))
    else none
read_option other = none

abbrev pub and_more : ℕ → ℕ → Option (List (ℕ × ℕ)) → Option (List (ℕ × ℕ))
and_more gas value none = none
and_more gas value (some options) = some ((gas, value) ∷ options)

-- So many options, and nothing behind them.
abbrev pub read_options : ℕ → Bytes → Option (List (ℕ × ℕ))
read_options zero [] = some []
read_options zero (b ∷ bs) = none
read_options (suc n) bs = elim (read_option bs) [
  | some (gas, value, rest) ↦ and_more gas value (read_options n rest)
  | none ↦ none
]

take_exact : (n : ℕ) (xs ys : Bytes) → length xs ≡ n → take n (xs ++ ys) ≡ xs
take_exact n xs ys e = subst (λ k. take k (xs ++ ys) ≡ xs) e (take-append xs ys)

drop_exact : (n : ℕ) (xs ys : Bytes) → length xs ≡ n → drop n (xs ++ ys) ≡ ys
drop_exact n xs ys e = subst (λ k. drop k (xs ++ ys) ≡ ys) e (drop-append xs ys)

one_option : (gas value rest : Bytes) → Bytes
one_option gas value rest = 1 ∷ 0 ∷ 33 ∷ 1 ∷ (gas ++ (value ++ rest))

read_option-one_option :
    (gas value rest : Bytes)
    → length gas ≡ 16
    → length value ≡ 16
    → read_option (one_option gas value rest) ≡ some (number 0 gas, number 0 value, rest)
unfolding one_option
read_option-one_option gas value rest g v = rw (take_exact 16 gas (value ++ rest) g) (
    rw (drop_exact 16 gas (value ++ rest) g)
      (rw (take_exact 16 value rest v) (rw (drop_exact 16 value rest v) refl)))

-- The bytes of the options, in front of others.
listed : List (ℕ × ℕ) → Bytes
listed [] = []
listed ((gas, value) ∷ options) =
    one_option (to_be_bytes 16 gas) (to_be_bytes 16 value) (listed options)

size_bytes : to_be_bytes 2 33 ≡ 0 ∷ 33 ∷ []
unfolding to_be_bytes
size_bytes = refl

append_option-one_option :
    (out : Bytes) (gas value : ℕ) (rest : Bytes)
    → append_lz_receive_option out gas value ++ rest
      ≡ out ++ one_option (to_be_bytes 16 gas) (to_be_bytes 16 value) rest
unfolding append_lz_receive_option one_option
append_option-one_option out gas value rest = rw size_bytes (simp append_assoc)

append_options-listed :
    (out : Bytes) (options : List (ℕ × ℕ)) → append_options out options ≡ out ++ listed options
unfolding append_options listed
append_options-listed out [] = sym (append-nil out)
append_options-listed out ((gas, value) ∷ options) =
    append_options-listed (append_lz_receive_option out gas value) options
    ∙ append_option-one_option out gas value (listed options)

abbrev pub AreWords : List (ℕ × ℕ) → Type 0
AreWords [] = Unit
AreWords ((gas, value) ∷ options) = (gas < 2 ^ 128) × (value < 2 ^ 128) × AreWords options

read_options-step :
    (n gas value : ℕ) (bs rest : Bytes) (options : List (ℕ × ℕ))
    → read_option bs ≡ some (gas, value, rest)
    → read_options n rest ≡ some options
    → read_options (suc n) bs ≡ some ((gas, value) ∷ options)
read_options-step n gas value bs rest options e f = ground (arith, e, f)

read_options-listed :
    (options : List (ℕ × ℕ))
    → AreWords options
    → read_options (length options) (listed options) ≡ some options
unfolding listed
read_options-listed [] h = refl
read_options-listed ((gas, value) ∷ options) (g, v, h) =
    let one =
      read_option-one_option (to_be_bytes 16 gas) (to_be_bytes 16 value) (listed options)
        (length-to_be_bytes 16 gas) (length-to_be_bytes 16 value) in
    let gas_back = number-to_be_bytes 16 gas (omega (arith, g)) in
    let value_back = number-to_be_bytes 16 value (omega (arith, v)) in
    read_options-step (length options) gas value
      (one_option (to_be_bytes 16 gas) (to_be_bytes 16 value) (listed options)) (listed options)
      options (cc (one, gas_back, value_back)) (read_options-listed options h)

-- Options whose gas and value are words of 128 bits are read back from behind the type-3 header, all
-- and in order, with nothing behind them; with no options there is no header either.
pub encoded_lem :
    (options : List (ℕ × ℕ))
    → AreWords options
    → (encoded [] ≡ [])
      × ((options ≡ [])
          ⊎ ((bs : Bytes) × (encoded options ≡ 0 ∷ 3 ∷ bs)
              × (read_options (length options) bs ≡ some options)))
unfolding encoded
encoded_lem [] h = (refl, inl refl)
encoded_lem (option ∷ options) h = (
  refl,
  inr (
    listed (option ∷ options),
    append_options-listed (0 ∷ 3 ∷ []) (option ∷ options),
    read_options-listed (option ∷ options) h,
  ),
)
