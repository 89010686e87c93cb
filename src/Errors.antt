-- ===== src/Errors.antt =====
-- crates/lib/src/error.rs: the error type of every fallible operation, and its `Result`.
-- A message that the source formats is kept by its fixed words.
use boltz_client.Prelude.{ℕ, String, Bool, true, false, Option, none, some, ◌≡◌, refl}

pub data BoltzError : Type 0 where
  api : (reason : String) (code : Option ℕ) → BoltzError
  evm : (reason : String) (tx_hash : Option String) → BoltzError
  web_socket : String → BoltzError
  invalid_config : String → BoltzError
  signing : String → BoltzError
  store : String → BoltzError
  swap_expired : (swap_id : String) → BoltzError
  swap_failed : (swap_id reason : String) → BoltzError
  quote_expired : BoltzError
  amount_out_of_range : (amount lowest highest : ℕ) → BoltzError
  invalid_quote : String → BoltzError
  quote_degraded_beyond_slippage : (expected_usd quoted_usd : ℕ) → BoltzError
  claim_broadcast_unconfirmed : (call_id : String) → BoltzError
  duplicate_preimage : BoltzError
  generic : String → BoltzError

-- `Result<A, BoltzError>`.
pub data Result {ℓ} (A : Type ℓ) : Type ℓ where
  err : BoltzError → Result A
  ok : A → Result A

-- `o.ok_or_else(|| e)`.
abbrev pub ok_or {ℓ} : {A : Type ℓ} → Option A → BoltzError → Result A
ok_or none e = err e
ok_or (some a) e = ok a

-- `return Err(e)` unless the test holds.
abbrev pub ensure : Bool → BoltzError → Result (Unit {0})
ensure true e = ok tt
ensure false e = err e

module _ {ℓ κ} {A : Type ℓ} {B : Type κ} where
  -- `first?` with `next` as the rest of the function, where no state is touched.
  infixl 5 ◌>>=◌
  abbrev pub ◌>>=◌ : Result A → (A → Result B) → Result B
  err failure >>= next = err failure
  ok value >>= next = next value

  -- If the whole succeeds then so does its first step.
  pub >>=-eq-ok :
      (first : Result A) (next : A → Result B) {final : B}
      → (first >>= next) ≡ ok final
      → (value : A) × (first ≡ ok value) × (next value ≡ ok final)
  >>=-eq-ok (err failure) next h = cc
  >>=-eq-ok (ok value) next h = (value, refl, h)

  -- The same with the rest of the proof as a function.
  pub from_ok {μ} :
      (first : Result A) (next : A → Result B) {final : B} {P : Type μ}
      → (first >>= next) ≡ ok final
      → ((value : A) → first ≡ ok value → next value ≡ ok final → P)
      → P
  from_ok (err failure) next h k = absurd (cc)
  from_ok (ok value) next h k = k value refl h

pub ok-inj {ℓ} : {A : Type ℓ} {a b : A} → ok a ≡ ok b → a ≡ b
ok-inj h = cc

pub true-ensure : (b : Bool) (e : BoltzError) {done : Unit {0}} → ensure b e ≡ ok done → b ≡ true
true-ensure true e h = refl
true-ensure false e h = absurd (cc)

pub some-ok_or :
    {A : Type 0} (o : Option A) (e : BoltzError) {a : A} → ok_or o e ≡ ok a → o ≡ some a
some-ok_or none e h = absurd (cc)
some-ok_or (some b) e h = cc

infixl 5 ◌>>◌
abbrev pub ◌>>◌ {ℓ} : {B : Type ℓ} → Result (Unit {0}) → Result B → Result B
check >> rest = check >>= λ done. rest
