-- ===== src/OftSearch/Least.antt =====
-- `estimate_oft_required_send_amount` of crates/lib/src/swap/reverse.rs over an OFT whose quotes do not
-- change during the search.
use mathlib.Core.Logic.{dif_pos, dif_neg}
use mathlib.Core.WellFounded.{Acc}
use native.Mathlib.Decide.{dec_lt}
use native.Mathlib.Bridge.{le_prop}
use boltz_client.Prelude.{
  ℕ, zero, suc, ◌+◌, ◌*◌, ◌≤◌, ◌<◌, ◌≡◌, refl, ◌∙◌, Bool, true, false, leb, arith, leb→le,
}
use boltz_client.Config.{u128_limit}
use boltz_client.Errors.{Result, ok}
use boltz_client.World.{World}
use boltz_client.World.Action.{M, pure, ◌>>=◌, ◌>?>◌}
use boltz_client.OftSearch.{
  Range, doubled, checked_u128, find_bound, bisect, search_amount, ◌⊏◌, middle, lower_half,
  upper_half, lower_half-⊏, upper_half-⊏, accessible,
}

-- Every quote of an amount gives what `f` gives of it.
pub record Steady (probe : ℕ → M (Result ℕ)) (f : ℕ → ℕ) : Type 0 where
  pub at : (a : ℕ) (w : World) → (probe a w).0 ≡ ok (f a)

-- More sent is more received, and no more is received than was sent.
pub record Lossy (f : ℕ → ℕ) : Type 0 where
  pub monotone : (a b : ℕ) → a ≤ b → f a ≤ f b
  pub no_gain : (a : ℕ) → f a ≤ a

-- `n` is the least amount of which the target arrives.
pub record Least (f : ℕ → ℕ) (target n : ℕ) : Type 0 where
  pub enough : target ≤ f n
  pub least : (a : ℕ) → a < n → f a < target

-- `a` doubled `times` times.
unfoldable pub doubling : (times a : ℕ) → ℕ
doubling zero a = a
doubling (suc times) a = doubling times (a * 2)

le-doubling : (times a : ℕ) → a ≤ doubling times a
unfolding doubling
le-doubling zero a = omega arith
le-doubling (suc times) a = omega (arith, le-doubling times (a * 2))

-- Some doubling of the bound, within the quotes that are left, is enough and fits in `u128`.
pub record Reachable (f : ℕ → ℕ) (target left high : ℕ) : Type 0 where
  pub times : ℕ
  pub soon : times < left
  pub fits : doubling times high < u128_limit
  pub enough : target ≤ f (doubling times high)

-- The answer of an action from a world is a value with `P`.
pub record Gives {A : Type 0} (m : M (Result A)) (w : World) (P : A → Type 0) : Type 0 where
  pub value : A
  pub gives : (m w).0 ≡ ok value
  pub holds : P value

pub Gives-pure : {A : Type 0} (a : A) (w : World) {P : A → Type 0} → P a → Gives (pure (ok a)) w P
unfolding pure
Gives-pure a w h = record { value = a; gives = refl; holds = h }

pub Gives-given :
    {A B : Type 0} {r : Result A} {a : A}
    → r ≡ ok a
    → (next : A → M (Result B)) (w : World) {P : B → Type 0} → Gives (next a) w P
    → Gives (pure r >?> next) w P
unfolding ◌>>=◌ pure
Gives-given {r = r} e next w g = rw (e) g

pub Gives-then :
    {A B : Type 0} {m : M (Result A)} {next : A → M (Result B)} {w : World} {P : A → Type 0}
    {Q : B → Type 0}
    → Gives m w P
    → ((a : A) → P a → (v : World) → Gives (next a) v Q)
    → Gives (m >?> next) w Q
unfolding ◌>>=◌
Gives-then {m} {next} {w} g k =
    let h = k g.value g.holds (m w).1 in
    record { value = h.value; gives = rw (g.gives) h.gives; holds = h.holds }

Gives-branch :
    {A : Type 0} (b : Bool) {m n : M (Result A)} (w : World) {P : A → Type 0}
    → (b ≡ true → Gives m w P)
    → (b ≡ false → Gives n w P)
    → Gives (elim b [ true ↦ m | false ↦ n ]) w P
Gives-branch true w gm gn = gm refl
Gives-branch false w gm gn = gn refl

module _ (probe : ℕ → M (Result ℕ)) (f : ℕ → ℕ) (steady : Steady probe f) where
  after_probe :
      {B : Type 0} (a : ℕ) (next : ℕ → M (Result B)) (w : World)
      → ((probe a >?> next) w).0 ≡ (next (f a) (probe a w).1).0
  unfolding ◌>>=◌
  after_probe a next w = rw (steady.at a w) refl

  Gives-after_probe :
      {B : Type 0} (a : ℕ) (next : ℕ → M (Result B)) (w : World) {P : B → Type 0}
      → Gives (next (f a)) (probe a w).1 P
      → Gives (probe a >?> next) w P
  Gives-after_probe a next w g = record {
    value = g.value;
    gives = after_probe a next w ∙ g.gives;
    holds = g.holds;
  }

  module _ (target : ℕ) (lossy : Lossy f) where
    -- What both loops keep: the range is not empty, and below it too little arrives.
    pub record Inside (r : Range) : Type 0 where
      pub ordered : r.low ≤ r.high
      pub below : (a : ℕ) → a < r.low → f a < target

    -- An amount of which too little arrives rules out all that are not larger.
    below_suc : (a : ℕ) → f a < target → (b : ℕ) → b < a + 1 → f b < target
    below_suc a h b less = ground (arith, lossy.monotone b a)

    lower_Inside : (r : Range) → r.low < r.high → Inside r → Inside (lower_half r)
    lower_Inside r h inside = record { ordered = omega arith; below = inside.below }

    upper_Inside :
        (r : Range) → r.low < r.high → f (middle r) < target → Inside r → Inside (upper_half r)
    upper_Inside r h less inside = record {
      ordered = omega arith;
      below = below_suc (middle r) less;
    }

    bisect-Least :
        (r : Range) (acc : Acc ◌⊏◌ r)
        → Inside r
        → target ≤ f r.high
        → (w : World) → Gives (bisect probe target r acc) w (Least f target)
    unfolding bisect
    bisect-Least r (Acc.intro _ inner) inside enough w = elim (dec_lt r.low r.high) [
      | no empty ↦ rw (dif_neg (dec_lt r.low r.high) empty) (
          let last : r.low ≡ r.high = omega (arith, empty, inside.ordered) in
          Gives-pure r.low w (record { enough = rw (last) enough; least = inside.below }))
      | yes h ↦ rw (dif_pos (dec_lt r.low r.high) le_prop h) (
          Gives-after_probe (middle r) _ w (
            Gives-branch (leb target (f (middle r))) _
              (λ e.
                bisect-Least (lower_half r) (inner _ (lower_half-⊏ r h)) (lower_Inside r h inside)
                  (leb→le _ _ e) _)
              (λ e.
                bisect-Least (upper_half r) (inner _ (upper_half-⊏ r h))
                  (upper_Inside r h (ground (arith, e)) inside) enough _)))
    ]

    next_Reachable :
        (left high times : ℕ)
        → f high < target
        → times < suc left
        → doubling times high < u128_limit
        → target ≤ f (doubling times high)
        → (high * 2 < u128_limit) × Reachable f target left (high * 2)
    unfolding doubling
    next_Reachable left high zero less soon fits enough = absurd (omega arith)
    next_Reachable left high (suc t) less soon fits enough =
        let small : high * 2 < u128_limit = omega (arith, le-doubling t (high * 2)) in
        (small, record { times = t; soon = omega arith; fits = fits; enough = enough })

    doubled-eq :
        (high : ℕ)
        → 0 < high
        → high * 2 < u128_limit
        → doubled high ≡ ok (record { low = high + 1; high = high * 2 })
    unfolding doubled checked_u128
    doubled-eq high positive small = ground arith

    pub record Bounded (r : Range) : Type 0 where
      pub inside : Inside r
      pub enough : target ≤ f r.high

    find_bound-Bounded :
        (left : ℕ) (r : Range)
        → Inside r
        → 0 < r.high
        → Reachable f target left r.high
        → (w : World) → Gives (find_bound probe target left r) w Bounded
    unfolding find_bound
    find_bound-Bounded zero r inside positive reach w = absurd (omega (arith, reach.soon))
    find_bound-Bounded (suc left) r inside positive reach w = Gives-after_probe r.high _ w (
        Gives-branch (leb target (f r.high)) _
          (λ e. Gives-pure r _ (record { inside = inside; enough = leb→le _ _ e }))
          (λ e.
            let less : f r.high < target = ground (arith, e) in
            let (small, next) =
              next_Reachable left r.high reach.times less reach.soon reach.fits reach.enough in
            let twice : Range = record { low = r.high + 1; high = r.high * 2 } in
            Gives-given (doubled-eq r.high positive small) (find_bound probe target left) _ (
              find_bound-Bounded left twice
                (record { ordered = omega arith; below = below_suc r.high less }) (omega arith) next
                _)))

    -- Over an OFT whose quotes are steady, give more for more and never more than was sent, the search
    -- for the amount to send ends, with the least amount of which a positive target arrives. For that
    -- the target, doubled at most 32 times within `u128`, must be enough.
    pub search_amount-Least :
        0 < target
        → Reachable f target 33 target
        → (w : World) → Gives (search_amount probe target) w (Least f target)
    unfolding search_amount
    search_amount-Least positive reach w =
        let start : Range = record { low = target; high = target } in
        let from : Inside start = record {
          ordered = omega arith;
          below = λ a less. omega (arith, lossy.no_gain a);
        } in
        Gives-then (find_bound-Bounded 33 start from positive reach w)
          (λ r b. bisect-Least r (accessible r) b.inside b.enough)
