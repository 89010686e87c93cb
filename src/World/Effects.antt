-- ===== src/World/Effects.antt =====
-- Invariants of actions. There is a rule for each way to build an action; the rule for `>>=` hands on
-- what the first part answered, and that the invariant held when it did.
use boltz_client.Prelude.{ℕ, String, ◌≡◌, refl, ◌∙◌, Bool, true, false, if◌then◌else◌, some, arith}
use boltz_client.Errors.{Result, ok, err}
use boltz_client.Models.{BoltzSwap}
use boltz_client.Outside.{Outside}
use boltz_client.World.{World, SwapEvent}
use boltz_client.World.Action.{M, pure, ◌>>=◌, ◌>>◌, ask, emit, on_ok, ◌>?>◌}
use boltz_client.World.Store.{
  get_swap, id-find_row, list_active_swaps, track, untrack, is_tracked, subscribe, unsubscribe,
}

-- Some run of the action gives this answer.
pub record Said {A : Type 0} (m : M A) (a : A) : Type 0 where
  pub from : World
  pub gives : (m from).0 ≡ a

pub record Invariant : Type 1 where
  pub Holds : World → Type 0
  pub quiet : (w w' : World) → w'.rows ≡ w.rows → w'.sent ≡ w.sent → Holds w → Holds w'

pub record Keeps (I : Invariant) {A : Type 0} (m : M A) : Type 0 where
  pub at : (w : World) → I.Holds w → I.Holds (m w).1

-- Some run of the action from a world with the invariant gives this answer.
pub record Answers (I : Invariant) {A : Type 0} (m : M A) (a : A) : Type 0 where
  pub from : World
  pub before : I.Holds from
  pub gives : (m from).0 ≡ a

pub Said-of_Answers : {I : Invariant} {A : Type 0} {m : M A} {a : A} → Answers I m a → Said m a
Said-of_Answers h = record { from = h.from; gives = h.gives }

pub ok_of-Said-pure : {A : Type 0} {r : Result A} {a : A} → Said (pure r) (ok a) → r ≡ ok a
unfolding pure
ok_of-Said-pure h = h.gives

pub Said-bind :
    {A B : Type 0} (m : M A) (f : A → M B) {b : B}
    → Said (m >>= f) b
    → (a : A) × Said m a × Said (f a) b
unfolding ◌>>=◌
Said-bind m f h =
    let (a, w) = m h.from in
    (a, record { from = h.from; gives = refl }, record { from = w; gives = h.gives })

pub Said-ask :
    {A : Type 0} (question : ℕ → A) {a : A} → Said (ask question) a → (n : ℕ) × (question n ≡ a)
unfolding ask
Said-ask question h = (h.from.calls, h.gives)

-- What a fallible sequence answers, its two parts answered.
module _ {A B : Type 0} (f : A → M (Result B)) {b : B} where
  answered_by :
      (r : Result A) (w : World) → (on_ok f r w).0 ≡ ok b → (a : A) × (r ≡ ok a) × Said (f a) (ok b)
  unfolding pure
  answered_by (ok a) w h = (a, refl, record { from = w; gives = h })
  answered_by (err e) w h = absurd (cc)

  pub Said-try :
      (m : M (Result A)) → Said (m >?> f) (ok b) → (a : A) × Said m (ok a) × Said (f a) (ok b)
  unfolding ◌>>=◌
  Said-try m h =
      let (a, e, said) = answered_by (m h.from).0 (m h.from).1 h.gives in
      (a, record { from = h.from; gives = e }, said)

-- An action that neither writes the store nor submits a claim.
pub record IsQuiet {A : Type 0} (m : M A) : Type 0 where
  pub rows : (w : World) → (m w).1.rows ≡ w.rows
  pub sent : (w : World) → (m w).1.sent ≡ w.sent

module _ (I : Invariant) {A : Type 0} where
  pub Keeps-quiet : {m : M A} → IsQuiet m → Keeps I m
  Keeps-quiet {m = m} q = record { at = λ w. I.quiet w (m w).1 (q.rows w) (q.sent w) }

  pub Keeps-pure : (a : A) → Keeps I (pure a)
  unfolding pure
  Keeps-pure a = record { at = λ w h. h }

  pub Keeps-if :
      (b : Bool) {m n : M A}
      → (b ≡ true → Keeps I m)
      → (b ≡ false → Keeps I n)
      → Keeps I (if b then m else n)
  Keeps-if true km kn = km refl
  Keeps-if false km kn = kn refl

module _ (I : Invariant) {A B : Type 0} where
  pub Keeps-bind :
      {m : M A} {f : A → M B}
      → Keeps I m
      → ((a : A) → Answers I m a → Keeps I (f a))
      → Keeps I (m >>= f)
  unfolding ◌>>=◌
  Keeps-bind {m} {f} km kf = record {
    at = λ w h.
        let (a, w') = m w in
        (kf a (record { from = w; before = h; gives = refl })).at w' (km.at w h);
  }

  pub Keeps-then : {m : M A} {n : M B} → Keeps I m → Keeps I n → Keeps I (m >> n)
  Keeps-then km kn = Keeps-bind km (λ a h. kn)

  pub Keeps-on_ok :
      {f : A → M (Result B)} (r : Result A)
      → ((a : A) → r ≡ ok a → Keeps I (f a))
      → Keeps I (on_ok f r)
  Keeps-on_ok (ok a) kf = kf a refl
  Keeps-on_ok (err e) kf = Keeps-pure I (err e)

module _ (I : Invariant) {A B : Type 0} where
  pub Keeps-try :
      {m : M (Result A)} {f : A → M (Result B)}
      → Keeps I m
      → ((a : A) → Answers I m (ok a) → Keeps I (f a))
      → Keeps I (m >?> f)
  Keeps-try {m} {f} km kf = Keeps-bind I km λ r g.
      Keeps-on_ok I r
        (λ a e. kf a (record { from = g.from; before = g.before; gives = rw (← e) g.gives }))

-- Quiet actions in sequence are quiet.
module _ {A B : Type 0} where
  pub IsQuiet-bind :
      {m : M A} {f : A → M B} → IsQuiet m → ((a : A) → IsQuiet (f a)) → IsQuiet (m >>= f)
  unfolding ◌>>=◌
  IsQuiet-bind {m} {f} qm qf = record {
    rows = λ w. let (a, w') = m w in (qf a).rows w' ∙ qm.rows w;
    sent = λ w. let (a, w') = m w in (qf a).sent w' ∙ qm.sent w;
  }

pub IsQuiet-pure : {A : Type 0} (a : A) → IsQuiet (pure a)
unfolding pure
IsQuiet-pure a = record { rows = λ w. refl; sent = λ w. refl }

module _ {A B : Type 0} where
  pub IsQuiet-on_ok :
      {f : A → M (Result B)} (r : Result A) → ((a : A) → IsQuiet (f a)) → IsQuiet (on_ok f r)
  IsQuiet-on_ok (ok a) qf = qf a
  IsQuiet-on_ok (err e) qf = IsQuiet-pure (err e)

  pub IsQuiet-try :
      {m : M (Result A)} {f : A → M (Result B)}
      → IsQuiet m
      → ((a : A) → IsQuiet (f a))
      → IsQuiet (m >?> f)
  IsQuiet-try qm qf = IsQuiet-bind qm (λ r. IsQuiet-on_ok r qf)

pub IsQuiet-ask : {A : Type 0} (question : ℕ → A) → IsQuiet (ask question)
unfolding ask
IsQuiet-ask question = record { rows = λ w. refl; sent = λ w. refl }

pub IsQuiet-emit : (event : SwapEvent) → IsQuiet (emit event)
unfolding emit
IsQuiet-emit event = record { rows = λ w. refl; sent = λ w. refl }

module _ (o : Outside) where
  pub IsQuiet-get_swap : (id : String) → IsQuiet (get_swap o id)
  unfolding get_swap
  IsQuiet-get_swap id = record { rows = λ w. ground arith; sent = λ w. ground arith }

  pub IsQuiet-list_active_swaps : IsQuiet (list_active_swaps o)
  unfolding list_active_swaps
  IsQuiet-list_active_swaps = record { rows = λ w. ground arith; sent = λ w. ground arith }

  pub IsQuiet-subscribe : (id : String) → IsQuiet (subscribe o id)
  unfolding subscribe
  IsQuiet-subscribe id = record { rows = λ w. ground arith; sent = λ w. ground arith }

  pub IsQuiet-unsubscribe : (id : String) → IsQuiet (unsubscribe o id)
  unfolding unsubscribe
  IsQuiet-unsubscribe id = record { rows = λ w. ground arith; sent = λ w. ground arith }

  -- A row that the store hands out has the id it was asked for.
  pub id-get_swap : (id : String) {s : BoltzSwap} → Said (get_swap o id) (ok (some s)) → s.id ≡ id
  unfolding get_swap
  id-get_swap id {s} a = ground (arith, a.gives, id-find_row id a.from.rows {s = s})

pub IsQuiet-track : (id : String) → IsQuiet (track id)
unfolding track
IsQuiet-track id = record { rows = λ w. refl; sent = λ w. refl }

pub IsQuiet-untrack : (id : String) → IsQuiet (untrack id)
unfolding untrack
IsQuiet-untrack id = record { rows = λ w. refl; sent = λ w. refl }

pub IsQuiet-is_tracked : (id : String) → IsQuiet (is_tracked id)
unfolding is_tracked
IsQuiet-is_tracked id = record { rows = λ w. refl; sent = λ w. refl }

pub ruleset quiet_rules = (
  IsQuiet-ask, IsQuiet-emit, IsQuiet-get_swap, IsQuiet-list_active_swaps, IsQuiet-subscribe,
  IsQuiet-unsubscribe, IsQuiet-track, IsQuiet-untrack, IsQuiet-is_tracked, IsQuiet-pure,
  IsQuiet-bind, IsQuiet-on_ok,
)
