-- ===== src/World/Action.antt =====
-- A handler is an action on the world. `?` in a fallible one is `◌>?>◌`.
use boltz_client.Prelude.{ℕ, suc, ◌∷◌}
use boltz_client.Errors.{Result, ok, err}
use boltz_client.World.{World, SwapEvent, Sent}

abbrev pub M : Type 0 → Type 0
M A = World → A × World

unfoldable pub pure : {A : Type 0} → A → M A
pure a w = (a, w)

infixl 10 ◌>>=◌ ◌>>◌
unfoldable pub ◌>>=◌ : {A B : Type 0} → M A → (A → M B) → M B
◌>>=◌ m f w = let (a, w') = m w in f a w'

abbrev pub ◌>>◌ : {A B : Type 0} → M A → M B → M B
m >> n = m >>= λ _. n

abbrev pub on_ok : {A B : Type 0} → (A → M (Result B)) → Result A → M (Result B)
on_ok f (ok a) = f a
on_ok f (err e) = pure (err e)

infixr 5 ◌>?>◌
abbrev pub ◌>?>◌ : {A B : Type 0} → M (Result A) → (A → M (Result B)) → M (Result B)
m >?> f = m >>= on_ok f

-- One call of the outside: it gets the next number.
unfoldable pub ask : {A : Type 0} → (ℕ → A) → M A
ask question w = (question w.calls, record w { calls = suc w.calls })

-- `EventEmitter::emit`: every listener is handed the event, and none changes the state here.
unfoldable pub emit : SwapEvent → M (Unit {0})
emit event w = (tt, record w { events = event ∷ w.events })

unfoldable pub note_sent : Sent → M (Unit {0})
note_sent s w = (tt, record w { sent = s ∷ w.sent })
