-- ===== src/Locks/Exclusion.antt =====
-- Who is at the mutex of a swap in crates/lib/src/swap/locks.rs, over all runs.
use boltz_client.Prelude.{
  ℕ, suc, ◌+◌, ◌-◌, ◌<◌, ◌≤◌, ◌≡◌, refl, ap, Bool, Option, none, some, List, [], ◌∷◌, ◌⊎◌, inl, inr,
  ◌==◌, if◌then◌else◌, length, arith,
}
use boltz_client.Locks.{
  SwapLock, count, remove_one, strong_count, request, request_at, acquire, pruned, release, unlock,
  free, cancel, Step, requests, acquires, releases, unlocks, frees, cancels, Reach, here, next,
}

pub count-remove_one :
    (k m : ℕ) (xs : List ℕ)
    → count k (remove_one m xs) ≡ (if k == m then count k xs - 1 else count k xs)
unfolding count remove_one
count-remove_one k m [] = ground arith
count-remove_one k m (x ∷ xs) = ground (arith, count-remove_one k m xs)

pub length-remove_one :
    (m : ℕ) (xs : List ℕ) → 0 < count m xs → length xs ≡ suc (length (remove_one m xs))
unfolding count remove_one
length-remove_one m [] h = absurd (omega arith)
length-remove_one m (x ∷ xs) h = ground (arith, length-remove_one m xs)

-- Who waits or holds does so at the map's mutex, which at most one holds.
pub record IsExclusive (s : SwapLock) : Type 0 where
  pub current : (m : ℕ) → 0 < count m s.waiting + count m s.holding → s.entry ≡ some m
  pub single : length s.holding ≤ 1

module _ (s : SwapLock) (v : IsExclusive s) where
  -- If somebody holds, it is at the map's mutex.
  holder :
      (xs : List ℕ)
      → s.holding ≡ xs
      → (xs ≡ []) ⊎ ((k : ℕ) × (s.entry ≡ some k) × (0 < count k s.holding))
  unfolding count
  holder [] e = inl refl
  holder (x ∷ xs) e =
      let seen : 0 < count x s.holding = rw e (ground arith) in
      inr (x, v.current x (omega (arith, seen)), seen)

  none_hold : (m : ℕ) → s.entry ≡ some m → count m s.holding ≡ 0 → s.holding ≡ []
  none_hold m e h = elim (holder s.holding refl) [
    | inl empty ↦ empty
    | inr (k, at, held) ↦
        let same : k ≡ m = cc in absurd (omega (arith, held, h, ap (λ j. count j s.holding) same))
  ]

  request_at-IsExclusive : (e : Option ℕ) → s.entry ≡ e → IsExclusive (request_at e s)
  unfolding request_at count
  request_at-IsExclusive (some m) e = record {
    current = λ k p. ground (arith, e, p, v.current k);
    single = v.single;
  }
  request_at-IsExclusive none e = record {
    current = λ k p. ground (arith, e, p, v.current k);
    single = v.single;
  }

  acquire-IsExclusive :
      (m : ℕ) → 0 < count m s.waiting → count m s.holding ≡ 0 → IsExclusive (acquire m s)
  unfolding acquire count
  acquire-IsExclusive m w h =
      let e = v.current m (omega (arith, w)) in
      record {
        current = λ k p. ground (arith, p, e, v.current k, count-remove_one k m s.waiting);
        single = rw (none_hold m e h) (omega arith);
      }

  cancel-IsExclusive : (m : ℕ) → IsExclusive (cancel m s)
  unfolding cancel
  cancel-IsExclusive m = record {
    current = λ k p. ground (arith, p, v.current k, count-remove_one k m s.waiting);
    single = v.single;
  }

  -- After the prune, nobody is left at a mutex that the map has forgotten.
  release-IsExclusive : (m : ℕ) → 0 < count m s.holding → IsExclusive (release m s)
  unfolding release pruned strong_count
  release-IsExclusive m h =
      let e = v.current m (omega (arith, h)) in
      record {
        current = λ k p. rw e (
            ground (
              arith,
              p,
              e,
              h,
              v.current k,
              count-remove_one k m s.holding,
              ap (λ j. count j s.waiting),
            ));
        single = omega (arith, v.single, length-remove_one m s.holding h);
      }

Step-IsExclusive : {b : Bool} {s t : SwapLock} → Step b s t → IsExclusive s → IsExclusive t
unfolding request unlock free
Step-IsExclusive (requests s) v = request_at-IsExclusive s v s.entry refl
Step-IsExclusive (acquires s m w h l) v = acquire-IsExclusive s v m w h
Step-IsExclusive (releases s m h) v = release-IsExclusive s v m h
Step-IsExclusive (unlocks s m l) v = record { current = v.current; single = v.single }
Step-IsExclusive (frees s m l) v = record { current = v.current; single = v.single }
Step-IsExclusive (cancels s m c w) v = cancel-IsExclusive s v m

pub Reach-IsExclusive : {b : Bool} {s : SwapLock} → Reach b s → IsExclusive s
unfolding count
Reach-IsExclusive here = record { current = λ m p. absurd (omega (arith, p)); single = omega arith }
Reach-IsExclusive (next r st) = Step-IsExclusive st (Reach-IsExclusive r)

-- However requests, acquisitions, releases and cancelled waits follow one another, at most one guard
-- holds the lock of a swap, and everybody who waits for it or holds it is at the mutex that the map
-- has then, so that the next request joins them.
pub Reach-exclusive :
    {may_cancel : Bool} {s : SwapLock}
    → Reach may_cancel s
    → (length s.holding ≤ 1)
      × ((m : ℕ) → 0 < count m s.waiting + count m s.holding → s.entry ≡ some m)
Reach-exclusive r = let v = Reach-IsExclusive r in (v.single, v.current)
