-- ===== src/Locks.antt =====
-- crates/lib/src/swap/locks.rs: the lock of one swap id, as the steps of the tasks that use it. A map
-- keyed by id has one such part for each id, and no step of one touches another. A mutex is a number,
-- and a task is known by the mutex whose `Arc` it owns.
pub mod Exclusion
use boltz_client.Prelude.{
  ℕ, suc, ◌+◌, ◌-◌, ◌<◌, ◌≡◌, Bool, true, Option, none, some, List, [], ◌∷◌, leb, ◌==◌,
  if◌then◌else◌,
}

unfoldable pub count : ℕ → List ℕ → ℕ
count m [] = 0
count m (k ∷ ks) = let rest = count m ks in if k == m then suc rest else rest

unfoldable pub remove_one : ℕ → List ℕ → List ℕ
remove_one m [] = []
remove_one m (k ∷ ks) = let rest = remove_one m ks in if k == m then ks else k ∷ rest

pub record SwapLock : Type 0 where
  pub entry : Option ℕ  -- the map's mutex for the id
  pub fresh : ℕ  -- the next mutex that is made
  pub waiting : List ℕ  -- of `lock` calls at the `await`
  pub holding : List ℕ  -- of guards before their drop
  pub leaving : List ℕ  -- of guards after `Drop::drop`, whose `_guard` is still to be dropped
  pub freed : List ℕ  -- of guards that have unlocked the mutex and still own its `Arc`

abbrev pub start : SwapLock
start = record { entry = none; fresh = 0; waiting = []; holding = []; leaving = []; freed = [] }

-- `Arc::strong_count` of the map's mutex.
unfoldable pub strong_count : SwapLock → ℕ → ℕ
unfolding count
strong_count s m =
    1 + (count m s.waiting + (count m s.holding + (count m s.leaving + count m s.freed)))

-- The first part of `lock`: look the mutex up, or make it.
unfoldable pub request_at : Option ℕ → SwapLock → SwapLock
request_at (some m) s = record s { waiting = m ∷ s.waiting }
request_at none s = record s {
  entry = some s.fresh;
  fresh = suc s.fresh;
  waiting = s.fresh ∷ s.waiting;
}

unfoldable pub request : SwapLock → SwapLock
unfolding request_at
request s = request_at s.entry s

-- The rest of `lock`, once the mutex `m` is free.
unfoldable pub acquire : ℕ → SwapLock → SwapLock
unfolding remove_one
acquire m s = record s { waiting = remove_one m s.waiting; holding = m ∷ s.holding }

-- `Drop::drop` of a guard: the entry goes if nobody else is at the map's mutex.
unfoldable pub pruned : Option ℕ → SwapLock → Option ℕ
unfolding strong_count
pruned none s = none
pruned (some m) s = if leb (strong_count s m) 2 then none else some m

unfoldable pub release : ℕ → SwapLock → SwapLock
unfolding pruned remove_one
release m s = record s {
  entry = pruned s.entry s;
  holding = remove_one m s.holding;
  leaving = m ∷ s.leaving;
}

-- The guard's `_guard` is dropped: first the mutex is unlocked, and then its `Arc` goes.
unfoldable pub unlock : ℕ → SwapLock → SwapLock
unfolding remove_one
unlock m s = record s { leaving = remove_one m s.leaving; freed = m ∷ s.freed }

unfoldable pub free : ℕ → SwapLock → SwapLock
unfolding remove_one
free m s = record s { freed = remove_one m s.freed }

-- The future of a `lock` call is dropped while it waits.
unfoldable pub cancel : ℕ → SwapLock → SwapLock
unfolding remove_one
cancel m s = record s { waiting = remove_one m s.waiting }

-- What the tasks may do next. Whether calls are cancelled is a parameter.
pub data Step (may_cancel : Bool) : SwapLock → SwapLock → Type 0 where
  requests : (s : SwapLock) → Step may_cancel s (request s)
  acquires :
      (s : SwapLock) (m : ℕ)
      → 0 < count m s.waiting
      → count m s.holding ≡ 0
      → count m s.leaving ≡ 0
      → Step may_cancel s (acquire m s)
  releases : (s : SwapLock) (m : ℕ) → 0 < count m s.holding → Step may_cancel s (release m s)
  unlocks : (s : SwapLock) (m : ℕ) → 0 < count m s.leaving → Step may_cancel s (unlock m s)
  frees : (s : SwapLock) (m : ℕ) → 0 < count m s.freed → Step may_cancel s (free m s)
  cancels :
      (s : SwapLock) (m : ℕ)
      → may_cancel ≡ true
      → 0 < count m s.waiting
      → Step may_cancel s (cancel m s)

pub data Reach (may_cancel : Bool) : SwapLock → Type 0 where
  here : Reach may_cancel start
  next : {s t : SwapLock} → Reach may_cancel s → Step may_cancel s t → Reach may_cancel t
