-- ===== src/Sponsor/Decided.antt =====
-- What the poll of crates/lib/src/evm/alchemy.rs decides, and on which reply.
use native.Mathlib.Decide.{dec_lt}
use boltz_client.Prelude.{
  ◌⊎◌, inl, inr, ◌≤◌, ℕ, zero, suc, ◌+◌, ◌<◌, ◌≡◌, refl, ◌∙◌, subst, String, Bool, true, false,
  Option, none, some, arith, eq_iff, same_text, ap, if◌then◌else◌,
}
use boltz_client.Errors.{BoltzError, Result, ok, err, evm}
use boltz_client.Sponsor.{
  CallsStatus, CallStatus, confirmed, failed, pending, is_revert, hash_of, status_of,
  confirmed_with, by_status, classify_receipt_status, classify_calls_status, or_timeout, on_status,
  on_answer, max_poll_attempts, poll_for, poll_call_status,
}

-- The reply's code, if it has one, is not that of a revert.
abbrev pub NoRevert : Option ℕ → Type 0
NoRevert status = (status ≡ none) ⊎ ((code : ℕ) × (status ≡ some code) × (code < 300))

-- The reply has no code of a revert, and its first receipt succeeded with this hash.
pub record Succeeded (raw : CallsStatus) (tx_hash : String) : Type 0 where
  pub no_revert : NoRevert raw.status
  pub status : status_of raw.first_receipt ≡ some "0x1"
  pub hash : hash_of raw.first_receipt ≡ some tx_hash

-- The reply has a code of a revert, or its first receipt failed.
pub data Reverted (raw : CallsStatus) : Type 0 where
  by_code : (code : ℕ) → raw.status ≡ some code → 300 ≤ code → Reverted raw
  by_receipt : status_of raw.first_receipt ≡ some "0x0" → Reverted raw

-- An attempt that decided nothing.
pub data Open : Result CallsStatus → Type 0 where
  no_reply : (e : BoltzError) → Open (err e)
  not_final : (raw : CallsStatus) → classify_calls_status raw ≡ pending → Open (ok raw)

-- The end of the poll. The reply of an attempt decides it, or none of the 60 does.
pub data Decided (answer : ℕ → Result CallsStatus) : Result String → Type 0 where
  succeeded :
      (k : ℕ) (raw : CallsStatus) (tx_hash : String)
      → k < 60
      → answer k ≡ ok raw
      → Succeeded raw tx_hash
      → Decided answer (ok tx_hash)
  reverted :
      (k : ℕ) (raw : CallsStatus) (reason : String)
      → k < 60
      → answer k ≡ ok raw
      → Reverted raw
      → Decided answer (err (evm reason (hash_of raw.first_receipt)))
  undecided : (e : BoltzError) → ((k : ℕ) → k < 60 → Open (answer k)) → Decided answer (err e)

-- A classification and what the reply had.
data Read (raw : CallsStatus) : CallStatus → Type 0 where
  success : (tx_hash : String) → Succeeded raw tx_hash → Read raw (confirmed tx_hash)
  revert : (reason : String) → Reverted raw → Read raw (failed reason (hash_of raw.first_receipt))
  unclear : Read raw pending

module _ (raw : CallsStatus) (no_revert : NoRevert raw.status) where
  Read-success :
      (tx_hash : Option String)
      → status_of raw.first_receipt ≡ some "0x1"
      → hash_of raw.first_receipt ≡ tx_hash
      → Read raw (confirmed_with tx_hash)
  unfolding confirmed_with
  Read-success none status hash = unclear
  Read-success (some tx_hash) status hash =
      success tx_hash (record { no_revert = no_revert; status = status; hash = hash })

  Read-by_status :
      (status : Option String)
      → status_of raw.first_receipt ≡ status
      → Read raw (by_status status (hash_of raw.first_receipt))
  unfolding by_status
  Read-by_status none e = unclear
  Read-by_status (some status) e =
      by_test (same_text status "0x1") refl (same_text status "0x0") refl
    where
      by_test :
          (good : Bool)
          → same_text status "0x1" ≡ good
          → (bad : Bool) → same_text status "0x0" ≡ bad
          → Read raw (
              if good
              then confirmed_with (hash_of raw.first_receipt)
              else if bad
              then failed "Transaction reverted" (hash_of raw.first_receipt)
              else pending)
      by_test true g bad b =
          Read-success (hash_of raw.first_receipt)
            (e ∙ ap (λ s. some s) ((eq_iff status "0x1").0 g)) refl
      by_test false g true b =
          revert "Transaction reverted"
            (by_receipt (e ∙ ap (λ s. some s) ((eq_iff status "0x0").0 b)))
      by_test false g false b = unclear

NoRevert-is_revert : (status : Option ℕ) → is_revert status ≡ false → NoRevert status
unfolding is_revert
NoRevert-is_revert none h = inl refl
NoRevert-is_revert (some code) h = inr (code, refl, ground (arith, h))

Reverted-is_revert :
    (raw : CallsStatus) (status : Option ℕ)
    → raw.status ≡ status
    → is_revert status ≡ true
    → Reverted raw
unfolding is_revert
Reverted-is_revert raw none e h = absurd (cc)
Reverted-is_revert raw (some code) e h = by_code code e (ground (arith, h))

Read-classify_calls_status : (raw : CallsStatus) → Read raw (classify_calls_status raw)
unfolding classify_calls_status classify_receipt_status
Read-classify_calls_status raw = by_test (is_revert raw.status) refl
  where
    by_test :
        (bad : Bool)
        → is_revert raw.status ≡ bad
        → Read raw (
            if bad
            then failed "Sponsored call failed" (hash_of raw.first_receipt)
            else by_status (status_of raw.first_receipt) (hash_of raw.first_receipt))
    by_test true e = revert "Sponsored call failed" (Reverted-is_revert raw raw.status refl e)
    by_test false e =
        Read-by_status raw (NoRevert-is_revert raw.status e) (status_of raw.first_receipt) refl

module _ (answer : ℕ → Result CallsStatus) where
  one_more :
      (attempt : ℕ)
      → ((k : ℕ) → k < attempt → Open (answer k))
      → Open (answer attempt)
      → (k : ℕ) → k < suc attempt
      → Open (answer k)
  one_more attempt before here k h = elim (dec_lt k attempt) [
    | yes earlier ↦ before k earlier
    | no late ↦ subst (λ n. Open (answer n)) (omega (arith, late, h)) here
  ]

  Decided-on_status :
      (attempt : ℕ) (raw : CallsStatus) (status : CallStatus) (rest : Result String)
      → attempt < 60
      → answer attempt ≡ ok raw
      → Read raw status
      → (status ≡ pending → Decided answer rest)
      → Decided answer (on_status status rest)
  unfolding on_status
  Decided-on_status attempt raw _ rest small e (success tx_hash s) next =
      succeeded attempt raw tx_hash small e s
  Decided-on_status attempt raw _ rest small e (revert reason r) next =
      reverted attempt raw reason small e r
  Decided-on_status attempt raw _ rest small e unclear next = next refl

  Decided-on_answer :
      (attempt : ℕ) (r : Result CallsStatus) (rest : Option BoltzError → Result String)
      → attempt < 60
      → answer attempt ≡ r
      → (Open r → (last_err : Option BoltzError) → Decided answer (rest last_err))
      → Decided answer (on_answer r rest)
  unfolding on_answer
  Decided-on_answer attempt (err e) rest small eq next = next (no_reply e) (some e)
  Decided-on_answer attempt (ok raw) rest small eq next =
      Decided-on_status attempt raw (classify_calls_status raw) (rest none) small eq
        (Read-classify_calls_status raw) (λ final. next (not_final raw final) none)

  Decided-poll_for :
      (left attempt : ℕ) (last_err : Option BoltzError)
      → attempt + left ≡ 60
      → ((k : ℕ) → k < attempt → Open (answer k))
      → Decided answer (poll_for answer left attempt last_err)
  unfolding poll_for
  Decided-poll_for zero attempt last_err all before =
      undecided (or_timeout last_err) (λ k h. before k (omega (arith, h, all)))
  Decided-poll_for (suc left) attempt last_err all before =
      Decided-on_answer attempt (answer attempt) (poll_for answer left (suc attempt))
        (omega (arith, all)) refl
        (λ here last.
          Decided-poll_for left (suc attempt) last (omega (arith, all))
            (one_more attempt before here))

  -- The poll of a sponsored call asks 60 times at most. It gives a hash only when a reply has no code of
  -- 300 or more and a first receipt with that hash and the status `0x1`. It gives an error only when a
  -- reply has a code of 300 or more or a first receipt with the status `0x0`, and then names that
  -- receipt's hash, or when none of the 60 attempts had a final reply.
  pub poll_call_status-Decided : Decided answer (poll_call_status answer)
  unfolding poll_call_status
  poll_call_status-Decided =
      Decided-poll_for max_poll_attempts 0 none refl (λ k h. absurd (omega (arith, h)))
