-- ===== src/Ata/Search.antt =====
-- `find_program_address` of crates/lib/src/solana/ata.rs against the candidates of all bumps.
use boltz_client.Prelude.{
  ℕ, zero, suc, ◌<◌, ◌≡◌, refl, true, false, Bool-cases, inl, inr, List, sym, subst, arith, ◌==◌,
  ==_iff,
}
use boltz_client.Errors.{Result, ok, err}
use boltz_client.Crates.{Crates, Bytes, Bytes32}
use boltz_client.Ata.{candidate, create_program_address, search_bump, find_program_address}

module _ (c : Crates) (seeds : List Bytes) (program_id : Bytes32) where
  abbrev pub OnCurve : ℕ → Type 0
  OnCurve bump = c.decompresses (candidate c seeds bump program_id) ≡ true

  pub record IsGreatest (left : ℕ) (address : Bytes32) : Type 0 where
    pub bump : ℕ
    pub below : bump < left
    pub is_candidate : address ≡ candidate c seeds bump program_id
    pub off_curve : c.decompresses address ≡ false
    pub greatest : (later : ℕ) → bump < later → later < left → OnCurve later

  abbrev pub Found : ℕ → Result Bytes32 → Type 0
  Found left (ok address) = IsGreatest left address
  Found left (err e) = (bump : ℕ) → bump < left → OnCurve bump

  OnCurve-suc :
      (left later : ℕ)
      → OnCurve left
      → (later < left → OnCurve later)
      → later < suc left
      → OnCurve later
  OnCurve-suc left later h k l = elim (Bool-cases (later == left)) [
    | inl e ↦ rw ((==_iff later left).0 e) h
    | inr ne ↦ k (ground arith)
  ]

  Found-suc : (left : ℕ) (r : Result Bytes32) → OnCurve left → Found left r → Found (suc left) r
  Found-suc left (ok address) h f = record {
    bump = f.bump;
    below = omega (arith, f.below);
    is_candidate = f.is_candidate;
    off_curve = f.off_curve;
    greatest = λ later p. OnCurve-suc left later h (f.greatest later p);
  }
  Found-suc left (err e) h f = λ bump. OnCurve-suc left bump h (f bump)

  search_bump-OnCurve :
      (left : ℕ)
      → OnCurve left
      → search_bump c seeds program_id (suc left) ≡ search_bump c seeds program_id left
  unfolding search_bump create_program_address
  search_bump-OnCurve left on = ground arith

  search_bump_off_curve :
      (left : ℕ)
      → c.decompresses (candidate c seeds left program_id) ≡ false
      → search_bump c seeds program_id (suc left) ≡ ok (candidate c seeds left program_id)
  unfolding search_bump create_program_address
  search_bump_off_curve left off = ground arith

  search_bump_none : Found 0 (search_bump c seeds program_id 0)
  unfolding search_bump
  search_bump_none = λ bump l. absurd (omega arith)

  search_bump-Found : (left : ℕ) → Found left (search_bump c seeds program_id left)
  search_bump-Found zero = search_bump_none
  search_bump-Found (suc left) =
      elim (Bool-cases (c.decompresses (candidate c seeds left program_id))) [
        | inl on ↦
            subst (Found (suc left)) (sym (search_bump-OnCurve left on))
              (Found-suc left (search_bump c seeds program_id left) on (search_bump-Found left))
        | inr off ↦ subst (Found (suc left)) (sym (search_bump_off_curve left off)) (record {
          bump = left;
          below = omega arith;
          is_candidate = refl;
          off_curve = off;
          greatest = λ later p q. absurd (omega arith);
        })
      ]

  -- The address that is found is the candidate with the greatest bump off the curve; and the search
  -- fails only when all 256 candidates lie on the curve.
  pub find_program_address-Found : Found 256 (find_program_address c seeds program_id)
  unfolding find_program_address
  find_program_address-Found = search_bump-Found 256
