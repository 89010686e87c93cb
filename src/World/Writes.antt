-- ===== src/World/Writes.antt =====
-- The invariant of a handler that writes one row, since a world `w₀`: the row of `id` is as it was,
-- or is a swap with `P`, and no other row has changed.
use boltz_client.Prelude.{
  String, ◌≡◌, sym, subst, ◌∙◌, ap, Option, some, ◌⊎◌, inl, inr, eq_iff, arith,
}
use boltz_client.Errors.{ok}
use boltz_client.Models.{BoltzSwap}
use boltz_client.Outside.{Outside}
use boltz_client.World.{World}
use boltz_client.World.Store.{find_row, row, find_row-put_row, upsert_swap, get_swap, id-find_row}
use boltz_client.World.Effects.{Invariant, Keeps, Answers}

-- A write of the store, seen at one id.
row-upsert_swap :
    (o : Outside) (s : BoltzSwap) (j : String) (w : World)
    → (row j (upsert_swap o s w).1 ≡ row j w)
      ⊎ ((s.id ≡ j) × (row j (upsert_swap o s w).1 ≡ some s))
unfolding upsert_swap
row-upsert_swap o s j w = ground (arith, find_row-put_row j s w.rows, eq_iff s.id j)

pub row-get_swap :
    (o : Outside) (id : String) (w : World) {s : BoltzSwap}
    → (get_swap o id w).0 ≡ ok (some s)
    → row id w ≡ some s
unfolding get_swap
row-get_swap o id w {s} h = ground (arith, h)

some-inj : {s t : BoltzSwap} → ◌≡◌ {A = Option BoltzSwap} (some s) (some t) → s ≡ t
some-inj h = cc

module _ (P : BoltzSwap → Type 0) (id : String) (start : World) where
  abbrev pub RowWrite : String → World → Type 0
  RowWrite j w = (row j w ≡ row j start) ⊎ ((s : BoltzSwap) × (j ≡ id) × (row j w ≡ some s) × P s)

  abbrev pub Writes : World → Type 0
  Writes w = (j : String) → RowWrite j w

  pub requiet : (j : String) (w w' : World) → w'.rows ≡ w.rows → RowWrite j w → RowWrite j w'
  requiet j w w' e (inl p) = inl (ap (find_row j) e ∙ p)
  requiet j w w' e (inr (s, i, p, h)) = inr (s, i, ap (find_row j) e ∙ p, h)

  abbrev pub writes : Invariant
  writes = record { Holds = Writes; quiet = λ w w' rows sent h j. requiet j w w' rows (h j) }

  upsert_RowWrite :
      (o : Outside) (s : BoltzSwap) (j : String) (w : World)
      → s.id ≡ id
      → P s
      → RowWrite j w
      → (row j (upsert_swap o s w).1 ≡ row j w)
        ⊎ ((s.id ≡ j) × (row j (upsert_swap o s w).1 ≡ some s))
      → RowWrite j (upsert_swap o s w).1
  upsert_RowWrite o s j w e h (inl p) (inl q) = inl (q ∙ p)
  upsert_RowWrite o s j w e h (inr (t, i, p, k)) (inl q) = inr (t, i, q ∙ p, k)
  upsert_RowWrite o s j w e h before (inr (i, q)) = inr (s, sym i ∙ e, q, h)

  pub Keeps-upsert_swap :
      (o : Outside) (s : BoltzSwap) → s.id ≡ id → P s → Keeps writes (upsert_swap o s)
  Keeps-upsert_swap o s e h = record {
    at = λ w before j. upsert_RowWrite o s j w e h (before j) (row-upsert_swap o s j w);
  }

  at_start_or_written :
      (s : BoltzSwap) (w : World)
      → row id w ≡ some s
      → RowWrite id w
      → (row id start ≡ some s) ⊎ P s
  at_start_or_written s w seen (inl p) = inl (sym p ∙ seen)
  at_start_or_written s w seen (inr (t, i, p, h)) = inr (subst P (some-inj (sym p ∙ seen)) h)

  same_or_written :
      (old s : BoltzSwap) (w : World)
      → row id start ≡ some old
      → row id w ≡ some s
      → RowWrite id w
      → (s ≡ old) ⊎ P s
  same_or_written old s w e seen (inl p) = inl (some-inj (sym seen ∙ p ∙ e))
  same_or_written old s w e seen (inr (t, i, p, h)) = inr (subst P (some-inj (sym p ∙ seen)) h)

  -- A row that is read back is the one at the start, or one that was written.
  pub read_back :
      {old : BoltzSwap} (o : Outside) {s : BoltzSwap}
      → row id start ≡ some old
      → Answers writes (get_swap o id) (ok (some s))
      → (s.id ≡ id) × ((s ≡ old) ⊎ P s)
  read_back {old} o {s} e a =
      let seen = row-get_swap o id a.from a.gives in
      (id-find_row id a.from.rows seen, same_or_written old s a.from e seen (a.before id))

  -- The same where it is not known that there was a row.
  pub read_back_row :
      (o : Outside) {s : BoltzSwap}
      → Answers writes (get_swap o id) (ok (some s))
      → (s.id ≡ id) × ((row id start ≡ some s) ⊎ P s)
  read_back_row o {s} a =
      let seen = row-get_swap o id a.from a.gives in
      (id-find_row id a.from.rows seen, at_start_or_written s a.from seen (a.before id))
