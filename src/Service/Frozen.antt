-- ===== src/Service/Frozen.antt =====
-- Which rows the handlers and the requests of the application may change: lemmas for `Commands`.
use boltz_client.Prelude.{
  ℕ, String, ◌≡◌, refl, subst, sym, ap, ◌∙◌, Bool-cases, true, false, Option, none, some, ◌⊎◌, inl,
  inr, arith,
}
use boltz_client.Errors.{Result, ok, err, ok_or, store}
use boltz_client.Models.{BoltzSwap}
use boltz_client.Models.Lifecycle.{
  Status, created, invoice_paid, tbtc_locked, claiming, settling, completed, expired, failed,
  is_terminal, is_settling,
}
use boltz_client.Slippage.{resolve_slippage_bps}
use boltz_client.World.{World, Executor}
use boltz_client.World.Action.{M, pure, ◌>>=◌, ◌>?>◌, on_ok}
use boltz_client.World.Store.{row, find_row, get_swap, id-find_row}
use boltz_client.World.Effects.{
  Keeps, Keeps-quiet, Keeps-pure, Keeps-if, Keeps-bind, Keeps-try, Said-of_Answers,
  IsQuiet-get_swap, quiet_rules,
}
use boltz_client.World.Writes.{writes, row-get_swap, Keeps-upsert_swap}
use boltz_client.Manager.Events.{SwapStatusUpdate}
use boltz_client.Manager.Moves.Update.{Advances}
use boltz_client.Manager.Rules.{
  Rules, Follows, Follows-old, just_claimed, terms, is_open, given-update_swap_status, id-of_terms,
}
use boltz_client.Manager.Recovery.{Keeps-open, Keeps-claim_and_swap}
use boltz_client.Manager.Polled.{Polled}
use boltz_client.Service.{
  may_accept, forced_claim, accept_loaded, accept_degraded_quote, set_slippage,
  update_swap_slippage,
}

-- A row changes only if the swap in it is not terminal.
abbrev pub Spares : World → World → String → Type 0
Spares w w' j =
    (row j w' ≡ row j w)
    ⊎ ((old : BoltzSwap) × (row j w ≡ some old) × (is_terminal old.status ≡ false))

open-not_terminal : (status : Status) → is_open status ≡ true → is_terminal status ≡ false
open-not_terminal status h = ground arith

settling-not_terminal : (status : Status) → is_settling status ≡ true → is_terminal status ≡ false
unfolding is_settling is_terminal
settling-not_terminal settling h = refl
settling-not_terminal claiming h = refl
settling-not_terminal created h = refl
settling-not_terminal invoice_paid h = refl
settling-not_terminal tbtc_locked h = refl
settling-not_terminal completed h = cc
settling-not_terminal (failed reason) h = cc
settling-not_terminal expired h = cc

may_accept-is_open : (status : Status) → may_accept status ≡ true → is_open status ≡ true
unfolding may_accept is_settling is_terminal
may_accept-is_open tbtc_locked h = refl
may_accept-is_open claiming h = refl
may_accept-is_open created h = refl
may_accept-is_open invoice_paid h = refl
may_accept-is_open settling h = cc
may_accept-is_open completed h = cc
may_accept-is_open (failed reason) h = cc
may_accept-is_open expired h = cc

module _ (x : Executor) (w : World) (j : String) where
  pub Spares-of_Advances :
      (update : SwapStatusUpdate) (w' : World) → Advances x update w w' j → Spares w w' j
  Spares-of_Advances update w' (inl p) = inl p
  Spares-of_Advances update w' (inr (old, s, i, p, q, m)) =
      inr (old, p, open-not_terminal old.status m.was_open)

  pub Spares-of_Polled : (swap : BoltzSwap) (w' : World) → Polled x swap w w' j → Spares w w' j
  Spares-of_Polled swap w' (inl p) = inl p
  Spares-of_Polled swap w' (inr (old, s, i, p, q, inl c)) =
      inr (old, p, settling-not_terminal old.status c.was_settling)
  Spares-of_Polled swap w' (inr (old, s, i, p, q, inr m)) =
      inr (old, p, open-not_terminal old.status m.was_open)

module _ (x : Executor) (old : BoltzSwap) (id : String) (start : World)
    (at_start : row id start ≡ some old) where
  abbrev Following : BoltzSwap → Type 0
  Following s = Follows x old s

  Following-Rules : Rules x old Following
  Following-Rules = record {
    follows = λ s e. e;
    opened = λ t f locked s e which. e;
    noted = λ s hash call_id now either accounted. elim either [
      | inl same ↦ (ap terms same, accounted)
      | inr e ↦ (e.0, accounted)
    ];
    confirmed = λ s tx_hash receipt e ours said success evidence p. e;
    gave_up = λ s t reason e f said p. e;
  }

  Keeps-forced_claim : Keeps (writes Following id start) (forced_claim x old)
  unfolding forced_claim
  Keeps-forced_claim =
      let I = writes Following id start in
      let rules = Following-Rules in
      Keeps-bind I
        (Keeps-open x old Following rules id start at_start old claiming (Follows-old x old)
          (inl refl) (λ s e which. e))
        λ s a.
          let (set_at, same) = given-update_swap_status x old claiming (Said-of_Answers a) in
          let terms_s : Following s = subst Following (sym same) (Follows-old x old) in
          let id_s = id-of_terms x old Following rules id start at_start s terms_s in
          Keeps-try I (Keeps-claim_and_swap x old Following rules id start at_start s true id_s)
            λ tx_hash c. Keeps-bind I (Keeps-quiet I (search (quiet_rules))) λ now _.
              Keeps-try I
                (Keeps-upsert_swap Following id start x.outside
                  (record s { claim_tx_hash = some tx_hash; updated_at = now }) id_s
                  (terms_s.0, just_claimed s true tx_hash refl terms_s.0 (Said-of_Answers c)))
                (λ _ _. Keeps-pure I _)

  Keeps-set_slippage :
      (bps : ℕ)
      → Keeps (writes (λ s. is_terminal old.status ≡ false) id start) (set_slippage x bps old)
  unfolding set_slippage
  Keeps-set_slippage bps =
      let P = λ (s : BoltzSwap). is_terminal old.status ≡ false in
      let I = writes P id start in
      Keeps-if I (is_terminal old.status) (λ _. Keeps-pure I _)
        λ not_terminal. Keeps-bind I (Keeps-quiet I (search (quiet_rules))) λ now _.
          Keeps-try I
            (Keeps-upsert_swap P id start x.outside
              (record old { slippage_bps = bps; updated_at = now })
              (id-find_row id start.rows at_start) not_terminal)
            (λ _ _. Keeps-pure I _)

module _ (x : Executor) (old : BoltzSwap) (id : String) (start : World)
    (at_start : row id start ≡ some old) (v : World) (same : v.rows ≡ start.rows) (j : String) where
  Spares-forced_claim : is_open old.status ≡ true → Spares start (forced_claim x old v).1 j
  Spares-forced_claim o =
      elim ((Keeps-forced_claim x old id start at_start).at v (λ k. inl (ap (find_row k) same)) j) [
        | inl p ↦ inl p
        | inr (s, i, p, m) ↦
            inr (old, ap (λ k. row k start) i ∙ at_start, open-not_terminal old.status o)
      ]

  Spares-accept_loaded : Spares start (accept_loaded x old v).1 j
  unfolding accept_loaded pure
  Spares-accept_loaded = elim (Bool-cases (may_accept old.status)) [
    | inl may ↦ rw may (Spares-forced_claim (may_accept-is_open old.status may))
    | inr not ↦ rw not (inl (ap (find_row j) same))
  ]

  Spares-set_slippage : (bps : ℕ) → Spares start (set_slippage x bps old v).1 j
  Spares-set_slippage bps =
      elim ((Keeps-set_slippage x old id start at_start bps).at v (λ k. inl (ap (find_row k) same))
        j) [ inl p ↦ inl p | inr (s, i, p, h) ↦ inr (old, ap (λ k. row k start) i ∙ at_start, h) ]

-- A request that loads the swap and goes on with it.
module _ (x : Executor) (id : String) (start : World) (j : String)
    (go : BoltzSwap → M (Result BoltzSwap))
    (goes : (old : BoltzSwap)
      → row id start ≡ some old
      → (v : World) → v.rows ≡ start.rows
      → Spares start (go old v).1 j) where
  Spares-loaded :
      (found : Result (Option BoltzSwap)) (v : World)
      → (get_swap x.outside id start).0 ≡ found
      → v.rows ≡ start.rows
      → Spares start
          (on_ok (λ found. pure (ok_or found (store "Swap not found")) >?> go) found v).1
          j
  unfolding pure ◌>>=◌
  Spares-loaded (err e) v g same = inl (ap (find_row j) same)
  Spares-loaded (ok none) v g same = inl (ap (find_row j) same)
  Spares-loaded (ok (some old)) v g same = goes old (row-get_swap x.outside id start g) v same

  Spares-load :
      Spares start
        ((get_swap x.outside id >?> λ found. pure (ok_or found (store "Swap not found")) >?> go)
          start).1
        j
  unfolding ◌>>=◌
  Spares-load =
      Spares-loaded (get_swap x.outside id start).0 (get_swap x.outside id start).1 refl
        ((IsQuiet-get_swap x.outside id).rows start)

pub Spares-accept_degraded_quote :
    (x : Executor) (id : String) (w : World) (j : String)
    → Spares w (accept_degraded_quote x id w).1 j
unfolding accept_degraded_quote
Spares-accept_degraded_quote x id w j =
    Spares-load x id w j (accept_loaded x)
      (λ old q v same. Spares-accept_loaded x old id w q v same j)

pub Spares-update_swap_slippage :
    (x : Executor) (config_default : ℕ) (id : String) (slippage_bps : ℕ) (w : World) (j : String)
    → Spares w (update_swap_slippage x config_default id slippage_bps w).1 j
unfolding update_swap_slippage ◌>>=◌ pure
Spares-update_swap_slippage x config_default id slippage_bps w j =
    elim (resolve_slippage_bps (some slippage_bps) config_default)
      as (λ r.
        Spares w
          (on_ok
            (λ bps. get_swap x.outside id >?> λ found.
              pure (ok_or found (store "Swap not found")) >?> set_slippage x bps)
            r w).1
          j) [
            | ok bps ↦
                Spares-load x id w j (set_slippage x bps)
                  (λ old q v same. Spares-set_slippage x old id w q v same j bps)
            | err e ↦ inl refl
          ]
