-- ===== src/World/Store.antt =====
-- The store of crates/lib/src/store.rs, the tracked ids, and the WebSocket subscriptions of
-- crates/lib/src/api/ws.rs.
use boltz_client.Prelude.{
  String, ◌≡◌, refl, Bool, true, false, Option, none, some, List, [], ◌∷◌, arith, same_text, eq_iff,
  if◌then◌else◌,
}
use boltz_client.Errors.{BoltzError, Result, ok, err}
use boltz_client.Models.{BoltzSwap}
use boltz_client.Models.Lifecycle.{is_terminal}
use boltz_client.World.{World}
use boltz_client.Outside.{Outside}
use boltz_client.World.Action.{M, ◌>>=◌, ask}

unfoldable pub find_row : String → List BoltzSwap → Option BoltzSwap
find_row id [] = none
find_row id (s ∷ rows) = if same_text s.id id then some s else find_row id rows

unfoldable pub put_row : BoltzSwap → List BoltzSwap → List BoltzSwap
put_row swap [] = swap ∷ []
put_row swap (s ∷ rows) = if same_text s.id swap.id then swap ∷ rows else s ∷ put_row swap rows

unfoldable pub active_rows : List BoltzSwap → List BoltzSwap
active_rows [] = []
active_rows (s ∷ rows) =
    let rest = active_rows rows in if is_terminal s.status then rest else s ∷ rest

-- A row found under an id has that id.
pub id-find_row :
    (id : String) (rows : List BoltzSwap) {s : BoltzSwap} → find_row id rows ≡ some s → s.id ≡ id
unfolding find_row
id-find_row id [] h = cc
id-find_row id (r ∷ rows) {s} h = ground (arith, eq_iff r.id id, id-find_row id rows {s = s})

-- A write is read back under its id, and changes no other row.
pub find_row-put_row :
    (id : String) (swap : BoltzSwap) (rows : List BoltzSwap)
    → find_row id (put_row swap rows)
      ≡ (if same_text swap.id id then some swap else find_row id rows)
unfolding find_row put_row
find_row-put_row id swap [] = refl
find_row-put_row id swap (r ∷ rows) =
    ground
      (arith, eq_iff swap.id id, eq_iff r.id id, eq_iff r.id swap.id, find_row-put_row id swap rows)

abbrev pub row : String → World → Option BoltzSwap
row id w = find_row id w.rows

unfoldable pub write : Option BoltzError → BoltzSwap → M (Result (Unit {0}))
write none swap w = (ok tt, record w { rows = put_row swap w.rows })
write (some e) swap w = (err e, w)

unfoldable pub upsert_swap : Outside → BoltzSwap → M (Result (Unit {0}))
unfolding write ◌>>=◌ ask
upsert_swap o swap = do fault ← ask o.upsert_fault; write fault swap

unfoldable pub read : Option BoltzError → String → M (Result (Option BoltzSwap))
read none id w = (ok (row id w), w)
read (some e) id w = (err e, w)

unfoldable pub get_swap : Outside → String → M (Result (Option BoltzSwap))
unfolding read ◌>>=◌ ask
get_swap o id = do fault ← ask o.get_fault; read fault id

unfoldable pub list : Option BoltzError → M (Result (List BoltzSwap))
list none w = (ok (active_rows w.rows), w)
list (some e) w = (err e, w)

unfoldable pub list_active_swaps : Outside → M (Result (List BoltzSwap))
unfolding list ◌>>=◌ ask
list_active_swaps o = do fault ← ask o.list_fault; list fault

-- `HashSet` of ids.
unfoldable pub contains : String → List String → Bool
contains id [] = false
contains id (j ∷ ids) = if same_text j id then true else contains id ids

unfoldable pub insert_id : String → List String → List String
unfolding contains
insert_id id ids = if contains id ids then ids else id ∷ ids

unfoldable pub remove_id : String → List String → List String
remove_id id [] = []
remove_id id (j ∷ ids) = let rest = remove_id id ids in if same_text j id then rest else j ∷ rest

unfoldable pub track : String → M (Unit {0})
unfolding insert_id
track id w = (tt, record w { tracked = insert_id id w.tracked })

unfoldable pub untrack : String → M (Unit {0})
unfolding remove_id
untrack id w = (tt, record w { tracked = remove_id id w.tracked })

unfoldable pub is_tracked : String → M Bool
unfolding contains
is_tracked id w = (contains id w.tracked, w)

told : Option BoltzError → String → M (Result (Unit {0}))
told none id w = (ok tt, record w { subscribed = insert_id id w.subscribed })
told (some e) id w = (err e, w)

-- `SwapStatusSubscriber::subscribe`: the reader loop is told, unless it is gone.
unfoldable pub subscribe : Outside → String → M (Result (Unit {0}))
unfolding told ◌>>=◌ ask insert_id
subscribe o id = do fault ← ask o.subscribe_fault; told fault id

untold : Option BoltzError → String → M (Unit {0})
untold none id w = (tt, record w { subscribed = remove_id id w.subscribed })
untold (some e) id w = (tt, w)

-- `SwapStatusSubscriber::unsubscribe`: a loop that is gone is only logged.
unfoldable pub unsubscribe : Outside → String → M (Unit {0})
unfolding untold ◌>>=◌ ask remove_id
unsubscribe o id = do fault ← ask o.subscribe_fault; untold fault id
