-- ===== src/Subscriptions/Rebuild.antt =====
-- `_rebuild_cache_from_db`, under its lock: the active rows of the table are counted, read in
-- batches in the order of their ids, and written to the cache, a batch in one pipeline. The ids
-- are keys, so that their order is one. Other tasks and processes run at every wait of the loop,
-- and what the services answer there is part of the call. An exception of a service is not caught.
use omnimemory.Prelude.{
  ℕ, zero, suc, ◌+◌, Bool, [], ◌∷◌, length, take, drop, ltb, leb, if◌then◌else◌, Result, ok, err,
}
use omnimemory.Subscriptions.{
  Subscription, Table, HandlerSubscription, is_active, select_rows, cache_subscription, Reply,
  answered, raised,
}

abbrev pub cache_all : Table → HandlerSubscription → HandlerSubscription
cache_all [] h = h
cache_all ((id, s) ∷ rows) h = cache_all rows (cache_subscription h id s)

-- `ORDER BY id`
abbrev pub insert_by_id : ℕ → Subscription → Table → Table
insert_by_id id s [] = (id, s) ∷ []
insert_by_id id s ((j, r) ∷ rows) =
    if leb id j then (id, s) ∷ (j, r) ∷ rows else (j, r) ∷ insert_by_id id s rows

abbrev pub by_id : Table → Table
by_id [] = []
by_id ((id, s) ∷ rows) = insert_by_id id s (by_id rows)

-- `WHERE status = 'active' ORDER BY id`
unfoldable pub active_rows : HandlerSubscription → Table
active_rows h = by_id (select_rows (λ s. is_active s.status) h.rows)

pub data RebuildError : Type 0 where
  query_raised pipeline_raised : RebuildError

abbrev pub Outcome : Type 0
Outcome = HandlerSubscription × Result RebuildError (Unit {0})

-- A turn of the loop: what others do before its query runs, whether it is answered, what others do
-- before the pipeline runs, and how that ends.
pub record Turn : Type 0 where
  pub before_query : HandlerSubscription → HandlerSubscription
  pub query_answered : Bool
  pub before_write : HandlerSubscription → HandlerSubscription
  pub pipeline : Reply

-- A call: whether the `COUNT` is answered, and its turns.
pub record Rebuild : Type 0 where
  pub count_answered : Bool
  pub turns : ℕ → Turn

-- What the pipeline's reply leads to, with the handler whether it took effect or not.
abbrev pub piped : Reply → HandlerSubscription → HandlerSubscription → Outcome → Outcome
piped answered written before rest = rest
piped (raised done) written before rest = (if done then written else before, err pipeline_raised)

-- The part of a turn after its query.
abbrev pub batch_written : Table → Turn → HandlerSubscription → Outcome → Outcome
batch_written [] t g rest = (g, ok tt)
batch_written (r ∷ rows) t g rest =
    piped t.pipeline (cache_all (r ∷ rows) (t.before_write g)) (t.before_write g) rest

-- The loop with its `LIMIT` and `OFFSET`, from a turn on; it runs `total_count` times at most, as
-- a batch has at least one row.
unfoldable pub rebuild_loop : ℕ → ℕ → ℕ → ℕ → ℕ → (ℕ → Turn) → HandlerSubscription → Outcome
rebuild_loop zero batch n offset total turns h = (h, ok tt)
rebuild_loop (suc fuel) batch n offset total turns h =
    let g = (turns n).before_query h in
    let rows = take batch (drop offset (active_rows g)) in
    let rest =
      rebuild_loop fuel batch (suc n) (offset + batch) total turns
        (cache_all rows ((turns n).before_write g)) in
    if ltb offset total
    then (if (turns n).query_answered
        then batch_written rows (turns n) g rest
        else (g, err query_raised))
    else (h, ok tt)

unfoldable pub rebuild_cache_from_db : ℕ → Rebuild → HandlerSubscription → Outcome
unfolding rebuild_loop
rebuild_cache_from_db batch c h =
    if c.count_answered
    then (let total = length (select_rows (λ s. is_active s.status) h.rows) in
        rebuild_loop total batch 0 0 total c.turns h)
    else (h, err query_raised)
