-- ===== src/Subscriptions/Looks.antt =====
-- `_get_subscribers_for_topic` called twice: the table's answer, then the cache's.
use omnimemory.Prelude.{ℕ, Bool, false, List, Result, ok, err}
use omnimemory.Prelude.Equality.{eq_ℕ}
use omnimemory.Prelude.Dict.{Dict}
use omnimemory.Subscriptions.{HandlerSubscription, select_rows, Exception, member}
use omnimemory.Subscriptions.Reads.{keys, on_topic}

-- Whether an answer has an id.
abbrev pub answers : ℕ → Result Exception (List ℕ) → Bool
answers x (ok ids) = member x ids
answers x (err e) = false

-- The active subscriptions of a topic.
abbrev pub active_ids : ℕ → HandlerSubscription → List ℕ
active_ids topic h = keys (select_rows (on_topic topic) h.rows)
