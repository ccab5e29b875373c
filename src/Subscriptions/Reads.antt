-- ===== src/Subscriptions/Reads.antt =====
-- The reading calls of `HandlerSubscription`: `notify`, and `list_subscriptions` without pages.
use omnimemory.Prelude.{
  ℕ, ◌+◌, Bool, not, ◌&&◌, Option, none, some, List, [], ◌∷◌, ◌++◌, length, Result, ok, err, leb,
  if◌then◌else◌, ◌==◌,
}
use omnimemory.Prelude.Equality.{eq_ℕ}
use omnimemory.Prelude.Dict.{Dict, lookup, insert}
use omnimemory.Subscriptions.{
  Subscription, Table, HandlerSubscription, is_active, smembers, sadd, select_rows, Reply,
  took_effect, Exception, value_error, database_error, publish_error,
}

abbrev pub keys : Table → List ℕ
keys [] = []
keys ((id, s) ∷ rows) = id ∷ keys rows

abbrev pub sadd_all : ℕ → List ℕ → Dict ℕ (List ℕ) → Dict ℕ (List ℕ)
sadd_all key [] sets = sets
sadd_all key (id ∷ ids) sets = sadd_all key ids (sadd key id sets)

-- `WHERE topic = … AND status = 'active'`
abbrev pub on_topic : ℕ → Subscription → Bool
on_topic topic s = s.topic == topic && is_active s.status

-- What the services answer to a look at the subscribers of a topic.
pub record Look : Type 0 where
  pub smembers_answered : Bool
  pub query_answered : Bool
  pub cache_reply : Reply

-- The part of `_get_subscribers_for_topic` after the look at the cache; a set that is empty, or a
-- cache that fails, leaves it to the table.
unfoldable pub subscribers :
    HandlerSubscription → ℕ → Look → List ℕ → HandlerSubscription × Result Exception (List ℕ)
subscribers h topic q (id ∷ ids) = (h, ok (id ∷ ids))
subscribers h topic q [] =
    if not q.query_answered
    then (h, err database_error)
    else (let ids = keys (select_rows (on_topic topic) h.rows) in
        (
          if took_effect q.cache_reply
              then record h { topic_subscribers = sadd_all topic ids h.topic_subscribers }
              else h,
          ok ids,
        ))

-- `_get_subscribers_for_topic`
unfoldable pub get_subscribers_for_topic :
    HandlerSubscription → ℕ → Look → HandlerSubscription × Result Exception (List ℕ)
unfolding subscribers
get_subscribers_for_topic h topic q =
    subscribers h topic q (if q.smembers_answered then smembers topic h.topic_subscribers else [])

-- A call of `notify`.
pub record Notify : Type 0 where
  pub topic : ℕ
  pub event_topic : ℕ
  pub strict : Bool
  pub look : Look
  pub publish_answered : Bool

-- The part of `notify` after the look; an event for nobody is not published.
unfoldable pub publish :
    Notify
    → HandlerSubscription × Result Exception (List ℕ)
    → HandlerSubscription × Result Exception ℕ
publish c (h, err x) = (h, err x)
publish c (h, ok []) = (h, ok 0)
publish c (h, ok (id ∷ ids)) =
    if c.publish_answered
    then (
      record h {
        metrics = record (h.metrics) {
          notifications_published = h.metrics.notifications_published + 1;
        };
      },
      ok (length (id ∷ ids)),
    )
    else if c.strict
    then (h, err publish_error)
    else (h, ok 0)

unfoldable pub notify : HandlerSubscription → Notify → HandlerSubscription × Result Exception ℕ
unfolding publish get_subscribers_for_topic
notify h c =
    if not (c.event_topic == c.topic)
    then (h, err value_error)
    else publish c (get_subscribers_for_topic h c.topic c.look)

-- What the services answer to a list: `smembers`, `mget`, the query for what is missing, the
-- writes of it to the cache, and the query of the fallback.
pub record Listing : Type 0 where
  pub agent_id : ℕ
  pub smembers_answered : Bool
  pub mget_answered : Bool
  pub query_answered : Bool
  pub set_reply : Reply
  pub fallback_answered : Bool

-- What a table has of some ids, and the ids that it has not.
abbrev pub rows_of : List ℕ → Table → Table
rows_of [] rows = []
rows_of (id ∷ ids) rows = elim (lookup id rows) [
  | none ↦ rows_of ids rows
  | some s ↦ (id, s) ∷ rows_of ids rows
]

abbrev pub missing : List ℕ → Table → List ℕ
missing [] rows = []
missing (id ∷ ids) rows = elim (lookup id rows) [
  | none ↦ id ∷ missing ids rows
  | some s ↦ missing ids rows
]

abbrev pub store_all : Table → Table → Table
store_all [] entries = entries
store_all ((id, s) ∷ rows) entries = store_all rows (insert id s entries)

-- `_load_subscriptions`, given what the cache has; `none` is an exception of the query.
unfoldable pub load_missing :
    HandlerSubscription → Listing → Table → List ℕ → HandlerSubscription × Option Table
load_missing h c cached [] = (h, some cached)
load_missing h c cached (id ∷ ids) =
    if not c.query_answered
    then (h, none)
    else (let found = rows_of (id ∷ ids) h.rows in
        (
          if took_effect c.set_reply then record h { entries = store_all found h.entries } else h,
          some (cached ++ found),
        ))

unfoldable pub load_subscriptions :
    HandlerSubscription → Listing → List ℕ → HandlerSubscription × Option Table
unfolding load_missing
load_subscriptions h c ids =
    if c.mget_answered
    then load_missing h c (rows_of ids h.entries) (missing ids h.entries)
    else load_missing h c [] ids

-- `ORDER BY created_at DESC`
abbrev pub place : ℕ × Subscription → Table → Table
place (id, s) [] = (id, s) ∷ []
place (id, s) ((other, r) ∷ rows) =
    if leb r.created_at s.created_at
    then (id, s) ∷ (other, r) ∷ rows
    else (other, r) ∷ place (id, s) rows

abbrev pub newest_first : Table → Table
newest_first [] = []
newest_first (r ∷ rows) = place r (newest_first rows)

abbrev pub of_agent : ℕ → Subscription → Bool
of_agent agent s = s.agent_id == agent && is_active s.status

-- `_get_subscriptions_from_db`
unfoldable pub get_subscriptions_from_db :
    HandlerSubscription → Listing → HandlerSubscription × Result Exception Table
get_subscriptions_from_db h c =
    if c.fallback_answered
    then (h, ok (newest_first (select_rows (of_agent c.agent_id) h.rows)))
    else (h, err database_error)

unfoldable pub listed :
    Listing → HandlerSubscription × Option Table → HandlerSubscription × Result Exception Table
unfolding get_subscriptions_from_db
listed c (h, some found) = (h, ok (select_rows (λ s. is_active s.status) found))
listed c (h, none) = get_subscriptions_from_db h c

unfoldable pub list_cached :
    HandlerSubscription → Listing → List ℕ → HandlerSubscription × Result Exception Table
unfolding listed load_subscriptions get_subscriptions_from_db
list_cached h c [] = get_subscriptions_from_db h c
list_cached h c (id ∷ ids) = listed c (load_subscriptions h c (id ∷ ids))

unfoldable pub list_subscriptions :
    HandlerSubscription → Listing → HandlerSubscription × Result Exception Table
unfolding list_cached
list_subscriptions h c =
    list_cached h c (if c.smembers_answered then smembers c.agent_id h.agent_subscriptions else [])
