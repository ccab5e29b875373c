-- ===== src/Subscriptions.antt =====
-- `HandlerSubscription` of src/omnimemory/handlers/handler_subscription.py: subscriptions of
-- agents to topics, kept in PostgreSQL and cached in Valkey. An agent, a topic, a subscription's
-- id and an instant are numbers, and metadata is a text. A call runs from its start to its end:
-- calls that interleave are left out, but for what happens during a rebuild of the cache. What the
-- services answer is part of the call. No key of the cache expires: times to live and their refresh
-- are left out. The pattern of a topic is a parameter.
pub mod Rows
pub mod Reads
pub mod Ideal
pub mod Writes
pub mod Contract
pub mod Ghost
pub mod Rebuild
pub mod Restart
pub mod Listed
pub mod Looks
pub mod Resubscribe
mod Tests
use omnimemory.Prelude.{
  ℕ, zero, suc, ◌+◌, Bool, true, false, not, ◌&&◌, Option, none, some, List, [], ◌∷◌, ◌++◌, length,
  String, Result, ok, err, ltb, if◌then◌else◌, ◌==◌,
}
use omnimemory.Prelude.Equality.{Eq, eq_ℕ}
use omnimemory.Prelude.Dict.{Dict, lookup, insert, erase}

-- `EnumSubscriptionStatus`; the handler suspends none.
pub data SubscriptionStatus : Type 0 where
  active suspended deleted : SubscriptionStatus

-- `ModelSubscription`, without its id, which is its key in the table and in the cache.
pub record Subscription : Type 0 where
  pub agent_id : ℕ
  pub topic : ℕ
  pub status : SubscriptionStatus
  pub created_at : ℕ
  pub updated_at : ℕ
  pub metadata : Option String

abbrev pub is_active : SubscriptionStatus → Bool
is_active active = true
is_active x = false

abbrev pub is_deleted : SubscriptionStatus → Bool
is_deleted deleted = true
is_deleted x = false

-- The table `subscriptions` by its primary key.
abbrev pub Table : Type 0
Table = Dict ℕ Subscription

-- `ModelSubscriptionMetrics`
pub record Metrics : Type 0 where
  pub notifications_published : ℕ
  pub subscriptions_created : ℕ
  pub subscriptions_updated : ℕ
  pub subscriptions_deleted : ℕ

-- The handler with its table and its cache: the sets of subscription ids by topic and by agent,
-- and the subscriptions by id.
pub record HandlerSubscription : Type 0 where
  pub rows : Table
  pub topic_subscribers : Dict ℕ (List ℕ)
  pub agent_subscriptions : Dict ℕ (List ℕ)
  pub entries : Table
  pub metrics : Metrics

abbrev pub member : ℕ → List ℕ → Bool
member x [] = false
member x (y ∷ ys) = if x == y then true else member x ys

abbrev pub discard : ℕ → List ℕ → List ℕ
discard x [] = []
discard x (y ∷ ys) = if x == y then discard x ys else y ∷ discard x ys

-- `smembers`: a key that is not there has no members.
abbrev pub smembers : ℕ → Dict ℕ (List ℕ) → List ℕ
smembers key sets = elim (lookup key sets) [ none ↦ [] | some ids ↦ ids ]

-- `sadd` and `srem`
abbrev pub sadd : ℕ → ℕ → Dict ℕ (List ℕ) → Dict ℕ (List ℕ)
sadd key id sets =
    if member id (smembers key sets) then sets else insert key (id ∷ smembers key sets) sets

abbrev pub srem : ℕ → ℕ → Dict ℕ (List ℕ) → Dict ℕ (List ℕ)
srem key id sets = insert key (discard id (smembers key sets)) sets

-- `WHERE agent_id = … AND topic = …`, and `AND status != 'deleted'`.
abbrev pub is_pair : ℕ → ℕ → Subscription → Bool
is_pair agent topic s = s.agent_id == agent && s.topic == topic

abbrev pub is_live : ℕ → ℕ → Subscription → Bool
is_live agent topic s = is_pair agent topic s && not (is_deleted s.status)

-- The first row that fits, with its id.
abbrev pub find_row : (Subscription → Bool) → Table → Option (ℕ × Subscription)
find_row test [] = none
find_row test ((id, s) ∷ rows) = if test s then some (id, s) else find_row test rows

abbrev pub select_rows : (Subscription → Bool) → Table → Table
select_rows test [] = []
select_rows test ((id, s) ∷ rows) =
    if test s then (id, s) ∷ select_rows test rows else select_rows test rows

-- `_get_subscription_by_agent_and_topic`
unfoldable pub get_subscription_by_agent_and_topic : ℕ → ℕ → Table → Option (ℕ × Subscription)
get_subscription_by_agent_and_topic agent topic rows = find_row (is_live agent topic) rows

-- `SET status = …, updated_at = …, metadata = …`
abbrev pub renewed : Subscription → Subscription → Subscription
renewed old new = record old {
  status = new.status;
  updated_at = new.updated_at;
  metadata = new.metadata;
}

-- `UPDATE … WHERE id = …`
abbrev pub update_row : ℕ → (Subscription → Subscription) → Table → Table
update_row id change rows = elim (lookup id rows) [
  | none ↦ rows
  | some old ↦ insert id (change old) rows
]

-- `_persist_subscription`: the update, or the insertion with its `ON CONFLICT (agent_id, topic)`.
unfoldable pub persist_subscription : Bool → ℕ → Subscription → Table → Table
persist_subscription true id new rows = update_row id (λ old. renewed old new) rows
persist_subscription false id new rows = elim (find_row (is_pair new.agent_id new.topic) rows) [
  | none ↦ insert id new rows
  | some (found, old) ↦ insert found (renewed old new) rows
]

-- `_soft_delete_subscription`
unfoldable pub soft_delete_subscription : ℕ → ℕ → Table → Table
soft_delete_subscription id now rows =
    update_row id (λ old. record old { status = deleted; updated_at = now }) rows

-- How a write to the table or to the cache ends: one that raises may have taken effect all the
-- same.
pub data Reply : Type 0 where
  answered : Reply
  raised : Bool → Reply

abbrev pub took_effect : Reply → Bool
took_effect answered = true
took_effect (raised done) = done

pub data Exception : Type 0 where
  value_error database_error publish_error : Exception

abbrev pub is_some {ℓ} : {A : Type ℓ} → Option A → Bool
is_some none = false
is_some (some x) = true

-- A call of `subscribe`: the UUID that it draws, its instant, and what the services answer.
pub record Subscribe : Type 0 where
  pub agent_id : ℕ
  pub topic : ℕ
  pub metadata : Option String
  pub fresh_id : ℕ
  pub now : ℕ
  pub lookup_answered : Bool
  pub persist_reply : Reply
  pub cache_reply : Reply

abbrev pub count_saved : Bool → Metrics → Metrics
count_saved true m = record m { subscriptions_updated = m.subscriptions_updated + 1 }
count_saved false m = record m { subscriptions_created = m.subscriptions_created + 1 }

-- The pipeline that adds a subscription to the cache.
unfoldable pub cache_subscription : HandlerSubscription → ℕ → Subscription → HandlerSubscription
cache_subscription h id s = record h {
  topic_subscribers = sadd s.topic id h.topic_subscribers;
  agent_subscriptions = sadd s.agent_id id h.agent_subscriptions;
  entries = insert id s h.entries;
}

-- The subscription that a call makes, and its id.
abbrev pub made : Subscribe → Option (ℕ × Subscription) → ℕ × Subscription
made c existing = (
  elim existing [ none ↦ c.fresh_id | some (id, old) ↦ id ],
  record {
    agent_id = c.agent_id;
    topic = c.topic;
    status = active;
    created_at = elim existing [ none ↦ c.now | some (id, old) ↦ old.created_at ];
    updated_at = c.now;
    metadata = c.metadata;
  },
)

-- The part of `subscribe` after the table has been written, or the exception.
abbrev pub saved :
    HandlerSubscription
    → Subscribe
    → Bool
    → ℕ × Subscription
    → Table
    → Reply
    → HandlerSubscription × Result Exception (ℕ × Subscription)
unfolding cache_subscription
saved h c is_update (id, s) rows (raised done) =
    (record h { rows = if done then rows else h.rows }, err database_error)
saved h c is_update (id, s) rows answered =
    let g = record h { rows = rows; metrics = count_saved is_update h.metrics } in
    (if took_effect c.cache_reply then cache_subscription g id s else g, ok (id, s))

-- The part of `subscribe` after the lookup.
unfoldable pub save :
    HandlerSubscription
    → Subscribe
    → Option (ℕ × Subscription)
    → HandlerSubscription × Result Exception (ℕ × Subscription)
unfolding saved persist_subscription
save h c existing =
    saved h c (is_some existing) (made c existing)
      (persist_subscription (is_some existing) (made c existing).0 (made c existing).1 h.rows)
      c.persist_reply

unfoldable pub subscribe :
    (ℕ → Bool)
    → HandlerSubscription
    → Subscribe
    → HandlerSubscription × Result Exception (ℕ × Subscription)
unfolding save get_subscription_by_agent_and_topic
subscribe matches h c =
    if not (matches c.topic)
    then (h, err value_error)
    else if not c.lookup_answered
    then (h, err database_error)
    else save h c (get_subscription_by_agent_and_topic c.agent_id c.topic h.rows)

-- A call of `unsubscribe`; of the three evictions, so many are done before one raises.
pub record Unsubscribe : Type 0 where
  pub agent_id : ℕ
  pub topic : ℕ
  pub now : ℕ
  pub lookup_answered : Bool
  pub delete_reply : Reply
  pub evictions : ℕ

-- `srem`, `srem` and `delete`, as far as they come.
unfoldable pub evict : HandlerSubscription → ℕ → ℕ → ℕ → ℕ → HandlerSubscription
evict h agent topic id evictions = record h {
  topic_subscribers =
      if ltb 0 evictions then srem topic id h.topic_subscribers else h.topic_subscribers;
  agent_subscriptions =
      if ltb 1 evictions then srem agent id h.agent_subscriptions else h.agent_subscriptions;
  entries = if ltb 2 evictions then erase id h.entries else h.entries;
}

-- The part of `unsubscribe` after the table has been written, or the exception.
abbrev pub removed :
    HandlerSubscription
    → Unsubscribe
    → ℕ
    → Table
    → Reply
    → HandlerSubscription × Result Exception Bool
unfolding evict
removed h c id rows (raised done) =
    (record h { rows = if done then rows else h.rows }, err database_error)
removed h c id rows answered = (
  evict
      (record h {
        rows = rows;
        metrics = record (h.metrics) {
          subscriptions_deleted = h.metrics.subscriptions_deleted + 1;
        };
      })
      c.agent_id c.topic id c.evictions,
  ok true,
)

-- The part of `unsubscribe` after the lookup.
unfoldable pub remove :
    HandlerSubscription
    → Unsubscribe
    → Option (ℕ × Subscription)
    → HandlerSubscription × Result Exception Bool
unfolding soft_delete_subscription removed
remove h c none = (h, ok false)
remove h c (some (id, s)) = removed h c id (soft_delete_subscription id c.now h.rows) c.delete_reply

unfoldable pub unsubscribe :
    HandlerSubscription → Unsubscribe → HandlerSubscription × Result Exception Bool
unfolding remove get_subscription_by_agent_and_topic
unsubscribe h c =
    if not c.lookup_answered
    then (h, err database_error)
    else remove h c (get_subscription_by_agent_and_topic c.agent_id c.topic h.rows)
