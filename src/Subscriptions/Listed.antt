-- ===== src/Subscriptions/Listed.antt =====
-- What `list_subscriptions` says of an id that only the cache has.
use omnimemory.Prelude.{
  ℕ, ◌≡◌, ap, ◌∙◌, Bool, true, some, List, [], ◌∷◌, ◌++◌, Result, ok, err, arith,
}
use omnimemory.Prelude.Equality.{eq_ℕ}
use omnimemory.Prelude.Dict.{lookup}
use omnimemory.Subscriptions.{
  Subscription, Table, HandlerSubscription, select_rows, is_active, Exception, member, smembers,
}
use omnimemory.Subscriptions.Ghost.{Ghost}
use omnimemory.Subscriptions.Reads.{
  Listing, list_subscriptions, list_cached, listed, load_subscriptions, load_missing, rows_of,
  missing,
}

lookup-select_rows :
    (test : Subscription → Bool) (id : ℕ) (s : Subscription) (rows : Table)
    → lookup id rows ≡ some s
    → test s ≡ true
    → lookup id (select_rows test rows) ≡ some s
lookup-select_rows test id s [] found holds = found
lookup-select_rows test id s ((j, r) ∷ rows) found holds =
    ground (arith, lookup-select_rows test id s rows)

lookup-rows_of :
    (id : ℕ) (s : Subscription) (ids : List ℕ) (entries : Table)
    → member id ids ≡ true
    → lookup id entries ≡ some s
    → lookup id (rows_of ids entries) ≡ some s
lookup-rows_of id s [] entries inside found = cc
lookup-rows_of id s (j ∷ ids) entries inside found = ground (arith, lookup-rows_of id s ids entries)

lookup-append :
    (id : ℕ) (s : Subscription) (rows others : Table)
    → lookup id rows ≡ some s
    → lookup id (rows ++ others) ≡ some s
lookup-append id s [] others found = cc
lookup-append id s ((j, r) ∷ rows) others found = ground (arith, lookup-append id s rows others)

-- A list that has a subscription under its id.
abbrev pub Has : ℕ → Subscription → Result Exception Table → Type 0
Has id s (ok rows) = lookup id rows ≡ some s
Has id s (err x) = ⊥

load_missing-listed :
    (id : ℕ) (s : Subscription) (h : HandlerSubscription) (q : Listing) (cached : Table)
    (ids : List ℕ)
    → lookup id cached ≡ some s
    → is_active s.status ≡ true
    → q.query_answered ≡ true
    → Has id s (listed q (load_missing h q cached ids)).1
unfolding load_missing listed
load_missing-listed id s h q cached [] found live reached =
    lookup-select_rows (λ r. is_active r.status) id s cached found live
load_missing-listed id s h q cached (j ∷ ids) found live reached = rw reached (
    lookup-select_rows (λ r. is_active r.status) id s (cached ++ rows_of (j ∷ ids) h.rows)
      (lookup-append id s cached (rows_of (j ∷ ids) h.rows) found) live)

list_cached-Has :
    (id : ℕ) (s : Subscription) (h : HandlerSubscription) (q : Listing) (ids : List ℕ)
    → member id ids ≡ true
    → lookup id h.entries ≡ some s
    → is_active s.status ≡ true
    → q.mget_answered ≡ true
    → q.query_answered ≡ true
    → Has id s (list_cached h q ids).1
unfolding list_cached load_subscriptions
list_cached-Has id s h q [] inside stored live got reached = cc
list_cached-Has id s h q (j ∷ ids) inside stored live got reached = rw got (
    load_missing-listed id s h q (rows_of (j ∷ ids) h.entries) (missing (j ∷ ids) h.entries)
      (lookup-rows_of id s (j ∷ ids) h.entries inside stored) live reached)

pub list_subscriptions-Has :
    (id agent topic : ℕ) (s : Subscription) (h : HandlerSubscription) (q : Listing)
    → Ghost id agent topic s h
    → q.agent_id ≡ agent
    → is_active s.status ≡ true
    → q.smembers_answered ≡ true
    → q.mget_answered ≡ true
    → q.query_answered ≡ true
    → Has id s (list_subscriptions h q).1
unfolding list_subscriptions
list_subscriptions-Has id agent topic s h q ghost of_agent live listed got reached = rw listed (
    list_cached-Has id s h q (smembers q.agent_id h.agent_subscriptions)
      (ap (λ a. member id (smembers a h.agent_subscriptions)) of_agent ∙ ghost.2) ghost.3 live got
      reached)
