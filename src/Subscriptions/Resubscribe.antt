-- ===== src/Subscriptions/Resubscribe.antt =====
-- A subscription that is renewed after it was removed.
use omnimemory.Prelude.{
  ℕ, zero, suc, take, ◌≤◌, ◌≡◌, refl, sym, ap, ◌∙◌, Bool, true, false, not, Option, none, some,
  List, [], ◌∷◌, arith, if_true, if_false,
}
use mathlib.Core.Path.{subst}
use omnimemory.Prelude.Equality.{eq_ℕ}
use omnimemory.Prelude.Dict.{lookup, lookup-insert_self, lookup-insert_ne}
use omnimemory.Subscriptions.{
  Subscription, Table, HandlerSubscription, find_row, select_rows, is_pair, is_active,
  get_subscription_by_agent_and_topic, persist_subscription, Reply, answered, raised, Subscribe,
  subscribe, renewed, save, saved, made, cache_subscription, took_effect, count_saved,
}
use omnimemory.Subscriptions.Contract.{Call, step}
use omnimemory.Subscriptions.Rebuild.{
  cache_all, insert_by_id, by_id, active_rows, rebuild_cache_from_db,
}
use omnimemory.Subscriptions.Restart.{Answers, alone, rebuild-Fills}
use omnimemory.Subscriptions.Ghost.{
  Ghost, DrawsOther, step-Ghost, cache_subscription-Ghost, member-sadd_self, find_row_ne,
}
use omnimemory.Subscriptions.Reads.{Listing, list_subscriptions, listed}
use omnimemory.Subscriptions.Listed.{Has, list_subscriptions-Has}

select_rows-none :
    (test : Subscription → Bool) (id : ℕ) (rows : Table)
    → lookup id rows ≡ none
    → lookup id (select_rows test rows) ≡ none
select_rows-none test id [] absent = absent
select_rows-none test id ((j, r) ∷ rows) absent = ground (arith, select_rows-none test id rows)

insert_by_id-none :
    (id j : ℕ) (s : Subscription) (rows : Table)
    → lookup id ((j, s) ∷ rows) ≡ none
    → lookup id (insert_by_id j s rows) ≡ none
insert_by_id-none id j s [] absent = absent
insert_by_id-none id j s ((k, r) ∷ rows) absent = ground (arith, insert_by_id-none id j s rows)

by_id-none : (id : ℕ) (rows : Table) → lookup id rows ≡ none → lookup id (by_id rows) ≡ none
by_id-none id [] absent = absent
by_id-none id ((j, s) ∷ rows) absent =
    insert_by_id-none id j s (by_id rows) (ground (arith, by_id-none id rows))

take-none : (n id : ℕ) (rows : Table) → lookup id rows ≡ none → lookup id (take n rows) ≡ none
take-none zero id rows absent = refl
take-none (suc n) id [] absent = absent
take-none (suc n) id ((j, s) ∷ rows) absent = ground (arith, take-none n id rows)

active_rows-none :
    (id : ℕ) (h : HandlerSubscription) → lookup id h.rows ≡ none → lookup id (active_rows h) ≡ none
unfolding active_rows
active_rows-none id h absent =
    by_id-none id (select_rows (λ s. is_active s.status) h.rows)
      (select_rows-none (λ s. is_active s.status) id h.rows absent)

cache_all-Ghost :
    (id agent topic : ℕ) (s : Subscription) (rows : Table) (h : HandlerSubscription)
    → lookup id rows ≡ none
    → Ghost id agent topic s h
    → Ghost id agent topic s (cache_all rows h)
cache_all-Ghost id agent topic s [] h absent ghost = ghost
cache_all-Ghost id agent topic s ((j, r) ∷ rows) h absent ghost =
    cache_all-Ghost id agent topic s rows (cache_subscription h j r) (ground arith)
      (cache_subscription-Ghost id agent topic s h j r (λ e. ground arith) ghost)

-- What happens to a handler: a call, or a restart, which rebuilds the cache, if the services
-- answer.
pub data Act : Type 0 where
  calls : Call → Act
  restarts : Bool → Answers → Act

abbrev pub act : (ℕ → Bool) → ℕ → HandlerSubscription → Act → HandlerSubscription
act matches batch h (calls c) = (step matches h c).0
act matches batch h (restarts count answers) =
    (rebuild_cache_from_db batch (alone count answers) h).0

unfoldable pub acts : (ℕ → Bool) → ℕ → HandlerSubscription → List Act → HandlerSubscription
acts matches batch h [] = h
acts matches batch h (a ∷ later) = acts matches batch (act matches batch h a) later

-- No call draws a given id.
abbrev pub Unlike : ℕ → List Act → Type 0
Unlike id [] = Unit
Unlike id (calls c ∷ later) = DrawsOther id c × Unlike id later
Unlike id (restarts count answers ∷ later) = Unlike id later

rebuild-Ghost :
    (id agent topic : ℕ) (s : Subscription) (batch : ℕ) (count : Bool) (answers : Answers)
    (h : HandlerSubscription)
    → 1 ≤ batch
    → Ghost id agent topic s h
    → Ghost id agent topic s (rebuild_cache_from_db batch (alone count answers) h).0
rebuild-Ghost id agent topic s batch count answers h some_rows ghost =
    let fills = rebuild-Fills count answers batch some_rows h in
    subst (λ g. Ghost id agent topic s g) (sym fills.cached)
      (cache_all-Ghost id agent topic s (take fills.number (active_rows h)) h
        (take-none fills.number id (active_rows h) (active_rows-none id h ghost.0)) ghost)

acts-Ghost :
    (id agent topic : ℕ) (s : Subscription) (matches : ℕ → Bool) (batch : ℕ)
    (h : HandlerSubscription) (later : List Act)
    → 1 ≤ batch
    → Unlike id later
    → Ghost id agent topic s h
    → Ghost id agent topic s (acts matches batch h later)
unfolding acts
acts-Ghost id agent topic s matches batch h [] some_rows unlike ghost = ghost
acts-Ghost id agent topic s matches batch h (calls c ∷ later) some_rows unlike ghost =
    acts-Ghost id agent topic s matches batch (step matches h c).0 later some_rows unlike.1
      (step-Ghost id agent topic s matches h c unlike.0 ghost)
acts-Ghost id agent topic s matches batch h (restarts count answers ∷ later) some_rows unlike
      ghost =
    acts-Ghost id agent topic s matches batch
      (rebuild_cache_from_db batch (alone count answers) h).0 later some_rows unlike
      (rebuild-Ghost id agent topic s batch count answers h some_rows ghost)

cached-Ghost :
    (h : HandlerSubscription) (id : ℕ) (s : Subscription)
    → lookup id h.rows ≡ none
    → Ghost id s.agent_id s.topic s (cache_subscription h id s)
unfolding cache_subscription
cached-Ghost h id s absent = (
  absent,
  member-sadd_self id s.topic h.topic_subscribers,
  member-sadd_self id s.agent_id h.agent_subscriptions,
  lookup-insert_self id s h.entries,
)

saved-Ghost_new :
    (h : HandlerSubscription) (c : Subscribe) (id : ℕ) (s : Subscription) (rows : Table)
    (reply : Reply)
    → reply ≡ answered
    → took_effect c.cache_reply ≡ true
    → lookup id rows ≡ none
    → Ghost id s.agent_id s.topic s (saved h c false (id, s) rows reply).0
unfolding saved
saved-Ghost_new h c id s rows answered done cached absent =
    let g = record h { rows = rows; metrics = count_saved false h.metrics } in
    subst (λ k. Ghost id s.agent_id s.topic s k)
      (sym (if_true (took_effect c.cache_reply) (cache_subscription g id s) g cached))
      (cached-Ghost g id s absent)
saved-Ghost_new h c id s rows (raised b) done cached absent = cc

persist_conflict-none :
    (id j : ℕ) (old new : Subscription) (rows : Table)
    → find_row (is_pair new.agent_id new.topic) rows ≡ some (j, old)
    → lookup id rows ≡ none
    → lookup id (persist_subscription false id new rows) ≡ none
unfolding persist_subscription
persist_conflict-none id j old new rows found absent =
    rw (found, persist_subscription)
      (lookup-insert_ne j id (renewed old new) rows
          (find_row_ne (is_pair new.agent_id new.topic) rows id j old absent found)
        ∙ absent)

subscribe-save :
    (matches : ℕ → Bool) (h : HandlerSubscription) (c : Subscribe)
    (existing : Option (ℕ × Subscription))
    → matches c.topic ≡ true
    → c.lookup_answered ≡ true
    → get_subscription_by_agent_and_topic c.agent_id c.topic h.rows ≡ existing
    → subscribe matches h c ≡ save h c existing
unfolding subscribe
subscribe-save matches h c existing fits looked found =
    if_false (not (matches c.topic)) _ _ (ap not fits)
    ∙ if_false (not c.lookup_answered) _ _ (ap not looked)
    ∙ ap (save h c) found

subscribe-Ghost :
    (matches : ℕ → Bool) (h : HandlerSubscription) (c : Subscribe) (j : ℕ) (old : Subscription)
    → matches c.topic ≡ true
    → c.lookup_answered ≡ true
    → c.persist_reply ≡ answered
    → took_effect c.cache_reply ≡ true
    → lookup c.fresh_id h.rows ≡ none
    → get_subscription_by_agent_and_topic c.agent_id c.topic h.rows ≡ none
    → find_row (is_pair c.agent_id c.topic) h.rows ≡ some (j, old)
    → Ghost c.fresh_id c.agent_id c.topic (made c none).1 (subscribe matches h c).0
unfolding save
subscribe-Ghost matches h c j old fits looked done cached fresh removed_before kept =
    subst (λ r. Ghost c.fresh_id c.agent_id c.topic (made c none).1 r.0)
      (sym (subscribe-save matches h c none fits looked removed_before))
      (saved-Ghost_new h c c.fresh_id (made c none).1
        (persist_subscription false c.fresh_id (made c none).1 h.rows) c.persist_reply done cached
        (persist_conflict-none c.fresh_id j old (made c none).1 h.rows kept fresh))

-- An agent subscribes again to a topic after `unsubscribe`, so that the table has a deleted row
-- of the pair. If the cache takes the write, then after any later calls of `subscribe` and
-- `unsubscribe` and any restarts, whatever the services answer to the rebuilds, the table has no row with the id that was drawn, and yet, while
-- the cache answers and keeps its keys, `list_subscriptions` of the agent has an active
-- subscription under that id.
pub resubscribe_haunts :
    (matches : ℕ → Bool) (batch : ℕ) (h : HandlerSubscription) (c : Subscribe) (j : ℕ)
    (old : Subscription) (later : List Act) (q : Listing)
    → 1 ≤ batch
    → matches c.topic ≡ true
    → c.lookup_answered ≡ true
    → c.persist_reply ≡ answered
    → took_effect c.cache_reply ≡ true
    → lookup c.fresh_id h.rows ≡ none
    → get_subscription_by_agent_and_topic c.agent_id c.topic h.rows ≡ none
    → find_row (is_pair c.agent_id c.topic) h.rows ≡ some (j, old)
    → Unlike c.fresh_id later
    → q.agent_id ≡ c.agent_id
    → q.smembers_answered ≡ true
    → q.mget_answered ≡ true
    → q.query_answered ≡ true
    → (lookup c.fresh_id (acts matches batch (subscribe matches h c).0 later).rows ≡ none)
      × Has c.fresh_id
          (made c none).1
          (list_subscriptions (acts matches batch (subscribe matches h c).0 later) q).1
resubscribe_haunts matches batch h c j old later q some_rows fits looked done cached fresh
      removed_before kept unlike of_agent listed got reached =
    let ghost =
      acts-Ghost c.fresh_id c.agent_id c.topic (made c none).1 matches batch
        (subscribe matches h c).0 later some_rows unlike
        (subscribe-Ghost matches h c j old fits looked done cached fresh removed_before kept) in
    (
      ghost.0,
      list_subscriptions-Has c.fresh_id c.agent_id c.topic (made c none).1
          (acts matches batch (subscribe matches h c).0 later) q ghost of_agent refl listed got
          reached,
    )
