-- ===== src/Subscriptions/Ghost.antt =====
-- An id that the cache holds and the table does not: how `subscribe` makes one, and that it stays.
use omnimemory.Prelude.{
  ℕ, ◌≡◌, ◌≢◌, refl, ◌∙◌, Bool, true, false, not, Option, none, some, List, [], ◌∷◌, ltb,
  if◌then◌else◌, ◌==◌, arith, Option-cases, inl, inr,
}
use omnimemory.Prelude.Equality.{eq_ℕ}
use omnimemory.Prelude.Dict.{
  Dict, lookup, insert, erase, lookup-insert, lookup-insert_ne, lookup-erase_ne,
}
use omnimemory.Subscriptions.{
  Subscription, Table, HandlerSubscription, find_row, is_pair, is_live, update_row,
  get_subscription_by_agent_and_topic, persist_subscription, soft_delete_subscription, Reply,
  answered, raised, Subscribe, Unsubscribe, subscribe, unsubscribe, renewed, save, saved, made,
  remove, removed, evict, cache_subscription, took_effect, count_saved, member, discard, smembers,
  sadd, srem,
}
use omnimemory.Subscriptions.Contract.{Call, subscribes, unsubscribes, step}

-- The cache lists an id among the topic's and the agent's subscriptions and says that it is
-- active, and the table has no row of it.
abbrev pub Ghost : ℕ → ℕ → ℕ → Subscription → HandlerSubscription → Type 0
Ghost id agent topic s h =
    (lookup id h.rows ≡ none)
    × (member id (smembers topic h.topic_subscribers) ≡ true)
    × (member id (smembers agent h.agent_subscriptions) ≡ true)
    × (lookup id h.entries ≡ some s)

smembers-insert :
    (key k : ℕ) (ids : List ℕ) (sets : Dict ℕ (List ℕ))
    → smembers key (insert k ids sets) ≡ (if k == key then ids else smembers key sets)
smembers-insert key k ids sets = ground (arith, lookup-insert k key ids sets)

member-discard :
    (x y : ℕ) (ids : List ℕ) → y ≢ x → member x ids ≡ true → member x (discard y ids) ≡ true
member-discard x y [] other inside = inside
member-discard x y (z ∷ ids) other inside = ground (arith, member-discard x y ids other)

member-srem :
    (x y key k : ℕ) (sets : Dict ℕ (List ℕ))
    → y ≢ x
    → member x (smembers key sets) ≡ true
    → member x (smembers key (srem k y sets)) ≡ true
member-srem x y key k sets other inside = ground (
  arith,
  smembers-insert key k (discard y (smembers k sets)) sets,
  member-discard x y (smembers key sets) other,
)

member-sadd :
    (x y key k : ℕ) (sets : Dict ℕ (List ℕ))
    → member x (smembers key sets) ≡ true
    → member x (smembers key (sadd k y sets)) ≡ true
member-sadd x y key k sets inside = ground (arith, smembers-insert key k (y ∷ smembers k sets) sets)

pub member-sadd_self :
    (x key : ℕ) (sets : Dict ℕ (List ℕ)) → member x (smembers key (sadd key x sets)) ≡ true
member-sadd_self x key sets = ground (arith, smembers-insert key key (x ∷ smembers key sets) sets)

pub find_row_ne :
    (test : Subscription → Bool) (rows : Table) (id other : ℕ) (s : Subscription)
    → lookup id rows ≡ none
    → find_row test rows ≡ some (other, s)
    → other ≢ id
find_row_ne test [] id other s absent found = cc
find_row_ne test ((j, r) ∷ rows) id other s absent found =
    ground (arith, find_row_ne test rows id other s)

update_row-none :
    (id other : ℕ) (change : Subscription → Subscription) (rows : Table)
    → lookup id rows ≡ none
    → lookup id (update_row other change rows) ≡ none
update_row-none id other change rows absent = elim (Option-cases (lookup other rows)) [
  | inl gone ↦ rw (gone, update_row) absent
  | inr (old, found) ↦
      rw (found, update_row) (lookup-insert_ne other id (change old) rows (λ e. cc) ∙ absent)
]

persist_subscription-none :
    (id other : ℕ) (new : Subscription) (is_update : Bool) (rows : Table)
    → other ≢ id
    → lookup id rows ≡ none
    → lookup id (persist_subscription is_update other new rows) ≡ none
unfolding persist_subscription
persist_subscription-none id other new true rows differs absent =
    update_row-none id other (λ old. renewed old new) rows absent
persist_subscription-none id other new false rows differs absent =
    elim (Option-cases (find_row (is_pair new.agent_id new.topic) rows)) [
      | inl alone ↦
          rw (alone, persist_subscription) (lookup-insert_ne other id new rows differs ∙ absent)
      | inr ((j, old), found) ↦
          rw (found, persist_subscription)
            (lookup-insert_ne j id (renewed old new) rows
                (find_row_ne (is_pair new.agent_id new.topic) rows id j old absent found)
              ∙ absent)
    ]

-- The id that a call draws is another one.
abbrev pub DrawsOther : ℕ → Call → Type 0
DrawsOther id (subscribes c) = c.fresh_id ≢ id
DrawsOther id (unsubscribes c) = Unit

module _ (id agent topic : ℕ) (s : Subscription) where
  pick-Ghost :
      (test : Bool) (x y : HandlerSubscription)
      → Ghost id agent topic s x
      → Ghost id agent topic s y
      → Ghost id agent topic s (if test then x else y)
  pick-Ghost true x y hx hy = hx
  pick-Ghost false x y hx hy = hy

  pub cache_subscription-Ghost :
      (h : HandlerSubscription) (other : ℕ) (r : Subscription)
      → other ≢ id
      → Ghost id agent topic s h
      → Ghost id agent topic s (cache_subscription h other r)
  unfolding cache_subscription
  cache_subscription-Ghost h other r differs (absent, in_topic, in_agent, stored) = (
    absent,
    member-sadd id other topic r.topic h.topic_subscribers in_topic,
    member-sadd id other agent r.agent_id h.agent_subscriptions in_agent,
    lookup-insert_ne other id r h.entries differs ∙ stored,
  )

  saved-Ghost :
      (h : HandlerSubscription) (c : Subscribe) (is_update : Bool) (other : ℕ) (r : Subscription)
      (rows : Table) (reply : Reply)
      → other ≢ id
      → lookup id rows ≡ none
      → Ghost id agent topic s h
      → Ghost id agent topic s (saved h c is_update (other, r) rows reply).0
  unfolding saved
  saved-Ghost h c is_update other r rows answered differs absent ghost =
      let g = record h { rows = rows; metrics = count_saved is_update h.metrics } in
      pick-Ghost (took_effect c.cache_reply) (cache_subscription g other r) g
        (cache_subscription-Ghost g other r differs (absent, ghost.1, ghost.2, ghost.3))
        (absent, ghost.1, ghost.2, ghost.3)
  saved-Ghost h c is_update other r rows (raised true) differs absent ghost =
      (absent, ghost.1, ghost.2, ghost.3)
  saved-Ghost h c is_update other r rows (raised false) differs absent ghost = ghost

  save-Ghost :
      (h : HandlerSubscription) (c : Subscribe) (existing : Option (ℕ × Subscription))
      → find_row (is_live c.agent_id c.topic) h.rows ≡ existing
      → c.fresh_id ≢ id
      → Ghost id agent topic s h
      → Ghost id agent topic s (save h c existing).0
  unfolding save
  save-Ghost h c none looked differs ghost =
      saved-Ghost h c false c.fresh_id (made c none).1 _ c.persist_reply differs
        (persist_subscription-none id c.fresh_id (made c none).1 false h.rows differs ghost.0) ghost
  save-Ghost h c (some (j, old)) looked differs ghost =
      let ne = find_row_ne (is_live c.agent_id c.topic) h.rows id j old ghost.0 looked in
      saved-Ghost h c true j (made c (some (j, old))).1 _ c.persist_reply ne
        (persist_subscription-none id j (made c (some (j, old))).1 true h.rows ne ghost.0) ghost

  member_if :
      (test : Bool) (key : ℕ) (p q : Dict ℕ (List ℕ))
      → member id (smembers key p) ≡ true
      → member id (smembers key q) ≡ true
      → member id (smembers key (if test then p else q)) ≡ true
  member_if true key p q hp hq = hp
  member_if false key p q hp hq = hq

  erase_if :
      (test : Bool) (other : ℕ) (entries : Table)
      → other ≢ id
      → lookup id entries ≡ some s
      → lookup id (if test then erase other entries else entries) ≡ some s
  erase_if true other entries differs stored = lookup-erase_ne other id entries differs ∙ stored
  erase_if false other entries differs stored = stored

  removed-Ghost :
      (h : HandlerSubscription) (c : Unsubscribe) (other : ℕ) (rows : Table) (reply : Reply)
      → other ≢ id
      → lookup id rows ≡ none
      → Ghost id agent topic s h
      → Ghost id agent topic s (removed h c other rows reply).0
  unfolding removed evict
  removed-Ghost h c other rows answered differs absent (gone, in_topic, in_agent, stored) = (
    absent,
    member_if (ltb 0 c.evictions) topic (srem c.topic other h.topic_subscribers) h.topic_subscribers
        (member-srem id other topic c.topic h.topic_subscribers differs in_topic) in_topic,
    member_if (ltb 1 c.evictions) agent (srem c.agent_id other h.agent_subscriptions)
        h.agent_subscriptions
        (member-srem id other agent c.agent_id h.agent_subscriptions differs in_agent) in_agent,
    erase_if (ltb 2 c.evictions) other h.entries differs stored,
  )
  removed-Ghost h c other rows (raised true) differs absent ghost =
      (absent, ghost.1, ghost.2, ghost.3)
  removed-Ghost h c other rows (raised false) differs absent ghost = ghost

  remove-Ghost :
      (h : HandlerSubscription) (c : Unsubscribe) (existing : Option (ℕ × Subscription))
      → find_row (is_live c.agent_id c.topic) h.rows ≡ existing
      → Ghost id agent topic s h
      → Ghost id agent topic s (remove h c existing).0
  unfolding remove soft_delete_subscription
  remove-Ghost h c none looked ghost = ghost
  remove-Ghost h c (some (j, old)) looked ghost =
      removed-Ghost h c j (soft_delete_subscription j c.now h.rows) c.delete_reply
        (find_row_ne (is_live c.agent_id c.topic) h.rows id j old ghost.0 looked)
        (update_row-none id j _ h.rows ghost.0) ghost

  first_if {ℓ} :
      {A : Type ℓ} (test : Bool) (p q : HandlerSubscription × A)
      → Ghost id agent topic s p.0
      → Ghost id agent topic s q.0
      → Ghost id agent topic s (if test then p else q).0
  first_if true p q hp hq = hp
  first_if false p q hp hq = hq

  pub step-Ghost :
      (matches : ℕ → Bool) (h : HandlerSubscription) (c : Call)
      → DrawsOther id c
      → Ghost id agent topic s h
      → Ghost id agent topic s (step matches h c).0
  unfolding step subscribe unsubscribe get_subscription_by_agent_and_topic
  step-Ghost matches h (subscribes c) differs ghost = first_if (not (matches c.topic)) _ _ ghost (
      first_if (not c.lookup_answered) _ _ ghost
        (save-Ghost h c (find_row (is_live c.agent_id c.topic) h.rows) refl differs ghost))
  step-Ghost matches h (unsubscribes c) differs ghost =
      first_if (not c.lookup_answered) _ _ ghost
        (remove-Ghost h c (find_row (is_live c.agent_id c.topic) h.rows) refl ghost)
