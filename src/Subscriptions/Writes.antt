-- ===== src/Subscriptions/Writes.antt =====
-- What `subscribe` and `unsubscribe` do after their lookup, against the ideal record.
use omnimemory.Prelude.{
  ℕ, ◌≡◌, refl, sym, Bool, true, false, Option, none, some, Result, ok, err, if◌then◌else◌, arith,
  Option-cases, inl, inr,
}
use mathlib.Core.Path.{subst}
use omnimemory.Prelude.Equality.{eq_ℕ}
use omnimemory.Prelude.Dict.{lookup, insert}
use omnimemory.Subscriptions.{
  Subscription, Table, HandlerSubscription, find_row, is_some, is_pair, is_live, is_deleted,
  deleted, update_row, persist_subscription, soft_delete_subscription, Reply, answered, raised,
  Exception, Subscribe, Unsubscribe, renewed, save, saved, made, remove, removed, evict,
  cache_subscription, took_effect, count_saved,
}
use omnimemory.Subscriptions.Rows.{find_row-test, lookup-find_row}
use omnimemory.Subscriptions.Ideal.{Record, put, Keeps, revive_row, bury_row, add_row, write}

-- Two answers agree, and the table keeps the record.
abbrev pub Same :
    HandlerSubscription × Result Exception Bool → Record × Result Exception Bool → Type 0
Same p q = Keeps (p.0).rows q.0 × (p.1 ≡ q.1)

-- What a caller of `subscribe` learns, besides the subscription.
abbrev told : Result Exception (ℕ × Subscription) → Result Exception Bool
told (err x) = err x
told (ok s) = ok true

abbrev pub tell :
    HandlerSubscription × Result Exception (ℕ × Subscription)
    → HandlerSubscription × Result Exception Bool
tell p = (p.0, told p.1)

pick-Keeps :
    (test : Bool) (x y : HandlerSubscription) (ideal : Record)
    → Keeps x.rows ideal
    → Keeps y.rows ideal
    → Keeps (if test then x else y).rows ideal
pick-Keeps true x y ideal hx hy = hx
pick-Keeps false x y ideal hx hy = hy

saved-Same :
    (h : HandlerSubscription) (c : Subscribe) (is_update : Bool) (s : ℕ × Subscription)
    (rows : Table) (reply : Reply) (agent topic : ℕ) (ideal : Record)
    → Keeps h.rows ideal
    → Keeps rows (put agent topic true ideal)
    → Same (tell (saved h c is_update s rows reply)) (write agent topic true reply ideal)
unfolding saved cache_subscription
saved-Same h c is_update (id, s) rows answered agent topic ideal before after =
    let g = record h { rows = rows; metrics = count_saved is_update h.metrics } in
    (
      pick-Keeps (took_effect c.cache_reply) (cache_subscription g id s) g
          (put agent topic true ideal) after after,
      refl,
    )
saved-Same h c is_update (id, s) rows (raised true) agent topic ideal before after = (after, refl)
saved-Same h c is_update (id, s) rows (raised false) agent topic ideal before after = (before, refl)

update_found :
    (id : ℕ) (old : Subscription) (change : Subscription → Subscription) (rows : Table)
    → lookup id rows ≡ some old
    → update_row id change rows ≡ insert id (change old) rows
update_found id old change rows found = rw (found, update_row) refl

persist_alone :
    (id : ℕ) (new : Subscription) (rows : Table)
    → find_row (is_pair new.agent_id new.topic) rows ≡ none
    → persist_subscription false id new rows ≡ insert id new rows
unfolding persist_subscription
persist_alone id new rows alone = rw (alone, persist_subscription) refl

persist_conflict :
    (id other : ℕ) (old new : Subscription) (rows : Table)
    → find_row (is_pair new.agent_id new.topic) rows ≡ some (other, old)
    → persist_subscription false id new rows ≡ insert other (renewed old new) rows
unfolding persist_subscription
persist_conflict id other old new rows found = rw (found, persist_subscription) refl

renew-Keeps :
    (id : ℕ) (old new : Subscription) (rows : Table) (ideal : Record)
    → lookup id rows ≡ some old
    → is_pair new.agent_id new.topic old ≡ true
    → is_deleted new.status ≡ false
    → Keeps rows ideal
    → Keeps (insert id (renewed old new) rows) (put new.agent_id new.topic true ideal)
renew-Keeps id old new rows ideal found pair live keeps =
    revive_row id old (renewed old new) new.agent_id new.topic (ground arith) (ground arith)
      (ground arith) (ground arith) rows ideal found live keeps

persist_new-Keeps :
    (id : ℕ) (new : Subscription) (rows : Table) (ideal : Record)
    → lookup id rows ≡ none
    → is_deleted new.status ≡ false
    → Keeps rows ideal
    → Keeps (persist_subscription false id new rows) (put new.agent_id new.topic true ideal)
unfolding persist_subscription
persist_new-Keeps id new rows ideal fresh live keeps =
    elim (Option-cases (find_row (is_pair new.agent_id new.topic) rows)) [
      | inl alone ↦
          subst (λ r. Keeps r (put new.agent_id new.topic true ideal))
            (sym (persist_alone id new rows alone))
            (add_row id new rows ideal fresh alone live keeps)
      | inr ((other, old), found) ↦
          subst (λ r. Keeps r (put new.agent_id new.topic true ideal))
            (sym (persist_conflict id other old new rows found))
            (renew-Keeps other old new rows ideal
              (lookup-find_row (is_pair new.agent_id new.topic) rows other old keeps.0 found)
              (find_row-test (is_pair new.agent_id new.topic) rows other old found) live keeps)
    ]

persist_old-Keeps :
    (id : ℕ) (old new : Subscription) (rows : Table) (ideal : Record)
    → lookup id rows ≡ some old
    → is_pair new.agent_id new.topic old ≡ true
    → is_deleted new.status ≡ false
    → Keeps rows ideal
    → Keeps (persist_subscription true id new rows) (put new.agent_id new.topic true ideal)
unfolding persist_subscription
persist_old-Keeps id old new rows ideal found pair live keeps =
    subst (λ r. Keeps r (put new.agent_id new.topic true ideal))
      (sym (update_found id old (λ s. renewed s new) rows found))
      (renew-Keeps id old new rows ideal found pair live keeps)

live_parts :
    (agent topic : ℕ) (s : Subscription)
    → is_live agent topic s ≡ true
    → (is_pair agent topic s ≡ true) × (is_deleted s.status ≡ false)
live_parts agent topic s live = ground arith

pub save-Same :
    (h : HandlerSubscription) (c : Subscribe) (existing : Option (ℕ × Subscription))
    (ideal : Record)
    → find_row (is_live c.agent_id c.topic) h.rows ≡ existing
    → lookup c.fresh_id h.rows ≡ none
    → Keeps h.rows ideal
    → Same (tell (save h c existing)) (write c.agent_id c.topic true c.persist_reply ideal)
unfolding save
save-Same h c none ideal looked fresh keeps =
    saved-Same h c false (made c none)
      (persist_subscription false (made c none).0 (made c none).1 h.rows) c.persist_reply c.agent_id
      c.topic ideal keeps
      (persist_new-Keeps c.fresh_id (made c none).1 h.rows ideal fresh refl keeps)
save-Same h c (some (id, old)) ideal looked fresh keeps =
    saved-Same h c true (made c (some (id, old)))
      (persist_subscription true id (made c (some (id, old))).1 h.rows) c.persist_reply c.agent_id
      c.topic ideal keeps
      (persist_old-Keeps id old (made c (some (id, old))).1 h.rows ideal
        (lookup-find_row (is_live c.agent_id c.topic) h.rows id old keeps.0 looked)
        (live_parts c.agent_id c.topic old
          (find_row-test (is_live c.agent_id c.topic) h.rows id old looked)).0
        refl keeps)

bury-Keeps :
    (id now agent topic : ℕ) (s : Subscription) (rows : Table) (ideal : Record)
    → lookup id rows ≡ some s
    → is_live agent topic s ≡ true
    → Keeps rows ideal
    → Keeps (soft_delete_subscription id now rows) (put agent topic false ideal)
unfolding soft_delete_subscription
bury-Keeps id now agent topic s rows ideal found live keeps =
    subst (λ r. Keeps r (put agent topic false ideal))
      (sym (update_found id s (λ x. record x { status = deleted; updated_at = now }) rows found))
      (bury_row id s (record s { status = deleted; updated_at = now }) agent topic (ground arith)
        (ground arith) (ground arith) (ground arith) rows ideal found
        (live_parts agent topic s live).1 refl keeps)

removed-Same :
    (h : HandlerSubscription) (c : Unsubscribe) (id : ℕ) (rows : Table) (reply : Reply)
    (agent topic : ℕ) (ideal : Record)
    → Keeps h.rows ideal
    → Keeps rows (put agent topic false ideal)
    → Same (removed h c id rows reply) (write agent topic false reply ideal)
unfolding removed evict
removed-Same h c id rows answered agent topic ideal before after = (after, refl)
removed-Same h c id rows (raised true) agent topic ideal before after = (after, refl)
removed-Same h c id rows (raised false) agent topic ideal before after = (before, refl)

pub remove-Same :
    (h : HandlerSubscription) (c : Unsubscribe) (existing : Option (ℕ × Subscription))
    (ideal : Record)
    → find_row (is_live c.agent_id c.topic) h.rows ≡ existing
    → Keeps h.rows ideal
    → Same (remove h c existing) (
        if is_some existing
        then write c.agent_id c.topic false c.delete_reply ideal
        else (ideal, ok false))
unfolding remove removed
remove-Same h c none ideal looked keeps = (keeps, refl)
remove-Same h c (some (id, s)) ideal looked keeps =
    removed-Same h c id (soft_delete_subscription id c.now h.rows) c.delete_reply c.agent_id c.topic
      ideal keeps
      (bury-Keeps id c.now c.agent_id c.topic s h.rows ideal
        (lookup-find_row (is_live c.agent_id c.topic) h.rows id s keeps.0 looked)
        (find_row-test (is_live c.agent_id c.topic) h.rows id s looked) keeps)
