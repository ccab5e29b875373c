-- ===== src/Subscriptions/Tests.antt =====
-- Runs of the subscription handler, and the theorems on it at concrete inputs.
use omnimemory.Prelude.{
  ℕ, zero, suc, ◌≡◌, refl, Bool, true, false, none, List, [], ◌∷◌, ok, err, ◌==◌, if◌then◌else◌,
  arith,
}
use omnimemory.Prelude.Equality.{eq_ℕ}
use omnimemory.Prelude.Dict.{lookup}
use omnimemory.Subscriptions.{
  Subscription, HandlerSubscription, Subscribe, Unsubscribe, subscribe, unsubscribe, save, saved,
  made, remove, removed, evict, get_subscription_by_agent_and_topic, persist_subscription,
  soft_delete_subscription, cache_subscription, active, deleted, answered, raised, database_error,
}
use omnimemory.Subscriptions.Ideal.{Keeps}
use omnimemory.Subscriptions.Contract.{
  Call, subscribes, unsubscribes, step, run, ideal_run, run_agrees,
}
use omnimemory.Subscriptions.Reads.{Look, Listing, list_subscriptions}
use omnimemory.Subscriptions.Restart.{Answers}
use omnimemory.Subscriptions.Listed.{Has}
use omnimemory.Subscriptions.Resubscribe.{calls, restarts, Act, acts, resubscribe_haunts}

-- Topic 0 is not of the form that `subscribe` wants.
abbrev fits : ℕ → Bool
fits topic = if topic == 0 then false else true

abbrev empty_handler : HandlerSubscription
empty_handler = record {
  rows = [];
  topic_subscribers = [];
  agent_subscriptions = [];
  entries = [];
  metrics = record {
    notifications_published = 0;
    subscriptions_created = 0;
    subscriptions_updated = 0;
    subscriptions_deleted = 0;
  };
}

-- Agent 1 and topic 5.
abbrev joining : ℕ → ℕ → Subscribe
joining id now = record {
  agent_id = 1;
  topic = 5;
  metadata = none;
  fresh_id = id;
  now = now;
  lookup_answered = true;
  persist_reply = answered;
  cache_reply = answered;
}

abbrev leaving : ℕ → Unsubscribe
leaving now = record {
  agent_id = 1;
  topic = 5;
  now = now;
  lookup_answered = true;
  delete_reply = answered;
  evictions = 3;
}

-- It subscribes, leaves, subscribes again while the table's answer is lost, and leaves twice.
abbrev visits : List Call
visits =
    subscribes (joining 70 10)
    ∷ unsubscribes (leaving 11)
    ∷ subscribes (record (joining 71 12) { persist_reply = raised true })
    ∷ unsubscribes (leaving 13)
    ∷ unsubscribes (leaving 14)
    ∷ []

run_agrees_example :
    Keeps (run fits empty_handler visits).0.rows (ideal_run fits (λ a t. false) visits).0
    × ((run fits empty_handler visits).1 ≡ (ideal_run fits (λ a t. false) visits).1)
unfolding step subscribe unsubscribe save saved remove removed evict
    get_subscription_by_agent_and_topic persist_subscription soft_delete_subscription
    cache_subscription
run_agrees_example =
    run_agrees fits empty_handler visits (λ a t. false) (refl, (tt, (refl, (tt, (tt, tt)))))
      (tt, (λ a t. omega arith), λ a t. refl)

visits-answers :
    (run fits empty_handler visits).1
    ≡ ok true ∷ ok true ∷ err database_error ∷ ok true ∷ ok false ∷ []
unfolding run step subscribe unsubscribe save saved remove removed evict
    get_subscription_by_agent_and_topic persist_subscription soft_delete_subscription
    cache_subscription
visits-answers = refl

-- The agent has left, so that the table keeps a deleted row.
abbrev row : Subscription
row = record {
  agent_id = 1;
  topic = 5;
  status = deleted;
  created_at = 10;
  updated_at = 11;
  metadata = none;
}

abbrev left_handler : HandlerSubscription
left_handler = record empty_handler { rows = (70, row) ∷ [] }

-- The second query fails: the first row stays cached.
abbrev rebuild_answers : Answers
rebuild_answers zero = (true, answered)
rebuild_answers (suc n) = (false, answered)

abbrev later : List Act
later = calls (unsubscribes (leaving 13)) ∷ restarts true rebuild_answers ∷ []

abbrev listing : Listing
listing = record {
  agent_id = 1;
  smembers_answered = true;
  mget_answered = true;
  query_answered = true;
  set_reply = answered;
  fallback_answered = true;
}

resubscribe_haunts_example :
    (lookup 71 (acts fits 100 (subscribe fits left_handler (joining 71 12)).0 later).rows ≡ none)
    × Has 71
        (made (joining 71 12) none).1
        (list_subscriptions
          (acts fits 100 (subscribe fits left_handler (joining 71 12)).0 later)
          listing).1
unfolding get_subscription_by_agent_and_topic
resubscribe_haunts_example =
    resubscribe_haunts fits 100 left_handler (joining 71 12) 70 row later listing (omega arith) refl
      refl refl refl refl refl refl (tt, tt) refl refl refl refl

-- Two rows of a topic, one of them active.
abbrev two_rows : HandlerSubscription
two_rows = record empty_handler {
  rows = (70, row) ∷ (72, record row { agent_id = 2; status = active }) ∷ [];
}

abbrev look : Look
look = record { smembers_answered = true; query_answered = true; cache_reply = answered }
