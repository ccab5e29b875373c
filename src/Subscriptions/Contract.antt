-- ===== src/Subscriptions/Contract.antt =====
-- `subscribe` and `unsubscribe` against an ideal record of who is subscribed to what.
use omnimemory.Prelude.{
  ℕ, ◌≡◌, refl, sym, ap, ◌∙◌, Bool, true, false, not, none, List, [], ◌∷◌, Result, ok, err,
  if◌then◌else◌,
}
use mathlib.Core.Path.{subst}
use omnimemory.Prelude.Equality.{eq_ℕ}
use omnimemory.Prelude.Dict.{lookup}
use omnimemory.Subscriptions.{
  Subscription, Table, HandlerSubscription, find_row, is_live, get_subscription_by_agent_and_topic,
  Exception, value_error, database_error, Subscribe, Unsubscribe, subscribe, unsubscribe, remove,
}
use omnimemory.Subscriptions.Rows.{find_row-count}
use omnimemory.Subscriptions.Ideal.{Record, Keeps, write}
use omnimemory.Subscriptions.Writes.{Same, tell, save-Same, remove-Same}

pub data Call : Type 0 where
  subscribes : Subscribe → Call
  unsubscribes : Unsubscribe → Call

unfoldable pub step :
    (ℕ → Bool) → HandlerSubscription → Call → HandlerSubscription × Result Exception Bool
step matches h (subscribes c) = tell (subscribe matches h c)
step matches h (unsubscribes c) = unsubscribe h c

unfoldable pub ideal_step : (ℕ → Bool) → Record → Call → Record × Result Exception Bool
ideal_step matches ideal (subscribes c) =
    if not (matches c.topic)
    then (ideal, err value_error)
    else if not c.lookup_answered
    then (ideal, err database_error)
    else write c.agent_id c.topic true c.persist_reply ideal
ideal_step matches ideal (unsubscribes c) =
    if not c.lookup_answered
    then (ideal, err database_error)
    else if ideal c.agent_id c.topic
    then write c.agent_id c.topic false c.delete_reply ideal
    else (ideal, ok false)

unfoldable pub run :
    (ℕ → Bool)
    → HandlerSubscription
    → List Call
    → HandlerSubscription × List (Result Exception Bool)
unfolding step
run matches h [] = (h, [])
run matches h (c ∷ calls) =
    let s = step matches h c in let rest = run matches s.0 calls in (rest.0, s.1 ∷ rest.1)

unfoldable pub ideal_run : (ℕ → Bool) → Record → List Call → Record × List (Result Exception Bool)
unfolding ideal_step
ideal_run matches ideal [] = (ideal, [])
ideal_run matches ideal (c ∷ calls) =
    let s = ideal_step matches ideal c in
    let rest = ideal_run matches s.0 calls in (rest.0, s.1 ∷ rest.1)

guard-Same :
    (test : Bool) (p q : HandlerSubscription × Result Exception Bool)
    (r s : Record × Result Exception Bool)
    → Same p r
    → Same q s
    → Same (if test then p else q) (if test then r else s)
guard-Same true p q r s hp hq = hp
guard-Same false p q r s hp hq = hq

tell_if :
    (test : Bool) (p q : HandlerSubscription × Result Exception (ℕ × Subscription))
    → tell (if test then p else q) ≡ (if test then tell p else tell q)
tell_if true p q = refl
tell_if false p q = refl

guard-tell :
    (test : Bool) (p q : HandlerSubscription × Result Exception (ℕ × Subscription))
    (r s : Record × Result Exception Bool)
    → Same (tell p) r
    → Same (tell q) s
    → Same (tell (if test then p else q)) (if test then r else s)
guard-tell test p q r s hp hq =
    subst (λ x. Same x (if test then r else s)) (sym (tell_if test p q))
      (guard-Same test (tell p) (tell q) r s hp hq)

subscribe-Same :
    (matches : ℕ → Bool) (h : HandlerSubscription) (c : Subscribe) (ideal : Record)
    → lookup c.fresh_id h.rows ≡ none
    → Keeps h.rows ideal
    → Same (tell (subscribe matches h c)) (ideal_step matches ideal (subscribes c))
unfolding subscribe ideal_step get_subscription_by_agent_and_topic
subscribe-Same matches h c ideal fresh keeps =
    guard-tell (not (matches c.topic)) _ _ _ _ (keeps, refl)
      (guard-tell (not c.lookup_answered) _ _ _ _ (keeps, refl)
        (save-Same h c (find_row (is_live c.agent_id c.topic) h.rows) ideal refl fresh keeps))

unsubscribe-Same :
    (matches : ℕ → Bool) (h : HandlerSubscription) (c : Unsubscribe) (ideal : Record)
    → Keeps h.rows ideal
    → Same (unsubscribe h c) (ideal_step matches ideal (unsubscribes c))
unfolding unsubscribe ideal_step get_subscription_by_agent_and_topic
unsubscribe-Same matches h c ideal keeps =
    guard-Same (not c.lookup_answered) _ _ _ _ (keeps, refl)
      (subst
        (λ known. Same (remove h c (find_row (is_live c.agent_id c.topic) h.rows)) (
          if known then write c.agent_id c.topic false c.delete_reply ideal else (ideal, ok false)))
        (find_row-count (is_live c.agent_id c.topic) h.rows ∙ keeps.2 c.agent_id c.topic)
        (remove-Same h c (find_row (is_live c.agent_id c.topic) h.rows) ideal refl keeps))

-- The id that a call draws is not in the table.
abbrev pub FreshIn : Call → Table → Type 0
FreshIn (subscribes c) rows = lookup c.fresh_id rows ≡ none
FreshIn (unsubscribes c) rows = Unit

-- The ids that the calls draw are not in the table when they are drawn.
abbrev pub Fresh : (ℕ → Bool) → HandlerSubscription → List Call → Type 0
Fresh matches h [] = Unit
Fresh matches h (c ∷ calls) = FreshIn c h.rows × Fresh matches (step matches h c).0 calls

step-Same :
    (matches : ℕ → Bool) (h : HandlerSubscription) (c : Call) (ideal : Record)
    → FreshIn c h.rows
    → Keeps h.rows ideal
    → Same (step matches h c) (ideal_step matches ideal c)
unfolding step
step-Same matches h (subscribes c) ideal fresh keeps = subscribe-Same matches h c ideal fresh keeps
step-Same matches h (unsubscribes c) ideal fresh keeps = unsubscribe-Same matches h c ideal keeps

-- From a table that keeps the ideal record, after any sequence of calls of `subscribe` and
-- `unsubscribe` that draw new ids, whatever the services answer, the table keeps what the same
-- calls make of the record, with one row for a pair at most, and each call's answer is the
-- record's: `unsubscribe` returns True when the agent was subscribed, and a call that raises
-- counts if its write took effect.
pub run_agrees :
    (matches : ℕ → Bool) (h : HandlerSubscription) (calls : List Call) (ideal : Record)
    → Fresh matches h calls
    → Keeps h.rows ideal
    → Keeps (run matches h calls).0.rows (ideal_run matches ideal calls).0
      × ((run matches h calls).1 ≡ (ideal_run matches ideal calls).1)
unfolding run ideal_run
run_agrees matches h [] ideal fresh keeps = (keeps, refl)
run_agrees matches h (c ∷ calls) ideal fresh keeps =
    let now = step-Same matches h c ideal fresh.0 keeps in
    let later =
      run_agrees matches (step matches h c).0 calls (ideal_step matches ideal c).0 fresh.1 now.0 in
    (
      later.0,
      ap (λ x. x ∷ (run matches (step matches h c).0 calls).1) now.1
          ∙ ap (λ xs. (ideal_step matches ideal c).1 ∷ xs) later.1,
    )
