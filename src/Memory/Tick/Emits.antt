-- ===== src/Memory/Tick/Emits.antt =====
-- Which events a tick emits, against what the reader found.
use text.Mathlib.TextEquality.{eq_iff}
use mathlib.Core.Path.{subst}
use omnimemory.Prelude.{
  ℕ, ◌≤◌, ◌≡◌, refl, sym, ap, ◌⊎◌, inl, inr, Bool, true, false, ◌&&◌, Option, none, some, List, [],
  ◌∷◌, ◌++◌, length, Result, ok, err, arith, Bool-cases,
}
use omnimemory.Breaker.Simple.{
  CircuitBreaker, should_allow_request, record_success, record_failure, record_timeout,
}
use omnimemory.Memory.Tick.{
  Projection, is_none, past_deadline, needs_expiration_event, needs_archive_event, Event,
  memory_expired, archive_initiated, ReaderError, timed_out, breaker_rejected, raised, Call,
  HandlerMemoryTick, found_by, noted, candidates, expired_events, archive_events, Output,
  check_memory_expirations, check_archive_candidates, handle,
}

-- An event that says that a memory found active is past its deadline.
pub record Expires (tick_id now : ℕ) (m : Projection) (e : Event) : Type 0 where
  pub active : m.lifecycle_state ≡ "active"
  pub deadline : ℕ
  pub set : m.expires_at ≡ some deadline
  pub past : deadline ≤ now
  pub not_emitted : m.expiration_emitted_at ≡ none
  pub event : e ≡ memory_expired m.entity_id tick_id now deadline m.lifecycle_revision

-- An event that says that a memory found expired is to be archived.
pub record Archives (tick_id now : ℕ) (m : Projection) (e : Event) : Type 0 where
  pub expired : m.lifecycle_state ≡ "expired"
  pub not_archived : m.archived_at ≡ none
  pub not_initiated : m.archive_initiated_at ≡ none
  pub event : e ≡ archive_initiated m.entity_id tick_id now m.expired_at m.lifecycle_revision

-- The events that there are to say of some candidates, in their order: one for each candidate
-- that there is something to say of, none for the others.
pub data Emitted (says : Projection → Event → Type 0) : List Projection → List Event → Type 0 where
  done : Emitted says [] []
  said :
      {m : Projection} {e : Event} {rest : List Projection} {events : List Event}
      → says m e
      → Emitted says rest events
      → Emitted says (m ∷ rest) (e ∷ events)
  unsaid :
      {m : Projection} {rest : List Projection} {events : List Event}
      → ((e : Event) → ¬ says m e)
      → Emitted says rest events
      → Emitted says (m ∷ rest) events

-- What one call of the reader finds, and the breaker that it leaves: nothing is found without a
-- reader, when the breaker refuses, or when the call fails; else the candidates are those of the
-- reply. The breaker is told how the call ended, but for a rejection by the reader's own breaker.
pub data Reads (h : HandlerMemoryTick) (q : Call) : List Projection → CircuitBreaker → Type 0 where
  no_reader : h.has_reader ≡ false → Reads h q [] h.circuit_breaker
  refused :
      (b : CircuitBreaker)
      → h.has_reader ≡ true
      → should_allow_request h.circuit_breaker q.asked ≡ (b, false)
      → Reads h q [] b
  replied :
      (b : CircuitBreaker) (found : List Projection)
      → h.has_reader ≡ true
      → should_allow_request h.circuit_breaker q.asked ≡ (b, true)
      → q.reply ≡ ok found
      → Reads h q found (record_success (q.later b) q.ended)
  took_too_long :
      (b : CircuitBreaker)
      → h.has_reader ≡ true
      → should_allow_request h.circuit_breaker q.asked ≡ (b, true)
      → q.reply ≡ err timed_out
      → Reads h q [] (record_timeout (q.later b) q.ended)
  rejected :
      (b : CircuitBreaker)
      → h.has_reader ≡ true
      → should_allow_request h.circuit_breaker q.asked ≡ (b, true)
      → q.reply ≡ err breaker_rejected
      → Reads h q [] (q.later b)
  failed :
      (b : CircuitBreaker)
      → h.has_reader ≡ true
      → should_allow_request h.circuit_breaker q.asked ≡ (b, true)
      → q.reply ≡ err raised
      → Reads h q [] (record_failure (q.later b) q.ended)

-- A tick: its two calls of the reader one after the other, the second on the breaker that the
-- first left, the events of both, and the result with its counts.
pub record Ticks (h : HandlerMemoryTick) (tick_id now : ℕ) (first second : Call)
    (result : HandlerMemoryTick × Output) : Type 0 where
  pub to_expire : List Projection
  pub to_archive : List Projection
  pub middle : CircuitBreaker
  pub last : CircuitBreaker
  pub expirations : List Event
  pub archivals : List Event
  pub reads_first : Reads h first to_expire middle
  pub reads_second : Reads (record h { circuit_breaker = middle }) second to_archive last
  pub expires : Emitted (Expires tick_id now) to_expire expirations
  pub archives : Emitted (Archives tick_id now) to_archive archivals
  pub returned : result ≡ (
    record h { circuit_breaker = last },
    record {
      events = expirations ++ archivals;
      expired_count = length expirations;
      archive_initiated_count = length archivals;
      batch_size = h.batch_size;
    },
  )

is_none-eq {ℓ} : {A : Type ℓ} (o : Option A) → is_none o ≡ true → o ≡ none
is_none-eq none h = refl
is_none-eq (some x) h = ground arith

past_deadline-some :
    (o : Option ℕ) (now : ℕ) → past_deadline o now ≡ true → (t : ℕ) × (o ≡ some t) × (t ≤ now)
past_deadline-some none now h = ground arith
past_deadline-some (some t) now h = (t, refl, ground arith)

and_true : (a b : Bool) → (a && b) ≡ true → (a ≡ true) × (b ≡ true)
and_true a b h = ground arith

module _ (tick_id now : ℕ) (m : Projection) where
  needs_expiration_event-Expires :
      needs_expiration_event m now ≡ true
      → (t : ℕ) × (m.expires_at ≡ some t)
        × Expires tick_id now m (memory_expired m.entity_id tick_id now t m.lifecycle_revision)
  unfolding needs_expiration_event
  needs_expiration_event-Expires h =
      let outer = and_true _ _ h in
      let inner = and_true _ _ outer.0 in
      let (t, set, past) = past_deadline-some m.expires_at now inner.1 in
      (
        t,
        set,
        record {
          active = (eq_iff m.lifecycle_state "active").0 inner.0;
          deadline = t;
          set = set;
          past = past;
          not_emitted = is_none-eq m.expiration_emitted_at outer.1;
          event = refl;
        },
      )

  Expires-needs : (e : Event) → Expires tick_id now m e → needs_expiration_event m now ≡ true
  unfolding needs_expiration_event
  Expires-needs e x =
      rw ((eq_iff m.lifecycle_state "active").1 x.active, x.set, x.not_emitted)
        (ground (arith, x.past))

  Expires-one : (e f : Event) → Expires tick_id now m e → Expires tick_id now m f → e ≡ f
  Expires-one e f x y = cc (x.event, x.set, y.event, y.set)

  -- The event of a candidate that needs one.
  expired_events_step :
      (rest : List Projection)
      → ((e : Event) × Expires tick_id now m e
          × (expired_events tick_id now (m ∷ rest) ≡ e ∷ expired_events tick_id now rest))
        ⊎ (((e : Event) → ¬ Expires tick_id now m e)
            × (expired_events tick_id now (m ∷ rest) ≡ expired_events tick_id now rest))
  unfolding expired_events
  expired_events_step rest = elim (Bool-cases (needs_expiration_event m now)) [
    | inl h ↦
        let (t, set, says) = needs_expiration_event-Expires h in
        inl (memory_expired m.entity_id tick_id now t m.lifecycle_revision, says, rw (h, set) refl)
    | inr h ↦ inr (λ e x. cc (h, Expires-needs e x), rw h refl)
  ]

  Archives-needs : (e : Event) → Archives tick_id now m e → needs_archive_event m ≡ true
  unfolding needs_archive_event
  Archives-needs e x =
      rw ((eq_iff m.lifecycle_state "expired").1 x.expired, x.not_archived, x.not_initiated) refl

  needs_archive_event-Archives :
      needs_archive_event m ≡ true
      → Archives tick_id now m
          (archive_initiated m.entity_id tick_id now m.expired_at m.lifecycle_revision)
  unfolding needs_archive_event
  needs_archive_event-Archives h =
      let outer = and_true _ _ h in
      let inner = and_true _ _ outer.0 in
      record {
        expired = (eq_iff m.lifecycle_state "expired").0 inner.0;
        not_archived = is_none-eq m.archived_at inner.1;
        not_initiated = is_none-eq m.archive_initiated_at outer.1;
        event = refl;
      }

  archive_events_step :
      (rest : List Projection)
      → ((e : Event) × Archives tick_id now m e
          × (archive_events tick_id now (m ∷ rest) ≡ e ∷ archive_events tick_id now rest))
        ⊎ (((e : Event) → ¬ Archives tick_id now m e)
            × (archive_events tick_id now (m ∷ rest) ≡ archive_events tick_id now rest))
  unfolding archive_events
  archive_events_step rest = elim (Bool-cases (needs_archive_event m)) [
    | inl h ↦ inl (_, needs_archive_event-Archives h, rw h refl)
    | inr h ↦ inr (λ e x. cc (h, Archives-needs e x), rw h refl)
  ]

expired_events-Emitted :
    (tick_id now : ℕ) (found : List Projection)
    → Emitted (Expires tick_id now) found (expired_events tick_id now found)
unfolding expired_events
expired_events-Emitted tick_id now [] = done
expired_events-Emitted tick_id now (m ∷ rest) = elim (expired_events_step tick_id now m rest) [
  | inl (e, says, step) ↦
      subst (Emitted _ (m ∷ rest)) (sym step) (said says (expired_events-Emitted tick_id now rest))
  | inr (nothing, step) ↦
      subst (Emitted _ (m ∷ rest)) (sym step)
        (unsaid nothing (expired_events-Emitted tick_id now rest))
]

archive_events-Emitted :
    (tick_id now : ℕ) (found : List Projection)
    → Emitted (Archives tick_id now) found (archive_events tick_id now found)
unfolding archive_events
archive_events-Emitted tick_id now [] = done
archive_events-Emitted tick_id now (m ∷ rest) = elim (archive_events_step tick_id now m rest) [
  | inl (e, says, step) ↦
      subst (Emitted _ (m ∷ rest)) (sym step) (said says (archive_events-Emitted tick_id now rest))
  | inr (nothing, step) ↦
      subst (Emitted _ (m ∷ rest)) (sym step)
        (unsaid nothing (archive_events-Emitted tick_id now rest))
]

module _ (h : HandlerMemoryTick) (q : Call) where
  -- A call that the breaker lets through.
  reply-Reads :
      (b : CircuitBreaker) (reply : Result ReaderError (List Projection))
      → h.has_reader ≡ true
      → should_allow_request h.circuit_breaker q.asked ≡ (b, true)
      → q.reply ≡ reply
      → Reads h q (found_by reply) (noted (q.later b) reply q.ended)
  unfolding noted
  reply-Reads b (ok found) reader allowed e = replied b found reader allowed e
  reply-Reads b (err timed_out) reader allowed e = took_too_long b reader allowed e
  reply-Reads b (err breaker_rejected) reader allowed e = rejected b reader allowed e
  reply-Reads b (err raised) reader allowed e = failed b reader allowed e

  candidates-Reads :
      (b : CircuitBreaker) × (found : List Projection) × Reads h q found b
      × (candidates h q ≡ (record h { circuit_breaker = b }, found))
  unfolding candidates
  candidates-Reads = elim (Bool-cases h.has_reader) [
    | inl reader ↦
        let asked = should_allow_request h.circuit_breaker q.asked in
        elim (Bool-cases asked.1) [
          | inl lets ↦ (
            noted (q.later asked.0) q.reply q.ended,
            found_by q.reply,
            reply-Reads asked.0 q.reply reader (ap (λ x. (asked.0, x)) lets) refl,
            rw (reader, lets) refl,
          )
          | inr stops ↦ (
            asked.0,
            [],
            refused asked.0 reader (ap (λ x. (asked.0, x)) stops),
            rw (reader, stops) refl,
          )
        ]
    | inr none_there ↦ (h.circuit_breaker, [], no_reader none_there, rw none_there refl)
  ]

-- Whatever the reader replies and other ticks do to the breaker, a tick makes its two calls one
-- after the other and returns exactly these events in this order: for each candidate of the first
-- call that was found active, past its deadline and not announced before, one that it expires,
-- with that deadline; then for each candidate of the second that was found expired, neither
-- archived nor announced, one that it is to be archived; and none for any other candidate. The
-- counts are those of the events. A call has no candidates if there is no reader, if the breaker
-- refuses it, or if it fails. The breaker is told how a call ended that it let through, unless the
-- reader's own breaker rejected it.
pub handle_emits :
    (h : HandlerMemoryTick) (tick_id now : ℕ) (first second : Call)
    → Ticks h tick_id now first second (handle h tick_id now first second)
unfolding handle check_memory_expirations check_archive_candidates
handle_emits h tick_id now first second =
    let (b, found, reads, e) = candidates-Reads h first in
    let (b', found', reads', e') = candidates-Reads (record h { circuit_breaker = b }) second in
    record {
      to_expire = found;
      to_archive = found';
      middle = b;
      last = b';
      expirations = expired_events tick_id now found;
      archivals = archive_events tick_id now found';
      reads_first = reads;
      reads_second = reads';
      expires = expired_events-Emitted tick_id now found;
      archives = archive_events-Emitted tick_id now found';
      returned = rw (e, e') refl;
    }
