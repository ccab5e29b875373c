-- ===== src/PriorityLock/Order.antt =====
-- The queue: higher priorities first, and first come first served within a priority.
use omnimemory.Prelude.{ℕ, ◌≤◌, ◌<◌, ◌≡◌, refl, List, [], ◌∷◌, ◌++◌, ltb, leb, if◌then◌else◌, arith}
use omnimemory.PriorityLock.{
  LockPriority, LockRequest, PriorityLock, value, insert_request, enqueue_request, without,
}

-- Nobody in the queue has a higher priority than `top`, nor than anybody in front.
abbrev pub Descends : ℕ → List LockRequest → Type 0
Descends top [] = Unit {0}
Descends top (q ∷ qs) = (value q.priority ≤ top) × Descends (value q.priority) qs

pub Descends-higher :
    (low high : ℕ) (qs : List LockRequest) → low ≤ high → Descends low qs → Descends high qs
Descends-higher low high [] h d = tt
Descends-higher low high (q ∷ qs) h d = (omega arith, d.1)

-- The requests of a priority at least as high, and of a lower one, each in their order.
abbrev pub at_least : ℕ → List LockRequest → List LockRequest
at_least p [] = []
at_least p (q ∷ qs) = if leb p (value q.priority) then q ∷ at_least p qs else at_least p qs

abbrev pub below : ℕ → List LockRequest → List LockRequest
below p [] = []
below p (q ∷ qs) = if ltb (value q.priority) p then q ∷ below p qs else below p qs

all_below :
    (p top : ℕ) (qs : List LockRequest)
    → top < p
    → Descends top qs
    → (at_least p qs ≡ []) × (below p qs ≡ qs)
all_below p top [] h d = (refl, refl)
all_below p top (q ∷ qs) h d = ground (arith, all_below p (value q.priority) qs (omega arith) d.1)

insert_request_stable :
    (r : LockRequest) (top : ℕ) (qs : List LockRequest)
    → Descends top qs
    → insert_request r qs ≡ at_least (value r.priority) qs ++ r ∷ below (value r.priority) qs
unfolding insert_request
insert_request_stable r top [] d = refl
insert_request_stable r top (q ∷ qs) d = ground (
  arith,
  all_below (value r.priority) (value q.priority) qs,
  insert_request_stable r (value q.priority) qs d.1,
)

-- In a queue in order of priority a new request goes behind all requests of its priority or a
-- higher one, and in front of all of a lower one, and the order among the others stays.
pub enqueue_request_stable :
    (l : PriorityLock) (r : LockRequest)
    → Descends 4 l.queue
    → (enqueue_request l r).queue
      ≡ at_least (value r.priority) l.queue ++ r ∷ below (value r.priority) l.queue
unfolding enqueue_request
enqueue_request_stable l r d = insert_request_stable r 4 l.queue d

pub insert_request-Descends :
    (r : LockRequest) (top : ℕ) (qs : List LockRequest)
    → value r.priority ≤ top
    → Descends top qs
    → Descends top (insert_request r qs)
unfolding insert_request
insert_request-Descends r top [] h d = (h, tt)
insert_request-Descends r top (q ∷ qs) h d =
    ground (arith, insert_request-Descends r (value q.priority) qs)

pub without-Descends :
    (id top : ℕ) (qs : List LockRequest) → Descends top qs → Descends top (without id qs)
unfolding without
without-Descends id top [] d = tt
without-Descends id top (q ∷ qs) d = ground (
  arith,
  without-Descends id (value q.priority) qs d.1,
  Descends-higher (value q.priority) top (without id qs) d.0,
)

pub value_bound : (p : LockPriority) → value p ≤ 4
value_bound p = ground arith
