-- ===== src/PriorityLock/Exclusion.antt =====
-- Tasks at a lock: whatever they do and however they interleave, one is inside at a time.
use omnimemory.Prelude.{
  ℕ, ◌+◌, ◌≤◌, ◌≡◌, ◌≢◌, refl, ◌⊎◌, inl, inr, none, some, List, [], ◌∷◌, length, arith,
}
use omnimemory.PriorityLock.{
  LockRequest, PriorityLock, BodyEnd, finished, raised_timeout, value, new, enqueue_request,
  pop_front, cleanup_waiting, poll, Turn, granted, timed_out, waits, leave,
}
use omnimemory.PriorityLock.Order.{
  Descends, Descends-higher, insert_request-Descends, without-Descends, value_bound,
}

-- A lock and the tasks in its body, each as its request and the time of its turn.
pub record World : Type 0 where
  pub lock : PriorityLock
  pub inside : List (LockRequest × ℕ)

abbrev pub start : World
start = record { lock = new; inside = [] }

-- No task in the body has this id: so it is with a task that still waits.
abbrev pub Outside : ℕ → List (LockRequest × ℕ) → Type 0
Outside id [] = Unit {0}
Outside id ((r, at) ∷ rs) = (r.request_id ≢ id) × Outside id rs

-- The task whose turn it is goes in.
abbrev pub go_in : World → LockRequest → ℕ → PriorityLock × Turn → World
go_in w r now (l, granted) = record { lock = l; inside = (r, now) ∷ w.inside }
go_in w r now (l, _) = record w { lock = l }

-- What a task can do: ask for the lock, look whether it is its turn, be cancelled while it waits,
-- and leave the body in which it is.
pub data Step (w v : World) : Type 0 where
  enters : (r : LockRequest) → v ≡ record w { lock = enqueue_request w.lock r } → Step w v
  polls :
      (r : LockRequest) (now : ℕ)
      → Outside r.request_id w.inside
      → v ≡ go_in w r now (poll w.lock r now)
      → Step w v
  cancels :
      (r : LockRequest)
      → Outside r.request_id w.inside
      → v ≡ record w { lock = cleanup_waiting w.lock r }
      → Step w v
  leaves :
      (r : LockRequest) (at now : ℕ) (how : BodyEnd) (rest : List (LockRequest × ℕ))
      → w.inside ≡ (r, at) ∷ rest
      → v ≡ record { lock = leave w.lock r at how now; inside = rest }
      → Step w v

pub data Reach (s : World) : World → Type 0 where
  here : Reach s s
  next : {w v : World} → Reach s w → Step w v → Reach s v

-- The holder is the one task inside, the queue is in order, and what was acquired and not
-- released is inside.
pub record IsValid (w : World) : Type 0 where
  pub holder :
      ((w.lock.current_holder ≡ none) × (w.inside ≡ []))
      ⊎ ((h : LockRequest) × (at : ℕ) × (w.lock.current_holder ≡ some h)
          × (w.inside ≡ (h, at) ∷ []))
  pub ordered : Descends 4 w.lock.queue
  pub counted : w.lock.total_acquisitions ≡ w.lock.total_releases + length w.inside

start-IsValid : IsValid start
unfolding new
start-IsValid = record { holder = inl (refl, refl); ordered = tt; counted = refl }

pop_front-Descends :
    (top : ℕ) (qs : List LockRequest) → Descends top qs → Descends top (pop_front qs)
pop_front-Descends top [] d = tt
pop_front-Descends top (q ∷ qs) d = Descends-higher (value q.priority) top qs d.0 d.1

enters-IsValid :
    (w : World) (r : LockRequest)
    → IsValid w
    → IsValid (record w { lock = enqueue_request w.lock r })
unfolding enqueue_request
enters-IsValid w r valid = record {
  holder = valid.holder;
  ordered = insert_request-Descends r 4 w.lock.queue (value_bound r.priority) valid.ordered;
  counted = valid.counted;
}

cancels-IsValid :
    (w : World) (r : LockRequest)
    → Outside r.request_id w.inside
    → IsValid w
    → IsValid (record w { lock = cleanup_waiting w.lock r })
unfolding cleanup_waiting
cancels-IsValid w r outside valid = record {
  holder = elim valid.holder [
    | inl (f, i) ↦ inl (ground arith, i)
    | inr (h, at, f, i) ↦ inr (h, at, stays h at f i, i)
  ];
  ordered = without-Descends r.request_id 4 w.lock.queue valid.ordered;
  counted = valid.counted;
}
  where
    stays :
        (h : LockRequest) (at : ℕ)
        → w.lock.current_holder ≡ some h
        → w.inside ≡ (h, at) ∷ []
        → (cleanup_waiting w.lock r).current_holder ≡ some h
    stays h at f i =
        let apart : Outside r.request_id ((h, at) ∷ []) = rw i at outside in ground arith

-- The lock after a granted turn.
abbrev taken : PriorityLock → LockRequest → PriorityLock
taken l r = record l {
  queue = pop_front l.queue;
  current_holder = some r;
  total_acquisitions = l.total_acquisitions + 1;
}

poll_cases :
    (l : PriorityLock) (r : LockRequest) (now : ℕ)
    → ((l.current_holder ≡ none) × (poll l r now ≡ (taken l r, granted)))
      ⊎ (poll l r now
          ≡ (cleanup_waiting (record l { total_timeouts = l.total_timeouts + 1 }) r, timed_out))
      ⊎ (poll l r now ≡ (l, waits))
unfolding poll
poll_cases l r now = ground arith

takes-IsValid :
    (w : World) (r : LockRequest) (now : ℕ)
    → w.lock.current_holder ≡ none
    → IsValid w
    → IsValid (record { lock = taken w.lock r; inside = (r, now) ∷ w.inside })
takes-IsValid w r now free valid = elim valid.holder [
  | inl (f, i) ↦ record {
    holder = inr (r, now, refl, rw i refl);
    ordered = pop_front-Descends 4 w.lock.queue valid.ordered;
    counted = omega (arith, valid.counted);
  }
  | inr (h, at, f, i) ↦ absurd (cc (free, f))
]

polls-IsValid :
    (w : World) (r : LockRequest) (now : ℕ)
    → Outside r.request_id w.inside
    → IsValid w
    → IsValid (go_in w r now (poll w.lock r now))
polls-IsValid w r now outside valid = elim (poll_cases w.lock r now) [
  | inl (free, e) ↦ rw e (takes-IsValid w r now free valid)
  | inr (inl e) ↦ rw e (
      cancels-IsValid
        (record w { lock = record (w.lock) { total_timeouts = w.lock.total_timeouts + 1 } }) r
        outside
        (record { holder = valid.holder; ordered = valid.ordered; counted = valid.counted }))
  | inr (inr e) ↦ rw e valid
]

leaves-IsValid :
    (w : World) (r : LockRequest) (at now : ℕ) (how : BodyEnd) (rest : List (LockRequest × ℕ))
    → w.inside ≡ (r, at) ∷ rest
    → IsValid w
    → IsValid (record { lock = leave w.lock r at how now; inside = rest })
unfolding leave
leaves-IsValid w r at now how rest e valid = elim valid.holder [
  | inl (f, i) ↦ absurd (cc (e, i))
  | inr (h, a, f, i) ↦ gone how h a f i
]
  where
    gone :
        (how : BodyEnd) (h : LockRequest) (a : ℕ)
        → w.lock.current_holder ≡ some h
        → w.inside ≡ (h, a) ∷ []
        → IsValid (record { lock = leave w.lock r at how now; inside = rest })
    gone finished h a f i = record {
      holder = inl (ground arith, ground arith);
      ordered = without-Descends r.request_id 4 w.lock.queue valid.ordered;
      counted = ground (arith, valid.counted);
    }
    gone raised_timeout h a f i = record {
      holder = inl (ground arith, ground arith);
      ordered = without-Descends r.request_id 4 w.lock.queue valid.ordered;
      counted = ground (arith, valid.counted);
    }

Step-IsValid : {w v : World} → Step w v → IsValid w → IsValid v
Step-IsValid {w} (enters r e) valid = rw e (enters-IsValid w r valid)
Step-IsValid {w} (polls r now o e) valid = rw e (polls-IsValid w r now o valid)
Step-IsValid {w} (cancels r o e) valid = rw e (cancels-IsValid w r o valid)
Step-IsValid {w} (leaves r at now how rest i e) valid =
    rw e (leaves-IsValid w r at now how rest i valid)

Reach-IsValid : {w : World} → Reach start w → IsValid w
Reach-IsValid here = start-IsValid
Reach-IsValid (next r s) = Step-IsValid s (Reach-IsValid r)

-- However tasks ask for a new lock, wait, time out, are cancelled and leave, at most one is in
-- its body; and the acquisitions are the releases and the task in the body.
pub exclusion :
    (w : World)
    → Reach start w
    → (length w.inside ≤ 1) × (w.lock.total_acquisitions ≡ w.lock.total_releases + length w.inside)
exclusion w r = ground (arith, Reach-IsValid r)

-- Whatever the tasks at a new lock do, its queue stays in order of priority, the highest first.
pub queue_ordered : (w : World) → Reach start w → Descends 4 w.lock.queue
queue_ordered w r = (Reach-IsValid r).ordered
