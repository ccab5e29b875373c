-- ===== src/FairSemaphore/Permits.antt =====
-- The permits of a semaphore and its statistics, whatever its tasks do.
use omnimemory.Prelude.{
  ℕ, ◌+◌, ◌-◌, ◌<◌, ◌≡◌, refl, ◌∙◌, ap, ◌⊎◌, some, List, [], ◌∷◌, length, arith,
}
use omnimemory.Prelude.Int.{pos, up, down, sub_ℕ, up-sub_ℕ, down-sub_ℕ, sub_ℕ-up}
use omnimemory.FairSemaphore.{
  FairSemaphore, BodyEnd, finished, raised_timeout, new, begin_wait, obtain, on_timeout,
  drop_holder, leave,
}

-- What the tasks are really doing: how many wait, how many are in a body; and two counts of the
-- past: the waits that were cancelled, and the bodies that raised a timeout.
pub record World : Type 0 where
  pub semaphore : FairSemaphore
  pub waiting : ℕ
  pub inside : ℕ
  pub cancelled : ℕ
  pub body_timeouts : ℕ

abbrev pub start : ℕ → World
start value = record {
  semaphore = new value;
  waiting = 0;
  inside = 0;
  cancelled = 0;
  body_timeouts = 0;
}

abbrev pub Holds : ℕ → List ℕ → Type 0
Holds id [] = ⊥
Holds id (h ∷ hs) = (h ≡ id) ⊎ Holds id hs

abbrev pub timeouts_of : BodyEnd → ℕ
timeouts_of finished = 0
timeouts_of raised_timeout = 1

pub data Step (w v : World) : Type 0 where
  asks : v ≡ record w { semaphore = begin_wait w.semaphore; waiting = w.waiting + 1 } → Step w v
  obtains :
      (id : ℕ) (s : FairSemaphore)
      → 0 < w.waiting
      → obtain w.semaphore id ≡ some s
      → v ≡ record w { semaphore = s; waiting = w.waiting - 1; inside = w.inside + 1 }
      → Step w v
  times_out :
      0 < w.waiting
      → v ≡ record w { semaphore = on_timeout w.semaphore; waiting = w.waiting - 1 }
      → Step w v
  cancels :
      0 < w.waiting
      → v ≡ record w { waiting = w.waiting - 1; cancelled = w.cancelled + 1 }
      → Step w v
  leaves :
      (id : ℕ) (how : BodyEnd)
      → Holds id w.semaphore.active_holders
      → v ≡ record w {
        semaphore = leave w.semaphore id how;
        inside = w.inside - 1;
        body_timeouts = w.body_timeouts + timeouts_of how;
      }
      → Step w v

pub data Reach (s : World) : World → Type 0 where
  here : Reach s s
  next : {w v : World} → Reach s w → Step w v → Reach s v

length-drop_holder :
    (id : ℕ) (hs : List ℕ) → Holds id hs → length (drop_holder id hs) + 1 ≡ length hs
unfolding drop_holder
length-drop_holder id [] h = absurd h
length-drop_holder id (k ∷ hs) h = ground (arith, length-drop_holder id hs)

-- Permits are conserved, and `waiting_count` is off by the cancelled waits and the bodies that
-- timed out.
pub record IsValid (value : ℕ) (w : World) : Type 0 where
  pub conserved : w.semaphore.permits + length w.semaphore.active_holders ≡ value
  pub tracked : length w.semaphore.active_holders ≡ w.inside
  pub reported : w.semaphore.stats.available_permits ≡ pos w.semaphore.permits
  pub drift : w.semaphore.stats.waiting_count ≡ sub_ℕ (w.waiting + w.cancelled) w.body_timeouts
  pub balanced :
      w.semaphore.stats.total_acquisitions
      ≡ w.semaphore.stats.total_releases + length w.semaphore.active_holders

obtain-waiting_count :
    (f s : FairSemaphore) (id : ℕ)
    → obtain f id ≡ some s
    → s.stats.waiting_count ≡ down f.stats.waiting_count
unfolding obtain
obtain-waiting_count f s id o = ground arith

-- A task stops waiting, and the count goes down.
down-drift :
    (waiting cancelled timeouts : ℕ)
    → 0 < waiting
    → down (sub_ℕ (waiting + cancelled) timeouts) ≡ sub_ℕ (waiting - 1 + cancelled) timeouts
down-drift waiting cancelled timeouts h =
    let same : waiting + cancelled ≡ (waiting - 1 + cancelled) + 1 = omega arith in
    ap (λ n. down (sub_ℕ n timeouts)) same
    ∙ down-sub_ℕ ((waiting - 1 + cancelled) + 1) timeouts
    ∙ sub_ℕ-up (waiting - 1 + cancelled) timeouts

Step-IsValid : {value : ℕ} {w v : World} → Step w v → IsValid value w → IsValid value v
unfolding begin_wait obtain on_timeout leave
Step-IsValid {w = w} (asks e) valid = rw e (record {
  conserved = valid.conserved;
  tracked = valid.tracked;
  reported = valid.reported;
  drift =
      ap up valid.drift
      ∙ up-sub_ℕ (w.waiting + w.cancelled) w.body_timeouts
      ∙ ap (λ n. sub_ℕ n w.body_timeouts) (omega arith);
  balanced = valid.balanced;
})
Step-IsValid {w = w} (obtains id s h o e) valid = rw e (record {
  conserved = ground arith;
  tracked = ground arith;
  reported = ground arith;
  drift =
      obtain-waiting_count w.semaphore s id o
      ∙ ap down valid.drift
      ∙ down-drift w.waiting w.cancelled w.body_timeouts h;
  balanced = ground arith;
})
Step-IsValid {w = w} (times_out h e) valid = rw e (record {
  conserved = valid.conserved;
  tracked = valid.tracked;
  reported = valid.reported;
  drift = ap down valid.drift ∙ down-drift w.waiting w.cancelled w.body_timeouts h;
  balanced = valid.balanced;
})
Step-IsValid {w = w} (cancels h e) valid = rw e (record {
  conserved = valid.conserved;
  tracked = valid.tracked;
  reported = valid.reported;
  drift = valid.drift ∙ ap (λ n. sub_ℕ n w.body_timeouts) (omega arith);
  balanced = valid.balanced;
})
Step-IsValid {w = w} (leaves id finished h e) valid = rw e (record {
  conserved = omega (arith, valid.conserved, length-drop_holder id w.semaphore.active_holders h);
  tracked = omega (arith, valid.tracked, length-drop_holder id w.semaphore.active_holders h);
  reported = ground arith;
  drift = valid.drift ∙ ap (sub_ℕ (w.waiting + w.cancelled)) (omega arith);
  balanced = omega (arith, valid.balanced, length-drop_holder id w.semaphore.active_holders h);
})
Step-IsValid {w = w} (leaves id raised_timeout h e) valid = rw e (record {
  conserved = omega (arith, valid.conserved, length-drop_holder id w.semaphore.active_holders h);
  tracked = omega (arith, valid.tracked, length-drop_holder id w.semaphore.active_holders h);
  reported = ground arith;
  drift = ap down valid.drift ∙ down-sub_ℕ (w.waiting + w.cancelled) w.body_timeouts;
  balanced = omega (arith, valid.balanced, length-drop_holder id w.semaphore.active_holders h);
})

start-IsValid : (value : ℕ) → IsValid value (start value)
unfolding new
start-IsValid value = record {
  conserved = omega arith;
  tracked = refl;
  reported = refl;
  drift = refl;
  balanced = refl;
}

Reach-IsValid : (value : ℕ) (w : World) → Reach (start value) w → IsValid value w
Reach-IsValid value w here = start-IsValid value
Reach-IsValid value w (next {w = u} r step) = Step-IsValid step (Reach-IsValid value u r)

-- Whatever the tasks of a semaphore of `value` permits do (ask, get a permit, time out, be
-- cancelled, leave a body with or without a timeout of its own): the free permits and the tasks
-- in a body are `value` in sum, the holders on record are as many as the tasks in a body,
-- `available_permits` reports the free permits, and the acquisitions are the releases and the
-- tasks in a body.
pub permits_conserved :
    (value : ℕ) (w : World)
    → Reach (start value) w
    → (w.semaphore.permits + w.inside ≡ value)
      × (length w.semaphore.active_holders ≡ w.inside)
      × (w.semaphore.stats.available_permits ≡ pos w.semaphore.permits)
      × (w.semaphore.stats.total_acquisitions ≡ w.semaphore.stats.total_releases + w.inside)
permits_conserved value w r =
    let valid : IsValid value w = Reach-IsValid value w r in
    (
      omega (arith, valid.conserved, valid.tracked),
      valid.tracked,
      valid.reported,
      omega (arith, valid.balanced, valid.tracked),
    )

-- `waiting_count` is not the number of the waiting tasks: over any steps of the tasks it is that
-- number plus the waits that were cancelled, minus the bodies that raised a `TimeoutError`, an
-- integer below 0 when these are more.
pub waiting_count_drift :
    (value : ℕ) (w : World)
    → Reach (start value) w
    → w.semaphore.stats.waiting_count ≡ sub_ℕ (w.waiting + w.cancelled) w.body_timeouts
waiting_count_drift value w r = (Reach-IsValid value w r).drift
