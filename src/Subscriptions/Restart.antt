-- ===== src/Subscriptions/Restart.antt =====
-- What a rebuild that nobody else disturbs leaves in the cache, however the services answer.
use mathlib.Core.Path.{subst}
use omnimemory.Prelude.{
  ℕ, zero, suc, ◌+◌, ◌≤◌, ◌≡◌, refl, sym, ap, ◌∙◌, Bool, true, false, [], ◌∷◌, length, take, drop,
  ltb, if◌then◌else◌, ok, err, arith,
}
use omnimemory.Subscriptions.{
  Subscription, Table, HandlerSubscription, is_active, select_rows, cache_subscription, Reply,
  answered, raised,
}
use omnimemory.Subscriptions.Rebuild.{
  cache_all, insert_by_id, by_id, active_rows, query_raised, Outcome, Rebuild, piped, batch_written,
  rebuild_loop, rebuild_cache_from_db,
}

-- What the services answer in a turn: to the query, and to the pipeline.
abbrev pub Answers : Type 0
Answers = ℕ → Bool × Reply

-- The call where nobody else does anything.
abbrev pub alone : Bool → Answers → Rebuild
alone count answers = record {
  count_answered = count;
  turns = λ n. record {
    before_query = λ h. h;
    query_answered = (answers n).0;
    before_write = λ h. h;
    pipeline = (answers n).1;
  };
}

-- From rows that are left to cache: a number of them are cached, all of them if the rebuild
-- returns, and it returns if the services answer.
pub record Fills (count : Bool) (answers : Answers) (left : Table) (h : HandlerSubscription)
    (result : Outcome) : Type 0 where
  pub number : ℕ
  pub cached : result.0 ≡ cache_all (take number left) h
  pub complete : result.1 ≡ ok tt → result.0 ≡ cache_all left h
  pub returns : count ≡ true → ((n : ℕ) → answers n ≡ (true, answered)) → result.1 ≡ ok tt

length-insert_by_id :
    (id : ℕ) (s : Subscription) (rows : Table) → length (insert_by_id id s rows) ≡ suc (length rows)
length-insert_by_id id s [] = refl
length-insert_by_id id s ((j, r) ∷ rows) = ground (arith, length-insert_by_id id s rows)

length-by_id : (rows : Table) → length (by_id rows) ≡ length rows
length-by_id [] = refl
length-by_id ((id, s) ∷ rows) =
    length-insert_by_id id s (by_id rows) ∙ ap (λ n. suc n) (length-by_id rows)

length-active_rows :
    (h : HandlerSubscription)
    → length (active_rows h) ≡ length (select_rows (λ s. is_active s.status) h.rows)
unfolding active_rows
length-active_rows h = length-by_id (select_rows (λ s. is_active s.status) h.rows)

cache_all-rows : (rows : Table) (h : HandlerSubscription) → (cache_all rows h).rows ≡ h.rows
unfolding cache_subscription
cache_all-rows [] h = refl
cache_all-rows ((id, s) ∷ rows) h = cache_all-rows rows (cache_subscription h id s)

drop_nil : (n : ℕ) → drop {A = ℕ × Subscription} n [] ≡ []
drop_nil zero = refl
drop_nil (suc n) = refl

drop_cong : (n m : ℕ) (rows : Table) → n ≡ m → drop n rows ≡ drop m rows
drop_cong n m rows e = ap (λ k. drop k rows) e

drop-drop : (n m : ℕ) (rows : Table) → drop (n + m) rows ≡ drop m (drop n rows)
drop-drop zero m rows = drop_cong (zero + m) m rows (omega arith)
drop-drop (suc n) m [] = drop_nil (suc n + m) ∙ sym (drop_nil m)
drop-drop (suc n) m (r ∷ rows) =
    drop_cong (suc n + m) (suc (n + m)) (r ∷ rows) (omega arith) ∙ drop-drop n m rows

drop_all : (n : ℕ) (rows : Table) → length rows ≤ n → drop n rows ≡ []
drop_all zero [] h = refl
drop_all zero (r ∷ rows) h = absurd (omega arith)
drop_all (suc n) [] h = refl
drop_all (suc n) (r ∷ rows) h = drop_all n rows (omega arith)

cache_all-take :
    (n : ℕ) (rows : Table) (h : HandlerSubscription)
    → cache_all (drop n rows) (cache_all (take n rows) h) ≡ cache_all rows h
cache_all-take zero rows h = refl
cache_all-take (suc n) [] h = refl
cache_all-take (suc n) ((id, s) ∷ rows) h = cache_all-take n rows (cache_subscription h id s)

take_nil : (n : ℕ) → take {A = ℕ × Subscription} n [] ≡ []
take_nil zero = refl
take_nil (suc n) = refl

cache_all-take_more :
    (n m : ℕ) (rows : Table) (h : HandlerSubscription)
    → cache_all (take m (drop n rows)) (cache_all (take n rows) h) ≡ cache_all (take (n + m) rows) h
cache_all-take_more zero m rows h = ap (λ k. cache_all (take k rows) h) (omega arith)
cache_all-take_more (suc n) m [] h =
    ap (λ rows. cache_all rows h) (take_nil m ∙ sym (take_nil (suc n + m)))
cache_all-take_more (suc n) m ((id, s) ∷ rows) h =
    cache_all-take_more n m rows (cache_subscription h id s)
    ∙ ap (λ k. cache_all (take k ((id, s) ∷ rows)) h) (the_sum n m)
  where
    the_sum : (n m : ℕ) → suc (n + m) ≡ suc n + m
    the_sum n m = omega arith

module _ (count : Bool) (answers : Answers) (batch : ℕ) (some_rows : 1 ≤ batch) where
  take-nil_only : (left : Table) → take batch left ≡ [] → left ≡ []
  take-nil_only = go batch some_rows
    where
      go : (n : ℕ) → 1 ≤ n → (left : Table) → take n left ≡ [] → left ≡ []
      go zero h left e = absurd (omega arith)
      go (suc n) h [] e = refl
      go (suc n) h (r ∷ left) e = cc e

  -- The batch is cached, and the rest goes on from there.
  rest-Fills :
      (left : Table) (h : HandlerSubscription) (rest : Outcome)
      → Fills count answers (drop batch left) (cache_all (take batch left) h) rest
      → Fills count answers left h rest
  rest-Fills left h rest f = record {
    number = batch + f.number;
    cached = f.cached ∙ cache_all-take_more batch f.number left h;
    complete = λ e. f.complete e ∙ cache_all-take batch left h;
    returns = f.returns;
  }

  none-Fills :
      (left : Table) (h : HandlerSubscription) → left ≡ [] → Fills count answers left h (h, ok tt)
  none-Fills left h e = record {
    number = 0;
    cached = refl;
    complete = λ x. sym (ap (λ rows. cache_all rows h) e);
    returns = λ x y. refl;
  }

  piped-Fills :
      (n : ℕ) (left : Table) (h : HandlerSubscription) (rest : Outcome) (reply : Reply)
      → (answers n).1 ≡ reply
      → Fills count answers (drop batch left) (cache_all (take batch left) h) rest
      → Fills count answers left h (piped reply (cache_all (take batch left) h) h rest)
  piped-Fills n left h rest answered e f = rest-Fills left h rest f
  piped-Fills n left h rest (raised true) e f = record {
    number = batch;
    cached = refl;
    complete = λ x. cc x;
    returns = λ c all. cc (ap (λ a. a.1) (all n), e);
  }
  piped-Fills n left h rest (raised false) e f = record {
    number = 0;
    cached = refl;
    complete = λ x. cc x;
    returns = λ c all. cc (ap (λ a. a.1) (all n), e);
  }

  batch_written-Fills :
      (n : ℕ) (left rows : Table) (h : HandlerSubscription) (rest : Outcome)
      → take batch left ≡ rows
      → Fills count answers (drop batch left) (cache_all rows h) rest
      → Fills count answers left h (batch_written rows ((alone count answers).turns n) h rest)
  batch_written-Fills n left [] h rest e f = none-Fills left h (take-nil_only left e)
  batch_written-Fills n left (r ∷ rows) h rest e f =
      subst (λ x. Fills count answers left h (piped (answers n).1 (cache_all x h) h rest)) e
        (piped-Fills n left h rest (answers n).1 refl
          (subst (λ x. Fills count answers (drop batch left) (cache_all x h) rest) (sym e) f))

  either-Fills :
      (left : Table) (h : HandlerSubscription) (test : Bool) (x y : Outcome)
      → (test ≡ true → Fills count answers left h x)
      → (test ≡ false → Fills count answers left h y)
      → Fills count answers left h (if test then x else y)
  either-Fills left h true x y hx hy = hx refl
  either-Fills left h false x y hx hy = hy refl

  lost-Fills :
      (n : ℕ) (left : Table) (h : HandlerSubscription)
      → (answers n).0 ≡ false
      → Fills count answers left h (h, err query_raised)
  lost-Fills n left h lost = record {
    number = 0;
    cached = refl;
    complete = λ x. cc x;
    returns = λ c all. cc (ap (λ a. a.0) (all n), lost);
  }

  active_rows-cache_all :
      (rows : Table) (h : HandlerSubscription) → active_rows (cache_all rows h) ≡ active_rows h
  unfolding active_rows
  active_rows-cache_all rows h =
      ap (λ t. by_id (select_rows (λ s. is_active s.status) t)) (cache_all-rows rows h)

  rebuild_loop-Fills :
      (fuel n offset total : ℕ) (rows : Table) (h : HandlerSubscription)
      → total ≡ length rows
      → active_rows h ≡ rows
      → length rows ≤ fuel + offset
      → Fills count answers
          (drop offset rows)
          h
          (rebuild_loop fuel batch n offset total (alone count answers).turns h)
  unfolding rebuild_loop
  rebuild_loop-Fills zero n offset total rows h all same enough =
      none-Fills (drop offset rows) h (drop_all offset rows (omega arith))
  rebuild_loop-Fills (suc fuel) n offset total rows h all same enough =
      let next = take batch (drop offset (active_rows h)) in
      let rest =
        rebuild_loop fuel batch (suc n) (offset + batch) total (alone count answers).turns
          (cache_all next h) in
      either-Fills (drop offset rows) h (ltb offset total) _ _
        (λ more.
          either-Fills (drop offset rows) h (answers n).0 _ _
            (λ got.
              batch_written-Fills n (drop offset rows) next h rest
                (ap (λ t. take batch (drop offset t)) (sym same))
                (subst (λ t. Fills count answers t (cache_all next h) rest)
                  (drop-drop offset batch rows)
                  (rebuild_loop-Fills fuel (suc n) (offset + batch) total rows (cache_all next h)
                    all (active_rows-cache_all next h ∙ same) (omega arith))))
            (λ lost. lost-Fills n (drop offset rows) h lost))
        (λ done. none-Fills (drop offset rows) h (drop_all offset rows (ground (arith, all))))

  pub rebuild-Fills :
      (h : HandlerSubscription)
      → Fills count answers (active_rows h) h (rebuild_cache_from_db batch (alone count answers) h)
  unfolding rebuild_cache_from_db
  rebuild-Fills h =
      either-Fills (active_rows h) h count _ _
        (λ counted.
          rebuild_loop-Fills (length (select_rows (λ s. is_active s.status) h.rows)) 0 0
            (length (select_rows (λ s. is_active s.status) h.rows)) (active_rows h) h
            (sym (length-active_rows h)) refl (omega (arith, length-active_rows h)))
        (λ lost. record {
          number = 0;
          cached = refl;
          complete = λ x. cc x;
          returns = λ c all. cc (c, lost);
        })
