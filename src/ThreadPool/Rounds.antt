-- ===== src/ThreadPool/Rounds.antt =====
-- ss/thread_pool.hpp: the semaphore counts the queue, and the queue is first in, first out.
use twebs.Prelude.{
  ℕ, zero, suc, ◌+◌, ◌≤◌, Bool, Option, some, List, [], ◌∷◌, ◌++◌, length, ℤ, ◌≡◌, ◌∙◌, sym, ap,
  arith, length-append, append_assoc, append-nil, inl, inr, Option-cases, pos_part,
}
use twebs.ThreadPool.{
  Worker, looping, waiting, woken, holding, ended, Pool, create_threads, thread_pool, append, add,
  run, taken, Step, appends, refuses, adds, works, Reach, start, later,
}

-- The workers that are past `Wait` and have not looked into the queue yet.
abbrev pub is_woken : {T : Type 0} → Worker T → ℕ
is_woken looping = 0
is_woken waiting = 0
is_woken woken = 1
is_woken (holding request) = 0
is_woken ended = 0

abbrev pub woken_count : {T : Type 0} → List (Worker T) → ℕ
woken_count [] = 0
woken_count (w ∷ ws) = is_woken w + woken_count ws

woken_count-append :
    {T : Type 0} (xs ys : List (Worker T))
    → woken_count (xs ++ ys) ≡ woken_count xs + woken_count ys
woken_count-append [] ys = omega arith
woken_count-append (x ∷ xs) ys = omega (arith, woken_count-append xs ys)

-- Each request in the queue has been counted on the semaphore, or its `Add` is still to come, or a
-- worker that is past `Wait` comes for it. One request more than the limit fits.
pub record IsCounted {T : Type 0} (s : List (Worker T) × Pool T) : Type 0 where
  pub counted : s.1.queue_stat + s.1.pending + woken_count s.0 ≡ length s.1.work_queue
  pub bounded : length s.1.work_queue ≤ s.1.max_requests + 1

-- What a step of a worker changes.
pub record Ran {T : Type 0} (w w' : Worker T) (p q : Pool T) : Type 0 where
  pub count :
      p.queue_stat + p.pending + is_woken w + length q.work_queue
      ≡ q.queue_stat + q.pending + is_woken w' + length p.work_queue
  pub queue : p.work_queue ≡ taken w p ++ q.work_queue
  pub max : q.max_requests ≡ p.max_requests

run-Ran :
    {T : Type 0} (w w' : Worker T) (p q : Pool T)
    → is_woken w ≤ length p.work_queue
    → run w p ≡ some (w', q)
    → Ran w w' p q
unfolding run
run-Ran looping w' p q l e = record {
  count = ground arith;
  queue = ground arith;
  max = ground arith;
}
run-Ran waiting w' p q l e = record {
  count = ground arith;
  queue = ground arith;
  max = ground arith;
}
run-Ran woken w' p q l e = record { count = ground arith; queue = ground arith; max = ground arith }
run-Ran (holding request) w' p q l e = record {
  count = ground arith;
  queue = ground arith;
  max = ground arith;
}
run-Ran ended w' p q l e = absurd (ground arith)

woken_count-middle :
    {T : Type 0} (front back : List (Worker T)) (w : Worker T)
    → woken_count (front ++ w ∷ back) ≡ woken_count front + is_woken w + woken_count back
woken_count-middle front back w = omega (arith, woken_count-append front (w ∷ back))

Step-IsCounted :
    {T : Type 0} (s s' : List (Worker T) × Pool T) (a t : List (Option T))
    → Step s a t s'
    → IsCounted s
    → IsCounted s'
unfolding append add
Step-IsCounted _ (ts, q) _ _ (appends {p = p} request e) v =
    let g = length-append p.work_queue (request ∷ []) in
    record { counted = ground (arith, e, g, v.counted); bounded = ground (arith, e, g, v.bounded) }
Step-IsCounted _ (ts, q) _ _ (refuses {p = p} request e) v = record {
  counted = ground (arith, e, v.counted);
  bounded = ground (arith, e, v.bounded);
}
Step-IsCounted (ts, p) _ _ _ (adds l) v = record {
  counted = omega (arith, v.counted, l);
  bounded = v.bounded;
}
Step-IsCounted _ _ _ _ (works {p = p} {q = q} front back w w' e) v =
    let before = woken_count-middle front back w in
    let after = woken_count-middle front back w' in
    let r = run-Ran w w' p q (omega (arith, before, v.counted)) e in
    let g = ap length r.queue ∙ length-append (taken w p) q.work_queue in
    record {
      counted = omega (arith, before, after, r.count, v.counted);
      bounded = omega (arith, g, r.max, v.bounded);
    }

create_threads-looping :
    {T : Type 0} (create : ℕ → Bool) (i n : ℕ) (ts : List (Worker T))
    → create_threads create i n ≡ some ts
    → woken_count ts ≡ 0
create_threads-looping create i zero ts e = ground arith
create_threads-looping {T} create i (suc n) ts e =
    elim (Option-cases (create_threads {T = T} create (i + 1) n)) [
      | inl d ↦ absurd (ground arith)
      | inr (ts', d) ↦ let h = create_threads-looping create (i + 1) n ts' d in ground arith
    ]

thread_pool-IsCounted :
    {T : Type 0} (create : ℕ → Bool) (n max : ℤ) (s : List (Worker T) × Pool T)
    → thread_pool create n max ≡ some s
    → (s.1.work_queue ≡ []) × (IsCounted s)
unfolding thread_pool
thread_pool-IsCounted {T} create n max s e =
    elim (Option-cases (create_threads {T = T} create 0 (pos_part n))) [
      | inl d ↦ absurd (ground arith)
      | inr (ts, d) ↦
          let h = create_threads-looping create 0 (pos_part n) ts d in
          (ground arith, record { counted = ground arith; bounded = ground arith })
    ]

-- However the steps of the threads come, the semaphore, the calls of `Add` that are to come and the
-- workers past `Wait` count the requests in the queue, which holds at most one more than the limit.
pub Reach-IsCounted :
    {T : Type 0} (s : List (Worker T) × Pool T) (a t : List (Option T)) → Reach a t s → IsCounted s
Reach-IsCounted s _ _ (start create n max e) = (thread_pool-IsCounted create n max s e).1
Reach-IsCounted s' _ _ (later {a = a} {t = t} {a' = a'} {t' = t'} {s = s} r d) =
    Step-IsCounted s s' a' t' d (Reach-IsCounted s a t r)

-- No wake-up is lost: where every worker waits or has ended, no call of `Append` is under way and the
-- semaphore is at 0, the queue is empty.
pub Reach-idle :
    {T : Type 0} (s : List (Worker T) × Pool T) (a t : List (Option T))
    → Reach a t s
    → s.1.queue_stat ≡ 0
    → s.1.pending ≡ 0
    → woken_count s.0 ≡ 0
    → s.1.work_queue ≡ []
Reach-idle s a t r z n w = let v = Reach-IsCounted s a t r in ground (arith, v.counted)

Step-queue :
    {T : Type 0} (s s' : List (Worker T) × Pool T) (a t : List (Option T))
    → Step s a t s'
    → IsCounted s
    → t ++ s'.1.work_queue ≡ s.1.work_queue ++ a
unfolding append add
Step-queue _ (ts, q) _ _ (appends {p = p} request e) v = ground arith
Step-queue _ (ts, q) _ _ (refuses {p = p} request e) v = ground (arith, append-nil p.work_queue)
Step-queue (ts, p) _ _ _ (adds l) v = sym (append-nil p.work_queue)
Step-queue _ _ _ _ (works {p = p} {q = q} front back w w' e) v =
    let before = woken_count-middle front back w in
    let r = run-Ran w w' p q (omega (arith, before, v.counted)) e in
    sym r.queue ∙ sym (append-nil p.work_queue)

-- The pool is a queue: in every order of the steps of all the threads, the requests taken by the
-- workers, in that order, and then those in the queue, are the requests appended, in that order.
pub Reach-fifo :
    {T : Type 0} (s : List (Worker T) × Pool T) (a t : List (Option T))
    → Reach a t s
    → t ++ s.1.work_queue ≡ a
Reach-fifo s _ _ (start create n max e) = (thread_pool-IsCounted create n max s e).0
Reach-fifo s' _ _ (later {a = a} {t = t} {a' = a'} {t' = t'} {s = s} r d) =
    append_assoc t t' s'.1.work_queue
    ∙ ap (λ xs. t ++ xs) (Step-queue s s' a' t' d (Reach-IsCounted s a t r))
    ∙ sym (append_assoc t s.1.work_queue a')
    ∙ ap (λ xs. xs ++ a') (Reach-fifo s a t r)
