-- ===== src/ThreadPool/Fair.antt =====
-- ss/thread_pool.hpp: a worker thread that is left alone serves the whole queue.
use twebs.Prelude.{
  ℕ, zero, suc, ◌*◌, false, Option, none, some, List, [], ◌∷◌, ◌++◌, length, ◌≡◌, refl, ◌∙◌, ap,
  arith,
}
use twebs.ThreadPool.{Worker, looping, waiting, woken, holding, ended, Pool, run, destroy}

-- The request whose `Process` a step of a worker calls.
abbrev pub processed : {T : Type 0} → Worker T → List T
processed (holding (some r)) = r ∷ []
processed (holding none) = []
processed looping = []
processed waiting = []
processed woken = []
processed ended = []

-- The loop of `Run` for a number of steps, or until it waits; with it go the requests processed.
unfoldable pub run_steps : {T : Type 0} → ℕ → Worker T → Pool T → List T × (Worker T × Pool T)
unfolding run
run_steps zero w p = ([], (w, p))
run_steps (suc n) w p = elim (run w p) [
  | none ↦ ([], (w, p))
  | some (w', p') ↦ let (rs, s) = run_steps n w' p' in (processed w ++ rs, s)
]

-- The requests that are no null pointers.
abbrev pub present : {T : Type 0} → List (Option T) → List T
present [] = []
present (none ∷ rs) = present rs
present (some r ∷ rs) = r ∷ present rs

-- A pool that is not stopped, with a queue that the semaphore counts.
abbrev pub filled : {T : Type 0} → ℕ → ℕ → List (Option T) → Pool T
filled max pending rs = record {
  max_requests = max;
  work_queue = rs;
  queue_stat = length rs;
  pending = pending;
  stop = false;
}

round :
    {T : Type 0} (n max pending : ℕ) (r : Option T) (rs : List (Option T))
    → run_steps (suc (suc (suc (suc n)))) looping (filled max pending (r ∷ rs)) ≡ (
      processed (holding r) ++ (run_steps n looping (filled max pending rs)).0,
      (run_steps n looping (filled max pending rs)).1,
    )
unfolding run_steps run
round n max pending r rs = refl

processed-present :
    {T : Type 0} (r : Option T) (rs : List (Option T))
    → processed (holding r) ++ present rs ≡ present (r ∷ rs)
processed-present none rs = refl
processed-present (some r) rs = refl

-- A worker in front of its loop, in a pool that is not stopped and whose semaphore counts the queue,
-- needs four steps for each request in it: it then has processed all that are no null pointers, in their order, has left the queue
-- empty and the semaphore at 0, and is in front of its loop again.
pub run_drains :
    {T : Type 0} (max pending : ℕ) (rs : List (Option T))
    → run_steps (4 * length rs) looping (filled max pending rs)
      ≡ (present rs, (looping, filled max pending []))
unfolding run_steps
run_drains max pending [] = refl
run_drains max pending (r ∷ rs) =
    let n = 4 * length rs in
    let e : 4 * suc (length rs) ≡ suc (suc (suc (suc n))) = omega arith in
    rw e (
      round n max pending r rs
      ∙ ap (λ s. (processed (holding r) ++ s.0, s.1)) (run_drains max pending rs)
      ∙ ap (λ qs. (qs, (looping, filled max pending []))) (processed-present r rs))

-- Behind the destructor a worker that waits takes one more request and ends, whatever else is in the
-- queue; and one that waits for an empty queue stays there for any number of steps.
pub run_steps-destroy :
    {T : Type 0} (max pending n : ℕ) (r : T) (rs : List (Option T))
    → (run_steps {T = T} 4 waiting (destroy (filled max pending (some r ∷ rs)))
        ≡ (r ∷ [], (ended, destroy (filled max pending rs))))
      × (run_steps {T = T} n waiting (destroy (filled {T = T} max pending []))
          ≡ ([], (waiting, destroy (filled {T = T} max pending []))))
unfolding run_steps destroy
run_steps-destroy max pending zero r rs = (refl, refl)
run_steps-destroy max pending (suc n) r rs = (refl, refl)
