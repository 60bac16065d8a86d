-- ===== src/ThreadPool.antt =====
-- ss/thread_pool.hpp, with the mutex and the semaphore of ss/locker.hpp: requests that the main thread
-- appends and that the worker threads take. No signal interrupts `Wait`: ss/main.cpp ignores SIGPIPE
-- and handles no other. ss/main.cpp makes the pool with the arguments left out.
pub mod Rounds
pub mod Fair
use twebs.Prelude.{
  ℕ, zero, suc, ◌+◌, ◌-◌, ◌≤◌, ◌<◌, Bool, true, false, ◌||◌, Option, none, some, List, [], ◌∷◌,
  ◌++◌, length, ◌≡◌, take, pos_part, ltb, leb, if◌then◌else◌, ℤ, pos, negsuc,
}

-- `thread_number <= 0`, on an `int`.
abbrev pub not_positive : ℤ → Bool
not_positive (pos zero) = true
not_positive (pos (suc n)) = false
not_positive (negsuc n) = true

abbrev pub default_thread_number : ℤ
default_thread_number = pos 0

abbrev pub default_max_requests : ℤ
default_max_requests = pos 10_000

-- Where a worker thread is in `Run`: in front of the test of the loop, in `Wait`, past `Wait` and in
-- front of the mutex, with a request to process, or behind the loop.
pub data Worker (T : Type 0) : Type 0 where
  looping : Worker T
  waiting : Worker T
  woken : Worker T
  holding : Option T → Worker T
  ended : Worker T

-- `pending` counts the calls of `Append` that have left the mutex and have not reached `Add` yet.
-- The mutex is free between any two steps, since every section that it guards is one step.
pub record Pool (T : Type 0) : Type 0 where
  pub max_requests : ℕ
  pub work_queue : List (Option T)
  pub queue_stat : ℕ
  pub pending : ℕ
  pub stop : Bool

-- The loop of the constructor; `create` says whether `pthread_create` and `pthread_detach` of a
-- thread succeed. `none` is the exception.
abbrev pub create_threads : {T : Type 0} → (ℕ → Bool) → ℕ → ℕ → Option (List (Worker T))
create_threads create i zero = some []
create_threads create i (suc n) = elim (create i) [
  | true ↦ elim (create_threads create (i + 1) n) [ none ↦ none | some ts ↦ some (looping ∷ ts) ]
  | false ↦ none
]

abbrev pub empty_pool : {T : Type 0} → ℕ → Pool T
empty_pool n = record {
  max_requests = n;
  work_queue = [];
  queue_stat = 0;
  pending = 0;
  stop = false;
}

-- The constructor
unfoldable pub thread_pool : {T : Type 0} → (ℕ → Bool) → ℤ → ℤ → Option (List (Worker T) × Pool T)
thread_pool create thread_number max_requests =
    if not_positive thread_number || not_positive max_requests
    then none
    else elim (create_threads create 0 (pos_part thread_number)) [
      | none ↦ none
      | some ts ↦ some (ts, empty_pool (pos_part max_requests))
    ]

-- `Append` up to the end of its section, and the call of `Add` behind it.
unfoldable pub append : {T : Type 0} → Option T → Pool T → Bool × Pool T
append request p =
    if ltb p.max_requests (length p.work_queue)
    then (false, p)
    else (true, record p { work_queue = p.work_queue ++ request ∷ []; pending = p.pending + 1 })

unfoldable pub add : {T : Type 0} → Pool T → Pool T
add p = record p { queue_stat = p.queue_stat + 1; pending = p.pending - 1 }

-- The destructor. The threads are detached and go on.
unfoldable pub destroy : {T : Type 0} → Pool T → Pool T
destroy p = record p { stop = true }

-- The next step of `Run`; there is none where the semaphore is 0, nor behind the loop. A request that
-- is held is processed, unless it is null, and the worker is back in front of the loop.
unfoldable pub run : {T : Type 0} → Worker T → Pool T → Option (Worker T × Pool T)
run looping p = some (if p.stop then (ended, p) else (waiting, p))
run waiting p = elim p.queue_stat [
  | zero ↦ none
  | suc n ↦ some (woken, record p { queue_stat = n })
]
run woken p = elim p.work_queue [
  | [] ↦ some (looping, p)
  | request ∷ rest ↦ some (holding request, record p { work_queue = rest })
]
run (holding request) p = some (looping, p)
run ended p = none

-- The request that a step takes from the queue.
abbrev pub taken : {T : Type 0} → Worker T → Pool T → List (Option T)
taken woken p = take 1 p.work_queue
taken looping p = []
taken waiting p = []
taken (holding request) p = []
taken ended p = []

-- One step of the threads: a call of `Append`, the call of `Add` behind one, or a step of a worker.
-- With it go the requests that the step appends and takes.
pub data Step {T : Type 0}
    : List (Worker T) × Pool T
      → List (Option T)
      → List (Option T)
      → List (Worker T) × Pool T
      → Type 0 where
  appends :
      {ts : List (Worker T)} {p q : Pool T} (request : Option T)
      → append request p ≡ (true, q)
      → Step (ts, p) (request ∷ []) [] (ts, q)
  refuses :
      {ts : List (Worker T)} {p q : Pool T} (request : Option T)
      → append request p ≡ (false, q)
      → Step (ts, p) [] [] (ts, q)
  adds : {ts : List (Worker T)} {p : Pool T} → 0 < p.pending → Step (ts, p) [] [] (ts, add p)
  works :
      {p q : Pool T} (front back : List (Worker T)) (w w' : Worker T)
      → run w p ≡ some (w', q)
      → Step (front ++ w ∷ back, p) [] (taken w p) (front ++ w' ∷ back, q)

-- Steps from a new pool, with all the requests appended and taken.
pub data Reach {T : Type 0}
    : List (Option T) → List (Option T) → List (Worker T) × Pool T → Type 0 where
  start :
      {s : List (Worker T) × Pool T} (create : ℕ → Bool) (thread_number max_requests : ℤ)
      → thread_pool create thread_number max_requests ≡ some s
      → Reach [] [] s
  later :
      {a t a' t' : List (Option T)} {s s' : List (Worker T) × Pool T}
      → Reach a t s
      → Step s a' t' s'
      → Reach (a ++ a') (t ++ t') s'
