-- ===== src/Tests/Pools.antt =====
-- Pools of threads and of processes that run, and the theorems about them applied.
use twebs.Prelude.{
  ℕ, zero, suc, ◌+◌, ◌<◌, ◌≡◌, refl, true, false, Option, none, some, List, [], ◌∷◌, ◌++◌, pos,
  arith,
}
use twebs.Outcome.{done}
use twebs.ThreadPool.{
  looping, waiting, woken, holding, Pool, thread_pool, append, add, run, appends, adds, works,
  Reach, start, later,
}
use twebs.ThreadPool.Rounds.{IsCounted, Reach-IsCounted, Reach-fifo}
use twebs.ThreadPool.Fair.{run_steps, filled, run_drains}
use twebs.ProcessPool.{
  Parent, pid_at, process_new_conn_in_parent, process_pool, in_parent, handle_signal, sigchld,
  live_pids, process_number,
}
use twebs.ProcessPool.Turns.{behind, process_new_conn_in_parent-live}
use twebs.ProcessPool.Running.{
  new_conns, new_parent, in_turn, process_pool-in_turn, handle_signal-sigchld,
}

abbrev pub pool_of : List (Option ℕ) → ℕ → ℕ → Pool ℕ
pool_of rs stat pending = record {
  max_requests = 3;
  work_queue = rs;
  queue_stat = stat;
  pending = pending;
  stop = false;
}

started : Reach [] [] (looping ∷ looping ∷ [], pool_of [] 0 0)
unfolding thread_pool
started = start (λ i. true) (pos 2) (pos 3) refl

one_appended : Reach (some 7 ∷ []) [] (looping ∷ looping ∷ [], pool_of (some 7 ∷ []) 0 1)
unfolding append
one_appended = later started (appends (some 7) refl)

two_appended :
    Reach (some 7 ∷ some 8 ∷ []) [] (looping ∷ looping ∷ [], pool_of (some 7 ∷ some 8 ∷ []) 0 2)
unfolding append
two_appended = later one_appended (appends (some 8) refl)

one_counted :
    Reach (some 7 ∷ some 8 ∷ []) [] (looping ∷ looping ∷ [], pool_of (some 7 ∷ some 8 ∷ []) 1 1)
unfolding add
one_counted = later two_appended (adds (omega arith))

second_waits :
    Reach (some 7 ∷ some 8 ∷ []) [] (looping ∷ waiting ∷ [], pool_of (some 7 ∷ some 8 ∷ []) 1 1)
unfolding run
second_waits = later one_counted (works (looping ∷ []) [] looping waiting refl)

second_woken :
    Reach (some 7 ∷ some 8 ∷ []) [] (looping ∷ woken ∷ [], pool_of (some 7 ∷ some 8 ∷ []) 0 1)
unfolding run
second_woken = later second_waits (works (looping ∷ []) [] waiting woken refl)

second_holds :
    Reach
      (some 7 ∷ some 8 ∷ [])
      (some 7 ∷ [])
      (looping ∷ holding (some 7) ∷ [], pool_of (some 8 ∷ []) 0 1)
unfolding run
second_holds = later second_woken (works (looping ∷ []) [] woken (holding (some 7)) refl)

Reach-IsCounted_example : IsCounted (looping ∷ woken ∷ [], pool_of (some 7 ∷ some 8 ∷ []) 0 1)
Reach-IsCounted_example =
    Reach-IsCounted (looping ∷ woken ∷ [], pool_of (some 7 ∷ some 8 ∷ []) 0 1)
      (some 7 ∷ some 8 ∷ []) [] second_woken

Reach-fifo_example : (some 7 ∷ []) ++ (pool_of (some 8 ∷ []) 0 1).work_queue ≡ some 7 ∷ some 8 ∷ []
Reach-fifo_example =
    Reach-fifo (looping ∷ holding (some 7) ∷ [], pool_of (some 8 ∷ []) 0 1) (some 7 ∷ some 8 ∷ [])
      (some 7 ∷ []) second_holds

run_drains_example :
    run_steps {T = ℕ} 12 looping (filled 9 0 (some 1 ∷ none ∷ some 2 ∷ []))
    ≡ (1 ∷ 2 ∷ [], (looping, filled 9 0 []))
run_drains_example = run_drains 9 0 (some 1 ∷ none ∷ some 2 ∷ [])

-- The child in the middle is left, and the last one is next in turn.
abbrev survivors : Parent
survivors = record {
  sub_process = none ∷ some 50 ∷ none ∷ [];
  stop = false;
  sub_process_counter = 2;
  notified = [];
  joined = [];
  killed = [];
}

survivors_gone : (j : ℕ) → j < 2 → pid_at (behind 3 2 j) survivors.sub_process ≡ none
survivors_gone zero l = refl
survivors_gone (suc zero) l = refl
survivors_gone (suc (suc j)) l = absurd (omega arith)

process_new_conn_in_parent-live_example :
    process_new_conn_in_parent survivors
    ≡ done (record survivors { sub_process_counter = 2; notified = 1 ∷ [] })
process_new_conn_in_parent-live_example =
    process_new_conn_in_parent-live survivors 2 50 (omega arith) (omega arith) survivors_gone refl

process_pool-in_turn_example :
    (q : Parent) × (new_conns 5 (new_parent (some 100 ∷ some 101 ∷ some 102 ∷ [])) ≡ done q)
    × (q.notified ≡ in_turn 3 0 5)
unfolding process_pool
process_pool-in_turn_example =
    process_pool-in_turn (λ i. in_parent (100 + i)) 3 5 (some 100 ∷ some 101 ∷ some 102 ∷ []) refl

handle_signal-sigchld_example :
    let q = handle_signal (sigchld (50 ∷ [])) survivors in
    (live_pids q.sub_process ≡ []) × (process_number q ≡ 3) × (q.stop ≡ true)
handle_signal-sigchld_example = handle_signal-sigchld (50 ∷ []) survivors
