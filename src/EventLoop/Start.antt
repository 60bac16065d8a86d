-- ===== src/EventLoop/Start.antt =====
-- ss/main.cpp: `main`, from its arguments to the end of its loop. An assertion that fails aborts.
use twebs.Prelude.{
  ℕ, ◌≡◌, refl, Bool, not, ◌&&◌, Option, none, some, List, [], ◌∷◌, leb, if◌then◌else◌, ℤ, pos,
  arith, ◌⊎◌, inl, inr, Bool-cases, Option-cases,
}
use twebs.Outcome.{Outcome, done, stopped, running, End, returns, aborts}
use twebs.Conn.{Conn, Socket}
use twebs.ThreadPool.{Pool, thread_pool, default_thread_number, default_max_requests, destroy}
use twebs.EventLoop.{Event, Loop, handle_events}
use twebs.EventLoop.Users.{IsConsistent, Consistently, handle_events-Consistently}

-- What the program was started with, and what the system calls answer. `users` is what stands in the
-- new array of connections; the calls of `epoll_wait` return `batches`, where `none` is an error
-- other than EINTR.
pub record Calls (S : Type 0) : Type 0 where
  pub argc : ℕ
  pub sigaction : Bool
  pub create : ℕ → Bool
  pub socket : Option ℕ
  pub bind : Bool
  pub listen : Bool
  pub epoll_create : Bool
  pub users : ℕ → Conn
  pub sockets : S
  pub batches : List (Option (List Event))

-- How `main` ended, and the state behind the loop, if it came to it. The array of connections is freed
-- then, and so is the pool.
abbrev pub Ended : Type 0 → Type 0
Ended S = End × Option (Loop S)

module _ {S : Type 0} (socket : ℕ → Socket S) (fuel : ℕ) where
  -- The outer loop.
  unfoldable pub epoll_loop : ℕ → List (Option (List Event)) → Loop S → Outcome (Loop S)
  unfolding handle_events
  epoll_loop listenfd [] l = running
  epoll_loop listenfd (none ∷ batches) l = done l
  epoll_loop listenfd (some evs ∷ batches) l = elim (handle_events socket fuel listenfd evs l) [
    | done l' ↦ epoll_loop listenfd batches l'
    | stopped e ↦ stopped e
  ]

  abbrev pub first_loop : Calls S → Pool ℕ → Loop S
  first_loop c pool = record {
    users = c.users;
    user_count = pos 0;
    pool = pool;
    refused = [];
    sockets = c.sockets;
  }

  -- `main` behind the pool.
  unfoldable pub serve : Calls S → Pool ℕ → Outcome (Ended S)
  unfolding epoll_loop destroy
  serve c pool = elim c.socket [
    | none ↦ done (aborts, none)
    | some listenfd ↦
        if not (c.bind && (c.listen && c.epoll_create))
        then done (aborts, none)
        else elim (epoll_loop listenfd c.batches (first_loop c pool)) [
          | done l ↦ done (returns 0, some (record l { pool = destroy l.pool }))
          | stopped e ↦ stopped e
        ]
  ]

  -- `main`, with the arguments of the pool's constructor.
  unfoldable pub main_with : ℤ → ℤ → Calls S → Outcome (Ended S)
  unfolding thread_pool serve
  main_with thread_number max_requests c =
      if leb c.argc 2
      then done (returns 1, none)
      else if not c.sigaction
      then done (aborts, none)
      else elim (thread_pool {T = ℕ} c.create thread_number max_requests) [
        | none ↦ done (returns 1, none)
        | some (threads, pool) ↦ serve c pool
      ]

  unfoldable pub main : Calls S → Outcome (Ended S)
  unfolding main_with
  main c = main_with default_thread_number default_max_requests c

  -- The C++ server never serves anybody: whatever its arguments and whatever the system calls answer,
  -- `main` ends before its loop, with status 1, or by the assertion where the handler of SIGPIPE
  -- cannot be set.
  pub main_lem :
      (c : Calls S)
      → main c
        ≡ done (if leb c.argc 2 then returns 1 else if c.sigaction then returns 1 else aborts, none)
  unfolding main thread_pool
  main_lem c = ground arith

  batch_on :
      (o : Outcome (Loop S)) (f : Loop S → Outcome (Loop S))
      → Consistently o
      → ((l : Loop S) → IsConsistent l → Consistently (f l))
      → Consistently (elim o [ done l ↦ f l | stopped e ↦ stopped e ])
  batch_on (done l) f v h = h l v
  batch_on (stopped e) f v h = tt

  epoll_loop-Consistently :
      (listenfd : ℕ) (batches : List (Option (List Event))) (l : Loop S)
      → IsConsistent l
      → Consistently (epoll_loop listenfd batches l)
  unfolding epoll_loop
  epoll_loop-Consistently listenfd [] l v = tt
  epoll_loop-Consistently listenfd (none ∷ batches) l v = v
  epoll_loop-Consistently listenfd (some evs ∷ batches) l v =
      batch_on (handle_events socket fuel listenfd evs l) (epoll_loop listenfd batches)
        (handle_events-Consistently socket fuel listenfd evs l v)
        (epoll_loop-Consistently listenfd batches)

  -- Where the loop was reached, it ended with a consistent table.
  abbrev pub EndsConsistently : Outcome (Ended S) → Type 0
  EndsConsistently (done (e, some l)) = IsConsistent l
  EndsConsistently (done (e, none)) = Unit {0}
  EndsConsistently (stopped e) = Unit {0}

  loop_ends :
      (o : Outcome (Loop S))
      → Consistently o
      → EndsConsistently (elim o [
        | done l ↦ done (returns 0, some (record l { pool = destroy l.pool }))
        | stopped e ↦ stopped e
      ])
  loop_ends (done l) v = record { placed = v.placed; limited = v.limited }
  loop_ends (stopped e) v = tt

  first-IsConsistent :
      (c : Calls S) (pool : Pool ℕ)
      → ((i : ℕ) → ((c.users i).sockfd ≡ none) ⊎ ((c.users i).sockfd ≡ some i))
      → IsConsistent (first_loop c pool)
  first-IsConsistent c pool p = record { placed = p; limited = refl }

  serve-Consistently :
      (c : Calls S) (pool : Pool ℕ)
      → ((i : ℕ) → ((c.users i).sockfd ≡ none) ⊎ ((c.users i).sockfd ≡ some i))
      → EndsConsistently (serve c pool)
  unfolding serve
  serve-Consistently c pool p = elim (Option-cases c.socket) [
    | inl e ↦ rw (e, serve) tt
    | inr (fd, e) ↦ elim (Bool-cases (c.bind && (c.listen && c.epoll_create))) [
      | inl y ↦
          rw (e, serve, y)
            (loop_ends (epoll_loop fd c.batches (first_loop c pool)) (
              epoll_loop-Consistently fd c.batches (first_loop c pool)
                (first-IsConsistent c pool p)))
      | inr n ↦ rw (e, serve, n) tt
    ]
  ]

  -- With any arguments of the pool and any answers of the system calls, on an array in which every
  -- connection is closed or has the descriptor of its place: where `main` comes to its loop and
  -- leaves it, every connection of the table is closed or has the descriptor of its place, and no
  -- more than `max_fd` are counted.
  pub main_with-Consistently :
      (thread_number max_requests : ℤ) (c : Calls S)
      → ((i : ℕ) → ((c.users i).sockfd ≡ none) ⊎ ((c.users i).sockfd ≡ some i))
      → EndsConsistently (main_with thread_number max_requests c)
  unfolding main_with
  main_with-Consistently n m c p = elim (Bool-cases (leb c.argc 2)) [
    | inl y ↦ rw (main_with, y) tt
    | inr few ↦ elim (Bool-cases c.sigaction) [
      | inl y ↦ elim (Option-cases (thread_pool {T = ℕ} c.create n m)) [
        | inl e ↦ rw (main_with, few, y, e) tt
        | inr ((threads, pool), e) ↦ rw (main_with, few, y, e) (serve-Consistently c pool p)
      ]
      | inr bad ↦ rw (main_with, few, bad) tt
    ]
  ]
