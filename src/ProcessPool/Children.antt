-- ===== src/ProcessPool/Children.antt =====
-- ss/ww/process_pool.hpp: a child of the pool, and the loop of the parent over its events.
use twebs.Prelude.{
  ℕ, Bool, true, false, not, ◌&&◌, Option, none, some, List, [], ◌∷◌, ◌++◌, ◌==◌, if◌then◌else◌,
}
use twebs.Outcome.{Outcome, done, stopped, running}
use twebs.ProcessPool.{
  Parent, Signal, sigchld, sigterm, sigint, other_signal, process_new_conn_in_parent,
  process_sig_in_parent,
}

-- What epoll reports: a descriptor and whether EPOLLIN is among its events. Beside it, what `recv`
-- finds in the pipe of signals at that time, whether it finds a client in the pipe from the parent or
-- would have to wait for one, and what `accept` returns.
pub record Event : Type 0 where
  pub fd : ℕ
  pub epollin : Bool
  pub signals : Option (List Signal)
  pub client : Bool
  pub connfd : Option ℕ

-- The descriptors that the loops compare with; `sig_pipefd` is `sig_pipefd[0]`.
pub record Descriptors : Type 0 where
  pub listenfd : ℕ
  pub sig_pipefd : ℕ
  pub pipefd : ℕ

-- A child: `stop_`, the descriptors whose object has been set up by `Init`, in order, and those
-- whose `Process` has been called, which is no part of the pool.
pub record Child : Type 0 where
  pub stop : Bool
  pub users : List ℕ
  pub served : List ℕ

-- `ProcessNewConnInChild`. Where `recv` would have to wait it goes on to `accept` as well.
abbrev pub process_new_conn_in_child : Event → Child → Bool × Child
process_new_conn_in_child ev c = if not ev.client then (false, c) else elim ev.connfd [
  | none ↦ (false, c)
  | some connfd ↦ (true, record c { users = c.users ++ connfd ∷ [] })
]

-- `ProcessSigInChild`: what `waitpid` returns for SIGCHLD is dropped.
abbrev pub child_signals : List Signal → Child → Child
child_signals [] c = c
child_signals (sigchld pids ∷ ss) c = child_signals ss c
child_signals (sigterm ∷ ss) c = child_signals ss (record c { stop = true })
child_signals (sigint ∷ ss) c = child_signals ss (record c { stop = true })
child_signals (other_signal ∷ ss) c = child_signals ss c

abbrev pub process_sig_in_child : Event → Child → Bool × Child
process_sig_in_child ev c = elim ev.signals [
  | none ↦ (false, c)
  | some ss ↦ (true, child_signals ss c)
]

-- `CoreRunChild`; the messages about errors are left out.
unfoldable pub core_run_child : Descriptors → Event → Child → Child
core_run_child d ev c =
    if ev.fd == d.pipefd && ev.epollin
    then (process_new_conn_in_child ev c).1
    else if ev.fd == d.sig_pipefd && ev.epollin
    then (process_sig_in_child ev c).1
    else if ev.epollin
    then record c { served = c.served ++ ev.fd ∷ [] }
    else c

abbrev pub child_events : Descriptors → List Event → Child → Child
unfolding core_run_child
child_events d [] c = c
child_events d (ev ∷ evs) c = child_events d evs (core_run_child d ev c)

-- The loop of `RunChild`, on what the calls of `epoll_wait` return, where `none` is an error other
-- than EINTR. It runs while `stop_` is set.
unfoldable pub run_child : Descriptors → List (Option (List Event)) → Child → Outcome Child
unfolding child_events
run_child d [] c = if not c.stop then done c else running
run_child d (batch ∷ batches) c =
    if not c.stop
    then done c
    else elim batch [ none ↦ done c | some evs ↦ run_child d batches (child_events d evs c) ]

-- The child that the constructor leaves.
abbrev pub new_child : Child
new_child = record { stop = false; users = []; served = [] }

-- One event in `RunParent`. The second test assigns the descriptor of the pipe of signals to
-- `sockfd`, so it holds of every event of a client's descriptor unless that is 0.
unfoldable pub parent_event : Descriptors → Event → Parent → Outcome Parent
unfolding process_new_conn_in_parent process_sig_in_parent
parent_event d ev p =
    if ev.fd == d.listenfd
    then process_new_conn_in_parent p
    else if not (d.sig_pipefd == 0) && ev.epollin
    then done (process_sig_in_parent ev.signals p)
    else done p

unfoldable pub parent_events : Descriptors → List Event → Parent → Outcome Parent
unfolding parent_event
parent_events d [] p = done p
parent_events d (ev ∷ evs) p = elim (parent_event d ev p) [
  | done p' ↦ parent_events d evs p'
  | stopped e ↦ stopped e
]

unfoldable pub run_parent : Descriptors → List (Option (List Event)) → Parent → Outcome Parent
unfolding parent_events
run_parent d [] p = if p.stop then done p else running
run_parent d (batch ∷ batches) p = if p.stop then done p else elim batch [
  | none ↦ done p
  | some evs ↦ elim (parent_events d evs p) [
    | done p' ↦ run_parent d batches p'
    | stopped e ↦ stopped e
  ]
]
