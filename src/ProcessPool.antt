-- ===== src/ProcessPool.antt =====
-- ss/ww/process_pool.hpp: a parent that deals connections out to its children, and what a child does.
pub mod Children
pub mod Turns
pub mod Running
pub mod Start
use twebs.Prelude.{
  ℕ, zero, suc, ◌+◌, ◌%◌, Bool, true, false, not, ◌&&◌, ◌||◌, Option, none, some, List, [], ◌∷◌,
  ◌++◌, length, leb, ltb, ◌==◌, if◌then◌else◌,
}
use twebs.Outcome.{Outcome, done, stopped, running}

abbrev pub max_process_number : ℕ
max_process_number = 16

-- What `fork` returns: -1, 0 in the child, or the child's number in the parent.
pub data Fork : Type 0 where
  fork_failed in_child : Fork
  in_parent : ℕ → Fork

-- `sub_process_`: the numbers of the children; `none` is the number -1. `stop` is `stop_`, and
-- `sub_process_counter` is the variable of `RunParent`. `notified` lists the children that `send` told
-- of a connection, by their index, `joined` those whose pipe was closed, and `killed` the
-- numbers to which SIGTERM was sent.
pub record Parent : Type 0 where
  pub sub_process : List (Option ℕ)
  pub stop : Bool
  pub sub_process_counter : ℕ
  pub notified : List ℕ
  pub joined : List ℕ
  pub killed : List ℕ

abbrev pub process_number : Parent → ℕ
process_number p = length p.sub_process

-- The loop of the constructor from the child `i` on: the index of the process that is left, which is
-- `none` in the parent, and the children made by then. The outer `none` is a failed assertion.
abbrev pub fork_children : (ℕ → Fork) → ℕ → ℕ → Option (Option ℕ × List (Option ℕ))
fork_children fork i zero = some (none, [])
fork_children fork i (suc n) = elim (fork i) [
  | fork_failed ↦ none
  | in_child ↦ some (some i, [])
  | in_parent pid ↦ elim (fork_children fork (i + 1) n) [
    | none ↦ none
    | some (idx, pids) ↦ some (idx, some pid ∷ pids)
  ]
]

unfoldable pub process_pool : (ℕ → Fork) → ℕ → Option (Option ℕ × List (Option ℕ))
process_pool fork n = if ltb 0 n && leb n max_process_number then fork_children fork 0 n else none

-- `sub_process_[i].pid_`
abbrev pub pid_at : ℕ → List (Option ℕ) → Option ℕ
pid_at i [] = none
pid_at zero (pid ∷ pids) = pid
pid_at (suc i) (pid ∷ pids) = pid_at i pids

-- The loop of `ProcessNewConnInParent` from `i` on, with fuel for its rounds.
unfoldable pub find_child : ℕ → List (Option ℕ) → ℕ → ℕ → Outcome ℕ
find_child zero pids counter i = running
find_child (suc f) pids counter i = elim (pid_at i pids) [
  | some pid ↦ done i
  | none ↦
      let i' = (i + 1) % length pids in
      elim (i' == counter) [ true ↦ done i' | false ↦ find_child f pids counter i' ]
]

-- What follows the loop.
abbrev pub notify : ℕ → Parent → Parent
notify i p = elim (pid_at i p.sub_process) [
  | none ↦ record p { stop = true }
  | some pid ↦ record p {
    sub_process_counter = (i + 1) % process_number p;
    notified = p.notified ++ i ∷ [];
  }
]

unfoldable pub process_new_conn_in_parent : Parent → Outcome Parent
unfolding find_child
process_new_conn_in_parent p =
    elim (find_child (process_number p) p.sub_process p.sub_process_counter p.sub_process_counter) [
      | done i ↦ done (notify i p)
      | stopped e ↦ stopped e
    ]

-- One number that `waitpid` returns: the child's number becomes -1 and its pipe is closed.
abbrev pub has_pid : ℕ → Option ℕ → Bool
has_pid pid none = false
has_pid pid (some q) = q == pid

abbrev pub join_from : ℕ → ℕ → List (Option ℕ) → List (Option ℕ) × List ℕ
join_from pid j [] = ([], [])
join_from pid j (q ∷ qs) =
    let (rest, js) = join_from pid (j + 1) qs in
    if has_pid pid q then (none ∷ rest, j ∷ js) else (q ∷ rest, js)

abbrev pub join : ℕ → Parent → Parent
join pid p =
    let (pids, js) = join_from pid 0 p.sub_process in
    record p { sub_process = pids; joined = p.joined ++ js }

abbrev pub join_all : List ℕ → Parent → Parent
join_all [] p = p
join_all (pid ∷ pids) p = join_all pids (join pid p)

abbrev pub all_gone : List (Option ℕ) → Bool
all_gone [] = true
all_gone (none ∷ pids) = all_gone pids
all_gone (some pid ∷ pids) = false

abbrev pub live_pids : List (Option ℕ) → List ℕ
live_pids [] = []
live_pids (none ∷ pids) = live_pids pids
live_pids (some pid ∷ pids) = pid ∷ live_pids pids

-- A byte from the pipe of signals. With SIGCHLD go the numbers that `waitpid` returns one after
-- the other, until it returns none.
pub data Signal : Type 0 where
  sigchld : List ℕ → Signal
  sigterm sigint other_signal : Signal

abbrev pub kill_all : Parent → Parent
kill_all p = record p { killed = p.killed ++ live_pids p.sub_process }

unfoldable pub handle_signal : Signal → Parent → Parent
handle_signal (sigchld pids) p =
    let p' = join_all pids p in record p' { stop = all_gone p'.sub_process }
handle_signal sigterm p = kill_all p
handle_signal sigint p = kill_all p
handle_signal other_signal p = p

abbrev pub handle_signals : List Signal → Parent → Parent
unfolding handle_signal
handle_signals [] p = p
handle_signals (s ∷ ss) p = handle_signals ss (handle_signal s p)

-- `ProcessSigInParent`; `none` is a `recv` that fails or finds the pipe closed.
unfoldable pub process_sig_in_parent : Option (List Signal) → Parent → Parent
unfolding handle_signals
process_sig_in_parent none p = p
process_sig_in_parent (some signals) p = handle_signals signals p
