-- ===== src/Wrap/Calls.antt =====
-- All wrappers of one system call behave alike, but for `Sleep` and `Initgroups`.
use twebs.Prelude.{
  ℕ, ◌≡◌, refl, Bool, true, false, Option, none, some, [], ℤ, pos, negsuc, length, arith,
}
use twebs.Outcome.{done, exited}
use twebs.Wrap.{
  Called, Process, fork, execve, wait, waitpid, kill, sleep, Signals, sigprocmask, sigemptyset,
  sigfillset, sigaddset, sigdelset, sigismember, Files, open_path, read, write, close, dup2, stat,
  Network, socket, setsockopt, bind, listen, accept, connect, Users, fchown, setgroups, setgid,
  initgroups, setuid, call_process, call_signals, call_files, call_network, call_users,
}

pub data Wrapper : Type 0 where
  process : Process → Wrapper
  signals : Signals → Wrapper
  files : Files → Wrapper
  network : Network → Wrapper
  users : Users → Wrapper

abbrev pub call : Wrapper → ℤ → Called
call (process c) rc = call_process c rc
call (signals c) rc = call_signals c rc
call (files c) rc = call_files c rc
call (network c) rc = call_network c rc
call (users c) rc = call_users c rc

-- The two that do not end the program.
abbrev pub goes_on : Wrapper → Bool
goes_on (process sleep) = true
goes_on (users initgroups) = true
goes_on _ = false

-- The wrappers that hand the result of the system call on, those that return nothing, and those that
-- return 1.
abbrev pub returned : Wrapper → ℤ → Option ℤ
returned (process execve) rc = none
returned (process kill) rc = none
returned (process _) rc = some rc
returned (signals sigismember) rc = some rc
returned (signals _) rc = none
returned (files close) rc = none
returned (files stat) rc = none
returned (files _) rc = some rc
returned (network socket) rc = some rc
returned (network accept) rc = some rc
returned (network _) rc = none
returned (users _) rc = some (pos 1)

-- A system call that succeeds: the wrapper returns and reports nothing.
pub call_succeeds : (c : Wrapper) (n : ℕ) → call c (pos n) ≡ (done (returned c (pos n)), [])
unfolding call_process call_signals call_files call_network call_users
call_succeeds (process fork) n = refl
call_succeeds (process execve) n = refl
call_succeeds (process wait) n = refl
call_succeeds (process waitpid) n = refl
call_succeeds (process kill) n = refl
call_succeeds (process sleep) n = refl
call_succeeds (signals sigprocmask) n = refl
call_succeeds (signals sigemptyset) n = refl
call_succeeds (signals sigfillset) n = refl
call_succeeds (signals sigaddset) n = refl
call_succeeds (signals sigdelset) n = refl
call_succeeds (signals sigismember) n = refl
call_succeeds (files (open_path path)) n = refl
call_succeeds (files read) n = refl
call_succeeds (files write) n = refl
call_succeeds (files close) n = refl
call_succeeds (files dup2) n = refl
call_succeeds (files stat) n = refl
call_succeeds (network socket) n = refl
call_succeeds (network setsockopt) n = refl
call_succeeds (network bind) n = refl
call_succeeds (network listen) n = refl
call_succeeds (network accept) n = refl
call_succeeds (network connect) n = refl
call_succeeds (users fchown) n = refl
call_succeeds (users setgroups) n = refl
call_succeeds (users setgid) n = refl
call_succeeds (users initgroups) n = refl
call_succeeds (users setuid) n = refl

-- A system call that fails ends the program, with the status 0 of a success, once a line is in the
-- system log and one on standard error.
pub call_fails :
    (c : Wrapper) (n : ℕ)
    → goes_on c ≡ false
    → ((call c (negsuc n)).0 ≡ exited 0) × (length (call c (negsuc n)).1 ≡ 2)
unfolding call_process call_signals call_files call_network call_users
call_fails (process fork) n h = (refl, refl)
call_fails (process execve) n h = (refl, refl)
call_fails (process wait) n h = (refl, refl)
call_fails (process waitpid) n h = (refl, refl)
call_fails (process kill) n h = (refl, refl)
call_fails (process sleep) n h = ground arith
call_fails (signals sigprocmask) n h = (refl, refl)
call_fails (signals sigemptyset) n h = (refl, refl)
call_fails (signals sigfillset) n h = (refl, refl)
call_fails (signals sigaddset) n h = (refl, refl)
call_fails (signals sigdelset) n h = (refl, refl)
call_fails (signals sigismember) n h = (refl, refl)
call_fails (files (open_path path)) n h = (refl, refl)
call_fails (files read) n h = (refl, refl)
call_fails (files write) n h = (refl, refl)
call_fails (files close) n h = (refl, refl)
call_fails (files dup2) n h = (refl, refl)
call_fails (files stat) n h = (refl, refl)
call_fails (network socket) n h = (refl, refl)
call_fails (network setsockopt) n h = (refl, refl)
call_fails (network bind) n h = (refl, refl)
call_fails (network listen) n h = (refl, refl)
call_fails (network accept) n h = (refl, refl)
call_fails (network connect) n h = (refl, refl)
call_fails (users fchown) n h = (refl, refl)
call_fails (users setgroups) n h = (refl, refl)
call_fails (users setgid) n h = (refl, refl)
call_fails (users initgroups) n h = ground arith
call_fails (users setuid) n h = (refl, refl)
