-- ===== src/Wrap.antt =====
-- wrap.c, the wrappers with a capital letter: each makes one system call, and on a failure writes to
-- the system log and to standard error and ends the program. What the system call returns is the
-- argument `rc`; the flags, buffers and sets that a wrapper only passes on are left out.
pub mod Calls
pub mod Others
use twebs.Prelude.{
  ℕ, Bool, true, false, Option, none, some, Bytes, List, [], ◌∷◌, ◌++◌, codes, ℤ, pos, negsuc,
  is_negative, if◌then◌else◌,
}
use twebs.Outcome.{Outcome, done, stopped, exited}

-- A line of the system log, or of standard error.
pub data Report : Type 0 where
  syslog : Bytes → Report
  stderr : Bytes → Report

-- How a wrapper ends, `none` for a wrapper that returns nothing, and what it has reported.
abbrev pub Called : Type 0
Called = Outcome (Option ℤ) × List Report

-- `unix_error` and `dns_error`, behind a line of the system log.
abbrev pub unix_error : Bytes → Bytes → Called
unix_error logged msg = (exited 0, syslog logged ∷ stderr msg ∷ [])

abbrev pub unless_negative : ℤ → Option ℤ → Bytes → Bytes → Called
unless_negative rc result logged msg =
    if is_negative rc then unix_error logged msg else (done result, [])

pub data Process : Type 0 where
  fork execve wait waitpid kill sleep : Process

-- `Fork` to `Sleep`. The result of `sleep` is unsigned, so its test never holds.
unfoldable pub call_process : Process → ℤ → Called
call_process fork rc = unless_negative rc (some rc) (codes "Fork error") (codes "Fork error")
call_process execve rc = unless_negative rc none (codes "Execve  error") (codes "Execve error")
call_process wait rc = unless_negative rc (some rc) (codes "Wait error") (codes "Wait error")
call_process waitpid rc =
    unless_negative rc (some rc) (codes "Waitpid error") (codes "Waitpid error")
call_process kill rc = unless_negative rc none (codes "Kill error") (codes "Kill error")
call_process sleep rc = (done (some rc), [])

pub data Signals : Type 0 where
  sigprocmask sigemptyset sigfillset sigaddset sigdelset sigismember : Signals

-- `Sigprocmask` to `Sigismember`
unfoldable pub call_signals : Signals → ℤ → Called
call_signals sigprocmask rc =
    unless_negative rc none (codes "Sigprocmask error") (codes "Sigprocmask error")
call_signals sigemptyset rc =
    unless_negative rc none (codes "Sigemptyset error") (codes "Sigemptyset error")
call_signals sigfillset rc =
    unless_negative rc none (codes "Sigfillset error") (codes "Sigfillset error")
call_signals sigaddset rc =
    unless_negative rc none (codes "Sigaddset error") (codes "Sigaddset error")
call_signals sigdelset rc =
    unless_negative rc none (codes "Sigdelset error") (codes "Sigdelset error")
call_signals sigismember rc =
    unless_negative rc (some rc) (codes "Sigmember error") (codes "Sigismember error")

pub data Files : Type 0 where
  open_path : Bytes → Files
  read write close dup2 stat : Files

-- `Open` to `Stat`; `open_path` has the path.
unfoldable pub call_files : Files → ℤ → Called
call_files (open_path path) rc =
    unless_negative rc (some rc) (codes "Open " ++ (path ++ codes " error")) (codes "Open error")
call_files read rc = unless_negative rc (some rc) (codes "Read error") (codes "Read error")
call_files write rc = unless_negative rc (some rc) (codes "Write error") (codes "Write error")
call_files close rc = unless_negative rc none (codes "Close error") (codes "Close error")
call_files dup2 rc = unless_negative rc (some rc) (codes "Dup2 error") (codes "Dup2 error")
call_files stat rc = unless_negative rc none (codes "Stat error") (codes "Stat error")

pub data Network : Type 0 where
  socket setsockopt bind listen accept connect : Network

-- `Socket` to `Connect`
unfoldable pub call_network : Network → ℤ → Called
call_network socket rc = unless_negative rc (some rc) (codes "Socket error") (codes "Socket error")
call_network setsockopt rc =
    unless_negative rc none (codes "Setsockopt error") (codes "Setsockopt error")
call_network bind rc = unless_negative rc none (codes "Bind error") (codes "Bind error")
call_network listen rc = unless_negative rc none (codes "Listen error") (codes "Listen error")
call_network accept rc = unless_negative rc (some rc) (codes "Accept error") (codes "Accept error")
call_network connect rc = unless_negative rc none (codes "Connect error") (codes "Connect error")

pub data Users : Type 0 where
  fchown setgroups setgid initgroups setuid : Users

-- `Fchown` to `Setuid`. `Initgroups` goes on behind a failure.
unfoldable pub call_users : Users → ℤ → Called
call_users fchown rc =
    unless_negative rc (some (pos 1)) (codes "fchown logfile error") (codes "fchown logfile error")
call_users setgroups rc =
    unless_negative rc (some (pos 1)) (codes "setgroups error") (codes "setgroups error")
call_users setgid rc =
    unless_negative rc (some (pos 1)) (codes "setgid error") (codes "setgid error")
call_users initgroups rc = (
  done (some (pos 1)),
  (if is_negative rc
      then syslog (codes "initgroups error") ∷ stderr (codes "initgroups error") ∷ []
      else []),
)
call_users setuid rc =
    unless_negative rc (some (pos 1)) (codes "setuid error") (codes "setuid error")
