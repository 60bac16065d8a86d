-- ===== src/Startup/Boot.antt =====
-- `main` of http_main.c up to its loop, with the system calls that it makes on the way: `Signal`,
-- `initlog` of log.c, `Daemon`, `write_pid` and `Open_listenfd`.
pub mod Ready
use twebs.Prelude.{
  ℕ, ◌+◌, ◌/◌, ◌%◌, Bool, true, false, not, ◌&&◌, Option, none, some, Bytes, List, [], ◌∷◌, ◌++◌,
  take, codes, ℤ, pos, negsuc, neg, if◌then◌else◌, is_negative, pos_part, ◌^◌, ◌-◌,
}
use twebs.Outcome.{Outcome, done, stopped, exited}
use twebs.CString.{streq, atoi}
use twebs.Wrap.{Called, Report, call_files, close}
use twebs.Wrap.Others.{
  Answers, call_signal, call_streams, fopen, call_accounts, daemon, open_listenfd_or_exit,
}
use twebs.Startup.{Opt, Options, parse_option, getconfig, option_or, log_name, wants_daemon}

-- What the process was started with, and what the system calls answer. `pid` is the number of the
-- process, `daemon` that of the process that goes on behind `daemon`, if the call succeeds. The call
-- of `write` in `write_pid` stores `stored` bytes. `junk_daemon` is what `is_daemon` holds unset.
pub record Machine : Type 0 where
  pub cwd : Bytes
  pub config : Bytes
  pub junk_tmp : Bytes
  pub junk_daemon : Bool
  pub opts : List Opt
  pub pid : ℕ
  pub signal_fails : Bool
  pub opens_log : Bytes → Bool
  pub daemon : Option ℕ
  pub opens_pid_file : Bool
  pub stored : ℕ
  pub closes : Bool
  pub answers : Answers

-- The process: its number, whether SIGCHLD has its handler, the log file, whether directories are
-- shown, the contents of the file pid.file, and what was reported.
pub record State : Type 0 where
  pub pid : ℕ
  pub handles_sigchld : Bool
  pub log_file : Option Bytes
  pub is_show_dir : Bool
  pub pid_file : Option Bytes
  pub reports : List Report

abbrev pub M : Type 0 → Type 0
M A = State → Outcome A × State

infixl 5 ◌>>=◌ ◌>>◌
abbrev pub ◌>>=◌ : {A B : Type 0} → M A → (A → M B) → M B
◌>>=◌ m f s = let (o, s') = m s in elim o [ done a ↦ f a s' | stopped e ↦ (stopped e, s') ]

abbrev pub ◌>>◌ : {B : Type 0} → M (Unit {0}) → M B → M B
m >> k = m >>= λ _. k

abbrev pub settle : {A : Type 0} → Outcome A → M A
settle o s = (o, s)

-- A wrapper whose result is dropped, with what is changed where it returns.
abbrev pub call : Called → (State → State) → M (Unit {0})
call (done r, rs) change s = (done tt, change (record s { reports = s.reports ++ rs }))
call (stopped e, rs) change s = (stopped e, record s { reports = s.reports ++ rs })

-- The four bytes of an `int`, the low one first.
abbrev pub int_bytes : ℕ → Bytes
int_bytes n = n % 256 ∷ (n / 256) % 256 ∷ (n / 65_536) % 256 ∷ (n / 16_777_216) % 256 ∷ []

-- `initlog`
unfoldable pub initlog : Machine → Bytes → M (Unit {0})
unfolding call_streams
initlog m logp =
    call (call_streams (fopen logp) (not (m.opens_log logp)) (pos 1))
      (λ s. record s { log_file = some logp })

-- `Daemon(1, 1)`: the process that called it is gone, and another goes on.
unfoldable pub become_daemon : Machine → M (Unit {0})
unfolding call_accounts
become_daemon m = elim m.daemon [
  | none ↦ call (call_accounts daemon true (negsuc 0)) (λ s. s)
  | some pid ↦ call (call_accounts daemon false (pos 0)) (λ s. record s { pid = pid })
]

-- `write_pid`. Where `open` fails, `write` and `close` fail on the descriptor -1.
unfoldable pub write_pid : Machine → Bool → M (Unit {0})
unfolding call_files
write_pid m option s =
    let pid = if option then s.pid else 2 ^ 32 - 1 in
    if m.opens_pid_file
    then call (call_files close (if m.closes then pos 0 else negsuc 0)) (λ s'. s')
        (record s { pid_file = some (take m.stored (int_bytes pid)) })
    else call (call_files close (negsuc 0)) (λ s'. s') s

-- `Open_listenfd(port)`
unfoldable pub listen_on : Machine → M ℕ
unfolding open_listenfd_or_exit
listen_on m s =
    let (o, rs) = open_listenfd_or_exit m.answers in
    elim o [
      | done (some fd) ↦ (done (pos_part fd), record s { reports = s.reports ++ rs })
      | done none ↦ (exited 0, s)
      | stopped e ↦ (stopped e, record s { reports = s.reports ++ rs })
    ]

-- `main` up to its loop: the port and the descriptor on which it accepts.
unfoldable pub boot : ℕ → Machine → M (ℤ × ℕ)
unfolding parse_option call_signal initlog become_daemon write_pid listen_on
boot fuel m = do
  o ←
      settle (
        parse_option (record { is_daemon = m.junk_daemon; port_ptr = none; log_ptr = none }) m.opts)
  port ← settle (option_or fuel m.config m.junk_tmp m.cwd o.port_ptr (codes "http"))
  call (call_signal m.signal_fails (pos 0)) (λ s. record s { handles_sigchld = true })
  log ← settle (option_or fuel m.config m.junk_tmp m.cwd o.log_ptr (codes "log"))
  path ← settle (log_name fuel m.config m.junk_tmp m.cwd log)
  initlog m path
  dir ← settle (getconfig fuel m.config m.junk_tmp m.cwd (codes "dir"))
  λ s. (done tt, record s { is_show_dir = not (streq dir (codes "no")) })
  wants ← settle (wants_daemon fuel m.config m.junk_tmp m.cwd o.is_daemon)
  if wants then become_daemon m else settle (done tt)
  write_pid m true
  fd ← listen_on m
  settle (done (atoi port, fd))

-- The process when `main` begins.
abbrev pub started : Machine → State
started m = record {
  pid = m.pid;
  handles_sigchld = false;
  log_file = none;
  is_show_dir = true;
  pid_file = none;
  reports = [];
}
