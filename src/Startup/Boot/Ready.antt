-- ===== src/Startup/Boot/Ready.antt =====
-- `main` of http_main.c comes to its loop exactly where every system call on the way succeeds.
use twebs.Prelude.{
  ℕ, ◌+◌, ◌*◌, ◌<◌, ◌≡◌, refl, Bool, true, false, not, ◌&&◌, Option, none, some, Bytes, [], ◌∷◌,
  take, arith, if◌then◌else◌, ◌^◌, codes, ap, sym, ◌∙◌, ◌≤◌, take-all,
}
use twebs.Outcome.{Outcome, done, stopped, exited}
use twebs.CString.{streq, atoi}
use twebs.Wrap.{call_files}
use twebs.Wrap.Others.{
  ready_socket, call_signal, call_streams, call_accounts, open_listenfd, open_listenfd_or_exit,
}
use twebs.Startup.{
  Options, Settings, parse_option, getconfig, option_or, log_name, wants_daemon, startup, ◌then_do◌,
}
use twebs.Startup.Boot.{
  Machine, State, initlog, become_daemon, write_pid, listen_on, boot, started, int_bytes,
}

then_do-done :
    {A B : Type 0} (o : Outcome A) (f : A → Outcome B) {b : B}
    → (o then_do f) ≡ done b
    → (a : A) × (o ≡ done a) × (f a ≡ done b)
then_do-done (done a) f e = (a, refl, e)
then_do-done (stopped q) f e = cc

done_inj : {A : Type 0} {a b : A} → done a ≡ done b → a ≡ b
done_inj e = cc

-- What `startup` comes to, step by step.
record Steps (fuel : ℕ) (m : Machine) (s : Settings) : Type 0 where
  options : Options
  port : Bytes
  log : Bytes
  dir : Bytes
  parsed :
      parse_option (record { is_daemon = m.junk_daemon; port_ptr = none; log_ptr = none }) m.opts
      ≡ done options
  port_found : option_or fuel m.config m.junk_tmp m.cwd options.port_ptr (codes "http") ≡ done port
  log_found : option_or fuel m.config m.junk_tmp m.cwd options.log_ptr (codes "log") ≡ done log
  path_fits : log_name fuel m.config m.junk_tmp m.cwd log ≡ done s.log_path
  dir_found : getconfig fuel m.config m.junk_tmp m.cwd (codes "dir") ≡ done dir
  daemon_found : wants_daemon fuel m.config m.junk_tmp m.cwd options.is_daemon ≡ done s.daemon
  port_is : s.port ≡ atoi port
  dir_is : s.is_show_dir ≡ not (streq dir (codes "no"))

startup-Steps :
    (fuel : ℕ) (m : Machine) (s : Settings)
    → startup fuel m.config m.junk_tmp m.cwd m.junk_daemon m.opts ≡ done s
    → Steps fuel m s
unfolding startup
startup-Steps fuel m s e =
    let (o, a, e1) = then_do-done _ _ e in
    let (port, b, e2) = then_do-done _ _ e1 in
    let (log, c, e3) = then_do-done _ _ e2 in
    let (path, d, e4) = then_do-done _ _ e3 in
    let (dir, f, e5) = then_do-done _ _ e4 in
    let (daemon, g, e6) = then_do-done _ _ e5 in
    let q = done_inj e6 in
    record {
      options = o;
      port = port;
      log = log;
      dir = dir;
      parsed = a;
      port_found = b;
      log_found = c;
      path_fits = d ∙ ap (λ (x : Settings). done x.log_path) q;
      dir_found = f;
      daemon_found = g ∙ ap (λ (x : Settings). done x.daemon) q;
      port_is = ap (λ (x : Settings). x.port) (sym q);
      dir_is = ap (λ (x : Settings). x.is_show_dir) (sym q);
    }

-- The number of the process that comes to the loop.
abbrev pub pid_after : Machine → Bool → ℕ
pid_after m true = elim m.daemon [ none ↦ m.pid | some pid ↦ pid ]
pid_after m false = m.pid

abbrev pub goes_on : Machine → Bool → Bool
goes_on m true = elim m.daemon [ none ↦ false | some pid ↦ true ]
goes_on m false = true

-- All calls in front of `Open_listenfd` succeed.
abbrev pub all_succeed : Machine → Settings → Bool
all_succeed m s =
    not m.signal_fails
    && (m.opens_log s.log_path && (goes_on m s.daemon && (m.opens_pid_file && m.closes)))

-- The process that is ready to accept.
abbrev pub ready : Machine → Settings → State
ready m s = record {
  pid = pid_after m s.daemon;
  handles_sigchld = true;
  log_file = some s.log_path;
  is_show_dir = s.is_show_dir;
  pid_file = some (take m.stored (int_bytes (pid_after m s.daemon)));
  reports = [];
}

abbrev pub socket_of : Machine → Settings → Option ℕ
socket_of m s = if all_succeed m s then ready_socket m.answers else none

listen_on-ready :
    (m : Machine) (fd : ℕ) (s : State)
    → ready_socket m.answers ≡ some fd
    → s.reports ≡ []
    → listen_on m s ≡ (done fd, s)
unfolding listen_on open_listenfd_or_exit open_listenfd
listen_on-ready m fd s e r = ground arith

listen_on-none :
    (m : Machine) (s : State) → ready_socket m.answers ≡ none → (listen_on m s).0 ≡ exited 0
unfolding listen_on open_listenfd_or_exit open_listenfd
listen_on-none m s e = ground arith

module _ (fuel : ℕ) (m : Machine) (s : Settings) (st : Steps fuel m s) where
  boot-ready :
      (fd : ℕ)
      → all_succeed m s ≡ true
      → ready_socket m.answers ≡ some fd
      → boot fuel m (started m) ≡ (done (s.port, fd), ready m s)
  unfolding boot call_signal initlog call_streams become_daemon call_accounts write_pid call_files
  boot-ready fd a r = ground (
    arith,
    listen_on-ready m fd (ready m s) r refl,
    st.parsed,
    st.port_found,
    st.log_found,
    st.path_fits,
    st.dir_found,
    st.daemon_found,
    st.port_is,
    st.dir_is,
  )

  boot_stops : socket_of m s ≡ none → (boot fuel m (started m)).0 ≡ exited 0
  unfolding boot call_signal initlog call_streams become_daemon call_accounts write_pid call_files
  boot_stops n = ground (
    arith,
    listen_on-none m (ready m s),
    st.parsed,
    st.port_found,
    st.log_found,
    st.path_fits,
    st.dir_found,
    st.daemon_found,
  )

-- The number that four bytes hold, the low one first.
abbrev pub int_of : Bytes → ℕ
int_of [] = 0
int_of (b ∷ bs) = b + 256 * int_of bs

int_of-int_bytes : (n : ℕ) → n < 2 ^ 32 → int_of (int_bytes n) ≡ n
int_of-int_bytes n l = omega arith

take-int_bytes : (k n : ℕ) → 4 ≤ k → take k (int_bytes n) ≡ int_bytes n
take-int_bytes k n l = take-all k (int_bytes n) (omega arith)

module _ (fuel : ℕ) (m : Machine) (s : Settings)
    (settled : startup fuel m.config m.junk_tmp m.cwd m.junk_daemon m.opts ≡ done s) where
  pub boot_ready :
      (fd : ℕ) → socket_of m s ≡ some fd → boot fuel m (started m) ≡ (done (s.port, fd), ready m s)
  boot_ready fd e =
      boot-ready fuel m s (startup-Steps fuel m s settled) fd (ground arith) (ground arith)

  -- With the settings that `startup` takes from the options and the configuration, and system calls
  -- that all succeed, `main` comes to its loop with the socket that is ready: the log file is open
  -- under its path, SIGCHLD has its handler, and where the server becomes a daemon, the process is
  -- the one behind `daemon`. The file pid.file holds the number of that very process, as an `int`
  -- of the machine, if `write` stores the four bytes.
  pub boot_lem :
      (fd : ℕ)
      → socket_of m s ≡ some fd
      → 4 ≤ m.stored
      → pid_after m s.daemon < 2 ^ 32
      → (boot fuel m (started m) ≡ (done (s.port, fd), ready m s))
        × (int_of (take m.stored (int_bytes (pid_after m s.daemon))) ≡ pid_after m s.daemon)
  boot_lem fd e l small = (
    boot_ready fd e,
    ap int_of (take-int_bytes m.stored (pid_after m s.daemon) l)
        ∙ int_of-int_bytes (pid_after m s.daemon) small,
  )

  -- With the settings that `startup` takes from the options and the configuration: where setting the
  -- handler of SIGCHLD, opening the log, `daemon` where it is called, opening or closing pid.file, or
  -- a call that makes the listening socket fails, the server never comes to its loop, and the process
  -- exits with the status 0 of a success.
  pub boot_fails : socket_of m s ≡ none → (boot fuel m (started m)).0 ≡ exited 0
  boot_fails n = boot_stops fuel m s (startup-Steps fuel m s settled) n
