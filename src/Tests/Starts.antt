-- ===== src/Tests/Starts.antt =====
-- The programs from their start on.
use twebs.Prelude.{
  ℕ, ◌≡◌, ◌+◌, ◌≤◌, refl, Bool, true, false, Option, none, some, List, [], ◌∷◌, ◌++◌, codes, arith,
  pos, take,
}
use twebs.Outcome.{exec, done, exited, returns}
use twebs.CString.{atoi, print_int}
use twebs.Http.Dynamic.Handlers.{get_program}
use twebs.GetAuth.{get_auth, got, get_auth-got}
use twebs.Config.File.{render}
use twebs.Wrap.Others.{Answers}
use twebs.Startup.{port_opt, daemon_opt, Settings, startup}
use twebs.Startup.Choices.{startup_lem}
use twebs.Startup.Boot.{Machine, boot, started, int_bytes}
use twebs.Startup.Boot.Ready.{ready, int_of, boot_lem, boot_fails}
use twebs.Http.Uri.{parse_uri}
use twebs.Http.Doit.Refines.{Names-parse}
use twebs.Server.Reaping.{
  left_with, forgotten, Reach, Reach-left_with, Reach-forgotten, ended, handled, no_children,
}
use twebs.EventLoop.Start
use twebs.ProcessPool.Children
use twebs.ProcessPool.{
  process_pool, Fork, in_parent, in_child, handle_signal, sigchld, Parent,
  process_new_conn_in_parent,
}
use twebs.ProcessPool.Running.{new_parent}
use twebs.ProcessPool.Children.{new_child}
use twebs.ProcessPool.Start as Pool
use twebs.Tests.{site, items, items-IsFile}
use twebs.Tests.Conns.{conn_with, slow}
use twebs.Tests.Requests.{page_file}
use twebs.Tests.Sessions.{page-Names}

Names-parse_example : parse_uri 9000 site (codes "/a.html") ≡ done page_file
Names-parse_example = Names-parse 9000 site page-Names (omega arith)

abbrev answers : Bool → Answers
answers binds = record {
  socket = some 4;
  setsockopt = true;
  bind = binds;
  listen = true;
  gethostbyname = true;
  connect = true;
}

-- A start with "-d -p 80", as a daemon with the number 4711.
abbrev pub machine : Bool → Machine
machine binds = record {
  cwd = codes "/srv";
  config = render items;
  junk_tmp = [];
  junk_daemon = false;
  opts = daemon_opt ∷ port_opt (codes "80") ∷ [];
  pid = 4700;
  signal_fails = false;
  opens_log = λ path. true;
  daemon = some 4711;
  opens_pid_file = true;
  stored = 4;
  closes = true;
  answers = answers binds;
}

abbrev pub settings : Settings
settings = record {
  port = pos 80;
  log_path = codes "/srv/a.log";
  is_show_dir = false;
  daemon = true;
}

settled :
    startup 200 (render items) [] (codes "/srv") false (daemon_opt ∷ port_opt (codes "80") ∷ [])
    ≡ done settings
unfolding atoi
settled =
    startup_lem 200 items [] (codes "/srv") false (daemon_opt ∷ port_opt (codes "80") ∷ [])
      (codes "80") (codes "a.log") (codes "no") (codes "no") items-IsFile (omega arith) refl refl
      refl refl refl (omega arith)

boot_lem_example :
    (boot 200 (machine true) (started (machine true))
      ≡ (done (pos 80, 4), ready (machine true) settings))
    × (int_of (take 4 (int_bytes 4711)) ≡ 4711)
boot_lem_example = boot_lem 200 (machine true) settings settled 4 refl (omega arith) (omega arith)

boot_fails_example : (boot 200 (machine false) (started (machine false))).0 ≡ exited 0
boot_fails_example = boot_fails 200 (machine false) settings settled refl

Reach-forgotten_example :
    let t = Reach-left_with 2 in
    ((left_with 2).alive ≡ true)
    × (0 + ended t ≡ 2 + handled t)
    × (forgotten no_children ≤ forgotten (left_with 2))
Reach-forgotten_example = Reach-forgotten Reach.here (Reach-left_with 2)

get_auth-got_example :
    (get_program site (codes "/srv/cig-bin/getAuth") (codes "bob&secret")
      ≡ exec (got (codes "/srv/cig-bin/getAuth") (codes "bob&secret")))
    × (get_auth [] [] (got (codes "/srv/cig-bin/getAuth") (codes "bob&secret"))
        ≡ done (
            codes "Content-length: "
            ++ (print_int (pos 63)
                ++ (codes "\r\n"
                    ++ (codes "Content-type: text/html\r\n\r\n"
                        ++ codes
                            "Welcome to auth.com:bob and secret\r\n<p>\r\nThanks for visiting!\r\n")))))
get_auth-got_example =
    get_auth-got site [] [] (codes "/srv/cig-bin/getAuth") (codes "bob") (codes "secret") refl refl
      (omega arith)

-- A client comes and goes; then `epoll_wait` fails.
abbrev calls : Start.Calls ℕ
calls = record {
  argc = 3;
  sigaction = true;
  create = λ i. true;
  socket = some 3;
  bind = true;
  listen = true;
  epoll_create = true;
  users = λ i. record (conn_with [] []) { sockfd = none };
  sockets = 0;
  batches =
      some (
        record { fd = 3; hung_up = false; readable = true; writable = false; connfd = some 9 } ∷ [])
      ∷ some (
          record { fd = 9; hung_up = true; readable = false; writable = false; connfd = none } ∷ [])
      ∷ none
      ∷ [];
}

main_example : Start.main (λ i. slow) 100 calls ≡ done (returns 1, none)
main_example = Start.main_lem (λ i. slow) 100 calls

abbrev told : Children.Event
told = record {
  fd = 5;
  epollin = true;
  signals = some (sigchld (100 ∷ 101 ∷ 102 ∷ 103 ∷ 104 ∷ 105 ∷ 106 ∷ 107 ∷ []) ∷ []);
  client = false;
  connfd = none;
}

abbrev client : Children.Event
client = record { fd = 3; epollin = true; signals = none; client = false; connfd = none }

abbrev cgi_calls : (ℕ → Fork) → Pool.Calls
cgi_calls fork = record {
  argc = 3;
  socket = true;
  bind = true;
  listen = true;
  fork = fork;
  epoll_create = true;
  socketpair = true;
  sigaction = λ s. true;
  sigpipe = true;
  descriptors = record { listenfd = 3; sig_pipefd = 5; pipefd = 6 };
  batches = some (client ∷ []) ∷ some (told ∷ []) ∷ [];
}

cgi_main-child_example :
    Pool.cgi_main (cgi_calls (λ i. in_child)) ≡ done (returns 0, some (Pool.child_side new_child))
unfolding process_pool Pool.setup_sig_pipe
cgi_main-child_example =
    Pool.cgi_main-child (cgi_calls (λ i. in_child)) 0 [] (omega arith, refl, refl) refl

abbrev pids : List (Option ℕ)
pids = some 100 ∷ some 101 ∷ some 102 ∷ some 103 ∷ some 104 ∷ some 105 ∷ some 106 ∷ some 107 ∷ []

-- The first child has been told of a client.
abbrev busy : Parent
busy = record (new_parent pids) { sub_process_counter = 1; notified = 0 ∷ [] }

cgi_main-parent_example :
    Pool.cgi_main (cgi_calls (λ i. in_parent (100 + i)))
    ≡ done (
      returns 0,
      some (
          Pool.parent_side
            (handle_signal (sigchld (100 ∷ 101 ∷ 102 ∷ 103 ∷ 104 ∷ 105 ∷ 106 ∷ 107 ∷ [])) busy)),
    )
unfolding process_pool Pool.setup_sig_pipe Children.parent_events Children.parent_event
    process_new_conn_in_parent
cgi_main-parent_example =
    Pool.cgi_main-parent (cgi_calls (λ i. in_parent (100 + i))) pids (some (client ∷ []) ∷ []) [] []
      told (100 ∷ 101 ∷ 102 ∷ 103 ∷ 104 ∷ 105 ∷ 106 ∷ 107 ∷ []) busy busy (omega arith, refl, refl)
      refl refl (Pool.goes_on refl refl Pool.begins) refl refl
      (record { of_pipe = refl; has_pipe = refl; readable = refl; told = refl }) refl
