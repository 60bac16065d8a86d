-- ===== src/Startup/Daemonize.antt =====
-- daemon_init.c: `init_daemon`, which turns the process into a daemon in two forks. Nothing calls it:
-- `main` of http_main.c calls the library's `daemon`.
use twebs.Prelude.{
  ℕ, zero, suc, ◌≡◌, ◌≤◌, Bool, true, false, List, [], ◌∷◌, leb, if◌then◌else◌, ℤ, pos, negsuc,
  arith, Bytes, codes, not,
}
use twebs.Outcome.{Outcome, done, exited}

-- What the function changes of the process: the mask of new files, whether it leads a session of its
-- own and ignores SIGHUP, its open descriptors, and its directory.
pub record Process : Type 0 where
  pub umask : ℕ
  pub leads_session : Bool
  pub ignores_sighup : Bool
  pub open_fds : List ℕ
  pub directory : Bytes

-- `if (pid = fork())`: only the child, for which `fork` returns 0, goes on. An error, -1, is true as
-- well.
abbrev pub is_child : ℤ → Bool
is_child (pos zero) = true
is_child (pos (suc n)) = false
is_child (negsuc n) = false

-- `close(i)` for each `i` below `NOFILE`.
abbrev pub close_below : ℕ → List ℕ → List ℕ
close_below nofile [] = []
close_below nofile (fd ∷ fds) =
    let rest = close_below nofile fds in if leb nofile fd then fd ∷ rest else rest

-- `init_daemon`, on what `fork` returns the first and the second time.
unfoldable pub init_daemon : ℕ → ℤ → ℤ → Process → Outcome Process
init_daemon nofile first second p =
    if not (is_child first)
    then exited 0
    else if not (is_child second)
    then exited 0
    else done (record {
      umask = 0;
      leads_session = true;
      ignores_sighup = true;
      open_fds = close_below nofile p.open_fds;
      directory = codes "/";
    })

abbrev pub AllAbove : ℕ → List ℕ → Type 0
AllAbove nofile [] = Unit {0}
AllAbove nofile (fd ∷ fds) = (nofile ≤ fd) × AllAbove nofile fds

close_below-AllAbove : (nofile : ℕ) (fds : List ℕ) → AllAbove nofile (close_below nofile fds)
close_below-AllAbove nofile [] = tt
close_below-AllAbove nofile (fd ∷ fds) = ground (arith, close_below-AllAbove nofile fds)

-- Where the function returns, the process is the child of a child, leads its session, ignores SIGHUP,
-- and has no descriptor below `NOFILE`.
pub init_daemon_lem :
    (nofile : ℕ) (first second : ℤ) (p q : Process)
    → init_daemon nofile first second p ≡ done q
    → (is_child first ≡ true)
      × (is_child second ≡ true)
      × (q.leads_session ≡ true)
      × (q.ignores_sighup ≡ true)
      × AllAbove nofile q.open_fds
unfolding init_daemon
init_daemon_lem nofile first second p q e = ground (arith, close_below-AllAbove nofile p.open_fds)
