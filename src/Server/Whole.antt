-- ===== src/Server/Whole.antt =====
-- http_main.c: `main` as a whole, from the options to the replies of a run of its loop.
use twebs.Prelude.{◌≡◌, ℕ, some, List, [], ◌∙◌, arith}
use twebs.Outcome.{Outcome, done, stopped}
use twebs.Kernel.{Kernel, Ghost, IsReliable}
use twebs.Startup.{Settings, startup}
use twebs.Startup.Boot.{Machine, State, boot, started}
use twebs.Startup.Boot.Ready.{ready, socket_of, boot_ready}
use twebs.Server.{Arrival, Server, child, serve_all}
use twebs.Server.Accepting.{Run, map, after_refusal}
use twebs.Server.Sessions.{Client, AllAsk, AllAnswered, arrivals, serve_all-Promised}

-- The globals that `main` set, `cwd` and `is_show_dir`, and the configuration file are those that
-- every child finds.
abbrev pub placed : {S : Type 0} → Machine → State → Arrival S → Arrival S
placed m st a = record a {
  host = record a.host { cwd = m.cwd; config = m.config; is_show_dir = st.is_show_dir };
}

abbrev pub nobody_served : {S : Type 0} → Server S
nobody_served = record { held = []; served = [] }

-- `main`, on the connections that come.
unfoldable pub main : {S : Type 0} → Kernel S → ℕ → Machine → List (Arrival S) → Outcome (Server S)
unfolding boot serve_all
main k fuel m all =
    let (o, st) = boot fuel m (started m) in
    elim o [
      | done _ ↦ serve_all k fuel nobody_served (map (placed m st) all)
      | stopped e ↦ stopped e
    ]

main-serve_all :
    {S : Type 0} (k : Kernel S) (fuel fd : ℕ) (m : Machine) (s : Settings) (all : List (Arrival S))
    → boot fuel m (started m) ≡ (done (s.port, fd), ready m s)
    → main k fuel m all ≡ serve_all k fuel nobody_served (map (placed m (ready m s)) all)
unfolding main
main-serve_all k fuel fd m s all e = ground arith

module _ {S : Type 0} {k : Kernel S} {g : Ghost S} (law : IsReliable k g) (fuel : ℕ) (m : Machine)
    (s : Settings)
    (settled : startup fuel m.config m.junk_tmp m.cwd m.junk_daemon m.opts ≡ done s) where
  -- The whole server: with settings from the options and the configuration, system calls that succeed
  -- on the way to the loop, and connections on each of which the check of the address comes out and
  -- `Accept`, `Fork` and `Close` succeed, where every client that is let in sends a whole request for
  -- which the table has a reply on this machine. Then for each of these clients, in order, there is a
  -- process that came to the end that the table has, and has sent and logged what it has; and for each
  -- client turned away a connection is still open.
  pub main-Promised :
      (fd : ℕ) (cs : List (Client S)) (all outs : List (Arrival S))
      → socket_of m s ≡ some fd
      → Run g fuel (map (placed m (ready m s)) all) (arrivals cs) outs
      → AllAsk g fuel cs
      → let served = map (child k fuel) (arrivals cs) in
        (main k fuel m all
          ≡ done (record { held = map (after_refusal law fuel) outs; served = served }))
        × AllAnswered g cs served
  main-Promised fd cs all outs e run q =
      let (o, a) = serve_all-Promised law fuel cs (map (placed m (ready m s)) all) outs run q in
      (main-serve_all k fuel fd m s all (boot_ready fuel m s settled fd e) ∙ o, a)
