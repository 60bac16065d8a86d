-- ===== src/Server.antt =====
-- http_main.c: the loop of `main` round `Accept`, and what becomes of each connection.
pub mod Accepting
pub mod Sessions
pub mod Reaping
pub mod Whole
use twebs.Prelude.{ℕ, Bool, true, false, Bytes, List, [], ◌∷◌, ◌++◌, codes, if◌then◌else◌, not}
use twebs.Outcome.{Outcome, done, stopped, exited}
use twebs.Kernel.{Kernel}
use twebs.Access.{access_ornot}
use twebs.Http.{Host, World}
use twebs.Http.Reply.{Error, client_error, not_open}
use twebs.Http.Doit.{doit}

-- A call of `Accept`, which fails or returns a connection: the machine at that time, the text of the
-- client's address, the connection itself, and whether its descriptor can be closed.
pub record Arrival (S : Type 0) : Type 0 where
  pub accepts : Bool
  pub closes : Bool
  pub host : Host
  pub address : Bytes
  pub world : World S

-- The connections that the server's own process still holds open, and what the processes that it
-- forked ended with.
pub record Server (S : Type 0) : Type 0 where
  pub held : List (World S)
  pub served : List (Outcome (Unit {0}) × World S)

abbrev pub refusal : Bytes
refusal = codes "maybe this web server not open to you !"

module _ {S : Type 0} (k : Kernel S) (fuel : ℕ) where
  -- The child: `doit`, and the end of the process with status 1.
  abbrev pub child : Arrival S → Outcome (Unit {0}) × World S
  child a =
      let (o, w) = doit k fuel a.host a.world in
      (elim o [ done _ ↦ exited 1 | stopped e ↦ stopped e ], w)

  -- The body of the loop. A connection that is turned away is not closed; a failing `Accept`, `Fork` or
  -- `Close` ends the server.
  unfoldable pub serve_one : Server S → Arrival S → Outcome (Server S)
  serve_one srv a =
      if not a.accepts
      then exited 0
      else elim (access_ornot fuel a.host.config a.host.junk_tmp a.address) [
        | stopped e ↦ stopped e
        | done false ↦
            let (o, w) = client_error k fuel a.host refusal not_open a.world in
            elim o [
              | done _ ↦ done (record srv { held = srv.held ++ w ∷ [] })
              | stopped e ↦ stopped e
            ]
        | done true ↦
            if a.host.can_fork
            then (if a.closes
                then done (record srv { served = srv.served ++ child a ∷ [] })
                else exited 0)
            else exited 0
      ]

  -- The loop, on the connections that come.
  unfoldable pub serve_all : Server S → List (Arrival S) → Outcome (Server S)
  unfolding serve_one
  serve_all srv [] = done srv
  serve_all srv (a ∷ as') = elim (serve_one srv a) [
    | done srv' ↦ serve_all srv' as'
    | stopped e ↦ stopped e
  ]
