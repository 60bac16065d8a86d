-- ===== src/Server/Sessions.antt =====
-- http_main.c as a whole: what the clients of a run of the accept loop get, by the table of
-- Http/Doit/Contract.antt.
use twebs.Prelude.{ℕ, ◌≡◌, List, [], ◌∷◌, length, ap, arith}
use twebs.Outcome.{Outcome, done, stopped, exited}
use twebs.Kernel.{Kernel, Ghost, IsReliable}
use twebs.Rio.{rio_bufsize}
use twebs.Http.{World}
use twebs.Http.Doit.{doit}
use twebs.Http.Doit.Request.{Served}
use twebs.Http.Doit.Contract.{Request, IsRequest, text_of, Reply, Promised}
use twebs.Http.Doit.Refines.{Enough, doit-Promised}
use twebs.Server.{Arrival, child, serve_all}
use twebs.Server.Accepting.{Run, map, after_refusal, serve_all_lem}

-- A client that is let in, with what it asks and what the table has for it.
pub record Client (S : Type 0) : Type 0 where
  pub arrival : Arrival S
  pub request : Request
  pub reply : Reply

-- A process that `doit` returns to exits with status 1.
abbrev pub child_end : Outcome (Unit {0}) → Outcome (Unit {0})
child_end (done _) = exited 1
child_end (stopped e) = stopped e

module _ {S : Type 0} where
  pub record Asks (g : Ghost S) (fuel : ℕ) (c : Client S) : Type 0 where
    pub whole : IsRequest c.request
    pub buffer : length c.arrival.world.rio.rio_buf ≡ rio_bufsize
    pub comes : g.pending c.arrival.world.rio.rio_fd ≡ text_of c.request
    pub promised : Promised c.arrival.host c.request c.reply
    pub enough : Enough g fuel c.arrival.host c.request c.reply c.arrival.world

  abbrev pub AllAsk : Ghost S → ℕ → List (Client S) → Type 0
  AllAsk g fuel [] = Unit {0}
  AllAsk g fuel (c ∷ cs) = Asks g fuel c × AllAsk g fuel cs

  -- The process of a client came to the end that the table has, with the reply on the connection.
  pub record Answered (g : Ghost S) (c : Client S) (r : Outcome (Unit {0}) × World S) : Type 0 where
    pub ends : r.0 ≡ child_end c.reply.outcome
    pub served :
        Served g c.reply.sends c.reply.leaves c.reply.logs c.reply.spawns c.arrival.world r.1

  abbrev pub AllAnswered : Ghost S → List (Client S) → List (Outcome (Unit {0}) × World S) → Type 0
  AllAnswered g [] [] = Unit {0}
  AllAnswered g (c ∷ cs) (r ∷ rs) = Answered g c r × AllAnswered g cs rs
  AllAnswered g [] (r ∷ rs) = ⊥
  AllAnswered g (c ∷ cs) [] = ⊥

abbrev pub arrivals : {S : Type 0} → List (Client S) → List (Arrival S)
arrivals cs = map (λ c. c.arrival) cs

module _ {S : Type 0} {k : Kernel S} {g : Ghost S} (law : IsReliable k g) (fuel : ℕ) where
  child-doit :
      (a : Arrival S) → let r = doit k fuel a.host a.world in child k fuel a ≡ (child_end r.0, r.1)
  child-doit a = ground arith

  child-Answered : (c : Client S) → Asks g fuel c → Answered g c (child k fuel c.arrival)
  child-Answered c q =
      let (o, s) =
        doit-Promised law fuel c.arrival.host c.request c.arrival.world q.whole q.buffer q.comes
          q.promised q.enough in
      record { ends = ap child_end o; served = s }

  children-Answered :
      (cs : List (Client S))
      → AllAsk g fuel cs
      → AllAnswered g cs (map (child k fuel) (arrivals cs))
  children-Answered [] q = tt
  children-Answered (c ∷ cs) q = (child-Answered c q.0, children-Answered cs q.1)

  -- On a run of connections on each of which the check of the address comes out, where every client
  -- that is let in sends a whole request for which the table has a reply: the loop ends with one
  -- process for each of these clients, in order, which came to the end that the table has and sent
  -- and logged what it has; and with one open connection for each client turned away.
  pub serve_all-Promised :
      (cs : List (Client S)) (all outs : List (Arrival S))
      → Run g fuel all (arrivals cs) outs
      → AllAsk g fuel cs
      → let served = map (child k fuel) (arrivals cs) in
        (serve_all k fuel (record { held = []; served = [] }) all
          ≡ done (record { held = map (after_refusal law fuel) outs; served = served }))
        × AllAnswered g cs served
  serve_all-Promised cs all outs run q = (
    serve_all_lem law fuel (record { held = []; served = [] }) all (arrivals cs) outs run,
    children-Answered cs q,
  )
