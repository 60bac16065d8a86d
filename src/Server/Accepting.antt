-- ===== src/Server/Accepting.antt =====
-- What a run of the accept loop leaves: one child for each client let in, and one open connection
-- for each client turned away.
use twebs.Prelude.{
  ℕ, ◌+◌, ◌≤◌, ◌<◌, ◌≡◌, Bool, true, false, List, [], ◌∷◌, ◌++◌, length, arith, append-nil,
  append_assoc, ap, ◌∙◌,
}
use twebs.Outcome.{done}
use twebs.Kernel.{Kernel, Ghost, IsReliable}
use twebs.Access.{access_ornot}
use twebs.Http.{World, maxline}
use twebs.Http.Sending.{Sent, patience_of}
use twebs.Http.Reply.{client_error, error_body, error_header, not_open}
use twebs.Http.Reply.Errors.{error_reply, client_error-Sent}
use twebs.Server.{Arrival, Server, refusal, child, serve_one, serve_all}
use twebs.CString.{print_nat}

-- A connection comes, the check of its address comes out as `b`, a process can be made, and the
-- connection can be closed.
pub record Checked {S : Type 0} (g : Ghost S) (fuel : ℕ) (a : Arrival S) (b : Bool) : Type 0 where
  pub verdict : access_ornot fuel a.host.config a.host.junk_tmp a.address ≡ done b
  pub arrives : a.accepts ≡ true
  pub forks : a.host.can_fork ≡ true
  pub closable : a.closes ≡ true
  pub enough : maxline + patience_of g a.world ≤ fuel

-- Connections with the verdicts on them.
pub data Run {S : Type 0} (g : Ghost S) (fuel : ℕ)
    : List (Arrival S) → List (Arrival S) → List (Arrival S) → Type 0 where
  nobody : Run g fuel [] [] []
  let_in :
      {a : Arrival S} {all ins outs : List (Arrival S)}
      → Checked g fuel a true
      → Run g fuel all ins outs
      → Run g fuel (a ∷ all) (a ∷ ins) outs
  turned_away :
      {a : Arrival S} {all ins outs : List (Arrival S)}
      → Checked g fuel a false
      → Run g fuel all ins outs
      → Run g fuel (a ∷ all) ins (a ∷ outs)

refusal_fits :
    (length (error_body not_open refusal) < maxline)
    × (length (error_header not_open (length (error_body not_open refusal))) < maxline)
unfolding error_body error_header print_nat
refusal_fits = (omega arith, omega arith)

abbrev pub map : {A B : Type 0} → (A → B) → List A → List B
map f [] = []
map f (a ∷ as') = f a ∷ map f as'

module _ {S : Type 0} {k : Kernel S} {g : Ghost S} (law : IsReliable k g) (fuel : ℕ) where
  abbrev pub after_refusal : Arrival S → World S
  after_refusal a = (client_error k fuel a.host refusal not_open a.world).1

  refusal-Sent :
      (a : Arrival S)
      → maxline + patience_of g a.world ≤ fuel
      → ((client_error k fuel a.host refusal not_open a.world).0 ≡ done tt)
        × Sent g (error_reply a.host not_open refusal) a.world (after_refusal a)
  refusal-Sent a l =
      client_error-Sent law a.host fuel not_open refusal a.world refusal_fits.0 refusal_fits.1 l

  let_in-served :
      (srv : Server S) (a : Arrival S)
      → Checked g fuel a true
      → serve_one k fuel srv a ≡ done (record srv { served = srv.served ++ child k fuel a ∷ [] })
  unfolding serve_one
  let_in-served srv a c = ground (arith, c.arrives, c.verdict, c.forks, c.closable)

  turned_away-held :
      (srv : Server S) (a : Arrival S)
      → Checked g fuel a false
      → serve_one k fuel srv a ≡ done (record srv { held = srv.held ++ after_refusal a ∷ [] })
  unfolding serve_one
  turned_away-held srv a c = ground (arith, c.arrives, c.verdict, refusal-Sent a c.enough)

  serve_all_step :
      (srv srv' : Server S) (a : Arrival S) (as' : List (Arrival S))
      → serve_one k fuel srv a ≡ done srv'
      → serve_all k fuel srv (a ∷ as') ≡ serve_all k fuel srv' as'
  unfolding serve_all
  serve_all_step srv srv' a as' e = ground arith

  -- On a run of connections on each of which the check of the address comes out, with calls of
  -- `Accept`, `Fork` and `Close` that succeed, the loop forks one
  -- child that serves it for each client let in, in order; and for each client turned away it still
  -- holds the connection open at the end of the run, with the error 403 sent on it.
  pub serve_all_lem :
      (srv : Server S) (all ins outs : List (Arrival S))
      → Run g fuel all ins outs
      → serve_all k fuel srv all
        ≡ done (record {
          held = srv.held ++ map after_refusal outs;
          served = srv.served ++ map (child k fuel) ins;
        })
  serve_all_lem srv _ _ _ nobody =
      unfold serve_all in rw (append-nil srv.held, append-nil srv.served)
  serve_all_lem srv _ _ _ (let_in {a} {all} {ins} {outs} c r) =
      let srv' = record srv { served = srv.served ++ child k fuel a ∷ [] } in
      serve_all_step srv srv' a all (let_in-served srv a c)
      ∙ serve_all_lem srv' all ins outs r
      ∙ ap (λ xs. done (record { held = srv.held ++ map after_refusal outs; served = xs }))
          (append_assoc srv.served (child k fuel a ∷ []) (map (child k fuel) ins))
  serve_all_lem srv _ _ _ (turned_away {a} {all} {ins} {outs} c r) =
      let srv' = record srv { held = srv.held ++ after_refusal a ∷ [] } in
      serve_all_step srv srv' a all (turned_away-held srv a c)
      ∙ serve_all_lem srv' all ins outs r
      ∙ ap (λ xs. done (record { held = xs; served = srv.served ++ map (child k fuel) ins }))
          (append_assoc srv.held (after_refusal a ∷ []) (map after_refusal outs))
