-- ===== src/ProcessPool/Start.antt =====
-- ss/ww/process_pool.hpp: `SigHandler`, `SetupSigPipe`, `Create` and `Run`; and `main` of
-- ss/ww/cgi_server.cpp, which is what every process of the pool runs.
use twebs.Prelude.{
  ℕ, ◌<◌, ◌≡◌, refl, Bool, true, false, not, ◌&&◌, Option, none, some, List, [], ◌∷◌, ◌++◌, leb,
  if◌then◌else◌, arith, ◌∙◌, ap, ◌==◌,
}
use twebs.Outcome.{Outcome, done, stopped, End, returns, aborts}
use twebs.ProcessPool.{
  Fork, Parent, Signal, sigchld, sigterm, sigint, process_pool, handle_signal, live_pids,
  process_sig_in_parent,
}
use twebs.ProcessPool.Children.{
  Event, Descriptors, Child, new_child, run_child, run_parent, parent_event, parent_events,
}
use twebs.ProcessPool.Running.{new_parent, handle_signal-sigchld, without_all, is_empty}

-- `SigHandler`: a byte for the signal goes into the pipe, unless `send` fails.
unfoldable pub sig_handler : Bool → Signal → List Signal → List Signal
sig_handler sends sig pipe = if sends then pipe ++ sig ∷ [] else pipe

-- What the program was started with, and what the system calls answer; the calls of `epoll_wait`
-- return `batches`.
pub record Calls : Type 0 where
  pub argc : ℕ
  pub socket : Bool
  pub bind : Bool
  pub listen : Bool
  pub fork : ℕ → Fork
  pub epoll_create : Bool
  pub socketpair : Bool
  pub sigaction : Signal → Bool
  pub sigpipe : Bool
  pub descriptors : Descriptors
  pub batches : List (Option (List Event))

abbrev pub default_process_number : ℕ
default_process_number = 8

-- `SetupSigPipe`: whether all its assertions hold.
unfoldable pub setup_sig_pipe : Calls → Bool
setup_sig_pipe c =
    c.epoll_create
    && (c.socketpair
        && (c.sigaction (sigchld []) && (c.sigaction sigterm && (c.sigaction sigint && c.sigpipe))))

-- What a process of the pool has when its loop ends.
pub data Side : Type 0 where
  child_side : Child → Side
  parent_side : Parent → Side

abbrev pub run_with : {A : Type 0} → Bool → Outcome A → (A → Side) → Outcome (End × Option Side)
run_with ready o side =
    if not ready
    then done (aborts, none)
    else elim o [ done a ↦ done (returns 0, some (side a)) | stopped e ↦ stopped e ]

-- `Run`, and the end of `main` behind it. `idx` is `idx_`.
unfoldable pub run : Calls → Option ℕ → List (Option ℕ) → Outcome (End × Option Side)
unfolding setup_sig_pipe run_child run_parent
run c (some idx) pids =
    run_with (setup_sig_pipe c) (run_child c.descriptors c.batches new_child) child_side
run c none pids =
    run_with (setup_sig_pipe c) (run_parent c.descriptors c.batches (new_parent pids)) parent_side

-- `main` of cgi_server.cpp
unfoldable pub cgi_main : Calls → Outcome (End × Option Side)
unfolding process_pool run
cgi_main c =
    if leb c.argc 2
    then done (returns 1, none)
    else if not (c.socket && (c.bind && c.listen))
    then done (aborts, none)
    else elim (process_pool c.fork default_process_number) [
      | none ↦ done (aborts, none)
      | some (idx, pids) ↦ run c idx pids
    ]

-- `main` comes to the pool.
abbrev pub SetsUp : Calls → Type 0
SetsUp c = (2 < c.argc) × ((c.socket && (c.bind && c.listen)) ≡ true) × (setup_sig_pipe c ≡ true)

cgi_main-run :
    (c : Calls) (idx : Option ℕ) (pids : List (Option ℕ))
    → SetsUp c
    → process_pool c.fork default_process_number ≡ some (idx, pids)
    → cgi_main c ≡ run c idx pids
unfolding cgi_main
cgi_main-run c idx pids s e = ground arith

run_child-new :
    (d : Descriptors) (batches : List (Option (List Event)))
    → run_child d batches new_child ≡ done new_child
unfolding run_child
run_child-new d [] = refl
run_child-new d (b ∷ bs) = refl

-- Started with an address and a port, and with system calls that succeed up to the loop: every child
-- of the pool is at its end at once, for in a process in which `fork` returned 0, `main` returns 0
-- with no client taken and none served, whatever events come.
pub cgi_main-child :
    (c : Calls) (i : ℕ) (pids : List (Option ℕ))
    → SetsUp c
    → process_pool c.fork default_process_number ≡ some (some i, pids)
    → cgi_main c ≡ done (returns 0, some (child_side new_child))
unfolding run
cgi_main-child c i pids s e =
    cgi_main-run c (some i) pids s e ∙ ground (arith, run_child-new c.descriptors c.batches, s.2)

-- The parent is told of ends by one event of the pipe of signals.
pub record Tells (d : Descriptors) (e : Event) (deads : List ℕ) : Type 0 where
  pub of_pipe : (e.fd == d.listenfd) ≡ false
  pub has_pipe : (d.sig_pipefd == 0) ≡ false
  pub readable : e.epollin ≡ true
  pub told : e.signals ≡ some (sigchld deads ∷ [])

run_parent_stopped :
    (d : Descriptors) (batches : List (Option (List Event))) (p : Parent)
    → p.stop ≡ true
    → run_parent d batches p ≡ done p
unfolding run_parent
run_parent_stopped d [] p e = ground arith
run_parent_stopped d (b ∷ bs) p e = ground arith

-- What earlier calls of `epoll_wait` made of the parent.
pub data Leads (d : Descriptors) : Parent → List (Option (List Event)) → Parent → Type 0 where
  begins : {p : Parent} → Leads d p [] p
  goes_on :
      {p q r : Parent} {evs : List Event} {batches : List (Option (List Event))}
      → p.stop ≡ false
      → parent_events d evs p ≡ done q
      → Leads d q batches r
      → Leads d p (some evs ∷ batches) r

run_parent-Leads :
    (d : Descriptors) {p q : Parent} {before : List (Option (List Event))}
    (batches : List (Option (List Event)))
    → Leads d p before q
    → run_parent d (before ++ batches) p ≡ run_parent d batches q
unfolding run_parent
run_parent-Leads d batches begins = refl
run_parent-Leads d batches (goes_on s e l) = rw (e, s) (run_parent-Leads d batches l)

done_inj : {a b : Parent} → done a ≡ done b → a ≡ b
done_inj e = cc

parent_events_step :
    (o : Outcome Parent) (f g k : Parent → Outcome Parent) {q : Parent}
    → ((r q' : Parent) → f r ≡ done q' → g r ≡ k q')
    → elim o [ done r ↦ f r | stopped e ↦ stopped e ] ≡ done q
    → elim o [ done r ↦ g r | stopped e ↦ stopped e ] ≡ k q
parent_events_step (done r) f g k {q} i h = i r q h
parent_events_step (stopped e) f g k i h = cc

-- The events of one call in front of the last one.
parent_events-last :
    (d : Descriptors) (evs : List Event) (e : Event) (p : Parent) {q : Parent}
    → parent_events d evs p ≡ done q
    → parent_events d (evs ++ e ∷ []) p ≡ parent_events d (e ∷ []) q
unfolding parent_events
parent_events-last d [] e p {q} h = ap (parent_events d (e ∷ [])) (done_inj h)
parent_events-last d (x ∷ xs) e p {q} h =
    parent_events_step (parent_event d x p) (parent_events d xs) (parent_events d (xs ++ e ∷ []))
      (parent_events d (e ∷ [])) (λ r q' h'. parent_events-last d xs e r h') h

parent_event-Tells :
    (d : Descriptors) (e : Event) (deads : List ℕ) (p : Parent)
    → Tells d e deads
    → parent_events d (e ∷ []) p ≡ done (handle_signal (sigchld deads) p)
unfolding parent_events parent_event process_sig_in_parent
parent_event-Tells d e deads p t = ground (arith, t.of_pipe, t.has_pipe, t.readable, t.told)

run_parent-last :
    (d : Descriptors) (evs : List Event) (batches : List (Option (List Event))) (p : Parent)
    {q : Parent}
    → p.stop ≡ false
    → parent_events d evs p ≡ done q
    → q.stop ≡ true
    → run_parent d (some evs ∷ batches) p ≡ done q
unfolding run_parent
run_parent-last d evs batches p {q} go e s = ground (arith, go, e, run_parent_stopped d batches q s)

-- Started with an address and a port, and with system calls that succeed up to the loop: whatever the
-- parent of the pool has done in earlier calls of `epoll_wait` and for earlier events of the same
-- call, where the last event of the call tells it of the end of all children that are left, `main`
-- returns 0 in the parent at once, whatever events would come after.
pub cgi_main-parent :
    (c : Calls) (pids : List (Option ℕ)) (before batches : List (Option (List Event)))
    (evs : List Event) (e : Event) (deads : List ℕ) (p q : Parent)
    → SetsUp c
    → process_pool c.fork default_process_number ≡ some (none, pids)
    → c.batches ≡ before ++ some (evs ++ e ∷ []) ∷ batches
    → Leads c.descriptors (new_parent pids) before p
    → p.stop ≡ false
    → parent_events c.descriptors evs p ≡ done q
    → Tells c.descriptors e deads
    → without_all deads (live_pids q.sub_process) ≡ []
    → cgi_main c ≡ done (returns 0, some (parent_side (handle_signal (sigchld deads) q)))
unfolding run
cgi_main-parent c pids before batches evs e deads p q s f b l go h t all =
    let d = c.descriptors in
    let last = parent_events-last d evs e p h ∙ parent_event-Tells d e deads q t in
    let stops = (handle_signal-sigchld deads q).2 ∙ ap is_empty all in
    let ends : run_parent d c.batches (new_parent pids) ≡ done (handle_signal (sigchld deads) q) =
      ap (λ x. run_parent d x (new_parent pids)) b
      ∙ run_parent-Leads d (some (evs ++ e ∷ []) ∷ batches) l
      ∙ run_parent-last d (evs ++ e ∷ []) batches p go last stops in
    cgi_main-run c none pids s f ∙ ground (arith, ends, s.2)
