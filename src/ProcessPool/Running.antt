-- ===== src/ProcessPool/Running.antt =====
-- ss/ww/process_pool.hpp: the parent's table of children, and connections dealt out in turn.
use twebs.Prelude.{
  ℕ, zero, suc, ◌+◌, ◌%◌, ◌<◌, ◌≡◌, refl, Bool, true, false, Option, none, some, List, [], ◌∷◌,
  ◌++◌, length, ◌==◌, arith, ◌∙◌, ap, sym, inl, inr, ◌⊎◌, append_assoc, append-nil, if◌then◌else◌,
  Option-cases,
}
use native.Mathlib.Nat.{mod-lt}
use twebs.Outcome.{Outcome, done, stopped}
use twebs.ProcessPool.{
  Parent, process_number, pid_at, process_new_conn_in_parent, handle_signal, sigchld, join_all,
  join, join_from, live_pids, all_gone, process_pool, fork_children, Fork, in_parent, fork_failed,
  in_child,
}
use twebs.ProcessPool.Turns.{behind-zero, behind, process_new_conn_in_parent-live}

-- A table is as long as it was, and every pid but the one that is gone stays in it.
abbrev pub without : ℕ → List ℕ → List ℕ
without pid [] = []
without pid (q ∷ qs) = if q == pid then without pid qs else q ∷ without pid qs

abbrev pub without_all : List ℕ → List ℕ → List ℕ
without_all [] qs = qs
without_all (pid ∷ pids) qs = without_all pids (without pid qs)

join_from-live :
    (pid j : ℕ) (pids : List (Option ℕ))
    → live_pids (join_from pid j pids).0 ≡ without pid (live_pids pids)
join_from-live pid j [] = refl
join_from-live pid j (none ∷ pids) = join_from-live pid (j + 1) pids
join_from-live pid j (some q ∷ pids) = ground (arith, join_from-live pid (j + 1) pids)

length-join_from :
    (pid j : ℕ) (pids : List (Option ℕ)) → length (join_from pid j pids).0 ≡ length pids
length-join_from pid j [] = refl
length-join_from pid j (none ∷ pids) = ground (arith, length-join_from pid (j + 1) pids)
length-join_from pid j (some q ∷ pids) = ground (arith, length-join_from pid (j + 1) pids)

join_all-live :
    (pids : List ℕ) (p : Parent)
    → live_pids (join_all pids p).sub_process ≡ without_all pids (live_pids p.sub_process)
join_all-live [] p = refl
join_all-live (pid ∷ pids) p =
    join_all-live pids (join pid p) ∙ ap (without_all pids) (join_from-live pid 0 p.sub_process)

length-join_all : (pids : List ℕ) (p : Parent) → process_number (join_all pids p) ≡ process_number p
length-join_all [] p = refl
length-join_all (pid ∷ pids) p =
    length-join_all pids (join pid p) ∙ length-join_from pid 0 p.sub_process

abbrev pub is_empty : List ℕ → Bool
is_empty [] = true
is_empty (q ∷ qs) = false

all_gone-live : (pids : List (Option ℕ)) → all_gone pids ≡ is_empty (live_pids pids)
all_gone-live [] = refl
all_gone-live (none ∷ pids) = all_gone-live pids
all_gone-live (some q ∷ pids) = refl

-- On SIGCHLD the parent strikes exactly the children that `waitpid` names from its table, which
-- stays as long as it is, and it stops exactly where no child is left.
pub handle_signal-sigchld :
    (pids : List ℕ) (p : Parent)
    → let q = handle_signal (sigchld pids) p in
      (live_pids q.sub_process ≡ without_all pids (live_pids p.sub_process))
      × (process_number q ≡ process_number p)
      × (q.stop ≡ is_empty (without_all pids (live_pids p.sub_process)))
unfolding handle_signal
handle_signal-sigchld pids p = (
  join_all-live pids p,
  length-join_all pids p,
  all_gone-live (join_all pids p).sub_process ∙ ap is_empty (join_all-live pids p),
)

-- Connections that come one after the other.
unfoldable pub new_conns : ℕ → Parent → Outcome Parent
unfolding process_new_conn_in_parent
new_conns zero p = done p
new_conns (suc m) p = elim (process_new_conn_in_parent p) [
  | done q ↦ new_conns m q
  | stopped e ↦ stopped e
]

-- The children that follow in the round.
abbrev pub in_turn : ℕ → ℕ → ℕ → List ℕ
in_turn n i zero = []
in_turn n i (suc m) = i ∷ in_turn n ((i + 1) % n) m

-- Every child of the table is there.
abbrev pub all_live : List (Option ℕ) → Bool
all_live [] = true
all_live (none ∷ pids) = false
all_live (some q ∷ pids) = all_live pids

pid_at-all_live :
    (i : ℕ) (pids : List (Option ℕ))
    → all_live pids ≡ true
    → i < length pids
    → (pid : ℕ) × (pid_at i pids ≡ some pid)
pid_at-all_live i [] h l = absurd (omega arith)
pid_at-all_live i (none ∷ pids) h l = absurd (ground arith)
pid_at-all_live zero (some q ∷ pids) h l = (q, refl)
pid_at-all_live (suc i) (some q ∷ pids) h l = pid_at-all_live i pids h (omega arith)

new_conns-in_turn :
    (m : ℕ) (p : Parent)
    → all_live p.sub_process ≡ true
    → p.sub_process_counter < process_number p
    → (q : Parent) × (new_conns m p ≡ done q)
      × (q.notified ≡ p.notified ++ in_turn (process_number p) p.sub_process_counter m)
unfolding new_conns
new_conns-in_turn zero p h l = (p, refl, sym (append-nil p.notified))
new_conns-in_turn (suc m) p h l =
    let n = process_number p in
    let i = p.sub_process_counter in
    let first = behind-zero n i l in
    let (pid, e) = pid_at-all_live i p.sub_process h l in
    let e' : pid_at (behind n i 0) p.sub_process ≡ some pid = rw first e in
    let told =
      process_new_conn_in_parent-live p 0 pid l (omega arith) (λ j b. absurd (omega arith)) e' in
    let p' = record p {
      sub_process_counter = behind n i 1;
      notified = p.notified ++ behind n i 0 ∷ [];
    } in
    let (q, r, s) = new_conns-in_turn m p' h (mod-lt (i + 1) (omega arith)) in
    (
      q,
      rw (new_conns, told) r,
      s
          ∙ append_assoc p.notified (behind n i 0 ∷ []) (in_turn n (behind n i 1) m)
          ∙ ap (λ x. p.notified ++ x ∷ in_turn n (behind n i 1) m) first,
    )

Fork-cases : (f : Fork) → (f ≡ fork_failed) ⊎ ((f ≡ in_child) ⊎ ((pid : ℕ) × (f ≡ in_parent pid)))
Fork-cases fork_failed = inl refl
Fork-cases in_child = inr (inl refl)
Fork-cases (in_parent pid) = inr (inr (pid, refl))

fork_children-all_live :
    (fork : ℕ → Fork) (i n : ℕ) (pids : List (Option ℕ))
    → fork_children fork i n ≡ some (none, pids)
    → (all_live pids ≡ true) × (length pids ≡ n)
fork_children-all_live fork i zero pids e = (ground arith, ground arith)
fork_children-all_live fork i (suc n) pids e = elim (Fork-cases (fork i)) [
  | inl d ↦ absurd (ground arith)
  | inr (inl d) ↦ absurd (ground arith)
  | inr (inr (pid, d)) ↦ elim (Option-cases (fork_children fork (i + 1) n)) [
    | inl c ↦ absurd (ground arith)
    | inr ((idx, rest), c) ↦
        let r : idx ≡ none = ground arith in
        let (a, b) = fork_children-all_live fork (i + 1) n rest (ground arith) in
        (ground arith, ground arith)
  ]
]

-- The parent behind the constructor.
abbrev pub new_parent : List (Option ℕ) → Parent
new_parent pids = record {
  sub_process = pids;
  stop = false;
  sub_process_counter = 0;
  notified = [];
  joined = [];
  killed = [];
}

-- The pool that the constructor makes deals its connections out in turn: while no child is gone, any
-- number of connections goes to the children 0, 1 and so on, up to the last and round again.
pub process_pool-in_turn :
    (fork : ℕ → Fork) (n m : ℕ) (pids : List (Option ℕ))
    → process_pool fork n ≡ some (none, pids)
    → (q : Parent) × (new_conns m (new_parent pids) ≡ done q) × (q.notified ≡ in_turn n 0 m)
unfolding process_pool
process_pool-in_turn fork n m pids e =
    let (h, s) = fork_children-all_live fork 0 n pids (ground arith) in
    let positive : 0 < n = ground arith in
    let (q, r, t) = new_conns-in_turn m (new_parent pids) h (omega arith) in
    (q, r, t ∙ ap (λ k. in_turn k 0 m) s)
