-- ===== src/Server/Reaping.antt =====
-- http_main.c: `sig_chld_handler`, which waits for one child for each signal that is delivered. The
-- kernel keeps at most one SIGCHLD pending, so one call of the handler may stand for several ends.
use twebs.Prelude.{
  ℕ, zero, suc, ◌+◌, ◌-◌, ◌≤◌, ◌<◌, ◌≡◌, refl, Bool, true, false, ℤ, pos, negsuc, arith,
  if◌then◌else◌,
}
use twebs.Outcome.{done, stopped}
use twebs.Wrap.{Called, call_process, waitpid}

-- The server's children: those that run, those that have ended and were not waited for, and whether
-- a SIGCHLD is pending. `alive` says that the server itself still runs.
pub record Processes : Type 0 where
  pub running : ℕ
  pub zombies : ℕ
  pub pending : Bool
  pub alive : Bool

abbrev pub no_children : Processes
no_children = record { running = 0; zombies = 0; pending = false; alive = true }

-- What `waitpid` with WNOHANG returns, by POSIX, and the children that are left.
pub data Waits (p : Processes) : ℤ → Processes → Type 0 where
  reaps :
      {q : Processes} (pid : ℕ)
      → p.zombies ≡ q.zombies + 1
      → q ≡ record p { zombies = q.zombies }
      → Waits p (pos (suc pid)) q
  none_ended : p.zombies ≡ 0 → 0 < p.running → Waits p (pos 0) p
  no_child : p.zombies ≡ 0 → p.running ≡ 0 → Waits p (negsuc 0) p

-- `waitpid`, as the children that are left behind a call, is one that POSIX allows.
abbrev pub IsWait : (Processes → ℤ × Processes) → Type 0
IsWait wait = (p : Processes) → Waits p (wait p).0 (wait p).1

-- `sig_chld_handler`: `Waitpid(-1, NULL, WNOHANG)`, on what `waitpid` does.
unfoldable pub sig_chld_handler : {P : Type 0} → (P → ℤ × P) → P → Called × P
unfolding call_process
sig_chld_handler wait p = let (rc, q) = wait p in (call_process waitpid rc, q)

-- Whether the process goes on behind a wrapper.
abbrev pub goes_on : Called → Bool
goes_on (done _, _) = true
goes_on (stopped _, _) = false

-- A step: `main` forks a child, a child ends, or the pending signal is handled.
pub data Step (p q : Processes) : Type 0 where
  forks : p.alive ≡ true → q ≡ record p { running = p.running + 1 } → Step p q
  ends :
      p.running ≡ q.running + 1
      → q ≡ record p { running = q.running; zombies = p.zombies + 1; pending = true }
      → Step p q
  handles :
      (wait : Processes → ℤ × Processes)
      → IsWait wait
      → p.alive ≡ true
      → p.pending ≡ true
      → q ≡ record (sig_chld_handler wait p).1 {
        pending = false;
        alive = goes_on (sig_chld_handler wait p).0;
      }
      → Step p q

pub data Reach (p : Processes) : Processes → Type 0 where
  here : Reach p p
  next : {q r : Processes} → Reach p q → Step q r → Reach p r

-- A pending signal has a child to wait for.
pub record IsSound (p : Processes) : Type 0 where
  pub lives : p.alive ≡ true
  pub owed : p.pending ≡ true → 0 < p.zombies

-- One child is waited for.
Waits-one :
    (p r : Processes) (rc : ℤ)
    → IsSound p
    → p.pending ≡ true
    → Waits p rc r
    → (goes_on (call_process waitpid rc) ≡ true) × (r.zombies + 1 ≡ p.zombies)
unfolding call_process
Waits-one p r _ s e (reaps pid z f) = ground arith
Waits-one p r _ s e (none_ended z l) = absurd (omega (arith, s.owed e))
Waits-one p r _ s e (no_child z l) = absurd (omega (arith, s.owed e))

handler-one :
    (wait : Processes → ℤ × Processes) (p : Processes)
    → IsWait wait
    → IsSound p
    → p.pending ≡ true
    → let r = sig_chld_handler wait p in (goes_on r.0 ≡ true) × (r.1.zombies + 1 ≡ p.zombies)
unfolding sig_chld_handler
handler-one wait p w s e = Waits-one p (wait p).1 (wait p).0 s e (w p)

-- The ended children for which no signal is pending.
abbrev pub forgotten : Processes → ℕ
forgotten p = p.zombies - (if p.pending then 1 else 0)

-- How many children end, and how many signals are handled, in a step and in a course of events.
abbrev ended_in : {p q : Processes} → Step p q → ℕ
ended_in (forks a e) = 0
ended_in (ends f e) = 1
ended_in (handles wait w a e f) = 0

abbrev handled_in : {p q : Processes} → Step p q → ℕ
handled_in (forks a e) = 0
handled_in (ends f e) = 0
handled_in (handles wait w a e f) = 1

abbrev pub ended : {p q : Processes} → Reach p q → ℕ
ended here = 0
ended (next r s) = ended r + ended_in s

abbrev pub handled : {p q : Processes} → Reach p q → ℕ
handled here = 0
handled (next r s) = handled r + handled_in s

Step-IsSound :
    {p q : Processes}
    → IsSound p
    → (s : Step p q)
    → IsSound q × (p.zombies + ended_in s ≡ q.zombies + handled_in s) × (forgotten p ≤ forgotten q)
Step-IsSound s (forks a e) = ground (arith, s.owed)
Step-IsSound s (ends f e) = ground (arith, s.owed)
Step-IsSound {p} {q} s (handles wait w a e f) =
    let (g, z) = handler-one wait p w s e in ground arith

Reach-IsSound :
    {p q : Processes}
    → IsSound p
    → (r : Reach p q)
    → IsSound q × (p.zombies + ended r ≡ q.zombies + handled r) × (forgotten p ≤ forgotten q)
Reach-IsSound s here = (s, omega arith, omega arith)
Reach-IsSound s (next r st) =
    let (v, n, l) = Reach-IsSound s r in
    let (v', n', l') = Step-IsSound v st in (v', omega arith, omega arith)

-- Through any children that `main` forks, that end, and whose signals are handled, in any order, the
-- handler never ends the server, and it waits for one child for each signal that it handles: the
-- children that have ended are those that it waited for and the zombies. The number of zombies
-- beyond the one that a pending signal stands for never falls.
pub Reach-forgotten :
    {p q : Processes}
    → Reach no_children p
    → (t : Reach p q)
    → (q.alive ≡ true) × (p.zombies + ended t ≡ q.zombies + handled t) × (forgotten p ≤ forgotten q)
Reach-forgotten r t =
    let (s, n, l) = Reach-IsSound (record { lives = refl; owed = λ e. cc e }) r in
    let (v, n', l') = Reach-IsSound s t in (v.lives, n', l')

-- A `waitpid` that takes any child.
abbrev wait_from : ℕ → ℕ → Processes → ℤ × Processes
wait_from (suc z) r p = (pos 1, record p { zombies = z })
wait_from zero (suc r) p = (pos 0, p)
wait_from zero zero p = (negsuc 0, p)

abbrev wait_any : Processes → ℤ × Processes
wait_any p = wait_from p.zombies p.running p

wait_from-Waits :
    (z r : ℕ) (p : Processes)
    → p.zombies ≡ z
    → p.running ≡ r
    → let w = wait_from z r p in Waits p w.0 w.1
wait_from-Waits (suc z) r p e f = reaps 0 (omega arith) refl
wait_from-Waits zero (suc r) p e f = none_ended e (omega arith)
wait_from-Waits zero zero p e f = no_child e f

wait_any-IsWait : IsWait wait_any
wait_any-IsWait p = wait_from-Waits p.zombies p.running p refl refl

abbrev pub left_with : ℕ → Processes
left_with n = record { running = 0; zombies = n; pending = false; alive = true }

-- Two children end before the signal is handled: one of them is left.
pair_ends : (n : ℕ) {p : Processes} → Reach p (left_with n) → Reach p (left_with (suc n))
unfolding sig_chld_handler
pair_ends n r =
    let one : Processes = record { running = 1; zombies = n; pending = false; alive = true } in
    let two : Processes = record { running = 2; zombies = n; pending = false; alive = true } in
    let half : Processes = record { running = 1; zombies = suc n; pending = true; alive = true } in
    let both : Processes = record {
      running = 0;
      zombies = suc (suc n);
      pending = true;
      alive = true;
    } in
    let born : Step (left_with n) one = forks refl refl in
    let born_too : Step one two = forks refl refl in
    let ended : Step two half = ends refl (ground arith) in
    let ended_too : Step half both = ends refl (ground arith) in
    let handled : Step both (left_with (suc n)) = handles wait_any wait_any-IsWait refl refl refl in
    next (next (next (next (next r born) born_too) ended) ended_too) handled

-- For every number there is a course of events behind which so many children have ended, none runs
-- and no signal is pending, so that the server keeps them all as zombies.
pub Reach-left_with : (n : ℕ) → Reach no_children (left_with n)
Reach-left_with zero = here
Reach-left_with (suc n) = pair_ends n (Reach-left_with n)
