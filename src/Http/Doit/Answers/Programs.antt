-- ===== src/Http/Doit/Answers/Programs.antt =====
-- The replies of the table for requests that run a program.
use twebs.Prelude.{
  ℕ, ◌≤◌, ◌≡◌, refl, true, false, ◌&&◌, [], ◌∷◌, take, drop, codes, ℤ, pos, negsuc, arith,
  Bool-cases, inl, inr, ltb, ◌-◌, ◌+◌, ◌++◌, replicate, length, leb,
}
use twebs.Outcome.{done, stopped, exited, undefined}
use twebs.CString.{strcaseeq}
use twebs.Http.{Host, Stat, maxline}
use twebs.Http.Uri.{Parsed}
use twebs.Http.Headers.Lines.{announced}
use twebs.Http.Dynamic.{get_greeting, post_greeting}
use twebs.Http.Dynamic.Handlers.{get_program, post_program, posted_program, overflows}
use twebs.Http.Doit.{is_regular}
use twebs.Http.Doit.Contract.{
  Request, Finds, Runs, get_runs, get_no_process, post_runs, post_no_process, post_short,
  post_overflow, logged, IsPost,
}
use twebs.Http.Doit.Answers.Files.{IsServable, HasReply, execve-ends}

module _ (h : Host) (r : Request) (limit : ℕ) (s : IsServable h r limit) (p : Parsed)
    (status : Stat) (finds : Finds h r p status) (dynamic : p.is_static ≡ false)
    (ok : (is_regular status.file_type && status.user_exec) ≡ true) where
  runs : Runs h r p status s.first s.ls s.body
  runs = record { finds = finds; dynamic = dynamic; runnable = ok; headed = s.headed }

  pub reply_get : strcaseeq r.method (codes "POST") ≡ false → HasReply h r limit
  reply_get get = elim (Bool-cases h.can_fork) [
    | inl can ↦ (
      record {
        outcome = done tt;
        sends = get_greeting;
        leaves = s.body;
        logs = logged h s.ls;
        spawns = get_program h p.filename p.cgi_args ∷ [];
      },
      get_runs runs get can,
      omega arith,
      λ q. cc q,
    )
    | inr cannot ↦ (
      record {
        outcome = exited 0;
        sends = get_greeting;
        leaves = s.body;
        logs = logged h s.ls;
        spawns = [];
      },
      get_no_process runs get cannot,
      omega arith,
      λ q. cc q,
    )
  ]

  reply_overflow :
      IsPost r → h.can_fork ≡ true → overflows (announced s.ls (pos 0)) ≡ true → HasReply h r limit
  reply_overflow post can over = (
    record {
      outcome = stopped (posted_program h p.filename (announced s.ls (pos 0)) h.junk_pipe);
      sends = post_greeting;
      leaves = drop (maxline + 1) s.body;
      logs = logged h s.ls;
      spawns = undefined ∷ [];
    },
    post_overflow runs post can over,
    omega arith,
    execve-ends h _,
  )

  reply_posted :
      (n : ℕ)
      → IsPost r
      → h.can_fork ≡ true
      → announced s.ls (pos 0) ≡ pos n
      → n ≤ maxline
      → HasReply h r limit
  reply_posted n post can says fits = elim (Bool-cases (leb n (length s.body))) [
    | inl enough ↦ (
      record {
        outcome = stopped (post_program h p.filename n (take n s.body));
        sends = post_greeting;
        leaves = drop n s.body;
        logs = logged h s.ls;
        spawns = [];
      },
      post_runs runs post can says fits (ground arith),
      omega arith,
      execve-ends h _,
    )
    | inr short ↦ (
      record {
        outcome = stopped (post_program h p.filename n (s.body ++ replicate (n - length s.body) 0));
        sends = post_greeting;
        leaves = [];
        logs = logged h s.ls;
        spawns = [];
      },
      post_short runs post can says fits (ground arith),
      omega arith,
      execve-ends h _,
    )
  ]

  reply_announced :
      (z : ℤ) → announced s.ls (pos 0) ≡ z → IsPost r → h.can_fork ≡ true → HasReply h r limit
  reply_announced (negsuc n) e post can = reply_overflow post can (rw e refl)
  reply_announced (pos n) e post can = elim (Bool-cases (ltb maxline n)) [
    | inl y ↦ reply_overflow post can (rw e y)
    | inr z ↦ reply_posted n post can e (ground arith)
  ]

  pub reply_post : IsPost r → HasReply h r limit
  reply_post post = elim (Bool-cases h.can_fork) [
    | inl can ↦ reply_announced (announced s.ls (pos 0)) refl post can
    | inr cannot ↦ (
      record { outcome = exited 0; sends = []; leaves = s.body; logs = logged h s.ls; spawns = [] },
      post_no_process runs post cannot,
      omega arith,
      λ q. cc q,
    )
  ]
