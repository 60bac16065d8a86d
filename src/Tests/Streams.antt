-- ===== src/Tests/Streams.antt =====
-- The Rio package on connections that deliver in pieces and are interrupted.
use twebs.Prelude.{ℕ, ◌≤◌, ◌≡◌, [], codes, some, none, arith, true}
use twebs.Outcome.{done}
use twebs.Kernel.{Kernel}
use twebs.Kernel.Script.{Script, script, script_ghost, script-IsReliable}
use twebs.Rio.{rio_readn, rio_writen, rio_readnb, rio_readlineb, line}
use twebs.Retry
use twebs.Retry.{read_line}
use twebs.Retry.Lines.{to_come, read_line_lem}
use twebs.Rio.Unbuffered.{rio_readn_lem, rio_writen_lem}
use twebs.Rio.Buffered.{stream, Follows}
use twebs.Rio.Blocks.{rio_readnb_lem}
use twebs.Rio.Lines.{rio_readlineb_lem}
use twebs.Tests.{conn, fresh, fresh-IsValid}

-- "one\ntwo"
abbrev two_lines : Script
two_lines = conn b'o' (codes "ne\nt") (codes "wo")

rio_readn_example :
    ((rio_readn script 30 6 two_lines).0 ≡ done (some (codes "one\nt ")))
    × (script_ghost.pending (rio_readn script 30 6 two_lines).1 ≡ codes "wo")
    × (script_ghost.sent (rio_readn script 30 6 two_lines).1 ≡ [])
rio_readn_example = rio_readn_lem script-IsReliable 30 6 two_lines (omega arith)

rio_writen_example :
    ((rio_writen script 30 (codes "abcdef") two_lines).0 ≡ done true)
    × (script_ghost.sent (rio_writen script 30 (codes "abcdef") two_lines).1 ≡ codes "abcdef")
    × (script_ghost.pending (rio_writen script 30 (codes "abcdef") two_lines).1 ≡ codes "one\nt wo")
    × (script_ghost.patience (rio_writen script 30 (codes "abcdef") two_lines).1 ≤ 2)
rio_writen_example = rio_writen_lem script-IsReliable 30 (codes "abcdef") two_lines (omega arith)

rio_readnb_example :
    ((rio_readnb script 30 (fresh two_lines) 6).0 ≡ done (some (codes "one\nt ")))
    × (stream script_ghost (rio_readnb script 30 (fresh two_lines) 6).1 ≡ codes "wo")
    × Follows script_ghost (fresh two_lines) (rio_readnb script 30 (fresh two_lines) 6).1
rio_readnb_example =
    rio_readnb_lem script-IsReliable 30 6 (fresh two_lines) (fresh-IsValid two_lines) (omega arith)
      (omega arith)

rio_readlineb_example :
    ((rio_readlineb script 30 (fresh two_lines) 10).0 ≡ done (line 4 (codes "one\n")))
    × (stream script_ghost (rio_readlineb script 30 (fresh two_lines) 10).1 ≡ codes "t wo")
    × Follows script_ghost (fresh two_lines) (rio_readlineb script 30 (fresh two_lines) 10).1
rio_readlineb_example =
    rio_readlineb_lem script-IsReliable 30 10 (fresh two_lines) (fresh-IsValid two_lines)
      (ground arith) (omega arith)

abbrev silence : Script
silence = record { events = []; quotas = []; out = [] }

-- A kernel on which every call fails for good.
abbrev broken : Kernel ℕ
broken = record { read = λ n s. (none, s); write = λ bs s. (none, s); errno = λ s. 5 }

-- The connection of the last call of `ReadLine`, whose static buffer still holds "x\ny".
read_line_example :
    ((read_line script 30 10 (codes "x\ny") two_lines).0 ≡ done (Retry.line 2 (codes "x\n")))
    × (to_come script_ghost (read_line script 30 10 (codes "x\ny") two_lines).1
        ≡ codes "yone\nt wo")
    × (script_ghost.sent (read_line script 30 10 (codes "x\ny") two_lines).1.1 ≡ [])
read_line_example = read_line_lem script-IsReliable 30 10 (codes "x\ny") two_lines (omega arith)
