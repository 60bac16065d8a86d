-- ===== src/Retry/Calls.antt =====
-- ss/wrap.cpp: the wrappers that make one system call and end the program where it fails.
use twebs.Prelude.{
  ℕ, zero, suc, ◌≡◌, refl, Bool, true, false, ℤ, pos, negsuc, is_negative, if◌then◌else◌, codes,
  Bytes, [], ◌∷◌, List,
}
use twebs.Outcome.{Outcome, done, exited}

pub data Call : Type 0 where
  socket bind listen connect close : Call

-- The test that a wrapper makes of what the call returned: less than 0, or equal to -1.
abbrev pub is_minus_one : ℤ → Bool
is_minus_one (pos n) = false
is_minus_one (negsuc zero) = true
is_minus_one (negsuc (suc n)) = false

abbrev pub failed : Call → ℤ → Bool
failed socket rc = is_negative rc
failed bind rc = is_negative rc
failed listen rc = is_minus_one rc
failed connect rc = is_negative rc
failed close rc = is_minus_one rc

-- What `perror` is told.
abbrev pub remind : Call → Bytes
remind socket = codes "socket error"
remind bind = codes "bind error"
remind listen = codes "listen error"
remind connect = codes "connect error"
remind close = codes "close error"

-- `Socket`, `Bind`, `Listen`, `Connect` and `Close`, on what the system call returns: the result,
-- and what was reported by `PerrAndExit`.
unfoldable pub call_or_exit : Call → ℤ → Outcome ℤ × List Bytes
call_or_exit c rc = if failed c rc then (exited 1, remind c ∷ []) else (done rc, [])

-- By POSIX each of the calls returns a number that is not negative, or -1: the first is handed on, the
-- second ends the program with status 1 and one report.
pub call_or_exit_lem :
    (c : Call) (n : ℕ)
    → (call_or_exit c (pos n) ≡ (done (pos n), []))
      × (call_or_exit c (negsuc 0) ≡ (exited 1, remind c ∷ []))
unfolding call_or_exit
call_or_exit_lem socket n = (refl, refl)
call_or_exit_lem bind n = (refl, refl)
call_or_exit_lem listen n = (refl, refl)
call_or_exit_lem connect n = (refl, refl)
call_or_exit_lem close n = (refl, refl)
