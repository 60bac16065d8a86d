-- ===== src/Retry.antt =====
-- ss/wrap.cpp: system calls that are tried again, and the functions that read and write until a
-- whole block or a line is there.
pub mod Lines
pub mod Calls
use twebs.Prelude.{
  ℕ, zero, suc, ◌+◌, ◌-◌, Bool, true, false, ◌||◌, Option, none, some, Bytes, [], ◌∷◌, ◌++◌, length,
  drop, ◌==◌,
}
use twebs.Outcome.{Outcome, done, stopped, running, exited}
use twebs.Kernel.{Kernel, eintr}

abbrev pub eagain : ℕ
eagain = 11

abbrev pub econnaborted : ℕ
econnaborted = 103

-- The label `again`: the call is repeated while `errno` is one for which it should be. With fuel for
-- the calls.
unfoldable pub again :
    {A S : Type 0} → (ℕ → Bool) → (S → ℕ) → (S → Option A × S) → ℕ → S → Outcome (Option A) × S
again retried errno call zero s = (running, s)
again retried errno call (suc f) s =
    let (n, s') = call s in
    elim n [
      | some a ↦ (done (some a), s')
      | none ↦ elim (retried (errno s')) [
        | true ↦ again retried errno call f s'
        | false ↦ (done none, s')
      ]
    ]

-- Of `Recv` and `Send`, of `Read` and `Write`, and of `Accept`.
abbrev pub again_or_interrupted : ℕ → Bool
again_or_interrupted e = e == eagain || e == eintr

abbrev pub interrupted : ℕ → Bool
interrupted e = e == eintr

abbrev pub aborted_or_interrupted : ℕ → Bool
aborted_or_interrupted e = e == econnaborted || e == eintr

-- `PerrAndExit` behind a call that fails
abbrev pub or_exit : {A S : Type 0} → Outcome (Option A) × S → Outcome A × S
or_exit (done (some a), s) = (done a, s)
or_exit (done none, s) = (exited 1, s)
or_exit (stopped e, s) = (stopped e, s)

unfoldable pub accept : {A S : Type 0} → (S → ℕ) → (S → Option A × S) → ℕ → S → Outcome A × S
unfolding again
accept errno call f s = or_exit (again aborted_or_interrupted errno call f s)

-- What `MyRead` stores, 0, or -1.
pub data CharRead : Type 0 where
  char : ℕ → CharRead
  no_char failed_char : CharRead

-- What `ReadLine` returns and stores.
pub data LineRead : Type 0 where
  line : ℕ → Bytes → LineRead
  failed : LineRead

module _ {S : Type 0} (k : Kernel S) where
  unfoldable pub recv : ℕ → ℕ → S → Outcome (Option Bytes) × S
  unfolding again
  recv f n s = again again_or_interrupted k.errno (k.read n) f s

  unfoldable pub send : ℕ → Bytes → S → Outcome (Option ℕ) × S
  unfolding again
  send f bs s = again again_or_interrupted k.errno (k.write bs) f s

  unfoldable pub read : ℕ → ℕ → S → Outcome (Option Bytes) × S
  unfolding again
  read f n s = again interrupted k.errno (k.read n) f s

  unfoldable pub write : ℕ → Bytes → S → Outcome (Option ℕ) × S
  unfolding again
  write f bs s = again interrupted k.errno (k.write bs) f s

  -- The loop of `ReadN`: fuel, `nleft`, and what is stored already.
  unfoldable pub read_n : ℕ → ℕ → Bytes → S → Outcome (Option Bytes) × S
  read_n zero nleft acc s = (running, s)
  read_n (suc f) zero acc s = (done (some acc), s)
  read_n (suc f) (suc m) acc s =
      let (nread, s') = k.read (suc m) s in
      elim nread [
        | none ↦ elim (k.errno s' == eintr) [
          | true ↦ read_n f (suc m) acc s'
          | false ↦ (done none, s')
        ]
        | some bs ↦ elim (length bs == 0) [
          | true ↦ (done (some acc), s')
          | false ↦ read_n f (suc m - length bs) (acc ++ bs) s'
        ]
      ]

  -- The loop of `WriteN`, on the bytes that are left: whether it returns `n`.
  unfoldable pub write_n : ℕ → Bytes → S → Outcome Bool × S
  write_n zero bs s = (running, s)
  write_n (suc f) [] s = (done true, s)
  write_n (suc f) (b ∷ bs) s =
      let (nwritten, s') = k.write (b ∷ bs) s in
      elim nwritten [
        | none ↦ elim (k.errno s' == eintr) [
          | true ↦ write_n f (b ∷ bs) s'
          | false ↦ (done false, s')
        ]
        | some n ↦ elim (n == 0) [
          | true ↦ (done false, s')
          | false ↦ write_n f (drop n (b ∷ bs)) s'
        ]
      ]

  -- `MyRead`, with fuel for its calls of `read`. The list is what its static buffer still holds.
  unfoldable pub my_read : ℕ → Bytes → S → Outcome CharRead × (Bytes × S)
  my_read zero left s = (running, (left, s))
  my_read (suc f) (c ∷ left) s = (done (char c), (left, s))
  my_read (suc f) [] s =
      let (read_cnt, s') = k.read 100 s in
      elim read_cnt [
        | none ↦ elim (k.errno s' == eintr) [
          | true ↦ my_read f [] s'
          | false ↦ (done failed_char, ([], s'))
        ]
        | some [] ↦ (done no_char, ([], s'))
        | some (c ∷ cs) ↦ (done (char c), (cs, s'))
      ]

  -- The loop of `ReadLine`: the fuel of each `MyRead`, the rounds `max_len - n` that are left, `n`, and
  -- what is stored already.
  unfoldable pub read_line_loop : ℕ → ℕ → ℕ → Bytes → Bytes → S → Outcome LineRead × (Bytes × S)
  unfolding my_read
  read_line_loop f zero n acc left s = (done (line n acc), (left, s))
  read_line_loop f (suc rounds) n acc left s =
      let (rc, (left', s')) = my_read f left s in
      elim rc [
        | stopped e ↦ (stopped e, (left', s'))
        | done failed_char ↦ (done failed, (left', s'))
        | done no_char ↦ (done (line (n - 1) acc), (left', s'))
        | done (char c) ↦ elim (c == b'\n') [
          | true ↦ (done (line n (acc ++ c ∷ [])), (left', s'))
          | false ↦ read_line_loop f rounds (n + 1) (acc ++ c ∷ []) left' s'
        ]
      ]

  unfoldable pub read_line : ℕ → ℕ → Bytes → S → Outcome LineRead × (Bytes × S)
  unfolding read_line_loop
  read_line f max_len left s = read_line_loop f (max_len - 1) 1 [] left s
