-- ===== src/Kernel.antt =====
-- The system calls on one descriptor that wrap.c loops over: `read`, `write` and `errno`. They are
-- no code of the repository, so they are a parameter, `Kernel`; `IsReliable` says what POSIX
-- promises of them on a connection that does not break. `Kernel.Script` is a kernel that runs.
pub mod Script
use twebs.Prelude.{
  ℕ, ◌≤◌, ◌<◌, ◌≡◌, refl, ◌⊎◌, inl, inr, Option, none, some, Bytes, [], ◌++◌, length, take,
}

-- `errno` for a call that a signal handler interrupted
abbrev pub eintr : ℕ
eintr = 4

-- `S` is the state of the descriptor. `none` stands for the result -1, `some bs` for the bytes
-- read (none of them at the end of the file), `some n` for the number of bytes written.
pub record Kernel (S : Type 0) : Type 0 where
  pub read : ℕ → S → Option Bytes × S
  pub write : Bytes → S → Option ℕ × S
  pub errno : S → ℕ

-- The bytes still to come, the bytes gone out, and how many more calls signals will interrupt.
pub record Ghost (S : Type 0) : Type 0 where
  pub pending : S → Bytes
  pub sent : S → Bytes
  pub patience : S → ℕ

pub record IsReliable {S : Type 0} (k : Kernel S) (g : Ghost S) : Type 0 where
  pub read_some :
      (n : ℕ) (s : S) (bs : Bytes) (s' : S)
      → k.read n s ≡ (some bs, s')
      → (length bs ≤ n)
        × (g.pending s ≡ bs ++ g.pending s')
        × (g.sent s' ≡ g.sent s)
        × (g.patience s' ≤ g.patience s)
  pub read_eof : (n : ℕ) (s s' : S) → 0 < n → k.read n s ≡ (some [], s') → g.pending s ≡ []
  pub read_none :
      (n : ℕ) (s s' : S)
      → k.read n s ≡ (none, s')
      → (k.errno s' ≡ eintr)
        × (g.pending s' ≡ g.pending s)
        × (g.sent s' ≡ g.sent s)
        × (g.patience s' < g.patience s)
  pub write_some :
      (bs : Bytes) (s : S) (n : ℕ) (s' : S)
      → k.write bs s ≡ (some n, s')
      → (n ≤ length bs)
        × (g.sent s' ≡ g.sent s ++ take n bs)
        × (g.pending s' ≡ g.pending s)
        × (g.patience s' ≤ g.patience s)
  pub write_pos :
      (bs : Bytes) (s : S) (n : ℕ) (s' : S) → 0 < length bs → k.write bs s ≡ (some n, s') → 0 < n
  pub write_none :
      (bs : Bytes) (s s' : S)
      → k.write bs s ≡ (none, s')
      → (k.errno s' ≡ eintr)
        × (g.sent s' ≡ g.sent s)
        × (g.pending s' ≡ g.pending s)
        × (g.patience s' < g.patience s)

-- What a call can have answered.
pub reply_cases {ℓ} :
    {A : Type ℓ} {S : Type 0} (p : Option A × S)
    → ((s : S) × (p ≡ (none, s))) ⊎ ((a : A) × (s : S) × (p ≡ (some a, s)))
reply_cases (none, s) = inl (s, refl)
reply_cases (some a, s) = inr (a, s, refl)
