-- ===== src/Conn/Writing/Sent.antt =====
-- `Write` and `Read`: when they end, and what is sent by then.
use twebs.Prelude.{
  ℕ, zero, suc, ◌+◌, ◌*◌, ◌≤◌, ◌<◌, ◌≡◌, ◌≢◌, Bool, true, false, none, some, Bytes, ◌==◌, leb,
  arith, inl, inr, Bool-cases, Option-cases, if◌then◌else◌,
}
use twebs.Outcome.{Outcome, done}
use twebs.Conn.{Conn, write_idx, Mapping, Socket, eagain, mod_fd, epollout}
use twebs.Conn.Writing.{write_loop, write, finish_write, unmap}

-- What one round of `Write` does, by what `writev` and `errno` say.
module _ {S : Type 0} (k : Socket S) (f total sent : ℕ) (c : Conn) (s : S) where
  pub write_loop-none :
      (s' : S)
      → k.writev c.header_block c.file_block s ≡ (none, s')
      → write_loop k (suc f) total sent c s
        ≡ (done (if k.errno s' == eagain then (true, mod_fd epollout c) else (false, unmap c)), s')
  unfolding write_loop
  write_loop-none s' e = ground arith

  pub write_loop-enough :
      (n : ℕ) (s' : S)
      → k.writev c.header_block c.file_block s ≡ (some n, s')
      → total ≤ 2 * (sent + n)
      → write_loop k (suc f) total sent c s ≡ (done (finish_write c), s')
  unfolding write_loop
  write_loop-enough n s' e l = ground arith

  pub write_loop-more :
      (n : ℕ) (s' : S)
      → k.writev c.header_block c.file_block s ≡ (some n, s')
      → 2 * (sent + n) < total
      → write_loop k (suc f) total sent c s ≡ write_loop k f total (sent + n) c s'
  unfolding write_loop
  write_loop-more n s' e l = ground arith

-- Where `writev` sends, it sends something.
abbrev pub Sends : {S : Type 0} → Socket S → Type 0
Sends {S} k = (bs : Bytes) (m : Mapping) (s : S) (n : ℕ) → (k.writev bs m s).0 ≡ some n → 0 < n

-- How `Write` ends: the response counts as sent, or the socket is full, or it fails.
pub data IsWritten (c : Conn) : Outcome (Bool × Conn) → Type 0 where
  counted_sent : IsWritten c (done (finish_write c))
  blocked : IsWritten c (done (true, mod_fd epollout c))
  failed : IsWritten c (done (false, unmap c))

module _ {S : Type 0} (k : Socket S) (sends : Sends k) (c : Conn) where
  write_error-IsWritten :
      (b : Bool) → IsWritten c (done (if b then (true, mod_fd epollout c) else (false, unmap c)))
  write_error-IsWritten true = blocked
  write_error-IsWritten false = failed

  write_loop-IsWritten :
      (f total sent : ℕ) (s : S)
      → 2 * sent < total
      → total ≤ 2 * sent + f
      → IsWritten c (write_loop k f total sent c s).0
  write_loop-IsWritten zero total sent s l h = absurd (omega arith)
  write_loop-IsWritten (suc f) total sent s l h =
      let s' = (k.writev c.header_block c.file_block s).1 in
      elim (Option-cases (k.writev c.header_block c.file_block s).0) [
        | inl e ↦
            rw (write_loop-none k f total sent c s s' (ground (arith, e)))
              (write_error-IsWritten (k.errno s' == eagain))
        | inr (n, e) ↦
            let p = sends c.header_block c.file_block s n e in
            elim (Bool-cases (leb total (2 * (sent + n)))) [
              | inl y ↦
                  rw (write_loop-enough k f total sent c s n s' (ground (arith, e)) (ground arith))
                    counted_sent
              | inr z ↦
                  rw (write_loop-more k f total sent c s n s' (ground (arith, e)) (ground arith))
                    (write_loop-IsWritten f total (sent + n) s' (ground arith) (omega arith))
            ]
      ]

  -- With a response to send, on a socket that sends at least a byte where it does not fail, `Write`
  -- ends within as many rounds as the header has bytes: the response counts as sent, or the
  -- connection waits for room in the socket, or it is given up.
  pub write-IsWritten :
      (f : ℕ) (s : S) → write_idx c ≢ 0 → write_idx c ≤ f → IsWritten c (write k f c s).0
  unfolding write
  write-IsWritten f s n l =
      let e : (write_idx c == 0) ≡ false = ground arith in
      rw (write, e) (write_loop-IsWritten f (write_idx c) 0 s (omega arith) (omega arith))

-- One `writev` that takes at least half of the header is enough for `Write`: the file is unmapped,
-- and a connection that is kept is opened for the next request, whatever was left unsent.
pub write-half :
    {S : Type 0} (k : Socket S) (f n : ℕ) (c : Conn) (s s' : S)
    → write_idx c ≢ 0
    → k.writev c.header_block c.file_block s ≡ (some n, s')
    → write_idx c ≤ 2 * n
    → write k (suc f) c s ≡ (done (finish_write c), s')
unfolding write
write-half k f n c s s' z e l =
    let w : (write_idx c == 0) ≡ false = ground arith in
    rw (write, w) (write_loop-enough k f (write_idx c) 0 c s n s' e (omega (arith, l)))
