-- ===== src/Rio.antt =====
-- wrap.c, the Rio package: loops round `read` and `write` that survive short counts and
-- interruptions, and a buffer in front of `read` for reading lines.
-- Every function returns the new state beside its result: `none` is the result -1, and the bytes
-- stand for what the function stores at `usrbuf`. Each loop has fuel.
pub mod Unbuffered
pub mod Buffered
pub mod Blocks
pub mod Lines
use twebs.Prelude.{
  ℕ, zero, suc, ◌+◌, ◌-◌, Bool, true, false, Option, none, some, Bytes, [], ◌∷◌, ◌++◌, length, take,
  drop, replicate, min, ◌==◌, ltb, leb, if◌then◌else◌, ℤ, pos, negsuc, pos_part,
}
use twebs.Outcome.{Outcome, done, stopped, running}
use twebs.Kernel.{Kernel, eintr}

-- RIO_BUFSIZE
abbrev pub rio_bufsize : ℕ
rio_bufsize = 8192

-- `rio_t`. `rio_fd` is the descriptor with the state that the kernel keeps for it, and
-- `rio_bufptr` the index into `rio_buf`.
pub record RioT (S : Type 0) : Type 0 where
  pub rio_fd : S
  pub rio_cnt : ℤ
  pub rio_bufptr : ℕ
  pub rio_buf : Bytes

-- What `rio_readlineb` returns: the count with the line that it stored, or 0 with the buffer
-- untouched, or -1.
pub data LineRead : Type 0 where
  line : ℕ → Bytes → LineRead
  end_of_file : LineRead
  failed : LineRead

module _ {S : Type 0} (k : Kernel S) where
  -- The loop of `rio_readn`: fuel, `nleft`, and what is stored already.
  unfoldable pub readn_loop : ℕ → ℕ → Bytes → S → Outcome (Option Bytes) × S
  readn_loop zero nleft acc s = (running, s)
  readn_loop (suc f) zero acc s = (done (some acc), s)
  readn_loop (suc f) (suc m) acc s =
      let (nread, s') = k.read (suc m) s in
      elim nread [
        | none ↦ elim (k.errno s' == eintr) [
          | true ↦ readn_loop f (suc m) acc s'
          | false ↦ (done none, s')
        ]
        | some bs ↦ elim (length bs == 0) [
          | true ↦ (done (some acc), s')
          | false ↦ readn_loop f (suc m - length bs) (acc ++ bs) s'
        ]
      ]

  unfoldable pub rio_readn : ℕ → ℕ → S → Outcome (Option Bytes) × S
  unfolding readn_loop
  rio_readn f n s = readn_loop f n [] s

  -- The loop of `rio_writen`, on the bytes that are left; the result is whether it returns `n`.
  unfoldable pub rio_writen : ℕ → Bytes → S → Outcome Bool × S
  rio_writen zero bs s = (running, s)
  rio_writen (suc f) [] s = (done true, s)
  rio_writen (suc f) (b ∷ bs) s =
      let (nwritten, s') = k.write (b ∷ bs) s in
      elim nwritten [
        | none ↦ elim (k.errno s' == eintr) [
          | true ↦ rio_writen f (b ∷ bs) s'
          | false ↦ (done false, s')
        ]
        | some n ↦ elim (n == 0) [
          | true ↦ elim (k.errno s' == eintr) [
            | true ↦ rio_writen f (b ∷ bs) s'
            | false ↦ (done false, s')
          ]
          | false ↦ rio_writen f (drop n (b ∷ bs)) s'
        ]
      ]

  -- `rio_readinitb`; the array keeps its bytes.
  unfoldable pub rio_readinitb : RioT S → S → RioT S
  rio_readinitb rp fd = record rp { rio_fd = fd; rio_cnt = pos 0; rio_bufptr = 0 }

  -- The copy at the end of `rio_read`.
  unfoldable pub copy_out : RioT S → ℕ → ℕ → Option Bytes × RioT S
  copy_out rp c n =
      let cnt = if ltb c n then c else n in
      (
        some (take cnt (drop rp.rio_bufptr rp.rio_buf)),
        record rp { rio_bufptr = rp.rio_bufptr + cnt; rio_cnt = pos (c - cnt) },
      )

  -- `rio_read`: the refill loop takes the fuel.
  unfoldable pub rio_read : ℕ → RioT S → ℕ → Outcome (Option Bytes) × RioT S
  unfolding copy_out
  rio_read zero rp n = (running, rp)
  rio_read (suc f) rp n = elim rp.rio_cnt [
    | pos (suc c) ↦ let (r, rp') = copy_out rp (suc c) n in (done r, rp')
    | _ ↦
        let (got, s') = k.read rio_bufsize rp.rio_fd in
        elim got [
          | none ↦ elim (k.errno s' == eintr) [
            | true ↦ rio_read f (record rp { rio_fd = s'; rio_cnt = negsuc 0 }) n
            | false ↦ (done none, record rp { rio_fd = s'; rio_cnt = negsuc 0 })
          ]
          | some bs ↦ elim (length bs == 0) [
            | true ↦ (done (some []), record rp { rio_fd = s'; rio_cnt = pos 0 })
            | false ↦
                rio_read f
                  (record {
                    rio_fd = s';
                    rio_cnt = pos (length bs);
                    rio_bufptr = 0;
                    rio_buf = bs ++ drop (length bs) rp.rio_buf;
                  })
                  n
          ]
        ]
  ]

  -- The loop of `rio_readnb`. The outer fuel counts its rounds, and each call of `rio_read` is
  -- given `g`.
  unfoldable pub readnb_loop : ℕ → ℕ → ℕ → Bytes → RioT S → Outcome (Option Bytes) × RioT S
  unfolding rio_read
  readnb_loop zero g nleft acc rp = (running, rp)
  readnb_loop (suc f) g zero acc rp = (done (some acc), rp)
  readnb_loop (suc f) g (suc m) acc rp =
      let (nread, rp') = rio_read g rp (suc m) in
      elim nread [
        | stopped e ↦ (stopped e, rp')
        | done none ↦ elim (k.errno rp'.rio_fd == eintr) [
          | true ↦ readnb_loop f g (suc m) acc rp'
          | false ↦ (done none, rp')
        ]
        | done (some bs) ↦ elim (length bs == 0) [
          | true ↦ (done (some acc), rp')
          | false ↦ readnb_loop f g (suc m - length bs) (acc ++ bs) rp'
        ]
      ]

  unfoldable pub rio_readnb : ℕ → RioT S → ℕ → Outcome (Option Bytes) × RioT S
  unfolding readnb_loop
  rio_readnb f rp n = readnb_loop f f n [] rp

  -- The loop of `rio_readlineb`: the fuel of each `rio_read`, the rounds `maxlen - n` that are
  -- left, the counter `n`, and what is stored already.
  unfoldable pub readlineb_loop : ℕ → ℕ → ℕ → Bytes → RioT S → Outcome LineRead × RioT S
  unfolding rio_read
  readlineb_loop g zero n acc rp = (done (line n acc), rp)
  readlineb_loop g (suc rounds) n acc rp =
      let (rc, rp') = rio_read g rp 1 in
      elim rc [
        | stopped e ↦ (stopped e, rp')
        | done none ↦ (done failed, rp')
        | done (some []) ↦ (done (if n == 1 then end_of_file else line n acc), rp')
        | done (some (c ∷ _)) ↦ elim (c == b'\n') [
          | true ↦ (done (line n (acc ++ c ∷ [])), rp')
          | false ↦ readlineb_loop g rounds (n + 1) (acc ++ c ∷ []) rp'
        ]
      ]

  unfoldable pub rio_readlineb : ℕ → RioT S → ℕ → Outcome LineRead × RioT S
  unfolding readlineb_loop
  rio_readlineb f rp maxlen = readlineb_loop f (maxlen - 1) 1 [] rp
