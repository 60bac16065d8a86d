-- ===== src/Rio/Buffered.antt =====
-- What the buffered functions do on a connection that does not break: `rio_read`, `rio_readnb` and
-- `rio_readlineb` hand out one stream, the unread part of the buffer and then the connection.
use twebs.Prelude.{
  ℕ, zero, suc, ◌+◌, ◌-◌, ◌≤◌, ◌<◌, ◌≡◌, refl, Option, none, some, Bytes, [], ◌∷◌, ◌++◌, length,
  take, drop, arith, inl, inr, append_assoc, ℤ, pos, negsuc, pos_part, length-append, length-drop,
  length-take, drop-drop, ltb, take-length_append, if◌then◌else◌, take-split, take-ne-nil, ◌⊎◌, ◌∙◌,
  sym, ap,
}
use twebs.Outcome.{Outcome, done}
use twebs.Kernel.{Kernel, Ghost, IsReliable, eintr, reply_cases}
use twebs.Rio.{RioT, rio_bufsize, copy_out, rio_read}

-- The bytes that the next reads hand out.
abbrev pub unread : {S : Type 0} → RioT S → Bytes
unread rp = take (pos_part rp.rio_cnt) (drop rp.rio_bufptr rp.rio_buf)

abbrev pub stream : {S : Type 0} → Ghost S → RioT S → Bytes
stream g rp = unread rp ++ g.pending rp.rio_fd

-- The unread bytes lie inside the array.
pub record IsValid {S : Type 0} (rp : RioT S) : Type 0 where
  pub size : length rp.rio_buf ≡ rio_bufsize
  pub inside : rp.rio_bufptr + pos_part rp.rio_cnt ≤ rio_bufsize

-- `rp'` follows `rp` on the same connection, with nothing sent.
pub record Follows {S : Type 0} (g : Ghost S) (rp rp' : RioT S) : Type 0 where
  pub valid : IsValid rp'
  pub silent : g.sent rp'.rio_fd ≡ g.sent rp.rio_fd
  pub patient : g.patience rp'.rio_fd ≤ g.patience rp.rio_fd

-- A call that hands out at most `n` bytes of the stream, and none only at its end.
pub record HandsOut {S : Type 0} (g : Ghost S) (rp : RioT S) (n : ℕ)
    (r : Outcome (Option Bytes) × RioT S) : Type 0 where
  pub bytes : Bytes
  pub result : r.0 ≡ done (some bytes)
  pub short : length bytes ≤ n
  pub splits : stream g rp ≡ bytes ++ stream g r.1
  pub at_end : bytes ≡ [] → stream g rp ≡ []
  pub follows : Follows g rp r.1

module _ {S : Type 0} {k : Kernel S} {g : Ghost S} (law : IsReliable k g) where
  -- Handing out `m` of the unread bytes.
  hand_out :
      (rp : RioT S) (c m n : ℕ)
      → IsValid rp
      → rp.rio_cnt ≡ pos c
      → 0 < m
      → m ≤ c
      → m ≤ n
      → HandsOut g rp n (
        done (some (take m (drop rp.rio_bufptr rp.rio_buf))),
        record rp { rio_bufptr = rp.rio_bufptr + m; rio_cnt = pos (c - m) },
      )
  hand_out rp c m n v e h mc mn =
      let rest = drop rp.rio_bufptr rp.rio_buf in
      let full : m ≤ length rest = ground (arith, length-drop rp.rio_bufptr rp.rio_buf) in
      record {
        bytes = take m rest;
        result = refl;
        short = omega (arith, length-take m rest);
        splits = ground (
          arith,
          take-split m c rest mc,
          drop-drop rp.rio_bufptr m rp.rio_buf,
          append_assoc (take m rest) (take (c - m) (drop m rest)) (g.pending rp.rio_fd),
        );
        at_end = λ z. absurd (take-ne-nil m rest h (omega arith) z);
        follows = ground arith;
      }

  copy_out_lem :
      (rp : RioT S) (c n : ℕ)
      → IsValid rp
      → rp.rio_cnt ≡ pos (suc c)
      → 0 < n
      → HandsOut g rp n (done (copy_out k rp (suc c) n).0, (copy_out k rp (suc c) n).1)
  unfolding copy_out
  copy_out_lem rp c n v e h =
      hand_out rp (suc c) (if ltb (suc c) n then suc c else n) n v e (ground arith) (ground arith)
        (ground arith)

  -- A refill that came before changes neither the stream nor what is sent.
  HandsOut-after :
      {rp : RioT S} (rp' : RioT S) (n : ℕ) {r : Outcome (Option Bytes) × RioT S}
      → stream g rp ≡ stream g rp'
      → g.sent rp'.rio_fd ≡ g.sent rp.rio_fd
      → g.patience rp'.rio_fd ≤ g.patience rp.rio_fd
      → HandsOut g rp' n r
      → HandsOut g rp n r
  HandsOut-after rp' n e s p d = record {
    bytes = d.bytes;
    result = d.result;
    short = d.short;
    splits = e ∙ d.splits;
    at_end = λ z. e ∙ d.at_end z;
    follows = ground arith;
  }

  -- The loop runs while `rio_cnt <= 0`.
  abbrev IsEmpty : RioT S → Type 0
  IsEmpty rp = pos_part rp.rio_cnt ≡ 0

  abbrev interrupted : RioT S → S → RioT S
  interrupted rp s = record rp { rio_fd = s; rio_cnt = negsuc 0 }

  abbrev refilled : RioT S → Bytes → S → RioT S
  refilled rp bs s = record {
    rio_fd = s;
    rio_cnt = pos (length bs);
    rio_bufptr = 0;
    rio_buf = bs ++ drop (length bs) rp.rio_buf;
  }

  refilled-IsValid :
      (rp : RioT S) (bs : Bytes) (s : S)
      → IsValid rp
      → length bs ≤ rio_bufsize
      → IsValid (refilled rp bs s)
  refilled-IsValid rp bs s v h =
      ground
        (arith, length-append bs (drop (length bs) rp.rio_buf), length-drop (length bs) rp.rio_buf)

  rio_read-interrupted :
      (f n : ℕ) (rp : RioT S) (s : S)
      → IsEmpty rp
      → k.read rio_bufsize rp.rio_fd ≡ (none, s)
      → k.errno s ≡ eintr
      → rio_read k (suc f) rp n ≡ rio_read k f (interrupted rp s) n
  unfolding rio_read
  rio_read-interrupted f n rp s z e i = ground arith

  rio_read-refilled :
      (f n b : ℕ) (bs : Bytes) (rp : RioT S) (s : S)
      → IsEmpty rp
      → k.read rio_bufsize rp.rio_fd ≡ (some (b ∷ bs), s)
      → rio_read k (suc f) rp n ≡ rio_read k f (refilled rp (b ∷ bs) s) n
  unfolding rio_read
  rio_read-refilled f n b bs rp s z e = ground arith

  rio_read_end :
      (f n : ℕ) (rp : RioT S) (s : S)
      → IsEmpty rp
      → k.read rio_bufsize rp.rio_fd ≡ (some [], s)
      → rio_read k (suc f) rp n ≡ (done (some []), record rp { rio_fd = s; rio_cnt = pos 0 })
  unfolding rio_read
  rio_read_end f n rp s z e = ground arith

  rio_read_copy :
      (f n c : ℕ) (rp : RioT S)
      → rp.rio_cnt ≡ pos (suc c)
      → rio_read k (suc f) rp n ≡ (done (copy_out k rp (suc c) n).0, (copy_out k rp (suc c) n).1)
  unfolding rio_read
  rio_read_copy f n c rp e = ground arith

  cnt_cases : (c : ℤ) → (pos_part c ≡ 0) ⊎ ((m : ℕ) × (c ≡ pos (suc m)))
  cnt_cases (pos zero) = inl refl
  cnt_cases (pos (suc m)) = inr (m, refl)
  cnt_cases (negsuc m) = inl refl

  stream_empty : (rp : RioT S) → IsEmpty rp → stream g rp ≡ g.pending rp.rio_fd
  stream_empty rp z = ground arith

  stream-refilled :
      (rp : RioT S) (bs : Bytes) (s : S) → stream g (refilled rp bs s) ≡ bs ++ g.pending s
  stream-refilled rp bs s =
      ap (λ t. t ++ g.pending s) (take-length_append bs (drop (length bs) rp.rio_buf))

  rio_read_full :
      (f n c : ℕ) (rp : RioT S)
      → IsValid rp
      → 0 < n
      → 0 < f
      → rp.rio_cnt ≡ pos (suc c)
      → HandsOut g rp n (rio_read k f rp n)
  rio_read_full zero n c rp v h m e = absurd (omega arith)
  rio_read_full (suc f) n c rp v h m e = rw (rio_read_copy f n c rp e) (copy_out_lem rp c n v e h)

  -- At the end of the connection nothing is handed out.
  at_end-HandsOut :
      (n : ℕ) (rp : RioT S) (s : S)
      → IsValid rp
      → IsEmpty rp
      → k.read rio_bufsize rp.rio_fd ≡ (some [], s)
      → HandsOut g rp n (done (some []), record rp { rio_fd = s; rio_cnt = pos 0 })
  at_end-HandsOut n rp s v z e =
      let l = law.read_some rio_bufsize rp.rio_fd [] s e in
      let ended = stream_empty rp z ∙ law.read_eof rio_bufsize rp.rio_fd s (omega arith) e in
      record {
        bytes = [];
        result = refl;
        short = omega arith;
        splits = stream_empty rp z ∙ l.1;
        at_end = λ _. ended;
        follows = ground arith;
      }

  pub rio_read-HandsOut :
      (f n : ℕ) (rp : RioT S)
      → IsValid rp
      → 0 < n
      → g.patience rp.rio_fd + 1 < f
      → HandsOut g rp n (rio_read k f rp n)
  rio_read-HandsOut zero n rp v h m = absurd (omega arith)
  rio_read-HandsOut (suc f) n rp v h m = elim (cnt_cases rp.rio_cnt) [
    | inr (c, e) ↦ rio_read_full (suc f) n c rp v h (omega arith) e
    | inl z ↦ elim (reply_cases (k.read rio_bufsize rp.rio_fd)) [
      | inl (s, e) ↦
          let l = law.read_none rio_bufsize rp.rio_fd s e in
          rw (rio_read-interrupted f n rp s z e l.0) (
            HandsOut-after (interrupted rp s) n (stream_empty rp z ∙ sym l.1) l.2 (omega arith)
              (rio_read-HandsOut f n (interrupted rp s) (ground arith) h (omega arith)))
      | inr ([], s, e) ↦ rw (rio_read_end f n rp s z e) (at_end-HandsOut n rp s v z e)
      | inr (b ∷ bs, s, e) ↦
          let l = law.read_some rio_bufsize rp.rio_fd (b ∷ bs) s e in
          let rp' = refilled rp (b ∷ bs) s in
          rw (rio_read-refilled f n b bs rp s z e) (
            HandsOut-after rp' n (stream_empty rp z ∙ l.1 ∙ sym (stream-refilled rp (b ∷ bs) s)) l.2
              l.3
              (rio_read_full f n (length bs) rp' (refilled-IsValid rp (b ∷ bs) s v l.0) h
                (omega arith) refl))
    ]
  ]
