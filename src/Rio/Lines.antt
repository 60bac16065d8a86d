-- ===== src/Rio/Lines.antt =====
-- `rio_readlineb`: text lines read through the buffer.
use twebs.Prelude.{
  ℕ, zero, suc, ◌+◌, ◌-◌, ◌≤◌, ◌<◌, ◌≡◌, ◌≢◌, refl, Option, some, Bytes, [], ◌∷◌, ◌++◌, length,
  drop, arith, append-nil, append_assoc, ◌∙◌, sym, ◌==◌, if◌then◌else◌, Bool, true, false, inl, inr,
  ◌⊎◌, append-eq-nil, not, ◌&&◌,
}
use twebs.CString.{all}
use twebs.Outcome.{Outcome, done}
use twebs.Kernel.{Kernel, Ghost, IsReliable}
use twebs.Rio.{RioT, LineRead, line, end_of_file, rio_read, readlineb_loop, rio_readlineb}
use twebs.Rio.Buffered.{stream, IsValid, Follows, rio_read-HandsOut}
use native.Mathlib.Decide.{ℕ_discrete}

-- The first line of a text with its newline, cut after `m` bytes.
abbrev pub first_line : ℕ → Bytes → Bytes
first_line zero bs = []
first_line (suc m) [] = []
first_line (suc m) (c ∷ bs) = c ∷ (if c == b'\n' then [] else first_line m bs)

-- a byte that can stand within a line
abbrev pub within : ℕ → Bool
within c = not (c == b'\n') && not (c == 0)

pub first_line-append :
    (m : ℕ) (xs rest : Bytes)
    → all within xs ≡ true
    → length xs < m
    → first_line m (xs ++ b'\n' ∷ rest) ≡ xs ++ b'\n' ∷ []
first_line-append zero xs rest h l = absurd (omega arith)
first_line-append (suc m) [] rest h l = refl
first_line-append (suc m) (x ∷ xs) rest h l = ground (arith, first_line-append m xs rest)

pub line-ne-nil : (xs rest : Bytes) → xs ++ b'\n' ∷ rest ≢ []
line-ne-nil [] rest = ground arith
line-ne-nil (x ∷ xs) rest = ground arith

-- What `rio_readlineb` returns for a line that it counts from `n` on: one less than the counter at
-- which the loop stops, if that is at a newline, and the counter itself if it is at the limit or at
-- the end of the connection.
abbrev pub line_count : ℕ → ℕ → Bytes → ℕ
line_count n zero bs = n
line_count n (suc m) [] = n
line_count n (suc m) (c ∷ bs) = if c == b'\n' then n else line_count (n + 1) m bs

-- A call that takes one line from the stream and stores it behind `acc`.
record TakesLine {S : Type 0} (g : Ghost S) (m n : ℕ) (acc : Bytes) (rp : RioT S)
    (r : Outcome LineRead × RioT S) : Type 0 where
  result : r.0 ≡ done (line (line_count n m (stream g rp)) (acc ++ first_line m (stream g rp)))
  rest : stream g r.1 ≡ drop (length (first_line m (stream g rp))) (stream g rp)
  follows : Follows g rp r.1

module _ {S : Type 0} {k : Kernel S} {g : Ghost S} (law : IsReliable k g) where
  module _ (gas m n : ℕ) (acc : Bytes) (rp : RioT S) where
    abbrev read : Outcome (Option Bytes) × RioT S
    read = rio_read k gas rp 1

    readlineb_loop_end :
        n ≢ 1
        → read.0 ≡ done (some [])
        → readlineb_loop k gas (suc m) n acc rp ≡ (done (line n acc), read.1)
    unfolding readlineb_loop
    readlineb_loop_end h e = ground arith

    readlineb_loop_newline :
        (c : ℕ)
        → read.0 ≡ done (some (c ∷ []))
        → c ≡ b'\n'
        → readlineb_loop k gas (suc m) n acc rp ≡ (done (line n (acc ++ c ∷ [])), read.1)
    unfolding readlineb_loop
    readlineb_loop_newline c e h = ground arith

    readlineb_loop_more :
        (c : ℕ)
        → read.0 ≡ done (some (c ∷ []))
        → c ≢ b'\n'
        → readlineb_loop k gas (suc m) n acc rp
          ≡ readlineb_loop k gas m (n + 1) (acc ++ c ∷ []) read.1
    unfolding readlineb_loop
    readlineb_loop_more c e h = ground arith

  -- The bytes handed out of a request for one.
  one_byte : (bs : Bytes) → length bs ≤ 1 → (bs ≡ []) ⊎ ((c : ℕ) × (bs ≡ c ∷ []))
  one_byte [] h = inl refl
  one_byte (c ∷ []) h = inr (c, refl)
  one_byte (c ∷ d ∷ bs) h = absurd (omega arith)

  -- The call stops with the first byte of the stream, or goes on behind it.
  stop_line :
      {rp r : RioT S} (c m n : ℕ) (acc : Bytes)
      → Follows g rp r
      → stream g rp ≡ c ∷ stream g r
      → c ≡ b'\n'
      → TakesLine g (suc m) n acc rp (done (line n (acc ++ c ∷ [])), r)
  stop_line c m n acc fl t h = ground arith

  stop_at_end :
      {rp r : RioT S} (m n : ℕ) (acc : Bytes)
      → Follows g rp r
      → stream g rp ≡ []
      → stream g rp ≡ stream g r
      → TakesLine g (suc m) n acc rp (done (line n acc), r)
  stop_at_end m n acc fl z t = ground (arith, append-nil acc)

  go_on :
      {rp r : RioT S} (c m n : ℕ) (acc : Bytes) {q : Outcome LineRead × RioT S}
      → Follows g rp r
      → stream g rp ≡ c ∷ stream g r
      → c ≢ b'\n'
      → TakesLine g m (n + 1) (acc ++ c ∷ []) r q
      → TakesLine g (suc m) n acc rp q
  go_on {r = r} c m n acc fl t h d =
      ground (arith, append_assoc acc (c ∷ []) (first_line m (stream g r)))

  readlineb_loop-TakesLine :
      (gas m n : ℕ) (acc : Bytes) (rp : RioT S)
      → IsValid rp
      → (n ≢ 1) ⊎ (stream g rp ≢ [])
      → 0 < n
      → g.patience rp.rio_fd + 1 < gas
      → TakesLine g m n acc rp (readlineb_loop k gas m n acc rp)
  readlineb_loop-TakesLine gas zero n acc rp v h q p =
      unfold readlineb_loop in ground (arith, append-nil acc)
  readlineb_loop-TakesLine gas (suc m) n acc rp v h q p =
      let d = rio_read-HandsOut law gas 1 rp v (omega arith) p in
      let r = (rio_read k gas rp 1).1 in
      elim (one_byte d.bytes d.short) [
        | inl e ↦
            rw (readlineb_loop_end gas m n acc rp (ground arith) (rw e at d.result))
              (stop_at_end m n acc d.follows (d.at_end e) (rw e at d.splits))
        | inr (c, e) ↦ elim (ℕ_discrete c b'\n') [
          | yes y ↦
              rw (readlineb_loop_newline gas m n acc rp c (rw e at d.result) y)
                (stop_line c m n acc d.follows (rw e at d.splits) y)
          | no y ↦ rw (readlineb_loop_more gas m n acc rp c (rw e at d.result) y) (
              go_on c m n acc d.follows (rw e at d.splits) y (
                readlineb_loop-TakesLine gas m (n + 1) (acc ++ c ∷ []) r d.follows.valid
                  (inl (omega arith)) (omega arith) (omega arith)))
        ]
      ]

  -- From a stream that has not ended `rio_readlineb` stores the first line with its newline, cut
  -- after `maxlen - 1` bytes, returns the count that `line_count` gives, and leaves what follows the
  -- line for the next call. Fuel beyond one more than the interruptions to come is enough.
  pub rio_readlineb_lem :
      (f maxlen : ℕ) (rp : RioT S)
      → IsValid rp
      → stream g rp ≢ []
      → g.patience rp.rio_fd + 1 < f
      → let bs = stream g rp in
        ((rio_readlineb k f rp maxlen).0
          ≡ done (line (line_count 1 (maxlen - 1) bs) (first_line (maxlen - 1) bs)))
        × (stream g (rio_readlineb k f rp maxlen).1 ≡ drop (length (first_line (maxlen - 1) bs)) bs)
        × Follows g rp (rio_readlineb k f rp maxlen).1
  unfolding rio_readlineb
  rio_readlineb_lem f maxlen rp v h p =
      let t = readlineb_loop-TakesLine f (maxlen - 1) 1 [] rp v (inr h) (omega arith) p in
      (t.result, t.rest, t.follows)

  readlineb_loop_eof :
      (gas m : ℕ) (rp : RioT S)
      → (rio_read k gas rp 1).0 ≡ done (some [])
      → readlineb_loop k gas (suc m) 1 [] rp ≡ (done end_of_file, (rio_read k gas rp 1).1)
  unfolding readlineb_loop
  readlineb_loop_eof gas m rp e = ground arith

  -- At the end of the stream `rio_readlineb` returns 0 and leaves the caller's buffer as it was.
  pub rio_readlineb_eof :
      (f m : ℕ) (rp : RioT S)
      → IsValid rp
      → stream g rp ≡ []
      → g.patience rp.rio_fd + 1 < f
      → ((rio_readlineb k f rp (suc (suc m))).0 ≡ done end_of_file)
        × (stream g (rio_readlineb k f rp (suc (suc m))).1 ≡ [])
        × Follows g rp (rio_readlineb k f rp (suc (suc m))).1
  unfolding rio_readlineb
  rio_readlineb_eof f m rp v z p =
      let d = rio_read-HandsOut law f 1 rp v (omega arith) p in
      let e : d.bytes ≡ [] = append-eq-nil d.bytes _ (sym d.splits ∙ z) in
      let rest : suc (suc m) - 1 ≡ suc m = omega arith in
      rw rest (
        rw (readlineb_loop_eof f m rp (rw e at d.result))
          (refl, sym (rw e at d.splits) ∙ z, d.follows))

-- Whether the line that is stored ends in a newline.
abbrev pub has_newline : ℕ → Bytes → Bool
has_newline zero bs = false
has_newline (suc m) [] = false
has_newline (suc m) (c ∷ bs) = if c == b'\n' then true else has_newline m bs

pub line_count-first_line :
    (n m : ℕ) (bs : Bytes)
    → line_count n m bs + (if has_newline m bs then 1 else 0) ≡ n + length (first_line m bs)
line_count-first_line n zero bs = omega arith
line_count-first_line n (suc m) [] = omega arith
line_count-first_line n (suc m) (c ∷ bs) = ground (arith, line_count-first_line (n + 1) m bs)

pub length-first_line : (m : ℕ) (bs : Bytes) → length (first_line m bs) ≤ m
length-first_line zero bs = omega arith
length-first_line (suc m) [] = omega arith
length-first_line (suc m) (c ∷ bs) = ground (arith, length-first_line m bs)
