-- ===== src/Retry/Lines.antt =====
-- ss/wrap.cpp: what `ReadLine`, `ReadN` and `WriteN` do on a connection that does not break.
use twebs.Prelude.{
  ℕ, zero, suc, ◌+◌, ◌-◌, ◌≤◌, ◌<◌, ◌≡◌, refl, Bool, true, false, Bytes, [], ◌∷◌, ◌++◌, length,
  drop, ◌==◌, arith, inl, inr, append-nil, append_assoc, if◌then◌else◌, ◌∙◌, ap, Bool-cases,
}
use twebs.Outcome.{Outcome, done}
use twebs.Kernel.{Kernel, Ghost, IsReliable, reply_cases}
use twebs.Retry.{CharRead, char, no_char, LineRead, line, my_read, read_line_loop, read_line}
use twebs.Rio.Lines.{first_line}

-- The bytes that are still to come: those in the static buffer, then those on the connection.
abbrev pub to_come : {S : Type 0} → Ghost S → Bytes × S → Bytes
to_come g r = r.0 ++ g.pending r.1

abbrev pub head_char : Bytes → CharRead
head_char [] = no_char
head_char (c ∷ cs) = char c

-- `MyRead` takes the next byte, or finds the end.
record TakesChar {S : Type 0} (g : Ghost S) (left : Bytes) (s : S)
    (r : Outcome CharRead × (Bytes × S)) : Type 0 where
  result : r.0 ≡ done (head_char (left ++ g.pending s))
  rest : to_come g r.1 ≡ drop 1 (left ++ g.pending s)
  silent : g.sent r.1.1 ≡ g.sent s
  patient : g.patience r.1.1 ≤ g.patience s

module _ {S : Type 0} {k : Kernel S} {g : Ghost S} (law : IsReliable k g) where
  my_read-TakesChar :
      (f : ℕ) (left : Bytes) (s : S) → g.patience s < f → TakesChar g left s (my_read k f left s)
  unfolding my_read
  my_read-TakesChar zero left s h = absurd (omega arith)
  my_read-TakesChar (suc f) (c ∷ left) s h = record {
    result = refl;
    rest = refl;
    silent = refl;
    patient = omega arith;
  }
  my_read-TakesChar (suc f) [] s h = elim (reply_cases (k.read 100 s)) [
    | inl (s', e) ↦
        let (a, b, c, d) = law.read_none 100 s s' e in
        let t = my_read-TakesChar f [] s' (omega arith) in
        record {
          result = ground (arith, t.result);
          rest = ground (arith, t.rest);
          silent = ground (arith, t.silent);
          patient = ground (arith, t.patient);
        }
    | inr ([], s', e) ↦
        let z = law.read_eof 100 s s' (omega arith) e in
        let (a, b, c, d) = law.read_some 100 s [] s' e in
        record {
          result = ground arith;
          rest = ground arith;
          silent = ground arith;
          patient = ground arith;
        }
    | inr (b ∷ bs, s', e) ↦
        let (l, p, c, d) = law.read_some 100 s (b ∷ bs) s' e in
        record {
          result = ground arith;
          rest = ground arith;
          silent = ground arith;
          patient = ground arith;
        }
  ]

-- Whether `m` bytes are stored and none of them is a newline.
abbrev pub is_cut : ℕ → Bytes → Bool
is_cut zero bs = true
is_cut (suc m) [] = false
is_cut (suc m) (c ∷ bs) = if c == b'\n' then false else is_cut m bs

-- What `ReadLine` returns from the counter `n` on.
abbrev pub read_count : ℕ → ℕ → Bytes → ℕ
read_count n zero bs = n
read_count n (suc m) [] = n - 1
read_count n (suc m) (c ∷ bs) = if c == b'\n' then n else read_count (n + 1) m bs

read_count-first_line :
    (n m : ℕ) (bs : Bytes)
    → read_count (suc n) m bs ≡ n + length (first_line m bs) + (if is_cut m bs then 1 else 0)
read_count-first_line n zero bs = omega arith
read_count-first_line n (suc m) [] = ground arith
read_count-first_line n (suc m) (c ∷ bs) =
    let e : suc n + 1 ≡ suc (suc n) = omega arith in
    ground (arith, e, read_count-first_line (suc n) m bs)

record TakesLine {S : Type 0} (g : Ghost S) (n m : ℕ) (acc left : Bytes) (s : S)
    (r : Outcome LineRead × (Bytes × S)) : Type 0 where
  result :
      r.0
      ≡ done
          (line (read_count n m (left ++ g.pending s)) (acc ++ first_line m (left ++ g.pending s)))
  rest : to_come g r.1 ≡ drop (length (first_line m (left ++ g.pending s))) (left ++ g.pending s)
  silent : g.sent r.1.1 ≡ g.sent s

module _ {S : Type 0} {k : Kernel S} {g : Ghost S} (law : IsReliable k g) where
  -- One round, by what `MyRead` finds.
  module _ (f m n : ℕ) (acc left : Bytes) (s : S) where
    loop_end :
        (my_read k f left s).0 ≡ done no_char
        → read_line_loop k f (suc m) n acc left s
          ≡ (done (line (n - 1) acc), (my_read k f left s).1)
    unfolding read_line_loop
    loop_end e = ground arith

    loop_newline :
        (c : ℕ)
        → (my_read k f left s).0 ≡ done (char c)
        → (c == b'\n') ≡ true
        → read_line_loop k f (suc m) n acc left s
          ≡ (done (line n (acc ++ c ∷ [])), (my_read k f left s).1)
    unfolding read_line_loop
    loop_newline c e y = ground arith

    loop_more :
        (c : ℕ)
        → (my_read k f left s).0 ≡ done (char c)
        → (c == b'\n') ≡ false
        → let r = (my_read k f left s).1 in
          read_line_loop k f (suc m) n acc left s
          ≡ read_line_loop k f m (n + 1) (acc ++ c ∷ []) r.0 r.1
    unfolding read_line_loop
    loop_more c e y = ground arith

  read_line_loop-TakesLine :
      (f m n : ℕ) (acc left : Bytes) (s : S) (bs : Bytes)
      → left ++ g.pending s ≡ bs
      → g.patience s < f
      → TakesLine g n m acc left s (read_line_loop k f m n acc left s)
  read_line_loop-TakesLine f zero n acc left s bs e h =
      unfold read_line_loop in
      record { result = ground (arith, append-nil acc); rest = refl; silent = refl }
  read_line_loop-TakesLine f (suc m) n acc left s [] e h =
      let t = my_read-TakesChar law f left s h in
      rw (loop_end f m n acc left s (rw e at t.result)) (record {
        result = ground (arith, append-nil acc);
        rest = rw (t.rest, e);
        silent = t.silent;
      })
  read_line_loop-TakesLine f (suc m) n acc left s (c ∷ bs) e h =
      let t = my_read-TakesChar law f left s h in
      let r = (my_read k f left s).1 in
      elim (Bool-cases (c == b'\n')) [
        | inl y ↦
            rw (loop_newline f m n acc left s c (rw e at t.result) y)
              (record { result = ground arith; rest = ground (arith, t.rest); silent = t.silent })
        | inr z ↦
            let next : r.0 ++ g.pending r.1 ≡ bs = t.rest ∙ ap (drop 1) e in
            let d =
              read_line_loop-TakesLine f m (n + 1) (acc ++ c ∷ []) r.0 r.1 bs next
                (omega (arith, t.patient, h)) in
            rw (loop_more f m n acc left s c (rw e at t.result) z) (record {
              result = ground (arith, d.result, append_assoc acc (c ∷ []) (first_line m bs));
              rest = ground (arith, d.rest);
              silent = ground (arith, d.silent, t.silent);
            })
      ]

  -- `ReadLine` stores the next line of the bytes that are to come, from its static buffer and then from
  -- the connection, with its newline, cut after `max_len - 1` bytes and at the end of the
  -- connection. It returns the number of bytes stored, and one more where the line is cut. What follows
  -- is left for the next call. More fuel than signals to come is enough.
  pub read_line_lem :
      (f max_len : ℕ) (left : Bytes) (s : S)
      → g.patience s < f
      → let bs = left ++ g.pending s in
        let text = first_line (max_len - 1) bs in
        let r = read_line k f max_len left s in
        (r.0 ≡ done (line (length text + (if is_cut (max_len - 1) bs then 1 else 0)) text))
        × (to_come g r.1 ≡ drop (length text) bs)
        × (g.sent r.1.1 ≡ g.sent s)
  unfolding read_line
  read_line_lem f max_len left s h =
      let t = read_line_loop-TakesLine f (max_len - 1) 1 [] left s (left ++ g.pending s) refl h in
      let c = read_count-first_line 0 (max_len - 1) (left ++ g.pending s) in
      (
        t.result
            ∙ ap (λ x. done (line x (first_line (max_len - 1) (left ++ g.pending s))))
                (c ∙ omega arith),
        t.rest,
        t.silent,
      )
