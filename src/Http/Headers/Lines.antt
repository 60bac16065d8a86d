-- ===== src/Http/Headers/Lines.antt =====
-- The loops over the header lines of a request: they stop behind the empty line, and never where
-- the connection ends before it.
use twebs.Prelude.{
  ℕ, zero, suc, ◌+◌, ◌-◌, ◌≤◌, ◌<◌, ◌≡◌, ◌≢◌, refl, true, false, not, Bytes, List, [], ◌∷◌, ◌++◌,
  length, codes, arith, ◌==◌, ℤ, append_assoc, drop-length_append, append-nil, drop, Option, some,
  none, if◌then◌else◌, Bool-cases, inl, inr, ap,
}
use twebs.Outcome.{done}
use twebs.Kernel.{Kernel, Ghost, IsReliable}
use twebs.CString.{all, cstr, streq, take_while-all, tolower, strncaseeq, drop_while, isblank, atoi}
use twebs.Rio.Buffered.{stream, IsValid}
use twebs.Rio.Lines.{
  first_line, within, first_line-append, rio_readlineb_lem, rio_readlineb_eof, line-ne-nil,
}
use twebs.Http.{Host, World, maxline, read_line}
use twebs.Http.Sending.{sent_by, patience_of}
use twebs.Http.Reply.{crlf}
use twebs.Http.Headers.{get_loop, post_loop, note_length}

-- `w'` follows `w` with `rest` left to read, `logged` behind the log, and nothing sent.
pub record Took {S : Type 0} (g : Ghost S) (rest logged : Bytes) (w w' : World S) : Type 0 where
  pub leaves : stream g w'.rio ≡ rest
  pub logs : w'.log ≡ w.log ++ logged
  pub keeps_children : w'.children ≡ w.children
  pub valid : IsValid w'.rio
  pub silent : sent_by g w' ≡ sent_by g w
  pub patient : patience_of g w' ≤ patience_of g w

-- A line without its newline that fits the buffer.
abbrev pub IsLine : Bytes → Type 0
IsLine xs = (all within xs ≡ true) × (length xs < maxline - 1)

abbrev pub ended : Bytes → Bytes
ended xs = xs ++ b'\n' ∷ []

-- Lines, and the empty line that ends the headers, in front of the body.
abbrev pub block : List Bytes → Bytes → Bytes
block [] body = crlf ++ body
block (l ∷ ls) body = l ++ b'\n' ∷ block ls body

abbrev pub IsBlock : List Bytes → Type 0
IsBlock [] = Unit {0}
IsBlock (l ∷ ls) = IsLine l × (l ≢ codes "\r") × IsBlock ls

-- What follows the name of a header, in letters of either case.
abbrev pub behind : Bytes → Bytes → Option Bytes
behind [] text = some text
behind (p ∷ ps) [] = none
behind (p ∷ ps) (c ∷ cs) = if tolower c == tolower p then behind ps cs else none

-- The length that the lines announce, if they announced `n` so far: the number that follows the
-- name of the header and blanks, where a line has the name; the last such line counts.
abbrev pub announced : List Bytes → ℤ → ℤ
announced [] n = n
announced (l ∷ ls) n = announced ls (elim (behind (codes "Content-Length:") (ended l)) [
  | none ↦ n
  | some number ↦ atoi (drop_while isblank number)
])

behind-strncaseeq :
    (name text : Bytes)
    → behind name text
      ≡ (if strncaseeq (length name) text name then some (drop (length name) text) else none)
behind-strncaseeq [] text = refl
behind-strncaseeq (p ∷ ps) [] = refl
behind-strncaseeq (p ∷ ps) (c ∷ cs) = ground (arith, behind-strncaseeq ps cs)

pub announced-note_length :
    (l : Bytes) (ls : List Bytes) (n : ℤ)
    → announced (l ∷ ls) n ≡ announced ls (note_length (ended l) n)
announced-note_length l ls n = ap (announced ls) (
    rw (behind-strncaseeq (codes "Content-Length:") (ended l))
      (elim (Bool-cases (strncaseeq 15 (ended l) (codes "Content-Length:"))) [
        | inl y ↦ rw y refl
        | inr z ↦ rw z refl
      ]))

all-ended : (xs : Bytes) → all within xs ≡ true → all (λ c. not (c == 0)) (ended xs) ≡ true
all-ended [] h = refl
all-ended (x ∷ xs) h = ground (arith, all-ended xs)

pub cstr-ended : (xs : Bytes) → IsLine xs → cstr (ended xs) ≡ ended xs
cstr-ended xs h = take_while-all _ (ended xs) (all-ended xs h.0)

pub ended-ne-crlf : (xs : Bytes) → xs ≢ codes "\r" → streq (ended xs) crlf ≡ false
ended-ne-crlf [] n = refl
ended-ne-crlf (c ∷ []) n = ground arith
ended-ne-crlf (c ∷ d ∷ []) n = ground arith
ended-ne-crlf (c ∷ d ∷ e ∷ xs) n = ground arith

-- What is left behind a line.
after_line :
    (xs rest : Bytes)
    → IsLine xs
    → let bs = xs ++ b'\n' ∷ rest in
      (first_line (maxline - 1) bs ≡ ended xs)
      × (drop (length (first_line (maxline - 1) bs)) bs ≡ rest)
after_line xs rest l =
    let e = first_line-append (maxline - 1) xs rest l.0 l.1 in
    (e, rw e (rw (← append_assoc xs (b'\n' ∷ []) rest) (drop-length_append (ended xs) rest)))

module _ {S : Type 0} {k : Kernel S} {g : Ghost S} (law : IsReliable k g) where
  pub read_line-Took :
      (fuel : ℕ) (buf xs rest : Bytes) (w : World S)
      → IsLine xs
      → IsValid w.rio
      → stream g w.rio ≡ xs ++ b'\n' ∷ rest
      → patience_of g w + 1 < fuel
      → ((read_line k fuel buf w).0 ≡ done (ended xs)) × Took g rest [] w (read_line k fuel buf w).1
  unfolding read_line
  read_line-Took fuel buf xs rest w l v e p =
      let r = rio_readlineb_lem law fuel maxline w.rio v (rw e (line-ne-nil xs rest)) p in
      ground (arith, rw e at r, after_line xs rest l, append-nil w.log)

  pub read_line_eof :
      (fuel : ℕ) (buf : Bytes) (w : World S)
      → IsValid w.rio
      → stream g w.rio ≡ []
      → patience_of g w + 1 < fuel
      → ((read_line k fuel buf w).0 ≡ done buf) × Took g [] [] w (read_line k fuel buf w).1
  unfolding read_line
  read_line_eof fuel buf w v e p =
      ground (arith, rio_readlineb_eof law fuel 8190 w.rio v e p, append-nil w.log)

  -- A line that was read is logged, and then more is.
  pub Took-log :
      (bs rest : Bytes) (w v : World S)
      → Took g rest [] w v
      → Took g rest bs w (record v { log = v.log ++ bs })
  Took-log bs rest w v t = ground (arith, append-nil w.log)

  pub Took-then :
      (bs rest rest' logged : Bytes) (w v x : World S)
      → Took g rest bs w v
      → Took g rest' logged v x
      → Took g rest' (bs ++ logged) w x
  Took-then bs rest rest' logged w v x t u = ground (arith, append_assoc w.log bs logged)

  module _ (h : Host) (fuel f : ℕ) (buf : Bytes) (w : World S) where
    abbrev after_read : Bytes → World S
    after_read b = let w' = (read_line k fuel buf w).1 in record w' { log = w'.log ++ cstr b }

    pub get_loop_step :
        (b : Bytes)
        → streq (cstr buf) crlf ≡ false
        → (read_line k fuel buf w).0 ≡ done b
        → get_loop k fuel h (suc f) buf w ≡ get_loop k fuel h f b (after_read b)
    unfolding get_loop
    get_loop_step b n e = ground arith

    pub post_loop_step :
        (b : Bytes) (m : ℤ)
        → streq (cstr buf) crlf ≡ false
        → (read_line k fuel buf w).0 ≡ done b
        → post_loop k fuel h (suc f) m buf w
          ≡ post_loop k fuel h f (note_length (cstr b) m) b (after_read b)
    unfolding post_loop
    post_loop_step b m n e = ground arith

  get_loop_end :
      (h : Host) (fuel f : ℕ) (w : World S) → 0 < f → get_loop k fuel h f crlf w ≡ (done tt, w)
  unfolding get_loop
  get_loop_end h fuel zero w l = absurd (omega arith)
  get_loop_end h fuel (suc f) w l = refl

  post_loop_end :
      (h : Host) (fuel f : ℕ) (m : ℤ) (w : World S)
      → 0 < f
      → post_loop k fuel h f m crlf w ≡ (done m, w)
  unfolding post_loop
  post_loop_end h fuel zero m w l = absurd (omega arith)
  post_loop_end h fuel (suc f) m w l = refl

  pub get_loop-block :
      (h : Host) (fuel f : ℕ) (ls : List Bytes) (buf body : Bytes) (w : World S)
      → IsBlock ls
      → streq (cstr buf) crlf ≡ false
      → IsValid w.rio
      → stream g w.rio ≡ block ls body
      → patience_of g w + 1 < fuel
      → length ls + 1 < f
      → ((get_loop k fuel h f buf w).0 ≡ done tt)
        × Took g body (block ls []) w (get_loop k fuel h f buf w).1
  get_loop-block h fuel zero ls buf body w b n v e p l = absurd (omega arith)
  get_loop-block h fuel (suc f) [] buf body w b n v e p l =
      let (r, t) = read_line-Took fuel buf (codes "\r") body w (refl, omega arith) v e p in
      let w' = (read_line k fuel buf w).1 in
      rw (get_loop_step h fuel f buf w crlf n r, get_loop_end h fuel f _ (omega arith))
        (refl, Took-log crlf body w w' t)
  get_loop-block h fuel (suc f) (x ∷ xs) buf body w b n v e p l =
      let (r, t) = read_line-Took fuel buf x (block xs body) w b.0 v e p in
      let w' = (read_line k fuel buf w).1 in
      let w'' = record w' { log = w'.log ++ ended x } in
      let t' = Took-log (ended x) (block xs body) w w' t in
      let (q, u) =
        get_loop-block h fuel f xs (ended x) body w'' b.2
          (rw (cstr-ended x b.0) (ended-ne-crlf x b.1)) t'.valid t'.leaves
          (omega (arith, t'.patient)) (omega arith) in
      rw (get_loop_step h fuel f buf w (ended x) n r, cstr-ended x b.0)
        (
          q,
          rw (← append_assoc x (b'\n' ∷ []) (block xs []))
              (Took-then (ended x) (block xs body) body (block xs []) w w'' _ t' u),
        )

  pub post_loop-block :
      (h : Host) (fuel f : ℕ) (m : ℤ) (ls : List Bytes) (buf body : Bytes) (w : World S)
      → IsBlock ls
      → streq (cstr buf) crlf ≡ false
      → IsValid w.rio
      → stream g w.rio ≡ block ls body
      → patience_of g w + 1 < fuel
      → length ls + 1 < f
      → ((post_loop k fuel h f m buf w).0 ≡ done (announced ls m))
        × Took g body (block ls []) w (post_loop k fuel h f m buf w).1
  post_loop-block h fuel zero m ls buf body w b n v e p l = absurd (omega arith)
  post_loop-block h fuel (suc f) m [] buf body w b n v e p l =
      let (r, t) = read_line-Took fuel buf (codes "\r") body w (refl, omega arith) v e p in
      let w' = (read_line k fuel buf w).1 in
      rw (post_loop_step h fuel f buf w crlf m n r, post_loop_end h fuel f m _ (omega arith))
        (refl, Took-log crlf body w w' t)
  post_loop-block h fuel (suc f) m (x ∷ xs) buf body w b n v e p l =
      let (r, t) = read_line-Took fuel buf x (block xs body) w b.0 v e p in
      let w' = (read_line k fuel buf w).1 in
      let w'' = record w' { log = w'.log ++ ended x } in
      let t' = Took-log (ended x) (block xs body) w w' t in
      let (q, u) =
        post_loop-block h fuel f (note_length (ended x) m) xs (ended x) body w'' b.2
          (rw (cstr-ended x b.0) (ended-ne-crlf x b.1)) t'.valid t'.leaves
          (omega (arith, t'.patient)) (omega arith) in
      rw
        (
          post_loop_step h fuel f buf w (ended x) m n r,
          cstr-ended x b.0,
          announced-note_length x xs m,
        )
        (
          q,
          rw (← append_assoc x (b'\n' ∷ []) (block xs []))
              (Took-then (ended x) (block xs body) body (block xs []) w w'' _ t' u),
        )
