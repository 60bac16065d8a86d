-- ===== src/Http/Headers/Requests.antt =====
-- `get_requesthdrs` and `post_requesthdrs` on whole requests.
use twebs.Prelude.{
  ℕ, zero, suc, ◌+◌, ◌<◌, ◌≡◌, ◌≢◌, refl, true, false, Bytes, List, [], ◌∷◌, ◌++◌, length, codes,
  arith, ℤ, pos, append_assoc, ◌∙◌, as_int,
}
use twebs.Outcome.{done, running}
use twebs.Log.{stamp}
use twebs.Kernel.{Kernel, Ghost, IsReliable}
use twebs.CString.{
  all, cstr, streq, drop_while-append, atoi_digits, isdigit, isblank, value, strncaseeq,
}
use twebs.Rio.Buffered.{stream, IsValid}
use twebs.Http.{Host, World, read_line}
use twebs.Http.Sending.{patience_of}
use twebs.Http.Reply.{crlf}
use twebs.Http.Headers.{get_loop, get_requesthdrs, post_loop, post_requesthdrs, note_length}
use twebs.Http.Headers.Lines.{
  Took, Took-log, Took-then, IsLine, IsBlock, block, ended, announced, read_line-Took,
  read_line_eof, get_loop_step, get_loop-block, post_loop-block, ended-ne-crlf, cstr-ended,
  announced-note_length,
}

-- A header "Content-Length:" with blanks, a number, and its carriage return.
abbrev pub length_line : Bytes → ℕ → Bytes → Bytes
length_line blanks d digits = codes "Content-Length:" ++ (blanks ++ (d ∷ digits ++ codes "\r"))

-- No line gives a length.
abbrev pub HasNoLength : List Bytes → Type 0
HasNoLength [] = Unit {0}
HasNoLength (l ∷ ls) = (strncaseeq 15 (ended l) (codes "Content-Length:") ≡ false) × HasNoLength ls

note_length-length_line :
    (blanks : Bytes) (d : ℕ) (digits : Bytes) (m : ℤ)
    → all isblank blanks ≡ true
    → all isdigit (d ∷ digits) ≡ true
    → note_length (ended (length_line blanks d digits)) m ≡ as_int (pos (value (d ∷ digits)))
note_length-length_line blanks d digits m b i =
    rw
      (
        append_assoc blanks (d ∷ digits ++ codes "\r") (b'\n' ∷ []),
        append_assoc digits (codes "\r") (b'\n' ∷ []),
        drop_while-append isblank blanks d (digits ++ codes "\r\n") b (ground arith),
      )
      (atoi_digits d digits b'\r' (codes "\n") (ground arith) (ground arith) refl)

announced-HasNoLength : (ls : List Bytes) (m : ℤ) → HasNoLength ls → announced ls m ≡ m
announced-HasNoLength [] m n = refl
announced-HasNoLength (l ∷ ls) m n =
    rw (announced-note_length l ls m) (rw n.0 (announced-HasNoLength ls m n.1))

-- The length that `post_requesthdrs` notes is the number of the last line with that name, converted
-- to `int`, whatever stands in front of it.
pub announced-length_line :
    (before after : List Bytes) (blanks : Bytes) (d : ℕ) (digits : Bytes) (m : ℤ)
    → all isblank blanks ≡ true
    → all isdigit (d ∷ digits) ≡ true
    → HasNoLength after
    → announced (before ++ length_line blanks d digits ∷ after) m
      ≡ as_int (pos (value (d ∷ digits)))
announced-length_line [] after blanks d digits m b i n =
    announced-note_length (length_line blanks d digits) after m
    ∙ announced-HasNoLength after _ n
    ∙ note_length-length_line blanks d digits m b i
announced-length_line (l ∷ before) after blanks d digits m b i n =
    announced-note_length l (before ++ length_line blanks d digits ∷ after) m
    ∙ announced-length_line before after blanks d digits (note_length (ended l) m) b i n

module _ {S : Type 0} {k : Kernel S} {g : Ghost S} (law : IsReliable k g) where
  module _ (fuel f : ℕ) (h : Host) (w : World S) (b : Bytes)
      (e : (read_line k fuel h.junk_line w).0 ≡ done b) where
    abbrev timed : World S
    timed =
        let w' = (read_line k fuel h.junk_line w).1 in record w' { log = w'.log ++ (stamp h.now) }

    get_requesthdrs_reads : get_requesthdrs k fuel h f w ≡ get_loop k fuel h f b timed
    unfolding get_requesthdrs
    get_requesthdrs_reads = ground arith

    post_requesthdrs_reads :
        (m : ℤ) → post_requesthdrs k fuel h f m w ≡ post_loop k fuel h f m b timed
    unfolding post_requesthdrs
    post_requesthdrs_reads m = ground arith

  -- On a request line's headers, `get_requesthdrs` reads up to the body: it logs the time and every
  -- line but the first, and sends nothing.
  pub get_requesthdrs_lem :
      (fuel f : ℕ) (h : Host) (first : Bytes) (ls : List Bytes) (body : Bytes) (w : World S)
      → IsLine first
      → first ≢ codes "\r"
      → IsBlock ls
      → IsValid w.rio
      → stream g w.rio ≡ first ++ b'\n' ∷ block ls body
      → patience_of g w + 1 < fuel
      → length ls + 1 < f
      → ((get_requesthdrs k fuel h f w).0 ≡ done tt)
        × Took g body (stamp h.now ++ block ls []) w (get_requesthdrs k fuel h f w).1
  get_requesthdrs_lem fuel f h first ls body w l n b v e p q =
      let (r, t) = read_line-Took law fuel h.junk_line first (block ls body) w l v e p in
      let w' = (read_line k fuel h.junk_line w).1 in
      let t' = Took-log law (stamp h.now) (block ls body) w w' t in
      let (o, u) =
        get_loop-block law h fuel f ls (ended first) body
          (record w' { log = w'.log ++ (stamp h.now) }) b
          (rw (cstr-ended first l) (ended-ne-crlf first n)) t'.valid t'.leaves
          (omega (arith, t'.patient)) q in
      rw (get_requesthdrs_reads fuel f h w (ended first) r)
        (o, Took-then law (stamp h.now) (block ls body) body (block ls []) w _ _ t' u)

  -- On a connection that does not break, with headers up to an empty line whose lines fit the buffer,
  -- `post_requesthdrs` reads up to the body: it logs the time and every line but the first, sends
  -- nothing, and returns the length that these lines announce: the `int` behind the name of the
  -- header, in letters of either case, and blanks, in the last line that has the name, and the length
  -- that it was given where none has it.
  pub post_requesthdrs_lem :
      (fuel f : ℕ) (h : Host) (m : ℤ) (first : Bytes) (ls : List Bytes) (body : Bytes) (w : World S)
      → IsLine first
      → first ≢ codes "\r"
      → IsBlock ls
      → IsValid w.rio
      → stream g w.rio ≡ first ++ b'\n' ∷ block ls body
      → patience_of g w + 1 < fuel
      → length ls + 1 < f
      → ((post_requesthdrs k fuel h f m w).0 ≡ done (announced ls m))
        × Took g body (stamp h.now ++ block ls []) w (post_requesthdrs k fuel h f m w).1
  post_requesthdrs_lem fuel f h m first ls body w l n b v e p q =
      let (r, t) = read_line-Took law fuel h.junk_line first (block ls body) w l v e p in
      let w' = (read_line k fuel h.junk_line w).1 in
      let t' = Took-log law (stamp h.now) (block ls body) w w' t in
      let (o, u) =
        post_loop-block law h fuel f m ls (ended first) body
          (record w' { log = w'.log ++ (stamp h.now) }) b
          (rw (cstr-ended first l) (ended-ne-crlf first n)) t'.valid t'.leaves
          (omega (arith, t'.patient)) q in
      rw (post_requesthdrs_reads fuel f h w (ended first) r m)
        (o, Took-then law (stamp h.now) (block ls body) body (block ls []) w _ _ t' u)

  -- Where the connection ends before the empty line, the loop of `get_requesthdrs` reads the end of
  -- the connection over and over: it uses up every fuel.
  pub get_loop_eof :
      (fuel f : ℕ) (h : Host) (buf : Bytes) (w : World S)
      → streq (cstr buf) crlf ≡ false
      → IsValid w.rio
      → stream g w.rio ≡ []
      → patience_of g w + 1 < fuel
      → (get_loop k fuel h f buf w).0 ≡ running
  get_loop_eof fuel zero h buf w n v e p = unfold get_loop in refl
  get_loop_eof fuel (suc f) h buf w n v e p =
      let (r, t) = read_line_eof law fuel buf w v e p in
      let w' = (read_line k fuel buf w).1 in
      let t' = Took-log law (cstr buf) [] w w' t in
      rw (get_loop_step law h fuel f buf w buf n r) (
        get_loop_eof fuel f h buf (record w' { log = w'.log ++ cstr buf }) n t'.valid t'.leaves
          (omega (arith, t'.patient)))
