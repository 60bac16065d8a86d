-- ===== src/PostAuth.antt =====
-- cgi-bin/postAuth.c: a program that `post_dynamic` starts, and what it answers.
use twebs.Prelude.{
  ℕ, zero, suc, ◌+◌, ◌≤◌, ◌<◌, ◌≡◌, refl, ◌∙◌, ap, true, false, Option, none, some, Bytes, [], ◌∷◌,
  ◌++◌, length, leb, if◌then◌else◌, codes, ℤ, pos, negsuc, arith, leb_lt, length-append,
}
use twebs.Outcome.{Program, Outcome, done, fault}
use twebs.CString.{atoi, print_int, print_nat, atoi-print_nat, cstr, streq, all}
use twebs.Http.{maxline}
use twebs.Rio.Lines.{first_line, within}

-- `printf` of the header and of `content`, which is an array of MAXLINE bytes.
abbrev pub reply : Bytes → Outcome Bytes
reply content =
    if leb maxline (length content)
    then fault
    else done (
        codes "Content-length: "
        ++ (print_int (pos (length content))
            ++ (codes "\r\n" ++ (codes "Content-type: text/html\r\n\r\n" ++ content))))

abbrev pub wrong : Bytes
wrong = codes "Something is wrong\r\n"

abbrev pub info : Bytes → Bytes
info text = codes "Info:" ++ (text ++ codes "\r\n")

-- Behind `fgets(data, length + 1, stdin)`, which stores a line of at most `length` bytes: none where
-- there is nothing to read or `length` is negative.
abbrev pub answer_text : Bytes → Outcome Bytes
answer_text [] = reply wrong
answer_text (b ∷ bs) = if leb maxline (length (b ∷ bs)) then fault else reply (info (cstr (b ∷ bs)))

unfoldable pub answer_line : ℤ → Bytes → Outcome Bytes
answer_line (negsuc n) stdin = reply wrong
answer_line (pos zero) stdin = reply (info [])
answer_line (pos (suc n)) stdin = answer_text (first_line (suc n) stdin)

-- `getenv`, of a process whose environment has one more setting than the server's.
abbrev pub getenv : Bytes → Program → Option Bytes
getenv name p = if streq name p.name then some p.value else none

abbrev pub announced_length : Option Bytes → ℤ
announced_length none = pos 0
announced_length (some buf) = atoi buf

-- `main`: what the program writes to its standard output.
unfoldable pub post_auth : Program → Outcome Bytes
unfolding answer_line
post_auth p = answer_line (announced_length (getenv (codes "CONTENT-LENGTH") p)) p.stdin

-- The program as `post_dynamic` starts it.
abbrev pub posted : Bytes → Bytes → Program
posted file body = record {
  file = file;
  name = codes "CONTENT-LENGTH";
  value = print_int (pos (length body));
  stdin = body;
}

first_line-within :
    (m : ℕ) (xs : Bytes) → all within xs ≡ true → length xs ≤ m → first_line m xs ≡ xs
first_line-within zero [] h l = refl
first_line-within zero (x ∷ xs) h l = absurd (omega arith)
first_line-within (suc m) [] h l = refl
first_line-within (suc m) (x ∷ xs) h l = ground (arith, first_line-within m xs)

cstr-within : (xs : Bytes) → all within xs ≡ true → cstr xs ≡ xs
cstr-within [] h = refl
cstr-within (x ∷ xs) h = ground (arith, cstr-within xs)

pub reply_fits :
    (content : Bytes)
    → length content < maxline
    → reply content
      ≡ done (
          codes "Content-length: "
          ++ (print_int (pos (length content))
              ++ (codes "\r\n" ++ (codes "Content-type: text/html\r\n\r\n" ++ content))))
reply_fits content l = let e = leb_lt l in rw e

answer_line_whole :
    (b : ℕ) (bs : Bytes)
    → let body = b ∷ bs in
      all within body ≡ true
      → length body < maxline
      → answer_line (pos (length body)) body ≡ reply (info body)
unfolding answer_line
answer_line_whole b bs h l =
    let body = b ∷ bs in
    let fits : leb maxline (length body) ≡ false = leb_lt l in
    ap answer_text (first_line-within (length body) body h (omega arith))
    ∙ rw fits (ap (λ x. reply (info x)) (cstr-within body h))

-- The length that the server prints into the environment is the one that the program reads there: for
-- a body of at least one byte and no line feed or zero, with room for it in the array, the
-- program answers with the whole body, under a `Content-length` that is the length of the answer.
pub post_auth-posted :
    (file : Bytes) (b : ℕ) (bs : Bytes)
    → let body = b ∷ bs in
      all within body ≡ true
      → length body + 7 < maxline
      → post_auth (posted file body)
        ≡ done (
            codes "Content-length: "
            ++ (print_int (pos (length body + 7))
                ++ (codes "\r\n" ++ (codes "Content-type: text/html\r\n\r\n" ++ info body))))
unfolding post_auth print_int
post_auth-posted file b bs h l =
    let body = b ∷ bs in
    let size : length (info body) ≡ length body + 7 =
      omega (arith, length-append body (codes "\r\n")) in
    ap (λ n. answer_line n body) (atoi-print_nat (length body) (omega (arith, l)))
    ∙ answer_line_whole b bs h (omega (arith, l))
    ∙ reply_fits (info body) (omega (arith, size, l))
    ∙ ap
        (λ n. done (
          codes "Content-length: "
          ++ (print_nat n
              ++ (codes "\r\n" ++ (codes "Content-type: text/html\r\n\r\n" ++ info body)))))
        size
