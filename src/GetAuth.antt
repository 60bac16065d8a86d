-- ===== src/GetAuth.antt =====
-- cgi-bin/getAuth.c: a program that `get_dynamic` starts, and what it answers. As in http_main.c, a
-- `sprintf` that prints an array in front of more text into the same array counts as appending.
use twebs.Prelude.{
  ◌+◌, ◌<◌, ◌≡◌, refl, ◌∙◌, ap, true, none, some, Bytes, [], ◌∷◌, ◌++◌, length, leb, if◌then◌else◌,
  codes, pos, arith, leb_lt, length-append, drop,
}
use twebs.Outcome.{exec, Program, Outcome, done, fault}
use twebs.CString.{
  print_int, all, strchr, strchr-append, not_in_strchr, take_while, take_while-append,
}
use twebs.Http.{Host, maxline}
use twebs.Http.Dynamic.Handlers.{get_program}
use twebs.PostAuth.{getenv, reply, reply_fits}

-- The body of the answer.
abbrev pub welcome : Bytes → Bytes → Bytes
welcome name passwd =
    codes "Welcome to auth.com:"
    ++ (name
        ++ (codes " and " ++ (passwd ++ (codes "\r\n<p>" ++ codes "\r\nThanks for visiting!\r\n"))))

-- `strcpy` into an array of MAXLINE bytes
abbrev pub copied : Bytes → Outcome Bytes → Outcome Bytes
copied text o = if leb maxline (length text) then fault else o

-- The arguments stand on both sides of the first `&`; without one a null pointer is written through.
unfoldable pub split_query : Bytes → Outcome Bytes
split_query buf = elim (strchr b'&' buf) [
  | none ↦ fault
  | some p ↦
      let name = take_while (not_in_strchr b'&') buf in
      let passwd = drop 1 p in copied name (copied passwd (reply (welcome name passwd)))
]

-- `main`: what the program writes to its standard output. `junk_name` and `junk_passwd` are what the
-- arrays hold unset.
unfoldable pub get_auth : Bytes → Bytes → Program → Outcome Bytes
unfolding split_query
get_auth junk_name junk_passwd p = elim (getenv (codes "QUERY_STRING") p) [
  | none ↦ reply (welcome junk_name junk_passwd)
  | some buf ↦ split_query buf
]

-- The program as `get_dynamic` starts it.
abbrev pub got : Bytes → Bytes → Program
got file cgi_args = record {
  file = file;
  name = codes "QUERY_STRING";
  value = cgi_args;
  stdin = [];
}

length-welcome :
    (name passwd : Bytes) → length (welcome name passwd) ≡ length name + length passwd + 54
length-welcome name passwd = omega (
  arith,
  length-append name
      (codes " and " ++ (passwd ++ (codes "\r\n<p>" ++ codes "\r\nThanks for visiting!\r\n"))),
  length-append passwd (codes "\r\n<p>" ++ codes "\r\nThanks for visiting!\r\n"),
)

split_query-append :
    (name passwd : Bytes)
    → all (not_in_strchr b'&') name ≡ true
    → length name < maxline
    → length passwd < maxline
    → split_query (name ++ b'&' ∷ passwd) ≡ reply (welcome name passwd)
unfolding split_query
split_query-append name passwd h l m =
    rw
      (
        split_query,
        strchr-append b'&' name passwd h,
        take_while-append (not_in_strchr b'&') name b'&' passwd h refl,
        leb_lt l,
        leb_lt m,
      )
      refl

-- Where `execve` takes the program, the process that `get_dynamic` leaves behind for a query of two
-- texts with a `&` between them, the first without one and without a zero byte, runs the program; and
-- it answers with the two texts, in order, under a `Content-length` that is the length of the answer,
-- if that fits its array.
pub get_auth-got :
    (h : Host) (junk_name junk_passwd file name passwd : Bytes)
    → h.can_exec file ≡ true
    → all (not_in_strchr b'&') name ≡ true
    → length name + length passwd + 54 < maxline
    → (get_program h file (name ++ b'&' ∷ passwd) ≡ exec (got file (name ++ b'&' ∷ passwd)))
      × (get_auth junk_name junk_passwd (got file (name ++ b'&' ∷ passwd))
          ≡ done (
              codes "Content-length: "
              ++ (print_int (pos (length name + length passwd + 54))
                  ++ (codes "\r\n"
                      ++ (codes "Content-type: text/html\r\n\r\n" ++ welcome name passwd)))))
unfolding get_auth
get_auth-got h junk_name junk_passwd file name passwd can a l = (
  rw can,
  split_query-append name passwd a (omega (arith, l)) (omega (arith, l))
      ∙ reply_fits (welcome name passwd) (omega (arith, length-welcome name passwd, l))
      ∙ ap
          (λ n. done (
            codes "Content-length: "
            ++ (print_int (pos n)
                ++ (codes "\r\n"
                    ++ (codes "Content-type: text/html\r\n\r\n" ++ welcome name passwd)))))
          (length-welcome name passwd),
)
