-- ===== src/Http/Dynamic.antt =====
-- http_main.c: the handlers that run a CGI program.
pub mod Handlers
use twebs.Prelude.{
  ℕ, suc, ◌-◌, Bool, true, false, Option, none, some, Bytes, List, [], ◌∷◌, ◌++◌, length, take,
  replicate, codes, ℤ, pos, negsuc, leb, if◌then◌else◌,
}
use twebs.Outcome.{
  Outcome, done, stopped, exited, fault, running, out_of_fuel, Stop, exit, exec, undefined, Program,
}
use twebs.Kernel.{Kernel}
use twebs.CString.{print_int}
use twebs.Http.{Host, World, M, ◌>>=◌, ◌>>◌, pure, stop, maxline, write_all, read_block}
use twebs.Http.Reply.{crlf}

abbrev pub get_greeting : Bytes
get_greeting = codes "HTTP/1.0 200 OK\r\nServer: Tiny Web Server\r\n"

abbrev pub post_greeting : Bytes
post_greeting = codes "HTTP/1.9 200 OK\r\nServer: Tiny Web Server\r\n"

-- `Execve`: the program takes over, or the process exits with status 0.
abbrev pub execve : Host → Program → Stop
execve h p = if h.can_exec p.file then exec p else exit 0

-- `data` holds MAXLINE zero bytes at first.
abbrev pub filled_data : Bytes → ℕ → Bytes
filled_data received n = take n (received ++ replicate (maxline - length received) 0)

module _ {S : Type 0} (k : Kernel S) (fuel : ℕ) (h : Host) where
  abbrev fork : M S (Unit {0}) → M S (Unit {0})
  fork m = if h.can_fork then m else stop (exited 0)

  -- The child of `get_dynamic` is left running; the parent returns.
  unfoldable pub get_dynamic : Bytes → Bytes → M S (Unit {0})
  get_dynamic filename cgi_args = do
    write_all k fuel get_greeting
    fork λ w. (
      done tt,
      record w {
        children =
            w.children
            ++ execve h (record {
              file = filename;
              name = codes "QUERY_STRING";
              value = cgi_args;
              stdin = [];
            })
              ∷ [];
      },
    )

  -- The child of `post_dynamic` for a length above MAXLINE, or a negative one, which is a huge
  -- `size_t`: it reads up to the end of the connection or past the end of `data`, and where the
  -- connection ends before that, it writes what stands behind `data`.
  past_data : M S Bytes
  past_data = do received ← read_block k fuel (suc maxline); stop fault

  -- The child of `post_dynamic`: it copies the body of the request into the pipe.
  unfoldable pub pump : ℤ → M S Bytes
  unfolding past_data
  pump (negsuc n) = past_data
  pump (pos n) =
      if leb (suc maxline) n
      then past_data
      else (do received ← read_block k fuel n; pure (filled_data received n))

  -- What the CGI program finds in the pipe: nothing, if the child gave up. What a child whose
  -- behaviour is undefined leaves there is a parameter; that child is noted among the processes left
  -- behind.
  unfoldable pub piped : ℤ → M S Bytes
  piped content_length w =
      let (o, w') = pump content_length w in
      elim o [
        | done bs ↦ (done bs, w')
        | stopped e ↦ elim e [
          | undefined ↦ (done h.junk_pipe, record w' { children = w'.children ++ undefined ∷ [] })
          | out_of_fuel ↦ (running, w')
          | _ ↦ (done [], w')
        ]
      ]

  -- The parent becomes the CGI program, whatever its child does.
  unfoldable pub post_dynamic : Bytes → ℤ → M S (Unit {0})
  unfolding pump piped
  post_dynamic filename content_length = do
    stdin ← (if h.can_fork then piped content_length else stop (exited 0))
    write_all k fuel post_greeting
    stop (
        stopped (
          execve h (record {
            file = filename;
            name = codes "CONTENT-LENGTH";
            value = print_int content_length;
            stdin = stdin;
          })))
