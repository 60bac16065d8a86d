-- ===== src/Http/Headers.antt =====
-- http_main.c: reading the request line and the headers.
pub mod Lines
pub mod Requests
use twebs.Prelude.{
  ℕ, zero, suc, Bool, true, false, not, ◌||◌, Option, none, some, Bytes, [], ◌∷◌, ◌++◌, drop, ◌==◌,
  if◌then◌else◌, codes, ℤ, pos,
}
use twebs.Outcome.{Outcome, done, stopped, running}
use twebs.Log.{stamp}
use twebs.Kernel.{Kernel}
use twebs.CString.{isspace, isblank, take_while, drop_while, cstr, streq, strncaseeq, atoi}
use twebs.Http.{Host, World, M, ◌>>=◌, ◌>>◌, pure, stop, writelog, read_line}
use twebs.Http.Reply.{crlf}

-- What `sscanf(buf, "%s %s %s", …)` stores for a token, if it finds one, and what is left.
abbrev pub token : Bytes → Bytes → Bytes
token junk s = elim (drop_while isspace s) [
  | [] ↦ junk
  | c ∷ cs ↦ take_while (λ d. not (isspace d)) (c ∷ cs)
]

abbrev pub after_token : Bytes → Bytes
after_token s = drop_while (λ d. not (isspace d)) (drop_while isspace s)

-- `strncasecmp(buf, "Content-Length:", 15) == 0`, and the number behind it
abbrev pub note_length : Bytes → ℤ → ℤ
note_length buf length =
    if strncaseeq 15 buf (codes "Content-Length:")
    then atoi (drop_while isblank (drop 15 buf))
    else length

module _ {S : Type 0} (k : Kernel S) (fuel : ℕ) (h : Host) where
  -- The loop of `get_requesthdrs`, with fuel for its rounds.
  unfoldable pub get_loop : ℕ → Bytes → M S (Unit {0})
  get_loop zero buf w = (running, w)
  get_loop (suc f) buf w = elim (streq (cstr buf) crlf) [
    | true ↦ (done tt, w)
    | false ↦ (do buf' ← read_line k fuel buf; writelog (cstr buf'); get_loop f buf') w
  ]

  unfoldable pub get_requesthdrs : ℕ → M S (Unit {0})
  get_requesthdrs f = do buf ← read_line k fuel h.junk_line; writelog (stamp h.now); get_loop f buf

  -- The loop of `post_requesthdrs`; its result is what stands in `*length`.
  unfoldable pub post_loop : ℕ → ℤ → Bytes → M S ℤ
  post_loop zero length buf w = (running, w)
  post_loop (suc f) length buf w = elim (streq (cstr buf) crlf) [
    | true ↦ (done length, w)
    | false ↦
        (do
          buf' ← read_line k fuel buf
          writelog (cstr buf')
          post_loop f (note_length (cstr buf') length) buf')
          w
  ]

  unfoldable pub post_requesthdrs : ℕ → ℤ → M S ℤ
  post_requesthdrs f length = do
    buf ← read_line k fuel h.junk_line
    writelog (stamp h.now)
    post_loop f length buf
