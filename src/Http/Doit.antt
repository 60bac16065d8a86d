-- ===== src/Http/Doit.antt =====
-- http_main.c: `doit`, one request and its response.
pub mod Request
pub mod Replies
pub mod Programs
pub mod Folders
pub mod Failures
pub mod Contract
pub mod Refines
pub mod Total
pub mod Answers
use twebs.Prelude.{
  ℕ, Bool, true, false, not, ◌&&◌, ◌||◌, Option, none, some, Bytes, [], if◌then◌else◌, codes, ℤ,
  pos, to_int,
}
use twebs.Outcome.{Outcome}
use twebs.Kernel.{Kernel}
use twebs.Rio.{rio_readinitb}
use twebs.CString.{strcaseeq, cstr}
use twebs.Http.{
  Host, World, M, ◌>>=◌, ◌>>◌, pure, stop, read_line, Stat, FileType, regular, directory, fifo,
  link, socket, other,
}
use twebs.Http.Uri.{Parsed, parse_uri}
use twebs.Http.Reply.{
  client_error, serve_static, not_implemented, not_found, unreadable, not_runnable,
}
use twebs.Http.Headers.{token, after_token, get_requesthdrs, post_requesthdrs}
use twebs.Http.Dynamic.{get_dynamic, post_dynamic}
use twebs.Http.Directory.{serve_dir}

-- `S_ISREG` and `S_ISDIR`
abbrev pub is_regular : FileType → Bool
is_regular regular = true
is_regular directory = false
is_regular fifo = false
is_regular link = false
is_regular socket = false
is_regular other = false

abbrev pub is_directory : FileType → Bool
is_directory directory = true
is_directory regular = false
is_directory fifo = false
is_directory link = false
is_directory socket = false
is_directory other = false

abbrev pub is_method : Bytes → Bool
is_method method = strcaseeq method (codes "GET") || strcaseeq method (codes "POST")

-- `Rio_readinitb(&rio, fd)`
abbrev pub opened : {S : Type 0} → Kernel S → World S → World S
opened k w = record w { rio = rio_readinitb k w.rio w.rio.rio_fd }

module _ {S : Type 0} (k : Kernel S) (fuel : ℕ) (h : Host) where
  unfoldable pub static_content : Parsed → Stat → M S (Unit {0})
  static_content p status = do
    get_requesthdrs k fuel h fuel
    if not (is_regular status.file_type) || not status.user_read
        then client_error k fuel h p.filename unreadable
        else serve_static k fuel h p.filename (to_int status.st_size)

  unfoldable pub dynamic_content : Bytes → Parsed → Stat → M S (Unit {0})
  dynamic_content method p status =
      if not (is_regular status.file_type) || not status.user_exec
      then client_error k fuel h p.filename not_runnable
      else if not (strcaseeq method (codes "POST"))
      then (do get_requesthdrs k fuel h fuel; get_dynamic k fuel h p.filename p.cgi_args)
      else (do
        content_length ← post_requesthdrs k fuel h fuel (pos 0)
        post_dynamic k fuel h p.filename content_length)

  -- Behind `lstat`: a directory's listing ends the process, so nothing follows it.
  unfoldable pub serve : Bytes → Parsed → Stat → M S (Unit {0})
  unfolding static_content dynamic_content
  serve method p status =
      if is_directory status.file_type && h.is_show_dir
      then serve_dir k fuel h p.filename
      else if p.is_static
      then static_content p status
      else dynamic_content method p status

  -- Behind the request line.
  unfoldable pub respond : Bytes → Bytes → M S (Unit {0})
  respond method uri =
      if not (is_method method) then client_error k fuel h method not_implemented else (do
        p ← stop (parse_uri fuel h uri)
        elim (h.lstat p.filename) [
          | none ↦ client_error k fuel h p.filename not_found
          | some status ↦ serve method p status
        ])

  -- The connection is `rio.rio_fd`; the rest of `rio` is an array that nothing has set yet.
  unfoldable pub doit : M S (Unit {0})
  unfolding respond
  doit w =
      (read_line k fuel [] >>= λ buf.
      let line = cstr buf in
      respond (token h.junk_token line) (token h.junk_token (after_token line)))
        (opened k w)
