-- ===== src/Http/Doit/Contract.antt =====
-- What `doit` of http_main.c owes its client, as a table without loops, buffers or fuel: which file
-- a URI names (`Names`), and for each kind of request the whole reply (`Promised`). Where the code
-- has a fault the table says what comes of it.
mod Terms
pub use Terms.{
  Request, text_of, IsRequest, Reply, Headed, Names, Finds, Runs, IsPost, logged, below_root,
  program, bare_program, error_501, error_404, error_403, file_header, static_header-file_header,
  dir_header-file_header,
}
use twebs.Prelude.{
  ℕ, ◌≤◌, ◌<◌, ◌≡◌, true, false, ◌&&◌, none, some, Bytes, List, [], ◌∷◌, ◌++◌, length, codes, pos,
  ◌^◌, take, drop, to_int, ◌-◌, ◌+◌, replicate,
}
use twebs.Outcome.{done, stopped, exited, undefined}
use twebs.CString.{strcaseeq, strrchr}
use twebs.Http.{Host, Stat, maxline}
use twebs.Http.Uri.{Parsed}
use twebs.Http.Reply.{
  error_body, static_header, not_implemented, not_found, unreadable, not_runnable,
}
use twebs.Http.Reply.Errors.{cut_reply}
use twebs.Http.Headers.Lines.{announced}
use twebs.Http.Directory.{dir_header}
use twebs.Http.Directory.Listing.{Rows, whole_page}
use twebs.Http.Dynamic.{get_greeting, post_greeting}
use twebs.Http.Dynamic.Handlers.{get_program, post_program, posted_program, overflows}
use twebs.Http.Doit.{is_method, is_regular, is_directory}
use twebs.Http.Uri.Laws.{MediaType}

-- The reply to each kind of request.
pub data Promised (h : Host) (r : Request) : Reply → Type 0 where
  unknown_method :
      is_method r.method ≡ false
      → length (error_body not_implemented r.method) < maxline
      → Promised h r (record {
        outcome = done tt;
        sends = cut_reply error_501 r.method;
        leaves = r.rest;
        logs = [];
        spawns = [];
      })
  missing :
      {p : Parsed}
      → is_method r.method ≡ true
      → Names h r.uri p
      → h.lstat p.filename ≡ none
      → length (error_body not_found p.filename) < maxline
      → Promised h r (record {
        outcome = done tt;
        sends = cut_reply error_404 p.filename;
        leaves = r.rest;
        logs = [];
        spawns = [];
      })
  listing :
      {p : Parsed} {status : Stat} {slash text : Bytes} {entries : List Bytes}
      → Finds h r p status
      → (is_directory status.file_type && h.is_show_dir) ≡ true
      → strrchr b'/' p.filename ≡ some slash
      → length (drop 1 slash ++ codes "/") < maxline
      → h.entries p.filename ≡ some entries
      → Rows h p.filename (drop 1 slash ++ codes "/") entries text
      → length (whole_page text) < maxline
      → Promised h r (record {
        outcome = exited 0;
        sends = file_header (length (whole_page text)) (codes "text/html") ++ whole_page text;
        leaves = r.rest;
        logs = [];
        spawns = [];
      })
  file :
      {p : Parsed} {status : Stat} {first body content type : Bytes} {ls : List Bytes}
      → Finds h r p status
      → p.is_static ≡ true
      → (is_regular status.file_type && status.user_read) ≡ true
      → Headed r.rest first ls body
      → status.st_size ≡ length content
      → length content < 2 ^ 31
      → h.open_mapped p.filename (pos (length content)) ≡ some content
      → MediaType p.filename type
      → length (file_header (length content) type) < maxline
      → Promised h r (record {
        outcome = done tt;
        sends = file_header (length content) type ++ content;
        leaves = body;
        logs = logged h ls;
        spawns = [];
      })
  forbidden :
      {p : Parsed} {status : Stat} {first body : Bytes} {ls : List Bytes}
      → Finds h r p status
      → p.is_static ≡ true
      → (is_directory status.file_type && h.is_show_dir) ≡ false
      → (is_regular status.file_type && status.user_read) ≡ false
      → Headed r.rest first ls body
      → length (error_body unreadable p.filename) < maxline
      → Promised h r (record {
        outcome = done tt;
        sends = cut_reply (error_403 (codes "Tiny couldn`t read the file")) p.filename;
        leaves = body;
        logs = logged h ls;
        spawns = [];
      })
  unmapped :
      {p : Parsed} {status : Stat} {first body : Bytes} {ls : List Bytes}
      → Finds h r p status
      → p.is_static ≡ true
      → (is_regular status.file_type && status.user_read) ≡ true
      → Headed r.rest first ls body
      → length (static_header p.filename (to_int status.st_size)) < maxline
      → h.open_mapped p.filename (to_int status.st_size) ≡ none
      → Promised h r (record {
        outcome = exited 0;
        sends = [];
        leaves = body;
        logs = logged h ls;
        spawns = [];
      })
  not_run :
      {p : Parsed} {status : Stat}
      → Finds h r p status
      → p.is_static ≡ false
      → (is_directory status.file_type && h.is_show_dir) ≡ false
      → (is_regular status.file_type && status.user_exec) ≡ false
      → length (error_body not_runnable p.filename) < maxline
      → Promised h r (record {
        outcome = done tt;
        sends = cut_reply (error_403 (codes "Tiny couldn`t run the CGI program")) p.filename;
        leaves = r.rest;
        logs = [];
        spawns = [];
      })
  get_runs :
      {p : Parsed} {status : Stat} {first body : Bytes} {ls : List Bytes}
      → Runs h r p status first ls body
      → strcaseeq r.method (codes "POST") ≡ false
      → h.can_fork ≡ true
      → Promised h r (record {
        outcome = done tt;
        sends = codes "HTTP/1.0 200 OK\r\nServer: Tiny Web Server\r\n";
        leaves = body;
        logs = logged h ls;
        spawns = get_program h p.filename p.cgi_args ∷ [];
      })
  get_no_process :
      {p : Parsed} {status : Stat} {first body : Bytes} {ls : List Bytes}
      → Runs h r p status first ls body
      → strcaseeq r.method (codes "POST") ≡ false
      → h.can_fork ≡ false
      → Promised h r (record {
        outcome = exited 0;
        sends = codes "HTTP/1.0 200 OK\r\nServer: Tiny Web Server\r\n";
        leaves = body;
        logs = logged h ls;
        spawns = [];
      })
  post_runs :
      {p : Parsed} {status : Stat} {first body : Bytes} {ls : List Bytes} {n : ℕ}
      → Runs h r p status first ls body
      → IsPost r
      → h.can_fork ≡ true
      → announced ls (pos 0) ≡ pos n
      → n ≤ maxline
      → n ≤ length body
      → Promised h r (record {
        outcome = stopped (post_program h p.filename n (take n body));
        sends = codes "HTTP/1.9 200 OK\r\nServer: Tiny Web Server\r\n";
        leaves = drop n body;
        logs = logged h ls;
        spawns = [];
      })
  post_no_process :
      {p : Parsed} {status : Stat} {first body : Bytes} {ls : List Bytes}
      → Runs h r p status first ls body
      → IsPost r
      → h.can_fork ≡ false
      → Promised h r (record {
        outcome = exited 0;
        sends = [];
        leaves = body;
        logs = logged h ls;
        spawns = [];
      })
  post_short :
      {p : Parsed} {status : Stat} {first body : Bytes} {ls : List Bytes} {n : ℕ}
      → Runs h r p status first ls body
      → IsPost r
      → h.can_fork ≡ true
      → announced ls (pos 0) ≡ pos n
      → n ≤ maxline
      → length body < n
      → Promised h r (record {
        outcome = stopped (post_program h p.filename n (body ++ replicate (n - length body) 0));
        sends = codes "HTTP/1.9 200 OK\r\nServer: Tiny Web Server\r\n";
        leaves = [];
        logs = logged h ls;
        spawns = [];
      })
  post_overflow :
      {p : Parsed} {status : Stat} {first body : Bytes} {ls : List Bytes}
      → Runs h r p status first ls body
      → IsPost r
      → h.can_fork ≡ true
      → overflows (announced ls (pos 0)) ≡ true
      → Promised h r (record {
        outcome = stopped (posted_program h p.filename (announced ls (pos 0)) h.junk_pipe);
        sends = codes "HTTP/1.9 200 OK\r\nServer: Tiny Web Server\r\n";
        leaves = drop (maxline + 1) body;
        logs = logged h ls;
        spawns = undefined ∷ [];
      })
