-- ===== src/Http/Doit/Folders.antt =====
-- `doit` from the request line to the listing of a directory.
use twebs.Prelude.{
  ℕ, ◌+◌, ◌≤◌, ◌<◌, ◌≡◌, true, ◌&&◌, some, Bytes, List, [], ◌∷◌, ◌++◌, length, drop, codes, arith,
}
use twebs.Outcome.{done, exited}
use twebs.Kernel.{Kernel, Ghost, IsReliable}
use twebs.CString.{strrchr}
use twebs.Rio.{rio_bufsize}
use twebs.Http.{Host, World, Stat, maxline}
use twebs.Http.Sending.{patience_of}
use twebs.Http.Uri.{Parsed, parse_uri}
use twebs.Http.Headers.Lines.{IsLine}
use twebs.Http.Directory.{dir_header, serve_dir}
use twebs.Http.Directory.Listing.{Rows, whole_page, serve_dir_lem}
use twebs.Http.Doit.{is_method, is_directory, serve, doit}
use twebs.Http.Doit.Request.{IsWord, request_line, Served, Took-Sent, doit-respond}
use twebs.Http.Doit.Replies.{respond_found}

serve_folder :
    {S : Type 0} (k : Kernel S) (fuel : ℕ) (h : Host) (method : Bytes) (p : Parsed) (status : Stat)
    (w : World S)
    → (is_directory status.file_type && h.is_show_dir) ≡ true
    → serve k fuel h method p status w ≡ serve_dir k fuel h p.filename w
unfolding serve
serve_folder k fuel h method p status w e = ground arith

module _ {S : Type 0} {k : Kernel S} {g : Ghost S} (law : IsReliable k g) (fuel : ℕ) (h : Host)
    (method uri version rest : Bytes) (w : World S) (m : IsWord method) (u : IsWord uri)
    (l : IsLine (request_line method uri version)) (v : length w.rio.rio_buf ≡ rio_bufsize)
    (comes : g.pending w.rio.rio_fd ≡ request_line method uri version ++ b'\n' ∷ rest)
    (gas : maxline + patience_of g w ≤ fuel) (p : Parsed) (known : is_method method ≡ true)
    (parsed : parse_uri fuel h uri ≡ done p) where
  -- On a connection that does not break, with a request line of three words that fits the buffer and
  -- enough fuel: a GET or POST request whose URI is parsed to a directory, while listings are on, is
  -- answered with the page that has one row for each name in the directory, and the process ends with
  -- status 0; the headers are neither read nor logged. The machine has to show the state and the owner
  -- of every name, and the texts to fit their arrays.
  pub doit_directory :
      (status : Stat) (slash text : Bytes) (names : List Bytes)
      → h.lstat p.filename ≡ some status
      → (is_directory status.file_type && h.is_show_dir) ≡ true
      → strrchr b'/' p.filename ≡ some slash
      → length (drop 1 slash ++ codes "/") < maxline
      → h.entries p.filename ≡ some names
      → Rows h p.filename (drop 1 slash ++ codes "/") names text
      → length (whole_page text) < maxline
      → ((doit k fuel h w).0 ≡ exited 0)
        × Served g
            (dir_header (length (whole_page text)) ++ whole_page text)
            rest
            []
            []
            w
            (doit k fuel h w).1
  doit_directory status slash text names found listed s d n r fits =
      let (w', q, t) =
        doit-respond law fuel h method uri version rest w m u l v comes (omega arith) in
      let (o, sent) =
        serve_dir_lem law fuel h p.filename slash text names w' s d n r fits
          (omega (arith, t.patient)) in
      rw
        (
          q,
          respond_found k fuel h method uri w' p known parsed status found,
          serve_folder k fuel h method p status w' listed,
        )
        (o, Took-Sent t sent)
