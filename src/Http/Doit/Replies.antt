-- ===== src/Http/Doit/Replies.antt =====
-- `doit` from the request line to the reply, for requests that no program answers.
use twebs.Prelude.{
  ℕ, ◌+◌, ◌≤◌, ◌<◌, ◌≡◌, ◌≢◌, Bool, true, false, ◌&&◌, none, some, Bytes, List, [], ◌∷◌, ◌++◌,
  length, arith, codes, ◌∙◌, ap, pos, ◌^◌, to_int,
}
use twebs.Outcome.{done}
use twebs.Log.{stamp}
use twebs.Kernel.{Kernel, Ghost, IsReliable}
use twebs.Rio.{rio_bufsize}
use twebs.Http.{Host, World, Stat, maxline}
use twebs.Http.Sending.{patience_of}
use twebs.Http.Uri.{Parsed, parse_uri}
use twebs.Http.Reply.{
  error_body, static_header, client_error, serve_static, not_implemented, not_found, unreadable,
}
use twebs.Http.Reply.Errors.{is_501, is_404, is_403_static, cut_reply, client_error_lem}
use twebs.Http.Reply.Files.{serve_static_lem}
use twebs.Http.Headers.{get_requesthdrs}
use twebs.Http.Headers.Lines.{IsLine, IsBlock, block, Took-then}
use twebs.Http.Headers.Requests.{get_requesthdrs_lem}
use twebs.Http.Doit.{is_method, is_regular, is_directory, static_content, serve, respond, doit}
use twebs.Http.Doit.Request.{IsWord, request_line, Served, Took-Sent, doit-respond}

module _ {S : Type 0} (k : Kernel S) (fuel : ℕ) (h : Host) (method uri : Bytes) (w : World S) where
  respond_unknown :
      is_method method ≡ false
      → respond k fuel h method uri w ≡ client_error k fuel h method not_implemented w
  unfolding respond
  respond_unknown e = ground arith

  module _ (p : Parsed) (known : is_method method ≡ true)
      (parsed : parse_uri fuel h uri ≡ done p) where
    respond_missing :
        h.lstat p.filename ≡ none
        → respond k fuel h method uri w ≡ client_error k fuel h p.filename not_found w
    unfolding respond
    respond_missing e = ground arith

    pub respond_found :
        (status : Stat)
        → h.lstat p.filename ≡ some status
        → respond k fuel h method uri w ≡ serve k fuel h method p status w
    unfolding respond
    respond_found status e = ground arith

module _ {S : Type 0} (k : Kernel S) (fuel : ℕ) (h : Host) (method : Bytes) (p : Parsed)
    (status : Stat) (w : World S)
    (not_listed : (is_directory status.file_type && h.is_show_dir) ≡ false)
    (static : p.is_static ≡ true) (read : (get_requesthdrs k fuel h fuel w).0 ≡ done tt) where
  abbrev pub behind : World S
  behind = (get_requesthdrs k fuel h fuel w).1

  pub serve_readable :
      (is_regular status.file_type && status.user_read) ≡ true
      → serve k fuel h method p status w
        ≡ serve_static k fuel h p.filename (to_int status.st_size) behind
  unfolding serve static_content
  serve_readable e = ground arith

  serve-unreadable :
      (is_regular status.file_type && status.user_read) ≡ false
      → serve k fuel h method p status w ≡ client_error k fuel h p.filename unreadable behind
  unfolding serve static_content
  serve-unreadable e = ground arith

pub regular-not_listed :
    (status : Stat) (show : Bool)
    → is_regular status.file_type ≡ true
    → (is_directory status.file_type && show) ≡ false
regular-not_listed status show e = ground arith

pub to_int_small : (n : ℕ) → n < 2 ^ 31 → to_int n ≡ pos n
to_int_small n l = ground arith

module _ {S : Type 0} {k : Kernel S} {g : Ghost S} (law : IsReliable k g) (fuel : ℕ) (h : Host)
    (method uri version rest : Bytes) (w : World S) (m : IsWord method) (u : IsWord uri)
    (l : IsLine (request_line method uri version)) (v : length w.rio.rio_buf ≡ rio_bufsize)
    (comes : g.pending w.rio.rio_fd ≡ request_line method uri version ++ b'\n' ∷ rest)
    (gas : maxline + patience_of g w ≤ fuel) where
  -- On a connection that does not break, with a request line of three words that fits the
  -- buffer and enough fuel: a request with a method other than GET and POST, in either case of
  -- letters, is answered with the error 501, its body cut as in `cut_reply`, and nothing else,
  -- if the error's text fits its array; the rest of the request stays unread.
  pub doit_unknown_method :
      is_method method ≡ false
      → length (error_body not_implemented method) < maxline
      → ((doit k fuel h w).0 ≡ done tt)
        × Served g (cut_reply not_implemented method) rest [] [] w (doit k fuel h w).1
  doit_unknown_method e fits =
      let (w', q, t) =
        doit-respond law fuel h method uri version rest w m u l v comes (omega arith) in
      let (r, s) =
        client_error_lem law fuel h not_implemented method w' is_501 fits
          (omega (arith, t.patient)) in
      rw (q, respond_unknown k fuel h method uri w' e) (r, Took-Sent t s)

  module _ (p : Parsed) (known : is_method method ≡ true)
      (parsed : parse_uri fuel h uri ≡ done p) where
    -- On a connection that does not break, with a request line of three words that fits the
    -- buffer and enough fuel: a GET or POST request whose URI is parsed to a file that does not
    -- exist is answered with the error 404, its body cut as in `cut_reply`, and nothing else,
    -- if the error's text fits its array.
    pub doit_missing_file :
        h.lstat p.filename ≡ none
        → length (error_body not_found p.filename) < maxline
        → ((doit k fuel h w).0 ≡ done tt)
          × Served g (cut_reply not_found p.filename) rest [] [] w (doit k fuel h w).1
    doit_missing_file e fits =
        let (w', q, t) =
          doit-respond law fuel h method uri version rest w m u l v comes (omega arith) in
        let (r, s) =
          client_error_lem law fuel h not_found p.filename w' is_404 fits
            (omega (arith, t.patient)) in
        rw (q, respond_missing k fuel h method uri w' p known parsed e) (r, Took-Sent t s)

    module _ (status : Stat) (first : Bytes) (ls : List Bytes) (body : Bytes)
        (found : h.lstat p.filename ≡ some status) (static : p.is_static ≡ true)
        (first_line : IsLine first) (first_full : first ≢ codes "\r") (lines : IsBlock ls)
        (headers : rest ≡ first ++ b'\n' ∷ block ls body) (rounds : length ls + 1 < fuel) where
      -- On a connection that does not break, with a request line of three words that fits the
      -- buffer and enough fuel: a GET or POST request whose URI is parsed to a static file that
      -- is regular, that its owner can read, and whose bytes (less than 2^31) the server can
      -- map is answered with the status 200, the file's size and type, and the whole file; all
      -- headers up to the empty line are consumed, the time and every header line but the first
      -- are logged, and the body is left unread.
      pub doit_static_file :
          (file : Bytes)
          → (is_regular status.file_type && status.user_read) ≡ true
          → status.st_size ≡ length file
          → length file < 2 ^ 31
          → h.open_mapped p.filename (pos (length file)) ≡ some file
          → length (static_header p.filename (pos (length file))) < maxline
          → maxline + length file + patience_of g w ≤ fuel
          → ((doit k fuel h w).0 ≡ done tt)
            × Served g
                (static_header p.filename (pos (length file)) ++ file)
                body
                (stamp h.now ++ block ls [])
                []
                w
                (doit k fuel h w).1
      doit_static_file file ok size small mapped fits more =
          let (w', q, t) =
            doit-respond law fuel h method uri version rest w m u l v comes (omega arith) in
          let (r, t') =
            get_requesthdrs_lem law fuel fuel h first ls body w' first_line first_full lines t.valid
              (t.leaves ∙ headers) (omega (arith, t.patient)) rounds in
          let w'' = (get_requesthdrs k fuel h fuel w').1 in
          let (o, s) =
            serve_static_lem law fuel h p.filename file w'' mapped fits
              (omega (arith, t.patient, t'.patient)) in
          let not_listed = regular-not_listed status h.is_show_dir (ground arith) in
          rw
            (
              q,
              respond_found k fuel h method uri w' p known parsed status found,
              serve_readable k fuel h method p status w' not_listed static r ok,
              ap to_int size ∙ to_int_small (length file) small,
            )
            (o, Took-Sent (Took-then law [] rest body (stamp h.now ++ block ls []) w w' w'' t t') s)

      -- On a connection that does not break, with a request line of three words that fits the
      -- buffer and enough fuel: a GET or POST request for a static file that is not regular, or
      -- that its owner cannot read, and that is no directory while listings are on, consumes
      -- and logs the headers and is answered with the error 403, its body cut as in
      -- `cut_reply`, if the error's text fits its array.
      pub doit-unreadable_file :
          (is_directory status.file_type && h.is_show_dir) ≡ false
          → (is_regular status.file_type && status.user_read) ≡ false
          → length (error_body unreadable p.filename) < maxline
          → ((doit k fuel h w).0 ≡ done tt)
            × Served g
                (cut_reply unreadable p.filename)
                body
                (stamp h.now ++ block ls [])
                []
                w
                (doit k fuel h w).1
      doit-unreadable_file not_listed bad fits =
          let (w', q, t) =
            doit-respond law fuel h method uri version rest w m u l v comes (omega arith) in
          let (r, t') =
            get_requesthdrs_lem law fuel fuel h first ls body w' first_line first_full lines t.valid
              (t.leaves ∙ headers) (omega (arith, t.patient)) rounds in
          let w'' = (get_requesthdrs k fuel h fuel w').1 in
          let (o, s) =
            client_error_lem law fuel h unreadable p.filename w'' is_403_static fits
              (omega (arith, t.patient, t'.patient)) in
          rw
            (
              q,
              respond_found k fuel h method uri w' p known parsed status found,
              serve-unreadable k fuel h method p status w' not_listed static r bad,
            )
            (o, Took-Sent (Took-then law [] rest body (stamp h.now ++ block ls []) w w' w'' t t') s)
