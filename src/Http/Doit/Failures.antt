-- ===== src/Http/Doit/Failures.antt =====
-- `doit` where something fails behind the request: the file cannot be mapped, the program cannot be
-- run, or no process can be made.
use twebs.Prelude.{
  ℕ, ◌+◌, ◌<◌, ◌≡◌, ◌≢◌, true, false, ◌&&◌, none, some, Bytes, List, [], ◌∷◌, ◌++◌, length, arith,
  codes, ◌∙◌, ap, ℤ, pos, refl, append-nil, to_int,
}
use twebs.Outcome.{done, exited}
use twebs.Log.{stamp}
use twebs.Kernel.{Kernel, Ghost, IsReliable}
use twebs.CString.{strcaseeq}
use twebs.Rio.{rio_bufsize}
use twebs.Http.{Host, World, Stat, maxline, write_all}
use twebs.Http.Sending.{sent_by, patience_of, write_all-Sent}
use twebs.Http.Uri.{Parsed, parse_uri}
use twebs.Http.Reply.{error_body, static_header, client_error, not_runnable}
use twebs.Http.Reply.Errors.{is_403_dynamic, cut_reply, client_error_lem}
use twebs.Http.Reply.Files.{serve_static_unmapped}
use twebs.Http.Headers.{get_requesthdrs, post_requesthdrs}
use twebs.Http.Headers.Lines.{Took, Took-then, IsLine, IsBlock, block, announced}
use twebs.Http.Headers.Requests.{get_requesthdrs_lem, post_requesthdrs_lem}
use twebs.Http.Dynamic.{get_greeting, get_dynamic, post_dynamic}
use twebs.Http.Doit.{is_method, is_directory, is_regular, dynamic_content, serve, doit}
use twebs.Http.Doit.Request.{IsWord, request_line, Served, Took-Sent, doit-respond}
use twebs.Http.Doit.Replies.{respond_found, serve_readable, regular-not_listed}
use twebs.Http.Doit.Programs.{serve_get, serve_post}

-- Nothing was sent and no process left behind.
pub Took-Served :
    {S : Type 0} {g : Ghost S} {rest logged : Bytes} {u v : World S}
    → Took g rest logged u v
    → Served g [] rest logged [] u v
Took-Served {g} {u} t = ground (arith, append-nil u.children, append-nil (sent_by g u))

module _ {S : Type 0} (k : Kernel S) (fuel : ℕ) (h : Host) where
  serve-not_runnable :
      (method : Bytes) (p : Parsed) (status : Stat) (w : World S)
      → (is_directory status.file_type && h.is_show_dir) ≡ false
      → p.is_static ≡ false
      → (is_regular status.file_type && status.user_exec) ≡ false
      → serve k fuel h method p status w ≡ client_error k fuel h p.filename not_runnable w
  unfolding serve dynamic_content
  serve-not_runnable method p status w n d e = ground arith

  get_dynamic_no_fork :
      (filename cgi_args : Bytes) (w : World S)
      → h.can_fork ≡ false
      → (write_all k fuel get_greeting w).0 ≡ done tt
      → get_dynamic k fuel h filename cgi_args w ≡ (exited 0, (write_all k fuel get_greeting w).1)
  unfolding get_dynamic
  get_dynamic_no_fork filename cgi_args w n e = ground arith

  post_dynamic_no_fork :
      (filename : Bytes) (n : ℤ) (w : World S)
      → h.can_fork ≡ false
      → post_dynamic k fuel h filename n w ≡ (exited 0, w)
  unfolding post_dynamic
  post_dynamic_no_fork filename n w e = ground arith

module _ {S : Type 0} {k : Kernel S} {g : Ghost S} (law : IsReliable k g) (fuel : ℕ) (h : Host)
    (method uri version rest : Bytes) (w : World S) (m : IsWord method) (u : IsWord uri)
    (l : IsLine (request_line method uri version)) (v : length w.rio.rio_buf ≡ rio_bufsize)
    (comes : g.pending w.rio.rio_fd ≡ request_line method uri version ++ b'\n' ∷ rest)
    (gas : maxline + patience_of g w + 1 < fuel) (p : Parsed) (status : Stat)
    (known : is_method method ≡ true) (parsed : parse_uri fuel h uri ≡ done p)
    (found : h.lstat p.filename ≡ some status) where
  -- A request for a program that is not regular, or that its owner cannot run, is answered with the
  -- error 403; the headers are neither read nor logged.
  pub doit-not_runnable :
      (is_directory status.file_type && h.is_show_dir) ≡ false
      → p.is_static ≡ false
      → (is_regular status.file_type && status.user_exec) ≡ false
      → length (error_body not_runnable p.filename) < maxline
      → ((doit k fuel h w).0 ≡ done tt)
        × Served g (cut_reply not_runnable p.filename) rest [] [] w (doit k fuel h w).1
  doit-not_runnable n d e fits =
      let (w', q, t) =
        doit-respond law fuel h method uri version rest w m u l v comes (omega arith) in
      let (r, s) =
        client_error_lem law fuel h not_runnable p.filename w' is_403_dynamic fits
          (omega (arith, t.patient)) in
      rw
        (
          q,
          respond_found k fuel h method uri w' p known parsed status found,
          serve-not_runnable k fuel h method p status w' n d e,
        )
        (r, Took-Sent t s)

  module _ (first : Bytes) (ls : List Bytes) (body : Bytes) (first_line : IsLine first)
      (first_full : first ≢ codes "\r") (lines : IsBlock ls)
      (headers : rest ≡ first ++ b'\n' ∷ block ls body) (rounds : length ls + 1 < fuel) where
    -- A request for a readable file that cannot be opened and mapped consumes and logs the headers,
    -- and ends the process with status 0 and no reply.
    pub doit_unmapped :
        p.is_static ≡ true
        → (is_regular status.file_type && status.user_read) ≡ true
        → length (static_header p.filename (to_int status.st_size)) < maxline
        → h.open_mapped p.filename (to_int status.st_size) ≡ none
        → ((doit k fuel h w).0 ≡ exited 0)
          × Served g [] body (stamp h.now ++ block ls []) [] w (doit k fuel h w).1
    doit_unmapped static ok fits e =
        let (w', q, t) =
          doit-respond law fuel h method uri version rest w m u l v comes (omega arith) in
        let (r, t') =
          get_requesthdrs_lem law fuel fuel h first ls body w' first_line first_full lines t.valid
            (t.leaves ∙ headers) (omega (arith, t.patient)) rounds in
        let w'' = (get_requesthdrs k fuel h fuel w').1 in
        let not_listed = regular-not_listed status h.is_show_dir (ground arith) in
        rw
          (
            q,
            respond_found k fuel h method uri w' p known parsed status found,
            serve_readable k fuel h method p status w' not_listed static r ok,
            serve_static_unmapped k fuel h p.filename (to_int status.st_size) w'' fits e,
          )
          (
            refl,
            Took-Served (Took-then law [] rest body (stamp h.now ++ block ls []) w w' w'' t t'),
          )

    module _ (dynamic : p.is_static ≡ false)
        (ok : (is_regular status.file_type && status.user_exec) ≡ true) where
      -- Where no process can be made, a GET request for a program is greeted and the process ends
      -- with status 0.
      pub doit_get_no_fork :
          h.can_fork ≡ false
          → strcaseeq method (codes "POST") ≡ false
          → ((doit k fuel h w).0 ≡ exited 0)
            × Served g get_greeting body (stamp h.now ++ block ls []) [] w (doit k fuel h w).1
      doit_get_no_fork cannot e =
          let (w', q, t) =
            doit-respond law fuel h method uri version rest w m u l v comes (omega arith) in
          let (r, t') =
            get_requesthdrs_lem law fuel fuel h first ls body w' first_line first_full lines t.valid
              (t.leaves ∙ headers) (omega (arith, t.patient)) rounds in
          let w'' = (get_requesthdrs k fuel h fuel w').1 in
          let a = Took-then law [] rest body (stamp h.now ++ block ls []) w w' w'' t t' in
          let (o, s) = write_all-Sent law fuel get_greeting w'' (omega (arith, a.patient)) in
          rw
            (
              q,
              respond_found k fuel h method uri w' p known parsed status found,
              serve_get k fuel h method p status w' dynamic ok e r,
              get_dynamic_no_fork k fuel h p.filename p.cgi_args w'' cannot o,
            )
            (refl, Took-Sent a s)

      module _ (n : ℤ) (post : strcaseeq method (codes "POST") ≡ true)
          (says : announced ls (pos 0) ≡ n) where
        -- Where no process can be made, a POST request for a program ends the process with status 0
        -- and no reply.
        pub doit_post_no_fork :
            h.can_fork ≡ false
            → ((doit k fuel h w).0 ≡ exited 0)
              × Served g [] body (stamp h.now ++ block ls []) [] w (doit k fuel h w).1
        doit_post_no_fork cannot =
            let (w', q, t) =
              doit-respond law fuel h method uri version rest w m u l v comes (omega arith) in
            let (r, t') =
              post_requesthdrs_lem law fuel fuel h (pos 0) first ls body w' first_line first_full
                lines t.valid (t.leaves ∙ headers) (omega (arith, t.patient)) rounds in
            let w'' = (post_requesthdrs k fuel h fuel (pos 0) w').1 in
            rw
              (
                q,
                respond_found k fuel h method uri w' p known parsed status found,
                serve_post k fuel h method p status w' dynamic ok n post
                    (r ∙ ap (λ z. done z) says),
                post_dynamic_no_fork k fuel h p.filename n w'' cannot,
              )
              (
                refl,
                Took-Served (Took-then law [] rest body (stamp h.now ++ block ls []) w w' w'' t t'),
              )
