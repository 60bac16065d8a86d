-- ===== src/Http/Doit/Programs.antt =====
-- `doit` from the request line to the CGI program.
use twebs.Prelude.{
  ℕ, ◌+◌, ◌≤◌, ◌<◌, ◌≡◌, ◌≢◌, true, false, ◌&&◌, some, Bytes, List, [], ◌∷◌, ◌++◌, length, arith,
  append-nil, codes, ◌∙◌, ap, ℤ, pos, take, drop, sym, ◌-◌, replicate,
}
use twebs.Outcome.{done, stopped, Outcome, undefined, Stop}
use twebs.Log.{stamp}
use twebs.Kernel.{Kernel, Ghost, IsReliable}
use twebs.CString.{strcaseeq}
use twebs.Rio.{rio_bufsize}
use twebs.Http.{Host, World, Stat, maxline}
use twebs.Http.Sending.{patience_of, sent_by}
use twebs.Http.Uri.{Parsed, parse_uri}
use twebs.Http.Headers.{get_requesthdrs, post_requesthdrs}
use twebs.Http.Headers.Lines.{Took-then, IsLine, IsBlock, block, announced}
use twebs.Http.Headers.Requests.{get_requesthdrs_lem, post_requesthdrs_lem}
use twebs.Http.Dynamic.{get_greeting, post_greeting, get_dynamic, post_dynamic}
use twebs.Http.Dynamic.Handlers.{
  get_program, post_program, get_dynamic_lem, post_dynamic_lem, posted_program, overflows,
  post_dynamic_overflow, post_dynamic_short,
}
use twebs.Http.Doit.{is_method, is_regular, dynamic_content, serve, doit}
use twebs.Http.Doit.Request.{IsWord, request_line, Served, doit-respond}
use twebs.Http.Doit.Replies.{respond_found}
use twebs.Rio.Buffered.{stream, IsValid}

module _ {S : Type 0} (k : Kernel S) (fuel : ℕ) (h : Host) (method : Bytes) (p : Parsed)
    (status : Stat) (w : World S) (dynamic : p.is_static ≡ false)
    (ok : (is_regular status.file_type && status.user_exec) ≡ true) where
  pub serve_get :
      strcaseeq method (codes "POST") ≡ false
      → (get_requesthdrs k fuel h fuel w).0 ≡ done tt
      → serve k fuel h method p status w
        ≡ get_dynamic k fuel h p.filename p.cgi_args (get_requesthdrs k fuel h fuel w).1
  unfolding serve dynamic_content
  serve_get e r = ground arith

  pub serve_post :
      (n : ℤ)
      → strcaseeq method (codes "POST") ≡ true
      → (post_requesthdrs k fuel h fuel (pos 0) w).0 ≡ done n
      → serve k fuel h method p status w
        ≡ post_dynamic k fuel h p.filename n (post_requesthdrs k fuel h fuel (pos 0) w).1
  unfolding serve dynamic_content
  serve_post n e r = ground arith

module _ {S : Type 0} {k : Kernel S} {g : Ghost S} (law : IsReliable k g) (fuel : ℕ) (h : Host)
    (method uri version first : Bytes) (ls : List Bytes) (body : Bytes) (w : World S)
    (m : IsWord method) (u : IsWord uri) (l : IsLine (request_line method uri version))
    (first_line : IsLine first) (first_full : first ≢ codes "\r") (lines : IsBlock ls)
    (v : length w.rio.rio_buf ≡ rio_bufsize)
    (comes : g.pending w.rio.rio_fd
      ≡ request_line method uri version ++ b'\n' ∷ (first ++ b'\n' ∷ block ls body))
    (p : Parsed) (status : Stat) (known : is_method method ≡ true)
    (parsed : parse_uri fuel h uri ≡ done p) (found : h.lstat p.filename ≡ some status)
    (dynamic : p.is_static ≡ false) (ok : (is_regular status.file_type && status.user_exec) ≡ true)
    (can : h.can_fork ≡ true) (gas : maxline + patience_of g w + 1 < fuel)
    (rounds : length ls + 1 < fuel) where
  -- On a connection that does not break, with a request line of three words that fits the
  -- buffer and enough fuel: for a GET request for a program that is regular and that its owner
  -- can run, the server consumes and logs the headers, sends its greeting, and leaves a process
  -- behind that runs the program with the arguments of the URI in QUERY_STRING, if it can fork.
  pub doit-get_program :
      strcaseeq method (codes "POST") ≡ false
      → ((doit k fuel h w).0 ≡ done tt)
        × Served g get_greeting body
            (stamp h.now ++ block ls [])
            (get_program h p.filename p.cgi_args ∷ [])
            w
            (doit k fuel h w).1
  doit-get_program e =
      let (w', q, t) =
        doit-respond law fuel h method uri version (first ++ b'\n' ∷ block ls body) w m u l v comes
          (omega arith) in
      let (r, t') =
        get_requesthdrs_lem law fuel fuel h first ls body w' first_line first_full lines t.valid
          t.leaves (omega (arith, t.patient)) rounds in
      let w'' = (get_requesthdrs k fuel h fuel w').1 in
      let a = Took-then law [] _ body (stamp h.now ++ block ls []) w w' w'' t t' in
      let (o, s, st, lg, ch) =
        get_dynamic_lem law fuel h can p.filename p.cgi_args w'' (omega (arith, a.patient)) in
      rw
        (
          q,
          respond_found k fuel h method uri w' p known parsed status found,
          serve_get k fuel h method p status w' dynamic ok e r,
        )
        (
          o,
          record {
            sends = s ∙ ap (λ b. b ++ get_greeting) a.silent;
            leaves = st ∙ a.leaves;
            logs = lg ∙ a.logs;
            spawns = ch ∙ ap (λ c. c ++ get_program h p.filename p.cgi_args ∷ []) a.keeps_children;
          },
        )

  module _ (z : ℤ) (post : strcaseeq method (codes "POST") ≡ true)
      (says : announced ls (pos 0) ≡ z) where
    -- What a POST request for a program comes to, from what `post_dynamic` does on the connection
    -- behind the headers.
    doit-post :
        (o : Outcome (Unit {0})) (bs rest : Bytes) (cs : List Stop)
        → ((x : World S)
            → IsValid x.rio
            → stream g x.rio ≡ body
            → maxline + patience_of g x + 1 < fuel
            → let r = post_dynamic k fuel h p.filename z x in
              (r.0 ≡ o)
              × (sent_by g r.1 ≡ sent_by g x ++ bs)
              × (stream g r.1.rio ≡ rest)
              × (r.1.log ≡ x.log)
              × (r.1.children ≡ x.children ++ cs))
        → ((doit k fuel h w).0 ≡ o)
          × Served g bs rest (stamp h.now ++ block ls []) cs w (doit k fuel h w).1
    doit-post o bs rest cs runs =
        let (w', q, t) =
          doit-respond law fuel h method uri version (first ++ b'\n' ∷ block ls body) w m u l v
            comes (omega arith) in
        let (r, t') =
          post_requesthdrs_lem law fuel fuel h (pos 0) first ls body w' first_line first_full lines
            t.valid t.leaves (omega (arith, t.patient)) rounds in
        let w'' = (post_requesthdrs k fuel h fuel (pos 0) w').1 in
        let a = Took-then law [] _ body (stamp h.now ++ block ls []) w w' w'' t t' in
        let (e, s, st, lg, ch) = runs w'' a.valid a.leaves (omega (arith, a.patient)) in
        rw
          (
            q,
            respond_found k fuel h method uri w' p known parsed status found,
            serve_post k fuel h method p status w' dynamic ok z post (r ∙ ap (λ y. done y) says),
          )
          (
            e,
            record {
              sends = s ∙ ap (λ b. b ++ bs) a.silent;
              leaves = st;
              logs = lg ∙ a.logs;
              spawns = ch ∙ ap (λ c. c ++ cs) a.keeps_children;
            },
          )

    -- Where the announced length is negative or above MAXLINE, the process sends its greeting and
    -- becomes the program, while the behaviour of its child is undefined.
    pub doit_post_overflow :
        overflows z ≡ true
        → ((doit k fuel h w).0 ≡ stopped (posted_program h p.filename z h.junk_pipe))
          × Served g post_greeting
              (drop (maxline + 1) body)
              (stamp h.now ++ block ls [])
              (undefined ∷ [])
              w
              (doit k fuel h w).1
    doit_post_overflow over =
        doit-post (stopped (posted_program h p.filename z h.junk_pipe)) post_greeting
          (drop (maxline + 1) body) (undefined ∷ [])
          λ x xv xs xl.
            let (e, t, st, lg, ch) =
              post_dynamic_overflow law fuel h can p.filename z x xv over xl in
            (e, t, st ∙ ap (drop (maxline + 1)) xs, lg, ch)

  module _ (n : ℕ) (post : strcaseeq method (codes "POST") ≡ true)
      (says : announced ls (pos 0) ≡ pos n) (small : n ≤ maxline) where
    -- For a POST request for a program that is regular and that its owner can run, whose headers
    -- announce `n` bytes, at most MAXLINE, that follow them, the process sends its greeting and
    -- becomes the program, with exactly those bytes as its standard input, if it can fork and
    -- `execve` takes the program.
    pub doit-post_program :
        n ≤ length body
        → ((doit k fuel h w).0 ≡ stopped (post_program h p.filename n (take n body)))
          × Served g post_greeting
              (drop n body)
              (stamp h.now ++ block ls [])
              []
              w
              (doit k fuel h w).1
    doit-post_program enough =
        doit-post (pos n) post says (stopped (post_program h p.filename n (take n body)))
          post_greeting (drop n body) []
          λ x xv xs xl.
            let (e, s, st, lg, ch) =
              post_dynamic_lem law fuel h can p.filename n x xv small (rw xs enough) xl in
            (
              e ∙ ap (λ b. stopped (post_program h p.filename n (take n b))) xs,
              s,
              st ∙ ap (drop n) xs,
              lg,
              ch ∙ sym (append-nil x.children),
            )

    -- Where the connection ends before those bytes, zero bytes stand in the place of the rest.
    pub doit_post_short :
        length body < n
        → ((doit k fuel h w).0
            ≡ stopped (post_program h p.filename n (body ++ replicate (n - length body) 0)))
          × Served g post_greeting [] (stamp h.now ++ block ls []) [] w (doit k fuel h w).1
    doit_post_short short =
        let stdin : Bytes → Bytes = λ b. b ++ replicate (n - length b) 0 in
        doit-post (pos n) post says (stopped (post_program h p.filename n (stdin body)))
          post_greeting [] []
          λ x xv xs xl.
            let (e, s, st, lg, ch) =
              post_dynamic_short law fuel h can p.filename n x xv small (rw xs short) xl in
            (
              e ∙ ap (λ b. stopped (post_program h p.filename n (stdin b))) xs,
              s,
              st,
              lg,
              ch ∙ sym (append-nil x.children),
            )
