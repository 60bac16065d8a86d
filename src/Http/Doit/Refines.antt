-- ===== src/Http/Doit/Refines.antt =====
-- `doit` of http_main.c keeps the table of Http/Doit/Contract.antt.
use twebs.Prelude.{
  ℕ, ◌+◌, ◌≤◌, ◌<◌, ◌≡◌, refl, true, false, Bytes, List, [], ◌∷◌, ◌++◌, length, arith, codes, ap,
  ◌∙◌, length-append, leb_lt, pos, Bool,
}
use twebs.Outcome.{done}
use twebs.Kernel.{Kernel, Ghost, IsReliable}
use twebs.CString.{strstr, all, take_while-all, drop_while}
use twebs.Rio.{rio_bufsize}
use twebs.Http.{Host, World, maxline, Stat}
use twebs.Http.Sending.{patience_of, sent_by}
use twebs.Http.Uri.{Parsed, parse_uri, dynamic_name, not_question}
use twebs.Http.Uri.Laws.{parse_uri-static, parse_uri-dynamic}
use twebs.Http.Reply.{static_header}
use twebs.Http.Headers.Lines.{block, announced}
use twebs.Http.Doit.{doit}
use twebs.Http.Doit.Request.{Served, request_line}
use twebs.Http.Doit.Replies.{
  doit_unknown_method, doit_missing_file, doit_static_file, doit-unreadable_file,
}
use twebs.Http.Doit.Programs.{
  doit-get_program, doit-post_program, doit_post_short, doit_post_overflow,
}
use twebs.Http.Doit.Folders.{doit_directory}
use twebs.Http.Doit.Failures.{doit-not_runnable, doit_unmapped, doit_get_no_fork, doit_post_no_fork}
use twebs.Http.Doit.Contract.{
  Request, IsRequest, text_of, Reply, Headed, Names, below_root, program, bare_program, Runs,
  Promised, unknown_method, missing, listing, file, forbidden, unmapped, not_run, get_runs,
  get_no_process, post_runs, post_no_process, post_short, post_overflow, file_header,
  static_header-file_header, dir_header-file_header,
}
use twebs.Http.Directory.Listing.{whole_page}

drop_while-all : (p : ℕ → Bool) (bs : Bytes) → all p bs ≡ true → drop_while p bs ≡ []
drop_while-all p [] e = refl
drop_while-all p (b ∷ bs) e = ground (arith, drop_while-all p bs)

-- A URI with "cig-bin" and no question mark names a program without arguments.
parse_uri-bare :
    (f : ℕ) (h : Host) (path : Bytes)
    → strstr path (codes "cig-bin") ≡ true
    → all not_question path ≡ true
    → length (h.cwd ++ path) < maxline
    → parse_uri f h path
      ≡ done (record { is_static = false; filename = h.cwd ++ path; cgi_args = [] })
unfolding parse_uri dynamic_name
parse_uri-bare f h path y q fits =
    rw (y, take_while-all not_question path q, drop_while-all not_question path q, leb_lt fits) refl

-- Whatever file the table has for a URI, `parse_uri` finds it, with fuel for the configuration file:
-- the document root with the URI behind it and "home.html" behind a slash, the program with the
-- arguments behind the first question mark, or the program without arguments.
pub Names-parse :
    (f : ℕ) (h : Host) {uri : Bytes} {p : Parsed}
    → Names h uri p
    → length h.config < f
    → parse_uri f h uri ≡ done p
Names-parse f h (below_root items {root} xs c conf v look n fits) l =
    parse_uri-static f h items root xs c conf v (rw (← conf) l) look n fits
Names-parse f h (program path args y q fits) l = parse_uri-dynamic f h path args y q fits
Names-parse f h (bare_program {path} y q fits) l = parse_uri-bare f h path y q fits

length-block : (ls : List Bytes) (body : Bytes) → length ls + 2 ≤ length (block ls body)
length-block [] body = omega arith
length-block (l ∷ ls) body =
    omega (arith, length-block ls body, length-append l (b'\n' ∷ block ls body))

-- There are fewer header lines than bytes.
Headed-rounds :
    {rest first body : Bytes} {ls : List Bytes}
    → Headed rest first ls body
    → length ls + 2 < length rest
Headed-rounds {first} {body} {ls} t =
    omega
      (arith, ap length t.joined, length-append first (b'\n' ∷ block ls body), length-block ls body)

-- A request's bytes with its headers and its body apart.
request_text :
    {h : Host} {r : Request} {p : Parsed} {status : Stat} {first body : Bytes} {ls : List Bytes}
    → Runs h r p status first ls body
    → text_of r ≡ request_line r.method r.uri r.version ++ b'\n' ∷ (first ++ b'\n' ∷ block ls body)
request_text {r} u = ap (λ bs. request_line r.method r.uri r.version ++ b'\n' ∷ bs) u.headed.joined

-- Fuel for a request: for the header lines, the configuration file, the bytes to be sent, an
-- array of MAXLINE bytes, and the signals that may come.
abbrev pub Enough : {S : Type 0} → Ghost S → ℕ → Host → Request → Reply → World S → Type 0
Enough g fuel h r a w =
    maxline + length r.rest + length h.config + length a.sends + patience_of g w + 1 < fuel

module _ {S : Type 0} {k : Kernel S} {g : Ghost S} (law : IsReliable k g) (fuel : ℕ) (h : Host)
    (r : Request) (w : World S) (whole : IsRequest r) (v : length w.rio.rio_buf ≡ rio_bufsize)
    (comes : g.pending w.rio.rio_fd ≡ text_of r) where
  -- On a connection that does not break, on which a request comes whose first line has three words
  -- and fits the buffer: whatever reply the table has for the request, `doit` ends as it says, and
  -- has sent, left unread, logged and left behind exactly what it says, with fuel for the sizes of
  -- the request, the configuration and the reply.
  pub doit-Promised :
      {a : Reply}
      → Promised h r a
      → Enough g fuel h r a w
      → ((doit k fuel h w).0 ≡ a.outcome)
        × Served g a.sends a.leaves a.logs a.spawns w (doit k fuel h w).1
  doit-Promised (unknown_method other fits) gas =
      doit_unknown_method law fuel h r.method r.uri r.version r.rest w whole.method_word
        whole.uri_word whole.line v comes (omega arith) other fits
  doit-Promised (missing {p} known names e fits) gas =
      doit_missing_file law fuel h r.method r.uri r.version r.rest w whole.method_word
        whole.uri_word whole.line v comes (omega arith) p known
        (Names-parse fuel h names (omega arith)) e fits
  doit-Promised (listing {p} {status} {slash} {text} {entries} f listed s d n rows fits) gas =
      let page = whole_page text in
      let e = dir_header-file_header (length page) in
      let (o, q) =
        doit_directory law fuel h r.method r.uri r.version r.rest w whole.method_word whole.uri_word
          whole.line v comes (omega arith) p f.known (Names-parse fuel h f.names (omega arith))
          status slash text entries f.found listed s d n rows fits in
      (
        o,
        record {
          sends = q.sends ∙ ap (λ b. sent_by g w ++ (b ++ page)) e;
          leaves = q.leaves;
          logs = q.logs;
          spawns = q.spawns;
        },
      )
  doit-Promised
        (file {p} {status} {first} {body} {content} {type} {ls} f st ok t size small mapped m fits)
        gas =
      let e : static_header p.filename (pos (length content)) ≡ file_header (length content) type =
        static_header-file_header p.filename (length content) m in
      let long = length-append (file_header (length content) type) content in
      let (o, s) =
        doit_static_file law fuel h r.method r.uri r.version r.rest w whole.method_word
          whole.uri_word whole.line v comes (omega arith) p f.known
          (Names-parse fuel h f.names (omega arith)) status first ls body f.found st t.first_line
          t.first_full t.lines t.joined (omega (arith, Headed-rounds t)) content ok size small
          mapped (rw e fits) (omega (arith, long)) in
      (
        o,
        record {
          sends = s.sends ∙ ap (λ b. sent_by g w ++ (b ++ content)) e;
          leaves = s.leaves;
          logs = s.logs;
          spawns = s.spawns;
        },
      )
  doit-Promised (forbidden {p} {status} {first} {body} {ls} f st n bad t fits) gas =
      doit-unreadable_file law fuel h r.method r.uri r.version r.rest w whole.method_word
        whole.uri_word whole.line v comes (omega arith) p f.known
        (Names-parse fuel h f.names (omega arith)) status first ls body f.found st t.first_line
        t.first_full t.lines t.joined (omega (arith, Headed-rounds t)) n bad fits
  doit-Promised (unmapped {p} {status} {first} {body} {ls} f st ok t fits e) gas =
      doit_unmapped law fuel h r.method r.uri r.version r.rest w whole.method_word whole.uri_word
        whole.line v comes (omega arith) p status f.known (Names-parse fuel h f.names (omega arith))
        f.found first ls body t.first_line t.first_full t.lines t.joined
        (omega (arith, Headed-rounds t)) st ok fits e
  doit-Promised (not_run {p} {status} f d n bad fits) gas =
      doit-not_runnable law fuel h r.method r.uri r.version r.rest w whole.method_word
        whole.uri_word whole.line v comes (omega arith) p status f.known
        (Names-parse fuel h f.names (omega arith)) f.found n d bad fits
  doit-Promised (get_runs {p} {status} {first} {body} {ls} u get can) gas =
      let t = u.headed in
      doit-get_program law fuel h r.method r.uri r.version first ls body w whole.method_word
        whole.uri_word whole.line t.first_line t.first_full t.lines v (comes ∙ request_text u) p
        status u.finds.known (Names-parse fuel h u.finds.names (omega arith)) u.finds.found
        u.dynamic u.runnable can (omega arith) (omega (arith, Headed-rounds t)) get
  doit-Promised (get_no_process {p} {status} {first} {body} {ls} u get cannot) gas =
      let t = u.headed in
      doit_get_no_fork law fuel h r.method r.uri r.version r.rest w whole.method_word whole.uri_word
        whole.line v comes (omega arith) p status u.finds.known
        (Names-parse fuel h u.finds.names (omega arith)) u.finds.found first ls body t.first_line
        t.first_full t.lines t.joined (omega (arith, Headed-rounds t)) u.dynamic u.runnable cannot
        get
  doit-Promised (post_runs {p} {status} {first} {body} {ls} {n} u post can says small enough) gas =
      let t = u.headed in
      doit-post_program law fuel h r.method r.uri r.version first ls body w whole.method_word
        whole.uri_word whole.line t.first_line t.first_full t.lines v (comes ∙ request_text u) p
        status u.finds.known (Names-parse fuel h u.finds.names (omega arith)) u.finds.found
        u.dynamic u.runnable can (omega arith) (omega (arith, Headed-rounds t)) n post says small
        enough
  doit-Promised (post_short {p} {status} {first} {body} {ls} {n} u post can says small short) gas =
      let t = u.headed in
      doit_post_short law fuel h r.method r.uri r.version first ls body w whole.method_word
        whole.uri_word whole.line t.first_line t.first_full t.lines v (comes ∙ request_text u) p
        status u.finds.known (Names-parse fuel h u.finds.names (omega arith)) u.finds.found
        u.dynamic u.runnable can (omega arith) (omega (arith, Headed-rounds t)) n post says small
        short
  doit-Promised (post_no_process {p} {status} {first} {body} {ls} u post cannot) gas =
      let t = u.headed in
      doit_post_no_fork law fuel h r.method r.uri r.version r.rest w whole.method_word
        whole.uri_word whole.line v comes (omega arith) p status u.finds.known
        (Names-parse fuel h u.finds.names (omega arith)) u.finds.found first ls body t.first_line
        t.first_full t.lines t.joined (omega (arith, Headed-rounds t)) u.dynamic u.runnable
        (announced ls (pos 0)) post refl cannot
  doit-Promised (post_overflow {p} {status} {first} {body} {ls} u post can over) gas =
      let t = u.headed in
      doit_post_overflow law fuel h r.method r.uri r.version first ls body w whole.method_word
        whole.uri_word whole.line t.first_line t.first_full t.lines v (comes ∙ request_text u) p
        status u.finds.known (Names-parse fuel h u.finds.names (omega arith)) u.finds.found
        u.dynamic u.runnable can (omega arith) (omega (arith, Headed-rounds t))
        (announced ls (pos 0)) post refl over
