-- ===== src/Http/Doit/Answers/Files.antt =====
-- The replies of the table for requests that no program answers, in the form that Http/Doit/Answers
-- puts together.
use twebs.Prelude.{
  ℕ, ◌+◌, ◌≤◌, ◌<◌, ◌≡◌, ◌≢◌, true, false, ◌&&◌, none, some, Bytes, List, [], ◌++◌, length,
  length-append, pos, ◌^◌, arith, Bool-cases, inl, inr, ap, sym, ◌∙◌,
}
use twebs.Outcome.{Outcome, done, stopped, exited, running, Program}
use twebs.Http.{Host, Stat, maxline}
use twebs.Http.Uri.{Parsed}
use twebs.Http.Reply.{not_implemented, not_found, unreadable, not_runnable, error_body}
use twebs.Http.Reply.Errors.{is_501, is_404, is_403_static, is_403_dynamic, cut_reply}
use twebs.Http.Dynamic.{execve}
use twebs.Http.Doit.{is_method, is_regular, is_directory}
use twebs.Http.Doit.Replies.{to_int_small}
use twebs.Http.Doit.Contract.{
  Request, Reply, Headed, Names, Finds, Promised, unknown_method, missing, file, forbidden,
  unmapped, not_run, logged, file_header, static_header-file_header,
}
use twebs.Http.Doit.Total.{IsSite, length-error_body, length-static_header, length-cut_reply}
use twebs.Http.Uri.Laws.{MediaType, MediaType-any}

-- A machine without listings and with files below 2 GB, a mapping of which has the size of the file
-- and at most `limit` bytes; and a request with whole headers.
pub record IsServable (h : Host) (r : Request) (limit : ℕ) : Type 0 where
  pub site : IsSite h r.uri
  pub method_short : length r.method + 400 < maxline
  pub unlisted : h.is_show_dir ≡ false
  pub first : Bytes
  pub ls : List Bytes
  pub body : Bytes
  pub headed : Headed r.rest first ls body
  pub small : (f : Bytes) (status : Stat) → h.lstat f ≡ some status → status.st_size < 2 ^ 31
  pub mapped :
      (f : Bytes) (status : Stat) (c : Bytes)
      → h.lstat f ≡ some status
      → h.open_mapped f (pos status.st_size) ≡ some c
      → (status.st_size ≡ length c) × (length c ≤ limit)

-- The table has a reply, of a bounded size, with which the process does not stay in a loop.
abbrev pub HasReply : Host → Request → ℕ → Type 0
HasReply h r limit =
    (a : Reply) × Promised h r a × (length a.sends ≤ 400 + limit) × (a.outcome ≢ running)

length-file_header :
    (filename : Bytes) (n : ℕ) (type : Bytes)
    → MediaType filename type
    → n < 2 ^ 31
    → length (file_header n type) < 200
length-file_header filename n type m l =
    omega
      (arith, ap length (static_header-file_header filename n m), length-static_header filename n l)

unlisted-not_listed :
    (h : Host) (status : Stat)
    → h.is_show_dir ≡ false
    → (is_directory status.file_type && h.is_show_dir) ≡ false
unlisted-not_listed h status e = ground arith

pub execve-ends :
    (h : Host) (p : Program) → ◌≢◌ {A = Outcome (Unit {0})} (stopped (execve h p)) running
execve-ends h p e = elim (Bool-cases (h.can_exec p.file)) [
  | inl y ↦ cc (rw y at e)
  | inr n ↦ cc (rw n at e)
]

module _ (h : Host) (r : Request) (limit : ℕ) (s : IsServable h r limit) where
  pub reply_unknown : is_method r.method ≡ false → HasReply h r limit
  reply_unknown e =
      let fits : length (error_body not_implemented r.method) < maxline =
        omega (arith, length-error_body not_implemented r.method is_501, s.method_short) in
      (
        record {
          outcome = done tt;
          sends = cut_reply not_implemented r.method;
          leaves = r.rest;
          logs = [];
          spawns = [];
        },
        unknown_method e fits,
        omega (arith, length-cut_reply h not_implemented r.method is_501 fits),
        λ q. cc q,
      )

  module _ (p : Parsed) (short : length p.filename + 400 < maxline) where
    pub reply_missing :
        is_method r.method ≡ true → Names h r.uri p → h.lstat p.filename ≡ none → HasReply h r limit
    reply_missing known names e =
        let fits : length (error_body not_found p.filename) < maxline =
          omega (arith, length-error_body not_found p.filename is_404) in
        (
          record {
            outcome = done tt;
            sends = cut_reply not_found p.filename;
            leaves = r.rest;
            logs = [];
            spawns = [];
          },
          missing known names e fits,
          omega (arith, length-cut_reply h not_found p.filename is_404 fits),
          λ q. cc q,
        )

    module _ (status : Stat) (finds : Finds h r p status) where
      pub reply_forbidden :
          p.is_static ≡ true
          → (is_regular status.file_type && status.user_read) ≡ false
          → HasReply h r limit
      reply_forbidden static bad =
          let fits : length (error_body unreadable p.filename) < maxline =
            omega (arith, length-error_body unreadable p.filename is_403_static) in
          (
            record {
              outcome = done tt;
              sends = cut_reply unreadable p.filename;
              leaves = s.body;
              logs = logged h s.ls;
              spawns = [];
            },
            forbidden finds static (unlisted-not_listed h status s.unlisted) bad s.headed fits,
            omega (arith, length-cut_reply h unreadable p.filename is_403_static fits),
            λ q. cc q,
          )

      pub reply_not_run :
          p.is_static ≡ false
          → (is_regular status.file_type && status.user_exec) ≡ false
          → HasReply h r limit
      reply_not_run dynamic bad =
          let fits : length (error_body not_runnable p.filename) < maxline =
            omega (arith, length-error_body not_runnable p.filename is_403_dynamic) in
          (
            record {
              outcome = done tt;
              sends = cut_reply not_runnable p.filename;
              leaves = r.rest;
              logs = [];
              spawns = [];
            },
            not_run finds dynamic (unlisted-not_listed h status s.unlisted) bad fits,
            omega (arith, length-cut_reply h not_runnable p.filename is_403_dynamic fits),
            λ q. cc q,
          )

      module _ (static : p.is_static ≡ true)
          (ok : (is_regular status.file_type && status.user_read) ≡ true) where
        pub reply_unmapped :
            h.open_mapped p.filename (pos status.st_size) ≡ none → HasReply h r limit
        reply_unmapped e =
            let size = to_int_small status.st_size (s.small p.filename status finds.found) in
            let header =
              length-static_header p.filename status.st_size
                (s.small p.filename status finds.found) in
            (
              record {
                outcome = exited 0;
                sends = [];
                leaves = s.body;
                logs = logged h s.ls;
                spawns = [];
              },
              unmapped finds static ok s.headed (rw size (omega (arith, header))) (rw size e),
              omega arith,
              λ q. cc q,
            )

        pub reply_file :
            (content : Bytes)
            → h.open_mapped p.filename (pos status.st_size) ≡ some content
            → HasReply h r limit
        reply_file content e =
            let (same, bounded) = s.mapped p.filename status content finds.found e in
            let small : length content < 2 ^ 31 =
              omega (arith, same, s.small p.filename status finds.found) in
            let (type, m) = MediaType-any p.filename in
            let header = length-file_header p.filename (length content) type m small in
            let found : h.open_mapped p.filename (pos (length content)) ≡ some content =
              ap (λ n. h.open_mapped p.filename (pos n)) (sym same) ∙ e in
            (
              record {
                outcome = done tt;
                sends = file_header (length content) type ++ content;
                leaves = s.body;
                logs = logged h s.ls;
                spawns = [];
              },
              file finds static ok s.headed same small found m (omega (arith, header)),
              omega (
                arith,
                header,
                bounded,
                length-append (file_header (length content) type) content,
              ),
              λ q. cc q,
            )
