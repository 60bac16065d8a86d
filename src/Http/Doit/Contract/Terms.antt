-- ===== src/Http/Doit/Contract/Terms.antt =====
-- The words of the table of replies: requests, replies, the headers, and the file that a URI names.
use twebs.Prelude.{
  ℕ, ◌<◌, ◌≡◌, ◌≢◌, true, false, ◌&&◌, some, Bytes, List, [], ◌∷◌, ◌++◌, length, codes, ◌==◌,
  if◌then◌else◌, pos, ap, refl,
}
use twebs.Outcome.{Outcome, Stop}
use twebs.Log.{stamp}
use twebs.CString.{strcaseeq, strstr, all, print_int}
use twebs.Config.File.{Item, render, IsFile, lookup}
use twebs.Http.{Host, Stat, maxline}
use twebs.Http.Uri.{Parsed, not_question}
use twebs.Http.Headers.Lines.{IsLine, IsBlock, block}
use twebs.Http.Doit.{is_method, is_regular}
use twebs.Http.Doit.Request.{IsWord, request_line}
use twebs.Http.Reply.{Error, static_header}
use twebs.Http.Uri.Laws.{MediaType, get_filetype-MediaType}
use twebs.Http.Directory.{dir_header}

-- A request: the three words of its first line, and what follows that line.
pub record Request : Type 0 where
  pub method : Bytes
  pub uri : Bytes
  pub version : Bytes
  pub rest : Bytes

abbrev pub text_of : Request → Bytes
text_of r = request_line r.method r.uri r.version ++ b'\n' ∷ r.rest

pub record IsRequest (r : Request) : Type 0 where
  pub method_word : IsWord r.method
  pub uri_word : IsWord r.uri
  pub line : IsLine (request_line r.method r.uri r.version)

-- What comes of it: how the process ends, the bytes sent, what is left unread, what is logged, and
-- the processes left behind.
pub record Reply : Type 0 where
  pub outcome : Outcome (Unit {0})
  pub sends : Bytes
  pub leaves : Bytes
  pub logs : Bytes
  pub spawns : List Stop

-- `text` is a first header line, more lines up to an empty one, and the body.
pub record Headed (text first : Bytes) (ls : List Bytes) (body : Bytes) : Type 0 where
  pub first_line : IsLine first
  pub first_full : first ≢ codes "\r"
  pub lines : IsBlock ls
  pub joined : text ≡ first ++ b'\n' ∷ block ls body

-- The file that a URI names.
pub data Names (h : Host) : Bytes → Parsed → Type 0 where
  below_root :
      (items : List Item) {root : Bytes} (xs : Bytes) (c : ℕ)
      → h.config ≡ render items
      → IsFile items
      → lookup (codes "root") items ≡ some root
      → strstr (xs ++ c ∷ []) (codes "cig-bin") ≡ false
      → length ((h.junk_temp_cwd ++ (root ++ (xs ++ c ∷ []))) ++ codes "home.html") < maxline
      → Names h (xs ++ c ∷ []) (record {
        is_static = true;
        filename =
            if c == b'/'
            then (h.junk_temp_cwd ++ (root ++ (xs ++ c ∷ []))) ++ codes "home.html"
            else h.junk_temp_cwd ++ (root ++ (xs ++ c ∷ []));
        cgi_args = [];
      })
  program :
      (path args : Bytes)
      → strstr (path ++ b'?' ∷ args) (codes "cig-bin") ≡ true
      → all not_question path ≡ true
      → length (h.cwd ++ path) < maxline
      → Names h
          (path ++ b'?' ∷ args)
          (record { is_static = false; filename = h.cwd ++ path; cgi_args = args })
  bare_program :
      {path : Bytes}
      → strstr path (codes "cig-bin") ≡ true
      → all not_question path ≡ true
      → length (h.cwd ++ path) < maxline
      → Names h path (record { is_static = false; filename = h.cwd ++ path; cgi_args = [] })

-- A GET or POST request whose URI names a file that is there.
pub record Finds (h : Host) (r : Request) (p : Parsed) (status : Stat) : Type 0 where
  pub known : is_method r.method ≡ true
  pub names : Names h r.uri p
  pub found : h.lstat p.filename ≡ some status

-- The file is a program that its owner can run, and the headers are whole.
pub record Runs (h : Host) (r : Request) (p : Parsed) (status : Stat) (first : Bytes)
    (ls : List Bytes) (body : Bytes) : Type 0 where
  pub finds : Finds h r p status
  pub dynamic : p.is_static ≡ false
  pub runnable : (is_regular status.file_type && status.user_exec) ≡ true
  pub headed : Headed r.rest first ls body

abbrev pub IsPost : Request → Type 0
IsPost r = strcaseeq r.method (codes "POST") ≡ true

-- The headers are logged behind the time, without the first line.
abbrev pub logged : Host → List Bytes → Bytes
logged h ls = stamp h.now ++ block ls []

-- The errors, and the header of a file or a listing of `n` bytes, as texts.
abbrev pub error_501 : Error
error_501 = record {
  err_num = codes "501";
  short_msg = codes "Not Inplemented";
  long_msg = codes "Tiny does not inplement this method";
}

abbrev pub error_404 : Error
error_404 = record {
  err_num = codes "404";
  short_msg = codes "Not found";
  long_msg = codes "Tiny couldn`t find this file";
}

abbrev pub error_403 : Bytes → Error
error_403 what = record { err_num = codes "403"; short_msg = codes "Forbidden"; long_msg = what }

abbrev pub file_header : ℕ → Bytes → Bytes
file_header n type =
    codes "HTTP/1.0 200 OK\r\nServer: Tiny Web Server\r\nContent-Length: "
    ++ (print_int (pos n) ++ (codes "\r\nContent-Type: " ++ (type ++ codes "\r\n\r\n")))

-- The header of a file gives its length and its media type.
pub static_header-file_header :
    (filename : Bytes) (n : ℕ) {type : Bytes}
    → MediaType filename type
    → static_header filename (pos n) ≡ file_header n type
unfolding static_header
static_header-file_header filename n {type} m =
    ap (file_header n) (get_filetype-MediaType filename m)

-- So does the header of a listing.
pub dir_header-file_header : (n : ℕ) → dir_header n ≡ file_header n (codes "text/html")
unfolding dir_header print_int
dir_header-file_header n = refl
