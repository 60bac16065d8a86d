-- ===== src/Tests/Programs.antt =====
-- Whole requests for CGI programs.
use twebs.PostAuth.{post_auth, posted, post_auth-posted}
use twebs.Prelude.{◌≡◌, refl, true, false, Bytes, List, [], ◌∷◌, codes, arith, pos}
use twebs.Outcome.{done}
use twebs.CString.{atoi, print_int, print_nat}
use twebs.Kernel.Script.{Script}
use twebs.Http.{World, Stat, regular}
use twebs.Http.Uri.{Parsed, parse_uri}
use twebs.Http.Uri.Laws.{parse_uri-dynamic}
use twebs.Http.Headers.Lines.{announced}
use twebs.Http.Headers.Requests.{length_line}
use twebs.Tests.{conn, world, site}

abbrev pub program_file : Parsed
program_file = record {
  is_static = false;
  filename = codes "/srv/cig-bin/add";
  cgi_args = codes "1&2";
}

abbrev pub program_status : Stat
program_status = record {
  file_type = regular;
  user_read = true;
  user_exec = true;
  st_size = 12;
  st_uid = 0;
  st_mtime = 0;
}

program_parsed : parse_uri 9000 site (codes "/cig-bin/add?1&2") ≡ done program_file
program_parsed =
    parse_uri-dynamic 9000 site (codes "/cig-bin/add") (codes "1&2") refl refl (omega arith)

abbrev pub post_request : World Script
post_request = world (
    conn b'P' (codes "OST /cig-bin/add?1&2 HTTP/1.0\r\nHost: x\r\nContent-Length:")
      (codes "3\r\n\r\na=b!"))

abbrev pub post_lines : List Bytes
post_lines = length_line (codes " ") b'3' [] ∷ []

pub post_announced : announced post_lines (pos 0) ≡ pos 3
unfolding atoi
post_announced = refl

post_auth-posted_example :
    post_auth (posted (codes "/srv/cig-bin/postAuth") (codes "name=a"))
    ≡ done (codes "Content-length: 13\r\nContent-type: text/html\r\n\r\nInfo:name=a\r\n")
unfolding print_int print_nat
post_auth-posted_example =
    post_auth-posted (codes "/srv/cig-bin/postAuth") b'n' (codes "ame=a") refl (omega arith)
