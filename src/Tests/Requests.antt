-- ===== src/Tests/Requests.antt =====
-- Whole requests, from the request line to the reply.
use twebs.Prelude.{◌<◌, true, false, Bytes, List, [], ◌∷◌, codes, length, arith, pos}
use twebs.CString.{print_nat, print_int}
use twebs.Kernel.Script.{Script}
use twebs.Http.{World, Stat, regular}
use twebs.Http.Uri.{Parsed}
use twebs.Http.Reply.{static_header}
use twebs.Tests.{conn, world}

-- "Host: x" and "Accept: y" behind a request line.
abbrev pub host_line : Bytes
host_line = codes "Host: x\r"

abbrev pub others : List Bytes
others = codes "Accept: y\r" ∷ []

abbrev pub sends_request : Bytes → Bytes → World Script
sends_request text rest = world (conn b'G' text rest)

abbrev pub page_request : World Script
page_request = sends_request (codes "ET /a.html HTTP/1.0\r\nHost: x\r\nAccept:") (codes "y\r\n\r\n")

abbrev pub page_file : Parsed
page_file = record { is_static = true; filename = codes "/www/a.html"; cgi_args = [] }

abbrev pub page_status : Stat
page_status = record {
  file_type = regular;
  user_read = true;
  user_exec = false;
  st_size = 12;
  st_uid = 0;
  st_mtime = 0;
}

pub header_fits : length (static_header (codes "/www/a.html") (pos 12)) < 8192
unfolding static_header print_nat print_int
header_fits = omega arith
