-- ===== src/Tests/Sessions.antt =====
-- A page and a program asked for, by the table of replies, and a run of the server with both.
use twebs.Prelude.{◌≡◌, refl, true, false, [], ◌++◌, codes, arith, length, ◌<◌}
use twebs.Outcome.{done, stopped}
use twebs.Access.{access_ornot, check_mask, compare_parts, ipadd_to_longlong}
use twebs.Config.{getconfig_or_exit, getconfig, read_line, after_name, value_after, copy_value}
use twebs.CString.{atoi, print_int, print_nat}
use twebs.Kernel.Script.{Script, script, script_ghost, script-IsReliable}
use twebs.Log.{stamp}
use twebs.Http.Reply.{static_header}
use twebs.Http.Dynamic.{post_greeting}
use twebs.Http.Dynamic.Handlers.{post_program}
use twebs.Http.Doit.{doit}
use twebs.Http.Doit.Request.{Served}
use twebs.Http.Doit.Contract.{
  Request, IsRequest, Reply, Headed, Names, below_root, program, Runs, Promised, file, post_runs,
  file_header,
}
use twebs.Http.Doit.Refines.{doit-Promised}
use twebs.Server.Accepting.{Checked}
use twebs.Server.Sessions.{Client, Asks}
use twebs.Tests.{zeros-length, site, items, items-IsFile, page}
use twebs.Tests.Requests.{host_line, others, page_request, page_file, page_status}
use twebs.Tests.Programs.{program_file, program_status, post_request, post_lines, post_announced}
use twebs.Tests.Parts.{stranger}
use twebs.Http.Uri.Laws.{is_html}

abbrev pub asks_page : Request
asks_page = record {
  method = codes "GET";
  uri = codes "/a.html";
  version = codes "HTTP/1.0\r";
  rest = codes "Host: x\r\nAccept: y\r\n\r\n";
}

pub asks_page-IsRequest : IsRequest asks_page
asks_page-IsRequest = record {
  method_word = (omega arith, refl);
  uri_word = (omega arith, refl);
  line = (refl, omega arith);
}

pub page-Headed : Headed asks_page.rest host_line others []
page-Headed = record {
  first_line = (refl, omega arith);
  first_full = ground arith;
  lines = ((refl, omega arith), ground arith, tt);
  joined = refl;
}

abbrev gets_page : Reply
gets_page = record {
  outcome = done tt;
  sends = file_header 12 (codes "text/html") ++ page;
  leaves = [];
  logs = stamp site.now ++ codes "Accept: y\r\n\r\n";
  spawns = [];
}

pub page-Names : Names site (codes "/a.html") page_file
page-Names = below_root items (codes "/a.htm") b'l' refl items-IsFile refl refl (omega arith)

text_header_fits : length (file_header 12 (codes "text/html")) < 8192
unfolding print_int print_nat
text_header_fits = omega arith

page-Promised : Promised site asks_page gets_page
page-Promised =
    file {p = page_file} {status = page_status} {content = page}
      (record { known = refl; names = page-Names; found = refl }) refl refl page-Headed refl
      (omega arith) refl (is_html (record { before = codes "/www/a"; after = []; at = refl }))
      text_header_fits

doit-Promised_example :
    ((doit script 20_000 site page_request).0 ≡ done tt)
    × Served script_ghost gets_page.sends [] gets_page.logs [] page_request
        (doit script 20_000 site page_request).1
unfolding static_header print_int
doit-Promised_example =
    doit-Promised script-IsReliable 20_000 site asks_page page_request asks_page-IsRequest
      zeros-length refl page-Promised (omega arith)

abbrev asks_program : Request
asks_program = record {
  method = codes "POST";
  uri = codes "/cig-bin/add?1&2";
  version = codes "HTTP/1.0\r";
  rest = codes "Host: x\r\nContent-Length: 3\r\n\r\na=b!";
}

asks_program-IsRequest : IsRequest asks_program
asks_program-IsRequest = record {
  method_word = (omega arith, refl);
  uri_word = (omega arith, refl);
  line = (refl, omega arith);
}

program-Runs :
    Runs site asks_program program_file program_status host_line post_lines (codes "a=b!")
program-Runs = record {
  finds = record {
    known = refl;
    names = program (codes "/cig-bin/add") (codes "1&2") refl refl (omega arith);
    found = refl;
  };
  dynamic = refl;
  runnable = refl;
  headed = record {
    first_line = (refl, omega arith);
    first_full = ground arith;
    lines = ((refl, omega arith), ground arith, tt);
    joined = refl;
  };
}

abbrev gets_program : Reply
gets_program = record {
  outcome = stopped (post_program site (codes "/srv/cig-bin/add") 3 (codes "a=b"));
  sends = post_greeting;
  leaves = codes "!";
  logs = stamp site.now ++ codes "Content-Length: 3\r\n\r\n";
  spawns = [];
}

program-Promised : Promised site asks_program gets_program
program-Promised =
    post_runs {n = 3} program-Runs refl refl post_announced (omega arith) (omega arith)

abbrev pub reader : Client Script
reader = record {
  arrival = record {
    accepts = true;
    closes = true;
    host = site;
    address = codes "10.1.2.3";
    world = page_request;
  };
  request = asks_page;
  reply = gets_page;
}

abbrev pub poster : Client Script
poster = record {
  arrival = record {
    accepts = true;
    closes = true;
    host = site;
    address = codes "10.9.9.9";
    world = post_request;
  };
  request = asks_program;
  reply = gets_program;
}

reader_let : access_ornot 20_000 site.config [] reader.arrival.address ≡ done true
unfolding access_ornot getconfig_or_exit getconfig read_line after_name value_after copy_value
    check_mask compare_parts ipadd_to_longlong atoi
reader_let = refl

pub reader-Checked : Checked script_ghost 20_000 reader.arrival true
reader-Checked = record {
  verdict = reader_let;
  arrives = refl;
  forks = refl;
  closable = refl;
  enough = omega arith;
}

poster_let : access_ornot 20_000 site.config [] poster.arrival.address ≡ done true
unfolding access_ornot getconfig_or_exit getconfig read_line after_name value_after copy_value
    check_mask compare_parts ipadd_to_longlong atoi
poster_let = refl

pub poster-Checked : Checked script_ghost 20_000 poster.arrival true
poster-Checked = record {
  verdict = poster_let;
  arrives = refl;
  forks = refl;
  closable = refl;
  enough = omega arith;
}

stranger_let : access_ornot 20_000 site.config [] stranger.address ≡ done false
unfolding access_ornot getconfig_or_exit getconfig read_line after_name value_after copy_value
    check_mask compare_parts ipadd_to_longlong atoi
stranger_let = refl

pub stranger-Checked : Checked script_ghost 20_000 stranger false
stranger-Checked = record {
  verdict = stranger_let;
  arrives = refl;
  forks = refl;
  closable = refl;
  enough = omega arith;
}

pub reader-Asks : Asks script_ghost 20_000 reader
unfolding static_header print_int
reader-Asks = record {
  whole = asks_page-IsRequest;
  buffer = zeros-length;
  comes = refl;
  promised = page-Promised;
  enough = omega arith;
}

pub poster-Asks : Asks script_ghost 20_000 poster
poster-Asks = record {
  whole = asks_program-IsRequest;
  buffer = zeros-length;
  comes = refl;
  promised = program-Promised;
  enough = omega arith;
}
