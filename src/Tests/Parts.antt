-- ===== src/Tests/Parts.antt =====
-- Parts of a request, errors, and a run of the accept loop.
use twebs.Prelude.{◌<◌, ◌≡◌, refl, [], ◌++◌, codes, length, arith, pos, take, true}
use twebs.Outcome.{done, running}
use twebs.Kernel.Script.{Script, script, script_ghost, script-IsReliable}
use twebs.Log.{stamp}
use twebs.Http.{World}
use twebs.Http.Reply.{not_open, client_error}
use twebs.Http.Reply.Errors.{error_page, error_head, is_403_access, client_error_cut}
use twebs.Http.Headers.{post_requesthdrs, get_loop}
use twebs.Http.Headers.Lines.{Took, announced}
use twebs.Http.Headers.Requests.{post_requesthdrs_lem, get_loop_eof}
use twebs.Server.{Arrival}
use twebs.Tests.{conn, fresh-IsValid, world, site}
use twebs.Tests.Requests.{host_line, others}
use twebs.Http.Sending.{Sent}

abbrev header_world : World Script
header_world = world (conn b'H' (codes "ost: x\r\nAccept:") (codes "y\r\n\r\nbody"))

post_requesthdrs_example :
    ((post_requesthdrs script 20 site 5 (pos 0) header_world).0 ≡ done (announced others (pos 0)))
    × Took script_ghost
        (codes "body")
        (stamp site.now ++ codes "Accept: y\r\n\r\n")
        header_world
        (post_requesthdrs script 20 site 5 (pos 0) header_world).1
post_requesthdrs_example =
    post_requesthdrs_lem script-IsReliable 20 5 site (pos 0) host_line others (codes "body")
      header_world (refl, omega arith) (ground arith) ((refl, omega arith), ground arith, tt)
      (fresh-IsValid header_world.rio.rio_fd) refl (omega arith) (omega arith)

abbrev hung_up : World Script
hung_up = world (record { events = []; quotas = []; out = [] })

get_loop_eof_example : (get_loop script 20 site 100 (codes "Host: x\r\n") hung_up).0 ≡ running
get_loop_eof_example =
    get_loop_eof script-IsReliable 20 100 site (codes "Host: x\r\n") hung_up refl
      (fresh-IsValid hung_up.rio.rio_fd) refl (omega arith)

refused_fits : length (error_page not_open (codes "webserver")) < 8192
refused_fits = omega arith

client_error_cut_example :
    let page = error_page not_open (codes "webserver") in
    let head = error_head not_open (length page) in
    let r = client_error script 10_000 site (codes "webserver") not_open hung_up in
    (r.0 ≡ done tt)
    × Sent script_ghost (head ++ take (length head) page) hung_up r.1
    × (length head < length page)
client_error_cut_example =
    client_error_cut script-IsReliable 10_000 site not_open (codes "webserver") hung_up
      is_403_access refused_fits (omega arith)

abbrev pub stranger : Arrival Script
stranger = record {
  accepts = true;
  closes = true;
  host = site;
  address = codes "11.1.2.3";
  world = hung_up;
}
