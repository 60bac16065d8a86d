-- ===== src/Tests/Conns.antt =====
-- Connections of the C++ server and of the CGI server, and the theorems about them applied.
use twebs.Prelude.{
  ℕ, ◌+◌, ◌<◌, ◌≡◌, refl, true, false, none, some, Bytes, [], codes, pos, arith, leb, ◌==◌, ◌&&◌,
  if◌then◌else◌,
}
use twebs.Outcome.{done}
use twebs.CString.{print_int, print_nat}
use twebs.Conn.{
  Conn, check_state_requestline, line_ok, line_open, unmapped, Socket, write_idx, write_buf_size,
  no_request, bad_request, file_request, init, reset, eagain,
}
use twebs.Conn.Reading.{parse_line, parse_headers, read, read_loop}
use twebs.Conn.Requests.{Disk}
use twebs.Conn.Reading.Lines.{IsSound, moved, parse_line_lem}
use twebs.Conn.Reading.Pieces.{received, parse_line-received}
use twebs.Conn.Writing.Answers.{IsAnswer}
use twebs.Conn.Reading.Arrivals.{Limits}
use twebs.Conn.Life.{begins, process-Lives}
use twebs.Conn.Writing.{process, process_write, write}
use twebs.Conn.Writing.Replies.{
  error_400, page_400, page_text, with_response, process_write-IsError,
}
use twebs.Conn.Writing.Bounds.{process_write_bound}
use twebs.Conn.Writing.Lengths.{parse_headers-length_line}
use twebs.Conn.Writing.Sent.{Sends, IsWritten, write-IsWritten}
use twebs.CgiConn.{CgiConn, Programs, core_process}
use twebs.CgiConn.Line.{finish, core_process_lem}

-- A connection that has received some bytes and has some to send.
abbrev pub conn_with : Bytes → Bytes → Conn
conn_with bs out = record {
  sockfd = some 5;
  interest = none;
  read_buf = bs;
  checked_idx = 0;
  start_line = 0;
  write_buf = out;
  check_state = check_state_requestline;
  real_file = [];
  url = none;
  version = none;
  host = none;
  content_length = pos 0;
  linger = true;
  file_addr = unmapped;
  file_size = 3;
  header_block = out;
  file_block = unmapped;
}

abbrev asking : Conn
asking = conn_with (codes "GET / HTTP/1.1\r\nHost: a") []

abbrev asking_half : Conn
asking_half = conn_with (codes "GET / HTTP/1.1\r") []

asking-IsSound : IsSound asking
asking-IsSound = record {
  fits = omega arith;
  checked = omega arith;
  started = omega arith;
  settled = refl;
}

asking_half-IsSound : IsSound asking_half
asking_half-IsSound = record {
  fits = omega arith;
  checked = omega arith;
  started = omega arith;
  settled = refl;
}

parse_line_example : parse_line asking ≡ done (line_ok, moved (line_ok, 16) asking)
parse_line_example = parse_line_lem asking asking-IsSound

parse_line-received_example :
    parse_line (received (codes "\nHost") (moved (line_open, 14) asking_half))
    ≡ parse_line (received (codes "\nHost") asking_half)
parse_line-received_example =
    parse_line-received (codes "\nHost") asking_half (moved (line_open, 14) asking_half)
      asking_half-IsSound (parse_line_lem asking_half asking_half-IsSound)

abbrev no_files : Disk
no_files = record { stat = λ f. none; open_mapped = λ f n. none }

abbrev first_bytes : Bytes
first_bytes = codes "GET / HTTP/1.1\r\nHost: a"

-- A socket on which these bytes are waiting.
abbrev sending : Socket ℕ
sending = record {
  recv = λ n s. if leb 23 n && s == 0 then (some first_bytes, 1) else (none, s);
  writev = λ bs m s. (none, s);
  errno = λ s. eagain;
}

sending-Limits : Limits sending
sending-Limits n s bs e = ground arith

abbrev accepted_conn : Conn
accepted_conn = (init asking (pos 0) 7).0

abbrev read_conn : Conn
read_conn = received first_bytes accepted_conn

process-Lives_example : IsAnswer read_conn (pos 1) (process no_files read_conn (pos 1))
unfolding init reset read read_loop
process-Lives_example =
    process-Lives sending sending-Limits no_files 4097 (omega arith) accepted_conn read_conn 0 1
      (pos 1) (begins asking (pos 0) 7 0) refl

process_write-IsError_example :
    process_write bad_request asking ≡ (true, with_response (page_text page_400 true) asking)
process_write-IsError_example = process_write-IsError bad_request page_400 asking error_400 refl

process_write_bound_example : write_idx (process_write file_request asking).1 < write_buf_size
process_write_bound_example = process_write_bound file_request asking (omega arith)

abbrev told_length : Conn
told_length = conn_with (codes "Content-Length: 42") []

parse_headers-length_line_example :
    parse_headers 0 told_length ≡ (no_request, record told_length { content_length = pos 42 })
unfolding print_int print_nat
parse_headers-length_line_example = parse_headers-length_line 0 42 told_length (omega arith) refl

-- A socket that takes two bytes at a time.
abbrev pub slow : Socket ℕ
slow = record { recv = λ n s. (none, s); writev = λ bs m s. (some 2, s + 2); errno = λ s. 0 }

slow-Sends : Sends slow
slow-Sends bs m s n e = ground arith

abbrev answering : Conn
answering = conn_with [] (codes "HTTP/1.1 200 OK")

write-IsWritten_example : IsWritten answering (write slow 15 answering 0).0
write-IsWritten_example =
    write-IsWritten slow slow-Sends answering 15 0 (λ e. absurd (ground arith)) (omega arith)

abbrev programs : Programs
programs = record { exists = λ f. true; forks = true }

abbrev naming : CgiConn
naming = record { buf = codes "date\r"; connected = true; launched = none }

core_process_example :
    core_process programs (codes "\nrest") naming
    ≡ (false, finish programs (codes "date\r\nrest") 5 naming)
core_process_example = core_process_lem programs (codes "\nrest") naming refl
