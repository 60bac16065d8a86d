-- ===== src/Conn/Requests.antt =====
-- ss/http_conn.cpp: from the lines that have come to the request that is to be served.
pub mod Refused
use twebs.Prelude.{
  ℕ, zero, suc, ◌+◌, ◌-◌, ◌≤◌, Bool, true, false, not, ◌&&◌, ◌||◌, Option, none, some, Bytes, [],
  ◌∷◌, ◌++◌, length, take, drop, ◌==◌, ltb, leb, if◌then◌else◌, codes, ℤ, pos, negsuc, ◌⊎◌, inl,
  inr,
}
use twebs.Outcome.{Outcome, done, stopped, fault, running}
use twebs.CString.{cstr, isblank, strcaseeq, strncaseeq, take_while, drop_while, atoi}
use twebs.Conn.{
  Conn, read_idx, read_buf_size, filename_len, CheckState, check_state_requestline,
  check_state_header, check_state_content, HttpCode, no_request, get_request, bad_request,
  no_resource, file_request, LineStatus, line_ok, line_bad, line_open, FileStat, Mapping, mapped,
  map_failed, Socket, eagain,
}
use twebs.Conn.Reading.{string_at, parse_line, parse_request_line, parse_headers, parse_content}

-- The files: `stat`, and `open` with `mmap`.
pub record Disk : Type 0 where
  pub stat : Bytes → Option FileStat
  pub open_mapped : Bytes → ℕ → Option Bytes

abbrev pub doc_root : Bytes
doc_root = codes "/www/html"

abbrev pub map_file : Option Bytes → Mapping
map_file none = map_failed
map_file (some bs) = mapped bs

-- `return DoRequest()`
abbrev pub returned : Outcome (HttpCode × Conn) → Outcome ((HttpCode ⊎ LineStatus) × Conn)
returned (done (code, c)) = done (inl code, c)
returned (stopped e) = stopped e

module _ (disk : Disk) where
  unfoldable pub do_request : Conn → Outcome (HttpCode × Conn)
  do_request c = elim c.url [
    | none ↦ fault
    | some u ↦
        let len = length doc_root in
        let name = doc_root ++ take (filename_len - len - 1) (string_at u c.read_buf) in
        let c' = record c { real_file = name } in
        elim (disk.stat name) [
          | none ↦ done (no_resource, c')
          | some status ↦
              let c'' = record c' { file_size = status.st_size } in
              if not status.others_read
              then done (bad_request, c'')
              else if status.is_dir
              then done (bad_request, c'')
              else done (
                file_request,
                record c'' { file_addr = map_file (disk.open_mapped name status.st_size) },
              )
        ]
  ]

  abbrev pub after_request_line :
      Outcome (HttpCode × Conn) → Outcome ((HttpCode ⊎ LineStatus) × Conn)
  after_request_line (stopped e) = stopped e
  after_request_line (done (bad_request, c)) = done (inl bad_request, c)
  after_request_line (done (_, c)) = done (inr line_ok, c)

  abbrev pub after_headers : HttpCode × Conn → Outcome ((HttpCode ⊎ LineStatus) × Conn)
  unfolding do_request
  after_headers (bad_request, c) = done (inl bad_request, c)
  after_headers (get_request, c) = returned (do_request c)
  after_headers (_, c) = done (inr line_ok, c)

  abbrev pub after_content : Outcome (HttpCode × Conn) → Outcome ((HttpCode ⊎ LineStatus) × Conn)
  unfolding do_request
  after_content (stopped e) = stopped e
  after_content (done (get_request, c)) = returned (do_request c)
  after_content (done (_, c)) = done (inr line_open, c)

  -- One round of the loop of `ProcessRead`: a result, or the `line_status` to go on with.
  unfoldable pub dispatch : ℕ → Conn → Outcome ((HttpCode ⊎ LineStatus) × Conn)
  unfolding parse_request_line parse_headers parse_content
  dispatch text c = elim c.check_state [
    | check_state_requestline ↦ after_request_line (parse_request_line text c)
    | check_state_header ↦ after_headers (parse_headers text c)
    | check_state_content ↦ after_content (parse_content text c)
  ]

  -- `GetLine()`, and `start_line_ = checked_idx_`
  unfoldable pub handle_line : Conn → Outcome ((HttpCode ⊎ LineStatus) × Conn)
  unfolding dispatch
  handle_line c = dispatch c.start_line (record c { start_line = c.checked_idx })

  abbrev pub reads_content : LineStatus → Conn → Bool
  reads_content line_ok c = elim c.check_state [
    | check_state_content ↦ true
    | check_state_requestline ↦ false
    | check_state_header ↦ false
  ]
  reads_content line_bad c = false
  reads_content line_open c = false

  -- Behind a line that is not whole, or that is spoiled, the result is NO_REQUEST.
  unfoldable pub after_line : Outcome (LineStatus × Conn) → Outcome ((HttpCode ⊎ LineStatus) × Conn)
  unfolding handle_line
  after_line (done (line_ok, c)) = handle_line c
  after_line (done (line_bad, c)) = done (inl no_request, c)
  after_line (done (line_open, c)) = done (inl no_request, c)
  after_line (stopped e) = stopped e

  -- The test of the loop and its body.
  unfoldable pub round : LineStatus → Conn → Outcome ((HttpCode ⊎ LineStatus) × Conn)
  unfolding after_line handle_line parse_line
  round status c = elim (reads_content status c) [
    | true ↦ handle_line c
    | false ↦ after_line (parse_line c)
  ]

  -- The loop of `ProcessRead`, with fuel for its rounds.
  unfoldable pub process_loop : ℕ → LineStatus → Conn → Outcome (HttpCode × Conn)
  unfolding round
  process_loop zero status c = running
  process_loop (suc f) status c = elim (round status c) [
    | done (inl code, c') ↦ done (code, c')
    | done (inr status', c') ↦ process_loop f status' c'
    | stopped e ↦ stopped e
  ]

  -- A round passes over two bytes, or it is the first to look at the content.
  unfoldable pub process_read : Conn → Outcome (HttpCode × Conn)
  unfolding process_loop
  process_read c = process_loop (read_idx c + 2) line_ok c
