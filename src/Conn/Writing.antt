-- ===== src/Conn/Writing.antt =====
-- ss/http_conn.cpp: the response to a request, how it is sent, and what a worker thread does.
pub mod Replies
pub mod Answers
pub mod Lengths
pub mod Bounds
pub mod Sent
use twebs.Prelude.{
  ℕ, zero, suc, ◌+◌, ◌-◌, ◌*◌, ◌≤◌, Bool, true, false, not, ◌&&◌, ◌||◌, Option, none, some, Bytes,
  [], ◌∷◌, ◌++◌, length, ◌==◌, ltb, leb, if◌then◌else◌, codes, ℤ, pos, negsuc, neg, ◌%◌, ◌^◌,
  to_int,
}
use twebs.Outcome.{Outcome, done, stopped, fault, running}
use twebs.CString.{print_int}
use twebs.Conn.{
  Conn, write_idx, write_buf_size, HttpCode, no_request, get_request, bad_request, no_resource,
  forbidden_request, file_request, internal_error, closed_connection, Mapping, unmapped, mapped,
  map_failed, Socket, eagain, reset, mod_fd, epollin, epollout, close_conn,
}
use twebs.Conn.Requests.{Disk, process_read}

-- `AddResponse`, of the text that the format makes.
unfoldable pub add_response : Bytes → Conn → Bool × Conn
add_response text c =
    if leb write_buf_size (write_idx c)
    then (false, c)
    else if leb (write_buf_size - 1 - write_idx c) (length text)
    then (false, c)
    else (true, record c { write_buf = c.write_buf ++ text })

abbrev pub status_line : ℕ → Bytes → Bytes
status_line status title =
    codes "HTTP/1.1 " ++ (print_int (pos status) ++ (codes " " ++ (title ++ codes "\r\n")))

abbrev pub add_status_line : ℕ → Bytes → Conn → Bool × Conn
unfolding add_response
add_status_line status title c = add_response (status_line status title) c

abbrev pub length_line : ℤ → Bytes
length_line n = codes "Content-Length: " ++ (print_int n ++ codes "\r\n")

abbrev pub linger_line : Bool → Bytes
linger_line true = codes "Connection: keep-alive\r\n"
linger_line false = codes "Connection: close\r\n"

-- The call behind an `&&`, which runs only where the one before it succeeds.
abbrev pub and_then : Bool × Conn → (Conn → Bool × Conn) → Bool × Conn
and_then (true, c) k = k c
and_then (false, c) k = (false, c)

unfoldable pub add_content_length : ℤ → Conn → Bool × Conn
unfolding add_response
add_content_length n c = add_response (length_line n) c

unfoldable pub add_linger : Conn → Bool × Conn
unfolding add_response
add_linger c = add_response (linger_line c.linger) c

unfoldable pub add_blank_line : Conn → Bool × Conn
unfolding add_response
add_blank_line c = add_response (codes "\r\n") c

unfoldable pub add_headers : ℤ → Conn → Bool × Conn
unfolding add_content_length add_linger add_blank_line
add_headers content_len c =
    and_then (add_content_length content_len c) λ c'. and_then (add_linger c') add_blank_line

-- `ProcessWriteCommon` looks only at the last of its results.
unfoldable pub process_write_common : ℕ → Bytes → Bytes → Conn → Bool × Conn
unfolding add_response add_headers
process_write_common num title form c =
    let (ok, c') = add_status_line num title c in
    let (ok', c'') = add_headers (to_int (length form)) c' in add_response form c''

-- `iv_[0]` and its length; `iv_count_` is 1.
abbrev pub with_block : Bool × Conn → Bool × Conn
with_block (true, c) = (true, record c { header_block = c.write_buf; file_block = unmapped })
with_block (false, c) = (false, c)

abbrev pub err_400_form : Bytes
err_400_form = codes "Your request has bad syntax or is inherently impossible to satisfy.\n"

abbrev pub err_403_form : Bytes
err_403_form = codes "You do not have permission to get file from this server.\n"

abbrev pub err_404_form : Bytes
err_404_form = codes "The requested file was not found on this server.\n"

abbrev pub err_500_form : Bytes
err_500_form = codes "There was an unusual problem serving the requested file.\n"

abbrev pub ok_string : Bytes
ok_string = codes "<html><body></body></html>"

abbrev pub write_file : Conn → Bool × Conn
unfolding add_response add_headers
write_file c =
    let (ok, c') = add_status_line 200 (codes "OK") c in
    if not (c'.file_size == 0)
    then (let (ok', c'') = add_headers (to_int c'.file_size) c' in
        (true, record c'' { header_block = c''.write_buf; file_block = c''.file_addr }))
    else (let (ok', c'') = add_headers (to_int (length ok_string)) c' in
        with_block (add_response ok_string c''))

unfoldable pub process_write : HttpCode → Conn → Bool × Conn
unfolding process_write_common write_file
process_write internal_error c =
    with_block (process_write_common 500 (codes "Internal Error") err_500_form c)
process_write bad_request c =
    with_block (process_write_common 400 (codes "Bad Request") err_400_form c)
process_write no_resource c =
    with_block (process_write_common 404 (codes "Not Found") err_404_form c)
process_write forbidden_request c =
    with_block (process_write_common 403 (codes "Forbidden") err_403_form c)
process_write file_request c = write_file c
process_write no_request c = (false, c)
process_write get_request c = (false, c)
process_write closed_connection c = (false, c)

-- `Unmap`
abbrev pub unmap : Conn → Conn
unmap c = record c { file_addr = unmapped }

-- The response is sent: `linger_` says whether the connection stays.
unfoldable pub finish_write : Conn → Bool × Conn
unfolding reset
finish_write c =
    let c' = unmap c in
    if c'.linger then (true, mod_fd epollin (reset c')) else (false, mod_fd epollin c')

-- The loop of `Write`, with fuel for its rounds; `sent` is `bytes_have_send`, and what is left to
-- send is the difference to the length of the header.
unfoldable pub write_loop :
    {S : Type 0} → Socket S → ℕ → ℕ → ℕ → Conn → S → Outcome (Bool × Conn) × S
unfolding finish_write
write_loop k zero total sent c s = (running, s)
write_loop k (suc f) total sent c s =
    let (temp, s') = k.writev c.header_block c.file_block s in
    elim temp [
      | none ↦ elim (k.errno s' == eagain) [
        | true ↦ (done (true, mod_fd epollout c), s')
        | false ↦ (done (false, unmap c), s')
      ]
      | some n ↦ elim (leb total (2 * (sent + n))) [
        | true ↦ (done (finish_write c), s')
        | false ↦ write_loop k f total (sent + n) c s'
      ]
    ]

unfoldable pub write : {S : Type 0} → Socket S → ℕ → Conn → S → Outcome (Bool × Conn) × S
unfolding write_loop reset
write k f c s = elim (write_idx c == 0) [
  | true ↦ (done (true, reset (mod_fd epollin c)), s)
  | false ↦ write_loop k f (write_idx c) 0 c s
]

-- What a worker thread does with what `ProcessRead` returns.
unfoldable pub answer : HttpCode → Conn → ℤ → Conn × ℤ
unfolding process_write close_conn
answer code c user_count =
    let (write_ret, c') = process_write code c in
    let (c'', user_count') = if write_ret then (c', user_count) else close_conn c' user_count in
    (mod_fd epollout c'', user_count')

unfoldable pub processed : Outcome (HttpCode × Conn) → ℤ → Outcome (Conn × ℤ)
unfolding answer
processed (done (no_request, c)) user_count = done (mod_fd epollin c, user_count)
processed (done (code, c)) user_count = done (answer code c user_count)
processed (stopped e) user_count = stopped e

-- `Process`
unfoldable pub process : Disk → Conn → ℤ → Outcome (Conn × ℤ)
unfolding process_read processed
process disk c user_count = processed (process_read disk c) user_count
