-- ===== src/Conn/Writing/Bounds.antt =====
-- `ProcessWrite`: the bound on the buffer that the response is made in.
use twebs.Prelude.{
  ℕ, ◌-◌, ◌<◌, Bool, true, false, Bytes, length, ◌==◌, leb, arith, inl, inr, Bool-cases, codes,
  length-append, ℤ, to_int,
}
use twebs.Conn.{
  Conn, write_idx, write_buf_size, HttpCode, no_request, get_request, bad_request, no_resource,
  forbidden_request, file_request, internal_error, closed_connection,
}
use twebs.Conn.Writing.{
  add_response, status_line, length_line, linger_line, add_headers, process_write_common,
  process_write, and_then, err_400_form, err_403_form, err_404_form, err_500_form, ok_string,
  write_file, with_block, add_content_length, add_linger, add_blank_line,
}

add_response_bound :
    (text : Bytes) (c : Conn)
    → write_idx c < write_buf_size
    → write_idx (add_response text c).1 < write_buf_size
unfolding add_response
add_response_bound text c l =
    elim (Bool-cases (leb (write_buf_size - 1 - write_idx c) (length text))) [
      | inl y ↦ ground arith
      | inr n ↦ ground (arith, length-append c.write_buf text)
    ]

and_then_bound :
    (r : Bool × Conn) (k : Conn → Bool × Conn)
    → write_idx r.1 < write_buf_size
    → ((c : Conn) → write_idx c < write_buf_size → write_idx (k c).1 < write_buf_size)
    → write_idx (and_then r k).1 < write_buf_size
and_then_bound (true, c) k l h = h c l
and_then_bound (false, c) k l h = l

add_headers_bound :
    (n : ℤ) (c : Conn)
    → write_idx c < write_buf_size
    → write_idx (add_headers n c).1 < write_buf_size
unfolding add_headers add_content_length add_linger add_blank_line
add_headers_bound n c l =
    and_then_bound (add_content_length n c) (λ c'. and_then (add_linger c') add_blank_line)
      (add_response_bound (length_line n) c l)
      λ c' l'.
        and_then_bound (add_linger c') add_blank_line
          (add_response_bound (linger_line c'.linger) c' l') (add_response_bound (codes "\r\n"))

process_write_common_bound :
    (num : ℕ) (title form : Bytes) (c : Conn)
    → write_idx c < write_buf_size
    → write_idx (process_write_common num title form c).1 < write_buf_size
unfolding process_write_common
process_write_common_bound num title form c l =
    let c' = (add_response (status_line num title) c).1 in
    add_response_bound form (add_headers (to_int (length form)) c').1
      (add_headers_bound (to_int (length form)) c' (add_response_bound (status_line num title) c l))

with_block_bound :
    (r : Bool × Conn) → write_idx r.1 < write_buf_size → write_idx (with_block r).1 < write_buf_size
with_block_bound (true, c) l = l
with_block_bound (false, c) l = l

write_file_bound :
    (c : Conn) → write_idx c < write_buf_size → write_idx (write_file c).1 < write_buf_size
unfolding write_file
write_file_bound c l =
    let c' = (add_response (status_line 200 (codes "OK")) c).1 in
    let l' = add_response_bound (status_line 200 (codes "OK")) c l in
    elim (Bool-cases (c'.file_size == 0)) [
      | inl y ↦
          let c'' = (add_headers (to_int (length ok_string)) c').1 in
          rw y (
            with_block_bound (add_response ok_string c'') (
              add_response_bound ok_string c''
                (add_headers_bound (to_int (length ok_string)) c' l')))
      | inr n ↦ rw n (add_headers_bound (to_int c'.file_size) c' l')
    ]

-- Whatever the result of the request and whatever stands in the buffer already, an index inside the
-- buffer is inside it behind the response that is made.
pub process_write_bound :
    (code : HttpCode) (c : Conn)
    → write_idx c < write_buf_size
    → write_idx (process_write code c).1 < write_buf_size
unfolding process_write
process_write_bound internal_error c l =
    with_block_bound (process_write_common 500 (codes "Internal Error") err_500_form c)
      (process_write_common_bound 500 (codes "Internal Error") err_500_form c l)
process_write_bound bad_request c l =
    with_block_bound (process_write_common 400 (codes "Bad Request") err_400_form c)
      (process_write_common_bound 400 (codes "Bad Request") err_400_form c l)
process_write_bound no_resource c l =
    with_block_bound (process_write_common 404 (codes "Not Found") err_404_form c)
      (process_write_common_bound 404 (codes "Not Found") err_404_form c l)
process_write_bound forbidden_request c l =
    with_block_bound (process_write_common 403 (codes "Forbidden") err_403_form c)
      (process_write_common_bound 403 (codes "Forbidden") err_403_form c l)
process_write_bound file_request c l = write_file_bound c l
process_write_bound no_request c l = l
process_write_bound get_request c l = l
process_write_bound closed_connection c l = l
