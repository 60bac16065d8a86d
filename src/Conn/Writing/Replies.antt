-- ===== src/Conn/Writing/Replies.antt =====
-- `ProcessWrite`: the whole responses to errors.
use twebs.Prelude.{
  ℕ, ◌+◌, ◌-◌, ◌<◌, ◌≡◌, Bool, true, false, Bytes, [], ◌++◌, length, arith, ◌∙◌, ap, codes,
  length-append, ℤ, append_assoc, to_int, if◌then◌else◌, refl,
}
use twebs.CString.{print_int, print_nat}
use twebs.Conn.{
  Conn, write_idx, write_buf_size, unmapped, HttpCode, bad_request, no_resource, forbidden_request,
  internal_error,
}
use twebs.Conn.Writing.{
  add_response, status_line, length_line, linger_line, add_headers, process_write_common,
  process_write, and_then, with_block, add_content_length, add_linger, add_blank_line, err_400_form,
  err_403_form, err_404_form, err_500_form,
}

-- The text goes behind what is in the buffer where it leaves room for a byte and the zero.
add_response_fits :
    (text : Bytes) (c : Conn)
    → write_idx c + length text < write_buf_size - 1
    → add_response text c ≡ (true, record c { write_buf = c.write_buf ++ text })
unfolding add_response
add_response_fits text c l = ground arith

-- The three header lines.
abbrev pub header_lines : ℤ → Bool → Bytes
header_lines n linger = length_line n ++ (linger_line linger ++ codes "\r\n")

add_headers_fits :
    (n : ℤ) (c : Conn)
    → write_idx c + length (header_lines n c.linger) < write_buf_size - 1
    → add_headers n c ≡ (true, record c { write_buf = c.write_buf ++ header_lines n c.linger })
unfolding add_headers add_content_length add_linger add_blank_line
add_headers_fits n c l =
    let line = length_line n in
    let end = linger_line c.linger ++ codes "\r\n" in
    let c1 = record c { write_buf = c.write_buf ++ line } in
    let c2 = record c1 { write_buf = c1.write_buf ++ linger_line c.linger } in
    let a = length-append line end in
    let b = length-append (linger_line c.linger) (codes "\r\n") in
    let d = length-append c.write_buf line in
    let d' = length-append c1.write_buf (linger_line c.linger) in
    ap
      (λ r.
        and_then r
          λ c'. and_then (add_response (linger_line c'.linger) c') (add_response (codes "\r\n")))
      (add_response_fits line c (omega (arith, l, a)))
    ∙ ap (λ r. and_then r (add_response (codes "\r\n")))
        (add_response_fits (linger_line c.linger) c1 (omega (arith, l, a, b, d)))
    ∙ add_response_fits (codes "\r\n") c2 (omega (arith, l, a, b, d, d'))
    ∙ ap (λ bs. (true, record c { write_buf = bs }))
        (append_assoc (c.write_buf ++ line) (linger_line c.linger) (codes "\r\n")
          ∙ append_assoc c.write_buf line end)

-- A whole response.
abbrev pub response : ℕ → Bytes → Bool → Bytes → Bytes
response status title linger body =
    status_line status title ++ (header_lines (to_int (length body)) linger ++ body)

process_write_common_fits :
    (num : ℕ) (title form : Bytes) (c : Conn)
    → write_idx c + length (response num title c.linger form) < write_buf_size - 1
    → process_write_common num title form c
      ≡ (true, record c { write_buf = c.write_buf ++ response num title c.linger form })
unfolding process_write_common
process_write_common_fits num title form c l =
    let first = status_line num title in
    let lines = header_lines (to_int (length form)) c.linger in
    let c1 = record c { write_buf = c.write_buf ++ first } in
    let c2 = record c1 { write_buf = c1.write_buf ++ lines } in
    let a = length-append first (lines ++ form) in
    let b = length-append lines form in
    let d = length-append c.write_buf first in
    let d' = length-append c1.write_buf lines in
    ap (λ r. add_response form (add_headers (to_int (length form)) r.1).1)
      (add_response_fits first c (omega (arith, l, a)))
    ∙ ap (λ r. add_response form r.1)
        (add_headers_fits (to_int (length form)) c1 (omega (arith, l, a, b, d)))
    ∙ add_response_fits form c2 (omega (arith, l, a, b, d, d'))
    ∙ ap (λ bs. (true, record c { write_buf = bs }))
        (append_assoc (c.write_buf ++ first) lines form
          ∙ append_assoc c.write_buf first (lines ++ form))

-- A page that tells of an error: what stands behind "HTTP/1.1 " in its first line, and its text.
pub record Page : Type 0 where
  pub status : Bytes
  pub text : Bytes

abbrev pub page_400 : Page
page_400 = record {
  status = codes "400 Bad Request";
  text = codes "Your request has bad syntax or is inherently impossible to satisfy.\n";
}

abbrev pub page_403 : Page
page_403 = record {
  status = codes "403 Forbidden";
  text = codes "You do not have permission to get file from this server.\n";
}

abbrev pub page_404 : Page
page_404 = record {
  status = codes "404 Not Found";
  text = codes "The requested file was not found on this server.\n";
}

abbrev pub page_500 : Page
page_500 = record {
  status = codes "500 Internal Error";
  text = codes "There was an unusual problem serving the requested file.\n";
}

-- The page for each error.
pub data IsError : HttpCode → Page → Type 0 where
  error_400 : IsError bad_request page_400
  error_403 : IsError forbidden_request page_403
  error_404 : IsError no_resource page_404
  error_500 : IsError internal_error page_500

-- The whole response, as a text.
abbrev pub page_text : Page → Bool → Bytes
page_text p linger =
    codes "HTTP/1.1 "
    ++ (p.status
        ++ (codes "\r\nContent-Length: "
            ++ (print_nat (length p.text)
                ++ (codes "\r\nConnection: "
                    ++ ((if linger then codes "keep-alive" else codes "close")
                        ++ (codes "\r\n\r\n" ++ p.text))))))

-- The response is the one block to send.
abbrev pub with_response : Bytes → Conn → Conn
with_response bs c = record c { write_buf = bs; header_block = bs; file_block = unmapped }

page_fits :
    (code : HttpCode) (p : Page) (linger : Bool)
    → IsError code p
    → length (page_text p linger) < write_buf_size - 1
unfolding print_nat
page_fits _ _ true error_400 = omega arith
page_fits _ _ false error_400 = omega arith
page_fits _ _ true error_403 = omega arith
page_fits _ _ false error_403 = omega arith
page_fits _ _ true error_404 = omega arith
page_fits _ _ false error_404 = omega arith
page_fits _ _ true error_500 = omega arith
page_fits _ _ false error_500 = omega arith

-- The number, the title and the text that `process_write` has for a page.
record IsMade (num : ℕ) (title form : Bytes) (p : Page) : Type 0 where
  on_true : response num title true form ≡ page_text p true
  on_false : response num title false form ≡ page_text p false

IsMade-text :
    (num : ℕ) (title form : Bytes) (p : Page) (linger : Bool)
    → IsMade num title form p
    → response num title linger form ≡ page_text p linger
IsMade-text num title form p true m = m.on_true
IsMade-text num title form p false m = m.on_false

page_written :
    (code : HttpCode) (num : ℕ) (title form : Bytes) (p : Page) (c : Conn)
    → IsError code p
    → IsMade num title form p
    → c.write_buf ≡ []
    → with_block (process_write_common num title form c)
      ≡ (true, with_response (page_text p c.linger) c)
page_written code num title form p c i m e =
    let text = IsMade-text num title form p c.linger m in
    let l = page_fits code p c.linger i in
    ap with_block
      (process_write_common_fits num title form c (rw e (omega (arith, l, ap length text))))
    ∙ ap (λ bs. (true, with_response bs c)) (rw e text)

-- With nothing in the buffer, the response to every error is the status line, a `Content-Length` that is the length of the
-- error's text, the `Connection` line that the request asked for, an empty line and the text. It fits
-- in the buffer, and it is the only block to send.
pub process_write-IsError :
    (code : HttpCode) (p : Page) (c : Conn)
    → IsError code p
    → c.write_buf ≡ []
    → process_write code c ≡ (true, with_response (page_text p c.linger) c)
unfolding process_write print_int print_nat
process_write-IsError _ p c error_400 e =
    page_written _ 400 (codes "Bad Request") err_400_form p c error_400
      (record { on_true = refl; on_false = refl }) e
process_write-IsError _ p c error_403 e =
    page_written _ 403 (codes "Forbidden") err_403_form p c error_403
      (record { on_true = refl; on_false = refl }) e
process_write-IsError _ p c error_404 e =
    page_written _ 404 (codes "Not Found") err_404_form p c error_404
      (record { on_true = refl; on_false = refl }) e
process_write-IsError _ p c error_500 e =
    page_written _ 500 (codes "Internal Error") err_500_form p c error_500
      (record { on_true = refl; on_false = refl }) e
