-- ===== src/Http/Reply/Errors.antt =====
-- `client_error`: what an error sends, and how much of its body.
use twebs.Prelude.{
  ℕ, ◌+◌, ◌≤◌, ◌<◌, ◌≡◌, Bytes, ◌∷◌, ◌++◌, length, take, arith, ap, length-append, length-take,
  codes, take-append_le, sym, refl, ◌∙◌,
}
use twebs.Outcome.{done}
use twebs.Kernel.{Kernel, Ghost, IsReliable}
use twebs.CString.{print_nat, length-print_nat}
use twebs.Http.{Host, World, ◌>>=◌, write_all, maxline}
use twebs.Http.Sending.{Sent, patience_of, write_two, sprintf_fits}
use twebs.Http.Reply.{
  Error, error_body, error_header, client_error, not_implemented, not_found, unreadable,
  not_runnable, crlf, not_open,
}

-- What an error puts on the connection: the header, and as many bytes of the array `body` as the
-- header has.
abbrev pub error_reply : Host → Error → Bytes → Bytes
error_reply h e cause =
    let body = error_body e cause in
    let buf = error_header e (length body) in buf ++ take (length buf) (body ++ 0 ∷ h.junk_body)

module _ {S : Type 0} {k : Kernel S} {g : Ghost S} (law : IsReliable k g) (h : Host) where
  client_error_writes :
      (fuel : ℕ) (e : Error) (cause : Bytes) (w : World S)
      → length (error_body e cause) < maxline
      → length (error_header e (length (error_body e cause))) < maxline
      → let body = error_body e cause in
        let buf = error_header e (length body) in
        client_error k fuel h cause e w
        ≡ (write_all k fuel buf >>= λ _.
              write_all k fuel (take (length buf) (body ++ 0 ∷ h.junk_body)))
            w
  unfolding client_error
  client_error_writes fuel e cause w hb hh = ground (
    arith,
    sprintf_fits (error_body e cause) w hb,
    sprintf_fits (error_header e (length (error_body e cause))) w hh,
  )

  -- `client_error` sends `error_reply` and returns, if both texts fit their arrays.
  pub client_error-Sent :
      (fuel : ℕ) (e : Error) (cause : Bytes) (w : World S)
      → length (error_body e cause) < maxline
      → length (error_header e (length (error_body e cause))) < maxline
      → maxline + patience_of g w ≤ fuel
      → ((client_error k fuel h cause e w).0 ≡ done tt)
        × Sent g (error_reply h e cause) w (client_error k fuel h cause e w).1
  client_error-Sent fuel e cause w hb hh hf =
      let body = error_body e cause in
      let buf = error_header e (length body) in
      let text = take (length buf) (body ++ 0 ∷ h.junk_body) in
      rw (client_error_writes fuel e cause w hb hh) (
        write_two law fuel buf text w (omega arith)
          (omega (arith, length-take (length buf) (body ++ 0 ∷ h.junk_body))))

-- The errors that the server sends.
pub data IsServerError : Error → Type 0 where
  is_501 : IsServerError not_implemented
  is_404 : IsServerError not_found
  is_403_static : IsServerError unreadable
  is_403_dynamic : IsServerError not_runnable
  is_403_access : IsServerError not_open

length-error_header :
    (e : Error) (n : ℕ) → IsServerError e → n < 10_000 → length (error_header e n) < 100
unfolding error_header
length-error_header e n is_501 h =
    omega (arith, length-print_nat n h, length-append (print_nat n) (codes "\r\n\r\n"))
length-error_header e n is_404 h =
    omega (arith, length-print_nat n h, length-append (print_nat n) (codes "\r\n\r\n"))
length-error_header e n is_403_static h =
    omega (arith, length-print_nat n h, length-append (print_nat n) (codes "\r\n\r\n"))
length-error_header e n is_403_dynamic h =
    omega (arith, length-print_nat n h, length-append (print_nat n) (codes "\r\n\r\n"))
length-error_header e n is_403_access h =
    omega (arith, length-print_nat n h, length-append (print_nat n) (codes "\r\n\r\n"))

length-error_body :
    (e : Error) (cause : Bytes) → IsServerError e → 100 + length cause ≤ length (error_body e cause)
unfolding error_body
length-error_body e cause is_501 =
    omega (arith, length-append cause (crlf ++ codes "<hr><em>The Tiny Web Server</em>\r\n"))
length-error_body e cause is_404 =
    omega (arith, length-append cause (crlf ++ codes "<hr><em>The Tiny Web Server</em>\r\n"))
length-error_body e cause is_403_static =
    omega (arith, length-append cause (crlf ++ codes "<hr><em>The Tiny Web Server</em>\r\n"))
length-error_body e cause is_403_dynamic =
    omega (arith, length-append cause (crlf ++ codes "<hr><em>The Tiny Web Server</em>\r\n"))
length-error_body e cause is_403_access =
    omega (arith, length-append cause (crlf ++ codes "<hr><em>The Tiny Web Server</em>\r\n"))

-- The page that tells of an error, and the header for a page of `n` bytes, as texts.
abbrev pub error_page : Error → Bytes → Bytes
error_page e cause =
    codes "<html><title>Tiny Error</title><body bgcolor=ffffff>\r\n"
    ++ (e.err_num
        ++ (codes ": "
            ++ (e.short_msg
                ++ (codes "\r\n<p>"
                    ++ (e.long_msg
                        ++ (codes ": "
                            ++ (cause ++ codes "\r\n<hr><em>The Tiny Web Server</em>\r\n")))))))

abbrev pub error_head : Error → ℕ → Bytes
error_head e n =
    codes "HTTP/1.0 "
    ++ (e.err_num
        ++ (codes " "
            ++ (e.short_msg
                ++ (codes "\r\nContent-Type: text/html\r\nContent-Length: "
                    ++ (print_nat n ++ codes "\r\n\r\n")))))

-- What reaches the client of an error: the header, and of the page only as many bytes as the
-- header has.
abbrev pub cut_reply : Error → Bytes → Bytes
cut_reply e cause =
    let page = error_page e cause in
    let head = error_head e (length page) in head ++ take (length head) page

pub error_body-page : (e : Error) (cause : Bytes) → error_body e cause ≡ error_page e cause
unfolding error_body
error_body-page e cause = refl

pub error_header-head : (e : Error) (n : ℕ) → error_header e n ≡ error_head e n
unfolding error_header
error_header-head e n = refl

-- In terms of the two texts that `client_error` makes.
pub cut_reply-texts :
    (e : Error) (cause : Bytes)
    → let body = error_body e cause in
      let buf = error_header e (length body) in cut_reply e cause ≡ buf ++ take (length buf) body
unfolding error_body error_header
cut_reply-texts e cause = refl

module _ (h : Host) (e : Error) (cause : Bytes) (i : IsServerError e)
    (fits : length (error_body e cause) < maxline) where
  pub header_short : length (error_header e (length (error_body e cause))) < 100
  header_short = length-error_header e (length (error_body e cause)) i (omega arith)

  error_reply_cut : error_reply h e cause ≡ cut_reply e cause
  error_reply_cut =
      let body = error_body e cause in
      let buf = error_header e (length body) in
      let long = length-error_body e cause i in
      ap (◌++◌ buf)
        (take-append_le (length buf) body (0 ∷ h.junk_body) (omega (arith, header_short)))
      ∙ sym (cut_reply-texts e cause)

  header_shorter :
      length (error_header e (length (error_body e cause))) < length (error_body e cause)
  header_shorter = omega (arith, header_short, length-error_body e cause i)

  head_short : length (error_head e (length (error_page e cause))) < length (error_page e cause)
  unfolding error_body error_header
  head_short = header_shorter

module _ {S : Type 0} {k : Kernel S} {g : Ghost S} (law : IsReliable k g) where
  -- `client_error` returns, having sent the header and the cut body of its error and nothing else,
  -- if the body fits its array.
  pub client_error_lem :
      (fuel : ℕ) (h : Host) (e : Error) (cause : Bytes) (w : World S)
      → IsServerError e
      → length (error_body e cause) < maxline
      → maxline + patience_of g w ≤ fuel
      → ((client_error k fuel h cause e w).0 ≡ done tt)
        × Sent g (cut_reply e cause) w (client_error k fuel h cause e w).1
  client_error_lem fuel h e cause w i hb hf =
      rw (← error_reply_cut h e cause i hb)
        (client_error-Sent law h fuel e cause w hb (omega (arith, header_short h e cause i hb)) hf)

  -- No error of the server reaches its client whole, the refusal of a foreign address included: if
  -- the page fits its array, `client_error` returns, having sent a header that announces the length
  -- of the whole page, and of the page only as many bytes as the header has, which are fewer.
  pub client_error_cut :
      (fuel : ℕ) (h : Host) (e : Error) (cause : Bytes) (w : World S)
      → IsServerError e
      → length (error_page e cause) < maxline
      → maxline + patience_of g w ≤ fuel
      → let page = error_page e cause in
        let head = error_head e (length page) in
        ((client_error k fuel h cause e w).0 ≡ done tt)
        × Sent g (head ++ take (length head) page) w (client_error k fuel h cause e w).1
        × (length head < length page)
  client_error_cut fuel h e cause w i fits hf =
      let hb : length (error_body e cause) < maxline = rw (error_body-page e cause) fits in
      let (r, s) = client_error_lem fuel h e cause w i hb hf in (r, s, head_short h e cause i hb)
