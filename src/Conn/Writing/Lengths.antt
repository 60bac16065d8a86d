-- ===== src/Conn/Writing/Lengths.antt =====
-- The `Content-Length` line, as the server writes it and as it reads it.
use twebs.Prelude.{
  ℕ, ◌≡◌, refl, ◌∙◌, ap, true, false, Bytes, [], ◌∷◌, ◌++◌, codes, pos, arith, length, ◌==◌, ◌<◌,
  ◌^◌,
}
use mathlib.Core.List.{append_cancel_right}
use twebs.CString.{
  print_int, atoi-print_nat, print_nat-digit, print_nat, drop_while, isblank, isdigit, all, atoi,
}
use twebs.Conn.{Conn, no_request}
use twebs.Conn.Reading.{string_at, parse_headers}
use twebs.Conn.Writing.{length_line}

drop_while-digits : (ds : Bytes) → all isdigit ds ≡ true → drop_while isblank ds ≡ ds
drop_while-digits [] h = refl
drop_while-digits (d ∷ ds) h = ground arith

parse_headers-number :
    (i : ℕ) (ds : Bytes) (c : Conn)
    → string_at i c.read_buf ≡ codes "Content-Length: " ++ ds
    → parse_headers i c ≡ (no_request, record c { content_length = atoi (drop_while isblank ds) })
unfolding parse_headers
parse_headers-number i ds c e =
    let z : (length (codes "Content-Length: " ++ ds) == 0) ≡ false = ground arith in rw (e, z)

-- A `Content-Length` line in the form in which the server writes it for a length in the range of
-- `int`, its end cleared, is read by `ParseHeaders` as the number that it was made of.
pub parse_headers-length_line :
    (i n : ℕ) (c : Conn)
    → n < 2 ^ 31
    → string_at i c.read_buf ++ codes "\r\n" ≡ length_line (pos n)
    → parse_headers i c ≡ (no_request, record c { content_length = pos n })
unfolding print_int
parse_headers-length_line i n c l e =
    let text = codes "Content-Length: " ++ print_nat n in
    parse_headers-number i (print_nat n) c
      (append_cancel_right (string_at i c.read_buf) text (codes "\r\n") e)
    ∙ ap (λ k. (no_request, record c { content_length = k }))
        (ap atoi (drop_while-digits (print_nat n) (print_nat-digit n)) ∙ atoi-print_nat n l)
