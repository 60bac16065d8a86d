-- ===== src/Http/Reply.antt =====
-- http_main.c: the texts that the server sends, and the handlers that only send.
pub mod Errors
pub mod Files
use twebs.Prelude.{
  ℕ, zero, suc, ◌+◌, ◌-◌, Bool, true, false, not, Option, none, some, Bytes, [], ◌∷◌, ◌++◌, length,
  take, codes, ℤ, pos, negsuc, is_negative, pos_part,
}
use twebs.Outcome.{Outcome, done, stopped, exited, fault}
use twebs.Kernel.{Kernel}
use twebs.CString.{print_nat, print_int}
use twebs.Http.{Host, World, M, ◌>>=◌, ◌>>◌, pure, stop, sprintf, write_all}
use twebs.Http.Uri.{get_filetype}

abbrev pub crlf : Bytes
crlf = codes "\r\n"

-- An error of the server: its number, its short and its long text.
pub record Error : Type 0 where
  pub err_num : Bytes
  pub short_msg : Bytes
  pub long_msg : Bytes

abbrev pub not_implemented : Error
not_implemented = record {
  err_num = codes "501";
  short_msg = codes "Not Inplemented";
  long_msg = codes "Tiny does not inplement this method";
}

abbrev pub not_found : Error
not_found = record {
  err_num = codes "404";
  short_msg = codes "Not found";
  long_msg = codes "Tiny couldn`t find this file";
}

abbrev pub unreadable : Error
unreadable = record {
  err_num = codes "403";
  short_msg = codes "Forbidden";
  long_msg = codes "Tiny couldn`t read the file";
}

abbrev pub not_runnable : Error
not_runnable = record {
  err_num = codes "403";
  short_msg = codes "Forbidden";
  long_msg = codes "Tiny couldn`t run the CGI program";
}

-- the refusal of a foreign address, by `main`
abbrev pub not_open : Error
not_open = record {
  err_num = codes "403";
  short_msg = codes "Forbidden";
  long_msg = codes "Tiny couldn`t read the file`";
}

-- The `body` and the `buf` of `client_error`.
unfoldable pub error_body : Error → Bytes → Bytes
error_body e cause =
    codes "<html><title>Tiny Error</title>"
    ++ (codes "<body bgcolor=ffffff>\r\n"
        ++ (e.err_num
            ++ (codes ": "
                ++ (e.short_msg
                    ++ (crlf
                        ++ (codes "<p>"
                            ++ (e.long_msg
                                ++ (codes ": "
                                    ++ (cause
                                        ++ (crlf
                                            ++ codes
                                                "<hr><em>The Tiny Web Server</em>\r\n"))))))))))

unfoldable pub error_header : Error → ℕ → Bytes
error_header e n =
    codes "HTTP/1.0 "
    ++ (e.err_num
        ++ (codes " "
            ++ (e.short_msg
                ++ (crlf
                    ++ (codes "Content-Type: text/html\r\n"
                        ++ (codes "Content-Length: " ++ (print_nat n ++ codes "\r\n\r\n")))))))

unfoldable pub static_header : Bytes → ℤ → Bytes
unfolding get_filetype
static_header filename filesize =
    codes "HTTP/1.0 200 OK\r\n"
    ++ (codes "Server: Tiny Web Server\r\n"
        ++ (codes "Content-Length: "
            ++ (print_int filesize
                ++ (crlf
                    ++ (codes "Content-Type: " ++ (get_filetype filename ++ codes "\r\n\r\n"))))))

module _ {S : Type 0} (k : Kernel S) (fuel : ℕ) (h : Host) where
  -- The second write sends `strlen(buf)` bytes of `body`: beyond its string they are a zero byte
  -- and what the array held before.
  unfoldable pub client_error : Bytes → Error → M S (Unit {0})
  client_error cause e = do
    body ← sprintf (error_body e cause)
    buf ← sprintf (error_header e (length body))
    write_all k fuel buf
    write_all k fuel (take (length buf) (body ++ 0 ∷ h.junk_body))

  unfoldable pub serve_static : Bytes → ℤ → M S (Unit {0})
  serve_static filename filesize = do
    buf ← sprintf (static_header filename filesize)
    src_ptr ← (λ w. elim (h.open_mapped filename filesize) [
      | some bs ↦ (done bs, w)
      | none ↦ (exited 0, w)
    ])
    write_all k fuel buf
    write_all k fuel (take (pos_part filesize) src_ptr)
