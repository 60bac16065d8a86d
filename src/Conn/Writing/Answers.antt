-- ===== src/Conn/Writing/Answers.antt =====
-- `Process`: what becomes of a connection from its bytes to its response.
use twebs.Prelude.{ℕ, ◌≡◌, refl, ◌∙◌, ap, some, [], ℤ, arith}
use twebs.Outcome.{Outcome, done, fault}
use twebs.Conn.{Conn, HttpCode, bad_request, unmapped, Interest, epollin, epollout, mod_fd}
use twebs.Conn.Requests.{Disk, process_read}
use twebs.Conn.Requests.Refused.{
  IsWaiting, IsNoRequest, waits, refuses, faults, Kept, process_read-IsNoRequest,
}
use twebs.Conn.Writing.{process, processed, answer}
use twebs.Conn.Writing.Replies.{
  page_400, error_400, page_text, with_response, process_write-IsError,
}

-- An open connection at its request line, with no response yet.
pub record IsFresh (c : Conn) : Type 0 where
  pub fd : ℕ
  pub is_open : c.sockfd ≡ some fd
  pub unanswered : c.write_buf ≡ []
  pub ready : IsWaiting c

-- A connection that waits for more bytes; one that waits for room to send the page 400 as its whole
-- response; or undefined behaviour. The number of connections is what it was.
pub data IsAnswer (c : Conn) (user_count : ℤ) : Outcome (Conn × ℤ) → Type 0 where
  asks_more :
      {d : Conn}
      → d.interest ≡ some epollin
      → IsFresh d
      → IsAnswer c user_count (done (d, user_count))
  refuses_all :
      {d : Conn}
      → d.interest ≡ some epollout
      → d.header_block ≡ page_text page_400 c.linger
      → d.file_block ≡ unmapped
      → IsAnswer c user_count (done (d, user_count))
  undefined_all : IsAnswer c user_count fault

mod_fd-open :
    (ev : Interest) (c : Conn) (fd : ℕ)
    → c.sockfd ≡ some fd
    → mod_fd ev c ≡ record c { interest = some ev }
mod_fd-open ev c fd e = ground arith

answer-bad_request :
    (c d : Conn) (fd : ℕ) (n : ℤ)
    → Kept c d
    → c.sockfd ≡ some fd
    → c.write_buf ≡ []
    → answer bad_request d n
      ≡ (record (with_response (page_text page_400 c.linger) d) { interest = some epollout }, n)
unfolding answer
answer-bad_request c d fd n (f, b, l) e z =
    let w = process_write-IsError bad_request page_400 d error_400 (b ∙ z) in
    let page = page_text page_400 d.linger in
    let shown = mod_fd-open epollout (with_response page d) fd (f ∙ e) in
    rw (answer, w)
      (ap (λ x. (x, n)) shown
        ∙ ap
            (λ x. (record (with_response (page_text page_400 x) d) { interest = some epollout }, n))
            l)

-- What a socket is registered for says nothing of the request.
interest-IsFresh :
    (ev : Interest) (c : Conn) → IsFresh c → IsFresh (record c { interest = some ev })
interest-IsFresh ev c v = record {
  fd = v.fd;
  is_open = v.is_open;
  unanswered = v.unanswered;
  ready = record {
    sound = record {
      fits = v.ready.sound.fits;
      checked = v.ready.sound.checked;
      started = v.ready.sound.started;
      settled = v.ready.sound.settled;
    };
    at_line = v.ready.at_line;
  };
}

processed-IsAnswer :
    (c : Conn) (n : ℤ) (o : Outcome (HttpCode × Conn))
    → IsNoRequest c o
    → IsFresh c
    → IsAnswer c n (processed o n)
unfolding processed
processed-IsAnswer c n _ (waits {d} (f, b, l) w) v =
    rw (mod_fd-open epollin d v.fd (f ∙ v.is_open)) (
      asks_more refl (
        interest-IsFresh epollin d (record {
          fd = v.fd;
          is_open = f ∙ v.is_open;
          unanswered = b ∙ v.unanswered;
          ready = w;
        })))
processed-IsAnswer c n _ (refuses {d} h) v =
    rw (answer-bad_request c d v.fd n h v.is_open v.unanswered) (refuses_all refl refl refl)
processed-IsAnswer c n _ faults v = undefined_all

-- An open connection at its request line, with no response yet, gets from `Process`, whatever
-- bytes have come, no file and no other answer than the page for a bad request: it waits for more
-- bytes, as open and as unanswered as it was, or that page is the whole response to send, or the
-- behaviour is undefined.
pub process-IsAnswer :
    (disk : Disk) (c : Conn) (user_count : ℤ)
    → IsFresh c
    → IsAnswer c user_count (process disk c user_count)
unfolding process
process-IsAnswer disk c user_count v =
    processed-IsAnswer c user_count (process_read disk c) (process_read-IsNoRequest disk c v.ready)
      v
