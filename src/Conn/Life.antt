-- ===== src/Conn/Life.antt =====
-- ss/http_conn.cpp and ss/main.cpp: a connection from `Init` on, through the events of its socket and
-- the worker threads that process it.
use twebs.Prelude.{ℕ, ◌+◌, ◌≤◌, ◌<◌, ◌≡◌, refl, Bool, true, some, Bytes, length, ℤ, arith, ap}
use twebs.Outcome.{Outcome, done}
use twebs.Conn.{Conn, Socket, init, reset, read_idx, read_buf_size, epollin}
use twebs.Conn.Reading.{read}
use twebs.Conn.Reading.Arrivals.{Limits, IsRead, read_bytes, read-IsRead, received-IsSound}
use twebs.Conn.Reading.Pieces.{received}
use twebs.Conn.Requests.{Disk}
use twebs.Conn.Writing.{process}
use twebs.Conn.Writing.Answers.{
  IsFresh, IsAnswer, asks_more, refuses_all, undefined_all, process-IsAnswer,
}

init-IsFresh : (c : Conn) (user_count : ℤ) (fd : ℕ) → IsFresh (init c user_count fd).0
unfolding init reset
init-IsFresh c user_count fd = record {
  fd = fd;
  is_open = refl;
  unanswered = refl;
  ready = record {
    sound = record {
      fits = omega arith;
      checked = omega arith;
      started = omega arith;
      settled = refl;
    };
    at_line = refl;
  };
}

received-IsFresh :
    (bs : Bytes) (c : Conn)
    → read_idx c + length bs ≤ read_buf_size
    → IsFresh c
    → IsFresh (received bs c)
received-IsFresh bs c l v = record {
  fd = v.fd;
  is_open = v.is_open;
  unanswered = v.unanswered;
  ready = record { sound = received-IsSound bs c l v.ready.sound; at_line = v.ready.at_line };
}

read-IsFresh :
    (c d : Conn) (o : Outcome (Bool × Conn))
    → IsRead c o
    → o ≡ done (true, d)
    → IsFresh c
    → IsFresh d
read-IsFresh c d _ (read_bytes ok bs l) e v =
    let same : received bs c ≡ d = ground (arith, e) in rw same at (received-IsFresh bs c l v)

answer-IsFresh :
    (c d : Conn) (n m : ℤ) (o : Outcome (Conn × ℤ))
    → IsAnswer c n o
    → o ≡ done (d, m)
    → d.interest ≡ some epollin
    → IsFresh d
answer-IsFresh c d n m _ (asks_more {d = d'} i v) e w =
    let same : d' ≡ d = ground arith in rw same at v
answer-IsFresh c d n m _ (refuses_all {d = d'} i h f) e w =
    let same : d' ≡ d = ground arith in absurd (ground (arith, same, i, w))
answer-IsFresh c d n m _ undefined_all e w = absurd (ground arith)

module _ {S : Type 0} (k : Socket S) (limits : Limits k) (disk : Disk) (fuel : ℕ)
    (enough : read_buf_size < fuel) where
  -- A connection that has come and has been read and processed any number of times, each time asking for
  -- more bytes.
  pub data Lives : Conn → S → Type 0 where
    begins : (c : Conn) (user_count : ℤ) (fd : ℕ) (s : S) → Lives (init c user_count fd).0 s
    goes_on :
        {c c' d : Conn} {s s' t : S} (n m : ℤ)
        → Lives c s
        → read k fuel c s ≡ (done (true, c'), s')
        → process disk c' n ≡ done (d, m)
        → d.interest ≡ some epollin
        → Lives d t

  lives-IsFresh : (c : Conn) (s : S) → Lives c s → IsFresh c
  lives-IsFresh _ _ (begins c user_count fd s) = init-IsFresh c user_count fd
  lives-IsFresh _ _ (goes_on {c} {c'} {d} {s} {s'} {t} n m l e p w) =
      let v = lives-IsFresh c s l in
      let v' =
        read-IsFresh c c' (read k fuel c s).0
          (read-IsRead k limits c fuel s v.ready.sound.fits enough) (ap (λ r. r.0) e) v in
      answer-IsFresh c' d n m (process disk c' n) (process-IsAnswer disk c' n v') p w

  -- However a client's bytes come, over however many events, a connection is answered with the page
  -- for a bad request or not at all, or the behaviour is undefined.
  pub process-Lives :
      (c c' : Conn) (s s' : S) (user_count : ℤ)
      → Lives c s
      → read k fuel c s ≡ (done (true, c'), s')
      → IsAnswer c' user_count (process disk c' user_count)
  process-Lives c c' s s' user_count l e =
      let v = lives-IsFresh c s l in
      process-IsAnswer disk c' user_count (
        read-IsFresh c c' (read k fuel c s).0
          (read-IsRead k limits c fuel s v.ready.sound.fits enough) (ap (λ r. r.0) e) v)
