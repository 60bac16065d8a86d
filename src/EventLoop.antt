-- ===== src/EventLoop.antt =====
-- ss/main.cpp: the loop of the C++ server over the events that epoll reports.
pub mod Users
pub mod Start
use twebs.Prelude.{
  ℕ, zero, suc, ◌+◌, Bool, true, false, not, Option, none, some, Bytes, List, [], ◌∷◌, ◌++◌, ◌==◌,
  leb, if◌then◌else◌, ℤ, pos, negsuc,
}
use twebs.Outcome.{Outcome, done, stopped, fault, running}
use twebs.Conn.{Conn, Socket, init, close_conn}
use twebs.Conn.Reading.{read}
use twebs.Conn.Writing.{write}
use twebs.ThreadPool.{Pool, append, add}

abbrev pub max_fd : ℕ
max_fd = 65_536

-- An event: its descriptor, whether the peer hung up or there is an error, and whether there is
-- something to read or room to write. For the listening socket, what `accept` returns.
pub record Event : Type 0 where
  pub fd : ℕ
  pub hung_up : Bool
  pub readable : Bool
  pub writable : Bool
  pub connfd : Option ℕ

-- `users`, `user_count_`, the pool, the connections that `ShowError` turned away, and the state of
-- the sockets. A request is the index of its connection.
pub record Loop (S : Type 0) : Type 0 where
  pub users : ℕ → Conn
  pub user_count : ℤ
  pub pool : Pool ℕ
  pub refused : List ℕ
  pub sockets : S

-- `users[fd]` becomes another connection.
abbrev pub update : ℕ → Conn → (ℕ → Conn) → ℕ → Conn
update fd c users i = if i == fd then c else users i

abbrev pub is_full : ℤ → Bool
is_full (pos n) = leb max_fd n
is_full (negsuc n) = false

module _ {S : Type 0} (socket : ℕ → Socket S) (fuel listenfd : ℕ) where
  -- A new connection. The array has no object for a descriptor that is too large.
  unfoldable pub accepted : ℕ → Loop S → Outcome (Loop S)
  unfolding init
  accepted connfd l =
      if is_full l.user_count
      then done (record l { refused = l.refused ++ connfd ∷ [] })
      else if leb max_fd connfd
      then fault
      else (let (c, user_count) = init (l.users connfd) l.user_count connfd in
          done (record l { users = update connfd c l.users; user_count = user_count }))

  -- `users[fd].CloseConn()`
  unfoldable pub closed : ℕ → Loop S → Loop S
  unfolding close_conn
  closed fd l =
      let (c, user_count) = close_conn (l.users fd) l.user_count in
      record l { users = update fd c l.users; user_count = user_count }

  -- The whole of `Append`; its result is not looked at.
  unfoldable pub appended : ℕ → Loop S → Loop S
  unfolding append add
  appended fd l =
      let (ok, pool) = append (some fd) l.pool in record l { pool = if ok then add pool else pool }

  unfoldable pub after_read : ℕ → Loop S → Outcome (Bool × Conn) × S → Outcome (Loop S)
  unfolding closed appended
  after_read fd l (done (true, c), s) =
      done (appended fd (record l { users = update fd c l.users; sockets = s }))
  after_read fd l (done (false, c), s) =
      done (closed fd (record l { users = update fd c l.users; sockets = s }))
  after_read fd l (stopped e, s) = stopped e

  unfoldable pub after_write : ℕ → Loop S → Outcome (Bool × Conn) × S → Outcome (Loop S)
  unfolding closed
  after_write fd l (done (true, c), s) =
      done (record l { users = update fd c l.users; sockets = s })
  after_write fd l (done (false, c), s) =
      done (closed fd (record l { users = update fd c l.users; sockets = s }))
  after_write fd l (stopped e, s) = stopped e

  unfoldable pub handle_event : Event → Loop S → Outcome (Loop S)
  unfolding accepted closed after_read after_write read write
  handle_event ev l =
      if ev.fd == listenfd
      then elim ev.connfd [ none ↦ done l | some connfd ↦ accepted connfd l ]
      else if ev.hung_up
      then done (closed ev.fd l)
      else if ev.readable
      then after_read ev.fd l (read (socket ev.fd) fuel (l.users ev.fd) l.sockets)
      else if ev.writable
      then after_write ev.fd l (write (socket ev.fd) fuel (l.users ev.fd) l.sockets)
      else done l

  unfoldable pub handle_events : List Event → Loop S → Outcome (Loop S)
  unfolding handle_event
  handle_events [] l = done l
  handle_events (ev ∷ evs) l = elim (handle_event ev l) [
    | done l' ↦ handle_events evs l'
    | stopped e ↦ stopped e
  ]
