-- ===== src/EventLoop/Users.antt =====
-- ss/main.cpp: the table of connections through the loop.
use twebs.Prelude.{
  ℕ, zero, suc, ◌+◌, ◌≡◌, refl, Bool, true, false, none, some, List, [], ◌∷◌, ◌==◌, leb, ℤ, pos,
  negsuc, arith, inl, inr, ◌⊎◌, Bool-cases, Option-cases, ◌-◌, length, ◌*◌,
}
use twebs.Outcome.{Outcome, done, stopped}
use twebs.Conn.{
  Conn, Socket, init, close_conn, reset, read_idx, read_buf_size, eagain, Interest, epollin,
  epollout, mod_fd, increment, decrement, write_idx,
}
use twebs.Conn.Reading.{read, read_loop}
use twebs.Conn.Writing.{write, write_loop, finish_write}
use twebs.EventLoop.{
  Event, Loop, update, max_fd, is_full, accepted, closed, after_read, after_write, handle_event,
  handle_events, appended,
}

-- The connection that comes out has the descriptor of the one that went in.
abbrev pub SameFd : Conn → Outcome (Bool × Conn) → Type 0
SameFd c (done (ok, c')) = c'.sockfd ≡ c.sockfd
SameFd c (stopped e) = Unit

read_loop-SameFd :
    {S : Type 0} (k : Socket S) (f : ℕ) (c : Conn) (s : S) → SameFd c (read_loop k f c s).0
unfolding read_loop
read_loop-SameFd k zero c s = tt
read_loop-SameFd k (suc f) c s = elim (Option-cases (k.recv (read_buf_size - read_idx c) s).0) [
  | inl e ↦ rw (e, read_loop) refl
  | inr (bs, e) ↦ elim (Bool-cases (length bs == 0)) [
    | inl y ↦ rw (e, read_loop, y) refl
    | inr n ↦ rw (e, read_loop, n) (read_loop-SameFd k f _ _)
  ]
]

mod_fd-sockfd : (ev : Interest) (c : Conn) → (mod_fd ev c).sockfd ≡ c.sockfd
mod_fd-sockfd ev c = ground arith

read-SameFd : {S : Type 0} (k : Socket S) (f : ℕ) (c : Conn) (s : S) → SameFd c (read k f c s).0
unfolding read
read-SameFd k f c s = elim (Bool-cases (leb read_buf_size (read_idx c))) [
  | inl y ↦ rw (read, y) refl
  | inr n ↦ rw (read, n) (read_loop-SameFd k f c s)
]

finish_write-SameFd : (c : Conn) → SameFd c (done (finish_write c))
unfolding finish_write reset
finish_write-SameFd c = ground arith

write_loop-SameFd :
    {S : Type 0} (k : Socket S) (f total sent : ℕ) (c : Conn) (s : S)
    → SameFd c (write_loop k f total sent c s).0
unfolding write_loop
write_loop-SameFd k zero total sent c s = tt
write_loop-SameFd k (suc f) total sent c s =
    elim (Option-cases (k.writev c.header_block c.file_block s).0) [
      | inl e ↦ elim (Bool-cases (k.errno (k.writev c.header_block c.file_block s).1 == eagain)) [
        | inl y ↦ rw (e, write_loop, y) (mod_fd-sockfd epollout c)
        | inr n ↦ rw (e, write_loop, n) refl
      ]
      | inr (n, e) ↦ elim (Bool-cases (leb total (2 * (sent + n)))) [
        | inl y ↦ rw (e, write_loop, y) (finish_write-SameFd c)
        | inr z ↦ rw (e, write_loop, z) (write_loop-SameFd k f total (sent + n) c _)
      ]
    ]

write-SameFd : {S : Type 0} (k : Socket S) (f : ℕ) (c : Conn) (s : S) → SameFd c (write k f c s).0
unfolding write reset
write-SameFd k f c s = elim (Bool-cases (write_idx c == 0)) [
  | inl y ↦ rw (write, y) (mod_fd-sockfd epollin c)
  | inr n ↦ rw (write, n) (write_loop-SameFd k f (write_idx c) 0 c s)
]

abbrev pub is_within : ℤ → Bool
is_within (pos n) = leb n max_fd
is_within (negsuc n) = true

-- Every connection of the table is closed or has the descriptor of its place, and no more than
-- `max_fd` are counted.
pub record IsConsistent {S : Type 0} (l : Loop S) : Type 0 where
  pub placed : (i : ℕ) → ((l.users i).sockfd ≡ none) ⊎ ((l.users i).sockfd ≡ some i)
  pub limited : is_within l.user_count ≡ true

update-placed :
    (users : ℕ → Conn) (fd : ℕ) (c : Conn)
    → ((i : ℕ) → ((users i).sockfd ≡ none) ⊎ ((users i).sockfd ≡ some i))
    → (c.sockfd ≡ none) ⊎ (c.sockfd ≡ some fd)
    → (i : ℕ) → ((update fd c users i).sockfd ≡ none) ⊎ ((update fd c users i).sockfd ≡ some i)
update-placed users fd c h p i = elim (Bool-cases (i == fd)) [
  | inl y ↦ let e : i ≡ fd = ground arith in rw (y, e) p
  | inr n ↦ rw n (h i)
]

decrement_within : (n : ℤ) → is_within n ≡ true → is_within (decrement n) ≡ true
decrement_within (pos zero) h = refl
decrement_within (pos (suc n)) h = ground arith
decrement_within (negsuc n) h = refl

increment_within : (n : ℤ) → is_full n ≡ false → is_within (increment n) ≡ true
increment_within (pos n) h = ground arith
increment_within (negsuc zero) h = refl
increment_within (negsuc (suc n)) h = refl

-- An outcome that is a consistent loop, or none.
abbrev pub Consistently : {S : Type 0} → Outcome (Loop S) → Type 0
Consistently (done l) = IsConsistent l
Consistently (stopped e) = Unit

module _ {S : Type 0} (socket : ℕ → Socket S) (fuel listenfd : ℕ) where
  closed-IsConsistent :
      (fd : ℕ) (l : Loop S) → IsConsistent l → IsConsistent (closed socket fuel listenfd fd l)
  unfolding closed close_conn
  closed-IsConsistent fd l v = elim (Option-cases (l.users fd).sockfd) [
    | inl e ↦ record {
      placed = update-placed l.users fd _ v.placed (inl (rw (close_conn, e) e));
      limited = rw (close_conn, e) v.limited;
    }
    | inr (k, e) ↦ record {
      placed = update-placed l.users fd _ v.placed (inl (rw (close_conn, e) refl));
      limited = rw (close_conn, e) (decrement_within l.user_count v.limited);
    }
  ]

  accepted-Consistently :
      (connfd : ℕ) (l : Loop S)
      → IsConsistent l
      → Consistently (accepted socket fuel listenfd connfd l)
  unfolding accepted init reset
  accepted-Consistently connfd l v = elim (Bool-cases (is_full l.user_count)) [
    | inl y ↦ rw (accepted, y) (record { placed = v.placed; limited = v.limited })
    | inr n ↦ elim (Bool-cases (leb max_fd connfd)) [
      | inl y ↦ rw (accepted, n, y) tt
      | inr z ↦
          rw (accepted, n, z)
            (record {
              placed = update-placed l.users connfd _ v.placed (inr refl);
              limited = increment_within l.user_count n;
            })
    ]
  ]

  moved-IsConsistent :
      (fd : ℕ) (c : Conn) (l : Loop S) (s : S)
      → IsConsistent l
      → c.sockfd ≡ (l.users fd).sockfd
      → IsConsistent (record l { users = update fd c l.users; sockets = s })
  moved-IsConsistent fd c l s v e = record {
    placed = update-placed l.users fd c v.placed (rw e (v.placed fd));
    limited = v.limited;
  }

  after_read-Consistently :
      (fd : ℕ) (l : Loop S) (r : Outcome (Bool × Conn) × S)
      → IsConsistent l
      → SameFd (l.users fd) r.0
      → Consistently (after_read socket fuel listenfd fd l r)
  unfolding after_read appended
  after_read-Consistently fd l (done (true, c), s) v e =
      let w = moved-IsConsistent fd c l s v e in record { placed = w.placed; limited = w.limited }
  after_read-Consistently fd l (done (false, c), s) v e =
      closed-IsConsistent fd _ (moved-IsConsistent fd c l s v e)
  after_read-Consistently fd l (stopped q, s) v e = tt

  after_write-Consistently :
      (fd : ℕ) (l : Loop S) (r : Outcome (Bool × Conn) × S)
      → IsConsistent l
      → SameFd (l.users fd) r.0
      → Consistently (after_write socket fuel listenfd fd l r)
  unfolding after_write
  after_write-Consistently fd l (done (true, c), s) v e = moved-IsConsistent fd c l s v e
  after_write-Consistently fd l (done (false, c), s) v e =
      closed-IsConsistent fd _ (moved-IsConsistent fd c l s v e)
  after_write-Consistently fd l (stopped q, s) v e = tt

  handle_event-Consistently :
      (ev : Event) (l : Loop S)
      → IsConsistent l
      → Consistently (handle_event socket fuel listenfd ev l)
  unfolding handle_event
  handle_event-Consistently ev l v = elim (Bool-cases (ev.fd == listenfd)) [
    | inl y ↦ elim (Option-cases ev.connfd) [
      | inl e ↦ rw (handle_event, y, e) v
      | inr (connfd, e) ↦ rw (handle_event, y, e) (accepted-Consistently connfd l v)
    ]
    | inr n ↦ elim (Bool-cases ev.hung_up) [
      | inl y ↦ rw (handle_event, n, y) (closed-IsConsistent ev.fd l v)
      | inr o ↦ elim (Bool-cases ev.readable) [
        | inl y ↦
            rw (handle_event, n, o, y)
              (after_read-Consistently ev.fd l _ v
                (read-SameFd (socket ev.fd) fuel (l.users ev.fd) l.sockets))
        | inr p ↦ elim (Bool-cases ev.writable) [
          | inl y ↦
              rw (handle_event, n, o, p, y)
                (after_write-Consistently ev.fd l _ v
                  (write-SameFd (socket ev.fd) fuel (l.users ev.fd) l.sockets))
          | inr q ↦ rw (handle_event, n, o, p, q) v
        ]
      ]
    ]
  ]

  and_on :
      (evs : List Event) (o : Outcome (Loop S))
      → Consistently o
      → ((l : Loop S) → IsConsistent l → Consistently (handle_events socket fuel listenfd evs l))
      → Consistently
          (elim o [ done l ↦ handle_events socket fuel listenfd evs l | stopped e ↦ stopped e ])
  and_on evs (done l) v h = h l v
  and_on evs (stopped e) v h = tt

  -- In a loop in which every connection of the table is closed or has the descriptor of its place,
  -- and no more than `max_fd` connections are counted, this stays so through any events, whatever
  -- the sockets do, unless the behaviour becomes undefined or the fuel is spent.
  pub handle_events-Consistently :
      (evs : List Event) (l : Loop S)
      → IsConsistent l
      → Consistently (handle_events socket fuel listenfd evs l)
  unfolding handle_events
  handle_events-Consistently [] l v = v
  handle_events-Consistently (ev ∷ evs) l v =
      and_on evs (handle_event socket fuel listenfd ev l) (handle_event-Consistently ev l v)
        (handle_events-Consistently evs)
