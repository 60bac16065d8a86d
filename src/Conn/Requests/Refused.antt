-- ===== src/Conn/Requests/Refused.antt =====
-- `ProcessRead`: no request gets past its request line.
use twebs.Prelude.{
  ℕ, zero, suc, ◌+◌, ◌<◌, ◌≡◌, ◌≢◌, refl, Bool, true, false, not, some, Bytes, [], ◌∷◌, length,
  drop, arith, ◌∙◌, ap, inl, inr, ◌⊎◌, codes, Bool-cases, sym, drop-drop, Option-cases,
}
use twebs.Outcome.{Outcome, done, fault}
use twebs.CString.{cstr, isblank, strcaseeq, take_while}
use twebs.Conn.{
  Conn, read_idx, check_state_requestline, HttpCode, no_request, bad_request, LineStatus, line_ok,
  line_bad, line_open,
}
use twebs.Conn.Reading.{
  string_at, find_blank, check_version, parse_request_line, parse_line, skip_blanks, clear_at,
}
use twebs.Conn.Requests.{
  Disk, dispatch, handle_line, round, process_loop, process_read, after_request_line, after_line,
}
use twebs.Conn.Reading.Lines.{IsSound, parse_line_lem, next_line, unchecked, moved, moved-IsSound}

cstr-drop : (n : ℕ) (bs : Bytes) → n < length (cstr bs) → cstr (drop n bs) ≡ drop n (cstr bs)
cstr-drop zero bs l = refl
cstr-drop (suc n) [] l = absurd (omega arith)
cstr-drop (suc n) (b ∷ bs) l = ground (arith, cstr-drop n bs)

string_at-add :
    (i n : ℕ) (bs : Bytes)
    → n < length (string_at i bs)
    → string_at (i + n) bs ≡ drop n (string_at i bs)
string_at-add i n bs l = ap cstr (sym (drop-drop i n bs)) ∙ cstr-drop n (drop i bs) l

-- A word is followed by the blank that ends it.
starts_blank : Bytes → Bool
starts_blank [] = false
starts_blank (b ∷ bs) = isblank b

abbrev pub not_blank : ℕ → Bool
not_blank b = not (isblank b)

drop-word :
    (bs : Bytes)
    → length (take_while not_blank bs) ≢ length bs
    → (length (take_while not_blank bs) < length bs)
      × (starts_blank (drop (length (take_while not_blank bs)) bs) ≡ true)
unfolding starts_blank
drop-word [] h = absurd (h refl)
drop-word (b ∷ bs) h = ground (arith, drop-word bs)

find_blank-blank :
    (i v : ℕ) (bs : Bytes) → find_blank i bs ≡ some v → starts_blank (string_at v bs) ≡ true
find_blank-blank i v bs e =
    let d = drop-word (string_at i bs) in
    let a = string_at-add i (length (take_while not_blank (string_at i bs))) bs in
    ground (arith, d, a)

starts_blank-strcaseeq :
    (bs : Bytes) → starts_blank bs ≡ true → strcaseeq bs (codes "HTTP/1.1") ≡ false
unfolding starts_blank
starts_blank-strcaseeq [] h = refl
starts_blank-strcaseeq (b ∷ bs) h = ground arith

-- What reading a request leaves alone: the descriptor, the response and whether it is the last one.
abbrev pub Kept : Conn → Conn → Type 0
Kept c d = (d.sockfd ≡ c.sockfd) × (d.write_buf ≡ c.write_buf) × (d.linger ≡ c.linger)

-- The line is refused, or it is undefined what happens.
pub data IsBad (c : Conn) : Outcome (HttpCode × Conn) → Type 0 where
  refused : {d : Conn} → Kept c d → IsBad c (done (bad_request, d))
  crashes : IsBad c fault

check_version-IsBad : (b : Conn) (u : ℕ) (c : Conn) → Kept b c → IsBad b (check_version u c)
unfolding check_version
check_version-IsBad b u c h = elim (Option-cases (find_blank u c.read_buf)) [
  | inl n ↦ rw (n, check_version) crashes
  | inr (v, e) ↦
      rw
        (
          e,
          starts_blank-strcaseeq (string_at v c.read_buf) (find_blank-blank u v c.read_buf e),
          check_version,
        )
        (refused h)
]

parse_request_line-version :
    (text u : ℕ) (c : Conn)
    → find_blank text c.read_buf ≡ some u
    → let buf = clear_at u c.read_buf in
      let u' = skip_blanks (u + 1) buf in
      strcaseeq (string_at text buf) (codes "GET") ≡ true
      → parse_request_line text c ≡ check_version u' (record c { read_buf = buf; url = some u' })
unfolding parse_request_line
parse_request_line-version text u c e g = ground arith

parse_request_line-method :
    (text u : ℕ) (c : Conn)
    → find_blank text c.read_buf ≡ some u
    → let buf = clear_at u c.read_buf in
      strcaseeq (string_at text buf) (codes "GET") ≡ false
      → parse_request_line text c
        ≡ done (bad_request, record c { read_buf = buf; url = some (u + 1) })
unfolding parse_request_line
parse_request_line-method text u c e g = ground arith

-- `ParseRequestLine` accepts no line at all: what it compares with "HTTP/1.1" begins with the blank in
-- front of the version, and where there is no such blank it hands a null pointer to `strcasecmp`.
pub parse_request_line-IsBad :
    (b : Conn) (text : ℕ) (c : Conn) → Kept b c → IsBad b (parse_request_line text c)
parse_request_line-IsBad b text c h = elim (Option-cases (find_blank text c.read_buf)) [
  | inl n ↦ unfold parse_request_line in rw (n, parse_request_line) (refused h)
  | inr (u, e) ↦
      elim (Bool-cases (strcaseeq (string_at text (clear_at u c.read_buf)) (codes "GET"))) [
        | inl y ↦ rw (parse_request_line-version text u c e y) (check_version-IsBad b _ _ h)
        | inr n ↦ rw (parse_request_line-method text u c e n) (refused h)
      ]
]

-- At the request line, as a connection begins.
pub record IsWaiting (c : Conn) : Type 0 where
  pub sound : IsSound c
  pub at_line : c.check_state ≡ check_state_requestline

-- `ProcessRead` wants more bytes, or refuses the request, or it is undefined what happens.
pub data IsNoRequest (c : Conn) : Outcome (HttpCode × Conn) → Type 0 where
  waits : {d : Conn} → Kept c d → IsWaiting d → IsNoRequest c (done (no_request, d))
  refuses : {d : Conn} → Kept c d → IsNoRequest c (done (bad_request, d))
  faults : IsNoRequest c fault

module _ (disk : Disk) where
  -- A round at the request line ends the loop.
  data Ends (c : Conn) : Outcome ((HttpCode ⊎ LineStatus) × Conn) → Type 0 where
    ends_waiting : {d : Conn} → Kept c d → IsWaiting d → Ends c (done (inl no_request, d))
    ends_refused : {d : Conn} → Kept c d → Ends c (done (inl bad_request, d))
    ends_badly : Ends c fault

  after_request_line-Ends :
      (b : Conn) (o : Outcome (HttpCode × Conn)) → IsBad b o → Ends b (after_request_line disk o)
  after_request_line-Ends b _ (refused h) = ends_refused h
  after_request_line-Ends b _ crashes = ends_badly

  handle_line-requestline :
      (c : Conn)
      → c.check_state ≡ check_state_requestline
      → handle_line disk c
        ≡ after_request_line disk
            (parse_request_line c.start_line (record c { start_line = c.checked_idx }))
  unfolding handle_line dispatch
  handle_line-requestline c e = ground arith

  handle_line-Ends :
      (b c : Conn)
      → Kept b c
      → c.check_state ≡ check_state_requestline
      → Ends b (handle_line disk c)
  handle_line-Ends b c h e =
      rw (handle_line-requestline c e)
        (after_request_line-Ends b _ (parse_request_line-IsBad b _ _ h))

  process_loop-Ends :
      (f : ℕ) (status : LineStatus) (b c : Conn) (o : Outcome ((HttpCode ⊎ LineStatus) × Conn))
      → round disk status c ≡ o
      → Ends b o
      → IsNoRequest b (process_loop disk (suc f) status c)
  unfolding process_loop
  process_loop-Ends f status b c _ e (ends_waiting h q) = rw (e, process_loop) (waits h q)
  process_loop-Ends f status b c _ e (ends_refused h) = rw (e, process_loop) (refuses h)
  process_loop-Ends f status b c _ e ends_badly = rw (e, process_loop) faults

  after_line-Ends :
      (status : LineStatus) (b c : Conn)
      → Kept b c
      → IsWaiting c
      → Ends b (after_line disk (done (status, c)))
  unfolding after_line handle_line
  after_line-Ends line_ok b c h e = handle_line-Ends b c h e.at_line
  after_line-Ends line_bad b c h e = ends_waiting h e
  after_line-Ends line_open b c h e = ends_waiting h e

  round-requestline :
      (c : Conn)
      → c.check_state ≡ check_state_requestline
      → round disk line_ok c ≡ after_line disk (parse_line c)
  unfolding round
  round-requestline c e = ground arith

  moved-requestline :
      (n : LineStatus × ℕ) (c : Conn)
      → c.check_state ≡ check_state_requestline
      → (moved n c).check_state ≡ check_state_requestline
  moved-requestline (line_ok, n) c e = e
  moved-requestline (line_bad, n) c e = e
  moved-requestline (line_open, n) c e = e

  moved-Kept : (n : LineStatus × ℕ) (c : Conn) → Kept c (moved n c)
  moved-Kept (line_ok, n) c = (refl, refl, refl)
  moved-Kept (line_bad, n) c = (refl, refl, refl)
  moved-Kept (line_open, n) c = (refl, refl, refl)

  -- On a connection that is at the request line, which is where every connection begins and stays,
  -- `ProcessRead` ends, and it never has a request to serve: it waits for more bytes at the request
  -- line, refuses the line, or its behaviour is undefined, whatever the bytes are. The descriptor,
  -- the response and whether the connection is kept stay as they are.
  pub process_read-IsNoRequest : (c : Conn) → IsWaiting c → IsNoRequest c (process_read disk c)
  unfolding process_read
  process_read-IsNoRequest c w =
      let k : read_idx c + 2 ≡ suc (read_idx c + 1) = omega arith in
      let next = next_line (unchecked c) in
      let w' : IsWaiting (moved next c) = record {
        sound = moved-IsSound (unchecked c) c refl w.sound;
        at_line = moved-requestline next c w.at_line;
      } in
      rw k (
        process_loop-Ends (read_idx c + 1) line_ok c c _
          (round-requestline c w.at_line ∙ ap (after_line disk) (parse_line_lem c w.sound))
          (after_line-Ends next.0 c (moved next c) (moved-Kept next c) w'))
