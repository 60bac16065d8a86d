-- ===== src/Conn/Reading.antt =====
-- ss/http_conn.cpp: from the bytes on the socket to lines, and what each line says.
pub mod Buffer
pub mod Arrivals
pub mod Lines
pub mod Pieces
use twebs.Prelude.{
  ℕ, zero, suc, ◌+◌, ◌-◌, ◌≤◌, Bool, true, false, not, ◌&&◌, ◌||◌, Option, none, some, Bytes, [],
  ◌∷◌, ◌++◌, length, take, drop, ◌==◌, ltb, leb, if◌then◌else◌, codes, ℤ, pos, negsuc, ◌⊎◌, inl,
  inr, ◌^◌,
}
use twebs.Outcome.{Outcome, done, stopped, fault, running}
use twebs.CString.{cstr, isblank, strcaseeq, strncaseeq, take_while, drop_while, atoi}
use twebs.Conn.{
  Conn, read_idx, read_buf_size, filename_len, CheckState, check_state_requestline,
  check_state_header, check_state_content, HttpCode, no_request, get_request, bad_request,
  no_resource, file_request, LineStatus, line_ok, line_bad, line_open, FileStat, Mapping, mapped,
  map_failed, Socket, eagain,
}

-- `read_buf_[i]`; behind the bytes received there are zeros.
abbrev pub byte_at : ℕ → Bytes → ℕ
byte_at i [] = 0
byte_at zero (b ∷ bs) = b
byte_at (suc i) (b ∷ bs) = byte_at i bs

-- `read_buf_[i] = '\0'`
abbrev pub clear_at : ℕ → Bytes → Bytes
clear_at i [] = []
clear_at zero (b ∷ bs) = 0 ∷ bs
clear_at (suc i) (b ∷ bs) = b ∷ clear_at i bs

-- The string at an index.
abbrev pub string_at : ℕ → Bytes → Bytes
string_at i bs = cstr (drop i bs)

-- `read_buf_[checked_idx_++] = '\0'`, twice; the second store may be the one behind the array.
abbrev pub end_line : Conn → Outcome (LineStatus × Conn)
end_line c =
    let i = c.checked_idx in
    if leb (i + 2) read_buf_size
    then done (
      line_ok,
      record c { read_buf = clear_at (i + 1) (clear_at i c.read_buf); checked_idx = i + 2 },
    )
    else fault

-- The loop of `ParseLine`, for the bytes that are left.
unfoldable pub parse_line_loop : ℕ → Conn → Outcome (LineStatus × Conn)
parse_line_loop zero c = done (line_open, c)
parse_line_loop (suc n) c =
    let i = c.checked_idx in
    let temp = byte_at i c.read_buf in
    elim (temp == b'\r') [
      | true ↦ elim (i + 1 == read_idx c) [
        | true ↦ done (line_open, c)
        | false ↦ elim (byte_at (i + 1) c.read_buf == b'\n') [
          | true ↦ end_line c
          | false ↦ done (line_bad, c)
        ]
      ]
      | false ↦ elim (temp == b'\n') [
        | true ↦ elim (ltb 1 i && byte_at (i - 1) c.read_buf == b'\r') [
          | true ↦ end_line c
          | false ↦ done (line_bad, c)
        ]
        | false ↦ parse_line_loop n (record c { checked_idx = i + 1 })
      ]
    ]

unfoldable pub parse_line : Conn → Outcome (LineStatus × Conn)
unfolding parse_line_loop
parse_line c = parse_line_loop (read_idx c - c.checked_idx) c

-- `Read`, with fuel for its rounds: whether to go on with the connection.
unfoldable pub read_loop : {S : Type 0} → Socket S → ℕ → Conn → S → Outcome (Bool × Conn) × S
read_loop k zero c s = (running, s)
read_loop k (suc f) c s =
    let (bytes_read, s') = k.recv (read_buf_size - read_idx c) s in
    elim bytes_read [
      | none ↦ (done (k.errno s' == eagain, c), s')
      | some bs ↦ elim (length bs == 0) [
        | true ↦ (done (false, c), s')
        | false ↦ read_loop k f (record c { read_buf = c.read_buf ++ bs }) s'
      ]
    ]

unfoldable pub read : {S : Type 0} → Socket S → ℕ → Conn → S → Outcome (Bool × Conn) × S
unfolding read_loop
read k f c s = elim (leb read_buf_size (read_idx c)) [
  | true ↦ (done (false, c), s)
  | false ↦ read_loop k f c s
]

-- `strpbrk(text, " \t")`, `strspn(text, " \t")` and `strchr(text, c)`, on indices.
abbrev pub find_blank : ℕ → Bytes → Option ℕ
find_blank i bs =
    let text = string_at i bs in
    let word = take_while (λ b. not (isblank b)) text in
    if length word == length text then none else some (i + length word)

abbrev pub skip_blanks : ℕ → Bytes → ℕ
skip_blanks i bs = i + length (take_while isblank (string_at i bs))

abbrev pub find_char : ℕ → ℕ → Bytes → Option ℕ
find_char c i bs =
    let text = string_at i bs in
    let front = take_while (λ b. not (b == c)) text in
    if length front == length text then none else some (i + length front)

-- The end of `ParseRequestLine`: the URL has to begin with a slash.
unfoldable pub check_url : Option ℕ → Conn → Outcome (HttpCode × Conn)
check_url none c = done (bad_request, record c { url = none })
check_url (some u) c =
    if not (byte_at u c.read_buf == b'/')
    then done (bad_request, record c { url = some u })
    else done (no_request, record c { url = some u; check_state = check_state_requestline })

-- From `version_` on. A `strpbrk` that finds nothing hands a null pointer to `strcasecmp`.
unfoldable pub check_version : ℕ → Conn → Outcome (HttpCode × Conn)
unfolding check_url
check_version u c = elim (find_blank u c.read_buf) [
  | none ↦ fault
  | some v ↦
      let c' = record c { version = some v } in
      if not (strcaseeq (string_at v c.read_buf) (codes "HTTP/1.1"))
      then done (bad_request, c')
      else if strncaseeq 7 (string_at u c.read_buf) (codes "http://")
      then check_url (find_char b'/' (u + 7) c.read_buf) c'
      else check_url (some u) c'
]

unfoldable pub parse_request_line : ℕ → Conn → Outcome (HttpCode × Conn)
unfolding check_version
parse_request_line text c = elim (find_blank text c.read_buf) [
  | none ↦ done (bad_request, record c { url = none })
  | some u ↦
      let buf = clear_at u c.read_buf in
      let c' = record c { read_buf = buf; url = some (u + 1) } in
      if not (strcaseeq (string_at text buf) (codes "GET"))
      then done (bad_request, c')
      else let u' = skip_blanks (u + 1) buf in check_version u' (record c' { url = some u' })
]

abbrev pub is_zero : ℤ → Bool
is_zero (pos n) = n == 0
is_zero (negsuc n) = false

-- `ParseHeaders`; what `printf` shows of an unknown header is left out.
unfoldable pub parse_headers : ℕ → Conn → HttpCode × Conn
parse_headers i c =
    let text = string_at i c.read_buf in
    if length text == 0
    then (if is_zero c.content_length
        then (get_request, c)
        else (no_request, record c { check_state = check_state_content }))
    else if strncaseeq 11 text (codes "Connection:")
    then (
      no_request,
      (if strcaseeq (drop_while isblank (drop 11 text)) (codes "keep-alive")
          then record c { linger = true }
          else c),
    )
    else if strncaseeq 15 text (codes "Content-Length:")
    then (no_request, record c { content_length = atoi (drop_while isblank (drop 15 text)) })
    else if strncaseeq 5 text (codes "Host:")
    then (no_request, record c { host = some (skip_blanks (i + 5) c.read_buf) })
    else (no_request, c)

-- `ParseContent`: the sum of two `int`s may leave their range, and the store behind the content the
-- array.
unfoldable pub parse_content : ℕ → Conn → Outcome (HttpCode × Conn)
parse_content text c = elim c.content_length [
  | pos n ↦
      if leb (2 ^ 31) (n + c.checked_idx)
      then fault
      else if leb (n + c.checked_idx) (read_idx c)
      then (if leb read_buf_size (text + n)
          then fault
          else done (get_request, record c { read_buf = clear_at (text + n) c.read_buf }))
      else done (no_request, c)
  | negsuc n ↦
      if leb c.checked_idx (read_idx c + n + 1)
      then (if leb text n
          then fault
          else done (get_request, record c { read_buf = clear_at (text - (n + 1)) c.read_buf }))
      else done (no_request, c)
]
