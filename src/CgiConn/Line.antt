-- ===== src/CgiConn/Line.antt =====
-- ss/ww/cgi_server.cpp: the line is found in whatever pieces it comes.
use twebs.Prelude.{
  ℕ, zero, suc, ◌+◌, ◌-◌, ◌<◌, ◌≡◌, refl, Bool, true, false, not, ◌&&◌, Option, none, some, Bytes,
  [], ◌∷◌, ◌++◌, length, take, drop, ◌==◌, leb, if◌then◌else◌, arith, ◌∙◌, ap, sym, length-append,
  inl, inr, Bool-cases, Option-cases,
}
use twebs.CString.{cstr}
use twebs.Conn.Reading.{byte_at, clear_at}
use twebs.CgiConn.{CgiConn, Programs, find_end, core_process, remove_fd}
use twebs.Conn.Reading.Buffer.{byte_at-drop, byte_at-append, drop-suc}

abbrev pub shifted : ℕ → Option ℕ → Option ℕ
shifted j none = none
shifted j (some i) = some (i + j)

-- Where the line feed of the first "\r\n" stands.
abbrev pub line_end : Bytes → Option ℕ
line_end [] = none
line_end (b ∷ []) = none
line_end (b ∷ d ∷ bs) = if b == b'\r' && d == b'\n' then some 1 else shifted 1 (line_end (d ∷ bs))

shifted-if :
    (t : Bool) (j : ℕ) (o : Option ℕ)
    → (if t then some (j + 1) else shifted (j + 1) o)
      ≡ shifted j (if t then some 1 else shifted 1 o)
shifted-if true j o = ground arith
shifted-if false j none = refl
shifted-if false j (some i) = ground arith

shifted-zero : (o : Option ℕ) → shifted 0 o ≡ o
shifted-zero none = refl
shifted-zero (some i) = ground arith

find_end-drop :
    (b : ℕ) (bs : Bytes) (j : ℕ) (buf : Bytes)
    → drop j buf ≡ b ∷ bs
    → find_end (length bs) (j + 1) buf ≡ shifted j (line_end (b ∷ bs))
unfolding find_end
find_end-drop b [] j buf e = refl
find_end-drop b (d ∷ bs) j buf e =
    let here = byte_at-drop j buf b (d ∷ bs) e in
    let next : drop (j + 1) buf ≡ d ∷ bs =
      let k : j + 1 ≡ suc j = omega arith in rw k (drop-suc j buf b (d ∷ bs) e) in
    let there = byte_at-drop (j + 1) buf d bs next in
    let rest = find_end-drop d bs (j + 1) buf next in
    let one : leb 1 (j + 1) ≡ true = ground arith in
    let back : j + 1 - 1 ≡ j = omega arith in
    rw (one, back, here, there)
      (ap (λ r. if b == b'\r' && d == b'\n' then some (j + 1) else r) rest
        ∙ shifted-if (b == b'\r' && d == b'\n') j (line_end (d ∷ bs)))

find_end_whole : (buf : Bytes) → find_end (length buf) 0 buf ≡ line_end buf
unfolding find_end
find_end_whole [] = refl
find_end_whole (b ∷ bs) = find_end-drop b bs 0 (b ∷ bs) refl ∙ shifted-zero (line_end (b ∷ bs))

find_end-append :
    (m n i : ℕ) (old new : Bytes)
    → i + m ≡ length old
    → find_end m i old ≡ none
    → find_end (m + n) i (old ++ new) ≡ find_end n (length old) (old ++ new)
unfolding find_end
find_end-append zero n i old new l e =
    let z : i ≡ length old = omega arith in let z' : 0 + n ≡ n = omega arith in rw (z, z')
find_end-append (suc m) n i old new l e =
    let here = byte_at-append i old new (omega arith) in
    let k : suc m + n ≡ suc (m + n) = omega arith in
    let before = byte_at-append (i - 1) old new (omega arith) in
    let test = leb 1 i && (byte_at (i - 1) old == b'\r' && byte_at i old == b'\n') in
    elim (Bool-cases test) [
      | inl y ↦ absurd (ground arith)
      | inr z ↦
          let e' : find_end m (i + 1) old ≡ none = ground arith in
          let rest = find_end-append m n (i + 1) old new (omega arith) e' in
          rw k (rw (find_end, here, before, z) rest)
    ]

-- What follows the line and its end is cut off.
cstr-clear_at : (i : ℕ) (bs : Bytes) → i < length bs → cstr (clear_at i bs) ≡ cstr (take i bs)
cstr-clear_at i [] l = absurd (omega arith)
cstr-clear_at zero (b ∷ bs) l = refl
cstr-clear_at (suc i) (b ∷ bs) l = ground (arith, cstr-clear_at i bs (omega arith))

-- The connection behind a call of `CoreProcess` that finds the line in `bs`.
abbrev pub finish : Programs → Bytes → ℕ → CgiConn → CgiConn
finish os bs i c =
    let name = cstr (take (i - 1) bs) in
    record c {
      buf = clear_at (i - 1) bs;
      connected = false;
      launched =
          if os.exists name then (if os.forks then some name else c.launched) else c.launched;
    }

launched_if :
    (found forks : Bool) (name buf : Bytes) (c : CgiConn)
    → let c' = remove_fd (record c { buf = buf }) in
      let r : Bool × CgiConn =
        if not found
        then (false, c')
        else if not forks
        then (false, c')
        else (false, record c' { launched = some name }) in
      let launched = if found then (if forks then some name else c.launched) else c.launched in
      r ≡ (false, record c { buf = buf; connected = false; launched = launched })
launched_if true true name buf c = refl
launched_if true false name buf c = refl
launched_if false forks name buf c = refl

line_end-lt : (bs : Bytes) (i : ℕ) → line_end bs ≡ some i → i < length bs
line_end-lt [] i e = absurd (ground arith)
line_end-lt (b ∷ []) i e = absurd (ground arith)
line_end-lt (b ∷ d ∷ bs) i e = elim (Option-cases (line_end (d ∷ bs))) [
  | inl n ↦ ground arith
  | inr (k, h) ↦ let l = line_end-lt (d ∷ bs) k h in ground arith
]

-- Whatever pieces a client's bytes come in, `CoreProcess` asks for more exactly as long as "\r\n" is
-- not among all the bytes that have come, and it then closes the connection and runs the program that
-- the bytes before the first "\r\n" name, where it is there and `fork` succeeds.
pub core_process_lem :
    (os : Programs) (bytes : Bytes) (c : CgiConn)
    → line_end c.buf ≡ none
    → core_process os bytes c ≡ (elim (line_end (c.buf ++ bytes)) [
      | none ↦ (true, record c { buf = c.buf ++ bytes })
      | some i ↦ (false, finish os (c.buf ++ bytes) i c)
    ])
unfolding core_process
core_process_lem os bytes c e =
    let found : find_end (length bytes) (length c.buf) (c.buf ++ bytes)
        ≡ line_end (c.buf ++ bytes) =
      sym (
        find_end-append (length c.buf) (length bytes) 0 c.buf bytes (omega arith)
          (find_end_whole c.buf ∙ e))
      ∙ ap (λ n. find_end n 0 (c.buf ++ bytes)) (sym (length-append c.buf bytes))
      ∙ find_end_whole (c.buf ++ bytes) in
    elim (Option-cases (line_end (c.buf ++ bytes))) [
      | inl n ↦ rw (core_process, found, n)
      | inr (i, h) ↦
          let l = line_end-lt (c.buf ++ bytes) i h in
          let cut = cstr-clear_at (i - 1) (c.buf ++ bytes) (omega arith) in
          rw (core_process, found, h, cut)
            (launched_if (os.exists (cstr (take (i - 1) (c.buf ++ bytes)))) os.forks
              (cstr (take (i - 1) (c.buf ++ bytes))) (clear_at (i - 1) (c.buf ++ bytes)) c)
    ]
