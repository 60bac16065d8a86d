-- ===== src/Conn/Reading/Lines.antt =====
-- `ParseLine`: which lines it finds, and that it finds the same ones in whatever pieces they come.
use twebs.Prelude.{
  ℕ, suc, ◌+◌, ◌-◌, ◌≤◌, ◌≡◌, ◌≢◌, refl, false, ◌&&◌, Bytes, [], ◌∷◌, length, drop, ◌==◌, ltb,
  if◌then◌else◌, arith, ◌∙◌, ap, leb_ge, Bool-cases, inl, inr, sym,
}
use twebs.Outcome.{done}
use twebs.Conn.{Conn, read_idx, read_buf_size, LineStatus, line_ok, line_bad, line_open}
use twebs.Conn.Reading.{byte_at, clear_at, parse_line_loop, parse_line, end_line}
use twebs.Conn.Reading.Buffer.{
  byte_at-drop, drop-suc, length-drop_cons, length-clear_at, byte_at-clear_at,
}

-- Where the next line stands in the bytes not looked at yet: a status, and how many bytes are passed
-- over. A line ends in "\r\n"; any other carriage return or line feed spoils it.
abbrev pub next_line : Bytes → LineStatus × ℕ
next_line [] = (line_open, 0)
next_line (b ∷ []) =
    if b == b'\r' then (line_open, 0) else if b == b'\n' then (line_bad, 0) else (line_open, 1)
next_line (b ∷ d ∷ bs) =
    let (status, n) = next_line (d ∷ bs) in
    if b == b'\r'
    then (if d == b'\n' then (line_ok, 2) else (line_bad, 0))
    else if b == b'\n'
    then (line_bad, 0)
    else (status, suc n)

-- The bytes not looked at stand behind `checked_idx`, which lies in the buffer, and no carriage
-- return stands right in front of it.
pub record IsSound (c : Conn) : Type 0 where
  pub fits : read_idx c ≤ read_buf_size
  pub checked : c.checked_idx ≤ read_idx c
  pub started : c.start_line ≤ c.checked_idx
  pub settled : (ltb 1 c.checked_idx && byte_at (c.checked_idx - 1) c.read_buf == b'\r') ≡ false

abbrev pub unchecked : Conn → Bytes
unchecked c = drop c.checked_idx c.read_buf

-- `c` with `n` more bytes looked at, and the end of line in front of them cleared if there is one.
abbrev pub moved : LineStatus × ℕ → Conn → Conn
moved (line_ok, n) c =
    let i = c.checked_idx + n - 2 in
    record c {
      checked_idx = c.checked_idx + n;
      read_buf = clear_at (i + 1) (clear_at i c.read_buf);
    }
moved (line_bad, n) c = record c { checked_idx = c.checked_idx + n }
moved (line_open, n) c = record c { checked_idx = c.checked_idx + n }

abbrev pub advance : Conn → Conn
advance c = record c { checked_idx = c.checked_idx + 1 }

pub moved-advance :
    (status : LineStatus) (n : ℕ) (c : Conn)
    → moved (status, n) (advance c) ≡ moved (status, suc n) c
moved-advance line_ok n c =
    let e : c.checked_idx + 1 + n ≡ c.checked_idx + suc n = omega arith in rw e
moved-advance line_bad n c =
    let e : c.checked_idx + 1 + n ≡ c.checked_idx + suc n = omega arith in rw e
moved-advance line_open n c =
    let e : c.checked_idx + 1 + n ≡ c.checked_idx + suc n = omega arith in rw e

pub moved-zero : (c : Conn) → record c { checked_idx = c.checked_idx + 0 } ≡ c
moved-zero c = ap (λ i. record c { checked_idx = i }) (omega arith)

end_line-moved :
    (c : Conn)
    → c.checked_idx + 2 ≤ read_buf_size
    → end_line c ≡ done (line_ok, moved (line_ok, 2) c)
end_line-moved c l = let e : c.checked_idx + 2 - 2 ≡ c.checked_idx = omega arith in rw (e, leb_ge l)

-- The first byte, by what it is.
module _ (n : ℕ) (c : Conn) where
  pub loop_plain :
      (byte_at c.checked_idx c.read_buf == b'\r') ≡ false
      → (byte_at c.checked_idx c.read_buf == b'\n') ≡ false
      → parse_line_loop (suc n) c ≡ parse_line_loop n (advance c)
  unfolding parse_line_loop
  loop_plain h l = ground arith

  loop_last :
      byte_at c.checked_idx c.read_buf ≡ b'\r'
      → c.checked_idx + 1 ≡ read_idx c
      → parse_line_loop (suc n) c ≡ done (line_open, c)
  unfolding parse_line_loop
  loop_last h l = ground arith

  loop_ended :
      byte_at c.checked_idx c.read_buf ≡ b'\r'
      → c.checked_idx + 1 ≢ read_idx c
      → byte_at (c.checked_idx + 1) c.read_buf ≡ b'\n'
      → parse_line_loop (suc n) c ≡ end_line c
  unfolding parse_line_loop
  loop_ended h l e = ground arith

  loop_return :
      byte_at c.checked_idx c.read_buf ≡ b'\r'
      → c.checked_idx + 1 ≢ read_idx c
      → byte_at (c.checked_idx + 1) c.read_buf ≢ b'\n'
      → parse_line_loop (suc n) c ≡ done (line_bad, c)
  unfolding parse_line_loop
  loop_return h l e = ground arith

  loop_feed :
      byte_at c.checked_idx c.read_buf ≡ b'\n'
      → (ltb 1 c.checked_idx && byte_at (c.checked_idx - 1) c.read_buf == b'\r') ≡ false
      → parse_line_loop (suc n) c ≡ done (line_bad, c)
  unfolding parse_line_loop
  loop_feed h l = ground arith

pub advance-IsSound :
    (c : Conn) (b : ℕ) (bs : Bytes)
    → unchecked c ≡ b ∷ bs
    → (b == b'\r') ≡ false
    → IsSound c
    → IsSound (advance c)
advance-IsSound c b bs e n v = record {
  fits = v.fits;
  checked = omega (arith, length-drop_cons c.checked_idx c.read_buf (b ∷ bs) e v.checked);
  started = omega (arith, v.started);
  settled =
      let i : c.checked_idx + 1 - 1 ≡ c.checked_idx = omega arith in
      rw (i, byte_at-drop c.checked_idx c.read_buf b bs e, n) (ground arith);
}

pub advance-unchecked :
    (c : Conn) (b : ℕ) (bs : Bytes) → unchecked c ≡ b ∷ bs → unchecked (advance c) ≡ bs
advance-unchecked c b bs e =
    let i : c.checked_idx + 1 ≡ suc c.checked_idx = omega arith in
    rw i (drop-suc c.checked_idx c.read_buf b bs e)

parse_line_loop-next :
    (bs : Bytes) (c : Conn)
    → unchecked c ≡ bs
    → IsSound c
    → parse_line_loop (length bs) c ≡ done ((next_line bs).0, moved (next_line bs) c)
parse_line_loop-next [] c e v =
    unfold parse_line_loop in ap (λ d. done (line_open, d)) (sym (moved-zero c))
parse_line_loop-next (b ∷ []) c e v =
    let here = byte_at-drop c.checked_idx c.read_buf b [] e in
    let size = length-drop_cons c.checked_idx c.read_buf (b ∷ []) e v.checked in
    elim (Bool-cases (b == b'\r')) [
      | inl y ↦ rw y (
          loop_last 0 c (ground arith) (omega arith)
          ∙ ap (λ d. done (line_open, d)) (sym (moved-zero c)))
      | inr n ↦ elim (Bool-cases (b == b'\n')) [
        | inl y ↦
            rw (n, y)
              (loop_feed 0 c (ground arith) v.settled
                ∙ ap (λ d. done (line_bad, d)) (sym (moved-zero c)))
        | inr m ↦
            rw (n, m) (loop_plain 0 c (rw here n) (rw here m) ∙ unfold parse_line_loop in refl)
      ]
    ]
parse_line_loop-next (b ∷ d ∷ bs) c e v =
    let here = byte_at-drop c.checked_idx c.read_buf b (d ∷ bs) e in
    let size = length-drop_cons c.checked_idx c.read_buf (b ∷ d ∷ bs) e v.checked in
    let next = advance-unchecked c b (d ∷ bs) e in
    let there = byte_at-drop (c.checked_idx + 1) c.read_buf d bs next in
    elim (Bool-cases (b == b'\r')) [
      | inl y ↦ elim (Bool-cases (d == b'\n')) [
        | inl z ↦
            rw (y, z)
              (loop_ended (suc (length bs)) c (ground arith) (omega arith) (ground arith)
                ∙ end_line-moved c (omega (arith, v.fits)))
        | inr z ↦
            rw (y, z)
              (loop_return (suc (length bs)) c (ground arith) (omega arith) (ground arith)
                ∙ ap (λ d. done (line_bad, d)) (sym (moved-zero c)))
      ]
      | inr n ↦ elim (Bool-cases (b == b'\n')) [
        | inl y ↦
            rw (n, y)
              (loop_feed (suc (length bs)) c (ground arith) v.settled
                ∙ ap (λ d. done (line_bad, d)) (sym (moved-zero c)))
        | inr m ↦
            let (status, k) = next_line (d ∷ bs) in
            rw (n, m)
              (loop_plain (suc (length bs)) c (rw here n) (rw here m)
                ∙ parse_line_loop-next (d ∷ bs) (advance c) next
                    (advance-IsSound c b (d ∷ bs) e n v)
                ∙ ap (λ d. done (status, d)) (moved-advance status k c))
      ]
    ]

-- `ParseLine` never stores outside the buffer, and finds what `next_line` says of the bytes not
-- looked at: a line that ends in "\r\n", whose end it clears, a spoiled one, or none yet.
pub parse_line_lem :
    (c : Conn)
    → IsSound c
    → parse_line c ≡ done ((next_line (unchecked c)).0, moved (next_line (unchecked c)) c)
unfolding parse_line
parse_line_lem c v =
    let size = length-drop_cons c.checked_idx c.read_buf (unchecked c) refl v.checked in
    let left : read_idx c - c.checked_idx ≡ length (unchecked c) = omega arith in
    rw left (parse_line_loop-next (unchecked c) c refl v)

ended-IsSound :
    (c : Conn) (b d : ℕ) (bs : Bytes)
    → unchecked c ≡ b ∷ d ∷ bs
    → IsSound c
    → IsSound (moved (line_ok, 2) c)
ended-IsSound c b d bs e v =
    let i = c.checked_idx + 2 - 2 in
    let i' : c.checked_idx + 2 - 1 ≡ i + 1 = omega arith in
    let size = length-drop_cons c.checked_idx c.read_buf (b ∷ d ∷ bs) e v.checked in
    let same = length-clear_at (i + 1) (clear_at i c.read_buf) ∙ length-clear_at i c.read_buf in
    record {
      fits = omega (arith, same, v.fits);
      checked = omega (arith, same);
      started = omega (arith, v.started);
      settled = rw (i', byte_at-clear_at (i + 1) (clear_at i c.read_buf)) (ground arith);
    }

-- Looking for a line leaves a sound connection sound.
pub moved-IsSound :
    (bs : Bytes) (c : Conn) → unchecked c ≡ bs → IsSound c → IsSound (moved (next_line bs) c)
moved-IsSound [] c e v = rw (moved-zero c) v
moved-IsSound (b ∷ []) c e v = elim (Bool-cases (b == b'\r')) [
  | inl y ↦ rw y (rw (moved-zero c) v)
  | inr n ↦ elim (Bool-cases (b == b'\n')) [
    | inl y ↦ rw (n, y) (rw (moved-zero c) v)
    | inr m ↦ rw (n, m) (advance-IsSound c b [] e n v)
  ]
]
moved-IsSound (b ∷ d ∷ bs) c e v = elim (Bool-cases (b == b'\r')) [
  | inl y ↦ elim (Bool-cases (d == b'\n')) [
    | inl z ↦ rw (y, z) (ended-IsSound c b d bs e v)
    | inr z ↦ rw (y, z) (rw (moved-zero c) v)
  ]
  | inr n ↦ elim (Bool-cases (b == b'\n')) [
    | inl y ↦ rw (n, y) (rw (moved-zero c) v)
    | inr m ↦
        let (status, k) = next_line (d ∷ bs) in
        rw (n, m)
          (rw (← moved-advance status k c) (
            moved-IsSound (d ∷ bs) (advance c) (advance-unchecked c b (d ∷ bs) e)
              (advance-IsSound c b (d ∷ bs) e n v)))
  ]
]
