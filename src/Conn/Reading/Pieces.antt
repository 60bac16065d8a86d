-- ===== src/Conn/Reading/Pieces.antt =====
-- `ParseLine` on a line that comes in pieces.
use twebs.Prelude.{
  ℕ, suc, ◌+◌, ◌-◌, ◌≤◌, ◌≡◌, refl, false, Bytes, [], ◌∷◌, ◌++◌, length, ◌==◌, arith, ◌∙◌, ap,
  length-append, Bool-cases, inl, inr, sym,
}
use twebs.Outcome.{done}
use twebs.Conn.{Conn, read_idx, line_open}
use twebs.Conn.Reading.{byte_at, parse_line}
use twebs.Conn.Reading.Buffer.{byte_at-drop, length-drop_cons, byte_at-append}
use twebs.Conn.Reading.Lines.{
  next_line, IsSound, unchecked, moved, advance, moved-zero, advance-IsSound, advance-unchecked,
  moved-advance, loop_plain, parse_line_lem,
}

-- More bytes have come.
abbrev pub received : Bytes → Conn → Conn
received bs c = record c { read_buf = c.read_buf ++ bs }

received_plain :
    (ys : Bytes) (c : Conn) (b : ℕ) (bs : Bytes)
    → unchecked c ≡ b ∷ bs
    → c.checked_idx ≤ read_idx c
    → (b == b'\r') ≡ false
    → (b == b'\n') ≡ false
    → parse_line (received ys (advance c)) ≡ parse_line (received ys c)
unfolding parse_line
received_plain ys c b bs e l n m =
    let size = length-drop_cons c.checked_idx c.read_buf (b ∷ bs) e l in
    let here : byte_at c.checked_idx (c.read_buf ++ ys) ≡ b =
      byte_at-append c.checked_idx c.read_buf ys (omega arith)
      ∙ byte_at-drop c.checked_idx c.read_buf b bs e in
    let k = length (c.read_buf ++ ys) - (c.checked_idx + 1) in
    let left : length (c.read_buf ++ ys) - c.checked_idx ≡ suc k =
      omega (arith, length-append c.read_buf ys) in
    rw left (sym (loop_plain k (received ys c) (rw here n) (rw here m)))

resumed :
    (ys bs : Bytes) (c : Conn)
    → unchecked c ≡ bs
    → IsSound c
    → (next_line bs).0 ≡ line_open
    → parse_line (received ys (moved (next_line bs) c)) ≡ parse_line (received ys c)
resumed ys [] c e v o = ap (λ d. parse_line (received ys d)) (moved-zero c)
resumed ys (b ∷ []) c e v o = elim (Bool-cases (b == b'\r')) [
  | inl y ↦ rw y (ap (λ d. parse_line (received ys d)) (moved-zero c))
  | inr n ↦ elim (Bool-cases (b == b'\n')) [
    | inl y ↦ absurd (ground arith)
    | inr m ↦ rw (n, m) (received_plain ys c b [] e v.checked n m)
  ]
]
resumed ys (b ∷ d ∷ bs) c e v o = elim (Bool-cases (b == b'\r')) [
  | inl y ↦ absurd (elim (Bool-cases (d == b'\n')) [ inl z ↦ ground arith | inr z ↦ ground arith ])
  | inr n ↦ elim (Bool-cases (b == b'\n')) [
    | inl y ↦ absurd (ground arith)
    | inr m ↦
        let (status, k) = next_line (d ∷ bs) in
        rw (n, m)
          (rw (← moved-advance status k c) (
            resumed ys (d ∷ bs) (advance c) (advance-unchecked c b (d ∷ bs) e)
              (advance-IsSound c b (d ∷ bs) e n v) (rw (n, m) at o)
            ∙ received_plain ys c b (d ∷ bs) e v.checked n m))
  ]
]

-- A line that has not come whole is looked at again when more bytes are there, from where `ParseLine`
-- stopped: the result, the buffer and the position are those of one look at all the bytes together.
pub parse_line-received :
    (ys : Bytes) (c c' : Conn)
    → IsSound c
    → parse_line c ≡ done (line_open, c')
    → parse_line (received ys c') ≡ parse_line (received ys c)
parse_line-received ys c c' v e =
    let r = sym (parse_line_lem c v) ∙ e in
    let status : (next_line (unchecked c)).0 ≡ line_open = ground arith in
    let same : moved (next_line (unchecked c)) c ≡ c' = ground arith in
    rw (← same) (resumed ys (unchecked c) c refl v status)
