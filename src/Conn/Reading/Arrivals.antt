-- ===== src/Conn/Reading/Arrivals.antt =====
-- `Read`: the bytes that come go behind those that are there, and the position stays sound.
use twebs.Prelude.{
  ℕ, zero, suc, ◌+◌, ◌-◌, ◌≤◌, ◌<◌, ◌≡◌, refl, Bool, false, some, Bytes, [], ◌++◌, length, ◌==◌,
  ltb, leb, arith, inl, inr, Bool-cases, Option-cases, length-append, ap, append_assoc, append-nil,
}
use twebs.Outcome.{Outcome, done}
use twebs.Conn.{Conn, Socket, read_idx, read_buf_size}
use twebs.Conn.Reading.{read, read_loop}
use twebs.Conn.Reading.Buffer.{byte_at-append}
use twebs.Conn.Reading.Lines.{IsSound}
use twebs.Conn.Reading.Pieces.{received}

-- `recv` stores no more bytes than it is asked for.
abbrev pub Limits : {S : Type 0} → Socket S → Type 0
Limits {S} k = (n : ℕ) (s : S) (bs : Bytes) → (k.recv n s).0 ≡ some bs → length bs ≤ n

pub received-IsSound :
    (bs : Bytes) (c : Conn)
    → read_idx c + length bs ≤ read_buf_size
    → IsSound c
    → IsSound (received bs c)
received-IsSound bs c l v =
    let g = length-append c.read_buf bs in
    record {
      fits = omega (arith, g, l);
      checked = omega (arith, g, v.checked);
      started = v.started;
      settled = elim (Bool-cases (ltb 1 c.checked_idx)) [
        | inl y ↦
            let e = byte_at-append (c.checked_idx - 1) c.read_buf bs (ground (arith, v.checked)) in
            rw e v.settled
        | inr n ↦ rw n refl
      ];
    }

-- `Read` ends, and only bytes have been added, for which there was room.
pub data IsRead (c : Conn) : Outcome (Bool × Conn) → Type 0 where
  read_bytes :
      (ok : Bool) (bs : Bytes)
      → read_idx c + length bs ≤ read_buf_size
      → IsRead c (done (ok, received bs c))

module _ {S : Type 0} (k : Socket S) (limits : Limits k) (c : Conn) where
  read_loop-IsRead :
      (f : ℕ) (acc : Bytes) (s : S)
      → read_idx c + length acc ≤ read_buf_size
      → read_buf_size - (read_idx c + length acc) < f
      → IsRead c (read_loop k f (received acc c) s).0
  unfolding read_loop
  read_loop-IsRead zero acc s l h = absurd (omega arith)
  read_loop-IsRead (suc f) acc s l h =
      let now = received acc c in
      let g = length-append c.read_buf acc in
      elim (Option-cases (k.recv (read_buf_size - read_idx now) s).0) [
        | inl e ↦ rw (e, read_loop) (read_bytes _ acc l)
        | inr (bs, e) ↦ elim (Bool-cases (length bs == 0)) [
          | inl y ↦ rw (e, read_loop, y) (read_bytes false acc l)
          | inr n ↦
              let m = limits (read_buf_size - read_idx now) s bs e in
              let g' = length-append acc bs in
              let positive : 0 < length bs = ground arith in
              let same : received bs now ≡ received (acc ++ bs) c =
                ap (λ x. record c { read_buf = x }) (append_assoc c.read_buf acc bs) in
              rw (e, read_loop, n)
                (rw same (
                  read_loop-IsRead f (acc ++ bs) _ (omega (arith, g, g', m, l))
                    (omega (arith, g', h, positive))))
        ]
      ]

  -- `Read` ends within one round for each byte of the buffer and one more; it changes nothing but
  -- the bytes received, of which the buffer holds all.
  pub read-IsRead :
      (f : ℕ) (s : S) → read_idx c ≤ read_buf_size → read_buf_size < f → IsRead c (read k f c s).0
  unfolding read
  read-IsRead f s l h =
      let same : received [] c ≡ c = ap (λ x. record c { read_buf = x }) (append-nil c.read_buf) in
      elim (Bool-cases (leb read_buf_size (read_idx c))) [
        | inl y ↦
            let r : IsRead c (done (false, received [] c)) =
              read_bytes false [] (omega (arith, l)) in
            rw (read, y) (rw same at r)
        | inr n ↦
            let r = read_loop-IsRead f [] s (omega (arith, l)) (omega (arith, h)) in
            rw (read, n) (rw same at r)
      ]
