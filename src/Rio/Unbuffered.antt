-- ===== src/Rio/Unbuffered.antt =====
-- What `rio_readn` and `rio_writen` do on a connection that does not break.
use twebs.Prelude.{
  ℕ, zero, suc, ◌+◌, ◌-◌, ◌≤◌, ◌<◌, ◌≡◌, ◌≢◌, true, false, Option, none, some, Bytes, [], ◌∷◌, ◌++◌,
  length, take, drop, arith, inl, inr, append-nil, append_assoc, take-append, drop-append,
  length-drop, take-append-drop,
}
use twebs.Outcome.{Outcome, done}
use twebs.Kernel.{Kernel, Ghost, IsReliable, eintr, reply_cases}
use twebs.Rio.{readn_loop, rio_readn, rio_writen}

-- A call that takes `n` bytes from the connection and returns them behind `acc`.
record Takes {S : Type 0} (g : Ghost S) (n : ℕ) (acc : Bytes) (s : S)
    (r : Outcome (Option Bytes) × S) : Type 0 where
  result : r.0 ≡ done (some (acc ++ take n (g.pending s)))
  rest : g.pending r.1 ≡ drop n (g.pending s)
  silent : g.sent r.1 ≡ g.sent s
  patient : g.patience r.1 ≤ g.patience s

module _ {S : Type 0} {k : Kernel S} {g : Ghost S} (law : IsReliable k g) where
  readn_loop-Takes :
      (f m : ℕ) (acc : Bytes) (s : S)
      → m + g.patience s < f
      → Takes g m acc s (readn_loop k f m acc s)
  unfolding readn_loop
  readn_loop-Takes zero m acc s h = absurd (omega arith)
  readn_loop-Takes (suc f) zero acc s h = ground (arith, append-nil acc)
  readn_loop-Takes (suc f) (suc m) acc s h = elim (reply_cases (k.read (suc m) s)) [
    | inl (s', e) ↦ ground (arith, law.read_none (suc m) s s' e, readn_loop-Takes f (suc m) acc s')
    | inr ([], s', e) ↦ ground (
      arith,
      law.read_eof (suc m) s s' (omega arith) e,
      law.read_some (suc m) s [] s' e,
      append-nil acc,
    )
    | inr (b ∷ bs, s', e) ↦ ground (
      arith,
      law.read_some (suc m) s (b ∷ bs) s' e,
      append_assoc acc (b ∷ bs) (take (suc m - length (b ∷ bs)) (g.pending s')),
      take-append (suc m) (b ∷ bs) (g.pending s'),
      drop-append (suc m) (b ∷ bs) (g.pending s'),
      readn_loop-Takes f (suc m - length (b ∷ bs)) (acc ++ b ∷ bs) s',
    )
  ]

  -- However the bytes are cut up and however often a signal interrupts, `rio_readn` stores the
  -- first `n` bytes of the connection, or all that come before its end, leaves the rest unread and
  -- sends nothing. Fuel beyond `n` and the interruptions to come is enough.
  pub rio_readn_lem :
      (f n : ℕ) (s : S)
      → n + g.patience s < f
      → ((rio_readn k f n s).0 ≡ done (some (take n (g.pending s))))
        × (g.pending (rio_readn k f n s).1 ≡ drop n (g.pending s))
        × (g.sent (rio_readn k f n s).1 ≡ g.sent s)
  unfolding rio_readn
  rio_readn_lem f n s h = ground (arith, readn_loop-Takes f n [] s h)

  -- `rio_writen` sends all its bytes, in order and once each, whatever part of them each `write`
  -- accepts and however often a signal interrupts, returns their number, and reads nothing.
  -- Fuel beyond the number of bytes and the interruptions to come is enough.
  pub rio_writen_lem :
      (f : ℕ) (bs : Bytes) (s : S)
      → length bs + g.patience s < f
      → ((rio_writen k f bs s).0 ≡ done true)
        × (g.sent (rio_writen k f bs s).1 ≡ g.sent s ++ bs)
        × (g.pending (rio_writen k f bs s).1 ≡ g.pending s)
        × (g.patience (rio_writen k f bs s).1 ≤ g.patience s)
  unfolding rio_writen
  rio_writen_lem zero bs s h = absurd (omega arith)
  rio_writen_lem (suc f) [] s h = ground (arith, append-nil (g.sent s))
  rio_writen_lem (suc f) (b ∷ bs) s h = elim (reply_cases (k.write (b ∷ bs) s)) [
    | inl (s', e) ↦ ground (arith, law.write_none (b ∷ bs) s s' e, rio_writen_lem f (b ∷ bs) s')
    | inr (n, s', e) ↦ ground (
      arith,
      law.write_some (b ∷ bs) s n s' e,
      law.write_pos (b ∷ bs) s n s' (omega arith) e,
      rio_writen_lem f (drop n (b ∷ bs)) s',
      length-drop n (b ∷ bs),
      append_assoc (g.sent s) (take n (b ∷ bs)) (drop n (b ∷ bs)),
      take-append-drop n (b ∷ bs),
    )
  ]

module _ {S : Type 0} (k : Kernel S) where
  readn_loop-eq-none :
      (f m : ℕ) (acc : Bytes) (s : S)
      → (readn_loop k f m acc s).0 ≡ done none
      → k.errno (readn_loop k f m acc s).1 ≢ eintr
  unfolding readn_loop
  readn_loop-eq-none zero m acc s h = ground arith
  readn_loop-eq-none (suc f) zero acc s h = ground arith
  readn_loop-eq-none (suc f) (suc m) acc s h = elim (reply_cases (k.read (suc m) s)) [
    | inl (s', e) ↦ ground (arith, readn_loop-eq-none f (suc m) acc s')
    | inr (bs, s', e) ↦ ground (arith, readn_loop-eq-none f (suc m - length bs) (acc ++ bs) s')
  ]

  -- On any connection, `rio_readn` returns -1 only with an `errno` other than EINTR.
  pub rio_readn-eq-none :
      (f n : ℕ) (s : S) → (rio_readn k f n s).0 ≡ done none → k.errno (rio_readn k f n s).1 ≢ eintr
  unfolding rio_readn
  rio_readn-eq-none f n s h = readn_loop-eq-none f n [] s h

  -- On any connection, `rio_writen` returns -1 only with an `errno` other than EINTR.
  pub rio_writen-eq-false :
      (f : ℕ) (bs : Bytes) (s : S)
      → (rio_writen k f bs s).0 ≡ done false
      → k.errno (rio_writen k f bs s).1 ≢ eintr
  unfolding rio_writen
  rio_writen-eq-false zero bs s h = ground arith
  rio_writen-eq-false (suc f) [] s h = ground arith
  rio_writen-eq-false (suc f) (b ∷ bs) s h = elim (reply_cases (k.write (b ∷ bs) s)) [
    | inl (s', e) ↦ ground (arith, rio_writen-eq-false f (b ∷ bs) s')
    | inr (n, s', e) ↦
        ground
          (arith, rio_writen-eq-false f (b ∷ bs) s', rio_writen-eq-false f (drop n (b ∷ bs)) s')
  ]
