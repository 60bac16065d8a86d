-- ===== src/Rio/Blocks.antt =====
-- `rio_readnb`: blocks of bytes read through the buffer.
use twebs.Prelude.{
  ℕ, zero, suc, ◌+◌, ◌-◌, ◌≤◌, ◌<◌, ◌≡◌, refl, Option, some, Bytes, [], ◌∷◌, ◌++◌, length, take,
  drop, arith, append-nil, append_assoc, take-append, drop-append, ap, ◌∙◌, take-nil, drop-nil, sym,
}
use twebs.Outcome.{Outcome, done}
use twebs.Kernel.{Kernel, Ghost, IsReliable}
use twebs.Rio.{RioT, rio_read, readnb_loop, rio_readnb}
use twebs.Rio.Buffered.{stream, IsValid, Follows, rio_read-HandsOut}

-- A call that takes `n` bytes from the stream and returns them behind `acc`.
record TakesBlock {S : Type 0} (g : Ghost S) (n : ℕ) (acc : Bytes) (rp : RioT S)
    (r : Outcome (Option Bytes) × RioT S) : Type 0 where
  result : r.0 ≡ done (some (acc ++ take n (stream g rp)))
  rest : stream g r.1 ≡ drop n (stream g rp)
  follows : Follows g rp r.1

module _ {S : Type 0} {k : Kernel S} {g : Ghost S} (law : IsReliable k g) where
  ended :
      (r : RioT S) (m : ℕ) (acc : Bytes) (rp : RioT S)
      → Follows g rp r
      → stream g rp ≡ []
      → stream g rp ≡ stream g r
      → TakesBlock g m acc rp (done (some acc), r)
  ended r m acc rp fl z t = record {
    result = rw z (rw (take-nil m, append-nil));
    rest = sym t ∙ z ∙ sym (ap (drop m) z ∙ drop-nil m);
    follows = fl;
  }

  went_on :
      {rp r : RioT S} (bs : Bytes) (m : ℕ) (acc : Bytes) {q : Outcome (Option Bytes) × RioT S}
      → Follows g rp r
      → length bs ≤ m
      → stream g rp ≡ bs ++ stream g r
      → TakesBlock g (m - length bs) (acc ++ bs) r q
      → TakesBlock g m acc rp q
  went_on bs m acc fl s t d = record {
    result =
        d.result
        ∙ ap (λ l. done (some l))
            (append_assoc acc bs _
              ∙ ap (◌++◌ acc) (sym (take-append m bs _ s) ∙ ap (take m) (sym t)));
    rest = d.rest ∙ sym (ap (drop m) t ∙ drop-append m bs _ s);
    follows = ground arith;
  }

  module _ (f gas m : ℕ) (acc : Bytes) (rp : RioT S) where
    abbrev read : Outcome (Option Bytes) × RioT S
    read = rio_read k gas rp (suc m)

    readnb_loop_end :
        read.0 ≡ done (some [])
        → readnb_loop k (suc f) gas (suc m) acc rp ≡ (done (some acc), read.1)
    unfolding readnb_loop
    readnb_loop_end e = ground arith

    readnb_loop_more :
        (b : ℕ) (bs : Bytes)
        → read.0 ≡ done (some (b ∷ bs))
        → readnb_loop k (suc f) gas (suc m) acc rp
          ≡ readnb_loop k f gas (suc m - length (b ∷ bs)) (acc ++ b ∷ bs) read.1
    unfolding readnb_loop
    readnb_loop_more b bs e = ground arith

  readnb_loop-TakesBlock :
      (f gas m : ℕ) (acc : Bytes) (rp : RioT S)
      → IsValid rp
      → m < f
      → g.patience rp.rio_fd + 1 < gas
      → TakesBlock g m acc rp (readnb_loop k f gas m acc rp)
  readnb_loop-TakesBlock zero gas m acc rp v h p = absurd (omega arith)
  readnb_loop-TakesBlock (suc f) gas zero acc rp v h p =
      unfold readnb_loop in ground (arith, append-nil acc)
  readnb_loop-TakesBlock (suc f) gas (suc m) acc rp v h p =
      let d = rio_read-HandsOut law gas (suc m) rp v (omega arith) p in
      elim d.bytes
          as (λ bs.
            (rio_read k gas rp (suc m)).0 ≡ done (some bs)
            → length bs ≤ suc m
            → stream g rp ≡ bs ++ stream g (rio_read k gas rp (suc m)).1
            → (bs ≡ [] → stream g rp ≡ [])
            → TakesBlock g (suc m) acc rp (readnb_loop k (suc f) gas (suc m) acc rp)) [
              | [] ↦ λ e s t z.
                  rw (readnb_loop_end f gas m acc rp e)
                    (ended (rio_read k gas rp (suc m)).1 (suc m) acc rp d.follows (z refl) t)
              | b ∷ bs ↦ λ e s t z.
                  let r = (rio_read k gas rp (suc m)).1 in
                  rw (readnb_loop_more f gas m acc rp b bs e) (
                    went_on (b ∷ bs) (suc m) acc d.follows s t (
                      readnb_loop-TakesBlock f gas (suc m - length (b ∷ bs)) (acc ++ b ∷ bs) r
                        d.follows.valid (omega arith) (omega arith)))
            ]
        d.result d.short d.splits d.at_end

  -- `rio_readnb` returns the next `n` bytes of the buffered stream, or all that come before the
  -- end, and leaves the rest for the next call. Fuel beyond `n` and beyond one more than the
  -- interruptions to come is enough.
  pub rio_readnb_lem :
      (f n : ℕ) (rp : RioT S)
      → IsValid rp
      → n < f
      → g.patience rp.rio_fd + 1 < f
      → ((rio_readnb k f rp n).0 ≡ done (some (take n (stream g rp))))
        × (stream g (rio_readnb k f rp n).1 ≡ drop n (stream g rp))
        × Follows g rp (rio_readnb k f rp n).1
  unfolding rio_readnb
  rio_readnb_lem f n rp v h p =
      let t = readnb_loop-TakesBlock f f n [] rp v h p in (t.result, t.rest, t.follows)
