-- ===== src/Http/Sending.antt =====
-- What a handler's writes do on a connection that does not break.
use twebs.Prelude.{ℕ, ◌+◌, ◌≤◌, ◌<◌, ◌≡◌, Bytes, ◌++◌, length, arith, append_assoc, leb_lt}
use twebs.Outcome.{done}
use twebs.Kernel.{Kernel, Ghost, IsReliable}
use twebs.Rio.Unbuffered.{rio_writen_lem}
use twebs.Rio.Buffered.{stream}
use twebs.Http.{World, M, write_all, sprintf, maxline, ◌>>=◌}

abbrev pub sent_by : {S : Type 0} → Ghost S → World S → Bytes
sent_by g w = g.sent w.rio.rio_fd

abbrev pub patience_of : {S : Type 0} → Ghost S → World S → ℕ
patience_of g w = g.patience w.rio.rio_fd

-- `w'` follows `w` with `bs` sent and nothing else changed but what signals are to come.
pub record Sent {S : Type 0} (g : Ghost S) (bs : Bytes) (w w' : World S) : Type 0 where
  pub sends : sent_by g w' ≡ sent_by g w ++ bs
  pub keeps_log : w'.log ≡ w.log
  pub keeps_children : w'.children ≡ w.children
  pub keeps_stream : stream g w'.rio ≡ stream g w.rio
  pub patient : patience_of g w' ≤ patience_of g w

pub Sent-append :
    {S : Type 0} {g : Ghost S} {as' bs : Bytes} {u v w : World S}
    → Sent g as' u v
    → Sent g bs v w
    → Sent g (as' ++ bs) u w
Sent-append {g} {as' = xs} {bs} {u} s t = ground (arith, append_assoc (sent_by g u) xs bs)

-- A step that returns hands its value on.
pub >>=-done :
    {S A B : Type 0} (m : M S A) (f : A → M S B) (w : World S) {a : A}
    → (m w).0 ≡ done a
    → (m >>= f) w ≡ f a (m w).1
>>=-done m f w e = rw (e, ◌>>=◌)

-- A text that fits its array.
pub sprintf_fits :
    {S : Type 0} (bs : Bytes) (w : World S) → length bs < maxline → sprintf bs w ≡ (done bs, w)
unfolding sprintf
sprintf_fits bs w h = rw (leb_lt h)

module _ {S : Type 0} {k : Kernel S} {g : Ghost S} (law : IsReliable k g) where
  pub write_all-Sent :
      (fuel : ℕ) (bs : Bytes) (w : World S)
      → length bs + patience_of g w < fuel
      → ((write_all k fuel bs w).0 ≡ done tt) × Sent g bs w (write_all k fuel bs w).1
  unfolding write_all
  write_all-Sent fuel bs w h = ground (arith, rio_writen_lem law fuel bs w.rio.rio_fd h)

  -- Two writes one after the other.
  pub write_two :
      (fuel : ℕ) (as' bs : Bytes) (w : World S)
      → length as' + patience_of g w < fuel
      → length bs + patience_of g w < fuel
      → let r = (write_all k fuel as' >>= λ _. write_all k fuel bs) w in
        (r.0 ≡ done tt) × Sent g (as' ++ bs) w r.1
  write_two fuel xs bs w h l =
      let (e, s) = write_all-Sent fuel xs w h in
      let (e', t) = write_all-Sent fuel bs (write_all k fuel xs w).1 (omega arith) in
      rw (>>=-done (write_all k fuel xs) (λ _. write_all k fuel bs) w e) (e', Sent-append s t)
