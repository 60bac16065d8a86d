-- ===== src/Http/Dynamic/Handlers.antt =====
-- `get_dynamic` and `post_dynamic` on a connection that does not break.
use twebs.Prelude.{
  ℕ, suc, ◌+◌, ◌-◌, ◌≤◌, ◌<◌, ◌≡◌, refl, true, false, Bytes, [], ◌∷◌, ◌++◌, length, take, drop,
  replicate, arith, codes, ◌∙◌, ap, sym, pos, leb, leb_lt, take-length_append, length-take, Bool,
  ltb, zero, ℤ, negsuc, take-all, drop-all,
}
use twebs.Outcome.{done, stopped, undefined, Stop}
use twebs.Kernel.{Kernel, Ghost, IsReliable}
use twebs.CString.{print_int}
use twebs.Rio.Buffered.{stream, IsValid, Follows}
use twebs.Rio.Blocks.{rio_readnb_lem}
use twebs.Http.{Host, World, maxline, write_all, read_block}
use twebs.Http.Sending.{sent_by, patience_of, write_all-Sent}
use twebs.Http.Dynamic.{
  get_greeting, post_greeting, execve, filled_data, get_dynamic, post_dynamic, pump, piped,
  past_data,
}

-- What runs in the child that `get_dynamic` forks.
abbrev pub get_program : Host → Bytes → Bytes → Stop
get_program h filename cgi_args =
    execve h (record { file = filename; name = codes "QUERY_STRING"; value = cgi_args; stdin = [] })

-- What the process that serves a POST request turns into.
abbrev pub post_program : Host → Bytes → ℕ → Bytes → Stop
post_program h filename n stdin = execve h (record {
  file = filename;
  name = codes "CONTENT-LENGTH";
  value = print_int (pos n);
  stdin = stdin;
})

-- The same for any announced length.
abbrev pub posted_program : Host → Bytes → ℤ → Bytes → Stop
posted_program h filename z stdin =
    execve h (record {
      file = filename;
      name = codes "CONTENT-LENGTH";
      value = print_int z;
      stdin = stdin;
    })

-- The lengths for which the array `data` of `post_dynamic` is too short, or that are negative.
abbrev pub overflows : ℤ → Bool
overflows (pos n) = ltb maxline n
overflows (negsuc n) = true

filled_data-take : (bs : Bytes) (n : ℕ) → n ≤ length bs → filled_data (take n bs) n ≡ take n bs
filled_data-take bs n l =
    let e : length (take n bs) ≡ n = omega (arith, length-take n bs) in
    ap (λ m. take m (take n bs ++ replicate (maxline - length (take n bs)) 0)) (sym e)
    ∙ take-length_append (take n bs) (replicate (maxline - length (take n bs)) 0)

take-replicate : (j m : ℕ) → j ≤ m → take {A = ℕ} j (replicate m 0) ≡ replicate j 0
take-replicate zero zero l = refl
take-replicate zero (suc m) l = refl
take-replicate (suc j) zero l = absurd (omega arith)
take-replicate (suc j) (suc m) l = ap (λ xs. 0 ∷ xs) (take-replicate j m (omega arith))

take-append_more :
    (bs : Bytes) (m n j : ℕ)
    → n ≡ length bs + j
    → j ≤ m
    → take n (bs ++ replicate m 0) ≡ bs ++ replicate j 0
take-append_more [] m n j e r = let same : n ≡ j = omega arith in rw same (take-replicate j m r)
take-append_more (b ∷ bs) m zero j e r = absurd (omega arith)
take-append_more (b ∷ bs) m (suc n) j e r =
    ap (λ xs. b ∷ xs) (take-append_more bs m n j (omega arith) r)

filled_data-short :
    (bs : Bytes) (n : ℕ)
    → n ≤ maxline
    → length bs < n
    → filled_data (take n bs) n ≡ bs ++ replicate (n - length bs) 0
filled_data-short bs n l s =
    rw (take-all n bs (omega arith))
      (take-append_more bs (maxline - length bs) n (n - length bs) (omega arith) (omega arith))

module _ {S : Type 0} {k : Kernel S} {g : Ghost S} (law : IsReliable k g) (fuel : ℕ) (h : Host)
    (can : h.can_fork ≡ true) where
  get_dynamic_forks :
      (filename cgi_args : Bytes) (w : World S)
      → (write_all k fuel get_greeting w).0 ≡ done tt
      → let w' = (write_all k fuel get_greeting w).1 in
        get_dynamic k fuel h filename cgi_args w
        ≡ (done tt, record w' { children = w'.children ++ get_program h filename cgi_args ∷ [] })
  unfolding get_dynamic
  get_dynamic_forks filename cgi_args w e = ground arith

  -- `read_block` takes the next `n` bytes, or all up to the end.
  read_block_lem :
      (n : ℕ) (w : World S)
      → IsValid w.rio
      → n < fuel
      → patience_of g w + 1 < fuel
      → ((read_block k fuel n w).0 ≡ done (take n (stream g w.rio)))
        × (stream g (read_block k fuel n w).1.rio ≡ drop n (stream g w.rio))
        × Follows g w.rio (read_block k fuel n w).1.rio
        × ((read_block k fuel n w).1.log ≡ w.log)
        × ((read_block k fuel n w).1.children ≡ w.children)
  unfolding read_block
  read_block_lem n w v l p = ground (arith, rio_readnb_lem law fuel n w.rio v l p)

  post_dynamic_execs :
      (filename : Bytes) (n : ℕ) (bs : Bytes) (w : World S)
      → n ≤ maxline
      → (read_block k fuel n w).0 ≡ done bs
      → let w' = (read_block k fuel n w).1 in
        (write_all k fuel post_greeting w').0 ≡ done tt
        → post_dynamic k fuel h filename (pos n) w ≡ (
          stopped (post_program h filename n (filled_data bs n)),
          (write_all k fuel post_greeting w').1,
        )
  unfolding post_dynamic pump piped
  post_dynamic_execs filename n bs w l e e' =
      let e'' : leb (suc maxline) n ≡ false = leb_lt (omega arith) in ground arith

  post_dynamic-overflows :
      (filename : Bytes) (z : ℤ) (bs : Bytes) (w : World S)
      → overflows z ≡ true
      → (read_block k fuel (suc maxline) w).0 ≡ done bs
      → let w' = (read_block k fuel (suc maxline) w).1 in
        let w'' = record w' { children = w'.children ++ undefined ∷ [] } in
        (write_all k fuel post_greeting w'').0 ≡ done tt
        → post_dynamic k fuel h filename z w ≡ (
          stopped (posted_program h filename z h.junk_pipe),
          (write_all k fuel post_greeting w'').1,
        )
  unfolding post_dynamic pump piped past_data
  post_dynamic-overflows filename (pos n) bs w o e e' =
      let y : leb (suc maxline) n ≡ true = ground arith in ground arith
  post_dynamic-overflows filename (negsuc n) bs w o e e' = ground arith

  -- `get_dynamic` returns once it has sent its greeting, and leaves behind a process that runs the
  -- program with the arguments in QUERY_STRING.
  pub get_dynamic_lem :
      (filename cgi_args : Bytes) (w : World S)
      → maxline + patience_of g w ≤ fuel
      → let r = get_dynamic k fuel h filename cgi_args w in
        (r.0 ≡ done tt)
        × (sent_by g r.1 ≡ sent_by g w ++ get_greeting)
        × (stream g r.1.rio ≡ stream g w.rio)
        × (r.1.log ≡ w.log)
        × (r.1.children ≡ w.children ++ get_program h filename cgi_args ∷ [])
  get_dynamic_lem filename cgi_args w l =
      let (e, s) = write_all-Sent law fuel get_greeting w (omega arith) in
      rw (get_dynamic_forks filename cgi_args w e) (
        refl,
        s.sends,
        s.keeps_stream,
        s.keeps_log,
        ap (λ c. c ++ get_program h filename cgi_args ∷ []) s.keeps_children,
      )

  -- `post_dynamic` turns the process into the program, with the request's first `n` bytes behind the
  -- headers as its standard input, once it has sent its greeting.
  pub post_dynamic_lem :
      (filename : Bytes) (n : ℕ) (w : World S)
      → IsValid w.rio
      → n ≤ maxline
      → n ≤ length (stream g w.rio)
      → maxline + patience_of g w + 1 < fuel
      → let r = post_dynamic k fuel h filename (pos n) w in
        (r.0 ≡ stopped (post_program h filename n (take n (stream g w.rio))))
        × (sent_by g r.1 ≡ sent_by g w ++ post_greeting)
        × (stream g r.1.rio ≡ drop n (stream g w.rio))
        × (r.1.log ≡ w.log)
        × (r.1.children ≡ w.children)
  post_dynamic_lem filename n w v small enough l =
      let (e, rest, fl, lg, ch) = read_block_lem n w v (omega arith) (omega arith) in
      let w' = (read_block k fuel n w).1 in
      let (e', s) = write_all-Sent law fuel post_greeting w' (omega (arith, fl.patient)) in
      rw
        (
          post_dynamic_execs filename n (take n (stream g w.rio)) w small e e',
          filled_data-take (stream g w.rio) n enough,
        )
        (
          refl,
          s.sends ∙ ap (λ b. b ++ post_greeting) fl.silent,
          s.keeps_stream ∙ rest,
          s.keeps_log ∙ lg,
          s.keeps_children ∙ ch,
        )

  -- Where the announced length is negative or above MAXLINE, `post_dynamic` does the same, while its
  -- child's behaviour is undefined: what the program finds as its standard input is unknown.
  pub post_dynamic_overflow :
      (filename : Bytes) (z : ℤ) (w : World S)
      → IsValid w.rio
      → overflows z ≡ true
      → maxline + patience_of g w + 1 < fuel
      → let r = post_dynamic k fuel h filename z w in
        (r.0 ≡ stopped (posted_program h filename z h.junk_pipe))
        × (sent_by g r.1 ≡ sent_by g w ++ post_greeting)
        × (stream g r.1.rio ≡ drop (maxline + 1) (stream g w.rio))
        × (r.1.log ≡ w.log)
        × (r.1.children ≡ w.children ++ undefined ∷ [])
  post_dynamic_overflow filename z w v o l =
      let (e, rest, fl, lg, ch) = read_block_lem (suc maxline) w v (omega arith) (omega arith) in
      let w' = (read_block k fuel (suc maxline) w).1 in
      let w'' = record w' { children = w'.children ++ undefined ∷ [] } in
      let (e', s) = write_all-Sent law fuel post_greeting w'' (omega (arith, fl.patient)) in
      rw (post_dynamic-overflows filename z (take (suc maxline) (stream g w.rio)) w o e e') (
        refl,
        s.sends ∙ ap (λ b. b ++ post_greeting) fl.silent,
        s.keeps_stream ∙ rest,
        s.keeps_log ∙ lg,
        s.keeps_children ∙ ap (λ c. c ++ undefined ∷ []) ch,
      )

  -- Where the connection ends before the announced bytes, the program finds zero bytes in the place of
  -- those that are missing.
  pub post_dynamic_short :
      (filename : Bytes) (n : ℕ) (w : World S)
      → IsValid w.rio
      → n ≤ maxline
      → length (stream g w.rio) < n
      → maxline + patience_of g w + 1 < fuel
      → let r = post_dynamic k fuel h filename (pos n) w in
        let bs = stream g w.rio in
        (r.0 ≡ stopped (post_program h filename n (bs ++ replicate (n - length bs) 0)))
        × (sent_by g r.1 ≡ sent_by g w ++ post_greeting)
        × (stream g r.1.rio ≡ [])
        × (r.1.log ≡ w.log)
        × (r.1.children ≡ w.children)
  post_dynamic_short filename n w v small short l =
      let (e, rest, fl, lg, ch) = read_block_lem n w v (omega arith) (omega arith) in
      let w' = (read_block k fuel n w).1 in
      let (e', s) = write_all-Sent law fuel post_greeting w' (omega (arith, fl.patient)) in
      rw
        (
          post_dynamic_execs filename n (take n (stream g w.rio)) w small e e',
          filled_data-short (stream g w.rio) n small short,
        )
        (
          refl,
          s.sends ∙ ap (λ b. b ++ post_greeting) fl.silent,
          s.keeps_stream ∙ rest ∙ drop-all n (stream g w.rio) (omega arith),
          s.keeps_log ∙ lg,
          s.keeps_children ∙ ch,
        )
