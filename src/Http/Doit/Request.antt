-- ===== src/Http/Doit/Request.antt =====
-- The request line: how `doit` takes it apart.
use twebs.Prelude.{
  ℕ, ◌+◌, ◌<◌, ◌≡◌, refl, Bool, true, not, Bytes, List, [], ◌∷◌, ◌++◌, length, arith, append_assoc,
  append-nil, ◌∙◌, ap,
}
use twebs.Outcome.{done, Stop}
use twebs.Kernel.{Kernel, Ghost, IsReliable}
use twebs.CString.{all, cstr, isspace, take_while-append, drop_while-append}
use twebs.Rio.{rio_bufsize, rio_readinitb}
use twebs.Rio.Buffered.{stream, IsValid}
use twebs.Http.{Host, World, read_line}
use twebs.Http.Sending.{Sent, sent_by, patience_of}
use twebs.Http.Headers.{token, after_token}
use twebs.Http.Headers.Lines.{Took, IsLine, ended, read_line-Took, cstr-ended}
use twebs.Http.Doit.{respond, doit, opened}

abbrev pub not_space : ℕ → Bool
not_space c = not (isspace c)

-- A word that `%s` of `sscanf` takes.
abbrev pub IsWord : Bytes → Type 0
IsWord xs = (0 < length xs) × (all not_space xs ≡ true)

-- The request line without its newline.
abbrev pub request_line : Bytes → Bytes → Bytes → Bytes
request_line method uri version = method ++ b' ' ∷ (uri ++ b' ' ∷ version)

pub token-word :
    (junk word : Bytes) (c : ℕ) (rest : Bytes)
    → IsWord word
    → isspace c ≡ true
    → token junk (word ++ c ∷ rest) ≡ word
token-word junk [] c rest h e = absurd (omega (arith, h.0))
token-word junk (x ∷ xs) c rest h e = ground (arith, h.1, take_while-append not_space xs c rest)

pub after_token-word :
    (word : Bytes) (c : ℕ) (rest : Bytes)
    → IsWord word
    → isspace c ≡ true
    → after_token (word ++ c ∷ rest) ≡ c ∷ rest
after_token-word [] c rest h e = absurd (omega (arith, h.0))
after_token-word (x ∷ xs) c rest h e = ground (arith, h.1, drop_while-append not_space xs c rest)

-- White space in front of a word is passed over.
token-blank :
    (junk : Bytes) (c : ℕ) (rest : Bytes)
    → isspace c ≡ true
    → token junk (c ∷ rest) ≡ token junk rest
token-blank junk c rest e = rw (token, e)

ended-request_line :
    (method uri version : Bytes)
    → ended (request_line method uri version) ≡ method ++ b' ' ∷ (uri ++ b' ' ∷ ended version)
ended-request_line method uri version =
    append_assoc method (b' ' ∷ (uri ++ b' ' ∷ version)) (b'\n' ∷ [])
    ∙ ap (λ xs. method ++ b' ' ∷ xs) (append_assoc uri (b' ' ∷ version) (b'\n' ∷ []))

-- The two words of a request line.
words :
    (junk method uri version : Bytes)
    → IsWord method
    → IsWord uri
    → IsLine (request_line method uri version)
    → let line = cstr (ended (request_line method uri version)) in
      (token junk line ≡ method) × (token junk (after_token line) ≡ uri)
words junk method uri version m u l =
    rw (cstr-ended (request_line method uri version) l, ended-request_line method uri version)
      (
        token-word junk method b' ' (uri ++ b' ' ∷ ended version) m refl,
        rw (after_token-word method b' ' (uri ++ b' ' ∷ ended version) m refl) (
            token-blank junk b' ' (uri ++ b' ' ∷ ended version) refl
            ∙ token-word junk uri b' ' (ended version) u refl),
      )

-- `w'` follows `w` with `bs` sent, `rest` left to read, `logged` behind the log, and the processes
-- `cs` left behind by `fork`.
pub record Served {S : Type 0} (g : Ghost S) (bs rest logged : Bytes) (cs : List Stop)
    (w w' : World S) : Type 0 where
  pub sends : sent_by g w' ≡ sent_by g w ++ bs
  pub leaves : stream g w'.rio ≡ rest
  pub logs : w'.log ≡ w.log ++ logged
  pub spawns : w'.children ≡ w.children ++ cs

pub Took-Sent :
    {S : Type 0} {g : Ghost S} {bs rest logged : Bytes} {u v w : World S}
    → Took g rest logged u v
    → Sent g bs v w
    → Served g bs rest logged [] u w
Took-Sent {u} t s = ground (arith, append-nil u.children)

module _ {S : Type 0} {k : Kernel S} {g : Ghost S} (law : IsReliable k g) where
  -- `doit` hands the first two words of the request line to the rest of its code.
  doit_reads :
      (fuel : ℕ) (h : Host) (w : World S) (b : Bytes)
      → (read_line k fuel [] (opened k w)).0 ≡ done b
      → doit k fuel h w
        ≡ respond k fuel h
            (token h.junk_token (cstr b))
            (token h.junk_token (after_token (cstr b)))
            (read_line k fuel [] (opened k w)).1
  unfolding doit
  doit_reads fuel h w b e = ground arith

  -- The buffer is empty at first, so that what comes on the connection is what is read.
  opened-IsValid : (w : World S) → length w.rio.rio_buf ≡ rio_bufsize → IsValid (opened k w).rio
  unfolding rio_readinitb
  opened-IsValid w e = record { size = e; inside = omega arith }

  opened-stream : (w : World S) → stream g (opened k w).rio ≡ g.pending w.rio.rio_fd
  unfolding rio_readinitb
  opened-stream w = refl

  opened-Took : (rest : Bytes) (w v : World S) → Took g rest [] (opened k w) v → Took g rest [] w v
  unfolding rio_readinitb
  opened-Took rest w v t = ground arith

  opened-patience : (w : World S) → patience_of g (opened k w) ≡ patience_of g w
  unfolding rio_readinitb
  opened-patience w = refl

  pub doit-respond :
      (fuel : ℕ) (h : Host) (method uri version rest : Bytes) (w : World S)
      → IsWord method
      → IsWord uri
      → IsLine (request_line method uri version)
      → length w.rio.rio_buf ≡ rio_bufsize
      → g.pending w.rio.rio_fd ≡ request_line method uri version ++ b'\n' ∷ rest
      → patience_of g w + 1 < fuel
      → (w' : World S) × (doit k fuel h w ≡ respond k fuel h method uri w') × Took g rest [] w w'
  doit-respond fuel h method uri version rest w m u l v e p =
      let (r, t) =
        read_line-Took law fuel [] (request_line method uri version) rest (opened k w) l
          (opened-IsValid w v) (opened-stream w ∙ e) (omega (arith, opened-patience w)) in
      let (x, y) = words h.junk_token method uri version m u l in
      (
        (read_line k fuel [] (opened k w)).1,
        doit_reads fuel h w _ r ∙ rw (x, y),
        opened-Took rest w (read_line k fuel [] (opened k w)).1 t,
      )
