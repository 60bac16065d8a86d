-- ===== src/Http/Doit/Answers.antt =====
-- `doit` of http_main.c comes to an end on every whole request, with the reply that the table of
-- Http/Doit/Contract.antt has for it.
mod Files
mod Programs
pub use Files.{IsServable}
use twebs.Prelude.{
  ℕ, ◌+◌, ◌<◌, ◌≡◌, ◌≢◌, true, ◌&&◌, Bytes, [], ◌∷◌, length, codes, pos, arith, Bool-cases,
  Option-cases, inl, inr, sym, ◌∙◌,
}
use twebs.Outcome.{running}
use twebs.Kernel.{Kernel, Ghost, IsReliable}
use twebs.CString.{strcaseeq}
use twebs.Rio.{rio_bufsize}
use twebs.Http.{Host, World, Stat, maxline}
use twebs.Http.Sending.{patience_of}
use twebs.Http.Uri.{Parsed}
use twebs.Http.Doit.{is_method, is_regular, doit}
use twebs.Http.Doit.Request.{Served}
use twebs.Http.Doit.Contract.{Request, IsRequest, text_of, Reply, Finds, Promised}
use twebs.Http.Doit.Refines.{Enough, doit-Promised}
use twebs.Http.Doit.Total.{IsSite, Named, Named-uri}
use Files.{
  HasReply, reply_unknown, reply_missing, reply_forbidden, reply_not_run, reply_unmapped,
  reply_file,
}
use Programs.{reply_get, reply_post}

Named-word : {h : Host} (uri : Bytes) → 0 < length uri → IsSite h uri → Named h uri
Named-word [] l s = absurd (omega arith)
Named-word {h} (x ∷ xs) l s = Named-uri h x xs s

module _ (h : Host) (r : Request) (limit : ℕ) (s : IsServable h r limit) where
  reply_found :
      (p : Parsed) (status : Stat)
      → length p.filename + 400 < maxline
      → Finds h r p status
      → HasReply h r limit
  reply_found p status short finds = elim (Bool-cases p.is_static) [
    | inl static ↦ elim (Bool-cases (is_regular status.file_type && status.user_read)) [
      | inl ok ↦ elim (Option-cases (h.open_mapped p.filename (pos status.st_size))) [
        | inl e ↦ reply_unmapped h r limit s p short status finds static ok e
        | inr (content, e) ↦ reply_file h r limit s p short status finds static ok content e
      ]
      | inr bad ↦ reply_forbidden h r limit s p short status finds static bad
    ]
    | inr dynamic ↦ elim (Bool-cases (is_regular status.file_type && status.user_exec)) [
      | inl ok ↦ elim (Bool-cases (strcaseeq r.method (codes "POST"))) [
        | inl post ↦ reply_post h r limit s p status finds dynamic ok post
        | inr get ↦ reply_get h r limit s p status finds dynamic ok get
      ]
      | inr bad ↦ reply_not_run h r limit s p short status finds dynamic bad
    ]
  ]

  reply_named : is_method r.method ≡ true → Named h r.uri → HasReply h r limit
  reply_named known (p, names, short) = elim (Option-cases (h.lstat p.filename)) [
    | inl e ↦ reply_missing h r limit s p short known names e
    | inr (status, e) ↦
        reply_found p status short (record { known = known; names = names; found = e })
  ]

  reply : 0 < length r.uri → HasReply h r limit
  reply word = elim (Bool-cases (is_method r.method)) [
    | inl known ↦ reply_named known (Named-word r.uri word s.site)
    | inr other ↦ reply_unknown h r limit s other
  ]

module _ {S : Type 0} {k : Kernel S} {g : Ghost S} (law : IsReliable k g) (fuel : ℕ) (h : Host)
    (r : Request) (w : World S) (whole : IsRequest r) (v : length w.rio.rio_buf ≡ rio_bufsize)
    (comes : g.pending w.rio.rio_fd ≡ text_of r) where
  -- On a connection that does not break, on which a whole request comes: on a machine whose
  -- configuration names a document root, that shows no listings, and whose names and files are
  -- within the bounds of `IsServable`, `doit` comes to its end, whatever the request asks for, with
  -- fuel for the sizes of the request, the configuration and the largest file: the table has a
  -- reply for it, and that is what `doit` ends with and what it has sent, left unread, logged and
  -- left behind.
  pub doit_answers :
      (limit : ℕ)
      → IsServable h r limit
      → maxline + length r.rest + length h.config + (400 + limit) + patience_of g w + 1 < fuel
      → (a : Reply) × Promised h r a
        × ((doit k fuel h w).0 ≡ a.outcome)
        × Served g a.sends a.leaves a.logs a.spawns w (doit k fuel h w).1
        × ((doit k fuel h w).0 ≢ running)
  doit_answers limit s gas =
      let (a, promised, size, ends) = reply h r limit s whole.uri_word.0 in
      let enough : Enough g fuel h r a w = omega arith in
      let (o, served) = doit-Promised law fuel h r w whole v comes promised enough in
      (a, promised, o, served, λ q. ends (sym o ∙ q))
