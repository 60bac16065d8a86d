-- ===== src/Http/Directory/Listing.antt =====
-- `serve_dir`: the page that lists a directory.
use twebs.Prelude.{
  ℕ, ◌+◌, ◌≤◌, ◌<◌, ◌≡◌, refl, Bool, true, false, ◌||◌, some, Bytes, List, [], ◌∷◌, ◌++◌, length,
  drop, codes, arith, ◌∙◌, ap, append_assoc, append-nil, length-append, to_int, sym, subst,
}
use twebs.Outcome.{done, exited}
use twebs.Kernel.{Kernel, Ghost, IsReliable}
use twebs.CString.{print_int, print_nat, length-print_nat, streq, strrchr}
use twebs.Log.{stamp}
use twebs.Http.{
  Host, World, maxline, write_all, Stat, FileType, directory, fifo, link, socket, regular, other,
}
use twebs.Http.Sending.{Sent, Sent-append, patience_of, write_all-Sent, sprintf_fits}
use twebs.Http.Directory.{
  add_entry, add_entries, row, img_of, page_head, page_end, dir_header, send_listing, serve_dir,
  pad_right, pad_left,
}

-- `.` and `..` are not listed.
abbrev pub is_hidden : Bytes → Bool
is_hidden name = streq name (codes ".") || streq name (codes "..")

-- What the machine shows of a name in a directory: its state and its owner.
pub record Shown (h : Host) (filename name : Bytes) (status : Stat) (owner : Bytes) : Type 0 where
  pub path_fits : length (filename ++ (codes "/" ++ name)) < maxline
  pub stat_found : h.stat (filename ++ (codes "/" ++ name)) ≡ some status
  pub owner_found : h.getpwuid status.st_uid ≡ some owner

abbrev icon : FileType → Bytes
icon directory = codes "dir.png"
icon fifo = codes "fifo.png"
icon link = codes "link.png"
icon socket = codes "sock.png"
icon regular = codes "file.png"
icon other = codes "file.png"

-- The row of a name, as a text.
abbrev pub row_of : Host → Bytes → Bytes → Stat → Bytes → Bytes
row_of h dir_name name status owner =
    codes "<p><pre>2  <img src="
    ++ (icon status.file_type
        ++ (codes " width=24px height=24px> <a href="
            ++ (dir_name
                ++ (name
                    ++ (codes ">"
                        ++ (pad_right 15 name
                            ++ (codes "</a>"
                                ++ (pad_right 10 owner
                                    ++ (pad_left 10 (print_int (to_int status.st_size))
                                        ++ (codes " "
                                            ++ (pad_left 24 (stamp (h.localtime status.st_mtime))
                                                ++ codes "</pre></p>\r\n")))))))))))

abbrev row_made : Host → Bytes → Bytes → Stat → Bytes → Bytes
row_made h dir_name name status owner =
    row (img_of status.file_type) dir_name name owner 2 (print_int (to_int status.st_size))
      (stamp (h.localtime status.st_mtime))

row-icon :
    (t : FileType) (after : Bytes)
    → codes "<img src=" ++ (icon t ++ (codes " width=24px height=24px>" ++ after))
      ≡ img_of t ++ after
row-icon directory after = refl
row-icon fifo after = refl
row-icon link after = refl
row-icon socket after = refl
row-icon regular after = refl
row-icon other after = refl

row_made-row_of :
    (h : Host) (dir_name name : Bytes) (status : Stat) (owner : Bytes)
    → row_made h dir_name name status owner ≡ row_of h dir_name name status owner
unfolding row print_nat
row_made-row_of h dir_name name status owner =
    sym (ap (λ bs. codes "<p><pre>2  " ++ bs) (row-icon status.file_type _))

-- The rows of a list of names, in its order.
pub data Rows (h : Host) (filename dir_name : Bytes) : List Bytes → Bytes → Type 0 where
  no_more : Rows h filename dir_name [] []
  hidden :
      {name : Bytes} {names : List Bytes} {text : Bytes}
      → is_hidden name ≡ true
      → Rows h filename dir_name names text
      → Rows h filename dir_name (name ∷ names) text
  shown :
      {name : Bytes} {names : List Bytes} {text : Bytes} {status : Stat} {owner : Bytes}
      → is_hidden name ≡ false
      → Shown h filename name status owner
      → Rows h filename dir_name names text
      → Rows h filename dir_name (name ∷ names) (row_of h dir_name name status owner ++ text)

prefix_short :
    (xs ys zs : Bytes) → length (xs ++ (ys ++ zs)) < maxline → length (xs ++ ys) < maxline
prefix_short xs ys zs l =
    omega (arith, length-append xs ys, length-append xs (ys ++ zs), length-append ys zs)

module _ {S : Type 0} (k : Kernel S) (fuel : ℕ) (h : Host) (filename dir_name : Bytes)
    (w : World S) where
  add_entry-made :
      (files name : Bytes) (status : Stat) (owner : Bytes)
      → Shown h filename name status owner
      → length (files ++ row_made h dir_name name status owner) < maxline
      → add_entry k fuel h filename dir_name files name w
        ≡ (done (files ++ row_made h dir_name name status owner), w)
  unfolding add_entry
  add_entry-made files name status owner s l = ground (
    arith,
    sprintf_fits (filename ++ (codes "/" ++ name)) w s.path_fits,
    s.stat_found,
    s.owner_found,
    sprintf_fits (files ++ row_made h dir_name name status owner) w l,
  )

  add_entry-Shown :
      (files name : Bytes) (status : Stat) (owner : Bytes)
      → Shown h filename name status owner
      → length (files ++ row_of h dir_name name status owner) < maxline
      → add_entry k fuel h filename dir_name files name w
        ≡ (done (files ++ row_of h dir_name name status owner), w)
  add_entry-Shown files name status owner s =
      subst
        (λ r.
          length (files ++ r) < maxline
          → add_entry k fuel h filename dir_name files name w ≡ (done (files ++ r), w))
        (row_made-row_of h dir_name name status owner) (add_entry-made files name status owner s)

  add_entries_hidden :
      (files name : Bytes) (names : List Bytes)
      → is_hidden name ≡ true
      → add_entries k fuel h filename dir_name files (name ∷ names) w
        ≡ add_entries k fuel h filename dir_name files names w
  unfolding add_entries
  add_entries_hidden files name names e = rw e

  add_entries_shown :
      (files files' name : Bytes) (names : List Bytes)
      → is_hidden name ≡ false
      → add_entry k fuel h filename dir_name files name w ≡ (done files', w)
      → add_entries k fuel h filename dir_name files (name ∷ names) w
        ≡ add_entries k fuel h filename dir_name files' names w
  unfolding add_entries
  add_entries_shown files files' name names e q = ground (arith, e, q)

  add_entries-Rows :
      (files : Bytes) (names : List Bytes) (text : Bytes)
      → Rows h filename dir_name names text
      → length (files ++ text) < maxline
      → add_entries k fuel h filename dir_name files names w ≡ (done (files ++ text), w)
  add_entries-Rows files _ _ no_more l = unfold add_entries in rw (append-nil files)
  add_entries-Rows files _ _ (hidden {name} {names} {text} e r) l =
      add_entries_hidden files name names e ∙ add_entries-Rows files names text r l
  add_entries-Rows files _ _ (shown {name} {names} {text} {status} {owner} e s r) l =
      let this = row_of h dir_name name status owner in
      let longer = append_assoc files this text in
      add_entries_shown files (files ++ this) name names e
        (add_entry-Shown files name status owner s (prefix_short files this text l))
      ∙ add_entries-Rows (files ++ this) names text r (rw longer l)
      ∙ ap (λ t. (done t, w)) longer

abbrev pub whole_page : Bytes → Bytes
whole_page text =
    (codes
        "<html><title>Dir Browser</title><style type=text/css> a:link{text-decoration:none;}             </style><body bgcolor=ffffff font-family=Arial color=#fff             font-size=14px>\r\n"
      ++ text)
    ++ codes "</body></html>"

length-dir_header : (n : ℕ) → n < 10_000 → length (dir_header n) < maxline
unfolding dir_header
length-dir_header n l = omega (
  arith,
  length-print_nat n l,
  length-append (print_nat n) (codes "\r\nContent-Type: text/html\r\n\r\n"),
)

module _ {S : Type 0} {k : Kernel S} {g : Ghost S} (law : IsReliable k g) (fuel : ℕ)
    (h : Host) where
  send_listing_exits :
      (files : Bytes) (w : World S)
      → let w' = (write_all k fuel (dir_header (length files)) w).1 in
        (write_all k fuel (dir_header (length files)) w).0 ≡ done tt
        → (write_all k fuel files w').0 ≡ done tt
        → send_listing k fuel h files w ≡ (exited 0, (write_all k fuel files w').1)
  unfolding send_listing
  send_listing_exits files w e e' = ground (arith, e, e')

  send_listing-Sent :
      (files : Bytes) (w : World S)
      → length files < maxline
      → maxline + patience_of g w ≤ fuel
      → let r = send_listing k fuel h files w in
        (r.0 ≡ exited 0) × Sent g (dir_header (length files) ++ files) w r.1
  send_listing-Sent files w l p =
      let header = dir_header (length files) in
      let short = length-dir_header (length files) (omega arith) in
      let (e, s) = write_all-Sent law fuel header w (omega arith) in
      let w' = (write_all k fuel header w).1 in
      let (e', t) = write_all-Sent law fuel files w' (omega (arith, s.patient)) in
      rw (send_listing_exits files w e e') (refl, Sent-append s t)

  serve_dir_sends :
      (filename slash text : Bytes) (names : List Bytes) (w : World S)
      → strrchr b'/' filename ≡ some slash
      → length (drop 1 slash ++ codes "/") < maxline
      → h.entries filename ≡ some names
      → add_entries k fuel h filename (drop 1 slash ++ codes "/") page_head names w
        ≡ (done (page_head ++ text), w)
      → length (whole_page text) < maxline
      → serve_dir k fuel h filename w ≡ send_listing k fuel h (whole_page text) w
  unfolding serve_dir
  serve_dir_sends filename slash text names w e d n a l =
      ground
        (arith, sprintf_fits (drop 1 slash ++ codes "/") w d, sprintf_fits (whole_page text) w l, a)

  -- On a connection that does not break, `serve_dir` sends the header with the length of the page, and
  -- the page with one row for each name that `readdir` gives, in its order and without "." and "..",
  -- and then ends the process with status 0; if the machine shows the state and the owner of every
  -- name, and the texts fit their arrays.
  pub serve_dir_lem :
      (filename slash text : Bytes) (names : List Bytes) (w : World S)
      → strrchr b'/' filename ≡ some slash
      → length (drop 1 slash ++ codes "/") < maxline
      → h.entries filename ≡ some names
      → Rows h filename (drop 1 slash ++ codes "/") names text
      → length (whole_page text) < maxline
      → maxline + patience_of g w ≤ fuel
      → let r = serve_dir k fuel h filename w in
        (r.0 ≡ exited 0) × Sent g (dir_header (length (whole_page text)) ++ whole_page text) w r.1
  serve_dir_lem filename slash text names w e d n r l p =
      let dir_name = drop 1 slash ++ codes "/" in
      let fits : length (page_head ++ text) < maxline =
        omega (arith, length-append (page_head ++ text) page_end) in
      rw
        (serve_dir_sends filename slash text names w e d n
          (add_entries-Rows k fuel h filename dir_name w page_head names text r fits) l)
        (send_listing-Sent (whole_page text) w l p)
