-- ===== src/Http/Doit/Total.antt =====
-- Every whole request has its reply in the table of Http/Doit/Contract.antt, while listings are off.
use twebs.Prelude.{
  ℕ, ◌+◌, ◌≤◌, ◌<◌, ◌≡◌, refl, true, false, some, Bytes, List, [], ◌∷◌, ◌++◌, length, length-append,
  length-take, codes, pos, ◌==◌, ◌^◌, arith, Bool-cases, inl, inr, ◌⊎◌, ap, if◌then◌else◌, take,
}
use twebs.CString.{print_int, length-print_nat_int, strstr, all}
use twebs.Config.File.{Item, render, IsFile, lookup}
use twebs.Http.{Host, maxline}
use twebs.Http.Uri.{Parsed, not_question, get_filetype}
use twebs.Http.Reply.{Error, error_body, error_header, static_header}
use twebs.Http.Reply.Errors.{
  IsServerError, is_501, is_404, is_403_static, is_403_dynamic, cut_reply, header_short,
  is_403_access, cut_reply-texts,
}
use twebs.Http.Doit.Contract.{Names, below_root, program, bare_program}

-- A text that is not empty has a last byte.
last_split : (x : ℕ) (xs : Bytes) → (ys : Bytes) × (c : ℕ) × (x ∷ xs ≡ ys ++ c ∷ [])
last_split x [] = ([], x, refl)
last_split x (y ∷ xs) = let (ys, c, e) = last_split y xs in (x ∷ ys, c, ap (λ zs. x ∷ zs) e)

-- A text has no question mark, or a first one.
question_split :
    (uri : Bytes)
    → (all not_question uri ≡ true)
      ⊎ ((path : Bytes) × (args : Bytes) × (uri ≡ path ++ b'?' ∷ args)
          × (all not_question path ≡ true))
question_split [] = inl refl
question_split (c ∷ cs) = elim (Bool-cases (c == b'?')) [
  | inl y ↦ inr ([], cs, ground arith, refl)
  | inr n ↦ elim (question_split cs) [
    | inl h ↦ inl (ground arith)
    | inr (path, args, e, h) ↦ inr (c ∷ path, args, ap (λ zs. c ∷ zs) e, ground arith)
  ]
]

-- The texts of an error are not much longer than what they name.
pub length-error_body :
    (e : Error) (cause : Bytes) → IsServerError e → length (error_body e cause) ≤ length cause + 300
unfolding error_body
length-error_body e cause is_501 =
    omega (arith, length-append cause (codes "\r\n<hr><em>The Tiny Web Server</em>\r\n"))
length-error_body e cause is_404 =
    omega (arith, length-append cause (codes "\r\n<hr><em>The Tiny Web Server</em>\r\n"))
length-error_body e cause is_403_static =
    omega (arith, length-append cause (codes "\r\n<hr><em>The Tiny Web Server</em>\r\n"))
length-error_body e cause is_403_dynamic =
    omega (arith, length-append cause (codes "\r\n<hr><em>The Tiny Web Server</em>\r\n"))
length-error_body e cause is_403_access =
    omega (arith, length-append cause (codes "\r\n<hr><em>The Tiny Web Server</em>\r\n"))

length-get_filetype : (filename : Bytes) → length (get_filetype filename) ≤ 10
unfolding get_filetype
length-get_filetype filename = ground arith

length-print_int : (n : ℕ) → n < 2 ^ 31 → length (print_int (pos n)) ≤ 10
unfolding print_int
length-print_int n l = length-print_nat_int n l

pub length-static_header :
    (filename : Bytes) (n : ℕ) → n < 2 ^ 31 → length (static_header filename (pos n)) < 200
unfolding static_header
length-static_header filename n l = omega (
  arith,
  length-print_int n l,
  length-get_filetype filename,
  length-append (print_int (pos n))
      (codes "\r\nContent-Type: " ++ (get_filetype filename ++ codes "\r\n\r\n")),
  length-append (get_filetype filename) (codes "\r\n\r\n"),
)

pub length-cut_reply :
    (h : Host) (e : Error) (cause : Bytes)
    → IsServerError e
    → length (error_body e cause) < maxline
    → length (cut_reply e cause) ≤ 200
length-cut_reply h e cause i fits =
    let body = error_body e cause in
    let buf = error_header e (length body) in
    omega (
      arith,
      header_short h e cause i fits,
      ap length (cut_reply-texts e cause),
      length-append buf (take (length buf) body),
      length-take (length buf) body,
    )

-- What a text names, in front of what stands behind it, is no longer than both.
prefix_le : (xs ys zs : Bytes) → length (xs ++ ys) ≤ length (xs ++ (ys ++ zs))
prefix_le xs ys zs =
    omega (arith, length-append xs ys, length-append xs (ys ++ zs), length-append ys zs)

-- A configuration with a document root, and names that leave room in the arrays.
pub record IsSite (h : Host) (uri : Bytes) : Type 0 where
  pub items : List Item
  pub root : Bytes
  pub config_is : h.config ≡ render items
  pub well_formed : IsFile items
  pub root_found : lookup (codes "root") items ≡ some root
  pub root_short : length (h.junk_temp_cwd ++ (root ++ uri)) + 500 < maxline
  pub cwd_short : length (h.cwd ++ uri) + 500 < maxline

-- A file with a short name.
abbrev pub Named : Host → Bytes → Type 0
Named h uri = (p : Parsed) × Names h uri p × (length p.filename + 400 < maxline)

Named-static :
    (h : Host) (xs : Bytes) (c : ℕ) (items : List Item) (root : Bytes)
    → h.config ≡ render items
    → IsFile items
    → lookup (codes "root") items ≡ some root
    → length (h.junk_temp_cwd ++ (root ++ (xs ++ c ∷ []))) + 500 < maxline
    → strstr (xs ++ c ∷ []) (codes "cig-bin") ≡ false
    → Named h (xs ++ c ∷ [])
Named-static h xs c items root conf v look short n =
    let plain = h.junk_temp_cwd ++ (root ++ (xs ++ c ∷ [])) in
    let longer = length-append plain (codes "home.html") in
    (
      record {
        is_static = true;
        filename = if c == b'/' then plain ++ codes "home.html" else plain;
        cgi_args = [];
      },
      below_root items xs c conf v look n (omega (arith, longer)),
      elim (Bool-cases (c == b'/')) [
        | inl y ↦ rw y (omega (arith, longer))
        | inr z ↦ rw z (omega arith)
      ],
    )

Named-last :
    (h : Host) (uri xs : Bytes) (c : ℕ)
    → uri ≡ xs ++ c ∷ []
    → IsSite h uri
    → strstr uri (codes "cig-bin") ≡ false
    → Named h uri
Named-last h uri xs c e s n =
    let short : length (h.junk_temp_cwd ++ (s.root ++ (xs ++ c ∷ []))) + 500 < maxline =
      rw (← e) s.root_short in
    let plain : strstr (xs ++ c ∷ []) (codes "cig-bin") ≡ false = rw (← e) n in
    rw e (Named-static h xs c s.items s.root s.config_is s.well_formed s.root_found short plain)

Named-query :
    (h : Host) (uri path args : Bytes)
    → uri ≡ path ++ b'?' ∷ args
    → IsSite h uri
    → strstr uri (codes "cig-bin") ≡ true
    → all not_question path ≡ true
    → Named h uri
Named-query h uri path args e s y q =
    let short : length (h.cwd ++ (path ++ b'?' ∷ args)) + 500 < maxline = rw (← e) s.cwd_short in
    let found : strstr (path ++ b'?' ∷ args) (codes "cig-bin") ≡ true = rw (← e) y in
    let l = prefix_le h.cwd path (b'?' ∷ args) in
    rw e (
      record { is_static = false; filename = h.cwd ++ path; cgi_args = args },
      program path args found q (omega (arith, l, short)),
      omega (arith, l, short),
    )

-- Every URI names a file.
pub Named-uri : (h : Host) (x : ℕ) (xs : Bytes) → IsSite h (x ∷ xs) → Named h (x ∷ xs)
Named-uri h x xs s = elim (Bool-cases (strstr (x ∷ xs) (codes "cig-bin"))) [
  | inr n ↦ let (ys, c, e) = last_split x xs in Named-last h (x ∷ xs) ys c e s n
  | inl y ↦ elim (question_split (x ∷ xs)) [
    | inl q ↦ (
      record { is_static = false; filename = h.cwd ++ x ∷ xs; cgi_args = [] },
      bare_program y q (omega (arith, s.cwd_short)),
      omega (arith, s.cwd_short),
    )
    | inr (path, args, e, q) ↦ Named-query h (x ∷ xs) path args e s y q
  ]
]
