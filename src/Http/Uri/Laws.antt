-- ===== src/Http/Uri/Laws.antt =====
-- `parse_uri` and `get_filetype`: which file a URI names, and the type that it is sent with.
use twebs.Prelude.{
  ℕ, ◌<◌, ◌≡◌, refl, true, false, Bytes, List, [], ◌∷◌, ◌++◌, length, codes, arith, ◌==◌,
  if◌then◌else◌, some, leb_lt, Bool-cases, inl, inr, length-append, ◌↔◌,
}
use twebs.Outcome.{done}
use twebs.CString.{
  strstr, all, take_while-append, drop_while-append, Occurs, strstr-Occurs, strstr-append,
}
use twebs.Config.File.{Item, render, IsFile, lookup, getconfig_or_exit-lookup}
use twebs.Http.{Host, maxline}
use twebs.Http.Uri.{parse_uri, static_name, dynamic_name, ends_in_slash, not_question, get_filetype}

pub ends_in_slash-append : (xs : Bytes) (c : ℕ) → ends_in_slash (xs ++ c ∷ []) ≡ some (c == b'/')
ends_in_slash-append [] c = refl
ends_in_slash-append (x ∷ []) c = refl
ends_in_slash-append (x ∷ y ∷ xs) c = ends_in_slash-append (y ∷ xs) c

module _ (junk root xs : Bytes) (c : ℕ) where
  abbrev plain : Bytes
  plain = junk ++ (root ++ (xs ++ c ∷ []))

  static_name-append :
      length (plain ++ codes "home.html") < maxline
      → length plain < maxline
      → static_name junk root (xs ++ c ∷ [])
        ≡ done (record {
          is_static = true;
          filename = if c == b'/' then plain ++ codes "home.html" else plain;
          cgi_args = [];
        })
  unfolding static_name
  static_name-append l s =
      rw (static_name, ends_in_slash-append xs c)
        (elim (Bool-cases (c == b'/')) [
          | inl y ↦ rw y (rw (leb_lt l))
          | inr n ↦ rw n (rw (leb_lt s))
        ])

-- A URI without "cig-bin" names a static file: the document root of the configuration with the URI
-- behind it, and "home.html" where the URI ends in a slash. `temp_cwd`, which is never set, is in front.
pub parse_uri-static :
    (f : ℕ) (h : Host) (is : List Item) (root xs : Bytes) (c : ℕ)
    → h.config ≡ render is
    → IsFile is
    → length (render is) < f
    → lookup (codes "root") is ≡ some root
    → strstr (xs ++ c ∷ []) (codes "cig-bin") ≡ false
    → length (plain h.junk_temp_cwd root xs c ++ codes "home.html") < maxline
    → parse_uri f h (xs ++ c ∷ [])
      ≡ done (record {
        is_static = true;
        filename =
            if c == b'/'
            then plain h.junk_temp_cwd root xs c ++ codes "home.html"
            else plain h.junk_temp_cwd root xs c;
        cgi_args = [];
      })
unfolding parse_uri
parse_uri-static f h is root xs c conf v l look n fits = ground (
  arith,
  getconfig_or_exit-lookup f (codes "root") is h.junk_tmp (ground arith) v l,
  static_name-append h.junk_temp_cwd root xs c fits
      (omega (arith, length-append (plain h.junk_temp_cwd root xs c) (codes "home.html"))),
)

-- A URI with "cig-bin" and a question mark names a program under the working directory; the
-- arguments are what follows the first question mark.
pub parse_uri-dynamic :
    (f : ℕ) (h : Host) (path args : Bytes)
    → strstr (path ++ b'?' ∷ args) (codes "cig-bin") ≡ true
    → all not_question path ≡ true
    → length (h.cwd ++ path) < maxline
    → parse_uri f h (path ++ b'?' ∷ args)
      ≡ done (record { is_static = false; filename = h.cwd ++ path; cgi_args = args })
unfolding parse_uri dynamic_name
parse_uri-dynamic f h path args y q fits =
    rw
      (
        y,
        take_while-append not_question path b'?' args q refl,
        drop_while-append not_question path b'?' args q refl,
        leb_lt fits,
      )
      refl

-- The type of a file is "text/html" exactly where ".html" occurs anywhere in its name.
pub get_filetype-html :
    (filename : Bytes)
    → (get_filetype filename ≡ codes "text/html") ↔ Occurs (codes ".html") filename
unfolding get_filetype
get_filetype-html filename = (
  λ e. strstr-Occurs filename (codes ".html") (ground arith),
  λ o. rw (o.at, strstr-append o.before (codes ".html") o.after) refl,
)

-- The media type of a file, by the first of these endings that occurs anywhere in its name.
pub data MediaType (filename : Bytes) : Bytes → Type 0 where
  is_html : Occurs (codes ".html") filename → MediaType filename (codes "text/html")
  is_gif :
      ¬ Occurs (codes ".html") filename
      → Occurs (codes ".gif") filename
      → MediaType filename (codes "image/gif")
  is_jpeg :
      ¬ Occurs (codes ".html") filename
      → ¬ Occurs (codes ".gif") filename
      → Occurs (codes ".jpg") filename
      → MediaType filename (codes "image/jpeg")
  is_png :
      ¬ Occurs (codes ".html") filename
      → ¬ Occurs (codes ".gif") filename
      → ¬ Occurs (codes ".jpg") filename
      → Occurs (codes ".png") filename
      → MediaType filename (codes "image/png")
  is_plain :
      ¬ Occurs (codes ".html") filename
      → ¬ Occurs (codes ".gif") filename
      → ¬ Occurs (codes ".jpg") filename
      → ¬ Occurs (codes ".png") filename
      → MediaType filename (codes "text/plain")

Occurs-strstr : (bs needle : Bytes) → Occurs needle bs → strstr bs needle ≡ true
Occurs-strstr bs needle o = rw (o.at) (strstr-append o.before needle o.after)

not_Occurs-strstr : (bs needle : Bytes) → ¬ Occurs needle bs → strstr bs needle ≡ false
not_Occurs-strstr bs needle n = elim (Bool-cases (strstr bs needle)) [
  | inl y ↦ absurd (n (strstr-Occurs bs needle y))
  | inr z ↦ z
]

pub strstr-not_Occurs : (bs needle : Bytes) → strstr bs needle ≡ false → ¬ Occurs needle bs
strstr-not_Occurs bs needle z o = cc (z, Occurs-strstr bs needle o)

-- Whatever the media type of a file is by the table, `get_filetype` gives it.
pub get_filetype-MediaType :
    (filename : Bytes) {type : Bytes} → MediaType filename type → get_filetype filename ≡ type
unfolding get_filetype
get_filetype-MediaType f (is_html a) = rw (Occurs-strstr f _ a) refl
get_filetype-MediaType f (is_gif n a) = rw (not_Occurs-strstr f _ n, Occurs-strstr f _ a) refl
get_filetype-MediaType f (is_jpeg n m a) =
    rw (not_Occurs-strstr f _ n, not_Occurs-strstr f _ m, Occurs-strstr f _ a) refl
get_filetype-MediaType f (is_png n m l a) =
    rw
      (
        not_Occurs-strstr f _ n,
        not_Occurs-strstr f _ m,
        not_Occurs-strstr f _ l,
        Occurs-strstr f _ a,
      )
      refl
get_filetype-MediaType f (is_plain n m l a) =
    rw
      (
        not_Occurs-strstr f _ n,
        not_Occurs-strstr f _ m,
        not_Occurs-strstr f _ l,
        not_Occurs-strstr f _ a,
      )
      refl

-- Every file has one.
pub MediaType-any : (filename : Bytes) → (type : Bytes) × MediaType filename type
MediaType-any f = elim (Bool-cases (strstr f (codes ".html"))) [
  | inl y ↦ (codes "text/html", is_html (strstr-Occurs f _ y))
  | inr n ↦ elim (Bool-cases (strstr f (codes ".gif"))) [
    | inl y ↦ (codes "image/gif", is_gif (strstr-not_Occurs f _ n) (strstr-Occurs f _ y))
    | inr m ↦ elim (Bool-cases (strstr f (codes ".jpg"))) [
      | inl y ↦ (
        codes "image/jpeg",
        is_jpeg (strstr-not_Occurs f _ n) (strstr-not_Occurs f _ m) (strstr-Occurs f _ y),
      )
      | inr l ↦ elim (Bool-cases (strstr f (codes ".png"))) [
        | inl y ↦ (
          codes "image/png",
          is_png (strstr-not_Occurs f _ n) (strstr-not_Occurs f _ m) (strstr-not_Occurs f _ l)
              (strstr-Occurs f _ y),
        )
        | inr a ↦ (
          codes "text/plain",
          is_plain (strstr-not_Occurs f _ n) (strstr-not_Occurs f _ m) (strstr-not_Occurs f _ l)
              (strstr-not_Occurs f _ a),
        )
      ]
    ]
  ]
]
