-- ===== src/Http/Uri.antt =====
-- http_main.c: from the URI to the name of a file, and from that to its media type.
pub mod Laws
use twebs.Prelude.{
  ℕ, zero, suc, ◌+◌, ◌-◌, ◌≡◌, refl, Bool, true, false, not, Option, none, some, Bytes, [], ◌∷◌,
  ◌++◌, length, ◌==◌, leb, if◌then◌else◌, codes, drop,
}
use twebs.Outcome.{Outcome, done, stopped, fault}
use twebs.CString.{strstr, take_while, drop_while}
use twebs.Config.{getconfig_or_exit}
use twebs.Http.{Host, maxline}

-- What `parse_uri` stores, and its result: 1 for static content.
pub record Parsed : Type 0 where
  pub is_static : Bool
  pub filename : Bytes
  pub cgi_args : Bytes

-- A copy into an array of MAXLINE bytes.
abbrev pub stored : {A : Type 0} → Bytes → Outcome A → Outcome A
stored bs o = if leb maxline (length bs) then fault else o

-- `uri[strlen(uri) - 1] == '/'`; on the empty string this reads in front of the array.
abbrev pub ends_in_slash : Bytes → Option Bool
ends_in_slash [] = none
ends_in_slash (c ∷ []) = some (c == b'/')
ends_in_slash (c ∷ d ∷ cs) = ends_in_slash (d ∷ cs)

abbrev pub not_question : ℕ → Bool
not_question c = not (c == b'?')

-- The first branch, behind `Getconfig("root")`. What `temp_cwd` holds is never set.
unfoldable pub static_name : Bytes → Bytes → Bytes → Outcome Parsed
static_name junk root uri =
    let filename = junk ++ (root ++ uri) in
    elim (ends_in_slash uri) [
      | none ↦ fault
      | some true ↦ stored (filename ++ codes "home.html") (
          done
            (record { is_static = true; filename = filename ++ codes "home.html"; cgi_args = [] }))
      | some false ↦
          stored filename (done (record { is_static = true; filename = filename; cgi_args = [] }))
    ]

-- The second branch: the arguments stand behind the first `?`.
unfoldable pub dynamic_name : Bytes → Bytes → Outcome Parsed
dynamic_name cwd uri =
    let path = take_while not_question uri in
    let args = drop 1 (drop_while not_question uri) in
    stored (cwd ++ path)
      (done (record { is_static = false; filename = cwd ++ path; cgi_args = args }))

unfoldable pub parse_uri : ℕ → Host → Bytes → Outcome Parsed
unfolding static_name dynamic_name
parse_uri fuel h uri =
    if not (strstr uri (codes "cig-bin"))
    then (elim (getconfig_or_exit fuel (codes "root") h.config h.junk_tmp) [
      | done root ↦ static_name h.junk_temp_cwd root uri
      | stopped e ↦ stopped e
    ])
    else dynamic_name h.cwd uri

unfoldable pub get_filetype : Bytes → Bytes
get_filetype filename =
    if strstr filename (codes ".html")
    then codes "text/html"
    else if strstr filename (codes ".gif")
    then codes "image/gif"
    else if strstr filename (codes ".jpg")
    then codes "image/jpeg"
    else if strstr filename (codes ".png")
    then codes "image/png"
    else codes "text/plain"
