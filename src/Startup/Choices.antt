-- ===== src/Startup/Choices.antt =====
-- `parse_option` and `main`'s settings against the list of options and the file's settings.
use twebs.Prelude.{
  ℕ, ◌<◌, ◌≡◌, ◌≢◌, refl, Bool, true, false, not, ◌||◌, Option, none, some, Bytes, List, [], ◌∷◌,
  ◌++◌, length, take, leb_lt, codes, arith, if◌then◌else◌,
}
use twebs.Outcome.{done, exited}
use twebs.CString.{streq, atoi}
use twebs.Config.{getconfig_or_exit}
use twebs.Config.File.{Item, render, IsFile, lookup, getconfig_or_exit-lookup}
use twebs.Http.{maxline}
use twebs.Startup.{
  Opt, daemon_opt, port_opt, log_opt, help_opt, version_opt, missing_value, unknown_opt, Options,
  parse_option, startup,
}

-- An option that ends the program: help, version, or an error.
abbrev pub ends_program : Opt → Bool
ends_program daemon_opt = false
ends_program (port_opt _) = false
ends_program (log_opt _) = false
ends_program _ = true

abbrev pub any_ends : List Opt → Bool
any_ends [] = false
any_ends (o ∷ os) = ends_program o || any_ends os

-- `-d` is among the options.
abbrev pub has_daemon : List Opt → Bool
has_daemon [] = false
has_daemon (daemon_opt ∷ os) = true
has_daemon (_ ∷ os) = has_daemon os

-- The last of the ports, and the last of the log files, or `last` if there is none.
abbrev pub last_port : Option Bytes → List Opt → Option Bytes
last_port last [] = last
last_port last (port_opt p ∷ os) = last_port (some (take 15 p)) os
last_port last (_ ∷ os) = last_port last os

abbrev pub last_log : Option Bytes → List Opt → Option Bytes
last_log last [] = last
last_log last (log_opt p ∷ os) = last_log (some (take 63 p)) os
last_log last (_ ∷ os) = last_log last os

abbrev pub chosen : Options → List Opt → Options
chosen o os = record {
  is_daemon = o.is_daemon || has_daemon os;
  port_ptr = last_port o.port_ptr os;
  log_ptr = last_log o.log_ptr os;
}

-- `parse_option` keeps the last port and the last log file, cut to their arrays, and notes whether
-- the daemon is asked for; any other option, and a value that is missing, end the program with status 1.
pub parse_option_lem :
    (o : Options) (opts : List Opt)
    → parse_option o opts ≡ (if any_ends opts then exited 1 else done (chosen o opts))
unfolding parse_option
parse_option_lem o [] = ground arith
parse_option_lem o (daemon_opt ∷ os) =
    ground (arith, parse_option_lem (record o { is_daemon = true }) os)
parse_option_lem o (port_opt p ∷ os) =
    parse_option_lem (record o { port_ptr = some (take 15 p) }) os
parse_option_lem o (log_opt p ∷ os) = parse_option_lem (record o { log_ptr = some (take 63 p) }) os
parse_option_lem o (help_opt ∷ os) = refl
parse_option_lem o (version_opt ∷ os) = refl
parse_option_lem o (missing_value ∷ os) = refl
parse_option_lem o (unknown_opt ∷ os) = refl

-- The first of two texts that is there.
abbrev pub either_text : Option Bytes → Option Bytes → Option Bytes
either_text (some a) b = some a
either_text none b = b

getconfig_some :
    (fuel : ℕ) (is : List Item) (tmp name value : Bytes)
    → name ≢ []
    → IsFile is
    → length (render is) < fuel
    → lookup name is ≡ some value
    → getconfig_or_exit fuel name (render is) tmp ≡ done value
getconfig_some fuel is tmp name value n v l e =
    ground (arith, getconfig_or_exit-lookup fuel name is tmp n v l)

-- From a well-formed config.ini and options that end nothing, `main` takes the port and the log file
-- from the last option that gives them, else from the file; the listing of directories from "dir",
-- which only "no" turns off; and the daemon from `-d` or "daemon=yes", or where `is_daemon`, which
-- nothing sets, was 1.
pub startup_lem :
    (fuel : ℕ) (is : List Item) (tmp cwd : Bytes) (junk : Bool) (opts : List Opt)
    (port log dir daemon : Bytes)
    → IsFile is
    → length (render is) < fuel
    → any_ends opts ≡ false
    → either_text (last_port none opts) (lookup (codes "http") is) ≡ some port
    → either_text (last_log none opts) (lookup (codes "log") is) ≡ some log
    → lookup (codes "dir") is ≡ some dir
    → lookup (codes "daemon") is ≡ some daemon
    → length (cwd ++ (codes "/" ++ log)) < maxline
    → startup fuel (render is) tmp cwd junk opts
      ≡ done (record {
        port = atoi port;
        log_path = cwd ++ (codes "/" ++ log);
        is_show_dir = not (streq dir (codes "no"));
        daemon = (junk || has_daemon opts) || streq daemon (codes "yes");
      })
unfolding startup
startup_lem fuel is tmp cwd junk opts port log dir daemon v l e hp hl hd hm fits =
    let get = λ (name value : Bytes) (n : name ≢ []) (look : lookup name is ≡ some value).
      getconfig_some fuel is tmp name value n v l look in
    ground (
      arith,
      parse_option_lem (record { is_daemon = junk; port_ptr = none; log_ptr = none }) opts,
      get (codes "http") port (ground arith),
      get (codes "log") log (ground arith),
      get (codes "dir") dir (ground arith) hd,
      get (codes "daemon") daemon (ground arith) hm,
      leb_lt fits,
    )
