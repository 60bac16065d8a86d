-- ===== src/Startup.antt =====
-- parse_option.c, and `main` of http_main.c up to its loop: the options and the configuration decide
-- the port, the log file, listings of directories, and whether the server becomes a daemon.
pub mod Choices
pub mod Boot
pub mod Daemonize
use twebs.Prelude.{
  ℕ, ◌+◌, Bool, true, false, not, ◌||◌, Option, none, some, Bytes, List, [], ◌∷◌, ◌++◌, length,
  take, leb, codes, ℤ, if◌then◌else◌,
}
use twebs.Outcome.{Outcome, done, stopped, exited, fault}
use twebs.CString.{streq, atoi}
use twebs.Config.{getconfig_or_exit}
use twebs.Http.{maxline}

-- What a call of `getopt_long` hands out: an option with its argument, or the reason that it found
-- none. The last call, which returns -1, is the end of the list.
pub data Opt : Type 0 where
  daemon_opt : Opt
  port_opt : Bytes → Opt
  log_opt : Bytes → Opt
  help_opt : Opt
  version_opt : Opt
  missing_value : Opt
  unknown_opt : Opt

-- What `parse_option` stores through its pointers.
pub record Options : Type 0 where
  pub is_daemon : Bool
  pub port_ptr : Option Bytes
  pub log_ptr : Option Bytes

-- The loop of `parse_option`. `strncpy` cuts the texts.
unfoldable pub parse_option : Options → List Opt → Outcome Options
parse_option o [] = done o
parse_option o (daemon_opt ∷ opts) = parse_option (record o { is_daemon = true }) opts
parse_option o (port_opt optarg ∷ opts) =
    parse_option (record o { port_ptr = some (take 15 optarg) }) opts
parse_option o (log_opt optarg ∷ opts) =
    parse_option (record o { log_ptr = some (take 63 optarg) }) opts
parse_option o (_ ∷ opts) = exited 1

-- What `main` has settled when it opens the socket.
pub record Settings : Type 0 where
  pub port : ℤ
  pub log_path : Bytes
  pub is_show_dir : Bool
  pub daemon : Bool

infixl 5 ◌then_do◌
abbrev pub ◌then_do◌ {ℓ κ} : {A : Type ℓ} {B : Type κ} → Outcome A → (A → Outcome B) → Outcome B
◌then_do◌ o f = elim o [ done a ↦ f a | stopped e ↦ stopped e ]

module _ (fuel : ℕ) (file tmp cwd : Bytes) where
  abbrev pub getconfig : Bytes → Outcome Bytes
  getconfig name = getconfig_or_exit fuel name file tmp

  -- An option, or the text of the configuration where it was not given.
  abbrev pub option_or : Option Bytes → Bytes → Outcome Bytes
  option_or (some text) name = done text
  option_or none name = getconfig name

  -- `initlog(strcat(temp_cwd, log_ptr))`, for an array of MAXLINE bytes
  abbrev pub log_name : Bytes → Outcome Bytes
  log_name log =
      let path = cwd ++ (codes "/" ++ log) in if leb maxline (length path) then fault else done path

  abbrev pub wants_daemon : Bool → Outcome Bool
  wants_daemon true = done true
  wants_daemon false = getconfig (codes "daemon") then_do λ text. done (streq text (codes "yes"))

  -- `main` up to `Open_listenfd`. `junk` is the value of `is_daemon` that nothing sets.
  unfoldable pub startup : Bool → List Opt → Outcome Settings
  unfolding parse_option
  startup junk opts =
      parse_option (record { is_daemon = junk; port_ptr = none; log_ptr = none }) opts then_do λ o.
      option_or o.port_ptr (codes "http") then_do λ port.
      option_or o.log_ptr (codes "log") then_do λ log. log_name log then_do λ path.
      getconfig (codes "dir") then_do λ dir. wants_daemon o.is_daemon then_do λ daemon.
      done (record {
        port = atoi port;
        log_path = path;
        is_show_dir = not (streq dir (codes "no"));
        daemon = daemon;
      })
