-- ===== src/Tests.antt =====
-- Concrete machines, configurations and connections, and the code run on them.
pub mod Streams
pub mod Files
pub mod Requests
pub mod Sessions
pub mod Answers
pub mod Starts
pub mod Whole
pub mod Programs
pub mod Parts
pub mod Listings
pub mod Conns
pub mod Pools
use twebs.Prelude.{
  ℕ, Bool, true, false, Option, none, some, Bytes, List, [], ◌∷◌, ◌++◌, codes, ◌≡◌, refl, arith,
  ◌<◌, length, replicate, pos, length-replicate,
}
use twebs.CString.{streq, all, isalpha}
use twebs.Config.Line.{Entry, IsEntry, is_value}
use twebs.Config.File.{Item, setting, comment, IsFile, render, lookup}
use twebs.Kernel.Script.{Script, Event, deliver, interrupt}
use twebs.Rio.{RioT}
use twebs.Rio.Buffered.{IsValid}
use twebs.Log.{Date}
use twebs.Http.{Host, World, Stat, FileType, regular}

abbrev pub entry : ℕ → Bytes → ℕ → Bytes → Entry
entry k ks v vs = record {
  indent = [];
  key_head = k;
  key_tail = ks;
  gap = [];
  margin = [];
  value_head = v;
  value_tail = vs;
  tail = [];
}

-- The lines of a config.ini.
abbrev pub items : List Item
items =
    comment [] (codes " the server")
    ∷ setting (entry b'h' (codes "ttp") b'8' (codes "000"))
    ∷ setting (entry b'r' (codes "oot") b'/' (codes "www"))
    ∷ setting (entry b'm' (codes "ask") b'1' (codes "0.0.0.0/255.0.0.0"))
    ∷ setting (entry b'd' (codes "ir") b'n' (codes "o"))
    ∷ setting (entry b'd' (codes "aemon") b'n' (codes "o"))
    ∷ setting (entry b'l' (codes "og") b'a' (codes ".log"))
    ∷ []

entry-IsEntry :
    {k v : ℕ} {ks vs : Bytes}
    → all isalpha (k ∷ ks) ≡ true
    → length (k ∷ ks) < 64
    → all is_value (v ∷ vs) ≡ true
    → length (v ∷ vs) < 64
    → IsEntry (entry k ks v vs)
entry-IsEntry a l b m = record {
  indent_blank = refl;
  key_alpha = a;
  key_short = l;
  gap_blank = refl;
  margin_blank = refl;
  value_solid = b;
  value_short = m;
  tail_blank = refl;
}

pub items-IsFile : IsFile items
items-IsFile = (
  (refl, refl),
  omega arith,
  (
    entry-IsEntry refl (omega arith) refl (omega arith),
    omega arith,
    (
      entry-IsEntry refl (omega arith) refl (omega arith),
      omega arith,
      (
        entry-IsEntry refl (omega arith) refl (omega arith),
        omega arith,
        (
          entry-IsEntry refl (omega arith) refl (omega arith),
          omega arith,
          (
            entry-IsEntry refl (omega arith) refl (omega arith),
            omega arith,
            (entry-IsEntry refl (omega arith) refl (omega arith), omega arith, tt),
          ),
        ),
      ),
    ),
  ),
)

abbrev pub page : Bytes
page = codes "<p>hello</p>"

-- A machine with one page and one program.
abbrev pub site : Host
site = record {
  cwd = codes "/srv";
  config = render items;
  is_show_dir = false;
  lstat = λ f.
      if_file (streq f (codes "/www/a.html"))
        (some (record {
          file_type = regular;
          user_read = true;
          user_exec = false;
          st_size = 12;
          st_uid = 0;
          st_mtime = 0;
        }))
        (if_file (streq f (codes "/www/key"))
          (some (record {
            file_type = regular;
            user_read = false;
            user_exec = false;
            st_size = 12;
            st_uid = 0;
            st_mtime = 0;
          }))
          (if_file (streq f (codes "/srv/cig-bin/add"))
            (some (record {
              file_type = regular;
              user_read = true;
              user_exec = true;
              st_size = 12;
              st_uid = 0;
              st_mtime = 0;
            }))
            none));
  stat = λ f. none;
  open_mapped = λ f size. if_file (streq f (codes "/www/a.html")) (some page) none;
  entries = λ d. none;
  getpwuid = λ u. none;
  can_fork = true;
  can_exec = λ f. true;
  now = record { year = codes "2018"; month_name = codes "Sep"; other = codes "01 10:00:00" };
  localtime =
      λ t. record { year = codes "1970"; month_name = codes "Jan"; other = codes "01 00:00:00" };
  junk_tmp = [];
  junk_temp_cwd = [];
  junk_line = [];
  junk_token = [];
  junk_body = [];
  junk_pipe = codes "x";
}
  where
    if_file : {A : Type 0} → Bool → Option A → Option A → Option A
    if_file true a b = a
    if_file false a b = b

-- A connection on which the bytes `bs` come in two pieces with a signal between them.
abbrev pub conn : ℕ → Bytes → Bytes → Script
conn b bs cs = record {
  events = deliver b bs ∷ interrupt ∷ deliver b' ' cs ∷ [];
  quotas = some 3 ∷ none ∷ [];
  out = [];
}

abbrev pub fresh : Script → RioT Script
fresh s = record { rio_fd = s; rio_cnt = pos 0; rio_bufptr = 0; rio_buf = replicate 8192 0 }

pub zeros-length : length (replicate {A = ℕ} 8192 0) ≡ 8192
zeros-length = length-replicate {A = ℕ} 8192 0

pub fresh-IsValid : (s : Script) → IsValid (fresh s)
fresh-IsValid s = record { size = zeros-length; inside = omega arith }

abbrev pub world : Script → World Script
world s = record { rio = fresh s; log = []; children = [] }
