-- ===== src/Http.antt =====
-- http_main.c: what a child of the server does with one connection. This module holds what its
-- handlers share: the machine that they run on (`Host`), their state (`World`), the monad in which
-- a step returns its value or stops the process, and the wrappers of wrap.c over the Rio package.
pub mod Sending
pub mod Uri
pub mod Reply
pub mod Headers
pub mod Dynamic
pub mod Directory
pub mod Doit
use twebs.Prelude.{
  ℕ, ◌%◌, ◌^◌, ◌-◌, Bool, true, false, Option, none, some, Bytes, List, [], ◌∷◌, ◌++◌, length, leb,
  ltb, if◌then◌else◌, ℤ, pos, negsuc,
}
use twebs.Outcome.{Outcome, done, stopped, exited, fault, Stop}
use twebs.Kernel.{Kernel}
use twebs.Log.{Date}
use twebs.Rio.{RioT, LineRead, line, end_of_file, failed, rio_writen, rio_readnb, rio_readlineb}

-- The bits of `st_mode` that the server looks at.
pub data FileType : Type 0 where
  regular directory fifo link socket other : FileType

pub record Stat : Type 0 where
  pub file_type : FileType
  pub user_read : Bool
  pub user_exec : Bool
  pub st_size : ℕ
  pub st_uid : ℕ
  pub st_mtime : ℕ

-- MAXLINE and MAXBUF
abbrev pub maxline : ℕ
maxline = 8192

-- The machine at the time of the request, as the system calls show it; what it answers is not
-- decided by the program. `open_mapped` is `open` with `mmap`: the file's bytes, or `none` if
-- one of the two fails. `entries` is `opendir` with what `readdir` gives, in order. `now` and `localtime` are the times
-- of log.c. `junk_*` is what the C code reads without having
-- set it: an array's bytes, or the string that an array holds.
pub record Host : Type 0 where
  pub cwd : Bytes
  pub config : Bytes
  pub is_show_dir : Bool
  pub lstat : Bytes → Option Stat
  pub stat : Bytes → Option Stat
  pub open_mapped : Bytes → ℤ → Option Bytes
  pub entries : Bytes → Option (List Bytes)
  pub getpwuid : ℕ → Option Bytes
  pub can_fork : Bool
  pub can_exec : Bytes → Bool
  pub now : Date
  pub localtime : ℕ → Date
  pub junk_tmp : Bytes
  pub junk_temp_cwd : Bytes
  pub junk_line : Bytes
  pub junk_token : Bytes
  pub junk_body : Bytes
  pub junk_pipe : Bytes

-- The connection with its buffer, the log file, and what the processes that `fork` left behind
-- go on to run.
pub record World (S : Type 0) : Type 0 where
  pub rio : RioT S
  pub log : Bytes
  pub children : List Stop

abbrev pub M : Type 0 → Type 0 → Type 0
M S A = World S → Outcome A × World S

infixl 5 ◌>>=◌ ◌>>◌
abbrev pub ◌>>=◌ : {S A B : Type 0} → M S A → (A → M S B) → M S B
◌>>=◌ m f w = let (o, w') = m w in elim o [ done a ↦ f a w' | stopped e ↦ (stopped e, w') ]

abbrev pub ◌>>◌ : {S B : Type 0} → M S (Unit {0}) → M S B → M S B
m >> k = m >>= λ _. k

abbrev pub pure : {S A : Type 0} → A → M S A
pure a w = (done a, w)

abbrev pub stop : {S A : Type 0} → Outcome A → M S A
stop o w = (o, w)

-- `sprintf` into an array of MAXLINE bytes
unfoldable pub sprintf : {S : Type 0} → Bytes → M S Bytes
sprintf bs w = if leb maxline (length bs) then (fault, w) else (done bs, w)

abbrev pub writelog : {S : Type 0} → Bytes → M S (Unit {0})
writelog bs w = (done tt, record w { log = w.log ++ bs })

module _ {S : Type 0} (k : Kernel S) (fuel : ℕ) where
  -- `Rio_writen` on the connection
  unfoldable pub write_all : Bytes → M S (Unit {0})
  write_all bs w =
      let (o, s) = rio_writen k fuel bs w.rio.rio_fd in
      let w' = record w { rio = record w.rio { rio_fd = s } } in
      elim o [
        | done true ↦ (done tt, w')
        | done false ↦ (exited 0, w')
        | stopped e ↦ (stopped e, w')
      ]

  -- `Rio_readlineb`: the buffer afterwards, if it held `buf` before
  unfoldable pub read_line : Bytes → M S Bytes
  read_line buf w =
      let (o, rp) = rio_readlineb k fuel w.rio maxline in
      let w' = record w { rio = rp } in
      elim o [
        | done (line n bs) ↦ (done bs, w')
        | done end_of_file ↦ (done buf, w')
        | done failed ↦ (exited 0, w')
        | stopped e ↦ (stopped e, w')
      ]

  -- `Rio_readnb`
  unfoldable pub read_block : ℕ → M S Bytes
  read_block n w =
      let (o, rp) = rio_readnb k fuel w.rio n in
      let w' = record w { rio = rp } in
      elim o [
        | done (some bs) ↦ (done bs, w')
        | done none ↦ (exited 0, w')
        | stopped e ↦ (stopped e, w')
      ]
