-- ===== src/Wrap/Others.antt =====
-- wrap.c: the wrappers whose test is not for a negative number, and the two that open a socket.
use twebs.Prelude.{
  ℕ, ◌≡◌, Bool, not, ◌&&◌, Option, none, some, Bytes, List, [], ◌∷◌, ◌++◌, codes, ℤ, pos, negsuc,
  if◌then◌else◌, is_negative, arith,
}
use twebs.Outcome.{done}
use twebs.Wrap.{Called, unix_error, unless_negative}

-- What a wrapper does where its test says that the call failed, and where not. A pointer is a number.
abbrev pub unless_failed : Bool → Option ℤ → Bytes → Bytes → Called
unless_failed failed result logged msg = if failed then unix_error logged msg else (done result, [])

-- `Signal`
unfoldable pub call_signal : Bool → ℤ → Called
call_signal failed r = unless_failed failed (some r) (codes "Signal error") (codes "Signal error")

pub data Streams : Type 0 where
  mmap munmap fclose fputs fread fwrite : Streams
  fopen : Bytes → Streams

-- `Mmap` to `Fwrite`. For `fread` the test is that fewer items came than were asked for and that
-- `ferror` holds; `fopen` has the path.
unfoldable pub call_streams : Streams → Bool → ℤ → Called
call_streams mmap failed r = unless_failed failed (some r) (codes "Mmap error") (codes "mmap error")
call_streams munmap failed r =
    unless_failed failed none (codes "Munmap error") (codes "munmap error")
call_streams fclose failed r =
    unless_failed failed none (codes "Fclose error") (codes "Fclose error")
call_streams (fopen path) failed r =
    unless_failed failed (some r) (codes "Fopen " ++ (path ++ codes " error")) (codes "Fopen error")
call_streams fputs failed r = unless_failed failed none (codes "Fputs error") (codes "Fputs error")
call_streams fread failed r =
    unless_failed failed (some r) (codes "Fread error") (codes "Fread error")
call_streams fwrite failed r =
    unless_failed failed none (codes "Fwrite error") (codes "Fwrite error")

pub data Names : Type 0 where
  gethostbyname gethostbyaddr : Names

-- `Gethostbyname` and `Gethostbyaddr`
unfoldable pub call_names : Names → Bool → ℤ → Called
call_names gethostbyname failed r =
    unless_failed failed (some r) (codes "Gethostbyname error") (codes "Gethostbyname error")
call_names gethostbyaddr failed r =
    unless_failed failed (some r) (codes "Gethostbyaddr error") (codes "Gethostbyaddr error")

pub data Accounts : Type 0 where
  daemon : Accounts
  getpwnam : Bytes → Accounts

-- `Daemon`, which returns no value, and `Getpwnam`
unfoldable pub call_accounts : Accounts → Bool → ℤ → Called
call_accounts daemon failed r =
    unless_failed failed none (codes "daemon error") (codes "Daemon error")
call_accounts (getpwnam name) failed r =
    unless_failed failed (some r) (codes "unknown user: '" ++ (name ++ codes "'"))
      (codes "unknown user")

-- `Pipe`
unfoldable pub call_pipe : Bool → Called
call_pipe failed = unless_failed failed (some (pos 1)) (codes "Pipe error") (codes "Pipe error")

-- What the calls on a new socket answer.
pub record Answers : Type 0 where
  pub socket : Option ℕ
  pub setsockopt : Bool
  pub bind : Bool
  pub listen : Bool
  pub gethostbyname : Bool
  pub connect : Bool

-- The result, and the descriptors that the function has left_open and not closed.
unfoldable pub open_listenfd : Answers → ℤ × List ℕ
open_listenfd a = elim a.socket [
  | none ↦ (negsuc 0, [])
  | some fd ↦
      if not a.setsockopt
      then (negsuc 0, fd ∷ [])
      else if not a.bind
      then (negsuc 0, fd ∷ [])
      else if not a.listen
      then (negsuc 0, fd ∷ [])
      else (pos fd, fd ∷ [])
]

unfoldable pub open_clientfd : Answers → ℤ × List ℕ
open_clientfd a = elim a.socket [
  | none ↦ (negsuc 0, [])
  | some fd ↦
      if not a.gethostbyname
      then (negsuc 1, fd ∷ [])
      else if not a.connect
      then (negsuc 0, fd ∷ [])
      else (pos fd, fd ∷ [])
]

-- `Open_listenfd` and `Open_clientfd`
unfoldable pub open_listenfd_or_exit : Answers → Called
unfolding open_listenfd
open_listenfd_or_exit a =
    let rc = (open_listenfd a).0 in
    unless_negative rc (some rc) (codes "Open_listentfd error") (codes "Open_listenfd error")

abbrev pub client_failed : ℤ → Called
client_failed (negsuc ℕ.zero) =
    unix_error (codes "Open_clientfd Unix error") (codes "Open_clientfd Unix error")
client_failed _ = unix_error (codes "Open_clientfd NDS error") (codes "Open_clientfd DNS error")

unfoldable pub open_clientfd_or_exit : Answers → Called
unfolding open_clientfd
open_clientfd_or_exit a =
    let rc = (open_clientfd a).0 in
    if is_negative rc then client_failed rc else (done (some rc), [])

-- The descriptor of a socket that is ready to accept.
abbrev pub ready_socket : Answers → Option ℕ
ready_socket a = if a.setsockopt && (a.bind && a.listen) then a.socket else none

abbrev pub left_open : Answers → List ℕ
left_open a = elim a.socket [ none ↦ [] | some fd ↦ fd ∷ [] ]

-- `Open_listenfd` returns a socket on which every step succeeded, and otherwise ends the process with
-- status 0. A socket for which a later step fails is not closed by `open_listenfd`.
pub open_listenfd_lem :
    (a : Answers)
    → (open_listenfd_or_exit a ≡ (elim (ready_socket a) [
      | some fd ↦ (done (some (pos fd)), [])
      | none ↦ unix_error (codes "Open_listentfd error") (codes "Open_listenfd error")
    ]))
      × ((open_listenfd a).1 ≡ left_open a)
unfolding open_listenfd open_listenfd_or_exit
open_listenfd_lem a = (ground arith, ground arith)
