-- ===== src/CgiConn.antt =====
-- ss/ww/cgi_server.cpp: a client of the process pool, whose first line names the program to run.
pub mod Line
use twebs.Prelude.{
  ℕ, zero, suc, ◌+◌, ◌-◌, Bool, true, false, not, ◌&&◌, Option, none, some, Bytes, [], ◌∷◌, ◌++◌,
  length, ◌==◌, leb, if◌then◌else◌,
}
use twebs.Outcome.{Outcome, done, stopped, running}
use twebs.CString.{cstr}
use twebs.Conn.{Socket, eagain}
use twebs.Conn.Reading.{byte_at, clear_at}

abbrev pub buf_size : ℕ
buf_size = 1024

-- `buf` holds the bytes received, behind which the array is zero; its length is `read_idx_`. `connected`
-- says whether the connection has not been closed by `RemoveFD`. `launched` is the program that a
-- child process runs with the connection as its standard output.
pub record CgiConn : Type 0 where
  pub buf : Bytes
  pub connected : Bool
  pub launched : Option Bytes

-- `Init`
abbrev pub init : CgiConn
init = record { buf = []; connected = true; launched = none }

-- `access(file_name, F_OK)`, and whether `fork` succeeds.
pub record Programs : Type 0 where
  pub exists : Bytes → Bool
  pub forks : Bool

abbrev pub remove_fd : CgiConn → CgiConn
remove_fd c = record c { connected = false }

-- The loop that looks for the end of the line in `n` bytes from `idx` on; `none` is `idx` at
-- `read_idx_`.
unfoldable pub find_end : ℕ → ℕ → Bytes → Option ℕ
find_end zero idx buf = none
find_end (suc n) idx buf =
    if leb 1 idx && (byte_at (idx - 1) buf == b'\r' && byte_at idx buf == b'\n')
    then some idx
    else find_end n (idx + 1) buf

-- `CoreProcess`, on the bytes that `recv` stored, and with the index that `Process` passes: whether it
-- returns 0. The child process of `fork` becomes the program.
unfoldable pub core_process : Programs → Bytes → CgiConn → Bool × CgiConn
unfolding find_end
core_process os bytes c =
    let idx = length c.buf in
    let buf = c.buf ++ bytes in
    elim (find_end (length bytes) idx buf) [
      | none ↦ (true, record c { buf = buf })
      | some i ↦
          let buf' = clear_at (i - 1) buf in
          let file_name = cstr buf' in
          let c' = remove_fd (record c { buf = buf' }) in
          if not (os.exists file_name)
          then (false, c')
          else if not os.forks
          then (false, c')
          else (false, record c' { launched = some file_name })
    ]

-- `Process`, with fuel for its rounds.
unfoldable pub process : {S : Type 0} → Socket S → Programs → ℕ → CgiConn → S → Outcome CgiConn × S
unfolding core_process
process k os zero c s = (running, s)
process k os (suc f) c s =
    let (ret, s') = k.recv (buf_size - 1 - length c.buf) s in
    elim ret [
      | none ↦ (done (if not (k.errno s' == eagain) then remove_fd c else c), s')
      | some bytes ↦ elim (length bytes == 0) [
        | true ↦ (done (remove_fd c), s')
        | false ↦
            let (more, c') = core_process os bytes c in
            elim more [ false ↦ (done c', s') | true ↦ process k os f c' s' ]
      ]
    ]
