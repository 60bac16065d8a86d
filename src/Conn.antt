-- ===== src/Conn.antt =====
-- ss/http_conn.hpp and ss/http_conn.cpp: one connection of the server in ss. This module holds its
-- state, and what opens, resets and closes it.
pub mod Reading
pub mod Requests
pub mod Writing
pub mod Life
use twebs.Prelude.{ℕ, ◌+◌, Bool, true, false, Option, none, some, Bytes, [], length, ℤ, pos, negsuc}

abbrev pub filename_len : ℕ
filename_len = 256

abbrev pub read_buf_size : ℕ
read_buf_size = 4096

abbrev pub write_buf_size : ℕ
write_buf_size = 2048

pub data CheckState : Type 0 where
  check_state_requestline check_state_header check_state_content : CheckState

pub data HttpCode : Type 0 where
  no_request get_request bad_request no_resource forbidden_request : HttpCode
  file_request internal_error closed_connection : HttpCode

pub data LineStatus : Type 0 where
  line_ok line_bad line_open : LineStatus

-- What `stat` tells of a file.
pub record FileStat : Type 0 where
  pub others_read : Bool
  pub is_dir : Bool
  pub st_size : ℕ

-- `file_addr_`: null, the file's bytes, or the address -1 of an `mmap` that failed.
pub data Mapping : Type 0 where
  unmapped : Mapping
  mapped : Bytes → Mapping
  map_failed : Mapping

-- The event that epoll reports once.
pub data Interest : Type 0 where
  epollin epollout : Interest

-- `read_buf` holds the bytes received, behind which the array is zero; its length is `read_idx_`.
-- `write_buf` holds the bytes to send; its length is `write_idx_`. The pointers `url_` and
-- `version_` and `host_` are indices into `read_buf`. `iv` are the blocks of `iv_`. `interest` is
-- what the socket is registered for. The field `method_`, which is only ever GET, and the client's
-- address are left out.
pub record Conn : Type 0 where
  pub sockfd : Option ℕ
  pub interest : Option Interest
  pub read_buf : Bytes
  pub checked_idx : ℕ
  pub start_line : ℕ
  pub write_buf : Bytes
  pub check_state : CheckState
  pub real_file : Bytes
  pub url : Option ℕ
  pub version : Option ℕ
  pub host : Option ℕ
  pub content_length : ℤ
  pub linger : Bool
  pub file_addr : Mapping
  pub file_size : ℕ
  pub header_block : Bytes
  pub file_block : Mapping

abbrev pub read_idx : Conn → ℕ
read_idx c = length c.read_buf

abbrev pub write_idx : Conn → ℕ
write_idx c = length c.write_buf

-- `Init()`
unfoldable pub reset : Conn → Conn
reset c = record c {
  check_state = check_state_requestline;
  linger = false;
  url = none;
  version = none;
  content_length = pos 0;
  host = none;
  start_line = 0;
  checked_idx = 0;
  read_buf = [];
  write_buf = [];
  real_file = [];
}

-- `Init(sockfd, addr)`, and `++user_count_`
abbrev pub increment : ℤ → ℤ
increment (pos n) = pos (n + 1)
increment (negsuc ℕ.zero) = pos 0
increment (negsuc (ℕ.suc n)) = negsuc n

abbrev pub decrement : ℤ → ℤ
decrement (pos ℕ.zero) = negsuc 0
decrement (pos (ℕ.suc n)) = pos n
decrement (negsuc n) = negsuc (n + 1)

unfoldable pub init : Conn → ℤ → ℕ → Conn × ℤ
unfolding reset
init c user_count fd =
    (reset (record c { sockfd = some fd; interest = some epollin }), increment user_count)

-- `CloseConn()`
unfoldable pub close_conn : Conn → ℤ → Conn × ℤ
close_conn c user_count = elim c.sockfd [
  | none ↦ (c, user_count)
  | some fd ↦ (record c { sockfd = none; interest = none }, decrement user_count)
]

-- `ModFD`; on the descriptor -1 it does nothing.
abbrev pub mod_fd : Interest → Conn → Conn
mod_fd ev c = elim c.sockfd [ none ↦ c | some fd ↦ record c { interest = some ev } ]

-- `recv`, `writev` of one block or two, and `errno`, on a socket that does not block. They are no
-- code of the repository. `none` stands for the result -1.
pub record Socket (S : Type 0) : Type 0 where
  pub recv : ℕ → S → Option Bytes × S
  pub writev : Bytes → Mapping → S → Option ℕ × S
  pub errno : S → ℕ

-- `EAGAIN`, which is `EWOULDBLOCK`
abbrev pub eagain : ℕ
eagain = 11
