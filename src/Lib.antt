-- ===== src/Lib.antt =====
-- Verification of twebs, a small web server in C that forks a process for each connection, and of the
-- servers in C++ that stand beside it.
--
-- The program. `main` (http_main.c) reads its options (parse_option.c) and config.ini
-- (parse_config.c), opens the log (log.c) and a socket, and loops round `Accept`. A client that the
-- address check turns away (secure_access.c) gets an error page; for any other a child runs `doit`,
-- which reads the request through the Rio package (wrap.c), finds the file that the URI names, and
-- sends the file, a listing of a directory, an error page, or what a CGI program writes.
--
-- The files. Each C function has a definition with its name in lower case; `Getconfig` is
-- `getconfig_or_exit`, and `Rio_writen`, `Rio_readlineb` and `Rio_readnb` are `write_all`,
-- `read_line` and `read_block`.
--   Kernel: `read`, `write` and `errno` on one descriptor, a parameter, with what POSIX promises of
--     them on a connection that does not break; Kernel/Script is such a kernel that runs.
--   Outcome: how a piece of the program ends: with a value, by `exit`, by `execve`, in undefined
--     behaviour, or still running when its fuel is spent.
--   CString: the functions of the C library on strings of bytes.
--   Rio: wrap.c, `rio_readn` to `rio_readlineb`. Wrap: the wrappers of single system calls; those
--     that test for a negative result are in Wrap, the others and `open_listenfd` in Wrap/Others.
--   Config: parse_config.c. Config/File describes well-formed files and what `getconfig` finds.
--   Access: secure_access.c, on 32 and 64 bit patterns. Access/Octets describes addresses.
--   Log: log.c. Startup: parse_option.c and the settings of `main`; Startup/Boot is `main` up to its
--     loop, with the system calls on the way. Server: the loop of `main`, with `sig_chld_handler` in
--     Server/Reaping, and the whole of `main` in Server/Whole. Startup/Daemonize: daemon_init.c, which
--     nothing calls.
--   Http: http_main.c. World is the state of one process (connection with its buffer, log, children
--     left behind); Host is the machine at that time (files, configuration, whether calls succeed,
--     and what the code reads without having set it). Uri, Headers, Reply, Dynamic, Directory and
--     Doit model the functions of these names, with their lemmas in the modules below them.
--     Doit/Contract is a table of the replies that the server owes, with no loops, buffers or fuel.
--   PostAuth and GetAuth: cgi-bin/postAuth.c and cgi-bin/getAuth.c, programs that answer a request.
--   Conn: ss/http_conn.hpp and ss/http_conn.cpp, one connection of a second server, in C++. The modules
--     below are named for what the code does: Reading from `Read` to `ParseContent`, Requests
--     `DoRequest` and `ProcessRead`, and Writing `ProcessWrite`, `Write` and `Process`. A method has
--     the name of the C++ one in lower case; the two methods `Init` are `init` and `reset`. Life follows
--     a connection through its events.
--   ThreadPool: ss/thread_pool.hpp, which hands connections to threads. A step is what a thread does
--     between two places where another may come in.
--   EventLoop: ss/main.cpp, the events of the connections, which it reads, hands to the pool and writes;
--     EventLoop/Start is its `main`.
--   Retry: ss/wrap.cpp, system calls that are tried again, `ReadN`, `WriteN` and `ReadLine`, and in
--     Retry/Calls those that end the program where they fail.
--   ProcessPool: ss/ww/process_pool.hpp, a parent that deals connections out to its children, which
--     are in ProcessPool/Children with both loops; ProcessPool/Start is `Run` and the `main` of
--     ss/ww/cgi_server.cpp. CgiConn: ss/ww/cgi_server.cpp, what a child does with a connection.
--   Tests: concrete machines and connections, and the theorems applied to them.
--
-- Numbers. Natural numbers stand for sizes and counts; conversions to `int` and the arithmetic of
-- addresses wrap explicitly. `atoi` is `strtol` converted to `int`, as in the GNU library. Arrays have their sizes: a text that does not fit is undefined
-- behaviour. MAXLINE is 8192.
--
-- Fuel. The loops of wrap.c, `getconfig` and the header loops take fuel. The theorems say how much
-- is enough: one round for each byte or line asked for, and one more than the signals to come for
-- each read. The header loops have no such bound where the connection ends early.
--
-- In the C++ code the loops of ParseLine, ProcessRead and ProcessNewConnInParent are given one round
-- for each byte, or each child, and a little more, and their theorems show that this is never spent.
-- `Write` is given as many rounds as its header has bytes, and each `MyRead` more than the signals to
-- come.
--
-- Processes. A process that `fork` makes is recorded by what it goes on to run. In `post_dynamic`
-- the child that copies the request's body into the pipe is run before its parent goes on. Where the
-- child's behaviour is undefined, it is recorded as such, the parent goes on, and what stands in the
-- pipe is a parameter of the machine.
--
-- A `sprintf` that prints an array in front of more text into the same array, which the C standard
-- leaves undefined and which all error pages are made with, counts as appending.
--
-- Not modelled: a config.ini that cannot be opened; the calls of `Process` that worker threads of the
-- C++ server make between two events of its loop; when the log is flushed; the HTTPS build; the addresses to which sockets are
-- bound; and the older copies of the server in doc/dir and
-- ss/cgi-bin. Descriptors are not counted, but for the connections that the accept loop holds and
-- those that `open_listenfd` and `open_clientfd` leave open.
pub mod Prelude
pub mod Outcome
pub mod Kernel
pub mod CString
pub mod Rio
pub mod Wrap
pub mod Config
pub mod Access
pub mod Log
pub mod Http
pub mod Startup
pub mod Server
pub mod Conn
pub mod ThreadPool
pub mod ProcessPool
pub mod CgiConn
pub mod EventLoop
pub mod Retry
pub mod PostAuth
pub mod GetAuth
pub mod Tests
