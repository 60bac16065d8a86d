-- ===== src/Http/Directory.antt =====
-- http_main.c: `serve_dir`, the listing of a directory.
pub mod Listing
use twebs.Prelude.{
  ℕ, ◌-◌, ◌||◌, none, some, Bytes, List, [], ◌∷◌, ◌++◌, length, drop, replicate, codes,
  if◌then◌else◌, to_int,
}
use twebs.Outcome.{exited, fault}
use twebs.Log.{stamp}
use twebs.Kernel.{Kernel}
use twebs.CString.{print_nat, print_int, streq, strrchr}
use twebs.Http.{
  Host, M, ◌>>=◌, ◌>>◌, pure, stop, sprintf, write_all, FileType, regular, directory, fifo, link,
  socket, other,
}

-- `%-15s` and `%10d` of `sprintf`
abbrev pub pad_right : ℕ → Bytes → Bytes
pad_right width s = s ++ replicate (width - length s) b' '

abbrev pub pad_left : ℕ → Bytes → Bytes
pad_left width s = replicate (width - length s) b' ' ++ s

abbrev image : Bytes → Bytes
image name = codes "<img src=" ++ (name ++ codes " width=24px height=24px>")

abbrev pub img_of : FileType → Bytes
img_of directory = image (codes "dir.png")
img_of fifo = image (codes "fifo.png")
img_of link = image (codes "link.png")
img_of socket = image (codes "sock.png")
img_of regular = image (codes "file.png")
img_of other = image (codes "file.png")

-- One row: the number, the image, the link with its text, the owner, the size and the time.
unfoldable pub row : Bytes → Bytes → Bytes → Bytes → ℕ → Bytes → Bytes → Bytes
row img dir_name name owner num size time =
    codes "<p><pre>"
    ++ (pad_right 2 (print_nat num)
        ++ (codes " "
            ++ (img
                ++ (codes " <a href="
                    ++ (dir_name
                        ++ (name
                            ++ (codes ">"
                                ++ (pad_right 15 name
                                    ++ (codes "</a>"
                                        ++ (pad_right 10 owner
                                            ++ (pad_left 10 size
                                                ++ (codes " "
                                                    ++ (pad_left 24 time
                                                        ++ codes "</pre></p>\r\n")))))))))))))

-- The line break of the second text is a line of the source that a backslash continues.
abbrev pub page_head : Bytes
page_head =
    codes "<html><title>Dir Browser</title>"
    ++ (codes "<style type=text/css> a:link{text-decoration:none;}             </style>"
        ++ codes
            "<body bgcolor=ffffff font-family=Arial color=#fff             font-size=14px>\r\n")

abbrev pub page_end : Bytes
page_end = codes "</body></html>"

unfoldable pub dir_header : ℕ → Bytes
dir_header n =
    codes "HTTP/1.0 200 OK\r\nServer: Tiny Web Server\r\n"
    ++ (codes "Content-Length: " ++ (print_nat n ++ codes "\r\nContent-Type: text/html\r\n\r\n"))

module _ {S : Type 0} (k : Kernel S) (fuel : ℕ) (h : Host) where
  -- The body of the loop for one name. `num` starts at 1 in every round.
  unfoldable pub add_entry : Bytes → Bytes → Bytes → Bytes → M S Bytes
  unfolding row
  add_entry filename dir_name files name = do
    path ← sprintf (filename ++ (codes "/" ++ name))
    elim (h.stat path) [
      | none ↦ stop (exited 0)
      | some status ↦ elim (h.getpwuid status.st_uid) [
        | none ↦ stop fault
        | some owner ↦ sprintf (
            files
            ++ row (img_of status.file_type) dir_name name owner 2
                (print_int (to_int status.st_size)) (stamp (h.localtime status.st_mtime)))
      ]
    ]

  -- The loop over `readdir`.
  unfoldable pub add_entries : Bytes → Bytes → Bytes → List Bytes → M S Bytes
  add_entries filename dir_name files [] = pure files
  add_entries filename dir_name files (name ∷ names) =
      if streq name (codes ".") || streq name (codes "..")
      then add_entries filename dir_name files names
      else (do
        files' ← add_entry filename dir_name files name
        add_entries filename dir_name files' names)

  unfoldable pub send_listing : Bytes → M S (Unit {0})
  send_listing files = do
    write_all k fuel (dir_header (length files))
    write_all k fuel files
    stop (exited 0)

  -- `serve_dir` does not return.
  unfoldable pub serve_dir : Bytes → M S (Unit {0})
  unfolding send_listing
  serve_dir filename = elim (strrchr b'/' filename) [
    | none ↦ stop fault
    | some slash ↦ do
      dir_name ← sprintf (drop 1 slash ++ codes "/")
      elim (h.entries filename) [
        | none ↦ stop fault
        | some names ↦ do
          files ← add_entries filename dir_name page_head names
          page ← sprintf (files ++ page_end)
          send_listing page
      ]
  ]
