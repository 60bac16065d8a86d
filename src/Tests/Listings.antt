-- ===== src/Tests/Listings.antt =====
-- The listing of a directory with one file, and the reply that the table has for it.
use twebs.Prelude.{◌<◌, refl, true, false, Bytes, [], ◌∷◌, ◌++◌, codes, some, length, arith}
use twebs.CString.{print_nat, print_int}
use twebs.Log.{stamp}
use twebs.Http.{Host, Stat, regular, directory}
use twebs.Http.Directory.{row}
use twebs.Http.Directory.Listing.{row_of, Rows, no_more, hidden, shown, whole_page}
use twebs.Tests.{site, items, items-IsFile}
use twebs.Outcome.{exited}
use twebs.Http.Uri.{Parsed}
use twebs.Http.Doit.Contract.{Request, Promised, listing, below_root, file_header}

abbrev file_status : Stat
file_status = record {
  file_type = regular;
  user_read = true;
  user_exec = false;
  st_size = 12;
  st_uid = 0;
  st_mtime = 0;
}

abbrev folder_status : Stat
folder_status = record {
  file_type = directory;
  user_read = true;
  user_exec = true;
  st_size = 0;
  st_uid = 0;
  st_mtime = 0;
}

abbrev folder_file : Parsed
folder_file = record { is_static = true; filename = codes "/www/d"; cgi_args = [] }

abbrev folder : Host
folder = record site {
  is_show_dir = true;
  lstat = λ f. some folder_status;
  stat = λ f. some file_status;
  entries = λ d. some (codes "." ∷ codes "a" ∷ []);
  getpwuid = λ u. some (codes "root");
}

abbrev file_row : Bytes
file_row = row_of folder (codes "d/") (codes "a") file_status (codes "root") ++ []

folder-Rows : Rows folder (codes "/www/d") (codes "d/") (codes "." ∷ codes "a" ∷ []) file_row
folder-Rows =
    hidden refl (
      shown refl (record { path_fits = omega arith; stat_found = refl; owner_found = refl })
        no_more)

page_short : length (whole_page file_row) < 8192
unfolding row stamp print_nat print_int
page_short = omega arith

abbrev asks_folder : Request
asks_folder = record {
  method = codes "GET";
  uri = codes "/d";
  version = codes "HTTP/1.0\r";
  rest = codes "Host: x\r\n\r\n";
}

-- The table has the listing for a request for the folder.
folder-Promised : Promised folder asks_folder (record {
  outcome = exited 0;
  sends = file_header (length (whole_page file_row)) (codes "text/html") ++ whole_page file_row;
  leaves = asks_folder.rest;
  logs = [];
  spawns = [];
})
folder-Promised =
    listing {p = folder_file} {status = folder_status} {slash = codes "/d"}
      (record {
        known = refl;
        names = below_root items (codes "/") b'd' refl items-IsFile refl refl (omega arith);
        found = refl;
      })
      refl refl (omega arith) refl folder-Rows page_short
