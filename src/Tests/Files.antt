-- ===== src/Tests/Files.antt =====
-- The configuration, the options, the check of addresses, and the names of files, on small inputs.
use twebs.Prelude.{
  ℕ, ◌≡◌, ◌↔◌, refl, true, false, [], ◌∷◌, codes, some, none, length, arith, pos, ◌≤◌, ◌<◌,
}
use twebs.Outcome.{done, fault}
use twebs.CString.{atoi, isdigit, all}
use twebs.Config.{getconfig}
use twebs.Config.File.{render, getconfig-lookup}
use twebs.Access.{check_mask, access_ornot}
use twebs.Access.Octets.{Octet, Address, IsAddress, Fits, octet, digits, IsOctet}
use twebs.Access.Partial.{check_mask_few, access_ornot-Fits}
use twebs.Startup.{port_opt, Options, startup}
use twebs.Startup.Choices.{startup_lem}
use twebs.Http.Uri.{Parsed, get_filetype}
use twebs.Http.Uri.Laws.{get_filetype-MediaType, is_gif, strstr-not_Occurs}
use twebs.Tests.{items, items-IsFile}

getconfig_example : getconfig 200 (codes "root") (render items) [] ≡ done (some (codes "/www"))
getconfig_example =
    getconfig-lookup 200 (codes "root") items [] (ground arith) items-IsFile (omega arith)

abbrev plain_octet : ℕ → Octet
plain_octet d = record { head = d; tail = [] }

abbrev ten_zero : Address
ten_zero = record {
  a = record { head = b'1'; tail = codes "0" };
  b = plain_octet b'0';
  c = plain_octet b'0';
  d = plain_octet b'0';
}

abbrev first_byte : Address
first_byte = record {
  a = record { head = b'2'; tail = codes "55" };
  b = plain_octet b'0';
  c = plain_octet b'0';
  d = plain_octet b'0';
}

abbrev guest : Address
guest = record {
  a = record { head = b'1'; tail = codes "0" };
  b = plain_octet b'1';
  c = plain_octet b'2';
  d = plain_octet b'3';
}

octet-IsOctet :
    {o : Octet}
    → isdigit o.head ≡ true
    → all isdigit o.tail ≡ true
    → length (digits o) ≤ 3
    → octet o < 256
    → IsOctet o
octet-IsOctet h t l n = record { head_digit = h; tail_digits = t; short = l; small = n }

ten_zero-IsAddress : IsAddress ten_zero
ten_zero-IsAddress = record {
  a_octet = octet-IsOctet refl refl (omega arith) (omega arith);
  b_octet = octet-IsOctet refl refl (omega arith) (omega arith);
  c_octet = octet-IsOctet refl refl (omega arith) (omega arith);
  d_octet = octet-IsOctet refl refl (omega arith) (omega arith);
}

first_byte-IsAddress : IsAddress first_byte
first_byte-IsAddress = record {
  a_octet = octet-IsOctet refl refl (omega arith) (omega arith);
  b_octet = octet-IsOctet refl refl (omega arith) (omega arith);
  c_octet = octet-IsOctet refl refl (omega arith) (omega arith);
  d_octet = octet-IsOctet refl refl (omega arith) (omega arith);
}

guest-IsAddress : IsAddress guest
guest-IsAddress = record {
  a_octet = octet-IsOctet refl refl (omega arith) (omega arith);
  b_octet = octet-IsOctet refl refl (omega arith) (omega arith);
  c_octet = octet-IsOctet refl refl (omega arith) (omega arith);
  d_octet = octet-IsOctet refl refl (omega arith) (omega arith);
}

access_ornot_example :
    (access_ornot 200 (render items) [] (codes "10.1.2.3") ≡ done true)
    ↔ Fits ten_zero first_byte guest
access_ornot_example =
    access_ornot-Fits 200 items [] ten_zero first_byte guest items-IsFile (omega arith) refl
      ten_zero-IsAddress first_byte-IsAddress guest-IsAddress

check_mask_few_example : check_mask (codes "192.168.1/255.255.255") (codes "192.168.1.7") ≡ fault
check_mask_few_example =
    check_mask_few (codes "192.168.1") (codes "255.255.255") (codes "192.168.1.7") refl
      (omega arith)

abbrev no_options : Options
no_options = record { is_daemon = false; port_ptr = none; log_ptr = none }

startup_example :
    startup 200 (render items) [] (codes "/srv") false (port_opt (codes "80") ∷ [])
    ≡ done (record {
      port = pos 80;
      log_path = codes "/srv/a.log";
      is_show_dir = false;
      daemon = false;
    })
unfolding atoi
startup_example =
    startup_lem 200 items [] (codes "/srv") false (port_opt (codes "80") ∷ []) (codes "80")
      (codes "a.log") (codes "no") (codes "no") items-IsFile (omega arith) refl refl refl refl refl
      (omega arith)

abbrev lost : Parsed
lost = record { is_static = true; filename = codes "/www/cgi-bin/add"; cgi_args = [] }

get_filetype-MediaType_example : get_filetype (codes "a.gif.png") ≡ codes "image/gif"
get_filetype-MediaType_example = get_filetype-MediaType (codes "a.gif.png") (
    is_gif (strstr-not_Occurs (codes "a.gif.png") (codes ".html") refl)
      (record { before = codes "a"; after = codes ".png"; at = refl }))
