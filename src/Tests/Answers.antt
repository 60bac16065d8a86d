-- ===== src/Tests/Answers.antt =====
-- The page asked for on a machine that meets all bounds.
use twebs.Prelude.{
  ℕ, ◌≡◌, ◌≢◌, refl, Bytes, [], codes, length, arith, pos, inl, inr, Bool-cases, some,
}
use twebs.Outcome.{running}
use twebs.CString.{streq}
use twebs.Kernel.Script.{script, script_ghost, script-IsReliable}
use twebs.Http.{Stat}
use twebs.Http.Doit.{doit}
use twebs.Http.Doit.Request.{Served}
use twebs.Http.Doit.Contract.{Reply, Promised}
use twebs.Http.Doit.Total.{IsSite}
use twebs.Http.Doit.Answers.{IsServable, doit_answers}
use twebs.Tests.{zeros-length, site, items, items-IsFile}
use twebs.Tests.Requests.{host_line, others, page_request}
use twebs.Tests.Sessions.{asks_page, asks_page-IsRequest, page-Headed}

page-IsSite : IsSite site asks_page.uri
page-IsSite = record {
  items = items;
  root = codes "/www";
  config_is = refl;
  well_formed = items-IsFile;
  root_found = refl;
  root_short = omega arith;
  cwd_short = omega arith;
}

site_small : (f : Bytes) (status : Stat) → site.lstat f ≡ some status → status.st_size ≡ 12
site_small f status e = elim (Bool-cases (streq f (codes "/www/a.html"))) [
  | inl y ↦ ground (arith, rw y at e)
  | inr n ↦ elim (Bool-cases (streq f (codes "/www/key"))) [
    | inl y ↦ ground (arith, rw (n, y) at e)
    | inr m ↦ elim (Bool-cases (streq f (codes "/srv/cig-bin/add"))) [
      | inl y ↦ ground (arith, rw (n, m, y) at e)
      | inr o ↦ absurd (ground (arith, rw (n, m, o) at e))
    ]
  ]
]

site_page : (f c : Bytes) (n : ℕ) → site.open_mapped f (pos n) ≡ some c → length c ≡ 12
site_page f c n e = elim (Bool-cases (streq f (codes "/www/a.html"))) [
  | inl y ↦ ground (arith, rw y at e)
  | inr m ↦ absurd (ground (arith, rw m at e))
]

page-IsServable : IsServable site asks_page 12
page-IsServable = record {
  site = page-IsSite;
  method_short = omega arith;
  unlisted = refl;
  first = host_line;
  ls = others;
  body = [];
  headed = page-Headed;
  small = λ f status e. omega (arith, site_small f status e);
  mapped = λ f status c e o.
      let a = site_small f status e in
      let b = site_page f c status.st_size o in (omega (arith, a, b), omega (arith, b));
}

doit_answers_example :
    (a : Reply) × Promised site asks_page a
    × ((doit script 20_000 site page_request).0 ≡ a.outcome)
    × Served script_ghost a.sends a.leaves a.logs a.spawns page_request
        (doit script 20_000 site page_request).1
    × ((doit script 20_000 site page_request).0 ≢ running)
doit_answers_example =
    doit_answers script-IsReliable 20_000 site asks_page page_request asks_page-IsRequest
      zeros-length refl 12 page-IsServable (omega arith)
