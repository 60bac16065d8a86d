-- ===== src/Log.antt =====
-- log.c: the time that is written to the log and into listings. What `localtime` and `strftime` give
-- is a parameter, `Date`: the texts for "%Y", "%b" and "%d %H:%M:%S".
use twebs.Prelude.{ℕ, ◌+◌, ◌≡◌, refl, Bytes, List, [], ◌∷◌, ◌++◌, codes, ◌==◌, if◌then◌else◌}
use twebs.CString.{streq, print_nat}

pub record Date : Type 0 where
  pub year : Bytes
  pub month_name : Bytes
  pub other : Bytes

abbrev pub months : List Bytes
months =
    codes "Jan"
    ∷ codes "Feb"
    ∷ codes "Mar"
    ∷ codes "Apr"
    ∷ codes "May"
    ∷ codes "Jun"
    ∷ codes "Jul"
    ∷ codes "Aug"
    ∷ codes "Sept"
    ∷ codes "Oct"
    ∷ codes "Nov"
    ∷ codes "Dec"
    ∷ []

-- The loop of `getmonth`, from the index `i` on.
abbrev pub month_from : ℕ → List Bytes → Bytes → ℕ
month_from i [] buf = 0
month_from i (name ∷ names) buf = if streq buf name then i + 1 else month_from (i + 1) names buf

abbrev pub getmonth : Bytes → ℕ
getmonth buf = month_from 0 months buf

-- What `writetime` writes and `timeModify` stores.
unfoldable pub stamp : Date → Bytes
stamp d =
    d.year
    ++ (codes "/"
        ++ (print_nat (getmonth d.month_name) ++ (codes "/" ++ (d.other ++ codes "\r\n"))))

-- The names of the months that "%b" gives in the C locale.
pub data IsMonth : ℕ → Bytes → Type 0 where
  jan : IsMonth 1 (codes "Jan")
  feb : IsMonth 2 (codes "Feb")
  mar : IsMonth 3 (codes "Mar")
  apr : IsMonth 4 (codes "Apr")
  may : IsMonth 5 (codes "May")
  jun : IsMonth 6 (codes "Jun")
  jul : IsMonth 7 (codes "Jul")
  aug : IsMonth 8 (codes "Aug")
  sep : IsMonth 9 (codes "Sep")
  oct : IsMonth 10 (codes "Oct")
  nov : IsMonth 11 (codes "Nov")
  dec : IsMonth 12 (codes "Dec")

-- `getmonth` gives every month its number, but September the number 0, for the table says "Sept".
pub getmonth-IsMonth :
    {n : ℕ} {name : Bytes} → IsMonth n name → getmonth name ≡ (if n == 9 then 0 else n)
getmonth-IsMonth jan = refl
getmonth-IsMonth feb = refl
getmonth-IsMonth mar = refl
getmonth-IsMonth apr = refl
getmonth-IsMonth may = refl
getmonth-IsMonth jun = refl
getmonth-IsMonth jul = refl
getmonth-IsMonth aug = refl
getmonth-IsMonth sep = refl
getmonth-IsMonth oct = refl
getmonth-IsMonth nov = refl
getmonth-IsMonth dec = refl
