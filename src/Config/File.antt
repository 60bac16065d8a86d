-- ===== src/Config/File.antt =====
-- A well-formed config.ini against the list of its settings: `getconfig` finds the first.
use twebs.Prelude.{
  ℕ, zero, suc, ◌+◌, ◌<◌, ◌≡◌, ◌≢◌, refl, ap, ◌∙◌, sym, true, Option, none, some, Bytes, [], ◌∷◌,
  ◌++◌, List, length, drop, if◌then◌else◌, arith, append_assoc, length-append, drop-length_append,
  Bool-cases, inl, inr, ◌⊎◌,
}
use twebs.Outcome.{done, exited}
use twebs.CString.{isblank, isalpha, all, streq, all-append, all_mono, all-append_true}
use twebs.Rio.Lines.{first_line, within, first_line-append, line-ne-nil}
use twebs.Config.{
  LineResult, skip, found, read_line, fgets_line, fill, getconfig, getconfig_or_exit,
}
use twebs.Config.Line.{
  Entry, IsEntry, key, value_of, is_value, read_line_entry, read_line_comment, read_line_blank,
}

pub data Item : Type 0 where
  comment : Bytes → Bytes → Item
  blank : Bytes → Item
  setting : Entry → Item

-- A line without its newline.
abbrev pub text : Item → Bytes
text (comment indent t) = indent ++ b'#' ∷ t
text (blank indent) = indent
text (setting e) = e.indent ++ (key e ++ (e.gap ++ (b'=' ∷ (e.margin ++ (value_of e ++ e.tail)))))

abbrev pub render : List Item → Bytes
render [] = []
render (i ∷ is) = text i ++ b'\n' ∷ render is

abbrev pub IsItem : Item → Type 0
IsItem (comment indent t) = (all isblank indent ≡ true) × (all within t ≡ true)
IsItem (blank indent) = all isblank indent ≡ true
IsItem (setting e) = IsEntry e

-- Every line is well formed and fits `fgets` with its newline.
abbrev pub IsFile : List Item → Type 0
IsFile [] = Unit {0}
IsFile (i ∷ is) = IsItem i × (length (text i) < 254) × IsFile is

-- The value of the first setting of the name.
abbrev pub lookup : Bytes → List Item → Option Bytes
lookup name [] = none
lookup name (comment _ _ ∷ is) = lookup name is
lookup name (blank _ ∷ is) = lookup name is
lookup name (setting e ∷ is) = if streq (key e) name then some (value_of e) else lookup name is

text-within : (i : Item) → IsItem i → all within (text i) ≡ true
text-within (comment indent t) v = ground (
  arith,
  all-append within indent (b'#' ∷ t),
  all_mono isblank within indent (λ c h. ground arith) v.0,
  v.1,
)
text-within (blank indent) v = all_mono isblank within indent (λ c h. ground arith) v
text-within (setting e) v =
    let blanks = λ (bs : Bytes) (h : all isblank bs ≡ true).
      all_mono isblank within bs (λ c k. ground arith) h in
    join e.indent _ (blanks e.indent v.indent_blank) (
      join (key e) _ (all_mono isalpha within (key e) (λ c k. ground arith) v.key_alpha) (
        join e.gap _ (blanks e.gap v.gap_blank) (
          join (b'=' ∷ e.margin) _ (blanks e.margin v.margin_blank) (
            join (value_of e) e.tail
              (all_mono is_value within (value_of e) (λ c k. ground arith) v.value_solid)
              (blanks e.tail v.tail_blank)))))
  where
    join :
        (xs ys : Bytes) → all within xs ≡ true → all within ys ≡ true → all within (xs ++ ys) ≡ true
    join = all-append_true within

-- What the code makes of a line.
abbrev line_result : Bytes → Item → LineResult
line_result name (comment _ _) = skip
line_result name (blank _) = skip
line_result name (setting e) = if streq (key e) name then found (value_of e) else skip

read_line-text :
    (name : Bytes) (i : Item) (rest : Bytes)
    → name ≢ []
    → IsItem i
    → read_line name (text i ++ b'\n' ∷ rest) ≡ line_result name i
read_line-text name (comment indent t) rest n v =
    rw append_assoc (read_line_comment name indent (t ++ b'\n' ∷ rest) v.0)
read_line-text name (blank indent) rest n v = read_line_blank name indent rest n v
read_line-text name (setting e) rest n v =
    simp append_assoc (read_line_entry e v b'\n' rest refl name)

-- One round of the loop, by what the line says.
module _ (f : ℕ) (name tmp : Bytes) where
  getconfig_skip :
      (file : Bytes)
      → file ≢ []
      → read_line name (fill (fgets_line file) tmp) ≡ skip
      → getconfig (suc f) name file tmp
        ≡ getconfig f name (drop (length (fgets_line file)) file) (fill (fgets_line file) tmp)
  unfolding getconfig
  getconfig_skip [] n e = absurd (n refl)
  getconfig_skip (c ∷ cs) n e = ground arith

  getconfig_found :
      (file : Bytes) (w : Bytes)
      → file ≢ []
      → read_line name (fill (fgets_line file) tmp) ≡ found w
      → getconfig (suc f) name file tmp ≡ done (some w)
  unfolding getconfig
  getconfig_found [] w n e = absurd (n refl)
  getconfig_found (c ∷ cs) w n e = ground arith

module _ (f : ℕ) (name xs rest tmp : Bytes) (h : all within xs ≡ true) (l : length xs < 254) where
  abbrev filled : Bytes
  filled = xs ++ b'\n' ∷ 0 ∷ drop (length xs + 2) tmp

  taken : first_line 254 (xs ++ b'\n' ∷ rest) ≡ xs ++ b'\n' ∷ []
  taken = first_line-append 254 xs rest h l

  fill-taken : fill (xs ++ b'\n' ∷ []) tmp ≡ filled
  fill-taken = ground (
    arith,
    append_assoc xs (b'\n' ∷ []) (0 ∷ drop (length xs + 2) tmp),
    length-append xs (b'\n' ∷ []),
  )

  drop-taken : drop (length (xs ++ b'\n' ∷ [])) (xs ++ b'\n' ∷ rest) ≡ rest
  drop-taken = rw (← append_assoc xs (b'\n' ∷ []) rest) (drop-length_append (xs ++ b'\n' ∷ []) rest)

  getconfig-skip :
      read_line name filled ≡ skip
      → getconfig (suc f) name (xs ++ b'\n' ∷ rest) tmp ≡ getconfig f name rest filled
  getconfig-skip e =
      getconfig_skip f name tmp (xs ++ b'\n' ∷ rest) (line-ne-nil xs rest)
        (rw (taken, fill-taken) e)
      ∙ rw (taken, fill-taken, drop-taken)

  getconfig-found :
      (w : Bytes)
      → read_line name filled ≡ found w
      → getconfig (suc f) name (xs ++ b'\n' ∷ rest) tmp ≡ done (some w)
  getconfig-found w e =
      getconfig_found f name tmp (xs ++ b'\n' ∷ rest) w (line-ne-nil xs rest)
        (rw (taken, fill-taken) e)

lookup_cases :
    (name : Bytes) (i : Item) (is : List Item)
    → ((line_result name i ≡ skip) × (lookup name (i ∷ is) ≡ lookup name is))
      ⊎ ((w : Bytes) × (line_result name i ≡ found w) × (lookup name (i ∷ is) ≡ some w))
lookup_cases name (comment _ _) is = inl (refl, refl)
lookup_cases name (blank _) is = inl (refl, refl)
lookup_cases name (setting e) is = elim (Bool-cases (streq (key e) name)) [
  | inl y ↦ inr (value_of e, rw y, rw y)
  | inr y ↦ inl (rw y, rw y)
]

-- `getconfig` returns the value of the first setting of the name, and NULL where there is none,
-- for a file of well-formed lines and whatever `tmp` held. Fuel beyond the number of bytes is enough.
pub getconfig-lookup :
    (f : ℕ) (name : Bytes) (is : List Item) (tmp : Bytes)
    → name ≢ []
    → IsFile is
    → length (render is) < f
    → getconfig f name (render is) tmp ≡ done (lookup name is)
getconfig-lookup zero name is tmp n v h = absurd (omega arith)
getconfig-lookup (suc f) name [] tmp n v h = unfold getconfig in refl
getconfig-lookup (suc f) name (i ∷ is) tmp n v h =
    let read = read_line-text name i (0 ∷ drop (length (text i) + 2) tmp) n v.0 in
    let rest = filled f name (text i) (render is) tmp (text-within i v.0) v.1 in
    let later =
      getconfig-lookup f name is rest n v.2
        (omega (arith, length-append (text i) (b'\n' ∷ render is))) in
    elim (lookup_cases name i is) [
      | inl (e, l) ↦
          getconfig-skip f name (text i) (render is) tmp (text-within i v.0) v.1 (read ∙ e)
          ∙ later
          ∙ ap (λ o. done o) (sym l)
      | inr (w, e, l) ↦
          getconfig-found f name (text i) (render is) tmp (text-within i v.0) v.1 w (read ∙ e)
          ∙ ap (λ o. done o) (sym l)
    ]

-- `Getconfig` hands the value out, or ends the program with status 0.
pub getconfig_or_exit-lookup :
    (f : ℕ) (name : Bytes) (is : List Item) (tmp : Bytes)
    → name ≢ []
    → IsFile is
    → length (render is) < f
    → getconfig_or_exit f name (render is) tmp
      ≡ elim (lookup name is) [ some v ↦ done v | none ↦ exited 0 ]
unfolding getconfig_or_exit
getconfig_or_exit-lookup f name is tmp n v h = ground (arith, getconfig-lookup f name is tmp n v h)
