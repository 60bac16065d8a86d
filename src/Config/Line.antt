-- ===== src/Config/Line.antt =====
-- What `read_line` makes of the lines of a well-formed config.ini.
use twebs.Prelude.{
  ℕ, ◌<◌, ◌≡◌, ◌≢◌, refl, ◌∙◌, Bool, true, false, not, ◌&&◌, some, Bytes, [], ◌∷◌, ◌++◌, length,
  ◌==◌, if◌then◌else◌, arith, append_assoc, length-append,
}
use twebs.CString.{
  isblank, isalpha, all, take_while, drop_while, cstr, streq, strchr, take_while-append,
  drop_while-append, strchr-append, take_while-all, all-append, all_mono, not_in_strchr, streq_iff,
}
use twebs.Config.{skip, found, in_value, copy_value, value_after, after_name, read_line}

-- `indent key gap = margin value tail`
pub record Entry : Type 0 where
  pub indent : Bytes
  pub key_head : ℕ
  pub key_tail : Bytes
  pub gap : Bytes
  pub margin : Bytes
  pub value_head : ℕ
  pub value_tail : Bytes
  pub tail : Bytes

abbrev pub key : Entry → Bytes
key e = e.key_head ∷ e.key_tail

abbrev pub value_of : Entry → Bytes
value_of e = e.value_head ∷ e.value_tail

-- The line without its newline, with what follows it.
abbrev pub entry_text : Entry → Bytes → Bytes
entry_text e rest =
    e.indent ++ (key e ++ (e.gap ++ (b'=' ∷ (e.margin ++ (value_of e ++ (e.tail ++ rest))))))

-- bytes of a value: no blank, no newline and no zero byte
abbrev pub is_value : ℕ → Bool
is_value c = in_value c && not (c == 0)

pub record IsEntry (e : Entry) : Type 0 where
  pub indent_blank : all isblank e.indent ≡ true
  pub key_alpha : all isalpha (key e) ≡ true
  pub key_short : length (key e) < 64
  pub gap_blank : all isblank e.gap ≡ true
  pub margin_blank : all isblank e.margin ≡ true
  pub value_solid : all is_value (value_of e) ≡ true
  pub value_short : length (value_of e) < 64
  pub tail_blank : all isblank e.tail ≡ true

-- A walk over `xs` is stopped by blanks, or by what stands behind them.
take_while_blanks :
    (p : ℕ → Bool) (xs bs : Bytes) (c : ℕ) (rest : Bytes)
    → all p xs ≡ true
    → ((b : ℕ) → isblank b ≡ true → p b ≡ false)
    → all isblank bs ≡ true
    → p c ≡ false
    → take_while p (xs ++ (bs ++ c ∷ rest)) ≡ xs
take_while_blanks p xs [] c rest h n hb e = take_while-append p xs c rest h e
take_while_blanks p xs (b ∷ bs) c rest h n hb e =
    take_while-append p xs b (bs ++ c ∷ rest) h (n b (ground arith))

read_line_at :
    (name tmp : Bytes) (c : ℕ) (cs : Bytes)
    → drop_while isblank tmp ≡ c ∷ cs
    → c ≢ b'#'
    → read_line name tmp ≡ after_name name tmp (c ∷ cs)
unfolding read_line
read_line_at name tmp c cs e h = ground arith

nameless : (name tmp rest : Bytes) → name ≢ [] → after_name name tmp (b'\n' ∷ rest) ≡ skip
unfolding after_name
nameless name tmp rest n = ground (arith, streq_iff [] name)

module _ (e : Entry) (v : IsEntry e) (end : ℕ) (rest : Bytes) (stops : in_value end ≡ false) where
  abbrev behind : Bytes
  behind = value_of e ++ (e.tail ++ end ∷ rest)

  back-value : take_while in_value behind ≡ value_of e
  back-value =
      take_while_blanks in_value (value_of e) e.tail end rest
        (all_mono is_value in_value (value_of e) (λ c h. ground arith) v.value_solid)
        (λ b h. ground arith) v.tail_blank stops

  cstr-value : cstr (value_of e) ≡ value_of e
  cstr-value =
      take_while-all (λ c. not (c == 0)) (value_of e)
        (all_mono is_value (λ c. not (c == 0)) (value_of e) (λ c h. ground arith) v.value_solid)

  copy_value_lem : copy_value behind ≡ found (value_of e)
  unfolding copy_value
  copy_value_lem = rw back-value (
      ground (
        arith,
        cstr-value,
        v.value_short,
        length-append (value_of e) (e.tail ++ end ∷ rest),
        length-append e.tail (end ∷ rest),
      ))

  value_after_lem : value_after (some (b'=' ∷ (e.margin ++ behind))) ≡ found (value_of e)
  unfolding value_after
  value_after_lem =
      rw
        (drop_while-append isblank e.margin e.value_head (e.value_tail ++ (e.tail ++ end ∷ rest))
          v.margin_blank (ground (arith, v.value_solid)))
        copy_value_lem

  abbrev from_key : Bytes
  from_key = key e ++ (e.gap ++ (b'=' ∷ (e.margin ++ behind)))

  fore-key : take_while isalpha from_key ≡ key e
  fore-key =
      take_while_blanks isalpha (key e) e.gap b'=' (e.margin ++ behind) v.key_alpha
        (λ b h. ground arith) v.gap_blank refl

  no_equal : all (not_in_strchr b'=') (e.indent ++ (key e ++ e.gap)) ≡ true
  no_equal = ground (
    arith,
    all-append (not_in_strchr b'=') e.indent (key e ++ e.gap),
    all-append (not_in_strchr b'=') (key e) e.gap,
    all_mono isblank (not_in_strchr b'=') e.indent (λ c h. ground arith) v.indent_blank,
    all_mono isalpha (not_in_strchr b'=') (key e) (λ c h. ground arith) v.key_alpha,
    all_mono isblank (not_in_strchr b'=') e.gap (λ c h. ground arith) v.gap_blank,
  )

  equal_found : strchr b'=' (e.indent ++ from_key) ≡ some (b'=' ∷ (e.margin ++ behind))
  equal_found =
      let e' : e.indent ++ from_key
          ≡ (e.indent ++ (key e ++ e.gap)) ++ b'=' ∷ (e.margin ++ behind) =
        simp append_assoc in
      rw e' (strchr-append b'=' (e.indent ++ (key e ++ e.gap)) (e.margin ++ behind) no_equal)

  after_name_lem :
      (name : Bytes)
      → after_name name (e.indent ++ from_key) from_key
        ≡ (if streq (key e) name then found (value_of e) else skip)
  unfolding after_name
  after_name_lem name = rw (fore-key, equal_found, value_after_lem) (ground (arith, v.key_short))

  -- A line that sets a name gives its value to those who look for that name.
  pub read_line_entry :
      (name : Bytes)
      → read_line name (e.indent ++ from_key)
        ≡ (if streq (key e) name then found (value_of e) else skip)
  read_line_entry name =
      read_line_at name (e.indent ++ from_key) e.key_head _
        (drop_while-append isblank e.indent e.key_head _ v.indent_blank
          (ground (arith, v.key_alpha)))
        (ground (arith, v.key_alpha))
      ∙ after_name_lem name

-- A comment is passed over.
pub read_line_comment :
    (name indent text : Bytes)
    → all isblank indent ≡ true
    → read_line name (indent ++ b'#' ∷ text) ≡ skip
unfolding read_line
read_line_comment name indent text h = ground (arith, drop_while-append isblank indent b'#' text h)

-- So is a line of blanks, by those who look for a name that is not empty.
pub read_line_blank :
    (name indent rest : Bytes)
    → name ≢ []
    → all isblank indent ≡ true
    → read_line name (indent ++ b'\n' ∷ rest) ≡ skip
read_line_blank name indent rest n h =
    read_line_at name (indent ++ b'\n' ∷ rest) b'\n' rest
      (drop_while-append isblank indent b'\n' rest h refl) (omega arith)
    ∙ nameless name (indent ++ b'\n' ∷ rest) rest n
