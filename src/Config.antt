-- ===== src/Config.antt =====
-- parse_config.c: `getconfig` looks a name up in config.ini, line by line. The file is the list of
-- its bytes; `tmp` is the array that `fgets` fills, with whatever it held before.
pub mod Line
pub mod File
use twebs.Prelude.{
  ℕ, zero, suc, ◌+◌, ◌-◌, Bool, true, false, not, ◌&&◌, Option, none, some, Bytes, [], ◌∷◌, ◌++◌,
  length, take, drop, ◌==◌, leb, if◌then◌else◌,
}
use twebs.Outcome.{Outcome, done, stopped, exited, fault, running}
use twebs.CString.{isblank, isalpha, take_while, drop_while, cstr, streq, strchr}
use twebs.Rio.Lines.{first_line}

-- What one line of the file says of the name that is looked for. `bad` is a line on which the
-- code leaves its arrays: a name or a value of 64 bytes or more, no `=`, or no end of the value.
pub data LineResult : Type 0 where
  skip : LineResult
  found : Bytes → LineResult
  bad : LineResult

-- `!isblank(*start) && *start != '\n'`
abbrev pub in_value : ℕ → Bool
in_value c = not (isblank c) && not (c == b'\n')

-- From `bs` on: the value is copied to `back`, and its string to `info`.
unfoldable pub copy_value : Bytes → LineResult
copy_value bs =
    let back = take_while in_value bs in
    if length back == length bs
    then bad
    else if leb 64 (length back)
    then bad
    else found (cstr back)

-- Behind a name that fits: `equal` is where `strchr` found the `=`.
unfoldable pub value_after : Option Bytes → LineResult
unfolding copy_value
value_after none = bad
value_after (some equal) = copy_value (drop_while isblank (drop 1 equal))

unfoldable pub after_name : Bytes → Bytes → Bytes → LineResult
unfolding value_after
after_name name tmp fs =
    let fore = take_while isalpha fs in
    if leb 64 (length fore)
    then bad
    else if streq fore name
    then value_after (strchr b'=' tmp)
    else skip

-- The body of the loop, on the array.
unfoldable pub read_line : Bytes → Bytes → LineResult
unfolding after_name
read_line name tmp =
    let fs = drop_while isblank tmp in
    elim fs [
      | [] ↦ after_name name tmp []
      | c ∷ cs ↦ if c == b'#' then skip else after_name name tmp (c ∷ cs)
    ]

-- `fgets(tmp, 255, fp)`: at most 254 bytes, and a zero byte behind them.
abbrev pub fgets_line : Bytes → Bytes
fgets_line file = first_line 254 file

abbrev pub fill : Bytes → Bytes → Bytes
fill got tmp = got ++ 0 ∷ drop (length got + 1) tmp

-- `getconfig`: `none` is NULL.
unfoldable pub getconfig : ℕ → Bytes → Bytes → Bytes → Outcome (Option Bytes)
getconfig zero name file tmp = running
getconfig (suc f) name [] tmp = done none
getconfig (suc f) name (c ∷ cs) tmp =
    let got = fgets_line (c ∷ cs) in
    let rest = getconfig f name (drop (length got) (c ∷ cs)) (fill got tmp) in
    elim (read_line name (fill got tmp)) [ skip ↦ rest | found v ↦ done (some v) | bad ↦ fault ]

-- `Getconfig` ends the program with status 0 if the name is not there.
unfoldable pub getconfig_or_exit : ℕ → Bytes → Bytes → Bytes → Outcome Bytes
unfolding getconfig
getconfig_or_exit f name file tmp = elim (getconfig f name file tmp) [
  | done (some v) ↦ done v
  | done none ↦ exited 0
  | stopped e ↦ stopped e
]
