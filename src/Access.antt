-- ===== src/Access.antt =====
-- secure_access.c: whether a client's address may use the server. The configured text is
-- `address/mask`; an `int` is held as its 32-bit pattern and a `long long` as its 64-bit pattern.
pub mod Bits
pub mod Octets
pub mod Check
pub mod Partial
use Prim.Native.Nat.{bit_and}
use twebs.Prelude.{
  ℕ, zero, suc, ◌+◌, ◌-◌, ◌*◌, ◌%◌, ◌^◌, Bool, true, false, not, Option, none, some, Bytes, [], ◌∷◌,
  ◌++◌, length, drop, ◌==◌, ltb, leb, if◌then◌else◌, ℤ, pos, negsuc, codes,
}
use twebs.Outcome.{Outcome, done, stopped, fault}
use twebs.CString.{atoi, strchr, take_while, drop_while}
use twebs.Config.{getconfig_or_exit}

-- The pattern of an `int`; sums and shifts wrap.
abbrev pub int_bits : ℤ → ℕ
int_bits (pos n) = n % 2 ^ 32
int_bits (negsuc n) = 2 ^ 32 - 1 - n % 2 ^ 32

-- the conversion of an `int` to `long long`
abbrev pub sign_extend : ℕ → ℕ
sign_extend x = if ltb x (2 ^ 31) then x else (2 ^ 32 - 1) * 2 ^ 32 + x

-- `p = strchr(p, '.') + 1`; the result of `strchr` is not tested.
abbrev next_part : Bytes → (Bytes → Outcome ℕ) → Outcome ℕ
next_part p k = elim (strchr b'.' p) [ none ↦ fault | some dot ↦ k (drop 1 dot) ]

-- The steps of `ipadd_to_longlong`, from the last part back to the whole text.
abbrev sum_parts : ℕ → ℕ → ℕ → Bytes → Outcome ℕ
sum_parts qian bai shi p =
    let ge = int_bits (atoi p) in
    done (sign_extend ((qian * 2 ^ 24 + bai * 2 ^ 16 + shi * 2 ^ 8 + ge) % 2 ^ 32))

abbrev from_shi : ℕ → ℕ → Bytes → Outcome ℕ
from_shi qian bai p = next_part p (sum_parts qian bai (int_bits (atoi p)))

abbrev from_bai : ℕ → Bytes → Outcome ℕ
from_bai qian p = next_part p (from_shi qian (int_bits (atoi p)))

unfoldable pub ipadd_to_longlong : Bytes → Outcome ℕ
ipadd_to_longlong ip = next_part ip (from_bai (int_bits (atoi ip)))

-- how often `++count` runs over a text
abbrev pub count_dots : Bytes → ℕ
count_dots [] = 0
count_dots (c ∷ cs) = if c == b'.' then suc (count_dots cs) else count_dots cs

-- `while (count < 3)`: a missing part is zero.
abbrev pub pad : ℕ → Bytes
pad zero = []
pad (suc missing) = b'.' ∷ b'0' ∷ pad missing

-- The comparison at the end of `access_ornot`.
abbrev compare_with : Outcome ℕ → Outcome ℕ → Outcome ℕ → Outcome Bool
compare_with (done ip) (done mask) (done dest) = done (ip == bit_and mask dest)
compare_with _ _ _ = fault

-- `*p != '/'`
abbrev pub no_slash : ℕ → Bool
no_slash c = not (c == b'/')

-- The address in front of the slash, and what stands from the slash on. Both arrays hold 16
-- bytes, and `count` is not set back to zero between them.
unfoldable pub compare_parts : Bytes → Bytes → Bytes → Outcome Bool
compare_parts address [] destip = fault
compare_parts address (slash ∷ mask) destip =
    let count = count_dots address in
    let ipinfo = address ++ pad (3 - count) in
    let count' = count + (3 - count) + count_dots mask in
    let maskinfo = mask ++ pad (3 - count') in
    if leb 16 (length ipinfo)
    then fault
    else if leb 16 (length maskinfo)
    then fault
    else compare_with (ipadd_to_longlong (ipinfo ++ 0 ∷ []))
        (ipadd_to_longlong (maskinfo ++ 0 ∷ [])) (ipadd_to_longlong (destip ++ 0 ∷ []))

-- `access_ornot` on the text of `mask`: the copy up to the slash runs on without one. The test
-- `maskget == ""` compares pointers and never holds.
unfoldable pub check_mask : Bytes → Bytes → Outcome Bool
check_mask maskget destip =
    compare_parts (take_while no_slash maskget) (drop_while no_slash maskget) destip

unfoldable pub access_ornot : ℕ → Bytes → Bytes → Bytes → Outcome Bool
access_ornot f file tmp destip = elim (getconfig_or_exit f (codes "mask") file tmp) [
  | done maskget ↦ check_mask maskget destip
  | stopped e ↦ stopped e
]
