-- ===== src/CString/Decimal.antt =====
-- `atoi`, and `%d` and `%lu` of `sprintf`.
use twebs.Prelude.{
  ℕ, zero, suc, ◌+◌, ◌-◌, ◌*◌, ◌/◌, ◌%◌, ◌≡◌, refl, ◌≢◌, ◌≤◌, ◌<◌, true, false, Bytes, [], ◌∷◌,
  ◌++◌, ◌==◌, ap, Bool-cases, inl, inr, ◌∙◌, ltb, if◌then◌else◌, ℤ, pos, negsuc, neg, arith, ◌^◌,
  length, length-append, as_int,
}
use twebs.CString.Span.{isdigit, isspace, take_while, drop_while, all, take_while-append}
use native.Mathlib.Nat.{pow-suc}

-- the number that a run of digits stands for, behind those read already
abbrev pub value_from : ℕ → Bytes → ℕ
value_from acc [] = acc
value_from acc (c ∷ cs) = value_from (acc * 10 + (c - b'0')) cs

abbrev pub value : Bytes → ℕ
value = value_from 0

-- after the white space: an optional sign, then the digits
atoi_signed : Bytes → ℤ
atoi_signed [] = pos 0
atoi_signed (c ∷ cs) =
    if c == b'-'
    then neg (value (take_while isdigit cs))
    else if c == b'+'
    then pos (value (take_while isdigit cs))
    else pos (value (take_while isdigit (c ∷ cs)))

-- `atoi` and an `atol` whose result is stored in an `int`: the conversion of a `long`.
unfoldable pub atoi : Bytes → ℤ
unfolding atoi_signed
atoi s = as_int (atoi_signed (drop_while isspace s))

-- A run of digits with something else behind it is read as its value, converted to `int`.
pub atoi_digits :
    (d : ℕ) (ds : Bytes) (c : ℕ) (rest : Bytes)
    → isdigit d ≡ true
    → all isdigit ds ≡ true
    → isdigit c ≡ false
    → atoi (d ∷ ds ++ c ∷ rest) ≡ as_int (pos (value (d ∷ ds)))
unfolding atoi atoi_signed
atoi_digits d ds c rest h hs e =
    ap as_int {x = atoi_signed (drop_while isspace (d ∷ ds ++ c ∷ rest))} {y = pos (value (d ∷ ds))}
      (ground (arith, take_while-append isdigit ds c rest hs e))

-- A number in the range of `int` is that `int`.
pub as_int_small : (n : ℕ) → n < 2 ^ 31 → as_int (pos n) ≡ pos n
as_int_small n l = ground arith

-- decimal digits, most significant first; `n` rounds suffice for `n`
digits_of : ℕ → ℕ → Bytes
digits_of zero n = []
digits_of (suc f) n =
    let front = digits_of f (n / 10) in (if ltb n 10 then [] else front) ++ (b'0' + n % 10) ∷ []

unfoldable pub print_nat : ℕ → Bytes
unfolding digits_of
print_nat n = digits_of (suc n) n

unfoldable pub print_int : ℤ → Bytes
unfolding print_nat
print_int (pos n) = print_nat n
print_int (negsuc n) = b'-' ∷ print_nat (suc n)

length-digits_of : (d f n : ℕ) → n < 10 ^ suc d → length (digits_of f n) ≤ suc d
unfolding digits_of
length-digits_of d zero n h = omega arith
length-digits_of zero (suc f) n h = ground arith
length-digits_of (suc d) (suc f) n h =
    let e : 10 ^ suc (suc d) ≡ 10 ^ suc d * 10 = omega (arith, pow-suc 10 (suc d)) in
    ground (
      arith,
      length-digits_of d f (n / 10) (omega arith),
      length-append (digits_of f (n / 10)) ((b'0' + n % 10) ∷ []),
    )

-- A number below ten thousand has at most four digits.
pub length-print_nat : (n : ℕ) → n < 10_000 → length (print_nat n) ≤ 4
unfolding print_nat
length-print_nat n h = length-digits_of 3 (suc n) n h

-- An `int` has at most ten.
pub length-print_nat_int : (n : ℕ) → n < 2 ^ 31 → length (print_nat n) ≤ 10
unfolding print_nat
length-print_nat_int n h = length-digits_of 9 (suc n) n (omega arith)

value_from-last :
    (acc d : ℕ) (ds : Bytes) → value_from acc (ds ++ d ∷ []) ≡ value_from acc ds * 10 + (d - b'0')
value_from-last acc d [] = refl
value_from-last acc d (c ∷ cs) = value_from-last (acc * 10 + (c - b'0')) d cs

value-digits_of : (f n : ℕ) → n < f → value (digits_of f n) ≡ n
unfolding digits_of
value-digits_of zero n h = absurd (omega arith)
value-digits_of (suc f) n h = elim (Bool-cases (ltb n 10)) [
  | inl y ↦ ground arith
  | inr z ↦
      let e = value_from-last 0 (b'0' + n % 10) (digits_of f (n / 10)) in
      let i = value-digits_of f (n / 10) (ground arith) in rw z (e ∙ rw i (omega arith))
]

all-append :
    (xs ys : Bytes) → all isdigit xs ≡ true → all isdigit ys ≡ true → all isdigit (xs ++ ys) ≡ true
all-append [] ys h k = k
all-append (x ∷ xs) ys h k = ground (arith, all-append xs ys)

all-digits_of : (f n : ℕ) → all isdigit (digits_of f n) ≡ true
unfolding digits_of
all-digits_of zero n = refl
all-digits_of (suc f) n = elim (Bool-cases (ltb n 10)) [
  | inl y ↦ ground arith
  | inr z ↦ rw z (
      all-append (digits_of f (n / 10)) ((b'0' + n % 10) ∷ []) (all-digits_of f (n / 10))
        (ground arith))
]

take_while-all : (xs : Bytes) → all isdigit xs ≡ true → take_while isdigit xs ≡ xs
take_while-all [] h = refl
take_while-all (x ∷ xs) h = ground (arith, take_while-all xs)

atoi_number :
    (xs : Bytes)
    → xs ≢ []
    → all isdigit xs ≡ true
    → atoi_signed (drop_while isspace xs) ≡ pos (value xs)
unfolding atoi_signed
atoi_number [] n h = absurd (n refl)
atoi_number (x ∷ xs) n h = ground (arith, take_while-all xs)

snoc-nil : (xs : Bytes) (x : ℕ) → xs ++ x ∷ [] ≢ []
snoc-nil [] x e = absurd (ground arith)
snoc-nil (y ∷ xs) x e = absurd (ground arith)

-- What `%d` prints of an `int` that is not negative, `atoi` reads back.
pub atoi-print_nat : (n : ℕ) → n < 2 ^ 31 → atoi (print_nat n) ≡ pos n
unfolding atoi print_nat digits_of
atoi-print_nat n l =
    ap as_int (
      atoi_number (print_nat n) (snoc-nil _ _) (all-digits_of (suc n) n)
      ∙ ap pos (value-digits_of (suc n) n (omega arith)))
    ∙ as_int_small n l

-- A number begins with a digit, so with no blank.
pub print_nat-digit : (n : ℕ) → all isdigit (print_nat n) ≡ true
unfolding print_nat
print_nat-digit n = all-digits_of (suc n) n
