-- ===== src/CString/Span.antt =====
-- Classes of characters, pointers that walk over a class, comparison and search.
use twebs.Prelude.{
  ℕ, zero, suc, ◌+◌, ◌≡◌, refl, ◌↔◌, Bool, true, false, ◌&&◌, ◌||◌, not, Option, none, some, Bytes,
  [], ◌∷◌, ◌++◌, ◌==◌, leb, if◌then◌else◌, arith,
}

abbrev pub between : ℕ → ℕ → ℕ → Bool
between lo hi c = leb lo c && leb c hi

-- `isblank`, `isalpha`, `isdigit` and `isspace` in the C locale
abbrev pub isblank : ℕ → Bool
isblank c = c == b' ' || c == b'\t'

abbrev pub isalpha : ℕ → Bool
isalpha c = between b'a' b'z' c || between b'A' b'Z' c

abbrev pub isdigit : ℕ → Bool
isdigit c = between b'0' b'9' c

abbrev pub isspace : ℕ → Bool
isspace c = c == b' ' || between 9 13 c

abbrev pub tolower : ℕ → ℕ
tolower c = if between b'A' b'Z' c then c + 32 else c

abbrev pub all : (ℕ → Bool) → Bytes → Bool
all p [] = true
all p (c ∷ cs) = p c && all p cs

abbrev pub any : (ℕ → Bool) → Bytes → Bool
any p [] = false
any p (c ∷ cs) = p c || any p cs

-- `while (p(*s)) ++s`: the bytes passed over, and those from `s` on.
abbrev pub take_while : (ℕ → Bool) → Bytes → Bytes
take_while p [] = []
take_while p (c ∷ cs) = if p c then c ∷ take_while p cs else []

abbrev pub drop_while : (ℕ → Bool) → Bytes → Bytes
drop_while p [] = []
drop_while p (c ∷ cs) = if p c then drop_while p cs else c ∷ cs

-- the string that an array holds
abbrev pub cstr : Bytes → Bytes
cstr = take_while (λ c. not (c == 0))

-- `strcmp(a, b) == 0`, `strcasecmp(a, b) == 0` and `strncasecmp(a, b, n) == 0`
abbrev pub streq : Bytes → Bytes → Bool
streq [] [] = true
streq (a ∷ as') (b ∷ bs) = a == b && streq as' bs
streq _ _ = false

abbrev pub strcaseeq : Bytes → Bytes → Bool
strcaseeq [] [] = true
strcaseeq (a ∷ as') (b ∷ bs) = tolower a == tolower b && strcaseeq as' bs
strcaseeq _ _ = false

abbrev pub strncaseeq : ℕ → Bytes → Bytes → Bool
strncaseeq zero _ _ = true
strncaseeq (suc n) (a ∷ as') (b ∷ bs) = tolower a == tolower b && strncaseeq n as' bs
strncaseeq (suc n) [] [] = true
strncaseeq (suc n) _ _ = false

-- `strchr`: what stands in the array from the first `c` on, before a zero byte.
abbrev pub strchr : ℕ → Bytes → Option Bytes
strchr c [] = none
strchr c (b ∷ bs) = if b == c then some (b ∷ bs) else if b == 0 then none else strchr c bs

-- `strrchr`: the string from the last `c` on.
abbrev pub strrchr : ℕ → Bytes → Option Bytes
strrchr c [] = none
strrchr c (b ∷ bs) = elim (strrchr c bs) [
  | some r ↦ some r
  | none ↦ if b == c then some (b ∷ bs) else none
]

abbrev pub is_prefix : Bytes → Bytes → Bool
is_prefix [] bs = true
is_prefix (a ∷ as') [] = false
is_prefix (a ∷ as') (b ∷ bs) = a == b && is_prefix as' bs

-- `strstr(haystack, needle) != NULL`
abbrev pub strstr : Bytes → Bytes → Bool
strstr [] needle = is_prefix needle []
strstr (b ∷ bs) needle = is_prefix needle (b ∷ bs) || strstr bs needle

pub streq_iff : (a b : Bytes) → (streq a b ≡ true) ↔ (a ≡ b)
streq_iff (x ∷ a) (y ∷ b) = ground (arith, streq_iff a b)
streq_iff _ _ = ground arith

-- A walk over a class ends at the first byte outside it.
pub take_while-append :
    (p : ℕ → Bool) (xs : Bytes) (c : ℕ) (ys : Bytes)
    → all p xs ≡ true
    → p c ≡ false
    → take_while p (xs ++ c ∷ ys) ≡ xs
take_while-append p [] c ys h e = ground arith
take_while-append p (x ∷ xs) c ys h e = ground (arith, take_while-append p xs c ys)

pub drop_while-append :
    (p : ℕ → Bool) (xs : Bytes) (c : ℕ) (ys : Bytes)
    → all p xs ≡ true
    → p c ≡ false
    → drop_while p (xs ++ c ∷ ys) ≡ c ∷ ys
drop_while-append p [] c ys h e = ground arith
drop_while-append p (x ∷ xs) c ys h e = ground (arith, drop_while-append p xs c ys)

pub take_while-all : (p : ℕ → Bool) (xs : Bytes) → all p xs ≡ true → take_while p xs ≡ xs
take_while-all p [] h = refl
take_while-all p (x ∷ xs) h = ground (arith, take_while-all p xs)

abbrev pub not_in_strchr : ℕ → ℕ → Bool
not_in_strchr c b = not (b == c) && not (b == 0)

pub strchr-append :
    (c : ℕ) (xs ys : Bytes)
    → all (not_in_strchr c) xs ≡ true
    → strchr c (xs ++ c ∷ ys) ≡ some (c ∷ ys)
strchr-append c [] ys h = ground arith
strchr-append c (x ∷ xs) ys h = ground (arith, strchr-append c xs ys)

pub all-append : (p : ℕ → Bool) (xs ys : Bytes) → all p (xs ++ ys) ≡ (all p xs && all p ys)
all-append p [] ys = refl
all-append p (x ∷ xs) ys = ground (arith, all-append p xs ys)

-- A class inside another.
pub all_mono :
    (p q : ℕ → Bool) (xs : Bytes)
    → ((c : ℕ) → p c ≡ true → q c ≡ true)
    → all p xs ≡ true
    → all q xs ≡ true
all_mono p q [] h e = refl
all_mono p q (x ∷ xs) h e = ground (arith, h x, all_mono p q xs h)

pub all-append_true :
    (p : ℕ → Bool) (xs ys : Bytes) → all p xs ≡ true → all p ys ≡ true → all p (xs ++ ys) ≡ true
all-append_true p xs ys h k = ground (arith, all-append p xs ys)
