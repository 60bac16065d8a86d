-- ===== src/Access/Bits.antt =====
-- `&` digit by digit, and the sign extension under it.
use Prim.Native.Nat.{bit_and, digits, bit_and-bitwise}
use native.Mathlib.Nat.{pow-suc}
use twebs.Prelude.{
  ℕ, zero, suc, ◌+◌, ◌*◌, ◌/◌, ◌%◌, ◌^◌, ◌≤◌, ◌<◌, ◌≡◌, refl, ap, min, arith, ltb, if◌then◌else◌,
  ap, ◌∙◌, ◌-◌, ◌==◌,
}
use twebs.Access.{sign_extend}
use native.Mathlib.Decide.{dec_lt}

-- `bit_and a b` by its digits, lowest first, `rounds` of them.
abbrev rounds_of : ℕ → ℕ → ℕ → ℕ
rounds_of rounds a b = digits (λ _. 0) min rounds a b

-- One round more than the number has digits for adds nothing.
rounds_of-suc : (n a b : ℕ) → a ≤ n → rounds_of (suc n) a b ≡ rounds_of n a b
rounds_of-suc n zero b h = elim n as (λ k. rounds_of (suc k) 0 b ≡ rounds_of k 0 b) [
  | zero ↦ refl
  | suc k ↦ refl
]
rounds_of-suc zero (suc a) b h = absurd (omega arith)
rounds_of-suc (suc n) (suc a) b h = omega (arith, rounds_of-suc n (suc a / 2) (b / 2))

rounds_of_enough : (m n a b : ℕ) → a ≤ n → n ≤ m → rounds_of m a b ≡ rounds_of n a b
rounds_of_enough zero n a b h l = ap (λ r. rounds_of r a b) {x = 0} (omega arith)
rounds_of_enough (suc m) n a b h l = elim (dec_lt m n) [
  | yes p ↦ ap (λ r. rounds_of r a b) {x = suc m} (omega arith)
  | no p ↦ rounds_of-suc m a b (omega arith) ∙ rounds_of_enough m n a b h (omega arith)
]

zero-bit_and : (b : ℕ) → bit_and 0 b ≡ 0
zero-bit_and b = bit_and-bitwise 0 b

-- The lowest digit, and the rest shifted.
bit_and_lowest : (a b : ℕ) → bit_and a b ≡ bit_and (a / 2) (b / 2) * 2 + min (a % 2) (b % 2)
bit_and_lowest zero b = omega (arith, zero-bit_and b, zero-bit_and (b / 2))
bit_and_lowest (suc a) b =
    let half = rounds_of_enough a (suc a / 2) (suc a / 2) (b / 2) (omega arith) (omega arith) in
    omega (arith, half, bit_and-bitwise (suc a) b, bit_and-bitwise (suc a / 2) (b / 2))

bit_and_le_rounds : (n a b : ℕ) → a ≤ n → bit_and a b ≤ a
bit_and_le_rounds n zero b h = omega (arith, zero-bit_and b)
bit_and_le_rounds zero (suc a) b h = absurd (omega arith)
bit_and_le_rounds (suc n) (suc a) b h =
    omega (arith, bit_and_lowest (suc a) b, bit_and_le_rounds n (suc a / 2) (b / 2))

pub bit_and-le : (a b : ℕ) → bit_and a b ≤ a
bit_and-le a b = bit_and_le_rounds a a b (omega arith)

bit_and_cong : {a a' b b' : ℕ} → a ≡ a' → b ≡ b' → bit_and a b ≡ bit_and a' b'
bit_and_cong e e' = cc

-- `&` works on the low `k` bits and on those above them apart.
pub bit_and_shift :
    (k x y u v : ℕ)
    → y < 2 ^ k
    → v < 2 ^ k
    → bit_and (x * 2 ^ k + y) (u * 2 ^ k + v) ≡ bit_and x u * 2 ^ k + bit_and y v
bit_and_shift zero x y u v h l = omega (
  arith,
  bit_and_cong {a = x * 2 ^ 0 + y} {a' = x} {b = u * 2 ^ 0 + v} {b' = u} (omega arith)
      (omega arith),
  bit_and_cong {a = y} {a' = 0} {b = v} {b' = 0} (omega arith) (omega arith),
)
bit_and_shift (suc k) x y u v h l =
    let e : 2 ^ suc k ≡ 2 ^ k * 2 = omega (arith, pow-suc 2 k) in
    let low : y / 2 < 2 ^ k = omega arith in
    let low' : v / 2 < 2 ^ k = omega arith in
    let a : (x * 2 ^ suc k + y) / 2 ≡ x * 2 ^ k + y / 2 = rw e (omega arith) in
    let b : (u * 2 ^ suc k + v) / 2 ≡ u * 2 ^ k + v / 2 = rw e (omega arith) in
    let a' : (x * 2 ^ suc k + y) % 2 ≡ y % 2 = rw e (omega arith) in
    let b' : (u * 2 ^ suc k + v) % 2 ≡ v % 2 = rw e (omega arith) in
    let ih = bit_and_shift k x (y / 2) u (v / 2) low low' in
    let first = bit_and_lowest (x * 2 ^ suc k + y) (u * 2 ^ suc k + v) in
    rw (first, a, b, a', b', ih, e) (omega (arith, bit_and_lowest y v))

-- The upper half of a sign-extended pattern.
abbrev sign_half : ℕ → ℕ
sign_half x = if ltb x (2 ^ 31) then 0 else 2 ^ 32 - 1

sign_extend_halves : (x : ℕ) → sign_extend x ≡ sign_half x * 2 ^ 32 + x
sign_extend_halves x = ground arith

-- A sign bit and the bits below it.
abbrev with_sign : ℕ → ℕ → ℕ
with_sign t r = t * 2 ^ 31 + r

sign_half-with_sign :
    (t r : ℕ) → r < 2 ^ 31 → sign_half (with_sign t r) ≡ (if t == 0 then 0 else 2 ^ 32 - 1)
sign_half-with_sign t r h = ground arith

and_signs :
    (t u : ℕ)
    → t < 2
    → u < 2
    → (if bit_and t u == 0 then 0 else 2 ^ 32 - 1)
      ≡ bit_and (if t == 0 then 0 else 2 ^ 32 - 1) (if u == 0 then 0 else 2 ^ 32 - 1)
and_signs zero zero h l = refl
and_signs zero (suc zero) h l = refl
and_signs (suc zero) zero h l = refl
and_signs (suc zero) (suc zero) h l = refl
and_signs zero (suc (suc u)) h l = absurd (omega arith)
and_signs (suc zero) (suc (suc u)) h l = absurd (omega arith)
and_signs (suc (suc t)) u h l = absurd (omega arith)

-- The top bit of `&`, for patterns given by their top bit and the rest.
sign_half-bit_and :
    (t u r q : ℕ)
    → t < 2
    → u < 2
    → r < 2 ^ 31
    → q < 2 ^ 31
    → sign_half (bit_and (with_sign t r) (with_sign u q))
      ≡ bit_and (sign_half (with_sign t r)) (sign_half (with_sign u q))
sign_half-bit_and t u r q ht hu hr hq = rw (bit_and_shift 31 t r u q hr hq) (
    rw
      (
        sign_half-with_sign (bit_and t u) (bit_and r q) (omega (arith, bit_and-le r q)),
        sign_half-with_sign t r hr,
        sign_half-with_sign u q hq,
      )
      (and_signs t u ht hu))

split_at : (x : ℕ) → x < 2 ^ 32 → (t : ℕ) × (r : ℕ) × (x ≡ with_sign t r) × (t < 2) × (r < 2 ^ 31)
split_at x h = (x / 2 ^ 31, x % 2 ^ 31, omega arith, omega arith, omega arith)

bit_and_sign :
    (m d : ℕ)
    → m < 2 ^ 32
    → d < 2 ^ 32
    → sign_half (bit_and m d) ≡ bit_and (sign_half m) (sign_half d)
bit_and_sign m d h l =
    let (t, r, e, ht, hr) = split_at m h in
    let (u, q, e', hu, hq) = split_at d l in rw (e, e') (sign_half-bit_and t u r q ht hu hr hq)

-- `&` on the 64-bit patterns of two `int`s compares as `&` on the `int`s.
pub sign_extend-bit_and :
    (m d : ℕ)
    → m < 2 ^ 32
    → d < 2 ^ 32
    → bit_and (sign_extend m) (sign_extend d) ≡ sign_extend (bit_and m d)
sign_extend-bit_and m d hm hd =
    rw (sign_extend_halves m, sign_extend_halves d, sign_extend_halves (bit_and m d))
      (bit_and_shift 32 (sign_half m) m (sign_half d) d hm hd ∙ rw (bit_and_sign m d hm hd))

pub sign_extend_injective :
    (a b : ℕ) → a < 2 ^ 32 → b < 2 ^ 32 → sign_extend a ≡ sign_extend b → a ≡ b
sign_extend_injective a b h l e = ground arith
