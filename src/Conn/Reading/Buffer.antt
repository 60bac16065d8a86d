-- ===== src/Conn/Reading/Buffer.antt =====
-- The buffer of a connection by index.
use twebs.Prelude.{
  ℕ, zero, suc, ◌+◌, ◌≤◌, ◌<◌, ◌≡◌, refl, Bytes, [], ◌∷◌, ◌++◌, length, drop, arith, ap,
}
use twebs.Conn.Reading.{byte_at, clear_at}

pub byte_at-drop : (i : ℕ) (bs : Bytes) (b : ℕ) (cs : Bytes) → drop i bs ≡ b ∷ cs → byte_at i bs ≡ b
byte_at-drop zero [] b cs e = cc
byte_at-drop zero (x ∷ bs) b cs e = ground arith
byte_at-drop (suc i) [] b cs e = cc
byte_at-drop (suc i) (x ∷ bs) b cs e = byte_at-drop i bs b cs e

pub drop-suc : (i : ℕ) (bs : Bytes) (b : ℕ) (cs : Bytes) → drop i bs ≡ b ∷ cs → drop (suc i) bs ≡ cs
drop-suc zero [] b cs e = cc
drop-suc zero (x ∷ bs) b cs e = ground arith
drop-suc (suc i) [] b cs e = cc
drop-suc (suc i) (x ∷ bs) b cs e = drop-suc i bs b cs e

pub length-drop_cons :
    (i : ℕ) (bs cs : Bytes) → drop i bs ≡ cs → i ≤ length bs → length bs ≡ i + length cs
length-drop_cons zero bs cs e l = ground arith
length-drop_cons (suc i) [] cs e l = absurd (omega arith)
length-drop_cons (suc i) (x ∷ bs) cs e l = omega (arith, length-drop_cons i bs cs e (omega arith))

pub length-clear_at : (i : ℕ) (bs : Bytes) → length (clear_at i bs) ≡ length bs
length-clear_at i [] = refl
length-clear_at zero (b ∷ bs) = refl
length-clear_at (suc i) (b ∷ bs) = ap suc (length-clear_at i bs)

pub byte_at-clear_at : (i : ℕ) (bs : Bytes) → byte_at i (clear_at i bs) ≡ 0
byte_at-clear_at i [] = refl
byte_at-clear_at zero (b ∷ bs) = refl
byte_at-clear_at (suc i) (b ∷ bs) = byte_at-clear_at i bs

pub byte_at-append : (i : ℕ) (xs ys : Bytes) → i < length xs → byte_at i (xs ++ ys) ≡ byte_at i xs
byte_at-append i [] ys l = absurd (omega arith)
byte_at-append zero (x ∷ xs) ys l = refl
byte_at-append (suc i) (x ∷ xs) ys l = byte_at-append i xs ys (omega arith)
