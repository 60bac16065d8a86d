-- ===== src/Access/Partial.antt =====
-- `access_ornot` on a configured text with fewer than four octets, and on a whole config.ini.
use twebs.Prelude.{
  ℕ, zero, suc, ◌+◌, ◌-◌, ◌<◌, ◌≡◌, ◌↔◌, ◌⊎◌, inl, inr, refl, ap, true, Bytes, [], ◌∷◌, ◌++◌, List,
  length, arith, ◌==◌, append-nil, some, none, codes, Bool-cases,
}
use twebs.Outcome.{Outcome, done, fault}
use twebs.CString.{all, all-append_true, take_while-append, drop_while-append, strchr, atoi}
use twebs.Config.File.{Item, IsFile, render, lookup, getconfig_or_exit-lookup}
use twebs.Access.{
  count_dots, pad, no_slash, compare_parts, check_mask, access_ornot, ipadd_to_longlong, next_part,
  compare_with, from_bai, from_shi, sum_parts, int_bits,
}
use twebs.Access.Octets.{Address, IsAddress, dotted, Fits}
use twebs.Access.Check.{count_dots-append, check_mask-Fits}

-- `strchr` finds no dot, or one with fewer dots behind it.
dot_cases :
    (p : Bytes)
    → (strchr b'.' (p ++ 0 ∷ []) ≡ none)
      ⊎ ((q : Bytes) × (strchr b'.' (p ++ 0 ∷ []) ≡ some (b'.' ∷ (q ++ 0 ∷ [])))
          × (count_dots q < count_dots p))
dot_cases [] = inl refl
dot_cases (c ∷ p) = elim (dot_cases p) [
  | inl e ↦ elim (Bool-cases (c == b'.')) [
    | inl y ↦ inr (p, ground arith, ground arith)
    | inr y ↦ inl (ground arith)
  ]
  | inr (q, e, h) ↦ elim (Bool-cases (c == b'.')) [
    | inl y ↦ inr (p, ground arith, ground arith)
    | inr y ↦ elim (Bool-cases (c == 0)) [
      | inl z ↦ inl (ground arith)
      | inr z ↦ inr (q, ground arith, ground arith)
    ]
  ]
]

next_part_few :
    (p : Bytes) (k : Bytes → Outcome ℕ)
    → ((q : Bytes) → count_dots q < count_dots p → k (q ++ 0 ∷ []) ≡ fault)
    → next_part (p ++ 0 ∷ []) k ≡ fault
next_part_few p k h = elim (dot_cases p) [
  | inl e ↦ rw (e, next_part)
  | inr (q, e, l) ↦ rw (e, next_part) (h q l)
]

-- An address of fewer than four parts makes `ipadd_to_longlong` walk on from a null pointer.
ipadd_to_longlong_few : (p : Bytes) → count_dots p < 3 → ipadd_to_longlong (p ++ 0 ∷ []) ≡ fault
unfolding ipadd_to_longlong
ipadd_to_longlong_few p h =
    let ip = p ++ 0 ∷ [] in
    next_part_few p (from_bai (int_bits (atoi ip))) λ q hq.
      let p1 = q ++ 0 ∷ [] in
      next_part_few q (from_shi (int_bits (atoi ip)) (int_bits (atoi p1))) λ r hr.
        let p2 = r ++ 0 ∷ [] in
        next_part_few r (sum_parts (int_bits (atoi ip)) (int_bits (atoi p1)) (int_bits (atoi p2)))
          λ s hs. absurd (omega arith)

compare_with-fault : (a b : Outcome ℕ) → compare_with a fault b ≡ fault
compare_with-fault (done a) b = refl
compare_with-fault _ b = refl

no_pad : (c : ℕ) (m : Bytes) → m ++ pad (3 - (c + (3 - c) + count_dots m)) ≡ m
no_pad c m = let e : 3 - (c + (3 - c) + count_dots m) ≡ 0 = omega arith in rw e (append-nil m)

compare_parts_few : (t m dest : Bytes) → count_dots m < 3 → compare_parts t (b'/' ∷ m) dest ≡ fault
unfolding compare_parts
compare_parts_few t m dest h = rw (no_pad (count_dots t) m) (
    ground (
      arith,
      ipadd_to_longlong_few m h,
      compare_with-fault (ipadd_to_longlong ((t ++ pad (3 - count_dots t)) ++ 0 ∷ []))
          (ipadd_to_longlong (dest ++ 0 ∷ [])),
    ))

-- A mask with fewer than four octets is not padded: the check ends in undefined behaviour, whatever
-- address stands in front of it and whoever asks.
pub check_mask_few :
    (t m dest : Bytes)
    → all no_slash t ≡ true
    → count_dots m < 3
    → check_mask (t ++ b'/' ∷ m) dest ≡ fault
unfolding check_mask
check_mask_few t m dest ht h =
    rw (take_while-append no_slash t b'/' m ht refl, drop_while-append no_slash t b'/' m ht refl)
      (compare_parts_few t m dest h)

count_dots-pad : (n : ℕ) → count_dots (pad n) ≡ n
count_dots-pad zero = refl
count_dots-pad (suc n) = ap suc (count_dots-pad n)

pad_slashless : (n : ℕ) → all no_slash (pad n) ≡ true
pad_slashless zero = refl
pad_slashless (suc n) = pad_slashless n

padded_slashless :
    (t : Bytes) → all no_slash t ≡ true → all no_slash (t ++ pad (3 - count_dots t)) ≡ true
padded_slashless t h = all-append_true no_slash t _ h (pad_slashless (3 - count_dots t))

compare_parts-pad :
    (t m dest : Bytes)
    → count_dots t < 3
    → compare_parts t (b'/' ∷ m) dest ≡ compare_parts (t ++ pad (3 - count_dots t)) (b'/' ∷ m) dest
unfolding compare_parts
compare_parts-pad t m dest h =
    let full : count_dots (t ++ pad (3 - count_dots t)) ≡ 3 =
      omega
        (arith, count_dots-append t (pad (3 - count_dots t)), count_dots-pad (3 - count_dots t)) in
    rw (
      no_pad (count_dots t) m,
      no_pad (count_dots (t ++ pad (3 - count_dots t))) m,
      full,
      append-nil (t ++ pad (3 - count_dots t)),
    )

-- A configured address with fewer than four octets stands for the one with zeros behind it.
pub check_mask-pad :
    (t m dest : Bytes)
    → all no_slash t ≡ true
    → count_dots t < 3
    → check_mask (t ++ b'/' ∷ m) dest ≡ check_mask ((t ++ pad (3 - count_dots t)) ++ b'/' ∷ m) dest
unfolding check_mask
check_mask-pad t m dest ht h =
    let t' = t ++ pad (3 - count_dots t) in
    rw (take_while-append no_slash t b'/' m ht refl, drop_while-append no_slash t b'/' m ht refl)
      (rw
        (
          take_while-append no_slash t' b'/' m (padded_slashless t ht) refl,
          drop_while-append no_slash t' b'/' m (padded_slashless t ht) refl,
        )
        (compare_parts-pad t m dest h))

access_ornot-lookup :
    (f : ℕ) (is : List Item) (tmp dest : Bytes) {w : Bytes}
    → IsFile is
    → length (render is) < f
    → lookup (codes "mask") is ≡ some w
    → access_ornot f (render is) tmp dest ≡ check_mask w dest
unfolding access_ornot
access_ornot-lookup f is tmp dest v h e =
    ground (arith, getconfig_or_exit-lookup f (codes "mask") is tmp (ground arith) v h, e)

-- `access_ornot` on a well-formed config.ini whose mask is an address and a mask of four octets
-- each lets in exactly the clients whose octets under the mask's are those of the address.
pub access_ornot-Fits :
    (f : ℕ) (is : List Item) (tmp : Bytes) (ip mask dest : Address)
    → IsFile is
    → length (render is) < f
    → lookup (codes "mask") is ≡ some (dotted ip (b'/' ∷ dotted mask []))
    → IsAddress ip
    → IsAddress mask
    → IsAddress dest
    → (access_ornot f (render is) tmp (dotted dest []) ≡ done true) ↔ Fits ip mask dest
access_ornot-Fits f is tmp ip mask dest v h e vi vm vd =
    rw (access_ornot-lookup f is tmp (dotted dest []) v h e) (check_mask-Fits ip mask dest vi vm vd)
