-- ===== src/Access/Check.antt =====
-- `access_ornot` on a configured `address/mask`, and on texts with fewer than four octets.
use twebs.Prelude.{
  ℕ, suc, ◌+◌, ◌-◌, ◌≤◌, ◌<◌, ◌≡◌, ◌↔◌, refl, ap, ◌∙◌, sym, true, Bytes, [], ◌∷◌, ◌++◌, length,
  arith, append_assoc, append-nil, length-append,
}
use twebs.Outcome.{done}
use twebs.CString.{isdigit, all, all-append_true, all_mono, take_while-append, drop_while-append}
use twebs.Access.{
  count_dots, pad, check_mask, ipadd_to_longlong, compare_with, compare_parts, no_slash,
}
use twebs.Access.Octets.{
  Octet, digits, IsOctet, Address, IsAddress, dotted, Fits, ipadd_to_longlong-dotted, compared,
  compared_iff,
}

dotted-append : (x : Address) (rest : Bytes) → dotted x [] ++ rest ≡ dotted x rest
dotted-append x rest = simp (append_assoc, append-nil)

pub count_dots-append : (xs ys : Bytes) → count_dots (xs ++ ys) ≡ count_dots xs + count_dots ys
count_dots-append [] ys = omega arith
count_dots-append (x ∷ xs) ys = ground (arith, count_dots-append xs ys)

count_dots-digits : (ds : Bytes) → all isdigit ds ≡ true → count_dots ds ≡ 0
count_dots-digits [] h = refl
count_dots-digits (d ∷ ds) h = ground (arith, count_dots-digits ds)

all-digits : (o : Octet) → IsOctet o → all isdigit (digits o) ≡ true
all-digits o v = ground (arith, v.head_digit, v.tail_digits)

count_dots-octet :
    (o : Octet) (rest : Bytes)
    → IsOctet o
    → count_dots (digits o ++ b'.' ∷ rest) ≡ suc (count_dots rest)
count_dots-octet o rest v = omega (
  arith,
  count_dots-append (digits o) (b'.' ∷ rest),
  count_dots-digits (digits o) (all-digits o v),
)

last : (o : Octet) → IsOctet o → count_dots (digits o ++ []) ≡ 0
last o v =
    omega (arith, count_dots-append (digits o) [], count_dots-digits (digits o) (all-digits o v))

length-octet : (o : Octet) (rest : Bytes) → IsOctet o → length (digits o ++ rest) ≤ 3 + length rest
length-octet o rest v = omega (arith, length-append (digits o) rest, v.short)

-- What `check_mask` needs to know of the text of an address.
record IsText (t : Bytes) : Type 0 where
  slashless : all no_slash t ≡ true
  dots : count_dots t ≡ 3
  short : length t < 16

module _ (x : Address) (v : IsAddress x) where
  octet_slashless : (o : Octet) → IsOctet o → all no_slash (digits o) ≡ true
  octet_slashless o w = all_mono isdigit no_slash (digits o) (λ c h. ground arith) (all-digits o w)

  dotted-IsText : IsText (dotted x [])
  dotted-IsText = record {
    slashless = all-append_true no_slash (digits x.a) _ (octet_slashless x.a v.a_octet) (
        all-append_true no_slash (digits x.b) _ (octet_slashless x.b v.b_octet) (
          all-append_true no_slash (digits x.c) _ (octet_slashless x.c v.c_octet)
            (all-append_true no_slash (digits x.d) [] (octet_slashless x.d v.d_octet) refl)));
    dots =
        count_dots-octet x.a _ v.a_octet
        ∙ ap suc (
            count_dots-octet x.b _ v.b_octet
            ∙ ap suc (count_dots-octet x.c _ v.c_octet ∙ ap suc (last x.d v.d_octet)));
    short = omega (
      arith,
      length-octet x.a (b'.' ∷ (digits x.b ++ (b'.' ∷ (digits x.c ++ (b'.' ∷ (digits x.d ++ []))))))
          v.a_octet,
      length-octet x.b (b'.' ∷ (digits x.c ++ (b'.' ∷ (digits x.d ++ [])))) v.b_octet,
      length-octet x.c (b'.' ∷ (digits x.d ++ [])) v.c_octet,
      length-octet x.d [] v.d_octet,
    );
  }

-- `check_mask` splits the configured text at the slash, pads nothing and compares.
module _ (t m dest : Bytes) (ht : IsText t) (hm : IsText m) where
  pad-full : (c : ℕ) → 3 ≤ c → pad (3 - c) ≡ []
  pad-full c h = let e : 3 - c ≡ 0 = omega arith in rw e

  compare_parts-texts :
      compare_parts t (b'/' ∷ m) dest
      ≡ compare_with
          (ipadd_to_longlong (t ++ 0 ∷ []))
          (ipadd_to_longlong (m ++ 0 ∷ []))
          (ipadd_to_longlong (dest ++ 0 ∷ []))
  unfolding compare_parts
  compare_parts-texts =
      rw
        (
          pad-full (count_dots t) (omega (arith, ht.dots)),
          pad-full (count_dots t + (3 - count_dots t) + count_dots m) (omega (arith, ht.dots)),
          append-nil,
        )
        (ground (arith, ht.short, hm.short, append-nil t, append-nil m))

  check_mask-texts :
      check_mask (t ++ b'/' ∷ m) dest
      ≡ compare_with
          (ipadd_to_longlong (t ++ 0 ∷ []))
          (ipadd_to_longlong (m ++ 0 ∷ []))
          (ipadd_to_longlong (dest ++ 0 ∷ []))
  unfolding check_mask
  check_mask-texts =
      rw
        (
          take_while-append no_slash t b'/' m ht.slashless refl,
          drop_while-append no_slash t b'/' m ht.slashless refl,
        )
        compare_parts-texts

-- With an address and a mask of four octets each, `access_ornot` lets in exactly the clients whose
-- octets under the mask's are those of the address.
pub check_mask-Fits :
    (ip mask dest : Address)
    → IsAddress ip
    → IsAddress mask
    → IsAddress dest
    → (check_mask (dotted ip (b'/' ∷ dotted mask [])) (dotted dest []) ≡ done true)
      ↔ Fits ip mask dest
check_mask-Fits ip mask dest vi vm vd =
    let e : check_mask (dotted ip (b'/' ∷ dotted mask [])) (dotted dest [])
        ≡ done (compared ip mask dest vi vm vd) =
      ap (λ t. check_mask t (dotted dest [])) (sym (dotted-append ip (b'/' ∷ dotted mask [])))
      ∙ check_mask-texts (dotted ip []) (dotted mask []) (dotted dest []) (dotted-IsText ip vi)
          (dotted-IsText mask vm)
      ∙ rw (
        dotted-append ip (0 ∷ []),
        dotted-append mask (0 ∷ []),
        dotted-append dest (0 ∷ []),
        ipadd_to_longlong-dotted ip vi,
        ipadd_to_longlong-dotted mask vm,
        ipadd_to_longlong-dotted dest vd,
      ) in
    let c = compared_iff ip mask dest vi vm vd in
    (λ h. c.0 (ground (arith, h, e)), λ f. e ∙ ap (λ b. done b) (c.1 f))
