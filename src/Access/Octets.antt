-- ===== src/Access/Octets.antt =====
-- Which addresses a mask lets in, octet by octet.
use Prim.Native.Nat.{bit_and}
use twebs.Prelude.{
  ℕ, ◌+◌, ◌*◌, ◌%◌, ◌^◌, ◌≤◌, ◌<◌, ◌≡◌, ◌↔◌, refl, ap, ◌∙◌, Bool, true, false, Bytes, [], ◌∷◌, ◌++◌,
  length, arith, ◌==◌, ==_iff, pos, some,
}
use twebs.Outcome.{Outcome, done}
use twebs.CString.{
  isdigit, all, value, atoi, atoi_digits, strchr, strchr-append, not_in_strchr, all_mono,
  as_int_small,
}
use twebs.Access.{int_bits, sign_extend, ipadd_to_longlong, next_part}
use twebs.Access.Bits.{bit_and-le, bit_and_shift, sign_extend-bit_and, sign_extend_injective}

-- The decimal text of a number below 256.
pub record Octet : Type 0 where
  pub head : ℕ
  pub tail : Bytes

abbrev pub digits : Octet → Bytes
digits o = o.head ∷ o.tail

abbrev pub octet : Octet → ℕ
octet o = value (digits o)

pub record IsOctet (o : Octet) : Type 0 where
  pub head_digit : isdigit o.head ≡ true
  pub tail_digits : all isdigit o.tail ≡ true
  pub short : length (digits o) ≤ 3
  pub small : octet o < 256

pub record Address : Type 0 where
  pub a : Octet
  pub b : Octet
  pub c : Octet
  pub d : Octet

pub record IsAddress (x : Address) : Type 0 where
  pub a_octet : IsOctet x.a
  pub b_octet : IsOctet x.b
  pub c_octet : IsOctet x.c
  pub d_octet : IsOctet x.d

-- `a.b.c.d`, with what follows it
abbrev pub dotted : Address → Bytes → Bytes
dotted x rest =
    digits x.a ++ (b'.' ∷ (digits x.b ++ (b'.' ∷ (digits x.c ++ (b'.' ∷ (digits x.d ++ rest))))))

-- the four octets as one number
abbrev pub word : ℕ → ℕ → ℕ → ℕ → ℕ
word a b c d = ((a * 2 ^ 8 + b) * 2 ^ 8 + c) * 2 ^ 8 + d

abbrev pub number : Address → ℕ
number x = word (octet x.a) (octet x.b) (octet x.c) (octet x.d)

atoi-octet :
    (o : Octet) (c : ℕ) (rest : Bytes)
    → IsOctet o
    → isdigit c ≡ false
    → atoi (digits o ++ c ∷ rest) ≡ pos (octet o)
atoi-octet o c rest v e =
    atoi_digits o.head o.tail c rest v.head_digit v.tail_digits e
    ∙ as_int_small (octet o) (omega (arith, v.small))

strchr-octet :
    (o : Octet) (rest : Bytes)
    → IsOctet o
    → strchr b'.' (digits o ++ b'.' ∷ rest) ≡ some (b'.' ∷ rest)
strchr-octet o rest v = strchr-append b'.' (digits o) rest (
    all_mono isdigit (not_in_strchr b'.') (digits o) (λ c h. ground arith)
      (ground (arith, v.head_digit, v.tail_digits)))

next_part-octet :
    (o : Octet) (rest : Bytes) (k : Bytes → Outcome ℕ)
    → IsOctet o
    → next_part (digits o ++ b'.' ∷ rest) k ≡ k rest
next_part-octet o rest k v = rw (strchr-octet o rest v, next_part)

-- `ipadd_to_longlong` reads an address as its number, sign-extended.
pub ipadd_to_longlong-dotted :
    (x : Address)
    → IsAddress x
    → ipadd_to_longlong (dotted x (0 ∷ [])) ≡ done (sign_extend (number x))
unfolding ipadd_to_longlong
ipadd_to_longlong-dotted x v =
    rw
      (
        next_part-octet x.a _ _ v.a_octet,
        next_part-octet x.b _ _ v.b_octet,
        next_part-octet x.c _ _ v.c_octet,
      )
      (rw
        (
          atoi-octet x.a b'.' _ v.a_octet refl,
          atoi-octet x.b b'.' _ v.b_octet refl,
          atoi-octet x.c b'.' _ v.c_octet refl,
          atoi-octet x.d 0 _ v.d_octet refl,
        )
        (ap (λ n. done (sign_extend n)) {x = n} {y = number x}
          (omega (arith, v.a_octet.small, v.b_octet.small, v.c_octet.small, v.d_octet.small))))
  where
    n : ℕ
    n =
        (int_bits (pos (octet x.a)) * 2 ^ 24
          + int_bits (pos (octet x.b)) * 2 ^ 16
          + int_bits (pos (octet x.c)) * 2 ^ 8
          + int_bits (pos (octet x.d)))
        % 2 ^ 32

le_lt : {a b c : ℕ} → a ≤ b → b < c → a < c
le_lt h l = omega arith

-- `&` on two addresses is `&` on their octets.
bit_and-word :
    (a b c d e f g h : ℕ)
    → b < 256
    → c < 256
    → d < 256
    → f < 256
    → g < 256
    → h < 256
    → bit_and (word a b c d) (word e f g h)
      ≡ word (bit_and a e) (bit_and b f) (bit_and c g) (bit_and d h)
bit_and-word a b c d e f g h hb hc hd hf hg hh =
    bit_and_shift 8 ((a * 2 ^ 8 + b) * 2 ^ 8 + c) d ((e * 2 ^ 8 + f) * 2 ^ 8 + g) h hd hh
    ∙ rw (bit_and_shift 8 (a * 2 ^ 8 + b) c (e * 2 ^ 8 + f) g hc hg, bit_and_shift 8 a b e f hb hf)

-- Each octet of the address is that of the client under the mask.
pub record Fits (ip mask dest : Address) : Type 0 where
  pub a_fits : octet ip.a ≡ bit_and (octet mask.a) (octet dest.a)
  pub b_fits : octet ip.b ≡ bit_and (octet mask.b) (octet dest.b)
  pub c_fits : octet ip.c ≡ bit_and (octet mask.c) (octet dest.c)
  pub d_fits : octet ip.d ≡ bit_and (octet mask.d) (octet dest.d)

number_lt : (x : Address) → IsAddress x → number x < 2 ^ 32
number_lt x v = omega (arith, v.a_octet.small, v.b_octet.small, v.c_octet.small, v.d_octet.small)

word_injective :
    (a b c d e f g h : ℕ)
    → b < 256
    → c < 256
    → d < 256
    → f < 256
    → g < 256
    → h < 256
    → word a b c d ≡ word e f g h
    → (a ≡ e) × (b ≡ f) × (c ≡ g) × (d ≡ h)
word_injective a b c d e f g h hb hc hd hf hg hh e' = omega arith

module _ (ip mask dest : Address) (vi : IsAddress ip) (vm : IsAddress mask)
    (vd : IsAddress dest) where
  abbrev masked : ℕ
  masked =
      word (bit_and (octet mask.a) (octet dest.a)) (bit_and (octet mask.b) (octet dest.b))
        (bit_and (octet mask.c) (octet dest.c)) (bit_and (octet mask.d) (octet dest.d))

  masked_lem : bit_and (number mask) (number dest) ≡ masked
  masked_lem =
      bit_and-word (octet mask.a) (octet mask.b) (octet mask.c) (octet mask.d) (octet dest.a)
        (octet dest.b) (octet dest.c) (octet dest.d) vm.b_octet.small vm.c_octet.small
        vm.d_octet.small vd.b_octet.small vd.c_octet.small vd.d_octet.small

  masked_lt : masked < 2 ^ 32
  masked_lt = omega (
    arith,
    vm.a_octet.small,
    vm.b_octet.small,
    vm.c_octet.small,
    vm.d_octet.small,
    bit_and-le (octet mask.a) (octet dest.a),
    bit_and-le (octet mask.b) (octet dest.b),
    bit_and-le (octet mask.c) (octet dest.c),
    bit_and-le (octet mask.d) (octet dest.d),
  )

  Fits-of_number : number ip ≡ masked → Fits ip mask dest
  Fits-of_number e =
      let b = λ (m d : ℕ) (h : m < 256). le_lt (bit_and-le m d) h in
      let p =
        word_injective (octet ip.a) (octet ip.b) (octet ip.c) (octet ip.d) _ _ _ _ vi.b_octet.small
          vi.c_octet.small vi.d_octet.small (b (octet mask.b) (octet dest.b) vm.b_octet.small)
          (b (octet mask.c) (octet dest.c) vm.c_octet.small)
          (b (octet mask.d) (octet dest.d) vm.d_octet.small) e in
      record { a_fits = p.0; b_fits = p.1; c_fits = p.2; d_fits = p.3 }

  number_of_Fits : Fits ip mask dest → number ip ≡ masked
  number_of_Fits f = rw (f.a_fits, f.b_fits, f.c_fits, f.d_fits)

  abbrev pub compared : Bool
  compared =
      sign_extend (number ip) == bit_and (sign_extend (number mask)) (sign_extend (number dest))

  masked-sign_extend :
      bit_and (sign_extend (number mask)) (sign_extend (number dest)) ≡ sign_extend masked
  masked-sign_extend =
      sign_extend-bit_and (number mask) (number dest) (number_lt mask vm) (number_lt dest vd)
      ∙ rw masked_lem

  pub compared_iff : (compared ≡ true) ↔ Fits ip mask dest
  compared_iff = (
    λ h. Fits-of_number (
        sign_extend_injective (number ip) masked (number_lt ip vi) masked_lt
          ((==_iff _ _).0 h ∙ masked-sign_extend)),
    λ f. (==_iff _ _).1 (rw (masked-sign_extend, number_of_Fits f)),
  )
