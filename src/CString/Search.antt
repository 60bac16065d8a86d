-- ===== src/CString/Search.antt =====
-- `strstr` against an independent description: where a text occurs in another.
use twebs.Prelude.{◌≡◌, refl, true, Bytes, [], ◌∷◌, ◌++◌, arith, Bool-cases, inl, inr, ap}
use twebs.CString.Span.{is_prefix, strstr}

-- `needle` stands somewhere in `bs`.
pub record Occurs (needle bs : Bytes) : Type 0 where
  pub before : Bytes
  pub after : Bytes
  pub at : bs ≡ before ++ (needle ++ after)

is_prefix-append : (as' bs : Bytes) → is_prefix as' (as' ++ bs) ≡ true
is_prefix-append [] bs = refl
is_prefix-append (a ∷ as') bs = ground (arith, is_prefix-append as' bs)

prefix_rest : (as' bs : Bytes) → is_prefix as' bs ≡ true → (cs : Bytes) × (bs ≡ as' ++ cs)
prefix_rest [] bs h = (bs, refl)
prefix_rest (a ∷ as') [] h = ground arith
prefix_rest (a ∷ as') (b ∷ bs) h =
    let (cs, e) = prefix_rest as' bs (ground arith) in (cs, ground arith)

pub strstr-append :
    (before needle after : Bytes) → strstr (before ++ (needle ++ after)) needle ≡ true
strstr-append [] [] [] = refl
strstr-append [] [] (b ∷ bs) = refl
strstr-append [] (a ∷ as') bs = ground (arith, is_prefix-append as' bs)
strstr-append (c ∷ cs) needle after = ground (arith, strstr-append cs needle after)

-- `strstr` finds nothing but occurrences.
pub strstr-Occurs : (bs needle : Bytes) → strstr bs needle ≡ true → Occurs needle bs
strstr-Occurs [] needle h =
    let (cs, e) = prefix_rest needle [] h in record { before = []; after = cs; at = e }
strstr-Occurs (b ∷ bs) needle h = elim (Bool-cases (is_prefix needle (b ∷ bs))) [
  | inl y ↦
      let (cs, e) = prefix_rest needle (b ∷ bs) y in record { before = []; after = cs; at = e }
  | inr n ↦
      let o = strstr-Occurs bs needle (ground arith) in
      record { before = b ∷ o.before; after = o.after; at = ap (λ xs. b ∷ xs) o.at }
]
