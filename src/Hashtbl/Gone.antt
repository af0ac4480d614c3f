-- ===== src/Hashtbl/Gone.antt =====
-- What the searches of a chain find once an element of it is gone.
use scubed.Base.{
  ℕ, ◌≡◌, inl, inr, refl, sym, ◌∙◌, ap, List, [], ◌∷◌, ◌++◌, none, some, arith, ==→eq, ◌==◌, ◌&&◌,
  suc, take, Bool, Bool-cases, true, false, if◌then◌else◌,
}
use scubed.Hashtbl.{
  KeySize, text, bytes, Element, Target, by_key, compare_target, same_bytes, same_key, find_in,
}
use scubed.Hashtbl.Invariant.{Distinct}

both : (p q : Bool) → (p && q) ≡ true → (p ≡ true) × (q ≡ true)
both true q h = (refl, h)
both false q h = absurd (ground arith)

same_bytes→eq : (xs ys : List ℕ) → same_bytes xs ys ≡ true → xs ≡ ys
same_bytes→eq [] [] h = refl
same_bytes→eq [] (y ∷ ys) h = absurd (ground arith)
same_bytes→eq (x ∷ xs) [] h = absurd (ground arith)
same_bytes→eq (x ∷ xs) (y ∷ ys) h =
    let (here, rest) = both (x == y) (same_bytes xs ys) h in
    ap (λ z. z ∷ xs) (==→eq x y here) ∙ ap (λ zs. y ∷ zs) (same_bytes→eq xs ys rest)

same_key-same :
    (size : KeySize) (a b c : List ℕ)
    → same_key size a b ≡ true
    → same_key size a c ≡ same_key size b c
same_key-same text a b c h = ap (λ x. same_bytes x c) (same_bytes→eq a b h)
same_key-same (bytes less) a b c h =
    ap (λ x. same_bytes x (take (suc less) c))
      (same_bytes→eq (take (suc less) a) (take (suc less) b) h)

module _ (size : KeySize) where
  find_in-same :
      (a b : List ℕ) (es : List Element)
      → same_key size a b ≡ true
      → find_in size (by_key a) es ≡ find_in size (by_key b) es
  unfolding find_in
  find_in-same a b [] h = refl
  find_in-same a b (x ∷ xs) h = rw (same_key-same size a b x.key h, find_in-same a b xs h) refl

  -- What a search passes by, it does not find behind other elements either.
  passed_by :
      (t : Target) (xs back : List Element) (e : Element)
      → find_in size t (xs ++ (e ∷ back)) ≡ none
      → compare_target size t e ≡ false
  unfolding find_in
  passed_by t [] back e h = elim (Bool-cases (compare_target size t e)) [
    | inl hit ↦
        absurd (ground (arith, sym (ap (λ b. if b then some e else find_in size t back) hit) ∙ h))
    | inr miss ↦ miss
  ]
  passed_by t (x ∷ xs) back e h = elim (Bool-cases (compare_target size t x)) [
    | inl hit ↦ absurd (
        ground
          (arith, sym (ap (λ b. if b then some x else find_in size t (xs ++ (e ∷ back))) hit) ∙ h))
    | inr miss ↦
        passed_by t xs back e
          (sym (ap (λ b. if b then some x else find_in size t (xs ++ (e ∷ back))) miss) ∙ h)
  ]

  -- Where no key comes twice, the key of an element finds nothing without it.
  pub find_in-gone :
      (name : List ℕ) (e : Element) (front back : List Element)
      → Distinct size (front ++ (e ∷ back))
      → same_key size name e.key ≡ true
      → find_in size (by_key name) (front ++ back) ≡ none
  unfolding find_in
  find_in-gone name e [] back d same = find_in-same name e.key back same ∙ d.0
  find_in-gone name e (x ∷ xs) back d same = elim (Bool-cases (same_key size name x.key)) [
    | inl twice ↦
        let apart = passed_by (by_key x.key) xs back e d.0 in
        let one = sym (same_key-same size name x.key e.key twice) ∙ same in
        absurd (ground (arith, apart, one))
    | inr miss ↦ rw (miss) (find_in-gone name e xs back d.1 same)
  ]

  -- A search that passes the element by finds the same without it.
  pub find_in-other :
      (t : Target) (e : Element) (front back : List Element)
      → compare_target size t e ≡ false
      → find_in size t (front ++ back) ≡ find_in size t (front ++ (e ∷ back))
  unfolding find_in
  find_in-other t e [] back miss = rw (miss) refl
  find_in-other t e (x ∷ xs) back miss =
      ap (λ o. if compare_target size t x then some x else o) (find_in-other t e xs back miss)

  -- What a search finds fits.
  pub find_in-fits :
      (t : Target) (es : List Element) (e : Element)
      → find_in size t es ≡ some e
      → compare_target size t e ≡ true
  unfolding find_in
  find_in-fits t [] e h = absurd (ground arith)
  find_in-fits t (x ∷ xs) e h = elim (Bool-cases (compare_target size t x)) [
    | inl fits ↦
        let found = sym (ap (λ b. if b then some x else find_in size t xs) fits) ∙ h in
        ap (λ o. elim o [ none ↦ true | some y ↦ compare_target size t y ]) (sym found) ∙ fits
    | inr differs ↦
        find_in-fits t xs e (sym (ap (λ b. if b then some x else find_in size t xs) differs) ∙ h)
  ]
