-- ===== src/Cipher/Accepted.antt =====
-- Exactly the names MODE(PRIMITIVE) of a known mode are accepted.
use scubed.Base.{
  ℕ, ◌≡◌, ◌≢◌, inl, inr, refl, sym, ◌∙◌, ap, ap₂, subst, List, [], ◌∷◌, ◌++◌, Option, some, none,
  arith, ◌==◌, ==→eq, true, false, All, Bool-cases, Option-cases, ◌↔◌,
}
use mathlib.Core.List.{append_assoc}
use scubed.Cipher.Name.{
  Mode, null, cbc_plain, cbc_essiv, ok, same_text, mode_name, cut, find_mode, with_mode,
  behind_open, behind_close, parse_name,
}

-- The byte does not stand in the text.
abbrev pub Lacks : ℕ → List ℕ → Type 0
Lacks c xs = All (λ x. x ≢ c) xs

-- What `cut` finds.
record Cut (c : ℕ) (xs before behind : List ℕ) : Type 0 where
  pub whole : xs ≡ before ++ (c ∷ behind)
  pub lacks : Lacks c before

parts_eq :
    {a b c d : List ℕ}
    → ◌≡◌ {A = Option (List ℕ × List ℕ)} (some (a, b)) (some (c, d))
    → (a ≡ c) × (b ≡ d)
parts_eq e = (ground arith, ground arith)

cut-Cut :
    (c : ℕ) (xs : List ℕ) {before behind : List ℕ}
    → cut c xs ≡ some (before, behind)
    → Cut c xs before behind
unfolding cut
cut-Cut c [] e = absurd (ground arith)
cut-Cut c (x ∷ xs) {before} {behind} e = elim (Bool-cases (x == c)) [
  | inl here ↦
      let f = parts_eq (rw here at e) in
      subst (λ a. Cut c (x ∷ xs) a behind) f.0
        (record { whole = ap₂ ◌∷◌ (==→eq x c here) f.1; lacks = tt })
  | inr there ↦ elim (Option-cases (cut c xs)) [
    | inl nothing ↦ absurd (ground (arith, rw (there, nothing) at e))
    | inr ((a, d), found) ↦
        let f = parts_eq (rw (there, found) at e) in
        let rest = cut-Cut c xs found in
        subst (λ t. Cut c (x ∷ xs) t behind) f.0
          (subst (λ t. Cut c (x ∷ xs) (x ∷ a) t) f.1
            (record { whole = ap (λ t. x ∷ t) rest.whole; lacks = (ground arith, rest.lacks) }))
  ]
]

cut_append :
    (c : ℕ) (before behind : List ℕ)
    → Lacks c before
    → cut c (before ++ (c ∷ behind)) ≡ some (before, behind)
unfolding cut
cut_append c [] behind h = ground arith
cut_append c (x ∷ xs) behind h =
    let other : (x == c) ≡ false = ground arith in rw (other, cut_append c xs behind h.1) refl

same_text→eq : (xs ys : List ℕ) → same_text xs ys ≡ true → xs ≡ ys
same_text→eq [] [] e = refl
same_text→eq [] (y ∷ ys) e = absurd (ground arith)
same_text→eq (x ∷ xs) [] e = absurd (ground arith)
same_text→eq (x ∷ xs) (y ∷ ys) e = elim (Bool-cases (x == y)) [
  | inl same ↦ ap₂ ◌∷◌ (==→eq x y same) (same_text→eq xs ys (rw same at e))
  | inr apart ↦ absurd (ground (arith, rw apart at e))
]

some_eq : {m m' : Mode} → some m ≡ some m' → m ≡ m'
some_eq e = cc

find_mode→eq : (text : List ℕ) {m : Mode} → find_mode text ≡ some m → text ≡ mode_name m
unfolding find_mode
find_mode→eq text {m} e = elim (Bool-cases (same_text text (mode_name null))) [
  | inl e1 ↦ same_text→eq _ _ e1 ∙ ap mode_name (some_eq (rw e1 at e))
  | inr n1 ↦ elim (Bool-cases (same_text text (mode_name cbc_plain))) [
    | inl e2 ↦ same_text→eq _ _ e2 ∙ ap mode_name (some_eq (rw (n1, e2) at e))
    | inr n2 ↦ elim (Bool-cases (same_text text (mode_name cbc_essiv))) [
      | inl e3 ↦ same_text→eq _ _ e3 ∙ ap mode_name (some_eq (rw (n1, n2, e3) at e))
      | inr n3 ↦ absurd (ground (arith, rw (n1, n2, n3) at e))
    ]
  ]
]

find_mode-mode_name : (m : Mode) → find_mode (mode_name m) ≡ some m
unfolding find_mode
find_mode-mode_name null = refl
find_mode-mode_name cbc_plain = refl
find_mode-mode_name cbc_essiv = refl

All-append : (P : ℕ → Type 0) (xs ys : List ℕ) → All P xs → All P ys → All P (xs ++ ys)
All-append P [] ys h k = k
All-append P (x ∷ xs) ys h k = (h.0, All-append P xs ys h.1 k)

behind-All : (P : ℕ → Type 0) (xs ys : List ℕ) → All P (xs ++ ys) → All P ys
behind-All P [] ys h = h
behind-All P (x ∷ xs) ys h = behind-All P xs ys h.1

mode_name-Lacks_close : (m : Mode) → Lacks b')' (mode_name m)
mode_name-Lacks_close null = ground arith
mode_name-Lacks_close cbc_plain = ground arith
mode_name-Lacks_close cbc_essiv = ground arith

mode_name-Lacks_open : (m : Mode) → Lacks b'(' (mode_name m)
mode_name-Lacks_open null = ground arith
mode_name-Lacks_open cbc_plain = ground arith
mode_name-Lacks_open cbc_essiv = ground arith

-- MODE(PRIMITIVE), with no other closing parenthesis.
abbrev pub Named : Mode → List ℕ → List ℕ → Type 0
Named m prim text = (text ≡ mode_name m ++ (b'(' ∷ (prim ++ (b')' ∷ [])))) × Lacks b')' prim

module _ (m : Mode) (prim : List ℕ) where
  mode_lem :
      (mode p : List ℕ) (o : Option Mode)
      → find_mode mode ≡ o
      → with_mode o p ≡ ok m prim
      → (mode ≡ mode_name m) × (p ≡ prim)
  mode_lem mode p none e h = absurd (ground arith)
  mode_lem mode p (some m') e h =
      let same : m' ≡ m = cc in (find_mode→eq mode e ∙ ap mode_name same, cc)

  open_lem :
      (inner : List ℕ) (o : Option (List ℕ × List ℕ))
      → cut b'(' inner ≡ o
      → behind_open o ≡ ok m prim
      → inner ≡ mode_name m ++ (b'(' ∷ prim)
  open_lem inner none e h = absurd (ground arith)
  open_lem inner (some (mode, p)) e h =
      let (f, f') = mode_lem mode p (find_mode mode) refl h in
      (cut-Cut b'(' inner e).whole ∙ ap₂ (λ x y. x ++ (b'(' ∷ y)) f f'

  close_lem :
      (text : List ℕ) (o : Option (List ℕ × List ℕ))
      → cut b')' text ≡ o
      → behind_close o ≡ ok m prim
      → Named m prim text
  close_lem text none e h = absurd (ground arith)
  close_lem text (some (inner, x ∷ xs)) e h = absurd (ground arith)
  close_lem text (some (inner, [])) e h =
      let c = cut-Cut b')' text e in
      let f = open_lem inner (cut b'(' inner) refl h in
      let l : Lacks b')' (mode_name m ++ (b'(' ∷ prim)) = subst (Lacks b')') f c.lacks in
      (
        c.whole
            ∙ ap (λ t. t ++ (b')' ∷ [])) f
            ∙ append_assoc (mode_name m) (b'(' ∷ prim) (b')' ∷ []),
        (behind-All (λ x. x ≢ b')') (mode_name m) (b'(' ∷ prim) l).1,
      )

  -- A name is accepted, for the mode `m` and the primitive `prim`, exactly if it is put together
  -- from these.
  pub parse_name_lem : (text : List ℕ) → (parse_name text ≡ ok m prim) ↔ Named m prim text
  unfolding parse_name
  parse_name_lem text = (close_lem text (cut b')' text) refl, accept)
    where
      accept : Named m prim text → behind_close (cut b')' text) ≡ ok m prim
      accept (e, lacks) =
          let inner = mode_name m ++ (b'(' ∷ prim) in
          let whole = e ∙ sym (append_assoc (mode_name m) (b'(' ∷ prim) (b')' ∷ [])) in
          let l : Lacks b')' inner =
            All-append (λ x. x ≢ b')') (mode_name m) (b'(' ∷ prim) (mode_name-Lacks_close m)
              (ground arith, lacks) in
          ap (λ t. behind_close (cut b')' t)) whole
          ∙ ap behind_close (cut_append b')' inner [] l)
          ∙ ap behind_open (cut_append b'(' (mode_name m) prim (mode_name-Lacks_open m))
          ∙ ap (λ o. with_mode o prim) (find_mode-mode_name m)
