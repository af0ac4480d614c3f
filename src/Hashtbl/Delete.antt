-- ===== src/Hashtbl/Delete.antt =====
-- `hashtbl_delete_element_bykey` and `hashtbl_delete_element_byptr`.
use scubed.Base.{
  ℕ, ◌+◌, ◌-◌, ◌^◌, ◌<◌, ◌≡◌, ◌≢◌, refl, sym, ◌∙◌, ap, List, [], ◌∷◌, ◌++◌, ltb-false, subst, none,
  ◌≤◌, length, get_or, set, arith, some, none, Bool-cases, if◌then◌else◌, true, false, All,
  get_or-set_self, get_or-set_ne, length-set, lt→ltb, ltb, inl, inr,
}
use scubed.Hashtbl.{
  KeySize, Element, Hashtbl, Target, by_key, compare_target, find_in, get_bucket, holds, lock,
  without, delete_found, delete_element_from_bucket,
}
use scubed.Hashtbl.Invariant.{total-set, Distinct, IsValid, set_every}

module _ (size : KeySize) (target : Target) where
  length-without :
      (es : List Element) (e : Element)
      → find_in size target es ≡ some e
      → length (without size target es) + 1 ≡ length es
  unfolding find_in
  length-without [] e h = absurd (ground arith)
  length-without (x ∷ xs) e h = elim (Bool-cases (compare_target size target x)) [
    | inl fits ↦ rw (fits) (omega arith)
    | inr differs ↦ rw (differs) (
        omega (
          arith,
          length-without xs e
              (sym (ap (λ t. if t then some x else find_in size target xs) differs) ∙ h),
        ))
  ]

  All-without :
      (P : Element → Type 0) (es : List Element) → All P es → All P (without size target es)
  All-without P [] h = h
  All-without P (x ∷ xs) h = elim (Bool-cases (compare_target size target x)) [
    | inl fits ↦ rw (fits) h.1
    | inr differs ↦ rw (differs) (h.0, All-without P xs h.1)
  ]

  absent-without :
      (t : Target) (es : List Element)
      → find_in size t es ≡ none
      → find_in size t (without size target es) ≡ none
  unfolding find_in
  absent-without t [] h = refl
  absent-without t (x ∷ xs) h = elim (Bool-cases (compare_target size t x)) [
    | inl hit ↦
        absurd (ground (arith, sym (ap (λ b. if b then some x else find_in size t xs) hit) ∙ h))
    | inr miss ↦
        let rest = sym (ap (λ b. if b then some x else find_in size t xs) miss) ∙ h in
        elim (Bool-cases (compare_target size target x)) [
          | inl fits ↦ rw (fits) rest
          | inr differs ↦ rw (differs, miss) (absent-without t xs rest)
        ]
  ]

  Distinct-without : (es : List Element) → Distinct size es → Distinct size (without size target es)
  Distinct-without [] h = h
  Distinct-without (x ∷ xs) h = elim (Bool-cases (compare_target size target x)) [
    | inl fits ↦ rw (fits) h.1
    | inr differs ↦ rw (differs) (absent-without (by_key x.key) xs h.0, Distinct-without xs h.1)
  ]

-- `new` is `old` without `e`, which is the first element there that fits.
pub record Unchained (size : KeySize) (target : Target) (e : Element) (old new : List Element)
    : Type 0 where
  pub front : List Element
  pub back : List Element
  pub before : old ≡ front ++ (e ∷ back)
  pub after : new ≡ front ++ back
  pub fits : compare_target size target e ≡ true
  pub passed : All (λ x. compare_target size target x ≡ false) front

without-Unchained :
    (size : KeySize) (target : Target) (es : List Element) (e : Element)
    → find_in size target es ≡ some e
    → Unchained size target e es (without size target es)
unfolding find_in
without-Unchained size target [] e h = absurd (ground arith)
without-Unchained size target (x ∷ xs) e h = elim (Bool-cases (compare_target size target x)) [
  | inl fits ↦
      let found = sym (ap (λ t. if t then some x else find_in size target xs) fits) ∙ h in
      let same : x ≡ e = ap (λ o. elim o [ none ↦ x | some y ↦ y ]) found in
      record {
        front = [];
        back = xs;
        before = ap (λ y. y ∷ xs) same;
        after = ap (λ t. if t then xs else x ∷ without size target xs) fits;
        fits = ap (compare_target size target) (sym same) ∙ fits;
        passed = tt;
      }
  | inr differs ↦
      let later = sym (ap (λ t. if t then some x else find_in size target xs) differs) ∙ h in
      let u = without-Unchained size target xs e later in
      record {
        front = x ∷ u.front;
        back = u.back;
        before = ap (λ es. x ∷ es) u.before;
        after =
            ap (λ t. if t then xs else x ∷ without size target xs) differs
            ∙ ap (λ es. x ∷ es) u.after;
        fits = u.fits;
        passed = (differs, u.passed);
      }
]

-- `e` was deleted from the bucket `b` of `h`.
pub record Deleted (h h' : Hashtbl) (target : Target) (e : Element) (b : ℕ) : Type 0 where
  pub valid : IsValid h'
  pub counted : h'.count + 1 ≡ h.count
  pub handed : h'.freed ≡ e.ptr ∷ h.freed
  pub held : h'.held ≡ h.held
  pub sized : h'.key_size ≡ h.key_size
  pub masked : h'.key_bits ≡ h.key_bits
  pub here : Unchained h.key_size target e (get_or h.buckets b []) (get_or h'.buckets b [])
  pub others : (c : ℕ) → c ≢ b → get_or h'.buckets c [] ≡ get_or h.buckets c []

module _ (h : Hashtbl) (target : Target) (b : ℕ) (k : IsValid h) (lt : b < 2 ^ h.key_bits) where
  abbrev chain : List Element
  chain = get_or h.buckets b []

  inside : b < length h.buckets
  inside = omega (arith, k.all_buckets)

  -- On a valid table with 2 ^ 31 elements at most, the first element of a bucket that fits, if its data
  -- is not locked, is taken out of its chain, which otherwise stays as it is, and handed to the freer;
  -- the count goes down by one, the table stays valid, and the locks and all other chains stay.
  pub delete_element_lem :
      (e : Element)
      → find_in h.key_size target chain ≡ some e
      → holds e.ptr h.held ≡ false
      → h.count ≤ 2 ^ 31
      → (h' : Hashtbl) × (delete_element_from_bucket h target b ≡ some h') × Deleted h h' target e b
  unfolding delete_element_from_bucket lock get_bucket
  delete_element_lem e hit free few =
      let small : ltb b (2 ^ h.key_bits) ≡ true = lt→ltb _ _ lt in
      let less = length-without h.key_size target chain e hit in
      let sum = total-set h.buckets b (without h.key_size target chain) inside in
      let some_left : ltb 0 h.count ≡ true =
        lt→ltb 0 h.count (omega (arith, k.counted, sum, less)) in
      let no_less : ltb (2 ^ 31) h.count ≡ false = ltb-false _ _ few in
      (
        record h {
          count = h.count - 1;
          buckets = set h.buckets b (without h.key_size target chain);
          freed = e.ptr ∷ h.freed;
        },
        rw (small) (
            ap (delete_found h target b) hit ∙ elim (Bool-cases h.thread_safe) [
              | inl safe ↦ rw (safe, free, some_left, no_less) refl
              | inr plain ↦ rw (plain, some_left, no_less) refl
            ]),
        record {
          valid = record {
            some_bits = k.some_bits;
            few_bits = k.few_bits;
            all_buckets = length-set h.buckets b (without h.key_size target chain) ∙ k.all_buckets;
            counted = omega (arith, k.counted, sum, less);
            placed =
                set_every (λ c es. All (λ (x : Element). get_bucket h x.key ≡ c) es) h.buckets b
                  (without h.key_size target chain) inside k.placed
                  (All-without h.key_size target (λ (x : Element). get_bucket h x.key ≡ b) chain
                    (k.placed b));
            once = λ u.
                set_every (λ c es. Distinct h.key_size es) h.buckets b
                  (without h.key_size target chain) inside (k.once u)
                  (Distinct-without h.key_size target chain (k.once u b));
          };
          counted = omega (arith, k.counted, sum, less);
          handed = refl;
          held = refl;
          sized = refl;
          masked = refl;
          here =
              subst (Unchained h.key_size target e chain)
                (sym (get_or-set_self h.buckets b (without h.key_size target chain) [] inside))
                (without-Unchained h.key_size target chain e hit);
          others = λ c ne.
              get_or-set_ne h.buckets b c (without h.key_size target chain) [] (λ e2. ne (sym e2));
        },
      )
