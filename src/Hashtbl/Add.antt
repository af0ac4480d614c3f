-- ===== src/Hashtbl/Add.antt =====
-- `hashtbl_add_element`: a new element can be found, and an element with a key that is there is not
-- added.
use native.Mathlib.Nat.{mod-eq_of_lt}
use scubed.Base.{
  ℕ, ◌+◌, ◌^◌, ◌<◌, ◌≡◌, ◌≢◌, ◌⊎◌, inl, inr, refl, sym, ◌∙◌, ap, List, [], ◌∷◌, length, get_or,
  arith, ◌==◌, ==→eq, eq→==, some, none, Bool, Bool-cases, true, false, All, get_or-set_self,
  get_or-set_ne, length-set, u32, bind_some, lt→ltb, ltb, ◌>>=◌,
}
use scubed.Hashtbl.{
  Element, Hashtbl, Target, by_key, compare_target, find_in, get_bucket, add_element, enchain,
  unique_key, find_element_in_bucket, find_element_bykey, lock, unlock_element_byptr, holds,
  unlocked, found, checked_by,
}
use scubed.Hashtbl.Invariant.{total-set, Distinct, IsValid, get_bucket-lt, same_key_self, set_every}

-- `elt` was added to `h`, in the bucket `b`.
pub record Added (h h' : Hashtbl) (elt : Element) (b : ℕ) : Type 0 where
  pub valid : IsValid h'
  pub counted : h'.count ≡ h.count + 1
  pub here : find_element_bykey (unlock_element_byptr h' elt.ptr) elt.key ≡ some (h', some elt)
  pub others :
      (target : Target) (c : ℕ)
      → (compare_target h.key_size target elt ≡ false) ⊎ (c ≢ b)
      → find_in h.key_size target (get_or h'.buckets c [])
        ≡ find_in h.key_size target (get_or h.buckets c [])

pub lock-unlock :
    (g : Hashtbl) (ptr : ℕ)
    → holds ptr g.held ≡ false
    → (g' : Hashtbl) × (lock g ptr ≡ some g') × (unlock_element_byptr g' ptr ≡ g)
unfolding lock unlock_element_byptr
lock-unlock g ptr free = elim (Bool-cases g.thread_safe) [
  | inl safe ↦
      (record g { held = ptr ∷ g.held }, rw (safe, free) refl, rw (safe, eq→== ptr ptr refl) refl)
  | inr plain ↦ (g, rw (plain) refl, rw (plain) refl)
]

module _ (h : Hashtbl) (elt : Element) (k : IsValid h) (few : h.count + 1 < 2 ^ 32) where
  abbrev bucket : ℕ
  bucket = get_bucket h elt.key

  abbrev chain : List Element
  chain = get_or h.buckets bucket []

  bucket-lt : bucket < length h.buckets
  bucket-lt = omega (arith, get_bucket-lt h elt.key k, k.all_buckets)

  abbrev with_elt : Hashtbl
  with_elt = enchain (record h { count = u32 (h.count + 1) }) elt bucket

  with_elt-IsValid :
      (h.unique ≡ true → find_in h.key_size (by_key elt.key) chain ≡ none) → IsValid with_elt
  unfolding get_bucket
  with_elt-IsValid fresh = record {
    some_bits = k.some_bits;
    few_bits = k.few_bits;
    all_buckets = length-set h.buckets bucket (elt ∷ chain) ∙ k.all_buckets;
    counted = omega (arith, total-set h.buckets bucket (elt ∷ chain) bucket-lt, k.counted);
    placed =
        set_every (λ b c. All (λ (e : Element). get_bucket h e.key ≡ b) c) h.buckets bucket
          (elt ∷ chain) bucket-lt k.placed (refl, k.placed bucket);
    once = λ u.
        set_every (λ b c. Distinct h.key_size c) h.buckets bucket (elt ∷ chain) bucket-lt (k.once u)
          (fresh u, k.once u bucket);
  }

  others_kept :
      (target : Target) (c : ℕ)
      → (compare_target h.key_size target elt ≡ false) ⊎ (c ≢ bucket)
      → find_in h.key_size target (get_or with_elt.buckets c [])
        ≡ find_in h.key_size target (get_or h.buckets c [])
  unfolding find_in
  others_kept target c apart = elim (Bool-cases (c == bucket)) [
    | inl same ↦
        let e = ==→eq c bucket same in
        elim apart [
          | inl differs ↦
              ap (λ b. find_in h.key_size target (get_or with_elt.buckets b [])) e
              ∙ ap (find_in h.key_size target)
                  (get_or-set_self h.buckets bucket (elt ∷ chain) [] bucket-lt)
              ∙ rw (differs) refl
              ∙ ap (λ b. find_in h.key_size target (get_or h.buckets b [])) (sym e)
          | inr ne ↦ absurd (ne e)
        ]
    | inr differ ↦
        ap (find_in h.key_size target)
          (get_or-set_ne h.buckets bucket c (elt ∷ chain) [] (ground arith))
  ]

  abbrev opened : Hashtbl
  opened = record with_elt { held = h.held }

  unlock_step : unlock_element_byptr with_elt elt.ptr ≡ opened
  unfolding unlock_element_byptr
  unlock_step = elim (Bool-cases h.thread_safe) [
    | inl safe ↦ rw (safe, eq→== elt.ptr elt.ptr refl) refl
    | inr plain ↦ rw (plain) refl
  ]

  lock_step : holds elt.ptr h.held ≡ false → lock opened elt.ptr ≡ some with_elt
  unfolding lock
  lock_step free = elim (Bool-cases h.thread_safe) [
    | inl safe ↦ rw (safe, free) refl
    | inr plain ↦ rw (plain) refl
  ]

  found_first : find_in h.key_size (by_key elt.key) (get_or with_elt.buckets bucket []) ≡ some elt
  unfolding find_in
  found_first =
      ap (find_in h.key_size (by_key elt.key))
        (get_or-set_self h.buckets bucket (elt ∷ chain) [] bucket-lt)
      ∙ rw (same_key_self h.key_size elt.key) refl

  found_opened :
      holds elt.ptr h.held ≡ false → find_element_bykey opened elt.key ≡ some (with_elt, some elt)
  unfolding find_element_bykey find_element_in_bucket get_bucket
  found_opened free =
      let small : ltb bucket (2 ^ h.key_bits) ≡ true = lt→ltb _ _ (get_bucket-lt h elt.key k) in
      rw (small) (ap (found opened) found_first ∙ bind_some _ (lock_step free))

  abbrev counted : Hashtbl
  counted = record h { count = u32 (h.count + 1) }

  small : ltb bucket (2 ^ h.key_bits) ≡ true
  small = lt→ltb _ _ (get_bucket-lt h elt.key k)

  check_passes :
      (u : Bool)
      → (u ≡ true → find_in h.key_size (by_key elt.key) chain ≡ none)
      → checked_by u counted elt bucket ≡ some (counted, true)
  unfolding unique_key find_element_in_bucket
  check_passes false fresh = refl
  check_passes true fresh =
      rw (small) (ap (λ r. found counted r >>= (λ r. some (unlocked r))) (fresh refl))

  -- An element whose pointer is not locked, with a key that no element has, or in a table where keys
  -- may come twice: it is added, is found then, once its lock is released, under its key, and the
  -- searches for anything else find what they found before.
  pub add_element_lem :
      (h.unique ≡ true → find_in h.key_size (by_key elt.key) chain ≡ none)
      → holds elt.ptr h.held ≡ false
      → (h' : Hashtbl) × (add_element h elt ≡ some (h', true)) × Added h h' elt bucket
  unfolding add_element
  add_element_lem fresh free = (
    with_elt,
    bind_some _ (check_passes h.unique fresh),
    record {
      valid = with_elt-IsValid fresh;
      counted = mod-eq_of_lt few;
      here = ap (λ x. find_element_bykey x elt.key) unlock_step ∙ found_opened free;
      others = others_kept;
    },
  )

  check_fails :
      (u : Bool) (old : Element)
      → u ≡ true
      → find_in h.key_size (by_key elt.key) chain ≡ some old
      → holds old.ptr h.held ≡ false
      → checked_by u counted elt bucket ≡ some (counted, false)
  unfolding unique_key find_element_in_bucket
  check_fails false old u e free = absurd (ground arith)
  check_fails true old u e free =
      let (g, locked, opened_again) = lock-unlock counted old.ptr free in
      rw (small) (
        ap (λ r. found counted r >>= (λ r. some (unlocked r))) e
        ∙ ap (λ o. (o >>= (λ g. some (g, some old))) >>= (λ r. some (unlocked r))) locked
        ∙ ap (λ x. some (x, false)) opened_again)

  -- Where keys come once, an element with the key of one that is there, and is not locked, is not
  -- added, and the table stays as it is.
  pub add_element_twice :
      (old : Element)
      → h.unique ≡ true
      → find_in h.key_size (by_key elt.key) chain ≡ some old
      → holds old.ptr h.held ≡ false
      → add_element h elt ≡ some (h, false)
  unfolding add_element
  add_element_twice old u e free =
      bind_some _ (check_fails h.unique old u e free)
      ∙ ap (λ c. some (record h { count = c }, false)) (omega (arith, k.counted))
