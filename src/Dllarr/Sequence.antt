-- ===== src/Dllarr/Sequence.antt =====
-- The list as a sequence: what the operations do to it.
use scubed.Base.{
  ℕ, zero, suc, ◌+◌, ◌-◌, ◌^◌, ◌≤◌, ◌<◌, ◌≡◌, refl, sym, ◌∙◌, ap, subst, List, [], ◌∷◌, length,
  get_or, arith, ◌==◌, some, if◌then◌else◌, false, bind_some, Bool-cases, inl, inr,
}
use scubed.Dllarr.{
  Dllarr, head, tail, init, insert, remove, shift, pop, iterate_loop, iterate, cleared,
}
use scubed.Dllarr.Linked.{Linked, Linked-ext, access_lem, tail_index, Linked-sound}
use scubed.Dllarr.Places.{inserted_cases, removed_cases}
use scubed.Dllarr.Room.{spot, insert_places}
use scubed.Dllarr.Remove.{remove_places}

-- The elements of the list are `xs`.
abbrev pub Holds : Dllarr → List ℕ → Type 0
Holds a xs = Linked a (λ i. get_or xs i tail) (length xs)

-- An element that can be inserted.
pub record Free (a : Dllarr) (x : ℕ) : Type 0 where
  pub no_prev : a.prev x ≡ 0
  pub no_next : a.next x ≡ 0
  pub no_index : a.index x ≡ 0

abbrev pub insert_at : List ℕ → ℕ → ℕ → List ℕ
insert_at xs zero x = x ∷ xs
insert_at [] (suc k) x = x ∷ []
insert_at (y ∷ ys) (suc k) x = y ∷ insert_at ys k x

abbrev pub remove_at : List ℕ → ℕ → List ℕ
remove_at [] k = []
remove_at (y ∷ ys) zero = ys
remove_at (y ∷ ys) (suc k) = y ∷ remove_at ys k

length-insert_at : (xs : List ℕ) (k x : ℕ) → length (insert_at xs k x) ≡ suc (length xs)
length-insert_at xs zero x = refl
length-insert_at [] (suc k) x = refl
length-insert_at (y ∷ ys) (suc k) x = ap suc (length-insert_at ys k x)

pub length-remove_at :
    (xs : List ℕ) (k n : ℕ) → k < length xs → length xs ≡ suc n → length (remove_at xs k) ≡ n
length-remove_at [] k n h e = absurd (omega arith)
length-remove_at (y ∷ ys) zero n h e = omega arith
length-remove_at (y ∷ ys) (suc k) zero h e = absurd (omega arith)
length-remove_at (y ∷ ys) (suc k) (suc n) h e =
    ap suc (length-remove_at ys k n (omega arith) (omega arith))

insert_before :
    (xs : List ℕ) (k x i : ℕ)
    → k ≤ length xs
    → i < k
    → get_or (insert_at xs k x) i tail ≡ get_or xs i tail
insert_before xs zero x i hk h = absurd (omega arith)
insert_before [] (suc k) x i hk h = absurd (omega arith)
insert_before (y ∷ ys) (suc k) x zero hk h = refl
insert_before (y ∷ ys) (suc k) x (suc i) hk h = insert_before ys k x i (omega arith) (omega arith)

insert_here : (xs : List ℕ) (k x : ℕ) → k ≤ length xs → get_or (insert_at xs k x) k tail ≡ x
insert_here xs zero x h = refl
insert_here [] (suc k) x h = absurd (omega arith)
insert_here (y ∷ ys) (suc k) x h = insert_here ys k x (omega arith)

insert_behind :
    (xs : List ℕ) (k x i : ℕ)
    → k ≤ length xs
    → k ≤ i
    → get_or (insert_at xs k x) (suc i) tail ≡ get_or xs i tail
insert_behind xs zero x i hk h = refl
insert_behind [] (suc k) x i hk h = absurd (omega arith)
insert_behind (y ∷ ys) (suc k) x zero hk h = absurd (omega arith)
insert_behind (y ∷ ys) (suc k) x (suc i) hk h = insert_behind ys k x i (omega arith) (omega arith)

remove_before : (xs : List ℕ) (k i : ℕ) → i < k → get_or (remove_at xs k) i tail ≡ get_or xs i tail
remove_before [] k i h = refl
remove_before (y ∷ ys) zero i h = absurd (omega arith)
remove_before (y ∷ ys) (suc k) zero h = refl
remove_before (y ∷ ys) (suc k) (suc i) h = remove_before ys k i (omega arith)

remove_behind :
    (xs : List ℕ) (k i : ℕ) → k ≤ i → get_or (remove_at xs k) i tail ≡ get_or xs (suc i) tail
remove_behind [] k i h = refl
remove_behind (y ∷ ys) zero i h = refl
remove_behind (y ∷ ys) (suc k) zero h = absurd (omega arith)
remove_behind (y ∷ ys) (suc k) (suc i) h = remove_behind ys k i (omega arith)

-- `dllarr_init` of a structure without links is an empty list.
pub init_lem :
    (a : Dllarr)
    → a.prev head ≡ 0
    → a.next tail ≡ 0
    → (a' : Dllarr) × (init a ≡ some a') × Holds a' []
unfolding init
init_lem a e1 e2 = (
  cleared a,
  rw (e1, e2) refl,
  record {
    end = refl;
    elements = λ i h. absurd (omega arith);
    forward = λ i h. rw (none_behind i h) refl;
    backward = λ i h. rw (none_behind i h) refl;
    indexed = λ i h. sym (none_behind i h);
    marked = λ i h. refl;
    slots = λ i h. absurd (omega arith);
    allocated = refl;
    room = omega arith;
    some_room = omega arith;
    small = omega arith;
    head_prev = e1;
    tail_next = e2;
    head_index = refl;
  },
)
  where
    none_behind : (i : ℕ) → i ≤ 0 → i ≡ 0
    none_behind i h = omega arith

-- A free element goes in front of the element at the place `k`, or behind all of them.
pub insert_lem :
    (a : Dllarr) (xs : List ℕ) (k x : ℕ)
    → Holds a xs
    → k ≤ length xs
    → tail < x
    → Free a x
    → length xs < 2 ^ 29
    → (a' : Dllarr) × (insert a x (spot (λ i. get_or xs i tail) (length xs) k) ≡ some (a', x))
      × Holds a' (insert_at xs k x)
insert_lem a xs k x l h big u few =
    let (a', e, l') = insert_places l k h x big u.no_prev u.no_next u.no_index few in
    (
      a',
      e,
      subst (Linked a' (λ i. get_or (insert_at xs k x) i tail)) (sym (length-insert_at xs k x)) (
          Linked-ext
            (λ i hi.
              inserted_cases (λ i. get_or xs i tail) k x
                (λ i y. y ≡ get_or (insert_at xs k x) i tail)
                (λ i lo. sym (insert_before xs k x i h lo)) (sym (insert_here xs k x h))
                (λ i lo. sym (insert_behind xs k x i h lo)) i)
            l'),
    )

-- The element at the place `k` goes out, and is free again.
pub remove_lem :
    (a : Dllarr) (xs : List ℕ) (k : ℕ)
    → Holds a xs
    → k < length xs
    → (a' : Dllarr) × (remove a (get_or xs k tail) ≡ some (a', get_or xs k tail))
      × Holds a' (remove_at xs k)
      × Free a' (get_or xs k tail)
remove_lem a xs k l h =
    let n = length xs - 1 in
    let size : length xs ≡ suc n = omega arith in
    let (a', e, r) =
      remove_places (subst (Linked a (λ i. get_or xs i tail)) size l) k (omega arith) in
    (
      a',
      e,
      subst (Linked a' (λ i. get_or (remove_at xs k) i tail)) (sym (length-remove_at xs k n h size))
          (Linked-ext
            (λ i hi.
              removed_cases (λ i. get_or xs i tail) k (λ i y. y ≡ get_or (remove_at xs k) i tail)
                (λ i lo. sym (remove_before xs k i lo)) (λ i lo. sym (remove_behind xs k i lo)) i)
            r.linked),
      record { no_prev = r.no_prev; no_next = r.no_next; no_index = r.no_index },
    )

-- `dllarr_shift` and `dllarr_pop` take the first and the last element out, and give NULL if there is
-- none.
pub shift_lem :
    (a : Dllarr) (x : ℕ) (xs : List ℕ)
    → Holds a (x ∷ xs)
    → (a' : Dllarr) × (shift a ≡ some (a', x)) × Holds a' xs × Free a' x
unfolding shift
shift_lem a x xs l =
    let (a', e, held, r) = remove_lem a (x ∷ xs) 0 l (omega arith) in
    let filled : (suc (length xs) == 0) ≡ false = ground arith in
    let start = (access_lem a _ _ l).first_one ∙ ap (λ t. some (if t then 0 else x)) filled in
    let some_elt : (x == 0) ≡ false = let big = l.elements 0 (omega arith) in ground arith in
    (a', bind_some _ start ∙ rw (some_elt) e, held, r)

pub shift-none : (a : Dllarr) → Holds a [] → shift a ≡ some (a, 0)
unfolding shift
shift-none a l = bind_some _ (access_lem a _ _ l).first_one

pub pop_lem :
    (a : Dllarr) (x : ℕ) (xs : List ℕ)
    → Holds a (x ∷ xs)
    → (a' : Dllarr) × (pop a ≡ some (a', get_or (x ∷ xs) (length xs) tail))
      × Holds a' (remove_at (x ∷ xs) (length xs))
      × Free a' (get_or (x ∷ xs) (length xs) tail)
unfolding pop
pop_lem a x xs l =
    let (a', e, held, r) = remove_lem a (x ∷ xs) (length xs) l (omega arith) in
    let filled : (suc (length xs) == 0) ≡ false = ground arith in
    let same : suc (length xs) - 1 ≡ length xs = omega arith in
    let end =
      (access_lem a _ _ l).last_one
      ∙ ap (λ t. some (if t then 0 else get_or (x ∷ xs) (suc (length xs) - 1) tail)) filled
      ∙ ap (λ i. some (get_or (x ∷ xs) i tail)) same in
    let some_elt : (get_or (x ∷ xs) (length xs) tail == 0) ≡ false =
      let big = l.elements (length xs) (omega arith) in ground arith in
    (a', bind_some _ end ∙ rw (some_elt) e, held, r)

-- What `dllarr_iterate` returns of a sequence.
abbrev pub first_hit : (ℕ → ℕ) → List ℕ → ℕ
first_hit func [] = 0
first_hit func (x ∷ xs) = if func x == 0 then first_hit func xs else func x

-- In a list that holds `xs`, `dllarr_iterate` ends, with what `func` gives for the first element for
-- which that is not NULL, and with NULL if there is none.
pub iterate_lem :
    (a : Dllarr) (xs : List ℕ) (func : ℕ → ℕ)
    → Holds a xs
    → iterate a func ≡ some (first_hit func xs)
unfolding iterate iterate_loop
iterate_lem a xs func l =
    rw (Linked-sound (length xs) l, tail_index l, l.forward 0 (omega arith))
      (loop (length xs + 1) xs 0 (omega arith) (λ i hi. ap (λ j. get_or xs j tail) (plain i))
        (plain (length xs)))
  where
    plain : (i : ℕ) → 0 + i ≡ i
    plain i = omega arith

    at_place : (j : ℕ) → j ≡ j + 0
    at_place j = omega arith

    hit :
        (r later : ℕ) → (if r == 0 then some later else some r) ≡ some (if r == 0 then later else r)
    hit r later = elim (Bool-cases (r == 0)) [
      | inl none_yet ↦ rw (none_yet) refl
      | inr there ↦ rw (there) refl
    ]

    onwards : (j i : ℕ) → suc j + i ≡ j + suc i
    onwards j i = omega arith

    loop :
        (fuel : ℕ) (ys : List ℕ) (j : ℕ)
        → fuel ≡ length ys + 1
        → ((i : ℕ) → i ≤ length ys → get_or xs (j + i) tail ≡ get_or ys i tail)
        → j + length ys ≡ length xs
        → iterate_loop fuel a func (get_or xs j tail) ≡ some (first_hit func ys)
    loop zero ys j enough same e = absurd (omega arith)
    loop (suc fuel) [] j enough same e =
        let here = ap (λ i. get_or xs i tail) (at_place j) ∙ same 0 (omega arith) in rw (here) refl
    loop (suc fuel) (y ∷ ys) j enough same e =
        let inside : j < length xs = omega arith in
        let big = l.elements j inside in
        let here = ap (λ i. get_or xs i tail) (at_place j) ∙ same 0 (omega arith) in
        let not_tail : (get_or xs j tail == tail) ≡ false = ground arith in
        let not_head : (get_or xs j tail == head) ≡ false = ground arith in
        let rest =
          loop fuel ys (suc j) (omega arith)
            (λ i hi. ap (λ m. get_or xs m tail) (onwards j i) ∙ same (suc i) (omega arith))
            (omega arith) in
        rw (not_tail, not_head, l.forward (suc j) (omega arith), here, rest)
          (hit (func y) (first_hit func ys))
