-- ===== src/Dllarr/Linked.antt =====
-- The elements of a list, in order, and what the accesses give.
use scubed.Base.{
  ℕ, zero, suc, ◌+◌, ◌-◌, if◌then◌else◌, ◌^◌, ◌≤◌, ◌<◌, ◌≡◌, ◌≢◌, inl, inr, refl, sym, ◌∙◌, ap,
  length, get_or, arith, ◌==◌, ==→eq, some, eq→==, Bool-cases, true, false, not, ◌&&◌, Bool, le→leb,
  lt→ltb,
}
use scubed.Dllarr.{
  Dllarr, head, tail, magic_number, minus_one, sound, element, known, first, last, next_of, prev_of,
  nth, index_of, count,
}

-- The element in front of the place `i`.
abbrev pub back : (ℕ → ℕ) → ℕ → ℕ
back f zero = head
back f (suc i) = f i

-- The list has `n` elements, and `f` says which is where, with the tail behind the last one.
pub record Linked (a : Dllarr) (f : ℕ → ℕ) (n : ℕ) : Type 0 where
  pub end : f n ≡ tail
  pub elements : (i : ℕ) → i < n → tail < f i
  pub forward : (i : ℕ) → i ≤ n → a.next (back f i) ≡ f i
  pub backward : (i : ℕ) → i ≤ n → a.prev (f i) ≡ back f i
  pub indexed : (i : ℕ) → i ≤ n → a.index (f i) ≡ i
  pub marked : (i : ℕ) → i ≤ n → a.magic (f i) ≡ magic_number
  pub slots : (i : ℕ) → i < n → get_or a.array i 0 ≡ f i
  pub allocated : length a.array ≡ a.size
  pub room : n ≤ a.size
  pub some_room : 0 < a.size
  pub small : a.size < 2 ^ 30
  pub head_prev : a.prev head ≡ 0
  pub tail_next : a.next tail ≡ 0
  pub head_index : a.index head ≡ minus_one

pub and_lem : {s t : Bool} → s ≡ true → t ≡ true → (s && t) ≡ true
and_lem {s} {t} e1 e2 = rw (e1) e2

pub not_zero : (k : ℕ) → 0 < k → not (k == 0) ≡ true
not_zero k h = ground arith

module _ {a : Dllarr} {f : ℕ → ℕ} {n : ℕ} (k : Linked a f n) where
  pub at_least : (i : ℕ) → i ≤ n → tail ≤ f i
  at_least i h = elim (Bool-cases (i == n)) [
    | inl last_one ↦ omega (arith, k.end, ap f (==→eq i n last_one))
    | inr before ↦ let lt : i < n = ground arith in omega (arith, k.elements i lt)
  ]

  pub behind_head : (i : ℕ) → i ≤ n → head ≤ back f i
  behind_head zero h = omega arith
  behind_head (suc i) h = omega (arith, k.elements i (omega arith))

  -- No element is in two places.
  pub distinct : (i j : ℕ) → i ≤ n → j ≤ n → f i ≡ f j → i ≡ j
  distinct i j hi hj e = sym (k.indexed i hi) ∙ ap a.index e ∙ k.indexed j hj

  pub back-ne : (i j : ℕ) → i ≤ n → j ≤ n → i ≢ j → back f i ≢ back f j
  back-ne i j hi hj ne e =
      ne (distinct i j hi hj (sym (k.forward i hi) ∙ ap a.next e ∙ k.forward j hj))

  pub tail_index : a.index tail ≡ n
  tail_index = ap a.index (sym k.end) ∙ k.indexed n (omega arith)

  pub known_lem : (i : ℕ) → i ≤ n → known a (f i) ≡ true
  known_lem i h = and_lem (not_zero (f i) (omega (arith, at_least i h))) (eq→== _ _ (k.marked i h))

  -- The structure at the place `i`, or NULL behind the last one.
  pub element_lem : (i : ℕ) → i < n → element (f i) ≡ f i
  element_lem i h = let big = k.elements i h in ground arith

  pub element-tail : (i : ℕ) → i ≡ n → element (f i) ≡ 0
  element-tail i e = let at_tail = ap f e ∙ k.end in ground arith

  -- The structure at a place up to the end, or in front of one, where NULL stands for the ends.
  at_or_end : (i : ℕ) → i ≤ n → element (f i) ≡ (if i == n then 0 else f i)
  at_or_end i h = elim (Bool-cases (i == n)) [
    | inl end ↦ rw (end) (element-tail i (==→eq i n end))
    | inr inside ↦ let lt : i < n = ground arith in rw (inside) (element_lem i lt)
  ]

  before_or_end : (i : ℕ) → i ≤ n → element (back f i) ≡ (if i == 0 then 0 else f (i - 1))
  before_or_end zero h = refl
  before_or_end (suc i) h =
      let some_left : (suc i == 0) ≡ false = ground arith in
      let same : suc i - 1 ≡ i = omega arith in
      rw (some_left) (element_lem i (omega arith) ∙ ap f (sym same))

pub Linked-sound : {a : Dllarr} {f : ℕ → ℕ} (n : ℕ) → Linked a f n → sound a ≡ true
Linked-sound {a} {f} zero k =
    let first = k.forward 0 (omega arith) ∙ k.end in
    let last = ap a.prev (sym k.end) ∙ k.backward 0 (omega arith) in
    rw
      (
        k.head_prev,
        k.tail_next,
        k.head_index,
        tail_index k,
        lt→ltb _ _ k.some_room,
        le→leb _ _ k.room,
        first,
        last,
      )
      refl
Linked-sound {a} {f} (suc n) k =
    let some_left : (suc n == 0) ≡ false = ground arith in
    let first =
      not_zero (a.next head)
        (omega (arith, k.forward 0 (omega arith), at_least k 0 (omega arith))) in
    let last = not_zero (a.prev tail) (
      omega (
        arith,
        ap a.prev (sym k.end),
        k.backward (suc n) (omega arith),
        at_least k n (omega arith),
      )) in
    rw
      (
        k.head_prev,
        k.tail_next,
        k.head_index,
        tail_index k,
        lt→ltb _ _ k.some_room,
        le→leb _ _ k.room,
        some_left,
        first,
        last,
      )
      refl

-- A list with the same elements.
pub Linked-ext :
    {a : Dllarr} {f g : ℕ → ℕ} {n : ℕ} → ((i : ℕ) → i ≤ n → f i ≡ g i) → Linked a f n → Linked a g n
Linked-ext {a} {f} {g} {n} e k = record {
  end = sym (e n (omega arith)) ∙ k.end;
  elements = λ i h. omega (arith, e i (omega arith), k.elements i h);
  forward = λ i h. ap a.next (sym (back_ext i h)) ∙ k.forward i h ∙ e i h;
  backward = λ i h. ap a.prev (sym (e i h)) ∙ k.backward i h ∙ back_ext i h;
  indexed = λ i h. ap a.index (sym (e i h)) ∙ k.indexed i h;
  marked = λ i h. ap a.magic (sym (e i h)) ∙ k.marked i h;
  slots = λ i h. k.slots i h ∙ e i (omega arith);
  allocated = k.allocated;
  room = k.room;
  some_room = k.some_room;
  small = k.small;
  head_prev = k.head_prev;
  tail_next = k.tail_next;
  head_index = k.head_index;
}
  where
    back_ext : (i : ℕ) → i ≤ n → back f i ≡ back g i
    back_ext zero h = refl
    back_ext (suc i) h = e i (omega arith)

-- What the accesses give of a list with the elements `f`.
pub record Accessed (a : Dllarr) (f : ℕ → ℕ) (n : ℕ) : Type 0 where
  pub count_all : count a ≡ some n
  pub first_one : first a ≡ some (if n == 0 then 0 else f 0)
  pub last_one : last a ≡ some (if n == 0 then 0 else f (n - 1))
  pub nth_one : (i : ℕ) → i < n → nth a i ≡ some (f i)
  pub index_one : (i : ℕ) → i < n → index_of a (f i) ≡ some i
  pub next_one : (i : ℕ) → i < n → next_of a (f i) ≡ some (if i + 1 == n then 0 else f (i + 1))
  pub prev_one : (i : ℕ) → i < n → prev_of a (f i) ≡ some (if i == 0 then 0 else f (i - 1))

-- In a list with `n` elements, the first one and the last one are given, or NULL if there is none; so
-- are the elements by their number, the number of each, and its neighbours, which are NULL at the ends.
pub access_lem : (a : Dllarr) (f : ℕ → ℕ) (n : ℕ) → Linked a f n → Accessed a f n
unfolding count first last nth index_of next_of prev_of
access_lem a f n k =
    let fine = Linked-sound n k in
    record {
      count_all = rw fine (ap some (tail_index k));
      first_one = rw fine (
          ap (λ x. some (element x)) (k.forward 0 (omega arith))
          ∙ ap some (at_or_end k 0 (omega arith) ∙ empty_flip n));
      last_one = rw fine (
          ap (λ x. some (element x)) (ap a.prev (sym k.end) ∙ k.backward n (omega arith))
          ∙ ap some (before_or_end k n (omega arith)));
      nth_one = λ i h.
          rw (and_lem fine (lt→ltb i (a.index tail) (omega (arith, tail_index k))))
            (ap some (ap element (k.slots i h) ∙ element_lem k i h));
      index_one = λ i h.
          rw (and_lem fine (known_lem k i (omega arith))) (ap some (k.indexed i (omega arith)));
      next_one = λ i h. rw (and_lem fine (known_lem k i (omega arith))) (
          ap (λ x. some (element x)) (k.forward (suc i) (omega arith) ∙ ap f (succ i))
          ∙ ap some (at_or_end k (i + 1) (omega arith)));
      prev_one = λ i h. rw (and_lem fine (known_lem k i (omega arith))) (
          ap (λ x. some (element x)) (k.backward i (omega arith))
          ∙ ap some (before_or_end k i (omega arith)));
    }
  where
    empty_flip : (n : ℕ) → (if 0 == n then 0 else f 0) ≡ (if n == 0 then 0 else f 0)
    empty_flip zero = refl
    empty_flip (suc n) =
        let one : (0 == suc n) ≡ false = ground arith in
        let two : (suc n == 0) ≡ false = ground arith in rw (one, two) refl

    succ : (i : ℕ) → suc i ≡ i + 1
    succ i = omega arith
