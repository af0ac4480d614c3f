-- ===== src/Dllarr/Tests.antt =====
-- A list with the elements 5 and 9, and the theorems on it.
use scubed.Base.{
  ℕ, zero, suc, ◌≡◌, ◌≤◌, ◌<◌, refl, List, [], ◌∷◌, get_or, arith, some, ◌==◌, if◌then◌else◌,
}
use scubed.Dllarr.{Dllarr, head, tail, magic_number, minus_one, put, insert, remove, iterate, free}
use scubed.Dllarr.Linked.{back, Accessed, access_lem}
use scubed.Dllarr.Sequence.{Holds, Free, insert_lem, remove_lem, iterate_lem}
use scubed.Dllarr.Emptied.{free_lem, insert-remove}

abbrev places : List ℕ
places = 5 ∷ 9 ∷ []

abbrev two : Dllarr
two = record {
  magic = λ at. magic_number;
  prev = put (put (put (λ at. 0) tail 9) 9 5) 5 head;
  next = put (put (put (λ at. 0) head 5) 5 9) 9 tail;
  index = put (put (put (λ at. 0) head minus_one) 9 1) tail 2;
  array = 5 ∷ 9 ∷ [];
  size = 2;
}

two-Holds : Holds two places
two-Holds = record {
  end = refl;
  elements = elements;
  forward = forward;
  backward = backward;
  indexed = indexed;
  marked = λ i h. refl;
  slots = slots;
  allocated = refl;
  room = omega arith;
  some_room = omega arith;
  small = omega arith;
  head_prev = refl;
  tail_next = refl;
  head_index = refl;
}
  where
    elements : (i : ℕ) → i < 2 → tail < get_or places i tail
    elements zero h = omega arith
    elements (suc zero) h = omega arith
    elements (suc (suc i)) h = absurd (omega arith)

    forward : (i : ℕ) → i ≤ 2 → two.next (back (λ i. get_or places i tail) i) ≡ get_or places i tail
    forward zero h = refl
    forward (suc zero) h = refl
    forward (suc (suc zero)) h = refl
    forward (suc (suc (suc i))) h = absurd (omega arith)

    backward :
        (i : ℕ) → i ≤ 2 → two.prev (get_or places i tail) ≡ back (λ i. get_or places i tail) i
    backward zero h = refl
    backward (suc zero) h = refl
    backward (suc (suc zero)) h = refl
    backward (suc (suc (suc i))) h = absurd (omega arith)

    indexed : (i : ℕ) → i ≤ 2 → two.index (get_or places i tail) ≡ i
    indexed zero h = refl
    indexed (suc zero) h = refl
    indexed (suc (suc zero)) h = refl
    indexed (suc (suc (suc i))) h = absurd (omega arith)

    slots : (i : ℕ) → i < 2 → get_or places i 0 ≡ get_or places i tail
    slots zero h = refl
    slots (suc zero) h = refl
    slots (suc (suc i)) h = absurd (omega arith)

access_lem_example : Accessed two (λ i. get_or places i tail) 2
access_lem_example = access_lem two (λ i. get_or places i tail) 2 two-Holds

-- The list is full, so the array grows.
insert_lem_example : (a' : Dllarr) × (insert two 7 9 ≡ some (a', 7)) × Holds a' (5 ∷ 7 ∷ 9 ∷ [])
insert_lem_example =
    insert_lem two places 1 7 two-Holds (omega arith) (omega arith)
      (record { no_prev = refl; no_next = refl; no_index = refl }) (omega arith)

remove_lem_example : (a' : Dllarr) × (remove two 5 ≡ some (a', 5)) × Holds a' (9 ∷ []) × Free a' 5
remove_lem_example = remove_lem two places 0 two-Holds (omega arith)

insert-remove_example :
    (a' : Dllarr) × (a'' : Dllarr) × (remove two 5 ≡ some (a', 5))
    × (insert a' 5 9 ≡ some (a'', 5))
    × Holds a'' places
insert-remove_example = insert-remove two places 0 two-Holds (omega arith) (omega arith)

iterate_lem_example : iterate two (λ x. if x == 9 then 3 else 0) ≡ some 3
iterate_lem_example = iterate_lem two places (λ x. if x == 9 then 3 else 0) two-Holds

free_lem_example : (a' : Dllarr) × (free two ≡ some (record a' { array = [] })) × Holds a' []
free_lem_example = free_lem two places two-Holds
