-- ===== src/Dllarr/Insert.antt =====
-- `dllarr_insert`: the new element comes in front of the given one, in the list and in the array.
use native.Mathlib.Nat.{mod-eq_of_lt}
use scubed.Base.{
  ℕ, zero, suc, ◌+◌, ◌^◌, ◌≤◌, ◌<◌, ◌≡◌, ◌≢◌, refl, sym, ◌∙◌, ap, length, get_or, set, arith,
  length-set, get_or-set_self, get_or-set_ne,
}
use scubed.Dllarr.{Dllarr, head, tail, magic_number, put, walk, increment, link}
use scubed.Dllarr.Linked.{back, Linked, at_least, distinct, back-ne, tail_index}
use scubed.Dllarr.Walk.{put_self, put_ne, Chained, Walked, walk_lem}
use scubed.Dllarr.Places.{inserted, inserted_behind, inserted_cases, back-inserted}

-- There is room in the array, and what stands from the place `k` on has been moved up.
pub record Moved (a m : Dllarr) (f : ℕ → ℕ) (n k : ℕ) : Type 0 where
  pub next : m.next ≡ a.next
  pub prev : m.prev ≡ a.prev
  pub index : m.index ≡ a.index
  pub magic : m.magic ≡ a.magic
  pub below : (i : ℕ) → i < k → get_or m.array i 0 ≡ f i
  pub above : (i : ℕ) → k ≤ i → i < n → get_or m.array (suc i) 0 ≡ f i
  pub allocated : length m.array ≡ m.size
  pub room : n < m.size
  pub small : m.size < 2 ^ 30

-- A pointer to no element of the list.
abbrev pub New : (ℕ → ℕ) → ℕ → ℕ → Type 0
New f n x = (tail < x) × ((i : ℕ) → i ≤ n → x ≢ f i)

module _ {a : Dllarr} {f : ℕ → ℕ} {n : ℕ} (l : Linked a f n) (k x : ℕ) (h : k ≤ n)
    (fresh : New f n x) where
  x-ne_back : (i : ℕ) → i ≤ n → x ≢ back f i
  x-ne_back zero hi e = omega (arith, fresh.0)
  x-ne_back (suc i) hi e = fresh.1 i (omega arith) e

  module _ (m : Dllarr) (moved : Moved a m f n k) where
    abbrev new_next : ℕ → ℕ
    new_next = put (put a.next (back f k) x) x (f k)

    abbrev new_prev : ℕ → ℕ
    new_prev = put (put a.prev x (back f k)) (f k) x

    next_same : (i : ℕ) → i ≤ n → i ≢ k → new_next (back f i) ≡ f i
    next_same i hi ne =
        put_ne (put a.next (back f k) x) x (f k) (back f i) (λ e. x-ne_back i hi (sym e))
        ∙ put_ne a.next (back f k) x (back f i) (back-ne l i k hi h ne)
        ∙ l.forward i hi

    next_back : new_next (back f k) ≡ x
    next_back =
        put_ne (put a.next (back f k) x) x (f k) (back f k) (λ e. x-ne_back k h (sym e))
        ∙ put_self a.next (back f k) x

    prev_same : (i : ℕ) → i ≤ n → i ≢ k → new_prev (f i) ≡ back f i
    prev_same i hi ne =
        put_ne (put a.prev x (back f k)) (f k) x (f i) (λ e. ne (distinct l i k hi h e))
        ∙ put_ne a.prev x (back f k) (f i) (λ e. fresh.1 i hi (sym e))
        ∙ l.backward i hi

    prev_new : new_prev x ≡ back f k
    prev_new =
        put_ne (put a.prev x (back f k)) (f k) x x (fresh.1 k h) ∙ put_self a.prev x (back f k)

    abbrev old_index : ℕ → ℕ
    old_index = put a.index x k

    index_same : (i : ℕ) → i ≤ n → old_index (f i) ≡ i
    index_same i hi = put_ne a.index x k (f i) (λ e. fresh.1 i hi (sym e)) ∙ l.indexed i hi

    -- The tail is in front of nothing.
    tail-ne_back : tail ≢ back f k
    tail-ne_back e = omega (arith, ap a.next e, l.forward k h, l.tail_next, at_least l k h)

    next_tail : new_next tail ≡ 0
    next_tail =
        put_ne (put a.next (back f k) x) x (f k) tail (λ e. omega (arith, fresh.0, e))
        ∙ put_ne a.next (back f k) x tail tail-ne_back
        ∙ l.tail_next

    next_behind : (i : ℕ) → k ≤ i → i ≤ n → new_next (inserted f k x i) ≡ f i
    next_behind =
        inserted_cases f k x (λ i y. k ≤ i → i ≤ n → new_next y ≡ f i)
          (λ i lt lo hi. absurd (omega arith)) (λ lo hi. put_self (put a.next (back f k) x) x (f k))
          (λ i lo' lo hi. next_same (suc i) hi (omega arith))

    prev_behind : (i : ℕ) → k ≤ i → i ≤ n → new_prev (f i) ≡ inserted f k x i
    prev_behind =
        inserted_cases f k x (λ i y. k ≤ i → i ≤ n → new_prev (f i) ≡ y)
          (λ i lt lo hi. absurd (omega arith)) (λ lo hi. put_self (put a.prev x (back f k)) (f k) x)
          (λ i lo' lo hi. prev_same (suc i) hi (omega arith))

    chained : Chained new_next f k n
    chained = record {
      steps = λ i lo hi. next_same (suc i) hi (omega arith);
      end = ap new_next l.end ∙ next_tail;
      present = λ i lo hi e. omega (arith, at_least l i hi, e);
      once = λ i j lo hi hj lt e. omega (arith, distinct l i j hi hj e);
    }

    abbrev new_index : ℕ → ℕ
    new_index = walk (n + 2) increment new_next old_index (f k)

    walked : Walked increment f k n old_index new_index
    walked = walk_lem (n + 2) increment new_next f k n old_index h (omega arith) chained

    abbrev pub result : Dllarr
    result = record m {
      array = set m.array k x;
      next = new_next;
      prev = new_prev;
      index = new_index;
      magic = put a.magic x magic_number;
    }

    pub result-Linked : Linked result (inserted f k x) (suc n)
    result-Linked = record {
      end = inserted_behind f k x n h ∙ l.end;
      elements =
          inserted_cases f k x (λ i y. i < suc n → tail < y) (λ i lo hi. l.elements i (omega arith))
            (λ hi. fresh.0) (λ i lo hi. l.elements i (omega arith));
      forward =
          inserted_cases f k x (λ i y. i ≤ suc n → new_next (back (inserted f k x) i) ≡ y)
            (λ i lo hi.
              ap new_next (back-inserted f k x i (omega arith))
              ∙ next_same i (omega arith) (omega arith))
            (λ hi. ap new_next (back-inserted f k x k (omega arith)) ∙ next_back)
            (λ i lo hi. next_behind i lo (omega arith));
      backward =
          inserted_cases f k x (λ i y. i ≤ suc n → new_prev y ≡ back (inserted f k x) i)
            (λ i lo hi.
              prev_same i (omega arith) (omega arith) ∙ sym (back-inserted f k x i (omega arith)))
            (λ hi. prev_new ∙ sym (back-inserted f k x k (omega arith)))
            (λ i lo hi. prev_behind i lo (omega arith));
      indexed =
          inserted_cases f k x (λ i y. i ≤ suc n → new_index y ≡ i)
            (λ i lo hi.
              walked.kept (f i) (λ j lo' hi' e. omega (arith, distinct l i j (omega arith) hi' e))
              ∙ index_same i (omega arith))
            (λ hi. walked.kept x (λ j lo' hi'. fresh.1 j hi') ∙ put_self a.index x k)
            (λ i lo hi.
              walked.changed i lo (omega arith)
              ∙ ap increment (index_same i (omega arith))
              ∙ mod-eq_of_lt (omega (arith, l.room, l.small))
              ∙ succ i);
      marked =
          inserted_cases f k x (λ i y. i ≤ suc n → put a.magic x magic_number y ≡ magic_number)
            (λ i lo hi. mark i (omega arith)) (λ hi. put_self a.magic x magic_number)
            (λ i lo hi. mark i (omega arith));
      slots =
          inserted_cases f k x (λ i y. i < suc n → get_or (set m.array k x) i 0 ≡ y)
            (λ i lo hi. get_or-set_ne m.array k i x 0 (omega arith) ∙ moved.below i lo)
            (λ hi. get_or-set_self m.array k x 0 (omega (arith, moved.allocated, moved.room)))
            (λ i lo hi.
              get_or-set_ne m.array k (suc i) x 0 (omega arith) ∙ moved.above i lo (omega arith));
      allocated = length-set m.array k x ∙ moved.allocated;
      room = moved.room;
      some_room = omega (arith, moved.room);
      small = moved.small;
      head_prev =
          put_ne (put a.prev x (back f k)) (f k) x head (λ e. omega (arith, at_least l k h, e))
          ∙ put_ne a.prev x (back f k) head (λ e. omega (arith, fresh.0, e))
          ∙ l.head_prev;
      tail_next = next_tail;
      head_index =
          walked.kept head (λ i lo hi e. omega (arith, at_least l i hi, e))
          ∙ put_ne a.index x k head (λ e. omega (arith, fresh.0, e))
          ∙ l.head_index;
    }
      where
        succ : (i : ℕ) → i + 1 ≡ suc i
        succ i = omega arith

        mark : (i : ℕ) → i ≤ n → put a.magic x magic_number (f i) ≡ magic_number
        mark i hi = put_ne a.magic x magic_number (f i) (λ e. fresh.1 i hi (sym e)) ∙ l.marked i hi

    pub link-result : link m x (f k) ≡ result
    link-result =
        rw
          (
            moved.next,
            moved.prev,
            moved.index,
            moved.magic,
            l.backward k h,
            l.indexed k h,
            tail_index l,
          )
          refl
