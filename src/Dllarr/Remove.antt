-- ===== src/Dllarr/Remove.antt =====
-- `dllarr_remove`: the element goes out of the list and of the array, and can be inserted again.
use native.Mathlib.Nat.{mod-eq_of_lt, add-mod_right}
use scubed.Base.{
  ℕ, suc, ◌+◌, ◌-◌, ◌^◌, ◌≤◌, ◌<◌, ◌≡◌, ◌≢◌, inl, inr, refl, sym, ◌∙◌, ap, List, length, get_or,
  arith, ◌==◌, ==→eq, eq→==, some, not, Bool-cases, if◌then◌else◌, true, false, u32,
}
use scubed.Binio.Memory.{length-poke, poke, get_or-poke_before}
use scubed.Binio.Part.{part, length-part, get_or-part, get_or-poke_at}
use scubed.Dllarr.{
  Dllarr, head, tail, magic_number, minus_one, put, walk, decrement, unlink, remove,
}
use scubed.Dllarr.Linked.{
  back, Linked, at_least, behind_head, distinct, back-ne, tail_index, Linked-sound, known_lem,
  not_zero,
}
use scubed.Dllarr.Walk.{put_self, put_ne, Chained, Walked, walk_lem}
use scubed.Dllarr.Places.{removed, removed_behind, removed_cases, back-removed, back-removed_behind}

-- The list without the element, and the element free again.
pub record Removed (a' : Dllarr) (f : ℕ → ℕ) (n k x : ℕ) : Type 0 where
  pub linked : Linked a' (removed f k) n
  pub no_prev : a'.prev x ≡ 0
  pub no_next : a'.next x ≡ 0
  pub no_index : a'.index x ≡ 0

module _ {a : Dllarr} {f : ℕ → ℕ} {n : ℕ} (l : Linked a f (suc n)) (k : ℕ) (h : k ≤ n) where
  abbrev new_next : ℕ → ℕ
  new_next = put (put a.next (back f k) (f (suc k))) (f k) 0

  abbrev new_prev : ℕ → ℕ
  new_prev = put (put a.prev (f (suc k)) (back f k)) (f k) 0

  next_same : (i : ℕ) → i ≤ suc n → i ≢ k → i ≢ suc k → new_next (back f i) ≡ f i
  next_same i hi ne ne' =
      put_ne (put a.next (back f k) (f (suc k))) (f k) 0 (back f i)
        (back-ne l i (suc k) hi (omega arith) ne')
      ∙ put_ne a.next (back f k) (f (suc k)) (back f i) (back-ne l i k hi (omega arith) ne)
      ∙ l.forward i hi

  next_here : new_next (back f k) ≡ f (suc k)
  next_here =
      put_ne (put a.next (back f k) (f (suc k))) (f k) 0 (back f k)
        (back-ne l k (suc k) (omega arith) (omega arith) (omega arith))
      ∙ put_self a.next (back f k) (f (suc k))

  prev_same : (i : ℕ) → i ≤ suc n → i ≢ k → i ≢ suc k → new_prev (f i) ≡ back f i
  prev_same i hi ne ne' =
      put_ne (put a.prev (f (suc k)) (back f k)) (f k) 0 (f i)
        (λ e. ne (distinct l i k hi (omega arith) e))
      ∙ put_ne a.prev (f (suc k)) (back f k) (f i)
          (λ e. ne' (distinct l i (suc k) hi (omega arith) e))
      ∙ l.backward i hi

  prev_here : new_prev (f (suc k)) ≡ back f k
  prev_here =
      put_ne (put a.prev (f (suc k)) (back f k)) (f k) 0 (f (suc k))
        (λ e. omega (arith, distinct l (suc k) k (omega arith) (omega arith) e))
      ∙ put_self a.prev (f (suc k)) (back f k)

  chained : Chained a.next f (suc k) (suc n)
  chained = record {
    steps = λ i lo hi. l.forward (suc i) hi;
    end = ap a.next l.end ∙ l.tail_next;
    present = λ i lo hi e. omega (arith, at_least l i hi, e);
    once = λ i j lo hi hj lt e. omega (arith, distinct l i j hi hj e);
  }

  abbrev walked_index : ℕ → ℕ
  walked_index = walk (suc n + 1) decrement a.next a.index (f (suc k))

  walked : Walked decrement f (suc k) (suc n) a.index walked_index
  walked =
      walk_lem (suc n + 1) decrement a.next f (suc k) (suc n) a.index (omega arith) (omega arith)
        chained

  abbrev moved : List ℕ
  moved =
      if f (suc k) == tail then a.array else poke a.array k (part a.array (k + 1) (suc n - k - 1))

  abbrev result : Dllarr
  result = record a {
    array = moved;
    next = new_next;
    prev = new_prev;
    index = put walked_index (f k) 0;
  }

  moved_below : (i : ℕ) → i < k → get_or moved i 0 ≡ f i
  moved_below i lt = elim (Bool-cases (f (suc k) == tail)) [
    | inl last_one ↦ rw (last_one) (l.slots i (omega arith))
    | inr inside ↦ rw (inside) (
        get_or-poke_before a.array k (part a.array (k + 1) (suc n - k - 1)) i lt
        ∙ l.slots i (omega arith))
  ]

  moved_above : (i : ℕ) → k ≤ i → i < n → get_or moved i 0 ≡ f (suc i)
  moved_above i lo hi =
      let inside : (f (suc k) == tail) ≡ false =
        let big = l.elements (suc k) (omega arith) in ground arith in
      let p = part a.array (k + 1) (suc n - k - 1) in
      let wide : length p ≡ suc n - k - 1 =
        length-part a.array (k + 1) (suc n - k - 1) (omega (arith, l.allocated, l.room)) in
      rw (inside) (
        get_or-poke_at a.array k p i (omega (arith, wide, l.allocated, l.room)) lo
          (omega (arith, wide))
        ∙ get_or-part a.array (k + 1) (suc n - k - 1) (i - k) (suc i) (omega arith) (omega arith)
        ∙ l.slots (suc i) (omega arith))

  length-moved : length moved ≡ a.size
  length-moved = elim (Bool-cases (f (suc k) == tail)) [
    | inl last_one ↦ rw (last_one) l.allocated
    | inr inside ↦
        rw (inside) (length-poke a.array k (part a.array (k + 1) (suc n - k - 1)) ∙ l.allocated)
  ]

  outside_chain :
      (b : ℕ)
      → b ≢ f k
      → ((i : ℕ) → suc k ≤ i → i ≤ suc n → b ≢ f i)
      → put walked_index (f k) 0 b ≡ a.index b
  outside_chain b ne away = put_ne walked_index (f k) 0 b ne ∙ walked.kept b away

  result-Linked : Linked result (removed f k) n
  result-Linked = record {
    end = removed_behind f k n h ∙ l.end;
    elements =
        removed_cases f k (λ i y. i < n → tail < y) (λ i lo hi. l.elements i (omega arith))
          (λ i lo hi. l.elements (suc i) (omega arith));
    forward =
        removed_cases f k (λ i y. i ≤ n → new_next (back (removed f k) i) ≡ y)
          (λ i lo hi.
            ap new_next (back-removed f k i (omega arith))
            ∙ next_same i (omega arith) (omega arith) (omega arith))
          (λ i lo hi. elim (Bool-cases (i == k)) [
            | inl here ↦
                let e = ==→eq i k here in
                ap new_next (back-removed f k i (omega arith) ∙ ap (back f) e)
                ∙ next_here
                ∙ ap (λ j. f (suc j)) (sym e)
            | inr later ↦
                let lt : k < i = ground arith in
                ap new_next (back-removed_behind f k i lt)
                ∙ next_same (suc i) (omega arith) (omega arith) (omega arith)
          ]);
    backward =
        removed_cases f k (λ i y. i ≤ n → new_prev y ≡ back (removed f k) i)
          (λ i lo hi.
            prev_same i (omega arith) (omega arith) (omega arith)
            ∙ sym (back-removed f k i (omega arith)))
          (λ i lo hi. elim (Bool-cases (i == k)) [
            | inl here ↦
                let e = ==→eq i k here in
                ap (λ j. new_prev (f (suc j))) e
                ∙ prev_here
                ∙ sym (back-removed f k i (omega arith) ∙ ap (back f) e)
            | inr later ↦
                let lt : k < i = ground arith in
                prev_same (suc i) (omega arith) (omega arith) (omega arith)
                ∙ sym (back-removed_behind f k i lt)
          ]);
    indexed =
        removed_cases f k (λ i y. i ≤ n → put walked_index (f k) 0 y ≡ i)
          (λ i lo hi.
            outside_chain (f i) (λ e. omega (arith, distinct l i k (omega arith) (omega arith) e))
              (λ j lo' hi' e. omega (arith, distinct l i j (omega arith) hi' e))
            ∙ l.indexed i (omega arith))
          (λ i lo hi.
            put_ne walked_index (f k) 0 (f (suc i))
              (λ e. omega (arith, distinct l (suc i) k (omega arith) (omega arith) e))
            ∙ walked.changed (suc i) (omega arith) (omega arith)
            ∙ ap decrement (l.indexed (suc i) (omega arith))
            ∙ ap u32 (around i)
            ∙ add-mod_right i (2 ^ 32)
            ∙ mod-eq_of_lt (omega (arith, l.room, l.small)));
    marked =
        removed_cases f k (λ i y. i ≤ n → a.magic y ≡ magic_number)
          (λ i lo hi. l.marked i (omega arith)) (λ i lo hi. l.marked (suc i) (omega arith));
    slots =
        removed_cases f k (λ i y. i < n → get_or moved i 0 ≡ y) (λ i lo hi. moved_below i lo)
          (λ i lo hi. moved_above i lo hi);
    allocated = length-moved;
    room = omega (arith, l.room);
    some_room = l.some_room;
    small = l.small;
    head_prev =
        put_ne (put a.prev (f (suc k)) (back f k)) (f k) 0 head
          (λ e. omega (arith, at_least l k (omega arith), e))
        ∙ put_ne a.prev (f (suc k)) (back f k) head
            (λ e. omega (arith, at_least l (suc k) (omega arith), e))
        ∙ l.head_prev;
    tail_next =
        put_ne (put a.next (back f k) (f (suc k))) (f k) 0 tail
          (λ e. omega (arith, l.elements k (omega arith), e))
        ∙ put_ne a.next (back f k) (f (suc k)) tail (λ e.
          omega (
            arith,
            ap a.next e,
            l.forward k (omega arith),
            l.tail_next,
            at_least l k (omega arith),
          ))
        ∙ l.tail_next;
    head_index =
        outside_chain head (λ e. omega (arith, at_least l k (omega arith), e))
          (λ i lo hi e. omega (arith, at_least l i hi, e))
        ∙ l.head_index;
  }
    where
      around : (i : ℕ) → suc i + minus_one ≡ i + 2 ^ 32
      around i = omega arith

  unlink-result : unlink a (f k) ≡ result
  unlink-result =
      rw
        (
          l.forward (suc k) (omega arith),
          l.backward k (omega arith),
          l.indexed k (omega arith),
          tail_index l,
        )
        refl

  -- Removing the element at the place `k`.
  pub remove_places : (a' : Dllarr) × (remove a (f k) ≡ some (a', f k)) × Removed a' f n k (f k)
  unfolding remove
  remove_places =
      let p = l.backward k (omega arith) in
      let q = l.forward (suc k) (omega arith) in
      let some_prev : not (a.prev (f k) == 0) ≡ true =
        not_zero _ (omega (arith, p, behind_head l k (omega arith))) in
      let ahead : (a.next (a.prev (f k)) == f k) ≡ true =
        eq→== _ _ (ap a.next p ∙ l.forward k (omega arith)) in
      let behind : (a.prev (a.next (f k)) == f k) ≡ true =
        eq→== _ _ (ap a.prev q ∙ l.backward (suc k) (omega arith)) in
      (
        result,
        rw (Linked-sound (suc n) l, known_lem l k (omega arith), some_prev, ahead, behind)
            (ap (λ r. some (r, f k)) unlink-result),
        record {
          linked = result-Linked;
          no_prev = put_self (put a.prev (f (suc k)) (back f k)) (f k) 0;
          no_next = put_self (put a.next (back f k) (f (suc k))) (f k) 0;
          no_index = put_self walked_index (f k) 0;
        },
      )
