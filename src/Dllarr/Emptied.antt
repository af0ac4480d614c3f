-- ===== src/Dllarr/Emptied.antt =====
-- `dllarr_free`, and an element that goes out and comes back.
use scubed.Base.{
  ℕ, zero, suc, ◌-◌, ◌^◌, ◌≤◌, ◌<◌, ◌≡◌, refl, sym, ◌∙◌, ap, subst, List, [], ◌∷◌, length, get_or,
  arith, ◌==◌, eq→==, some, true, false, ◌+◌, bind_some, ◌>>=◌,
}
use scubed.Dllarr.{Dllarr, head, tail, insert, remove, free_loop, free}
use scubed.Dllarr.Linked.{back, Linked, Linked-ext, tail_index, Linked-sound}
use scubed.Dllarr.Places.{removed, back-removed}
use scubed.Dllarr.Room.{spot}
use scubed.Dllarr.Remove.{remove_places}
use scubed.Dllarr.Sequence.{Holds, insert_at, remove_at, length-remove_at, insert_lem, remove_lem}

free_loop_lem :
    (fuel n : ℕ) (a : Dllarr) (f : ℕ → ℕ) (elt : ℕ)
    → fuel ≡ n + 1
    → Linked a f n
    → elt ≡ back f n
    → (a' : Dllarr) × (free_loop fuel a elt ≡ some a') × Holds a' []
unfolding free_loop
free_loop_lem zero n a f elt enough l e = absurd (omega arith)
free_loop_lem (suc fuel) zero a f elt enough l e =
    let at_head : (elt == head) ≡ true = eq→== elt head e in
    (a, rw (at_head) refl, Linked-ext (λ i h. only i h) l)
  where
    only : (i : ℕ) → i ≤ 0 → f i ≡ tail
    only i h = let first : i ≡ 0 = omega arith in ap f first ∙ l.end
free_loop_lem (suc fuel) (suc n) a f elt enough l e =
    let (b, gone, r) = remove_places l n (omega arith) in
    let not_head : (elt == head) ≡ false = let big = l.elements n (omega arith) in ground arith in
    let (a', rest, held) =
      free_loop_lem fuel n b (removed f n) (a.prev elt) (omega arith) r.linked
        (ap a.prev e ∙ l.backward n (omega arith) ∙ sym (back-removed f n n (omega arith))) in
    (
      a',
      rw (not_head) (
          ap (λ x. remove a x >>= (λ r. free_loop fuel r.0 (a.prev elt))) e
          ∙ bind_some _ gone
          ∙ rest),
      held,
    )

-- In a list that holds `xs`, `dllarr_free` ends: its loop comes to the head with no element left, and
-- then the array is gone.
pub free_lem :
    (a : Dllarr) (xs : List ℕ)
    → Holds a xs
    → (a' : Dllarr) × (free a ≡ some (record a' { array = [] })) × Holds a' []
unfolding free
free_lem a xs l =
    let (a', e, held) =
      free_loop_lem (length xs + 1) (length xs) a _ (a.prev tail) refl l
        (ap a.prev (sym l.end) ∙ l.backward (length xs) (omega arith)) in
    (a', rw (Linked-sound (length xs) l, l.head_index, tail_index l, e) refl, held)

insert_at-remove_at :
    (xs : List ℕ) (k : ℕ) → k < length xs → insert_at (remove_at xs k) k (get_or xs k tail) ≡ xs
insert_at-remove_at [] k h = absurd (omega arith)
insert_at-remove_at (x ∷ xs) zero h = refl
insert_at-remove_at (x ∷ xs) (suc k) h = ap (λ t. x ∷ t) (insert_at-remove_at xs k (omega arith))

-- An element that was removed and is inserted at its place again leaves the list as it was.
pub insert-remove :
    (a : Dllarr) (xs : List ℕ) (k : ℕ)
    → Holds a xs
    → k < length xs
    → length xs < 2 ^ 29
    → (a' : Dllarr) × (a'' : Dllarr) × (remove a (get_or xs k tail) ≡ some (a', get_or xs k tail))
      × (insert a'
            (get_or xs k tail)
            (spot (λ i. get_or (remove_at xs k) i tail) (length (remove_at xs k)) k)
          ≡ some (a'', get_or xs k tail))
      × Holds a'' xs
insert-remove a xs k l h few =
    let (a', e, held, r) = remove_lem a xs k l h in
    let size = length-remove_at xs k (length xs - 1) h (omega arith) in
    let (a'', e2, held2) =
      insert_lem a' (remove_at xs k) k (get_or xs k tail) held (omega (arith, size))
        (l.elements k h) r (omega (arith, size)) in
    (a', a'', e, e2, subst (Holds a'') (insert_at-remove_at xs k h) held2)
