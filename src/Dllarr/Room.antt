-- ===== src/Dllarr/Room.antt =====
-- Room for one more element: the array grows if it is full, and the elements behind move up.
use scubed.Base.{
  ℕ, zero, suc, ◌+◌, ◌-◌, ◌*◌, ◌^◌, ◌≤◌, ◌<◌, ◌≡◌, inl, inr, refl, sym, ◌∙◌, ap, List, [], ◌∷◌,
  ◌++◌, length, get_or, arith, ◌==◌, ==→eq, eq→==, some, not, ◌&&◌, Bool-cases, Bool, assert, ◌>>◌,
  if◌then◌else◌, true, false, u32, length-append, length-replicate, replicate, bind_some,
}
use scubed.Binio.Memory.{length-poke, poke, get_or-poke_before}
use scubed.Binio.Part.{part, length-part, get_or-part, get_or-poke_at}
use scubed.Dllarr.{Dllarr, tail, grow, shift_up, known, insert, link}
use scubed.Dllarr.Linked.{
  back, Linked, at_least, behind_head, tail_index, Linked-sound, known_lem, not_zero,
}
use scubed.Dllarr.Insert.{Moved, New, result, result-Linked, link-result}
use scubed.Dllarr.Places.{inserted}

-- The array has room, and the list is the same.
record Grown (a g : Dllarr) (f : ℕ → ℕ) (n : ℕ) : Type 0 where
  pub next : g.next ≡ a.next
  pub prev : g.prev ≡ a.prev
  pub index : g.index ≡ a.index
  pub magic : g.magic ≡ a.magic
  pub slots : (i : ℕ) → i < n → get_or g.array i 0 ≡ f i
  pub allocated : length g.array ≡ g.size
  pub room : n < g.size
  pub small : g.size < 2 ^ 30

get_or-append : (xs ys : List ℕ) (i : ℕ) → i < length xs → get_or (xs ++ ys) i 0 ≡ get_or xs i 0
get_or-append [] ys i h = absurd (omega arith)
get_or-append (x ∷ xs) ys zero h = refl
get_or-append (x ∷ xs) ys (suc i) h = get_or-append xs ys i (omega arith)

grow-Grown : (a : Dllarr) (f : ℕ → ℕ) (n : ℕ) → Linked a f n → n < 2 ^ 29 → Grown a (grow a) f n
grow-Grown a f n l few = elim (Bool-cases (a.index tail == a.size)) [
  | inl full ↦
      let e : n ≡ a.size = sym (tail_index l) ∙ ==→eq _ _ full in
      let double : u32 (a.size * 2) ≡ a.size * 2 = omega arith in
      rw (full) record {
        next = refl;
        prev = refl;
        index = refl;
        magic = refl;
        slots = λ i h. get_or-append a.array _ i (omega (arith, l.allocated)) ∙ l.slots i h;
        allocated =
            length-append a.array (replicate (u32 (a.size * 2) - length a.array) 0)
            ∙ omega (
              arith,
              l.allocated,
              double,
              length-replicate {A = ℕ} (u32 (a.size * 2) - length a.array) 0,
            );
        room = omega (arith, double, l.some_room);
        small = omega (arith, double);
      }
  | inr partly ↦
      let room : n < a.size = let e = tail_index l in let r = l.room in ground arith in
      rw (partly) record {
        next = refl;
        prev = refl;
        index = refl;
        magic = refl;
        slots = l.slots;
        allocated = l.allocated;
        room = room;
        small = l.small;
      }
]

-- The pointer that stands for the place `k`: behind the last element it is NULL.
abbrev pub spot : (ℕ → ℕ) → ℕ → ℕ → ℕ
spot f n k = if k == n then 0 else f k

either_way : (t : Bool) {s : Bool} → s ≡ true → (if t then true else s) ≡ true
either_way true e = refl
either_way false e = e

module _ {a : Dllarr} {f : ℕ → ℕ} {n : ℕ} (l : Linked a f n) (k : ℕ) (h : k ≤ n) where
  shift_up_lem :
      (g : Dllarr)
      → Grown a g f n
      → (m : Dllarr) × (shift_up g (spot f n k) ≡ some m) × Moved a m f n k
  shift_up_lem g r = elim (Bool-cases (k == n)) [
    | inl behind ↦
        let e = ==→eq k n behind in
        (
          g,
          rw (behind) refl,
          record {
            next = r.next;
            prev = r.prev;
            index = r.index;
            magic = r.magic;
            below = λ i lt. r.slots i (omega arith);
            above = λ i lo hi. absurd (omega arith);
            allocated = r.allocated;
            room = r.room;
            small = r.small;
          },
        )
    | inr inside ↦
        let lt : k < n = ground arith in
        let at : g.index (f k) ≡ k = ap (λ q. q (f k)) r.index ∙ l.indexed k h in
        let all : g.index tail ≡ n = ap (λ q. q tail) r.index ∙ tail_index l in
        let next : g.next (f k) ≡ f (suc k) = ap (λ q. q (f k)) r.next ∙ l.forward (suc k) lt in
        let prev : g.prev (f (suc k)) ≡ f k =
          ap (λ q. q (f (suc k))) r.prev ∙ l.backward (suc k) lt in
        let some_elt : (f k == 0) ≡ false = let big = at_least l k h in ground arith in
        let behind_it : not (g.next (f k) == 0) ≡ true =
          not_zero _ (omega (arith, next, at_least l (suc k) lt)) in
        let back_again : (g.prev (g.next (f k)) == f k) ≡ true =
          eq→== _ _ (ap g.prev next ∙ prev) in
        let moved = part g.array k (n - k) in
        let wide : length moved ≡ n - k =
          length-part g.array k (n - k) (omega (arith, r.allocated, r.room)) in
        (
          record g { array = poke g.array (k + 1) moved },
          rw (inside, some_elt, behind_it, back_again, at, all) refl,
          record {
            next = r.next;
            prev = r.prev;
            index = r.index;
            magic = r.magic;
            below = λ i lt'.
                get_or-poke_before g.array (k + 1) moved i (omega arith) ∙ r.slots i (omega arith);
            above = λ i lo hi.
                get_or-poke_at g.array (k + 1) moved (suc i)
                  (omega (arith, wide, r.allocated, r.room)) (omega arith) (omega (arith, wide))
                ∙ get_or-part g.array k (n - k) (suc i - (k + 1)) i (omega arith) (omega arith)
                ∙ r.slots i hi;
            allocated = length-poke g.array (k + 1) moved ∙ r.allocated;
            room = r.room;
            small = r.small;
          },
        )
  ]

  -- An element that is in no list yet, in front of the place `k`.
  module _ (x : ℕ) (big : tail < x) (no_prev : a.prev x ≡ 0) (no_next : a.next x ≡ 0)
      (no_index : a.index x ≡ 0) where
    unlinked : New f n x
    unlinked =
        (big, λ i hi e. omega (arith, no_prev, ap a.prev e, l.backward i hi, behind_head l i hi))

    spot-known : (if spot f n k == 0 then true else known a (spot f n k)) ≡ true
    spot-known = elim (Bool-cases (k == n)) [
      | inl behind ↦ rw (behind) refl
      | inr inside ↦ rw (inside) (either_way (f k == 0) (known_lem l k h))
    ]

    spot_elt : (if spot f n k == 0 then tail else spot f n k) ≡ f k
    spot_elt = elim (Bool-cases (k == n)) [
      | inl behind ↦ rw (behind) (sym l.end ∙ ap f (sym (==→eq k n behind)))
      | inr inside ↦
          let some_elt : (f k == 0) ≡ false = let least = at_least l k h in ground arith in
          rw (inside, some_elt) refl
    ]

    pub insert_places :
        n < 2 ^ 29
        → (a' : Dllarr) × (insert a x (spot f n k) ≡ some (a', x))
          × Linked a' (inserted f k x) (suc n)
    unfolding insert
    insert_places few =
        let (m, e, moved) = shift_up_lem (grow a) (grow-Grown a f n l few) in
        let p : m.prev (f k) ≡ back f k = ap (λ q. q (f k)) moved.prev ∙ l.backward k h in
        let some_prev : not (m.prev (f k) == 0) ≡ true =
          not_zero _ (omega (arith, p, behind_head l k h)) in
        let back_again : (m.next (m.prev (f k)) == f k) ≡ true =
          eq→== _ _ (ap m.next p ∙ ap (λ q. q (back f k)) moved.next ∙ l.forward k h) in
        (
          result l k x h unlinked m moved,
          rw (Linked-sound n l, not_zero x (omega arith), spot-known, no_prev, no_next, no_index)
              (bind_some _ e
                ∙ ap
                    (λ at.
                      assert (not (m.prev at == 0) && (m.next (m.prev at) == at))
                      >> some (link m x at, x))
                    spot_elt
                ∙ rw (some_prev, back_again)
                    (ap (λ q. some (q, x)) (link-result l k x h unlinked m moved))),
          result-Linked l k x h unlinked m moved,
        )
