-- ===== src/Control/Pieces.antt =====
-- A line over several calls of `recv`.
use mathlib.Core.List.{append_assoc}
use scubed.Base.{
  ℕ, ◌<◌, ◌≡◌, refl, sym, ◌∙◌, ap, subst, List, [], ◌∷◌, ◌++◌, Option, some, Bool, false, length,
  get_or, All, arith,
}
use scubed.Control.Receive.{Receiver, buf_size, received, all_received}
use scubed.Control.Standing.{Plain, length-append, All-behind}
use scubed.Control.Lines.{Holds, received-piece, received-end}

abbrev pub joined : List (List ℕ) → List ℕ
joined [] = []
joined (p ∷ ps) = p ++ joined ps

-- The line is `front`, which is held already, and the pieces.
All-front : (P : ℕ → Type 0) (xs ys : List ℕ) → All P (xs ++ ys) → All P xs
All-front P [] ys all = tt
All-front P (x ∷ xs) ys all = (all.0, All-front P xs ys all.1)

module _ {S : Type 0} (call : S → List ℕ → Option (S × Bool)) where
  -- What the end of a line leaves: the new state, and an empty buffer in which the line is wiped.
  pub record Ended (line : List ℕ) (s' : S) (r' : Receiver S) : Type 0 where
    pub state : r'.state ≡ s'
    pub emptied : Holds call [] r'
    pub wiped : (k : ℕ) → k < length line → get_or r'.buf k 0 ≡ 0

  last_one :
      (r : Receiver S) (p : List ℕ) {r' : Receiver S}
      → received call r (p ++ (b'\n' ∷ [])) ≡ some (r', false)
      → all_received call r ((p ++ (b'\n' ∷ [])) ∷ []) ≡ some (r', false)
  unfolding all_received
  last_one r [] run = rw (run) refl
  last_one r (x ∷ xs) run = rw (run) refl

  -- A line that comes in any pieces, none of them empty, behind what is held of it, and is shorter than
  -- the buffer, is given to control_call once and whole; then the buffer is empty and the line wiped
  -- from it. The command does not close the connection, and no byte of the line is a 0 or ends a line.
  pub all_received-line :
      (pieces : List (List ℕ)) (p front : List ℕ) (r : Receiver S) (s' : S)
      → Holds call front r
      → All (λ q. 0 < length q) pieces
      → All Plain (front ++ (joined pieces ++ p))
      → length (front ++ (joined pieces ++ p)) < buf_size
      → call r.state (front ++ (joined pieces ++ p)) ≡ some (s', false)
      → (r' : Receiver S) × (all_received call r (pieces ++ ((p ++ (b'\n' ∷ [])) ∷ []))
          ≡ some (r', false))
        × Ended (front ++ (joined pieces ++ p)) s' r'
  unfolding all_received
  all_received-line [] p front r s' h full plain room answered =
      let (r', run, same, fine, gone) =
        received-end call r front p s' h plain (omega (arith, room, length-append front p))
          answered in
      (r', last_one r p run, record { state = same; emptied = fine; wiped = gone })
  all_received-line ([] ∷ qs) p front r s' h full plain room answered =
      absurd (omega (arith, full.0))
  all_received-line ((x ∷ xs) ∷ qs) p front r s' h full plain room answered =
      let q = x ∷ xs in
      let rest = joined qs ++ p in
      let same : front ++ (q ++ joined qs ++ p) ≡ front ++ q ++ rest =
        ap (λ x. front ++ x) (append_assoc q (joined qs) p) ∙ sym (append_assoc front q rest) in
      let plain' = subst (All Plain) same plain in
      let room' = subst (λ x. length x < buf_size) same room in
      let (r1, run1, kept, h1) =
        received-piece call r front q h
          (All-behind Plain front q (All-front Plain (front ++ q) rest plain'))
          (omega (arith, room', length-append (front ++ q) rest, length-append front q)) in
      let (r', run, ended) =
        all_received-line qs p (front ++ q) r1 s' h1 full.1 plain' room'
          (ap (λ x. call x (front ++ q ++ rest)) kept ∙ ap (call r.state) (sym same) ∙ answered) in
      (r', rw (run1) run, subst (λ x. Ended x s' r') (sym same) ended)
