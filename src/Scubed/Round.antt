-- ===== src/Scubed/Round.antt =====
-- One round of the loop of `copy_old_block_to_current`.
use scubed.Base.{
  ℕ, zero, suc, ◌+◌, ◌≤◌, ◌<◌, ◌≡◌, ◌≢◌, inl, inr, refl, sym, List, [], ◌∷◌, some, arith, length,
  get_or, ◌==◌, ==→eq, eq→==, Bool-cases, Bool, ltb, lt→ltb, ltb→lt, true, false, not, ◌&&◌,
}
use scubed.Blockio.Info.{info}
use scubed.Scubed.State.{Base, Cipher, Volume, mesoblk_size, id_of, never, index_at}
use scubed.Scubed.Output.{copy_mesoblk, still_live, copy_loop}
use scubed.Scubed.Contents.{Consistent}

and_true : (s t : Bool) → (s && t) ≡ true → (s ≡ true) × (t ≡ true)
and_true true t e = (refl, e)
and_true false t e = absurd (ground arith)

refuted : (t : Bool) → not t ≡ true → t ≡ false
refuted true e = sym e
refuted false e = refl

get_or_outside : (xs : List ℕ) (i d : ℕ) → length xs ≤ i → get_or xs i d ≡ d
get_or_outside [] i d h = refl
get_or_outside (x ∷ xs) zero d h = absurd (omega arith)
get_or_outside (x ∷ xs) (suc i) d h = get_or_outside xs i d (omega arith)

pub in_range :
    {b : Base} {v : Volume} {cur : ℕ}
    → Consistent b v cur
    → (m : ℕ) → index_at v m ≢ never
    → m < v.no_block_indices
in_range {b} {v} k m live = elim (Bool-cases (ltb m v.no_block_indices)) [
  | inl inside ↦ ltb→lt _ _ inside
  | inr outside ↦ absurd (live (get_or_outside v.block_indices m never (ground (arith, k.sized))))
]

module _ (b : Base) (c : Cipher (mesoblk_size b)) (v : Volume) (old m : ℕ) where
  pub alive_facts :
      still_live b c v old m ≡ true
      → (m < v.no_block_indices) × (index_at v m ≢ never) × (id_of b (index_at v m) ≡ old)
  unfolding still_live
  alive_facts e =
      let (p, same) = and_true _ _ e in
      let (inside, used) = and_true _ _ p in
      let unused : (index_at v m == never) ≡ false = refuted _ used in
      (ltb→lt _ _ inside, ground arith, ==→eq _ _ same)

  pub still_live_lem :
      m < v.no_block_indices
      → index_at v m ≢ never
      → id_of b (index_at v m) ≡ old
      → still_live b c v old m ≡ true
  unfolding still_live
  still_live_lem h live e =
      let used : (index_at v m == never) ≡ false = ground arith in
      rw (lt→ltb _ _ h, used, eq→== _ _ e) refl

-- The rounds of the loop.
module _ (b : Base) (c : Cipher (mesoblk_size b)) (left : ℕ) (v : Volume) (cur old i : ℕ) where
  abbrev offset : ℕ
  offset = get_or (info v.infos old).indices i 0

  pub loop_ends :
      ltb i (info v.infos old).no_indices ≡ false → copy_loop b c (suc left) v cur old i ≡ some v
  unfolding copy_loop
  loop_ends e = rw e refl

  pub loop_copies :
      {v' : Volume}
      → ltb i (info v.infos old).no_indices ≡ true
      → still_live b c v old offset ≡ true
      → copy_mesoblk b c v cur old i offset ≡ some v'
      → copy_loop b c (suc left) v cur old i ≡ copy_loop b c left v' cur old (i + 1)
  unfolding copy_loop
  loop_copies e1 e2 e3 = rw (e1, e2, e3) refl

  pub loop_skips :
      ltb i (info v.infos old).no_indices ≡ true
      → still_live b c v old offset ≡ false
      → copy_loop b c (suc left) v cur old i ≡ copy_loop b c left v cur old (i + 1)
  unfolding copy_loop
  loop_skips e1 e2 = rw (e1, e2) refl
