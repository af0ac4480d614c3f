-- ===== src/Scubed/Enlarged.antt =====
-- `scubed3_reinit`: a device that becomes larger keeps what it holds.
use scubed.Base.{
  ℕ, zero, suc, ◌+◌, ◌-◌, ◌*◌, ◌^◌, ◌≤◌, ◌≡◌, inl, inr, refl, sym, ◌∙◌, ap, List, [], ◌∷◌, ◌++◌,
  some, arith, get_or, ◌==◌, ==→eq, Bool-cases, ltb-false, u32, replicate, length-replicate,
  length-append, get_or-replicate, subst,
}
use scubed.Blockio.Info.{info}
use scubed.Scubed.State.{Base, Cipher, Volume, mmpm, mesoblk_size, id_of, no_of, never, index_at}
use scubed.Scubed.Output.{read_mesoblk}
use scubed.Scubed.Contents.{content, refs, Placed, Consistent}
use scubed.Scubed.Init.{scubed3_reinit}

-- The number of mesoblocks that the device has room for.
abbrev pub new_size : Base → Volume → ℕ
new_size b v = u32 (u32 (v.no_macroblocks + 2 ^ 32 - v.reserved_macroblocks) * mmpm b)

get_or-unwritten :
    (xs : List ℕ) (k m : ℕ) → get_or (xs ++ replicate k never) m never ≡ get_or xs m never
get_or-unwritten [] k m = get_or-replicate k m never
get_or-unwritten (x ∷ xs) k zero = refl
get_or-unwritten (x ∷ xs) k (suc m) = get_or-unwritten xs k m

refs-unwritten :
    (b : Base) (id : ℕ) (xs : List ℕ) (k : ℕ) → refs b id (xs ++ replicate k never) ≡ refs b id xs
refs-unwritten b id [] zero = refl
refs-unwritten b id [] (suc k) = omega (arith, refs-unwritten b id [] k)
refs-unwritten b id (x ∷ xs) k = omega (arith, refs-unwritten b id xs k)

module _ {b : Base} (c : Cipher (mesoblk_size b)) {v : Volume} {cur : ℕ}
    (k : Consistent b v cur) where
  abbrev pub enlarged : ℕ → Volume
  enlarged n = record v {
    no_block_indices = n;
    block_indices = v.block_indices ++ replicate (n - v.no_block_indices) never;
  }

  same_index : (n m : ℕ) → index_at (enlarged n) m ≡ index_at v m
  same_index n m = get_or-unwritten v.block_indices (n - v.no_block_indices) m

  same_refs : (n id : ℕ) → refs b id (enlarged n).block_indices ≡ refs b id v.block_indices
  same_refs n id = refs-unwritten b id v.block_indices (n - v.no_block_indices)

  enlarged-Consistent : (n : ℕ) → v.no_block_indices ≤ n → Consistent b (enlarged n) cur
  enlarged-Consistent n h = record {
    current = k.current;
    in_array = k.in_array;
    all_blocks = k.all_blocks;
    addresses = k.addresses;
    sized = sym (
        length-append v.block_indices (replicate (n - v.no_block_indices) never)
        ∙ omega (arith, length-replicate (n - v.no_block_indices) never, k.sized));
    buffer = k.buffer;
    in_ram = k.in_ram;
    on_disk = k.on_disk;
    room = k.room;
    full = k.full;
    placed = λ m ne.
        subst (λ x. Placed b v.infos x m) (sym (same_index n m))
          (k.placed m (λ e. ne (same_index n m ∙ e)));
    counted = λ id h ne. k.counted id h ne ∙ sym (same_refs n id);
    filled = k.filled ∙ sym (same_refs n cur);
    owned = λ i h.
        let m = get_or (info v.infos cur).indices i 0 in
        (
          ap (id_of b) (same_index n m) ∙ (k.owned i h).0,
          ap (no_of b) (same_index n m) ∙ (k.owned i h).1,
        );
    unique = k.unique;
  }

  same_content : (n m : ℕ) → content b c (enlarged n) cur m ≡ content b c v cur m
  unfolding read_mesoblk
  same_content n m = rw (same_index n m) refl

-- A consistent volume that does not become smaller stays consistent under scubed3_reinit, and keeps
-- its table and its contents; the mesoblocks that it gains are not written yet.
pub scubed3_reinit_lem :
    {b : Base} (c : Cipher (mesoblk_size b)) {v : Volume} {cur : ℕ}
    → Consistent b v cur
    → v.no_block_indices ≤ new_size b v
    → (v' : Volume) × (scubed3_reinit b v ≡ some v')
      × Consistent b v' cur
      × (v'.no_block_indices ≡ new_size b v)
      × ((m : ℕ) → index_at v' m ≡ index_at v m)
      × ((m : ℕ) → content b c v' cur m ≡ content b c v cur m)
unfolding scubed3_reinit
scubed3_reinit_lem {b} c {v} {cur} k h = elim (Bool-cases (v.no_block_indices == new_size b v)) [
  | inl same ↦ (v, rw (same) refl, k, ==→eq _ _ same, (λ m. refl), (λ m. refl))
  | inr grown ↦
      let smaller = ltb-false (new_size b v) v.no_block_indices h in
      let n = new_size b v in
      (
        enlarged c k n,
        rw (grown, smaller) refl,
        enlarged-Consistent c k n h,
        refl,
        same_index c k n,
        same_content c k n,
      )
]
