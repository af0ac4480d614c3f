-- ===== src/Entries/Freeing.antt =====
-- What the freer of an entry leaves.
use scubed.Base.{
  ℕ, ◌≡◌, ◌≢◌, inl, inr, refl, sym, ap, [], ◌∷◌, zero, suc, Option, some, none, ◌>>=◌, arith, ◌==◌,
  eq→==, Bool-cases, Option-cases, if◌then◌else◌,
}
use scubed.Blockio.Info.{BlockioInfo, Infos, info}
use scubed.Hashtbl.{Hashtbl}
use scubed.Dllarr.{Dllarr}
use scubed.Juggler.{free_and_empty_into}
use scubed.Entries.{Server, Freed, disowned, freer, append_all, without_id, volume_at}
use scubed.Scubed.Output.{write_current_macroblock}
use scubed.Scubed.State.{Base, Cipher, mesoblk_size, Volume}

disowned-Apart_first :
    (ptr : ℕ) (x : BlockioInfo) (xs : Infos) → (info (disowned ptr (x ∷ xs)) 0).dev ≢ some ptr
disowned-Apart_first ptr x xs = elim (Option-cases x.dev) [
  | inl free ↦ rw (free) (λ e. absurd (ground (arith, e)))
  | inr (dev, owned) ↦ elim (Bool-cases (dev == ptr)) [
    | inl mine ↦ rw (owned, mine) (λ e. absurd (ground (arith, e)))
    | inr other ↦
        rw (owned, other)
          (λ e.
            let same : dev ≡ ptr = ap (λ o. elim o [ none ↦ ptr | some d ↦ d ]) e in
            absurd (ground (arith, other, eq→== dev ptr same)))
  ]
]

-- No macroblock belongs to the device.
disowned-Apart : (ptr : ℕ) (xs : Infos) (id : ℕ) → (info (disowned ptr xs) id).dev ≢ some ptr
disowned-Apart ptr [] id e = absurd (ground arith)
disowned-Apart ptr (x ∷ xs) zero e = disowned-Apart_first ptr x xs e
disowned-Apart ptr (x ∷ xs) (suc id) e = disowned-Apart ptr xs id e

module _ {A B : Type 0} where
  bind-parts :
      (o : Option A) (k : A → Option B) (b : B)
      → (o >>= k) ≡ some b
      → (a : A) × (o ≡ some a) × (k a ≡ some b)
  bind-parts none k b h = absurd (ground (arith, h))
  bind-parts (some a) k b h = (a, refl, h)

module _ (b : Base) (c : Cipher (mesoblk_size b)) (s : Server) (ptr : ℕ) where
  -- The rest of `freer` behind the macroblocks that are given back, and behind the write.
  abbrev left_by : Volume → Dllarr → Hashtbl → Option Freed
  left_by v unallocated ids = some (record {
    infos = disowned ptr v.infos;
    index_blocks = v.index_blocks;
    disk = v.disk;
    unallocated = unallocated;
    ids = ids;
  })

  abbrev behind_blocks : Volume → Dllarr → Option Freed
  behind_blocks v unallocated =
      without_id s.ids (s.entry ptr).unique_id >>= (λ ids. left_by v unallocated ids)

  abbrev behind_write : Volume → Option Freed
  behind_write v =
      append_all s.unallocated (free_and_empty_into v.juggler) >>= (λ u. behind_blocks v u)

  -- Whatever was written before, no macroblock belongs to the device once its entry was freed.
  pub freer-Apart :
      (p : Freed) → freer b c s ptr ≡ some p → (id : ℕ) → (info p.infos id).dev ≢ some ptr
  unfolding freer
  freer-Apart p h id =
      let v0 = volume_at s ptr in
      let written = if v0.updated then write_current_macroblock b c v0 else some v0 in
      let (v, read, h1) = bind-parts written (λ v. behind_write v) p h in
      let (u, added, h2) =
        bind-parts (append_all s.unallocated (free_and_empty_into v.juggler))
          (λ u. behind_blocks v u) p h1 in
      let (ids, gone, h3) =
        bind-parts (without_id s.ids (s.entry ptr).unique_id) (λ i. left_by v u i) p h2 in
      let same : disowned ptr v.infos ≡ p.infos =
        ap (λ (o : Option Freed). elim o [ none ↦ [] | some q ↦ q.infos ]) h3 in
      rw (sym same) (disowned-Apart ptr v.infos id)
