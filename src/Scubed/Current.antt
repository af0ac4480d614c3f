-- ===== src/Scubed/Current.antt =====
-- `do_write` behind the place where room is made, on every branch.
use scubed.Base.{
  bind_some, ℕ, ◌+◌, ◌≤◌, ◌<◌, ◌≡◌, ◌≢◌, ◌⊎◌, inl, inr, ◌∙◌, List, some, arith, length, ◌==◌, ==→eq,
  Bool-cases, true, false,
}
use scubed.Binio.Memory.{poke, length-poke}
use scubed.Blockio.Info.{info}
use scubed.Scubed.State.{Base, Cipher, Volume, mmpm, mesoblk_size, id_of, index_at}
use scubed.Scubed.Request.{write_in_ram, write_from_disk, write_current}
use scubed.Scubed.Address.{Geometry}
use scubed.Scubed.Contents.{content, Consistent}
use scubed.Scubed.Read.{length-content}
use scubed.Scubed.Reference.{move-Consistent, content_moved, content_kept}
use scubed.Scubed.Write.{
  in_place, write_from_disk-Moved, write_in_ram_lem, in_place-Consistent, content-in_place,
  content_beside,
}

-- `v'` holds `input` at `muoff` of the mesoblock `m`, and otherwise what `v` holds.
pub record Written (b : Base) (c : Cipher (mesoblk_size b)) (v v' : Volume) (cur m muoff : ℕ)
    (input : List ℕ) : Type 0 where
  pub consistent : Consistent b v' cur
  pub written : content b c v' cur m ≡ poke (content b c v cur m) muoff input
  pub others : (m' : ℕ) → m ≢ m' → content b c v' cur m' ≡ content b c v cur m'

module _ (b : Base) (c : Cipher (mesoblk_size b)) (v : Volume) {v' : Volume} {cur : ℕ} (m muoff : ℕ)
    (input : List ℕ) (e : v.bi ≡ some cur) where
  write_current_in_ram :
      (id_of b (index_at v m) == cur) ≡ true
      → write_in_ram b c v (index_at v m) muoff input ≡ some v'
      → write_current b c v (index_at v m) m muoff input ≡ some v'
  unfolding write_current
  write_current_in_ram here w = bind_some _ e ∙ rw here w

  write_current_from_disk :
      (id_of b (index_at v m) == cur) ≡ false
      → write_from_disk b c v cur (index_at v m) m muoff input ≡ some v'
      → write_current b c v (index_at v m) m muoff input ≡ some v'
  unfolding write_current
  write_current_from_disk there w = bind_some _ e ∙ rw there w

-- If the mesoblock is in RAM, or the current macroblock has room, the write succeeds: it stores
-- `input` into the mesoblock, changes no other one, and keeps the tables consistent.
pub write_current_lem :
    {b : Base} (g : Geometry b) (c : Cipher (mesoblk_size b)) {v : Volume} {cur : ℕ}
    → Consistent b v cur
    → (m muoff : ℕ) (input : List ℕ) → m < v.no_block_indices
    → muoff + length input ≤ mesoblk_size b
    → (id_of b (index_at v m) ≡ cur) ⊎ ((info v.infos cur).no_indices < mmpm b)
    → (v' : Volume) × (write_current b c v (index_at v m) m muoff input ≡ some v')
      × Written b c v v' cur m muoff input
write_current_lem {b} g c {v} {cur} k m muoff input hm fits room =
    elim (Bool-cases (id_of b (index_at v m) == cur)) [
      | inl here ↦
          let e = ==→eq _ _ here in
          (
            in_place g c k m hm muoff input,
            write_current_in_ram b c v m muoff input k.current here
                (write_in_ram_lem g c k m hm muoff input e),
            record {
              consistent = in_place-Consistent g c k m hm muoff input e;
              written = content-in_place g c k m hm muoff input e;
              others = λ m' ne. content_beside g c k m hm muoff input m' ne e;
            },
          )
      | inr there ↦
          let away : id_of b (index_at v m) ≢ cur = ground arith in
          let hs : (info v.infos cur).no_indices < mmpm b = elim room [
            | inl e ↦ absurd (away e)
            | inr h ↦ h
          ] in
          let (v', e, mv) = write_from_disk-Moved g c k m hm muoff input fits hs away in
          let whole = length-poke (content b c v cur m) muoff input ∙ length-content g c k m in
          (
            v',
            write_current_from_disk b c v m muoff input k.current there e,
            record {
              consistent = move-Consistent g c k mv hm hs away whole;
              written = content_moved g c k mv hm hs away whole;
              others = content_kept g c k mv hm hs away whole;
            },
          )
    ]
