-- ===== src/Scubed/ReadWrite.antt =====
-- `do_write` while the output is initialised and the current macroblock has room, and the reads after.
use scubed.Base.{
  bind_some, ℕ, ◌+◌, ◌≤◌, ◌<◌, ◌≡◌, ◌⊎◌, inl, inr, refl, ◌∙◌, ap, List, some, arith, length, ◌==◌,
  Bool-cases, if◌then◌else◌, Bool, true, false, le→leb,
}
use scubed.Binio.Memory.{poke}
use scubed.Blockio.Info.{info}
use scubed.Scubed.State.{Base, Cipher, Volume, mmpm, mesoblk_size, id_of, index_at}
use scubed.Scubed.Output.{initialize_output, read_mesoblk}
use scubed.Scubed.Request.{write_current, make_room, do_write, do_read}
use scubed.Scubed.Address.{Geometry}
use scubed.Scubed.Contents.{content, Consistent}
use scubed.Binio.Part.{part, part-poke}
use scubed.Scubed.Read.{do_read_lem, length-content}
use scubed.Scubed.Current.{Written, write_current_lem}

-- The write leaves no other trace than `updated`.
abbrev pub touched : Volume → Volume
touched v = record v { updated = true }

touched-Consistent :
    {b : Base} {v : Volume} {cur : ℕ} → Consistent b v cur → Consistent b (touched v) cur
touched-Consistent k = record {
  current = k.current;
  in_array = k.in_array;
  all_blocks = k.all_blocks;
  addresses = k.addresses;
  sized = k.sized;
  buffer = k.buffer;
  in_ram = k.in_ram;
  on_disk = k.on_disk;
  room = k.room;
  full = k.full;
  placed = λ m h.
      let p = k.placed m h in record { in_array = p.in_array; in_use = p.in_use; named = p.named };
  counted = k.counted;
  filled = k.filled;
  owned = k.owned;
  unique = k.unique;
}

content-touched :
    (b : Base) (c : Cipher (mesoblk_size b)) (v : Volume) (cur m : ℕ)
    → content b c (touched v) cur m ≡ content b c v cur m
unfolding read_mesoblk
content-touched b c v cur m = refl

-- The steps of `do_write` before `write_current`, when no macroblock has to be selected.
module _ (b : Base) (c : Cipher (mesoblk_size b)) (v : Volume) (cur m muoff : ℕ) (input : List ℕ)
    (e : v.bi ≡ some cur)
    (room : (id_of b (index_at v m) ≡ cur) ⊎ ((info v.infos cur).no_indices < mmpm b)) where
  make_room_lem : (fuel : ℕ) → make_room b c fuel v (index_at v m) m ≡ some (v, index_at v m)
  unfolding make_room
  make_room_lem fuel = bind_some _ e ∙ elim (Bool-cases (id_of b (index_at v m) == cur)) [
    | inl here ↦ rw here refl
    | inr there ↦
        let spare : ((info v.infos cur).no_indices == mmpm b) ≡ false = elim room [
          | inl h ↦ ground arith
          | inr h ↦ ground arith
        ] in
        rw (there, spare) refl
  ]

if_true : {A : Type 0} {t : Bool} (x y : A) → t ≡ true → (if t then x else y) ≡ x
if_true x y e = ap (λ t. if t then x else y) e

initialize_output_lem :
    (b : Base) (c : Cipher (mesoblk_size b)) (v : Volume)
    → v.output_initialized ≡ true
    → initialize_output b c v ≡ some v
unfolding initialize_output
initialize_output_lem b c v e = if_true (some v) _ e

do_write_step :
    (b : Base) (c : Cipher (mesoblk_size b)) (fuel : ℕ) (v : Volume) {ready roomy : Volume}
    (m muoff : ℕ) (input : List ℕ) {index : ℕ}
    → muoff + length input ≤ mesoblk_size b
    → initialize_output b c (touched v) ≡ some ready
    → make_room b c fuel ready (index_at v m) m ≡ some (roomy, index)
    → do_write b c fuel v m muoff input ≡ write_current b c roomy index m muoff input
unfolding do_write
do_write_step b c fuel v m muoff input h e1 e2 = rw (le→leb _ _ h, e1, e2) refl

-- The write succeeds with what `Written` states, and the bytes are read back.
pub do_write_lem :
    {b : Base} (g : Geometry b) (c : Cipher (mesoblk_size b)) {v : Volume} {cur : ℕ}
    → Consistent b v cur
    → (fuel m muoff : ℕ) (input : List ℕ) → v.output_initialized ≡ true
    → m < v.no_block_indices
    → muoff + length input ≤ mesoblk_size b
    → (id_of b (index_at v m) ≡ cur) ⊎ ((info v.infos cur).no_indices < mmpm b)
    → (v' : Volume) × (do_write b c fuel v m muoff input ≡ some v')
      × Written b c v v' cur m muoff input
      × (do_read b c v' m muoff (length input) ≡ some input)
do_write_lem {b} g c {v} {cur} k fuel m muoff input ready hm fits room =
    let (v', e, w) = write_current_lem g c (touched-Consistent k) m muoff input hm fits room in
    let written = w.written ∙ ap (λ x. poke x muoff input) (content-touched b c v cur m) in
    (
      v',
      do_write_step b c fuel v m muoff input fits (initialize_output_lem b c (touched v) ready)
            (make_room_lem b c (touched v) cur m muoff input k.current room fuel)
          ∙ e,
      record {
        consistent = w.consistent;
        written = written;
        others = λ m' ne. w.others m' ne ∙ content-touched b c v cur m';
      },
      do_read_lem g c w.consistent m muoff (length input) fits
          ∙ ap some (
              ap (λ x. part x muoff (length input)) written
              ∙ part-poke (content b c v cur m) input muoff
                  (omega (arith, length-content g c k m))),
    )
