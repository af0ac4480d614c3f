-- ===== src/Scubed/Tests.antt =====
-- A small volume: block 0 is current and holds mesoblock 1, block 1 holds mesoblock 0 in its second
-- slot (the first is obsolete), and mesoblock 2 was never written.
use scubed.Base.{
  ℕ, zero, suc, ◌≤◌, ◌<◌, ◌≡◌, ◌≢◌, refl, inl, List, [], ◌∷◌, some, none, true, false, arith,
  length, get_or, inr,
}
use scubed.Juggler.{Juggler, get_devblock, get_obsoleted, from_schedule, output, schedule}
use scubed.Random.{random_custom, draw, limit}
use scubed.Juggler.Invariant.{IsValid}
use scubed.Bitmap.{getbits}
use scubed.Blockio.Info.{Infos, info, blank}
use scubed.Scubed.State.{Base, Cipher, Volume, mesoblk_size, mmpm, id_of, no_of, never, index_at}
use scubed.Scubed.Output.{copy_old_block_to_current}
use scubed.Scubed.Request.{do_read, do_write}
use scubed.Scubed.Address.{Geometry}
use scubed.Scubed.Contents.{content, refs, Placed, Consistent}
use scubed.Binio.Part.{part}
use scubed.Scubed.Read.{do_read_lem}
use scubed.Scubed.Current.{Written}
use scubed.Scubed.ReadWrite.{do_write_lem}
use scubed.Scubed.Output.{write_and_select}
use scubed.Scubed.WriteOut.{Next, DrainedBlock, Advanced, write_and_select_lem}
use scubed.Scubed.Reselect.{reselected_lem}
use scubed.Scubed.Init.{unwritten, replay_all, scubed3_reinit}
use scubed.Scubed.Replaying.{Loaded, loaded_index}
use scubed.Scubed.Replayed.{Replayed, replay_all_lem}
use scubed.Scubed.Enlarged.{scubed3_reinit_lem}
use scubed.Scubed.Flat.{Filled, do_req-read}
use scubed.Scubed.Transfer.{read, do_req}
use scubed.Scubed.Drain.{Drained, copy_old_block_to_current_lem}

abbrev pub base : Base
base = record { macroblock_log = 3; mesoblk_log = 1; total_macroblocks = 3 }

abbrev pub plain : Cipher (mesoblk_size base)
plain = record {
  enc = λ seqno slot id x. x;
  dec = λ seqno slot id x. x;
  dec_enc = λ seqno slot id x h. refl;
  length_enc = λ seqno slot id x h. h;
  length_dec = λ seqno slot id x h. h;
}

abbrev blocks : Infos
blocks =
    record blank { seqno = 9; next_seqno = 12; no_indices = 1; indices = 1 ∷ 0 ∷ 0 ∷ [] }
    ∷ record blank {
      seqno = 8;
      next_seqno = 11;
      no_indices = 2;
      no_nonobsolete = 1;
      indices = 1 ∷ 0 ∷ 0 ∷ [];
    }
    ∷ record blank { indices = 0 ∷ 0 ∷ 0 ∷ [] }
    ∷ []

-- Block 1 is the next that comes free, and block 2 is free.
abbrev juggler : Juggler
juggler = record {
  scheduled = 1 ∷ 0 ∷ [];
  unscheduled = 2 ∷ [];
  no_scheduled = 2;
  no_unscheduled = 1;
  seqno = 9;
}

-- Block 0 alone is used, and its time has come.
abbrev alone : Juggler
alone = record {
  scheduled = 0 ∷ [];
  unscheduled = [];
  no_scheduled = 1;
  no_unscheduled = 0;
  seqno = 11;
}

abbrev volume_with : Juggler → Volume
volume_with j = record {
  infos = blocks;
  index_blocks = λ id. none;
  disk = λ id slot. 7 ∷ 8 ∷ [];
  juggler = j;
  stream = 0 ∷ 0 ∷ [];
  status = record { no_bits = 3; no_set = 3; bits = 7 ∷ [] };
  no_macroblocks = 3;
  reserved_macroblocks = 1;
  bi = some 0;
  tail_macroblock = some 1;
  tmp = (5 ∷ 6 ∷ []) ∷ (0 ∷ 0 ∷ []) ∷ (0 ∷ 0 ∷ []) ∷ [];
  updated = false;
  writes = 0;
  output_initialized = true;
  no_block_indices = 3;
  block_indices = 5 ∷ 0 ∷ never ∷ [];
}

abbrev pub volume : Volume
volume = volume_with juggler

base-Geometry : Geometry base
base-Geometry = record { some_bits = omega arith; few_bits = omega arith }

here-Placed : (m : ℕ) → index_at volume m ≢ never → Placed base blocks (index_at volume m) m
unfolding id_of no_of
here-Placed zero h = record { in_array = omega arith; in_use = omega arith; named = refl }
here-Placed (suc zero) h = record { in_array = omega arith; in_use = omega arith; named = refl }
here-Placed (suc (suc zero)) h = absurd (h refl)
here-Placed (suc (suc (suc m))) h = absurd (h refl)

whole : (slot : ℕ) → slot < mmpm base → length (get_or volume.tmp slot []) ≡ mesoblk_size base
whole zero h = refl
whole (suc zero) h = refl
whole (suc (suc zero)) h = refl
whole (suc (suc (suc slot))) h = absurd (omega arith)

room_here : (id : ℕ) → id < 3 → length (info blocks id).indices ≡ mmpm base
room_here zero h = refl
room_here (suc zero) h = refl
room_here (suc (suc zero)) h = refl
room_here (suc (suc (suc id))) h = absurd (omega arith)

full_here : (id : ℕ) → id < 3 → (info blocks id).no_indices ≤ mmpm base
full_here zero h = omega arith
full_here (suc zero) h = omega arith
full_here (suc (suc zero)) h = omega arith
full_here (suc (suc (suc id))) h = absurd (omega arith)

counted_here :
    (id : ℕ) → id < 3 → id ≢ 0 → (info blocks id).no_nonobsolete ≡ refs base id volume.block_indices
unfolding id_of
counted_here zero h ne = absurd (ne refl)
counted_here (suc zero) h ne = refl
counted_here (suc (suc zero)) h ne = refl
counted_here (suc (suc (suc id))) h ne = absurd (omega arith)

of_current :
    (i : ℕ)
    → i < 1
    → (id_of base (index_at volume (get_or (info blocks 0).indices i 0)) ≡ 0)
      × (no_of base (index_at volume (get_or (info blocks 0).indices i 0)) ≡ i)
unfolding id_of no_of
of_current zero h = (refl, refl)
of_current (suc i) h = absurd (omega arith)

of_old :
    (id i j : ℕ)
    → id ≢ 0
    → i < (info blocks id).no_indices
    → j < (info blocks id).no_indices
    → get_or (info blocks id).indices i 0 ≡ get_or (info blocks id).indices j 0
    → i ≡ j
of_old zero i j ne hi hj e = absurd (ne refl)
of_old (suc zero) zero zero ne hi hj e = refl
of_old (suc zero) zero (suc zero) ne hi hj e = absurd (omega arith)
of_old (suc zero) (suc zero) zero ne hi hj e = absurd (omega arith)
of_old (suc zero) (suc zero) (suc zero) ne hi hj e = refl
of_old (suc zero) (suc (suc i)) j ne hi hj e = absurd (omega arith)
of_old (suc zero) zero (suc (suc j)) ne hi hj e = absurd (omega arith)
of_old (suc zero) (suc zero) (suc (suc j)) ne hi hj e = absurd (omega arith)
of_old (suc (suc zero)) i j ne hi hj e = absurd (omega arith)
of_old (suc (suc (suc id))) i j ne hi hj e = absurd (omega arith)

volume-Consistent : (j : Juggler) → Consistent base (volume_with j) 0
unfolding id_of
volume-Consistent j = record {
  current = refl;
  in_array = omega arith;
  all_blocks = refl;
  addresses = omega arith;
  sized = refl;
  buffer = refl;
  in_ram = whole;
  on_disk = λ id slot h. refl;
  room = room_here;
  full = full_here;
  placed = here-Placed;
  counted = counted_here;
  filled = refl;
  owned = of_current;
  unique = of_old;
}

do_read_lem_example :
    do_read base plain volume 0 1 1 ≡ some (part (content base plain volume 0 0) 1 1)
do_read_lem_example =
    do_read_lem base-Geometry plain (volume-Consistent juggler) 0 1 1 (omega arith)

do_write_lem_example :
    (v' : Volume) × (do_write base plain 0 volume 0 1 (4 ∷ []) ≡ some v')
    × Written base plain volume v' 0 0 1 (4 ∷ [])
    × (do_read base plain v' 0 1 1 ≡ some (4 ∷ []))
do_write_lem_example =
    do_write_lem base-Geometry plain (volume-Consistent juggler) 0 0 1 (4 ∷ []) refl (omega arith)
      (omega arith) (inr (omega arith))

copy_old_block_to_current_lem_example :
    (v' : Volume) × (copy_old_block_to_current base plain volume ≡ some v')
    × Drained base plain volume v' 0 1
unfolding getbits id_of
copy_old_block_to_current_lem_example =
    copy_old_block_to_current_lem base-Geometry plain (volume-Consistent juggler) refl refl
      (λ e. absurd (omega arith)) (omega arith) (omega arith)

juggler-IsValid : IsValid blocks juggler
juggler-IsValid = record {
  scheduled_count = refl;
  unscheduled_count = refl;
  ascending = omega arith;
  distinct = λ k. ground arith;
  inside = λ k h. ground arith;
  small = omega arith;
}

only-Next : (n : ℕ) → Next volume n → DrainedBlock base volume 0 n
unfolding id_of
only-Next zero h = absurd (ground arith)
only-Next (suc zero) h = absurd (ground arith)
only-Next (suc (suc zero)) h = record { other = λ e. omega arith; empty = refl; vacant = refl }
only-Next (suc (suc (suc n))) h = absurd (ground arith)

write_and_select_lem_example :
    (v' : Volume) × (n : ℕ) × (write_and_select base plain volume ≡ some v')
    × Advanced base plain volume v' 0 n
write_and_select_lem_example =
    write_and_select_lem base-Geometry plain (volume-Consistent juggler) juggler-IsValid
      (inl (omega arith)) (omega arith) (omega arith) only-Next

reselected_lem_example :
    (v' : Volume) × (write_and_select base plain (volume_with alone) ≡ some v')
    × (do_read base plain v' 1 0 2
        ≡ some (part (plain.enc 9 1 0 (content base plain (volume_with alone) 0 1)) 0 2))
unfolding get_devblock get_obsoleted from_schedule output schedule random_custom draw limit id_of
    no_of
reselected_lem_example =
    reselected_lem base-Geometry plain (volume-Consistent alone) 1 0 2 refl refl refl

do_req-read_example :
    (buf : List ℕ) × (do_req base plain 0 read volume 1 3 (0 ∷ 0 ∷ 0 ∷ 0 ∷ [])
      ≡ some (volume, buf, 1))
    × Filled base plain volume 0 1 (0 ∷ 0 ∷ 0 ∷ 0 ∷ []) buf 3
do_req-read_example =
    do_req-read base-Geometry plain (volume-Consistent juggler) 1 (0 ∷ 0 ∷ 0 ∷ 0 ∷ []) 0 3
      (omega arith) (omega arith) (omega arith) (omega arith) (omega arith) (omega arith)

-- The blocks 1 and 0 as they are found: mesoblock 1 is in both.
abbrev found_blocks : Infos
found_blocks =
    record blank {
      seqno = 9;
      next_seqno = 12;
      no_indices = 1;
      no_nonobsolete = 1;
      indices = 1 ∷ 0 ∷ 0 ∷ [];
    }
    ∷ record blank {
      seqno = 8;
      next_seqno = 11;
      no_indices = 2;
      no_nonobsolete = 2;
      indices = 1 ∷ 0 ∷ 0 ∷ [];
    }
    ∷ []

first-Loaded : Loaded base found_blocks 3 0
first-Loaded = record {
  in_array = omega arith;
  address = omega arith;
  all_live = refl;
  fits = omega arith;
  inside = λ k h. inside k h;
  once = λ j k hj hk e. omega arith;
}
  where
    inside : (k : ℕ) → k < 1 → loaded_index found_blocks 0 k < 3
    inside zero h = omega arith
    inside (suc k) h = absurd (omega arith)

second-Loaded : Loaded base found_blocks 3 1
second-Loaded = record {
  in_array = omega arith;
  address = omega arith;
  all_live = refl;
  fits = omega arith;
  inside = inside;
  once = once;
}
  where
    inside : (k : ℕ) → k < 2 → loaded_index found_blocks 1 k < 3
    inside zero h = omega arith
    inside (suc zero) h = omega arith
    inside (suc (suc k)) h = absurd (omega arith)

    once :
        (j k : ℕ)
        → j < 2
        → k < 2
        → loaded_index found_blocks 1 j ≡ loaded_index found_blocks 1 k
        → j ≡ k
    once zero zero hj hk e = refl
    once zero (suc zero) hj hk e = absurd (omega (arith, e))
    once (suc zero) zero hj hk e = absurd (omega (arith, e))
    once (suc zero) (suc zero) hj hk e = refl
    once (suc (suc j)) k hj hk e = absurd (omega arith)
    once j (suc (suc k)) hj hk e = absurd (omega arith)

abbrev found : Volume
found = record volume { infos = found_blocks; no_block_indices = 0; block_indices = [] }

replay_all_lem_example :
    (v' : Volume) × (replay_all base (unwritten base found 3) (1 ∷ 0 ∷ []) ≡ some v')
    × Replayed base found_blocks v' (1 ∷ 0 ∷ []) 3
replay_all_lem_example =
    replay_all_lem base-Geometry found (1 ∷ 0 ∷ []) 3 (second-Loaded, (first-Loaded, tt))
      (λ id. ground arith)

-- One of three macroblocks is reserved, so there is room for six mesoblocks.
scubed3_reinit_lem_example :
    (v' : Volume) × (scubed3_reinit base volume ≡ some v')
    × Consistent base v' 0
    × (v'.no_block_indices ≡ 6)
    × ((m : ℕ) → index_at v' m ≡ index_at volume m)
    × ((m : ℕ) → content base plain v' 0 m ≡ content base plain volume 0 m)
scubed3_reinit_lem_example = scubed3_reinit_lem plain (volume-Consistent juggler) (omega arith)
