-- ===== src/Fuse/Tests.antt =====
-- A server with one partition, and the theorems on it.
use scubed.Base.{
  ◌^◌, ◌-◌, ◌==◌, if◌then◌else◌, ℕ, zero, suc, ◌≡◌, refl, [], ◌∷◌, some, none, ◌>>=◌, true, false,
  arith, get_or, All, codes,
}
use scubed.Hashtbl.{
  text, bytes, Element, Hashtbl, get_bucket, hash_sdbm, sdbm_loop, find_in, find_element_bykey,
  find_element_in_bucket, lock, unlock_element_byptr,
}
use scubed.Hashtbl.Invariant.{Distinct}
use scubed.Dllarr.{Dllarr, magic_number, head, tail}
use scubed.Entries.{Server, Entry, put, put_volume, volume_at, with_entry}
use scubed.Entries.Locking.{lookup}
use scubed.Fuse
use scubed.Fuse.{Answer, done, failed, ebusy}
use scubed.Fuse.Sessions.{Modes, closed, writing, Safe}
use scubed.Fuse.Serving.{open_file, modes_after}
use scubed.Fuse.Runs.{Run, start, request, run-Safe, run-write, run-open}
use scubed.Control.Commands
use scubed.Control.Commands.{busy}
use scubed.Scubed.Tests.{base, plain, volume}
use scubed.Scubed.Transfer

abbrev pub partition : Element
partition = record { ptr = 100; key = codes "a" }

abbrev table : Hashtbl
table = record {
  buckets = [] ∷ (partition ∷ []) ∷ [];
  key_size = text;
  key_bits = 1;
  unique = true;
  thread_safe = true;
  count = 1;
  held = [];
  freed = [];
}

abbrev entry : Entry
entry = record {
  size = 12;
  inuse = 0;
  readonly = false;
  to_be_deleted = false;
  close_on_release = true;
  mountpoint = none;
  volume = volume;
  unique_id = none;
}

abbrev spare : Dllarr
spare = record {
  magic = λ p. if p == head then magic_number else if p == tail then magic_number else 0;
  prev = λ p. if p == tail then head else 0;
  next = λ p. if p == head then tail else 0;
  index = λ p. if p == head then 2 ^ 32 - 1 else 0;
  array = 0 ∷ 0 ∷ 0 ∷ 0 ∷ [];
  size = 4;
}

abbrev identifiers : Hashtbl
identifiers = record {
  buckets = [] ∷ [] ∷ [];
  key_size = bytes 31;
  key_bits = 1;
  unique = true;
  thread_safe = true;
  count = 0;
  held = [];
  freed = [];
}

abbrev pub server : Server
server = record {
  entries = table;
  entry = λ ptr. entry;
  infos = volume.infos;
  index_blocks = volume.index_blocks;
  disk = volume.disk;
  unallocated = spare;
  ids = identifiers;
}

abbrev all_closed : Modes
all_closed ptr = closed

placed_here :
    (b : ℕ) → All (λ (e : Element). get_bucket table e.key ≡ b) (get_or table.buckets b [])
unfolding get_bucket hash_sdbm sdbm_loop
placed_here zero = tt
placed_here (suc zero) = (refl, tt)
placed_here (suc (suc b)) = tt

once_here : (b : ℕ) → Distinct text (get_or table.buckets b [])
unfolding find_in
once_here zero = tt
once_here (suc zero) = (refl, tt)
once_here (suc (suc b)) = tt

pub server-Safe : Safe server all_closed
server-Safe = record {
  idle = record {
    valid = record {
      some_bits = omega arith;
      few_bits = omega arith;
      all_buckets = refl;
      counted = refl;
      placed = placed_here;
      once = λ u. once_here;
    };
    unlocked = refl;
  };
  few = omega arith;
  fits = λ ptr. refl;
}

abbrev opened_modes : Modes
opened_modes = modes_after server all_closed (open_file (codes "/a") true) true

abbrev opened : Server
opened = put server 100 (record entry { inuse = 1 })

opened_run : Run base plain 0 server all_closed opened opened_modes
unfolding Fuse.open_file with_entry find_element_bykey find_element_in_bucket get_bucket hash_sdbm
    sdbm_loop find_in lock unlock_element_byptr
opened_run = request (open_file (codes "/a") true) true start tt refl

found_there : lookup opened.entries (codes "a") ≡ some partition
unfolding get_bucket hash_sdbm sdbm_loop find_in
found_there = refl

still_writing : opened_modes 100 ≡ writing
unfolding get_bucket hash_sdbm sdbm_loop find_in
still_writing = refl

run-Safe_example : Safe opened opened_modes
run-Safe_example = run-Safe base plain 0 opened_run server-Safe

run-write_example : Fuse.write base plain 0 opened (codes "/a") (1 ∷ 2 ∷ []) 2 0 ≡ (do
  r ← Transfer.do_req base plain 0 Transfer.write (volume_at opened 100) 0 2 (1 ∷ 2 ∷ [])
  some (put_volume opened 100 r.0, (done 2, r.1)))
run-write_example =
    run-write base plain 0 opened_run server-Safe (codes "/a") partition found_there still_writing
      (1 ∷ 2 ∷ []) 2 0

run-open_example :
    (Fuse.open_file opened (codes "/a") false ≡ some (opened, failed ebusy))
    × (Commands.close base plain opened (codes "a" ∷ []) ≡ some (opened, busy (codes "a")))
    × (Commands.set_readonly opened (codes "a" ∷ []) ≡ some (opened, busy (codes "a")))
run-open_example =
    run-open base plain 0 opened_run server-Safe (codes "/a") partition found_there
      (λ shut. ground (arith, still_writing, shut)) (codes "a" ∷ []) refl false
