-- ===== src/Control/Tests.antt =====
-- Small runs of src/control.c, and the theorems at an input.
use scubed.Base.{
  ℕ, Bool, List, Option, ◌-◌, ◌^◌, ◌≡◌, ◌≢◌, refl, [], ◌∷◌, ◌++◌, some, none, ◌>>=◌, true, false,
  arith, replicate, get_or, length, length-replicate, ◌+◌, codes,
}
use scubed.Hashtbl.{
  Hashtbl, by_ptr, get_bucket, hash_sdbm, sdbm_loop, find_in, find_element_bykey,
  find_element_in_bucket, lock, add_element, unique_key, unlock_element_byptr,
}
use scubed.Entries.{Server, Freed, put, put_freed, freer, append_all}
use scubed.Entries.Locking.{lookup}
use scubed.Fuse.Tests.{server, partition, server-Safe}
use scubed.Control.Reply.{write_complete, write_silent_success}
use scubed.Control.Print.{strtol, padded_text, int_text, mib_text}
use scubed.Control.Commands.{check_name, parse_bool, close}
use scubed.Blockio.Info.{info}
use scubed.Control.Closed.{Gone, close_lem}
use scubed.Dllarr.{append, insert, walk}
use scubed.Juggler.{free_and_empty_into}
use scubed.Scubed.Tests.{base, plain}
use scubed.Control.Aux.{mountpoint, set_aux, get_aux}
use scubed.Control.Call.{
  skip_blanks, word, split_words, max_argc, load_commands, control_commands, empty_table,
  control_call, run, set_readonly,
}
use scubed.Control.Words.{line, blanks, split_words_lem}
use scubed.Control.Sent.{Sends, status_text, write_complete_lem}
use scubed.Control.Receive.{Receiver, buf_size, wipe, each_line, received, all_received}
use scubed.Control.Lines.{Holds}
use scubed.Control.Pieces.{Ended, all_received-line}
use scubed.Control.Stored.{get_aux-set_aux}

conversions :
    (padded_text 42 ≡ codes "0000042")
    × (int_text (2 ^ 32 - 5) ≡ codes "-5")
    × (mib_text 1625293 ≡ codes "1.6")
    × (strtol (codes " -12") ≡ (2 ^ 32 - 12, true))
    × (strtol (codes "12a") ≡ (12, false))
conversions = (refl, refl, refl, refl, refl)

-- A number that does not fit an `int` is cut down, and taken.
too_large : strtol (codes "4294967299") ≡ (3, true)
too_large = refl

names : (check_name (codes "Disk_2") ≡ true) × (check_name (codes "a/b") ≡ false)
unfolding check_name
names = (refl, refl)

truths : (parse_bool (codes "TRUE") ≡ some true) × (parse_bool (codes "no") ≡ none)
unfolding parse_bool
truths = (refl, refl)

-- A line for the table of commands.
understood :
    (do
      h ← load_commands 0 control_commands empty_table
      control_call h (codes " set-readonly  a 1 "))
    ≡ some (run set_readonly (codes "a" ∷ codes "1" ∷ []))
unfolding load_commands control_call split_words word skip_blanks add_element unique_key
    find_element_bykey find_element_in_bucket get_bucket hash_sdbm sdbm_loop find_in lock
    unlock_element_byptr
understood = refl

split_words_lem_example :
    split_words max_argc (blanks 1 ++ line (codes "info") ((1, codes "a") ∷ []) 2)
    ≡ some (codes "info" ∷ codes "a" ∷ [])
split_words_lem_example =
    split_words_lem max_argc 1 (codes "info") ((1, codes "a") ∷ []) 2
      (refl, (refl, (refl, (refl, tt)))) ((refl, tt), tt)

write_complete_lem_example :
    Sends
      (write_complete true (codes "no"))
      (status_text true ++ (codes "no" ++ codes "\n.\n"))
      (record { sent = []; takes = replicate 12 2 })
      3
write_complete_lem_example =
    write_complete_lem true (codes "no") (record { sent = []; takes = replicate 12 2 }) 3
      (omega arith) (omega arith)

found_there : lookup server.entries (codes "a") ≡ some partition
unfolding get_bucket hash_sdbm sdbm_loop find_in
found_there = refl

get_aux-set_aux_example :
    (s' : Server) × (set_aux server (codes "a" ∷ mountpoint ∷ codes "/mnt" ∷ [])
      ≡ some (s', write_silent_success))
    × (get_aux s' (codes "a" ∷ mountpoint ∷ []) ≡ some (s', write_complete false (codes "/mnt")))
get_aux-set_aux_example =
    get_aux-set_aux server (codes "a") (codes "/mnt") partition server-Safe.idle found_there

-- A connection on which the commands only add up the lengths of their lines.
abbrev counting : ℕ → List ℕ → Option (ℕ × Bool)
counting n line = some (n + length line, false)

abbrev fresh : Receiver ℕ
fresh = record { state = 5; buf = replicate buf_size 0; buf_len = 0 }

fresh-Holds : Holds counting [] fresh
fresh-Holds = record {
  sized = length-replicate {A = ℕ} buf_size 0;
  filled = refl;
  stands = λ k lt. absurd (omega arith);
}

all_received-line_example :
    (r' : Receiver ℕ) × (all_received counting fresh (codes "in" ∷ codes "fo\n" ∷ [])
      ≡ some (r', false))
    × Ended counting (codes "info") 9 r'
all_received-line_example =
    all_received-line counting (codes "in" ∷ []) (codes "fo") [] fresh 9 fresh-Holds (omega arith)
      (
        record { no_end = refl; no_nul = refl },
        (
          record { no_end = refl; no_nul = refl },
          (record { no_end = refl; no_nul = refl }, (record { no_end = refl; no_nul = refl }, tt)),
        ),
      )
      (omega arith) refl

-- The commands are kept, the last one first.
abbrev logging : List (List ℕ) → List ℕ → Option (List (List ℕ) × Bool)
logging texts line = some (line ∷ texts, false)

-- Of three lines that come at once the third is gone: the wiping of the second one reaches it.
third_is_lost :
    received logging
      (record { state = []; buf = replicate 14 0; buf_len = 0 })
      (codes "ab\ncd\nef\n")
    ≡ some (
      record { state = [] ∷ codes "cd" ∷ codes "ab" ∷ []; buf = replicate 14 0; buf_len = 0 },
      false,
    )
unfolding received each_line wipe
third_is_lost = refl

-- The entry of the partition, as close marks it.
abbrev marked : Server
marked = put server 100 (record (server.entry 100) { to_be_deleted = true })

abbrev nothing_left : Freed
nothing_left = record {
  infos = [];
  index_blocks = server.index_blocks;
  disk = server.disk;
  unallocated = server.unallocated;
  ids = server.ids;
}

-- What its freer leaves: three macroblocks that no device has.
abbrev left : Freed
left = elim (freer base plain marked 100) [ none ↦ nothing_left | some p ↦ p ]

given_back : freer base plain marked 100 ≡ some left
unfolding freer append_all append insert walk free_and_empty_into
given_back = refl

returned : left.unallocated.array ≡ 4 ∷ 3 ∷ 5 ∷ 0 ∷ []
unfolding freer append_all append insert walk free_and_empty_into
returned = refl

own_address :
    find_in server.entries.key_size
      (by_ptr 100)
      (get_or server.entries.buckets (get_bucket server.entries (codes "a")) [])
    ≡ some partition
unfolding get_bucket hash_sdbm sdbm_loop find_in
own_address = refl

close_lem_example :
    (h : Hashtbl) × (close base plain server (codes "a" ∷ [])
      ≡ some (put_freed (record marked { entries = h }) left, write_silent_success))
    × Gone server.entries h partition (codes "a")
    × ((id : ℕ) → (info left.infos id).dev ≢ some 100)
close_lem_example =
    close_lem base plain server (codes "a" ∷ []) partition left server-Safe.idle refl (omega arith)
      found_there own_address refl given_back
