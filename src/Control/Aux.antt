-- ===== src/Control/Aux.antt =====
-- `control_set_aux` and `control_get_aux`: the mountpoint of a partition.
use scubed.Base.{ℕ, List, ◌++◌, Option, some, none, true, false, if◌then◌else◌, codes}
use scubed.Hashtbl.{Element, same_bytes}
use scubed.Entries.{Server, put, unlock}
use scubed.Control.Reply.{Say, write_complete, write_silent_success}
use scubed.Control.Commands.{Outcome, arg, on_partition}

abbrev pub mountpoint : List ℕ
mountpoint = codes "mountpoint"

abbrev pub impossible : List ℕ → Say
impossible key = write_complete true (codes "key \"" ++ key ++ codes "\" is impossible")

abbrev pub set_aux_entry : List (List ℕ) → Server → Element → Outcome
set_aux_entry argv s e =
    let x = s.entry e.ptr in
    some (
      if same_bytes (arg argv 1) mountpoint
      then (
        unlock (put s e.ptr (record x { mountpoint = some (arg argv 2) })) e,
        write_silent_success,
      )
      else (unlock s e, impossible (arg argv 1)))

-- `strdup` is taken to find memory.
unfoldable pub set_aux : Server → List (List ℕ) → Outcome
set_aux s argv = on_partition (set_aux_entry argv) s argv

abbrev pub aux_text : List ℕ → Option (List ℕ) → Say
aux_text key none = write_complete true (codes "key \"" ++ key ++ codes "\" not found")
aux_text key (some text) = write_complete false text

abbrev pub get_aux_entry : List (List ℕ) → Server → Element → Outcome
get_aux_entry argv s e = some (
  unlock s e,
  aux_text (arg argv 1)
      (if same_bytes (arg argv 1) mountpoint then (s.entry e.ptr).mountpoint else none),
)

unfoldable pub get_aux : Server → List (List ℕ) → Outcome
get_aux s argv = on_partition (get_aux_entry argv) s argv
