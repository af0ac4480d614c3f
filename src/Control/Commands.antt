-- ===== src/Control/Commands.antt =====
-- The commands of src/control.c that open, close and mark partitions.
use scubed.Base.{
  ℕ, zero, suc, ◌+◌, List, [], ◌∷◌, ◌++◌, Option, some, none, ◌>>=◌, Bool, true, false, not, ◌==◌,
  ◌&&◌, ◌||◌, if◌then◌else◌, leb, ltb, get_or, codes,
}
use scubed.Hashtbl.{Element, same_bytes}
use scubed.Entries.{Entry, Server, put, unlock, delete, with_entry}
use scubed.Scubed.State.{Base, Cipher, mesoblk_size, Volume}
use scubed.Scubed.Output
use scubed.Control.Reply.{Say, write_complete, write_silent_success}

-- What a command gives back: the server, and what it says. A `Say` returns whether writing failed,
-- and the caller of a command closes the connection then.
abbrev pub Outcome : Type 0
Outcome = Option (Server × Say)

abbrev pub arg : List (List ℕ) → ℕ → List ℕ
arg argv k = get_or argv k []

abbrev pub not_found : List ℕ → Say
not_found name = write_complete true (codes "partition \"" ++ name ++ codes "\" not found")

abbrev pub busy : List ℕ → Say
busy name = write_complete true (codes "partition \"" ++ name ++ codes "\" is busy")

-- The search and the reply if nothing is found, as most commands begin.
abbrev pub on_partition : (Server → Element → Outcome) → Server → List (List ℕ) → Outcome
on_partition act s argv = with_entry (not_found (arg argv 0)) act s (arg argv 0)

abbrev pub name_char : ℕ → Bool
name_char c =
    (leb b'a' c && leb c b'z')
    || (leb b'A' c && leb c b'Z')
    || (leb b'0' c && leb c b'9')
    || c == b'_'

-- `check_name`, where 0 is `true`
unfoldable pub check_name : List ℕ → Bool
check_name [] = true
check_name (c ∷ cs) = if not (name_char c) then false else check_name cs

abbrev pub illegal_name : Say
illegal_name = write_complete true (
    codes
      "illegal name specified for partition, it may only contain letters, digits and the underscore")

-- `tolower`, for `strcasecmp`
abbrev lower : ℕ → ℕ
lower c = if leb b'A' c && leb c b'Z' then c + 32 else c

abbrev lowered : List ℕ → List ℕ
lowered [] = []
lowered (c ∷ cs) = lower c ∷ lowered cs

-- The tests for a truth value, in the order of the source.
unfoldable pub parse_bool : List ℕ → Option Bool
parse_bool text =
    if same_bytes text (codes "0") || same_bytes (lowered text) (codes "false")
    then some false
    else if same_bytes text (codes "1") || same_bytes (lowered text) (codes "true")
    then some true
    else none

abbrev pub mark_readonly : Entry → Option Bool → Entry × Say
mark_readonly x none = (x, write_complete true (codes "illegal_argument; expected boolean"))
mark_readonly x (some value) = (record x { readonly = value }, write_silent_success)

abbrev pub set_readonly_entry : List (List ℕ) → Server → Element → Outcome
set_readonly_entry argv s e =
    let x = s.entry e.ptr in
    let marked = mark_readonly x (parse_bool (arg argv 1)) in
    some (
      if ltb 0 x.inuse
      then (unlock s e, busy (arg argv 0))
      else (unlock (put s e.ptr marked.0) e, marked.1))

unfoldable pub set_readonly : Server → List (List ℕ) → Outcome
set_readonly s argv = on_partition (set_readonly_entry argv) s argv

abbrev pub mark_close : Entry → Option Bool → Entry × Say
mark_close x none = (x, write_complete true (codes "illegal argument; expected boolean"))
mark_close x (some value) = (record x { close_on_release = value }, write_silent_success)

abbrev pub set_close_entry : List (List ℕ) → Server → Element → Outcome
set_close_entry argv s e =
    let marked = mark_close (s.entry e.ptr) (parse_bool (arg argv 1)) in
    some (unlock (put s e.ptr marked.0) e, marked.1)

unfoldable pub set_close_on_release : Server → List (List ℕ) → Outcome
set_close_on_release s argv = on_partition (set_close_entry argv) s argv

-- `control_check_available`
unfoldable pub check_available : Server → List (List ℕ) → Outcome
check_available s argv =
    let name = arg argv 0 in
    let in_use = write_complete true (codes "partition \"" ++ name ++ codes "\" is in use") in
    let searched = with_entry write_silent_success (λ s' e. some (unlock s' e, in_use)) s name in
    if check_name name then searched else some (s, illegal_name)

-- The reply of `parse_int`, if it has one. The test for the range compares an `int` with the limits
-- of a `long`, and is never true.
abbrev pub unable : List ℕ → Say
unable text = write_complete true (codes "unable to parse ->" ++ text ++ codes "<-\n")

module _ (b : Base) (c : Cipher (mesoblk_size b)) where
  -- The rounds of `scubed3_cycle`.
  abbrev pub cycles : ℕ → Volume → Option Volume
  cycles zero v = some v
  cycles (suc times) v = do v' ← Output.cycle b c v; cycles times v'

  abbrev pub close_entry : List (List ℕ) → Server → Element → Outcome
  close_entry argv s e =
      let x = s.entry e.ptr in
      let closed = (do
        s' ← delete b c (unlock (put s e.ptr (record x { to_be_deleted = true })) e) e
        some (s', write_silent_success)) in
      if ltb 0 x.inuse then some (unlock s e, busy (arg argv 0)) else closed

  -- `control_close`
  unfoldable pub close : Server → List (List ℕ) → Outcome
  close s argv = on_partition (close_entry argv) s argv
