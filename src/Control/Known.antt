-- ===== src/Control/Known.antt =====
-- What the commands on one partition come to if it is known: the locks are as they were.
use scubed.Base.{ℕ, ◌≡◌, refl, List, some, none, ◌>>=◌, ltb, true, if◌then◌else◌}
use scubed.Hashtbl.{Hashtbl, Element, same_bytes, unlock_element_byptr}
use scubed.Entries.{Server, Entry, put, delete, with_entry}
use scubed.Entries.Locking.{Idle, lookup, with_entry-known}
use scubed.Scubed.State.{Base, Cipher, mesoblk_size}
use scubed.Control.Reply.{write_silent_success}
use scubed.Control.Commands.{
  Outcome, arg, not_found, busy, parse_bool, mark_readonly, mark_close, set_readonly,
  set_readonly_entry, set_close_on_release, set_close_entry, close, close_entry,
}
use scubed.Control.Aux.{
  mountpoint, aux_text, impossible, set_aux, set_aux_entry, get_aux, get_aux_entry,
}

module _ (s : Server) (argv : List (List ℕ)) (e : Element) (idle : Idle s.entries)
    (hit : lookup s.entries (arg argv 0) ≡ some e) where
  abbrev x : Entry
  x = s.entry e.ptr

  known :
      (act : Server → Element → Outcome)
      → (h : Hashtbl) × (with_entry (not_found (arg argv 0)) act s (arg argv 0)
          ≡ act (record s { entries = h }) e)
        × (unlock_element_byptr h e.ptr ≡ s.entries)
  known act = with_entry-known (not_found (arg argv 0)) act s (arg argv 0) idle e hit

  pub set_readonly-known :
      set_readonly s argv
      ≡ some (
          let marked = mark_readonly x (parse_bool (arg argv 1)) in
          if ltb 0 x.inuse then (s, busy (arg argv 0)) else (put s e.ptr marked.0, marked.1))
  unfolding set_readonly
  set_readonly-known =
      let (h, run, opened) = known (set_readonly_entry argv) in rw (run, opened) refl

  pub set_close_on_release-known :
      set_close_on_release s argv
      ≡ some
          (let marked = mark_close x (parse_bool (arg argv 1)) in (put s e.ptr marked.0, marked.1))
  unfolding set_close_on_release
  set_close_on_release-known =
      let (h, run, opened) = known (set_close_entry argv) in rw (run, opened) refl

  pub close-known :
      (b : Base) (c : Cipher (mesoblk_size b))
      → close b c s argv ≡ (
          if ltb 0 x.inuse then some (s, busy (arg argv 0)) else (do
            s' ← delete b c (put s e.ptr (record x { to_be_deleted = true })) e
            some (s', write_silent_success)))
  unfolding close
  close-known b c = let (h, run, opened) = known (close_entry b c argv) in rw (run, opened) refl

  pub set_aux-known :
      set_aux s argv
      ≡ some (
          if same_bytes (arg argv 1) mountpoint
          then (put s e.ptr (record x { mountpoint = some (arg argv 2) }), write_silent_success)
          else (s, impossible (arg argv 1)))
  unfolding set_aux
  set_aux-known = let (h, run, opened) = known (set_aux_entry argv) in rw (run, opened) refl

  pub get_aux-known :
      get_aux s argv
      ≡ some (
        s,
        aux_text (arg argv 1) (if same_bytes (arg argv 1) mountpoint then x.mountpoint else none),
      )
  unfolding get_aux
  get_aux-known = let (h, run, opened) = known (get_aux_entry argv) in rw (run, opened) refl
