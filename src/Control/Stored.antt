-- ===== src/Control/Stored.antt =====
-- The mountpoint of a partition, as `control_set_aux` and `control_get_aux` keep it.
use scubed.Base.{
  ℕ, ◌≡◌, ◌∙◌, refl, ap, List, [], ◌∷◌, some, ◌==◌, eq→==, true, false, if◌then◌else◌,
}
use scubed.Hashtbl.{Element}
use scubed.Entries.{Server, put}
use scubed.Entries.Locking.{Idle, lookup}
use scubed.Control.Reply.{write_silent_success, write_complete}
use scubed.Control.Aux.{mountpoint, aux_text, set_aux, get_aux}
use scubed.Control.Known.{set_aux-known, get_aux-known}

-- On a known partition, a mountpoint that was set is answered, and no entry changes then.
pub get_aux-set_aux :
    (s : Server) (name text : List ℕ) (e : Element)
    → Idle s.entries
    → lookup s.entries name ≡ some e
    → (s' : Server) × (set_aux s (name ∷ mountpoint ∷ text ∷ []) ≡ some (s', write_silent_success))
      × (get_aux s' (name ∷ mountpoint ∷ []) ≡ some (s', write_complete false text))
get_aux-set_aux s name text e idle hit =
    let y = record (s.entry e.ptr) { mountpoint = some text } in
    let s' = put s e.ptr y in
    let itself : (e.ptr == e.ptr) ≡ true = eq→== e.ptr e.ptr refl in
    (
      s',
      set_aux-known s (name ∷ mountpoint ∷ text ∷ []) e idle hit,
      get_aux-known s' (name ∷ mountpoint ∷ []) e idle hit
          ∙ ap (λ t. some (s', aux_text mountpoint (if t then y else s.entry e.ptr).mountpoint))
              itself,
    )
