-- ===== src/Control/Closed.antt =====
-- What the command close leaves of a partition that is not in use.
use scubed.Base.{
  ℕ, ◌^◌, ◌≡◌, ◌≢◌, ◌≤◌, inl, inr, ◌∙◌, subst, refl, List, [], ◌∷◌, ◌++◌, some, none, ◌==◌, ==→eq,
  get_or, ltb, false, true, Bool-cases, arith,
}
use scubed.Hashtbl.{Hashtbl, Element, by_key, by_ptr, same_key, find_in, get_bucket}
use scubed.Hashtbl.Delete.{Deleted}
use scubed.Hashtbl.Gone.{find_in-gone, find_in-other, find_in-fits}
use scubed.Hashtbl.Invariant.{Distinct}
use scubed.Entries.{Server, Freed, put, put_freed, freer}
use scubed.Entries.Freeing.{freer-Apart}
use scubed.Blockio.Info.{info}
use scubed.Entries.Locking.{Idle, lookup, delete-found}
use scubed.Scubed.State.{Base, Cipher, mesoblk_size}
use scubed.Control.Reply.{write_silent_success}
use scubed.Control.Commands.{arg, close}
use scubed.Control.Known.{close-known}

-- `e` went from the table, and no other name is touched.
pub record Gone (g h : Hashtbl) (e : Element) (name : List ℕ) : Type 0 where
  pub idle : Idle h
  pub absent : lookup h name ≡ none
  pub others :
      (other : List ℕ) → same_key g.key_size other e.key ≡ false → lookup h other ≡ lookup g other

module _ (g h : Hashtbl) (e : Element) (name : List ℕ) (idle : Idle g) (unique : g.unique ≡ true)
    (hit : lookup g name ≡ some e) (d : Deleted g h (by_ptr e.ptr) e (get_bucket g name)) where
  abbrev at : ℕ
  at = get_bucket g name

  -- The bucket of a key depends on the size of keys and the number of buckets only.
  same_bucket : (key : List ℕ) → get_bucket h key ≡ get_bucket g key
  unfolding get_bucket
  same_bucket key = rw (d.sized, d.masked) refl

  absent_now : lookup h name ≡ none
  absent_now =
      let u = d.here in
      let chain : Distinct g.key_size (u.front ++ (e ∷ u.back)) =
        subst (Distinct g.key_size) u.before (idle.valid.once unique at) in
      rw (same_bucket name, d.sized, u.after)
        (find_in-gone g.key_size name e u.front u.back chain
          (find_in-fits g.key_size (by_key name) (get_or g.buckets at []) e hit))

  other_kept :
      (other : List ℕ) → same_key g.key_size other e.key ≡ false → lookup h other ≡ lookup g other
  other_kept other differs =
      let u = d.here in
      rw (same_bucket other, d.sized)
        (elim (Bool-cases (get_bucket g other == at)) [
          | inl here ↦
              let same = ==→eq (get_bucket g other) at here in
              rw (same, u.after, u.before)
                (find_in-other g.key_size (by_key other) e u.front u.back differs)
          | inr apart ↦ rw (d.others (get_bucket g other) (λ eq. ground (arith, apart, eq))) refl
        ])

  deleted-Gone : Gone g h e name
  deleted-Gone = record {
    idle = record { valid = d.valid; unlocked = d.held ∙ idle.unlocked };
    absent = absent_now;
    others = other_kept;
  }

-- On a table with nothing locked, in which keys come once, and with 2 ^ 31 partitions at most, closing
-- a known partition that is not in use and whose address is that of no other one in its bucket
-- succeeds, if its freer returns: what that leaves is the state of the server, no macroblock belongs to
-- the device any more, the name is not known any more, and all other names find what they found.
pub close_lem :
    (b : Base) (c : Cipher (mesoblk_size b)) (s : Server) (argv : List (List ℕ)) (e : Element)
    (p : Freed)
    → Idle s.entries
    → s.entries.unique ≡ true
    → s.entries.count ≤ 2 ^ 31
    → lookup s.entries (arg argv 0) ≡ some e
    → find_in s.entries.key_size
        (by_ptr e.ptr)
        (get_or s.entries.buckets (get_bucket s.entries (arg argv 0)) [])
      ≡ some e
    → (s.entry e.ptr).inuse ≡ 0
    → freer b c (put s e.ptr (record (s.entry e.ptr) { to_be_deleted = true })) e.ptr ≡ some p
    → (h : Hashtbl) × (close b c s argv
        ≡ some (
          put_freed
              (record (put s e.ptr (record (s.entry e.ptr) { to_be_deleted = true })) {
                entries = h;
              })
              p,
          write_silent_success,
        ))
      × Gone s.entries h e (arg argv 0)
      × ((id : ℕ) → (info p.infos id).dev ≢ some e.ptr)
close_lem b c s argv e p idle unique few hit own unused frees =
    let marked = put s e.ptr (record (s.entry e.ptr) { to_be_deleted = true }) in
    let (h, run, d) = delete-found b c marked (arg argv 0) e e p idle few hit own frees in
    let free : ltb 0 (s.entry e.ptr).inuse ≡ false = ground (arith, unused) in
    (
      h,
      close-known s argv e idle hit b c ∙ rw (free, run) refl,
      deleted-Gone s.entries h e (arg argv 0) idle unique hit d,
      freer-Apart b c marked e.ptr p frees,
    )
