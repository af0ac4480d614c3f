-- ===== src/Entries/Locking.antt =====
-- The entry of a name that is known, and what its lock comes to.
use scubed.Scubed.State.{Base, Cipher, mesoblk_size}
use scubed.Base.{
  ◌≤◌, ℕ, ◌+◌, ◌^◌, ◌≡◌, inl, inr, refl, sym, ◌∙◌, ap, subst, List, [], ◌∷◌, get_or, Option, some,
  none, arith, lt→ltb, ltb, All, ◌==◌, Bool-cases, true, false, eq→==, if◌then◌else◌,
}
use scubed.Hashtbl.{
  KeySize, Element, Hashtbl, Target, by_key, by_ptr, compare_target, find_in, get_bucket, holds,
  find_element_bykey, find_element_in_bucket, unlock_element_byptr, delete_element_byptr,
}
use scubed.Hashtbl.Invariant.{IsValid, get_bucket-lt}
use scubed.Hashtbl.Add.{lock-unlock}
use scubed.Hashtbl.Delete.{Deleted, delete_element_lem}
use scubed.Entries.{Server, Freed, put_freed, freer, with_entry, delete}

-- The table of a server between two operations: valid, and nothing is locked.
pub record Idle (h : Hashtbl) : Type 0 where
  pub valid : IsValid h
  pub unlocked : h.held ≡ []

-- What a search by name finds.
abbrev pub lookup : Hashtbl → List ℕ → Option Element
lookup h name = find_in h.key_size (by_key name) (get_or h.buckets (get_bucket h name) [])

module _ {A : Type 0} (missing : A) (act : Server → Element → Option (Server × A)) (s : Server)
    (name : List ℕ) (idle : Idle s.entries) where
  small : ltb (get_bucket s.entries name) (2 ^ s.entries.key_bits) ≡ true
  small = lt→ltb _ _ (get_bucket-lt s.entries name idle.valid)

  pub with_entry-unknown :
      lookup s.entries name ≡ none → with_entry missing act s name ≡ some (s, missing)
  unfolding with_entry find_element_bykey find_element_in_bucket
  with_entry-unknown e = rw (small, e) refl

  -- The operation gets the server with the entry locked; unlocking it gives the server back.
  pub with_entry-known :
      (e : Element)
      → lookup s.entries name ≡ some e
      → (h : Hashtbl) × (with_entry missing act s name ≡ act (record s { entries = h }) e)
        × (unlock_element_byptr h e.ptr ≡ s.entries)
  unfolding with_entry find_element_bykey find_element_in_bucket
  with_entry-known e hit =
      let free : holds e.ptr s.entries.held ≡ false = ap (holds e.ptr) idle.unlocked in
      let (h, locked, opened) = lock-unlock s.entries e.ptr free in
      (h, rw (small, hit, locked) refl, opened)

module _ (size : KeySize) (target : Target) (P : Element → Type 0) where
  -- What holds of a chain holds of what is found in it.
  All-find_in : (es : List Element) (e : Element) → All P es → find_in size target es ≡ some e → P e
  unfolding find_in
  All-find_in [] e all hit = absurd (ground arith)
  All-find_in (x ∷ xs) e all hit = elim (Bool-cases (compare_target size target x)) [
    | inl fits ↦
        let same : x ≡ e =
          ap (λ o. elim o [ none ↦ x | some y ↦ y ])
            (sym (ap (λ t. if t then some x else find_in size target xs) fits) ∙ hit) in
        subst P same all.0
    | inr differs ↦
        All-find_in xs e all.1
          (sym (ap (λ t. if t then some x else find_in size target xs) differs) ∙ hit)
  ]

-- An element that is in a chain is found by its pointer, or another one with it.
found_by_ptr :
    (size : KeySize) (target : Target) (es : List Element) (e : Element)
    → find_in size target es ≡ some e
    → (e' : Element) × (find_in size (by_ptr e.ptr) es ≡ some e')
unfolding find_in
found_by_ptr size target [] e hit = absurd (ground arith)
found_by_ptr size target (x ∷ xs) e hit = elim (Bool-cases (e.ptr == x.ptr)) [
  | inl here ↦ (x, rw (here) refl)
  | inr apart ↦ elim (Bool-cases (compare_target size target x)) [
    | inl fits ↦
        let same : x ≡ e =
          ap (λ o. elim o [ none ↦ x | some y ↦ y ])
            (sym (ap (λ t. if t then some x else find_in size target xs) fits) ∙ hit) in
        absurd (ground (arith, apart, eq→== e.ptr x.ptr (ap (λ (y : Element). y.ptr) (sym same))))
    | inr differs ↦
        let (e', later) =
          found_by_ptr size target xs e
            (sym (ap (λ t. if t then some x else find_in size target xs) differs) ∙ hit) in
        (e', rw (apart) later)
  ]
]

-- Deleting the entry of a known name, whose freer returns, where `e'` is what its pointer finds.
pub delete-found :
    (b : Base) (c : Cipher (mesoblk_size b)) (s : Server) (name : List ℕ) (e e' : Element)
    (p : Freed)
    → Idle s.entries
    → s.entries.count ≤ 2 ^ 31
    → lookup s.entries name ≡ some e
    → find_in s.entries.key_size
        (by_ptr e.ptr)
        (get_or s.entries.buckets (get_bucket s.entries name) [])
      ≡ some e'
    → freer b c s e.ptr ≡ some p
    → (h : Hashtbl) × (delete b c s e ≡ some (put_freed (record s { entries = h }) p))
      × Deleted s.entries h (by_ptr e.ptr) e' (get_bucket s.entries name)
unfolding delete delete_element_byptr
delete-found b c s name e e' p idle few hit byptr frees =
    let g = s.entries in
    let at = get_bucket g name in
    let same : get_bucket g e.key ≡ at =
      All-find_in g.key_size (by_key name) (λ x. get_bucket g x.key ≡ at) (get_or g.buckets at []) e
        (idle.valid.placed at) hit in
    let (h, run, deleted) =
      delete_element_lem g (by_ptr e.ptr) at idle.valid (get_bucket-lt g name idle.valid) e' byptr
        (ap (holds e'.ptr) idle.unlocked) few in
    let one_less : (h.count == g.count) ≡ false = less h.count g.count deleted.counted in
    (h, rw (same, run, one_less, frees) refl, deleted)
  where
    less : (m n : ℕ) → m + 1 ≡ n → (m == n) ≡ false
    less m n e = ground arith

-- Deleting the entry of a known name, whose freer returns.
pub delete-known :
    (b : Base) (c : Cipher (mesoblk_size b)) (s : Server) (name : List ℕ) (e : Element) (p : Freed)
    → Idle s.entries
    → s.entries.count ≤ 2 ^ 31
    → lookup s.entries name ≡ some e
    → freer b c s e.ptr ≡ some p
    → (h : Hashtbl) × (delete b c s e ≡ some (put_freed (record s { entries = h }) p))
      × Idle h
      × (h.count + 1 ≡ s.entries.count)
delete-known b c s name e p idle few hit frees =
    let g = s.entries in
    let (e', byptr) =
      found_by_ptr g.key_size (by_key name) (get_or g.buckets (get_bucket g name) []) e hit in
    let (h, run, deleted) = delete-found b c s name e e' p idle few hit byptr frees in
    (
      h,
      run,
      record { valid = deleted.valid; unlocked = deleted.held ∙ idle.unlocked },
      deleted.counted,
    )
