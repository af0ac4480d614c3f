-- ===== src/Hashtbl/Tests.antt =====
-- A table with two buckets and one element, and the theorems on it.
use scubed.Base.{ℕ, zero, suc, ◌≡◌, refl, [], ◌∷◌, some, true, false, arith, get_or, All}
use scubed.Hashtbl.{
  bytes, Element, Hashtbl, by_ptr, get_bucket, find_in, add_element, delete_element_from_bucket,
  empty,
}
use scubed.Hashtbl.Invariant.{IsValid, Distinct}
use scubed.Hashtbl.Add.{Added, add_element_lem, add_element_twice}
use scubed.Hashtbl.Empty.{Emptied, empty_lem}
use scubed.Hashtbl.Delete.{Deleted, delete_element_lem}

-- An element with the key 6, in the bucket 0.
abbrev six : Element
six = record { ptr = 100; key = 6 ∷ [] }

abbrev table : Hashtbl
table = record {
  buckets = (six ∷ []) ∷ [] ∷ [];
  key_size = bytes 0;
  key_bits = 1;
  unique = true;
  thread_safe = true;
  count = 1;
  held = [];
  freed = [];
}

placed_here :
    (b : ℕ) → All (λ (e : Element). get_bucket table e.key ≡ b) (get_or table.buckets b [])
unfolding get_bucket
placed_here zero = (refl, tt)
placed_here (suc zero) = tt
placed_here (suc (suc b)) = tt

once_here : (b : ℕ) → Distinct (bytes 0) (get_or table.buckets b [])
unfolding find_in
once_here zero = (refl, tt)
once_here (suc zero) = tt
once_here (suc (suc b)) = tt

table-IsValid : IsValid table
unfolding get_bucket find_in
table-IsValid = record {
  some_bits = omega arith;
  few_bits = omega arith;
  all_buckets = refl;
  counted = refl;
  placed = placed_here;
  once = λ u. once_here;
}

-- Another element for the same bucket.
abbrev eight : Element
eight = record { ptr = 200; key = 8 ∷ [] }

add_element_lem_example :
    (h' : Hashtbl) × (add_element table eight ≡ some (h', true)) × Added table h' eight 0
unfolding get_bucket find_in
add_element_lem_example = add_element_lem table eight table-IsValid (omega arith) (λ u. refl) refl

add_element_twice_example :
    add_element table (record { ptr = 300; key = 6 ∷ [] }) ≡ some (table, false)
unfolding get_bucket find_in
add_element_twice_example =
    add_element_twice table (record { ptr = 300; key = 6 ∷ [] }) table-IsValid (omega arith) six
      refl refl refl

delete_element_lem_example :
    (h' : Hashtbl) × (delete_element_from_bucket table (by_ptr 100) 0 ≡ some h')
    × Deleted table h' (by_ptr 100) six 0
unfolding find_in
delete_element_lem_example =
    delete_element_lem table (by_ptr 100) 0 table-IsValid (omega arith) six refl refl (omega arith)

empty_lem_example : (h' : Hashtbl) × (empty table ≡ some h') × Emptied table h'
empty_lem_example = empty_lem table table-IsValid ((refl, tt), (tt, tt))
