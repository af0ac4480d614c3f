-- ===== src/Hashtbl.antt =====
-- src/hashtbl.c: chained buckets, as one thread sees them.
--
-- An element is its pointer with its key. The size of a key in bytes is not 0: `compare_key` asserts
-- that, and `hashtbl_init_default` that a key has the bits of the number of a bucket. `count` is the 32
-- bits of an `int`. The locks of the table and of the pointers are released before an operation
-- returns; the lock of an element's data may be held from one operation to the next, and a thread that
-- takes it twice waits for ever, which is `none`.
pub mod Invariant
pub mod Add
pub mod Delete
pub mod Empty
pub mod Gone
mod Tests
use scubed.Base.{
  ℕ, zero, suc, ◌+◌, ◌-◌, ◌*◌, ◌/◌, ◌%◌, ◌^◌, ◌<<<◌, ◌>>>◌, List, [], ◌∷◌, length, take, replicate,
  get_or, set, Option, some, none, ◌>>=◌, ◌>>◌, assert, leb, ltb, ◌==◌, not, ◌&&◌, ◌||◌,
  if◌then◌else◌, u32, Bool, true, false, bit_and,
}

-- The sign of `key_size`: texts, or one more than `less` bytes.
pub data KeySize : Type 0 where
  text : KeySize
  bytes : (less : ℕ) → KeySize

pub record Element : Type 0 where
  pub ptr : ℕ
  pub key : List ℕ

pub record Hashtbl : Type 0 where
  pub buckets : List (List Element)
  pub key_size : KeySize
  pub key_bits : ℕ
  pub unique : Bool
  pub thread_safe : Bool
  pub count : ℕ
  -- the elements whose data is locked, and those that the freer was called for
  pub held : List ℕ
  pub freed : List ℕ

-- The loop of `hash_sdbm`, up to the end of the text.
unfoldable pub sdbm_loop : ℕ → List ℕ → ℕ
sdbm_loop hash [] = hash
sdbm_loop hash (c ∷ cs) =
    let rest = sdbm_loop (u32 (c + u32 (hash <<< 6) + u32 (hash <<< 16) + 2 ^ 32 - hash)) cs in
    if c == 0 then hash else rest

unfoldable pub hash_sdbm : List ℕ → ℕ
hash_sdbm str = sdbm_loop 0 str

-- The number with the given bytes, the lowest first.
abbrev pub little : List ℕ → ℕ
little [] = 0
little (b ∷ bs) = b + 256 * little bs

-- Of a key of bytes at most four count.
abbrev pub hash_of : KeySize → List ℕ → ℕ
hash_of text key = hash_sdbm key
hash_of (bytes less) key = little (take (if ltb 4 (less + 1) then 4 else less + 1) key)

unfoldable pub get_bucket : Hashtbl → List ℕ → ℕ
get_bucket h key = bit_and (hash_of h.key_size key) (0xFFFFFFFF >>> (32 - h.key_bits))

abbrev pub same_bytes : List ℕ → List ℕ → Bool
same_bytes [] [] = true
same_bytes [] (y ∷ ys) = false
same_bytes (x ∷ xs) [] = false
same_bytes (x ∷ xs) (y ∷ ys) = x == y && same_bytes xs ys

abbrev pub same_key : KeySize → List ℕ → List ℕ → Bool
same_key text a b = same_bytes a b
same_key (bytes less) a b = same_bytes (take (suc less) a) (take (suc less) b)

-- What is searched for, with `compare_key`, `compare_ptr` or `compare_true`.
pub data Target : Type 0 where
  by_key : List ℕ → Target
  by_ptr : ℕ → Target
  anything : Target

abbrev pub compare_target : KeySize → Target → Element → Bool
compare_target size (by_key key) elt = same_key size key elt.key
compare_target size (by_ptr ptr) elt = ptr == elt.ptr
compare_target size anything elt = true

-- The first element of a chain that fits.
unfoldable pub find_in : KeySize → Target → List Element → Option Element
find_in size target [] = none
find_in size target (e ∷ es) =
    let rest = find_in size target es in if compare_target size target e then some e else rest

abbrev pub holds : ℕ → List ℕ → Bool
holds x [] = false
holds x (y ∷ ys) = if x == y then true else holds x ys

abbrev pub release : ℕ → List ℕ → List ℕ
release x [] = []
release x (y ∷ ys) = if x == y then ys else y ∷ release x ys

-- `pthd_mutex_lock` and `pthd_mutex_unlock` of an element's data, under TS
unfoldable pub lock : Hashtbl → ℕ → Option Hashtbl
lock h ptr =
    if h.thread_safe
    then if holds ptr h.held then none else some (record h { held = ptr ∷ h.held })
    else some h

unfoldable pub unlock_element_byptr : Hashtbl → ℕ → Hashtbl
unlock_element_byptr h ptr = if h.thread_safe then record h { held = release ptr h.held } else h

abbrev pub found : Hashtbl → Option Element → Option (Hashtbl × Option Element)
found h none = some (h, none)
found h (some e) = do h' ← lock h e.ptr; some (h', some e)

-- The bucket as far as the element, and behind it.
unfoldable pub find_element_in_bucket : Hashtbl → Target → ℕ → Option (Hashtbl × Option Element)
find_element_in_bucket h target bucket = do
  assert (ltb bucket (2 ^ h.key_bits))
  found h (find_in h.key_size target (get_or h.buckets bucket []))

unfoldable pub find_element_bykey : Hashtbl → List ℕ → Option (Hashtbl × Option Element)
find_element_bykey h key = find_element_in_bucket h (by_key key) (get_bucket h key)

-- Whether no element of the bucket has the key; one that has is locked and unlocked.
abbrev pub unlocked : Hashtbl × Option Element → Hashtbl × Bool
unlocked (h, none) = (h, true)
unlocked (h, some e) = (unlock_element_byptr h e.ptr, false)

unfoldable pub unique_key : Hashtbl → Element → ℕ → Option (Hashtbl × Bool)
unique_key h elt bucket = do r ← find_element_in_bucket h (by_key elt.key) bucket; some (unlocked r)

-- The element in front of its bucket, with its data locked.
abbrev pub enchain : Hashtbl → Element → ℕ → Hashtbl
enchain h elt bucket = record h {
  buckets = set h.buckets bucket (elt ∷ get_or h.buckets bucket []);
  held = if h.thread_safe then elt.ptr ∷ h.held else h.held;
}

abbrev pub behind_check : Element → ℕ → Hashtbl × Bool → Hashtbl × Bool
behind_check elt bucket (h, fine) =
    if fine
    then (enchain h elt bucket, true)
    else (record h { count = u32 (h.count + 2 ^ 32 - 1) }, false)

abbrev pub checked_by : Bool → Hashtbl → Element → ℕ → Option (Hashtbl × Bool)
checked_by uniq h elt bucket = if uniq then unique_key h elt bucket else some (h, true)

-- `hashtbl_add_element`, and whether the element was added.
unfoldable pub add_element : Hashtbl → Element → Option (Hashtbl × Bool)
add_element h elt = do
  let bucket = get_bucket h elt.key
  let counted = record h { count = u32 (h.count + 1) }
  checked ← checked_by h.unique counted elt bucket
  some (behind_check elt bucket checked)

-- A chain without its first element that fits.
abbrev pub without : KeySize → Target → List Element → List Element
without size target [] = []
without size target (e ∷ es) =
    if compare_target size target e then es else e ∷ without size target es

abbrev pub delete_found : Hashtbl → Target → ℕ → Option Element → Option Hashtbl
delete_found h target bucket none = some h
delete_found h target bucket (some e) = do
  h' ← lock h e.ptr
  assert (ltb 0 h'.count && not (ltb (2 ^ 31) h'.count))
  some (record h' {
    count = h'.count - 1;
    buckets = set h'.buckets bucket (without h.key_size target (get_or h'.buckets bucket []));
    held = h.held;
    freed = e.ptr ∷ h'.freed;
  })

unfoldable pub delete_element_from_bucket : Hashtbl → Target → ℕ → Option Hashtbl
delete_element_from_bucket h target bucket = do
  assert (ltb bucket (2 ^ h.key_bits))
  delete_found h target bucket (find_in h.key_size target (get_or h.buckets bucket []))

unfoldable pub delete_element_bykey : Hashtbl → List ℕ → Option Hashtbl
delete_element_bykey h key = delete_element_from_bucket h (by_key key) (get_bucket h key)

unfoldable pub delete_element_byptr : Hashtbl → Element → Option Hashtbl
delete_element_byptr h elt = delete_element_from_bucket h (by_ptr elt.ptr) (get_bucket h elt.key)

unfoldable pub get_count : Hashtbl → ℕ
get_count h = h.count

-- The inner loop of `hashtbl_empty`: the first element is locked, taken out and handed to the freer.
unfoldable pub empty_chain : Hashtbl → List Element → Option Hashtbl
empty_chain h [] = some h
empty_chain h (e ∷ es) = do
  h' ← lock h e.ptr
  empty_chain (record h' { held = h.held; freed = e.ptr ∷ h.freed }) es

-- The outer loop; each bucket is empty after its round.
unfoldable pub empty_buckets : Hashtbl → List (List Element) → Option Hashtbl
empty_buckets h [] = some h
empty_buckets h (c ∷ cs) = do h' ← empty_chain h c; empty_buckets h' cs

unfoldable pub empty : Hashtbl → Option Hashtbl
empty h = do
  h' ← empty_buckets (record h { count = 0 }) h.buckets
  some (record h' { buckets = replicate (2 ^ h.key_bits) [] })
