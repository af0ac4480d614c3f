-- ===== src/Dllarr.antt =====
-- src/dllarr.c: a doubly linked list and an array of its elements, kept in step.
--
-- Pointers are numbers, and 0 is NULL. An element stands for the structure that it is part of, so
-- that the offset between them is left out, and the fields of the elements are functions of their
-- addresses. An `int` is its 32 bits.
pub mod Linked
pub mod Walk
pub mod Places
pub mod Insert
pub mod Room
pub mod Remove
pub mod Sequence
pub mod Emptied
mod Tests
use scubed.Base.{
  ℕ, zero, suc, ◌+◌, ◌-◌, ◌*◌, ◌^◌, List, [], length, replicate, ◌++◌, get_or, set, Option, some,
  none, ◌>>=◌, ◌>>◌, assert, leb, ltb, ◌==◌, not, ◌&&◌, if◌then◌else◌, u32, Bool, true, false,
}
use scubed.Binio.Memory.{poke}
use scubed.Binio.Part.{part}

abbrev pub head : ℕ
head = 1

abbrev pub tail : ℕ
tail = 2

abbrev pub magic_number : ℕ
magic_number = 0x37B82A6074110287

abbrev pub minus_one : ℕ
minus_one = 2 ^ 32 - 1

-- `dllarr_t`, with the fields of the elements.
pub record Dllarr : Type 0 where
  pub magic : ℕ → ℕ
  pub prev : ℕ → ℕ
  pub next : ℕ → ℕ
  pub index : ℕ → ℕ
  pub array : List ℕ
  pub size : ℕ

-- An assignment to the field of an element.
abbrev pub put : (ℕ → ℕ) → ℕ → ℕ → ℕ → ℕ
put f at x k = if k == at then x else f k

abbrev pub sound : Dllarr → Bool
sound a =
    (a.prev head == 0)
    && (a.next tail == 0)
    && (if a.index head == 0
        then true
        else (a.index head == minus_one)
          && ltb 0 a.size
          && leb (a.index tail) a.size
          && (if a.index tail == 0
              then (a.next head == tail) && (a.prev tail == head)
              else not (a.next head == 0) && not (a.prev tail == 0)))

-- `access_ptr`
abbrev pub element : ℕ → ℕ
element elt = if elt == head then 0 else if elt == tail then 0 else elt

-- `access_elt`; its last assertion holds of any pointer.
abbrev pub known : Dllarr → ℕ → Bool
known a at = not (at == 0) && (a.magic at == magic_number)

-- The list that `dllarr_init` leaves.
abbrev pub cleared : Dllarr → Dllarr
cleared a = record a {
  next = put a.next head tail;
  prev = put a.prev tail head;
  magic = put (put a.magic head magic_number) tail magic_number;
  index = put (put a.index head minus_one) tail 0;
  size = 32;
  array = replicate 32 0;
}

unfoldable pub init : Dllarr → Option Dllarr
init a = do
  assert ((a.prev head == 0) && (a.next tail == 0))
  assert (sound (cleared a))
  some (cleared a)

unfoldable pub first : Dllarr → Option ℕ
first a = do assert (sound a); some (element (a.next head))

unfoldable pub last : Dllarr → Option ℕ
last a = do assert (sound a); some (element (a.prev tail))

unfoldable pub next_of : Dllarr → ℕ → Option ℕ
next_of a at = do assert (sound a && known a at); some (element (a.next at))

unfoldable pub prev_of : Dllarr → ℕ → Option ℕ
prev_of a at = do assert (sound a && known a at); some (element (a.prev at))

unfoldable pub nth : Dllarr → ℕ → Option ℕ
nth a n = do assert (sound a && ltb n (a.index tail)); some (element (get_or a.array n 0))

unfoldable pub index_of : Dllarr → ℕ → Option ℕ
index_of a at = do assert (sound a && known a at); some (a.index at)

unfoldable pub count : Dllarr → Option ℕ
count a = do assert (sound a); some (a.index tail)

-- The array and its size, grown by `realloc` if it is full; what is added is not read before it is
-- written.
abbrev pub grow : Dllarr → Dllarr
grow a =
    if a.index tail == a.size
    then record a {
      size = u32 (a.size * 2);
      array = a.array ++ replicate (u32 (a.size * 2) - length a.array) 0;
    }
    else a

-- Makes room in the array in front of an element; `at` is 0 to append.
abbrev pub shift_up : Dllarr → ℕ → Option Dllarr
shift_up a at = if at == 0 then some a else do
  assert (not (a.next at == 0) && (a.prev (a.next at) == at))
  some (record a {
    array = poke a.array (a.index at + 1) (part a.array (a.index at) (a.index tail - a.index at));
  })

-- `while (at_elt) { at_elt->index++; at_elt = at_elt->next; }`, with `step` for the change
unfoldable pub walk : ℕ → (ℕ → ℕ) → (ℕ → ℕ) → (ℕ → ℕ) → ℕ → ℕ → ℕ
walk zero step next index at = index
walk (suc left) step next index at =
    let rest = walk left step next (put index at (step (index at))) (next at) in
    if at == 0 then index else rest

abbrev pub increment : ℕ → ℕ
increment n = u32 (n + 1)

abbrev pub decrement : ℕ → ℕ
decrement n = u32 (n + minus_one)

-- The element `new` in front of `at_elt`.
abbrev pub link : Dllarr → ℕ → ℕ → Dllarr
link a new at_elt =
    let next = put (put a.next (a.prev at_elt) new) new at_elt in
    let index = put a.index new (a.index at_elt) in
    record a {
      array = set a.array (a.index at_elt) new;
      next = next;
      prev = put (put a.prev new (a.prev at_elt)) at_elt new;
      index = walk (a.index tail + 2) increment next index at_elt;
      magic = put a.magic new magic_number;
    }

unfoldable pub insert : Dllarr → ℕ → ℕ → Option (Dllarr × ℕ)
insert a new at = do
  assert (sound a && not (new == 0) && (if at == 0 then true else known a at))
  assert ((a.prev new == 0) && (a.next new == 0) && (a.index new == 0))
  moved ← shift_up (grow a) at
  let at_elt = if at == 0 then tail else at
  assert (not (moved.prev at_elt == 0) && (moved.next (moved.prev at_elt) == at_elt))
  some (link moved new at_elt, new)

unfoldable pub append : Dllarr → ℕ → Option (Dllarr × ℕ)
append a new = insert a new 0

unfoldable pub prepend : Dllarr → ℕ → Option (Dllarr × ℕ)
prepend a new = do at ← first a; insert a new at

-- The links around `at_elt`, which is left without links and with the index 0.
abbrev pub unlink : Dllarr → ℕ → Dllarr
unlink a at =
    let index = walk (a.index tail + 1) decrement a.next a.index (a.next at) in
    record a {
      array =
          if a.next at == tail
          then a.array
          else poke a.array (a.index at)
              (part a.array (a.index at + 1) (a.index tail - a.index at - 1));
      next = put (put a.next (a.prev at) (a.next at)) at 0;
      prev = put (put a.prev (a.next at) (a.prev at)) at 0;
      index = put index at 0;
    }

unfoldable pub remove : Dllarr → ℕ → Option (Dllarr × ℕ)
remove a at = do
  assert (sound a && known a at)
  assert (not (a.prev at == 0) && (a.next (a.prev at) == at) && (a.prev (a.next at) == at))
  some (unlink a at, at)

unfoldable pub shift : Dllarr → Option (Dllarr × ℕ)
shift a = do elt ← first a; if elt == 0 then some (a, 0) else remove a elt

unfoldable pub pop : Dllarr → Option (Dllarr × ℕ)
pop a = do elt ← last a; if elt == 0 then some (a, 0) else remove a elt

-- `dllarr_iterate`: what the first call of `func` that is not 0 returns. A loop that has not ended by
-- its test when the fuel runs out is `none`; there is fuel for the elements and for the end.
unfoldable pub iterate_loop : ℕ → Dllarr → (ℕ → ℕ) → ℕ → Option ℕ
iterate_loop zero a func at = none
iterate_loop (suc left) a func at =
    let rest = iterate_loop left a func (a.next at) in
    if at == tail then some 0 else if func (element at) == 0 then rest else some (func (element at))

unfoldable pub iterate : Dllarr → (ℕ → ℕ) → Option ℕ
iterate a func = do assert (sound a); iterate_loop (a.index tail + 1) a func (a.next head)

-- The loop of `dllarr_free`, from the last element on, with fuel as for `iterate_loop`.
unfoldable pub free_loop : ℕ → Dllarr → ℕ → Option Dllarr
free_loop zero a elt = none
free_loop (suc left) a elt =
    let rest = (do (b, del) ← remove a elt; free_loop left b (a.prev elt)) in
    if elt == head then some a else rest

unfoldable pub free : Dllarr → Option Dllarr
free a = do
  assert (sound a)
  let freed = (do b ← free_loop (a.index tail + 1) a (a.prev tail); some (record b { array = [] }))
  (if a.index head == 0 then some a else freed)
