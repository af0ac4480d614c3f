-- ===== src/Juggler.antt =====
-- src/juggler.c: which macroblock is written next, and when it will be written again.
-- The two chains through `next` are lists of block indices, with the head first; a block's
-- `next` is NULL exactly if it is in neither list or last in one. The blocks themselves are in the
-- array of `blockio_info_t`, which the functions take and return. `none` is a failed assertion or
-- the end of the random words. `juggler_hash_scheduled_seqnos` feeds a hash of libgcrypt: here it
-- is the list of the numbers that are hashed.
pub mod Chain
pub mod Invariant
pub mod Times
pub mod Schedule
pub mod Select
pub mod Rotate
mod Tests
use scubed.Base.{
  ℕ, zero, suc, ◌+◌, ◌-◌, ◌%◌, ◌^◌, Bool, true, false, not, ◌&&◌, ◌||◌, List, [], ◌∷◌, ◌++◌, map,
  Option, some, none, ◌>>=◌, ◌>>◌, assert, ltb, ◌==◌, if◌then◌else◌, length, set, get_elem?, take,
  drop, u32, u64,
}
use scubed.Random.{random_custom}
use scubed.Blockio.Info.{BlockioInfo, Infos, info}

-- `juggler_t`; the random state is an argument of the functions that draw.
pub record Juggler : Type 0 where
  pub scheduled : List ℕ
  pub unscheduled : List ℕ
  pub no_scheduled : ℕ
  pub no_unscheduled : ℕ
  pub seqno : ℕ

pub init : Juggler
init = record { scheduled = []; unscheduled = []; no_scheduled = 0; no_unscheduled = 0; seqno = 0 }

pub count : Juggler → ℕ
count j = u32 (j.no_scheduled + j.no_unscheduled)

unfoldable pub notify_seqno : Juggler → ℕ → Juggler
notify_seqno j seqno = if ltb j.seqno seqno then record j { seqno = seqno } else j

-- The successor of `b` in a chain: `b->next`.
abbrev pub next_in : ℕ → List ℕ → Option ℕ
next_in b [] = none
next_in b (c ∷ cs) = if c == b then (elim cs [ [] ↦ none | d ∷ _ ↦ some d ]) else next_in b cs

abbrev pub is_none {ℓ} : {A : Type ℓ} → Option A → Bool
is_none none = true
is_none (some _) = false

-- The walk of `juggler_add_macroblock` to the place of `b`, by `next_seqno`.
unfoldable pub place : Infos → ℕ → List ℕ → Option (List ℕ)
place infos b [] = some (b ∷ [])
place infos b (c ∷ cs) =
    let further = (do cs' ← place infos b cs; some (c ∷ cs')) in
    let here = (do
      assert (ltb (info infos b).next_seqno (info infos c).next_seqno)
      some (b ∷ c ∷ cs)) in
    if ltb (info infos c).next_seqno (info infos b).next_seqno then further else here

-- The three branches of `juggler_add_macroblock`.
abbrev add_fresh : Juggler → ℕ → Juggler
add_fresh j b = record j {
  no_unscheduled = u32 (j.no_unscheduled + 1);
  unscheduled = b ∷ j.unscheduled;
}

abbrev add_in_use : Infos → Juggler → ℕ → List ℕ → Juggler
add_in_use infos j b scheduled =
    notify_seqno (record j { scheduled = scheduled; no_scheduled = u32 (j.no_scheduled + 1) })
      (info infos b).seqno

pub add_macroblock : Infos → Juggler → ℕ → Option Juggler
add_macroblock infos j b = do
  assert (is_none (next_in b j.scheduled) && is_none (next_in b j.unscheduled))
  let seqno = (info infos b).seqno
  let next_seqno = (info infos b).next_seqno
  let in_use = (do cs ← place infos b j.scheduled; some (add_in_use infos j b cs))
  (if seqno == 0 && next_seqno == 0
      then some (add_fresh j b)
      else if ltb seqno next_seqno
      then in_use
      else none)

-- The head of the schedule, if it is due at the sequence number `n`.
abbrev pub due : Infos → ℕ → List ℕ → Option ℕ
due infos n [] = none
due infos n (b ∷ bs) = if (info infos b).next_seqno == n then some b else none

-- The block that is due next: its data must move before it is overwritten.
unfoldable pub get_obsoleted : Infos → Juggler → Option ℕ
get_obsoleted infos j = due infos (u64 (j.seqno + 1)) j.scheduled

-- `next` is the head of the schedule or NULL.
abbrev pub tail : List ℕ → List ℕ
tail [] = []
tail (b ∷ bs) = bs

pub discard_possible : Infos → Juggler → Option ℕ → Bool
discard_possible infos j none = not (ltb j.no_unscheduled 2)
discard_possible infos j (some next) = not (
    j.no_unscheduled == 0
    && is_none (due infos (u64 ((info infos next).next_seqno + 1)) (tail j.scheduled)))

-- The sequence numbers that `juggler_hash_scheduled_seqnos` hashes, in order.
pub hash_scheduled_seqnos : Infos → Juggler → List ℕ
hash_scheduled_seqnos infos j = map (λ b. (info infos b).seqno) j.scheduled

-- What the scheduling loop leaves: the chain from `iterate` on, the time found, the words left.
pub record Slot : Type 0 where
  pub chain : List ℕ
  pub time : ℕ
  pub stream : List ℕ

-- The loop of `juggler_get_devblock` that finds the next time of `b`. `cs` is the chain from
-- `iterate` on, and `time` is `next->next_seqno`. A round moves along the chain or draws, so fuel
-- for each block and each word is enough (`Schedule`).
unfoldable pub schedule : ℕ → Infos → ℕ → List ℕ → List ℕ → ℕ → ℕ → Option Slot
schedule zero infos b ws cs available time = none
schedule (suc fuel) infos b ws [] available time = do
  (r, ws') ← random_custom ws available
  let again = schedule fuel infos b ws' [] available (u64 (time + 1))
  (if r == 0 then some (record { chain = b ∷ []; time = u64 (time + 1); stream = ws' }) else again)
schedule (suc fuel) infos b ws (c ∷ cs) available time =
    let taken = (do
      s ← schedule fuel infos b ws cs (u32 (available + 1)) (u64 (time + 1))
      some (record s { chain = c ∷ s.chain })) in
    let free = (do
      (r, ws') ← random_custom ws available
      let again = schedule fuel infos b ws' (c ∷ cs) available (u64 (time + 1))
      (if r == 0
          then some (record { chain = b ∷ c ∷ cs; time = u64 (time + 1); stream = ws' })
          else again)) in
    if u64 (time + 1) == (info infos c).next_seqno then taken else free

abbrev pub fuel_for : List ℕ → List ℕ → ℕ
fuel_for ws cs = length ws + length cs + 1

-- What `juggler_get_devblock` leaves; `block` is `none` where it returns NULL.
pub record Picked : Type 0 where
  pub block : Option ℕ
  pub infos : Infos
  pub juggler : Juggler
  pub stream : List ℕ

-- `next->seqno = a; next->next_seqno = b`
abbrev pub stamp : Infos → ℕ → ℕ → ℕ → Infos
stamp infos n a b = set infos n (record (info infos n) { seqno = a; next_seqno = b })

-- `n` leaves with its times, and the schedule that the loop found.
abbrev enlisted : Infos → Juggler → ℕ → Slot → Picked
enlisted infos j n s = record {
  block = some n;
  infos = stamp infos n j.seqno s.time;
  juggler = record j { scheduled = s.chain; no_scheduled = u32 (j.no_scheduled + 1) };
  stream = s.stream;
}

-- `juggler_get_devblock` from `j->seqno++` on, for the block `n` that was taken out.
unfoldable pub output : Infos → Juggler → ℕ → List ℕ → Bool → Option Picked
output infos j n ws true =
    let j' = record j { seqno = u64 (j.seqno + 1) } in
    let infos' = stamp infos n j'.seqno j'.seqno in
    do
      assert
          (ltb 0 j'.no_unscheduled || not (is_none (due infos' (u64 (j'.seqno + 1)) j'.scheduled)))
      some (record { block = some n; infos = infos'; juggler = j'; stream = ws })
output infos j n ws false =
    let j' = record j { seqno = u64 (j.seqno + 1) } in
    let infos' = stamp infos n j'.seqno j'.seqno in
    do
      s ←
          schedule (fuel_for ws j'.scheduled) infos' n ws j'.scheduled (u32 (j'.no_unscheduled + 1))
            j'.seqno
      some (enlisted infos' j' n s)

-- `j->scheduled = next->next; j->no_scheduled--`
abbrev pub unlink_head : Juggler → Juggler
unlink_head j = record j {
  scheduled = tail j.scheduled;
  no_scheduled = u32 (j.no_scheduled + 2 ^ 32 - 1);
}

-- `j` less its block `index` of the unscheduled chain.
abbrev pub unlink : Juggler → ℕ → Juggler
unlink j index = record j {
  unscheduled = take index j.unscheduled ++ drop (suc index) j.unscheduled;
  no_unscheduled = u32 (j.no_unscheduled + 2 ^ 32 - 1);
}

-- The unscheduled block `n` was taken out: discarded without a trace, or put out.
unfoldable pub fresh_out : Infos → Juggler → ℕ → List ℕ → Bool → Option Picked
fresh_out infos j n ws true = do
  assert (ltb 0 j.no_unscheduled)
  some (record { block = some n; infos = stamp infos n 0 0; juggler = j; stream = ws })
fresh_out infos j n ws false = output infos j n ws false

-- `juggler_get_devblock` where no block is due. A link past the end of the chain is a fault.
unfoldable pub from_unscheduled : Infos → Juggler → List ℕ → Bool → Option Picked
from_unscheduled infos j ws discard = do
  assert (not (length j.unscheduled == 0) && not (j.no_unscheduled == 0))
  (index, ws') ← random_custom ws j.no_unscheduled
  n ← get_elem? j.unscheduled index
  fresh_out infos (unlink j index) n ws' discard

-- `juggler_get_devblock` where the head of the schedule is due.
unfoldable pub from_schedule : Infos → Juggler → ℕ → List ℕ → Bool → Option Picked
from_schedule infos j n ws discard = output infos (unlink_head j) n ws discard

abbrev select : Infos → Juggler → Option ℕ → List ℕ → Bool → Option Picked
select infos j none ws discard = from_unscheduled infos j ws discard
select infos j (some n) ws discard = from_schedule infos j n ws discard

unfoldable pub get_devblock : Infos → Juggler → List ℕ → Bool → Option Picked
get_devblock infos j ws discard =
    let next = get_obsoleted infos j in
    if discard && not (discard_possible infos j next)
    then some (record { block = none; infos = infos; juggler = j; stream = ws })
    else select infos j next ws discard

-- The blocks in the order in which `juggler_free_and_empty_into` hands them to `append`.
unfoldable pub free_and_empty_into : Juggler → List ℕ
free_and_empty_into j = j.scheduled ++ j.unscheduled
