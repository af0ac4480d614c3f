-- ===== src/Control/Receive.antt =====
-- The loop of `control_thread` over what comes from one connection.
use scubed.Base.{
  ℕ, zero, suc, ◌+◌, ◌-◌, List, [], ◌∷◌, Option, some, ◌>>=◌, ◌>>◌, assert, Bool, true, false, ◌==◌,
  if◌then◌else◌, leb, length, get_or, set, drop, replicate,
}
use scubed.Binio.Memory.{poke}
use scubed.Binio.Part.{part}

abbrev pub buf_size : ℕ
buf_size = 8192

-- The text up to its 0.
abbrev pub until_nul : List ℕ → List ℕ
until_nul [] = []
until_nul (c ∷ cs) = if c == 0 then [] else c ∷ until_nul cs

-- `buf` and `buf_len`, and what the commands work on.
pub record Receiver (S : Type 0) : Type 0 where
  pub state : S
  pub buf : List ℕ
  pub buf_len : ℕ

-- `wipememory(buf + start, i)`; a write behind the buffer is `none`.
unfoldable pub wipe : List ℕ → ℕ → ℕ → Option (List ℕ)
wipe buf start i = do assert (leb (start + i) (length buf)); some (poke buf start (replicate i 0))

-- `control_call` is what is called with the text of a line; its flag closes the connection.
module _ {S : Type 0} (call : S → List ℕ → Option (S × Bool)) where
  -- The loop over the new bytes: the state, the buffer, `start` and `done`.
  unfoldable pub each_line : ℕ → S → List ℕ → ℕ → ℕ → Option (S × List ℕ × ℕ × Bool)
  each_line zero s buf i start = some (s, buf, start, false)
  each_line (suc left) s buf i start =
      let next = each_line left s buf (i + 1) start in
      let ended = set buf i 0 in
      let called = (do
        r ← call s (until_nul (drop start ended))
        wiped ← wipe ended start i
        let more = each_line left r.0 wiped (i + 1) (i + 1)
        (if r.1 then some (r.0, wiped, start, true) else more)) in
      if get_or buf i 0 == b'\n' then called else next

  -- A round of the loop, with the bytes that `recv` put behind `buf_len`, and whether it is the last.
  unfoldable pub received : Receiver S → List ℕ → Option (Receiver S × Bool)
  received r bytes = do
    let n = length bytes
    l ← each_line n r.state (poke r.buf r.buf_len bytes) r.buf_len 0
    let rest = r.buf_len + n - l.2
    some (
      record { state = l.0; buf = poke l.1 0 (part l.1 l.2 rest); buf_len = rest },
      if l.3 then true else rest == buf_size,
    )

  -- One `recv` after the other, up to the last round or the end of what comes. No bytes stand for a
  -- `recv` that returns 0, or fails: the loop is left.
  unfoldable pub all_received : Receiver S → List (List ℕ) → Option (Receiver S × Bool)
  all_received r [] = some (r, false)
  all_received r ([] ∷ later) = some (r, true)
  all_received r ((x ∷ xs) ∷ later) = do
    let bytes = x ∷ xs
    (r', last) ← received r bytes
    let rest = all_received r' later
    (if last then some (r', true) else rest)
