-- ===== src/Util.antt =====
-- src/util.c: `unbase16`, in place.
pub mod Hex
mod Tests
use scubed.Base.{
  ℕ, zero, suc, ◌+◌, ◌-◌, ◌*◌, ◌/◌, ◌%◌, List, Option, some, none, Bool, true, false, ◌&&◌, leb,
  ◌==◌, if◌then◌else◌, get_or, set, u8, assert, ◌>>◌,
}

-- The value of a digit, by the three tests that `unbase16` makes for each of the two digits.
unfoldable pub hex_value : ℕ → Option ℕ
hex_value c =
    if leb b'0' c && leb c b'9'
    then some (c - b'0')
    else if leb b'A' c && leb c b'F'
    then some (c - b'A' + 10)
    else if leb b'a' c && leb c b'f'
    then some (c - b'a' + 10)
    else none

-- The second digit of byte `k`, and the first one: the buffer, and whether the digit was valid.
abbrev pub with_low : List ℕ → ℕ → Option ℕ → List ℕ × Bool
with_low buf k none = (buf, false)
with_low buf k (some low) = (set buf k (u8 (get_or buf k 0 + low)), true)

abbrev pub with_high : List ℕ → ℕ → Option ℕ → List ℕ × Bool
with_high buf k none = (buf, false)
with_high buf k (some high) =
    let buf1 = set buf k (u8 (16 * high)) in with_low buf1 k (hex_value (get_or buf1 (2 * k + 1) 0))

-- The loop at `i = 2 * k`, with `left` rounds to go: the buffer, and whether 0 was returned.
unfoldable pub unbase16_loop : ℕ → ℕ → List ℕ → List ℕ × Bool
unbase16_loop zero k buf = (buf, true)
unbase16_loop (suc left) k buf =
    let (buf', valid) = with_high buf k (hex_value (get_or buf (2 * k) 0)) in
    let rest = unbase16_loop left (k + 1) buf' in if valid then rest else (buf', false)

unfoldable pub unbase16 : List ℕ → ℕ → Option (List ℕ × Bool)
unbase16 buf len = do assert (len % 2 == 0); some (unbase16_loop (len / 2) 0 buf)
