-- ===== src/Random.antt =====
-- src/random.c: uniform numbers below a count, from the 32-bit words of /dev/urandom.
-- The words still to be read are a list; where it ends, `fread` fails and the program stops, which
-- is `none`, as is a failed assertion.
pub mod Uniform
mod Tests
use scubed.Base.{
  ℕ, ◌+◌, ◌-◌, ◌*◌, ◌/◌, ◌%◌, ◌^◌, Bool, not, List, [], ◌∷◌, Option, some, none, ◌>>=◌, ◌>>◌,
  assert, ltb, ◌==◌, if◌then◌else◌, u32,
}

-- `random_uint32`
pub random_uint32 : List ℕ → Option (ℕ × List ℕ)
random_uint32 [] = none
random_uint32 (w ∷ ws) = some (w, ws)

-- `count*((UINT32_MAX - count + 1)/count) + count - 1`, in 32 bits
unfoldable pub limit : ℕ → ℕ
limit count =
    let whole = u32 (0xFFFFFFFF + 2 ^ 32 - count + 1) / count in
    u32 (u32 (u32 (count * whole) + count) + 2 ^ 32 - 1)

-- `do tmp = random_uint32(r); while (tmp > limit); return tmp%count;`
unfoldable pub draw : ℕ → ℕ → List ℕ → Option (ℕ × List ℕ)
draw top count [] = none
draw top count (tmp ∷ ws) =
    let again = draw top count ws in if ltb top tmp then again else some (tmp % count, ws)

unfoldable pub random_custom : List ℕ → ℕ → Option (ℕ × List ℕ)
random_custom ws count = do assert (not (count == 0)); draw (limit count) count ws
