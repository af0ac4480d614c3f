-- ===== src/Control/Print.antt =====
-- The conversions of `printf` and `strtol` that src/control.c uses.
use scubed.Base.{
  ℕ, zero, suc, ◌+◌, ◌-◌, ◌*◌, ◌/◌, ◌%◌, ◌^◌, List, [], ◌∷◌, ◌++◌, Bool, true, false, ◌==◌, ◌&&◌,
  ◌||◌, if◌then◌else◌, leb, ltb, min, length, replicate, u32, codes,
}

-- The decimal digits of a number, with fuel for as many.
abbrev pub digits : ℕ → ℕ → List ℕ
digits zero n = []
digits (suc left) n =
    let front = digits left (n / 10) in (if ltb n 10 then [] else front) ++ (b'0' + n % 10) ∷ []

-- `%u`, and `%d` of the 32 bits of an `int`
abbrev pub unsigned_text : ℕ → List ℕ
unsigned_text n = digits 10 n

abbrev pub int_text : ℕ → List ℕ
int_text n = if ltb n (2 ^ 31) then unsigned_text n else b'-' ∷ unsigned_text (2 ^ 32 - n)

-- `%07u`
abbrev pub padded_text : ℕ → List ℕ
padded_text n = let text = unsigned_text n in replicate (7 - length text) b'0' ++ text

-- `%.1f` of `n / (1024.*1024.)`, which is a double exactly for n below 2^53; a tie goes to the even
-- tenth.
abbrev pub tenths : ℕ → ℕ
tenths n =
    let q = n * 10 / 2 ^ 20 in
    let r = n * 10 % 2 ^ 20 in
    if ltb r (2 ^ 19) then q else if r == 2 ^ 19 then q + q % 2 else q + 1

abbrev pub mib_text : ℕ → List ℕ
mib_text n = digits 20 (tenths n / 10) ++ codes "." ++ digits 1 (tenths n % 10)

abbrev pub is_space : ℕ → Bool
is_space c = c == b' ' || (leb 9 c && leb c 13)

abbrev pub skip_spaces : List ℕ → List ℕ
skip_spaces [] = []
skip_spaces (c ∷ cs) = if is_space c then skip_spaces cs else c ∷ cs

-- The digits in front, added to a number, how many there were, and what is behind them.
abbrev pub number : ℕ → ℕ → List ℕ → ℕ × ℕ × List ℕ
number n count [] = (n, count, [])
number n count (c ∷ cs) =
    let more = number (10 * n + (c - b'0')) (count + 1) cs in
    if leb b'0' c && leb c b'9' then more else (n, count, c ∷ cs)

-- The sign in front, and what is behind it.
abbrev pub signed : List ℕ → Bool × List ℕ
signed [] = (false, [])
signed (c ∷ cs) =
    if c == b'-' then (true, cs) else if c == b'+' then (false, cs) else (false, c ∷ cs)

-- `strtol` to the base 10, as the 32 bits that an `int` keeps of it, and whether the end of the text
-- was reached. Without digits it stays at the start.
abbrev pub strtol : List ℕ → ℕ × Bool
strtol text =
    let (negative, behind) = signed (skip_spaces text) in
    let (n, count, rest) = number 0 0 behind in
    let ends = if count == 0 then length text == 0 else length rest == 0 in
    (if negative then u32 (2 ^ 64 - min n (2 ^ 63)) else u32 (min n (2 ^ 63 - 1)), ends)
