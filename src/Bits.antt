-- ===== src/Bits.antt =====
-- Binary digits of machine words: what `|`, `&` and shifts by a constant mean, as laws on digits.
-- The C operators on `uint32_t` and `uint64_t` are the native `bit_or` and `bit_and`; `x << k` is
-- `x * 2 ^ k`, cut off at the width by the caller, and `x >> k` is `x / 2 ^ k`.
pub mod Step
pub mod Digit
pub mod Count
