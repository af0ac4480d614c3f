-- ===== src/Cipher.antt =====
-- src/cipher.c, src/cipher_cbc.c and src/cipher_null.c: modes of a block cipher with blocks of 16
-- bytes. Memory is a list of bytes, and `out` and `src` are places in it, so they may be the same.
pub mod Xor
pub mod Encrypt
pub mod Decrypt
pub mod Modes
pub mod Name
pub mod Accepted
mod Tests
use scubed.Base.{
  ℕ, zero, suc, ◌+◌, ◌-◌, ◌*◌, ◌≡◌, List, [], ◌∷◌, length, bit_xor, replicate, Option, none, some,
  ◌==◌, if◌then◌else◌,
}
use scubed.Binio.{write_uint64_be, write_uint32_be}
use scubed.Binio.Memory.{poke}
use scubed.Binio.Part.{part}

-- libgcrypt's block cipher under one key: decryption undoes encryption.
pub record Primitive : Type 0 where
  pub encrypt : List ℕ → List ℕ
  pub decrypt : List ℕ → List ℕ
  pub length_encrypt : (x : List ℕ) → length x ≡ 16 → length (encrypt x) ≡ 16
  pub length_decrypt : (x : List ℕ) → length x ≡ 16 → length (decrypt x) ≡ 16
  pub decrypt_encrypt : (x : List ℕ) → length x ≡ 16 → decrypt (encrypt x) ≡ x

abbrev pub block : List ℕ → ℕ → List ℕ
block mem at = part mem at 16

-- The two words of 64 bits, byte for byte.
unfoldable pub xor_block : List ℕ → List ℕ → List ℕ
xor_block [] ys = []
xor_block (x ∷ xs) [] = []
xor_block (x ∷ xs) (y ∷ ys) = bit_xor x y ∷ xor_block xs ys

-- The `gcry_in` of `dec_plain`, and where the block stands that is decrypted.
abbrev pub given : ℕ → ℕ → Option ℕ
given out src = if out == src then none else some src

abbrev pub input : Option ℕ → ℕ → ℕ
input none out = out
input (some at) out = at

module _ (p : Primitive) where
  -- The loop of `enc_plain`, at an output block that is ready for encryption, with `left` blocks
  -- behind it.
  unfoldable pub enc_loop : ℕ → List ℕ → ℕ → ℕ → List ℕ
  enc_loop zero mem out src = poke mem out (p.encrypt (block mem out))
  enc_loop (suc left) mem out src =
      let mem1 = poke mem out (p.encrypt (block mem out)) in
      let mem2 = poke mem1 (out + 16) (xor_block (block mem1 (src + 16)) (block mem1 out)) in
      enc_loop left mem2 (out + 16) (src + 16)

  -- `enc_plain` with `no_blocks` above 0
  unfoldable pub enc_plain : ℕ → List ℕ → ℕ → ℕ → List ℕ → List ℕ
  enc_plain no_blocks mem out src iv =
      enc_loop (no_blocks - 1) (poke mem out (xor_block (block mem src) iv)) out src

  -- The loop of `dec_plain`. Without input libgcrypt takes the output block, as in place; the input
  -- stays where it is in all rounds.
  unfoldable pub dec_loop : ℕ → List ℕ → Option ℕ → ℕ → ℕ → List ℕ → List ℕ
  dec_loop zero mem gcry_in out src tmp = mem
  dec_loop (suc left) mem gcry_in out src tmp =
      let tmp2 = block mem src in
      let mem1 = poke mem out (p.decrypt (block mem (input gcry_in out))) in
      let mem2 = poke mem1 out (xor_block (block mem1 out) tmp) in
      dec_loop left mem2 gcry_in (out + 16) (src + 16) tmp2

  unfoldable pub dec_plain : ℕ → List ℕ → ℕ → ℕ → List ℕ → List ℕ
  dec_plain no_blocks mem out src iv = dec_loop no_blocks mem (given out src) out src iv

-- `cipher_spec_t` with its context: the NULL mode has only the number of blocks.
pub data Spec : Type 0 where
  null : Spec
  cbc_plain : Primitive → Spec
  -- the second cipher makes the IV
  cbc_essiv : Primitive → Primitive → Spec

pub record Context : Type 0 where
  pub spec : Spec
  pub no_blocks : ℕ

unfoldable pub null_cipher : ℕ → List ℕ → ℕ → ℕ → List ℕ
null_cipher no_blocks mem out src =
    if src == out then mem else poke mem out (part mem src (no_blocks * 16))

-- `spec->enc` and `spec->dec`
unfoldable pub enc : Spec → ℕ → List ℕ → ℕ → ℕ → List ℕ → List ℕ
enc null n mem out src iv = null_cipher n mem out src
enc (cbc_plain p) n mem out src iv = enc_plain p n mem out src iv
enc (cbc_essiv p q) n mem out src iv = enc_plain p n mem out src (q.encrypt iv)

unfoldable pub dec : Spec → ℕ → List ℕ → ℕ → ℕ → List ℕ → List ℕ
dec null n mem out src iv = null_cipher n mem out src
dec (cbc_plain p) n mem out src iv = dec_plain p n mem out src iv
dec (cbc_essiv p q) n mem out src iv = dec_plain p n mem out src (q.encrypt iv)

-- The sixteen bytes that `set_iv` fills; what they were before does not matter.
unfoldable pub set_iv : ℕ → ℕ → ℕ → List ℕ
set_iv iv0 iv1 iv2 =
    write_uint32_be (write_uint32_be (write_uint64_be (replicate 16 0) 0 iv0) 8 iv1) 12 iv2

unfoldable pub cipher_enc : Context → List ℕ → ℕ → ℕ → ℕ → ℕ → ℕ → List ℕ
cipher_enc w mem out src iv0 iv1 iv2 = enc w.spec w.no_blocks mem out src (set_iv iv0 iv1 iv2)

unfoldable pub cipher_dec : Context → List ℕ → ℕ → ℕ → ℕ → ℕ → ℕ → List ℕ
cipher_dec w mem out src iv0 iv1 iv2 = dec w.spec w.no_blocks mem out src (set_iv iv0 iv1 iv2)
