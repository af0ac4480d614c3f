-- ===== src/Cipher/Tests.antt =====
-- A block cipher that adds a key, and runs of the modes with it.
use scubed.Base.{ℕ, ◌*◌, ◌≡◌, ◌↔◌, refl, ◌∙◌, List, [], ◌∷◌, ◌++◌, length, inr, arith}
use scubed.Binio.Part.{part}
use scubed.Cipher.{
  Primitive, Context, cbc_essiv, xor_block, cipher_enc, cipher_dec, given, dec_plain,
}
use scubed.Cipher.Xor.{xor_block_twice, length-xor_block}
use scubed.Cipher.Decrypt.{Decrypted, dec_plain-Decrypted}
use scubed.Cipher.Modes.{cipher_dec-cipher_enc}
use scubed.Cipher.Name.{Mode, ok, no_closing_paren, data_after, mode_name, parse_name, cut}
use scubed.Cipher.Accepted.{Named, parse_name_lem}

abbrev key : List ℕ
key = 7 ∷ 1 ∷ 2 ∷ 3 ∷ 4 ∷ 5 ∷ 6 ∷ 7 ∷ 8 ∷ 9 ∷ 10 ∷ 11 ∷ 12 ∷ 13 ∷ 14 ∷ 200 ∷ []

key_lem : (x : List ℕ) → length x ≡ 16 → length x ≡ length key
key_lem x e = e

adding : Primitive
adding = record {
  encrypt = λ x. xor_block x key;
  decrypt = λ x. xor_block x key;
  length_encrypt = λ x e. length-xor_block x key (key_lem x e) ∙ e;
  length_decrypt = λ x e. length-xor_block x key (key_lem x e) ∙ e;
  decrypt_encrypt = λ x e. xor_block_twice x key (key_lem x e);
}

abbrev essiv : Context
essiv = record { spec = cbc_essiv adding adding; no_blocks = 2 }

abbrev mem : List ℕ
mem = key ++ (key ++ (key ++ key))

-- The last two blocks are encrypted to the first two, and decrypted there.
cipher_dec-cipher_enc_example :
    part (cipher_dec essiv (cipher_enc essiv mem 0 32 5 6 7) 0 0 5 6 7) 0 (16 * 2)
    ≡ part mem 32 (16 * 2)
cipher_dec-cipher_enc_example =
    cipher_dec-cipher_enc essiv mem 0 32 5 6 7 (omega arith)
      (omega arith, omega arith, inr (inr (omega arith)))

-- The last two blocks, decrypted to the first two.
dec_plain-Decrypted_example :
    Decrypted adding (given 0 32) 2 mem (dec_plain adding 2 mem 0 32 key) 0 32 key
dec_plain-Decrypted_example =
    dec_plain-Decrypted adding 2 mem 0 32 key (omega arith)
      (omega arith, omega arith, inr (inr (omega arith))) refl

abbrev aes : List ℕ
aes = b'A' ∷ b'E' ∷ b'S' ∷ []

abbrev name : List ℕ
name = mode_name Mode.cbc_essiv ++ (b'(' ∷ (aes ++ (b')' ∷ [])))

parse_name_lem_example : (parse_name name ≡ ok Mode.cbc_essiv aes) ↔ Named Mode.cbc_essiv aes name
parse_name_lem_example = parse_name_lem Mode.cbc_essiv aes name

no_parens : parse_name aes ≡ no_closing_paren
unfolding parse_name cut
no_parens = refl

more_text : parse_name (name ++ aes) ≡ data_after
unfolding parse_name cut
more_text = refl
