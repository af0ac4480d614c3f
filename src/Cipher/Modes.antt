-- ===== src/Cipher/Modes.antt =====
-- Every mode: `cipher_dec` undoes `cipher_enc`, and the interface that the volume is built on.
use scubed.Base.{
  ℕ, zero, suc, ◌+◌, ◌*◌, ◌≤◌, ◌<◌, ◌≡◌, inl, inr, refl, sym, ◌∙◌, ap, List, [], length, arith,
  ◌==◌, ==→eq, eq→==, subst, none, Bool-cases, ◌∷◌, take,
}
use scubed.Binio.{write_uint64_be, write_uint32_be}
use scubed.Binio.Memory.{poke, length-poke}
use scubed.Binio.Part.{part, length-part, part-poke}
use scubed.Cipher.{
  Primitive, Spec, null, cbc_plain, cbc_essiv, Context, enc, dec, cipher_enc, cipher_dec,
  null_cipher, set_iv, enc_plain, dec_plain, given,
}
use scubed.Cipher.Encrypt.{Fits, enc_plain-Encrypted}
use scubed.Cipher.Decrypt.{Decrypted, dec_plain-Decrypted, decrypted_lem}
use scubed.Scubed.State.{Cipher}

length-set_iv : (iv0 iv1 iv2 : ℕ) → length (set_iv iv0 iv1 iv2) ≡ 16
unfolding set_iv write_uint64_be write_uint32_be
length-set_iv iv0 iv1 iv2 = refl

length-enc :
    (w : Spec) (n : ℕ) (mem : List ℕ) (out src : ℕ) (iv : List ℕ)
    → 0 < n
    → Fits n mem out src
    → length iv ≡ 16
    → length (enc w n mem out src iv) ≡ length mem
unfolding enc null_cipher
length-enc null n mem out src iv h fits e = elim (Bool-cases (src == out)) [
  | inl same ↦ rw same refl
  | inr apart ↦ rw apart (length-poke mem out (part mem src (n * 16)))
]
length-enc (cbc_plain p) n mem out src iv h fits e =
    (enc_plain-Encrypted p n mem out src iv h fits e).size
length-enc (cbc_essiv p q) n mem out src iv h fits e =
    (enc_plain-Encrypted p n mem out src (q.encrypt iv) h fits (q.length_encrypt iv e)).size

-- The NULL mode copies.
null_lem :
    (n : ℕ) (mem : List ℕ) (out src : ℕ)
    → out + 16 * n ≤ length mem
    → src + 16 * n ≤ length mem
    → part (null_cipher n mem out src) out (16 * n) ≡ part mem src (16 * n)
unfolding null_cipher
null_lem n mem out src h h' = elim (Bool-cases (src == out)) [
  | inl same ↦ rw same (ap (λ x. part mem x (16 * n)) (sym (==→eq src out same)))
  | inr apart ↦
      let size : n * 16 ≡ 16 * n = omega arith in
      let wide = length-part mem src (16 * n) h' in
      rw (apart, size)
        (ap (part (poke mem out (part mem src (16 * n))) out) (sym wide)
          ∙ part-poke mem (part mem src (16 * n)) out (omega (arith, wide)))
]

in_place : (out : ℕ) → given out out ≡ none
in_place out = rw (eq→== out out refl) refl

module _ (n : ℕ) (mem : List ℕ) (out src : ℕ) (iv : List ℕ) (h : 0 < n) (fits : Fits n mem out src)
    (e : length iv ≡ 16) where
  cbc_lem :
      (p : Primitive)
      → Fits n (enc_plain p n mem out src iv) out out
      → part (dec_plain p n (enc_plain p n mem out src iv) out out iv) out (16 * n)
        ≡ part mem src (16 * n)
  cbc_lem p fits' =
      let r = enc_plain p n mem out src iv in
      decrypted_lem p n mem r _ out src out iv e fits fits'
        (enc_plain-Encrypted p n mem out src iv h fits e)
        (subst (λ g. Decrypted p g n r (dec_plain p n r out out iv) out out iv) (in_place out)
          (dec_plain-Decrypted p n r out out iv h fits' e))

-- Each mode on its own, with what becomes of the IV.
dec-enc :
    (w : Spec) (n : ℕ) (mem : List ℕ) (out src : ℕ) (iv : List ℕ)
    → 0 < n
    → Fits n mem out src
    → Fits n (enc w n mem out src iv) out out
    → length iv ≡ 16
    → part (dec w n (enc w n mem out src iv) out out iv) out (16 * n) ≡ part mem src (16 * n)
unfolding enc dec
dec-enc null n mem out src iv h fits fits' e =
    null_lem n (null_cipher n mem out src) out out fits'.0 fits'.1
    ∙ null_lem n mem out src fits.0 fits.1
dec-enc (cbc_plain p) n mem out src iv h fits fits' e = cbc_lem n mem out src iv h fits e p fits'
dec-enc (cbc_essiv p q) n mem out src iv h fits fits' e =
    cbc_lem n mem out src (q.encrypt iv) h fits (q.length_encrypt iv e) p fits'

-- In every mode, for at least one block, `cipher_dec` in place of what `cipher_enc` wrote gives the
-- input back, where the buffers lie in the memory and are the same or do not touch.
pub cipher_dec-cipher_enc :
    (w : Context) (mem : List ℕ) (out src iv0 iv1 iv2 : ℕ)
    → 0 < w.no_blocks
    → Fits w.no_blocks mem out src
    → part
        (cipher_dec w (cipher_enc w mem out src iv0 iv1 iv2) out out iv0 iv1 iv2)
        out
        (16 * w.no_blocks)
      ≡ part mem src (16 * w.no_blocks)
unfolding cipher_dec cipher_enc
cipher_dec-cipher_enc w mem out src iv0 iv1 iv2 h fits =
    let e = length-set_iv iv0 iv1 iv2 in
    let size = length-enc w.spec w.no_blocks mem out src (set_iv iv0 iv1 iv2) h fits e in
    dec-enc w.spec w.no_blocks mem out src (set_iv iv0 iv1 iv2) h fits
      (omega (arith, fits.0, size), omega (arith, fits.0, size), inl refl) e

length-dec :
    (w : Spec) (n : ℕ) (mem : List ℕ) (out src : ℕ) (iv : List ℕ)
    → 0 < n
    → Fits n mem out src
    → length iv ≡ 16
    → length (dec w n mem out src iv) ≡ length mem
unfolding dec null_cipher
length-dec null n mem out src iv h fits e = elim (Bool-cases (src == out)) [
  | inl same ↦ rw same refl
  | inr apart ↦ rw apart (length-poke mem out (part mem src (n * 16)))
]
length-dec (cbc_plain p) n mem out src iv h fits e =
    (dec_plain-Decrypted p n mem out src iv h fits e).size
length-dec (cbc_essiv p q) n mem out src iv h fits e =
    (dec_plain-Decrypted p n mem out src (q.encrypt iv) h fits (q.length_encrypt iv e)).size

take_all : (xs : List ℕ) (n : ℕ) → length xs ≡ n → take n xs ≡ xs
take_all [] zero e = refl
take_all [] (suc n) e = refl
take_all (x ∷ xs) zero e = absurd (omega arith)
take_all (x ∷ xs) (suc n) e = ap (λ t. x ∷ t) (take_all xs n (omega arith))

-- A mesoblock in a buffer of its own, in place, as the volume uses a cipher.
module _ (w : Context) (h : 0 < w.no_blocks) where
  alone : (x : List ℕ) → length x ≡ 16 * w.no_blocks → Fits w.no_blocks x 0 0
  alone x e = (omega (arith, e), omega (arith, e), inl refl)

  pub sealed-length :
      (s i id : ℕ) (x : List ℕ)
      → length x ≡ 16 * w.no_blocks
      → length (cipher_enc w x 0 0 s i id) ≡ 16 * w.no_blocks
  unfolding cipher_enc
  sealed-length s i id x e =
      length-enc w.spec w.no_blocks x 0 0 (set_iv s i id) h (alone x e) (length-set_iv s i id) ∙ e

  pub opened-length :
      (s i id : ℕ) (x : List ℕ)
      → length x ≡ 16 * w.no_blocks
      → length (cipher_dec w x 0 0 s i id) ≡ 16 * w.no_blocks
  unfolding cipher_dec
  opened-length s i id x e =
      length-dec w.spec w.no_blocks x 0 0 (set_iv s i id) h (alone x e) (length-set_iv s i id) ∙ e

  pub reopened :
      (s i id : ℕ) (x : List ℕ)
      → length x ≡ 16 * w.no_blocks
      → cipher_dec w (cipher_enc w x 0 0 s i id) 0 0 s i id ≡ x
  reopened s i id x e =
      let y = cipher_enc w x 0 0 s i id in
      sym (
        take_all (cipher_dec w y 0 0 s i id) (16 * w.no_blocks)
          (opened-length s i id y (sealed-length s i id x e)))
      ∙ cipher_dec-cipher_enc w x 0 0 s i id h (alone x e)
      ∙ take_all x (16 * w.no_blocks) e

  -- The modes are ciphers of mesoblocks of `16 * no_blocks` bytes.
  pub mesoblk_cipher : Cipher (16 * w.no_blocks)
  mesoblk_cipher = record {
    enc = λ s i id x. cipher_enc w x 0 0 s i id;
    dec = λ s i id x. cipher_dec w x 0 0 s i id;
    dec_enc = reopened;
    length_enc = sealed-length;
    length_dec = opened-length;
  }
