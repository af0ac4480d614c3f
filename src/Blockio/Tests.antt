-- ===== src/Blockio/Tests.antt =====
-- An index block of a small device, and the theorems at an input.
use scubed.Base.{◌≡◌, refl, List, [], ◌∷◌, arith, ℕ, replicate}
use scubed.Bitmap.{Bitmap}
use scubed.Blockio.Index.{Sizes, Header, encode, decode, ours, foreign}
use scubed.Blockio.Stored.{Fitting, cleaned, decode-encode}

-- Macroblocks of two mesoblocks of 268 bytes, one with data.
abbrev sizes : Sizes
sizes = record { mesoblk = 268; mesobits = 1; mmpm = 1 }

abbrev hash : List ℕ → List ℕ
hash x = replicate 32 7

abbrev header : Header
header = record {
  data_hash = replicate 32 1;
  seqnos_hash = replicate 32 2;
  seqno = 3;
  next_seqno = 5;
  no_macroblocks = 2;
  reserved_macroblocks = 1;
  no_indices = 1;
  indices = 9 ∷ [];
  status = record { no_bits = 4; no_set = 2; bits = 6 ∷ [] };
}

header-Fitting : Fitting sizes header
header-Fitting = omega arith

abbrev empty_bitmap : Bitmap
empty_bitmap = record { no_bits = 4; no_set = 0; bits = 0 ∷ [] }

zeroes-foreign : decode hash sizes empty_bitmap (replicate 268 0) ≡ foreign
unfolding decode
zeroes-foreign = refl

decode-encode_example :
    decode hash sizes empty_bitmap (encode hash sizes (replicate 268 8) header)
    ≡ ours (cleaned hash (λ x. refl) sizes header header-Fitting (replicate 268 8) refl)
decode-encode_example =
    decode-encode hash (λ x. refl) sizes header header-Fitting (replicate 268 8) refl empty_bitmap
      refl refl
