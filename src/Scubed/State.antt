-- ===== src/Scubed/State.antt =====
-- The state: `scubed3_t`, its `blockio_dev_t`, and the parts of `blockio_t` that they read.
use scubed.Base.{
  ℕ, ◌-◌, ◌^◌, ◌≡◌, bit_and, List, Option, Bool, length, get_or, set, u16, ◌<<<◌, ◌>>>◌,
}
use scubed.Bitmap.{Bitmap}
use scubed.Blockio.Info.{BlockioInfo, Infos}
use scubed.Juggler.{Juggler}

-- The constants of `blockio_t`.
pub record Base : Type 0 where
  pub macroblock_log : ℕ
  pub mesoblk_log : ℕ
  pub total_macroblocks : ℕ

-- `l->mesobits`
abbrev pub mesobits : Base → ℕ
mesobits b = b.macroblock_log - b.mesoblk_log

-- `l->mesomask`
abbrev pub mesomask : Base → ℕ
mesomask b = 0xFFFFFFFF >>> (32 - mesobits b)

-- `b->mmpm`, the data mesoblocks of a macroblock
abbrev pub mmpm : Base → ℕ
mmpm b = u16 (2 ^ mesobits b - 1)

-- `1<<b->mesoblk_log`
abbrev pub mesoblk_size : Base → ℕ
mesoblk_size b = 1 <<< b.mesoblk_log

-- The macros `ID` and `NO`.
unfoldable pub id_of : Base → ℕ → ℕ
id_of b index = index >>> mesobits b

unfoldable pub no_of : Base → ℕ → ℕ
no_of b index = bit_and index (mesomask b)

-- `0xFFFFFFFF`: the mesoblock was never written.
abbrev pub never : ℕ
never = 0xFFFFFFFF

-- `cipher_enc` and `cipher_dec` under the key of the device, by seqno, number of the mesoblock in
-- the macroblock (the index block is 0) and number of the macroblock.
pub record Cipher (size : ℕ) : Type 0 where
  pub enc : ℕ → ℕ → ℕ → List ℕ → List ℕ
  pub dec : ℕ → ℕ → ℕ → List ℕ → List ℕ
  pub dec_enc :
      (seqno no id : ℕ) (x : List ℕ) → length x ≡ size → dec seqno no id (enc seqno no id x) ≡ x
  pub length_enc :
      (seqno no id : ℕ) (x : List ℕ) → length x ≡ size → length (enc seqno no id x) ≡ size
  pub length_dec :
      (seqno no id : ℕ) (x : List ℕ) → length x ≡ size → length (dec seqno no id x) ≡ size

-- What `blockio_dev_write_current_macroblock` puts into an index block. The hash of the seqnos is
-- kept as the list that is hashed.
pub record IndexBlock : Type 0 where
  pub seqnos : List ℕ
  pub seqno : ℕ
  pub next_seqno : ℕ
  pub no_macroblocks : ℕ
  pub reserved_macroblocks : ℕ
  pub indices : List ℕ
  pub status : Bitmap

pub record Volume : Type 0 where
  -- the array of `blockio_t`, and the base device
  pub infos : Infos
  pub index_blocks : ℕ → Option IndexBlock
  pub disk : ℕ → ℕ → List ℕ
  -- `blockio_dev_t`
  pub juggler : Juggler
  pub stream : List ℕ
  pub status : Bitmap
  pub no_macroblocks : ℕ
  pub reserved_macroblocks : ℕ
  pub bi : Option ℕ
  pub tail_macroblock : Option ℕ
  pub tmp : List (List ℕ)
  pub updated : Bool
  pub writes : ℕ
  -- `scubed3_t`
  pub output_initialized : Bool
  pub no_block_indices : ℕ
  pub block_indices : List ℕ

-- `l->block_indices[m]`
abbrev pub index_at : Volume → ℕ → ℕ
index_at v m = get_or v.block_indices m never

-- A field of the block `id` is assigned.
abbrev pub update : Infos → ℕ → BlockioInfo → Infos
update infos id x = set infos id x
