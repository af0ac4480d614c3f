-- ===== src/Blockio/Info.antt =====
-- `blockio_info_t` of src/blockio.h, and the array of them that `blockio_t` keeps.
-- A block is its index in the array, which is what `blockio_get_macroblock_index` computes. The
-- links `next` and `ur` are not fields here: the lists that they chain are lists of indices.
use scubed.Base.{ℕ, Option, none, List, [], get_or}

pub record BlockioInfo : Type 0 where
  pub seqno : ℕ
  pub next_seqno : ℕ
  pub no_indices : ℕ
  pub no_nonobsolete : ℕ
  pub indices : List ℕ
  -- the scubed device that owns the block, if any
  pub dev : Option ℕ

-- A block as `ecalloc` leaves it.
abbrev pub blank : BlockioInfo
blank = record {
  seqno = 0;
  next_seqno = 0;
  no_indices = 0;
  no_nonobsolete = 0;
  indices = [];
  dev = none;
}

-- `blockio_infos`
abbrev pub Infos : Type 0
Infos = List BlockioInfo

-- `&blockio_infos[id]`, to read
abbrev pub info : Infos → ℕ → BlockioInfo
info infos id = get_or infos id blank
