-- ===== src/Scubed/Transfer.antt =====
-- `do_req`: a request over several mesoblocks, in a flat address space.
use scubed.Base.{
  ℕ, zero, suc, ◌+◌, ◌-◌, ◌/◌, ◌%◌, ◌^◌, List, Option, some, ◌>>=◌, leb, ltb, ◌==◌, if◌then◌else◌,
  u32, u64, ◌>>>◌,
}
use scubed.Binio.Memory.{poke}
use scubed.Binio.Part.{part}
use scubed.Scubed.State.{Base, Cipher, Volume, mesoblk_size}
use scubed.Scubed.Request.{do_read, do_write}

-- `scubed3_io_t`
pub data Io : Type 0 where
  read write : Io

-- The variables of `do_req`, with the volume and the caller's buffer.
pub record Progress : Type 0 where
  pub volume : Volume
  pub buf : List ℕ
  pub meso : ℕ
  pub size : ℕ
  pub ooff : ℕ

module _ (b : Base) (c : Cipher (mesoblk_size b)) (fuel : ℕ) where
  -- `action(l, meso, inmeso, reqsz, buf + ooff)`, and the three assignments behind it. The actions
  -- return 0 always.
  unfoldable pub act : Io → Progress → ℕ → ℕ → Option Progress
  act read p inmeso reqsz = do
    out ← do_read b c p.volume p.meso inmeso reqsz
    some (record p {
      buf = poke p.buf p.ooff out;
      meso = u32 (p.meso + 1);
      size = p.size - reqsz;
      ooff = u32 (p.ooff + reqsz);
    })
  act write p inmeso reqsz = do
    v ← do_write b c fuel p.volume p.meso inmeso (part p.buf p.ooff reqsz)
    some (record p {
      volume = v;
      meso = u32 (p.meso + 1);
      size = p.size - reqsz;
      ooff = u32 (p.ooff + reqsz);
    })

  -- The part up to the end of the first mesoblock, if the request does not begin at its start.
  unfoldable pub act_first : Io → Progress → ℕ → Option Progress
  act_first cmd p inmeso =
      if inmeso == 0
      then some p
      else act cmd p inmeso
          (if leb (inmeso + p.size) (mesoblk_size b) then p.size else mesoblk_size b - inmeso)

  -- The loop over whole mesoblocks; each round takes one off the size.
  unfoldable pub act_whole : ℕ → Io → Progress → Option Progress
  act_whole zero cmd p = some p
  act_whole (suc left) cmd p =
      let round = (do p' ← act cmd p 0 (mesoblk_size b); act_whole left cmd p') in
      if leb (mesoblk_size b) p.size then round else some p

  unfoldable pub act_last : Io → Progress → Option Progress
  act_last cmd p = if ltb 0 p.size then act cmd p 0 p.size else some p

  -- `do_req`: the volume, the buffer, and what it returns.
  unfoldable pub do_req : Io → Volume → ℕ → ℕ → List ℕ → Option (Volume × List ℕ × ℕ)
  do_req cmd v r_offset size buf =
      let start : Progress = record {
        volume = v;
        buf = buf;
        meso = u32 (r_offset >>> b.mesoblk_log);
        size = size;
        ooff = 0;
      } in
      let run = (do
        p1 ← act_first cmd start (r_offset % mesoblk_size b)
        p2 ← act_whole (size / mesoblk_size b) cmd p1
        p3 ← act_last cmd p2
        some (p3.volume, p3.buf, 1)) in
      if leb v.no_block_indices (u64 (r_offset + size + 2 ^ 64 - 1) >>> b.mesoblk_log)
      then some (v, buf, 1)
      else run
