-- ===== src/Control/Report.antt =====
-- The commands of src/control.c that report, and `control_cycle`.
use scubed.Base.{
  ℕ, ◌^◌, List, ◌++◌, Option, some, none, ◌>>=◌, Bool, true, false, if◌then◌else◌, leb, codes,
}
use scubed.Hashtbl.{Element}
use scubed.Entries.{Server, unlock, volume_at, put_volume, with_entry}
use scubed.Blockio.Info.{info}
use scubed.Scubed.State.{Base, Cipher, Volume, mesoblk_size}
use scubed.Control.Reply.{
  Socket, Say, ◌and_then◌, write_string, write_status, write_terminate, write_complete,
  write_silent_success,
}
use scubed.Control.Print.{int_text, strtol}
use scubed.Control.Commands.{Outcome, arg, not_found, on_partition, cycles, unable}

-- `control_write_line` of `label=%d\n`
abbrev labelled : List ℕ → ℕ → Say
labelled label n = write_string (label ++ codes "=" ++ int_text n ++ codes "\n")

abbrev no_indices_line : Volume → Option ℕ → Say
no_indices_line v none = λ s. (s, false)
no_indices_line v (some id) = labelled (codes "no_indices") (info v.infos id).no_indices

unfoldable pub info_text : Volume → Say
info_text v =
    write_status false
    and_then (labelled (codes "no_macroblocks") v.no_macroblocks
        and_then (labelled (codes "reserved_macroblocks") v.reserved_macroblocks
            and_then (labelled (codes "writes") v.writes
                and_then (no_indices_line v v.bi
                    and_then (labelled (codes "updated") (if v.updated then 1 else 0)
                        and_then write_terminate)))))

abbrev pub info_entry : Server → Element → Outcome
info_entry s e = some (unlock s e, info_text (volume_at s e.ptr))

-- `control_info`
unfoldable pub control_info : Server → List (List ℕ) → Outcome
control_info s argv = on_partition info_entry s argv

-- `control_static_info`; the mountpoint and the version are parameters.
unfoldable pub static_info : List ℕ → List ℕ → ℕ → Say
static_info mountpoint version total =
    write_complete false (mountpoint ++ codes "\n" ++ int_text total ++ codes "\n" ++ version)

-- `control_exit` returns -1 always.
unfoldable pub control_exit : Say
control_exit s = ((write_silent_success s).0, true)

-- `control_verbose_juggler`, less its output to the log
unfoldable pub verbose_juggler : Server → List (List ℕ) → Outcome
verbose_juggler s argv =
    on_partition (λ s' e. some (unlock s' e, write_complete false (codes "see debug output"))) s
      argv

unfoldable pub check_data_integrity : Say
check_data_integrity = write_complete true (codes "not implemented")

module _ (b : Base) (c : Cipher (mesoblk_size b)) where
  -- The rounds behind `parse_int`, with the value of `times`.
  abbrev pub cycle_times : ℕ → Server → Element → Socket → Option (Server × (Socket × Bool))
  cycle_times times s e sock =
      let run = (do
        v ← cycles b c times (volume_at s e.ptr)
        some (
          unlock (put_volume s e.ptr v) e,
          write_complete false (codes "see debug output") sock,
        )) in
      if leb (2 ^ 31) times
      then some (unlock s e, write_complete true (codes "integer must be positive") sock)
      else run

  -- `control_cycle` on the locked entry. After the reply that the text is no number `parse_int`
  -- returns 0 like `control_write_complete`, and `times` was never assigned: `garbage` is its value.
  abbrev pub cycle_entry :
      ℕ → List ℕ → Socket → Server → Element → Option (Server × (Socket × Bool))
  cycle_entry garbage text sock s e =
      let (times, ends) = strtol text in
      let (sock', failed) = if ends then (sock, false) else unable text sock in
      let run = cycle_times (if ends then times else garbage) s e sock' in
      if failed then some (unlock s e, (sock', true)) else run

  unfoldable pub control_cycle :
      ℕ → Server → List (List ℕ) → Socket → Option (Server × (Socket × Bool))
  control_cycle garbage s argv sock =
      with_entry (not_found (arg argv 0) sock) (cycle_entry garbage (arg argv 1) sock) s
        (arg argv 0)
