-- ===== src/Fuse/Transferred.antt =====
-- Reads, writes and commands that are served leave the server safe.
use scubed.Base.{
  ℕ, ◌≡◌, inl, inr, refl, ◌∙◌, ap, subst, List, Option, some, none, ◌>>=◌, arith, ltb, Bool,
  Bool-cases, Option-cases, true, false, drop,
}
use scubed.Hashtbl.{Element, same_bytes}
use scubed.Entries.{Server, Entry, put, put_volume}
use scubed.Entries.Locking.{lookup, with_entry-unknown}
use scubed.Fuse
use scubed.Fuse.{Answer, done, failed, enoent, write_entry, request}
use scubed.Fuse.Known.{write-known, read-known}
use scubed.Fuse.Sessions.{
  Mode, writing, Modes, Fits, Safe, Fits-same, unused-closed, put-Safe_kept, delete-Safe,
}
use scubed.Fuse.Serving.{
  read, write, set_readonly, set_close_on_release, set_aux, close, Served, Allowed, transferred,
  replied,
}
use scubed.Control.Commands
use scubed.Control.Commands.{
  Outcome, arg, not_found, parse_bool, mark_readonly, mark_close, set_readonly_entry,
  set_close_entry, close_entry,
}
use scubed.Control.Aux
use scubed.Control.Aux.{mountpoint, set_aux_entry}
use scubed.Control.Known.{
  set_readonly-known, set_close_on_release-known, close-known, set_aux-known,
}
use scubed.Scubed.State.{Base, Cipher, mesoblk_size, Volume}
use scubed.Scubed.Transfer

put_volume-Safe :
    (s : Server) (m : Modes) (ptr : ℕ) (v : Volume) → Safe s m → Safe (put_volume s ptr v) m
put_volume-Safe s m ptr v safe =
    let x = s.entry ptr in
    let y = record x { volume = v } in
    let kept = put-Safe_kept s m safe ptr y (Fits-same x y (m ptr) refl refl (safe.fits ptr)) in
    record { idle = kept.idle; few = kept.few; fits = kept.fits }

pub writing-may_write : (x : Entry) (m : Mode) → m ≡ writing → Fits x m → x.readonly ≡ false
writing-may_write x m e f = (subst (Fits x) e f).1

marked-Fits :
    (x : Entry) (m : Mode) (value : Option Bool)
    → x.inuse ≡ 0
    → Fits x m
    → Fits (mark_readonly x value).0 m
marked-Fits x m none unused f = f
marked-Fits x m (some value) unused f = rw (unused-closed x m unused f) unused

close_marked-Fits :
    (x : Entry) (m : Mode) (value : Option Bool) → Fits x m → Fits (mark_close x value).0 m
close_marked-Fits x m none f = f
close_marked-Fits x m (some value) f =
    Fits-same x (record x { close_on_release = value }) m refl refl f

module _ (b : Base) (c : Cipher (mesoblk_size b)) (fuel : ℕ) (s : Server) (m : Modes)
    (safe : Safe s m) where
  module _ (path buf : List ℕ) (size offset : ℕ) where
    abbrev name : List ℕ
    name = drop 1 path

    abbrev after_request :
        Server → Element → Volume × List ℕ × ℕ → Option (Server × (Answer × List ℕ))
    after_request s e r = some (put_volume s e.ptr r.0, (done size, r.1))

    pub serve-read :
        Allowed b c fuel s m (read path buf size offset)
        → Served b c fuel s m (read path buf size offset)
    unfolding Fuse.read
    serve-read can = elim (Option-cases (lookup s.entries name)) [
      | inl unknown ↦
          let missing =
            with_entry-unknown (failed enoent, buf) (request b c fuel Transfer.read size buf offset)
              s name safe.idle unknown in
          (s, false, ap transferred missing, safe)
      | inr (e, hit) ↦
          let (r, run) = can e hit in
          let known = read-known s path e safe.idle hit b c fuel buf size offset in
          (
            put_volume s e.ptr r.0,
            false,
            ap transferred (known ∙ ap (λ o. o >>= after_request s e) run),
            put_volume-Safe s m e.ptr r.0 safe,
          )
    ]

    -- What is open for writing is not readonly, so that the assertion of `fuse_io_write` holds.
    pub serve-write :
        Allowed b c fuel s m (write path buf size offset)
        → Served b c fuel s m (write path buf size offset)
    unfolding Fuse.write
    serve-write can = elim (Option-cases (lookup s.entries name)) [
      | inl unknown ↦
          let missing =
            with_entry-unknown (failed enoent, buf) (write_entry b c fuel size buf offset) s name
              safe.idle unknown in
          (s, false, ap transferred missing, safe)
      | inr (e, hit) ↦
          let (mine, (r, run)) = can e hit in
          let may = writing-may_write (s.entry e.ptr) (m e.ptr) mine (safe.fits e.ptr) in
          let known = write-known s path e safe.idle hit b c fuel buf size offset may in
          (
            put_volume s e.ptr r.0,
            false,
            ap transferred (known ∙ ap (λ o. o >>= after_request s e) run),
            put_volume-Safe s m e.ptr r.0 safe,
          )
    ]

  module _ (argv : List (List ℕ)) where
    unknown_partition :
        (act : Server → Element → Outcome)
        → lookup s.entries (arg argv 0) ≡ none
        → replied (Commands.on_partition act s argv) ≡ some (s, false)
    unknown_partition act unknown =
        ap replied
          (with_entry-unknown (not_found (arg argv 0)) act s (arg argv 0) safe.idle unknown)

    pub serve-set_readonly : Served b c fuel s m (set_readonly argv)
    unfolding Commands.set_readonly
    serve-set_readonly = elim (Option-cases (lookup s.entries (arg argv 0))) [
      | inl unknown ↦ (s, false, unknown_partition (set_readonly_entry argv) unknown, safe)
      | inr (e, hit) ↦
          let x = s.entry e.ptr in
          let known = set_readonly-known s argv e safe.idle hit in
          let y = (mark_readonly x (parse_bool (arg argv 1))).0 in
          elim (Bool-cases (ltb 0 x.inuse)) [
            | inl used ↦ (s, false, rw (known, used) refl, safe)
            | inr free ↦
                let unused : x.inuse ≡ 0 = ground arith in
                (
                  put s e.ptr y,
                  false,
                  rw (known, free) refl,
                  put-Safe_kept s m safe e.ptr y
                      (marked-Fits x (m e.ptr) (parse_bool (arg argv 1)) unused (safe.fits e.ptr)),
                )
          ]
    ]

    pub serve-set_close_on_release : Served b c fuel s m (set_close_on_release argv)
    unfolding Commands.set_close_on_release
    serve-set_close_on_release = elim (Option-cases (lookup s.entries (arg argv 0))) [
      | inl unknown ↦ (s, false, unknown_partition (set_close_entry argv) unknown, safe)
      | inr (e, hit) ↦
          let x = s.entry e.ptr in
          let known = set_close_on_release-known s argv e safe.idle hit in
          let y = (mark_close x (parse_bool (arg argv 1))).0 in
          (
            put s e.ptr y,
            false,
            ap replied known,
            put-Safe_kept s m safe e.ptr y
                (close_marked-Fits x (m e.ptr) (parse_bool (arg argv 1)) (safe.fits e.ptr)),
          )
    ]

    pub serve-set_aux : Served b c fuel s m (set_aux argv)
    unfolding Aux.set_aux
    serve-set_aux = elim (Option-cases (lookup s.entries (arg argv 0))) [
      | inl unknown ↦ (s, false, unknown_partition (set_aux_entry argv) unknown, safe)
      | inr (e, hit) ↦
          let x = s.entry e.ptr in
          let known = set_aux-known s argv e safe.idle hit in
          let y = record x { mountpoint = some (arg argv 2) } in
          elim (Bool-cases (same_bytes (arg argv 1) mountpoint)) [
            | inl there ↦ (
              put s e.ptr y,
              false,
              rw (known, there) refl,
              put-Safe_kept s m safe e.ptr y (Fits-same x y (m e.ptr) refl refl (safe.fits e.ptr)),
            )
            | inr other ↦ (s, false, rw (known, other) refl, safe)
          ]
    ]

    pub serve-close : Allowed b c fuel s m (close argv) → Served b c fuel s m (close argv)
    unfolding Commands.close
    serve-close can = elim (Option-cases (lookup s.entries (arg argv 0))) [
      | inl unknown ↦ (s, false, unknown_partition (close_entry b c argv) unknown, safe)
      | inr (e, hit) ↦
          let x = s.entry e.ptr in
          let known = close-known s argv e safe.idle hit b c in
          let y = record x { to_be_deleted = true } in
          elim (Bool-cases (ltb 0 x.inuse)) [
            | inl used ↦ (s, false, rw (known, used) refl, safe)
            | inr free ↦
                let kept =
                  put-Safe_kept s m safe e.ptr y
                    (Fits-same x y (m e.ptr) refl refl (safe.fits e.ptr)) in
                let unused : x.inuse ≡ 0 = ground arith in
                let frees = can e hit unused in
                let (s', gone, fine) =
                  delete-Safe b c (put s e.ptr y) m (arg argv 0) e frees.0 kept hit frees.1 in
                (s', false, rw (known, free, gone) refl, fine)
          ]
    ]
