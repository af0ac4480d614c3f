-- ===== src/Fuse/Known.antt =====
-- What the operations come to on a partition that is known: the locks are as they were.
use scubed.Base.{
  ℕ, ◌+◌, ◌<◌, ◌≡◌, refl, List, some, ◌>>=◌, ltb, lt→ltb, ◌||◌, ◌&&◌, Bool, true, false,
  if◌then◌else◌, drop,
}
use scubed.Hashtbl.{Element}
use scubed.Entries.{Server, Entry, put, delete, volume_at, put_volume}
use scubed.Entries.Locking.{Idle, lookup, with_entry-known}
use scubed.Fuse.{
  done, failed, enoent, ebusy, eacces, open_file, open_entry, release, released, release_entry,
  request, write, write_entry, read,
}
use scubed.Scubed.State.{Base, Cipher, mesoblk_size}
use scubed.Scubed.Transfer

module _ (s : Server) (path : List ℕ) (e : Element) (idle : Idle s.entries)
    (hit : lookup s.entries (drop 1 path) ≡ some e) where
  abbrev x : Entry
  x = s.entry e.ptr

  pub open_file-known :
      (writing : Bool)
      → open_file s path writing
        ≡ some (
            if ltb 0 x.inuse || x.to_be_deleted
            then (s, failed ebusy)
            else if x.readonly && writing
            then (s, failed eacces)
            else (put s e.ptr (record x { inuse = x.inuse + 1 }), done 0))
  unfolding open_file
  open_file-known writing =
      let (h, run, opened) =
        with_entry-known (failed enoent) (open_entry writing) s (drop 1 path) idle e hit in
      rw (run, opened) refl

  pub release-known :
      (b : Base) (c : Cipher (mesoblk_size b))
      → 0 < x.inuse
      → release b c s path ≡ (do
        s' ←
            (if x.close_on_release
              then delete b c (put s e.ptr (released x)) e
              else some (put s e.ptr (released x)))
        some (s', done 0))
  unfolding release
  release-known b c used =
      let (h, run, opened) =
        with_entry-known (failed enoent) (release_entry b c) s (drop 1 path) idle e hit in
      let in_use : ltb 0 x.inuse ≡ true = lt→ltb _ _ used in rw (run, in_use, opened) refl

  module _ (b : Base) (c : Cipher (mesoblk_size b)) (fuel : ℕ) (buf : List ℕ)
      (size offset : ℕ) where
    pub write-known :
        x.readonly ≡ false
        → write b c fuel s path buf size offset ≡ (do
          r ← Transfer.do_req b c fuel Transfer.write (volume_at s e.ptr) offset size buf
          some (put_volume s e.ptr r.0, (done size, r.1)))
    unfolding write
    write-known may =
        let (h, run, opened) =
          with_entry-known (failed enoent, buf) (write_entry b c fuel size buf offset) s
            (drop 1 path) idle e hit in
        rw (run, may, opened) refl

    pub read-known : read b c fuel s path buf size offset ≡ (do
      r ← Transfer.do_req b c fuel Transfer.read (volume_at s e.ptr) offset size buf
      some (put_volume s e.ptr r.0, (done size, r.1)))
    unfolding read
    read-known =
        let (h, run, opened) =
          with_entry-known (failed enoent, buf) (request b c fuel Transfer.read size buf offset) s
            (drop 1 path) idle e hit in
        rw (run, opened) refl
