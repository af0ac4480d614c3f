-- ===== src/Fuse/Served.antt =====
-- Every request that is allowed is served, and the server stays safe.
use scubed.Base.{
  ℕ, ◌+◌, ◌≡◌, ◌≢◌, inl, inr, refl, ◌∙◌, ap, List, Option, some, ◌>>=◌, arith, ltb, ◌||◌, ◌&&◌,
  Bool, Bool-cases, Option-cases, true, false, if◌then◌else◌, drop,
}
use scubed.Hashtbl.{Element}
use scubed.Entries.{Server, Entry, put, delete}
use scubed.Entries.Locking.{lookup, with_entry-unknown}
use scubed.Fuse
use scubed.Fuse.{
  Answer, done, failed, enoent, released, open_entry, release_entry, write_entry, request,
}
use scubed.Fuse.Known.{open_file-known, release-known}
use scubed.Fuse.Sessions.{
  Mode, closed, reading, writing, Modes, assign, Fits, Safe, used-open, put-Safe, delete-Safe,
}
use scubed.Fuse.Serving.{open_file, release, Served, Allowed, Frees, answered}
use scubed.Scubed.State.{Base, Cipher, mesoblk_size}

opened-Fits :
    (x : Entry) (m : Mode) (for_writing : Bool)
    → x.inuse ≡ 0
    → (x.readonly && for_writing) ≡ false
    → Fits (record x { inuse = x.inuse + 1 }) (if for_writing then writing else reading)
opened-Fits x m true unused may = ground arith
opened-Fits x m false unused may = omega (arith, unused)

module _ (b : Base) (c : Cipher (mesoblk_size b)) (fuel : ℕ) (s : Server) (m : Modes)
    (safe : Safe s m) where
  module _ (path : List ℕ) where
    abbrev name : List ℕ
    name = drop 1 path

    serve-open_known :
        (for_writing : Bool) (e : Element)
        → lookup s.entries name ≡ some e
        → Served b c fuel s m (open_file path for_writing)
    serve-open_known for_writing e hit =
        let x = s.entry e.ptr in
        let known = open_file-known s path e safe.idle hit for_writing in
        elim (Bool-cases (ltb 0 x.inuse || x.to_be_deleted)) [
          | inl busy ↦ (s, false, rw (known, busy) refl, safe)
          | inr free ↦ elim (Bool-cases (x.readonly && for_writing)) [
            | inl kept ↦ (s, false, rw (known, free, kept) refl, safe)
            | inr may ↦
                let unused : x.inuse ≡ 0 = ground arith in
                (
                  put s e.ptr (record x { inuse = x.inuse + 1 }),
                  true,
                  rw (known, free, may) refl,
                  rw (hit) (
                      put-Safe s m safe e.ptr (record x { inuse = x.inuse + 1 })
                        (if for_writing then writing else reading)
                        (opened-Fits x (m e.ptr) for_writing unused may)),
                )
          ]
        ]

    pub serve-open_file : (for_writing : Bool) → Served b c fuel s m (open_file path for_writing)
    unfolding Fuse.open_file
    serve-open_file for_writing = elim (Option-cases (lookup s.entries name)) [
      | inl unknown ↦
          let missing =
            with_entry-unknown (failed enoent) (open_entry for_writing) s name safe.idle unknown in
          (s, false, ap answered missing, safe)
      | inr (e, hit) ↦ serve-open_known for_writing e hit
    ]

    serve-release_known :
        (e : Element)
        → lookup s.entries name ≡ some e
        → (m e.ptr ≢ closed)
          × ((s.entry e.ptr).close_on_release ≡ true
              → Frees b c fuel (put s e.ptr (released (s.entry e.ptr))) e.ptr)
        → Served b c fuel s m (release path)
    serve-release_known e hit (mine, frees) =
        let x = s.entry e.ptr in
        let once = used-open x (m e.ptr) mine (safe.fits e.ptr) in
        let known = release-known s path e safe.idle hit b c (omega (arith, once)) in
        let left = put-Safe s m safe e.ptr (released x) closed (omega (arith, once)) in
        let reply : Option Server → Option (Server × Answer) =
          λ o. o >>= (λ s'. some (s', done 0)) in
        let y = released x in
        let chosen =
          λ (t : Bool). reply (if t then delete b c (put s e.ptr y) e else some (put s e.ptr y)) in
        elim (Bool-cases x.close_on_release) [
          | inl goes ↦
              let (s', gone, fine) =
                delete-Safe b c (put s e.ptr (released x)) (assign m e.ptr closed) name e
                  (frees goes).0 left hit (frees goes).1 in
              (s', true, ap answered (known ∙ ap chosen goes ∙ ap reply gone), rw (hit) fine)
          | inr stays ↦
              (put s e.ptr (released x), true, ap answered (known ∙ ap chosen stays), rw (hit) left)
        ]

    pub serve-release : Allowed b c fuel s m (release path) → Served b c fuel s m (release path)
    unfolding Fuse.release
    serve-release mine = elim (Option-cases (lookup s.entries name)) [
      | inl unknown ↦
          let missing =
            with_entry-unknown (failed enoent) (release_entry b c) s name safe.idle unknown in
          (s, false, ap answered missing, rw (unknown) safe)
      | inr (e, hit) ↦ serve-release_known e hit (mine e hit)
    ]
