-- ===== src/Fuse/Runs.antt =====
-- Sequences of requests.
use mathlib.Core.Option.{some-injective}
use scubed.Base.{
  ℕ, ◌≡◌, ◌≢◌, refl, sym, ◌∙◌, ap, subst, List, some, Bool, true, ltb, lt→ltb, arith, drop, ◌>>=◌,
}
use scubed.Hashtbl.{Element}
use scubed.Entries.{Server, volume_at, put_volume}
use scubed.Entries.Locking.{lookup}
use scubed.Fuse
use scubed.Fuse.{done, failed, ebusy}
use scubed.Fuse.Known.{write-known, open_file-known}
use scubed.Fuse.Sessions.{Modes, closed, writing, Safe, used-open}
use scubed.Fuse.Serving.{
  Request, close, open_file, release, read, write, set_readonly, set_close_on_release, set_aux,
  Served, Allowed, serve, modes_after,
}
use scubed.Fuse.Served.{serve-open_file, serve-release}
use scubed.Fuse.Transferred.{
  serve-read, serve-write, serve-set_readonly, serve-set_close_on_release, serve-set_aux,
  serve-close, writing-may_write,
}
use scubed.Control.Commands
use scubed.Control.Commands.{arg, busy}
use scubed.Control.Known.{close-known, set_readonly-known}
use scubed.Scubed.State.{Base, Cipher, mesoblk_size}
use scubed.Scubed.Transfer

module _ (b : Base) (c : Cipher (mesoblk_size b)) (fuel : ℕ) where
  -- On a safe server every open, release, read and write that the kernel may make, and each of the
  -- commands set-readonly, set-close-on-release, set-aux and close, gives a result in the model, and
  -- the server is safe again, with the partitions open as the request says. A read or write of a known
  -- partition needs do_req to return, and a release or close by which a partition goes needs its freer
  -- to return.
  pub serve_lem :
      (s : Server) (m : Modes) (r : Request)
      → Safe s m
      → Allowed b c fuel s m r
      → Served b c fuel s m r
  serve_lem s m (open_file path for_writing) safe can =
      serve-open_file b c fuel s m safe path for_writing
  serve_lem s m (release path) safe can = serve-release b c fuel s m safe path can
  serve_lem s m (read path buf size offset) safe can =
      serve-read b c fuel s m safe path buf size offset can
  serve_lem s m (write path buf size offset) safe can =
      serve-write b c fuel s m safe path buf size offset can
  serve_lem s m (set_readonly argv) safe can = serve-set_readonly b c fuel s m safe argv
  serve_lem s m (set_close_on_release argv) safe can =
      serve-set_close_on_release b c fuel s m safe argv
  serve_lem s m (set_aux argv) safe can = serve-set_aux b c fuel s m safe argv
  serve_lem s m (close argv) safe can = serve-close b c fuel s m safe argv can

  -- A run of allowed requests.
  pub data Run (s : Server) (m : Modes) : Server → Modes → Type 0 where
    start : Run s m s m
    request :
        {s' s'' : Server} {m' : Modes} (r : Request) (flag : Bool)
        → Run s m s' m'
        → Allowed b c fuel s' m' r
        → serve b c fuel s' r ≡ some (s'', flag)
        → Run s m s'' (modes_after s' m' r flag)

  -- Behind a run from a safe server the server is safe.
  pub run-Safe :
      {s : Server} {m : Modes} {s' : Server} {m' : Modes} → Run s m s' m' → Safe s m → Safe s' m'
  run-Safe start safe = safe
  run-Safe (request {s' = s1} {s'' = s3} {m' = m1} r flag before can served) safe =
      let (s2, flag2, again, fine) = serve_lem s1 m1 r (run-Safe before safe) can in
      let same : (s2, flag2) ≡ (s3, flag) = some-injective _ _ (sym again ∙ served) in
      subst (λ p. Safe p.0 (modes_after s1 m1 r p.1)) same fine

  module _ {s s' : Server} {m m' : Modes} (run : Run s m s' m') (safe : Safe s m) (path : List ℕ)
      (e : Element) (hit : lookup s'.entries (drop 1 path) ≡ some e) where
    abbrev after : Safe s' m'
    after = run-Safe run safe

    -- Behind a run from a safe server, a write to a known partition that is open for writing is do_req
    -- on its volume: the assertion of fuse_io_write holds.
    pub run-write :
        m' e.ptr ≡ writing
        → (buf : List ℕ) (size offset : ℕ)
        → Fuse.write b c fuel s' path buf size offset ≡ (do
          r ← Transfer.do_req b c fuel Transfer.write (volume_at s' e.ptr) offset size buf
          some (put_volume s' e.ptr r.0, (done size, r.1)))
    run-write mine buf size offset =
        write-known s' path e after.idle hit b c fuel buf size offset
          (writing-may_write (s'.entry e.ptr) (m' e.ptr) mine (after.fits e.ptr))

    -- Behind a run from a safe server, a known partition that is open is not opened again, closed or
    -- marked readonly: the answer is that it is busy, for the commands that name it, and the server is
    -- as it was.
    pub run-open :
        m' e.ptr ≢ closed
        → (argv : List (List ℕ)) → arg argv 0 ≡ drop 1 path
        → (for_writing : Bool)
        → (Fuse.open_file s' path for_writing ≡ some (s', failed ebusy))
          × (Commands.close b c s' argv ≡ some (s', busy (arg argv 0)))
          × (Commands.set_readonly s' argv ≡ some (s', busy (arg argv 0)))
    run-open held argv same for_writing =
        let once = used-open (s'.entry e.ptr) (m' e.ptr) held (after.fits e.ptr) in
        let used : ltb 0 (s'.entry e.ptr).inuse ≡ true = lt→ltb _ _ (omega (arith, once)) in
        let named = ap (lookup s'.entries) same ∙ hit in
        (
          open_file-known s' path e after.idle hit for_writing ∙ rw (used) refl,
          close-known s' argv e after.idle named b c ∙ rw (used) refl,
          set_readonly-known s' argv e after.idle named ∙ rw (used) refl,
        )
