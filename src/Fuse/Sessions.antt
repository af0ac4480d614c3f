-- ===== src/Fuse/Sessions.antt =====
-- Which partitions are open, and how: src/fuse_io.c and src/control.c on the same entries.
use scubed.Scubed.State.{Base, Cipher, mesoblk_size}
use scubed.Base.{
  ◌≤◌, ◌^◌, ℕ, ◌≡◌, ◌≢◌, inl, inr, refl, ◌∙◌, List, some, arith, ◌==◌, ==→eq, Bool-cases, false,
  if◌then◌else◌,
}
use scubed.Hashtbl.{Element}
use scubed.Entries.{Server, Entry, put, delete, Freed, put_freed, freer}
use scubed.Entries.Locking.{Idle, lookup, delete-known}

-- How a partition is open, as the callers of the file operations know it.
pub data Mode : Type 0 where
  closed reading writing : Mode

abbrev pub Modes : Type 0
Modes = ℕ → Mode

abbrev pub assign : Modes → ℕ → Mode → Modes
assign m ptr mode = λ p. if p == ptr then mode else m p

-- An entry is in use once if it is open, and one that is open for writing is not readonly.
abbrev pub Fits : Entry → Mode → Type 0
Fits x closed = x.inuse ≡ 0
Fits x reading = x.inuse ≡ 1
Fits x writing = (x.inuse ≡ 1) × (x.readonly ≡ false)

pub record Safe (s : Server) (m : Modes) : Type 0 where
  pub idle : Idle s.entries
  pub few : s.entries.count ≤ 2 ^ 31
  pub fits : (ptr : ℕ) → Fits (s.entry ptr) (m ptr)

-- What depends on how the partition is open only through `inuse` and `readonly`.
pub Fits-same :
    (x y : Entry) (m : Mode) → y.inuse ≡ x.inuse → y.readonly ≡ x.readonly → Fits x m → Fits y m
Fits-same x y closed e r f = e ∙ f
Fits-same x y reading e r f = e ∙ f
Fits-same x y writing e r f = (e ∙ f.0, r ∙ f.1)

-- An entry that is not in use is closed.
pub unused-closed : (x : Entry) (m : Mode) → x.inuse ≡ 0 → Fits x m → m ≡ closed
unused-closed x closed e f = refl
unused-closed x reading e f = absurd (omega (arith, e, f))
unused-closed x writing e f = absurd (omega (arith, e, f.0))

pub used-open : (x : Entry) (m : Mode) → m ≢ closed → Fits x m → x.inuse ≡ 1
used-open x closed ne f = absurd (ne refl)
used-open x reading ne f = f
used-open x writing ne f = f.0

module _ (s : Server) (m : Modes) (safe : Safe s m) (ptr : ℕ) (x : Entry) where
  pub put-Safe : (mode : Mode) → Fits x mode → Safe (put s ptr x) (assign m ptr mode)
  put-Safe mode f = record {
    idle = safe.idle;
    few = safe.few;
    fits = λ p. elim (Bool-cases (p == ptr)) [
      | inl here ↦ rw (here) f
      | inr apart ↦ rw (apart) (safe.fits p)
    ];
  }

  pub put-Safe_kept : Fits x (m ptr) → Safe (put s ptr x) m
  put-Safe_kept f = record {
    idle = safe.idle;
    few = safe.few;
    fits = λ p. elim (Bool-cases (p == ptr)) [
      | inl here ↦ rw (here, ==→eq p ptr here) f
      | inr apart ↦ rw (apart) (safe.fits p)
    ];
  }

-- The entry of a known name is deleted, if its freer returns.
pub delete-Safe :
    (b : Base) (c : Cipher (mesoblk_size b)) (s : Server) (m : Modes) (name : List ℕ) (e : Element)
    (p : Freed)
    → Safe s m
    → lookup s.entries name ≡ some e
    → freer b c s e.ptr ≡ some p
    → (s' : Server) × (delete b c s e ≡ some s') × Safe s' m
delete-Safe b c s m name e p safe hit frees =
    let (h, run, idle, less) = delete-known b c s name e p safe.idle safe.few hit frees in
    (
      put_freed (record s { entries = h }) p,
      run,
      record { idle = idle; few = omega (arith, less, safe.few); fits = safe.fits },
    )
