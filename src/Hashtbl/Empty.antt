-- ===== src/Hashtbl/Empty.antt =====
-- `hashtbl_empty`: every element goes to the freer.
use scubed.Base.{
  ℕ, zero, suc, ◌^◌, ◌≡◌, refl, sym, ◌∙◌, List, [], ◌∷◌, arith, some, replicate, inl, inr,
  Bool-cases, true, false, All, length-replicate, get_or-replicate, bind_some, subst,
}
use scubed.Hashtbl.{Element, Hashtbl, holds, lock, empty_chain, empty_buckets, empty}
use scubed.Hashtbl.Invariant.{total, Distinct, IsValid}

-- The pointers of a chain, and of all chains, the last one first, in front of others.
abbrev pub handed_over : List Element → List ℕ → List ℕ
handed_over [] done = done
handed_over (e ∷ es) done = handed_over es (e.ptr ∷ done)

abbrev pub all_handed_over : List (List Element) → List ℕ → List ℕ
all_handed_over [] done = done
all_handed_over (c ∷ cs) done = all_handed_over cs (handed_over c done)

abbrev pub Unlocked : List ℕ → List Element → Type 0
Unlocked held es = All (λ (e : Element). holds e.ptr held ≡ false) es

empty_chain_lem :
    (h : Hashtbl) (es : List Element)
    → Unlocked h.held es
    → empty_chain h es ≡ some (record h { freed = handed_over es h.freed })
unfolding empty_chain lock
empty_chain_lem h [] free = refl
empty_chain_lem h (e ∷ es) free =
    let rest = empty_chain_lem (record h { freed = e.ptr ∷ h.freed }) es free.1 in
    elim (Bool-cases h.thread_safe) [
      | inl safe ↦ bind_some _ (locked_safe safe) ∙ rest
      | inr plain ↦ bind_some _ (locked_plain plain) ∙ rest
    ]
  where
    locked_safe : h.thread_safe ≡ true → lock h e.ptr ≡ some (record h { held = e.ptr ∷ h.held })
    locked_safe safe = rw (safe, free.0) refl

    locked_plain : h.thread_safe ≡ false → lock h e.ptr ≡ some h
    locked_plain plain = rw (plain) refl

empty_buckets_lem :
    (h : Hashtbl) (cs : List (List Element))
    → All (Unlocked h.held) cs
    → empty_buckets h cs ≡ some (record h { freed = all_handed_over cs h.freed })
unfolding empty_buckets
empty_buckets_lem h [] free = refl
empty_buckets_lem h (c ∷ cs) free =
    bind_some _ (empty_chain_lem h c free.0)
    ∙ empty_buckets_lem (record h { freed = handed_over c h.freed }) cs free.1

total-replicate : (n : ℕ) → total (replicate n []) ≡ 0
total-replicate zero = refl
total-replicate (suc n) = omega (arith, total-replicate n)

-- The table that is left.
pub record Emptied (h h' : Hashtbl) : Type 0 where
  pub valid : IsValid h'
  pub none_left : h'.count ≡ 0
  pub handed : h'.freed ≡ all_handed_over h.buckets h.freed
  pub held : h'.held ≡ h.held

-- If the data of no element is locked, all elements go to the freer, bucket by bucket, and an empty
-- valid table is left.
pub empty_lem :
    (h : Hashtbl)
    → IsValid h
    → All (Unlocked h.held) h.buckets
    → (h' : Hashtbl) × (empty h ≡ some h') × Emptied h h'
unfolding empty
empty_lem h k free =
    let chains : List (List Element) = replicate (2 ^ h.key_bits) [] in
    (
      record h { count = 0; freed = all_handed_over h.buckets h.freed; buckets = chains },
      bind_some _ (empty_buckets_lem (record h { count = 0 }) h.buckets free),
      record {
        valid = record {
          some_bits = k.some_bits;
          few_bits = k.few_bits;
          all_buckets = length-replicate (2 ^ h.key_bits) [];
          counted = sym (total-replicate (2 ^ h.key_bits));
          placed = λ b. subst (All _) (sym (get_or-replicate (2 ^ h.key_bits) b [])) tt;
          once =
              λ u b. subst (Distinct h.key_size) (sym (get_or-replicate (2 ^ h.key_bits) b [])) tt;
        };
        none_left = refl;
        handed = refl;
        held = refl;
      },
    )
