-- ===== src/Juggler/Times.antt =====
-- The juggler reads only the times of the blocks in the array.
use scubed.Base.{ℕ, ◌+◌, ◌≡◌, refl, sym, ◌∙◌, subst, List, [], ◌∷◌, inl, inr, arith, length}
use scubed.Blockio.Info.{Infos}
use scubed.Juggler.{Juggler, due}
use scubed.Juggler.Chain.{next_of, Ascending, Due}
use scubed.Juggler.Invariant.{IsValid, Live}

module _ (infos infos' : Infos) (same : (id : ℕ) → next_of infos' id ≡ next_of infos id) where
  pub times-Ascending : (lo : ℕ) (cs : List ℕ) → Ascending infos lo cs → Ascending infos' lo cs
  times-Ascending lo [] up = tt
  times-Ascending lo (x ∷ xs) up = (
    omega (arith, up.0, same x),
    subst (λ t. Ascending infos' t xs) (sym (same x)) (times-Ascending (next_of infos x) xs up.1),
  )

  pub times-Due : (t : ℕ) (cs : List ℕ) → Due infos t cs → Due infos' t cs
  times-Due t [] d = d
  times-Due t (x ∷ xs) d = same x ∙ d

  pub times-due : (t : ℕ) (cs : List ℕ) → due infos' t cs ≡ due infos t cs
  times-due t [] = refl
  times-due t (x ∷ xs) = rw (same x) refl

  pub times-IsValid :
      (j : Juggler) → length infos' ≡ length infos → IsValid infos j → IsValid infos' j
  times-IsValid j e w = record {
    scheduled_count = w.scheduled_count;
    unscheduled_count = w.unscheduled_count;
    ascending = times-Ascending j.seqno j.scheduled w.ascending;
    distinct = w.distinct;
    inside = λ i h. w.inside i (omega (arith, h, e));
    small = w.small;
  }

  pub times-Live : (j : Juggler) → Live infos j → Live infos' j
  times-Live j l = elim l [
    | inl pos ↦ inl pos
    | inr now ↦ inr (times-Due (j.seqno + 1) j.scheduled now)
  ]
