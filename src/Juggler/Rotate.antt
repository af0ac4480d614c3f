-- ===== src/Juggler/Rotate.antt =====
-- The whole of `juggler_get_devblock` without discard.
use scubed.Base.{
  ℕ, zero, suc, ◌+◌, ◌^◌, ◌<◌, ◌≡◌, ◌≢◌, refl, ap, subst, List, [], ◌∷◌, arith, length, ◌==◌, some,
  none, ◌⊎◌, inl, inr, u64, Option-cases, false, get_elem?,
}
use scubed.Random.{random_custom}
use scubed.Random.Uniform.{zeros, random_custom_total, random_custom-lt}
use scubed.Blockio.Info.{Infos, info}
use scubed.Juggler.{
  Juggler, Picked, output, due, get_obsoleted, from_schedule, from_unscheduled, fresh_out, unlink,
  unlink_head, tail, get_devblock,
}
use scubed.Juggler.Chain.{next_of, occurs, SameIndices}
use scubed.Juggler.Invariant.{IsValid, Live, due-some, due-Due}
use scubed.Juggler.Select.{Output, output-Output, head-Ready, drawn-Ready, pulled}

-- Block `n` was put out: where it came from, and what is left.
pub record Rotated (infos : Infos) (j : Juggler) (n : ℕ) (p : Picked) : Type 0 where
  pub block : p.block ≡ some n
  pub source :
      (due infos (j.seqno + 1) j.scheduled ≡ some n)
      ⊎ ((due infos (j.seqno + 1) j.scheduled ≡ none) × (occurs n j.unscheduled ≡ 1))
  pub valid : IsValid p.infos p.juggler
  pub live : Live p.infos p.juggler
  pub counted : p.juggler.seqno ≡ j.seqno + 1
  pub stamped : (info p.infos n).seqno ≡ j.seqno + 1
  pub later : j.seqno + 1 < next_of p.infos n
  pub blocks :
      (k : ℕ)
      → occurs k p.juggler.scheduled + occurs k p.juggler.unscheduled
        ≡ occurs k j.scheduled + occurs k j.unscheduled
  pub others : (k : ℕ) → n ≢ k → info p.infos k ≡ info infos k
  pub size : length p.infos ≡ length infos
  pub inside : n < length infos
  pub kept : (k : ℕ) → SameIndices (info infos k) (info p.infos k)

get_elem?-some : (cs : List ℕ) (i : ℕ) → i < length cs → (n : ℕ) × (get_elem? cs i ≡ some n)
get_elem?-some [] i h = absurd (omega arith)
get_elem?-some (c ∷ cs) zero h = (c, refl)
get_elem?-some (c ∷ cs) (suc i) h = get_elem?-some cs i (omega arith)

wide : (n : ℕ) → n + 1 < 2 ^ 64 → u64 (n + 1) ≡ n + 1
wide n h = omega arith

module _ (infos : Infos) (j : Juggler) (room : j.seqno + 1 < 2 ^ 64) {p : Picked} where
  -- The two ways of `juggler_get_devblock`.
  by_schedule :
      {n : ℕ} (ws : List ℕ)
      → due infos (j.seqno + 1) j.scheduled ≡ some n
      → output infos (unlink_head j) n ws false ≡ some p
      → get_devblock infos j ws false ≡ some p
  unfolding get_devblock get_obsoleted from_schedule
  by_schedule ws d e = rw (wide j.seqno room, d) e

  by_draw :
      {n i : ℕ} (ws : List ℕ) {rest : List ℕ}
      → due infos (j.seqno + 1) j.scheduled ≡ none
      → j.no_unscheduled ≡ length j.unscheduled
      → random_custom ws j.no_unscheduled ≡ some (i, rest)
      → get_elem? j.unscheduled i ≡ some n
      → output infos (unlink j i) n rest false ≡ some p
      → get_devblock infos j ws false ≡ some p
  unfolding get_devblock get_obsoleted from_unscheduled fresh_out
  by_draw {i} ws d count drawn at e =
      let pos : 0 < j.no_unscheduled =
        omega (arith, (random_custom-lt j.no_unscheduled ws drawn).0) in
      let chain : (length j.unscheduled == 0) ≡ false = ground arith in
      let counter : (j.no_unscheduled == 0) ≡ false = ground arith in
      rw (wide j.seqno room, d, chain, counter, drawn, at) e

module _ {infos : Infos} {j : Juggler} (v : IsValid infos j) {n : ℕ} {p : Picked} where
  head-Rotated :
      (rest : List ℕ)
      → due infos (j.seqno + 1) j.scheduled ≡ some n
      → j.scheduled ≡ n ∷ rest
      → Output infos (unlink_head j) n p
      → Rotated infos j n p
  head-Rotated rest d e o = record {
    block = o.block;
    source = inl d;
    valid = o.valid;
    live = o.live;
    counted = o.counted;
    stamped = o.stamped;
    later = o.later;
    blocks = λ k. omega (arith, o.blocks k, ap (occurs k) e, ap (λ t. occurs k (tail t)) e);
    others = o.others;
    size = o.size;
    inside = o.inside;
    kept = o.kept;
  }

  drawn-Rotated :
      (i : ℕ)
      → due infos (j.seqno + 1) j.scheduled ≡ none
      → get_elem? j.unscheduled i ≡ some n
      → Output infos (unlink j i) n p
      → Rotated infos j n p
  drawn-Rotated i d at o = record {
    block = o.block;
    source = inr (d, ground (arith, v.distinct n, (pulled j.unscheduled i at).0 n));
    valid = o.valid;
    live = o.live;
    counted = o.counted;
    stamped = o.stamped;
    later = o.later;
    blocks = λ k. omega (arith, o.blocks k, (pulled j.unscheduled i at).0 k);
    others = o.others;
    size = o.size;
    inside = o.inside;
    kept = o.kept;
  }

-- `juggler_get_devblock` puts out a block.
abbrev pub Rotates : Infos → Juggler → List ℕ → Type 0
Rotates infos j ws =
    (n : ℕ) × (p : Picked) × (get_devblock infos j ws false ≡ some p) × Rotated infos j n p

module _ (infos : Infos) (j : Juggler) (v : IsValid infos j) (ws : List ℕ) where
  rotate_head :
      {n : ℕ}
      → due infos (j.seqno + 1) j.scheduled ≡ some n
      → 0 < zeros ws
      → j.seqno + length ws + length j.scheduled + 3 < 2 ^ 64
      → Rotates infos j ws
  rotate_head {n} d z room =
      let (rest, e, at) = due-some infos (j.seqno + 1) j.scheduled d in
      let ready = head-Ready v rest e (omega (arith, at)) in
      let (p, out, o) =
        output-Output ready ws z (omega (arith, ap length e, ap (λ t. length (tail t)) e)) in
      (n, p, by_schedule infos j (omega arith) ws d out, head-Rotated v rest d e o)

  rotate_draw :
      due infos (j.seqno + 1) j.scheduled ≡ none
      → 0 < length j.unscheduled
      → 1 < zeros ws
      → j.seqno + length ws + length j.scheduled + 3 < 2 ^ 64
      → Rotates infos j ws
  rotate_draw d pos z room =
      let (i, rest, drawn, few, last) =
        random_custom_total j.no_unscheduled ws (omega (arith, v.unscheduled_count))
          (omega arith) in
      let (lt, shorter) = random_custom-lt j.no_unscheduled ws drawn in
      let (n, at) = get_elem?-some j.unscheduled i (omega (arith, v.unscheduled_count)) in
      let ready =
        drawn-Ready v i at (subst (λ t. due infos t j.scheduled ≡ none) (omega arith) d) in
      let (p, out, o) = output-Output ready rest (omega arith) (omega arith) in
      (
        n,
        p,
        by_draw infos j (omega arith) ws d v.unscheduled_count drawn at out,
        drawn-Rotated v i d at o,
      )

-- On a valid juggler from which a block can be put out, with two zero words to come and the
-- sequence numbers not about to wrap, `juggler_get_devblock` without discard returns a block. It
-- is the head of the schedule if that is due, and an unscheduled block otherwise. It is stamped
-- with the next sequence number and a later `next_seqno`, no block gets lost or doubled, all other
-- blocks stay as they are, the juggler stays valid, and another block can be put out after it.
pub get_devblock_lem :
    (infos : Infos) (j : Juggler) (ws : List ℕ)
    → IsValid infos j
    → Live infos j
    → 1 < zeros ws
    → j.seqno + length ws + length j.scheduled + 3 < 2 ^ 64
    → Rotates infos j ws
get_devblock_lem infos j ws v live z room =
    elim (Option-cases (due infos (j.seqno + 1) j.scheduled)) [
      | inr (n, d) ↦ rotate_head infos j v ws d (omega arith) room
      | inl d ↦ elim live [
        | inl pos ↦ rotate_draw infos j v ws d pos z room
        | inr now ↦ absurd (due-Due infos (j.seqno + 1) j.scheduled now d)
      ]
    ]
