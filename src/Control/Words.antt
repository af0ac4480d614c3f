-- ===== src/Control/Words.antt =====
-- How `control_call` cuts a line into words.
use mathlib.Core.List.{append-nil}
use scubed.Base.{
  ℕ, zero, suc, ◌+◌, ◌≡◌, refl, sym, ◌∙◌, ap, List, [], ◌∷◌, ◌++◌, some, none, ◌>>=◌, arith, ◌==◌,
  leb, le→leb, leb-false, Bool-cases, true, false, if◌then◌else◌, length, All, inl, inr,
}
use scubed.Control.Call.{skip_blanks, word, split_words}

abbrev pub blanks : ℕ → List ℕ
blanks zero = []
blanks (suc n) = b' ' ∷ blanks n

-- A word is not empty, and has no blank.
abbrev pub IsWord : List ℕ → Type 0
IsWord [] = ⊥
IsWord (c ∷ cs) = ((c == b' ') ≡ false) × All (λ d. (d == b' ') ≡ false) cs

-- Words with one blank between them at least, and any number behind the last one.
abbrev pub line : List ℕ → List (ℕ × List ℕ) → ℕ → List ℕ
line w [] trailing = w ++ blanks trailing
line w (v ∷ more) trailing = w ++ (blanks (suc v.0) ++ line v.1 more trailing)

-- The texts that begin with no blank, and those that begin with one, or are empty.
abbrev Starts : List ℕ → Type 0
Starts [] = Unit
Starts (c ∷ cs) = (c == b' ') ≡ false

abbrev Ends : List ℕ → Type 0
Ends [] = Unit
Ends (c ∷ cs) = (c == b' ') ≡ true

skip_blanks-none : (cs : List ℕ) → Starts cs → skip_blanks cs ≡ cs
unfolding skip_blanks
skip_blanks-none [] h = refl
skip_blanks-none (c ∷ cs) h = rw (h) refl

skip_blanks-blanks : (k : ℕ) (cs : List ℕ) → Starts cs → skip_blanks (blanks k ++ cs) ≡ cs
unfolding skip_blanks
skip_blanks-blanks zero cs h = skip_blanks-none cs h
skip_blanks-blanks (suc k) cs h = skip_blanks-blanks k cs h

word_lem :
    (w rest : List ℕ) → All (λ d. (d == b' ') ≡ false) w → Ends rest → word (w ++ rest) ≡ (w, rest)
unfolding word
word_lem [] [] h e = refl
word_lem [] (c ∷ cs) h e = rw (e) refl
word_lem (c ∷ cs) rest h e = rw (h.0, word_lem cs rest h.1 e) refl

IsWord-Starts : (w rest : List ℕ) → IsWord w → Starts (w ++ rest)
IsWord-Starts [] rest h = absurd h
IsWord-Starts (c ∷ cs) rest h = h.0

IsWord-All : (w : List ℕ) → IsWord w → All (λ d. (d == b' ') ≡ false) w
IsWord-All [] h = absurd h
IsWord-All (c ∷ cs) h = h

blanks-Ends : (n : ℕ) → Ends (blanks n)
blanks-Ends zero = tt
blanks-Ends (suc n) = refl

line-Starts :
    (w : List ℕ) (more : List (ℕ × List ℕ)) (trailing : ℕ)
    → IsWord w
    → Starts (line w more trailing)
line-Starts w [] trailing h = IsWord-Starts w (blanks trailing) h
line-Starts w (v ∷ more) trailing h = IsWord-Starts w (blanks (suc v.0) ++ line v.1 more trailing) h

line-some :
    (w : List ℕ) (more : List (ℕ × List ℕ)) (trailing : ℕ)
    → IsWord w
    → (length (line w more trailing) == 0) ≡ false
line-some [] more trailing h = absurd h
line-some (c ∷ cs) [] trailing h = ground arith
line-some (c ∷ cs) (v ∷ more) trailing h = ground arith

abbrev pub seconds : List (ℕ × List ℕ) → List (List ℕ)
seconds [] = []
seconds (v ∷ more) = v.1 ∷ seconds more

-- One word in front of those that fit.
one_more :
    (n left : ℕ) (ws : List (List ℕ)) (w : List ℕ)
    → ((if leb (n + 1) left then some ws else none) >>= (λ vs. some (w ∷ vs)))
      ≡ (if leb (suc n + 1) (suc left) then some (w ∷ ws) else none)
one_more n left ws w = elim (Bool-cases (leb (n + 1) left)) [
  | inl fits ↦ let later : leb (suc n + 1) (suc left) ≡ true = ground arith in rw (fits, later) refl
  | inr many ↦
      let later : leb (suc n + 1) (suc left) ≡ false = ground arith in rw (many, later) refl
]

-- A line of words with blanks before, between and behind them is cut into these words; if there are
-- more of them than fit, it is refused.
pub split_words_lem :
    (left lead : ℕ) (w : List ℕ) (more : List (ℕ × List ℕ)) (trailing : ℕ)
    → IsWord w
    → All (λ v. IsWord v.1) more
    → split_words left (blanks lead ++ line w more trailing)
      ≡ (if leb (length more + 1) left then some (w ∷ seconds more) else none)
unfolding split_words
split_words_lem zero lead w more trailing h hs =
    let many : leb (length more + 1) 0 ≡ false = leb-false _ _ (omega arith) in rw (many) refl
split_words_lem (suc left) lead w [] trailing h hs =
    let start = skip_blanks-blanks lead (line w [] trailing) (line-Starts w [] trailing h) in
    let cut = word_lem w (blanks trailing) (IsWord-All w h) (blanks-Ends trailing) in
    let rest : skip_blanks (blanks trailing) ≡ [] =
      ap skip_blanks (sym (append-nil (blanks trailing))) ∙ skip_blanks-blanks trailing [] tt in
    let fits : leb 1 (suc left) ≡ true = le→leb _ _ (omega arith) in
    rw (start, cut, rest, fits) refl
split_words_lem (suc left) lead w (v ∷ more) trailing h hs =
    let tail = line v.1 more trailing in
    let start =
      skip_blanks-blanks lead (line w (v ∷ more) trailing) (line-Starts w (v ∷ more) trailing h) in
    let cut = word_lem w (blanks (suc v.0) ++ tail) (IsWord-All w h) refl in
    let rest = skip_blanks-blanks (suc v.0) tail (line-Starts v.1 more trailing hs.0) in
    let filled = line-some v.1 more trailing hs.0 in
    let later = split_words_lem left 0 v.1 more trailing hs.0 hs.1 in
    rw (start, cut, rest, filled, later) (one_more (length more) left (v.1 ∷ seconds more) w)
