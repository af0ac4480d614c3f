-- ===== src/Cipher/Name.antt =====
-- `cipher_init`: a name of the form MODE(PRIMITIVE).
use scubed.Base.{ℕ, List, [], ◌∷◌, Option, some, none, ◌==◌, if◌then◌else◌, Bool, true, false, ◌&&◌}

pub data Mode : Type 0 where
  null cbc_plain cbc_essiv : Mode

pub data Outcome : Type 0 where
  ok : Mode → List ℕ → Outcome
  no_closing_paren data_after no_opening_paren not_supported : Outcome

-- `strcmp` on texts without the terminating zero
abbrev pub same_text : List ℕ → List ℕ → Bool
same_text [] [] = true
same_text [] (y ∷ ys) = false
same_text (x ∷ xs) [] = false
same_text (x ∷ xs) (y ∷ ys) = x == y && same_text xs ys

abbrev pub mode_name : Mode → List ℕ
mode_name null = b'N' ∷ b'U' ∷ b'L' ∷ b'L' ∷ []
mode_name cbc_plain = b'C' ∷ b'B' ∷ b'C' ∷ b'_' ∷ b'P' ∷ b'L' ∷ b'A' ∷ b'I' ∷ b'N' ∷ []
mode_name cbc_essiv = b'C' ∷ b'B' ∷ b'C' ∷ b'_' ∷ b'E' ∷ b'S' ∷ b'S' ∷ b'I' ∷ b'V' ∷ []

abbrev pub behind_byte : ℕ → Option (List ℕ × List ℕ) → Option (List ℕ × List ℕ)
behind_byte x none = none
behind_byte x (some (before, behind)) = some (x ∷ before, behind)

-- What stands before the first `c` and what stands behind it, as `strchr` and a zero byte cut it.
unfoldable pub cut : ℕ → List ℕ → Option (List ℕ × List ℕ)
cut c [] = none
cut c (x ∷ xs) = if x == c then some ([], xs) else behind_byte x (cut c xs)

-- The search through `cipher_specs`.
unfoldable pub find_mode : List ℕ → Option Mode
find_mode name =
    if same_text name (mode_name null)
    then some null
    else if same_text name (mode_name cbc_plain)
    then some cbc_plain
    else if same_text name (mode_name cbc_essiv)
    then some cbc_essiv
    else none

abbrev pub with_mode : Option Mode → List ℕ → Outcome
with_mode none prim = not_supported
with_mode (some m) prim = ok m prim

abbrev pub behind_open : Option (List ℕ × List ℕ) → Outcome
behind_open none = no_opening_paren
behind_open (some (mode, prim)) = with_mode (find_mode mode) prim

abbrev pub behind_close : Option (List ℕ × List ℕ) → Outcome
behind_close none = no_closing_paren
behind_close (some (inner, [])) = behind_open (cut b'(' inner)
behind_close (some (inner, x ∷ xs)) = data_after

-- What `cipher_init` makes of the name.
unfoldable pub parse_name : List ℕ → Outcome
parse_name name = behind_close (cut b')' name)
