-- ===== src/Hashtbl/Invariant.antt =====
-- The invariant of a table: the count, and every element in the bucket of its key.
use native.Mathlib.Nat.{mod-lt, one-le-pow}
use scubed.Base.{
  ℕ, zero, suc, ◌+◌, ◌-◌, ◌^◌, ◌≤◌, ◌<◌, ◌≡◌, inl, inr, refl, sym, ap, subst, List, [], ◌∷◌, length,
  get_or, set, arith, ◌==◌, ==→eq, eq→==, none, Bool-cases, true, All, bit_and, get_or-set_self,
  get_or-set_ne, take,
}
use scubed.Bits.Digit.{bit_and-ones}
use scubed.Scubed.Address.{mask_ones}
use scubed.Hashtbl.{
  KeySize, text, bytes, Element, Hashtbl, by_key, same_bytes, same_key, find_in, get_bucket,
  hash_of,
}

abbrev pub total : List (List Element) → ℕ
total [] = 0
total (c ∷ cs) = length c + total cs

pub total-set :
    (cs : List (List Element)) (i : ℕ) (c : List Element)
    → i < length cs
    → total (set cs i c) + length (get_or cs i []) ≡ total cs + length c
total-set [] i c h = absurd (omega arith)
total-set (x ∷ xs) zero c h = omega arith
total-set (x ∷ xs) (suc i) c h = omega (arith, total-set xs i c (omega arith))

-- No key is in a chain twice.
abbrev pub Distinct : KeySize → List Element → Type 0
Distinct size [] = Unit
Distinct size (e ∷ es) = (find_in size (by_key e.key) es ≡ none) × Distinct size es

pub record IsValid (h : Hashtbl) : Type 0 where
  pub some_bits : 1 ≤ h.key_bits
  pub few_bits : h.key_bits ≤ 16
  pub all_buckets : length h.buckets ≡ 2 ^ h.key_bits
  pub counted : h.count ≡ total h.buckets
  pub placed : (b : ℕ) → All (λ (e : Element). get_bucket h e.key ≡ b) (get_or h.buckets b [])
  pub once : h.unique ≡ true → (b : ℕ) → Distinct h.key_size (get_or h.buckets b [])

-- Every key has a bucket.
pub get_bucket-lt : (h : Hashtbl) (key : List ℕ) → IsValid h → get_bucket h key < 2 ^ h.key_bits
unfolding get_bucket
get_bucket-lt h key k = omega (
  arith,
  ap (bit_and (hash_of h.key_size key))
      (mask_ones h.key_bits (32 - h.key_bits) (omega (arith, k.few_bits))),
  bit_and-ones (hash_of h.key_size key) h.key_bits,
  mod-lt (hash_of h.key_size key) (one-le-pow h.key_bits 2 (omega arith)),
)

same_bytes_self : (xs : List ℕ) → same_bytes xs xs ≡ true
same_bytes_self [] = refl
same_bytes_self (x ∷ xs) = rw (eq→== x x refl) (same_bytes_self xs)

pub same_key_self : (size : KeySize) (key : List ℕ) → same_key size key key ≡ true
same_key_self text key = same_bytes_self key
same_key_self (bytes less) key = same_bytes_self (take (suc less) key)

-- What holds of every chain, after one was exchanged.
pub set_every :
    (P : ℕ → List Element → Type 0) (cs : List (List Element)) (i : ℕ) (c : List Element)
    → i < length cs
    → ((b : ℕ) → P b (get_or cs b []))
    → P i c
    → (b : ℕ) → P b (get_or (set cs i c) b [])
set_every P cs i c h every new b = elim (Bool-cases (b == i)) [
  | inl here ↦
      let e = ==→eq b i here in
      subst (λ x. P x (get_or (set cs i c) x [])) (sym e)
        (subst (P i) (sym (get_or-set_self cs i c [] h)) new)
  | inr apart ↦ subst (P b) (sym (get_or-set_ne cs i b c [] (ground arith))) (every b)
]
