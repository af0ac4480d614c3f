-- ===== src/Control/Sent.antt =====
-- What reaches the peer of the control socket.
use mathlib.Core.List.{append_assoc}
use scubed.Base.{
  ℕ, zero, suc, ◌+◌, ◌-◌, ◌<◌, ◌≤◌, ◌≡◌, refl, ◌∙◌, ap, List, [], ◌∷◌, ◌++◌, arith, ◌==◌, leb,
  leb→le, length-drop, Bool, Bool-cases, true, false, if◌then◌else◌, length, take, drop, min, All,
  inl, inr, codes,
}
use scubed.Control.Reply.{
  Socket, Say, send_all, write_string, write_status, write_complete, ◌and_then◌,
}

-- The calls of `send` to come take something, and there are enough of them for `n` bytes.
pub record Ready (n : ℕ) (s : Socket) : Type 0 where
  pub takes_some : All (λ t. 0 < t) s.takes
  pub enough : n ≤ length s.takes

-- `k` more bytes can be sent behind those that were.
abbrev pub Sends : Say → List ℕ → Socket → ℕ → Type 0
Sends say bytes s k =
    (s' : Socket) × (say s ≡ (s', false)) × (s'.sent ≡ s.sent ++ bytes) × Ready k s'

taken-some : (t n : ℕ) → 0 < t → 0 < n → (min t n == 0) ≡ false
taken-some t n a b = ground arith

take-all : (n : ℕ) (xs : List ℕ) → length xs ≤ n → take n xs ≡ xs
take-all zero [] h = refl
take-all zero (x ∷ xs) h = absurd (omega arith)
take-all (suc n) [] h = refl
take-all (suc n) (x ∷ xs) h = ap (λ ys. x ∷ ys) (take-all n xs (omega arith))

take-append-drop : (n : ℕ) (xs : List ℕ) → take n xs ++ drop n xs ≡ xs
take-append-drop zero xs = refl
take-append-drop (suc n) [] = refl
take-append-drop (suc n) (x ∷ xs) = ap (λ ys. x ∷ ys) (take-append-drop n xs)

module _ (k : ℕ) where
  send_all_lem :
      (takes sent string : List ℕ)
      → All (λ t. 0 < t) takes
      → 0 < length string
      → length string + k ≤ length takes
      → (s' : Socket) × (send_all sent takes string ≡ (s', false))
        × (s'.sent ≡ sent ++ string)
        × Ready k s'
  send_all_lem [] sent string some_one filled enough = absurd (omega (arith, filled, enough))
  send_all_lem (t ∷ ts) sent string some_one filled enough =
      let n = min t (length string) in
      let goes : (n == 0) ≡ false = taken-some t (length string) some_one.0 filled in
      elim (Bool-cases (leb (length string) n)) [
        | inl whole ↦
            let le = leb→le _ _ whole in
            (
              record { sent = sent ++ take n string; takes = ts },
              rw (goes, whole) refl,
              ap (λ x. sent ++ x) (take-all n string le),
              record { takes_some = some_one.1; enough = omega (arith, filled, enough) },
            )
        | inr part ↦
            let lt : n < length string = ground arith in
            let positive : 0 < n = ground arith in
            let left : length (drop n string) ≡ length string - n = length-drop n string in
            let (s', run, sent', ready) =
              send_all_lem ts (sent ++ take n string) (drop n string) some_one.1
                (omega (arith, left)) (omega (arith, left)) in
            (
              s',
              rw (goes, part) run,
              sent'
                  ∙ append_assoc sent (take n string) (drop n string)
                  ∙ ap (λ x. sent ++ x) (take-append-drop n string),
              ready,
            )
      ]

  write_string_lem :
      (string : List ℕ) (s : Socket)
      → 0 < length string
      → Ready (length string + k) s
      → Sends (write_string string) string s k
  unfolding write_string
  write_string_lem string s filled ready =
      send_all_lem s.takes s.sent string ready.takes_some filled ready.enough

and_then-Sends :
    (say more : Say) (one two : List ℕ) (s : Socket) (j k : ℕ)
    → Sends say one s j
    → ((s' : Socket) → Ready j s' → Sends more two s' k)
    → Sends (say and_then more) (one ++ two) s k
and_then-Sends say more one two s j k (s1, run1, sent1, ready1) next =
    let (s2, run2, sent2, ready2) = next s1 ready1 in
    (s2, rw (run1) run2, sent2 ∙ ap (λ x. x ++ two) sent1 ∙ append_assoc s.sent one two, ready2)

-- The line that tells success or failure.
abbrev pub status_text : Bool → List ℕ
status_text err = if err then codes "ERR\n" else codes "OK\n"

write_status_lem :
    (err : Bool) (s : Socket) (k : ℕ)
    → Ready (4 + k) s
    → Sends (write_status err) (status_text err) s k
write_status_lem true s k ready = write_string_lem k (codes "ERR\n") s (omega arith) ready
write_status_lem false s k ready =
    write_string_lem k (codes "OK\n") s (omega arith)
      (record { takes_some = ready.takes_some; enough = omega (arith, ready.enough) })

-- A reply with some text goes out whole, the status in front and the terminating line behind it, if
-- no call of `send` fails, however little each of them takes.
pub write_complete_lem :
    (err : Bool) (text : List ℕ) (s : Socket) (k : ℕ)
    → 0 < length text
    → Ready (4 + (length text + (3 + k))) s
    → Sends (write_complete err text) (status_text err ++ (text ++ codes "\n.\n")) s k
unfolding write_complete
write_complete_lem err text s k filled ready =
    let end = write_string (codes "\n.\n") in
    and_then-Sends (write_status err) (write_string text and_then end) (status_text err)
      (text ++ codes "\n.\n") s (length text + (3 + k)) k
      (write_status_lem err s (length text + (3 + k)) ready)
      (λ s1 ready1.
        and_then-Sends (write_string text) end text (codes "\n.\n") s1 (3 + k) k
          (write_string_lem (3 + k) text s1 filled ready1)
          (λ s2 ready2. write_string_lem k (codes "\n.\n") s2 (omega arith) ready2))
