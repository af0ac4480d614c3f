-- ===== src/Control/Reply.antt =====
-- What src/control.c sends.
use scubed.Base.{
  ℕ, List, [], ◌∷◌, ◌++◌, Bool, true, false, ◌==◌, if◌then◌else◌, min, take, drop, length, leb,
  codes,
}

-- The connection: the bytes that went out, and what the calls of `send` to come will return. A call
-- takes as many bytes as it says, at most those it was given; 0 stands for an error too, and so does
-- the end of the list.
pub record Socket : Type 0 where
  pub sent : List ℕ
  pub takes : List ℕ

-- The socket behind some writes, and whether one failed, which is the return value -1.
abbrev pub Say : Type 0
Say = Socket → Socket × Bool

-- The loop of `control_write_string`, over what is still to be sent.
abbrev pub send_all : List ℕ → List ℕ → List ℕ → Socket × Bool
send_all sent [] string = (record { sent = sent; takes = [] }, true)
send_all sent (t ∷ ts) string =
    let n = min t (length string) in
    let rest = send_all (sent ++ take n string) ts (drop n string) in
    if n == 0
    then (record { sent = sent; takes = ts }, true)
    else if leb (length string) n
    then (record { sent = sent ++ take n string; takes = ts }, false)
    else rest

unfoldable pub write_string : List ℕ → Say
write_string string s = send_all s.sent s.takes string

-- Two writes, the second one if the first one succeeds.
infixr 2 ◌and_then◌
abbrev pub ◌and_then◌ : Say → Say → Say
(say and_then more) s = let (s', failed) = say s in if failed then (s', true) else more s'

abbrev pub write_silent_success : Say
write_silent_success = write_string (codes "OK\n.\n")

abbrev pub write_status : Bool → Say
write_status err = if err then write_string (codes "ERR\n") else write_string (codes "OK\n")

abbrev pub write_terminate : Say
write_terminate = write_string (codes ".\n")

-- `control_write_complete`, with the text as `vasprintf` makes it
unfoldable pub write_complete : Bool → List ℕ → Say
write_complete err text =
    write_status err and_then (write_string text and_then write_string (codes "\n.\n"))
