-- ===== src/Control/Call.antt =====
-- `control_call`: a line is cut into words, and the command is looked up.
use scubed.Base.{
  ℕ, zero, suc, ◌+◌, List, [], ◌∷◌, ◌++◌, Option, some, none, ◌>>=◌, true, false, ◌==◌, ◌&&◌,
  if◌then◌else◌, length, get_or, get_elem?, replicate, codes,
}
use scubed.Hashtbl.{Hashtbl, Element, text, add_element, find_element_bykey}
use scubed.Control.Reply.{Say, write_complete, write_silent_success}

-- `while (*p == ' ') p++`
unfoldable pub skip_blanks : List ℕ → List ℕ
skip_blanks [] = []
skip_blanks (c ∷ cs) = let rest = skip_blanks cs in if c == b' ' then rest else c ∷ cs

-- `while (*p != '\0' && *p != ' ') p++`: what was passed, and the rest.
unfoldable pub word : List ℕ → List ℕ × List ℕ
word [] = ([], [])
word (c ∷ cs) = let (w, rest) = word cs in if c == b' ' then ([], c ∷ cs) else (c ∷ w, rest)

-- The loop, with the number of arguments that still fit; the spaces behind a word become its end.
-- `none` is "too many arguments".
unfoldable pub split_words : ℕ → List ℕ → Option (List (List ℕ))
split_words zero command = none
split_words (suc left) command =
    let (w, behind) = word (skip_blanks command) in
    let rest = skip_blanks behind in
    let more = (do ws ← split_words left rest; some (w ∷ ws)) in
    if length rest == 0 then some (w ∷ []) else more

abbrev pub max_argc : ℕ
max_argc = 10

-- The functions that `control_commands` points to.
pub data Handler : Type 0 where
  static_info exit status set_readonly set_close_on_release check_available cycle verbose_juggler
        check_data_integrity open_internal info get_aux set_aux create_internal help close resize :
      Handler

-- `control_command_t`; its key is `name`.
pub record Command : Type 0 where
  pub name : List ℕ
  pub command : Handler
  pub argc : ℕ
  pub usage : List ℕ

abbrev pub control_commands : List Command
control_commands =
    record { name = codes "static-info"; command = static_info; argc = 0; usage = [] }
    ∷ record { name = codes "exit"; command = exit; argc = 0; usage = [] }
    ∷ record { name = codes "p"; command = status; argc = 0; usage = [] }
    ∷ record {
      name = codes "set-readonly";
      command = set_readonly;
      argc = 2;
      usage = codes " NAME BOOL";
    }
    ∷ record {
      name = codes "set-close-on-release";
      command = set_close_on_release;
      argc = 2;
      usage = codes " NAME BOOL";
    }
    ∷ record {
      name = codes "check-available";
      command = check_available;
      argc = 1;
      usage = codes " NAME";
    }
    ∷ record { name = codes "cycle"; command = cycle; argc = 2; usage = codes " NAME COUNT" }
    ∷ record {
      name = codes "verbose-juggler";
      command = verbose_juggler;
      argc = 1;
      usage = codes " NAME";
    }
    ∷ record {
      name = codes "check-data-integrity";
      command = check_data_integrity;
      argc = 1;
      usage = codes " NAME";
    }
    ∷ record {
      name = codes "open-internal";
      command = open_internal;
      argc = 3;
      usage = codes " NAME CIPHER_SPEC KEY";
    }
    ∷ record { name = codes "info"; command = info; argc = 1; usage = codes " NAME" }
    ∷ record { name = codes "get-aux"; command = get_aux; argc = 2; usage = codes " NAME KEY" }
    ∷ record {
      name = codes "set-aux";
      command = set_aux;
      argc = 3;
      usage = codes " NAME KEY VALUE";
    }
    ∷ record {
      name = codes "create-internal";
      command = create_internal;
      argc = 3;
      usage = codes " NAME CIPHER_SPEC KEY";
    }
    ∷ record { name = codes "help-internal"; command = help; argc = 0; usage = [] }
    ∷ record { name = codes "close"; command = close; argc = 1; usage = codes " NAME" }
    ∷ record {
      name = codes "resize-internal";
      command = resize;
      argc = 3;
      usage = codes " NAME BLOCKS RESERVED";
    }
    ∷ []

-- The loop of `control_thread` that fills the table; the pointer of a command is its place in the
-- array. `none` is "duplicate command".
unfoldable pub load_commands : ℕ → List Command → Hashtbl → Option Hashtbl
load_commands at [] h = some h
load_commands at (c ∷ cs) h = do
  (h', added) ← add_element h (record { ptr = at; key = c.name })
  (if added then load_commands (at + 1) cs h' else none)

-- `hashtbl_init_default(&priv->c, -1, 4, 0, 1, NULL)`
abbrev pub empty_table : Hashtbl
empty_table = record {
  buckets = replicate 16 [];
  key_size = text;
  key_bits = 4;
  unique = true;
  thread_safe = false;
  count = 0;
  held = [];
  freed = [];
}

-- What a line asks for: a reply at once, or a command with its arguments.
pub data Call : Type 0 where
  reply : Say → Call
  run : Handler → List (List ℕ) → Call

abbrev behind : List (List ℕ) → List (List ℕ)
behind [] = []
behind (w ∷ ws) = ws

-- `argc - 1` against the number of the command.
abbrev with_command : List (List ℕ) → Option Command → Call
with_command argv none =
    reply (write_complete true (codes "unknown command \"" ++ get_or argv 0 [] ++ codes "\""))
with_command argv (some c) =
    if length argv == c.argc + 1
    then run c.command (behind argv)
    else reply (write_complete true (codes "usage: " ++ get_or argv 0 [] ++ c.usage))

abbrev pointed : Option Element → Option Command
pointed none = none
pointed (some e) = get_elem? control_commands e.ptr

abbrev on_words : Hashtbl → Option (List (List ℕ)) → Option Call
on_words h none = some (reply (write_complete true (codes "too many arguments")))
on_words h (some argv) =
    let found = (do
      r ← find_element_bykey h (get_or argv 0 [])
      some (with_command argv (pointed r.1))) in
    if length argv == 1 && length (get_or argv 0 []) == 0
    then some (reply write_silent_success)
    else found

-- `control_call`, up to the call of the command
unfoldable pub control_call : Hashtbl → List ℕ → Option Call
control_call h command = on_words h (split_words max_argc command)
