-- ===== src/CommandLine.antt =====
-- A command line is split into words (`parse_command` of src/cmdline.c) and handed to the
-- function of its command (`execute_command` of src/cadaver.c).
pub mod Total
pub mod Safe
pub mod Written
pub mod Help
mod Tests
use cadaver.Commands.{
  CommandId, Function, Handler, Scope, parmscope_local, parmscope_remote, Command, cmd_quit,
  cmd_vary, get_command, ordinal,
}
use cadaver.Common.{
  ℕ, zero, suc, ◌+◌, ◌-◌, Bool, true, false, not, ◌&&◌, ◌||◌, List, [], ◌∷◌, ◌++◌, Option, none,
  some, ltb, leb, ◌==◌, if◌then◌else◌, length,
}
use cadaver.Common.Text.{Bytes}
use cadaver.Tokenizer.{gettoken}

pub has_glob_pattern : Bytes → Bool
has_glob_pattern [] = false
has_glob_pattern (c ∷ str) =
    if c == b'*' || c == b'[' || c == b'?' then true else has_glob_pattern str

-- The words read so far, and the command that the first one names.
pub record Words : Type 0 where
  pub tokens : List Bytes
  pub cmd : Option Command

abbrev pub in_scope : Scope → Bool → Bool
in_scope parmscope_remote connected = connected
in_scope parmscope_local connected = true
in_scope _ connected = false

abbrev pub expands : Option Command → Bool → Bool
expands none connected = false
expands (some cmd) connected = in_scope cmd.scope connected

abbrev pub no_words : Words
no_words = record { tokens = []; cmd = none }

-- The array slots behind the command's word: an argument, the NULL behind the last one, or
-- memory that is not the array's.
pub data Slot : Type 0 where
  token : Bytes → Slot
  null : Slot
  outside : Slot

abbrev pub slot : List Bytes → ℕ → Slot
slot [] zero = null
slot [] (suc i) = outside
slot (t ∷ args) zero = token t
slot (t ∷ args) (suc i) = slot args i

-- The member of the union that is called, with its arguments; `skipped` is the empty default.
pub data Args : Type 0 where
  take0 : Args
  take1 : Slot → Args
  take2 : Slot → Slot → Args
  take3 : Slot → Slot → Slot → Args
  take_v : ℕ → List Bytes → Args
  skipped : Args

-- The switch on `cmd->max_args`.
pub choose : ℕ → List Bytes → Args
choose max_args args =
    if max_args == 0
    then take0
    else if max_args == 1
    then take1 (slot args 0)
    else if max_args == 2
    then (if leb (length args) 1
        then take2 (slot args 0) null
        else take2 (slot args 0) (slot args 1))
    else if max_args == 3
    then take3 (slot args 0) (slot args 1) (slot args 2)
    else if max_args == cmd_vary
    then take_v (length args) args
    else skipped

-- What a line leads to: a message, the end of the program, or a call.
pub data Outcome : Type 0 where
  blank unrecognised quit : Outcome
  too_few too_many not_connected : Command → Outcome
  invoke : Command → Args → Outcome

-- The chain of tests, on the entry of the command and its arguments.
pub admit : Bool → List Bytes → Option Command → Outcome
unfolding choose
admit connected args none = unrecognised
admit connected args (some cmd) =
    if ltb (length args) cmd.min_args
    then too_few cmd
    else if ltb cmd.max_args (length args)
    then too_many cmd
    else if not connected && cmd.needs_connection
    then not_connected cmd
    else if ordinal cmd.id == ordinal cmd_quit
    then quit
    else invoke cmd (choose cmd.max_args args)

pub dispatch : Bool → List Bytes → Outcome
unfolding admit
dispatch connected [] = blank
dispatch connected (t ∷ args) = admit connected args (get_command t)

-- The words that the last loop frees: `argcount` no longer counts the command's word.
pub freed : List Bytes → List Bytes
freed [] = []
freed (t ∷ []) = []
freed (t ∷ u ∷ ts) = t ∷ freed (u ∷ ts)

pub record Run : Type 0 where
  pub outcome : Outcome
  pub tokens : List Bytes
  pub released : List Bytes

abbrev pub run_words : Bool → List Bytes → Run
run_words connected ts = record {
  outcome = dispatch connected ts;
  tokens = ts;
  released = freed ts;
}

abbrev pub run_parsed : Bool → Option (List Bytes) → Option Run
run_parsed connected none = none
run_parsed connected (some ts) = some (run_words connected ts)

-- `bufsiz` is BUFSIZ of stdio.h. `glob` is the pattern expansion of lib/glob over the local or the
-- remote directory: the matches, or `none` for any of its failures.
module _ (bufsiz : ℕ) (glob : Scope → Bytes → Option (List Bytes)) (connected : Bool) where
  abbrev pub expansion : Option Command → Bytes → List Bytes
  expansion none t = t ∷ []
  expansion (some cmd) t = elim (glob cmd.scope t) [ some matches ↦ matches | none ↦ t ∷ [] ]

  -- The body of the loop over the words.
  pub add_token : Words → Bytes → Words
  unfolding has_glob_pattern
  add_token w t =
      if length w.tokens == 0
      then record { tokens = t ∷ []; cmd = get_command t }
      else if has_glob_pattern t && expands w.cmd connected
      then record w { tokens = w.tokens ++ expansion w.cmd t }
      else record w { tokens = w.tokens ++ t ∷ [] }

  abbrev pub proceed :
      Words → (Words → Bytes → Option (List Bytes)) → Option Bytes × Bytes → Option (List Bytes)
  proceed w next (none, rest) = some w.tokens
  proceed w next (some t, rest) = next (add_token w t) rest

  -- The loop, with fuel; `none` means that the fuel ran out.
  pub parse_words : ℕ → Words → Bytes → Option (List Bytes)
  unfolding add_token gettoken
  parse_words zero w line = none
  parse_words (suc f) w line = proceed w (parse_words f) (gettoken bufsiz line)

  unfoldable pub parse_command : Bytes → Option (List Bytes)
  unfolding parse_words
  parse_command line = parse_words (length line + 1) no_words line

  unfoldable pub execute_command : Bytes → Option Run
  unfolding parse_command dispatch freed
  execute_command line = run_parsed connected (parse_command line)
