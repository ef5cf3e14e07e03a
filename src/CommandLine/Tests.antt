-- ===== src/CommandLine/Tests.antt =====
-- Runs of the command line on concrete lines, and instances of its theorems.
use mathlib.Core.List.{Memᴰ}
use cadaver.CommandLine.{
  parse_command, has_glob_pattern, execute_command, dispatch, run_words, unrecognised,
}
use cadaver.CommandLine.Help.{HelpLine, Agrees, execute_echo, execute_help, execute_help-dispatch}
use cadaver.CommandLine.Safe.{Allowed, dispatch-Allowed}
use cadaver.CommandLine.Total.{parse_command_total}
use cadaver.CommandLine.Written.{write_line, execute_command-write_line}
use cadaver.Commands.Lookup.{get_command_complete}
use cadaver.Commands.{Scope, Command, get_command, cmd_ls, parmscope_remote, Function, Handler}
use cadaver.Common.{◌+◌, ◌≤◌, ◌<◌, ◌≡◌, refl, true, false, List, [], ◌∷◌, ◌++◌, Option, some, arith}
use cadaver.Common.Text.{Bytes, codes, strcaseeq}
use cadaver.Tokenizer.Bounds.{gettoken_bounds}
use cadaver.Tokenizer.RoundTrip.{gettoken-enquote, remark}
use cadaver.Tokenizer.{gettoken}

abbrev ls_entry : Command
ls_entry = record {
  id = cmd_ls;
  name = codes "ls";
  needs_connection = true;
  min_args = 0;
  max_args = 1;
  scope = parmscope_remote;
  handler = Handler.take1 Function.execute_ls;
}

abbrev two_files : Scope → Bytes → Option (List Bytes)
two_files scope t = some (codes "a.txt" ∷ codes "b.txt" ∷ [])

splits :
    parse_command 8192 two_files true (codes "  rm 'a b' c\\ d # gone")
    ≡ some (codes "rm" ∷ codes "a b" ∷ codes "c d" ∷ [])
unfolding parse_command gettoken get_command
splits = refl

expands_pattern :
    parse_command 8192 two_files true (codes "rm *.txt")
    ≡ some (codes "rm" ∷ codes "a.txt" ∷ codes "b.txt" ∷ [])
unfolding parse_command gettoken get_command
expands_pattern = refl

offline_pattern :
    parse_command 8192 two_files false (codes "rm *.txt") ≡ some (codes "rm" ∷ codes "*.txt" ∷ [])
unfolding parse_command gettoken get_command
offline_pattern = refl

-- An empty word ends the line.
empty_word : parse_command 8192 two_files true (codes "rm '' b") ≡ some (codes "rm" ∷ [])
unfolding parse_command gettoken get_command
empty_word = refl

unknown_command : dispatch true (codes "frob" ∷ []) ≡ unrecognised
unfolding dispatch get_command
unknown_command = refl

abbrev line_end : Bytes
line_end = codes "# the rest is not read"

gettoken_bounds_example : (0 < 3) × (3 < 8192) × (3 + 1 ≤ 6)
gettoken_bounds_example =
    gettoken_bounds 8192 (codes " foo x") {token = codes "foo"} {rest = codes "x"}
      (unfold gettoken in refl)

gettoken-enquote_example : gettoken 16 (codes " 'it\\'s' b") ≡ (some (codes "it's"), codes " b")
gettoken-enquote_example =
    gettoken-enquote 16 (codes " ") (codes "it's") (codes " b") (refl, tt) (omega arith)
      (omega arith)

parse_command_total_example :
    (ts : List Bytes) × (parse_command 8192 two_files true (codes "rm *.txt") ≡ some ts)
parse_command_total_example = parse_command_total 8192 two_files true (codes "rm *.txt")

dispatch-Allowed_example : Allowed true (dispatch true (codes "LS" ∷ codes "x" ∷ []))
dispatch-Allowed_example = dispatch-Allowed true (codes "LS" ∷ codes "x" ∷ [])

execute_command-write_line_example :
    execute_command 8192 two_files true (write_line (codes "rm" ∷ codes "it's" ∷ []) line_end)
    ≡ some (run_words true (codes "rm" ∷ codes "it's" ∷ []))
unfolding has_glob_pattern
execute_command-write_line_example =
    execute_command-write_line 8192 two_files true (codes "rm" ∷ codes "it's" ∷ []) (omega arith)
      ((omega arith, omega arith, refl), ((omega arith, omega arith, refl), tt))
      (remark (codes " the rest is not read"))

get_command_complete_example : get_command (codes "Ls") ≡ some ls_entry
unfolding strcaseeq
get_command_complete_example = get_command_complete ls_entry (codes "Ls") (Memᴰ.head refl) refl

echoed : execute_echo (codes "a" ∷ codes "b" ∷ []) ≡ codes "a b " ++ 10 ∷ []
unfolding execute_echo
echoed = refl

help_unknown : execute_help (some (codes "frob")) ≡ HelpLine.not_known (codes "frob") ∷ []
unfolding execute_help get_command
help_unknown = refl

execute_help-dispatch_example :
    Agrees (execute_help (some (codes "ls"))) (dispatch false (codes "ls" ∷ codes "d" ∷ []))
execute_help-dispatch_example = execute_help-dispatch (codes "ls") (codes "d" ∷ [])
