-- ===== src/CommandLine/Help.antt =====
-- The commands `help` and `echo` of src/commands.c, and what `help` says against what a line does.
use cadaver.CommandLine.{Outcome, admit, dispatch, unrecognised, too_few, too_many, not_connected}
use cadaver.Commands.{Command, commands, get_command, ordinal, cmd_quit}
use cadaver.Common.{
  ◌≡◌, ◌≢◌, ◌⊎◌, inl, inr, refl, Bool, true, false, List, [], ◌∷◌, ◌++◌, Option, none, some, ltb,
  ◌==◌, if◌then◌else◌, length, map, if_cases,
}
use cadaver.Common.Text.{Bytes}

-- What `help` shows: the names of all commands, the usage of one, the line on connections, or that a
-- name is not known.
pub data HelpLine : Type 0 where
  available : List Bytes → HelpLine
  usage : Command → HelpLine
  only_connected : HelpLine
  not_known : Bytes → HelpLine

abbrev pub display_help_message : List HelpLine
display_help_message = available (map (λ cmd. cmd.name) commands) ∷ []

abbrev pub help_of : Bytes → Option Command → List HelpLine
help_of arg none = not_known arg ∷ []
help_of arg (some cmd) = usage cmd ∷ (if cmd.needs_connection then only_connected ∷ [] else [])

unfoldable pub execute_help : Option Bytes → List HelpLine
execute_help none = display_help_message
execute_help (some arg) = help_of arg (get_command arg)

-- Each word with a blank behind it, and the end of the line.
unfoldable pub execute_echo : List Bytes → Bytes
execute_echo [] = 10 ∷ []
execute_echo (arg ∷ args) = arg ++ b' ' ∷ execute_echo args

-- A line without a connection does what `help` says of its command.
abbrev pub Agrees : List HelpLine → Outcome → Type 0
Agrees (not_known name ∷ []) o = o ≡ unrecognised
Agrees (usage cmd ∷ only_connected ∷ []) o =
    (o ≡ too_few cmd) ⊎ ((o ≡ too_many cmd) ⊎ (o ≡ not_connected cmd))
Agrees (usage cmd ∷ []) o = (o ≢ unrecognised) × (o ≢ not_connected cmd)
Agrees _ o = ⊥

agrees_lem :
    (cmd : Command) (args : List Bytes) (b : Bool)
    → cmd.needs_connection ≡ b
    → Agrees (usage cmd ∷ (if b then only_connected ∷ [] else [])) (admit false args (some cmd))
unfolding admit
agrees_lem cmd args true e = simp e (
    if_cases (Agrees (usage cmd ∷ only_connected ∷ [])) (ltb (length args) cmd.min_args)
      (λ _. inl refl)
      λ _.
        if_cases (Agrees (usage cmd ∷ only_connected ∷ [])) (ltb cmd.max_args (length args))
          (λ _. inr (inl refl)) (λ _. inr (inr refl)))
agrees_lem cmd args false e = simp e (
    if_cases (Agrees (usage cmd ∷ [])) (ltb (length args) cmd.min_args) (λ _. (λ q. cc, λ q. cc))
      λ _.
        if_cases (Agrees (usage cmd ∷ [])) (ltb cmd.max_args (length args))
          (λ _. (λ q. cc, λ q. cc))
          λ _.
            if_cases (Agrees (usage cmd ∷ [])) (ordinal cmd.id == ordinal cmd_quit)
              (λ _. (λ q. cc, λ q. cc)) (λ _. (λ q. cc, λ q. cc)))

-- What `help NAME` says of a command is what a line with that name does without a connection, whatever
-- its arguments: a name that is not known is not recognised; a command that can only be used when
-- connected is not called; and any other command is neither unrecognised nor refused for the
-- connection.
pub execute_help-dispatch :
    (name : Bytes) (args : List Bytes)
    → Agrees (execute_help (some name)) (dispatch false (name ∷ args))
unfolding execute_help dispatch
execute_help-dispatch name args = go (get_command name)
  where
    go : (o : Option Command) → Agrees (help_of name o) (admit false args o)
    go none = unfold admit in refl
    go (some cmd) = agrees_lem cmd args cmd.needs_connection refl
