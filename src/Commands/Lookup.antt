-- ===== src/Commands/Lookup.antt =====
-- What `get_command` finds.
use mathlib.Core.List.{Memᴰ}
use cadaver.Common.{
  ◌≡◌, refl, ap, ◌∙◌, All-mem, Bool-cases, inl, inr, ◌==◌, true, List, [], ◌∷◌, Option, none, some,
  arith, All,
}
use cadaver.Common.Text.{Bytes, strcaseeq, strcaseeq_congr}
use cadaver.Commands.{
  Command, CommandId, commands, command_names, find_id, find_in, get_command, find_command, ordinal,
}

find_id_congr :
    (a b : Bytes) (l : List (CommandId × Bytes)) → strcaseeq a b ≡ true → find_id b l ≡ find_id a l
unfolding find_id
find_id_congr a b [] h = refl
find_id_congr a b ((i, n) ∷ l) h = ground (arith, strcaseeq_congr a b n h, find_id_congr a b l h)

-- What the table holds is found by its own name.
abbrev Found : Command → Type 0
Found cmd = get_command cmd.name ≡ some cmd

All-Found : All Found commands
unfolding get_command
All-Found = assumption refl

-- A name of the table, in any mixture of cases, finds the entry of that name: every command has
-- an alias entry that leads to it, and no other command is in its way.
pub get_command_complete :
    (cmd : Command) (name : Bytes)
    → Memᴰ cmd commands
    → strcaseeq cmd.name name ≡ true
    → get_command name ≡ some cmd
unfolding get_command
get_command_complete cmd name m h =
    ap find_in (find_id_congr cmd.name name command_names h) ∙ All-mem Found commands All-Found m

find_command-mem :
    (id : CommandId) (l : List Command) {cmd : Command} → find_command id l ≡ some cmd → Memᴰ cmd l
unfolding find_command
find_command-mem id [] h = cc
find_command-mem id (x ∷ l) h = elim (Bool-cases (ordinal x.id == ordinal id)) [
  | inl e ↦ Memᴰ.head (ground arith)
  | inr e ↦ Memᴰ.tail (find_command-mem id l (ground arith))
]

-- Only entries of the table are found.
pub get_command-mem :
    (name : Bytes) {cmd : Command} → get_command name ≡ some cmd → Memᴰ cmd commands
unfolding get_command
get_command-mem name {cmd} h = go (find_id name command_names) h
  where
    go : (o : Option CommandId) → find_in o ≡ some cmd → Memᴰ cmd commands
    go none e = cc
    go (some id) e = find_command-mem id commands e
