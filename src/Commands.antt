-- ===== src/Commands.antt =====
-- The command tables of src/commands.c and src/cadaver.h: `commands`, `command_names` and the
-- search in them. The usage and help texts are not modelled.
pub mod Lookup
use cadaver.Common.{ℕ, Bool, true, false, List, [], ◌∷◌, Option, none, some, ◌==◌, if◌then◌else◌}
use cadaver.Common.Text.{Bytes, codes, strcaseeq}

pub data CommandId : Type 0 where
  cmd_ls cmd_cd cmd_quit cmd_open cmd_close cmd_about cmd_pwd cmd_help cmd_put : CommandId
  cmd_get cmd_mkcol cmd_delete cmd_move cmd_copy cmd_less cmd_cat cmd_lpwd cmd_lcd : CommandId
  cmd_lls cmd_mput cmd_mget cmd_echo cmd_set cmd_unset cmd_rmcol cmd_rename cmd_lock : CommandId
  cmd_unlock cmd_steal cmd_discover cmd_showlocks cmd_propedit cmd_propnames : CommandId
  cmd_propget cmd_propset cmd_propdel cmd_chexec cmd_edit cmd_logout cmd_describe : CommandId
  cmd_search cmd_version cmd_checkin cmd_checkout cmd_uncheckout cmd_history : CommandId
  cmd_label cmd_head cmd_resumeget cmd_unknown : CommandId

-- The value of an enumerator.
abbrev pub ordinal : CommandId → ℕ
ordinal cmd_ls = 0
ordinal cmd_cd = 1
ordinal cmd_quit = 2
ordinal cmd_open = 3
ordinal cmd_close = 4
ordinal cmd_about = 5
ordinal cmd_pwd = 6
ordinal cmd_help = 7
ordinal cmd_put = 8
ordinal cmd_get = 9
ordinal cmd_mkcol = 10
ordinal cmd_delete = 11
ordinal cmd_move = 12
ordinal cmd_copy = 13
ordinal cmd_less = 14
ordinal cmd_cat = 15
ordinal cmd_lpwd = 16
ordinal cmd_lcd = 17
ordinal cmd_lls = 18
ordinal cmd_mput = 19
ordinal cmd_mget = 20
ordinal cmd_echo = 21
ordinal cmd_set = 22
ordinal cmd_unset = 23
ordinal cmd_rmcol = 24
ordinal cmd_rename = 25
ordinal cmd_lock = 26
ordinal cmd_unlock = 27
ordinal cmd_steal = 28
ordinal cmd_discover = 29
ordinal cmd_showlocks = 30
ordinal cmd_propedit = 31
ordinal cmd_propnames = 32
ordinal cmd_propget = 33
ordinal cmd_propset = 34
ordinal cmd_propdel = 35
ordinal cmd_chexec = 36
ordinal cmd_edit = 37
ordinal cmd_logout = 38
ordinal cmd_describe = 39
ordinal cmd_search = 40
ordinal cmd_version = 41
ordinal cmd_checkin = 42
ordinal cmd_checkout = 43
ordinal cmd_uncheckout = 44
ordinal cmd_history = 45
ordinal cmd_label = 46
ordinal cmd_head = 47
ordinal cmd_resumeget = 48
ordinal cmd_unknown = 49

-- The functions that the table points to; `null` is the NULL of `quit`.
pub data Function : Type 0 where
  execute_ls execute_cd execute_pwd execute_put execute_get execute_resumeget : Function
  multi_mget multi_mput execute_edit execute_head multi_less multi_mkcol multi_cat : Function
  multi_delete multi_rmcol multi_copy multi_move execute_rename execute_lock : Function
  execute_unlock execute_discover execute_steal execute_showlocks execute_version : Function
  execute_checkin execute_checkout execute_uncheckout execute_history execute_label : Function
  execute_propnames execute_chexec execute_propget execute_propdel execute_propset : Function
  execute_search execute_set open_connection close_connection execute_echo null : Function
  execute_unset execute_lcd execute_lls execute_lpwd execute_logout execute_help : Function
  execute_describe execute_about : Function

-- The union `handler`, tagged by the member that the table initialises.
pub data Handler : Type 0 where
  take0 take1 take2 take3 take_v : Function → Handler

-- `enum command_scope`, the kind of path that the arguments are.
pub data Scope : Type 0 where
  parmscope_none parmscope_option parmscope_local parmscope_remote : Scope

pub record Command : Type 0 where
  pub id : CommandId
  pub name : Bytes
  pub needs_connection : Bool
  pub min_args : ℕ
  pub max_args : ℕ
  pub scope : Scope
  pub handler : Handler

abbrev pub cmd_vary : ℕ
cmd_vary = 9999

abbrev entry : CommandId → Bytes → Bool → ℕ → ℕ → Scope → Handler → Command
entry i n c lo hi s h = record {
  id = i;
  name = n;
  needs_connection = c;
  min_args = lo;
  max_args = hi;
  scope = s;
  handler = h;
}

-- The table, without the end marker `cmd_unknown`.
abbrev pub commands : List Command
commands =
    entry cmd_ls (codes "ls") true 0 1 parmscope_remote (take1 execute_ls)
    ∷ entry cmd_cd (codes "cd") true 1 1 parmscope_remote (take1 execute_cd)
    ∷ entry cmd_pwd (codes "pwd") true 0 0 parmscope_none (take0 execute_pwd)
    ∷ entry cmd_put (codes "put") true 1 2 parmscope_none (take2 execute_put)
    ∷ entry cmd_get (codes "get") true 1 2 parmscope_none (take2 execute_get)
    ∷ entry cmd_resumeget (codes "resumeget") true 1 2 parmscope_none (take2 execute_resumeget)
    ∷ entry cmd_mget (codes "mget") true 1 cmd_vary parmscope_remote (take_v multi_mget)
    ∷ entry cmd_mput (codes "mput") true 1 cmd_vary parmscope_local (take_v multi_mput)
    ∷ entry cmd_edit (codes "edit") true 1 1 parmscope_remote (take1 execute_edit)
    ∷ entry cmd_head (codes "head") true 1 1 parmscope_remote (take1 execute_head)
    ∷ entry cmd_less (codes "less") true 1 cmd_vary parmscope_remote (take_v multi_less)
    ∷ entry cmd_mkcol (codes "mkcol") true 1 cmd_vary parmscope_remote (take_v multi_mkcol)
    ∷ entry cmd_cat (codes "cat") true 1 cmd_vary parmscope_remote (take_v multi_cat)
    ∷ entry cmd_delete (codes "delete") true 1 cmd_vary parmscope_remote (take_v multi_delete)
    ∷ entry cmd_rmcol (codes "rmcol") true 1 cmd_vary parmscope_remote (take_v multi_rmcol)
    ∷ entry cmd_copy (codes "copy") true 2 cmd_vary parmscope_remote (take_v multi_copy)
    ∷ entry cmd_move (codes "move") true 2 cmd_vary parmscope_remote (take_v multi_move)
    ∷ entry cmd_rename (codes "rename") true 2 2 parmscope_remote (take2 execute_rename)
    ∷ entry cmd_lock (codes "lock") true 1 1 parmscope_remote (take1 execute_lock)
    ∷ entry cmd_unlock (codes "unlock") true 1 1 parmscope_remote (take1 execute_unlock)
    ∷ entry cmd_discover (codes "discover") true 1 1 parmscope_remote (take1 execute_discover)
    ∷ entry cmd_steal (codes "steal") true 1 1 parmscope_remote (take1 execute_steal)
    ∷ entry cmd_showlocks (codes "showlocks") true 0 0 parmscope_none (take0 execute_showlocks)
    ∷ entry cmd_version (codes "version") true 1 1 parmscope_remote (take1 execute_version)
    ∷ entry cmd_checkin (codes "checkin") true 1 1 parmscope_remote (take1 execute_checkin)
    ∷ entry cmd_checkout (codes "checkout") true 1 1 parmscope_remote (take1 execute_checkout)
    ∷ entry cmd_uncheckout (codes "uncheckout") true 1 1 parmscope_remote (take1 execute_uncheckout)
    ∷ entry cmd_history (codes "history") true 1 1 parmscope_remote (take1 execute_history)
    ∷ entry cmd_label (codes "label") true 3 3 parmscope_none (take3 execute_label)
    ∷ entry cmd_propnames (codes "propnames") true 1 1 parmscope_remote (take1 execute_propnames)
    ∷ entry cmd_chexec (codes "chexec") true 2 2 parmscope_none (take2 execute_chexec)
    ∷ entry cmd_propget (codes "propget") true 1 2 parmscope_none (take2 execute_propget)
    ∷ entry cmd_propdel (codes "propdel") true 2 2 parmscope_none (take2 execute_propdel)
    ∷ entry cmd_propset (codes "propset") true 3 3 parmscope_none (take3 execute_propset)
    ∷ entry cmd_search (codes "search") true 1 cmd_vary parmscope_remote (take_v execute_search)
    ∷ entry cmd_set (codes "set") false 0 2 parmscope_none (take2 execute_set)
    ∷ entry cmd_open (codes "open") false 1 1 parmscope_none (take1 open_connection)
    ∷ entry cmd_close (codes "close") true 0 0 parmscope_none (take0 close_connection)
    ∷ entry cmd_echo (codes "echo") false 1 cmd_vary parmscope_remote (take_v execute_echo)
    ∷ entry cmd_quit (codes "quit") false 0 1 parmscope_none (take1 null)
    ∷ entry cmd_unset (codes "unset") false 1 2 parmscope_none (take2 execute_unset)
    ∷ entry cmd_lcd (codes "lcd") false 0 1 parmscope_none (take1 execute_lcd)
    ∷ entry cmd_lls (codes "lls") false 0 cmd_vary parmscope_local (take_v execute_lls)
    ∷ entry cmd_lpwd (codes "lpwd") false 0 0 parmscope_none (take0 execute_lpwd)
    ∷ entry cmd_logout (codes "logout") true 0 0 parmscope_none (take0 execute_logout)
    ∷ entry cmd_help (codes "help") false 0 1 parmscope_none (take1 execute_help)
    ∷ entry cmd_describe (codes "describe") false 1 1 parmscope_none (take1 execute_describe)
    ∷ entry cmd_about (codes "about") false 0 0 parmscope_none (take0 execute_about)
    ∷ []

-- Names and aliases, without the end marker.
abbrev pub command_names : List (CommandId × Bytes)
command_names =
    (cmd_ls, codes "ls")
    ∷ (cmd_cd, codes "cd")
    ∷ (cmd_quit, codes "quit")
    ∷ (cmd_open, codes "open")
    ∷ (cmd_logout, codes "logout")
    ∷ (cmd_close, codes "close")
    ∷ (cmd_set, codes "set")
    ∷ (cmd_unset, codes "unset")
    ∷ (cmd_pwd, codes "pwd")
    ∷ (cmd_help, codes "help")
    ∷ (cmd_put, codes "put")
    ∷ (cmd_get, codes "get")
    ∷ (cmd_mkcol, codes "mkcol")
    ∷ (cmd_delete, codes "delete")
    ∷ (cmd_move, codes "move")
    ∷ (cmd_copy, codes "copy")
    ∷ (cmd_less, codes "less")
    ∷ (cmd_cat, codes "cat")
    ∷ (cmd_lpwd, codes "lpwd")
    ∷ (cmd_lcd, codes "lcd")
    ∷ (cmd_lls, codes "lls")
    ∷ (cmd_echo, codes "echo")
    ∷ (cmd_quit, codes "quit")
    ∷ (cmd_about, codes "about")
    ∷ (cmd_rename, codes "rename")
    ∷ (cmd_head, codes "head")
    ∷ (cmd_resumeget, codes "resumeget")
    ∷ (cmd_mget, codes "mget")
    ∷ (cmd_mput, codes "mput")
    ∷ (cmd_rmcol, codes "rmcol")
    ∷ (cmd_lock, codes "lock")
    ∷ (cmd_unlock, codes "unlock")
    ∷ (cmd_discover, codes "discover")
    ∷ (cmd_steal, codes "steal")
    ∷ (cmd_chexec, codes "chexec")
    ∷ (cmd_showlocks, codes "showlocks")
    ∷ (cmd_version, codes "version")
    ∷ (cmd_propget, codes "propget")
    ∷ (cmd_propset, codes "propset")
    ∷ (cmd_propdel, codes "propdel")
    ∷ (cmd_describe, codes "describe")
    ∷ (cmd_search, codes "search")
    ∷ (cmd_version, codes "version")
    ∷ (cmd_checkin, codes "checkin")
    ∷ (cmd_checkout, codes "checkout")
    ∷ (cmd_uncheckout, codes "uncheckout")
    ∷ (cmd_history, codes "history")
    ∷ (cmd_label, codes "label")
    ∷ (cmd_propnames, codes "propnames")
    ∷ (cmd_edit, codes "edit")
    ∷ (cmd_less, codes "more")
    ∷ (cmd_mkcol, codes "mkdir")
    ∷ (cmd_delete, codes "rm")
    ∷ (cmd_copy, codes "cp")
    ∷ (cmd_move, codes "mv")
    ∷ (cmd_help, codes "h")
    ∷ (cmd_help, codes "?")
    ∷ (cmd_quit, codes "exit")
    ∷ (cmd_quit, codes "bye")
    ∷ []

unfoldable pub find_id : Bytes → List (CommandId × Bytes) → Option CommandId
unfolding strcaseeq
find_id name [] = none
find_id name ((id, n) ∷ rest) = if strcaseeq n name then some id else find_id name rest

unfoldable pub find_command : CommandId → List Command → Option Command
find_command id [] = none
find_command id (cmd ∷ rest) =
    if ordinal cmd.id == ordinal id then some cmd else find_command id rest

abbrev pub find_in : Option CommandId → Option Command
find_in none = none
find_in (some id) = find_command id commands

unfoldable pub get_command : Bytes → Option Command
unfolding find_id find_command
get_command name = find_in (find_id name command_names)
