-- ===== src/Options/Operations.antt =====
-- The operations on the option table: `set`, `unset`, the accessors and `init_options`.
use cadaver.Common.{◌>>=◌, ℕ, Bool, List, [], ◌∷◌, ◌++◌, Option, none, some, if◌then◌else◌}
use cadaver.Common.Text.{Bytes, codes, strcaseeq}
use cadaver.Options.{
  OptionId, same_id, Holder, Handled, OptionType, Entry, LockScope, Depth, Debugging, Globals,
  Options, set_debug, unset_debug, set_lockscope, set_lockdepth, set_searchdepth, options,
}
use Holder.{null, variable, text, dangling}
use OptionType.{opt_bool, opt_string, opt_handled}

-- The loops over the table: the first entry that matches is replaced, and none is if none matches.
abbrev pub update : (Entry → Bool) → (Entry → Option Entry) → List Entry → Option (List Entry)
update matches change [] = some []
update matches change (e ∷ es) =
    let rest = update matches change es in
    if matches e then (change e >>= λ e. some (e ∷ es)) else (rest >>= λ es. some (e ∷ es))

-- `* (int * ) holder = value`.
abbrev pub write_int : ℕ → Entry → Option Entry
write_int value e = elim e.holder [
  | variable n ↦ some (record e { holder = variable value })
  | _ ↦ none
]

-- The free of an old string, and the new holder.
abbrev pub replace_text : Holder → Entry → Option Entry
replace_text h e = elim e.holder [
  | null ↦ some (record e { holder = h })
  | text v ↦ some (record e { holder = h })
  | _ ↦ none
]

-- What `set` does to the entry that it finds.
abbrev pub set_entry : Option Bytes → OptionType → Entry → Option Entry
set_entry none opt_bool e = write_int 1 e
set_entry (some newv) opt_bool e = some e
set_entry none opt_string e = some e
set_entry (some newv) opt_string e = replace_text (text newv) e
set_entry newv (opt_handled h) e = some e

abbrev pub unset_entry : Option Bytes → OptionType → Entry → Option Entry
unset_entry none opt_bool e = write_int 0 e
unset_entry (some newv) opt_bool e = some e
unset_entry none opt_string e = replace_text null e
unset_entry (some newv) opt_string e = some e
unset_entry newv (opt_handled h) e = some e

abbrev pub named : Bytes → Entry → Bool
named opt e = strcaseeq e.name opt

abbrev pub find_option : Bytes → List Entry → Option Entry
find_option name [] = none
find_option name (e ∷ es) = if named name e then some e else find_option name es

module _ (n : Debugging) where
  abbrev pub set_handled : Bytes → Handled → Globals → Globals
  set_handled newv Handled.debug g = record g { debug_mask = set_debug n newv g.debug_mask }
  set_handled newv Handled.lockscope g = record g { lockscope = set_lockscope newv g.lockscope }
  set_handled newv Handled.lockdepth g = record g { lockdepth = set_lockdepth newv g.lockdepth }
  set_handled newv Handled.searchdepth g = record g { searchdepth = set_searchdepth newv }

  abbrev pub unset_handled : Option Bytes → Handled → Globals → Globals
  unset_handled newv Handled.debug g = record g { debug_mask = unset_debug n newv g.debug_mask }
  unset_handled newv Handled.lockscope g = record g { lockscope = LockScope.exclusive }
  unset_handled newv Handled.lockdepth g = record g { lockdepth = Depth.depth_infinite }
  unset_handled newv Handled.searchdepth g = record g { searchdepth = Depth.depth_infinite }

  -- The functions of a handled option, where the entry is one.
  abbrev pub set_globals : Option Bytes → Option Entry → Globals → Globals
  set_globals none found g = g
  set_globals (some newv) none g = g
  set_globals (some newv) (some e) g = elim e.type [ opt_handled h ↦ set_handled newv h g | _ ↦ g ]

  abbrev pub unset_globals : Option Bytes → Option Entry → Globals → Globals
  unset_globals newv none g = g
  unset_globals newv (some e) g = elim e.type [ opt_handled h ↦ unset_handled newv h g | _ ↦ g ]

  unfoldable pub execute_set : Bytes → Option Bytes → Options → Option Options
  execute_set opt newv o = do
    entries ← update (named opt) (λ e. set_entry newv e.type e) o.entries
    some (record {
      entries = entries;
      globals = set_globals newv (find_option opt o.entries) o.globals;
    })

  unfoldable pub execute_unset : Bytes → Option Bytes → Options → Option Options
  execute_unset opt newv o = do
    entries ← update (named opt) (λ e. unset_entry newv e.type e) o.entries
    some (record {
      entries = entries;
      globals = unset_globals newv (find_option opt o.entries) o.globals;
    })

-- NULL where no entry has the identifier.
unfoldable pub get_option : OptionId → List Entry → Holder
get_option id [] = null
get_option id (e ∷ es) = if same_id e.id id then e.holder else get_option id es

-- The value behind a holder that is read as an `int *`.
abbrev pub read_int : Holder → Option ℕ
read_int null = some 0
read_int (variable value) = some value
read_int (text v) = none
read_int dangling = none

unfoldable pub get_bool_option : OptionId → List Entry → Option ℕ
unfolding get_option
get_bool_option id es = read_int (get_option id es)

-- A NULL holder is left alone.
abbrev pub store_int : ℕ → Entry → Option Entry
store_int truth e = elim e.holder [ null ↦ some e | _ ↦ write_int truth e ]

unfoldable pub set_bool_option : OptionId → ℕ → List Entry → Option (List Entry)
set_bool_option id truth es = update (λ e. same_id e.id id) (store_int truth) es

-- The old holder is not freed.
unfoldable pub set_option : OptionId → Holder → List Entry → Option (List Entry)
set_option id newval es =
    update (λ e. same_id e.id id) (λ e. some (record e { holder = newval })) es

-- `LOCKOWNER` is the string that `USER` and `HOSTNAME` give.
abbrev pub lockowner : Option Bytes → Option Bytes → Holder
lockowner (some user) (some hostname) = text (codes "mailto:" ++ user ++ codes "@" ++ hostname)
lockowner none hostname = null
lockowner (some user) none = null

-- The build with iconv and `nl_langinfo`. The last call stores the address of a local variable.
unfoldable pub init_options : Bytes → Option Bytes → Option Bytes → Globals → Option Options
unfolding set_option set_bool_option options
init_options default_namespace user hostname g = do
  es ← set_option OptionId.opt_lockowner (lockowner user hostname) options
  es ← set_option OptionId.opt_editor null es
  es ← set_option OptionId.opt_namespace (text default_namespace) es
  es ← set_bool_option OptionId.opt_overwrite 1 es
  es ← set_bool_option OptionId.opt_quiet 1 es
  es ← set_bool_option OptionId.opt_searchall 1 es
  es ← set_option OptionId.opt_utf8 dangling es
  some (record {
    entries = es;
    globals = record g {
      lockscope = LockScope.exclusive;
      lockdepth = Depth.depth_infinite;
      searchdepth = Depth.depth_infinite;
    };
  })
