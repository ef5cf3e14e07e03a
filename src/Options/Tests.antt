-- ===== src/Options/Tests.antt =====
-- Runs of the option commands, and instances of their theorems.
use mathlib.Core.List.{Memᴰ}
use cadaver.Common.{◌>>=◌, All, ◌≡◌, refl, inl, true, false, List, [], ◌∷◌, none, some}
use cadaver.Common.Text.{codes, strcaseeq, tolower}
use cadaver.Options.{
  OptionId, Holder, OptionType, Entry, LockScope, Depth, Debugging, Globals, Options, options,
}
use cadaver.Options.Operations.{execute_set, init_options, get_bool_option}
use cadaver.Options.Table.{Only, execute_set-get_option}
use cadaver.Options.Display.{OptionLine, display_options, execute_describe}
use cadaver.Options.Shown.{init_options-display_options}
use cadaver.Options.Running.{IsShown, entry_names, run-IsShown}
use cadaver.Options.Kept.{Setting, run, options-Keyed}

abbrev debugging : Debugging
debugging = record { tokens = λ s. s ∷ []; val = λ k i. true }

abbrev globals : Globals
globals = record {
  debug_mask = λ i. false;
  lockscope = LockScope.exclusive;
  lockdepth = Depth.depth_infinite;
  searchdepth = Depth.depth_infinite;
}

abbrev fresh : Options
fresh = record { entries = options; globals = globals }

-- The fifteenth entry of the table.
abbrev proxy : Entry
proxy = record {
  name = codes "proxy";
  id = OptionId.opt_proxy;
  holder = Holder.null;
  type = OptionType.opt_string;
}

proxy_listed : Memᴰ proxy options
unfolding options
proxy_listed = Memᴰ.tail (
    Memᴰ.tail (
      Memᴰ.tail (
        Memᴰ.tail (
          Memᴰ.tail (
            Memᴰ.tail (
              Memᴰ.tail (
                Memᴰ.tail (
                  Memᴰ.tail (
                    Memᴰ.tail
                      (Memᴰ.tail (Memᴰ.tail (Memᴰ.tail (Memᴰ.tail (Memᴰ.head refl))))))))))))))

abbrev quiet : Entry
quiet = record {
  name = codes "quiet";
  id = OptionId.opt_quiet;
  holder = Holder.variable 0;
  type = OptionType.opt_bool;
}

quiet_listed : Memᴰ quiet options
unfolding options
quiet_listed = Memᴰ.tail (Memᴰ.tail (Memᴰ.tail (Memᴰ.tail (Memᴰ.head refl))))

proxy_named : strcaseeq (codes "proxy") (codes "Proxy") ≡ true
unfolding strcaseeq tolower
proxy_named = refl

quiet_named : strcaseeq (codes "quiet") (codes "QUIET") ≡ true
unfolding strcaseeq tolower
quiet_named = refl

execute_set-get_option_example :
    Only debugging fresh proxy
      (codes "Proxy")
      proxy_listed
      options-Keyed
      proxy_named
      (Holder.text (codes "cache"))
      (execute_set debugging (codes "Proxy") (some (codes "cache")) fresh)
execute_set-get_option_example =
    execute_set-get_option debugging fresh proxy (codes "Proxy") proxy_listed options-Keyed
      proxy_named refl (codes "cache") (inl refl)

abbrev settings : List Setting
settings =
    Setting.set (codes "editor") (some (codes "vi"))
    ∷ Setting.set (codes "editor") (some (codes "ed"))
    ∷ Setting.unset (codes "editor") none
    ∷ Setting.set (codes "lockscope") (some (codes "shared"))
    ∷ []

run-IsShown_example :
    (o' : Options) × ((init_options
          (codes "http://webdav.org/cadaver/custom-properties/")
          (some (codes "joe"))
          none
          globals
        >>= run debugging settings)
      ≡ some o')
    × All (IsShown debugging o'.globals) o'.entries
    × (entry_names o'.entries ≡ entry_names options)
unfolding strcaseeq tolower
run-IsShown_example =
    run-IsShown debugging (codes "http://webdav.org/cadaver/custom-properties/")
      (some (codes "joe")) none globals settings (refl, (refl, (refl, (refl, tt))))

init_options-display_options_example :
    (o : Options) × (init_options
        (codes "http://webdav.org/cadaver/custom-properties/")
        (some (codes "joe"))
        none
        globals
      ≡ some o)
    × (get_bool_option OptionId.opt_utf8 o.entries ≡ none)
    × (display_options debugging o.globals o.entries ≡ none)
init_options-display_options_example =
    init_options-display_options debugging (codes "http://webdav.org/cadaver/custom-properties/")
      (some (codes "joe")) none globals

-- The first lines of the table, with an option that is set.
shown_lines :
    display_options debugging globals (
      record {
        name = codes "quiet";
        id = OptionId.opt_quiet;
        holder = Holder.variable 1;
        type = OptionType.opt_bool;
      }
      ∷ record {
        name = codes "pager";
        id = OptionId.opt_pager;
        holder = Holder.null;
        type = OptionType.opt_string;
      }
      ∷ [])
    ≡ some (OptionLine.on_off (codes "quiet") true ∷ OptionLine.unset (codes "pager") ∷ [])
unfolding display_options
shown_lines = refl

described :
    (e : Entry) × (execute_describe (codes "PROXY") fresh ≡ some e) × (e.name ≡ codes "proxy")
unfolding execute_describe options strcaseeq tolower
described = (_, refl, refl)
