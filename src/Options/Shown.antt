-- ===== src/Options/Shown.antt =====
-- What `set` alone shows after any settings, and after the start of the program.
use cadaver.Common.{◌≡◌, inl, inr, refl, ap, Option, none, some}
use cadaver.Common.Text.{Bytes}
use cadaver.Options.{OptionId, OptionType, Entry, Debugging, Globals, Options, options}
use cadaver.Options.Display.{
  OptionLine, on_off, unset, value, handled, display_typed, display_bool, display_string,
  display_options,
}
use cadaver.Options.Kept.{HolderOf}
use cadaver.Options.Operations.{
  init_options, set_option, set_bool_option, get_option, get_bool_option,
}
use OptionType.{opt_bool, opt_string, opt_handled}

abbrev pub name_of : OptionLine → Bytes
name_of (on_off name b) = name
name_of (unset name) = name
name_of (value name v) = name
name_of (handled name s) = name

module _ (n : Debugging) (g : Globals) where
  pub typed_lem :
      (t : OptionType) (e : Entry)
      → HolderOf t e.holder
      → (line : OptionLine) × (display_typed n g t e ≡ some line) × (name_of line ≡ e.name)
  typed_lem opt_bool e h = (_, ap (display_bool n e.name) h.1, refl)
  typed_lem opt_string e (inl h) = (_, ap (display_string n e.name) h, refl)
  typed_lem opt_string e (inr h) = (_, ap (display_string n e.name) h.1, refl)
  typed_lem (opt_handled f) e h = (_, refl, refl)

-- `init_options` returns a table in which the holder of `utf8` is a pointer to nothing, whatever the
-- environment holds: reading the option faults, and so does `set` alone.
pub init_options-display_options :
    (n : Debugging) (default_namespace : Bytes) (user hostname : Option Bytes) (g : Globals)
    → (o : Options) × (init_options default_namespace user hostname g ≡ some o)
      × (get_bool_option OptionId.opt_utf8 o.entries ≡ none)
      × (display_options n o.globals o.entries ≡ none)
unfolding init_options options set_option set_bool_option get_bool_option get_option display_options
init_options-display_options n default_namespace user hostname g = (_, refl, refl, refl)
